-- ===== src/RateLimit/Failures.antt =====
-- Failures one after the other, as the code records them.
use strix.Base.{List, [], ◌∷◌, Option, none, some, Text}
use strix.Chrono.{Chrono}
use strix.RateLimit.{Instant, RateLimitConfig, RateLimitStatus, Table, record_login_failure}

-- The table that a failure leaves, if the function did not panic.
abbrev table_of : Option (Table × RateLimitStatus) → Option Table
table_of none = none
table_of (some (t, _)) = some t

abbrev and_then : Option Table → (Table → Option Table) → Option Table
and_then none next = none
and_then (some t) next = next t

module _ (c : Chrono) (config : RateLimitConfig) (key : Text) where
  unfoldable pub failures : List Instant → Table → Option Table
  unfolding record_login_failure
  failures [] t = some t
  failures (now ∷ ts) t =
      and_then (table_of (record_login_failure c config now t key)) (failures ts)
