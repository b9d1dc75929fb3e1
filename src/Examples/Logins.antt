-- ===== src/Examples/Logins.antt =====
-- Failed logins.
use strix.Base.{[], ◌∷◌, none, some, Text, codes, pos}
use strix.Chrono.{of_seconds}
use strix.RateLimit.{Table}

abbrev key : Text
key = codes "ip:10.0.0.1"

-- Four failures so far.
abbrev four : Table
four =
    record { key = key; attempts = pos 4; first_attempt_at = of_seconds 100; locked_until = none }
    ∷ []

abbrev five : Table
five =
    record {
      key = key;
      attempts = pos 5;
      first_attempt_at = of_seconds 100;
      locked_until = some (of_seconds 1030);
    }
    ∷ []
