-- ===== src/Examples/Clock.antt =====
-- Instants up to a limit, for which chrono's sums and differences are exact.
use strix.Base.{ℕ, ◌+◌, ◌-◌, ◌≡◌, Option, none, some, ℤ, pos, negsuc, leb, if◌then◌else◌, arith}
use strix.Chrono.{Chrono, IsChrono, of_seconds}

-- 8334601228800 seconds before 1970 chrono's instants begin.
abbrev pub reach : ℕ
reach = 8334601228800

-- The end of the year 262142, in nanoseconds.
abbrev pub latest : ℕ
latest = 8210266876799999999999

abbrev up_to_latest : ℕ → Option ℕ
up_to_latest sum = if leb sum latest then some sum else none

abbrev later : ℕ → ℤ → Option ℕ
later now (pos secs) = up_to_latest (now + of_seconds secs)
later now (negsuc n) = some (now - of_seconds (n + 1))

abbrev earlier : ℕ → ℤ → Option ℕ
earlier now (pos secs) = if leb secs reach then some (now - of_seconds secs) else none
earlier now (negsuc n) = up_to_latest (now + of_seconds (n + 1))

abbrev pub chrono : Chrono
chrono = record {
  seconds_before = earlier;
  seconds_after = later;
  from_std = λ secs. if leb secs 9223372036854775 then some secs else none;
}

exact_sum : (sum got : ℕ) → up_to_latest sum ≡ some got → got ≡ sum
exact_sum sum got h = ground arith

pub chrono-IsChrono : IsChrono chrono reach latest
chrono-IsChrono = record {
  before = λ now secs l h. ground arith;
  after = λ now secs h. ground arith;
  exact = λ now secs sum h. exact_sum (now + of_seconds secs) sum h;
}
