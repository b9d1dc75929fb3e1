-- ===== src/Chrono.antt =====
-- What the code uses of the crate chrono, as parameters.
use strix.Base.{ℕ, ◌+◌, ◌-◌, ◌*◌, ◌≤◌, ◌≡◌, Option, some, ℤ, pos}

-- Instants are numbers of nanoseconds since 1970, one before that is 0. `seconds_before` and
-- `seconds_after` subtract and add a `Duration::seconds`, and `from_std` reads a duration of whole
-- seconds; where chrono panics or answers with an error, there is no value.
pub record Chrono : Type 0 where
  pub seconds_before : ℕ → ℤ → Option ℕ
  pub seconds_after : ℕ → ℤ → Option ℕ
  pub from_std : ℕ → Option ℕ

abbrev pub of_seconds : ℕ → ℕ
of_seconds s = s * 1000000000

-- Up to the last instant, and back to the first one, which is `reach` seconds before 1970, sums and
-- differences are exact; and a sum that there is is exact.
pub record IsChrono (c : Chrono) (reach latest : ℕ) : Type 0 where
  pub before :
      (now secs : ℕ)
      → now ≤ latest
      → secs ≤ reach
      → c.seconds_before now (pos secs) ≡ some (now - of_seconds secs)
  pub after :
      (now secs : ℕ)
      → now + of_seconds secs ≤ latest
      → c.seconds_after now (pos secs) ≡ some (now + of_seconds secs)
  pub exact :
      (now secs sum : ℕ) → c.seconds_after now (pos secs) ≡ some sum → sum ≡ now + of_seconds secs
