-- ===== src/RateLimit.antt =====
-- Login rate limiting: `RateLimitConfig`, `RateLimitStatus` and the operations on the table
-- `rate_limits` of crates/strix-iam/src/store.rs.
pub mod Lockout
pub mod Counting
pub mod Failures
use strix.Base.{
  ℕ, ◌-◌, ◌/◌, ℤ, pos, leb_ℤ, as_i64, as_i32, as_u32, increment, Bool, true, false, not, ◌&&◌, List,
  [], ◌∷◌, ◌++◌, Option, none, some, Text, text_eq, find, update, remove, ltb, if◌then◌else◌,
}
use strix.Chrono.{Chrono}

-- Instants are nanoseconds.
abbrev pub Instant : Type 0
Instant = ℕ

-- `max_attempts` is a `u32`, the others are `u64`.
pub record RateLimitConfig : Type 0 where
  pub max_attempts : ℕ
  pub window_secs : ℕ
  pub lockout_secs : ℕ

-- `RateLimitConfig::default()`
abbrev pub default_config : RateLimitConfig
default_config = record { max_attempts = 5; window_secs = 60; lockout_secs = 900 }

pub record RateLimitStatus : Type 0 where
  pub is_locked : Bool
  pub attempts : ℕ
  pub lockout_remaining_secs : Option ℕ

-- A row of `rate_limits`. `attempts` is read as an `i32`; the instants are exact in the texts of the
-- columns.
pub record RateLimitRow : Type 0 where
  pub key : Text
  pub attempts : ℤ
  pub first_attempt_at : Instant
  pub locked_until : Option Instant

abbrev pub Table : Type 0
Table = List RateLimitRow

abbrev pub has_key : Text → RateLimitRow → Bool
has_key key r = text_eq r.key key

unfoldable pub status : Bool → ℤ → Option ℕ → RateLimitStatus
unfolding as_u32
status is_locked attempts remaining = record {
  is_locked = is_locked;
  attempts = as_u32 attempts;
  lockout_remaining_secs = remaining;
}

-- The time left of a lockout that has not ended.
remaining : Instant → Option Instant → Option ℕ
remaining now none = none
remaining now (some until) = if ltb now until then some ((until - now) / 1000000000) else none

-- One more attempt in the window.
unfoldable pub count_attempt :
    RateLimitConfig → Instant → RateLimitRow → RateLimitRow × RateLimitStatus
unfolding increment as_i32 status
count_attempt config lockout_until r =
    let new_attempts = increment r.attempts in
    if leb_ℤ (as_i32 config.max_attempts) new_attempts
    then (
      record r { attempts = new_attempts; locked_until = some lockout_until },
      status true new_attempts (some config.lockout_secs),
    )
    else (record r { attempts = new_attempts }, status false new_attempts none)

-- The row and the answer after a failure for a key that has a row.
unfoldable pub record_in_row :
    RateLimitConfig
    → (now window_start lockout_until : Instant) → RateLimitRow
    → RateLimitRow × RateLimitStatus
unfolding remaining count_attempt status
record_in_row config now window_start lockout_until r =
    let counted = count_attempt config lockout_until r in
    elim (remaining now r.locked_until) [
      | some secs ↦ (r, status true r.attempts (some secs))
      | none ↦
          if ltb r.first_attempt_at window_start
          then (
            record r { attempts = pos 1; first_attempt_at = now; locked_until = none },
            status false (pos 1) none,
          )
          else counted
    ]

-- What the call of the database does.
unfoldable pub record_failure :
    RateLimitConfig
    → (now window_start lockout_until : Instant) → Table
    → Text
    → Table × RateLimitStatus
unfolding record_in_row status
record_failure config now window_start lockout_until t key = elim (find (has_key key) t) [
  | none ↦ (
    t ++ record { key = key; attempts = pos 1; first_attempt_at = now; locked_until = none } ∷ [],
    status false (pos 1) none,
  )
  | some r ↦
      let (new, answer) = record_in_row config now window_start lockout_until r in
      (update (has_key key) (λ q. new) t, answer)
]

-- Without one of the two instants the function panics before the database is asked.
unfoldable pub record_login_failure :
    Chrono → RateLimitConfig → Instant → Table → Text → Option (Table × RateLimitStatus)
unfolding record_failure as_i64
record_login_failure c config now t key = elim (c.seconds_before now (as_i64 config.window_secs)) [
  | none ↦ none
  | some window_start ↦ elim (c.seconds_after now (as_i64 config.lockout_secs)) [
    | none ↦ none
    | some lockout_until ↦ some (record_failure config now window_start lockout_until t key)
  ]
]

unfoldable pub clear_login_attempts : Table → Text → Table
clear_login_attempts t key = remove (has_key key) t

-- The answer for a key that has a row.
unfoldable pub row_status :
    RateLimitConfig → (now window_start : Instant) → RateLimitRow → RateLimitStatus
unfolding remaining as_i32 status
row_status config now window_start r = elim (remaining now r.locked_until) [
  | some secs ↦ status true r.attempts (some secs)
  | none ↦
      if ltb r.first_attempt_at window_start
      then status false (pos 0) none
      else status (leb_ℤ (as_i32 config.max_attempts) r.attempts) r.attempts none
]

unfoldable pub key_status :
    RateLimitConfig → (now window_start : Instant) → Table → Text → RateLimitStatus
unfolding row_status status
key_status config now window_start t key = elim (find (has_key key) t) [
  | none ↦ status false (pos 0) none
  | some r ↦ row_status config now window_start r
]

unfoldable pub is_rate_limited :
    Chrono → RateLimitConfig → Instant → Table → Text → Option RateLimitStatus
unfolding key_status as_i64
is_rate_limited c config now t key = elim (c.seconds_before now (as_i64 config.window_secs)) [
  | none ↦ none
  | some window_start ↦ some (key_status config now window_start t key)
]

-- The lockout of the row has ended.
lockout_over : Instant → Option Instant → Bool
lockout_over now none = false
lockout_over now (some until) = ltb until now

unfoldable pub cleanup_rate_limits : Instant → Table → Table
unfolding lockout_over
cleanup_rate_limits now t = remove (λ (r : RateLimitRow). lockout_over now r.locked_until) t
