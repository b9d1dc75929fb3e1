-- ===== src/RateLimit/Lockout.antt =====
-- When a key is locked out.
use mathlib.Core.Option.{some-injective}
use strix.Base.{
  ℕ, leb_ℤ, as_i64_lem, as_i32, increment, ◌≤◌, ◌^◌, ap, ◌+◌, ◌-◌, ◌/◌, ◌<◌, ◌≡◌, refl, ◌∙◌, inl,
  inr, true, false, [], ◌∷◌, Option, none, some, Text, arith, any, find, update, ltb, if◌then◌else◌,
  Bool-cases,
}
use strix.Chrono.{Chrono, IsChrono, of_seconds}
use strix.RateLimit.{
  Instant, RateLimitConfig, RateLimitRow, Table, has_key, remaining, status, count_attempt,
  record_in_row, record_failure, row_status, key_status, is_rate_limited,
}

find-update :
    (key : Text) (new : RateLimitRow) (t : Table) {r : RateLimitRow}
    → find (has_key key) t ≡ some r
    → has_key key new ≡ true
    → find (has_key key) (update (has_key key) (λ q. new) t) ≡ some new
find-update key new [] h k = cc
find-update key new (q ∷ t) {r = r} h k = ground (arith, find-update key new t {r = r})

found-key :
    (key : Text) (t : Table) {r : RateLimitRow}
    → find (has_key key) t ≡ some r
    → has_key key r ≡ true
found-key key [] h = cc
found-key key (q ∷ t) {r = r} h = elim (Bool-cases (has_key key q)) [
  | inl e ↦ let same : q ≡ r = ground arith in rw (← same) e
  | inr n ↦ found-key key t {r = r} (ground arith)
]

pub find-none : (key : Text) (t : Table) → find (has_key key) t ≡ none → any (has_key key) t ≡ false
find-none key [] h = refl
find-none key (q ∷ t) h = ground (arith, find-none key t)

ltb_complete : (a b : ℕ) → a < b → ltb a b ≡ true
ltb_complete a b h = ground arith

later_before :
    (now later until secs : ℕ)
    → (if ltb now until then some ((until - now) / 1000000000) else none) ≡ some secs
    → later < now + of_seconds secs
    → ltb later until ≡ true
later_before now later until secs h l = ground arith

-- A lockout with time left is still on before that time has passed.
remaining_later :
    (now later : Instant) (o : Option Instant) (secs : ℕ)
    → remaining now o ≡ some secs
    → later < now + of_seconds secs
    → (s : ℕ) × (remaining later o ≡ some s)
unfolding remaining
remaining_later now later none secs h l = cc
remaining_later now later (some until) secs h l =
    ((until - later) / 1000000000, rw (later_before now later until secs h l) refl)

-- No cast of the settings wraps.
abbrev pub IsUnwrapped : RateLimitConfig → Type 0
IsUnwrapped config =
    (config.max_attempts < 2 ^ 31) × (config.window_secs < 2 ^ 63) × (config.lockout_secs < 2 ^ 63)

module _ (config : RateLimitConfig) (key : Text) where
  locked_row :
      (later start : Instant) (r : RateLimitRow) (s : ℕ)
      → remaining later r.locked_until ≡ some s
      → (row_status config later start r).is_locked ≡ true
  unfolding row_status status
  locked_row later start r s h = rw (row_status, h) refl

  module _ (now ws until later start : Instant)
      (ends : until ≡ now + of_seconds config.lockout_secs) where
    new_lockout :
        (r : RateLimitRow) (secs : ℕ)
        → config.lockout_secs ≡ secs
        → later < now + of_seconds secs
        → (row_status config later start
            (record r { attempts = increment r.attempts; locked_until = some until })).is_locked
          ≡ true
    unfolding remaining
    new_lockout r secs same l =
        locked_row later start _ ((until - later) / 1000000000)
          (rw (ltb_complete later until (omega (arith, ends, ap of_seconds same))) refl)

    locked_in_row :
        (r : RateLimitRow) (secs : ℕ) (left : Option ℕ)
        → remaining now r.locked_until ≡ left
        → (record_in_row config now ws until r).1.lockout_remaining_secs ≡ some secs
        → later < now + of_seconds secs
        → (row_status config later start (record_in_row config now ws until r).0).is_locked ≡ true
    unfolding record_in_row count_attempt status
    locked_in_row r secs (some s) e h l =
        let same : some s ≡ some secs = rw (record_in_row, e) at h in
        let (s', left) = remaining_later now later r.locked_until secs (e ∙ same) l in
        rw (record_in_row, e) (locked_row later start r s' left)
    locked_in_row r secs none e h l = elim (Bool-cases (ltb r.first_attempt_at ws)) [
      | inl old ↦ cc (rw (record_in_row, e, old) at h)
      | inr fresh ↦ elim (Bool-cases (leb_ℤ (as_i32 config.max_attempts) (increment r.attempts))) [
        | inl enough ↦
            let same : some config.lockout_secs ≡ some secs =
              rw (record_in_row, e, fresh, count_attempt, enough) at h in
            rw (record_in_row, e, fresh, count_attempt, enough)
              (new_lockout r secs (some-injective _ _ same) l)
        | inr few ↦ cc (rw (record_in_row, e, fresh, count_attempt, few) at h)
      ]
    ]

  key_in_row :
      (now ws until : Instant) (r : RateLimitRow)
      → (record_in_row config now ws until r).0.key ≡ r.key
  unfolding record_in_row count_attempt
  key_in_row now ws until r = ground arith

  -- The row after a failure, whatever it was.
  pub after_failure :
      (now ws until : Instant) (t : Table) {r : RateLimitRow}
      → find (has_key key) t ≡ some r
      → find (has_key key) (record_failure config now ws until t key).0
        ≡ some (record_in_row config now ws until r).0
  unfolding record_failure
  after_failure now ws until t {r} h =
      rw (record_failure, h)
        (find-update key (record_in_row config now ws until r).0 t h
          (rw (key_in_row now ws until r) (found-key key t h)))

  pub locked_for :
      (now ws until later start : Instant) (t : Table) (secs : ℕ) (o : Option RateLimitRow)
      → until ≡ now + of_seconds config.lockout_secs
      → find (has_key key) t ≡ o
      → (record_failure config now ws until t key).1.lockout_remaining_secs ≡ some secs
      → later < now + of_seconds secs
      → (key_status config later start (record_failure config now ws until t key).0 key).is_locked
        ≡ true
  unfolding record_failure key_status status
  locked_for now ws until later start t secs none ends e h l = cc (rw (record_failure, e) at h)
  locked_for now ws until later start t secs (some r) ends e h l =
      rw (key_status, after_failure now ws until t e)
        (locked_in_row now ws until later start ends r secs (remaining now r.locked_until) refl
          (rw (record_failure, e) at h) l)

  module _ (c : Chrono) (reach latest : ℕ) (exact : IsChrono c reach latest)
      (unwrapped : IsUnwrapped config) where
    -- A check in range has an answer, from the row.
    pub is_rate_limited_lem :
        (later : Instant) (t : Table)
        → config.window_secs ≤ reach
        → later ≤ latest
        → is_rate_limited c config later t key
          ≡ some (key_status config later (later - of_seconds config.window_secs) t key)
    unfolding is_rate_limited
    is_rate_limited_lem later t w l =
        rw
          (
            is_rate_limited,
            as_i64_lem config.window_secs unwrapped.1,
            exact.before later config.window_secs l w,
          )
          refl
