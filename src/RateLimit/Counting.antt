-- ===== src/RateLimit/Counting.antt =====
-- How many failures lock a key out.
use strix.Base.{
  ℕ, suc, ◌+◌, ◌-◌, ◌<◌, ◌≡◌, refl, ap, ◌∙◌, Bool, true, false, List, [], ◌∷◌, ◌++◌, none, some,
  Text, text_eq_self, arith, all, all-append, find, find-append_new, length, leb, ltb, pos, leb_ℤ,
  as_i32, as_i32_lem, increment, increment_lem,
}
use strix.Chrono.{of_seconds}
use strix.RateLimit.{
  Instant, RateLimitConfig, RateLimitRow, Table, has_key, status, remaining, count_attempt,
  record_in_row, record_failure, key_status,
}
use strix.RateLimit.Lockout.{IsUnwrapped, after_failure, find-none, locked_for}

left_zero : (n : ℕ) → 0 + n ≡ n
left_zero n = omega arith

shift : (m n : ℕ) → suc m + n ≡ m + suc n
shift m n = omega arith

-- The window that ends at an instant, and the lockout that begins at it.
abbrev pub start_of : RateLimitConfig → Instant → Instant
start_of config now = now - of_seconds config.window_secs

abbrev pub end_of : RateLimitConfig → Instant → Instant
end_of config now = now + of_seconds config.lockout_secs

module _ (config : RateLimitConfig) (key : Text) where
  -- What a failure makes of the table, where no instant is out of range.
  unfoldable pub fail_at : Instant → Table → Table
  fail_at now t = (record_failure config now (start_of config now) (end_of config now) t key).0

  unfoldable pub fail_all : List Instant → Table → Table
  unfolding fail_at
  fail_all [] t = t
  fail_all (now ∷ ts) t = fail_all ts (fail_at now t)

  fail_all-append :
      (ts : List Instant) (last : Instant) (t : Table)
      → fail_all (ts ++ last ∷ []) t ≡ fail_at last (fail_all ts t)
  unfolding fail_all
  fail_all-append [] last t = refl
  fail_all-append (now ∷ ts) last t = fail_all-append ts last (fail_at now t)

module _ (config : RateLimitConfig) (key : Text) (unwrapped : IsUnwrapped config)
    (first : Instant) where
  -- The row of a key after some failures in one window, none of which locked it.
  record IsCounting (n : ℕ) (t : Table) : Type 0 where
    row : RateLimitRow
    found : find (has_key key) t ≡ some row
    unlocked : row.locked_until ≡ none
    began : row.first_attempt_at ≡ first
    count : row.attempts ≡ pos n

  abbrev pub in_window : Instant → Bool
  in_window now = leb now (first + of_seconds config.window_secs)

  fresh : (now : Instant) → in_window now ≡ true → ltb first (start_of config now) ≡ false
  fresh now h = ground arith

  few :
      (n : ℕ)
      → suc n < config.max_attempts
      → leb_ℤ (as_i32 config.max_attempts) (increment (pos n)) ≡ false
  few n h =
      let limit = unwrapped.0 in
      rw (as_i32_lem config.max_attempts limit, increment_lem n (omega arith)) (ground arith)

  enough :
      (n : ℕ)
      → suc n ≡ config.max_attempts
      → leb_ℤ (as_i32 config.max_attempts) (increment (pos n)) ≡ true
  enough n h =
      let limit = unwrapped.0 in
      rw (as_i32_lem config.max_attempts limit, increment_lem n (omega arith)) (ground arith)

  starts : (t : Table) → find (has_key key) t ≡ none → IsCounting 1 (fail_at config key first t)
  unfolding fail_at record_failure
  starts t h = record {
    row = record { key = key; attempts = pos 1; first_attempt_at = first; locked_until = none };
    found =
        rw (fail_at, record_failure, h)
          (find-append_new (λ (q : RateLimitRow). q) (has_key key) t _ (find-none key t h)
            (text_eq_self key));
    unlocked = refl;
    began = refl;
    count = refl;
  }

  count_row :
      (now ws until : Instant) (r : RateLimitRow)
      → remaining now r.locked_until ≡ none
      → ltb r.first_attempt_at ws ≡ false
      → leb_ℤ (as_i32 config.max_attempts) (increment r.attempts) ≡ false
      → (record_in_row config now ws until r).0 ≡ record r { attempts = increment r.attempts }
  unfolding record_in_row count_attempt
  count_row now ws until r a b d = rw (record_in_row, a, b, count_attempt, d) refl

  last_row :
      (now ws until : Instant) (r : RateLimitRow)
      → remaining now r.locked_until ≡ none
      → ltb r.first_attempt_at ws ≡ false
      → leb_ℤ (as_i32 config.max_attempts) (increment r.attempts) ≡ true
      → (record_in_row config now ws until r).1.lockout_remaining_secs ≡ some config.lockout_secs
  unfolding record_in_row count_attempt status
  last_row now ws until r a b d = rw (record_in_row, a, b, count_attempt, d) refl

  counts :
      (n : ℕ) (t : Table) (now : Instant)
      → suc n < config.max_attempts
      → in_window now ≡ true
      → IsCounting n t
      → IsCounting (suc n) (fail_at config key now t)
  unfolding fail_at remaining
  counts n t now small w c = record {
    row = record c.row { attempts = increment c.row.attempts };
    found =
        after_failure config key now (start_of config now) (end_of config now) t c.found
        ∙ ap some (
            count_row now (start_of config now) (end_of config now) c.row
              (rw c.unlocked (unfold remaining in refl)) (rw c.began (fresh now w))
              (rw c.count (few n small)));
    unlocked = c.unlocked;
    began = c.began;
    count = rw c.count (increment_lem n (omega (arith, unwrapped.0)));
  }

  all_counted :
      (n : ℕ) (ts : List Instant) (t : Table)
      → length ts + n < config.max_attempts
      → all in_window ts ≡ true
      → IsCounting n t
      → IsCounting (length ts + n) (fail_all config key ts t)
  unfolding fail_all
  all_counted n [] t small w c = rw (left_zero n) c
  all_counted n (now ∷ ts) t small w c = rw (shift (length ts) n) (
      all_counted (suc n) ts (fail_at config key now t) (omega arith) (ground arith)
        (counts n t now (omega arith) (ground arith) c))

  -- The answer to the last failure.
  locks :
      (n : ℕ) (t : Table) (now : Instant)
      → suc n ≡ config.max_attempts
      → in_window now ≡ true
      → IsCounting n t
      → (record_failure config now
          (start_of config now)
          (end_of config now)
          t
          key).1.lockout_remaining_secs
        ≡ some config.lockout_secs
  unfolding record_failure remaining
  locks n t now last w c =
      rw
        (
          record_failure,
          c.found,
          last_row now (start_of config now) (end_of config now) c.row
              (rw c.unlocked (unfold remaining in refl)) (rw c.began (fresh now w))
              (rw c.count (enough n last)),
        )
        refl

  pub locked_at_last :
      (t : Table) (ts : List Instant) (last later start : Instant)
      → find (has_key key) t ≡ none
      → length ts + 2 ≡ config.max_attempts
      → all in_window (ts ++ last ∷ []) ≡ true
      → later < last + of_seconds config.lockout_secs
      → (key_status config later start
          (fail_all config key (first ∷ ts ++ last ∷ []) t)
          key).is_locked
        ≡ true
  unfolding fail_all fail_at
  locked_at_last t ts last later start h n w l =
      let both = rw (all-append in_window ts (last ∷ [])) at w in
      let counted =
        all_counted 1 ts (fail_at config key first t) (omega arith) (ground arith) (starts t h) in
      let before = fail_all config key ts (fail_at config key first t) in
      rw (fail_all-append config key ts last (fail_at config key first t)) (
        locked_for config key last (start_of config last) (end_of config last) later start before
          config.lockout_secs (find (has_key key) before) refl refl
          (locks (length ts + 1) before last (omega arith) (ground arith) counted) l)
