-- ===== src/Storage/Listing/Ordered.antt =====
-- Rows in the order of their keys.
use strix.Base.{
  ◌≤◌, ◌≡◌, refl, ◌∙◌, inl, inr, Bool, true, false, ◌&&◌, ◌||◌, List, [], ◌∷◌, none, Text, text_eq,
  text_eq_self, arith, any, all, all-weaken, keep, Bool-cases,
}
use strix.Storage.Tables.{ObjectRow, is_version}
use strix.Storage.Latest.{count}
use strix.Storage.Listing.{text_lt, insert_by_key, order_by_key}

pub text_lt_self : (s : Text) → text_lt s s ≡ false
unfolding text_lt
text_lt_self [] = refl
text_lt_self (c ∷ s) = ground (arith, text_lt_self s)

pub text_lt_trans : (s t u : Text) → text_lt s t ≡ true → text_lt t u ≡ true → text_lt s u ≡ true
unfolding text_lt
text_lt_trans s t [] h k = cc
text_lt_trans s [] (e ∷ u) h k = cc
text_lt_trans [] (d ∷ t) (e ∷ u) h k = refl
text_lt_trans (c ∷ s) (d ∷ t) (e ∷ u) h k = ground (arith, text_lt_trans s t u)

pub text_lt_total : (s t : Text) → text_lt s t ≡ false → text_eq t s ≡ false → text_lt t s ≡ true
unfolding text_lt text_eq
text_lt_total [] [] h k = cc
text_lt_total [] (d ∷ t) h k = cc
text_lt_total (c ∷ s) [] h k = refl
text_lt_total (c ∷ s) (d ∷ t) h k = ground (arith, text_lt_total s t)

abbrev pub above : Text → List ObjectRow → Bool
above k rows = all (λ (r : ObjectRow). text_lt k r.key) rows

-- The keys rise strictly.
abbrev pub IsRising : List ObjectRow → Type 0
IsRising [] = Unit
IsRising (r ∷ rows) = (above r.key rows ≡ true) × IsRising rows

-- Is there a row with the key?
abbrev pub has_key : Text → List ObjectRow → Bool
has_key k rows = any (λ (r : ObjectRow). text_eq r.key k) rows

-- No two rows have the same key.
abbrev pub IsDistinct : List ObjectRow → Type 0
IsDistinct [] = Unit
IsDistinct (r ∷ rows) = (has_key r.key rows ≡ false) × IsDistinct rows

above-insert :
    (k : Text) (r : ObjectRow) (rows : List ObjectRow)
    → text_lt k r.key ≡ true
    → above k rows ≡ true
    → above k (insert_by_key r rows) ≡ true
unfolding insert_by_key
above-insert k r [] h g = rw h refl
above-insert k r (q ∷ rows) h g = ground (arith, above-insert k r rows h)

above-weaken :
    (k l : Text) (rows : List ObjectRow)
    → text_lt k l ≡ true
    → above l rows ≡ true
    → above k rows ≡ true
above-weaken k l rows h g =
    all-weaken (λ (r : ObjectRow). text_lt l r.key) (λ (r : ObjectRow). text_lt k r.key) rows
      (λ r below. text_lt_trans k l r.key h below) g

insert-IsRising :
    (r : ObjectRow) (rows : List ObjectRow)
    → has_key r.key rows ≡ false
    → IsRising rows
    → IsRising (insert_by_key r rows)
unfolding insert_by_key
insert-IsRising r [] h g = (refl, tt)
insert-IsRising r (q ∷ rows) h (a, g) = elim (Bool-cases (text_lt r.key q.key)) [
  | inl below ↦
      rw (insert_by_key, below) ((rw below (above-weaken r.key q.key rows below a)), (a, g))
  | inr not_below ↦
      rw (insert_by_key, not_below)
        (
          above-insert q.key r rows (text_lt_total r.key q.key not_below (ground arith)) a,
          insert-IsRising r rows (ground arith) g,
        )
]

has_key-insert :
    (k : Text) (r : ObjectRow) (rows : List ObjectRow)
    → has_key k (insert_by_key r rows) ≡ text_eq r.key k || has_key k rows
unfolding insert_by_key
has_key-insert k r [] = refl
has_key-insert k r (q ∷ rows) = ground (arith, has_key-insert k r rows)

has_key-order : (k : Text) (rows : List ObjectRow) → has_key k (order_by_key rows) ≡ has_key k rows
unfolding order_by_key
has_key-order k [] = refl
has_key-order k (r ∷ rows) =
    has_key-insert k r (order_by_key rows) ∙ ground (arith, has_key-order k rows)

pub order-IsRising : (rows : List ObjectRow) → IsDistinct rows → IsRising (order_by_key rows)
unfolding order_by_key
order-IsRising [] d = tt
order-IsRising (r ∷ rows) (new, d) =
    insert-IsRising r (order_by_key rows) (has_key-order r.key rows ∙ new) (order-IsRising rows d)

insert-above :
    (r : ObjectRow) (rows : List ObjectRow)
    → above r.key rows ≡ true
    → insert_by_key r rows ≡ r ∷ rows
unfolding insert_by_key
insert-above r [] h = refl
insert-above r (q ∷ rows) h = ground arith

above-keep :
    (k : Text) (test : ObjectRow → Bool) (rows : List ObjectRow)
    → above k rows ≡ true
    → above k (keep test rows) ≡ true
above-keep k test [] h = refl
above-keep k test (r ∷ rows) h = ground (arith, above-keep k test rows)

-- An insertion of a row that the test drops.
keep-insert_dropped :
    (test : ObjectRow → Bool) (r : ObjectRow) (rows : List ObjectRow)
    → test r ≡ false
    → keep test (insert_by_key r rows) ≡ keep test rows
unfolding insert_by_key
keep-insert_dropped test r [] h = rw h refl
keep-insert_dropped test r (q ∷ rows) h = ground (arith, keep-insert_dropped test r rows h)

keep-insert_kept :
    (test : ObjectRow → Bool) (r : ObjectRow) (rows : List ObjectRow)
    → test r ≡ true
    → IsRising rows
    → keep test (insert_by_key r rows) ≡ insert_by_key r (keep test rows)
unfolding insert_by_key
keep-insert_kept test r [] h g = rw h refl
keep-insert_kept test r (q ∷ rows) h (a, g) = ground (
  arith,
  keep-insert_kept test r rows h g,
  above-weaken r.key q.key rows,
  insert-above r (keep test rows),
  above-keep r.key test rows,
)

-- The order is that of the rows that pass a test, whether they are ordered before or after.
pub keep-order :
    (test : ObjectRow → Bool) (rows : List ObjectRow)
    → IsDistinct rows
    → keep test (order_by_key rows) ≡ order_by_key (keep test rows)
unfolding order_by_key
keep-order test [] d = refl
keep-order test (r ∷ rows) (new, d) = elim (Bool-cases (test r)) [
  | inl kept ↦
      rw (kept, ← keep-order test rows d)
        (keep-insert_kept test r (order_by_key rows) kept (order-IsRising rows d))
  | inr dropped ↦
      rw dropped (keep-insert_dropped test r (order_by_key rows) dropped ∙ keep-order test rows d)
]

pub keep-both :
    (f g : ObjectRow → Bool) (rows : List ObjectRow)
    → keep (λ r. f r && g r) rows ≡ keep g (keep f rows)
keep-both f g [] = refl
keep-both f g (r ∷ rows) = ground (arith, keep-both f g rows)

no_second :
    (bucket k : Text) (rows : List ObjectRow) (test : ObjectRow → Bool)
    → ((r : ObjectRow) → test r ≡ true → (text_eq r.bucket bucket ≡ true) × (r.is_latest ≡ true))
    → count (is_version bucket k none) rows ≡ 0
    → has_key k (keep test rows) ≡ false
unfolding count
no_second bucket k [] test h z = refl
no_second bucket k (r ∷ rows) test h z = ground (arith, h r, no_second bucket k rows test h)

-- The latest rows of a bucket have distinct keys, where each key has at most one.
pub keep-IsDistinct :
    (bucket : Text) (rows : List ObjectRow) (test : ObjectRow → Bool)
    → ((r : ObjectRow) → test r ≡ true → (text_eq r.bucket bucket ≡ true) × (r.is_latest ≡ true))
    → ((k : Text) → count (is_version bucket k none) rows ≤ 1)
    → IsDistinct (keep test rows)
unfolding count
keep-IsDistinct bucket [] test h one = tt
keep-IsDistinct bucket (r ∷ rows) test h one = elim (Bool-cases (test r)) [
  | inr dropped ↦ rw dropped (keep-IsDistinct bucket rows test h (λ k. omega (arith, one k)))
  | inl kept ↦ rw kept (
    no_second bucket r.key rows test h (ground (arith, h r, text_eq_self r.key, one r.key)),
    keep-IsDistinct bucket rows test h (λ k. omega (arith, one k)),
  )
]
