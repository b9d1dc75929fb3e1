-- ===== src/Base/Finds.antt =====
-- What the first row that passes a test is after inserts, updates and deletes of other rows.
use mathlib.Core.Path.{◌≡◌, refl}
use mathlib.Core.Logic.{inl, inr}
use mathlib.Core.Bool.{Bool, true, false}
use mathlib.Core.Option.{Option, none, some}
use mathlib.Core.List.{List, [], ◌∷◌, ◌++◌}
use native.Mathlib.Omega.{arith}
use strix.Base.Tests.{if◌then◌else◌, Bool-cases}
use strix.Base.Lists.{find, any, remove, update}

module _ {ℓ κ} {A : Type ℓ} {B : Type κ} (view : A → B) (test : A → Bool) where
  -- What a query reads of the first row that passes the test.
  abbrev pub read : List A → Option B
  read [] = none
  read (x ∷ xs) = if test x then some (view x) else read xs

  pub read-found : (xs : List A) (x : A) → find test xs ≡ some x → read xs ≡ some (view x)
  read-found [] x h = cc
  read-found (y ∷ xs) x h = ground (arith, read-found xs x)

  pub found-read :
      (xs : List A) {b : B} → read xs ≡ some b → (x : A) × (find test xs ≡ some x) × (view x ≡ b)
  found-read [] h = cc
  found-read (y ∷ xs) {b = b} h = elim (Bool-cases (test y)) [
    | inl t ↦ (y, rw t refl, ground arith)
    | inr n ↦ let (x, f, e) = found-read xs {b = b} (ground arith) in (x, rw n f, e)
  ]

  pub any-read : (xs : List A) {b : B} → read xs ≡ some b → any test xs ≡ true
  any-read [] h = cc
  any-read (y ∷ xs) {b = b} h = ground (arith, any-read xs {b = b})

  pub read-append : (xs ys : List A) {b : B} → read xs ≡ some b → read (xs ++ ys) ≡ some b
  read-append [] ys h = cc
  read-append (x ∷ xs) ys {b = b} h = ground (arith, read-append xs ys {b = b})

  pub read-append_none : (xs ys : List A) → any test xs ≡ false → read (xs ++ ys) ≡ read ys
  read-append_none [] ys h = refl
  read-append_none (x ∷ xs) ys h = ground (arith, read-append_none xs ys)

  pub find-append_new :
      (xs : List A) (y : A)
      → any test xs ≡ false
      → test y ≡ true
      → find test (xs ++ y ∷ []) ≡ some y
  find-append_new [] y h t = rw t refl
  find-append_new (x ∷ xs) y h t = ground (arith, find-append_new xs y)

  pub read-remove :
      (gone : A → Bool) (xs : List A)
      → ((x : A) → gone x ≡ true → test x ≡ false)
      → read (remove gone xs) ≡ read xs
  read-remove gone [] h = refl
  read-remove gone (x ∷ xs) h = ground (arith, h x, read-remove gone xs h)

  -- An update that the query does not see.
  pub read-update :
      (changed : A → Bool) (f : A → A) (xs : List A)
      → ((x : A) → test (f x) ≡ test x)
      → ((x : A) → view (f x) ≡ view x)
      → read (update changed f xs) ≡ read xs
  read-update changed f [] h k = refl
  read-update changed f (x ∷ xs) h k = ground (arith, h x, k x, read-update changed f xs h k)

  -- An update of rows that the query does not read.
  pub read-update_other :
      (changed : A → Bool) (f : A → A) (xs : List A)
      → ((x : A) → test (f x) ≡ test x)
      → ((x : A) → changed x ≡ true → test x ≡ false)
      → read (update changed f xs) ≡ read xs
  read-update_other changed f [] h k = refl
  read-update_other changed f (x ∷ xs) h k =
      ground (arith, h x, k x, read-update_other changed f xs h k)
