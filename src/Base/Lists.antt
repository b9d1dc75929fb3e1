-- ===== src/Base/Lists.antt =====
-- Lists with native lengths, Boolean searches and filters.
use Prim.Native.Nat.{ℕ, zero, suc, ◌+◌}
use mathlib.Core.Path.{◌≡◌, refl}
use mathlib.Core.Bool.{Bool, true, false, ◌&&◌, ◌||◌}
use mathlib.Core.Option.{Option, none, some}
use mathlib.Core.List.{List, [], ◌∷◌, ◌++◌}
use native.Mathlib.Omega.{arith}
use strix.Base.Tests.{if◌then◌else◌}

module _ {ℓ} {A : Type ℓ} where
  abbrev pub length : List A → ℕ
  length [] = 0
  length (x ∷ xs) = suc (length xs)

  abbrev pub take : ℕ → List A → List A
  take zero xs = []
  take (suc n) [] = []
  take (suc n) (x ∷ xs) = x ∷ take n xs

  abbrev pub drop : ℕ → List A → List A
  drop zero xs = xs
  drop (suc n) [] = []
  drop (suc n) (x ∷ xs) = drop n xs

  abbrev pub replicate : ℕ → A → List A
  replicate zero x = []
  replicate (suc n) x = x ∷ replicate n x

  -- `iter().any(test)`
  abbrev pub any : (A → Bool) → List A → Bool
  any test [] = false
  any test (x ∷ xs) = test x || any test xs

  -- `iter().all(test)`
  abbrev pub all : (A → Bool) → List A → Bool
  all test [] = true
  all test (x ∷ xs) = test x && all test xs

  abbrev pub is_empty : List A → Bool
  is_empty [] = true
  is_empty (x ∷ xs) = false

  -- The first item that passes a test, as `SELECT … LIMIT 1` and `query_row` read it.
  abbrev pub find : (A → Bool) → List A → Option A
  find test [] = none
  find test (x ∷ xs) = if test x then some x else find test xs

  pub length-append : (xs ys : List A) → length (xs ++ ys) ≡ length xs + length ys
  length-append [] ys = omega arith
  length-append (x ∷ xs) ys = omega (arith, length-append xs ys)

  pub length-replicate : (n : ℕ) (x : A) → length (replicate n x) ≡ n
  length-replicate zero x = refl
  length-replicate (suc n) x = omega (arith, length-replicate n x)

  pub any-append :
      (test : A → Bool) (xs ys : List A) → any test (xs ++ ys) ≡ any test xs || any test ys
  any-append test [] ys = refl
  any-append test (x ∷ xs) ys = ground (arith, any-append test xs ys)

  -- `DELETE … WHERE test`: the rows that fail the test stay.
  abbrev pub remove : (A → Bool) → List A → List A
  remove test [] = []
  remove test (x ∷ xs) = let rest = remove test xs in if test x then rest else x ∷ rest

  -- `SELECT … WHERE test`: the rows that pass the test.
  abbrev pub keep : (A → Bool) → List A → List A
  keep test [] = []
  keep test (x ∷ xs) = let rest = keep test xs in if test x then x ∷ rest else rest

  -- `UPDATE … WHERE test`
  abbrev pub update : (A → Bool) → (A → A) → List A → List A
  update test f [] = []
  update test f (x ∷ xs) = (if test x then f x else x) ∷ update test f xs

  -- Rows that are removed satisfy no test that implies the removal's.
  pub any-remove_none :
      (test gone : A → Bool) (xs : List A)
      → ((x : A) → test x ≡ true → gone x ≡ true)
      → any test (remove gone xs) ≡ false
  any-remove_none test gone [] h = refl
  any-remove_none test gone (x ∷ xs) h = ground (arith, h x, any-remove_none test gone xs h)

  -- A test that no removed row passes is not affected.
  pub any-remove_other :
      (test gone : A → Bool) (xs : List A)
      → ((x : A) → gone x ≡ true → test x ≡ false)
      → any test (remove gone xs) ≡ any test xs
  any-remove_other test gone [] h = refl
  any-remove_other test gone (x ∷ xs) h = ground (arith, h x, any-remove_other test gone xs h)

  pub any-weaken :
      (test weaker : A → Bool) (xs : List A)
      → ((x : A) → test x ≡ true → weaker x ≡ true)
      → any test xs ≡ true
      → any weaker xs ≡ true
  any-weaken test weaker [] h p = cc
  any-weaken test weaker (x ∷ xs) h p = ground (arith, h x, any-weaken test weaker xs h)

  pub all-append :
      (test : A → Bool) (xs ys : List A) → all test (xs ++ ys) ≡ all test xs && all test ys
  all-append test [] ys = refl
  all-append test (x ∷ xs) ys = ground (arith, all-append test xs ys)

  pub all-remove :
      (test gone : A → Bool) (xs : List A) → all test xs ≡ true → all test (remove gone xs) ≡ true
  all-remove test gone [] h = refl
  all-remove test gone (x ∷ xs) h = ground (arith, all-remove test gone xs)

  pub all-weaken :
      (test weaker : A → Bool) (xs : List A)
      → ((x : A) → test x ≡ true → weaker x ≡ true)
      → all test xs ≡ true
      → all weaker xs ≡ true
  all-weaken test weaker [] h p = refl
  all-weaken test weaker (x ∷ xs) h p = ground (arith, h x, all-weaken test weaker xs h)

  -- The rows that stay pass a test that holds of all rows but the removed ones.
  pub all-remove_weaken :
      (test weaker gone : A → Bool) (xs : List A)
      → ((x : A) → test x ≡ true → gone x ≡ false → weaker x ≡ true)
      → all test xs ≡ true
      → all weaker (remove gone xs) ≡ true
  all-remove_weaken test weaker gone [] h p = refl
  all-remove_weaken test weaker gone (x ∷ xs) h p =
      ground (arith, h x, all-remove_weaken test weaker gone xs h)
