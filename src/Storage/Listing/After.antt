-- ===== src/Storage/Listing/After.antt =====
-- The rows behind the last one of a page.
use mathlib.Core.Option.{some-injective}
use strix.Base.{
  ℕ, zero, suc, ◌-◌, ◌<◌, ◌≤◌, ◌≡◌, refl, sym, ap, ◌∙◌, inl, inr, true, false, List, [], ◌∷◌, ◌++◌,
  some, Text, arith, all-append, keep, take, drop, length, ltb, map, Bool-cases,
}
use strix.Storage.Tables.{ObjectRow}
use strix.Storage.Listing.{text_lt, last, is_after}
use strix.Storage.Listing.Ordered.{above, IsRising, text_lt_self, text_lt_trans}

last-above :
    (k : Text) (n : ℕ) (rows : List ObjectRow) (r : ObjectRow)
    → above k rows ≡ true
    → last (take n rows) ≡ some r
    → text_lt k r.key ≡ true
unfolding last
last-above k zero rows r h e = cc
last-above k (suc n) [] r h e = cc
last-above k (suc zero) (x ∷ rows) r h e = ground arith
last-above k (suc (suc n)) (x ∷ []) r h e = ground arith
last-above k (suc (suc n)) (x ∷ y ∷ rows) r h e = last-above k (suc n) (y ∷ rows) r (ground arith) e

-- A row below another is not behind it.
not_after : (x r : ObjectRow) → text_lt x.key r.key ≡ true → is_after (some r.key) x ≡ false
not_after x r h = elim (Bool-cases (text_lt r.key x.key)) [
  | inl k ↦ cc (text_lt_trans x.key r.key x.key h k, text_lt_self x.key)
  | inr k ↦ k
]

keep-above :
    (k : Text) (rows : List ObjectRow) → above k rows ≡ true → keep (is_after (some k)) rows ≡ rows
keep-above k [] h = refl
keep-above k (x ∷ rows) h = ground (arith, keep-above k rows)

page_end :
    (x r : ObjectRow) (rows : List ObjectRow)
    → x ≡ r
    → above x.key rows ≡ true
    → keep (is_after (some r.key)) (x ∷ rows) ≡ rows
page_end x r rows same a =
    let self : text_lt r.key x.key ≡ false =
      ap (λ (q : ObjectRow). text_lt q.key x.key) (sym same) ∙ text_lt_self x.key in
    let b : above r.key rows ≡ true = ap (λ (q : ObjectRow). above q.key rows) (sym same) ∙ a in
    rw self (keep-above r.key rows b)

after_page :
    (n : ℕ) (rows : List ObjectRow) (r : ObjectRow)
    → IsRising rows
    → last (take n rows) ≡ some r
    → keep (is_after (some r.key)) rows ≡ drop n rows
unfolding last
after_page zero rows r g e = cc
after_page (suc n) [] r g e = cc
after_page (suc zero) (x ∷ rows) r (a, g) e = page_end x r rows (some-injective _ _ e) a
after_page (suc (suc n)) (x ∷ []) r (a, g) e = page_end x r [] (some-injective _ _ e) refl
after_page (suc (suc n)) (x ∷ y ∷ rows) r (a, g) e =
    rw (not_after x r (last-above x.key (suc n) (y ∷ rows) r a e))
      (after_page (suc n) (y ∷ rows) r g e)

-- The rows behind the last one of a page are those that the page left.
pub keep-after :
    (passed rows : List ObjectRow) (n : ℕ) (r : ObjectRow)
    → IsRising (passed ++ rows)
    → last (take n rows) ≡ some r
    → keep (is_after (some r.key)) (passed ++ rows) ≡ drop n rows
keep-after [] rows n r g e = after_page n rows r g e
keep-after (x ∷ passed) rows n r (a, g) e =
    let rest : above x.key rows ≡ true =
      ground (arith, all-append (λ (q : ObjectRow). text_lt x.key q.key) passed rows) in
    rw (not_after x r (last-above x.key n rows r rest e)) (keep-after passed rows n r g e)

pub last-take :
    {A : Type 0} (n : ℕ) (rows : List A)
    → n < length rows
    → (r : A) × (last (take (suc n) rows) ≡ some r)
unfolding last
last-take n [] h = absurd (omega arith)
last-take zero (x ∷ rows) h = (x, refl)
last-take (suc n) (x ∷ []) h = absurd (omega arith)
last-take (suc n) (x ∷ y ∷ rows) h = last-take n (y ∷ rows) (omega arith)

pub take-drop : {A : Type 0} (n : ℕ) (xs : List A) → take n xs ++ drop n xs ≡ xs
take-drop zero xs = refl
take-drop (suc n) [] = refl
take-drop (suc n) (x ∷ xs) = ap (λ (t : List _). x ∷ t) (take-drop n xs)

pub length-drop : {A : Type 0} (n : ℕ) (xs : List A) → length (drop n xs) ≡ length xs - n
length-drop zero xs = omega arith
length-drop (suc n) [] = omega arith
length-drop (suc n) (x ∷ xs) = omega (arith, length-drop n xs)

pub last-map :
    {A B : Type 0} (f : A → B) (n : ℕ) (xs : List A) (x : A)
    → last (take n xs) ≡ some x
    → last (map f (take n xs)) ≡ some (f x)
unfolding last
last-map f zero xs x e = cc
last-map f (suc n) [] x e = cc
last-map f (suc zero) (y ∷ xs) x e = ap some (ap f (some-injective _ _ e))
last-map f (suc (suc n)) (y ∷ []) x e = ap some (ap f (some-injective _ _ e))
last-map f (suc (suc n)) (y ∷ z ∷ xs) x e = last-map f (suc n) (z ∷ xs) x e

pub take-map-take :
    {A B : Type 0} (f : A → B) (n : ℕ) (xs : List A)
    → take n (map f (take (suc n) xs)) ≡ map f (take n xs)
take-map-take f zero xs = refl
take-map-take f (suc n) [] = refl
take-map-take f (suc n) (x ∷ xs) = ap (λ (t : List _). f x ∷ t) (take-map-take f n xs)

-- One row more than the page tells whether there are more.
pub more_than :
    {A B : Type 0} (f : A → B) (n : ℕ) (xs : List A)
    → ltb n (length (map f (take (suc n) xs))) ≡ ltb n (length xs)
more_than f n [] = refl
more_than f zero (x ∷ xs) = ground arith
more_than f (suc n) (x ∷ xs) = ground (arith, more_than f n xs)

pub take-all : {A : Type 0} (n : ℕ) (xs : List A) → length xs ≤ n → take n xs ≡ xs
take-all zero [] h = refl
take-all (suc n) [] h = refl
take-all zero (x ∷ xs) h = absurd (omega arith)
take-all (suc n) (x ∷ xs) h = ap (λ (t : List _). x ∷ t) (take-all n xs (omega arith))
