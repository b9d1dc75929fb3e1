-- ===== src/Wildcard/Correct.antt =====
-- The table decides `Glob`.
use mathlib.Core.List.{tail}
use native.Mathlib.Decide.{ℕ_discrete}
use strix.Base.{
  ℕ, zero, suc, ap, ◌≡◌, refl, ◌≢◌, ◌↔◌, ◌⊎◌, inl, inr, Bool, true, false, ◌||◌, List, [], ◌∷◌,
  arith, Text, ◌==◌, ==_iff, Bool-cases, length, length-replicate, replicate, text_eq,
  text_eq_sound, if◌then◌else◌,
}
use strix.Wildcard.{star, question, cells, next_row, fill, last_cell, matches_wildcard}
use strix.Wildcard.Glob.{Glob, done, skip, take, one, exact}

-- Some cell of the row is set where the rest of the pattern matches the rest of the text.
abbrev Reaches : List Bool → Text → Text → Type 0
Reaches [] v p = ⊥
Reaches (b ∷ row) v p = ((b ≡ true) × Glob p v) ⊎ Reaches row (tail v) p

-- What a star can do with the first character: leave it, or take it.
star_inv :
    {c x : ℕ} {p v : Text} → c ≡ star → Glob (c ∷ p) (x ∷ v) → Glob p (x ∷ v) ⊎ Glob (c ∷ p) v
star_inv e (skip _ g) = inl g
star_inv e (take _ g) = inr g
star_inv e (one _ g) = inr (skip e g)
star_inv e (exact _ g) = inr (skip e g)

-- What another character of the pattern does with the first character of the text.
other_inv :
    {c x : ℕ} {p v : Text}
    → c ≢ star
    → Glob (c ∷ p) (x ∷ v)
    → ((c == question || c == x) ≡ true) × Glob p v
other_inv n (skip e g) = absurd (n e)
other_inv n (take e g) = absurd (n e)
other_inv n (one e g) = (ground arith, g)
other_inv n (exact e g) = (ground arith, g)

other_intro :
    {c x : ℕ} {p v : Text} → (c == question || c == x) ≡ true → Glob p v → Glob (c ∷ p) (x ∷ v)
other_intro {c} {x} h g = elim (Bool-cases (c == question)) [
  | inl q ↦ one ((==_iff c question).0 q) g
  | inr n ↦ exact (ground arith) g
]

-- A pattern that is not a star does not match the empty text.
other_nil : {c : ℕ} {p : Text} → c ≢ star → ¬ Glob (c ∷ p) []
other_nil n (skip e g) = n e

-- The cells after the first one, when the pattern's character is a star.
module _ (c : ℕ) (p : Text) (e : c ≡ star) where
  abbrev Left : Bool → Text → Text → Type 0
  Left left v q = (left ≡ true) × Glob q v

  share :
      (a left : Bool) {x : ℕ} {v : Text} {R : Type 0}
      → Left (a || left) v (c ∷ p) ⊎ R
      → Left left (x ∷ v) (c ∷ p) ⊎ Left a v (c ∷ p) ⊎ R
  share true left (inl (h, g)) = inr (inl (refl, g))
  share false left (inl (h, g)) = inl (h, take e g)
  share _ left (inr r) = inr (inr r)

  collect :
      (a left : Bool) {x : ℕ} {v : Text} {R : Type 0}
      → Left left (x ∷ v) (c ∷ p) ⊎ Left a v (c ∷ p) ⊎ R
      → Left left (x ∷ v) p ⊎ Left (a || left) v (c ∷ p) ⊎ R
  collect a left (inl (h, g)) = elim (star_inv e g) [
    | inl g' ↦ inl (h, g')
    | inr g' ↦ inr (inl (ground arith, g'))
  ]
  collect a left (inr (inl (h, g))) = inr (inl (ground arith, g))
  collect a left (inr (inr r)) = inr (inr r)

  star_only : (left : Bool) → Left left [] (c ∷ p) → Left left [] p
  star_only left (h, skip _ g) = (h, g)

  cells_star :
      (diagonal left : Bool) (row : List Bool) (v : Text)
      → length row ≡ length v
      → (Left left v p ⊎ Reaches (cells c diagonal left row v) (tail v) p)
        ↔ (Left left v (c ∷ p) ⊎ Reaches row (tail v) (c ∷ p))
  unfolding cells
  cells_star diagonal left [] [] len = (
    elim [ inl (h, g) ↦ inl (h, skip e g) | inr r ↦ absurd r ],
    elim [ inl h ↦ inl (star_only left h) | inr r ↦ absurd r ],
  )
  cells_star diagonal left (a ∷ row) [] len = absurd (omega arith)
  cells_star diagonal left [] (x ∷ v) len = absurd (omega arith)
  cells_star diagonal left (a ∷ row) (x ∷ v) len =
      let ih = cells_star a (a || left) row v (omega arith) in
      rw ((==_iff c star).1 e) (
        elim [ inl (h, g) ↦ inl (h, skip e g) | inr r ↦ share a left (ih.0 r) ],
        λ s. elim (collect a left s) [ inl h ↦ inl h | inr r ↦ inr (ih.1 r) ],
      )

-- The cells after the first one, for any other character of the pattern.
module _ (c : ℕ) (p : Text) (n : c ≢ star) where
  abbrev here : Bool → ℕ → Bool
  here diagonal x = if c == question || c == x then diagonal else false

  here_inv :
      (diagonal : Bool) (x : ℕ) {v : Text}
      → (here diagonal x ≡ true) × Glob p v
      → (diagonal ≡ true) × Glob (c ∷ p) (x ∷ v)
  here_inv diagonal x (h, g) = (ground arith, other_intro (ground arith) g)

  here_intro :
      (diagonal : Bool) (x : ℕ) {v : Text}
      → (diagonal ≡ true) × Glob (c ∷ p) (x ∷ v)
      → (here diagonal x ≡ true) × Glob p v
  here_intro diagonal x (h, g) = let (t, g') = other_inv n g in (rw t h, g')

  cells_other :
      (diagonal left : Bool) (row : List Bool) (v : Text)
      → length row ≡ length v
      → Reaches (cells c diagonal left row v) (tail v) p ↔ Reaches (diagonal ∷ row) v (c ∷ p)
  unfolding cells
  cells_other diagonal left [] [] len =
      (λ r. absurd r, elim [ inl (h, g) ↦ absurd (other_nil n g) | inr r ↦ r ])
  cells_other diagonal left (a ∷ row) [] len = absurd (omega arith)
  cells_other diagonal left [] (x ∷ v) len = absurd (omega arith)
  cells_other diagonal left (a ∷ row) (x ∷ v) len =
      let ih = cells_other a (here diagonal x) row v (omega arith) in
      let plain : (c == star) ≡ false = ground arith in
      rw plain (
        elim [ inl s ↦ inl (here_inv diagonal x s) | inr r ↦ inr (ih.0 r) ],
        elim [ inl s ↦ inl (here_intro diagonal x s) | inr r ↦ inr (ih.1 r) ],
      )

-- A row of the table carries what the row above it carried for one more character.
next_row_lem :
    (c : ℕ) (p : Text) (row : List Bool) (v : Text)
    → length row ≡ suc (length v)
    → Reaches (next_row c row v) v p ↔ Reaches row v (c ∷ p)
unfolding next_row
next_row_lem c p [] v len = absurd (omega arith)
next_row_lem c p (b ∷ row) v len = elim (ℕ_discrete c star) [
  | yes e ↦ rw ((==_iff c star).1 e) (cells_star c p e b b row v (omega arith))
  | no n ↦
      let (to, back) = cells_other c p n b false row v (omega arith) in
      let plain : (c == star) ≡ false = ground arith in
      rw plain (elim [ inl s ↦ cc (s.0) | inr r ↦ to r ], λ r. inr (back r))
]

length-cells :
    (c : ℕ) (diagonal left : Bool) (row : List Bool) (v : Text)
    → length row ≡ length v
    → length (cells c diagonal left row v) ≡ length v
unfolding cells
length-cells c diagonal left [] [] len = refl
length-cells c diagonal left (a ∷ row) [] len = absurd (omega arith)
length-cells c diagonal left [] (x ∷ v) len = absurd (omega arith)
length-cells c diagonal left (a ∷ row) (x ∷ v) len = ap suc (length-cells c a _ row v (omega arith))

length-next_row :
    (c : ℕ) (row : List Bool) (v : Text)
    → length row ≡ suc (length v)
    → length (next_row c row v) ≡ suc (length v)
unfolding next_row
length-next_row c [] v len = absurd (omega arith)
length-next_row c (b ∷ row) v len = ap suc (length-cells c b _ row v (omega arith))

-- In the last row only the last cell can be followed by an empty pattern.
last_cell_iff :
    (row : List Bool) (v : Text)
    → length row ≡ suc (length v)
    → (last_cell row ≡ true) ↔ Reaches row v []
unfolding last_cell
last_cell_iff [] v len = absurd (omega arith)
last_cell_iff (b ∷ []) [] len = (λ h. inl (h, done), elim [ inl s ↦ s.0 | inr r ↦ absurd r ])
last_cell_iff (b ∷ []) (x ∷ v) len = absurd (omega arith)
last_cell_iff (b ∷ a ∷ row) [] len = absurd (omega arith)
last_cell_iff (b ∷ a ∷ row) (x ∷ v) len =
    let (to, back) = last_cell_iff (a ∷ row) v (omega arith) in
    (λ h. inr (to h), elim [ inl s ↦ elim (s.1) [ ] | inr r ↦ back r ])

fill_lem :
    (p : Text) (row : List Bool) (v : Text)
    → length row ≡ suc (length v)
    → (last_cell (fill p row v) ≡ true) ↔ Reaches row v p
unfolding fill
fill_lem [] row v len = last_cell_iff row v len
fill_lem (c ∷ p) row v len =
    let (to, back) = fill_lem p (next_row c row v) v (length-next_row c row v len) in
    let (down, up) = next_row_lem c p row v len in (λ h. down (to h), λ r. back (up r))

-- Nothing is reached from cells that are all false.
unreached : (k : ℕ) (v p : Text) → ¬ Reaches (replicate k false) v p
unreached zero v p r = r
unreached (suc k) v p (inl s) = cc (s.0)
unreached (suc k) v p (inr r) = unreached k (tail v) p r

-- A lone star matches every text.
Glob-star : (v : Text) → Glob (star ∷ []) v
Glob-star [] = skip refl done
Glob-star (x ∷ v) = take refl (Glob-star v)

-- The table of `matches_wildcard` answers true exactly when the text matches the pattern as the
-- relation `Glob` defines it.
pub matches_wildcard_iff : (p v : Text) → (matches_wildcard p v ≡ true) ↔ Glob p v
unfolding matches_wildcard
matches_wildcard_iff p v = elim (Bool-cases (text_eq p (star ∷ []))) [
  | inl e ↦ rw e (λ _. rw (text_eq_sound p (star ∷ []) e) (Glob-star v), λ _. refl)
  | inr n ↦
      let row = true ∷ replicate (length v) false in
      let (to, back) = fill_lem p row v (omega (arith, length-replicate (length v) false)) in
      rw n (
        λ h. elim (to h) [ inl s ↦ s.1 | inr r ↦ absurd (unreached (length v) (tail v) p r) ],
        λ g. back (inl (refl, g)),
      )
]
