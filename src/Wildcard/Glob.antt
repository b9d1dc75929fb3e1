-- ===== src/Wildcard/Glob.antt =====
-- What it means for a text to match a pattern, with no table in it.
use strix.Base.{ℕ, ◌≡◌, [], ◌∷◌, Text}
use strix.Wildcard.{star, question}

pub data Glob : Text → Text → Type 0 where
  done : Glob [] []
  skip : {c : ℕ} {p v : Text} → c ≡ star → Glob p v → Glob (c ∷ p) v
  take : {c x : ℕ} {p v : Text} → c ≡ star → Glob (c ∷ p) v → Glob (c ∷ p) (x ∷ v)
  one : {c x : ℕ} {p v : Text} → c ≡ question → Glob p v → Glob (c ∷ p) (x ∷ v)
  exact : {c x : ℕ} {p v : Text} → c ≡ x → Glob p v → Glob (c ∷ p) (x ∷ v)
