-- ===== src/Wildcard.antt =====
-- `matches_wildcard` of crates/strix-iam/src/policy.rs: the table `dp`, row by row.
pub mod Glob
pub mod Correct
use strix.Base.{
  ℕ, Bool, true, false, ◌||◌, List, [], ◌∷◌, Text, ◌==◌, if◌then◌else◌, text_eq, codes, length,
  replicate,
}

abbrev pub star : ℕ
star = b'*'

abbrev pub question : ℕ
question = b'?'

-- Row `i` of `dp` from row `i - 1`, for `c = p[i - 1]`. `diagonal` is `dp[i-1][j-1]`, `left` is
-- `dp[i][j-1]`, the list holds `dp[i-1][j..]`, and the text is `v[j-1..]`.
unfoldable pub cells : (c : ℕ) (diagonal left : Bool) → List Bool → Text → List Bool
cells c diagonal left (above ∷ row) (x ∷ v) =
    let here =
      if c == star then above || left else if c == question || c == x then diagonal else false in
    here ∷ cells c above here row v
cells c diagonal left _ _ = []

-- The whole row: its first cell is set by the loop for patterns that start with `*`.
unfoldable pub next_row : ℕ → List Bool → Text → List Bool
unfolding cells
next_row c [] v = []
next_row c (corner ∷ row) v =
    let first = if c == star then corner else false in first ∷ cells c corner first row v

unfoldable pub fill : Text → List Bool → Text → List Bool
unfolding next_row
fill [] row v = row
fill (c ∷ p) row v = fill p (next_row c row v) v

-- `dp[m][n]`: the last cell of the last row.
unfoldable pub last_cell : List Bool → Bool
last_cell [] = false
last_cell (b ∷ []) = b
last_cell (_ ∷ b ∷ row) = last_cell (b ∷ row)

unfoldable pub matches_wildcard : Text → Text → Bool
unfolding fill last_cell text_eq
matches_wildcard pattern value =
    if text_eq pattern (star ∷ [])
    then true
    else last_cell (fill pattern (true ∷ replicate (length value) false) value)
