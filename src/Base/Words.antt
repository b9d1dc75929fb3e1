-- ===== src/Base/Words.antt =====
-- `[String]::join(" ")` and `str::split_whitespace`.
use Prim.Native.Nat.{ℕ}
use mathlib.Core.Path.{◌≡◌, refl, sym, ap, ◌∙◌}
use mathlib.Core.Bool.{Bool, true, false, not, ◌&&◌, ◌||◌}
use mathlib.Core.List.{List, [], ◌∷◌, ◌++◌, append-nil, append_assoc}
use native.Mathlib.Omega.{arith}
use strix.Base.Tests.{◌==◌, leb, if◌then◌else◌, and_iff}
use strix.Base.Lists.{all}
use strix.Base.Texts.{Text}

-- `join(" ")`
unfoldable pub join_words : List Text → Text
join_words [] = []
join_words (w ∷ []) = w
join_words (w ∷ v ∷ words) = w ++ b' ' ∷ join_words (v ∷ words)

-- `char::is_whitespace`
unfoldable pub is_whitespace : ℕ → Bool
is_whitespace c =
    (leb 9 c && leb c 13)
    || c == 0x20
    || c == 0x85
    || c == 0xa0
    || c == 0x1680
    || (leb 0x2000 c && leb c 0x200a)
    || c == 0x2028
    || c == 0x2029
    || c == 0x202f
    || c == 0x205f
    || c == 0x3000

add_word : Text → List Text → List Text
add_word [] words = words
add_word (c ∷ word) words = (c ∷ word) ∷ words

-- The words of a text, of the first of which `word` is read so far.
split_words : Text → Text → List Text
unfolding add_word is_whitespace
split_words word [] = add_word word []
split_words word (c ∷ s) =
    let next = split_words [] s in
    let longer = split_words (word ++ c ∷ []) s in
    if is_whitespace c then add_word word next else longer

unfoldable pub split_whitespace : Text → List Text
unfolding split_words
split_whitespace s = split_words [] s

-- A text that stays one word.
unfoldable pub is_word : Text → Bool
unfolding is_whitespace
is_word [] = false
is_word (c ∷ s) = all (λ d. not (is_whitespace d)) (c ∷ s)

split_words-append :
    (read word s : Text)
    → all (λ d. not (is_whitespace d)) word ≡ true
    → split_words read (word ++ s) ≡ split_words (read ++ word) s
unfolding split_words
split_words-append read [] s h = rw (append-nil read) refl
split_words-append read (c ∷ word) s h =
    let (black, rest) = (and_iff (not (is_whitespace c)) _).0 h in
    let same : is_whitespace c ≡ false = ground arith in
    rw same (
      split_words-append (read ++ c ∷ []) word s rest
      ∙ ap (λ t. split_words t s) (append_assoc read (c ∷ []) word))

-- Splitting undoes joining.
pub split_whitespace-join_words :
    (words : List Text) → all is_word words ≡ true → split_whitespace (join_words words) ≡ words
unfolding split_whitespace join_words split_words is_word
split_whitespace-join_words [] h = refl
split_whitespace-join_words ([] ∷ words) h = cc
split_whitespace-join_words ((c ∷ w) ∷ []) h =
    let (word, _) = (and_iff (is_word (c ∷ w)) true).0 h in
    ap (split_words []) (sym (append-nil (c ∷ w))) ∙ split_words-append [] (c ∷ w) [] word
split_whitespace-join_words ((c ∷ w) ∷ v ∷ words) h =
    let (word, rest) = (and_iff (is_word (c ∷ w)) (all is_word (v ∷ words))).0 h in
    split_words-append [] (c ∷ w) (b' ' ∷ join_words (v ∷ words)) word
    ∙ ap (λ t. (c ∷ w) ∷ t) (split_whitespace-join_words (v ∷ words) rest)
