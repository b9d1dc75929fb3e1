-- ===== src/Base/Utf8.antt =====
-- `String::from_utf8`, and that it reads what `str::as_bytes` writes.
use Prim.Native.Nat.{ℕ, zero, suc, ◌+◌, ◌*◌, ◌-◌, ◌/◌, ◌%◌, ◌<◌, ◌≤◌}
use mathlib.Core.Path.{◌≡◌, refl}
use mathlib.Core.Bool.{Bool, true, ◌&&◌, ◌||◌}
use mathlib.Core.Option.{Option, none, some}
use mathlib.Core.List.{List, [], ◌∷◌, ◌++◌}
use native.Mathlib.Omega.{arith}
use strix.Base.Tests.{ltb, leb, if◌then◌else◌, Bool-cases, ltb_iff, and_iff}
use strix.Base.Lists.{all}
use mathlib.Core.Logic.{inl, inr}
use strix.Base.Texts.{Text, utf8, as_bytes}

-- A character: a code point that is no surrogate.
unfoldable pub is_char : ℕ → Bool
is_char c = ltb c 0xd800 || (leb 0xe000 c && ltb c 0x110000)

put_char : ℕ → ℕ → Option Text → Option Text
unfolding is_char
put_char least c none = none
put_char least c (some s) = if is_char c && leb least c then some (c ∷ s) else none

-- `missing` bytes of a character are still to come, of which `c` is read so far; it may not be below
-- `least`, which a shorter form can write.
decode_utf8 : (missing c least : ℕ) → List ℕ → Option Text
unfolding put_char
decode_utf8 zero c least [] = some []
decode_utf8 (suc n) c least [] = none
decode_utf8 zero c least (b ∷ bytes) =
    let one = decode_utf8 0 0 0 bytes in
    let two = decode_utf8 1 (b - 0xc0) 0x80 bytes in
    let three = decode_utf8 2 (b - 0xe0) 0x800 bytes in
    let four = decode_utf8 3 (b - 0xf0) 0x10000 bytes in
    if ltb b 0x80
    then put_char 0 b one
    else if ltb b 0xc0
    then none
    else if ltb b 0xe0
    then two
    else if ltb b 0xf0
    then three
    else if ltb b 0xf8
    then four
    else none
decode_utf8 (suc zero) c least (b ∷ bytes) =
    let rest = decode_utf8 0 0 0 bytes in
    if leb 0x80 b && ltb b 0xc0 then put_char least (c * 64 + (b - 0x80)) rest else none
decode_utf8 (suc (suc n)) c least (b ∷ bytes) =
    let rest = decode_utf8 (suc n) (c * 64 + (b - 0x80)) least bytes in
    if leb 0x80 b && ltb b 0xc0 then rest else none

unfoldable pub from_utf8 : List ℕ → Option Text
unfolding decode_utf8
from_utf8 bytes = decode_utf8 0 0 0 bytes

two_bytes :
    (q r : ℕ) (bytes : List ℕ)
    → q < 32
    → r < 64
    → decode_utf8 0 0 0 ((0xc0 + q) ∷ (0x80 + r) ∷ bytes)
      ≡ put_char 0x80 (q * 64 + r) (decode_utf8 0 0 0 bytes)
unfolding decode_utf8
two_bytes q r bytes h k = ground arith

three_bytes :
    (p q r : ℕ) (bytes : List ℕ)
    → p < 16
    → q < 64
    → r < 64
    → decode_utf8 0 0 0 ((0xe0 + p) ∷ (0x80 + q) ∷ (0x80 + r) ∷ bytes)
      ≡ put_char 0x800 ((p * 64 + q) * 64 + r) (decode_utf8 0 0 0 bytes)
unfolding decode_utf8
three_bytes p q r bytes h k l = ground arith

four_bytes :
    (o p q r : ℕ) (bytes : List ℕ)
    → o < 8
    → p < 64
    → q < 64
    → r < 64
    → decode_utf8 0 0 0 ((0xf0 + o) ∷ (0x80 + p) ∷ (0x80 + q) ∷ (0x80 + r) ∷ bytes)
      ≡ put_char 0x10000 (((o * 64 + p) * 64 + q) * 64 + r) (decode_utf8 0 0 0 bytes)
unfolding decode_utf8
four_bytes o p q r bytes h k l m = ground arith

put_char_lem :
    (least c : ℕ) (s : Text)
    → is_char c ≡ true
    → least ≤ c
    → put_char least c (some s) ≡ some (c ∷ s)
unfolding put_char
put_char_lem least c s h k = ground (arith, h)

char-lt : (c : ℕ) → is_char c ≡ true → c < 0x110000
unfolding is_char
char-lt c h = ground arith

module _ (c : ℕ) (bytes : List ℕ) (s : Text) where
  from_utf8-one :
      is_char c ≡ true
      → decode_utf8 0 0 0 bytes ≡ some s
      → c < 0x80
      → decode_utf8 0 0 0 (c ∷ bytes) ≡ some (c ∷ s)
  unfolding decode_utf8
  from_utf8-one h e k = rw ((ltb_iff c 0x80).1 k, e) (put_char_lem 0 c s h (omega arith))

  from_utf8-two :
      is_char c ≡ true
      → decode_utf8 0 0 0 bytes ≡ some s
      → 0x80 ≤ c
      → c < 0x800
      → decode_utf8 0 0 0 ((0xc0 + c / 64) ∷ (0x80 + c % 64) ∷ bytes) ≡ some (c ∷ s)
  from_utf8-two h e l k =
      let value : c / 64 * 64 + c % 64 ≡ c = omega arith in
      let q : c / 64 < 32 = omega arith in
      let r : c % 64 < 64 = omega arith in
      rw (two_bytes (c / 64) (c % 64) bytes q r, e, value) (put_char_lem 0x80 c s h l)

  from_utf8-three :
      is_char c ≡ true
      → decode_utf8 0 0 0 bytes ≡ some s
      → 0x800 ≤ c
      → c < 0x10000
      → decode_utf8 0 0 0 ((0xe0 + c / 4096) ∷ (0x80 + (c / 64) % 64) ∷ (0x80 + c % 64) ∷ bytes)
        ≡ some (c ∷ s)
  from_utf8-three h e l k =
      let value : (c / 4096 * 64 + (c / 64) % 64) * 64 + c % 64 ≡ c = omega arith in
      let p : c / 4096 < 16 = omega arith in
      let q : (c / 64) % 64 < 64 = omega arith in
      let r : c % 64 < 64 = omega arith in
      rw (three_bytes (c / 4096) ((c / 64) % 64) (c % 64) bytes p q r, e, value)
        (put_char_lem 0x800 c s h l)

  from_utf8-four :
      is_char c ≡ true
      → decode_utf8 0 0 0 bytes ≡ some s
      → 0x10000 ≤ c
      → decode_utf8 0 0 0 (
          (0xf0 + c / 262144)
          ∷ (0x80 + (c / 4096) % 64)
          ∷ (0x80 + (c / 64) % 64)
          ∷ (0x80 + c % 64)
          ∷ bytes)
        ≡ some (c ∷ s)
  from_utf8-four h e l =
      let k = char-lt c h in
      let value : ((c / 262144 * 64 + (c / 4096) % 64) * 64 + (c / 64) % 64) * 64 + c % 64 ≡ c =
        omega arith in
      let o : c / 262144 < 8 = omega arith in
      let p : (c / 4096) % 64 < 64 = omega arith in
      let q : (c / 64) % 64 < 64 = omega arith in
      let r : c % 64 < 64 = omega arith in
      rw
        (four_bytes (c / 262144) ((c / 4096) % 64) ((c / 64) % 64) (c % 64) bytes o p q r, e, value)
        (put_char_lem 0x10000 c s h l)

  decode-utf8 :
      is_char c ≡ true
      → decode_utf8 0 0 0 bytes ≡ some s
      → decode_utf8 0 0 0 (utf8 c ++ bytes) ≡ some (c ∷ s)
  decode-utf8 h e = elim (Bool-cases (ltb c 0x80)) [
    | inl one ↦ rw one (from_utf8-one h e ((ltb_iff c 0x80).0 one))
    | inr n₁ ↦ elim (Bool-cases (ltb c 0x800)) [
      | inl two ↦ rw (n₁, two) (from_utf8-two h e (ground arith) (ground arith))
      | inr n₂ ↦ elim (Bool-cases (ltb c 0x10000)) [
        | inl three ↦ rw (n₁, n₂, three) (from_utf8-three h e (ground arith) (ground arith))
        | inr n₃ ↦ rw (n₁, n₂, n₃) (from_utf8-four h e (ground arith))
      ]
    ]
  ]

-- What `as_bytes` writes `from_utf8` reads.
pub from_utf8-as_bytes : (s : Text) → all is_char s ≡ true → from_utf8 (as_bytes s) ≡ some s
unfolding from_utf8 decode_utf8 as_bytes
from_utf8-as_bytes [] h = refl
from_utf8-as_bytes (c ∷ s) h =
    let (one, rest) = (and_iff (is_char c) (all is_char s)).0 h in
    decode-utf8 c (as_bytes s) s one (from_utf8-as_bytes s rest)
