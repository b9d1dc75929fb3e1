-- ===== src/Base/Results.antt =====
-- Rust's `Result`, and parsing of decimal numbers.
use Prim.Native.Nat.{ℕ, ◌+◌, ◌*◌, ◌-◌}
use mathlib.Core.Path.{◌≡◌, refl}
use mathlib.Core.Bool.{Bool, true, false, ◌&&◌}
use mathlib.Core.Option.{Option, none, some}
use mathlib.Core.List.{[], ◌∷◌}
use strix.Base.Tests.{◌==◌, leb, if◌then◌else◌}
use strix.Base.Texts.{Text}

pub data Result {ℓ κ} (E : Type ℓ) (A : Type κ) : Type (ℓ ⊔ κ) where
  ok : A → Result E A
  err : E → Result E A

-- `ok_or_else`
abbrev pub ok_or {ℓ κ} : {E : Type ℓ} {A : Type κ} → Option A → E → Result E A
ok_or none e = err e
ok_or (some a) e = ok a

-- `?`
infixl 5 ◌>>=◌
abbrev pub ◌>>=◌ {ℓ κ ι} :
    {E : Type ℓ} {A : Type κ} {B : Type ι} → Result E A → (A → Result E B) → Result E B
err failure >>= next = err failure
ok value >>= next = next value

-- `if test { return Err(e) }`
abbrev pub reject_if {ℓ} : {E : Type ℓ} → Bool → E → Result E (Unit {0})
reject_if true e = err e
reject_if false e = ok tt

-- `?` on a result that is not used.
infixl 5 ◌>>◌
abbrev pub ◌>>◌ {ℓ κ ι} :
    {E : Type ℓ} {A : Type κ} {B : Type ι} → Result E A → Result E B → Result E B
first >> second = first >>= λ _. second

is_digit : ℕ → Bool
is_digit c = leb b'0' c && leb c b'9'

-- The value of the digits after `n`, if there are only digits and it stays at most `bound`.
digits : ℕ → ℕ → Text → Option ℕ
unfolding is_digit
digits bound n [] = some n
digits bound n (c ∷ s) =
    let m = n * 10 + (c - b'0') in
    let rest = digits bound m s in if is_digit c then (if leb m bound then rest else none) else none

-- At least one digit.
number : ℕ → Text → Option ℕ
unfolding digits
number bound [] = none
number bound (c ∷ s) = digits bound 0 (c ∷ s)

-- `parse::<uN>()`, for the type whose largest value is `bound`: a plus sign may stand in front.
unfoldable pub parse_uint : ℕ → Text → Option ℕ
unfolding number
parse_uint bound [] = none
parse_uint bound (c ∷ s) = if c == b'+' then number bound s else number bound (c ∷ s)

-- Inversion of a `?` that went on: the first part had a value, from which the second came.
pub >>=-eq-ok {ℓ κ ι} :
    {E : Type ℓ} {A : Type κ} {B : Type ι} (r : Result E A) (next : A → Result E B) {b : B}
    → (r >>= next) ≡ ok b
    → (value : A) × (r ≡ ok value) × (next value ≡ ok b)
>>=-eq-ok (err failure) next h = cc
>>=-eq-ok (ok value) next h = (value, refl, h)

pub reject_if-eq-ok {ℓ} :
    {E : Type ℓ} (b : Bool) (e : E) {u : Unit {0}} → reject_if b e ≡ ok u → b ≡ false
reject_if-eq-ok true e h = cc
reject_if-eq-ok false e h = refl

pub ok_or-eq-ok {ℓ κ} :
    {E : Type ℓ} {A : Type κ} (o : Option A) (e : E) {a : A} → ok_or o e ≡ ok a → o ≡ some a
ok_or-eq-ok none e h = cc
ok_or-eq-ok (some a) e h = cc

pub ok-injective {ℓ κ} :
    {E : Type ℓ} {A : Type κ} {a b : A} → ◌≡◌ {A = Result E A} (ok a) (ok b) → a ≡ b
ok-injective h = cc
