-- ===== src/Gateway/Ranges.antt =====
-- `parse_copy_source_range` and `parse_http_range_header` of crates/strix-s3/src/service.rs.
use strix.Base.{
  ℕ, ◌+◌, ◌-◌, ◌≤◌, ◌<◌, ◌≡◌, refl, [], ◌∷◌, Option, none, some, Text, codes, arith, ltb,
  strip_prefix, split_once, parse_uint, if◌then◌else◌, Result, ok, err, ok_or, reject_if, ◌>>=◌,
  ◌>>◌,
}
use strix.Gateway.{S3Error, invalid_argument}
use strix.Storage.Read.{resolve_range, min}
use strix.Storage.Read.Ranges.{resolve_range-started_iff}

abbrev u64_max : ℕ
u64_max = 18446744073709551615

-- The end of a range, which may be left out.
copied_end : ℕ → Text → Result S3Error (ℕ × Option ℕ)
copied_end start [] = ok (start, none)
copied_end start (c ∷ end) = do
  last ← ok_or (parse_uint u64_max (c ∷ end)) invalid_argument
  reject_if (ltb last start) invalid_argument
  ok (start, some last)

copied_start : Text × Text → Result S3Error (ℕ × Option ℕ)
unfolding copied_end
copied_start (start, end) = do
  first ← ok_or (parse_uint u64_max start) invalid_argument
  copied_end first end

unfoldable pub parse_copy_source_range : Text → Result S3Error (ℕ × Option ℕ)
unfolding copied_start
parse_copy_source_range range = do
  rest ← ok_or (strip_prefix (codes "bytes=") range) invalid_argument
  parts ← ok_or (split_once b'-' rest) invalid_argument
  copied_start parts

abbrev bind {ℓ κ} : {A : Type ℓ} {B : Type κ} → Option A → (A → Option B) → Option B
bind none f = none
bind (some a) f = f a

header_end : ℕ → Text → Option (ℕ × Option ℕ)
header_end start [] = some (start, none)
header_end start (c ∷ end) =
    bind (parse_uint u64_max (c ∷ end))
      (λ last. if ltb last start then none else some (start, some last))

header_start : Text × Text → Option (ℕ × Option ℕ)
unfolding header_end
header_start (start, end) = bind (parse_uint u64_max start) (λ first. header_end first end)

unfoldable pub parse_http_range_header : Text → Option (ℕ × Option ℕ)
unfolding header_start
parse_http_range_header range =
    bind (strip_prefix (codes "bytes=") range) (λ rest. bind (split_once b'-' rest) header_start)

-- The value of a result, without its error.
abbrev pub value {ℓ κ} : {E : Type ℓ} {A : Type κ} → Result E A → Option A
value (ok a) = some a
value (err e) = none

value-ok_or :
    {A B : Type 0} (o : Option A) (f : A → Result S3Error B) (g : A → Option B)
    → ((a : A) → value (f a) ≡ g a)
    → value (ok_or o invalid_argument >>= f) ≡ bind o g
value-ok_or none f g h = refl
value-ok_or (some a) f g h = h a

checked_end :
    (start last : ℕ)
    → ◌≡◌ {A = Option (ℕ × Option ℕ)}
        (value {A = ℕ × Option ℕ}
          (reject_if (ltb last start) invalid_argument >> ok (start, some last)))
        (if ltb last start then none else some (start, some last))
checked_end start last = ground arith

same_end : (start : ℕ) (end : Text) → value (copied_end start end) ≡ header_end start end
unfolding copied_end header_end
same_end start [] = refl
same_end start (c ∷ end) =
    value-ok_or (parse_uint u64_max (c ∷ end)) _ _ (λ last. checked_end start last)

same_start : (parts : Text × Text) → value (copied_start parts) ≡ header_start parts
unfolding copied_start header_start
same_start (start, end) = value-ok_or (parse_uint u64_max start) _ _ (λ first. same_end first end)

-- The range of a copy and the range header of a request are read alike: where one has a value
-- the other has the same, and where one has none or an error so has the other.
pub parse_copy_source_range_lem :
    (range : Text) → value (parse_copy_source_range range) ≡ parse_http_range_header range
unfolding parse_copy_source_range parse_http_range_header
parse_copy_source_range_lem range =
    value-ok_or (strip_prefix (codes "bytes=") range) _ _
      (λ rest. value-ok_or (split_once b'-' rest) _ _ same_start)

bind-eq-some :
    {A B : Type 0} (o : Option A) (f : A → Option B) {b : B}
    → bind o f ≡ some b
    → (a : A) × (f a ≡ some b)
bind-eq-some none f h = cc
bind-eq-some (some a) f h = (a, h)

-- A range does not end before it starts.
abbrev Ordered : ℕ → Option ℕ → Type 0
Ordered start none = 0 ≤ start
Ordered start (some last) = start ≤ last

header_end-Ordered :
    (first : ℕ) (text : Text) (start : ℕ) (end : Option ℕ)
    → header_end first text ≡ some (start, end)
    → Ordered start end
unfolding header_end
header_end-Ordered first [] start none h = omega arith
header_end-Ordered first [] start (some last) h = cc
header_end-Ordered first (c ∷ text) start none h =
    let (last, e) = bind-eq-some (parse_uint u64_max (c ∷ text)) _ h in omega arith
header_end-Ordered first (c ∷ text) start (some m) h =
    let (last, e) = bind-eq-some (parse_uint u64_max (c ∷ text)) _ h in ground arith

counted : (a b : ℕ) → a ≤ b → a + (b - a) ≡ b
counted a b h = omega arith

before_end :
    (start last total : ℕ) → start < total → start ≤ last → start ≤ min last (total - 1) + 1
before_end start last total l o = ground arith

answered :
    (total start : ℕ) (end : Option ℕ)
    → start < total
    → Ordered start end
    → (n : ℕ) × (resolve_range total (some (start, end)) ≡ ok (start, n))
answered total start none l o =
    let n = min (total - 1) (total - 1) + 1 - start in
    (
      n,
      (resolve_range-started_iff total start n none).1
          (l, omega arith, counted start _ (before_end start (total - 1) total l (omega arith))),
    )
answered total start (some last) l o =
    let n = min last (total - 1) + 1 - start in
    (
      n,
      (resolve_range-started_iff total start n (some last)).1
          (l, o, counted start _ (before_end start last total l o)),
    )

-- A range header that can be read has an answer on every object that is longer than its start.
pub parse_http_range_header-resolved :
    (range : Text) (total start : ℕ) (end : Option ℕ)
    → parse_http_range_header range ≡ some (start, end)
    → start < total
    → (n : ℕ) × (resolve_range total (some (start, end)) ≡ ok (start, n))
unfolding parse_http_range_header header_start
parse_http_range_header-resolved range total start end h l =
    let (rest, h₁) = bind-eq-some (strip_prefix (codes "bytes=") range) _ h in
    let ((a, b), h₂) = bind-eq-some (split_once b'-' rest) _ h₁ in
    let (first, h₃) = bind-eq-some (parse_uint u64_max a) _ h₂ in
    answered total start end l (header_end-Ordered first b start end h₃)
