-- ===== src/Storage/Read/Ranges.antt =====
-- Range requests.
use strix.Base.{
  ℕ, zero, suc, ◌+◌, ◌-◌, ◌≤◌, ◌<◌, ◌≡◌, refl, ap, ◌∙◌, ◌↔◌, ◌⊎◌, [], ◌∷◌, ◌++◌, Option, none, some,
  arith, length, take, drop, ltb, leb, ◌==◌, Result, ok, err, reject_if, ◌>>◌,
}
use strix.Crypto.{Bytes}
use strix.Storage.Tables.{StorageError, invalid_range}
use strix.Storage.Read.{resolve_range, slice, or_default, min}

-- The last byte that a request names.
abbrev pub last_byte : ℕ → Option ℕ → ℕ
last_byte total none = total - 1
last_byte total (some e) = e

abbrev answer : ℕ → ℕ → ℕ → Result StorageError (ℕ × ℕ)
answer total start last = do
  reject_if (total == 0) invalid_range
  reject_if (leb total start) invalid_range
  reject_if (ltb last start) invalid_range
  ok (start, (min last (total - 1) - start) + 1)

-- The three checks of a range.
checked :
    (total start last n : ℕ)
    → (answer total start last ≡ ok (start, n))
      ↔ ((start < total) × (start ≤ last) × (start + n ≡ min last (total - 1) + 1))
checked total start last n = (λ h. ground arith, λ (a, b, d). ground arith)

checked_first :
    (total start last first n : ℕ)
    → (answer total start last ≡ ok (first, n)) ↔ (
        (first ≡ start) × (start < total) × (start ≤ last) × (first + n ≡ min last (total - 1) + 1))
checked_first total start last first n = (λ h. ground arith, λ (same, a, b, d). ground arith)

refused :
    (total start last : ℕ)
    → (answer total start last ≡ err invalid_range) ↔ ((total ≤ start) ⊎ (last < start))
refused total start last = (λ h. ground arith, λ h. ground arith)

fits :
    (total start last n : ℕ)
    → start < total
    → start ≤ last
    → start + n ≡ min last (total - 1) + 1
    → start + n ≤ total
fits total start last n a b e = ground arith

cut : (n m : ℕ) → n ≤ m → min n m ≡ n
cut n m h = ground arith

take-drop : (n : ℕ) (p : Bytes) → p ≡ take n p ++ drop n p
take-drop zero p = refl
take-drop (suc n) [] = refl
take-drop (suc n) (x ∷ p) = rw (← take-drop n p) refl

length-take : (n : ℕ) (p : Bytes) → n ≤ length p → length (take n p) ≡ n
length-take zero p h = refl
length-take (suc n) [] h = absurd (omega arith)
length-take (suc n) (x ∷ p) h = omega (arith, length-take n p (omega arith))

length-drop : (n : ℕ) (p : Bytes) → n ≤ length p → length (drop n p) + n ≡ length p
length-drop zero p h = omega arith
length-drop (suc n) [] h = absurd (omega arith)
length-drop (suc n) (x ∷ p) h = omega (arith, length-drop n p (omega arith))

-- A range with an answer that begins where the range does.
pub resolve_range-started_iff :
    (total start n : ℕ) (end : Option ℕ)
    → (resolve_range total (some (start, end)) ≡ ok (start, n)) ↔ (
        (start < total)
        × (start ≤ last_byte total end)
        × (start + n ≡ min (last_byte total end) (total - 1) + 1))
unfolding resolve_range or_default
resolve_range-started_iff total start n none = checked total start (total - 1) n
resolve_range-started_iff total start n (some e) = checked total start e n

-- A range is answered, whatever the answer, exactly when it starts inside the object and does
-- not end before it starts, and the answer begins where the range starts and ends with the last
-- byte that is named or with the object's last byte, whichever comes first; the range is
-- refused as invalid exactly when it starts behind the object or ends before it starts.
pub resolve_range_iff :
    (total start first n : ℕ) (end : Option ℕ)
    → ((resolve_range total (some (start, end)) ≡ ok (first, n)) ↔ (
        (first ≡ start)
        × (start < total)
        × (start ≤ last_byte total end)
        × (first + n ≡ min (last_byte total end) (total - 1) + 1)))
      × ((resolve_range total (some (start, end)) ≡ err invalid_range)
          ↔ ((total ≤ start) ⊎ (last_byte total end < start)))
unfolding resolve_range or_default
resolve_range_iff total start first n none =
    (checked_first total start (total - 1) first n, refused total start (total - 1))
resolve_range_iff total start first n (some e) =
    (checked_first total start e first n, refused total start e)

-- A range that is resolved cuts out of the data the bytes that it counts, at its start.
pub resolve_range-slice :
    (p : Bytes) (start n : ℕ) (end : Option ℕ)
    → resolve_range (length p) (some (start, end)) ≡ ok (start, n)
    → (before : Bytes) × (after : Bytes) × (p ≡ before ++ (slice p (start, n) ++ after))
      × (length before ≡ start)
      × (length (slice p (start, n)) ≡ n)
unfolding slice
resolve_range-slice p start n end h =
    let (a, b, e) = (resolve_range-started_iff (length p) start n end).0 h in
    let inside = fits (length p) start (last_byte (length p) end) n a b e in
    let rest = length-drop start p (omega arith) in
    rw (cut n (length p - start) (omega arith)) (
      take start p,
      drop n (drop start p),
      take-drop start p ∙ ap (λ d. take start p ++ d) (take-drop n (drop start p)),
      length-take start p (omega arith),
      length-take n (drop start p) (omega arith),
    )
