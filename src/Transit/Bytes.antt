-- ===== src/Transit/Bytes.antt =====
-- `write_any` and `read_any` of rust/transit/src/serialize.rs, for the integers of a little-endian
-- target. A buffer is the list of its bytes; a pointer into it is an offset.
use micromegas.Prelude.{
  ℕ, zero, suc, ◌+◌, ◌*◌, ◌/◌, ◌%◌, ◌^◌, ◌<◌, ◌≡◌, refl, ap, List, [], ◌∷◌, ◌++◌, Option, none,
  some, Result, ok, out_of_bounds, or_fail, or_fail-ok, ◌>>=◌, >>=-eq-ok, length, drop, drop-append,
  All, Option-cases, inl, inr, append_assoc, arith, ℤ, i64_of_bits, bits_of_i64, IsI64,
  bits_of_i64-lt, i64_of_bits-bits_of_i64,
}
use mathlib.Core.Option
use mathlib.Core.Path.{subst}
use mathlib.Core.Option.{some-injective}
use native.Mathlib.Nat.{pow-suc}

abbrev pub IsByte : ℕ → Type 0
IsByte b = b < 256

-- The `size` bytes of `value`, lowest first.
unfoldable pub le_bytes : ℕ → ℕ → List ℕ
le_bytes zero value = []
le_bytes (suc size) value = (value % 256) ∷ le_bytes size (value / 256)

unfoldable pub of_le_bytes : List ℕ → ℕ
of_le_bytes [] = 0
of_le_bytes (b ∷ bs) = b + 256 * of_le_bytes bs

unfoldable pub take_exact : ℕ → List ℕ → Option (List ℕ)
take_exact zero xs = some []
take_exact (suc n) [] = none
take_exact (suc n) (x ∷ xs) = Option.map (λ r. x ∷ r) (take_exact n xs)

-- The `size` bytes behind a pointer: none where they are not all in the buffer.
unfoldable pub window : List ℕ → ℕ → ℕ → Option (List ℕ)
unfolding take_exact
window buffer offset size = take_exact size (drop offset buffer)

unfoldable pub write_any : ℕ → ℕ → List ℕ → List ℕ
write_any size value buffer = buffer ++ le_bytes size value

unfoldable pub read_any : ℕ → List ℕ → ℕ → Result ℕ
read_any size buffer offset = do
  bytes ← or_fail (window buffer offset size) out_of_bounds
  ok (of_le_bytes bytes)

-- `read_any::<i64>`
unfoldable pub read_i64 : List ℕ → ℕ → Result ℤ
read_i64 buffer offset = do bits ← read_any 8 buffer offset; ok (i64_of_bits bits)

pub length-le_bytes : (size value : ℕ) → length (le_bytes size value) ≡ size
unfolding le_bytes
length-le_bytes zero value = refl
length-le_bytes (suc size) value = omega (arith, length-le_bytes size (value / 256))

pub le_bytes-IsByte : (size value : ℕ) → All IsByte (le_bytes size value)
unfolding le_bytes
le_bytes-IsByte zero value = tt
le_bytes-IsByte (suc size) value = (omega arith, le_bytes-IsByte size (value / 256))

pub of_le_bytes-le_bytes :
    (size value : ℕ) → value < 256 ^ size → of_le_bytes (le_bytes size value) ≡ value
unfolding le_bytes of_le_bytes
of_le_bytes-le_bytes zero value h = omega arith
of_le_bytes-le_bytes (suc size) value h =
    omega (arith, of_le_bytes-le_bytes size (value / 256) (omega (arith, pow-suc 256 size)))

take_exact-append : (xs ys : List ℕ) → take_exact (length xs) (xs ++ ys) ≡ some xs
unfolding take_exact
take_exact-append [] ys = refl
take_exact-append (x ∷ xs) ys = rw (take_exact-append xs ys)

pub window-append :
    (front mid back : List ℕ)
    → window (front ++ (mid ++ back)) (length front) (length mid) ≡ some mid
unfolding window
window-append front mid back = rw drop-append (take_exact-append mid back)

-- What `write_any` appended is read back at the place where it starts, whatever follows.
pub read_any-write_any :
    (size value : ℕ) (front back : List ℕ)
    → value < 256 ^ size
    → read_any size (write_any size value front ++ back) (length front) ≡ ok value
unfolding read_any write_any
read_any-write_any size value front back h =
    rw (append_assoc, at_front) (ap ok (of_le_bytes-le_bytes size value h))
  where
    at_front :
        window (front ++ (le_bytes size value ++ back)) (length front) size
        ≡ some (le_bytes size value)
    at_front = rw (length-le_bytes) at (window-append front (le_bytes size value) back)

pub read_any-le_bytes :
    (size value : ℕ) (front back : List ℕ)
    → value < 256 ^ size
    → read_any size (front ++ (le_bytes size value ++ back)) (length front) ≡ ok value
unfolding write_any
read_any-le_bytes size value front back h =
    rw append_assoc at (read_any-write_any size value front back h)

pub read_i64-le_bytes :
    (time : ℤ) (front back : List ℕ)
    → IsI64 time
    → read_i64 (front ++ (le_bytes 8 (bits_of_i64 time) ++ back)) (length front) ≡ ok time
unfolding read_i64
read_i64-le_bytes time front back h =
    rw (read_any-le_bytes 8 (bits_of_i64 time) front back (bits_of_i64-lt time h))
      (ap ok (i64_of_bits-bits_of_i64 time h))

of_le_bytes-lt : (bs : List ℕ) → All IsByte bs → of_le_bytes bs < 256 ^ length bs
unfolding of_le_bytes
of_le_bytes-lt [] h = omega arith
of_le_bytes-lt (b ∷ bs) (h, hs) = omega (arith, h, of_le_bytes-lt bs hs, pow-suc 256 (length bs))

drop-IsByte : (n : ℕ) (xs : List ℕ) → All IsByte xs → All IsByte (drop n xs)
drop-IsByte zero xs h = h
drop-IsByte (suc n) [] h = tt
drop-IsByte (suc n) (x ∷ xs) (h, hs) = drop-IsByte n xs hs

take_exact-IsByte :
    (n : ℕ) (xs ys : List ℕ)
    → All IsByte xs
    → take_exact n xs ≡ some ys
    → All IsByte ys × (length ys ≡ n)
unfolding take_exact
take_exact-IsByte zero xs ys h e =
    subst (λ zs. All IsByte zs × (length zs ≡ 0)) (some-injective _ _ e) (tt, refl)
take_exact-IsByte (suc n) [] ys h e = cc
take_exact-IsByte (suc n) (x ∷ xs) ys (h, hs) e = elim (Option-cases (take_exact n xs)) [
  | inl missing ↦ absurd (none_some ys (rw missing at e))
  | inr (r, found) ↦
      let (bytes, counted) = take_exact-IsByte n xs r hs found in
      subst (λ zs. All IsByte zs × (length zs ≡ suc n)) (some-injective _ _ (rw found at e))
        ((h, bytes), ap suc counted)
]
  where
    none_some : (zs : List ℕ) → ◌≡◌ {A = Option (List ℕ)} none (some zs) → ⊥
    none_some zs k = cc

-- A number that is read from bytes fits in them.
pub read_any-lt :
    (size : ℕ) (buffer : List ℕ) (offset n : ℕ)
    → All IsByte buffer
    → read_any size buffer offset ≡ ok n
    → n < 256 ^ size
unfolding read_any window
read_any-lt size buffer offset n h e =
    let (bytes, found, last) = >>=-eq-ok (or_fail (window buffer offset size) out_of_bounds) _ e in
    let (all, counted) =
      take_exact-IsByte size (drop offset buffer) bytes (drop-IsByte offset buffer h)
        (or_fail-ok _ _ found) in
    let same : of_le_bytes bytes ≡ n = cc in
    let below : of_le_bytes bytes < 256 ^ length bytes = of_le_bytes-lt bytes all in
    rw (same, counted) at below
