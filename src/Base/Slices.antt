-- ===== src/Base/Slices.antt =====
-- Pieces of C arrays: prefixes and copies into the middle.
use Prim.Native.Nat.{ℕ, zero, suc, ◌+◌, ◌-◌, ◌≤◌}
use mathlib.Core.Path.{◌≡◌, refl, ap, ◌∙◌, sym}
use mathlib.Core.List.{List, [], ◌∷◌, ◌++◌}
use native.Mathlib.Omega.{arith}
use native.Mathlib.Nat.{zero-add, suc-add}
use advanced_unix_ceng.Base.Lists.{length, take, drop, length-take, length-drop, length-append}

module _ {ℓ} {A : Type ℓ} where
  -- `memcpy(buffer + at, bytes, length bytes)`
  abbrev pub splice : List A → ℕ → List A → List A
  splice buffer at bytes = take at buffer ++ (bytes ++ drop (at + length bytes) buffer)

  pub take_prefix : (xs ys : List A) → take (length xs) (xs ++ ys) ≡ xs
  take_prefix [] ys = refl
  take_prefix (x ∷ xs) ys = ap (◌∷◌ x) (take_prefix xs ys)

  take_past : (xs ys : List A) (n : ℕ) → take (length xs + n) (xs ++ ys) ≡ xs ++ take n ys
  take_past [] ys n = rw zero-add
  take_past (x ∷ xs) ys n = rw suc-add (ap (◌∷◌ x) (take_past xs ys n))

  -- A prefix of n + m elements in two pieces.
  pub take-add : (n m : ℕ) (xs : List A) → take (n + m) xs ≡ take n xs ++ take m (drop n xs)
  take-add zero m xs = rw zero-add
  take-add (suc n) zero [] = rw suc-add
  take-add (suc n) (suc m) [] = rw suc-add
  take-add (suc n) m (x ∷ xs) = rw suc-add (ap (◌∷◌ x) (take-add n m xs))

  pub take_all : (n : ℕ) (xs : List A) → length xs ≤ n → take n xs ≡ xs
  take_all zero [] h = refl
  take_all zero (x ∷ xs) h = absurd (omega arith)
  take_all (suc n) [] h = refl
  take_all (suc n) (x ∷ xs) h = ap (◌∷◌ x) (take_all n xs (omega arith))

  -- What stands before the end of a copy: the old bytes, then the new.
  pub take-splice :
      (buffer : List A) (at : ℕ) (bytes : List A)
      → at ≤ length buffer
      → take (at + length bytes) (splice buffer at bytes) ≡ take at buffer ++ bytes
  take-splice buffer at bytes h =
      let rest = bytes ++ drop (at + length bytes) buffer in
      let e : length (take at buffer) ≡ at = omega (arith, length-take at buffer) in
      ap (λ k. take (k + length bytes) (take at buffer ++ rest)) (sym e)
      ∙ take_past (take at buffer) rest (length bytes)
      ∙ ap (◌++◌ (take at buffer)) (take_prefix bytes (drop (at + length bytes) buffer))

  -- Overwriting part of a buffer keeps its length.
  pub length-splice :
      (buffer : List A) (at : ℕ) (bytes : List A)
      → at + length bytes ≤ length buffer
      → length (splice buffer at bytes) ≡ length buffer
  length-splice buffer at bytes h = omega (
    arith,
    length-append (take at buffer) (bytes ++ drop (at + length bytes) buffer),
    length-append bytes (drop (at + length bytes) buffer),
    length-take at buffer,
    length-drop (at + length bytes) buffer,
  )

  pub drop-add : (n m : ℕ) (xs : List A) → drop (n + m) xs ≡ drop m (drop n xs)
  drop-add zero m xs = rw zero-add
  drop-add (suc n) zero [] = rw suc-add
  drop-add (suc n) (suc m) [] = rw suc-add
  drop-add (suc n) m (x ∷ xs) = rw suc-add (drop-add n m xs)

  pub drop_all : (n : ℕ) (xs : List A) → length xs ≤ n → drop n xs ≡ []
  drop_all zero [] h = refl
  drop_all zero (x ∷ xs) h = absurd (omega arith)
  drop_all (suc n) [] h = refl
  drop_all (suc n) (x ∷ xs) h = drop_all n xs (omega arith)

  take-take : (n m : ℕ) (xs : List A) → n ≤ m → take n (take m xs) ≡ take n xs
  take-take zero m xs h = refl
  take-take (suc n) zero xs h = absurd (omega arith)
  take-take (suc n) (suc m) [] h = refl
  take-take (suc n) (suc m) (x ∷ xs) h = ap (◌∷◌ x) (take-take n m xs (omega arith))

  -- A piece that lies within a prefix.
  pub take-drop-take :
      (n at m : ℕ) (xs : List A) → at + n ≤ m → take n (drop at (take m xs)) ≡ take n (drop at xs)
  take-drop-take n zero m xs h = take-take n m xs (omega arith)
  take-drop-take zero (suc at) m xs h = refl
  take-drop-take (suc n) (suc at) zero xs h = absurd (omega arith)
  take-drop-take (suc n) (suc at) (suc m) [] h = refl
  take-drop-take (suc n) (suc at) (suc m) (x ∷ xs) h = take-drop-take (suc n) at m xs (omega arith)

  -- A prefix that is longer than a first piece of the list.
  pub take-split_front :
      (n count : ℕ) (xs ys : List A)
      → n ≤ count
      → n ≤ length xs
      → take count (xs ++ ys) ≡ take n xs ++ take (count - n) (drop n xs ++ ys)
  take-split_front zero count xs ys h h' = ap (λ k. take k (xs ++ ys)) (omega arith)
  take-split_front (suc n) count [] ys h h' = absurd (omega arith)
  take-split_front (suc n) zero (x ∷ xs) ys h h' = absurd (omega arith)
  take-split_front (suc n) (suc count) (x ∷ xs) ys h h' = ap (◌∷◌ x) (
      take-split_front n count xs ys (omega arith) (omega arith)
      ∙ ap (λ k. take n xs ++ take k (drop n xs ++ ys)) (omega arith))
