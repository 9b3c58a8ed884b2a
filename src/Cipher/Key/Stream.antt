-- ===== src/Cipher/Key/Stream.antt =====
-- cipher_xor_buffer is the exclusive or with the key repeated, and undoes itself.
use advanced_unix_ceng.Base.{
  ℕ, zero, suc, ◌+◌, ◌%◌, ◌^◌, ◌≤◌, ◌<◌, ◌≡◌, refl, ap, ap₂, bit_xor, List, [], ◌∷◌, ◌++◌, some,
  arith, length, get_elem?, get_or, Option-cases, inl, inr,
}
use advanced_unix_ceng.Base.Xor.{bit_xor_twice}
use advanced_unix_ceng.Cipher.Device.{CipherDev}
use advanced_unix_ceng.Cipher.Key.{key_byte, next_keyoff, cipher_xor_buffer}

-- The specification, for a key of `len` bytes: byte i is combined with byte
-- (keyoff + i) mod len of the key.
unfoldable pub encrypt : List ℕ → ℕ → ℕ → List ℕ → List ℕ
encrypt key len keyoff [] = []
encrypt key len keyoff (x ∷ xs) =
    bit_xor x (get_or key (keyoff % len) 0) ∷ encrypt key len (keyoff + 1) xs

-- A key that is not empty, with its length.
pub record HasKey (dev : CipherDev) : Type 0 where
  pub some_key : 0 < dev.cipherlen
  pub key_fits : dev.cipherlen ≤ length dev.cipher

get_elem?-eq-get_or : (xs : List ℕ) (i : ℕ) → i < length xs → get_elem? xs i ≡ some (get_or xs i 0)
get_elem?-eq-get_or [] i h = absurd (omega arith)
get_elem?-eq-get_or (x ∷ xs) zero h = refl
get_elem?-eq-get_or (x ∷ xs) (suc i) h = get_elem?-eq-get_or xs i (omega arith)

key_byte_lem :
    {dev : CipherDev} (keyoff : ℕ)
    → HasKey dev
    → keyoff < 2 ^ 31
    → key_byte dev keyoff ≡ some (get_or dev.cipher (keyoff % dev.cipherlen) 0)
unfolding key_byte
key_byte_lem {dev} keyoff k h =
    ground (arith, get_elem?-eq-get_or dev.cipher (keyoff % dev.cipherlen))

-- With a key that is not empty, and while the offset fits an `int`, the loop computes `encrypt`
-- and advances the offset by the number of bytes.
pub cipher_xor_buffer-eq-encrypt :
    {dev : CipherDev} (xs : List ℕ) (keyoff : ℕ)
    → HasKey dev
    → keyoff + length xs < 2 ^ 31
    → cipher_xor_buffer dev xs keyoff
      ≡ some (encrypt dev.cipher dev.cipherlen keyoff xs, keyoff + length xs)
unfolding cipher_xor_buffer encrypt
cipher_xor_buffer-eq-encrypt {dev} [] keyoff k h = ground arith
cipher_xor_buffer-eq-encrypt {dev} (x ∷ xs) keyoff k h =
    ground (arith, key_byte_lem keyoff k, cipher_xor_buffer-eq-encrypt xs (keyoff + 1) k)

pub length-encrypt :
    (key : List ℕ) (len keyoff : ℕ) (xs : List ℕ) → length (encrypt key len keyoff xs) ≡ length xs
unfolding encrypt
length-encrypt key len keyoff [] = refl
length-encrypt key len keyoff (x ∷ xs) = ap suc (length-encrypt key len (keyoff + 1) xs)

-- Encrypting twice from the same offset gives the bytes back.
pub encrypt_twice :
    (key : List ℕ) (len keyoff : ℕ) (xs : List ℕ)
    → encrypt key len keyoff (encrypt key len keyoff xs) ≡ xs
unfolding encrypt
encrypt_twice key len keyoff [] = refl
encrypt_twice key len keyoff (x ∷ xs) =
    ap₂ ◌∷◌ (bit_xor_twice x _) (encrypt_twice key len (keyoff + 1) xs)

-- A stream may be encrypted in pieces.
pub encrypt-append :
    (key : List ℕ) (len keyoff : ℕ) (xs ys : List ℕ)
    → encrypt key len keyoff (xs ++ ys)
      ≡ encrypt key len keyoff xs ++ encrypt key len (keyoff + length xs) ys
unfolding encrypt
encrypt-append key len keyoff [] ys = ap (λ k. encrypt key len k ys) (omega arith)
encrypt-append key len keyoff (x ∷ xs) ys =
    ground (arith, encrypt-append key len (keyoff + 1) xs ys)

-- Whatever the key, the loop neither drops nor adds a byte.
pub length-cipher_xor_buffer :
    (dev : CipherDev) (xs : List ℕ) (keyoff : ℕ) (ys : List ℕ) (end : ℕ)
    → cipher_xor_buffer dev xs keyoff ≡ some (ys, end)
    → length ys ≡ length xs
unfolding cipher_xor_buffer
length-cipher_xor_buffer dev [] keyoff ys end h = ground arith
length-cipher_xor_buffer dev (x ∷ xs) keyoff [] end h = ground arith
length-cipher_xor_buffer dev (x ∷ xs) keyoff (y ∷ ys) end h =
    ground (arith, length-cipher_xor_buffer dev xs (next_keyoff keyoff) ys end)

-- Whatever the key: if the loop gets through a buffer, then from the same offset it gets through
-- the result, gives the first bytes back, and leaves the same offset.
pub cipher_xor_buffer_twice :
    (dev : CipherDev) (xs : List ℕ) (keyoff : ℕ) (ys : List ℕ) (end : ℕ)
    → cipher_xor_buffer dev xs keyoff ≡ some (ys, end)
    → cipher_xor_buffer dev ys keyoff ≡ some (xs, end)
unfolding cipher_xor_buffer
cipher_xor_buffer_twice dev [] keyoff [] end h = h
cipher_xor_buffer_twice dev [] keyoff (y ∷ ys) end h = ground arith
cipher_xor_buffer_twice dev (x ∷ xs) keyoff [] end h = ground arith
cipher_xor_buffer_twice dev (x ∷ xs) keyoff (y ∷ ys) end h =
    elim (Option-cases (key_byte dev keyoff)) [
      | inl e ↦ ground arith
      | inr (k, e) ↦
          ground
            (arith, bit_xor_twice x k, cipher_xor_buffer_twice dev xs (next_keyoff keyoff) ys end)
    ]
