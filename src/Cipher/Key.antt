-- ===== src/Cipher/Key.antt =====
-- cipher_xor_buffer of hw3/cipher/cipher.c.
pub mod Stream
use advanced_unix_ceng.Base.{
  ℕ, ◌+◌, ◌-◌, ◌%◌, ◌^◌, bit_xor, List, [], ◌∷◌, Option, none, some, if◌then◌else◌, ◌==◌, ltb,
  get_elem?,
}
use advanced_unix_ceng.Cipher.Device.{CipherDev}

-- `dev->cipher[(*keyoff) % dev->cipherlen]`. `none` is undefined behaviour: a division by zero for
-- an empty key, and a read before the array for a negative offset that is no multiple of the
-- key's length (C's `%` takes the sign of the dividend).
unfoldable pub key_byte : CipherDev → ℕ → Option ℕ
key_byte dev keyoff =
    if dev.cipherlen == 0
    then none
    else if ltb keyoff (2 ^ 31)
    then get_elem? dev.cipher (keyoff % dev.cipherlen)
    else if (2 ^ 32 - keyoff) % dev.cipherlen == 0
    then get_elem? dev.cipher 0
    else none

-- `(*keyoff)++` on the bit pattern of an `int`; the kernel is compiled so that it wraps.
abbrev pub next_keyoff : ℕ → ℕ
next_keyoff keyoff = (keyoff + 1) % 2 ^ 32

abbrev pub put_byte : ℕ → Option (List ℕ × ℕ) → Option (List ℕ × ℕ)
put_byte y none = none
put_byte y (some (ys, keyoff)) = some (y ∷ ys, keyoff)

-- The bytes after the loop, and the key offset that it leaves.
unfoldable pub cipher_xor_buffer : CipherDev → List ℕ → ℕ → Option (List ℕ × ℕ)
cipher_xor_buffer dev [] keyoff = some ([], keyoff)
cipher_xor_buffer dev (x ∷ xs) keyoff = elim (key_byte dev keyoff) [
  | none ↦ none
  | some k ↦ put_byte (bit_xor x k) (cipher_xor_buffer dev xs (next_keyoff keyoff))
]
