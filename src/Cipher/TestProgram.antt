-- ===== src/Cipher/TestProgram.antt =====
-- hw3/cipher/test.c: the program that tries the device. Its files are 1, 2 and 3, one for each
-- call of open. What it prints is left out.
pub mod Steps
pub mod Reads
mod Tests
use advanced_unix_ceng.Base.{ℕ, List, [], ◌∷◌, Option, Bool, true, false, if◌then◌else◌}
use advanced_unix_ceng.Cipher.Device.{CipherDev, Reply, value, fail}
use advanced_unix_ceng.Cipher.File.{cipher_open, cipher_release}
use advanced_unix_ceng.Cipher.Ioctl.{
  Ioc, UserArg, cipher_iocclr, cipher_iocskey, cipher_iocqrem, cipher_ioctl,
}
use advanced_unix_ceng.Cipher.Loop.{Outcome, done, fault, out_of_fuel}
use advanced_unix_ceng.Cipher.Read.{cipher_read}
use advanced_unix_ceng.Cipher.Write.{cipher_write}

infixl 5 ◌>>=◌
abbrev pub ◌>>=◌ : {A B : Type 0} → Outcome A → (A → Outcome B) → Outcome B
done a >>= f = f a
fault >>= f = fault
out_of_fuel >>= f = out_of_fuel

-- `ret < 0`
abbrev pub is_error : Reply → Bool
is_error (value n) = false
is_error (fail e) = true

-- The pointers that the program passes to ioctl: `newkey`, `&remain`, and what stands in the place
-- of the argument that it leaves out.
pub record Pointers : Type 0 where
  pub newkey : UserArg
  pub remain : UserArg
  pub missing : UserArg

-- "Testing new key"
abbrev pub msg : List ℕ
msg = 84 ∷ 101 ∷ 115 ∷ 116 ∷ 105 ∷ 110 ∷ 103 ∷ 32 ∷ 110 ∷ 101 ∷ 119 ∷ 32 ∷ 107 ∷ 101 ∷ 121 ∷ []

-- What the program has seen when it returns 0: the replies of steps 3 to 5, the `int` of step 4,
-- and the bytes of step 5.
pub record Report : Type 0 where
  pub wrote : Reply
  pub asked : Reply
  pub remain : Option ℕ
  pub got : Reply
  pub buf : List ℕ

-- `stopped`: it returns 1.
pub data Exit : Type 0 where
  stopped : CipherDev → Exit
  finished : CipherDev → Report → Exit

-- Step 6, which ends in `return 0` in any case.
unfoldable pub clear_device : Ioc → (ℕ → Bool) → Pointers → CipherDev → Outcome CipherDev
clear_device m kmalloc p dev =
    let (opened, reply) = cipher_open kmalloc dev 3 1 in
    if is_error reply
    then done opened
    else cipher_ioctl m opened 3 (cipher_iocclr m) p.missing >>= λ r. done (cipher_release r.0 3).0

-- Step 5: `sizeof(buf) - 1` is 99.
unfoldable pub read_back : CipherDev → Outcome (CipherDev × Reply × List ℕ)
read_back dev = cipher_read dev 2 99 99 >>= λ r. done ((cipher_release r.0 2).0, r.1, r.2)

-- Steps 3 and 4, with the close after them.
unfoldable pub write_and_ask :
    Ioc → (ℕ → Bool) → Pointers → CipherDev → Outcome (CipherDev × Reply × Reply × Option ℕ)
write_and_ask m kmalloc p dev = cipher_write kmalloc dev 1 msg 15 >>= λ w.
    cipher_ioctl m w.0 1 (cipher_iocqrem m) p.remain >>= λ q.
    done ((cipher_release q.0 1).0, w.1, q.1, q.2)

-- From the second open on.
unfoldable pub second_half :
    Ioc → (ℕ → Bool) → Pointers → CipherDev × Reply × Reply × Option ℕ → Outcome Exit
second_half m kmalloc p s =
    let (opened, reply) = cipher_open kmalloc s.0 2 0 in
    if is_error reply
    then done (stopped opened)
    else read_back opened >>= λ r. clear_device m kmalloc p r.0 >>= λ dev.
        done
          (finished dev (record { wrote = s.1; asked = s.2; remain = s.3; got = r.1; buf = r.2 }))

-- The whole of `main`.
unfoldable pub test_program : Ioc → (ℕ → Bool) → Pointers → CipherDev → Outcome Exit
test_program m kmalloc p dev =
    let (opened, reply) = cipher_open kmalloc dev 1 1 in
    if is_error reply
    then done (stopped opened)
    else cipher_ioctl m opened 1 (cipher_iocskey m) p.newkey >>= λ keyed.
        if is_error keyed.1
        then done (stopped (cipher_release keyed.0 1).0)
        else write_and_ask m kmalloc p keyed.0 >>= second_half m kmalloc p
