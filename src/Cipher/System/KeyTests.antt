-- ===== src/Cipher/System/KeyTests.antt =====
-- Runs of the device of hw3/cipher/cipher.c with a new key.
use advanced_unix_ceng.Base.{◌≡◌, refl, [], ◌∷◌, none, true, arith, replicate, take}
use advanced_unix_ceng.Cipher.Device.{CipherDev, Fcontext, value, writer, find_context}
use advanced_unix_ceng.Cipher.Driver.{init_device}
use advanced_unix_ceng.Cipher.File.{cipher_open}
use advanced_unix_ceng.Cipher.Ioctl.{UserArg, c_string, cipher_iocskey, cipher_ioctl}
use advanced_unix_ceng.Cipher.Loop.{fault}
use advanced_unix_ceng.Cipher.Loop.Rule.{Settles}
use advanced_unix_ceng.Cipher.Read.{cipher_read}
use advanced_unix_ceng.Cipher.System.NewKey.{key-write-open-read, empty_key-write}
use advanced_unix_ceng.Cipher.System.Samples.{linux, roomy}
use advanced_unix_ceng.Cipher.Write.{cipher_write}

abbrev a_writer : Fcontext
a_writer = record { file = 1; next = none; off = 0; keyoff = 0; mode = writer; totalwritten = 0 }

abbrev opened_once : CipherDev
opened_once = record init_device { contexes = a_writer ∷ []; allocs = 1 }

-- The key "AB", and the empty key.
abbrev two_letters : UserArg
two_letters = record { access_ok = λ n. true; bytes = 65 ∷ 66 ∷ replicate 4094 0; room = 0 }

abbrev no_letters : UserArg
no_letters = record { access_ok = λ n. true; bytes = replicate 4096 0; room = 0 }

key-write-open-read_example :
    Settles ⊥
      (λ k.
        Settles ⊥
          (λ a.
            Settles ⊥
              (λ r. (r.1 ≡ value 2) × (r.2 ≡ take 2 (44 ∷ 55 ∷ [])))
              (cipher_read (cipher_open roomy a.0 2 0).0 2 10 10))
          (cipher_write roomy k.0 1 (44 ∷ 55 ∷ []) 2))
      (cipher_ioctl linux opened_once 1 (cipher_iocskey linux) two_letters)
unfolding find_context c_string
key-write-open-read_example =
    key-write-open-read linux roomy opened_once 1 1 2 a_writer a_writer two_letters (44 ∷ 55 ∷ []) 2
      10 10 (λ n. refl) refl refl refl (omega arith) (omega arith) (omega arith) (omega arith)
      (omega arith) (omega arith) (omega arith) (omega arith)

empty_key-write_example :
    Settles ⊥
      (λ k. (k.1 ≡ value 0) × (cipher_write roomy k.0 1 (44 ∷ 55 ∷ []) 2 ≡ fault))
      (cipher_ioctl linux opened_once 1 (cipher_iocskey linux) no_letters)
unfolding find_context c_string
empty_key-write_example =
    empty_key-write linux roomy opened_once 1 1 a_writer a_writer no_letters (44 ∷ 55 ∷ []) 2
      (λ n. refl) refl refl refl (omega arith) refl (omega arith) (omega arith) (omega arith)
