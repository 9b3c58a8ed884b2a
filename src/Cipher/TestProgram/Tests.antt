-- ===== src/Cipher/TestProgram/Tests.antt =====
-- The test program hw3/cipher/test.c on a new device.
use advanced_unix_ceng.Base.{ℕ, refl, List, [], ◌∷◌, ◌++◌, true, arith, replicate}
use advanced_unix_ceng.Cipher.Driver.{init_device}
use advanced_unix_ceng.Cipher.Ioctl.{c_string}
use advanced_unix_ceng.Cipher.Loop.Rule.{Settles}
use advanced_unix_ceng.Cipher.System.Samples.{linux, roomy}
use advanced_unix_ceng.Cipher.TestProgram.{Pointers, test_program}
use advanced_unix_ceng.Cipher.TestProgram.Reads.{Shows, test_program-Shows}

-- "MY-SECRET-KEY"
abbrev secret : List ℕ
secret = 77 ∷ 89 ∷ 45 ∷ 83 ∷ 69 ∷ 67 ∷ 82 ∷ 69 ∷ 84 ∷ 45 ∷ 75 ∷ 69 ∷ 89 ∷ []

abbrev pointers : Pointers
pointers = record {
  newkey = record { access_ok = λ n. true; bytes = secret ++ replicate 4083 0; room = 64 };
  remain = record { access_ok = λ n. true; bytes = 0 ∷ 0 ∷ 0 ∷ 0 ∷ []; room = 4 };
  missing = record { access_ok = λ n. true; bytes = []; room = 0 };
}

test_program-Shows_example : Settles ⊥ Shows (test_program linux roomy pointers init_device)
unfolding c_string
test_program-Shows_example =
    test_program-Shows linux roomy pointers init_device (λ n. refl) refl refl (omega arith)
      (omega arith) refl (omega arith)
