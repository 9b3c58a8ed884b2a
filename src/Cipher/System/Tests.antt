-- ===== src/Cipher/System/Tests.antt =====
-- Runs of the device of hw3/cipher/cipher.c on small inputs, and the theorems at such inputs.
use advanced_unix_ceng.Base.{ℕ, ◌+◌, ◌≡◌, refl, inr, [], ◌∷◌, some, true, arith, length, replicate}
use advanced_unix_ceng.Base.Int.{ℤ, pos}
use advanced_unix_ceng.Cipher.Device.{
  Bucket, Fcontext, CipherDev, value, reader, writer, find_context, last_bucket, count_readers,
}
use advanced_unix_ceng.Cipher.Device.Contents.{contents}
use advanced_unix_ceng.Cipher.Device.Valid.{IsValid}
use advanced_unix_ceng.Cipher.Driver.{init_device}
use advanced_unix_ceng.Cipher.Ioctl.{
  UserArg, cipher_ioctl, cipher_iocclr, cipher_iocqrem, query_remaining, buckets_from, remaining,
}
use advanced_unix_ceng.Cipher.File.{cipher_open, cipher_release}
use advanced_unix_ceng.Cipher.Key.{cipher_xor_buffer, key_byte}
use advanced_unix_ceng.Cipher.Key.Stream.{
  HasKey, encrypt, cipher_xor_buffer_twice, cipher_xor_buffer-eq-encrypt,
}
use advanced_unix_ceng.Cipher.Ioctl.Commands.{fresh_remaining, clear-query}
use advanced_unix_ceng.Cipher.System.Close.{drop_last, write-release-drop_last}
use advanced_unix_ceng.Cipher.System.Crash.{lone_reader_crashes}
use advanced_unix_ceng.Cipher.Loop.{fault, done}
use advanced_unix_ceng.Cipher.Loop.Rule.{Settles}
use advanced_unix_ceng.Cipher.Read.{cipher_read}
use advanced_unix_ceng.Cipher.Read.Delivered.{Delivers, cipher_read-Delivers, cipher_read-query}
use advanced_unix_ceng.Cipher.Read.Safety.{cipher_read-IsValid}
use advanced_unix_ceng.Cipher.System.{start, next, opened, Reach-IsValid}
use advanced_unix_ceng.Cipher.System.Samples.{linux, roomy}
use advanced_unix_ceng.Cipher.Write.{cipher_write}
use advanced_unix_ceng.Cipher.Write.Limit.{WroteWithin, cipher_write-WroteWithin}
use advanced_unix_ceng.Cipher.Write.Stored.{Stores, cipher_write-Stores}

-- File 1 writes and file 2 reads; the bucket holds three bytes.
abbrev first_bucket : Bucket
first_bucket = record { id = 1; end = 3; refcount = pos 2; buffer = 11 ∷ 22 ∷ 33 ∷ replicate 253 0 }

abbrev the_writer : Fcontext
the_writer = record {
  file = 1;
  next = some 1;
  off = 0;
  keyoff = 3;
  mode = writer;
  totalwritten = 3;
}

abbrev the_reader : Fcontext
the_reader = record {
  file = 2;
  next = some 1;
  off = 0;
  keyoff = 0;
  mode = reader;
  totalwritten = 0;
}

abbrev busy : CipherDev
busy = record init_device {
  buckets = first_bucket ∷ [];
  keylast = 3;
  contexes = the_reader ∷ the_writer ∷ [];
  allocs = 3;
}

busy-IsValid : IsValid busy
busy-IsValid = record {
  chain = omega arith;
  key_length = refl;
  key_ends = omega arith;
  limited = omega arith;
}

busy-HasKey : HasKey busy
busy-HasKey = omega arith

Reach-IsValid_example : IsValid (cipher_open roomy init_device 1 1).0
unfolding find_context
Reach-IsValid_example = Reach-IsValid linux roomy (next start (opened 1 1 refl refl))

cipher_read-IsValid_example : Settles Unit (λ r. IsValid r.0) (cipher_read busy 2 10 10)
cipher_read-IsValid_example = cipher_read-IsValid busy 2 10 10 busy-IsValid

cipher_write-WroteWithin_example :
    Settles Unit (WroteWithin 1 2 the_writer) (cipher_write roomy busy 1 (44 ∷ 55 ∷ []) 2)
unfolding find_context
cipher_write-WroteWithin_example =
    cipher_write-WroteWithin roomy busy 1 (44 ∷ 55 ∷ []) 2 the_writer busy-IsValid refl
      (omega arith)

cipher_write-Stores_example :
    Settles ⊥ (Stores busy the_writer (44 ∷ 55 ∷ []) 2) (cipher_write roomy busy 1 (44 ∷ 55 ∷ []) 2)
unfolding find_context last_bucket
cipher_write-Stores_example =
    cipher_write-Stores roomy busy 1 (44 ∷ 55 ∷ []) 2 the_writer (λ n. refl) busy-IsValid
      busy-HasKey refl (inr (first_bucket, refl, refl)) (omega arith) (omega arith) (omega arith)
      (omega arith)

cipher_read-Delivers_example : Settles ⊥ (Delivers busy the_reader 10) (cipher_read busy 2 10 10)
unfolding find_context buckets_from
cipher_read-Delivers_example =
    cipher_read-Delivers busy 2 10 10 the_reader busy-IsValid busy-HasKey refl
      (inr (first_bucket, [], refl, refl, omega arith)) (omega arith) (omega arith)

cipher_read-query_example : Settles ⊥ (λ r. r.1 ≡ value 3) (cipher_read busy 2 10 10)
unfolding find_context buckets_from query_remaining remaining contents
cipher_read-query_example =
    cipher_read-query busy 2 10 10 3 the_reader busy-IsValid busy-HasKey refl refl
      (inr (first_bucket, [], refl, refl, omega arith)) (omega arith) (omega arith) (omega arith)
      refl

-- A device whose only writer has filled one bucket, and the same with a second bucket begun.
abbrev full_bucket : ℤ → Bucket
full_bucket count = record { id = 1; end = 256; refcount = count; buffer = replicate 256 7 }

abbrev second_bucket : Bucket
second_bucket = record { id = 2; end = 1; refcount = pos 1; buffer = replicate 256 7 }

abbrev sole_writer : ℕ → ℕ → ℕ → Fcontext
sole_writer at done_bytes off = record {
  file = 1;
  next = some at;
  off = off;
  keyoff = done_bytes;
  mode = writer;
  totalwritten = done_bytes;
}

abbrev one_full : CipherDev
one_full = record init_device {
  buckets = full_bucket (pos 1) ∷ [];
  keylast = 256;
  contexes = sole_writer 1 256 256 ∷ [];
  allocs = 3;
}

abbrev two_held : CipherDev
two_held = record init_device {
  buckets = full_bucket (pos 0) ∷ second_bucket ∷ [];
  keylast = 257;
  contexes = sole_writer 2 257 1 ∷ [];
  allocs = 4;
}

one_full-IsValid : IsValid one_full
one_full-IsValid = record {
  chain = omega arith;
  key_length = refl;
  key_ends = omega arith;
  limited = omega arith;
}

two_held-IsValid : IsValid two_held
two_held-IsValid = record {
  chain = omega arith;
  key_length = refl;
  key_ends = omega arith;
  limited = omega arith;
}

write-release-drop_last_example :
    Settles Unit
      (λ r. (cipher_release r.0 1).0.buckets ≡ drop_last r.0.buckets)
      (cipher_write roomy one_full 1 (44 ∷ 55 ∷ []) 2)
unfolding find_context last_bucket count_readers
write-release-drop_last_example =
    write-release-drop_last roomy one_full 1 (44 ∷ 55 ∷ []) 2 (sole_writer 1 256 256) (λ n. refl)
      one_full-IsValid refl (refl, refl, inr (full_bucket (pos 1), refl, refl)) (omega arith)

lone_reader_crashes_example : cipher_read (cipher_open roomy two_held 2 0).0 2 257 300 ≡ fault
lone_reader_crashes_example =
    lone_reader_crashes roomy two_held 2 257 300 (full_bucket (pos 0)) second_bucket [] refl
      two_held-IsValid (omega arith) refl (refl, refl, refl) (omega arith) (omega arith)
      (omega arith)

-- The last argument of an ioctl call: a pointer to an `int` that can be written.
abbrev int_pointer : UserArg
int_pointer = record { access_ok = λ n. true; bytes = []; room = 4 }

clear-query_example :
    Settles ⊥
      (λ r.
        cipher_ioctl linux r.0 2 (cipher_iocqrem linux) int_pointer
        ≡ done (r.0, value 0, some (fresh_remaining reader)))
      (cipher_ioctl linux busy 1 (cipher_iocclr linux) int_pointer)
unfolding find_context
clear-query_example =
    clear-query linux busy 1 2 the_writer the_reader int_pointer int_pointer refl refl refl
      (omega arith)

-- Two bytes under a key of two bytes.
abbrev short_key : CipherDev
short_key = record init_device { cipher = 5 ∷ 7 ∷ []; cipherlen = 2 }

cipher_xor_buffer_twice_example : cipher_xor_buffer short_key (4 ∷ 5 ∷ []) 0 ≡ some (1 ∷ 2 ∷ [], 2)
unfolding cipher_xor_buffer key_byte
cipher_xor_buffer_twice_example =
    cipher_xor_buffer_twice short_key (1 ∷ 2 ∷ []) 0 (4 ∷ 5 ∷ []) 2 refl

cipher_xor_buffer-eq-encrypt_example :
    cipher_xor_buffer short_key (1 ∷ 2 ∷ []) 3
    ≡ some (encrypt (5 ∷ 7 ∷ []) 2 3 (1 ∷ 2 ∷ []), 3 + length {A = ℕ} (1 ∷ 2 ∷ []))
cipher_xor_buffer-eq-encrypt_example =
    cipher_xor_buffer-eq-encrypt {dev = short_key} (1 ∷ 2 ∷ []) 3 (omega arith) (omega arith)
