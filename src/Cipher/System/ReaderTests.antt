-- ===== src/Cipher/System/ReaderTests.antt =====
-- Runs of the device of hw3/cipher/cipher.c with a reader that opens it after and before the first
-- write.
use advanced_unix_ceng.Base.{◌≡◌, refl, [], ◌∷◌, none, arith, take}
use advanced_unix_ceng.Cipher.Device.{
  Fcontext, CipherDev, value, writer, find_context, last_bucket, Reply, put_context, find_bucket,
  put_bucket,
}
use advanced_unix_ceng.Cipher.Driver.{init_device}
use advanced_unix_ceng.Cipher.File.{open_mode, start_context, cipher_open}
use advanced_unix_ceng.Cipher.Key.{cipher_xor_buffer, key_byte}
use advanced_unix_ceng.Cipher.Loop.{Outcome, fault, done, out_of_fuel, loop}
use advanced_unix_ceng.Cipher.Loop.Rule.{Settles}
use advanced_unix_ceng.Cipher.Read.{cipher_read}
use advanced_unix_ceng.Cipher.System.RoundTrip.{IsFirstWrite, write-open-read}
use advanced_unix_ceng.Cipher.System.Stuck.{Leads, rest, and_then, open-empty-read}
use advanced_unix_ceng.Cipher.System.{wrote}
use advanced_unix_ceng.Cipher.Write.{
  limit_count, write_step, fill_fresh, new_bucket, fill_bucket, cipher_write,
}
use advanced_unix_ceng.Cipher.System.Samples.{linux, roomy}

-- A device with a writer that has written nothing.
abbrev the_first : Fcontext
the_first = record { file = 1; next = none; off = 0; keyoff = 0; mode = writer; totalwritten = 0 }

abbrev awaited : CipherDev
awaited = record init_device { contexes = the_first ∷ []; allocs = 1 }

awaited-IsFirstWrite : IsFirstWrite awaited 1 the_first (44 ∷ 55 ∷ []) 2
unfolding find_context
awaited-IsFirstWrite = record {
  device = record {
    chain = omega arith;
    key_length = refl;
    key_ends = omega arith;
    limited = omega arith;
  };
  keyed = omega arith;
  empty = refl;
  key_start = refl;
  here = refl;
  no_bucket = refl;
  file_start = refl;
  room = omega arith;
  some_bytes = omega arith;
  one_bucket = omega arith;
  given = omega arith;
}

write-open-read_example :
    Settles ⊥
      (λ a.
        Settles ⊥
          (λ r. (r.1 ≡ value 2) × (r.2 ≡ take 2 (44 ∷ 55 ∷ [])))
          (cipher_read (cipher_open roomy a.0 2 0).0 2 10 10))
      (cipher_write roomy awaited 1 (44 ∷ 55 ∷ []) 2)
write-open-read_example =
    write-open-read roomy awaited 1 2 the_first (44 ∷ 55 ∷ []) 2 10 10 (λ n. refl)
      awaited-IsFirstWrite (omega arith) (omega arith) (omega arith)

-- File 2 opens the device before file 1 has written.
abbrev early : CipherDev
early = (cipher_open roomy awaited 2 0).0

written_device : Outcome (CipherDev × Reply) → CipherDev
written_device (done r) = r.0
written_device fault = awaited
written_device out_of_fuel = awaited

abbrev early_written : CipherDev
early_written = written_device (cipher_write roomy early 1 (44 ∷ 55 ∷ []) 2)

early_written-Leads : Leads linux roomy 2 early early_written
unfolding written_device cipher_write cipher_open open_mode start_context find_context limit_count
    loop write_step fill_fresh new_bucket fill_bucket put_bucket put_context find_bucket last_bucket
    cipher_xor_buffer key_byte
early_written-Leads =
    and_then rest (wrote 1 (44 ∷ 55 ∷ []) 2 the_first (value 2) refl (omega arith) refl)
      (omega arith)

open-empty-read_example :
    Settles ⊥ (λ r. (r.1 ≡ value 0) × (r.2 ≡ [])) (cipher_read early_written 2 10 10)
open-empty-read_example =
    open-empty-read linux roomy awaited early_written 2 10 10 refl refl early_written-Leads
