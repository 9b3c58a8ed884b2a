-- ===== src/Cipher/System/NewKey.antt =====
-- A device of hw3/cipher/cipher.c that CIPHER_IOCSKEY has given a new key.
use advanced_unix_ceng.Base.{
  ℕ, suc, ◌+◌, ◌≤◌, ◌<◌, ◌^◌, ◌≡◌, refl, ap, ◌∙◌, List, [], ◌∷◌, none, some, Bool, true, false, ltb,
  arith, length, take, replicate, ◌-◌, min, ◌++◌, ◌==◌, length-take, length-append,
}
use advanced_unix_ceng.Cipher.Device.{
  CipherDev, Fcontext, value, find_context, max_write_len, bucket_size,
}
use advanced_unix_ceng.Cipher.File.{cipher_open}
use advanced_unix_ceng.Cipher.Ioctl.{
  Ioc, UserArg, c_string, reset_context, reset_device, key_command, cipher_iocskey, cipher_ioctl,
  cipher_free_buckets,
}
use advanced_unix_ceng.Cipher.Ioctl.Commands.{key_runs, find_context-reset}
use advanced_unix_ceng.Cipher.Ioctl.Safety.{length-c_string, reset_device-IsValid}
use advanced_unix_ceng.Cipher.Key.{key_byte, cipher_xor_buffer}
use advanced_unix_ceng.Cipher.Loop.{crash, done, fault, loop}
use advanced_unix_ceng.Cipher.Loop.Rule.{Settles, loop-crash}
use advanced_unix_ceng.Cipher.Read.{cipher_read}
use advanced_unix_ceng.Cipher.System.RoundTrip.{IsFirstWrite, write-open-read}
use advanced_unix_ceng.Cipher.Write.{
  Writing, fill_bucket, fill_fresh, write_step, limit_count, new_bucket, finish_write, cipher_write,
}
use advanced_unix_ceng.Cipher.Write.Limit.{cipher_write-open, limit_count_lem}

-- The key that CIPHER_IOCSKEY reads at the user's pointer.
abbrev pub new_key : UserArg → List ℕ
new_key arg = c_string (take 4095 arg.bytes)

pub length-new_key : (arg : UserArg) → length (new_key arg) < 4096
length-new_key arg =
    omega (arith, length-c_string (take 4095 arg.bytes), length-take 4095 arg.bytes)

-- CIPHER_IOCSKEY on an open file, with 4096 bytes that can be read.
pub sets_key :
    (m : Ioc) (dev : CipherDev) (f : ℕ) (arg : UserArg) (c : Fcontext)
    → find_context f dev.contexes ≡ some c
    → arg.access_ok 1 ≡ true
    → 4096 ≤ length arg.bytes
    → cipher_ioctl m dev f (cipher_iocskey m) arg
      ≡ done (reset_device (new_key arg) dev, value 0, none)
unfolding key_command
sets_key m dev f arg c here readable given =
    let enough : ltb (length arg.bytes) 4096 ≡ false = ground (arith, given) in
    key_runs m dev f arg c here readable ∙ rw enough refl

pub reset_device-IsFirstWrite :
    (dev : CipherDev) (f : ℕ) (c : Fcontext) (key buf : List ℕ) (n : ℕ)
    → find_context f dev.contexes ≡ some c
    → 0 < length key
    → length key < 4096
    → 0 < n
    → n ≤ 256
    → n ≤ length buf
    → IsFirstWrite (reset_device key dev) f (reset_context c) buf n
unfolding reset_device cipher_free_buckets
reset_device-IsFirstWrite dev f c key buf n here some_key short some_bytes one given = record {
  device = reset_device-IsValid key dev short;
  keyed = record {
    some_key = some_key;
    key_fits = omega (arith, length-append key (replicate (4096 - length key) 0));
  };
  empty = refl;
  key_start = refl;
  here = find_context-reset f dev.contexes c here;
  no_bucket = refl;
  file_start = refl;
  room = omega arith;
  some_bytes = some_bytes;
  one_bucket = one;
  given = given;
}

-- If every allocation succeeds: let a process give the device a key of at least one byte by
-- CIPHER_IOCSKEY, with 4096 bytes that can be read at its pointer, whatever the device held. A
-- writer whose file was open then writes from 1 to 256 bytes. Both calls return, and a process that
-- then opens the device for reading, and reads at least as many bytes, gets exactly the bytes that
-- were written, while the writer is open.
pub key-write-open-read :
    (m : Ioc) (kmalloc : ℕ → Bool) (dev : CipherDev) (f h g : ℕ) (c d : Fcontext) (arg : UserArg)
    (buf : List ℕ) (n count room : ℕ)
    → ((k : ℕ) → kmalloc k ≡ true)
    → find_context f dev.contexes ≡ some c
    → find_context h dev.contexes ≡ some d
    → arg.access_ok 1 ≡ true
    → 4096 ≤ length arg.bytes
    → 0 < length (new_key arg)
    → 0 < n
    → n ≤ 256
    → n ≤ length buf
    → n ≤ count
    → count ≤ room
    → count < 2 ^ 31
    → Settles ⊥
        (λ k.
          Settles ⊥
            (λ a.
              Settles ⊥
                (λ r. (r.1 ≡ value n) × (r.2 ≡ take n buf))
                (cipher_read (cipher_open kmalloc a.0 g 0).0 g count room))
            (cipher_write kmalloc k.0 h buf n))
        (cipher_ioctl m dev f (cipher_iocskey m) arg)
key-write-open-read m kmalloc dev f h g c d arg buf n count room always here there readable given
      key lo hi long enough fits small =
    rw (sets_key m dev f arg c here readable given) (
      write-open-read kmalloc (reset_device (new_key arg) dev) h g (reset_context d) buf n count
        room always
        (reset_device-IsFirstWrite dev h d (new_key arg) buf n there key (length-new_key arg) lo hi
          long)
        enough fits small)

xor-empty_key :
    (dev : CipherDev) (xs : List ℕ) (keyoff : ℕ)
    → dev.cipherlen ≡ 0
    → 0 < length xs
    → cipher_xor_buffer dev xs keyoff ≡ none
unfolding cipher_xor_buffer key_byte
xor-empty_key dev [] keyoff no_key some_bytes = absurd (omega arith)
xor-empty_key dev (x ∷ xs) keyoff no_key some_bytes = rw (no_key, key_byte) refl

-- A first round of a write under an empty key.
empty_key-crash :
    (kmalloc : ℕ → Bool) (s : Writing)
    → kmalloc s.dev.allocs ≡ true
    → s.dev.cipherlen ≡ 0
    → s.context.next ≡ none
    → 0 < s.count
    → s.count ≤ length s.buf
    → write_step kmalloc s ≡ crash
unfolding write_step fill_fresh fill_bucket new_bucket
empty_key-crash kmalloc s ok no_key fresh some_bytes given =
    let n = min (bucket_size - 0) s.count in
    let wanted : (s.count == 0) ≡ false = ground (arith, some_bytes) in
    let readable : ltb (length s.buf) n ≡ false = ground (arith, given) in
    let tried : CipherDev = record s.dev {
      buckets = s.dev.buckets ++ new_bucket s.dev ∷ [];
      allocs = s.dev.allocs + 1;
    } in
    let undefined =
      xor-empty_key tried (take n s.buf) s.context.keyoff no_key
        (omega (arith, length-take n s.buf, some_bytes, given)) in
    rw (wanted, fresh, fill_fresh, ok, readable, undefined) refl

add_one : (n : ℕ) → n + 1 ≡ suc n
add_one n = omega arith

whole_count : (n : ℕ) → n ≤ max_write_len → limit_count 0 n ≡ n
whole_count n h = limit_count_lem 0 n (omega arith) (omega (arith, h)) ∙ omega (arith, h)

-- If every allocation succeeds: let a process give the device an empty key by CIPHER_IOCSKEY, with
-- 4096 bytes that can be read at its pointer, whatever the device held. The call returns 0, and a
-- write of from 1 to 8192 bytes, on any file that was open, divides by the length of the key.
pub empty_key-write :
    (m : Ioc) (kmalloc : ℕ → Bool) (dev : CipherDev) (f h : ℕ) (c d : Fcontext) (arg : UserArg)
    (buf : List ℕ) (n : ℕ)
    → ((k : ℕ) → kmalloc k ≡ true)
    → find_context f dev.contexes ≡ some c
    → find_context h dev.contexes ≡ some d
    → arg.access_ok 1 ≡ true
    → 4096 ≤ length arg.bytes
    → new_key arg ≡ []
    → 0 < n
    → n ≤ max_write_len
    → n ≤ length buf
    → Settles ⊥
        (λ k. (k.1 ≡ value 0) × (cipher_write kmalloc k.0 h buf n ≡ fault))
        (cipher_ioctl m dev f (cipher_iocskey m) arg)
unfolding reset_device
empty_key-write m kmalloc dev f h c d arg buf n always here there readable given no_key lo hi long =
    let dev' = reset_device (new_key arg) dev in
    let len : dev'.cipherlen ≡ 0 = ap (length {A = ℕ}) no_key in
    let whole : limit_count 0 n ≡ n = whole_count n hi in
    let s : Writing = record {
      dev = dev';
      context = reset_context d;
      count = n;
      buf = buf;
      total_written = 0;
    } in
    rw (sets_key m dev f arg c here readable given) (
      refl,
      cipher_write-open kmalloc dev' h buf n (reset_context d)
            (find_context-reset h dev.contexes d there) refl
          ∙ ap
              (λ k. finish_write (
                loop (write_step kmalloc) (k + 1) (record {
                  dev = dev';
                  context = reset_context d;
                  count = k;
                  buf = buf;
                  total_written = 0;
                })))
              whole
          ∙ ap finish_write (
              ap (λ k. loop (write_step kmalloc) k s) (add_one n)
              ∙ loop-crash (write_step kmalloc) n s
                  (empty_key-crash kmalloc s (always s.dev.allocs) len refl lo long)),
    )
