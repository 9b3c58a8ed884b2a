-- ===== src/Cipher/TestProgram/Reads.antt =====
-- What hw3/cipher/test.c sees of the device.
use advanced_unix_ceng.Base.{
  ℕ, ◌+◌, ◌≤◌, ◌<◌, ◌≡◌, refl, ap, sym, ◌∙◌, List, [], ◌∷◌, map, Option, some, Bool, true, arith,
  length,
}
use advanced_unix_ceng.Base.Int.{pos}
use advanced_unix_ceng.Cipher.Device.{CipherDev, Fcontext, Reply, value, writer, find_context}
use advanced_unix_ceng.Cipher.File.{start_context, cipher_open, cipher_release}
use advanced_unix_ceng.Cipher.Ioctl.{Ioc, reset_context, reset_device, cipher_iocqrem, cipher_ioctl}
use advanced_unix_ceng.Cipher.Ioctl.Commands.{clear_runs, query_runs}
use advanced_unix_ceng.Cipher.Loop.Rule.{Settles}
use advanced_unix_ceng.Cipher.System.NewKey.{
  new_key, length-new_key, sets_key, reset_device-IsFirstWrite,
}
use advanced_unix_ceng.Cipher.System.Reader.{find_newest}
use advanced_unix_ceng.Cipher.System.RoundTrip.{
  IsFirstWrite, FirstWritten, cipher_write-FirstWritten,
}
use advanced_unix_ceng.Cipher.System.Stuck.{rest, open-empty-read}
use advanced_unix_ceng.Cipher.TestProgram.{
  Pointers, msg, Report, Exit, stopped, finished, clear_device, read_back, write_and_ask,
  second_half, test_program,
}
use advanced_unix_ceng.Cipher.TestProgram.Steps.{
  >>=-Settles, writer_opened, open_writer, open_reply, start_context-file, start_context-mode,
  IsAlone, put_alone, count_readers-alone, release_buckets-alone, query_writer, release_open,
}

-- What steps 3 and 4 and the close leave: nothing.
abbrev Asked : CipherDev × Reply × Reply × Option ℕ → Type 0
Asked s = (s.0.buckets ≡ []) × (s.1 ≡ value 15) × (s.2 ≡ value 0) × (s.3 ≡ some 8177)

-- The answer to CIPHER_IOCQREM in step 4.
abbrev Answers : CipherDev × Reply × Option ℕ → Type 0
Answers q = (q.1 ≡ value 0) × (q.2 ≡ some 8177) × ((cipher_release q.0 1).0.buckets ≡ [])

-- The program returns 0, and has read nothing.
pub record ReadsNothing (r : Report) : Type 0 where
  pub wrote : r.wrote ≡ value 15
  pub asked : r.asked ≡ value 0
  pub remain : r.remain ≡ some 8177
  pub got : r.got ≡ value 0
  pub buf : r.buf ≡ []

abbrev pub Shows : Exit → Type 0
Shows (stopped dev) = ⊥
Shows (finished dev r) = ReadsNothing r

module _ (m : Ioc) (kmalloc : ℕ → Bool) (always : (n : ℕ) → kmalloc n ≡ true) (p : Pointers) where
  -- Step 6 comes to its end on any device.
  clear_device-Settles :
      (dev : CipherDev) → Settles ⊥ (λ d. Unit {0}) (clear_device m kmalloc p dev)
  unfolding clear_device
  clear_device-Settles dev =
      let c = start_context dev 3 writer in
      rw
        (
          open_writer kmalloc dev 3 (always dev.allocs),
          clear_runs m (writer_opened dev 3) 3 p.missing c
              (find_newest 3 c dev.contexes (start_context-file dev 3)),
        )
        tt

  module _ (remain_readable : p.remain.access_ok 4 ≡ true) (remain_room : 4 ≤ p.remain.room) where
    ask-Settles :
        (dev after : CipherDev) (c : Fcontext)
        → IsAlone dev c
        → FirstWritten dev c 15 after
        → Settles ⊥ Answers (cipher_ioctl m after 1 (cipher_iocqrem m) p.remain)
    ask-Settles dev after c a w =
        let x = w.context in
        let number : x.file ≡ 1 = w.file ∙ a.number in
        let files : after.contexes ≡ x ∷ [] =
          w.files ∙ put_alone c x dev.contexes a.alone (sym w.file) in
        let here : find_context 1 after.contexes ≡ some x =
          ap (find_context 1) files ∙ find_newest 1 x [] number in
        let one : w.bucket.refcount ≡ pos 1 =
          w.counted ∙ ap (λ k. pos (1 + k)) (count_readers-alone c dev.contexes a.alone a.writes) in
        rw
          (
            query_runs m after 1 p.remain x here remain_readable,
            query_writer after x p.remain (w.mode ∙ a.writes) (w.total ∙ omega (arith, a.unwritten))
                remain_room,
          )
          (
            refl,
            refl,
            release_open after 1 x here ∙ release_buckets-alone w.bucket after.buckets w.only one,
          )

    write_and_ask-Settles :
        (dev : CipherDev) (c : Fcontext)
        → IsAlone dev c
        → IsFirstWrite dev 1 c msg 15
        → Settles ⊥ Asked (write_and_ask m kmalloc p dev)
    unfolding write_and_ask
    write_and_ask-Settles dev c a first =
        >>=-Settles (λ r. FirstWritten dev c 15 r.0 × (r.1 ≡ value 15)) Asked _ _
          (cipher_write-FirstWritten kmalloc dev 1 c msg 15 always first)
          (λ w fw.
            >>=-Settles Answers Asked _ _ (ask-Settles dev w.0 c a fw.0)
              (λ q e. (e.2, fw.1, e.0, e.1)))

  read_back-Settles :
      (dev : CipherDev)
      → dev.buckets ≡ []
      → Settles ⊥ (λ r. (r.1 ≡ value 0) × (r.2 ≡ [])) (read_back (cipher_open kmalloc dev 2 0).0)
  unfolding read_back
  read_back-Settles dev empty =
      >>=-Settles (λ r. (r.1 ≡ value 0) × (r.2 ≡ [])) (λ r. (r.1 ≡ value 0) × (r.2 ≡ [])) _ _
        (open-empty-read m kmalloc dev (cipher_open kmalloc dev 2 0).0 2 99 99 (always dev.allocs)
          empty rest)
        (λ r h. h)

  second_half-Settles :
      (s : CipherDev × Reply × Reply × Option ℕ)
      → Asked s
      → Settles ⊥ Shows (second_half m kmalloc p s)
  unfolding second_half
  second_half-Settles s a = rw (open_reply kmalloc s.0 2 (always s.0.allocs)) (
      >>=-Settles (λ r. (r.1 ≡ value 0) × (r.2 ≡ [])) Shows _ _ (read_back-Settles s.0 a.0)
        (λ r e.
          >>=-Settles (λ d. Unit {0}) Shows _ _ (clear_device-Settles r.0)
            (λ d u. record { wrote = a.1; asked = a.2; remain = a.3; got = e.0; buf = e.1 })))

-- The program's own file after the key is set.
keyed-IsAlone :
    (dev : CipherDev) (key : List ℕ)
    → dev.contexes ≡ []
    → IsAlone (reset_device key (writer_opened dev 1)) (reset_context (start_context dev 1 writer))
unfolding reset_device
keyed-IsAlone dev key nobody = record {
  alone = ap (λ cs. reset_context (start_context dev 1 writer) ∷ map reset_context cs) nobody;
  number = start_context-file dev 1;
  writes = start_context-mode dev 1;
  unwritten = refl;
}

-- The test program of the repository cannot read back what it has written. If every allocation
-- succeeds: on a device that nobody has open, whatever it holds, let 4096 bytes be readable at
-- `newkey`, of which the first is not 0, and the `int` be writable. The program runs to its end and
-- returns 0: it has written 15 bytes, was told that 8177 remain, and its read, of up to 99 bytes,
-- has returned 0.
pub test_program-Shows :
    (m : Ioc) (kmalloc : ℕ → Bool) (p : Pointers) (dev : CipherDev)
    → ((n : ℕ) → kmalloc n ≡ true)
    → dev.contexes ≡ []
    → p.newkey.access_ok 1 ≡ true
    → 4096 ≤ length p.newkey.bytes
    → 0 < length (new_key p.newkey)
    → p.remain.access_ok 4 ≡ true
    → 4 ≤ p.remain.room
    → Settles ⊥ Shows (test_program m kmalloc p dev)
unfolding test_program
test_program-Shows m kmalloc p dev always nobody key_readable long key readable room =
    let c = start_context dev 1 writer in
    let opened = writer_opened dev 1 in
    let here = find_newest 1 c dev.contexes (start_context-file dev 1) in
    let first =
      reset_device-IsFirstWrite opened 1 c (new_key p.newkey) msg 15 here key
        (length-new_key p.newkey) (omega arith) (omega arith) (omega arith) in
    rw
      (
        open_writer kmalloc dev 1 (always dev.allocs),
        sets_key m opened 1 p.newkey c here key_readable long,
      )
      (>>=-Settles Asked Shows _ _
        (write_and_ask-Settles m kmalloc always p readable room
          (reset_device (new_key p.newkey) opened) (reset_context c)
          (keyed-IsAlone dev (new_key p.newkey) nobody) first)
        (λ s a. second_half-Settles m kmalloc always p s a))
