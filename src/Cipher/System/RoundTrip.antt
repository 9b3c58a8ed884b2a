-- ===== src/Cipher/System/RoundTrip.antt =====
-- From a write on an empty device to a read of what was written.
use mathlib.Core.Path.{subst}
use advanced_unix_ceng.Base.{
  ℕ, suc, ◌+◌, ◌-◌, ◌^◌, ◌≤◌, ◌<◌, ◌≡◌, refl, ap, sym, ◌∙◌, inl, inr, min, List, [], ◌∷◌, ◌++◌, map,
  none, some, Bool, true, false, ◌==◌, leb, arith, length, take, take_all, length-take,
}
use advanced_unix_ceng.Base.Int.{pos, ◌+ℤ◌, ◌≤ℤ◌}
use advanced_unix_ceng.Cipher.Device.{
  count_readers, Bucket, Fcontext, CipherDev, value, bucket_size, max_write_len, find_context,
  put_context, put_bucket,
}
use advanced_unix_ceng.Cipher.Device.Contents.{contents}
use advanced_unix_ceng.Cipher.Device.Valid.{IsValid}
use advanced_unix_ceng.Cipher.File.{hold, cipher_open}
use advanced_unix_ceng.Cipher.File.Safety.{cipher_open-IsValid}
use advanced_unix_ceng.Cipher.Ioctl.{buckets_from}
use advanced_unix_ceng.Cipher.Key.Stream.{HasKey, encrypt, encrypt_twice, length-encrypt}
use advanced_unix_ceng.Cipher.Loop.{continue, stop, done, loop}
use advanced_unix_ceng.Cipher.Loop.Rule.{Settles, Settles-map, loop-continue, loop-stop, settled}
use advanced_unix_ceng.Cipher.Read.{cipher_read}
use advanced_unix_ceng.Cipher.Read.Decrypt.{Stands}
use advanced_unix_ceng.Cipher.Read.Delivered.{Delivers, cipher_read-Delivers}
use advanced_unix_ceng.Cipher.Read.Unread.{unread}
use advanced_unix_ceng.Cipher.System.Reader.{open_reader, find_newest, at_head, start_at_head}
use advanced_unix_ceng.Cipher.Write.{
  Writing, new_bucket, fill_fresh, write_step, limit_count, finish_write, cipher_write,
}
use advanced_unix_ceng.Cipher.Write.Append.{
  Appending, after_fill, filled, fill_bucket-eq-after_fill,
}
use advanced_unix_ceng.Cipher.Write.Fresh.{with_fresh, with_fresh-Appending}
use advanced_unix_ceng.Cipher.Write.Limit.{
  WroteWithin, cipher_write-open, limit_count_lem, cipher_write-WroteWithin,
}
use advanced_unix_ceng.Cipher.Write.Stored.{Stores, cipher_write-Stores}

-- A device that holds nothing, with its key from the start, and a writer's file on it that has
-- nothing behind it; a text of `n` bytes that one bucket and the writer's limit have room for.
pub record IsFirstWrite (dev : CipherDev) (f : ℕ) (c : Fcontext) (buf : List ℕ) (n : ℕ)
    : Type 0 where
  pub device : IsValid dev
  pub keyed : HasKey dev
  pub empty : dev.buckets ≡ []
  pub key_start : dev.keyfirst ≡ 0
  pub here : find_context f dev.contexes ≡ some c
  pub no_bucket : c.next ≡ none
  pub file_start : c.keyoff ≡ 0
  pub room : c.totalwritten + n ≤ max_write_len
  pub some_bytes : 0 < n
  pub one_bucket : n ≤ bucket_size
  pub given : n ≤ length buf

module _ (kmalloc : ℕ → Bool) (always : (n : ℕ) → kmalloc n ≡ true) (dev : CipherDev) (f : ℕ)
    (c : Fcontext) (buf : List ℕ) (n : ℕ) (w : IsFirstWrite dev f c buf n) where
  abbrev goal : List ℕ
  goal = encrypt dev.cipher dev.cipherlen c.keyoff (take n buf)

  abbrev started : Writing
  started = record { dev = dev; context = c; count = n; buf = buf; total_written = 0 }

  abbrev fresh : Writing
  fresh = with_fresh goal n n started

  abbrev after : Writing
  after = after_fill goal n n fresh (new_bucket dev)

  started-Appending : Appending goal n n started
  unfolding contents
  started-Appending = record {
    device = w.device;
    keyed = w.keyed;
    tail = inl w.no_bucket;
    enough = w.given;
    fits = omega (arith, w.file_start);
    total = omega arith;
    ahead = rw (w.empty, contents) refl;
  }

  first_round : write_step kmalloc started ≡ continue after
  unfolding write_step fill_fresh
  first_round =
      let more : (n == 0) ≡ false = ground (arith, w.some_bytes) in
      rw (more, w.no_bucket, always dev.allocs)
        (fill_bucket-eq-after_fill goal n n fresh
          (with_fresh-Appending goal n n started started-Appending) (new_bucket dev)
          (omega (arith, w.one_bucket)))

  min-room : min (bucket_size - (new_bucket dev).end) n ≡ n
  unfolding new_bucket
  min-room = omega (arith, w.one_bucket)

  last_round : write_step kmalloc after ≡ stop after (value after.total_written)
  unfolding write_step
  last_round =
      let none_left : (after.count == 0) ≡ true = ground (arith, min-room) in rw none_left refl

  abbrev written : CipherDev
  written = record after.dev { contexes = put_context after.context dev.contexes }

  -- The whole of the write.
  cipher_write-first : cipher_write kmalloc dev f buf n ≡ done (written, value after.total_written)
  cipher_write-first =
      let open_limit : leb max_write_len c.totalwritten ≡ false =
        ground (arith, w.room, w.some_bytes) in
      let whole : limit_count c.totalwritten n ≡ n =
        limit_count_lem c.totalwritten n (omega (arith, w.room)) (omega (arith, w.one_bucket))
        ∙ omega (arith, w.room) in
      let fuel : n + 1 ≡ suc (suc (n - 1)) = omega (arith, w.some_bytes) in
      cipher_write-open kmalloc dev f buf n c w.here open_limit
      ∙ rw whole (
          ap finish_write (
            ap (λ k. loop (write_step kmalloc) k started) fuel
            ∙ loop-continue (write_step kmalloc) (suc (n - 1)) started after first_round
            ∙ loop-stop (write_step kmalloc) (n - 1) after after (value after.total_written)
                last_round))

  -- Its only bucket.
  abbrev stored : Bucket
  stored = filled goal n n (new_bucket dev) (min (bucket_size - (new_bucket dev).end) n) (
      encrypt dev.cipher dev.cipherlen c.keyoff
        (take (min (bucket_size - (new_bucket dev).end) n) buf))

  written-buckets : written.buckets ≡ stored ∷ []
  unfolding put_bucket
  written-buckets = rw w.empty (ground arith)

  written-refcount : pos 1 ≤ℤ stored.refcount
  unfolding new_bucket
  written-refcount = omega arith

  written-IsValid : IsValid written
  written-IsValid =
      (settled (WroteWithin f n c) _ _
        (cipher_write-WroteWithin kmalloc dev f buf n c w.device w.here
          (omega (arith, w.one_bucket)))
        cipher_write-first).0

  written-Stores : Stores dev c buf n (written, value after.total_written)
  written-Stores =
      let whole : min n (max_write_len - c.totalwritten) ≡ n = omega (arith, w.room) in
      subst (Settles ⊥ (Stores dev c buf n)) cipher_write-first (
        subst (λ k. Settles ⊥ (Stores dev c buf k) (cipher_write kmalloc dev f buf n)) whole
          (cipher_write-Stores kmalloc dev f buf n c always w.device w.keyed w.here
            (inl w.no_bucket) (omega (arith, w.room, w.some_bytes)) (omega (arith, w.one_bucket))
            (omega (arith, w.given)) (omega (arith, w.file_start, w.one_bucket))))

  module _ (g : ℕ) where
    abbrev opened : CipherDev
    opened = record written {
      buckets = map hold written.buckets;
      contexes = at_head written g stored ∷ written.contexes;
      allocs = written.allocs + 1;
    }

    cipher_open-opened : (cipher_open kmalloc written g 0).0 ≡ opened
    cipher_open-opened =
        open_reader kmalloc written g (always written.allocs)
        ∙ ap
            (λ x. record written {
              buckets = map hold written.buckets;
              contexes = x ∷ written.contexes;
              allocs = written.allocs + 1;
            })
            (start_at_head written g stored [] written-buckets)

    opened-buckets : buckets_from stored.id opened.buckets ≡ hold stored ∷ []
    unfolding buckets_from
    opened-buckets =
        subst (λ bs. buckets_from stored.id (map hold bs) ≡ hold stored ∷ []) (sym written-buckets)
          (ground arith)

    opened-Stands : Stands (some stored.id) opened.buckets
    unfolding ◌+ℤ◌
    opened-Stands =
        inr (hold stored, [], refl, opened-buckets, (ground (arith, written-refcount), tt))

    unread-opened : unread (some stored.id) 0 opened.buckets ≡ goal
    unfolding contents
    unread-opened =
        rw opened-buckets refl
        ∙ ap contents (sym written-buckets)
        ∙ written-Stores.1
        ∙ ap (λ bs. contents bs ++ goal) w.empty

    -- A read of at least the bytes that were written.
    read-back :
        (m room : ℕ)
        → n ≤ m
        → m ≤ room
        → m < 2 ^ 31
        → Settles ⊥ (λ r. (r.1 ≡ value n) × (r.2 ≡ take n buf)) (cipher_read opened g m room)
    read-back m room enough fits small =
        let key = dev.cipher in
        let len = dev.cipherlen in
        let part : length (take n buf) ≡ n = omega (arith, length-take n buf, w.given) in
        let all : take m goal ≡ goal =
          take_all m goal (omega (arith, length-encrypt key len c.keyoff (take n buf), part)) in
        let plain : encrypt key len dev.keyfirst (take m (unread (some stored.id) 0 opened.buckets))
            ≡ take n buf =
          ap (λ xs. encrypt key len dev.keyfirst (take m xs)) unread-opened
          ∙ ap (encrypt key len dev.keyfirst) all
          ∙ ap (λ k. encrypt key len k goal) (w.key_start ∙ sym w.file_start)
          ∙ encrypt_twice key len c.keyoff (take n buf) in
        Settles-map ⊥ (Delivers opened (at_head written g stored) m) _ (cipher_read opened g m room)
          (λ r d. (d.0 ∙ ap (λ xs. value (length xs)) plain ∙ ap value part, d.1 ∙ plain))
          (cipher_read-Delivers opened g m room (at_head written g stored)
            (subst IsValid cipher_open-opened
              (cipher_open-IsValid kmalloc written g 0 written-IsValid))
            (record { some_key = w.keyed.some_key; key_fits = w.keyed.key_fits })
            (find_newest g (at_head written g stored) written.contexes refl) opened-Stands fits
            (omega (arith, w.key_start)))

-- What such a write leaves.
pub record FirstWritten (dev : CipherDev) (c : Fcontext) (n : ℕ) (after : CipherDev) : Type 0 where
  pub bucket : Bucket
  pub context : Fcontext
  pub only : after.buckets ≡ bucket ∷ []
  pub counted : bucket.refcount ≡ pos (1 + count_readers dev.contexes)
  pub files : after.contexes ≡ put_context context dev.contexes
  pub file : context.file ≡ c.file
  pub mode : context.mode ≡ c.mode
  pub total : context.totalwritten ≡ c.totalwritten + n

pub cipher_write-FirstWritten :
    (kmalloc : ℕ → Bool) (dev : CipherDev) (f : ℕ) (c : Fcontext) (buf : List ℕ) (n : ℕ)
    → ((k : ℕ) → kmalloc k ≡ true)
    → IsFirstWrite dev f c buf n
    → Settles ⊥ (λ r. FirstWritten dev c n r.0 × (r.1 ≡ value n)) (cipher_write kmalloc dev f buf n)
unfolding new_bucket
cipher_write-FirstWritten kmalloc dev f c buf n always w =
    let whole = min-room kmalloc always dev f c buf n w in
    rw (cipher_write-first kmalloc always dev f c buf n w) (
      record {
        bucket = stored kmalloc always dev f c buf n w;
        context = (after kmalloc always dev f c buf n w).context;
        only = written-buckets kmalloc always dev f c buf n w;
        counted = refl;
        files = refl;
        file = refl;
        mode = refl;
        total = omega (arith, whole);
      },
      ap value (omega (arith, whole)),
    )

-- If every allocation succeeds: on a well-formed device with a key that holds nothing, let a writer
-- at the start of its file write from 1 to 256 bytes within its limit. The write returns, and a
-- process that then opens the device for reading, and reads at least as many bytes, gets exactly
-- the bytes that were written, while the writer is open.
pub write-open-read :
    (kmalloc : ℕ → Bool) (dev : CipherDev) (f g : ℕ) (c : Fcontext) (buf : List ℕ) (n m room : ℕ)
    → ((k : ℕ) → kmalloc k ≡ true)
    → IsFirstWrite dev f c buf n
    → n ≤ m
    → m ≤ room
    → m < 2 ^ 31
    → Settles ⊥
        (λ a.
          Settles ⊥
            (λ r. (r.1 ≡ value n) × (r.2 ≡ take n buf))
            (cipher_read (cipher_open kmalloc a.0 g 0).0 g m room))
        (cipher_write kmalloc dev f buf n)
write-open-read kmalloc dev f g c buf n m room always w enough fits small =
    rw
      (
        cipher_write-first kmalloc always dev f c buf n w,
        cipher_open-opened kmalloc always dev f c buf n w g,
      )
      (read-back kmalloc always dev f c buf n w g m room enough fits small)
