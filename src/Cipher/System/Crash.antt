-- ===== src/Cipher/System/Crash.antt =====
-- A reader of more than one bucket uses freed memory.
use advanced_unix_ceng.Base.{
  ℕ, suc, ◌+◌, ◌-◌, ◌≡◌, ◌<◌, ◌≤◌, ◌^◌, refl, sym, ap, ◌∙◌, List, [], ◌∷◌, map, some, Bool, true,
  false, arith, leb, min,
}
use mathlib.Core.Path.{subst}
use advanced_unix_ceng.Base.Int.{pos, ◌-ℤ◌, ◌+ℤ◌}
use advanced_unix_ceng.Cipher.Device.{
  Bucket, CipherDev, Reply, bucket_size, find_bucket, delete_bucket,
}
use advanced_unix_ceng.Cipher.Device.Valid.{Chain, IsBucket, IsValid}
use advanced_unix_ceng.Cipher.File.{hold, cipher_open}
use advanced_unix_ceng.Cipher.Key.Stream.{HasKey}
use advanced_unix_ceng.Cipher.Loop.{continue, crash, Outcome, fault, loop}
use advanced_unix_ceng.Cipher.Loop.Rule.{loop-continue, loop-crash}
use advanced_unix_ceng.Cipher.Read.{
  Reading, leave_freed, leave_bucket, read_step, cipher_read, finish_read,
}
use advanced_unix_ceng.Cipher.Read.Copy.{after_copy, copy_out_chunk}
use advanced_unix_ceng.Cipher.Read.Safety.{read_step_at, cipher_read-open}
use advanced_unix_ceng.Cipher.System.Reader.{at_head, open_reader, find_newest, start_at_head}
use advanced_unix_ceng.Cipher.Write.Sole.{Sole}

find_first : (b : Bucket) (bs : List Bucket) → find_bucket b.id (b ∷ bs) ≡ some b
unfolding find_bucket
find_first b bs = ground arith

-- A bucket that is held once and is not alone is freed when the reader leaves it, and read again.
leave_first :
    (s : Reading) (b c : Bucket) (bs : List Bucket)
    → b.refcount ≡ pos 1
    → s.dev.buckets ≡ b ∷ c ∷ bs
    → leave_bucket s b ≡ crash
unfolding leave_bucket leave_freed delete_bucket ◌-ℤ◌
leave_first s b c bs held e = ground arith

module _ (s : Reading) (b c : Bucket) (bs : List Bucket) (shape : s.dev.buckets ≡ b ∷ c ∷ bs)
    (here : s.context.next ≡ some b.id) (held : b.refcount ≡ pos 1)
    (full : b.end ≡ bucket_size) where
  at_first : find_bucket b.id s.dev.buckets ≡ some b
  at_first = subst (λ xs. find_bucket b.id xs ≡ some b) (sym shape) (find_first b (c ∷ bs))

  first_round :
      IsBucket b
      → HasKey s.dev
      → s.context.off ≡ 0
      → 0 < s.count
      → s.count ≤ s.room
      → s.context.keyoff + s.count < 2 ^ 31
      → read_step s ≡ continue (after_copy s b (min (b.end - s.context.off) s.count))
  first_round vb keyed start some_wanted room small =
      let inside : leb b.end s.context.off ≡ false = ground arith in
      rw (read_step_at s b.id b (ground arith) here at_first, inside)
        (copy_out_chunk s b vb keyed room small)

  last_round : bucket_size ≤ s.context.off → 0 < s.count → read_step s ≡ crash
  last_round end some_wanted =
      let passed : leb b.end s.context.off ≡ true = ground arith in
      rw (read_step_at s b.id b (ground arith) here at_first, passed)
        (leave_first s b c bs held shape)

-- The two rounds.
crashes :
    (s : Reading) (b c : Bucket) (bs : List Bucket) (fuel : ℕ)
    → s.dev.buckets ≡ b ∷ c ∷ bs
    → s.context.next ≡ some b.id
    → b.refcount ≡ pos 1
    → b.end ≡ bucket_size
    → IsBucket b
    → HasKey s.dev
    → s.context.off ≡ 0
    → bucket_size < s.count
    → s.count ≤ s.room
    → s.context.keyoff + s.count < 2 ^ 31
    → loop read_step (suc (suc fuel)) s ≡ fault
crashes s b c bs fuel shape here held full vb keyed start wanted room small =
    let n = min (b.end - s.context.off) s.count in
    loop-continue read_step (suc fuel) s (after_copy s b n)
      (first_round s b c bs shape here held full vb keyed start (omega arith) room small)
    ∙ loop-crash read_step fuel (after_copy s b n)
        (last_round (after_copy s b n) b c bs shape here held full (omega arith) (omega arith))

refcount-hold : (b : Bucket) → b.refcount ≡ pos 0 → (hold b).refcount ≡ pos 1
unfolding ◌+ℤ◌
refcount-hold b e = rw e

finish_fault : (o : Outcome (Reading × Reply)) → o ≡ fault → finish_read o ≡ fault
finish_fault o e = ap finish_read e

-- Let a well-formed device with a key hold at least two buckets with the reference counts that a
-- sole writer leaves. A process that opens it for reading, where the file's context can be
-- allocated, and asks for more than 256 bytes, into a buffer with room for them and with key
-- offsets below 2^31, makes cipher_read use freed memory: the first bucket is freed when the
-- reader leaves it, and its list entry is read afterwards.
pub lone_reader_crashes :
    (kmalloc : ℕ → Bool) (dev : CipherDev) (f count room : ℕ) (b c : Bucket) (bs : List Bucket)
    → kmalloc dev.allocs ≡ true
    → IsValid dev
    → HasKey dev
    → dev.buckets ≡ b ∷ c ∷ bs
    → Sole (b ∷ c ∷ bs)
    → bucket_size < count
    → count ≤ room
    → dev.keyfirst + count < 2 ^ 31
    → cipher_read (cipher_open kmalloc dev f 0).0 f count room ≡ fault
lone_reader_crashes kmalloc dev f count room b c bs made v keyed shape sole wanted fits small =
    let x = at_head dev f b in
    let opened : CipherDev = record dev {
      buckets = map hold dev.buckets;
      contexes = x ∷ dev.contexes;
      allocs = dev.allocs + 1;
    } in
    let s : Reading = record { dev = opened; context = x; count = count; room = room; out = [] } in
    let vb : IsBucket b = (subst (Chain 0 dev.allocs) shape v.chain).0 in
    rw (open_reader kmalloc dev f made, start_at_head dev f b (c ∷ bs) shape)
      (cipher_read-open opened f count room x (find_newest f x dev.contexes refl)
        ∙ finish_fault _ (
            ap (λ fuel. loop read_step fuel s) (omega arith)
            ∙ crashes s (hold b) (hold c) (map hold bs) (count + (dev.allocs + 1))
                (ap (map hold) shape) refl (refcount-hold b sole.0) sole.1 (omega arith)
                (record { some_key = keyed.some_key; key_fits = keyed.key_fits }) refl wanted fits
                small))
