-- ===== src/Cipher/Write/SoleLoop.antt =====
-- cipher_write keeps the reference counts of a sole writer.
use advanced_unix_ceng.Base.{
  ℕ, ◌+◌, ◌-◌, ◌^◌, ◌<◌, ◌≡◌, refl, ap, ◌⊎◌, inl, inr, List, [], ◌∷◌, ◌++◌, none, some, Bool, true,
  arith, Bool-cases, Option-cases, leb, ltb, length, ◌==◌, take, min, splice,
}
use advanced_unix_ceng.Base.Int.{pos}
use advanced_unix_ceng.Cipher.Device.{
  Bucket, CipherDev, Fcontext, Reply, bucket_size, max_write_len, find_context, last_bucket,
  count_readers,
}
use advanced_unix_ceng.Cipher.Device.Contents.{find_last, last_bucket-put_last, last_bucket-snoc}
use advanced_unix_ceng.Cipher.Device.Valid.{
  IsValid, find_bucket_sound, find_context_limited, find_context_file,
}
use advanced_unix_ceng.Cipher.Key.{cipher_xor_buffer}
use advanced_unix_ceng.Cipher.Loop.{Outcome, done, fault, out_of_fuel}
use advanced_unix_ceng.Cipher.Loop.Rule.{Settles, Follows, Advances-and, loop-Settles}
use advanced_unix_ceng.Cipher.Write.{
  Writing, fill_bucket, new_bucket, fill_fresh, drop_full, write_step, finish_write, cipher_write,
}
use advanced_unix_ceng.Cipher.Write.Limit.{cipher_write-open, cipher_write-used_up, limit_count_lem}
use advanced_unix_ceng.Cipher.Write.Safety.{
  IsWriting, Wrote, left, write_step_at, write_step-Advances, add_bucket-IsValid,
  drop_full-IsWriting,
}
use advanced_unix_ceng.Cipher.Write.Sole.{Sole, Sole-put_last, Sole-snoc}

-- No reader is open, and the writer has no bucket yet or stands at the last one.
abbrev pub StandsSole : Fcontext → CipherDev → Type 0
StandsSole c dev =
    Sole dev.buckets
    × (count_readers dev.contexes ≡ 0)
    × (((c.next ≡ none) × (dev.buckets ≡ []))
        ⊎ ((b : Bucket) × (last_bucket dev.buckets ≡ some b) × (c.next ≡ some b.id)))

abbrev Soling : Writing → Type 0
Soling s = StandsSole s.context s.dev

abbrev Ended : Writing → Reply → Type 0
Ended s r = Soling s

Sole-first :
    (bs : List Bucket) (new : Bucket) → bs ≡ [] → new.refcount ≡ pos 1 → Sole (bs ++ new ∷ [])
Sole-first [] new e k = k
Sole-first (b ∷ bs) new e k = cc

module _ (f base wanted : ℕ) (cs : List Fcontext) where
  fill_bucket-Soling :
      (s : Writing) (b : Bucket)
      → IsValid s.dev
      → Soling s
      → last_bucket s.dev.buckets ≡ some b
      → s.context.next ≡ some b.id
      → Follows
          (IsWriting f base wanted cs)
          Soling
          (Wrote f base wanted cs)
          Ended
          (left f base wanted cs)
          (fill_bucket s b)
  unfolding fill_bucket
  fill_bucket-Soling s b v h last here =
      let n = min (bucket_size - b.end) s.count in
      elim (Bool-cases (ltb (length s.buf) n)) [
        | inl short ↦ rw short h
        | inr enough ↦
            elim (Option-cases (cipher_xor_buffer s.dev (take n s.buf) s.context.keyoff)) [
              | inl e ↦ rw (enough, e) tt
              | inr ((bytes, keyoff), e) ↦
                  let filled = record b { end = b.end + n; buffer = splice b.buffer b.end bytes } in
                  rw (enough, e)
                    (
                      Sole-put_last 0 s.dev.allocs s.dev.buckets b filled v.chain last refl refl
                          h.0,
                      h.1,
                      inr (
                        filled,
                        last_bucket-put_last 0 s.dev.allocs s.dev.buckets b filled v.chain last
                            refl,
                        here,
                      ),
                    )
            ]
      ]

  module _ (kmalloc : ℕ → Bool) (always : (n : ℕ) → kmalloc n ≡ true) where
    fill_fresh-Soling :
        (s : Writing)
        → IsValid s.dev
        → count_readers s.dev.contexes ≡ 0
        → Sole (s.dev.buckets ++ new_bucket s.dev ∷ [])
        → Follows
            (IsWriting f base wanted cs)
            Soling
            (Wrote f base wanted cs)
            Ended
            (left f base wanted cs)
            (fill_fresh kmalloc s)
    unfolding fill_fresh
    fill_fresh-Soling s v none_reading sole = rw (always s.dev.allocs) (
        fill_bucket-Soling _ (new_bucket s.dev) (add_bucket-IsValid s.dev v)
          (sole, none_reading, inr (new_bucket s.dev, last_bucket-snoc s.dev.buckets _, refl))
          (last_bucket-snoc s.dev.buckets _) refl)

    refcount-new_bucket :
        (dev : CipherDev) → count_readers dev.contexes ≡ 0 → (new_bucket dev).refcount ≡ pos 1
    unfolding new_bucket
    refcount-new_bucket dev e = ap pos (omega (arith, e))

    write_step-Soling :
        (s : Writing)
        → IsWriting f base wanted cs s
        → Soling s
        → Follows
            (IsWriting f base wanted cs)
            Soling
            (Wrote f base wanted cs)
            Ended
            (left f base wanted cs)
            (write_step kmalloc s)
    unfolding write_step
    write_step-Soling s v h = elim (Bool-cases (s.count == 0)) [
      | inl none_left ↦ rw none_left h
      | inr more ↦ elim h.2 [
        | inl (e, e') ↦
            rw (more, e)
              (fill_fresh-Soling s v.device h.1
                (Sole-first s.dev.buckets (new_bucket s.dev) e' (refcount-new_bucket s.dev h.1)))
        | inr (b, last, e) ↦
            let found = find_last 0 s.dev.allocs s.dev.buckets b v.device.chain last in
            let vb =
              (find_bucket_sound 0 s.dev.allocs b.id s.dev.buckets b v.device.chain found).0 in
            rw (write_step_at kmalloc s b.id b more e found)
              (elim (Bool-cases (leb bucket_size b.end)) [
                | inl full ↦ rw full (
                    fill_fresh-Soling (drop_full s b)
                      (drop_full-IsWriting f base wanted cs s b vb v).device h.1
                      (Sole-snoc 0 s.dev.allocs s.dev.buckets b (new_bucket (drop_full s b).dev)
                        v.device.chain last (ground arith) (refcount-new_bucket _ h.1) h.0))
                | inr room ↦ rw room (fill_bucket-Soling s b v.device h last e)
              ])
      ]
    ]

finish_write-Sole :
    (W : Writing → Reply → Type 0) (o : Outcome (Writing × Reply))
    → Settles Unit (λ e. W e.0 e.1 × Soling e.0) o
    → Settles Unit (λ r. Sole r.0.buckets) (finish_write o)
finish_write-Sole W (done (s, r)) h = h.1.0
finish_write-Sole W fault h = tt
finish_write-Sole W out_of_fuel h = h

-- While no reader is open and every allocation succeeds, a write through the device's only writer
-- keeps its reference counts: 0 on each bucket but the last, each of them full, and 1 on the last.
pub cipher_write-Sole :
    (kmalloc : ℕ → Bool) (dev : CipherDev) (f : ℕ) (buf : List ℕ) (count : ℕ) (c : Fcontext)
    → ((n : ℕ) → kmalloc n ≡ true)
    → IsValid dev
    → find_context f dev.contexes ≡ some c
    → StandsSole c dev
    → count < 2 ^ 63
    → Settles Unit (λ r. Sole r.0.buckets) (cipher_write kmalloc dev f buf count)
cipher_write-Sole kmalloc dev f buf count c always v here h small =
    let t = c.totalwritten in
    let cs = dev.contexes in
    let wanted = min count (max_write_len - t) in
    let limited = find_context_limited f cs c v.limited here in
    elim (Bool-cases (leb max_write_len t)) [
      | inl used_up ↦ rw (cipher_write-used_up kmalloc dev f buf count c here used_up) (h.0)
      | inr below ↦
          rw
            (
              cipher_write-open kmalloc dev f buf count c here below,
              limit_count_lem t count limited small,
            )
            (finish_write-Sole (Wrote f t wanted cs) _ (
              loop-Settles Unit (λ s. IsWriting f t wanted cs s × Soling s)
                (λ s r. Wrote f t wanted cs s r × Ended s r) (left f t wanted cs)
                (write_step kmalloc)
                (λ s p.
                  Advances-and _ _ _ _ _ _ _ (write_step-Advances f t wanted cs kmalloc s p.0)
                    (write_step-Soling f t wanted cs kmalloc always s p.0 p.1))
                (wanted + 1) _
                (
                  record {
                    device = v;
                    total = omega arith;
                    limit = omega (arith, limited);
                    goal = omega arith;
                    file = find_context_file f cs c here;
                    files = refl;
                  },
                  h,
                )
                (omega arith)))
    ]
