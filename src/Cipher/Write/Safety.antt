-- ===== src/Cipher/Write/Safety.antt =====
-- cipher_write terminates, keeps the device well formed and obeys the limit of 8192 bytes.
use advanced_unix_ceng.Base.{
  ℕ, ◌+◌, ◌-◌, ◌≤◌, ◌<◌, ◌≡◌, refl, inl, inr, List, [], ◌∷◌, ◌++◌, some, Bool, false, arith,
  Bool-cases, Option-cases, ltb, leb, length, ◌==◌, if◌then◌else◌, take, length-take,
  length-replicate, min, splice, length-splice,
}
use advanced_unix_ceng.Base.Int.{pos, ◌-ℤ◌}
use advanced_unix_ceng.Cipher.Device.{
  Bucket, Fcontext, CipherDev, Reply, value, fail, bucket_size, max_write_len, find_bucket,
}
use advanced_unix_ceng.Cipher.Device.Valid.{
  Chain-snoc, Chain-up, IsBucket, IsValid, find_bucket_sound, put_bucket-Chain,
}
use advanced_unix_ceng.Cipher.Key.{cipher_xor_buffer}
use advanced_unix_ceng.Cipher.Key.Stream.{length-cipher_xor_buffer}
use advanced_unix_ceng.Cipher.Loop.Rule.{Advances}
use advanced_unix_ceng.Cipher.Write.{
  Writing, fill_bucket, new_bucket, fill_fresh, drop_full, write_step,
}

pub new_bucket-IsBucket : (dev : CipherDev) → IsBucket (new_bucket dev)
unfolding new_bucket
new_bucket-IsBucket dev = omega (arith, length-replicate {A = ℕ} 256 0)

pub add_bucket-IsValid :
    (dev : CipherDev)
    → IsValid dev
    → IsValid (record dev { buckets = dev.buckets ++ new_bucket dev ∷ []; allocs = dev.allocs + 1 })
unfolding new_bucket
add_bucket-IsValid dev v = record {
  chain =
      Chain-snoc 0 dev.allocs dev.buckets (new_bucket dev) v.chain refl (new_bucket-IsBucket dev);
  key_length = v.key_length;
  key_ends = v.key_ends;
  limited = v.limited;
}

-- An allocation that fails is counted too.
pub add_attempt-IsValid :
    (dev : CipherDev) → IsValid dev → IsValid (record dev { allocs = dev.allocs + 1 })
add_attempt-IsValid dev v = ground (arith, Chain-up 0 dev.allocs (dev.allocs + 1) dev.buckets)

-- One round at a live bucket.
pub write_step_at :
    (kmalloc : ℕ → Bool) (s : Writing) (p : ℕ) (b : Bucket)
    → (s.count == 0) ≡ false
    → s.context.next ≡ some p
    → find_bucket p s.dev.buckets ≡ some b
    → write_step kmalloc s
      ≡ (if leb bucket_size b.end then fill_fresh kmalloc (drop_full s b) else fill_bucket s b)
unfolding write_step
write_step_at kmalloc s p b wanted here found = simp (wanted, here, found)

-- A call on the file `f`, which has written `base` bytes before it, among the open files `cs`. It is
-- to write `wanted` bytes.
module _ (f base wanted : ℕ) (cs : List Fcontext) where
  pub record IsWriting (s : Writing) : Type 0 where
    pub device : IsValid s.dev
    pub total : s.context.totalwritten ≡ base + s.total_written
    pub limit : s.context.totalwritten + s.count ≤ max_write_len
    pub goal : s.total_written + s.count ≡ wanted
    pub file : s.context.file ≡ f
    pub files : s.dev.contexes ≡ cs

  abbrev pub Wrote : Writing → Reply → Type 0
  Wrote s (value n) = IsWriting s × (n ≡ wanted) × (s.total_written ≡ wanted)
  Wrote s (fail e) = IsWriting s

  abbrev pub left : Writing → ℕ
  left s = s.count

  fill_bucket-Advances :
      (s : Writing) (b : Bucket)
      → IsWriting s
      → IsBucket b
      → b.end < bucket_size
      → (s.count == 0) ≡ false
      → Advances Unit IsWriting Wrote left s.count (fill_bucket s b)
  unfolding fill_bucket
  fill_bucket-Advances s b v vb room more =
      let n = min (bucket_size - b.end) s.count in
      elim (Bool-cases (ltb (length s.buf) n)) [
        | inl short ↦ rw short v
        | inr enough ↦
            elim (Option-cases (cipher_xor_buffer s.dev (take n s.buf) s.context.keyoff)) [
              | inl e ↦ rw (enough, e) tt
              | inr ((bytes, keyoff), e) ↦
                  rw (enough, e)
                    (ground (
                      arith,
                      length-cipher_xor_buffer s.dev (take n s.buf) s.context.keyoff bytes keyoff e,
                      length-take n s.buf,
                      length-splice b.buffer b.end bytes,
                      put_bucket-Chain 0 s.dev.allocs s.dev.buckets
                          (record b { end = b.end + n; buffer = splice b.buffer b.end bytes }),
                    ))
            ]
      ]

  fill_fresh-Advances :
      (kmalloc : ℕ → Bool) (s : Writing)
      → IsWriting s
      → (s.count == 0) ≡ false
      → Advances Unit IsWriting Wrote left s.count (fill_fresh kmalloc s)
  unfolding fill_fresh new_bucket
  fill_fresh-Advances kmalloc s v more = elim (Bool-cases (kmalloc s.dev.allocs)) [
    | inl made ↦ rw made (
        fill_bucket-Advances _ _
          (record {
            device = add_bucket-IsValid s.dev v.device;
            total = v.total;
            limit = v.limit;
            goal = v.goal;
            file = v.file;
            files = v.files;
          })
          (new_bucket-IsBucket s.dev) (omega arith) more)
    | inr failed ↦ rw failed (record {
      device = add_attempt-IsValid s.dev v.device;
      total = v.total;
      limit = v.limit;
      goal = v.goal;
      file = v.file;
      files = v.files;
    })
  ]

  pub drop_full-IsWriting :
      (s : Writing) (b : Bucket) → IsBucket b → IsWriting s → IsWriting (drop_full s b)
  drop_full-IsWriting s b vb v = ground (
    arith,
    put_bucket-Chain 0 s.dev.allocs s.dev.buckets (record b { refcount = b.refcount -ℤ pos 1 }),
  )

  pub write_step-Advances :
      (kmalloc : ℕ → Bool) (s : Writing)
      → IsWriting s
      → Advances Unit IsWriting Wrote left s.count (write_step kmalloc s)
  unfolding write_step
  write_step-Advances kmalloc s v = elim (Bool-cases (s.count == 0)) [
    | inl none_left ↦ rw none_left (ground arith)
    | inr more ↦ elim (Option-cases s.context.next) [
      | inl e ↦ rw (more, e) (fill_fresh-Advances kmalloc s v more)
      | inr (p, here) ↦ elim (Option-cases (find_bucket p s.dev.buckets)) [
        | inl e ↦ rw (more, here, e) tt
        | inr (b, found) ↦
            let sound = find_bucket_sound 0 s.dev.allocs p s.dev.buckets b v.device.chain found in
            rw (write_step_at kmalloc s p b more here found)
              (elim (Bool-cases (leb bucket_size b.end)) [
                | inl full ↦ rw full (
                    fill_fresh-Advances kmalloc (drop_full s b) (drop_full-IsWriting s b sound.0 v)
                      more)
                | inr room ↦ rw room (fill_bucket-Advances s b v sound.0 (ground arith) more)
              ])
      ]
    ]
  ]
