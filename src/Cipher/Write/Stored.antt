-- ===== src/Cipher/Write/Stored.antt =====
-- A write through a file at the tail, without failing allocations and user copies.
use advanced_unix_ceng.Base.{
  ℕ, ◌+◌, ◌-◌, ◌^◌, ◌≤◌, ◌<◌, ◌≡◌, refl, inl, inr, List, ◌++◌, some, Bool, true, arith, Bool-cases,
  leb, length, ◌==◌, take, min,
}
use advanced_unix_ceng.Cipher.Device.{
  CipherDev, Fcontext, Reply, value, bucket_size, max_write_len, find_context,
}
use advanced_unix_ceng.Cipher.Device.Contents.{contents, AtTail, find_last}
use advanced_unix_ceng.Cipher.Device.Valid.{IsValid, find_bucket_sound}
use advanced_unix_ceng.Cipher.Key.Stream.{encrypt, HasKey}
use advanced_unix_ceng.Cipher.Loop.{Outcome, done, fault, out_of_fuel}
use advanced_unix_ceng.Cipher.Loop.Rule.{Settles, Advances, loop-Settles}
use advanced_unix_ceng.Cipher.Write.{Writing, write_step, finish_write, cipher_write}
use advanced_unix_ceng.Cipher.Write.Append.{
  Appending, Appended, left, fill_bucket-Appending, stop-Appended,
}
use advanced_unix_ceng.Cipher.Write.Fresh.{fill_fresh-Appending, drop_full-Appending}
use advanced_unix_ceng.Cipher.Write.Limit.{cipher_write-open, limit_count_lem}
use advanced_unix_ceng.Cipher.Write.Safety.{write_step_at}

module _ (kmalloc : ℕ → Bool) (always : (n : ℕ) → kmalloc n ≡ true) (goal : List ℕ)
    (wanted kend : ℕ) (small : kend < 2 ^ 31) where
  write_step-Appending :
      (s : Writing)
      → Appending goal wanted kend s
      → Advances ⊥
          (Appending goal wanted kend)
          (Appended goal wanted kend)
          (left goal wanted kend)
          s.count
          (write_step kmalloc s)
  unfolding write_step
  write_step-Appending s v = elim (Bool-cases (s.count == 0)) [
    | inl none_left ↦ rw none_left (stop-Appended goal wanted kend s v none_left)
    | inr more ↦ elim v.tail [
      | inl e ↦ rw (more, e) (fill_fresh-Appending goal wanted kend kmalloc always small s v more)
      | inr (b, last, e) ↦
          let found = find_last 0 s.dev.allocs s.dev.buckets b v.device.chain last in
          let vb = (find_bucket_sound 0 s.dev.allocs b.id s.dev.buckets b v.device.chain found).0 in
          rw (write_step_at kmalloc s b.id b more e found)
            (elim (Bool-cases (leb bucket_size b.end)) [
              | inl full ↦ rw full (
                  fill_fresh-Appending goal wanted kend kmalloc always small _
                    (drop_full-Appending goal wanted kend s b v vb last e) more)
              | inr room ↦
                  rw room (
                    fill_bucket-Appending goal wanted kend s v b small last e vb (ground arith)
                      more)
            ])
    ]
  ]

-- What a write through the file with context `c` leaves, when it stores the first `n` bytes of
-- `buf`.
abbrev pub Stores : CipherDev → Fcontext → List ℕ → ℕ → CipherDev × Reply → Type 0
Stores dev c buf n r =
    (r.1 ≡ value n)
    × (contents r.0.buckets
        ≡ contents dev.buckets ++ encrypt dev.cipher dev.cipherlen c.keyoff (take n buf))

finish_write-Stores :
    (dev : CipherDev) (c : Fcontext) (buf : List ℕ) (n kend : ℕ) (o : Outcome (Writing × Reply))
    → Settles ⊥
        (λ e.
          Appended
            (contents dev.buckets ++ encrypt dev.cipher dev.cipherlen c.keyoff (take n buf))
            n
            kend
            e.0
            e.1)
        o
    → Settles ⊥ (Stores dev c buf n) (finish_write o)
finish_write-Stores dev c buf n kend (done (s, r)) h = (h.reply, h.stored)
finish_write-Stores dev c buf n kend fault h = h
finish_write-Stores dev c buf n kend out_of_fuel h = h

-- On a well-formed device with a key, let a file be open whose next bucket is none or the last
-- one, that is not at its limit, and whose key offset stays below 2^31, and let the count be
-- below 2^63. If every allocation succeeds and the user's bytes can be read, then cipher_write returns the count asked for, or
-- what is left of the 8192 bytes if that is less, and appends exactly these bytes, encrypted at
-- the file's key offset, to what the device holds.
pub cipher_write-Stores :
    (kmalloc : ℕ → Bool) (dev : CipherDev) (f : ℕ) (buf : List ℕ) (count : ℕ) (c : Fcontext)
    → ((n : ℕ) → kmalloc n ≡ true)
    → IsValid dev
    → HasKey dev
    → find_context f dev.contexes ≡ some c
    → AtTail c.next dev.buckets
    → c.totalwritten < max_write_len
    → count < 2 ^ 63
    → min count (max_write_len - c.totalwritten) ≤ length buf
    → c.keyoff + min count (max_write_len - c.totalwritten) < 2 ^ 31
    → Settles ⊥
        (Stores dev c buf (min count (max_write_len - c.totalwritten)))
        (cipher_write kmalloc dev f buf count)
cipher_write-Stores kmalloc dev f buf count c always v keyed here tail below small enough fits =
    let n = min count (max_write_len - c.totalwritten) in
    let goal = contents dev.buckets ++ encrypt dev.cipher dev.cipherlen c.keyoff (take n buf) in
    rw
      (
        cipher_write-open kmalloc dev f buf count c here (ground arith),
        limit_count_lem c.totalwritten count (omega arith) small,
      )
      (finish_write-Stores dev c buf n (c.keyoff + n) _ (
        loop-Settles ⊥ _ _ (left goal n (c.keyoff + n)) (write_step kmalloc)
          (write_step-Appending kmalloc always goal n (c.keyoff + n) fits) (n + 1) _
          (record {
            device = v;
            keyed = keyed;
            tail = tail;
            enough = enough;
            fits = refl;
            total = omega arith;
            ahead = refl;
          })
          (omega arith)))
