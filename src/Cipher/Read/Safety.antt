-- ===== src/Cipher/Read/Safety.antt =====
-- cipher_read terminates and keeps the device well formed.
use advanced_unix_ceng.Base.{
  ℕ, ◌+◌, ◌-◌, ◌≤◌, ◌<◌, ◌≡◌, inl, inr, List, [], Option, none, some, false, arith, Bool-cases,
  Option-cases, leb, if◌then◌else◌, ◌==◌,
}
use advanced_unix_ceng.Cipher.Device.{
  Bucket, Fcontext, CipherDev, max_write_len, find_bucket, next_bucket, find_context,
}
use advanced_unix_ceng.Cipher.Device.Valid.{
  Chain, IsValid, find_bucket_sound, put_bucket-Chain, delete_bucket-Chain, next_bucket_above,
  find_context_limited, put_context-WithinLimit,
}
use advanced_unix_ceng.Base.Int.{pos, ◌-ℤ◌, eqb_ℤ}
use advanced_unix_ceng.Cipher.Device.{Reply}
use advanced_unix_ceng.Cipher.Loop.{Outcome, done, fault, out_of_fuel, loop}
use advanced_unix_ceng.Cipher.Loop.Rule.{Settles, Advances, loop-Settles}
use advanced_unix_ceng.Cipher.Read.{
  Reading, leave_freed, leave_held, leave_bucket, copy_out, read_step, read_fuel, cipher_read,
  finish_read,
}

-- How far the read can still go: bytes to copy, and buckets ahead.
abbrev pub ahead : Option ℕ → ℕ → ℕ
ahead none n = 0
ahead (some p) n = n - p

abbrev pub read_measure : Reading → ℕ
read_measure s = s.count + ahead s.context.next s.dev.allocs

record IsReading (s : Reading) : Type 0 where
  device : IsValid s.dev
  limit : s.context.totalwritten ≤ max_write_len

abbrev Ended : Reading → Reply → Type 0
Ended s r = IsReading s

abbrev Goes : Reading → ℕ → Type 0
Goes s n = Unit

module _ (s : Reading) (v : IsReading s) where
  leave_freed-Advances :
      (p : ℕ) (bs : List Bucket)
      → s.context.next ≡ some p
      → p < s.dev.allocs
      → Chain 0 s.dev.allocs bs
      → Advances Unit IsReading Ended read_measure (read_measure s) (leave_freed s bs)
  unfolding leave_freed
  leave_freed-Advances p bs here below chain = ground arith

  leave_held-Advances :
      (p : ℕ) (bs : List Bucket)
      → s.context.next ≡ some p
      → p < s.dev.allocs
      → Chain 0 s.dev.allocs bs
      → Advances Unit IsReading Ended read_measure (read_measure s) (leave_held s p bs)
  unfolding leave_held
  leave_held-Advances p bs here below chain = elim (Option-cases (next_bucket p bs)) [
    | inl e ↦ ground arith
    | inr (q, e) ↦ ground (arith, next_bucket_above 0 s.dev.allocs p q bs)
  ]

  module _ (b : Bucket) (p : ℕ) (found : find_bucket p s.dev.buckets ≡ some b)
      (here : s.context.next ≡ some p) where
    leave_bucket-Advances :
        Advances Unit IsReading Ended read_measure (read_measure s) (leave_bucket s b)
    unfolding leave_bucket
    leave_bucket-Advances =
        let f = find_bucket_sound 0 s.dev.allocs p s.dev.buckets b v.device.chain found in
        let left = record b { refcount = b.refcount -ℤ pos 1 } in
        elim (Bool-cases (eqb_ℤ left.refcount (pos 0))) [
          | inl freed ↦ rw freed (
              leave_freed-Advances b.id _ (ground arith) (omega arith)
                (delete_bucket-Chain 0 s.dev.allocs b.id s.dev.buckets v.device.chain))
          | inr held ↦ rw held (
              leave_held-Advances b.id _ (ground arith) (omega arith)
                (put_bucket-Chain 0 s.dev.allocs s.dev.buckets left (omega arith) v.device.chain))
        ]

    copy_out-Advances :
        leb b.end s.context.off ≡ false
        → (s.count == 0) ≡ false
        → Advances Unit IsReading Ended read_measure (read_measure s) (copy_out s b)
    unfolding copy_out
    copy_out-Advances more wanted = ground arith

-- One round at a live bucket.
pub read_step_at :
    (s : Reading) (p : ℕ) (b : Bucket)
    → (s.count == 0) ≡ false
    → s.context.next ≡ some p
    → find_bucket p s.dev.buckets ≡ some b
    → read_step s ≡ (if leb b.end s.context.off then leave_bucket s b else copy_out s b)
unfolding read_step
read_step_at s p b wanted here found = simp (wanted, here, found)

read_step-Advances :
    (s : Reading)
    → IsReading s
    → Advances Unit IsReading Ended read_measure (read_measure s) (read_step s)
unfolding read_step
read_step-Advances s v = elim (Bool-cases (s.count == 0)) [
  | inl none_left ↦ rw none_left v
  | inr wanted ↦ elim (Option-cases s.context.next) [
    | inl e ↦ rw (wanted, e) v
    | inr (p, here) ↦ elim (Option-cases (find_bucket p s.dev.buckets)) [
      | inl e ↦ rw (wanted, here, e) tt
      | inr (b, found) ↦
          rw (read_step_at s p b wanted here found) (elim (Bool-cases (leb b.end s.context.off)) [
            | inl passed ↦ rw passed (leave_bucket-Advances s v b p found here)
            | inr more ↦ rw more (copy_out-Advances s v b p found here more wanted)
          ])
    ]
  ]
]

finish_read-IsValid :
    (o : Outcome (Reading × Reply))
    → Settles Unit (λ e. IsReading e.0) o
    → Settles Unit (λ r. IsValid r.0) (finish_read o)
finish_read-IsValid (done (s, r)) v = record {
  chain = v.device.chain;
  key_length = v.device.key_length;
  key_ends = v.device.key_ends;
  limited = put_context-WithinLimit s.context s.dev.contexes v.limit v.device.limited;
}
finish_read-IsValid fault v = tt
finish_read-IsValid out_of_fuel v = v

pub cipher_read-closed :
    (dev : CipherDev) (f count room : ℕ)
    → find_context f dev.contexes ≡ none
    → cipher_read dev f count room ≡ fault
unfolding cipher_read
cipher_read-closed dev f count room e = rw (e, cipher_read)

pub cipher_read-open :
    (dev : CipherDev) (f count room : ℕ) (c : Fcontext)
    → find_context f dev.contexes ≡ some c
    → cipher_read dev f count room
      ≡ finish_read (
          loop read_step
            (read_fuel dev count)
            (record { dev = dev; context = c; count = count; room = room; out = [] }))
unfolding cipher_read
cipher_read-open dev f count room c e = rw (e, cipher_read)

pub start-lt-read_fuel :
    (dev : CipherDev) (count : ℕ) (next : Option ℕ)
    → count + ahead next dev.allocs < read_fuel dev count
start-lt-read_fuel dev count none = omega arith
start-lt-read_fuel dev count (some p) = omega arith

-- On a well-formed device cipher_read always ends: it returns or does something undefined, and
-- where it returns, with whatever reply, the device is well formed again.
pub cipher_read-IsValid :
    (dev : CipherDev) (f count room : ℕ)
    → IsValid dev
    → Settles Unit (λ r. IsValid r.0) (cipher_read dev f count room)
cipher_read-IsValid dev f count room v = elim (Option-cases (find_context f dev.contexes)) [
  | inl e ↦ rw (cipher_read-closed dev f count room e) tt
  | inr (c, e) ↦ rw (cipher_read-open dev f count room c e) (
      finish_read-IsValid _ (
        loop-Settles Unit IsReading Ended read_measure read_step read_step-Advances _ _
          (record { device = v; limit = find_context_limited f dev.contexes c v.limited e })
          (start-lt-read_fuel dev count c.next)))
]
