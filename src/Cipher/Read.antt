-- ===== src/Cipher/Read.antt =====
-- cipher_read of hw3/cipher/cipher.c. The local `bucket` is always `context->next`.
pub mod Safety
pub mod Unread
pub mod Copy
pub mod Decrypt
pub mod Delivered
use advanced_unix_ceng.Base.{
  ℕ, ◌+◌, ◌-◌, min, List, [], ◌++◌, Option, none, some, if◌then◌else◌, ◌==◌, ltb, leb, length, take,
  drop,
}
use advanced_unix_ceng.Base.Int.{pos, ◌-ℤ◌, eqb_ℤ}
use advanced_unix_ceng.Cipher.Device.{
  Bucket, Fcontext, CipherDev, Reply, value, fail, efault, find_bucket, put_bucket, delete_bucket,
  next_bucket, list_empty, find_context, put_context,
}
use advanced_unix_ceng.Cipher.Key.{key_byte, cipher_xor_buffer}
use advanced_unix_ceng.Cipher.Loop.{
  Next, continue, stop, crash, Outcome, done, fault, out_of_fuel, loop,
}

-- `room` is how many bytes at `buf` the user may write, `out` what was copied there.
pub record Reading : Type 0 where
  pub dev : CipherDev
  pub context : Fcontext
  pub count : ℕ
  pub room : ℕ
  pub out : List ℕ

abbrev pub move_to : Reading → List Bucket → Option ℕ → Reading
move_to s bs next = record s {
  dev = record s.dev { buckets = bs };
  context = record s.context { next = next; off = 0 };
}

-- The branch `avail <= 0` once its bucket is freed: `bucket->bucketlist.next` must not be read.
unfoldable pub leave_freed : Reading → List Bucket → Next Reading
leave_freed s bs = if list_empty bs then continue (move_to s bs none) else crash

-- The same branch while others hold the bucket.
unfoldable pub leave_held : Reading → ℕ → List Bucket → Next Reading
leave_held s p bs =
    if list_empty bs
    then continue (move_to s bs none)
    else continue (move_to s bs (next_bucket p bs))

unfoldable pub leave_bucket : Reading → Bucket → Next Reading
leave_bucket s b =
    let left = record b { refcount = b.refcount -ℤ pos 1 } in
    if eqb_ℤ left.refcount (pos 0)
    then leave_freed s (delete_bucket b.id s.dev.buckets)
    else leave_held s b.id (put_bucket left s.dev.buckets)

-- The rest of the loop's body: `avail = bucket->end - context->off` is positive.
unfoldable pub copy_out : Reading → Bucket → Next Reading
copy_out s b =
    let to_copy = min (b.end - s.context.off) s.count in
    let tempbuf = take to_copy (drop s.context.off b.buffer) in
    elim (cipher_xor_buffer s.dev tempbuf s.context.keyoff) [
      | none ↦ crash
      | some (bytes, keyoff) ↦
          let decoded = record s { context = record s.context { keyoff = keyoff } } in
          if ltb s.room to_copy
          then stop decoded (fail efault)
          else continue (record s {
            context = record s.context { off = s.context.off + to_copy; keyoff = keyoff };
            count = s.count - to_copy;
            room = s.room - to_copy;
            out = s.out ++ bytes;
          })
    ]

-- One round of `while (count > 0 && bucket)`.
unfoldable pub read_step : Reading → Next Reading
read_step s = if s.count == 0 then stop s (value (length s.out)) else elim s.context.next [
  | none ↦ stop s (value (length s.out))
  | some p ↦ elim (find_bucket p s.dev.buckets) [
    | none ↦ crash
    | some b ↦ if leb b.end s.context.off then leave_bucket s b else copy_out s b
  ]
]

-- A round copies at least a byte or goes on to a later bucket.
abbrev pub read_fuel : CipherDev → ℕ → ℕ
read_fuel dev count = count + dev.allocs + 2

abbrev pub finish_read : Outcome (Reading × Reply) → Outcome (CipherDev × Reply × List ℕ)
finish_read (done (s, r)) =
    done (record s.dev { contexes = put_context s.context s.dev.contexes }, r, s.out)
finish_read fault = fault
finish_read out_of_fuel = out_of_fuel

-- The bytes in the result are those of the copies to the user that succeeded.
unfoldable pub cipher_read : CipherDev → ℕ → ℕ → ℕ → Outcome (CipherDev × Reply × List ℕ)
cipher_read dev f count room = elim (find_context f dev.contexes) [
  | none ↦ fault
  | some context ↦ finish_read (
      loop read_step (read_fuel dev count)
        (record { dev = dev; context = context; count = count; room = room; out = [] }))
]
