-- ===== src/Cipher/Write.antt =====
-- cipher_write of hw3/cipher/cipher.c. The local `bucket` is always `context->next`.
pub mod Safety
pub mod Append
pub mod Fresh
pub mod Stored
pub mod Sole
pub mod SoleLoop
pub mod Limit
use advanced_unix_ceng.Base.{
  ℕ, ◌+◌, ◌-◌, ◌%◌, ◌^◌, min, List, [], ◌∷◌, ◌++◌, none, some, Bool, if◌then◌else◌, ◌==◌, ltb, leb,
  length, take, drop, replicate, splice,
}
use advanced_unix_ceng.Base.Int.{pos, ◌-ℤ◌}
use advanced_unix_ceng.Cipher.Device.{
  Bucket, Fcontext, CipherDev, Reply, value, fail, efault, enomem, bucket_size, max_write_len,
  find_bucket, put_bucket, find_context, put_context, count_readers,
}
use advanced_unix_ceng.Cipher.Key.{key_byte, cipher_xor_buffer}
use advanced_unix_ceng.Cipher.Loop.{
  Next, continue, stop, crash, Outcome, done, fault, out_of_fuel, loop,
}

-- `buf` holds the bytes that can be read at the user's pointer, `count` how many are still wanted.
pub record Writing : Type 0 where
  pub dev : CipherDev
  pub context : Fcontext
  pub count : ℕ
  pub buf : List ℕ
  pub total_written : ℕ

-- "Write data into current bucket."
unfoldable pub fill_bucket : Writing → Bucket → Next Writing
fill_bucket s b =
    let to_copy = min (bucket_size - b.end) s.count in
    if ltb (length s.buf) to_copy
    then stop s (fail efault)
    else elim (cipher_xor_buffer s.dev (take to_copy s.buf) s.context.keyoff) [
      | none ↦ crash
      | some (bytes, keyoff) ↦
          let filled = record b { end = b.end + to_copy; buffer = splice b.buffer b.end bytes } in
          continue (record {
            dev = record s.dev { buckets = put_bucket filled s.dev.buckets; keylast = keyoff };
            context = record s.context {
              keyoff = keyoff;
              totalwritten = s.context.totalwritten + to_copy;
            };
            count = s.count - to_copy;
            buf = drop to_copy s.buf;
            total_written = s.total_written + to_copy;
          })
    ]

unfoldable pub new_bucket : CipherDev → Bucket
new_bucket dev = record {
  id = dev.allocs;
  end = 0;
  refcount = pos (1 + count_readers dev.contexes);
  buffer = replicate bucket_size 0;
}

-- "create a fresh bucket", then write into it
unfoldable pub fill_fresh : (ℕ → Bool) → Writing → Next Writing
fill_fresh kmalloc s =
    let b = new_bucket s.dev in
    let tried = record s.dev { allocs = s.dev.allocs + 1 } in
    if kmalloc s.dev.allocs
    then fill_bucket
        (record s {
          dev = record tried { buckets = s.dev.buckets ++ b ∷ [] };
          context = record s.context { next = some b.id; off = 0 };
        })
        b
    else stop (record s { dev = tried }) (fail enomem)

-- The writer gives up a full bucket, and does not free it.
abbrev pub drop_full : Writing → Bucket → Writing
drop_full s b = record s {
  dev = record s.dev {
    buckets = put_bucket (record b { refcount = b.refcount -ℤ pos 1 }) s.dev.buckets;
  };
}

-- One round of `while (count > 0)`.
unfoldable pub write_step : (ℕ → Bool) → Writing → Next Writing
write_step kmalloc s =
    if s.count == 0 then stop s (value s.total_written) else elim s.context.next [
      | none ↦ fill_fresh kmalloc s
      | some p ↦ elim (find_bucket p s.dev.buckets) [
        | none ↦ crash
        | some b ↦
            if leb bucket_size b.end then fill_fresh kmalloc (drop_full s b) else fill_bucket s b
      ]
    ]

-- The limit of 8192 bytes; the sum is that of `ssize_t` and `size_t`, modulo 2^64.
unfoldable pub limit_count : ℕ → ℕ → ℕ
limit_count totalwritten count =
    if ltb max_write_len ((totalwritten + count) % 2 ^ 64)
    then max_write_len - totalwritten
    else count

abbrev pub finish_write : Outcome (Writing × Reply) → Outcome (CipherDev × Reply)
finish_write (done (s, r)) =
    done (record s.dev { contexes = put_context s.context s.dev.contexes }, r)
finish_write fault = fault
finish_write out_of_fuel = out_of_fuel

-- Each round but the last writes at least a byte.
unfoldable pub cipher_write : (ℕ → Bool) → CipherDev → ℕ → List ℕ → ℕ → Outcome (CipherDev × Reply)
cipher_write kmalloc dev f buf count = elim (find_context f dev.contexes) [
  | none ↦ fault
  | some context ↦
      if leb max_write_len context.totalwritten
      then done (dev, value 0)
      else (let wanted = limit_count context.totalwritten count in
          finish_write (
            loop (write_step kmalloc) (wanted + 1) (record {
              dev = dev;
              context = context;
              count = wanted;
              buf = buf;
              total_written = 0;
            })))
]
