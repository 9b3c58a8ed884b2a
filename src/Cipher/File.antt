-- ===== src/Cipher/File.antt =====
-- cipher_open, cipher_release and cipher_llseek of hw3/cipher/cipher.c.
pub mod Safety
use advanced_unix_ceng.Base.{
  ℕ, ◌+◌, ◌%◌, List, [], ◌∷◌, map, Option, none, some, Bool, if◌then◌else◌, ◌==◌,
}
use advanced_unix_ceng.Base.Int.{ℤ, pos, ◌+ℤ◌, ◌-ℤ◌, ltb_ℤ, eqb_ℤ}
use advanced_unix_ceng.Cipher.Device.{
  Bucket, Mode, reader, writer, Fcontext, CipherDev, Reply, value, fail, einval, enomem,
  last_bucket, find_context, delete_context,
}

-- `accmode == O_WRONLY`, `accmode == O_RDONLY`; O_ACCMODE is the low two bits.
unfoldable pub open_mode : ℕ → Option Mode
open_mode flags =
    let accmode = flags % 4 in
    if accmode == 1 then some writer else if accmode == 0 then some reader else none

abbrev pub hold : Bucket → Bucket
hold b = record b { refcount = b.refcount +ℤ pos 1 }

-- Step 2 of cipher_open: where a reader and a writer start.
unfoldable pub start_context : CipherDev → ℕ → Mode → Fcontext
start_context dev f reader = elim dev.buckets [
  | [] ↦ record { file = f; next = none; off = 0; keyoff = 0; mode = reader; totalwritten = 0 }
  | first ∷ rest ↦ record {
    file = f;
    next = some first.id;
    off = 0;
    keyoff = dev.keyfirst;
    mode = reader;
    totalwritten = 0;
  }
]
start_context dev f writer = elim (last_bucket dev.buckets) [
  | none ↦ record { file = f; next = none; off = 0; keyoff = 0; mode = writer; totalwritten = 0 }
  | some last ↦ record {
    file = f;
    next = some last.id;
    off = last.end;
    keyoff = dev.keylast;
    mode = writer;
    totalwritten = 0;
  }
]

-- `kmalloc n` tells whether allocation number n succeeds.
unfoldable pub cipher_open : (ℕ → Bool) → CipherDev → ℕ → ℕ → CipherDev × Reply
cipher_open kmalloc dev f flags =
    let tried = record dev { allocs = dev.allocs + 1 } in
    if kmalloc dev.allocs
    then elim (open_mode flags) [
      | none ↦ (tried, fail einval)
      | some mode ↦ (
        record tried {
          buckets = map hold dev.buckets;
          contexes = start_context dev f mode ∷ dev.contexes;
        },
        value 0,
      )
    ]
    else (tried, fail enomem)

-- The loop of cipher_release over the buckets.
unfoldable pub release_buckets : List Bucket → List Bucket
release_buckets [] = []
release_buckets (b ∷ bs) =
    let left = record b { refcount = b.refcount -ℤ pos 1 } in
    if ltb_ℤ (pos 0) b.refcount
    then (if eqb_ℤ left.refcount (pos 0) then release_buckets bs else left ∷ release_buckets bs)
    else b ∷ release_buckets bs

unfoldable pub cipher_release : CipherDev → ℕ → CipherDev × Reply
cipher_release dev f = elim (find_context f dev.contexes) [
  | none ↦ (dev, value 0)
  | some context ↦ (
    record dev { buckets = release_buckets dev.buckets; contexes = delete_context f dev.contexes },
    value 0,
  )
]

unfoldable pub cipher_llseek : CipherDev → ℕ → ℤ → ℕ → CipherDev × Reply
cipher_llseek dev f off whence = (dev, fail einval)
