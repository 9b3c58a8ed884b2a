-- ===== src/Cipher/Device.antt =====
-- The data of hw3/cipher/cipher.c: struct bucket, struct fcontext, struct cipher_dev, and the
-- list_head operations on a device's buckets and contexts. Mutexes are left out: each operation
-- runs with the device's mutex held, so operations are atomic with respect to one another.
pub mod Valid
pub mod Contents
use advanced_unix_ceng.Base.{
  ℕ, suc, List, [], ◌∷◌, Option, none, some, Bool, true, false, if◌then◌else◌, ◌==◌,
}
use advanced_unix_ceng.Base.Int.{ℤ}

-- BUCKET_SIZE and MAX_WRITE_LEN
abbrev pub bucket_size : ℕ
bucket_size = 256

abbrev pub max_write_len : ℕ
max_write_len = 8192

-- `id` is the bucket's address: the number of the allocation that made it. Addresses are not
-- used again, so a pointer to a freed bucket finds nothing.
pub record Bucket : Type 0 where
  pub id : ℕ
  pub end : ℕ
  pub refcount : ℤ
  pub buffer : List ℕ

-- `mode`: 0 and 1 in the source
pub data Mode : Type 0 where
  reader writer : Mode

-- `file` stands for `fp`; `next` is a pointer to a bucket, `none` for NULL; `keyoff` is the bit
-- pattern of an `int`.
pub record Fcontext : Type 0 where
  pub file : ℕ
  pub next : Option ℕ
  pub off : ℕ
  pub keyoff : ℕ
  pub mode : Mode
  pub totalwritten : ℕ

-- `allocs` counts the calls of kmalloc, and is the address of the next allocation.
pub record CipherDev : Type 0 where
  pub buckets : List Bucket
  pub keyfirst : ℕ
  pub keylast : ℕ
  pub contexes : List Fcontext
  pub cipher : List ℕ
  pub cipherlen : ℕ
  pub allocs : ℕ

pub data Errno : Type 0 where
  einval enomem efault enotty : Errno

-- The return value of a file operation: a count, or a negative error code.
pub data Reply : Type 0 where
  value : ℕ → Reply
  fail : Errno → Reply

-- The bucket at an address; `none` if that address is not that of a live bucket.
unfoldable pub find_bucket : ℕ → List Bucket → Option Bucket
find_bucket p [] = none
find_bucket p (b ∷ bs) = if b.id == p then some b else find_bucket p bs

-- The writes through a bucket pointer, as the replacement of the bucket at its address.
unfoldable pub put_bucket : Bucket → List Bucket → List Bucket
put_bucket c [] = []
put_bucket c (b ∷ bs) = if b.id == c.id then c ∷ bs else b ∷ put_bucket c bs

-- `list_del` and `kfree`
unfoldable pub delete_bucket : ℕ → List Bucket → List Bucket
delete_bucket p [] = []
delete_bucket p (b ∷ bs) = if b.id == p then bs else b ∷ delete_bucket p bs

abbrev pub first_id : List Bucket → Option ℕ
first_id [] = none
first_id (b ∷ bs) = some b.id

-- `bucket->bucketlist.next`, `none` if that is the list's head again
unfoldable pub next_bucket : ℕ → List Bucket → Option ℕ
next_bucket p [] = none
next_bucket p (b ∷ bs) = if b.id == p then first_id bs else next_bucket p bs

-- `list_empty`
abbrev pub list_empty {ℓ} : {A : Type ℓ} → List A → Bool
list_empty [] = true
list_empty (x ∷ xs) = false

-- `list_entry(dev->buckets.prev, ...)`
unfoldable pub last_bucket : List Bucket → Option Bucket
last_bucket [] = none
last_bucket (b ∷ []) = some b
last_bucket (b ∷ c ∷ bs) = last_bucket (c ∷ bs)

-- `filp->private_data`, found by the file
unfoldable pub find_context : ℕ → List Fcontext → Option Fcontext
find_context f [] = none
find_context f (c ∷ cs) = if c.file == f then some c else find_context f cs

unfoldable pub put_context : Fcontext → List Fcontext → List Fcontext
put_context c [] = []
put_context c (d ∷ ds) = if d.file == c.file then c ∷ ds else d ∷ put_context c ds

unfoldable pub delete_context : ℕ → List Fcontext → List Fcontext
delete_context f [] = []
delete_context f (c ∷ cs) = if c.file == f then cs else c ∷ delete_context f cs

-- `readers_count`
unfoldable pub count_readers : List Fcontext → ℕ
count_readers [] = 0
count_readers (c ∷ cs) = elim c.mode [ reader ↦ suc (count_readers cs) | writer ↦ count_readers cs ]
