-- ===== src/Cipher/Device/Valid.antt =====
-- The representation invariant of a device, and how the operations on its lists keep it.
use advanced_unix_ceng.Base.{
  ℕ, suc, ◌+◌, ◌≤◌, ◌<◌, ◌≡◌, List, [], ◌∷◌, ◌++◌, map, some, arith, length,
}
use advanced_unix_ceng.Cipher.Device.{
  Bucket, Fcontext, CipherDev, bucket_size, max_write_len, find_bucket, put_bucket, delete_bucket,
  next_bucket, find_context, put_context, delete_context,
}

pub record IsBucket (b : Bucket) : Type 0 where
  pub filled : b.end ≤ bucket_size
  pub storage : length b.buffer ≡ bucket_size

-- The buckets are well formed, and their addresses rise from `lo` and stay below `hi`: the list is
-- in the order of allocation and meets no address twice.
abbrev pub Chain : ℕ → ℕ → List Bucket → Type 0
Chain lo hi [] = lo ≤ hi
Chain lo hi (b ∷ bs) = IsBucket b × (lo ≤ b.id) × Chain (suc b.id) hi bs

-- No open file has written more than the limit.
abbrev pub WithinLimit : List Fcontext → Type 0
WithinLimit [] = Unit {0}
WithinLimit (c ∷ cs) = (c.totalwritten ≤ max_write_len) × WithinLimit cs

pub record IsValid (dev : CipherDev) : Type 0 where
  pub chain : Chain 0 dev.allocs dev.buckets
  pub key_length : length dev.cipher ≡ 4096
  pub key_ends : dev.cipherlen < 4096
  pub limited : WithinLimit dev.contexes

pub Chain-le : (lo hi : ℕ) (bs : List Bucket) → Chain lo hi bs → lo ≤ hi
Chain-le lo hi [] h = h
Chain-le lo hi (b ∷ bs) h = omega (arith, Chain-le (suc b.id) hi bs h.2)

pub Chain-down : (lo lo' hi : ℕ) (bs : List Bucket) → lo' ≤ lo → Chain lo hi bs → Chain lo' hi bs
Chain-down lo lo' hi [] p h = omega arith
Chain-down lo lo' hi (b ∷ bs) p h = (h.0, omega arith, h.2)

pub Chain-up : (lo hi hi' : ℕ) (bs : List Bucket) → hi ≤ hi' → Chain lo hi bs → Chain lo hi' bs
Chain-up lo hi hi' [] p h = omega arith
Chain-up lo hi hi' (b ∷ bs) p h = (h.0, h.1, Chain-up (suc b.id) hi hi' bs p h.2)

-- A new bucket goes behind all others.
pub Chain-snoc :
    (lo hi : ℕ) (bs : List Bucket) (b : Bucket)
    → Chain lo hi bs
    → b.id ≡ hi
    → IsBucket b
    → Chain lo (hi + 1) (bs ++ b ∷ [])
Chain-snoc lo hi [] b h e v = (v, omega arith, omega arith)
Chain-snoc lo hi (c ∷ bs) b h e v = (h.0, h.1, Chain-snoc (suc c.id) hi bs b h.2 e v)

-- A pointer that finds a bucket finds a well-formed one, at that address.
pub find_bucket_sound :
    (lo hi p : ℕ) (bs : List Bucket) (b : Bucket)
    → Chain lo hi bs
    → find_bucket p bs ≡ some b
    → IsBucket b × (b.id ≡ p) × (lo ≤ p) × (p < hi)
unfolding find_bucket
find_bucket_sound lo hi p [] b h e = ground arith
find_bucket_sound lo hi p (c ∷ bs) b h e =
    ground (arith, find_bucket_sound (suc c.id) hi p bs b, Chain-le (suc c.id) hi bs)

pub put_bucket-Chain :
    (lo hi : ℕ) (bs : List Bucket) (c : Bucket)
    → IsBucket c
    → Chain lo hi bs
    → Chain lo hi (put_bucket c bs)
unfolding put_bucket
put_bucket-Chain lo hi [] c v h = h
put_bucket-Chain lo hi (b ∷ bs) c v h = ground (arith, put_bucket-Chain (suc b.id) hi bs c)

pub delete_bucket-Chain :
    (lo hi p : ℕ) (bs : List Bucket) → Chain lo hi bs → Chain lo hi (delete_bucket p bs)
unfolding delete_bucket
delete_bucket-Chain lo hi p [] h = h
delete_bucket-Chain lo hi p (b ∷ bs) h =
    ground (arith, delete_bucket-Chain (suc b.id) hi p bs, Chain-down (suc b.id) lo hi bs)

-- The bucket behind another has a higher address.
pub next_bucket_above :
    (lo hi p q : ℕ) (bs : List Bucket)
    → Chain lo hi bs
    → next_bucket p bs ≡ some q
    → (p < q) × (q < hi)
unfolding next_bucket
next_bucket_above lo hi p q [] h e = ground arith
next_bucket_above lo hi p q (b ∷ []) h e = ground arith
next_bucket_above lo hi p q (b ∷ c ∷ bs) h e =
    ground (arith, next_bucket_above (suc b.id) hi p q (c ∷ bs), Chain-le (suc c.id) hi bs)

-- The buckets after an edit that keeps each address and its buffer.
pub map-Chain :
    (f : Bucket → Bucket) (lo hi : ℕ) (bs : List Bucket)
    → ((b : Bucket) → ((f b).id ≡ b.id) × (IsBucket b → IsBucket (f b)))
    → Chain lo hi bs
    → Chain lo hi (map f bs)
map-Chain f lo hi [] keep h = h
map-Chain f lo hi (b ∷ bs) keep h =
    let rest = map-Chain f (suc b.id) hi bs keep h.2 in
    ((keep b).1 h.0, omega (arith, keep b), rw ((keep b).0) rest)

pub find_context_limited :
    (f : ℕ) (cs : List Fcontext) (c : Fcontext)
    → WithinLimit cs
    → find_context f cs ≡ some c
    → c.totalwritten ≤ max_write_len
unfolding find_context
find_context_limited f [] c h e = ground arith
find_context_limited f (d ∷ cs) c h e = ground (arith, find_context_limited f cs c)

pub put_context-WithinLimit :
    (c : Fcontext) (cs : List Fcontext)
    → c.totalwritten ≤ max_write_len
    → WithinLimit cs
    → WithinLimit (put_context c cs)
unfolding put_context
put_context-WithinLimit c [] p h = tt
put_context-WithinLimit c (d ∷ cs) p h = ground (arith, put_context-WithinLimit c cs)

pub delete_context-WithinLimit :
    (f : ℕ) (cs : List Fcontext) → WithinLimit cs → WithinLimit (delete_context f cs)
unfolding delete_context
delete_context-WithinLimit f [] h = tt
delete_context-WithinLimit f (c ∷ cs) h = ground (arith, delete_context-WithinLimit f cs)

pub find_context_file :
    (f : ℕ) (cs : List Fcontext) (c : Fcontext) → find_context f cs ≡ some c → c.file ≡ f
unfolding find_context
find_context_file f [] c e = ground arith
find_context_file f (d ∷ cs) c e = ground (arith, find_context_file f cs c)
