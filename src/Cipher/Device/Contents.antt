-- ===== src/Cipher/Device/Contents.antt =====
-- What a device stores: the bytes of its buckets in order.
use advanced_unix_ceng.Base.{
  ℕ, suc, ◌≤◌, ◌<◌, ◌≡◌, refl, List, [], ◌∷◌, ◌++◌, Option, none, some, ◌⊎◌, arith, take,
  append_assoc, append-nil,
}
use advanced_unix_ceng.Cipher.Device.{Bucket, find_bucket, put_bucket, last_bucket}
use advanced_unix_ceng.Cipher.Device.Valid.{Chain}

abbrev pub bytes : Bucket → List ℕ
bytes b = take b.end b.buffer

unfoldable pub contents : List Bucket → List ℕ
contents [] = []
contents (b ∷ bs) = bytes b ++ contents bs

-- A pointer that is NULL or to the last bucket: what is written through it goes to the end.
abbrev pub AtTail : Option ℕ → List Bucket → Type 0
AtTail next bs = (next ≡ none) ⊎ ((b : Bucket) × (last_bucket bs ≡ some b) × (next ≡ some b.id))

pub contents-snoc :
    (bs : List Bucket) (b : Bucket) → contents (bs ++ b ∷ []) ≡ contents bs ++ bytes b
unfolding contents
contents-snoc [] b = append-nil (bytes b)
contents-snoc (c ∷ bs) b = rw (contents-snoc bs b, append_assoc (bytes c))

pub last_bucket-snoc : (bs : List Bucket) (b : Bucket) → last_bucket (bs ++ b ∷ []) ≡ some b
unfolding last_bucket
last_bucket-snoc [] b = refl
last_bucket-snoc (c ∷ []) b = refl
last_bucket-snoc (c ∷ d ∷ bs) b = last_bucket-snoc (d ∷ bs) b

pub last_bucket_above :
    (lo hi : ℕ) (bs : List Bucket) (b : Bucket)
    → Chain lo hi bs
    → last_bucket bs ≡ some b
    → (lo ≤ b.id) × (b.id < hi)
unfolding last_bucket
last_bucket_above lo hi [] b h e = ground arith
last_bucket_above lo hi (c ∷ []) b h e = ground arith
last_bucket_above lo hi (c ∷ d ∷ bs) b h e =
    omega (arith, last_bucket_above (suc c.id) hi (d ∷ bs) b h.2 e)

pub find_last :
    (lo hi : ℕ) (bs : List Bucket) (b : Bucket)
    → Chain lo hi bs
    → last_bucket bs ≡ some b
    → find_bucket b.id bs ≡ some b
unfolding last_bucket find_bucket
find_last lo hi [] b h e = ground arith
find_last lo hi (c ∷ []) b h e = ground arith
find_last lo hi (c ∷ d ∷ bs) b h e =
    ground (arith, find_last (suc c.id) hi (d ∷ bs) b, last_bucket_above (suc c.id) hi (d ∷ bs) b)

-- Adding bytes to the last bucket adds them to the contents.
pub contents-put_last :
    (lo hi : ℕ) (bs : List Bucket) (b c : Bucket) (ys : List ℕ)
    → Chain lo hi bs
    → last_bucket bs ≡ some b
    → c.id ≡ b.id
    → bytes c ≡ bytes b ++ ys
    → contents (put_bucket c bs) ≡ contents bs ++ ys
unfolding last_bucket put_bucket contents
contents-put_last lo hi [] b c ys h e i w = ground arith
contents-put_last lo hi (d ∷ []) b c ys h e i w =
    ground (arith, append-nil (bytes c), append-nil (bytes d))
contents-put_last lo hi (d ∷ x ∷ bs) b c ys h e i w = ground (
  arith,
  last_bucket_above (suc d.id) hi (x ∷ bs) b,
  contents-put_last (suc d.id) hi (x ∷ bs) b c ys,
  append_assoc (bytes d) (contents (x ∷ bs)) ys,
)

pub last_bucket-put_last :
    (lo hi : ℕ) (bs : List Bucket) (b c : Bucket)
    → Chain lo hi bs
    → last_bucket bs ≡ some b
    → c.id ≡ b.id
    → last_bucket (put_bucket c bs) ≡ some c
unfolding last_bucket put_bucket
last_bucket-put_last lo hi [] b c h e i = ground arith
last_bucket-put_last lo hi (d ∷ []) b c h e i = ground arith
last_bucket-put_last lo hi (d ∷ x ∷ []) b c h e i = ground arith
last_bucket-put_last lo hi (d ∷ x ∷ y ∷ bs) b c h e i = ground (
  arith,
  last_bucket_above (suc d.id) hi (x ∷ y ∷ bs) b,
  last_bucket_above (suc x.id) hi (y ∷ bs) b,
  last_bucket-put_last (suc d.id) hi (x ∷ y ∷ bs) b c,
)
