-- ===== src/Cipher/Write/Sole.antt =====
-- The reference counts that a writer leaves while no reader is open: each bucket that it has filled
-- is given up but not freed, the last one is its own.
use advanced_unix_ceng.Base.{ℕ, suc, ◌≤◌, ◌≡◌, List, [], ◌∷◌, ◌++◌, some, arith}
use advanced_unix_ceng.Base.Int.{pos, ◌-ℤ◌}
use advanced_unix_ceng.Cipher.Device.{Bucket, bucket_size, put_bucket, last_bucket}
use advanced_unix_ceng.Cipher.Device.Contents.{last_bucket_above}
use advanced_unix_ceng.Cipher.Device.Valid.{Chain}

abbrev pub Sole : List Bucket → Type 0
Sole [] = Unit {0}
Sole (b ∷ []) = b.refcount ≡ pos 1
Sole (b ∷ c ∷ bs) = (b.refcount ≡ pos 0) × (b.end ≡ bucket_size) × Sole (c ∷ bs)

-- Filling the last bucket.
pub Sole-put_last :
    (lo hi : ℕ) (bs : List Bucket) (b c : Bucket)
    → Chain lo hi bs
    → last_bucket bs ≡ some b
    → c.id ≡ b.id
    → c.refcount ≡ b.refcount
    → Sole bs
    → Sole (put_bucket c bs)
unfolding last_bucket put_bucket
Sole-put_last lo hi [] b c h e i k s = ground arith
Sole-put_last lo hi (d ∷ []) b c h e i k s = ground arith
Sole-put_last lo hi (d ∷ x ∷ []) b c h e i k s = ground arith
Sole-put_last lo hi (d ∷ x ∷ y ∷ bs) b c h e i k s = ground (
  arith,
  last_bucket_above (suc d.id) hi (x ∷ y ∷ bs) b,
  last_bucket_above (suc x.id) hi (y ∷ bs) b,
  Sole-put_last (suc d.id) hi (x ∷ y ∷ bs) b c,
)

-- Giving up a full last bucket for a new one.
pub Sole-snoc :
    (lo hi : ℕ) (bs : List Bucket) (b new : Bucket)
    → Chain lo hi bs
    → last_bucket bs ≡ some b
    → bucket_size ≤ b.end
    → new.refcount ≡ pos 1
    → Sole bs
    → Sole (put_bucket (record b { refcount = b.refcount -ℤ pos 1 }) bs ++ new ∷ [])
unfolding last_bucket put_bucket ◌-ℤ◌
Sole-snoc lo hi [] b new h e f k s = k
Sole-snoc lo hi (d ∷ []) b new h e f k s = ground arith
Sole-snoc lo hi (d ∷ x ∷ []) b new h e f k s = ground arith
Sole-snoc lo hi (d ∷ x ∷ y ∷ bs) b new h e f k s = ground (
  arith,
  last_bucket_above (suc d.id) hi (x ∷ y ∷ bs) b,
  last_bucket_above (suc x.id) hi (y ∷ bs) b,
  Sole-snoc (suc d.id) hi (x ∷ y ∷ bs) b new,
)
