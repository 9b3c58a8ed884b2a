-- ===== src/Cipher/Read/Unread.antt =====
-- What a reader of the cipher device has still to read, as a list.
use advanced_unix_ceng.Base.{
  ℕ, suc, ◌≤◌, ◌≡◌, refl, ap, List, [], ◌∷◌, ◌++◌, Option, none, some, arith, length, drop,
  length-drop, length-take, length-append,
}
use advanced_unix_ceng.Base.Int.{pos, ◌≤ℤ◌}
use advanced_unix_ceng.Cipher.Device.{Bucket, find_bucket, put_bucket, next_bucket, first_id}
use advanced_unix_ceng.Cipher.Device.Contents.{bytes, contents}
use advanced_unix_ceng.Cipher.Device.Valid.{Chain, IsBucket}
use advanced_unix_ceng.Cipher.Ioctl.{buckets_from, remaining}

-- The bytes from offset `off` of the first bucket on.
abbrev pub stream : ℕ → List Bucket → List ℕ
stream off [] = []
stream off (b ∷ bs) = drop off (bytes b) ++ contents bs

abbrev pub unread : Option ℕ → ℕ → List Bucket → List ℕ
unread none off bs = []
unread (some p) off bs = stream off (buckets_from p bs)

-- Each of these buckets is held at least twice, so that leaving it does not free it.
abbrev pub Held : List Bucket → Type 0
Held [] = Unit {0}
Held (b ∷ bs) = (pos 2 ≤ℤ b.refcount) × Held bs

pub stream-zero : (bs : List Bucket) → stream 0 bs ≡ contents bs
unfolding contents
stream-zero [] = refl
stream-zero (b ∷ bs) = refl

-- The walk of CIPHER_IOCQREM counts the bytes of the stream.
pub remaining-stream :
    (lo hi off : ℕ) (bs : List Bucket) → Chain lo hi bs → remaining off bs ≡ length (stream off bs)
unfolding remaining contents
remaining-stream lo hi off [] h = refl
remaining-stream lo hi off (b ∷ bs) h = omega (
  arith,
  length-append (drop off (bytes b)) (contents bs),
  length-drop off (bytes b),
  length-take b.end b.buffer,
  remaining-stream (suc b.id) hi 0 bs h.2,
  ap length (stream-zero bs),
)

-- A walk that starts at `p` starts at the bucket that the pointer finds.
pub find-buckets_from :
    (p : ℕ) (bs : List Bucket) (b : Bucket) (r : List Bucket)
    → buckets_from p bs ≡ b ∷ r
    → find_bucket p bs ≡ some b
unfolding buckets_from find_bucket
find-buckets_from p [] b r e = ground arith
find-buckets_from p (c ∷ bs) b r e = ground (arith, find-buckets_from p bs b r)

pub Chain-buckets_from :
    (lo hi p : ℕ) (bs : List Bucket) (b : Bucket) (r : List Bucket)
    → Chain lo hi bs
    → buckets_from p bs ≡ b ∷ r
    → IsBucket b × (b.id ≡ p) × (lo ≤ p) × Chain (suc b.id) hi r
unfolding buckets_from
Chain-buckets_from lo hi p [] b r h e = ground arith
Chain-buckets_from lo hi p (c ∷ bs) b r h e =
    ground (arith, Chain-buckets_from (suc c.id) hi p bs b r)

-- Replacing the bucket at `p` by one with the same bytes changes no contents, and leaves what
-- follows it.
module _ (p : ℕ) (b c : Bucket) (r : List Bucket) (same : c.id ≡ p) where
  pub buckets_from-put :
      (lo hi : ℕ) (bs : List Bucket)
      → Chain lo hi bs
      → buckets_from p bs ≡ b ∷ r
      → buckets_from p (put_bucket c bs) ≡ c ∷ r
  unfolding buckets_from put_bucket
  buckets_from-put lo hi [] h e = ground arith
  buckets_from-put lo hi (d ∷ bs) h e = ground (arith, buckets_from-put (suc d.id) hi bs)

  pub next_bucket-put :
      (lo hi : ℕ) (bs : List Bucket)
      → Chain lo hi bs
      → buckets_from p bs ≡ b ∷ r
      → next_bucket p (put_bucket c bs) ≡ first_id r
  unfolding buckets_from put_bucket next_bucket
  next_bucket-put lo hi [] h e = ground arith
  next_bucket-put lo hi (d ∷ bs) h e = ground (arith, next_bucket-put (suc d.id) hi bs)

  pub contents-put :
      (lo hi : ℕ) (bs : List Bucket)
      → Chain lo hi bs
      → buckets_from p bs ≡ b ∷ r
      → bytes c ≡ bytes b
      → contents (put_bucket c bs) ≡ contents bs
  unfolding buckets_from put_bucket contents
  contents-put lo hi [] h e w = ground arith
  contents-put lo hi (d ∷ bs) h e w = ground (arith, contents-put (suc d.id) hi bs)

-- The bucket behind `p` is found again from its own address.
pub buckets_from-next :
    (lo hi p : ℕ) (bs : List Bucket) (b q : Bucket) (r : List Bucket)
    → Chain lo hi bs
    → buckets_from p bs ≡ b ∷ q ∷ r
    → buckets_from q.id bs ≡ q ∷ r
unfolding buckets_from
buckets_from-next lo hi p [] b q r h e = ground arith
buckets_from-next lo hi p (d ∷ bs) b q r h e = ground (
  arith,
  buckets_from-next (suc d.id) hi p bs b q r,
  Chain-buckets_from (suc d.id) hi p bs b (q ∷ r),
)
