-- ===== src/Cipher/System/Close.antt =====
-- What is left on a device when its only writer closes its file.
use advanced_unix_ceng.Base.{ℕ, ◌≡◌, ◌<◌, ◌^◌, refl, List, [], ◌∷◌, some, Bool, true, arith}
use advanced_unix_ceng.Base.Int.{◌-ℤ◌}
use advanced_unix_ceng.Cipher.Device.{Bucket, Fcontext, CipherDev, find_context}
use advanced_unix_ceng.Cipher.Device.Valid.{IsValid}
use advanced_unix_ceng.Cipher.File.{release_buckets, cipher_release}
use advanced_unix_ceng.Cipher.Loop.Rule.{Settles, Settles-and, Settles-map}
use advanced_unix_ceng.Cipher.Write.{cipher_write}
use advanced_unix_ceng.Cipher.Write.Limit.{WroteWithin, cipher_write-WroteWithin}
use advanced_unix_ceng.Cipher.Write.Sole.{Sole}
use advanced_unix_ceng.Cipher.Write.SoleLoop.{StandsSole, cipher_write-Sole}

-- All buckets but the last.
unfoldable pub drop_last : List Bucket → List Bucket
drop_last [] = []
drop_last (b ∷ []) = []
drop_last (b ∷ c ∷ bs) = b ∷ drop_last (c ∷ bs)

release_buckets-Sole : (bs : List Bucket) → Sole bs → release_buckets bs ≡ drop_last bs
unfolding release_buckets drop_last ◌-ℤ◌
release_buckets-Sole [] h = refl
release_buckets-Sole (b ∷ []) h = ground arith
release_buckets-Sole (b ∷ c ∷ bs) h = ground (arith, release_buckets-Sole (c ∷ bs))

release-Sole :
    (dev : CipherDev) (f : ℕ) (c : Fcontext)
    → find_context f dev.contexes ≡ some c
    → Sole dev.buckets
    → (cipher_release dev f).0.buckets ≡ drop_last dev.buckets
unfolding cipher_release
release-Sole dev f c e h = rw (e, cipher_release) (release_buckets-Sole dev.buckets h)

-- The last bucket is lost. On a well-formed device with no reader open, let the buckets be as a
-- sole writer leaves them: the last one is held once, and every bucket before it is full and held
-- by nobody. If every allocation succeeds, let a file write that has no bucket yet, on a device
-- that holds none, or that stands at the last bucket. Where the write returns, closing the file
-- frees the last bucket, with all bytes in it, and keeps exactly the others.
pub write-release-drop_last :
    (kmalloc : ℕ → Bool) (dev : CipherDev) (f : ℕ) (buf : List ℕ) (count : ℕ) (c : Fcontext)
    → ((n : ℕ) → kmalloc n ≡ true)
    → IsValid dev
    → find_context f dev.contexes ≡ some c
    → StandsSole c dev
    → count < 2 ^ 63
    → Settles Unit
        (λ r. (cipher_release r.0 f).0.buckets ≡ drop_last r.0.buckets)
        (cipher_write kmalloc dev f buf count)
write-release-drop_last kmalloc dev f buf count c always v here h small =
    Settles-map Unit (λ r. WroteWithin f count c r × Sole r.0.buckets) _
      (cipher_write kmalloc dev f buf count) (λ r w. release-Sole r.0 f w.0.1.0 w.0.1.1 w.1)
      (Settles-and Unit (WroteWithin f count c) (λ r. Sole r.0.buckets) _
        (cipher_write-WroteWithin kmalloc dev f buf count c v here small)
        (cipher_write-Sole kmalloc dev f buf count c always v here h small))
