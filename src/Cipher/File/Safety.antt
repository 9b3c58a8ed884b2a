-- ===== src/Cipher/File/Safety.antt =====
-- cipher_open and cipher_release keep the device well formed.
use advanced_unix_ceng.Base.{ℕ, suc, ◌+◌, ◌≡◌, refl, List, [], ◌∷◌, map, Bool, arith}
use advanced_unix_ceng.Cipher.Device.{Bucket, Mode, reader, writer, CipherDev}
use advanced_unix_ceng.Cipher.Device.Valid.{
  Chain, Chain-up, Chain-down, IsValid, map-Chain, delete_context-WithinLimit,
}
use advanced_unix_ceng.Cipher.File.{
  hold, start_context, cipher_open, release_buckets, cipher_release,
}

totalwritten-start_context :
    (dev : CipherDev) (f : ℕ) (m : Mode) → (start_context dev f m).totalwritten ≡ 0
unfolding start_context
totalwritten-start_context dev f reader = ground arith
totalwritten-start_context dev f writer = ground arith

-- cipher_open keeps the device well formed, whatever it replies.
pub cipher_open-IsValid :
    (kmalloc : ℕ → Bool) (dev : CipherDev) (f flags : ℕ)
    → IsValid dev
    → IsValid (cipher_open kmalloc dev f flags).0
unfolding cipher_open
cipher_open-IsValid kmalloc dev f flags v = ground (
  arith,
  totalwritten-start_context dev f reader,
  totalwritten-start_context dev f writer,
  Chain-up 0 dev.allocs (dev.allocs + 1) dev.buckets,
  Chain-up 0 dev.allocs (dev.allocs + 1) (map hold dev.buckets),
  map-Chain hold 0 dev.allocs dev.buckets (λ b. (refl, λ h. omega arith)) v.chain,
)

release_buckets-Chain :
    (lo hi : ℕ) (bs : List Bucket) → Chain lo hi bs → Chain lo hi (release_buckets bs)
unfolding release_buckets
release_buckets-Chain lo hi [] h = h
release_buckets-Chain lo hi (b ∷ bs) h =
    let rest = release_buckets-Chain (suc b.id) hi bs h.2 in
    ground (arith, rest, Chain-down (suc b.id) lo hi (release_buckets bs))

-- cipher_release keeps the device well formed.
pub cipher_release-IsValid :
    (dev : CipherDev) (f : ℕ) → IsValid dev → IsValid (cipher_release dev f).0
unfolding cipher_release
cipher_release-IsValid dev f v = ground (
  arith,
  release_buckets-Chain 0 dev.allocs dev.buckets,
  delete_context-WithinLimit f dev.contexes,
)
