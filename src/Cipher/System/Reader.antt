-- ===== src/Cipher/System/Reader.antt =====
-- A file that cipher_open has opened for reading.
use advanced_unix_ceng.Base.{ℕ, ◌+◌, ◌≡◌, List, ◌∷◌, map, some, Bool, true, arith}
use advanced_unix_ceng.Cipher.Device.{Bucket, CipherDev, Fcontext, reader, find_context}
use advanced_unix_ceng.Cipher.File.{hold, open_mode, start_context, cipher_open}

-- The reader after cipher_open.
pub open_reader :
    (kmalloc : ℕ → Bool) (dev : CipherDev) (f : ℕ)
    → kmalloc dev.allocs ≡ true
    → (cipher_open kmalloc dev f 0).0 ≡ record dev {
      buckets = map hold dev.buckets;
      contexes = start_context dev f reader ∷ dev.contexes;
      allocs = dev.allocs + 1;
    }
unfolding cipher_open open_mode
open_reader kmalloc dev f e = rw e

pub find_newest :
    (f : ℕ) (x : Fcontext) (cs : List Fcontext) → x.file ≡ f → find_context f (x ∷ cs) ≡ some x
unfolding find_context
find_newest f x cs e = ground arith

-- The context that cipher_open makes for a reader of a device that is not empty.
abbrev pub at_head : CipherDev → ℕ → Bucket → Fcontext
at_head dev f b = record {
  file = f;
  next = some b.id;
  off = 0;
  keyoff = dev.keyfirst;
  mode = reader;
  totalwritten = 0;
}

pub start_at_head :
    (dev : CipherDev) (f : ℕ) (b : Bucket) (bs : List Bucket)
    → dev.buckets ≡ b ∷ bs
    → start_context dev f reader ≡ at_head dev f b
unfolding start_context
start_at_head dev f b bs e = rw (e, start_context)
