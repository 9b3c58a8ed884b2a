-- ===== src/Cipher/System.antt =====
-- The calls that processes make on one device of hw3/cipher/cipher.c, in any order: each step is a
-- whole file operation, as the device's mutex makes it.
pub mod Reader
pub mod RoundTrip
pub mod Files
pub mod Stuck
pub mod NewKey
pub mod Close
pub mod Crash
pub mod Samples
mod Tests
mod ReaderTests
mod KeyTests
use advanced_unix_ceng.Base.{ℕ, ◌^◌, ◌≡◌, ◌<◌, List, Option, none, some, Bool, refl, arith}
use advanced_unix_ceng.Cipher.Device.{CipherDev, Reply, Fcontext, find_context}
use advanced_unix_ceng.Cipher.Device.Valid.{IsValid}
use advanced_unix_ceng.Cipher.Driver.{init_device}
use advanced_unix_ceng.Cipher.File.{cipher_open, cipher_release}
use advanced_unix_ceng.Cipher.File.Safety.{cipher_open-IsValid, cipher_release-IsValid}
use advanced_unix_ceng.Cipher.Ioctl.{Ioc, UserArg, cipher_ioctl}
use advanced_unix_ceng.Cipher.Ioctl.Safety.{cipher_ioctl-IsValid}
use advanced_unix_ceng.Cipher.Loop.{done}
use advanced_unix_ceng.Cipher.Loop.Rule.{settled}
use advanced_unix_ceng.Cipher.Read.{cipher_read}
use advanced_unix_ceng.Cipher.Read.Safety.{cipher_read-IsValid}
use advanced_unix_ceng.Cipher.Write.{cipher_write}
use advanced_unix_ceng.Cipher.Write.Limit.{WroteWithin, cipher_write-WroteWithin}

init_device-IsValid : IsValid init_device
init_device-IsValid = record {
  chain = omega arith;
  key_length = refl;
  key_ends = omega arith;
  limited = tt;
}

module _ (m : Ioc) (kmalloc : ℕ → Bool) where
  -- A step is a call that returns. The kernel opens a new file each time, passes on no call for a
  -- file that is not open, and no count of 2^63 or more.
  pub data Step (d d' : CipherDev) : Type 0 where
    opened :
        (f flags : ℕ)
        → find_context f d.contexes ≡ none
        → d' ≡ (cipher_open kmalloc d f flags).0
        → Step d d'
    released : (f : ℕ) → d' ≡ (cipher_release d f).0 → Step d d'
    did_read :
        (f count room : ℕ) (r : Reply) (out : List ℕ)
        → cipher_read d f count room ≡ done (d', r, out)
        → Step d d'
    wrote :
        (f : ℕ) (buf : List ℕ) (count : ℕ) (c : Fcontext) (r : Reply)
        → find_context f d.contexes ≡ some c
        → count < 2 ^ 63
        → cipher_write kmalloc d f buf count ≡ done (d', r)
        → Step d d'
    controlled :
        (f cmd : ℕ) (arg : UserArg) (r : Reply) (val : Option ℕ)
        → cipher_ioctl m d f cmd arg ≡ done (d', r, val)
        → Step d d'

  pub data Reach : CipherDev → Type 0 where
    start : Reach init_device
    next : {d d' : CipherDev} → Reach d → Step d d' → Reach d'

  -- Every step keeps the device well formed.
  pub Step-IsValid : {d d' : CipherDev} → Step d d' → IsValid d → IsValid d'
  Step-IsValid {d} (opened f flags new e) v = rw e (cipher_open-IsValid kmalloc d f flags v)
  Step-IsValid {d} (released f e) v = rw e (cipher_release-IsValid d f v)
  Step-IsValid {d} (did_read f count room r out e) v =
      settled (λ a. IsValid a.0) _ _ (cipher_read-IsValid d f count room v) e
  Step-IsValid {d} (wrote f buf count c r here small e) v =
      (settled (WroteWithin f count c) _ _
        (cipher_write-WroteWithin kmalloc d f buf count c v here small) e).0
  Step-IsValid {d} (controlled f cmd arg r val e) v =
      settled (λ a. IsValid a.0) _ _ (cipher_ioctl-IsValid m d f cmd arg v) e

  -- From a device as the module sets it up, every sequence of calls that return, each open with a
  -- file that is not open yet and each write on an open file with a count below 2^63, leads to a
  -- well-formed device: buckets in the order of their allocation, none with more than 256 bytes,
  -- no open file with more than 8192 bytes written, and a key shorter than its array.
  pub Reach-IsValid : {d : CipherDev} → Reach d → IsValid d
  Reach-IsValid start = init_device-IsValid
  Reach-IsValid (next r s) = Step-IsValid s (Reach-IsValid r)
