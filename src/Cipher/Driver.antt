-- ===== src/Cipher/Driver.antt =====
-- cipher_init_module of hw3/cipher/cipher.c. The registration of the
-- character devices is the kernel's: its result is an argument.
use advanced_unix_ceng.Base.{ℕ, List, [], Bool, if◌then◌else◌, length, replicate}
use advanced_unix_ceng.Base.Int.{ℤ, pos, ltb_ℤ}
use advanced_unix_ceng.Cipher.Device.{CipherDev}
use advanced_unix_ceng.Cipher.Ioctl.{default_cipher, padded}

-- A device as the loop of cipher_init_module leaves it.
abbrev pub init_device : CipherDev
init_device = record {
  buckets = [];
  keyfirst = 0;
  keylast = 0;
  contexes = [];
  cipher = padded default_cipher;
  cipherlen = length default_cipher;
  allocs = 0;
}

pub data Loaded : Type 0 where
  loaded : List CipherDev → Loaded
  no_region : ℤ → Loaded
  no_memory : Loaded

-- `result` is that of alloc_chrdev_region, `kmalloc` tells whether the array can be allocated.
unfoldable pub cipher_init_module : ℤ → Bool → ℕ → Loaded
cipher_init_module result kmalloc nr_devs =
    if ltb_ℤ result (pos 0)
    then no_region result
    else if kmalloc
    then loaded (replicate nr_devs init_device)
    else no_memory
