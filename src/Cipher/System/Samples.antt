-- ===== src/Cipher/System/Samples.antt =====
-- The parameters of hw3/cipher/cipher.c for runs on small inputs: the macros of <linux/ioctl.h> as
-- most machines have them, and a kmalloc that always succeeds.
use advanced_unix_ceng.Base.{ℕ, ◌+◌, ◌*◌, ◌/◌, ◌%◌, ◌<◌, ◌≡◌, Bool, true, arith}
use advanced_unix_ceng.Cipher.Ioctl.{Ioc}

-- The layout that Linux uses on most machines.
pub linux_dir :
    (d t n s : ℕ)
    → d < 4
    → t < 256
    → n < 256
    → s < 16384
    → (d * 1073741824 + s * 65536 + t * 256 + n) / 1073741824 ≡ d
linux_dir d t n s hd ht hn hs = omega arith

pub linux_type :
    (d t n s : ℕ)
    → d < 4
    → t < 256
    → n < 256
    → s < 16384
    → (d * 1073741824 + s * 65536 + t * 256 + n) / 256 % 256 ≡ t
linux_type d t n s hd ht hn hs = omega arith

pub linux_nr :
    (d t n s : ℕ)
    → d < 4
    → t < 256
    → n < 256
    → s < 16384
    → (d * 1073741824 + s * 65536 + t * 256 + n) % 256 ≡ n
linux_nr d t n s hd ht hn hs = omega arith

pub linux_size :
    (d t n s : ℕ)
    → d < 4
    → t < 256
    → n < 256
    → s < 16384
    → (d * 1073741824 + s * 65536 + t * 256 + n) / 65536 % 16384 ≡ s
linux_size d t n s hd ht hn hs = omega arith

abbrev pub linux : Ioc
linux = record {
  ioc = λ d t n s. d * 1073741824 + s * 65536 + t * 256 + n;
  ioc_dir = λ c. c / 1073741824;
  ioc_type = λ c. c / 256 % 256;
  ioc_nr = λ c. c % 256;
  ioc_size = λ c. c / 65536 % 16384;
  dir_lem = linux_dir;
  type_lem = linux_type;
  nr_lem = linux_nr;
  size_lem = linux_size;
}

abbrev pub roomy : ℕ → Bool
roomy n = true
