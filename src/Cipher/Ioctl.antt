-- ===== src/Cipher/Ioctl.antt =====
-- cipher_ioctl and cipher_free_buckets of hw3/cipher/cipher.c, with the commands of
-- hw3/cipher/cipher.h.
pub mod Safety
pub mod Commands
use advanced_unix_ceng.Base.{
  ℕ, ◌+◌, ◌-◌, ◌%◌, ◌^◌, ◌<◌, ◌≡◌, List, [], ◌∷◌, ◌++◌, map, Option, none, some, Bool, false, not,
  if◌then◌else◌, ◌==◌, ltb, length, take, replicate,
}
use advanced_unix_ceng.Cipher.Device.{
  Bucket, reader, writer, Fcontext, CipherDev, Errno, Reply, value, fail, efault, enotty,
  max_write_len, find_context,
}
use advanced_unix_ceng.Cipher.Loop.{Outcome, done, fault}
use Prim.Native.Nat.{bit_and}

-- The macros of <linux/ioctl.h>, which the driver only calls: `_IOC` builds a command from its
-- direction, type, number and size, and the others take it apart again.
pub record Ioc : Type 0 where
  pub ioc : ℕ → ℕ → ℕ → ℕ → ℕ
  pub ioc_dir : ℕ → ℕ
  pub ioc_type : ℕ → ℕ
  pub ioc_nr : ℕ → ℕ
  pub ioc_size : ℕ → ℕ
  pub dir_lem : (d t n s : ℕ) → d < 4 → t < 256 → n < 256 → s < 16384 → ioc_dir (ioc d t n s) ≡ d
  pub type_lem : (d t n s : ℕ) → d < 4 → t < 256 → n < 256 → s < 16384 → ioc_type (ioc d t n s) ≡ t
  pub nr_lem : (d t n s : ℕ) → d < 4 → t < 256 → n < 256 → s < 16384 → ioc_nr (ioc d t n s) ≡ n
  pub size_lem : (d t n s : ℕ) → d < 4 → t < 256 → n < 256 → s < 16384 → ioc_size (ioc d t n s) ≡ s

abbrev pub cipher_ioc_magic : ℕ
cipher_ioc_magic = 222

abbrev pub cipher_ioc_maxnr : ℕ
cipher_ioc_maxnr = 2

-- `_IO`, `_IOW` with a `char`, and `_IOR` with an `int`
module _ (m : Ioc) where
  abbrev pub cipher_iocclr : ℕ
  cipher_iocclr = m.ioc 0 cipher_ioc_magic 0 0

  abbrev pub cipher_iocskey : ℕ
  cipher_iocskey = m.ioc 1 cipher_ioc_magic 1 1

  abbrev pub cipher_iocqrem : ℕ
  cipher_iocqrem = m.ioc 2 cipher_ioc_magic 2 4

-- The user's pointer `arg`: whether `access_ok` accepts it for a size, the bytes that can be read
-- there, and how many can be written.
pub record UserArg : Type 0 where
  pub access_ok : ℕ → Bool
  pub bytes : List ℕ
  pub room : ℕ

-- "CENG536 IS THE BEST!!!!!"
abbrev pub default_cipher : List ℕ
default_cipher =
    67 ∷ 69 ∷ 78 ∷ 71 ∷ 53 ∷ 51 ∷ 54 ∷ 32 ∷ 73 ∷ 83 ∷ 32 ∷ 84 ∷ 72 ∷ 69 ∷ 32 ∷ 66 ∷ 69 ∷ 83 ∷ 84
    ∷ 33 ∷ 33 ∷ 33 ∷ 33 ∷ 33 ∷ []

-- The bytes of a C string before its NUL.
unfoldable pub c_string : List ℕ → List ℕ
c_string [] = []
c_string (x ∷ xs) = if x == 0 then [] else x ∷ c_string xs

-- `memset(cipher, 0, 4096)` and a copy of `s` to its start
abbrev pub padded : List ℕ → List ℕ
padded s = s ++ replicate (4096 - length s) 0

abbrev pub set_key : List ℕ → CipherDev → CipherDev
set_key s dev = record dev { cipher = padded s; cipherlen = length s }

unfoldable pub cipher_free_buckets : CipherDev → CipherDev
cipher_free_buckets dev = record dev { buckets = [] }

abbrev pub reset_context : Fcontext → Fcontext
reset_context c = record c { next = none; off = 0; keyoff = 0; totalwritten = 0 }

-- What CIPHER_IOCCLR and CIPHER_IOCSKEY do under the mutex.
unfoldable pub reset_device : List ℕ → CipherDev → CipherDev
reset_device key dev = record (set_key key (cipher_free_buckets dev)) {
  keyfirst = 0;
  keylast = 0;
  contexes = map reset_context dev.contexes;
}

-- The buckets from an address on, as the walk along `bucketlist.next` meets them.
unfoldable pub buckets_from : ℕ → List Bucket → List Bucket
buckets_from p [] = []
buckets_from p (b ∷ bs) = if b.id == p then b ∷ bs else buckets_from p bs

-- The loop of CIPHER_IOCQREM, before `val` wraps; `remain` counts where it is positive.
unfoldable pub remaining : ℕ → List Bucket → ℕ
remaining off [] = 0
remaining off (b ∷ bs) = (b.end - off) + remaining 0 bs

-- `val`, as the bit pattern of an `int`, whose sums wrap; `none` for a walk that starts at a freed
-- bucket.
unfoldable pub query_remaining : CipherDev → Fcontext → Option ℕ
query_remaining dev context = elim context.mode [
  | reader ↦ elim context.next [
    | none ↦ some 0
    | some p ↦ elim (buckets_from p dev.buckets) [
      | [] ↦ none
      | b ∷ bs ↦ some (remaining context.off (b ∷ bs) % 2 ^ 32)
    ]
  ]
  | writer ↦
      some
        (if ltb context.totalwritten max_write_len then max_write_len - context.totalwritten else 0)
]

-- The device, the reply, and the `int` copied to the user.
abbrev pub Answer : Type 0
Answer = Outcome (CipherDev × Reply × Option ℕ)

unfoldable pub query_command : CipherDev → Fcontext → UserArg → Answer
query_command dev context arg = elim (query_remaining dev context) [
  | none ↦ fault
  | some val ↦
      if ltb arg.room 4 then done (dev, fail efault, none) else done (dev, value 0, some val)
]

-- `strncpy(dev->cipher, kbuf, 4095)` after a copy of 4096 bytes
unfoldable pub key_command : CipherDev → UserArg → Answer
key_command dev arg =
    if ltb (length arg.bytes) 4096
    then done (dev, fail efault, none)
    else done (reset_device (c_string (take 4095 arg.bytes)) dev, value 0, none)

-- `err`: the direction's bits are tested with `&`.
unfoldable pub access_error : Ioc → ℕ → UserArg → Bool
access_error m cmd arg =
    if not (bit_and (m.ioc_dir cmd) 2 == 0)
    then not (arg.access_ok (m.ioc_size cmd))
    else if not (bit_and (m.ioc_dir cmd) 1 == 0)
    then not (arg.access_ok (m.ioc_size cmd))
    else false

unfoldable pub switch_command : Ioc → CipherDev → Fcontext → ℕ → UserArg → Answer
switch_command m dev context cmd arg =
    if cmd == cipher_iocclr m
    then done (reset_device default_cipher dev, value 0, none)
    else if cmd == cipher_iocskey m
    then key_command dev arg
    else if cmd == cipher_iocqrem m
    then query_command dev context arg
    else done (dev, fail enotty, none)

-- `if (test) return -e;`
unfoldable pub reject_if : Bool → CipherDev → Errno → Answer → Answer
reject_if test dev e rest = if test then done (dev, fail e, none) else rest

unfoldable pub cipher_ioctl : Ioc → CipherDev → ℕ → ℕ → UserArg → Answer
cipher_ioctl m dev f cmd arg = elim (find_context f dev.contexes) [
  | none ↦ fault
  | some context ↦ reject_if (not (m.ioc_type cmd == cipher_ioc_magic)) dev enotty (
      reject_if (ltb cipher_ioc_maxnr (m.ioc_nr cmd)) dev enotty
        (reject_if (access_error m cmd arg) dev efault (switch_command m dev context cmd arg)))
]
