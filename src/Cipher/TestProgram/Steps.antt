-- ===== src/Cipher/TestProgram/Steps.antt =====
-- The calls that hw3/cipher/test.c makes, on a device that it has to itself.
use advanced_unix_ceng.Base.{ℕ, ◌+◌, ◌≤◌, ◌≡◌, refl, List, [], ◌∷◌, map, some, Bool, true, arith}
use advanced_unix_ceng.Base.Int.{pos, ◌-ℤ◌}
use advanced_unix_ceng.Cipher.Device.{
  Bucket, CipherDev, Fcontext, value, writer, find_context, put_context, count_readers,
}
use advanced_unix_ceng.Cipher.File.{
  open_mode, hold, start_context, cipher_open, release_buckets, cipher_release,
}
use advanced_unix_ceng.Cipher.Ioctl.{UserArg, query_remaining, query_command}
use advanced_unix_ceng.Cipher.Loop.{Outcome, done, fault, out_of_fuel}
use advanced_unix_ceng.Cipher.Loop.Rule.{Settles}
use advanced_unix_ceng.Cipher.TestProgram.{◌>>=◌}

-- A chain of calls that return.
pub >>=-Settles :
    {A B : Type 0} (P : A → Type 0) (Q : B → Type 0) (o : Outcome A) (f : A → Outcome B)
    → Settles ⊥ P o
    → ((a : A) → P a → Settles ⊥ Q (f a))
    → Settles ⊥ Q (o >>= f)
>>=-Settles P Q (done a) f h k = k a h
>>=-Settles P Q fault f h k = absurd h
>>=-Settles P Q out_of_fuel f h k = absurd h

abbrev pub writer_opened : CipherDev → ℕ → CipherDev
writer_opened dev f = record dev {
  buckets = map hold dev.buckets;
  contexes = start_context dev f writer ∷ dev.contexes;
  allocs = dev.allocs + 1;
}

pub open_writer :
    (kmalloc : ℕ → Bool) (dev : CipherDev) (f : ℕ)
    → kmalloc dev.allocs ≡ true
    → cipher_open kmalloc dev f 1 ≡ (writer_opened dev f, value 0)
unfolding cipher_open open_mode
open_writer kmalloc dev f e = rw e

pub open_reply :
    (kmalloc : ℕ → Bool) (dev : CipherDev) (f : ℕ)
    → kmalloc dev.allocs ≡ true
    → (cipher_open kmalloc dev f 0).1 ≡ value 0
unfolding cipher_open open_mode
open_reply kmalloc dev f e = rw e

pub start_context-file : (dev : CipherDev) (f : ℕ) → (start_context dev f writer).file ≡ f
unfolding start_context
start_context-file dev f = ground arith

pub start_context-mode : (dev : CipherDev) (f : ℕ) → (start_context dev f writer).mode ≡ writer
unfolding start_context
start_context-mode dev f = ground arith

-- The device with the program's file alone, before its first write.
pub record IsAlone (dev : CipherDev) (c : Fcontext) : Type 0 where
  pub alone : dev.contexes ≡ c ∷ []
  pub number : c.file ≡ 1
  pub writes : c.mode ≡ writer
  pub unwritten : c.totalwritten ≡ 0

pub put_alone :
    (c x : Fcontext) (cs : List Fcontext)
    → cs ≡ c ∷ []
    → c.file ≡ x.file
    → put_context x cs ≡ x ∷ []
unfolding put_context
put_alone c x cs e same = rw e (ground (arith, same))

pub count_readers-alone :
    (c : Fcontext) (cs : List Fcontext) → cs ≡ c ∷ [] → c.mode ≡ writer → count_readers cs ≡ 0
unfolding count_readers
count_readers-alone c cs e w = rw e (ground (arith, w))

pub release_buckets-alone :
    (b : Bucket) (bs : List Bucket) → bs ≡ b ∷ [] → b.refcount ≡ pos 1 → release_buckets bs ≡ []
unfolding release_buckets ◌-ℤ◌
release_buckets-alone b bs e one = rw e (ground (arith, one))

pub query_writer :
    (dev : CipherDev) (c : Fcontext) (arg : UserArg)
    → c.mode ≡ writer
    → c.totalwritten ≡ 15
    → 4 ≤ arg.room
    → query_command dev c arg ≡ done (dev, value 0, some 8177)
unfolding query_command query_remaining
query_writer dev c arg w t room = ground (arith, w, t, room)

pub release_open :
    (dev : CipherDev) (f : ℕ) (c : Fcontext)
    → find_context f dev.contexes ≡ some c
    → (cipher_release dev f).0.buckets ≡ release_buckets dev.buckets
unfolding cipher_release
release_open dev f c here = rw (here, cipher_release) refl
