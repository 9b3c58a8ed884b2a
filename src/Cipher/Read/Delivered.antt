-- ===== src/Cipher/Read/Delivered.antt =====
-- A whole cipher_read: what it returns, what it copies, and what CIPHER_IOCQREM says before it.
use advanced_unix_ceng.Base.{
  ℕ, ◌+◌, ◌^◌, ◌≤◌, ◌<◌, ◌≡◌, refl, ap, sym, ◌∙◌, inl, inr, List, [], ◌∷◌, ◌++◌, none, some, true,
  arith, Bool-cases, leb, length, ◌==◌, take, min, append-nil, length-take,
}
use mathlib.Core.Option.{some-injective}
use advanced_unix_ceng.Cipher.Device.{CipherDev, Fcontext, Reply, value, reader, find_context}
use advanced_unix_ceng.Cipher.Device.Contents.{contents}
use advanced_unix_ceng.Cipher.Device.Valid.{IsValid}
use advanced_unix_ceng.Cipher.Ioctl.{remaining, query_remaining}
use advanced_unix_ceng.Cipher.Key.Stream.{encrypt, HasKey, length-encrypt}
use advanced_unix_ceng.Cipher.Loop.{Outcome, done, fault, out_of_fuel}
use advanced_unix_ceng.Cipher.Loop.Rule.{Settles, Settles-map, Advances, loop-Settles}
use advanced_unix_ceng.Cipher.Read.{Reading, read_step, finish_read, cipher_read}
use advanced_unix_ceng.Cipher.Read.Decrypt.{
  Delivering, Delivered, Stands, due, leave_bucket-Delivering, copy_out-Delivering,
}
use advanced_unix_ceng.Cipher.Read.Safety.{
  read_step_at, read_measure, cipher_read-open, start-lt-read_fuel,
}
use advanced_unix_ceng.Cipher.Read.Unread.{
  unread, find-buckets_from, Chain-buckets_from, remaining-stream,
}

encrypt_none : (key : List ℕ) (len k : ℕ) (xs : List ℕ) → xs ≡ [] → encrypt key len k xs ≡ []
unfolding encrypt
encrypt_none key len k xs e = ap (encrypt key len k) e

take_none : (n : ℕ) (xs : List ℕ) → (n ≡ 0) → take n xs ≡ []
take_none n xs e = ap (λ m. take m xs) e

take_of_nil : (n : ℕ) → take {A = ℕ} n [] ≡ []
take_of_nil Prim.Native.Nat.zero = refl
take_of_nil (Prim.Native.Nat.suc n) = refl

module _ (goal stored : List ℕ) where
  stop-Delivered :
      (s : Reading)
      → Delivering goal stored s
      → due s ≡ []
      → Delivered goal stored s (value (length s.out))
  stop-Delivered s v e =
      let out : s.out ≡ goal = sym (append-nil s.out) ∙ ap (◌++◌ s.out) (sym e) ∙ v.ahead in
      record { reply = ap (λ xs. value (length xs)) out; out = out; keeps = v.keeps }

  due-done : (s : Reading) → (s.count == 0) ≡ true → due s ≡ []
  due-done s e = encrypt_none _ _ _ _ (take_none s.count _ (ground arith))

  due-end : (s : Reading) → s.context.next ≡ none → due s ≡ []
  due-end s e = encrypt_none _ _ _ _ (rw e (take_of_nil s.count))

  read_step-Delivering :
      (s : Reading)
      → Delivering goal stored s
      → Advances ⊥
          (Delivering goal stored)
          (Delivered goal stored)
          read_measure
          (read_measure s)
          (read_step s)
  unfolding read_step
  read_step-Delivering s v = elim (Bool-cases (s.count == 0)) [
    | inl none_left ↦ rw none_left (stop-Delivered s v (due-done s none_left))
    | inr more ↦ elim v.stands [
      | inl e ↦ rw (more, e) (stop-Delivered s v (due-end s e))
      | inr (b, r, e, from, held) ↦
          rw (read_step_at s b.id b more e (find-buckets_from b.id s.dev.buckets b r from))
            (elim (Bool-cases (leb b.end s.context.off)) [
              | inl passed ↦
                  rw passed (leave_bucket-Delivering goal stored s v b r e from held passed more)
              | inr inside ↦
                  rw inside (copy_out-Delivering goal stored s v b r e from held _ refl inside more)
            ])
    ]
  ]

finish_read-Delivers :
    (goal stored : List ℕ) (o : Outcome (Reading × Reply))
    → Settles ⊥ (λ e. Delivered goal stored e.0 e.1) o
    → Settles ⊥
        (λ r. (r.1 ≡ value (length goal)) × (r.2 ≡ goal) × (contents r.0.buckets ≡ stored))
        (finish_read o)
finish_read-Delivers goal stored (done (s, r)) h = (h.reply, h.out, h.keeps)
finish_read-Delivers goal stored fault h = h
finish_read-Delivers goal stored out_of_fuel h = h

-- What a read through the file with context `c` does.
abbrev pub Delivers : CipherDev → Fcontext → ℕ → CipherDev × Reply × List ℕ → Type 0
Delivers dev c count r =
    let plain =
      encrypt dev.cipher dev.cipherlen c.keyoff (take count (unread c.next c.off dev.buckets)) in
    (r.1 ≡ value (length plain)) × (r.2 ≡ plain) × (contents r.0.buckets ≡ contents dev.buckets)

-- On a well-formed device with a key, let a file be open that stands at the end or at a bucket from
-- which on each is held at least twice, with room for `count` bytes at the user's pointer and a key
-- offset that stays below 2^31. Then cipher_read returns: it delivers the next `count` bytes ahead
-- of the file, or all of them if they are fewer, decrypted at its key offset, replies with their
-- number, and leaves what the device holds as it was.
pub cipher_read-Delivers :
    (dev : CipherDev) (f count room : ℕ) (c : Fcontext)
    → IsValid dev
    → HasKey dev
    → find_context f dev.contexes ≡ some c
    → Stands c.next dev.buckets
    → count ≤ room
    → c.keyoff + count < 2 ^ 31
    → Settles ⊥ (Delivers dev c count) (cipher_read dev f count room)
cipher_read-Delivers dev f count room c v keyed here stands fits small =
    let plain =
      encrypt dev.cipher dev.cipherlen c.keyoff (take count (unread c.next c.off dev.buckets)) in
    rw (cipher_read-open dev f count room c here) (
      finish_read-Delivers plain (contents dev.buckets) _ (
        loop-Settles ⊥ _ _ read_measure read_step
          (read_step-Delivering plain (contents dev.buckets)) _ _
          (record {
            device = v;
            keyed = keyed;
            stands = stands;
            room = fits;
            fits = small;
            ahead = refl;
            keeps = refl;
          })
          (start-lt-read_fuel dev count c.next)))

-- CIPHER_IOCQREM tells a reader the number of bytes that are ahead of it.
query_remaining-reader :
    (dev : CipherDev) (c : Fcontext)
    → IsValid dev
    → c.mode ≡ reader
    → Stands c.next dev.buckets
    → length (unread c.next c.off dev.buckets) < 2 ^ 31
    → query_remaining dev c ≡ some (length (unread c.next c.off dev.buckets))
unfolding query_remaining
query_remaining-reader dev c v m (inl e) few = rw (m, e)
query_remaining-reader dev c v m (inr (b, r, e, from, held)) few =
    let whole = Chain-buckets_from 0 dev.allocs b.id dev.buckets b r v.chain from in
    let sum = remaining-stream b.id dev.allocs c.off (b ∷ r) (whole.0, omega arith, whole.3) in
    let short : remaining c.off (b ∷ r) < 2 ^ 31 = omega (arith, sum, rw (e, from) at few) in
    rw (m, e, from) (ap some (omega (arith, sum, short)))

-- What CIPHER_IOCQREM tells a reader is what it can read. On a well-formed device with a key, let a
-- reader's file stand at the end or at a bucket from which on each is held at least twice, with
-- room for `count` bytes at the user's pointer, a key offset that stays below 2^31, and fewer than
-- 2^31 bytes ahead of the file, so that their number fits an `int`. If the query says `val`, then a
-- read of `count` bytes returns, with `count`, or with `val` if that is less.
pub cipher_read-query :
    (dev : CipherDev) (f count room val : ℕ) (c : Fcontext)
    → IsValid dev
    → HasKey dev
    → find_context f dev.contexes ≡ some c
    → c.mode ≡ reader
    → Stands c.next dev.buckets
    → count ≤ room
    → c.keyoff + count < 2 ^ 31
    → length (unread c.next c.off dev.buckets) < 2 ^ 31
    → query_remaining dev c ≡ some val
    → Settles ⊥ (λ r. r.1 ≡ value (min count val)) (cipher_read dev f count room)
cipher_read-query dev f count room val c v keyed here m stands fits small few q =
    let ahead = unread c.next c.off dev.buckets in
    let e : length ahead ≡ val =
      some-injective (length ahead) val (sym (query_remaining-reader dev c v m stands few) ∙ q) in
    Settles-map ⊥ _ _ (cipher_read dev f count room)
      (λ r d.
        d.0
        ∙ ap value (
            omega (
              arith,
              e,
              length-encrypt dev.cipher dev.cipherlen c.keyoff (take count ahead),
              length-take count ahead,
            )))
      (cipher_read-Delivers dev f count room c v keyed here stands fits small)
