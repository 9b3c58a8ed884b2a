-- ===== src/Cipher/Read/Decrypt.antt =====
-- What cipher_read delivers: the bytes ahead of the reader, decrypted at its key offset.
use advanced_unix_ceng.Base.{
  ℕ, suc, ◌+◌, ◌-◌, ◌^◌, ◌≤◌, ◌<◌, ◌≡◌, refl, ap, ap₂, sym, ◌∙◌, ◌⊎◌, inl, inr, List, [], ◌∷◌, ◌++◌,
  Option, none, some, true, false, arith, leb, length, ◌==◌, take, drop, min, length-take,
  length-drop, append_assoc, drop_all, drop-add, take-drop-take, take-split_front,
}
use mathlib.Core.Path.{subst}
use advanced_unix_ceng.Base.Int.{pos, ◌-ℤ◌, eqb_ℤ, -ℤ_parts}
use advanced_unix_ceng.Cipher.Device.{Bucket, Reply, value, put_bucket, first_id, list_empty}
use advanced_unix_ceng.Cipher.Device.Contents.{bytes, contents}
use advanced_unix_ceng.Cipher.Device.Valid.{Chain, Chain-le, IsValid, put_bucket-Chain}
use advanced_unix_ceng.Cipher.Ioctl.{buckets_from}
use advanced_unix_ceng.Cipher.Key.Stream.{encrypt, HasKey, encrypt-append}
use advanced_unix_ceng.Cipher.Loop.{continue}
use advanced_unix_ceng.Cipher.Loop.Rule.{Advances}
use advanced_unix_ceng.Cipher.Read.{Reading, leave_held, leave_bucket, copy_out}
use advanced_unix_ceng.Cipher.Read.Copy.{piece, after_copy, copy_out_chunk}
use advanced_unix_ceng.Cipher.Read.Safety.{ahead, read_measure}
use advanced_unix_ceng.Cipher.Read.Unread.{
  unread, Held, Chain-buckets_from, buckets_from-put, next_bucket-put, contents-put,
  buckets_from-next,
}

-- Where a reader stands: nowhere, or at the first of some buckets that are held.
abbrev pub Stands : Option ℕ → List Bucket → Type 0
Stands next bs =
    (next ≡ none)
    ⊎ ((b : Bucket) × (r : List Bucket) × (next ≡ some b.id)
        × (buckets_from b.id bs ≡ b ∷ r)
        × Held (b ∷ r))

list_empty-buckets_from :
    (p : ℕ) (bs : List Bucket) (b : Bucket) (r : List Bucket)
    → buckets_from p bs ≡ b ∷ r
    → list_empty bs ≡ false
unfolding buckets_from
list_empty-buckets_from p [] b r e = cc
list_empty-buckets_from p (c ∷ bs) b r e = refl

ahead-first_id : (p hi : ℕ) (r : List Bucket) → Chain (suc p) hi r → ahead (first_id r) hi < hi - p
ahead-first_id p hi [] h = omega arith
ahead-first_id p hi (q ∷ r) h = omega (arith, Chain-le (suc q.id) hi r h.2)

-- The reader stands at the next bucket, if there is one, when it has left `b`.
unread-first :
    (lo hi p : ℕ) (bs : List Bucket) (b : Bucket) (r : List Bucket)
    → Chain lo hi bs
    → buckets_from p bs ≡ b ∷ r
    → unread (first_id r) 0 bs ≡ contents r
unfolding contents
unread-first lo hi p bs b [] h e = refl
unread-first lo hi p bs b (q ∷ r) h e = rw (buckets_from-next lo hi p bs b q r h e)

Stands-first :
    (lo hi p : ℕ) (bs : List Bucket) (b : Bucket) (r : List Bucket)
    → Chain lo hi bs
    → buckets_from p bs ≡ b ∷ r
    → Held r
    → Stands (first_id r) bs
Stands-first lo hi p bs b [] h e k = inl refl
Stands-first lo hi p bs b (q ∷ r) h e k =
    inr (q, r, refl, buckets_from-next lo hi p bs b q r h e, k)

-- The plaintext of what is still to be delivered.
abbrev pub due : Reading → List ℕ
due s =
    encrypt s.dev.cipher s.dev.cipherlen s.context.keyoff
      (take s.count (unread s.context.next s.context.off s.dev.buckets))

module _ (goal stored : List ℕ) where
  pub record Delivering (s : Reading) : Type 0 where
    pub device : IsValid s.dev
    pub keyed : HasKey s.dev
    pub stands : Stands s.context.next s.dev.buckets
    pub room : s.count ≤ s.room
    pub fits : s.context.keyoff + s.count < 2 ^ 31
    pub ahead : s.out ++ due s ≡ goal
    pub keeps : contents s.dev.buckets ≡ stored

  pub record Delivered (s : Reading) (r : Reply) : Type 0 where
    pub reply : r ≡ value (length goal)
    pub out : s.out ≡ goal
    pub keeps : contents s.dev.buckets ≡ stored

  -- A reader that passes the bucket `b`.
  abbrev passed_by : Bucket → Bucket
  passed_by b = record b { refcount = b.refcount -ℤ pos 1 }

  abbrev after_leave : Reading → Bucket → List Bucket → Reading
  after_leave s b r = record s {
    dev = record s.dev { buckets = put_bucket (passed_by b) s.dev.buckets };
    context = record s.context { next = first_id r; off = 0 };
  }

  module _ (s : Reading) (v : Delivering s) (b : Bucket) (r : List Bucket)
      (here : s.context.next ≡ some b.id) (from : buckets_from b.id s.dev.buckets ≡ b ∷ r)
      (held : Held (b ∷ r)) where
    still_held : eqb_ℤ (b.refcount -ℤ pos 1) (pos 0) ≡ false
    still_held = ground (arith, -ℤ_parts b.refcount (pos 1), held.0)

    from_put : buckets_from b.id (put_bucket (passed_by b) s.dev.buckets) ≡ passed_by b ∷ r
    from_put =
        buckets_from-put b.id b (passed_by b) r refl 0 s.dev.allocs s.dev.buckets v.device.chain
          from

    not_empty : list_empty (put_bucket (passed_by b) s.dev.buckets) ≡ false
    not_empty = list_empty-buckets_from b.id _ (passed_by b) r from_put

    Chain-put : Chain 0 s.dev.allocs (put_bucket (passed_by b) s.dev.buckets)
    Chain-put =
        put_bucket-Chain 0 s.dev.allocs s.dev.buckets (passed_by b)
          (omega
            (arith, Chain-buckets_from 0 s.dev.allocs b.id s.dev.buckets b r v.device.chain from))
          v.device.chain

    leave_bucket-eq-after_leave : leave_bucket s b ≡ continue (after_leave s b r)
    unfolding leave_bucket leave_held
    leave_bucket-eq-after_leave =
        let nx =
          next_bucket-put b.id b (passed_by b) r refl 0 s.dev.allocs s.dev.buckets v.device.chain
            from in
        simp (still_held, not_empty, nx)

    unread_here :
        unread s.context.next s.context.off s.dev.buckets
        ≡ drop s.context.off (bytes b) ++ contents r
    unread_here = rw (here, from)

    after_leave-Delivering : b.end ≤ s.context.off → Delivering (after_leave s b r)
    after_leave-Delivering passed = record {
      device = record {
        chain = Chain-put;
        key_length = v.device.key_length;
        key_ends = v.device.key_ends;
        limited = v.device.limited;
      };
      keyed = record { some_key = v.keyed.some_key; key_fits = v.keyed.key_fits };
      stands = Stands-first 0 s.dev.allocs b.id _ (passed_by b) r Chain-put from_put held.1;
      room = v.room;
      fits = v.fits;
      ahead =
          ap
            (λ xs. s.out ++ encrypt s.dev.cipher s.dev.cipherlen s.context.keyoff (take s.count xs))
            (unread-first 0 s.dev.allocs b.id _ (passed_by b) r Chain-put from_put
              ∙ sym (
                  unread_here
                  ∙ ap (λ xs. xs ++ contents r)
                      (drop_all s.context.off (bytes b)
                        (omega (arith, length-take b.end b.buffer)))))
          ∙ v.ahead;
      keeps =
          contents-put b.id b (passed_by b) r refl 0 s.dev.allocs s.dev.buckets v.device.chain from
            refl
          ∙ v.keeps;
    }

    pub leave_bucket-Delivering :
        leb b.end s.context.off ≡ true
        → (s.count == 0) ≡ false
        → Advances ⊥ Delivering Delivered read_measure (read_measure s) (leave_bucket s b)
    leave_bucket-Delivering passed more = rw leave_bucket-eq-after_leave (
      after_leave-Delivering (ground arith),
      rw here (
          omega (
            arith,
            ahead-first_id b.id s.dev.allocs r
                (Chain-buckets_from 0 s.dev.allocs b.id s.dev.buckets b r v.device.chain from).3,
          )),
    )

    module _ (n : ℕ) (e : n ≡ min (b.end - s.context.off) s.count)
        (inside : leb b.end s.context.off ≡ false) where
      copy_out-eq-after_copy : copy_out s b ≡ continue (after_copy s b n)
      copy_out-eq-after_copy =
          subst (λ m. copy_out s b ≡ continue (after_copy s b m)) (sym e)
            (copy_out_chunk s b
              (Chain-buckets_from 0 s.dev.allocs b.id s.dev.buckets b r v.device.chain from).0
              v.keyed v.room v.fits)

      -- The piece and what is due after it are what was due.
      due-after_copy : piece s b n ++ due (after_copy s b n) ≡ due s
      due-after_copy =
          let key = s.dev.cipher in
          let len = s.dev.cipherlen in
          let k = s.context.keyoff in
          let front = drop s.context.off (bytes b) in
          let vb =
            (Chain-buckets_from 0 s.dev.allocs b.id s.dev.buckets b r v.device.chain from).0 in
          let size : n ≤ length front =
            omega (arith, length-drop s.context.off (bytes b), length-take b.end b.buffer, vb) in
          let tail = take (s.count - n) (drop n front ++ contents r) in
          let first : take n front ≡ take n (drop s.context.off b.buffer) =
            take-drop-take n s.context.off b.end b.buffer (ground arith) in
          let rest_eq : unread s.context.next (s.context.off + n) s.dev.buckets
              ≡ drop n front ++ contents r =
            rw (here, from) (ap (λ xs. xs ++ contents r) (drop-add s.context.off n (bytes b))) in
          sym (
            ap (λ xs. encrypt key len k (take s.count xs)) unread_here
            ∙ ap (encrypt key len k)
                (take-split_front n s.count front (contents r) (omega arith) size)
            ∙ encrypt-append key len k (take n front) tail
            ∙ ap₂ (λ xs m. encrypt key len k xs ++ encrypt key len (k + m) tail) first
                (omega (arith, length-take n front))
            ∙ ap (λ xs. piece s b n ++ encrypt key len (k + n) (take (s.count - n) xs))
                (sym rest_eq))

      after_copy-Delivering : Delivering (after_copy s b n)
      after_copy-Delivering = record {
        device = v.device;
        keyed = v.keyed;
        stands = v.stands;
        room = omega (arith, v.room);
        fits = omega (arith, v.fits);
        ahead =
            append_assoc s.out (piece s b n) (due (after_copy s b n))
            ∙ ap (◌++◌ s.out) due-after_copy
            ∙ v.ahead;
        keeps = v.keeps;
      }

      pub copy_out-Delivering :
          (s.count == 0) ≡ false
          → Advances ⊥ Delivering Delivered read_measure (read_measure s) (copy_out s b)
      copy_out-Delivering more = rw copy_out-eq-after_copy (after_copy-Delivering, ground arith)
