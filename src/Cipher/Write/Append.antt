-- ===== src/Cipher/Write/Append.antt =====
-- What cipher_write stores: the bytes it is given, encrypted at the file's key offset, behind all
-- that the device holds.
use advanced_unix_ceng.Base.{
  ℕ, ◌+◌, ◌-◌, ◌^◌, ◌≤◌, ◌<◌, ◌≡◌, refl, ap, sym, ◌∙◌, inr, List, [], ◌++◌, some, true, false,
  arith, ltb, length, ◌==◌, take, drop, length-take, length-drop, min, splice, take-splice,
  length-splice, take-add, append_assoc, append-nil,
}
use advanced_unix_ceng.Cipher.Device.{Bucket, Reply, value, bucket_size, put_bucket, last_bucket}
use advanced_unix_ceng.Cipher.Device.Contents.{
  bytes, contents, AtTail, contents-put_last, last_bucket-put_last,
}
use advanced_unix_ceng.Cipher.Device.Valid.{IsBucket, IsValid, put_bucket-Chain}
use advanced_unix_ceng.Cipher.Key.Stream.{
  encrypt, HasKey, cipher_xor_buffer-eq-encrypt, encrypt-append, length-encrypt,
}
use advanced_unix_ceng.Cipher.Loop.{continue}
use advanced_unix_ceng.Cipher.Loop.Rule.{Advances}
use advanced_unix_ceng.Cipher.Write.{Writing, fill_bucket}

encrypt_split :
    (key : List ℕ) (len k n count : ℕ) (buf : List ℕ)
    → n ≤ count
    → n ≤ length buf
    → encrypt key len k (take n buf) ++ encrypt key len (k + n) (take (count - n) (drop n buf))
      ≡ encrypt key len k (take count buf)
encrypt_split key len k n count buf h h' =
    let whole : n + (count - n) ≡ count = omega arith in
    let part : length (take n buf) ≡ n = omega (arith, length-take n buf) in
    sym (
      ap (λ m. encrypt key len k (take m buf)) (sym whole)
      ∙ ap (encrypt key len k) (take-add n (count - n) buf)
      ∙ encrypt-append key len k (take n buf) (take (count - n) (drop n buf))
      ∙ ap
          (λ m.
            encrypt key len k (take n buf)
            ++ encrypt key len (k + m) (take (count - n) (drop n buf)))
          part)

-- The ciphertext that is still to be stored.
abbrev pub rest : Writing → List ℕ
rest s = encrypt s.dev.cipher s.dev.cipherlen s.context.keyoff (take s.count s.buf)

module _ (goal : List ℕ) (wanted kend : ℕ) where
  pub record Appending (s : Writing) : Type 0 where
    pub device : IsValid s.dev
    pub keyed : HasKey s.dev
    pub tail : AtTail s.context.next s.dev.buckets
    pub enough : s.count ≤ length s.buf
    pub fits : s.context.keyoff + s.count ≡ kend
    pub total : s.total_written + s.count ≡ wanted
    pub ahead : contents s.dev.buckets ++ rest s ≡ goal

  pub record Appended (s : Writing) (r : Reply) : Type 0 where
    pub device : IsValid s.dev
    pub reply : r ≡ value wanted
    pub stored : contents s.dev.buckets ≡ goal
    pub keyoff : s.context.keyoff ≡ kend

  abbrev pub left : Writing → ℕ
  left s = s.count

  -- The state after a round that writes into `b`.
  abbrev pub filled : Bucket → ℕ → List ℕ → Bucket
  filled b n ys = record b { end = b.end + n; buffer = splice b.buffer b.end ys }

  abbrev pub after_fill : Writing → Bucket → Writing
  after_fill s b =
      let n = min (bucket_size - b.end) s.count in
      let ys = encrypt s.dev.cipher s.dev.cipherlen s.context.keyoff (take n s.buf) in
      record {
        dev = record s.dev {
          buckets = put_bucket (filled b n ys) s.dev.buckets;
          keylast = s.context.keyoff + n;
        };
        context = record s.context {
          keyoff = s.context.keyoff + n;
          totalwritten = s.context.totalwritten + n;
        };
        count = s.count - n;
        buf = drop n s.buf;
        total_written = s.total_written + n;
      }

  module _ (s : Writing) (v : Appending s) (b : Bucket) (small : kend < 2 ^ 31) where
    pub fill_bucket-eq-after_fill : fill_bucket s b ≡ continue (after_fill s b)
    unfolding fill_bucket
    fill_bucket-eq-after_fill =
        let n = min (bucket_size - b.end) s.count in
        let enough : ltb (length s.buf) n ≡ false = ground (arith, v.enough) in
        let part : length (take n s.buf) ≡ n = omega (arith, length-take n s.buf, v.enough) in
        let xored =
          cipher_xor_buffer-eq-encrypt (take n s.buf) s.context.keyoff v.keyed
            (omega (arith, part, v.fits)) in
        simp (enough, xored, part)

    module _ (last : last_bucket s.dev.buckets ≡ some b) (here : s.context.next ≡ some b.id)
        (vb : IsBucket b) where
      filled_lem :
          (n : ℕ) (ys : List ℕ)
          → length ys ≡ n
          → n ≤ bucket_size - b.end
          → IsBucket (filled b n ys) × (bytes (filled b n ys) ≡ bytes b ++ ys)
      filled_lem n ys e h = (
        omega (arith, length-splice b.buffer b.end ys, vb),
        ap (λ k. take (b.end + k) (splice b.buffer b.end ys)) (sym e)
            ∙ take-splice b.buffer b.end ys (omega (arith, vb)),
      )

      after_fill-Appending : Appending (after_fill s b)
      after_fill-Appending =
          let n = min (bucket_size - b.end) s.count in
          let ys = encrypt s.dev.cipher s.dev.cipherlen s.context.keyoff (take n s.buf) in
          let e : length ys ≡ n = omega (
            arith,
            length-encrypt s.dev.cipher s.dev.cipherlen s.context.keyoff (take n s.buf),
            length-take n s.buf,
            v.enough,
          ) in
          let f = filled_lem n ys e (omega arith) in
          let later =
            encrypt s.dev.cipher s.dev.cipherlen (s.context.keyoff + n)
              (take (s.count - n) (drop n s.buf)) in
          record {
            device = record {
              chain =
                  put_bucket-Chain 0 s.dev.allocs s.dev.buckets (filled b n ys) f.0 v.device.chain;
              key_length = v.device.key_length;
              key_ends = v.device.key_ends;
              limited = v.device.limited;
            };
            keyed = record { some_key = v.keyed.some_key; key_fits = v.keyed.key_fits };
            tail = inr (
              filled b n ys,
              last_bucket-put_last 0 s.dev.allocs s.dev.buckets b (filled b n ys) v.device.chain
                  last refl,
              here,
            );
            enough = omega (arith, length-drop n s.buf, v.enough);
            fits = omega (arith, v.fits);
            total = omega (arith, v.total);
            ahead =
                ap (λ xs. xs ++ later)
                  (contents-put_last 0 s.dev.allocs s.dev.buckets b (filled b n ys) ys
                    v.device.chain last refl f.1)
                ∙ append_assoc (contents s.dev.buckets) ys later
                ∙ ap (◌++◌ (contents s.dev.buckets)) (
                    encrypt_split s.dev.cipher s.dev.cipherlen s.context.keyoff n s.count s.buf
                      (omega arith) (omega (arith, v.enough)))
                ∙ v.ahead;
          }

      pub fill_bucket-Appending :
          b.end < bucket_size
          → (s.count == 0) ≡ false
          → Advances ⊥ Appending Appended left s.count (fill_bucket s b)
      fill_bucket-Appending room more =
          rw fill_bucket-eq-after_fill (after_fill-Appending, ground arith)

  encrypt_none :
      (key : List ℕ) (len k n : ℕ) (buf : List ℕ) → n ≡ 0 → encrypt key len k (take n buf) ≡ []
  unfolding encrypt
  encrypt_none key len k n buf e = ap (λ m. encrypt key len k (take m buf)) e

  pub stop-Appended :
      (s : Writing) → Appending s → (s.count == 0) ≡ true → Appended s (value s.total_written)
  stop-Appended s v e = record {
    device = v.device;
    reply = ap value (ground (arith, v.total));
    stored =
        sym (append-nil (contents s.dev.buckets))
        ∙ ap (◌++◌ (contents s.dev.buckets)) (
            sym (
              encrypt_none s.dev.cipher s.dev.cipherlen s.context.keyoff s.count s.buf
                (ground arith)))
        ∙ v.ahead;
    keyoff = ground (arith, v.fits);
  }
