-- ===== src/Cipher/Write/Fresh.antt =====
-- A round of cipher_write that begins a fresh bucket, or gives up a full one.
use advanced_unix_ceng.Base.{
  ℕ, ◌+◌, ◌^◌, ◌<◌, ◌≡◌, refl, ap, sym, ◌∙◌, inr, List, [], ◌∷◌, ◌++◌, some, Bool, true, false,
  arith, ◌==◌, append-nil,
}
use advanced_unix_ceng.Base.Int.{pos, ◌-ℤ◌}
use advanced_unix_ceng.Cipher.Device.{Bucket, CipherDev, last_bucket}
use advanced_unix_ceng.Cipher.Device.Contents.{
  bytes, contents, contents-snoc, last_bucket-snoc, contents-put_last, last_bucket-put_last,
}
use advanced_unix_ceng.Cipher.Device.Valid.{IsBucket, put_bucket-Chain}
use advanced_unix_ceng.Cipher.Loop.Rule.{Advances}
use advanced_unix_ceng.Cipher.Write.{Writing, new_bucket, fill_fresh, drop_full}
use advanced_unix_ceng.Cipher.Write.Safety.{new_bucket-IsBucket, add_bucket-IsValid}
use advanced_unix_ceng.Cipher.Write.Append.{Appending, Appended, left, rest, fill_bucket-Appending}

module _ (goal : List ℕ) (wanted kend : ℕ) where
  -- The state in which a fresh bucket is filled.
  abbrev pub with_fresh : Writing → Writing
  with_fresh s = record s {
    dev = record s.dev {
      buckets = s.dev.buckets ++ new_bucket s.dev ∷ [];
      allocs = s.dev.allocs + 1;
    };
    context = record s.context { next = some (new_bucket s.dev).id; off = 0 };
  }

  bytes-new_bucket : (dev : CipherDev) → bytes (new_bucket dev) ≡ []
  unfolding new_bucket
  bytes-new_bucket dev = refl

  end-new_bucket : (dev : CipherDev) → (new_bucket dev).end ≡ 0
  unfolding new_bucket
  end-new_bucket dev = refl

  pub with_fresh-Appending :
      (s : Writing) → Appending goal wanted kend s → Appending goal wanted kend (with_fresh s)
  with_fresh-Appending s v = record {
    device = add_bucket-IsValid s.dev v.device;
    keyed = record { some_key = v.keyed.some_key; key_fits = v.keyed.key_fits };
    tail = inr (new_bucket s.dev, last_bucket-snoc s.dev.buckets (new_bucket s.dev), refl);
    enough = v.enough;
    fits = v.fits;
    total = v.total;
    ahead =
        ap (λ xs. xs ++ rest s)
          (contents-snoc s.dev.buckets (new_bucket s.dev)
            ∙ ap (◌++◌ (contents s.dev.buckets)) (bytes-new_bucket s.dev)
            ∙ append-nil (contents s.dev.buckets))
        ∙ v.ahead;
  }

  pub drop_full-Appending :
      (s : Writing) (b : Bucket)
      → Appending goal wanted kend s
      → IsBucket b
      → last_bucket s.dev.buckets ≡ some b
      → s.context.next ≡ some b.id
      → Appending goal wanted kend (drop_full s b)
  drop_full-Appending s b v vb last here =
      let left_over = record b { refcount = b.refcount -ℤ pos 1 } in
      record {
        device = record {
          chain =
              put_bucket-Chain 0 s.dev.allocs s.dev.buckets left_over (omega (arith, vb))
                v.device.chain;
          key_length = v.device.key_length;
          key_ends = v.device.key_ends;
          limited = v.device.limited;
        };
        keyed = record { some_key = v.keyed.some_key; key_fits = v.keyed.key_fits };
        tail = inr (
          left_over,
          last_bucket-put_last 0 s.dev.allocs s.dev.buckets b left_over v.device.chain last refl,
          here,
        );
        enough = v.enough;
        fits = v.fits;
        total = v.total;
        ahead =
            ap (λ xs. xs ++ rest s)
              (contents-put_last 0 s.dev.allocs s.dev.buckets b left_over [] v.device.chain last
                  refl (sym (append-nil (bytes b)))
                ∙ append-nil (contents s.dev.buckets))
            ∙ v.ahead;
      }

  module _ (kmalloc : ℕ → Bool) (always : (n : ℕ) → kmalloc n ≡ true) (small : kend < 2 ^ 31) where
    pub fill_fresh-Appending :
        (s : Writing)
        → Appending goal wanted kend s
        → (s.count == 0) ≡ false
        → Advances ⊥
            (Appending goal wanted kend)
            (Appended goal wanted kend)
            (left goal wanted kend)
            s.count
            (fill_fresh kmalloc s)
    unfolding fill_fresh
    fill_fresh-Appending s v more = rw (always s.dev.allocs) (
        fill_bucket-Appending goal wanted kend (with_fresh s) (with_fresh-Appending s v)
          (new_bucket s.dev) small (last_bucket-snoc s.dev.buckets (new_bucket s.dev)) (refl)
          (new_bucket-IsBucket s.dev) (omega (arith, end-new_bucket s.dev)) more)
