-- ===== src/Cipher/Read/Copy.antt =====
-- A round of cipher_read that copies bytes of the current bucket.
use advanced_unix_ceng.Base.{
  ℕ, ◌+◌, ◌-◌, ◌^◌, ◌≤◌, ◌<◌, ◌≡◌, List, ◌++◌, false, arith, ltb, length, take, drop, min,
  length-take, length-drop,
}
use advanced_unix_ceng.Cipher.Device.{Bucket}
use advanced_unix_ceng.Cipher.Device.Valid.{IsBucket}
use advanced_unix_ceng.Cipher.Key.Stream.{encrypt, HasKey, cipher_xor_buffer-eq-encrypt}
use advanced_unix_ceng.Cipher.Loop.{continue}
use advanced_unix_ceng.Cipher.Read.{Reading, copy_out}

module _ (s : Reading) (b : Bucket) where
  -- The plaintext of a piece of `n` bytes.
  abbrev pub piece : ℕ → List ℕ
  piece n =
      encrypt s.dev.cipher s.dev.cipherlen s.context.keyoff (take n (drop s.context.off b.buffer))

  abbrev pub after_copy : ℕ → Reading
  after_copy n = record s {
    context = record s.context { off = s.context.off + n; keyoff = s.context.keyoff + n };
    count = s.count - n;
    room = s.room - n;
    out = s.out ++ piece n;
  }

  -- With a key, room for the bytes and an offset that fits, the round delivers a piece.
  pub copy_out_chunk :
      IsBucket b
      → HasKey s.dev
      → s.count ≤ s.room
      → s.context.keyoff + s.count < 2 ^ 31
      → copy_out s b ≡ continue (after_copy (min (b.end - s.context.off) s.count))
  unfolding copy_out
  copy_out_chunk vb keyed room small =
      let n = min (b.end - s.context.off) s.count in
      let size : length (take n (drop s.context.off b.buffer)) ≡ n = omega (
        arith,
        length-take n (drop s.context.off b.buffer),
        length-drop s.context.off b.buffer,
        vb,
      ) in
      let fits : ltb s.room n ≡ false = ground (arith, room) in
      let xored =
        cipher_xor_buffer-eq-encrypt (take n (drop s.context.off b.buffer)) s.context.keyoff keyed
          (omega (arith, size, small)) in
      rw (xored, copy_out, fits, size)
