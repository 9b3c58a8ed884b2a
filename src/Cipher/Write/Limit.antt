-- ===== src/Cipher/Write/Limit.antt =====
-- The limit of 8192 bytes for each open file, and what the reply of cipher_write counts.
use advanced_unix_ceng.Base.{
  ℕ, ◌+◌, ◌-◌, ◌^◌, ◌≤◌, ◌<◌, ◌≡◌, refl, inl, inr, List, [], ◌∷◌, some, Bool, true, false, arith,
  Bool-cases, leb, min, tests,
}
use advanced_unix_ceng.Cipher.Device.{
  Fcontext, CipherDev, Reply, value, fail, max_write_len, find_context, put_context,
}
use advanced_unix_ceng.Cipher.Device.Valid.{
  IsValid, find_context_limited, put_context-WithinLimit, find_context_file,
}
use advanced_unix_ceng.Cipher.Loop.{Outcome, done, fault, out_of_fuel, loop}
use advanced_unix_ceng.Cipher.Loop.Rule.{Settles, loop-Settles}
use advanced_unix_ceng.Cipher.Write.{Writing, write_step, limit_count, finish_write, cipher_write}
use advanced_unix_ceng.Cipher.Write.Safety.{IsWriting, Wrote, left, write_step-Advances}

pub cipher_write-used_up :
    (kmalloc : ℕ → Bool) (dev : CipherDev) (f : ℕ) (buf : List ℕ) (count : ℕ) (c : Fcontext)
    → find_context f dev.contexes ≡ some c
    → leb max_write_len c.totalwritten ≡ true
    → cipher_write kmalloc dev f buf count ≡ done (dev, value 0)
unfolding cipher_write
cipher_write-used_up kmalloc dev f buf count c e h = rw (e, cipher_write, h)

pub cipher_write-open :
    (kmalloc : ℕ → Bool) (dev : CipherDev) (f : ℕ) (buf : List ℕ) (count : ℕ) (c : Fcontext)
    → find_context f dev.contexes ≡ some c
    → leb max_write_len c.totalwritten ≡ false
    → cipher_write kmalloc dev f buf count
      ≡ finish_write (
          loop (write_step kmalloc) (limit_count c.totalwritten count + 1) (record {
            dev = dev;
            context = c;
            count = limit_count c.totalwritten count;
            buf = buf;
            total_written = 0;
          }))
unfolding cipher_write
cipher_write-open kmalloc dev f buf count c e h = rw (e, cipher_write, h)

-- What a write on a file with context `c` has done when it returns: the device is well formed, and
-- the file has written no more than the limit. A count is what was wanted, up to the limit.
abbrev pub Counts : ℕ → Fcontext → Fcontext → Reply → Type 0
Counts count c c' (value n) =
    (n ≡ min count (max_write_len - c.totalwritten)) × (c'.totalwritten ≡ c.totalwritten + n)
Counts count c c' (fail e) = c.totalwritten ≤ c'.totalwritten

abbrev pub WroteWithin : ℕ → ℕ → Fcontext → CipherDev × Reply → Type 0
WroteWithin f count c r =
    IsValid r.0
    × ((c' : Fcontext) × (find_context f r.0.contexes ≡ some c')
        × (c'.totalwritten ≤ max_write_len)
        × Counts count c c' r.1)

pub find_context-put_context :
    (c d : Fcontext) (f : ℕ) (cs : List Fcontext)
    → c.file ≡ f
    → find_context f cs ≡ some d
    → find_context f (put_context c cs) ≡ some c
unfolding find_context put_context
find_context-put_context c d f [] e h = ground arith
find_context-put_context c d f (x ∷ cs) e h = ground (arith, find_context-put_context c d f cs)

finished-IsValid :
    (f base wanted : ℕ) (cs : List Fcontext) (s : Writing)
    → IsWriting f base wanted cs s
    → IsValid (record s.dev { contexes = put_context s.context s.dev.contexes })
finished-IsValid f base wanted cs s w = record {
  chain = w.device.chain;
  key_length = w.device.key_length;
  key_ends = w.device.key_ends;
  limited =
      put_context-WithinLimit s.context s.dev.contexes (omega (arith, w.limit)) w.device.limited;
}

finish_write-WroteWithin :
    (f count : ℕ) (c : Fcontext) (cs : List Fcontext) (o : Outcome (Writing × Reply))
    → find_context f cs ≡ some c
    → (let wanted = min count (max_write_len - c.totalwritten) in
        Settles Unit (λ e. Wrote f c.totalwritten wanted cs e.0 e.1) o)
    → Settles Unit (WroteWithin f count c) (finish_write o)
finish_write-WroteWithin f count c cs (done (s, value n)) h (w, e, e') = (
  finished-IsValid f c.totalwritten _ cs s w,
  (
    s.context,
    rw w.files (find_context-put_context s.context c f cs w.file h),
    omega (arith, w.limit),
    (e, omega (arith, w.total)),
  ),
)
finish_write-WroteWithin f count c cs (done (s, fail e)) h w = (
  finished-IsValid f c.totalwritten _ cs s w,
  (
    s.context,
    rw w.files (find_context-put_context s.context c f cs w.file h),
    omega (arith, w.limit),
    omega (arith, w.total),
  ),
)
finish_write-WroteWithin f count c cs fault h w = tt
finish_write-WroteWithin f count c cs out_of_fuel h w = w

pub limit_count_lem :
    (t count : ℕ)
    → t ≤ max_write_len
    → count < 2 ^ 63
    → limit_count t count ≡ min count (max_write_len - t)
unfolding limit_count
limit_count_lem t count h k = ground arith

-- On a well-formed device, and for a count that the kernel passes on (below 2^63), cipher_write
-- always ends. Where it returns, the device is well formed, the file has written at most 8192
-- bytes in all, a count that is returned is the one asked for or what was left of the limit, and
-- the file's total has grown by exactly that count.
pub cipher_write-WroteWithin :
    (kmalloc : ℕ → Bool) (dev : CipherDev) (f : ℕ) (buf : List ℕ) (count : ℕ) (c : Fcontext)
    → IsValid dev
    → find_context f dev.contexes ≡ some c
    → count < 2 ^ 63
    → Settles Unit (WroteWithin f count c) (cipher_write kmalloc dev f buf count)
cipher_write-WroteWithin kmalloc dev f buf count c v here small =
    let limited = find_context_limited f dev.contexes c v.limited here in
    let wanted = min count (max_write_len - c.totalwritten) in
    elim (Bool-cases (leb max_write_len c.totalwritten)) [
      | inl used_up ↦
          rw (cipher_write-used_up kmalloc dev f buf count c here used_up)
            (v, (c, here, limited, omega (tests, limited, used_up)))
      | inr below ↦
          rw
            (
              cipher_write-open kmalloc dev f buf count c here below,
              limit_count_lem c.totalwritten count limited small,
            )
            (finish_write-WroteWithin f count c dev.contexes _ here (
              loop-Settles Unit _ _ (left f c.totalwritten wanted dev.contexes) (write_step kmalloc)
                (write_step-Advances f c.totalwritten wanted dev.contexes kmalloc) (wanted + 1) _
                (record {
                  device = v;
                  total = omega arith;
                  limit = omega (arith, limited);
                  goal = omega arith;
                  file = find_context_file f dev.contexes c here;
                  files = refl;
                })
                (omega arith)))
    ]
