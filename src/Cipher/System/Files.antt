-- ===== src/Cipher/System/Files.antt =====
-- The calls of a process on its own file leave the files of the others as they are.
use advanced_unix_ceng.Base.{
  ℕ, zero, suc, ◌+◌, ◌⊎◌, leb, ◌≡◌, ◌≢◌, refl, ap, sym, ◌∙◌, inl, inr, List, [], ◌∷◌, some, Bool,
  arith, Bool-cases, Option-cases,
}
use advanced_unix_ceng.Cipher.Device.{
  Fcontext, CipherDev, Reply, find_context, put_context, delete_context, max_write_len,
}
use advanced_unix_ceng.Cipher.Loop.{
  Next, continue, stop, crash, Outcome, done, fault, out_of_fuel, loop,
}
use advanced_unix_ceng.Cipher.Read.{
  Reading, leave_freed, leave_held, leave_bucket, copy_out, read_step, read_fuel, finish_read,
  cipher_read,
}
use advanced_unix_ceng.Cipher.Write.Limit.{cipher_write-open, cipher_write-used_up}
use advanced_unix_ceng.Cipher.Read.Safety.{cipher_read-open, cipher_read-closed}
use advanced_unix_ceng.Cipher.Write.{
  Writing, fill_bucket, fill_fresh, write_step, limit_count, finish_write, cipher_write,
}

-- A loop keeps what each of its rounds keeps.
module _ {S : Type 0} (K : S → Type 0) where
  abbrev pub Keeps : Next S → Type 0
  Keeps (continue s) = K s
  Keeps (stop s r) = K s
  Keeps crash = Unit {0}

  abbrev pub Kept : Outcome (S × Reply) → Type 0
  Kept (done e) = K e.0
  Kept fault = Unit {0}
  Kept out_of_fuel = Unit {0}

  Kept-round :
      (step : S → Next S) (fuel : ℕ) (next : Next S)
      → ((s : S) → K s → Kept (loop step fuel s))
      → Keeps next
      → Kept
          (elim next [ continue s' ↦ loop step fuel s' | stop s' r ↦ done (s', r) | crash ↦ fault ])
  Kept-round step fuel (continue s) rest h = rest s h
  Kept-round step fuel (stop s r) rest h = h
  Kept-round step fuel crash rest h = tt

  pub loop-Kept :
      (step : S → Next S)
      → ((s : S) → K s → Keeps (step s))
      → (fuel : ℕ) (s : S) → K s
      → Kept (loop step fuel s)
  unfolding loop
  loop-Kept step keep zero s h = tt
  loop-Kept step keep (suc fuel) s h =
      Kept-round step fuel (step s) (loop-Kept step keep fuel) (keep s h)

-- A call on one file leaves the other files as they are.
module _ (f : ℕ) (cs : List Fcontext) where
  abbrev SameFiles : CipherDev → Fcontext → Type 0
  SameFiles dev c = (dev.contexes ≡ cs) × (c.file ≡ f)

  abbrev ReadKeeps : Reading → Type 0
  ReadKeeps s = SameFiles s.dev s.context

  abbrev WriteKeeps : Writing → Type 0
  WriteKeeps s = SameFiles s.dev s.context

  read_step-Keeps : (s : Reading) → ReadKeeps s → Keeps ReadKeeps (read_step s)
  unfolding read_step leave_bucket leave_freed leave_held copy_out
  read_step-Keeps s h = ground arith

  write_step-Keeps :
      (kmalloc : ℕ → Bool) (s : Writing) → WriteKeeps s → Keeps WriteKeeps (write_step kmalloc s)
  unfolding write_step fill_fresh fill_bucket
  write_step-Keeps kmalloc s h = ground arith

pub find_context-put_other :
    (x : Fcontext) (f g : ℕ) (cs : List Fcontext)
    → x.file ≡ f
    → f ≢ g
    → find_context g (put_context x cs) ≡ find_context g cs
unfolding find_context put_context
find_context-put_other x f g [] e ne = refl
find_context-put_other x f g (d ∷ cs) e ne = ground (arith, find_context-put_other x f g cs)

pub find_context-delete_other :
    (f g : ℕ) (cs : List Fcontext)
    → f ≢ g
    → find_context g (delete_context f cs) ≡ find_context g cs
unfolding find_context delete_context
find_context-delete_other f g [] ne = refl
find_context-delete_other f g (d ∷ cs) ne = ground (arith, find_context-delete_other f g cs)

pub find_context-file :
    (g : ℕ) (cs : List Fcontext) (c : Fcontext) → find_context g cs ≡ some c → c.file ≡ g
unfolding find_context
find_context-file g [] c e = ground arith
find_context-file g (d ∷ cs) c e = ground (arith, find_context-file g cs c)

-- What a call on file `f` makes of the open files: it replaces that file's context.
abbrev pub Replaces : ℕ → List Fcontext → List Fcontext → Type 0
Replaces f cs cs' = (x : Fcontext) × (x.file ≡ f) × (cs' ≡ put_context x cs)

abbrev files_or : List Fcontext → Outcome (CipherDev × Reply × List ℕ) → List Fcontext
files_or cs (done r) = r.0.contexes
files_or cs fault = cs
files_or cs out_of_fuel = cs

finish_read-Replaces :
    (f : ℕ) (cs : List Fcontext) (o : Outcome (Reading × Reply)) (d : CipherDev) (r : Reply)
    (out : List ℕ)
    → Kept (ReadKeeps f cs) o
    → finish_read o ≡ done (d, r, out)
    → Replaces f cs d.contexes
finish_read-Replaces f cs (done (s, r')) d r out k e =
    (s.context, k.1, sym (ap (files_or []) e) ∙ ap (put_context s.context) k.0)
finish_read-Replaces f cs fault d r out k e = cc
finish_read-Replaces f cs out_of_fuel d r out k e = cc

abbrev written_files_or : List Fcontext → Outcome (CipherDev × Reply) → List Fcontext
written_files_or cs (done r) = r.0.contexes
written_files_or cs fault = cs
written_files_or cs out_of_fuel = cs

finish_write-Replaces :
    (f : ℕ) (cs : List Fcontext) (o : Outcome (Writing × Reply)) (d : CipherDev) (r : Reply)
    → Kept (WriteKeeps f cs) o
    → finish_write o ≡ done (d, r)
    → Replaces f cs d.contexes
finish_write-Replaces f cs (done (s, r')) d r k e =
    (s.context, k.1, sym (ap (written_files_or []) e) ∙ ap (put_context s.context) k.0)
finish_write-Replaces f cs fault d r k e = cc
finish_write-Replaces f cs out_of_fuel d r k e = cc

pub cipher_read-Replaces :
    (dev d : CipherDev) (f count room : ℕ) (r : Reply) (out : List ℕ)
    → cipher_read dev f count room ≡ done (d, r, out)
    → Replaces f dev.contexes d.contexes
cipher_read-Replaces dev d f count room r out e =
    elim (Option-cases (find_context f dev.contexes)) [
      | inl closed ↦ absurd (cc (cipher_read-closed dev f count room closed))
      | inr (c, here) ↦
          finish_read-Replaces f dev.contexes _ d r out
            (loop-Kept (ReadKeeps f dev.contexes) read_step (read_step-Keeps f dev.contexes)
              (read_fuel dev count)
              (record { dev = dev; context = c; count = count; room = room; out = [] })
              (refl, find_context-file f dev.contexes c here))
            (sym (cipher_read-open dev f count room c here) ∙ e)
    ]

pub cipher_write-Replaces :
    (kmalloc : ℕ → Bool) (dev d : CipherDev) (f : ℕ) (buf : List ℕ) (count : ℕ) (c : Fcontext)
    (r : Reply)
    → find_context f dev.contexes ≡ some c
    → cipher_write kmalloc dev f buf count ≡ done (d, r)
    → (d.contexes ≡ dev.contexes) ⊎ Replaces f dev.contexes d.contexes
cipher_write-Replaces kmalloc dev d f buf count c r here e =
    elim (Bool-cases (leb max_write_len c.totalwritten)) [
      | inl used_up ↦ inl (
          sym (
            ap (written_files_or [])
              (sym (cipher_write-used_up kmalloc dev f buf count c here used_up) ∙ e)))
      | inr below ↦ inr (
          finish_write-Replaces f dev.contexes _ d r
            (loop-Kept (WriteKeeps f dev.contexes) (write_step kmalloc)
              (write_step-Keeps f dev.contexes kmalloc) (limit_count c.totalwritten count + 1)
              (record {
                dev = dev;
                context = c;
                count = limit_count c.totalwritten count;
                buf = buf;
                total_written = 0;
              })
              (refl, find_context-file f dev.contexes c here))
            (sym (cipher_write-open kmalloc dev f buf count c here below) ∙ e))
    ]
