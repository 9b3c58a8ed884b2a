-- ===== src/Cipher/System/Stuck.antt =====
-- A file that is opened for reading while the device holds nothing.
use mathlib.Core.Path.{subst}
use advanced_unix_ceng.Base.{
  ℕ, suc, ◌+◌, ◌≡◌, ◌≢◌, refl, ap, sym, ◌∙◌, inl, inr, List, [], none, some, Bool, true, ◌==◌,
  ==_iff, arith, Bool-cases,
}
use advanced_unix_ceng.Cipher.Device.{Fcontext, CipherDev, Reply, value, find_context, put_context}
use advanced_unix_ceng.Cipher.Loop.{stop, Outcome, done, fault, out_of_fuel, loop}
use advanced_unix_ceng.Cipher.Read.{Reading, read_step, read_fuel, finish_read, cipher_read}
use advanced_unix_ceng.Cipher.Loop.Rule.{loop-stop}
use advanced_unix_ceng.Cipher.Write.Limit.{find_context-put_context}
use advanced_unix_ceng.Cipher.Read.Safety.{cipher_read-open}
use advanced_unix_ceng.Cipher.File.{start_context, cipher_open, cipher_release}
use advanced_unix_ceng.Cipher.Ioctl.{Ioc, reset_context, reset_device}
use advanced_unix_ceng.Cipher.Ioctl.Commands.{find_context-reset}
use advanced_unix_ceng.Cipher.Loop.Rule.{Settles, settled}
use advanced_unix_ceng.Cipher.Ioctl.Safety.{cipher_ioctl-Keeps}
use advanced_unix_ceng.Cipher.System.Reader.{open_reader, find_newest}
use advanced_unix_ceng.Cipher.System.{Step, opened, released, did_read, wrote, controlled}
use advanced_unix_ceng.Cipher.System.Files.{
  Replaces, find_context-put_other, find_context-delete_other, find_context-file,
  cipher_read-Replaces, cipher_write-Replaces,
}

-- A file that is open for reading, with no bucket to read from.
abbrev pub IsStuck : ℕ → CipherDev → Type 0
IsStuck g dev = (c : Fcontext) × (find_context g dev.contexes ≡ some c) × (c.next ≡ none)

stuck_round : (s : Reading) → s.context.next ≡ none → s.out ≡ [] → read_step s ≡ stop s (value 0)
unfolding read_step
stuck_round s e o = ground arith

-- A read on such a file: it changes nothing, and returns 0.
read-IsStuck :
    (dev : CipherDev) (g count room : ℕ) (c : Fcontext)
    → find_context g dev.contexes ≡ some c
    → c.next ≡ none
    → cipher_read dev g count room
      ≡ done (record dev { contexes = put_context c dev.contexes }, value 0, [])
read-IsStuck dev g count room c here e =
    let s : Reading = record { dev = dev; context = c; count = count; room = room; out = [] } in
    let fuel : read_fuel dev count ≡ suc (count + dev.allocs + 1) = omega arith in
    cipher_read-open dev g count room c here
    ∙ ap (λ k. finish_read (loop read_step k s)) fuel
    ∙ ap finish_read
        (loop-stop read_step (count + dev.allocs + 1) s s (value 0) (stuck_round s e refl))

IsStuck-same :
    (g : ℕ) (d d' : CipherDev)
    → find_context g d'.contexes ≡ find_context g d.contexes
    → IsStuck g d
    → IsStuck g d'
IsStuck-same g d d' e (c, here, none_next) = (c, e ∙ here, none_next)

IsStuck-Replaces :
    (f g : ℕ) (d d' : CipherDev)
    → f ≢ g
    → Replaces f d.contexes d'.contexes
    → IsStuck g d
    → IsStuck g d'
IsStuck-Replaces f g d d' ne (x, file, e) =
    IsStuck-same g d d' (ap (find_context g) e ∙ find_context-put_other x f g d.contexes file ne)

read_done : (o : Outcome (CipherDev × Reply × List ℕ)) → CipherDev → CipherDev
read_done (done r) d = r.0
read_done fault d = d
read_done out_of_fuel d = d

IsStuck-read_self :
    (g count room : ℕ) (d d' : CipherDev) (r : Reply) (out : List ℕ)
    → cipher_read d g count room ≡ done (d', r, out)
    → IsStuck g d
    → IsStuck g d'
unfolding read_done
IsStuck-read_self g count room d d' r out e (c, here, none_next) =
    let same : d' ≡ record d { contexes = put_context c d.contexes } =
      ap (λ o. read_done o d) (sym e ∙ read-IsStuck d g count room c here none_next) in
    let found =
      find_context-put_context c c g d.contexes (find_context-file g d.contexes c here) here in
    (c, ap (λ k. find_context g k.contexes) same ∙ found, none_next)

IsStuck-open :
    (kmalloc : ℕ → Bool) (f g flags : ℕ) (d : CipherDev)
    → f ≢ g
    → find_context g (cipher_open kmalloc d f flags).0.contexes ≡ find_context g d.contexes
unfolding cipher_open find_context start_context
IsStuck-open kmalloc f g flags d ne = ground arith

IsStuck-release :
    (f g : ℕ) (d : CipherDev)
    → f ≢ g
    → find_context g (cipher_release d f).0.contexes ≡ find_context g d.contexes
unfolding cipher_release
IsStuck-release f g d ne = ground (arith, find_context-delete_other f g d.contexes)

IsStuck-reset :
    (g : ℕ) (key : List ℕ) (d : CipherDev) → IsStuck g d → IsStuck g (reset_device key d)
unfolding reset_device
IsStuck-reset g key d (c, here, none_next) =
    (reset_context c, find_context-reset g d.contexes c here, refl)

module _ (m : Ioc) (kmalloc : ℕ → Bool) (g : ℕ) where
  -- A call that neither closes file `g` nor writes on it.
  abbrev pub Spares : {d d' : CipherDev} → Step m kmalloc d d' → Type 0
  Spares (opened f flags new e) = Unit {0}
  Spares (released f e) = f ≢ g
  Spares (did_read f count room r out e) = Unit {0}
  Spares (wrote f buf count c r here small e) = f ≢ g
  Spares (controlled f cmd arg r val e) = Unit {0}

  -- Any number of such calls.
  pub data Leads (d : CipherDev) : CipherDev → Type 0 where
    rest : Leads d d
    and_then :
        {d' d'' : CipherDev} → Leads d d' → (s : Step m kmalloc d' d'') → Spares s → Leads d d''

  not_open : (d : CipherDev) (f : ℕ) → find_context f d.contexes ≡ none → IsStuck g d → f ≢ g
  not_open d f new (c, here, none_next) = λ same. cc

  Step-IsStuck :
      {d d' : CipherDev} (s : Step m kmalloc d d') → Spares s → IsStuck g d → IsStuck g d'
  Step-IsStuck {d} (opened f flags new e) k h = rw e (
      IsStuck-same g d (cipher_open kmalloc d f flags).0
        (IsStuck-open kmalloc f g flags d (not_open d f new h)) h)
  Step-IsStuck {d} (released f e) k h =
      rw e (IsStuck-same g d (cipher_release d f).0 (IsStuck-release f g d k) h)
  Step-IsStuck {d} {d'} (did_read f count room r out e) k h = elim (Bool-cases (f == g)) [
    | inl same ↦
        let self : f ≡ g = (==_iff f g).0 same in
        IsStuck-read_self g count room d d' r out
          (subst (λ k. cipher_read d k count room ≡ done (d', r, out)) self e) h
    | inr other ↦
        IsStuck-Replaces f g d d' (ground (arith, other))
          (cipher_read-Replaces d d' f count room r out e) h
  ]
  Step-IsStuck {d} {d'} (wrote f buf count c r here small e) k h =
      elim (cipher_write-Replaces kmalloc d d' f buf count c r here e) [
        | inl same ↦ IsStuck-same g d d' (ap (find_context g) same) h
        | inr x ↦ IsStuck-Replaces f g d d' k x h
      ]
  Step-IsStuck {d} (controlled f cmd arg r val e) k h =
      settled (λ a. IsStuck g a.0) _ _
        (cipher_ioctl-Keeps (IsStuck g) d h (λ key short. IsStuck-reset g key d h) m f cmd arg) e

  Leads-IsStuck : {d d' : CipherDev} → Leads d d' → IsStuck g d → IsStuck g d'
  Leads-IsStuck rest h = h
  Leads-IsStuck (and_then l s k) h = Step-IsStuck s k (Leads-IsStuck l h)

IsStuck-start :
    (kmalloc : ℕ → Bool) (d : CipherDev) (g : ℕ)
    → kmalloc d.allocs ≡ true
    → d.buckets ≡ []
    → IsStuck g (cipher_open kmalloc d g 0).0
unfolding start_context
IsStuck-start kmalloc d g ok empty =
    rw (open_reader kmalloc d g ok, empty) (_, find_newest g _ d.contexes refl, refl)

-- A process that opens the device for reading while it holds no bucket, as no process has written
-- yet or a reset has freed them all, reads 0 bytes for as long as its file is open: after any
-- sequence of calls that return, of this process and of others, in which its own file is neither
-- closed nor written on, a read of any count returns 0 and copies nothing, however much the others
-- have written meanwhile.
pub open-empty-read :
    (m : Ioc) (kmalloc : ℕ → Bool) (d d' : CipherDev) (g count room : ℕ)
    → kmalloc d.allocs ≡ true
    → d.buckets ≡ []
    → Leads m kmalloc g (cipher_open kmalloc d g 0).0 d'
    → Settles ⊥ (λ r. (r.1 ≡ value 0) × (r.2 ≡ [])) (cipher_read d' g count room)
open-empty-read m kmalloc d d' g count room ok empty l =
    let stuck = Leads-IsStuck m kmalloc g l (IsStuck-start kmalloc d g ok empty) in
    rw (read-IsStuck d' g count room stuck.0 stuck.1 stuck.2) (refl, refl)
