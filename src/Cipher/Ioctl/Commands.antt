-- ===== src/Cipher/Ioctl/Commands.antt =====
-- CIPHER_IOCCLR followed by CIPHER_IOCQREM, and what an error reply leaves.
use advanced_unix_ceng.Base.{
  ℕ, ◌≤◌, ◌<◌, ◌≡◌, ◌≢◌, refl, ap, sym, ◌∙◌, inl, inr, List, [], ◌∷◌, map, none, some, true, false,
  ◌==◌, ==_iff, arith, Bool-cases, ltb,
}
use advanced_unix_ceng.Cipher.Device.{
  Mode, reader, writer, CipherDev, Fcontext, value, find_context, max_write_len,
}
use advanced_unix_ceng.Cipher.Loop.{done}
use advanced_unix_ceng.Cipher.Loop.Rule.{Settles}
use advanced_unix_ceng.Cipher.Ioctl.{
  Ioc, UserArg, default_cipher, reset_context, reset_device, query_remaining, query_command,
  reject_if, access_error, switch_command, cipher_ioctl, cipher_iocclr, cipher_iocskey, key_command,
  cipher_iocqrem, cipher_ioc_magic,
}

-- A call on an open file whose command passes the checks.
accepted :
    (m : Ioc) (dev : CipherDev) (f cmd : ℕ) (arg : UserArg) (c : Fcontext)
    → find_context f dev.contexes ≡ some c
    → m.ioc_type cmd ≡ cipher_ioc_magic
    → m.ioc_nr cmd ≤ 2
    → access_error m cmd arg ≡ false
    → cipher_ioctl m dev f cmd arg ≡ switch_command m dev c cmd arg
unfolding cipher_ioctl reject_if
accepted m dev f cmd arg c here typed low accessible =
    let t : (m.ioc_type cmd == cipher_ioc_magic) ≡ true = (==_iff _ _).1 typed in
    let n : ltb 2 (m.ioc_nr cmd) ≡ false = ground arith in rw (here, cipher_ioctl, t, n, accessible)

module _ (m : Ioc) where
  ioc-ne :
      (d n s d' n' s' : ℕ)
      → d < 4
      → d' < 4
      → n < 256
      → n' < 256
      → s < 16384
      → s' < 16384
      → n ≢ n'
      → (m.ioc d 222 n s == m.ioc d' 222 n' s') ≡ false
  ioc-ne d n s d' n' s' hd hd' hn hn' hs hs' ne =
      elim (Bool-cases (m.ioc d 222 n s == m.ioc d' 222 n' s')) [
        | inl e ↦ absurd (
            ne (
              sym (m.nr_lem d 222 n s hd (omega arith) hn hs)
              ∙ ap m.ioc_nr ((==_iff _ _).0 e)
              ∙ m.nr_lem d' 222 n' s' hd' (omega arith) hn' hs'))
        | inr e ↦ e
      ]

  pub clear_runs :
      (dev : CipherDev) (f : ℕ) (arg : UserArg) (c : Fcontext)
      → find_context f dev.contexes ≡ some c
      → cipher_ioctl m dev f (cipher_iocclr m) arg
        ≡ done (reset_device default_cipher dev, value 0, none)
  unfolding switch_command access_error
  clear_runs dev f arg c here =
      let same : (cipher_iocclr m == cipher_iocclr m) ≡ true = (==_iff _ _).1 refl in
      accepted m dev f (cipher_iocclr m) arg c here
        (m.type_lem 0 222 0 0 (omega arith) (omega arith) (omega arith) (omega arith))
        (omega (arith, m.nr_lem 0 222 0 0 (omega arith) (omega arith) (omega arith) (omega arith)))
        (rw (m.dir_lem 0 222 0 0 (omega arith) (omega arith) (omega arith) (omega arith)) refl)
      ∙ rw same

  pub query_runs :
      (dev : CipherDev) (f : ℕ) (arg : UserArg) (c : Fcontext)
      → find_context f dev.contexes ≡ some c
      → arg.access_ok 4 ≡ true
      → cipher_ioctl m dev f (cipher_iocqrem m) arg ≡ query_command dev c arg
  unfolding switch_command access_error
  query_runs dev f arg c here readable =
      let same : (cipher_iocqrem m == cipher_iocqrem m) ≡ true = (==_iff _ _).1 refl in
      accepted m dev f (cipher_iocqrem m) arg c here
        (m.type_lem 2 222 2 4 (omega arith) (omega arith) (omega arith) (omega arith))
        (omega (arith, m.nr_lem 2 222 2 4 (omega arith) (omega arith) (omega arith) (omega arith)))
        (rw
          (
            m.dir_lem 2 222 2 4 (omega arith) (omega arith) (omega arith) (omega arith),
            m.size_lem 2 222 2 4 (omega arith) (omega arith) (omega arith) (omega arith),
            readable,
          )
          refl)
      ∙ rw (
        ioc-ne 2 2 4 0 0 0 (omega arith) (omega arith) (omega arith) (omega arith) (omega arith)
            (omega arith) (omega arith),
        ioc-ne 2 2 4 1 1 1 (omega arith) (omega arith) (omega arith) (omega arith) (omega arith)
            (omega arith) (omega arith),
        same,
      )

  pub key_runs :
      (dev : CipherDev) (f : ℕ) (arg : UserArg) (c : Fcontext)
      → find_context f dev.contexes ≡ some c
      → arg.access_ok 1 ≡ true
      → cipher_ioctl m dev f (cipher_iocskey m) arg ≡ key_command dev arg
  unfolding switch_command access_error
  key_runs dev f arg c here readable =
      let same : (cipher_iocskey m == cipher_iocskey m) ≡ true = (==_iff _ _).1 refl in
      accepted m dev f (cipher_iocskey m) arg c here
        (m.type_lem 1 222 1 1 (omega arith) (omega arith) (omega arith) (omega arith))
        (omega (arith, m.nr_lem 1 222 1 1 (omega arith) (omega arith) (omega arith) (omega arith)))
        (rw
          (
            m.dir_lem 1 222 1 1 (omega arith) (omega arith) (omega arith) (omega arith),
            m.size_lem 1 222 1 1 (omega arith) (omega arith) (omega arith) (omega arith),
            readable,
          )
          refl)
      ∙ rw (
        ioc-ne 1 1 1 0 0 0 (omega arith) (omega arith) (omega arith) (omega arith) (omega arith)
            (omega arith) (omega arith),
        same,
      )

pub find_context-reset :
    (f : ℕ) (cs : List Fcontext) (c : Fcontext)
    → find_context f cs ≡ some c
    → find_context f (map reset_context cs) ≡ some (reset_context c)
unfolding find_context
find_context-reset f [] c e = ground arith
find_context-reset f (d ∷ cs) c e = ground (arith, find_context-reset f cs c)

-- What a file can still read or write on an empty device.
abbrev pub fresh_remaining : Mode → ℕ
fresh_remaining reader = 0
fresh_remaining writer = max_write_len

-- After CIPHER_IOCCLR on any open file, CIPHER_IOCQREM on any open file, with a pointer to an
-- `int` that can be written, says that a reader has nothing to read and a writer all 8192 bytes
-- to write, and changes nothing.
pub clear-query :
    (m : Ioc) (dev : CipherDev) (f g : ℕ) (c d : Fcontext) (arg arg' : UserArg)
    → find_context f dev.contexes ≡ some c
    → find_context g dev.contexes ≡ some d
    → arg'.access_ok 4 ≡ true
    → 4 ≤ arg'.room
    → Settles ⊥
        (λ r.
          cipher_ioctl m r.0 g (cipher_iocqrem m) arg'
          ≡ done (r.0, value 0, some (fresh_remaining d.mode)))
        (cipher_ioctl m dev f (cipher_iocclr m) arg)
unfolding query_command query_remaining reset_device
clear-query m dev f g c d arg arg' here there readable room = rw (clear_runs m dev f arg c here) (
    query_runs m (reset_device default_cipher dev) g arg' (reset_context d)
      (find_context-reset g dev.contexes d there) readable
    ∙ ground arith)
