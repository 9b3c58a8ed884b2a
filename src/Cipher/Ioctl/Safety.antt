-- ===== src/Cipher/Ioctl/Safety.antt =====
-- cipher_ioctl keeps the device well formed.
use advanced_unix_ceng.Base.{
  ℕ, ◌-◌, ◌≤◌, ◌<◌, ◌≡◌, inl, inr, List, [], ◌∷◌, map, arith, ◌==◌, Bool, true, false, Bool-cases,
  Option-cases, length, length-append, length-replicate, length-take, take, ltb, replicate,
}
use advanced_unix_ceng.Cipher.Device.{CipherDev, Fcontext, Errno, find_context}
use advanced_unix_ceng.Cipher.Device.Valid.{WithinLimit, IsValid}
use advanced_unix_ceng.Cipher.Loop.Rule.{Settles}
use advanced_unix_ceng.Cipher.Ioctl.{
  Ioc, UserArg, Answer, cipher_iocclr, cipher_iocskey, cipher_iocqrem, default_cipher, c_string,
  padded, reset_context, cipher_free_buckets, reset_device, reject_if, query_command, key_command,
  switch_command, cipher_ioctl,
}

pub length-c_string : (s : List ℕ) → length (c_string s) ≤ length s
unfolding c_string
length-c_string [] = omega arith
length-c_string (x ∷ xs) = ground (arith, length-c_string xs)

length-padded : (s : List ℕ) → length s ≤ 4096 → length (padded s) ≡ 4096
length-padded s h = omega (
  arith,
  length-append s (replicate (4096 - length s) 0),
  length-replicate {A = ℕ} (4096 - length s) 0,
)

reset_context-WithinLimit : (cs : List Fcontext) → WithinLimit (map reset_context cs)
reset_context-WithinLimit [] = tt
reset_context-WithinLimit (c ∷ cs) = (omega arith, reset_context-WithinLimit cs)

pub reset_device-IsValid :
    (key : List ℕ) (dev : CipherDev) → length key < 4096 → IsValid (reset_device key dev)
unfolding reset_device cipher_free_buckets
reset_device-IsValid key dev h = record {
  chain = omega arith;
  key_length = length-padded key (omega arith);
  key_ends = h;
  limited = reset_context-WithinLimit dev.contexes;
}

-- What an ioctl call keeps: all that resetting the device keeps.
module _ (P : CipherDev → Type 0) (dev : CipherDev) (p : P dev)
    (q : (key : List ℕ) → length key < 4096 → P (reset_device key dev)) where
  abbrev Keeps : Answer → Type 0
  Keeps a = Settles Unit (λ r. P r.0) a

  key_command-Keeps : (arg : UserArg) → Keeps (key_command dev arg)
  unfolding key_command
  key_command-Keeps arg =
      let key = c_string (take 4095 arg.bytes) in
      let short : length key < 4096 =
        omega (arith, length-c_string (take 4095 arg.bytes), length-take 4095 arg.bytes) in
      let kept = q key short in
      elim (Bool-cases (ltb (length arg.bytes) 4096)) [ inl e ↦ rw e p | inr e ↦ rw e kept ]

  query_command-Keeps : (c : Fcontext) (arg : UserArg) → Keeps (query_command dev c arg)
  unfolding query_command
  query_command-Keeps c arg = ground (arith, p)

  switch_command-Keeps :
      (m : Ioc) (c : Fcontext) (cmd : ℕ) (arg : UserArg) → Keeps (switch_command m dev c cmd arg)
  unfolding switch_command
  switch_command-Keeps m c cmd arg = elim (Bool-cases (cmd == cipher_iocclr m)) [
    | inl e ↦ rw e (q default_cipher (omega arith))
    | inr e ↦ elim (Bool-cases (cmd == cipher_iocskey m)) [
      | inl e' ↦ rw (e, e') (key_command-Keeps arg)
      | inr e' ↦ elim (Bool-cases (cmd == cipher_iocqrem m)) [
        | inl e'' ↦ rw (e, e', e'') (query_command-Keeps c arg)
        | inr e'' ↦ rw (e, e', e'') p
      ]
    ]
  ]

  reject_if-Keeps :
      (test : Bool) (e : Errno) (rest : Answer) → Keeps rest → Keeps (reject_if test dev e rest)
  unfolding reject_if
  reject_if-Keeps true e rest h = p
  reject_if-Keeps false e rest h = h

  pub cipher_ioctl-Keeps :
      (m : Ioc) (f cmd : ℕ) (arg : UserArg) → Keeps (cipher_ioctl m dev f cmd arg)
  unfolding cipher_ioctl
  cipher_ioctl-Keeps m f cmd arg = elim (Option-cases (find_context f dev.contexes)) [
    | inl e ↦ rw (e, cipher_ioctl) tt
    | inr (c, e) ↦
        rw (e, cipher_ioctl)
          (reject_if-Keeps _ _ _
            (reject_if-Keeps _ _ _ (reject_if-Keeps _ _ _ (switch_command-Keeps m c cmd arg))))
  ]

-- cipher_ioctl keeps the device well formed, whatever the command and the reply.
pub cipher_ioctl-IsValid :
    (m : Ioc) (dev : CipherDev) (f cmd : ℕ) (arg : UserArg)
    → IsValid dev
    → Settles Unit (λ r. IsValid r.0) (cipher_ioctl m dev f cmd arg)
cipher_ioctl-IsValid m dev f cmd arg v =
    cipher_ioctl-Keeps IsValid dev v (λ key short. reset_device-IsValid key dev short) m f cmd arg
