-- ===== src/SupDem/Agent/Registering.antt =====
-- register_client of hw1/supdemserv.c gives a free slot to a client.
use advanced_unix_ceng.Base.{
  ℕ, zero, suc, ◌≡◌, refl, ap, sym, ap₂, ◌⊎◌, List, [], ◌∷◌, Option, none, some, true, arith,
  get_elem?, set, Option-cases, inl, inr,
}
use advanced_unix_ceng.Base.Int.{ℤ, pos, negsuc}
use advanced_unix_ceng.SupDem.Agent.Identities.{identity, identities}
use advanced_unix_ceng.SupDem.Slots.{first_slot, client_free, register_client, modify_client}
use advanced_unix_ceng.SupDem.Slots.Laws.{eqb_ℤ→eq}
use advanced_unix_ceng.SupDem.State.{Client}

-- The id and the socket of a slot that nobody holds.
abbrev pub nobody : ℤ × ℤ
nobody = (negsuc 0, negsuc 0)

-- A slot with no socket has no id either.
abbrev pub FreeSlots : List Client → Type 0
FreeSlots [] = Unit {0}
FreeSlots (k ∷ ks) = (client_free k ≡ true → k.client_id ≡ negsuc 0) × FreeSlots ks

pub free_slot-identity :
    (ks : List Client) (i : ℕ)
    → FreeSlots ks
    → first_slot client_free ks ≡ some i
    → get_elem? (identities ks) i ≡ some nobody
unfolding first_slot
free_slot-identity [] i h e = ground arith
free_slot-identity (k ∷ ks) zero h e =
    let free : client_free k ≡ true = ground (arith, e) in
    ap some (ap₂ (λ a b. (a, b)) (h.0 free) (eqb_ℤ→eq k.client_socket (negsuc 0) free))
free_slot-identity (k ∷ ks) (suc i) h e = free_slot-identity ks i h.1 (ground (arith, e))

pub set_twice : {A : Type 0} (xs : List A) (i : ℕ) (a b : A) → set (set xs i a) i b ≡ set xs i b
set_twice [] i a b = refl
set_twice (x ∷ xs) zero a b = refl
set_twice (x ∷ xs) (suc i) a b = ap (λ ys. x ∷ ys) (set_twice xs i a b)

some_or : {A : Type 0} → A → Option A → A
some_or d none = d
some_or d (some a) = a

pub some-injective : {A : Type 0} {a b : A} → some a ≡ some b → a ≡ b
unfolding some_or
some-injective {a} e = ap (some_or a) e

pub set_same :
    {A : Type 0} (xs : List A) (i : ℕ) (a : A) → get_elem? xs i ≡ some a → set xs i a ≡ xs
set_same [] i a e = refl
set_same (x ∷ xs) zero a e = ap (λ y. y ∷ xs) (sym (some-injective e))
set_same (x ∷ xs) (suc i) a e = ap (λ ys. x ∷ ys) (set_same xs i a e)

pub identities-set :
    (ks : List Client) (i : ℕ) (k : Client)
    → identities (set ks i k) ≡ set (identities ks) i (identity k)
identities-set [] i k = refl
identities-set (x ∷ ks) zero k = refl
identities-set (x ∷ ks) (suc i) k = ap (λ ids. identity x ∷ ids) (identities-set ks i k)

pub identities-close :
    (ks : List Client) (i : ℕ)
    → identities
        (modify_client (λ k. record k { client_socket = negsuc 0; client_id = negsuc 0 }) ks i)
      ≡ set (identities ks) i nobody
unfolding modify_client
identities-close [] i = refl
identities-close (k ∷ ks) zero = refl
identities-close (k ∷ ks) (suc i) = ap (λ ids. identity k ∷ ids) (identities-close ks i)

identities-missing :
    (ks : List Client) (i : ℕ) → get_elem? ks i ≡ none → get_elem? (identities ks) i ≡ none
identities-missing [] i e = refl
identities-missing (k ∷ ks) zero e = ground (arith, e)
identities-missing (k ∷ ks) (suc i) e = identities-missing ks i e

-- A client is given slot `i`.
pub record Registers (ks : List Client) (sockfd : ℤ) (i : ℕ) : Type 0 where
  pub given : (register_client ks sockfd).1 ≡ some i
  pub was_free : get_elem? (identities ks) i ≡ some nobody
  pub becomes : identities (register_client ks sockfd).0 ≡ set (identities ks) i (pos i, sockfd)

pub register_client-cases :
    (ks : List Client) (sockfd : ℤ)
    → FreeSlots ks
    → (((register_client ks sockfd).1 ≡ none)
        × (first_slot client_free ks ≡ none)
        × ((register_client ks sockfd).0 ≡ ks))
      ⊎ ((i : ℕ) × Registers ks sockfd i)
unfolding register_client
register_client-cases ks sockfd h = elim (Option-cases (first_slot client_free ks)) [
  | inl full ↦ inl (rw (full, register_client) refl, full, rw (full, register_client) refl)
  | inr (i, found) ↦
      let free = free_slot-identity ks i h found in
      elim (Option-cases (get_elem? ks i)) [
        | inl out ↦ absurd (cc (free, identities-missing ks i out))
        | inr (k, here) ↦ inr (
          i,
          record {
            given = rw (found, register_client, here) refl;
            was_free = free;
            becomes = rw (found, register_client, here) (identities-set ks i _);
          },
        )
      ]
]
