-- ===== src/SupDem/Owners/Holding.antt =====
-- Which ids are held, when a client comes to hw1/supdemserv.c and when it goes.
use mathlib.Core.Path.{subst}
use advanced_unix_ceng.Base.{
  ℕ, zero, suc, ◌+◌, ◌≡◌, refl, List, [], ◌∷◌, some, false, ◌==◌, ==_iff, arith, get_elem?, set,
  get_elem?-set_ne, Bool-cases, inl, inr,
}
use advanced_unix_ceng.Base.Int.{ℤ, pos, negsuc, eqb_ℤ}
use advanced_unix_ceng.SupDem.Agent.Identities.{identity, identities}
use advanced_unix_ceng.SupDem.Agent.Registering.{nobody, FreeSlots}
use advanced_unix_ceng.SupDem.Owners.{Held, Sound, SoundFrom}
use advanced_unix_ceng.SupDem.State.{Client}

pub SoundFrom-FreeSlots : (n : ℕ) (ks : List Client) → SoundFrom n (identities ks) → FreeSlots ks
SoundFrom-FreeSlots n [] h = tt
SoundFrom-FreeSlots n (k ∷ ks) h = (λ free. ground (arith, h.0), SoundFrom-FreeSlots (suc n) ks h.1)

pub SoundFrom-set :
    (n i m : ℕ) (ids : List (ℤ × ℤ)) (v : ℤ × ℤ)
    → n + i ≡ m
    → SoundFrom n ids
    → Sound m v
    → SoundFrom n (set ids i v)
SoundFrom-set n i m [] v e h s = tt
SoundFrom-set n zero m (x ∷ ids) v e h s = (subst (λ k. Sound k v) (omega arith) s, h.1)
SoundFrom-set n (suc i) m (x ∷ ids) v e h s =
    (h.0, SoundFrom-set (suc n) i m ids v (omega arith) h.1 s)

pub get_elem?-set_here :
    (ids : List (ℤ × ℤ)) (i : ℕ) (u v : ℤ × ℤ)
    → get_elem? ids i ≡ some u
    → get_elem? (set ids i v) i ≡ some v
get_elem?-set_here [] i u v e = cc
get_elem?-set_here (x ∷ ids) zero u v e = refl
get_elem?-set_here (x ∷ ids) (suc i) u v e = get_elem?-set_here ids i u v e

pub get_elem?-identities :
    (ks : List Client) (i : ℕ) (k : Client)
    → get_elem? ks i ≡ some k
    → get_elem? (identities ks) i ≡ some (identity k)
get_elem?-identities [] i k e = cc
get_elem?-identities (x ∷ ks) zero k e = ground (arith, e)
get_elem?-identities (x ∷ ks) (suc i) k e = get_elem?-identities ks i k e

-- A client that takes a slot takes it from nobody.
pub Held-set :
    (ids : List (ℤ × ℤ)) (i : ℕ) (socket id : ℤ)
    → get_elem? ids i ≡ some nobody
    → Held ids id
    → Held (set ids i (pos i, socket)) id
Held-set ids i socket (negsuc n) free h = h
Held-set ids i socket (pos j) free h = elim (Bool-cases (i == j)) [
  | inl same ↦
      let e : i ≡ j = (==_iff i j).0 same in
      subst (λ k. Held (set ids i (pos i, socket)) (pos k)) e
        (rw (get_elem?-set_here ids i nobody (pos i, socket) free) (ground arith))
  | inr other ↦ rw (get_elem?-set_ne ids {i = i} {j = j} (pos i, socket) (ground (arith, other))) h
]

-- A client that goes takes with it what was its own.
pub Held-close :
    (ids : List (ℤ × ℤ)) (i : ℕ) (id : ℤ)
    → eqb_ℤ id (pos i) ≡ false
    → Held ids id
    → Held (set ids i nobody) id
Held-close ids i (negsuc n) other h = h
Held-close ids i (pos j) other h =
    rw (get_elem?-set_ne ids {i = i} {j = j} nobody (ground (arith, other))) h

pub own_slot :
    (ks : List Client) (i : ℕ) (k : Client)
    → get_elem? ks i ≡ some k
    → k.client_id ≡ pos i
    → Held (identities ks) (pos i)
own_slot ks i k here own = rw (get_elem?-identities ks i k here, own) (ground arith)
