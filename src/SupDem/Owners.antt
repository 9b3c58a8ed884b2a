-- ===== src/SupDem/Owners.antt =====
-- Whose the slots of hw1/supdemserv.c are: an id on the map is that of a client that is registered.
pub mod Matching
pub mod Commands
pub mod Holding
pub mod Steps
pub mod Reached
pub mod Halted
pub mod Agents
use advanced_unix_ceng.Base.{
  ℕ, zero, suc, ◌≡◌, ◌≤◌, ◌⊎◌, List, [], ◌∷◌, Option, none, some, All, Bool, true, false, get_elem?,
  ◌==◌,
}
use advanced_unix_ceng.Base.Int.{ℤ, pos, negsuc, eqb_ℤ, ltb_ℤ}
use advanced_unix_ceng.SupDem.Agent.Identities.{identities}
use advanced_unix_ceng.SupDem.Match.{Note}
use advanced_unix_ceng.SupDem.Slots.Laws.{watches_of}
use advanced_unix_ceng.SupDem.State.{Supply, Demand, Watch, Client, SharedMem, live}

-- Whether the slot at an index holds the client with that id.
abbrev pub holds : ℕ → Option (ℤ × ℤ) → Bool
holds i none = false
holds i (some (id, socket)) = eqb_ℤ id (pos i)

-- -1 is the id of a free slot, which nobody has to hold.
abbrev pub is_held : List (ℤ × ℤ) → ℤ → Bool
is_held ids (pos i) = holds i (get_elem? ids i)
is_held ids (negsuc n) = n == 0

abbrev pub Held : List (ℤ × ℤ) → ℤ → Type 0
Held ids id = is_held ids id ≡ true

-- A slot is free, or holds the client whose id is its index, with a socket.
abbrev pub Sound : ℕ → ℤ × ℤ → Type 0
Sound n (id, socket) =
    ((id ≡ negsuc 0) × (socket ≡ negsuc 0)) ⊎ ((id ≡ pos n) × (ltb_ℤ socket (pos 0) ≡ false))

abbrev pub SoundFrom : ℕ → List (ℤ × ℤ) → Type 0
SoundFrom n [] = Unit {0}
SoundFrom n (id ∷ ids) = Sound n id × SoundFrom (suc n) ids

-- `P` is any property of ids.
module _ (P : ℤ → Type 0) where
  -- A notification that is for a client, of which `P` holds.
  abbrev pub Notified : Note → Type 0
  Notified note = (live note.0 ≡ true) × P note.0

  abbrev pub Demands : List Demand → Type 0
  Demands ds = All (λ (d : Demand). P d.client_id) ds

  abbrev pub Supplies : List Supply → Type 0
  Supplies ss = All (λ (s : Supply). P s.client_id) ss

  abbrev pub Watches : List Watch → Type 0
  Watches ws = All (λ (w : Watch). P w.client_id) ws

-- No client has two watches.
abbrev pub Single : List Watch → Type 0
Single ws = (id : ℤ) → live id ≡ true → watches_of id ws ≤ 1

pub record Placed (P : ℤ → Type 0) (shm : SharedMem) : Type 0 where
  pub supplies : Supplies P shm.supplies
  pub demands : Demands P shm.demands
  pub watches : Watches P shm.watches
  pub single : Single shm.watches

-- The clients' slots are sound, every supply, demand and watch is that of a registered client, and
-- no client has two watches.
pub record IsOwned (shm : SharedMem) : Type 0 where
  pub slots : SoundFrom 0 (identities shm.clients)
  pub placed : Placed (Held (identities shm.clients)) shm
