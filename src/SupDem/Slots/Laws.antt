-- ===== src/SupDem/Slots/Laws.antt =====
-- What the slot operations of hw1/supdemserv.c do to the slots of each client.
use advanced_unix_ceng.Base.{
  ℕ, zero, suc, ◌+◌, ◌≡◌, refl, inl, inr, List, [], ◌∷◌, map, Option, none, some, Bool, true, false,
  if◌then◌else◌, arith, set, Option-cases,
}
use advanced_unix_ceng.Base.Int.{ℤ, pos, eqb_ℤ}
use advanced_unix_ceng.SupDem.State.{Supply, Demand, Watch, Client, SharedMem, live}
use advanced_unix_ceng.SupDem.Slots.{
  first_slot, watch_free, clear_watch, remove_watch, new_watch, add_new_watch, clear_supply,
  clear_demand, remove_client_resources,
}

-- The number of slots of a client.
abbrev pub one_if : Bool → ℕ
one_if true = 1
one_if false = 0

abbrev pub watches_of : ℤ → List Watch → ℕ
watches_of id [] = 0
watches_of id (w ∷ ws) = one_if (eqb_ℤ w.client_id id) + watches_of id ws

abbrev pub supplies_of : ℤ → List Supply → ℕ
supplies_of id [] = 0
supplies_of id (s ∷ ss) = one_if (eqb_ℤ s.client_id id) + supplies_of id ss

abbrev pub demands_of : ℤ → List Demand → ℕ
demands_of id [] = 0
demands_of id (d ∷ ds) = one_if (eqb_ℤ d.client_id id) + demands_of id ds

-- The watches of each client, after those of one are removed.
watches_of-clear :
    (id other : ℤ) (ws : List Watch)
    → live id ≡ true
    → live other ≡ true
    → watches_of other (map (clear_watch id) ws)
      ≡ (if eqb_ℤ id other then 0 else watches_of other ws)
unfolding clear_watch
watches_of-clear id other [] h h' = ground arith
watches_of-clear id other (w ∷ ws) h h' = ground (arith, watches_of-clear id other ws)

pub remove_watch-counts :
    (id other : ℤ) (ws : List Watch)
    → live id ≡ true
    → live other ≡ true
    → watches_of other (remove_watch ws id) ≡ (if eqb_ℤ id other then 0 else watches_of other ws)
unfolding remove_watch
remove_watch-counts id other ws h h' = watches_of-clear id other ws h h'

-- A watch put into the first free slot counts for its client alone.
watches_of-set :
    (other : ℤ) (v : Watch) (ws : List Watch) (i : ℕ)
    → live other ≡ true
    → first_slot watch_free ws ≡ some i
    → watches_of other (set ws i v) ≡ one_if (eqb_ℤ v.client_id other) + watches_of other ws
unfolding first_slot
watches_of-set other v [] i h e = ground arith
watches_of-set other v (w ∷ ws) zero h e = ground arith
watches_of-set other v (w ∷ ws) (suc i) h e = ground (arith, watches_of-set other v ws i)

-- One watch where there is a slot, else none.
abbrev pub one_if_some : Option ℕ → ℕ
one_if_some none = 0
one_if_some (some i) = 1

pub eqb_ℤ→eq : (a b : ℤ) → eqb_ℤ a b ≡ true → a ≡ b
eqb_ℤ→eq a b h = ground arith

-- For a client with an id other than -1: after add_new_watch the client has exactly one watch, or
-- none where other clients hold every slot, and each other client, of an id other than -1, has as
-- many as before.
pub add_new_watch-counts :
    (k : Client) (id new_id other : ℤ) (ws : List Watch)
    → live id ≡ true
    → live other ≡ true
    → watches_of other (add_new_watch ws k id new_id) ≡ (
        if eqb_ℤ id other
        then one_if_some (first_slot watch_free (remove_watch ws id))
        else watches_of other ws)
unfolding add_new_watch new_watch
add_new_watch-counts k id new_id other ws alive h =
    let left : watches_of other (remove_watch ws id)
        ≡ (if eqb_ℤ id other then 0 else watches_of other ws) =
      remove_watch-counts id other ws alive h in
    elim (Option-cases (first_slot watch_free (remove_watch ws id))) [
      | inl taken ↦ rw (taken, add_new_watch, left) refl
      | inr (i, found) ↦
          let v = new_watch k id new_id in
          rw (found, add_new_watch, watches_of-set other v (remove_watch ws id) i h found, left)
            (ground arith)
    ]

-- The slots of each client, after the resources of one are removed.
supplies_of-clear :
    (id other : ℤ) (ss : List Supply)
    → live id ≡ true
    → live other ≡ true
    → supplies_of other (map (clear_supply id) ss)
      ≡ (if eqb_ℤ id other then 0 else supplies_of other ss)
unfolding clear_supply
supplies_of-clear id other [] h h' = ground arith
supplies_of-clear id other (s ∷ ss) h h' = ground (arith, supplies_of-clear id other ss)

demands_of-clear :
    (id other : ℤ) (ds : List Demand)
    → live id ≡ true
    → live other ≡ true
    → demands_of other (map (clear_demand id) ds)
      ≡ (if eqb_ℤ id other then 0 else demands_of other ds)
unfolding clear_demand
demands_of-clear id other [] h h' = ground arith
demands_of-clear id other (d ∷ ds) h h' = ground (arith, demands_of-clear id other ds)

-- remove_client_resources leaves the client with no supply, demand or watch, and every other
-- client, of an id other than -1, with as many as it had.
pub remove_client_resources-counts :
    (shm : SharedMem) (i : ℕ) (other : ℤ)
    → live other ≡ true
    → let shm' = remove_client_resources shm i in
      let kept : ℕ → ℕ = λ n. if eqb_ℤ (pos i) other then 0 else n in
      (supplies_of other shm'.supplies ≡ kept (supplies_of other shm.supplies))
      × (demands_of other shm'.demands ≡ kept (demands_of other shm.demands))
      × (watches_of other shm'.watches ≡ kept (watches_of other shm.watches))
unfolding remove_client_resources
remove_client_resources-counts shm i other h =
    let alive : live (pos i) ≡ true = ground arith in
    (
      supplies_of-clear (pos i) other shm.supplies alive h,
      demands_of-clear (pos i) other shm.demands alive h,
      watches_of-clear (pos i) other shm.watches alive h,
    )
