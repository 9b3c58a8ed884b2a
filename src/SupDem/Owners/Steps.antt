-- ===== src/SupDem/Owners/Steps.antt =====
-- What clients of hw1/supdemserv.c do keeps the slots on the map with clients that are registered.
use mathlib.Core.Path.{subst}
use advanced_unix_ceng.Base.{
  ℕ, ◌≡◌, refl, ap, sym, ◌∙◌, List, All-map, All-weaken, Option, none, some, false, arith,
  get_elem?, set, Bool-cases, inl, inr,
}
use advanced_unix_ceng.Base.Int.{ℤ, pos, eqb_ℤ, ltb_ℤ}
use advanced_unix_ceng.SupDem.Agent.Identities.{
  identity, identities, identities-deliver, identities-dispatch,
}
use advanced_unix_ceng.SupDem.Agent.Registering.{
  nobody, set_same, identities-set, identities-close, register_client-cases,
}
use advanced_unix_ceng.SupDem.Owners.{Held, SoundFrom, Placed, IsOwned}
use advanced_unix_ceng.SupDem.Owners.Commands.{dispatch-Placed, remove_watch-Single}
use advanced_unix_ceng.SupDem.Queue.{take_notification}
use advanced_unix_ceng.SupDem.Server.{Command, dispatch, run_command, deliver}
use advanced_unix_ceng.SupDem.Slots.{
  register_client, clear_supply, clear_demand, clear_watch, remove_watch, remove_client_resources,
}
use advanced_unix_ceng.SupDem.State.{Supply, Demand, Watch, Client, SharedMem}
use advanced_unix_ceng.SupDem.Owners.Holding.{
  SoundFrom-FreeSlots, SoundFrom-set, Held-set, Held-close, own_slot, get_elem?-identities,
}

-- The slots on the map, where what is held stays held.
Placed-weaken :
    (P Q : ℤ → Type 0) (shm : SharedMem) (ks : List Client)
    → ((id : ℤ) → P id → Q id)
    → Placed P shm
    → Placed Q (record shm { clients = ks })
Placed-weaken P Q shm ks f v = record {
  supplies =
      All-weaken (λ (s : Supply). P s.client_id) (λ (s : Supply). Q s.client_id) shm.supplies
        (λ s p. f s.client_id p) v.supplies;
  demands =
      All-weaken (λ (d : Demand). P d.client_id) (λ (d : Demand). Q d.client_id) shm.demands
        (λ d p. f d.client_id p) v.demands;
  watches =
      All-weaken (λ (w : Watch). P w.client_id) (λ (w : Watch). Q w.client_id) shm.watches
        (λ w p. f w.client_id p) v.watches;
  single = v.single;
}

-- Where the identities are the same.
pub IsOwned-clients :
    (shm : SharedMem) (ks : List Client)
    → identities ks ≡ identities shm.clients
    → IsOwned shm
    → IsOwned (record shm { clients = ks })
IsOwned-clients shm ks e v = record {
  slots = subst (SoundFrom 0) (sym e) v.slots;
  placed =
      Placed-weaken (Held (identities shm.clients)) (Held (identities ks)) shm ks
        (λ id p. subst (λ ids. Held ids id) (sym e) p) v.placed;
}

pub register_client-IsOwned :
    (shm : SharedMem) (socket : ℤ)
    → ltb_ℤ socket (pos 0) ≡ false
    → IsOwned shm
    → IsOwned (record shm { clients = (register_client shm.clients socket).0 })
register_client-IsOwned shm socket real v =
    elim (register_client-cases shm.clients socket (SoundFrom-FreeSlots 0 shm.clients v.slots)) [
      | inl (none_given, full, same) ↦ IsOwned-clients shm _ (ap identities same) v
      | inr (i, r) ↦
          let ids = identities shm.clients in
          let ks = (register_client shm.clients socket).0 in
          let free = r.was_free in
          record {
            slots =
                subst (SoundFrom 0) (sym r.becomes) (
                  SoundFrom-set 0 i i ids (pos i, socket) (omega arith) v.slots (inr (refl, real)));
            placed =
                Placed-weaken (Held ids) (Held (identities ks)) shm ks
                  (λ id p. subst (λ x. Held x id) (sym r.becomes) (Held-set ids i socket id free p))
                  v.placed;
          }
    ]

pub run_command-IsOwned :
    (shm : SharedMem) (i : ℕ) (k : Client) (cmd : Command)
    → get_elem? shm.clients i ≡ some k
    → k.client_id ≡ pos i
    → IsOwned shm
    → IsOwned (run_command shm i k cmd)
unfolding run_command
run_command-IsOwned shm i k cmd here own v =
    let ids = identities shm.clients in
    let (placed, notes) =
      dispatch-Placed (Held ids) refl i k (own_slot shm.clients i k here own) shm cmd v.placed in
    let after = (dispatch shm i k cmd).0 in
    let same = identities-dispatch shm i k cmd in
    IsOwned-clients after (deliver after.clients (dispatch shm i k cmd).1)
      (identities-deliver after.clients (dispatch shm i k cmd).1)
      (record {
        slots = subst (SoundFrom 0) (sym same) v.slots;
        placed = subst (λ x. Placed (Held x) after) (sym same) placed;
      })

clear_supply-Held :
    (ids : List (ℤ × ℤ)) (i : ℕ) (s : Supply)
    → Held ids s.client_id
    → Held (set ids i nobody) (clear_supply (pos i) s).client_id
unfolding clear_supply
clear_supply-Held ids i s h = elim (Bool-cases (eqb_ℤ s.client_id (pos i))) [
  | inl own ↦ rw own refl
  | inr other ↦ rw other (Held-close ids i s.client_id other h)
]

clear_demand-Held :
    (ids : List (ℤ × ℤ)) (i : ℕ) (d : Demand)
    → Held ids d.client_id
    → Held (set ids i nobody) (clear_demand (pos i) d).client_id
unfolding clear_demand
clear_demand-Held ids i d h = elim (Bool-cases (eqb_ℤ d.client_id (pos i))) [
  | inl own ↦ rw own refl
  | inr other ↦ rw other (Held-close ids i d.client_id other h)
]

clear_watch-Held :
    (ids : List (ℤ × ℤ)) (i : ℕ) (w : Watch)
    → Held ids w.client_id
    → Held (set ids i nobody) (clear_watch (pos i) w).client_id
unfolding clear_watch
clear_watch-Held ids i w h = elim (Bool-cases (eqb_ℤ w.client_id (pos i))) [
  | inl own ↦ rw own refl
  | inr other ↦ rw other (Held-close ids i w.client_id other h)
]

pub remove_client_resources-IsOwned :
    (shm : SharedMem) (i : ℕ) → IsOwned shm → IsOwned (remove_client_resources shm i)
unfolding remove_client_resources remove_watch
remove_client_resources-IsOwned shm i v =
    let ids = identities shm.clients in
    let closed = identities-close shm.clients i in
    record {
      slots =
          subst (SoundFrom 0) (sym closed)
            (SoundFrom-set 0 i i ids nobody (omega arith) v.slots (inl (refl, refl)));
      placed =
          subst (λ x. Placed (Held x) (remove_client_resources shm i)) (sym closed)
            (record {
              supplies =
                  All-map (λ (s : Supply). Held ids s.client_id)
                    (λ (s : Supply). Held (set ids i nobody) s.client_id) (clear_supply (pos i))
                    shm.supplies (clear_supply-Held ids i) v.placed.supplies;
              demands =
                  All-map (λ (d : Demand). Held ids d.client_id)
                    (λ (d : Demand). Held (set ids i nobody) d.client_id) (clear_demand (pos i))
                    shm.demands (clear_demand-Held ids i) v.placed.demands;
              watches =
                  All-map (λ (w : Watch). Held ids w.client_id)
                    (λ (w : Watch). Held (set ids i nobody) w.client_id) (clear_watch (pos i))
                    shm.watches (clear_watch-Held ids i) v.placed.watches;
              single = remove_watch-Single i shm.watches v.placed.single;
            });
    }

taken_identity : Client → Option (List ℕ × Client) → ℤ × ℤ
taken_identity k none = identity k
taken_identity k (some r) = identity r.1

kept_identity : (k : Client) → taken_identity k (take_notification k) ≡ identity k
unfolding take_notification taken_identity
kept_identity k = ground arith

pub take_notification-identity :
    (k k' : Client) (msg : List ℕ) → take_notification k ≡ some (msg, k') → identity k' ≡ identity k
unfolding taken_identity
take_notification-identity k k' msg e = ap (taken_identity k) (sym e) ∙ kept_identity k

pub sent-IsOwned :
    (shm : SharedMem) (i : ℕ) (k k' : Client)
    → get_elem? shm.clients i ≡ some k
    → identity k' ≡ identity k
    → IsOwned shm
    → IsOwned (record shm { clients = set shm.clients i k' })
sent-IsOwned shm i k k' here same v =
    IsOwned-clients shm (set shm.clients i k')
      (identities-set shm.clients i k'
        ∙ ap (set (identities shm.clients) i) same
        ∙ set_same (identities shm.clients) i (identity k)
            (get_elem?-identities shm.clients i k here))
      v
