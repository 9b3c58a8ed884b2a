-- ===== src/SupDem/Owners/Commands.antt =====
-- A command of a registered client keeps every slot on the map with a registered client.
use advanced_unix_ceng.Base.{
  ℕ, ◌≤◌, List, All, All-append, All-set, All-map, Option, none, some, arith, get_elem?, Bool-cases,
  Option-cases, inl, inr,
}
use advanced_unix_ceng.Base.Int.{ℤ, pos, negsuc, eqb_ℤ}
use advanced_unix_ceng.SupDem.Owners.{Notified, Demands, Supplies, Watches, Single, Placed}
use advanced_unix_ceng.SupDem.Owners.Matching.{check_for_match-client_id, watch_events-Notified}
use advanced_unix_ceng.SupDem.Server.{
  Command, move, demand, supply, watch, unwatch, listsupplies, listdemands, mysupplies, mydemands,
  quit, invalid, run_match, watch_events, run_supply, dispatch,
}
use advanced_unix_ceng.SupDem.Slots.{
  first_slot, demand_free, supply_free, watch_free, new_demand, new_supply, new_watch,
  add_new_demand, add_new_supply, add_new_watch, clear_watch, remove_watch, move_client,
}
use advanced_unix_ceng.SupDem.Slots.Laws.{one_if_some, remove_watch-counts, add_new_watch-counts}
use advanced_unix_ceng.SupDem.State.{Supply, Demand, Watch, Client, SharedMem}

one_if_some-le : (o : Option ℕ) → one_if_some o ≤ 1
one_if_some-le none = omega arith
one_if_some-le (some i) = omega arith

pub remove_watch-Single : (i : ℕ) (ws : List Watch) → Single ws → Single (remove_watch ws (pos i))
remove_watch-Single i ws h other alive =
    rw (remove_watch-counts (pos i) other ws (ground arith) alive)
      (elim (Bool-cases (eqb_ℤ (pos i) other)) [
        | inl mine ↦ rw mine (omega arith)
        | inr not_mine ↦ rw not_mine (h other alive)
      ])

-- `P` is any property of ids that -1 has.
module _ (P : ℤ → Type 0) (free : P (negsuc 0)) where
  run_match-Placed :
      (shm : SharedMem)
      → Placed P shm
      → Placed P (run_match shm).0 × All (Notified P) (run_match shm).1
  unfolding run_match
  run_match-Placed shm v =
      let m = check_for_match-client_id P free shm.demands shm.supplies v.demands v.supplies in
      (record { supplies = m.1; demands = m.0; watches = v.watches; single = v.single }, m.2)

  pub remove_watch-Watches :
      (id : ℤ) (ws : List Watch) → Watches P ws → Watches P (remove_watch ws id)
  unfolding remove_watch clear_watch
  remove_watch-Watches id ws h =
      All-map (λ (w : Watch). P w.client_id) (λ (w : Watch). P w.client_id) (clear_watch id) ws
        (λ w p. elim (Bool-cases (eqb_ℤ w.client_id id)) [
          | inl same ↦ rw same free
          | inr other ↦ rw other p
        ])
        h

  watch_events-slot :
      (shm : SharedMem) (index : ℤ)
      → Watches P shm.watches
      → All (Notified P) (watch_events shm index)
  unfolding watch_events
  watch_events-slot shm (negsuc n) h = tt
  watch_events-slot shm (pos j) h = elim (Option-cases (get_elem? shm.supplies j)) [
    | inl out ↦ rw (out, watch_events) tt
    | inr (s, here) ↦ rw (here, watch_events) (watch_events-Notified P free s shm.watches h)
  ]

  module _ (i : ℕ) (k : Client) (own : P (pos i)) where
    pub add_new_demand-Demands :
        (ds : List Demand) (a b c : ℤ)
        → Demands P ds
        → Demands P (add_new_demand ds k (pos i) a b c)
    unfolding add_new_demand new_demand
    add_new_demand-Demands ds a b c h = elim (Option-cases (first_slot demand_free ds)) [
      | inl full ↦ rw (full, add_new_demand) h
      | inr (j, found) ↦
          rw (found, add_new_demand) (All-set (λ (d : Demand). P d.client_id) ds j _ h own)
    ]

    pub add_new_supply-Supplies :
        (ss : List Supply) (distance a b c : ℤ)
        → Supplies P ss
        → Supplies P (add_new_supply ss k (pos i) distance a b c).0
    unfolding add_new_supply new_supply
    add_new_supply-Supplies ss distance a b c h = elim (Option-cases (first_slot supply_free ss)) [
      | inl full ↦ rw (full, add_new_supply) h
      | inr (j, found) ↦
          rw (found, add_new_supply) (All-set (λ (s : Supply). P s.client_id) ss j _ h own)
    ]

    pub add_new_watch-Watches :
        (ws : List Watch) (id : ℤ) → Watches P ws → Watches P (add_new_watch ws k (pos i) id)
    unfolding add_new_watch new_watch
    add_new_watch-Watches ws id h =
        let cleared = remove_watch-Watches (pos i) ws h in
        elim (Option-cases (first_slot watch_free (remove_watch ws (pos i)))) [
          | inl full ↦ rw (full, add_new_watch) cleared
          | inr (j, found) ↦
              rw (found, add_new_watch)
                (All-set (λ (w : Watch). P w.client_id) (remove_watch ws (pos i)) j _ cleared own)
        ]

    pub add_new_watch-Single :
        (ws : List Watch) (id : ℤ) → Single ws → Single (add_new_watch ws k (pos i) id)
    add_new_watch-Single ws id h other alive =
        rw (add_new_watch-counts k (pos i) id other ws (ground arith) alive)
          (elim (Bool-cases (eqb_ℤ (pos i) other)) [
            | inl mine ↦ rw mine (one_if_some-le _)
            | inr not_mine ↦ rw not_mine (h other alive)
          ])

    run_supply-Placed :
        (shm : SharedMem) (distance a b c : ℤ)
        → Placed P shm
        → Placed P (run_supply shm k (pos i) distance a b c).0
          × All (Notified P) (run_supply shm k (pos i) distance a b c).1
    unfolding run_supply
    run_supply-Placed shm distance a b c v =
        let added = add_new_supply shm.supplies k (pos i) distance a b c in
        let (placed, notes) =
          run_match-Placed (record shm { supplies = added.0 })
            (record {
              supplies = add_new_supply-Supplies shm.supplies distance a b c v.supplies;
              demands = v.demands;
              watches = v.watches;
              single = v.single;
            }) in
        (
          placed,
          All-append (Notified P) _ _ notes (
              watch_events-slot (run_match (record shm { supplies = added.0 })).0 added.1
                placed.watches),
        )

    pub dispatch-Placed :
        (shm : SharedMem) (cmd : Command)
        → Placed P shm
        → Placed P (dispatch shm i k cmd).0 × All (Notified P) (dispatch shm i k cmd).1
    unfolding dispatch move_client
    dispatch-Placed shm (move x y) v = (
      record { supplies = v.supplies; demands = v.demands; watches = v.watches; single = v.single },
      tt,
    )
    dispatch-Placed shm (demand a b c) v = run_match-Placed _ (record {
      supplies = v.supplies;
      demands = add_new_demand-Demands shm.demands a b c v.demands;
      watches = v.watches;
      single = v.single;
    })
    dispatch-Placed shm (supply distance a b c) v = run_supply-Placed shm distance a b c v
    dispatch-Placed shm (watch id) v = (
      record {
        supplies = v.supplies;
        demands = v.demands;
        watches = add_new_watch-Watches shm.watches id v.watches;
        single = add_new_watch-Single shm.watches id v.single;
      },
      tt,
    )
    dispatch-Placed shm unwatch v = (
      record {
        supplies = v.supplies;
        demands = v.demands;
        watches = remove_watch-Watches (pos i) shm.watches v.watches;
        single = remove_watch-Single i shm.watches v.single;
      },
      tt,
    )
    dispatch-Placed shm listsupplies v = (v, tt)
    dispatch-Placed shm listdemands v = (v, tt)
    dispatch-Placed shm mysupplies v = (v, tt)
    dispatch-Placed shm mydemands v = (v, tt)
    dispatch-Placed shm quit v = (v, tt)
    dispatch-Placed shm invalid v = (v, tt)
