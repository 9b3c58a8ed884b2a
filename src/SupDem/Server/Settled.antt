-- ===== src/SupDem/Server/Settled.antt =====
-- Between the commands of hw1/supdemserv.c no demand on the map can be met.
use advanced_unix_ceng.Base.{
  ℕ, zero, suc, ◌≡◌, refl, List, [], ◌∷◌, map, false, arith, set, replicate, Option-cases, inl, inr,
}
use advanced_unix_ceng.Base.Int.{ℤ, pos}
use advanced_unix_ceng.SupDem.Match.{check_case_match}
use advanced_unix_ceng.SupDem.Match.Amounts.{
  SoundSupply, SoundDemand, AllSupplies, AllDemands, check_for_match-MarketBalanced,
}
use advanced_unix_ceng.SupDem.Match.Complete.{check_for_match-NoMatch}
use advanced_unix_ceng.SupDem.Match.Settled.{Unmatched, NoMatch, Unmatched-dead}
use advanced_unix_ceng.SupDem.Server.{
  Command, move, demand, supply, watch, unwatch, listsupplies, listdemands, mysupplies, mydemands,
  quit, invalid, run_match, run_supply, dispatch, SoundCommand, Step, connected, ran, sent,
  run_command, left, init_arrays, init_shared_memory, free_supply, free_demand, Reach, start, next,
}
use advanced_unix_ceng.SupDem.Slots.{
  first_slot, demand_free, supply_free, new_demand, new_supply, add_new_demand, add_new_supply,
  clear_supply, clear_demand, remove_client_resources, move_client,
}
use advanced_unix_ceng.SupDem.State.{Supply, Demand, Client, SharedMem}
use advanced_unix_ceng.SupDem.Word.{IsAmount}

-- All amounts are from 0 on and fit an `int`, and no live demand is met by a live supply.
pub record IsSettled (shm : SharedMem) : Type 0 where
  pub sound_demands : AllDemands shm.demands
  pub sound_supplies : AllSupplies shm.supplies
  pub unmet : NoMatch shm.demands shm.supplies

AllDemands-set :
    (ds : List Demand) (i : ℕ) (d : Demand)
    → AllDemands ds
    → SoundDemand d
    → AllDemands (set ds i d)
AllDemands-set [] i d h hd = tt
AllDemands-set (x ∷ ds) zero d h hd = (hd, h.1)
AllDemands-set (x ∷ ds) (suc i) d h hd = (h.0, AllDemands-set ds i d h.1 hd)

AllSupplies-set :
    (ss : List Supply) (i : ℕ) (s : Supply)
    → AllSupplies ss
    → SoundSupply s
    → AllSupplies (set ss i s)
AllSupplies-set [] i s h hs = tt
AllSupplies-set (x ∷ ss) zero s h hs = (hs, h.1)
AllSupplies-set (x ∷ ss) (suc i) s h hs = (h.0, AllSupplies-set ss i s h.1 hs)

add_new_demand-AllDemands :
    (ds : List Demand) (k : Client) (id a b c : ℤ)
    → AllDemands ds
    → IsAmount a
    → IsAmount b
    → IsAmount c
    → AllDemands (add_new_demand ds k id a b c)
unfolding add_new_demand new_demand
add_new_demand-AllDemands ds k id a b c h ha hb hc =
    elim (Option-cases (first_slot demand_free ds)) [
      | inl e ↦ rw (e, add_new_demand) h
      | inr (i, e) ↦
          rw (e, add_new_demand)
            (AllDemands-set ds i (new_demand k id a b c) h
              (record { sound_a = ha; sound_b = hb; sound_c = hc }))
    ]

add_new_supply-AllSupplies :
    (ss : List Supply) (k : Client) (id distance a b c : ℤ)
    → AllSupplies ss
    → IsAmount a
    → IsAmount b
    → IsAmount c
    → AllSupplies (add_new_supply ss k id distance a b c).0
unfolding add_new_supply new_supply
add_new_supply-AllSupplies ss k id distance a b c h ha hb hc =
    elim (Option-cases (first_slot supply_free ss)) [
      | inl e ↦ rw (e, add_new_supply) h
      | inr (i, e) ↦
          rw (e, add_new_supply)
            (AllSupplies-set ss i (new_supply k id distance a b c) h
              (record { sound_a = ha; sound_b = hb; sound_c = hc }))
    ]

run_match-IsSettled :
    (shm : SharedMem)
    → AllDemands shm.demands
    → AllSupplies shm.supplies
    → IsSettled (run_match shm).0
unfolding run_match
run_match-IsSettled shm hd hs =
    let m = check_for_match-MarketBalanced shm.demands shm.supplies hd hs in
    record {
      sound_demands = m.demands;
      sound_supplies = m.supplies;
      unmet = check_for_match-NoMatch shm.demands shm.supplies hd hs;
    }

dispatch-IsSettled :
    (shm : SharedMem) (i : ℕ) (k : Client) (cmd : Command)
    → SoundCommand cmd
    → IsSettled shm
    → IsSettled (dispatch shm i k cmd).0
unfolding dispatch run_supply move_client
dispatch-IsSettled shm i k (move x y) h v = record {
  sound_demands = v.sound_demands;
  sound_supplies = v.sound_supplies;
  unmet = v.unmet;
}
dispatch-IsSettled shm i k (demand a b c) h v =
    run_match-IsSettled _
      (add_new_demand-AllDemands shm.demands k (pos i) a b c v.sound_demands h.0 h.1 h.2)
      v.sound_supplies
dispatch-IsSettled shm i k (supply distance a b c) h v =
    run_match-IsSettled _ v.sound_demands (
      add_new_supply-AllSupplies shm.supplies k (pos i) distance a b c v.sound_supplies h.0 h.1 h.2)
dispatch-IsSettled shm i k (watch watch_id) h v = record {
  sound_demands = v.sound_demands;
  sound_supplies = v.sound_supplies;
  unmet = v.unmet;
}
dispatch-IsSettled shm i k unwatch h v = record {
  sound_demands = v.sound_demands;
  sound_supplies = v.sound_supplies;
  unmet = v.unmet;
}
dispatch-IsSettled shm i k listsupplies h v = v
dispatch-IsSettled shm i k listdemands h v = v
dispatch-IsSettled shm i k mysupplies h v = v
dispatch-IsSettled shm i k mydemands h v = v
dispatch-IsSettled shm i k quit h v = v
dispatch-IsSettled shm i k invalid h v = v

run_command-IsSettled :
    (shm : SharedMem) (i : ℕ) (k : Client) (cmd : Command)
    → SoundCommand cmd
    → IsSettled shm
    → IsSettled (run_command shm i k cmd)
unfolding run_command
run_command-IsSettled shm i k cmd h v =
    let d = dispatch-IsSettled shm i k cmd h v in
    record { sound_demands = d.sound_demands; sound_supplies = d.sound_supplies; unmet = d.unmet }

-- Freeing slots makes no match.
AllDemands-clear :
    (id : ℤ) (ds : List Demand) → AllDemands ds → AllDemands (map (clear_demand id) ds)
unfolding clear_demand
AllDemands-clear id [] h = tt
AllDemands-clear id (d ∷ ds) h = (ground (arith, h.0), AllDemands-clear id ds h.1)

AllSupplies-clear :
    (id : ℤ) (ss : List Supply) → AllSupplies ss → AllSupplies (map (clear_supply id) ss)
unfolding clear_supply
AllSupplies-clear id [] h = tt
AllSupplies-clear id (s ∷ ss) h = (ground (arith, h.0), AllSupplies-clear id ss h.1)

check-clear :
    (id : ℤ) (d : Demand) (s : Supply)
    → check_case_match d s ≡ false
    → check_case_match (clear_demand id d) (clear_supply id s) ≡ false
unfolding clear_demand clear_supply check_case_match
check-clear id d s h = ground arith

Unmatched-clear :
    (id : ℤ) (d : Demand) (ss : List Supply)
    → Unmatched d ss
    → Unmatched (clear_demand id d) (map (clear_supply id) ss)
Unmatched-clear id d [] u = tt
Unmatched-clear id d (s ∷ ss) u = (check-clear id d s u.0, Unmatched-clear id d ss u.1)

NoMatch-clear :
    (id : ℤ) (ds : List Demand) (ss : List Supply)
    → NoMatch ds ss
    → NoMatch (map (clear_demand id) ds) (map (clear_supply id) ss)
NoMatch-clear id [] ss h = tt
NoMatch-clear id (d ∷ ds) ss h = (Unmatched-clear id d ss h.0, NoMatch-clear id ds ss h.1)

remove_client_resources-IsSettled :
    (shm : SharedMem) (i : ℕ) → IsSettled shm → IsSettled (remove_client_resources shm i)
unfolding remove_client_resources
remove_client_resources-IsSettled shm i v = record {
  sound_demands = AllDemands-clear (pos i) shm.demands v.sound_demands;
  sound_supplies = AllSupplies-clear (pos i) shm.supplies v.sound_supplies;
  unmet = NoMatch-clear (pos i) shm.demands shm.supplies v.unmet;
}

-- The free slots that main makes.
AllDemands-free : (n : ℕ) → AllDemands (replicate n free_demand)
AllDemands-free zero = tt
AllDemands-free (suc n) = (omega arith, AllDemands-free n)

AllSupplies-free : (n : ℕ) → AllSupplies (replicate n free_supply)
AllSupplies-free zero = tt
AllSupplies-free (suc n) = (omega arith, AllSupplies-free n)

NoMatch-free : (n : ℕ) (ss : List Supply) → NoMatch (replicate n free_demand) ss
NoMatch-free zero ss = tt
NoMatch-free (suc n) ss = (Unmatched-dead free_demand ss refl, NoMatch-free n ss)

init_arrays-IsSettled : (n m p q : ℕ) → IsSettled (init_arrays n m p q)
unfolding init_arrays
init_arrays-IsSettled n m p q = record {
  sound_demands = AllDemands-free m;
  sound_supplies = AllSupplies-free n;
  unmet = NoMatch-free m (replicate n free_supply);
}

init_shared_memory-IsSettled : IsSettled init_shared_memory
unfolding init_shared_memory
init_shared_memory-IsSettled = init_arrays-IsSettled 10000 10000 1000 1000

Step-IsSettled : {s s' : SharedMem} → Step s s' → IsSettled s → IsSettled s'
Step-IsSettled (connected socket e) v =
    rw e (record {
      sound_demands = v.sound_demands;
      sound_supplies = v.sound_supplies;
      unmet = v.unmet;
    })
Step-IsSettled {s} (ran i k cmd here h e) v = rw e (run_command-IsSettled s i k cmd h v)
Step-IsSettled (sent i k k' msg here taken e) v =
    rw e (record {
      sound_demands = v.sound_demands;
      sound_supplies = v.sound_supplies;
      unmet = v.unmet;
    })
Step-IsSettled {s} (left i e) v = rw e (remove_client_resources-IsSettled s i v)

-- From the shared memory that main sets up, after every sequence of clients that connect, run
-- commands and leave, where the amounts in commands are from 0 on and fit an `int`: all amounts
-- on the map are so too, and no live demand is met by a live supply.
pub Reach-IsSettled : {s : SharedMem} → Reach s → IsSettled s
Reach-IsSettled start = init_shared_memory-IsSettled
Reach-IsSettled (next r t) = Step-IsSettled t (Reach-IsSettled r)
