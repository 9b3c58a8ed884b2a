-- ===== src/SupDem/Tests.antt =====
-- Runs of the matching and the notifications of hw1/supdemserv.c on small inputs, and the
-- theorems at such inputs.
use advanced_unix_ceng.Base.{List, get_elem?, some, ◌≡◌, refl, [], ◌∷◌, replicate, arith}
use advanced_unix_ceng.Base.Int.{ℤ, pos}
use advanced_unix_ceng.SupDem.State.{Supply, Demand, Client, SharedMem}
use advanced_unix_ceng.SupDem.Match.{check_for_match}
use advanced_unix_ceng.SupDem.Match.Amounts.{
  MarketBalanced, AllDemands, AllSupplies, check_for_match-MarketBalanced,
}
use advanced_unix_ceng.SupDem.Match.Settled.{NoMatch}
use advanced_unix_ceng.SupDem.Match.Complete.{check_for_match-NoMatch}
use advanced_unix_ceng.SupDem.Queue.{enqueue_notification}
use advanced_unix_ceng.SupDem.Queue.{notification_round}
use advanced_unix_ceng.SupDem.Queue.Drain.{RoundDrains, notification_round-Drains}
use advanced_unix_ceng.SupDem.Queue.Refine.{
  IsRing, pending, push_bounded, enqueue_notification-push_bounded,
}
use advanced_unix_ceng.SupDem.Server.{
  free_supply, init_shared_memory, init_arrays, free_client, start, next, connected, ran,
  run_command, demand,
}
use advanced_unix_ceng.SupDem.Server.Rings.{AllRings, Reach-AllRings}
use advanced_unix_ceng.SupDem.Server.Settled.{IsSettled, Reach-IsSettled}
use advanced_unix_ceng.SupDem.Slots.{register_client, first_slot}

abbrev near : ℤ
near = pos 20

abbrev store : Supply
store = record {
  x = pos 10;
  y = pos 20;
  a_amount = pos 5;
  b_amount = pos 3;
  c_amount = pos 0;
  distance = pos 100;
  client_id = pos 2;
}

abbrev wanted : ℤ → Demand
wanted a = record {
  x = pos 11;
  y = pos 21;
  a_amount = a;
  b_amount = pos 3;
  c_amount = pos 0;
  client_id = pos 1;
}

wanted-AllDemands : AllDemands (wanted (pos 2) ∷ wanted (pos 3) ∷ [])
wanted-AllDemands = omega arith

store-AllSupplies : AllSupplies (store ∷ [])
store-AllSupplies = omega arith

check_for_match-MarketBalanced_example :
    let after = check_for_match (wanted (pos 2) ∷ wanted (pos 3) ∷ []) (store ∷ []) in
    MarketBalanced (wanted (pos 2) ∷ wanted (pos 3) ∷ []) (store ∷ []) after.0 after.1
check_for_match-MarketBalanced_example =
    check_for_match-MarketBalanced (wanted (pos 2) ∷ wanted (pos 3) ∷ []) (store ∷ [])
      wanted-AllDemands store-AllSupplies

check_for_match-NoMatch_example :
    let after = check_for_match (wanted (pos 2) ∷ wanted (pos 3) ∷ []) (store ∷ []) in
    NoMatch after.0 after.1
check_for_match-NoMatch_example =
    check_for_match-NoMatch (wanted (pos 2) ∷ wanted (pos 3) ∷ []) (store ∷ []) wanted-AllDemands
      store-AllSupplies

-- A client at the end of its ring, with one message waiting.
abbrev idle : Client
idle = record {
  client_id = pos 1;
  x = pos 0;
  y = pos 0;
  client_socket = pos 4;
  notifications = replicate 1000 [];
  notif_head = 999;
  notif_tail = 998;
}

idle-IsRing : IsRing idle
idle-IsRing = record { head_in = omega arith; tail_in = omega arith; size = refl }

enqueue_notification-push_bounded_example :
    IsRing (enqueue_notification idle (72 ∷ 105 ∷ []))
    × (pending (enqueue_notification idle (72 ∷ 105 ∷ []))
        ≡ push_bounded (72 ∷ 105 ∷ []) (pending idle))
enqueue_notification-push_bounded_example =
    enqueue_notification-push_bounded idle (72 ∷ 105 ∷ []) idle-IsRing

notification_round-Drains_example : RoundDrains idle (notification_round idle)
notification_round-Drains_example = notification_round-Drains idle idle-IsRing

abbrev market : SharedMem
market = record {
  supplies = store ∷ [];
  demands = wanted (pos 2) ∷ [];
  watches = record { x = pos 0; y = pos 0; client_id = pos 2; watch_id = pos 9 } ∷ [];
  clients = idle ∷ idle ∷ idle ∷ [];
}

-- A client connects, and asks for something that nobody offers.
abbrev connected_memory : SharedMem
connected_memory = record init_shared_memory {
  clients = (register_client init_shared_memory.clients (pos 4)).0;
}

abbrev newcomer : Client
newcomer = record {
  client_id = pos 0;
  x = pos 0;
  y = pos 0;
  client_socket = pos 4;
  notifications = replicate 1000 [];
  notif_head = 0;
  notif_tail = 0;
}

newcomer_here : get_elem? connected_memory.clients 0 ≡ some newcomer
unfolding init_shared_memory init_arrays register_client first_slot free_client
newcomer_here = refl

Reach-IsSettled_example :
    IsSettled (run_command connected_memory 0 newcomer (demand (pos 2) (pos 3) (pos 0)))
Reach-IsSettled_example = Reach-IsSettled (
    next (next start (connected (pos 4) refl)) (
      ran 0 newcomer (demand (pos 2) (pos 3) (pos 0)) newcomer_here
        (omega arith, omega arith, omega arith) refl))

Reach-AllRings_example :
    AllRings (run_command connected_memory 0 newcomer (demand (pos 2) (pos 3) (pos 0))).clients
Reach-AllRings_example = Reach-AllRings (
    next (next start (connected (pos 4) refl)) (
      ran 0 newcomer (demand (pos 2) (pos 3) (pos 0)) newcomer_here
        (omega arith, omega arith, omega arith) refl))

abbrev two_slots : List Supply
two_slots = store ∷ free_supply ∷ []
