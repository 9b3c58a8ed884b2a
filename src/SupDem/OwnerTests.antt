-- ===== src/SupDem/OwnerTests.antt =====
-- Owners of the slots of hw1/supdemserv.c, at small inputs.
use advanced_unix_ceng.Base.{◌≡◌, refl, List, [], ◌∷◌, map, All, some, get_elem?}
use advanced_unix_ceng.Base.Int.{pos, ◌+ℤ◌, ◌-ℤ◌}
use advanced_unix_ceng.SupDem.Agent.Identities.{identities}
use advanced_unix_ceng.SupDem.Match.{Note, check_for_match, match_supplies}
use advanced_unix_ceng.SupDem.Owners.{IsOwned, Held, Notified}
use advanced_unix_ceng.SupDem.Owners.Reached.{
  LawfulReach, begin, step, LawfulReach-IsOwned, dispatch-Notified,
}
use advanced_unix_ceng.SupDem.Server.{
  connected, ran, watch, dispatch, run_command, deliver, run_supply, run_match, watch_events,
  free_watch, supply, init_shared_memory, init_arrays, free_client,
}
use advanced_unix_ceng.SupDem.Slots.{
  register_client, first_slot, add_new_supply, new_supply, add_new_watch, new_watch, remove_watch,
  clear_watch,
}
use advanced_unix_ceng.SupDem.Watch.{sees, notify_watches, check_for_watch_events_on_new_supply}
use advanced_unix_ceng.SupDem.State.{Client, SharedMem}
use advanced_unix_ceng.SupDem.Word.{wrap32, manhattan_distance, add_int, abs_int, sub_int}

-- The memory after one client has come.
abbrev one_client : SharedMem
one_client = record init_shared_memory {
  clients = (register_client init_shared_memory.clients (pos 5)).0;
}

one_client-LawfulReach : LawfulReach one_client
one_client-LawfulReach = step begin (connected (pos 5) refl) refl

LawfulReach-IsOwned_example : IsOwned one_client
LawfulReach-IsOwned_example = LawfulReach-IsOwned one_client-LawfulReach

abbrev first_client : Client
first_client = record free_client { client_id = pos 0; client_socket = pos 5 }

first_client-here : get_elem? one_client.clients 0 ≡ some first_client
unfolding init_shared_memory init_arrays free_client register_client first_slot
first_client-here = refl

-- A second client comes, and the first sets a watch.
abbrev two_clients : SharedMem
two_clients = record one_client { clients = (register_client one_client.clients (pos 6)).0 }

abbrev second_client : Client
second_client = record free_client { client_id = pos 1; client_socket = pos 6 }

abbrev watched : SharedMem
watched = run_command two_clients 0 first_client (watch (pos 9))

first_client-stays : get_elem? two_clients.clients 0 ≡ some first_client
unfolding init_shared_memory init_arrays free_client register_client first_slot
first_client-stays = refl

watched-LawfulReach : LawfulReach watched
unfolding free_client
watched-LawfulReach =
    step (step one_client-LawfulReach (connected (pos 6) refl) refl)
      (ran 0 first_client (watch (pos 9)) first_client-stays tt refl) refl

second_client-here : get_elem? watched.clients 1 ≡ some second_client
unfolding init_shared_memory init_arrays free_client register_client first_slot run_command dispatch
    deliver
second_client-here = refl

abbrev offer_notes : List Note
offer_notes = (dispatch watched 1 second_client (supply (pos 9) (pos 1) (pos 2) (pos 3))).1

-- The supply of the second client is within the watch of the first.
one_note : map (λ (note : Note). note.0) offer_notes ≡ pos 0 ∷ []
unfolding init_shared_memory init_arrays free_client register_client first_slot run_command dispatch
    deliver run_supply run_match check_for_match match_supplies watch_events add_new_supply
    check_for_watch_events_on_new_supply new_supply notify_watches add_new_watch remove_watch
    clear_watch free_watch sees new_watch manhattan_distance add_int abs_int sub_int wrap32 ◌+ℤ◌
    ◌-ℤ◌
one_note = refl

dispatch-Notified_example : All (Notified (Held (identities watched.clients))) offer_notes
unfolding free_client
dispatch-Notified_example =
    dispatch-Notified watched 1 second_client (supply (pos 9) (pos 1) (pos 2) (pos 3))
      watched-LawfulReach second_client-here refl
