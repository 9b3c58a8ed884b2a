-- ===== src/SupDem/Agent.antt =====
-- client_agent of hw1/supdemserv.c: a client from its connection to its end, while no other client
-- acts. What its notification thread sends is left out.
pub mod Identities
pub mod Registering
pub mod HalfRun
pub mod Leaves
use advanced_unix_ceng.Base.{ℕ, List, [], Option, none, some, if◌then◌else◌, get_elem?, take}
use advanced_unix_ceng.Base.Int.{ℤ, pos}
use advanced_unix_ceng.SupDem.Parse.{parse_command}
use advanced_unix_ceng.SupDem.Serve.{Served, serve_lines}
use advanced_unix_ceng.SupDem.Server.{
  Command, move, demand, supply, watch, unwatch, listsupplies, listdemands, mysupplies, mydemands,
  quit, invalid,
}
use advanced_unix_ceng.SupDem.Session.{run_session}
use advanced_unix_ceng.SupDem.Slots.{
  add_new_demand, add_new_supply, add_new_watch, remove_watch, register_client,
  remove_client_resources, move_client,
}
use advanced_unix_ceng.SupDem.State.{Client, SharedMem}

-- Where the command thread is when it is cancelled: a thread ends at its next call of read or of
-- write. `in_read`: it has run all lines of what was read. `in_write n`: it answers line `n`, from
-- 0 on.
pub data Cancelled : Type 0 where
  in_read : Cancelled
  in_write : ℕ → Cancelled

-- What pthread_create answers for the two threads. Where only the second cannot be started, the
-- first is cancelled.
pub data Threads : Type 0 where
  both_start : Threads
  no_command_thread : Threads
  no_notification_thread : Cancelled → Threads

-- The index that the client was given, and the memory that it leaves. `no_slot`: none was free, and
-- the source goes on with a client_id that has no value. `exited`: a thread could not be started.
-- `locked`: so too, and the command thread has ended with shm->mutex, which nobody releases.
pub data Ending : Type 0 where
  no_slot : Ending
  exited : ℕ → SharedMem → Ending
  locked : ℕ → SharedMem → Ending
  ended : ℕ → SharedMem → Ending

-- What a command has changed when it answers: a demand or a supply is not matched yet. `k` is the
-- client's slot, `i` its index.
unfoldable pub before_reply : SharedMem → ℕ → Client → Command → SharedMem
before_reply shm i k (move x y) = move_client shm i x y
before_reply shm i k (demand a b c) = record shm {
  demands = add_new_demand shm.demands k (pos i) a b c;
}
before_reply shm i k (supply distance a b c) = record shm {
  supplies = (add_new_supply shm.supplies k (pos i) distance a b c).0;
}
before_reply shm i k (watch watch_id) = record shm {
  watches = add_new_watch shm.watches k (pos i) watch_id;
}
before_reply shm i k unwatch = record shm { watches = remove_watch shm.watches (pos i) }
before_reply shm i k listsupplies = shm
before_reply shm i k listdemands = shm
before_reply shm i k mysupplies = shm
before_reply shm i k mydemands = shm
before_reply shm i k quit = shm
before_reply shm i k invalid = shm

-- The line of a client that is registered is run as far as its answer.
unfoldable pub cancel_line : SharedMem → ℕ → Command → Ending
cancel_line shm i cmd = elim (get_elem? shm.clients i) [
  | none ↦ exited i shm
  | some k ↦ locked i (before_reply shm i k cmd)
]

-- The thread answers the line, unless it has run them all or has ended by itself.
unfoldable pub cancel_in_write : (ℤ → ℤ) → ℕ → Served → Option (List ℕ) → Ending
cancel_in_write convert i served none = exited i served.shm
cancel_in_write convert i served (some line) =
    if served.running
    then cancel_line served.shm i (parse_command convert line)
    else exited i served.shm

unfoldable pub cancel_command_thread : (ℤ → ℤ) → SharedMem → ℕ → List (List ℕ) → Cancelled → Ending
cancel_command_thread convert shm i lines in_read = exited i (serve_lines convert shm i lines).shm
cancel_command_thread convert shm i lines (in_write n) =
    cancel_in_write convert i (serve_lines convert shm i (take n lines)) (get_elem? lines n)

-- What becomes of a client that was given a slot.
unfoldable pub run_threads : (ℤ → ℤ) → SharedMem → ℕ → List (List ℕ) → Threads → Ending
run_threads convert shm i lines both_start =
    ended i (remove_client_resources (serve_lines convert shm i lines).shm i)
run_threads convert shm i lines no_command_thread = exited i shm
run_threads convert shm i lines (no_notification_thread cancelled) =
    cancel_command_thread convert shm i lines cancelled

unfoldable pub client_agent : (ℤ → ℤ) → Threads → SharedMem → ℤ → List ℕ → List ℕ → Ending
client_agent convert threads shm sockfd ns input =
    let registered = register_client shm.clients sockfd in
    elim registered.1 [
      | none ↦ no_slot
      | some i ↦
          let start = record shm { clients = registered.0 } in
          run_threads convert start i (run_session ns [] input).lines threads
    ]
