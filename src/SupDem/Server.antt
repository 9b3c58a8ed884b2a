-- ===== src/SupDem/Server.antt =====
-- The commands of hw1/supdemserv.c: the dispatch of command_thread_func, on a line that sscanf has
-- read, and client_agent's registering and removing of a client. Each runs under the mutex of the
-- shared memory. What a command writes to its own socket is left out.
pub mod Settled
pub mod Delivery
pub mod Rings
use advanced_unix_ceng.Base.{
  ◌∷◌, set, ℕ, List, [], ◌++◌, Option, none, some, get_elem?, if◌then◌else◌, replicate, ◌≡◌,
}
use advanced_unix_ceng.Base.Int.{ℤ, pos, negsuc, ltb_ℤ}
use advanced_unix_ceng.SupDem.Match.{Note, check_for_match}
use advanced_unix_ceng.SupDem.Queue.{enqueue_notification, take_notification}
use advanced_unix_ceng.SupDem.Slots.{
  modify_client, add_new_demand, add_new_supply, add_new_watch, remove_watch, register_client,
  remove_client_resources, move_client,
}
use advanced_unix_ceng.SupDem.State.{
  Supply, Demand, Watch, Client, SharedMem, max_clients, max_supply, max_demand, max_watch,
  max_notifications,
}
use advanced_unix_ceng.SupDem.Watch.{check_for_watch_events_on_new_supply}
use advanced_unix_ceng.SupDem.Word.{IsAmount}

-- `invalid` is a line that is no command. After `quit` the thread ends, and client_agent goes on as
-- in `left` below.
pub data Command : Type 0 where
  move : ℤ → ℤ → Command
  demand : ℤ → ℤ → ℤ → Command
  supply : ℤ → ℤ → ℤ → ℤ → Command
  watch : ℤ → Command
  unwatch : Command
  listsupplies listdemands mysupplies mydemands : Command
  quit : Command
  invalid : Command

-- check_for_match on the shared memory.
unfoldable pub run_match : SharedMem → SharedMem × List Note
run_match shm =
    let (ds, ss, notes) = check_for_match shm.demands shm.supplies in
    (record shm { demands = ds; supplies = ss }, notes)

-- The watches that see the supply in the slot with an index; -1 is for none.
unfoldable pub watch_events : SharedMem → ℤ → List Note
watch_events shm (negsuc n) = []
watch_events shm (pos i) = elim (get_elem? shm.supplies i) [
  | none ↦ []
  | some s ↦ check_for_watch_events_on_new_supply s shm.watches
]

unfoldable pub run_supply : SharedMem → Client → ℤ → ℤ → ℤ → ℤ → ℤ → SharedMem × List Note
run_supply shm k id distance a b c =
    let (ss, index) = add_new_supply shm.supplies k id distance a b c in
    let (shm', notes) = run_match (record shm { supplies = ss }) in
    (shm', notes ++ watch_events shm' index)

-- `k` is the client's slot, `i` its index.
unfoldable pub dispatch : SharedMem → ℕ → Client → Command → SharedMem × List Note
dispatch shm i k (move x y) = (move_client shm i x y, [])
dispatch shm i k (demand a b c) =
    run_match (record shm { demands = add_new_demand shm.demands k (pos i) a b c })
dispatch shm i k (supply distance a b c) = run_supply shm k (pos i) distance a b c
dispatch shm i k (watch watch_id) =
    (record shm { watches = add_new_watch shm.watches k (pos i) watch_id }, [])
dispatch shm i k unwatch = (record shm { watches = remove_watch shm.watches (pos i) }, [])
dispatch shm i k listsupplies = (shm, [])
dispatch shm i k listdemands = (shm, [])
dispatch shm i k mysupplies = (shm, [])
dispatch shm i k mydemands = (shm, [])
dispatch shm i k quit = (shm, [])
dispatch shm i k invalid = (shm, [])

-- The ids on the map are indices into the array of clients; -1 is never notified.
unfoldable pub deliver_one : List Client → Note → List Client
deliver_one ks (pos i, msg) = modify_client (λ k. enqueue_notification k msg) ks i
deliver_one ks (negsuc n, msg) = ks

unfoldable pub deliver : List Client → List Note → List Client
deliver ks [] = ks
deliver ks (note ∷ notes) = deliver (deliver_one ks note) notes

-- A command, with its notifications put into the rings. Nothing else that a command does touches
-- the rings, so they may be filled at its end.
unfoldable pub run_command : SharedMem → ℕ → Client → Command → SharedMem
run_command shm i k cmd =
    let (shm', notes) = dispatch shm i k cmd in record shm' { clients = deliver shm'.clients notes }

-- A command that asks for or offers amounts from 0 on that fit an `int`.
abbrev pub SoundCommand : Command → Type 0
SoundCommand (demand a b c) = IsAmount a × IsAmount b × IsAmount c
SoundCommand (supply distance a b c) = IsAmount a × IsAmount b × IsAmount c
SoundCommand other = Unit {0}

-- What one client does: it is registered with a socket, runs a command, is sent the oldest message
-- of its ring, or leaves.
pub data Step (s s' : SharedMem) : Type 0 where
  connected :
      (client_socket : ℤ)
      → s' ≡ record s { clients = (register_client s.clients client_socket).0 }
      → Step s s'
  ran :
      (i : ℕ) (k : Client) (cmd : Command)
      → get_elem? s.clients i ≡ some k
      → SoundCommand cmd
      → s' ≡ run_command s i k cmd
      → Step s s'
  sent :
      (i : ℕ) (k k' : Client) (msg : List ℕ)
      → get_elem? s.clients i ≡ some k
      → take_notification k ≡ some (msg, k')
      → s' ≡ record s { clients = set s.clients i k' }
      → Step s s'
  left : (i : ℕ) → s' ≡ remove_client_resources s i → Step s s'

abbrev pub free_supply : Supply
free_supply = record {
  x = pos 0;
  y = pos 0;
  a_amount = pos 0;
  b_amount = pos 0;
  c_amount = pos 0;
  distance = pos 0;
  client_id = negsuc 0;
}

abbrev pub free_demand : Demand
free_demand = record {
  x = pos 0;
  y = pos 0;
  a_amount = pos 0;
  b_amount = pos 0;
  c_amount = pos 0;
  client_id = negsuc 0;
}

unfoldable pub free_watch : Watch
free_watch = record { x = pos 0; y = pos 0; client_id = negsuc 0; watch_id = pos 0 }

unfoldable pub free_client : Client
free_client = record {
  client_id = negsuc 0;
  x = pos 0;
  y = pos 0;
  client_socket = negsuc 0;
  notifications = replicate max_notifications [];
  notif_head = 0;
  notif_tail = 0;
}

-- The arrays as main sets them up, for their lengths.
unfoldable pub init_arrays : ℕ → ℕ → ℕ → ℕ → SharedMem
init_arrays n_supply n_demand n_watch n_clients = record {
  supplies = replicate n_supply free_supply;
  demands = replicate n_demand free_demand;
  watches = replicate n_watch free_watch;
  clients = replicate n_clients free_client;
}

unfoldable pub init_shared_memory : SharedMem
init_shared_memory = init_arrays max_supply max_demand max_watch max_clients

pub data Reach : SharedMem → Type 0 where
  start : Reach init_shared_memory
  next : {s s' : SharedMem} → Reach s → Step s s' → Reach s'
