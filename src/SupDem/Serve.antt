-- ===== src/SupDem/Serve.antt =====
-- The body of the loop over lines in command_thread_func of hw1/supdemserv.c: a line is read as a
-- command, run on the shared memory, and answered on the client's socket.
pub mod Bytes
pub mod EndToEnd
use advanced_unix_ceng.Base.{
  ℕ, List, [], ◌∷◌, ◌++◌, none, some, Bool, true, false, if◌then◌else◌, get_elem?,
}
use advanced_unix_ceng.Base.Int.{ℤ, pos}
use advanced_unix_ceng.SupDem.Listing.{list_supplies, list_demands, my_supplies, my_demands}
use advanced_unix_ceng.SupDem.Parse.{parse_command}
use advanced_unix_ceng.SupDem.Server.{
  Command, move, demand, supply, watch, unwatch, listsupplies, listdemands, mysupplies, mydemands,
  quit, invalid, run_command,
}
use advanced_unix_ceng.SupDem.State.{SharedMem}
use advanced_unix_ceng.SupDem.Text.{codes}

-- `write(client_socket, "OK\n", 3)`
abbrev pub ok_reply : List (List ℕ)
ok_reply = codes "OK\n" ∷ []

-- `write(client_socket, "Error: Invalid command\n", 24)`: with the NUL behind the text.
abbrev pub error_reply : List (List ℕ)
error_reply = (codes "Error: Invalid command\n" ++ 0 ∷ []) ∷ []

-- What a command writes to the socket of the client with index `i`.
unfoldable pub replies : SharedMem → ℕ → Command → List (List ℕ)
replies shm i listsupplies = list_supplies shm.supplies
replies shm i listdemands = list_demands shm.demands
replies shm i mysupplies = my_supplies shm.supplies (pos i)
replies shm i mydemands = my_demands shm.demands (pos i)
replies shm i invalid = error_reply
replies shm i cmd = ok_reply

-- `running`: whether the thread goes on.
pub record Served : Type 0 where
  pub shm : SharedMem
  pub written : List (List ℕ)
  pub running : Bool

abbrev pub goes_on : Command → Bool
goes_on quit = false
goes_on cmd = true

-- A registered client always has a slot.
unfoldable pub serve_command : SharedMem → ℕ → Command → Served
serve_command shm i cmd = elim (get_elem? shm.clients i) [
  | none ↦ record { shm = shm; written = []; running = false }
  | some k ↦ record {
    shm = run_command shm i k cmd;
    written = replies shm i cmd;
    running = goes_on cmd;
  }
]

unfoldable pub serve_line : (ℤ → ℤ) → SharedMem → ℕ → List ℕ → Served
serve_line convert shm i line = serve_command shm i (parse_command convert line)

-- The lines of a client in their order, while no other client acts.
unfoldable pub serve_lines : (ℤ → ℤ) → SharedMem → ℕ → List (List ℕ) → Served
serve_lines convert shm i [] = record { shm = shm; written = []; running = true }
serve_lines convert shm i (line ∷ lines) =
    let first = serve_line convert shm i line in
    let rest = serve_lines convert first.shm i lines in
    if first.running then record rest { written = first.written ++ rest.written } else first
