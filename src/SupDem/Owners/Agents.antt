-- ===== src/SupDem/Owners/Agents.antt =====
-- A whole run of client_agent of hw1/supdemserv.c is a sequence of the steps that clients take.
use advanced_unix_ceng.Base.{ℕ, ◌≡◌, List, All, none, some, get_elem?}
use advanced_unix_ceng.Base.Int.{ℤ, pos}
use advanced_unix_ceng.SupDem.Agent.{Ending, no_slot, exited, locked, ended, before_reply}
use advanced_unix_ceng.SupDem.Agent.Leaves.{Leaves}
use advanced_unix_ceng.SupDem.Agent.Identities.{identities}
use advanced_unix_ceng.SupDem.Owners.{IsOwned}
use advanced_unix_ceng.SupDem.Owners.Reached.{LawfulReach}
use advanced_unix_ceng.SupDem.Parse.{parse_command}
use advanced_unix_ceng.SupDem.Server.{Command, SoundCommand}
use advanced_unix_ceng.SupDem.Slots.{first_slot, client_free}
use advanced_unix_ceng.SupDem.State.{Client, SharedMem}

-- The lines whose amounts, if they are commands with amounts, are from 0 on and fit an `int`.
abbrev pub SoundLines : (ℤ → ℤ) → List (List ℕ) → Type 0
SoundLines convert lines = All (λ (line : List ℕ). SoundCommand (parse_command convert line)) lines

-- The client with a socket in its slot.
abbrev pub Sits : SharedMem → ℕ → ℤ → Type 0
Sits shm i socket = get_elem? (identities shm.clients) i ≡ some (pos i, socket)

-- A memory with a command stopped at its answer: it comes from one that was reached, and all slots
-- are still those of registered clients.
pub record Halted (i : ℕ) (socket : ℤ) (shm' : SharedMem) : Type 0 where
  pub from : SharedMem
  pub slot : Client
  pub command : Command
  pub reached : LawfulReach from
  pub here : get_elem? from.clients i ≡ some slot
  pub stopped : shm' ≡ before_reply from i slot command
  pub owned : IsOwned shm'
  pub seat : Sits shm' i socket

-- What an agent leaves. At its proper end every slot has the id and the socket of before, the
-- client's own included.
abbrev pub LeavesReached : SharedMem → ℤ → Ending → Type 0
LeavesReached shm sockfd no_slot = first_slot client_free shm.clients ≡ none
LeavesReached shm sockfd (exited i shm') = LawfulReach shm' × Sits shm' i sockfd
LeavesReached shm sockfd (locked i shm') = Halted i sockfd shm'
LeavesReached shm sockfd (ended i shm') =
    LawfulReach shm' × (identities shm'.clients ≡ identities shm.clients)
