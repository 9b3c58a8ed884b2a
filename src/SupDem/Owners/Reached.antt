-- ===== src/SupDem/Owners/Reached.antt =====
-- In every reachable memory of hw1/supdemserv.c the slots on the map are those of clients that are
-- registered.
use advanced_unix_ceng.Base.{
  ℕ, zero, suc, ◌≡◌, refl, All, All-replicate, some, true, false, arith, get_elem?, replicate, inl,
}
use advanced_unix_ceng.Base.Int.{ℤ, pos, ltb_ℤ}
use advanced_unix_ceng.SupDem.Agent.Identities.{identities}
use advanced_unix_ceng.SupDem.Owners.{Held, SoundFrom, Notified, IsOwned}
use advanced_unix_ceng.SupDem.Owners.Commands.{dispatch-Placed}
use advanced_unix_ceng.SupDem.Server.{
  Command, Step, connected, ran, sent, left, dispatch, init_arrays, init_shared_memory, free_supply,
  free_demand, free_watch, free_client,
}
use advanced_unix_ceng.SupDem.Slots.Laws.{watches_of}
use advanced_unix_ceng.SupDem.State.{Supply, Demand, Watch, Client, SharedMem, live}
use advanced_unix_ceng.SupDem.Owners.Holding.{own_slot}
use advanced_unix_ceng.SupDem.Owners.Steps.{
  register_client-IsOwned, run_command-IsOwned, remove_client_resources-IsOwned,
  take_notification-identity, sent-IsOwned,
}

-- What processes do: accept gives a socket from 0 on, and commands are run for a client that is
-- registered in its slot.
abbrev pub Lawful : {s s' : SharedMem} → Step s s' → Type 0
Lawful (connected socket e) = ltb_ℤ socket (pos 0) ≡ false
Lawful (ran i k cmd here sound e) = k.client_id ≡ pos i
Lawful (sent i k k' msg here taken e) = Unit {0}
Lawful (left i e) = Unit {0}

pub data LawfulReach : SharedMem → Type 0 where
  begin : LawfulReach init_shared_memory
  step : {s s' : SharedMem} → LawfulReach s → (t : Step s s') → Lawful t → LawfulReach s'

SoundFrom-nobody : (n q : ℕ) → SoundFrom n (identities (replicate q free_client))
unfolding free_client
SoundFrom-nobody n zero = tt
SoundFrom-nobody n (suc q) = (inl (refl, refl), SoundFrom-nobody (suc n) q)

watches_of-free : (id : ℤ) (n : ℕ) → live id ≡ true → watches_of id (replicate n free_watch) ≡ 0
unfolding free_watch
watches_of-free id zero h = refl
watches_of-free id (suc n) h = ground (arith, watches_of-free id n h)

init_arrays-IsOwned : (n m p q : ℕ) → IsOwned (init_arrays n m p q)
unfolding init_arrays
init_arrays-IsOwned n m p q =
    let ids = identities (replicate q free_client) in
    record {
      slots = SoundFrom-nobody 0 q;
      placed = record {
        supplies = All-replicate (λ (s : Supply). Held ids s.client_id) n free_supply refl;
        demands = All-replicate (λ (d : Demand). Held ids d.client_id) m free_demand refl;
        watches =
            All-replicate (λ (w : Watch). Held ids w.client_id) p free_watch
              (unfold free_watch in refl);
        single = λ id h. omega (arith, watches_of-free id p h);
      };
    }

init_shared_memory-IsOwned : IsOwned init_shared_memory
unfolding init_shared_memory
init_shared_memory-IsOwned = init_arrays-IsOwned 10000 10000 1000 1000

Step-IsOwned : {s s' : SharedMem} (t : Step s s') → Lawful t → IsOwned s → IsOwned s'
Step-IsOwned {s} (connected socket e) real v = rw e (register_client-IsOwned s socket real v)
Step-IsOwned {s} (ran i k cmd here sound e) own v = rw e (run_command-IsOwned s i k cmd here own v)
Step-IsOwned {s} (sent i k k' msg here taken e) l v =
    rw e (sent-IsOwned s i k k' here (take_notification-identity k k' msg taken) v)
Step-IsOwned {s} (left i e) l v = rw e (remove_client_resources-IsOwned s i v)

-- From the shared memory that main sets up, let clients connect, with sockets from 0 on, run
-- commands while they are registered, be sent messages and leave, in any order, with amounts in
-- commands from 0 on that fit an `int`. Then every slot of a client is free, with id and socket -1,
-- or holds its own index as id, with a socket; every supply, demand and watch that is in use is
-- that of a registered client; and no client has two watches.
pub LawfulReach-IsOwned : {s : SharedMem} → LawfulReach s → IsOwned s
LawfulReach-IsOwned begin = init_shared_memory-IsOwned
LawfulReach-IsOwned (step r t l) = Step-IsOwned t l (LawfulReach-IsOwned r)

-- From the shared memory that main sets up, let clients connect, with sockets from 0 on, run
-- commands while they are registered, be sent messages and leave, in any order, with amounts in
-- commands from 0 on that fit an `int`. Then every notification that a further command of a
-- registered client makes, with whatever numbers, is for a client that is registered.
pub dispatch-Notified :
    (s : SharedMem) (i : ℕ) (k : Client) (cmd : Command)
    → LawfulReach s
    → get_elem? s.clients i ≡ some k
    → k.client_id ≡ pos i
    → All (Notified (Held (identities s.clients))) (dispatch s i k cmd).1
dispatch-Notified s i k cmd r here own =
    let v = LawfulReach-IsOwned r in
    (dispatch-Placed (Held (identities s.clients)) refl i k (own_slot s.clients i k here own) s cmd
      v.placed).1
