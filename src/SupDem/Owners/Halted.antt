-- ===== src/SupDem/Owners/Halted.antt =====
-- Whose the slots of hw1/supdemserv.c are where a command was stopped at its answer.
use mathlib.Core.Path.{subst}
use advanced_unix_ceng.Base.{ℕ, ◌≡◌, refl, sym, some, arith, get_elem?}
use advanced_unix_ceng.Base.Int.{ℤ, pos, negsuc}
use advanced_unix_ceng.SupDem.Agent.{before_reply}
use advanced_unix_ceng.SupDem.Agent.HalfRun.{before_reply-Keeps}
use advanced_unix_ceng.SupDem.Agent.Identities.{identities}
use advanced_unix_ceng.SupDem.Owners.{Held, SoundFrom, Placed, IsOwned}
use advanced_unix_ceng.SupDem.Owners.Commands.{
  remove_watch-Watches, remove_watch-Single, add_new_demand-Demands, add_new_supply-Supplies,
  add_new_watch-Watches, add_new_watch-Single,
}
use advanced_unix_ceng.SupDem.Owners.Holding.{own_slot}
use advanced_unix_ceng.SupDem.Server.{Command, move, demand, supply, watch, unwatch}
use advanced_unix_ceng.SupDem.Slots.{move_client}
use advanced_unix_ceng.SupDem.State.{Client, SharedMem}

before_reply-Placed :
    (P : ℤ → Type 0)
    → P (negsuc 0)
    → (i : ℕ) (k : Client) → P (pos i)
    → (shm : SharedMem) (cmd : Command) → Placed P shm
    → Placed P (before_reply shm i k cmd)
unfolding before_reply move_client
before_reply-Placed P free i k own shm (move x y) v = record {
  supplies = v.supplies;
  demands = v.demands;
  watches = v.watches;
  single = v.single;
}
before_reply-Placed P free i k own shm (demand a b c) v = record {
  supplies = v.supplies;
  demands = add_new_demand-Demands P free i k own shm.demands a b c v.demands;
  watches = v.watches;
  single = v.single;
}
before_reply-Placed P free i k own shm (supply distance a b c) v = record {
  supplies = add_new_supply-Supplies P free i k own shm.supplies distance a b c v.supplies;
  demands = v.demands;
  watches = v.watches;
  single = v.single;
}
before_reply-Placed P free i k own shm (watch id) v = record {
  supplies = v.supplies;
  demands = v.demands;
  watches = add_new_watch-Watches P free i k own shm.watches id v.watches;
  single = add_new_watch-Single P free i k own shm.watches id v.single;
}
before_reply-Placed P free i k own shm unwatch v = record {
  supplies = v.supplies;
  demands = v.demands;
  watches = remove_watch-Watches P free (pos i) shm.watches v.watches;
  single = remove_watch-Single i shm.watches v.single;
}
before_reply-Placed P free i k own shm cmd v = v

pub before_reply-IsOwned :
    (shm : SharedMem) (i : ℕ) (k : Client) (cmd : Command)
    → get_elem? shm.clients i ≡ some k
    → k.client_id ≡ pos i
    → IsOwned shm
    → IsOwned (before_reply shm i k cmd)
before_reply-IsOwned shm i k cmd here own v =
    let ids = identities shm.clients in
    let same = (before_reply-Keeps shm i k cmd (pos i) (ground arith)).same_identities in
    record {
      slots = subst (SoundFrom 0) (sym same) v.slots;
      placed =
          subst (λ x. Placed (Held x) (before_reply shm i k cmd)) (sym same)
            (before_reply-Placed (Held ids) refl i k (own_slot shm.clients i k here own) shm cmd
              v.placed);
    }
