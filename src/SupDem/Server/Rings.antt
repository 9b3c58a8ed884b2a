-- ===== src/SupDem/Server/Rings.antt =====
-- The rings of notifications of hw1/supdemserv.c stay well formed under all commands.
use mathlib.Core.Path.{subst}
use advanced_unix_ceng.Base.{
  ℕ, zero, suc, ◌≡◌, List, [], ◌∷◌, Option, none, some, arith, get_elem?, set, replicate,
  length-replicate, Option-cases, inl, inr,
}
use advanced_unix_ceng.Base.Int.{ℤ, pos, negsuc}
use advanced_unix_ceng.SupDem.Match.{Note}
use advanced_unix_ceng.SupDem.Queue.{enqueue_notification, take_notification}
use advanced_unix_ceng.SupDem.Queue.Refine.{
  IsRing, Takes, pending, enqueue_notification-push_bounded, take_notification-Takes,
}
use advanced_unix_ceng.SupDem.Server.{
  Command, move, deliver_one, deliver, run_match, run_supply, dispatch, run_command, Step,
  connected, ran, sent, left, Reach, start, next, init_arrays, init_shared_memory, free_client,
}
use advanced_unix_ceng.SupDem.Slots.{
  first_slot, client_free, register_client, modify_client, remove_client_resources, move_client,
}
use advanced_unix_ceng.SupDem.State.{Client, SharedMem}

-- Every client's ring is well formed.
abbrev pub AllRings : List Client → Type 0
AllRings [] = Unit {0}
AllRings (k ∷ ks) = IsRing k × AllRings ks

abbrev Ringed : Option Client → Type 0
Ringed none = Unit {0}
Ringed (some k) = IsRing k

AllRings-get_elem? :
    (ks : List Client) (i : ℕ) (k : Client) → AllRings ks → get_elem? ks i ≡ some k → IsRing k
AllRings-get_elem? [] i k h e = ground arith
AllRings-get_elem? (x ∷ ks) zero k h e = subst Ringed e h.0
AllRings-get_elem? (x ∷ ks) (suc i) k h e = AllRings-get_elem? ks i k h.1 e

AllRings-set :
    (ks : List Client) (i : ℕ) (k : Client) → AllRings ks → IsRing k → AllRings (set ks i k)
AllRings-set [] i k h v = tt
AllRings-set (x ∷ ks) zero k h v = (v, h.1)
AllRings-set (x ∷ ks) (suc i) k h v = (h.0, AllRings-set ks i k h.1 v)

AllRings-modify_client :
    (f : Client → Client) (ks : List Client) (i : ℕ)
    → ((k : Client) → IsRing k → IsRing (f k))
    → AllRings ks
    → AllRings (modify_client f ks i)
unfolding modify_client
AllRings-modify_client f [] i keep h = tt
AllRings-modify_client f (x ∷ ks) zero keep h = (keep x h.0, h.1)
AllRings-modify_client f (x ∷ ks) (suc i) keep h = (h.0, AllRings-modify_client f ks i keep h.1)

AllRings-deliver :
    (ks : List Client) (notes : List Note) → AllRings ks → AllRings (deliver ks notes)
unfolding deliver deliver_one
AllRings-deliver ks [] h = h
AllRings-deliver ks ((pos i, msg) ∷ notes) h =
    AllRings-deliver (modify_client (λ k. enqueue_notification k msg) ks i) notes (
      AllRings-modify_client (λ k. enqueue_notification k msg) ks i
        (λ k v. (enqueue_notification-push_bounded k msg v).0) h)
AllRings-deliver ks ((negsuc n, msg) ∷ notes) h = AllRings-deliver ks notes h

AllRings-register_client :
    (ks : List Client) (socket : ℤ) → AllRings ks → AllRings (register_client ks socket).0
unfolding register_client
AllRings-register_client ks socket h = elim (Option-cases (first_slot client_free ks)) [
  | inl full ↦ rw (full, register_client) h
  | inr (i, found) ↦ elim (Option-cases (get_elem? ks i)) [
    | inl out ↦ rw (found, register_client, out) h
    | inr (k, here) ↦
        let v = AllRings-get_elem? ks i k h here in
        rw (found, register_client, here)
          (AllRings-set ks i _ h
            (record { head_in = omega arith; tail_in = omega arith; size = v.size }))
  ]
]

AllRings-dispatch :
    (shm : SharedMem) (i : ℕ) (k : Client) (cmd : Command)
    → AllRings shm.clients
    → AllRings (dispatch shm i k cmd).0.clients
unfolding dispatch run_supply run_match move_client
AllRings-dispatch shm i k (move x y) h =
    AllRings-modify_client (λ c. record c { x = x; y = y }) shm.clients i
      (λ c v. record { head_in = v.head_in; tail_in = v.tail_in; size = v.size }) h
AllRings-dispatch shm i k cmd h = h

AllRings-remove_client_resources :
    (shm : SharedMem) (i : ℕ)
    → AllRings shm.clients
    → AllRings (remove_client_resources shm i).clients
unfolding remove_client_resources
AllRings-remove_client_resources shm i h =
    AllRings-modify_client (λ k. record k { client_socket = negsuc 0; client_id = negsuc 0 })
      shm.clients i (λ c v. record { head_in = v.head_in; tail_in = v.tail_in; size = v.size }) h

AllRings-free : (n : ℕ) → IsRing free_client → AllRings (replicate n free_client)
AllRings-free zero v = tt
AllRings-free (suc n) v = (v, AllRings-free n v)

free_client-IsRing : IsRing free_client
unfolding free_client
free_client-IsRing = record {
  head_in = omega arith;
  tail_in = omega arith;
  size = length-replicate {A = List ℕ} 1000 [];
}

init_arrays-AllRings : (n m p q : ℕ) → AllRings (init_arrays n m p q).clients
unfolding init_arrays
init_arrays-AllRings n m p q = AllRings-free q free_client-IsRing

init_shared_memory-AllRings : AllRings init_shared_memory.clients
unfolding init_shared_memory
init_shared_memory-AllRings = init_arrays-AllRings 10000 10000 1000 1000

-- Sending takes the ring from one well-formed state to another.
taken-IsRing :
    (k k' : Client) (msg : List ℕ) → IsRing k → take_notification k ≡ some (msg, k') → IsRing k'
taken-IsRing k k' msg v e = (subst (Takes (pending k)) e (take_notification-Takes k v)).0

Step-AllRings : {s s' : SharedMem} → Step s s' → AllRings s.clients → AllRings s'.clients
unfolding run_command
Step-AllRings {s} (connected socket e) h = rw e (AllRings-register_client s.clients socket h)
Step-AllRings {s} (ran i k cmd here sound e) h = rw e (
    AllRings-deliver (dispatch s i k cmd).0.clients (dispatch s i k cmd).1
      (AllRings-dispatch s i k cmd h))
Step-AllRings {s} (sent i k k' msg here taken e) h =
    let v = AllRings-get_elem? s.clients i k h here in
    rw e (AllRings-set s.clients i k' h (taken-IsRing k k' msg v taken))
Step-AllRings {s} (left i e) h = rw e (AllRings-remove_client_resources s i h)

-- From the shared memory that main sets up, after every sequence of clients that connect, run
-- commands, are sent messages and leave, where the amounts in commands are from 0 on and fit an
-- `int`: the ring of every client is well formed, with 1000 places and its two positions in it.
pub Reach-AllRings : {s : SharedMem} → Reach s → AllRings s.clients
Reach-AllRings start = init_shared_memory-AllRings
Reach-AllRings (next r t) = Step-AllRings t (Reach-AllRings r)
