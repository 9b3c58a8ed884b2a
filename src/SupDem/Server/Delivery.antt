-- ===== src/SupDem/Server/Delivery.antt =====
-- What the notifications of a command of hw1/supdemserv.c add to each client's ring.
use mathlib.Core.Path.{subst}
use advanced_unix_ceng.Base.{
  ℕ, zero, suc, ◌≡◌, refl, List, [], ◌∷◌, Option, none, some, if◌then◌else◌, ◌==◌, arith, get_elem?,
  Bool-cases, inl, inr,
}
use advanced_unix_ceng.Base.Int.{pos, negsuc}
use advanced_unix_ceng.SupDem.Match.{Note}
use advanced_unix_ceng.SupDem.Queue.{enqueue_notification}
use advanced_unix_ceng.SupDem.Queue.Refine.{
  IsRing, pending, push_bounded, enqueue_notification-push_bounded,
}
use advanced_unix_ceng.SupDem.Server.{deliver_one, deliver}
use advanced_unix_ceng.SupDem.Slots.{modify_client}
use advanced_unix_ceng.SupDem.State.{Client}

-- The messages of the notes for the client with index `i`.
abbrev pub messages_for : ℕ → List Note → List (List ℕ)
messages_for i [] = []
messages_for i ((pos j, msg) ∷ notes) =
    let rest = messages_for i notes in if j == i then msg ∷ rest else rest
messages_for i ((negsuc n, msg) ∷ notes) = messages_for i notes

-- The bounded queue after some messages, in their order.
abbrev pub push_all : List (List ℕ) → List (List ℕ) → List (List ℕ)
push_all [] queue = queue
push_all (msg ∷ msgs) queue = push_all msgs (push_bounded msg queue)

-- A client whose ring is well formed and holds these messages.
abbrev pub Holds : List (List ℕ) → Option Client → Type 0
Holds queue none = ⊥
Holds queue (some k) = IsRing k × (pending k ≡ queue)

get_elem?-modify_client :
    (f : Client → Client) (ks : List Client) (i j : ℕ) (k : Client)
    → get_elem? ks j ≡ some k
    → get_elem? (modify_client f ks i) j ≡ some (if i == j then f k else k)
unfolding modify_client
get_elem?-modify_client f [] i j k e = ground arith
get_elem?-modify_client f (x ∷ ks) zero zero k e = ground arith
get_elem?-modify_client f (x ∷ ks) zero (suc j) k e = ground arith
get_elem?-modify_client f (x ∷ ks) (suc i) zero k e = ground arith
get_elem?-modify_client f (x ∷ ks) (suc i) (suc j) k e =
    ground (arith, get_elem?-modify_client f ks i j k e)

-- Where a client's ring is well formed, delivering the notifications of a command adds to its
-- queue exactly the messages for it, in their order, as a bounded queue takes them.
pub deliver-push_all :
    (ks : List Client) (notes : List Note) (i : ℕ) (k : Client)
    → get_elem? ks i ≡ some k
    → IsRing k
    → Holds (push_all (messages_for i notes) (pending k)) (get_elem? (deliver ks notes) i)
unfolding deliver deliver_one
deliver-push_all ks [] i k here v = rw here (v, refl)
deliver-push_all ks ((negsuc n, msg) ∷ notes) i k here v = deliver-push_all ks notes i k here v
deliver-push_all ks ((pos j, msg) ∷ notes) i k here v =
    let put = enqueue_notification-push_bounded k msg v in
    let f = λ (c : Client). enqueue_notification c msg in
    let at = get_elem?-modify_client f ks j i k here in
    elim (Bool-cases (j == i)) [
      | inl mine ↦
          let rest =
            deliver-push_all (modify_client f ks j) notes i (enqueue_notification k msg)
              (rw mine at at) put.0 in
          rw mine (
            subst
              (λ queue.
                Holds (push_all (messages_for i notes) queue)
                  (get_elem? (deliver (modify_client f ks j) notes) i))
              put.1 rest)
      | inr other ↦ rw other (deliver-push_all (modify_client f ks j) notes i k (rw other at at) v)
    ]
