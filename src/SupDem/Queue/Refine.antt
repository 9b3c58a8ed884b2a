-- ===== src/SupDem/Queue/Refine.antt =====
-- The ring of hw1/supdemserv.c is a first-in first-out queue of at most 999 messages.
use advanced_unix_ceng.Base.{
  ℕ, zero, suc, ◌+◌, ◌-◌, ◌%◌, ◌≤◌, ◌<◌, ◌≡◌, ◌≢◌, refl, ap, ◌∙◌, List, [], ◌∷◌, ◌++◌, Option, none,
  some, if◌then◌else◌, ltb, arith, inl, inr, true, false, ◌==◌, Bool-cases, length, set, get_or,
  take, length-set, take_all, length-take,
}
use advanced_unix_ceng.SupDem.State.{Client}
use advanced_unix_ceng.SupDem.Queue.{advance, enqueue_notification, take_notification}

-- Both positions lie in the array.
pub record IsRing (c : Client) : Type 0 where
  pub head_in : c.notif_head < 1000
  pub tail_in : c.notif_tail < 1000
  pub size : length c.notifications ≡ 1000

-- The number of messages in the ring.
abbrev pub count : Client → ℕ
count c = (c.notif_head + 1000 - c.notif_tail) % 1000

-- The n messages from a position on, as they are sent.
unfoldable pub pending_from : List (List ℕ) → ℕ → ℕ → List (List ℕ)
pending_from ms at zero = []
pending_from ms at (suc n) = take 255 (get_or ms at []) ∷ pending_from ms (advance at) n

-- The queue that the ring stands for.
abbrev pub pending : Client → List (List ℕ)
pending c = pending_from c.notifications c.notif_tail (count c)

-- The specification: a queue with room for 999 messages that drops what does not fit.
abbrev pub push_bounded : List ℕ → List (List ℕ) → List (List ℕ)
push_bounded msg ms = if ltb (length ms) 999 then ms ++ take 255 msg ∷ [] else ms

get_or-set_ne :
    (ms : List (List ℕ)) (i j : ℕ) (m : List ℕ) → i ≢ j → get_or (set ms i m) j [] ≡ get_or ms j []
get_or-set_ne [] i j m h = refl
get_or-set_ne (x ∷ ms) zero zero m h = absurd (h refl)
get_or-set_ne (x ∷ ms) zero (suc j) m h = refl
get_or-set_ne (x ∷ ms) (suc i) zero m h = refl
get_or-set_ne (x ∷ ms) (suc i) (suc j) m h = get_or-set_ne ms i j m (λ e. h (ap suc e))

get_or-set_self :
    (ms : List (List ℕ)) (i : ℕ) (m : List ℕ) → i < length ms → get_or (set ms i m) i [] ≡ m
get_or-set_self [] i m h = absurd (omega arith)
get_or-set_self (x ∷ ms) zero m h = refl
get_or-set_self (x ∷ ms) (suc i) m h = get_or-set_self ms i m (omega arith)

pub length-pending_from : (ms : List (List ℕ)) (at n : ℕ) → length (pending_from ms at n) ≡ n
unfolding pending_from
length-pending_from ms at zero = refl
length-pending_from ms at (suc n) = ap suc (length-pending_from ms (advance at) n)

-- A write in front of the messages leaves them alone.
pending_from-set :
    (ms : List (List ℕ)) (at head n : ℕ) (m : List ℕ)
    → at < 1000
    → head < 1000
    → n ≤ (head + 1000 - at) % 1000
    → pending_from (set ms head m) at n ≡ pending_from ms at n
unfolding pending_from
pending_from-set ms at head zero m ha hh hn = refl
pending_from-set ms at head (suc n) m ha hh hn = rw (
  get_or-set_ne ms head at m (λ e. omega arith),
  pending_from-set ms (advance at) head n m (omega arith) hh (omega arith),
)

-- The message after n others is the last of n + 1.
pending_from-snoc :
    (ms : List (List ℕ)) (at n : ℕ)
    → at < 1000
    → pending_from ms at (suc n)
      ≡ pending_from ms at n ++ take 255 (get_or ms ((at + n) % 1000) []) ∷ []
unfolding pending_from
pending_from-snoc ms at zero h = ap (λ i. take 255 (get_or ms i []) ∷ []) (omega arith)
pending_from-snoc ms at (suc n) h = ap (◌∷◌ (take 255 (get_or ms at []))) (
    pending_from-snoc ms (advance at) n (omega arith)
    ∙ ap (λ i. pending_from ms (advance at) n ++ take 255 (get_or ms i []) ∷ []) (omega arith))

-- What enqueue_notification writes where there is room.
pending-written :
    (c : Client) (msg : List ℕ)
    → IsRing c
    → pending_from (set c.notifications c.notif_head (take 255 msg)) c.notif_tail (suc (count c))
      ≡ pending c ++ take 255 msg ∷ []
pending-written c msg v =
    let ms = set c.notifications c.notif_head (take 255 msg) in
    let here : (c.notif_tail + count c) % 1000 ≡ c.notif_head =
      omega (arith, v.head_in, v.tail_in) in
    rw (
      pending_from-snoc ms c.notif_tail (count c) v.tail_in,
      here,
      pending_from-set c.notifications c.notif_tail c.notif_head (count c) (take 255 msg) v.tail_in
          v.head_in (omega arith),
      get_or-set_self c.notifications c.notif_head (take 255 msg)
          (omega (arith, v.size, v.head_in)),
      take_all 255 (take 255 msg) (omega (arith, length-take 255 msg)),
    )

-- On a ring of 1000 places whose positions lie in it, enqueue_notification acts as the bounded
-- queue: a message is added at the end, cut to 255 bytes, or dropped where 999 are waiting; the
-- ring keeps its size and its positions stay in it.
pub enqueue_notification-push_bounded :
    (c : Client) (msg : List ℕ)
    → IsRing c
    → IsRing (enqueue_notification c msg)
      × (pending (enqueue_notification c msg) ≡ push_bounded msg (pending c))
unfolding enqueue_notification
enqueue_notification-push_bounded c msg v =
    let len = length-pending_from c.notifications c.notif_tail (count c) in
    elim (Bool-cases (advance c.notif_head == c.notif_tail)) [
      | inl full ↦
          let over : ltb (length (pending c)) 999 ≡ false =
            ground (arith, len, full, v.head_in, v.tail_in) in
          rw (full, over) (v, refl)
      | inr space ↦
          let under : ltb (length (pending c)) 999 ≡ true =
            ground (arith, len, space, v.head_in, v.tail_in) in
          let more : (advance c.notif_head + 1000 - c.notif_tail) % 1000 ≡ suc (count c) =
            ground (arith, space, v.head_in, v.tail_in) in
          rw (space, under, more)
            (
              record {
                head_in = omega arith;
                tail_in = v.tail_in;
                size = length-set c.notifications c.notif_head (take 255 msg) ∙ v.size;
              },
              pending-written c msg v,
            )
    ]

-- What the sending thread does to a queue: it waits on an empty one, else takes the first message.
abbrev pub Takes : List (List ℕ) → Option (List ℕ × Client) → Type 0
Takes ms none = ms ≡ []
Takes ms (some r) = IsRing r.1 × (ms ≡ r.0 ∷ pending r.1)

-- On a ring of 1000 places whose positions lie in it, a turn of the sending loop finds nothing
-- exactly on an empty queue, and else takes the oldest message off; the ring keeps its size and
-- its positions stay in it.
pub take_notification-Takes : (c : Client) → IsRing c → Takes (pending c) (take_notification c)
unfolding take_notification pending_from
take_notification-Takes c v = elim (Bool-cases (c.notif_tail == c.notif_head)) [
  | inl same ↦
      let none_left : count c ≡ 0 = ground (arith, same, v.head_in, v.tail_in) in
      rw (same, none_left) refl
  | inr more ↦
      let one : count c ≡ suc ((c.notif_head + 1000 - advance c.notif_tail) % 1000) =
        ground (arith, more, v.head_in, v.tail_in) in
      rw (more, one) (record { head_in = v.head_in; tail_in = omega arith; size = v.size }, refl)
]
