-- ===== src/SupDem/Notifier/Order.antt =====
-- Whatever the threads of hw1/supdemserv.c do, no message of a client is lost, doubled or overtaken.
use mathlib.Core.Path.{subst}
use advanced_unix_ceng.Base.{
  ℕ, ◌≡◌, ◌≢◌, refl, ap, sym, ◌∙◌, List, [], ◌∷◌, ◌++◌, some, true, false, ◌==◌, arith, length,
  append_assoc, append-nil, ltb, Bool-cases, inl, inr,
}
use advanced_unix_ceng.SupDem.Notifier.{
  Point, outside, testing, waiting, draining, notified, sending, gone, Holder, nobody, notifier,
  another, World, put_in, Step, locks, waits, wakes, drains, takes, sends, relocks, unlocks,
  other_locks, other_enqueues, cancelled_waiting, cancelled_sending, Runs, rest, and_then,
}
use advanced_unix_ceng.SupDem.Queue.{advance, enqueue_notification, take_notification}
use advanced_unix_ceng.SupDem.Queue.Refine.{
  IsRing, Takes, pending, push_bounded, count, length-pending_from,
  enqueue_notification-push_bounded, take_notification-Takes,
}
use advanced_unix_ceng.SupDem.State.{Client}

-- The message that the thread has taken off the ring and not passed on.
abbrev pub in_hand : Point → List (List ℕ)
in_hand (sending msg) = msg ∷ []
in_hand (gone ms) = ms
in_hand outside = []
in_hand testing = []
in_hand waiting = []
in_hand draining = []
in_hand notified = []

-- Whether the thread holds the mutex where it uses the ring, and not where it does not.
abbrev pub Guarded : Point → Holder → Type 0
Guarded testing h = h ≡ notifier
Guarded draining h = h ≡ notifier
Guarded (gone ms) h = Unit {0}
Guarded outside h = h ≢ notifier
Guarded waiting h = h ≢ notifier
Guarded notified h = h ≢ notifier
Guarded (sending msg) h = h ≢ notifier

pub record IsOrdered (w : World) : Type 0 where
  pub ring : IsRing w.slot
  pub guarded : Guarded w.point w.holder
  pub order : w.accepted ≡ w.delivered ++ (in_hand w.point ++ pending w.slot)

-- A message is accepted exactly where the bounded queue has room.
push_bounded-pending :
    (c : Client) (msg : List ℕ)
    → IsRing c
    → push_bounded msg (pending c) ≡ pending c ++ put_in c msg
push_bounded-pending c msg v =
    let len = length-pending_from c.notifications c.notif_tail (count c) in
    elim (Bool-cases (advance c.notif_head == c.notif_tail)) [
      | inl full ↦
          let over : ltb (length (pending c)) 999 ≡ false =
            ground (arith, len, full, v.head_in, v.tail_in) in
          rw (over, full) (sym (append-nil (pending c)))
      | inr space ↦
          let under : ltb (length (pending c)) 999 ≡ true =
            ground (arith, len, space, v.head_in, v.tail_in) in
          rw (under, space) refl
    ]

pub enqueue_notification-pending :
    (c : Client) (msg : List ℕ)
    → IsRing c
    → IsRing (enqueue_notification c msg)
      × (pending (enqueue_notification c msg) ≡ pending c ++ put_in c msg)
enqueue_notification-pending c msg v =
    let (ring, e) = enqueue_notification-push_bounded c msg v in
    (ring, e ∙ push_bounded-pending c msg v)

nobody-ne : nobody ≢ notifier
nobody-ne = λ e. cc

another-ne : another ≢ notifier
another-ne = λ e. cc

-- What an ordered World says where the thread is known to stand.
Standing : World → Point → Type 0
Standing w p = Guarded p w.holder × (w.accepted ≡ w.delivered ++ (in_hand p ++ pending w.slot))

standing : (w : World) (p : Point) → IsOrdered w → w.point ≡ p → Standing w p
unfolding Standing
standing w p v e = subst (Standing w) e (v.guarded, v.order)

-- A message that is taken off the ring is in the thread's hand.
takes-IsOrdered :
    (w w' : World) (msg : List ℕ) (slot : Client)
    → IsOrdered w
    → w.point ≡ draining
    → take_notification w.slot ≡ some (msg, slot)
    → w' ≡ record w { point = sending msg; holder = nobody; slot = slot }
    → IsOrdered w'
unfolding Standing
takes-IsOrdered w w' msg slot v at taken e =
    let (ring, front) =
      subst (Takes (pending w.slot)) taken (take_notification-Takes w.slot v.ring) in
    let (held, order) = standing w draining v at in
    subst IsOrdered (sym e)
      (record { ring = ring; guarded = nobody-ne; order = order ∙ ap (◌++◌ w.delivered) front })

-- A mutex that another thread holds may be free, and a free one another's.
Guarded-release : (p : Point) → Guarded p another → Guarded p nobody
Guarded-release testing h = absurd (another-ne h)
Guarded-release draining h = absurd (another-ne h)
Guarded-release (gone ms) h = tt
Guarded-release outside h = nobody-ne
Guarded-release waiting h = nobody-ne
Guarded-release notified h = nobody-ne
Guarded-release (sending msg) h = nobody-ne

Guarded-lock : (p : Point) → Guarded p nobody → Guarded p another
Guarded-lock testing h = absurd (nobody-ne h)
Guarded-lock draining h = absurd (nobody-ne h)
Guarded-lock (gone ms) h = tt
Guarded-lock outside h = another-ne
Guarded-lock waiting h = another-ne
Guarded-lock notified h = another-ne
Guarded-lock (sending msg) h = another-ne

enqueues-IsOrdered :
    (w w' : World) (msg : List ℕ)
    → IsOrdered w
    → w.holder ≡ another
    → w' ≡ record w {
      holder = nobody;
      slot = enqueue_notification w.slot msg;
      accepted = w.accepted ++ put_in w.slot msg;
    }
    → IsOrdered w'
enqueues-IsOrdered w w' msg v h e =
    let (ring, more) = enqueue_notification-pending w.slot msg v.ring in
    subst IsOrdered (sym e) (record {
      ring = ring;
      guarded = Guarded-release w.point (subst (Guarded w.point) h v.guarded);
      order =
          rw
            (
              v.order,
              more,
              append_assoc w.delivered (in_hand w.point ++ pending w.slot) (put_in w.slot msg),
              append_assoc (in_hand w.point) (pending w.slot) (put_in w.slot msg),
            )
            refl;
    })

-- No step loses, doubles or reorders a message.
Step-IsOrdered : (w w' : World) → IsOrdered w → Step w w' → IsOrdered w'
unfolding Standing
Step-IsOrdered w w' v (locks at free e) =
    let (held, order) = standing w outside v at in
    subst IsOrdered (sym e) (record { ring = v.ring; guarded = refl; order = order })
Step-IsOrdered w w' v (waits at empty e) =
    let (held, order) = standing w testing v at in
    subst IsOrdered (sym e) (record { ring = v.ring; guarded = nobody-ne; order = order })
Step-IsOrdered w w' v (wakes at free e) =
    let (held, order) = standing w waiting v at in
    subst IsOrdered (sym e) (record { ring = v.ring; guarded = refl; order = order })
Step-IsOrdered w w' v (drains at some_left e) =
    let (held, order) = standing w testing v at in
    subst IsOrdered (sym e) (record { ring = v.ring; guarded = held; order = order })
Step-IsOrdered w w' v (takes msg slot at taken e) = takes-IsOrdered w w' msg slot v at taken e
Step-IsOrdered w w' v (sends msg at e) =
    let (held, order) = standing w (sending msg) v at in
    subst IsOrdered (sym e) (record {
      ring = v.ring;
      guarded = held;
      order = order ∙ sym (append_assoc w.delivered (msg ∷ []) (pending w.slot));
    })
Step-IsOrdered w w' v (relocks at free e) =
    let (held, order) = standing w notified v at in
    subst IsOrdered (sym e) (record { ring = v.ring; guarded = refl; order = order })
Step-IsOrdered w w' v (unlocks at empty e) =
    let (held, order) = standing w draining v at in
    subst IsOrdered (sym e) (record { ring = v.ring; guarded = nobody-ne; order = order })
Step-IsOrdered w w' v (other_locks free e) = subst IsOrdered (sym e) (record {
  ring = v.ring;
  guarded = Guarded-lock w.point (subst (Guarded w.point) free v.guarded);
  order = v.order;
})
Step-IsOrdered w w' v (other_enqueues msg h e) = enqueues-IsOrdered w w' msg v h e
Step-IsOrdered w w' v (cancelled_waiting at free e) =
    let (held, order) = standing w waiting v at in
    subst IsOrdered (sym e) (record { ring = v.ring; guarded = tt; order = order })
Step-IsOrdered w w' v (cancelled_sending msg at e) =
    let (held, order) = standing w (sending msg) v at in
    subst IsOrdered (sym e) (record { ring = v.ring; guarded = tt; order = order })

ordered : (w w' : World) → IsOrdered w → Runs w w' → IsOrdered w'
ordered w w' v rest = v
ordered w w' v (and_then {w' = u} runs step) = Step-IsOrdered u w' (ordered w u v runs) step

-- From a thread that starts on a ring with nothing accepted but what is in it, whatever the
-- threads do: the ring stays one, the sending thread has the mutex whenever it uses the ring and
-- not while it waits or sends, and the messages accepted are, in their order, those delivered,
-- the one taken off and not yet sent, and those in the ring; none is lost, doubled or overtaken.
pub Runs-IsOrdered :
    (w w' : World)
    → IsRing w.slot
    → w.point ≡ outside
    → w.holder ≢ notifier
    → w.delivered ≡ []
    → w.accepted ≡ pending w.slot
    → Runs w w'
    → IsOrdered w'
Runs-IsOrdered w w' ring at free none_sent all = ordered w w' (record {
  ring = ring;
  guarded = subst (λ p. Guarded p w.holder) (sym at) free;
  order = rw (all, none_sent, at) refl;
})
