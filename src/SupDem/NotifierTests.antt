-- ===== src/SupDem/NotifierTests.antt =====
-- The sending thread of hw1/supdemserv.c among the others, at a small ring.
use advanced_unix_ceng.Base.{◌≡◌, refl, [], ◌∷◌}
use advanced_unix_ceng.SupDem.InputTests.{quiet, quiet-IsRing}
use advanced_unix_ceng.SupDem.Notifier.{
  World, Runs, rest, and_then, outside, sending, nobody, notifier, locks, drains, takes,
  other_locks, other_enqueues,
}
use advanced_unix_ceng.SupDem.Notifier.Locked.{cancelled_waiting-Locked}
use advanced_unix_ceng.SupDem.Notifier.Order.{IsOrdered, Runs-IsOrdered}
use advanced_unix_ceng.SupDem.Queue.{enqueue_notification, take_notification}
use advanced_unix_ceng.SupDem.Queue.Refine.{pending, pending_from}

-- The thread at the start of a round, with an empty ring.
abbrev starting : World
starting = record { point = outside; holder = nobody; slot = quiet; accepted = []; delivered = [] }

abbrev told : World
told = record starting {
  slot = enqueue_notification quiet (72 ∷ 105 ∷ []);
  accepted = (72 ∷ 105 ∷ []) ∷ [];
}

abbrev carrying : World
carrying = record told {
  point = sending (72 ∷ 105 ∷ []);
  slot = record told.slot { notif_tail = 0 };
}

-- Another thread puts a message into the ring, and the thread takes it off.
told-carrying : Runs starting carrying
unfolding enqueue_notification take_notification
told-carrying =
    and_then
      (and_then
        (and_then
          (and_then (and_then rest (other_locks refl refl))
            (other_enqueues (72 ∷ 105 ∷ []) refl refl))
          (locks refl refl refl))
        (drains refl refl refl))
      (takes (72 ∷ 105 ∷ []) carrying.slot refl refl refl)

nobody-free : (starting.holder ≡ notifier) → ⊥
nobody-free = λ e. cc

quiet-empty : [] ≡ pending quiet
unfolding pending_from
quiet-empty = refl

Runs-IsOrdered_example : IsOrdered carrying
Runs-IsOrdered_example =
    Runs-IsOrdered starting carrying quiet-IsRing refl nobody-free refl quiet-empty told-carrying

cancelled_waiting-Locked_example :
    (last : World) × Runs starting last
    × (last.holder ≡ notifier)
    × (last.slot ≡ starting.slot)
    × ((w' : World) → Runs last w' → w' ≡ last)
cancelled_waiting-Locked_example = cancelled_waiting-Locked starting refl refl refl
