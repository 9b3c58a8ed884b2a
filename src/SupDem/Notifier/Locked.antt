-- ===== src/SupDem/Notifier/Locked.antt =====
-- A client of hw1/supdemserv.c that leaves while its thread waits: pthread_cancel ends the thread
-- in pthread_cond_wait, with the mutex taken and no cleanup handler to release it.
use advanced_unix_ceng.Base.{◌≡◌, refl, ap, ◌∙◌, [], true, ◌==◌}
use advanced_unix_ceng.SupDem.Notifier.{
  outside, gone, nobody, notifier, World, Step, locks, waits, wakes, drains, takes, sends, relocks,
  unlocks, other_locks, other_enqueues, cancelled_waiting, cancelled_sending, Runs, rest, and_then,
}

-- A thread that is gone with the mutex leaves no step to anyone.
no_step : (w w' : World) → w.point ≡ gone [] → w.holder ≡ notifier → Step w w' → ⊥
no_step w w' p h (locks at free e) = cc
no_step w w' p h (waits at empty e) = cc
no_step w w' p h (wakes at free e) = cc
no_step w w' p h (drains at some_left e) = cc
no_step w w' p h (takes msg slot at taken e) = cc
no_step w w' p h (sends msg at e) = cc
no_step w w' p h (relocks at free e) = cc
no_step w w' p h (unlocks at empty e) = cc
no_step w w' p h (other_locks free e) = cc
no_step w w' p h (other_enqueues msg held e) = cc
no_step w w' p h (cancelled_waiting at free e) = cc
no_step w w' p h (cancelled_sending msg at e) = cc

stays : (w w' : World) → w.point ≡ gone [] → w.holder ≡ notifier → Runs w w' → w' ≡ w
stays w w' p h rest = refl
stays w w' p h (and_then {w' = u} runs step) =
    let same = stays w u p h runs in
    absurd (no_step u w' (ap (λ v. v.point) same ∙ p) (ap (λ v. v.holder) same ∙ h) step)

-- From a free mutex, an empty ring and a thread that starts its round, the threads can come to
-- where the sending thread was cancelled in its wait, has ended and holds the mutex, with the ring
-- as it was, and from there no step is possible: no thread ever gets the mutex again, and no
-- message is accepted.
pub cancelled_waiting-Locked :
    (w : World)
    → w.point ≡ outside
    → w.holder ≡ nobody
    → (w.slot.notif_head == w.slot.notif_tail) ≡ true
    → (last : World) × Runs w last
      × (last.holder ≡ notifier)
      × (last.slot ≡ w.slot)
      × ((w' : World) → Runs last w' → w' ≡ last)
cancelled_waiting-Locked w at free empty = (
  record w { point = gone []; holder = notifier },
  and_then (and_then (and_then rest (locks at free refl)) (waits refl empty refl))
      (cancelled_waiting refl refl refl),
  refl,
  refl,
  λ w' runs. stays (record w { point = gone []; holder = notifier }) w' refl refl runs,
)
