-- ===== src/SupDem/Notifier.antt =====
-- notification_thread_func of hw1/supdemserv.c among the other threads: each step is what a thread
-- does between two calls of the thread library. `enqueue_notification` runs in the others.
pub mod Order
pub mod Locked
use advanced_unix_ceng.Base.{
  ℕ, ◌≡◌, List, [], ◌∷◌, ◌++◌, Option, none, some, Bool, true, false, if◌then◌else◌, ◌==◌, take,
}
use advanced_unix_ceng.SupDem.Queue.{advance, enqueue_notification, take_notification}
use advanced_unix_ceng.SupDem.State.{Client}

-- Where the thread is: before the lock of `while(1)`; with the lock, before the test of the inner
-- loop; in pthread_cond_wait; with the lock, before the test of the sending loop; without it, at
-- notify_client with a message; behind notify_client; or at its end, with what it did not send.
pub data Point : Type 0 where
  outside testing waiting draining notified : Point
  sending : List ℕ → Point
  gone : List (List ℕ) → Point

-- Who holds the client's mutex.
pub data Holder : Type 0 where
  nobody notifier another : Holder

-- `accepted` and `delivered` are all messages that were put into the ring, and that were passed to
-- notify_client, in their order.
pub record World : Type 0 where
  pub point : Point
  pub holder : Holder
  pub slot : Client
  pub accepted : List (List ℕ)
  pub delivered : List (List ℕ)

-- What enqueue_notification puts into the ring: nothing where it is full.
abbrev pub put_in : Client → List ℕ → List (List ℕ)
put_in c message = if advance c.notif_head == c.notif_tail then [] else take 255 message ∷ []

-- A lock is taken where nobody holds it. A thread that is cancelled in pthread_cond_wait takes the
-- mutex again before it ends; send is a cancellation point too.
pub data Step (w w' : World) : Type 0 where
  locks :
      w.point ≡ outside
      → w.holder ≡ nobody
      → w' ≡ record w { point = testing; holder = notifier }
      → Step w w'
  waits :
      w.point ≡ testing
      → (w.slot.notif_head == w.slot.notif_tail) ≡ true
      → w' ≡ record w { point = waiting; holder = nobody }
      → Step w w'
  wakes :
      w.point ≡ waiting
      → w.holder ≡ nobody
      → w' ≡ record w { point = testing; holder = notifier }
      → Step w w'
  drains :
      w.point ≡ testing
      → (w.slot.notif_head == w.slot.notif_tail) ≡ false
      → w' ≡ record w { point = draining }
      → Step w w'
  takes :
      (msg : List ℕ) (slot : Client)
      → w.point ≡ draining
      → take_notification w.slot ≡ some (msg, slot)
      → w' ≡ record w { point = sending msg; holder = nobody; slot = slot }
      → Step w w'
  sends :
      (msg : List ℕ)
      → w.point ≡ sending msg
      → w' ≡ record w { point = notified; delivered = w.delivered ++ msg ∷ [] }
      → Step w w'
  relocks :
      w.point ≡ notified
      → w.holder ≡ nobody
      → w' ≡ record w { point = draining; holder = notifier }
      → Step w w'
  unlocks :
      w.point ≡ draining
      → take_notification w.slot ≡ none
      → w' ≡ record w { point = outside; holder = nobody }
      → Step w w'
  other_locks : w.holder ≡ nobody → w' ≡ record w { holder = another } → Step w w'
  other_enqueues :
      (msg : List ℕ)
      → w.holder ≡ another
      → w' ≡ record w {
        holder = nobody;
        slot = enqueue_notification w.slot msg;
        accepted = w.accepted ++ put_in w.slot msg;
      }
      → Step w w'
  cancelled_waiting :
      w.point ≡ waiting
      → w.holder ≡ nobody
      → w' ≡ record w { point = gone []; holder = notifier }
      → Step w w'
  cancelled_sending :
      (msg : List ℕ) → w.point ≡ sending msg → w' ≡ record w { point = gone (msg ∷ []) } → Step w w'

-- Any number of steps.
pub data Runs (w : World) : World → Type 0 where
  rest : Runs w w
  and_then : {w' w'' : World} → Runs w w' → Step w' w'' → Runs w w''
