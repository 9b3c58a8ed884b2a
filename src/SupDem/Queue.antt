-- ===== src/SupDem/Queue.antt =====
-- The ring of notifications of a client of hw1/supdemserv.c: enqueue_notification, and a round of
-- notification_thread_func with notify_client. Each runs under the client's mutex.
pub mod Refine
pub mod Drain
use advanced_unix_ceng.Base.{
  ℕ, ◌+◌, ◌%◌, zero, suc, List, [], ◌∷◌, ◌++◌, Option, none, some, if◌then◌else◌, ◌==◌, set, get_or,
  take,
}
use advanced_unix_ceng.Base.Int.{ℤ, negsuc, eqb_ℤ}
use advanced_unix_ceng.SupDem.State.{Client, max_notifications}

-- `(i + 1) % MAX_NOTIFICATIONS`
abbrev pub advance : ℕ → ℕ
advance i = (i + 1) % max_notifications

unfoldable pub enqueue_notification : Client → List ℕ → Client
enqueue_notification c msg =
    let next_head = advance c.notif_head in
    if next_head == c.notif_tail then c else record c {
      notifications = set c.notifications c.notif_head (take 255 msg);
      notif_head = next_head;
    }

-- One turn of the loop that sends: the message passed to notify_client, or `none` where the
-- thread goes back to wait.
unfoldable pub take_notification : Client → Option (List ℕ × Client)
take_notification c =
    if c.notif_tail == c.notif_head
    then none
    else some (
      take 255 (get_or c.notifications c.notif_tail []),
      record c { notif_tail = advance c.notif_tail },
    )

-- What is passed to send: nothing for a socket that is closed.
unfoldable pub notify_client : ℤ → List ℕ → List (List ℕ)
notify_client client_socket message = if eqb_ℤ client_socket (negsuc 0) then [] else message ∷ []

-- The loop that sends, while no message comes in between; `none`: out of fuel.
unfoldable pub send_notifications : ℕ → Client → Option (List (List ℕ) × Client)
send_notifications zero c = none
send_notifications (suc fuel) c = elim (take_notification c) [
  | none ↦ some ([], c)
  | some (msg, next) ↦ elim (send_notifications fuel next) [
    | none ↦ none
    | some (messages, last) ↦ some (notify_client next.client_socket msg ++ messages, last)
  ]
]

-- What a round of notification_thread_func comes to: the thread blocks in pthread_cond_wait until a
-- message comes in, or it sends.
pub data Round : Type 0 where
  waits : Round
  sends : Option (List (List ℕ) × Client) → Round

-- One round of notification_thread_func, from where it has taken the mutex or was woken; a ring has
-- fewer messages than places.
unfoldable pub notification_round : Client → Round
notification_round c =
    if c.notif_head == c.notif_tail then waits else sends (send_notifications max_notifications c)
