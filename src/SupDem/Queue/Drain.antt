-- ===== src/SupDem/Queue/Drain.antt =====
-- A round of notification_thread_func of hw1/supdemserv.c sends all that waits in the ring.
use mathlib.Core.Path.{subst}
use advanced_unix_ceng.Base.{
  ℕ, zero, suc, ◌<◌, ◌≡◌, ap, sym, ◌∙◌, List, [], ◌∷◌, ◌++◌, Option, none, some, if◌then◌else◌,
  arith, length, Option-cases, inl, inr, ◌≢◌, ◌==◌, ==_iff, ◌+◌, ◌-◌, ◌%◌, true, false, Bool-cases,
}
use advanced_unix_ceng.Base.Int.{ℤ, negsuc, eqb_ℤ}
use advanced_unix_ceng.SupDem.State.{Client}
use advanced_unix_ceng.SupDem.Queue.{
  Round, waits, sends, take_notification, notify_client, send_notifications, notification_round,
}
use advanced_unix_ceng.SupDem.Queue.Refine.{
  IsRing, pending, pending_from, count, Takes, length-pending_from, take_notification-Takes,
}

-- What a client with a socket is sent of some messages.
abbrev pub sent_to : ℤ → List (List ℕ) → List (List ℕ)
sent_to client_socket ms = if eqb_ℤ client_socket (negsuc 0) then [] else ms

-- All messages sent, and an empty ring left.
abbrev pub Drains : Client → Option (List (List ℕ) × Client) → Type 0
Drains c none = ⊥
Drains c (some (messages, last)) =
    (messages ≡ sent_to c.client_socket (pending c)) × IsRing last × (pending last ≡ [])

socket_or : ℤ → Option (List ℕ × Client) → ℤ
socket_or z none = z
socket_or z (some r) = r.1.client_socket

kept_socket : (c : Client) → socket_or c.client_socket (take_notification c) ≡ c.client_socket
unfolding take_notification socket_or
kept_socket c = ground arith

take_notification-client_socket :
    (c next : Client) (msg : List ℕ)
    → take_notification c ≡ some (msg, next)
    → next.client_socket ≡ c.client_socket
unfolding socket_or
take_notification-client_socket c next msg e =
    ap (socket_or c.client_socket) (sym e) ∙ kept_socket c

sent_to-nil : (z : ℤ) → sent_to z [] ≡ []
sent_to-nil z = ground arith

sent_to-cons :
    (z : ℤ) (msg : List ℕ) (ms : List (List ℕ))
    → notify_client z msg ++ sent_to z ms ≡ sent_to z (msg ∷ ms)
unfolding notify_client
sent_to-cons z msg ms = ground arith

Drains-step :
    (c next : Client) (msg : List ℕ) (rest : Option (List (List ℕ) × Client))
    → next.client_socket ≡ c.client_socket
    → pending c ≡ msg ∷ pending next
    → Drains next rest
    → Drains c (elim rest [
      | none ↦ none
      | some (messages, last) ↦ some (notify_client next.client_socket msg ++ messages, last)
    ])
Drains-step c next msg none same e h = h
Drains-step c next msg (some (messages, last)) same e (sent, ring, empty) = (
  ap (λ ms. notify_client next.client_socket msg ++ ms) sent
      ∙ sent_to-cons next.client_socket msg (pending next)
      ∙ ap (λ z. sent_to z (msg ∷ pending next)) same
      ∙ ap (sent_to c.client_socket) (sym e),
  ring,
  empty,
)

send_notifications-Drains :
    (fuel : ℕ) (c : Client)
    → IsRing c
    → length (pending c) < fuel
    → Drains c (send_notifications fuel c)
unfolding send_notifications
send_notifications-Drains zero c v h = absurd (omega arith)
send_notifications-Drains (suc fuel) c v h =
    let taken = take_notification-Takes c v in
    elim (Option-cases (take_notification c)) [
      | inl e ↦
          let empty : pending c ≡ [] = subst (Takes (pending c)) e taken in
          rw (e, send_notifications)
            (sym (ap (sent_to c.client_socket) empty ∙ sent_to-nil c.client_socket), v, empty)
      | inr ((msg, next), e) ↦
          let (ring, first) = subst (Takes (pending c)) e taken in
          rw (e, send_notifications)
            (Drains-step c next msg (send_notifications fuel next)
              (take_notification-client_socket c next msg e) first
              (send_notifications-Drains fuel next ring
                (omega (arith, ap (length {A = List ℕ}) first, h))))
    ]

-- The thread waits only where there is no message, and else sends all.
abbrev pub RoundDrains : Client → Round → Type 0
RoundDrains c waits = pending c ≡ []
RoundDrains c (sends r) = (pending c ≢ []) × Drains c r

not_waiting : (c : Client) → IsRing c → (c.notif_head == c.notif_tail) ≡ false → pending c ≢ []
not_waiting c v more none_left =
    let full : (c.notif_head + 1000 - c.notif_tail) % 1000 ≢ 0 = ground (arith, more) in
    full (
      sym (length-pending_from c.notifications c.notif_tail (count c))
      ∙ ap (length {A = List ℕ}) none_left)

is_waiting : (c : Client) → (c.notif_head == c.notif_tail) ≡ true → pending c ≡ []
unfolding pending_from
is_waiting c none_left =
    let at_tail = (==_iff c.notif_head c.notif_tail).0 none_left in
    let same : count c ≡ 0 = omega (arith, at_tail) in
    ap (pending_from c.notifications c.notif_tail) same

-- On a ring of 1000 places whose positions lie in it, and while no message comes in, a round of
-- notification_thread_func waits exactly where there is no message. Else it comes to the end of its
-- sending: it has sent the waiting messages, all of them and in their order, or none where the
-- client's socket is -1, and has left the ring empty and well formed.
pub notification_round-Drains : (c : Client) → IsRing c → RoundDrains c (notification_round c)
unfolding notification_round
notification_round-Drains c v = elim (Bool-cases (c.notif_head == c.notif_tail)) [
  | inl empty ↦ rw (empty, notification_round) (is_waiting c empty)
  | inr more ↦
      rw (more, notification_round)
        (
          not_waiting c v more,
          send_notifications-Drains 1000 c v
              (omega (arith, length-pending_from c.notifications c.notif_tail (count c))),
        )
]
