-- ===== src/SupDem/Agent/HalfRun.antt =====
-- A command thread of hw1/supdemserv.c that is cancelled keeps the other clients as they were.
use advanced_unix_ceng.Base.{
  ℕ, ◌≡◌, refl, ◌∙◌, List, Option, none, some, true, arith, get_elem?, take, Bool-cases,
  Option-cases, inl, inr,
}
use advanced_unix_ceng.Base.Int.{ℤ, pos}
use advanced_unix_ceng.SupDem.Agent.{
  Cancelled, in_read, in_write, Ending, no_slot, exited, locked, ended, before_reply, cancel_line,
  cancel_in_write, cancel_command_thread,
}
use advanced_unix_ceng.SupDem.Agent.Identities.{
  Keeps, Keeps-trans, identities-modify_client, serve_lines-Keeps,
}
use advanced_unix_ceng.SupDem.Parse.{parse_command}
use advanced_unix_ceng.SupDem.Serve.{Served, serve_lines}
use advanced_unix_ceng.SupDem.Server.{Command, move, watch, unwatch}
use advanced_unix_ceng.SupDem.Slots.{move_client}
use advanced_unix_ceng.SupDem.Slots.Laws.{remove_watch-counts, add_new_watch-counts}
use advanced_unix_ceng.SupDem.State.{Client, SharedMem, live}

pub before_reply-Keeps :
    (shm : SharedMem) (i : ℕ) (k : Client) (cmd : Command) (other : ℤ)
    → live other ≡ true
    → Keeps i other shm (before_reply shm i k cmd)
unfolding before_reply move_client
before_reply-Keeps shm i k (move x y) other h = record {
  same_identities =
      identities-modify_client (λ c. record c { x = x; y = y }) shm.clients i (λ c. refl);
  same_watches = λ ne. refl;
}
before_reply-Keeps shm i k (watch id) other h = record {
  same_identities = refl;
  same_watches =
      λ ne. add_new_watch-counts k (pos i) id other shm.watches (ground arith) h ∙ rw ne refl;
}
before_reply-Keeps shm i k unwatch other h = record {
  same_identities = refl;
  same_watches = λ ne. remove_watch-counts (pos i) other shm.watches (ground arith) h ∙ rw ne refl;
}
before_reply-Keeps shm i k cmd other h = record {
  same_identities = refl;
  same_watches = λ ne. refl;
}

-- A cancelled thread's client has neither left nor found all slots taken, and what it leaves keeps
-- the others.
abbrev pub KeepsOthers : ℕ → ℤ → SharedMem → Ending → Type 0
KeepsOthers i other shm no_slot = ⊥
KeepsOthers i other shm (exited j shm') = (j ≡ i) × Keeps i other shm shm'
KeepsOthers i other shm (locked j shm') = (j ≡ i) × Keeps i other shm shm'
KeepsOthers i other shm (ended j shm') = ⊥

cancel_line-KeepsOthers :
    (start shm : SharedMem) (i : ℕ) (cmd : Command) (other : ℤ)
    → live other ≡ true
    → Keeps i other start shm
    → KeepsOthers i other start (cancel_line shm i cmd)
unfolding cancel_line
cancel_line-KeepsOthers start shm i cmd other h before =
    elim (Option-cases (get_elem? shm.clients i)) [
      | inl out ↦ rw (out, cancel_line) (refl, before)
      | inr (k, here) ↦
          rw (here, cancel_line)
            (refl, Keeps-trans i other start shm _ before (before_reply-Keeps shm i k cmd other h))
    ]

cancel_in_write-KeepsOthers :
    (convert : ℤ → ℤ) (start : SharedMem) (i : ℕ) (served : Served) (line : Option (List ℕ))
    (other : ℤ)
    → live other ≡ true
    → Keeps i other start served.shm
    → KeepsOthers i other start (cancel_in_write convert i served line)
unfolding cancel_in_write
cancel_in_write-KeepsOthers convert start i served none other h before = (refl, before)
cancel_in_write-KeepsOthers convert start i served (some line) other h before =
    elim (Bool-cases served.running) [
      | inl on ↦
          rw on
            (cancel_line-KeepsOthers start served.shm i (parse_command convert line) other h before)
      | inr off ↦ rw off (refl, before)
    ]

pub cancel_command_thread-KeepsOthers :
    (convert : ℤ → ℤ) (shm : SharedMem) (i : ℕ) (lines : List (List ℕ)) (cancelled : Cancelled)
    (other : ℤ)
    → live other ≡ true
    → KeepsOthers i other shm (cancel_command_thread convert shm i lines cancelled)
unfolding cancel_command_thread
cancel_command_thread-KeepsOthers convert shm i lines in_read other h =
    (refl, serve_lines-Keeps convert shm i lines other h)
cancel_command_thread-KeepsOthers convert shm i lines (in_write n) other h =
    cancel_in_write-KeepsOthers convert shm i (serve_lines convert shm i (take n lines))
      (get_elem? lines n) other h (serve_lines-Keeps convert shm i (take n lines) other h)
