-- ===== src/SupDem/InputTests.antt =====
-- Sessions, commands and lists of hw1/supdemserv.c on small inputs, and the theorems at such
-- inputs.
use advanced_unix_ceng.Base.{
  ℕ, zero, suc, ◌≤◌, ◌≡◌, refl, List, [], ◌∷◌, ◌++◌, arith, length, replicate, get_elem?,
  length-replicate,
}
use advanced_unix_ceng.Base.Int.{pos, negsuc}
use advanced_unix_ceng.SupDem.Match.{Note}
use advanced_unix_ceng.SupDem.Parse.{parse_command}
use advanced_unix_ceng.SupDem.Parse.RoundTrip.{
  KeepsInts, print_command, parse_command-print_command,
}
use advanced_unix_ceng.SupDem.Queue.Refine.{IsRing, pending}
use advanced_unix_ceng.SupDem.Scan.{
  sscanf, skip_space, scan_int, scan_signed, scan_unsigned, scan_digits,
}
use advanced_unix_ceng.SupDem.Serve.{serve_lines}
use advanced_unix_ceng.SupDem.Serve.EndToEnd.{text_of, serve_commands, serve_lines-run_session}
use advanced_unix_ceng.SupDem.Server.{Command, move, demand, unwatch, quit, deliver}
use advanced_unix_ceng.SupDem.Server.Delivery.{Holds, push_all, messages_for, deliver-push_all}
use advanced_unix_ceng.SupDem.Session.{run_session, split_lines, buffer_room}
use advanced_unix_ceng.SupDem.Session.Limits.{IsUnbroken, run_session-buffer_room, long_line_ends}
use advanced_unix_ceng.SupDem.Session.Lines.{NoNul, Continues, run_session-Continues}
use advanced_unix_ceng.SupDem.Session.Progress.{run_session-all_lines}
use advanced_unix_ceng.SupDem.State.{Supply, Client, SharedMem}
use advanced_unix_ceng.SupDem.Text.{codes, decimal, digits}
use advanced_unix_ceng.SupDem.Word.{wrap32}

abbrev pub offered : Supply
offered = record {
  x = pos 10;
  y = negsuc 4;
  a_amount = pos 5;
  b_amount = pos 3;
  c_amount = pos 0;
  distance = pos 100;
  client_id = pos 1;
}

abbrev pub quiet : Client
quiet = record {
  client_id = pos 0;
  x = pos 0;
  y = pos 0;
  client_socket = pos 4;
  notifications = replicate 1000 [];
  notif_head = 999;
  notif_tail = 999;
}

pub quiet-IsRing : IsRing quiet
quiet-IsRing = record { head_in = omega arith; tail_in = omega arith; size = refl }

abbrev three_notes : List Note
three_notes = (pos 1, codes "Hi") ∷ (pos 0, codes "you") ∷ (pos 1, codes "!") ∷ []

deliver-push_all_example :
    Holds
      (push_all (messages_for 1 three_notes) (pending quiet))
      (get_elem? (deliver (quiet ∷ quiet ∷ []) three_notes) 1)
deliver-push_all_example =
    deliver-push_all (quiet ∷ quiet ∷ []) three_notes 1 quiet refl quiet-IsRing

-- A C library that keeps the low 32 bits.
pub wrap32-KeepsInts : KeepsInts wrap32
unfolding wrap32
wrap32-KeepsInts (pos n) h = ground (arith, h)
wrap32-KeepsInts (negsuc n) h = ground (arith, h)

loose_line : parse_command wrap32 (codes "move7   -8 and more") ≡ move (pos 7) (negsuc 7)
unfolding parse_command sscanf skip_space scan_int scan_signed scan_unsigned scan_digits wrap32
loose_line = refl

parse_command-print_command_example :
    parse_command wrap32 (print_command (move (pos 7) (negsuc 19))) ≡ move (pos 7) (negsuc 19)
parse_command-print_command_example =
    parse_command-print_command wrap32 (move (pos 7) (negsuc 19)) wrap32-KeepsInts (omega arith)

abbrev two_lines : List ℕ
two_lines = codes "unwatch\nquit\nmo"

two_lines-NoNul : NoNul two_lines
two_lines-NoNul = ground arith

run_session-Continues_example : Continues two_lines (run_session (3 ∷ 9 ∷ []) [] two_lines)
run_session-Continues_example = run_session-Continues (3 ∷ 9 ∷ []) [] two_lines two_lines-NoNul

run_session-all_lines_example :
    ((run_session (replicate 15 4) [] two_lines).lines ≡ (split_lines two_lines).0)
    × ((run_session (replicate 15 4) [] two_lines).buffer ≡ (split_lines two_lines).1)
run_session-all_lines_example =
    run_session-all_lines (replicate 15 4) two_lines two_lines-NoNul (omega arith) (omega arith)
      (omega arith)

run_session-buffer_room_example :
    length (run_session (2000 ∷ []) [] (replicate 1500 b'a')).buffer ≤ buffer_room
run_session-buffer_room_example =
    run_session-buffer_room (2000 ∷ []) [] (replicate 1500 b'a') (omega arith)

replicate-IsUnbroken : (n : ℕ) → IsUnbroken (replicate n b'a')
replicate-IsUnbroken zero = (tt, tt)
replicate-IsUnbroken (suc n) =
    let rest = replicate-IsUnbroken n in ((refl, rest.0), (λ e. omega arith, rest.1))

long_line_ends_example :
    (run_session (600 ∷ 600 ∷ 600 ∷ []) [] (replicate 1023 b'a' ++ codes "\nquit\n")).lines ≡ []
long_line_ends_example =
    long_line_ends (replicate 1023 b'a') (codes "\nquit\n") (600 ∷ 600 ∷ 600 ∷ [])
      (length-replicate {A = ℕ} 1023 b'a') (replicate-IsUnbroken 1023)

abbrev pub small_memory : SharedMem
small_memory = record {
  supplies = offered ∷ [];
  demands = [];
  watches = [];
  clients = quiet ∷ quiet ∷ [];
}

abbrev pub wishes : List Command
wishes = demand (pos 1) (pos 1) (pos 0) ∷ unwatch ∷ quit ∷ []

pub wishes-length : length (text_of wishes) ≤ 30
unfolding print_command decimal digits
wishes-length = omega arith

serve_lines-run_session_example :
    serve_lines wrap32 small_memory 0 (run_session (replicate 30 7) [] (text_of wishes)).lines
    ≡ serve_commands small_memory 0 wishes
serve_lines-run_session_example =
    serve_lines-run_session wrap32 small_memory 0 wishes (replicate 30 7) wrap32-KeepsInts
      (omega arith) (omega arith) (wishes-length)
