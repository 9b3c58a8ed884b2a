-- ===== src/SupDem/Tester/EndToEnd.antt =====
-- From a script of hw1/tester.c to the shared memory of hw1/supdemserv.c.
use advanced_unix_ceng.Base.{
  ℕ, ◌+◌, ◌≤◌, ◌≡◌, refl, ap, sym, ◌∙◌, List, [], ◌∷◌, ◌++◌, map, Option, none, some, Bool, true,
  false, not, if◌then◌else◌, arith, length, length-append, Bool-cases, Option-cases, inl, inr,
  get_elem?,
}
use advanced_unix_ceng.Base.Int.{ℤ}
use advanced_unix_ceng.SupDem.Parse.RoundTrip.{KeepsInts, print_command}
use advanced_unix_ceng.SupDem.Serve.{goes_on, serve_command, serve_lines}
use advanced_unix_ceng.SupDem.Serve.Bytes.{print_command-IsUnbroken, length-print_command}
use advanced_unix_ceng.SupDem.Serve.EndToEnd.{
  text_of, AllHaveInts, serve_commands, serve_lines-run_session,
}
use advanced_unix_ceng.SupDem.Server.{
  Command, move, demand, supply, watch, unwatch, listsupplies, listdemands, mysupplies, mydemands,
  quit, invalid,
}
use advanced_unix_ceng.SupDem.Session.{run_session}
use advanced_unix_ceng.SupDem.Session.Progress.{AllPositive}
use advanced_unix_ceng.SupDem.State.{SharedMem}
use advanced_unix_ceng.SupDem.Tester.{
  Socket, Write, same_text, script_rounds, run_script, run_interactive_mode,
}
use advanced_unix_ceng.SupDem.Tester.Send.{Accepts}
use advanced_unix_ceng.SupDem.Tester.Script.{
  script_of, until_quit, FitScript, script_rounds-until_quit,
}
use advanced_unix_ceng.SupDem.Text.{codes}

-- The commands up to the first `quit`.
abbrev commands_until_quit : List Command → List Command
commands_until_quit [] = []
commands_until_quit (cmd ∷ cmds) = if goes_on cmd then cmd ∷ commands_until_quit cmds else cmd ∷ []

-- Only `quit` has the text that ends a script.
same_text-print_command :
    (cmd : Command) → same_text (print_command cmd) (codes "quit") ≡ not (goes_on cmd)
unfolding same_text print_command
same_text-print_command (move x y) = refl
same_text-print_command (demand a b c) = refl
same_text-print_command (supply distance a b c) = refl
same_text-print_command (watch id) = refl
same_text-print_command unwatch = refl
same_text-print_command listsupplies = refl
same_text-print_command listdemands = refl
same_text-print_command mysupplies = refl
same_text-print_command mydemands = refl
same_text-print_command quit = refl
same_text-print_command invalid = refl

script_of-print_command : (cmds : List Command) → script_of (map print_command cmds) ≡ text_of cmds
script_of-print_command [] = refl
script_of-print_command (cmd ∷ cmds) =
    ap (λ s. print_command cmd ++ b'\n' ∷ s) (script_of-print_command cmds)

until_quit-print_command :
    (cmds : List Command)
    → until_quit (map print_command cmds) ≡ map print_command (commands_until_quit cmds)
until_quit-print_command [] = refl
until_quit-print_command (cmd ∷ cmds) = elim (Bool-cases (goes_on cmd)) [
  | inl on ↦
      rw (same_text-print_command cmd, on)
        (ap (λ ls. print_command cmd ∷ ls) (until_quit-print_command cmds))
  | inr off ↦ rw (same_text-print_command cmd, off) refl
]

FitScript-print_command : (cmds : List Command) → FitScript (map print_command cmds)
FitScript-print_command [] = tt
FitScript-print_command (cmd ∷ cmds) = (
  print_command-IsUnbroken cmd,
  omega (arith, length-print_command cmd),
  FitScript-print_command cmds,
)

AllHaveInts-commands_until_quit :
    (cmds : List Command) → AllHaveInts cmds → AllHaveInts (commands_until_quit cmds)
AllHaveInts-commands_until_quit [] h = tt
AllHaveInts-commands_until_quit (cmd ∷ cmds) h = elim (Bool-cases (goes_on cmd)) [
  | inl on ↦ rw on (h.0, AllHaveInts-commands_until_quit cmds h.1)
  | inr off ↦ rw off (h.0, tt)
]

length-text_of_until_quit :
    (cmds : List Command) → length (text_of (commands_until_quit cmds)) ≤ length (text_of cmds)
length-text_of_until_quit [] = omega arith
length-text_of_until_quit (cmd ∷ cmds) =
    let here = length-append (print_command cmd) (b'\n' ∷ text_of cmds) in
    let cut = length-append (print_command cmd) (b'\n' ∷ text_of (commands_until_quit cmds)) in
    let one = length-append (print_command cmd) (b'\n' ∷ []) in
    elim (Bool-cases (goes_on cmd)) [
      | inl on ↦ rw on (omega (arith, here, cut, length-text_of_until_quit cmds))
      | inr off ↦ rw off (omega (arith, here, one))
    ]

length-script_of : (lines : List (List ℕ)) → length lines ≤ length (script_of lines)
length-script_of [] = omega arith
length-script_of (line ∷ lines) =
    omega (arith, length-append line (b'\n' ∷ script_of lines), length-script_of lines)

-- A server that stops at `quit` does not see the commands behind it.
serve_command-stops :
    (shm : SharedMem) (i : ℕ) (cmd : Command)
    → goes_on cmd ≡ false
    → (serve_command shm i cmd).running ≡ false
unfolding serve_command
serve_command-stops shm i cmd off = elim (Option-cases (get_elem? shm.clients i)) [
  | inl none_there ↦ rw (none_there, serve_command) refl
  | inr (k, there) ↦ rw (there, serve_command) off
]

serve_commands-until_quit :
    (shm : SharedMem) (i : ℕ) (cmds : List Command)
    → serve_commands shm i (commands_until_quit cmds) ≡ serve_commands shm i cmds
unfolding serve_commands
serve_commands-until_quit shm i [] = refl
serve_commands-until_quit shm i (cmd ∷ cmds) =
    let first = serve_command shm i cmd in
    elim (Bool-cases (goes_on cmd)) [
      | inl on ↦ rw on (
          ap
            (λ rest.
              if first.running
              then record rest { written = first.written ++ rest.written }
              else first)
            (serve_commands-until_quit first.shm i cmds))
      | inr off ↦ rw (off, serve_commands, serve_command-stops shm i cmd off) refl
    ]

-- What a script of commands has on the socket.
run_script-sent :
    (running : ℕ → Bool) (write : Write) (cmds : List Command)
    → ((k : ℕ) → running k ≡ true)
    → Accepts write
    → (after : Socket) × (run_script running write (text_of cmds) ≡ some after)
      × (run_interactive_mode running write (text_of cmds) ≡ some after)
      × (after.sent ≡ text_of (commands_until_quit cmds))
unfolding run_script run_interactive_mode
run_script-sent running write cmds on w =
    let lines = map print_command cmds in
    let (after, e, sent) =
      script_rounds-until_quit running write (length (script_of lines) + 1) 0
        (record { sent = []; calls = 0 }) lines on w (FitScript-print_command cmds)
        (omega (arith, length-script_of lines)) in
    let rounds =
      ap (λ s. script_rounds running write (length s + 1) 0 (record { sent = []; calls = 0 }) s)
        (sym (script_of-print_command cmds))
      ∙ e in
    (
      after,
      rounds,
      rounds,
      sent
          ∙ ap script_of (until_quit-print_command cmds)
          ∙ script_of-print_command (commands_until_quit cmds),
    )

-- What the client and the server have done when a script is through.
abbrev pub ServedByScript : (ℤ → ℤ) → SharedMem → ℕ → List Command → List ℕ → Option Socket → Type 0
ServedByScript convert shm i cmds ns none = ⊥
ServedByScript convert shm i cmds ns (some after) =
    serve_lines convert shm i (run_session ns [] after.sent).lines ≡ serve_commands shm i cmds

-- Let the client program run a script that holds the texts of commands, each ended by a newline,
-- or let its user type them, while its flag stays set, and let each of its writes take from one byte up to all that it is
-- given. Let `%d` store a number that fits an `int` as it is, the numbers of the commands fit one,
-- and each read of the server give at least a byte, with as many reads as there are bytes.
-- The client comes to its end, and, while no other client acts, the server has then run the
-- commands in their order up to the first `quit`, and answered each of them.
pub run_script-serve_commands :
    (convert : ℤ → ℤ) (running : ℕ → Bool) (write : Write) (shm : SharedMem) (i : ℕ)
    (cmds : List Command) (ns : List ℕ)
    → KeepsInts convert
    → ((k : ℕ) → running k ≡ true)
    → Accepts write
    → AllHaveInts cmds
    → AllPositive ns
    → length (text_of cmds) ≤ length ns
    → ServedByScript convert shm i cmds ns (run_script running write (text_of cmds))
      × ServedByScript convert shm i cmds ns (run_interactive_mode running write (text_of cmds))
run_script-serve_commands convert running write shm i cmds ns keep on w ints pos enough =
    let (after, e, e', sent) = run_script-sent running write cmds on w in
    let served : ServedByScript convert shm i cmds ns (some after) =
      ap (λ s. serve_lines convert shm i (run_session ns [] s).lines) sent
      ∙ serve_lines-run_session convert shm i (commands_until_quit cmds) ns keep
          (AllHaveInts-commands_until_quit cmds ints) pos
          (omega (arith, length-text_of_until_quit cmds, enough))
      ∙ serve_commands-until_quit shm i cmds in
    (rw e served, rw e' served)
