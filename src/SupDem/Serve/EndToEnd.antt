-- ===== src/SupDem/Serve/EndToEnd.antt =====
-- From the bytes on a client's socket to the shared memory of hw1/supdemserv.c.
use advanced_unix_ceng.Base.{
  ℕ, ◌≤◌, ◌≡◌, refl, ap, ◌∙◌, List, [], ◌∷◌, ◌++◌, map, true, if◌then◌else◌, arith, length,
}
use advanced_unix_ceng.Base.Int.{ℤ}
use advanced_unix_ceng.SupDem.Parse.RoundTrip.{
  KeepsInts, HasInts, print_command, parse_command-print_command,
}
use advanced_unix_ceng.SupDem.Serve.{Served, serve_command, serve_line, serve_lines}
use advanced_unix_ceng.SupDem.Serve.Bytes.{
  print_command-IsUnbroken, length-print_command, split_lines-line, LinesFit-line,
}
use advanced_unix_ceng.SupDem.Server.{Command}
use advanced_unix_ceng.SupDem.Session.{split_lines, run_session}
use advanced_unix_ceng.SupDem.Session.Lines.{NoNul, NoNul-append}
use advanced_unix_ceng.SupDem.Session.Progress.{LinesFit, AllPositive, run_session-all_lines}
use advanced_unix_ceng.SupDem.State.{SharedMem}

-- The specification: commands run one after another, up to a `quit`.
unfoldable pub serve_commands : SharedMem → ℕ → List Command → Served
serve_commands shm i [] = record { shm = shm; written = []; running = true }
serve_commands shm i (cmd ∷ cmds) =
    let first = serve_command shm i cmd in
    let rest = serve_commands first.shm i cmds in
    if first.running then record rest { written = first.written ++ rest.written } else first

-- The bytes of commands, each ended by a newline.
abbrev pub text_of : List Command → List ℕ
text_of [] = []
text_of (cmd ∷ cmds) = print_command cmd ++ b'\n' ∷ text_of cmds

abbrev pub AllHaveInts : List Command → Type 0
AllHaveInts [] = Unit {0}
AllHaveInts (cmd ∷ cmds) = HasInts cmd × AllHaveInts cmds

split_lines-text_of :
    (cmds : List Command) → split_lines (text_of cmds) ≡ (map print_command cmds, [])
split_lines-text_of [] = unfold split_lines in refl
split_lines-text_of (cmd ∷ cmds) =
    split_lines-line (print_command cmd) (text_of cmds) (print_command-IsUnbroken cmd).0
    ∙ ap (λ p. (print_command cmd ∷ p.0, p.1)) (split_lines-text_of cmds)

text_of-NoNul : (cmds : List Command) → NoNul (text_of cmds)
text_of-NoNul [] = tt
text_of-NoNul (cmd ∷ cmds) =
    NoNul-append (print_command cmd) (b'\n' ∷ text_of cmds) (print_command-IsUnbroken cmd).1
      (λ e. omega arith, text_of-NoNul cmds)

text_of-LinesFit : (cmds : List Command) → LinesFit 0 (text_of cmds)
text_of-LinesFit [] = tt
text_of-LinesFit (cmd ∷ cmds) =
    LinesFit-line 0 (print_command cmd) (text_of cmds) (print_command-IsUnbroken cmd).0
      (omega (arith, length-print_command cmd)) (text_of-LinesFit cmds)

serve_lines-print_command :
    (convert : ℤ → ℤ) (shm : SharedMem) (i : ℕ) (cmds : List Command)
    → KeepsInts convert
    → AllHaveInts cmds
    → serve_lines convert shm i (map print_command cmds) ≡ serve_commands shm i cmds
unfolding serve_lines serve_commands serve_line
serve_lines-print_command convert shm i [] keep h = refl
serve_lines-print_command convert shm i (cmd ∷ cmds) keep h =
    let first = serve_command shm i cmd in
    rw (parse_command-print_command convert cmd keep h.0) (
      ap
        (λ rest.
          if first.running then record rest { written = first.written ++ rest.written } else first)
        (serve_lines-print_command convert first.shm i cmds keep h.1))

-- Let `%d` store a number that fits an `int` as it is, and let a client send the texts of commands
-- whose numbers fit an `int`, each ended by a newline. If each read gives at least a byte and there
-- are as many reads as bytes, then however the bytes are cut, and while no other client acts, the
-- server has run these commands in their order up to the first `quit`, and answered each of them.
pub serve_lines-run_session :
    (convert : ℤ → ℤ) (shm : SharedMem) (i : ℕ) (cmds : List Command) (ns : List ℕ)
    → KeepsInts convert
    → AllHaveInts cmds
    → AllPositive ns
    → length (text_of cmds) ≤ length ns
    → serve_lines convert shm i (run_session ns [] (text_of cmds)).lines ≡ serve_commands shm i cmds
serve_lines-run_session convert shm i cmds ns keep h pos enough =
    let all =
      run_session-all_lines ns (text_of cmds) (text_of-NoNul cmds) (text_of-LinesFit cmds) pos
        enough in
    ap (serve_lines convert shm i) (all.0 ∙ ap (λ p. p.0) (split_lines-text_of cmds))
    ∙ serve_lines-print_command convert shm i cmds keep h
