-- ===== src/SupDem/Session.antt =====
-- The input of command_thread_func of hw1/supdemserv.c: the buffer of 1024 bytes, and its cutting
-- into lines.
pub mod Lines
pub mod Progress
pub mod Limits
use advanced_unix_ceng.Base.{
  ℕ, ◌+◌, ◌-◌, min, List, [], ◌∷◌, ◌++◌, Option, none, some, Bool, if◌then◌else◌, ◌==◌, length,
  take, drop,
}

-- `sizeof(buffer) - 1`: the last byte is for the NUL.
abbrev pub buffer_room : ℕ
buffer_room = 1023

-- What strchr and strlen see of the buffer: the bytes before its first NUL.
unfoldable pub before_nul : List ℕ → List ℕ
before_nul [] = []
before_nul (c ∷ s) = let rest = before_nul s in if c == 0 then [] else c ∷ rest

-- A byte in front of the first line, or of what follows the last newline.
abbrev pub prepend : ℕ → List (List ℕ) × List ℕ → List (List ℕ) × List ℕ
prepend c ([], rest) = ([], c ∷ rest)
prepend c (line ∷ lines, rest) = ((c ∷ line) ∷ lines, rest)

-- The loop over `strchr(line_start, '\n')`: the lines, and what is moved to the buffer's start.
unfoldable pub split_lines : List ℕ → List (List ℕ) × List ℕ
split_lines [] = ([], [])
split_lines (c ∷ s) =
    let after = split_lines s in if c == b'\n' then ([] ∷ after.0, after.1) else prepend c after

-- What is known after a read: the lines to run, the buffer, and the input that is left.
pub record Turn : Type 0 where
  pub lines : List (List ℕ)
  pub buffer : List ℕ
  pub input : List ℕ

unfoldable pub received : List ℕ → List ℕ → List ℕ → Turn
received buffer got input =
    let (lines, rest) = split_lines (before_nul (buffer ++ got)) in
    record { lines = lines; buffer = rest; input = input }

-- One round of `while(1)`. The socket has the bytes `input` and gives at most `n` of them; read is
-- asked for what the buffer has room for. `none`: read returns 0, and the session ends.
unfoldable pub session_turn : List ℕ → List ℕ → ℕ → Option Turn
session_turn buffer input n =
    let size = min n (buffer_room - length buffer) in
    elim (take size input) [
      | [] ↦ none
      | c ∷ got ↦ some (received buffer (c ∷ got) (drop size input))
    ]

-- Rounds with given sizes, with all lines that they run.
unfoldable pub run_session : List ℕ → List ℕ → List ℕ → Turn
run_session [] buffer input = record { lines = []; buffer = buffer; input = input }
run_session (n ∷ ns) buffer input = elim (session_turn buffer input n) [
  | none ↦ record { lines = []; buffer = buffer; input = input }
  | some t ↦
      let later = run_session ns t.buffer t.input in record later { lines = t.lines ++ later.lines }
]
