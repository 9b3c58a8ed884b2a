-- ===== src/SupDem/Tester.antt =====
-- The client program hw1/tester.c: how it sends the commands of a script, or of its user.
pub mod Send
pub mod Script
pub mod EndToEnd
use advanced_unix_ceng.Base.{
  ℕ, zero, suc, ◌+◌, ◌-◌, List, [], ◌∷◌, ◌++◌, Option, none, some, Bool, true, false, ◌&&◌,
  if◌then◌else◌, ◌==◌, ltb, length, take, drop,
}
use advanced_unix_ceng.Base.Int.{ℤ, pos, negsuc}
use advanced_unix_ceng.SupDem.Session.{before_nul}
use advanced_unix_ceng.SupDem.Text.{codes}

-- BUFFER_SIZE
abbrev pub buffer_size : ℕ
buffer_size = 4096

-- The bytes that the socket has taken, and the number of calls of write.
pub record Socket : Type 0 where
  pub sent : List ℕ
  pub calls : ℕ

-- What call number `k` of write returns for `size` bytes.
abbrev pub Write : Type 0
Write = ℕ → ℕ → ℤ

-- The bytes that write has taken; 0 for `sent <= 0`.
abbrev pub taken : ℤ → ℕ
taken (pos n) = n
taken (negsuc n) = 0

-- The loop of send_command. `none`: out of fuel.
unfoldable pub send_from : Write → ℕ → Socket → List ℕ → ℕ → Option (Socket × ℤ)
send_from write zero sock command total_sent = none
send_from write (suc fuel) sock command total_sent = elim (ltb total_sent (length command)) [
  | false ↦ some (sock, pos total_sent)
  | true ↦
      let sent = taken (write sock.calls (length command - total_sent)) in
      elim sent [
        | zero ↦ some (record sock { calls = sock.calls + 1 }, negsuc 0)
        | suc n ↦
            send_from write fuel
              (record {
                sent = sock.sent ++ take (suc n) (drop total_sent command);
                calls = sock.calls + 1;
              })
              command (total_sent + suc n)
      ]
]

unfoldable pub send_command : Write → Socket → List ℕ → Option (Socket × ℤ)
send_command write sock command = send_from write (length command + 1) sock command 0

-- fgets with room for `n` bytes: what it stores, and what is left of the file.
unfoldable pub fgets_bytes : ℕ → List ℕ → List ℕ × List ℕ
fgets_bytes zero s = ([], s)
fgets_bytes (suc n) [] = ([], [])
fgets_bytes (suc n) (c ∷ s) =
    let rest = fgets_bytes n s in if c == b'\n' then (c ∷ [], s) else (c ∷ rest.0, rest.1)

-- `none`: NULL, at the end of the file.
unfoldable pub fgets : ℕ → List ℕ → Option (List ℕ × List ℕ)
fgets size [] = none
fgets size (c ∷ s) = some (fgets_bytes (size - 1) (c ∷ s))

-- "Remove trailing newline"
unfoldable pub chomp : List ℕ → List ℕ
chomp [] = []
chomp (c ∷ []) = if c == b'\n' then [] else c ∷ []
chomp (c ∷ d ∷ s) = c ∷ chomp (d ∷ s)

-- `strcmp(s, t) == 0`
unfoldable pub same_text : List ℕ → List ℕ → Bool
same_text [] [] = true
same_text [] (d ∷ t) = false
same_text (c ∷ s) [] = false
same_text (c ∷ s) (d ∷ t) = c == d && same_text s t

-- The reply -1 of send_command.
abbrev pub has_failed : ℤ → Bool
has_failed (pos n) = false
has_failed (negsuc n) = true

-- A command and its newline; `false` where one of them could not be sent.
unfoldable pub send_line : Write → Socket → List ℕ → Option (Socket × Bool)
send_line write sock line = elim (send_command write sock line) [
  | none ↦ none
  | some (first, reply) ↦
      if has_failed reply
      then some (first, false)
      else elim (send_command write first (b'\n' ∷ [])) [
        | none ↦ none
        | some (second, reply') ↦ some (second, if has_failed reply' then false else true)
      ]
]

-- The loop over a script. `running k` is the flag at round `k`, which the receiver's thread can
-- clear. `none`: out of fuel.
unfoldable pub script_rounds : (ℕ → Bool) → Write → ℕ → ℕ → Socket → List ℕ → Option Socket
script_rounds running write zero k sock script = none
script_rounds running write (suc fuel) k sock script = elim (running k) [
  | false ↦ some sock
  | true ↦ elim (fgets buffer_size script) [
    | none ↦ some sock
    | some (text, rest) ↦
        let line = chomp (before_nul text) in
        elim (send_line write sock line) [
          | none ↦ none
          | some (after, false) ↦ some after
          | some (after, true) ↦ elim (same_text line (codes "quit")) [
            | true ↦ some after
            | false ↦ script_rounds running write fuel (k + 1) after rest
          ]
        ]
  ]
]

-- Script mode, on a new connection; a round takes at least a byte of the script.
unfoldable pub run_script : (ℕ → Bool) → Write → List ℕ → Option Socket
run_script running write script =
    script_rounds running write (length script + 1) 0 (record { sent = []; calls = 0 }) script

-- The same rounds on what the user types; the prompt is left out.
unfoldable pub run_interactive_mode : (ℕ → Bool) → Write → List ℕ → Option Socket
run_interactive_mode running write input =
    script_rounds running write (length input + 1) 0 (record { sent = []; calls = 0 }) input
