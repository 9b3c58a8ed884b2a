-- ===== src/SupDem/Tester/Send.antt =====
-- send_command of hw1/tester.c sends the whole command.
use advanced_unix_ceng.Base.{
  ℕ, zero, suc, ◌+◌, ◌-◌, ◌≤◌, ◌<◌, ◌≡◌, refl, ap, sym, ◌∙◌, List, [], ◌∷◌, ◌++◌, Option, some,
  true, ltb, arith, length, take, drop, take-append-drop, append-nil, append_assoc, Bool-cases, inl,
  inr, drop_all, drop-add,
}
use advanced_unix_ceng.Base.Int.{ℤ, pos}
use advanced_unix_ceng.SupDem.Tester.{Socket, Write, taken, send_from, send_command, send_line}

-- The documented behaviour of write on a connection that stands: it takes some of the bytes.
pub record Accepts (write : Write) : Type 0 where
  pub some_bytes : (k size : ℕ) → 0 < size → 0 < taken (write k size)
  pub no_more : (k size : ℕ) → taken (write k size) ≤ size

-- What a call has sent: all of `bytes`.
abbrev pub Sends : Socket → List ℕ → ℤ → Option (Socket × ℤ) → Type 0
Sends sock bytes reply o =
    (calls : ℕ) × (o ≡ some (record { sent = sock.sent ++ bytes; calls = calls }, reply))

-- Two sends, one after the other.
Sends-after :
    (sock : Socket) (xs ys zs : List ℕ) (calls : ℕ) (reply : ℤ) (o : Option (Socket × ℤ))
    → xs ++ ys ≡ zs
    → Sends (record { sent = sock.sent ++ xs; calls = calls }) ys reply o
    → Sends sock zs reply o
Sends-after sock xs ys zs calls reply o e (calls', e') = (
  calls',
  e'
      ∙ ap (λ bs. some (record { sent = bs; calls = calls' }, reply))
          (append_assoc sock.sent xs ys ∙ ap (λ bs. sock.sent ++ bs) e),
)

positive-cases : (n : ℕ) → 0 < n → (m : ℕ) × (n ≡ suc m)
positive-cases zero h = absurd (omega arith)
positive-cases (suc n) h = (n, refl)

send_from-Sends :
    (write : Write) (fuel : ℕ) (sock : Socket) (command : List ℕ) (total : ℕ)
    → Accepts write
    → total ≤ length command
    → length command < total + fuel
    → Sends sock
        (drop total command)
        (pos (length command))
        (send_from write fuel sock command total)
unfolding send_from
send_from-Sends write zero sock command total w le lt = absurd (omega arith)
send_from-Sends write (suc fuel) sock command total w le lt =
    elim (Bool-cases (ltb total (length command))) [
      | inr finished ↦
          let at_end : total ≡ length command = ground (arith, finished, le) in
          rw (finished, send_from, drop_all total command (omega (arith, at_end)), at_end)
            (
              sock.calls,
              ap (λ bs. some (record { sent = bs; calls = sock.calls }, pos (length command)))
                  (sym (append-nil sock.sent)),
            )
      | inl more ↦
          let below : total < length command = ground (arith, more) in
          let size = length command - total in
          let n = taken (write sock.calls size) in
          let (m, e) = positive-cases n (w.some_bytes sock.calls size (omega (arith, below))) in
          let bound = w.no_more sock.calls size in
          rw (more, send_from, e)
            (Sends-after sock (take (suc m) (drop total command)) (drop (total + suc m) command)
              (drop total command) (sock.calls + 1) _ _
              (ap (λ bs. take (suc m) (drop total command) ++ bs) (drop-add total (suc m) command)
                ∙ take-append-drop (suc m) (drop total command))
              (send_from-Sends write fuel _ command (total + suc m) w
                (omega (arith, bound, e, below)) (omega arith)))
    ]

send_command-Sends :
    (write : Write) (sock : Socket) (command : List ℕ)
    → Accepts write
    → Sends sock command (pos (length command)) (send_command write sock command)
unfolding send_command
send_command-Sends write sock command w =
    send_from-Sends write (length command + 1) sock command 0 w (omega arith) (omega arith)

-- A line that is sent with its newline.
pub send_line-Sends :
    (write : Write) (sock : Socket) (line : List ℕ)
    → Accepts write
    → (calls : ℕ) × (send_line write sock line
        ≡ some (record { sent = sock.sent ++ (line ++ b'\n' ∷ []); calls = calls }, true))
unfolding send_line
send_line-Sends write sock line w =
    let (calls, e) = send_command-Sends write sock line w in
    let first : Socket = record { sent = sock.sent ++ line; calls = calls } in
    let (calls', e') = send_command-Sends write first (b'\n' ∷ []) w in
    (calls', rw (e, send_line, e', append_assoc sock.sent line (b'\n' ∷ [])) refl)
