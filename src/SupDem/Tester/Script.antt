-- ===== src/SupDem/Tester/Script.antt =====
-- What hw1/tester.c sends for a script.
use advanced_unix_ceng.Base.{
  ℕ, zero, suc, ◌+◌, ◌<◌, ◌≡◌, refl, ap, sym, ◌∙◌, List, [], ◌∷◌, ◌++◌, some, Bool, true, false,
  if◌then◌else◌, arith, length, append_assoc, append-nil, Bool-cases, inl, inr,
}
use advanced_unix_ceng.SupDem.Session.{before_nul}
use advanced_unix_ceng.SupDem.Session.Limits.{IsUnbroken}
use advanced_unix_ceng.SupDem.Session.Lines.{NoNul-append, before_nul-NoNul}
use advanced_unix_ceng.SupDem.Session.Progress.{IsOpen}
use advanced_unix_ceng.SupDem.Tester.{
  Socket, Write, buffer_size, fgets_bytes, fgets, chomp, same_text, script_rounds,
}
use advanced_unix_ceng.SupDem.Tester.Send.{Accepts, send_line-Sends}
use advanced_unix_ceng.SupDem.Text.{codes}

-- Lines, each ended by a newline.
abbrev pub script_of : List (List ℕ) → List ℕ
script_of [] = []
script_of (line ∷ lines) = line ++ b'\n' ∷ script_of lines

-- The lines up to the first that says quit.
abbrev pub until_quit : List (List ℕ) → List (List ℕ)
until_quit [] = []
until_quit (line ∷ lines) =
    if same_text line (codes "quit") then line ∷ [] else line ∷ until_quit lines

-- Lines of at most 4094 bytes, with no newline or NUL in them.
abbrev pub FitScript : List (List ℕ) → Type 0
FitScript [] = Unit {0}
FitScript (line ∷ lines) = IsUnbroken line × (length line + 1 < buffer_size) × FitScript lines

fgets_bytes-line :
    (n : ℕ) (line s : List ℕ)
    → IsOpen line
    → length line < n
    → fgets_bytes n (line ++ b'\n' ∷ s) ≡ (line ++ b'\n' ∷ [], s)
unfolding fgets_bytes
fgets_bytes-line zero line s h lt = absurd (omega arith)
fgets_bytes-line (suc n) [] s h lt = refl
fgets_bytes-line (suc n) (c ∷ line) s h lt =
    rw (h.0) (ap (λ r. (c ∷ r.0, r.1)) (fgets_bytes-line n line s h.1 (omega arith)))

fgets-line :
    (line s : List ℕ)
    → IsOpen line
    → length line + 1 < buffer_size
    → fgets buffer_size (line ++ b'\n' ∷ s) ≡ some (line ++ b'\n' ∷ [], s)
unfolding fgets
fgets-line [] s h lt = ap some (fgets_bytes-line 4095 [] s h (omega arith))
fgets-line (c ∷ line) s h lt = ap some (fgets_bytes-line 4095 (c ∷ line) s h (omega arith))

chomp-line : (line : List ℕ) → chomp (line ++ b'\n' ∷ []) ≡ line
unfolding chomp
chomp-line [] = refl
chomp-line (c ∷ []) = refl
chomp-line (c ∷ d ∷ line) = ap (λ s. c ∷ s) (chomp-line (d ∷ line))

read_line : (line : List ℕ) → IsUnbroken line → chomp (before_nul (line ++ b'\n' ∷ [])) ≡ line
read_line line h =
    ap chomp (
      before_nul-NoNul (line ++ b'\n' ∷ [])
        (NoNul-append line (b'\n' ∷ []) h.1 (λ e. omega arith, tt)))
    ∙ chomp-line line

-- A round on a line.
module _ (running : ℕ → Bool) (write : Write) (fuel k : ℕ) (sock : Socket) (line s : List ℕ)
    (on : running k ≡ true) (w : Accepts write) (unbroken : IsUnbroken line)
    (small : length line + 1 < buffer_size) where
  abbrev after_line : Socket
  after_line = record {
    sent = sock.sent ++ (line ++ b'\n' ∷ []);
    calls = (send_line-Sends write sock line w).0;
  }

  script_rounds-line :
      script_rounds running write (suc fuel) k sock (line ++ b'\n' ∷ s)
      ≡ (elim (same_text line (codes "quit")) [
        | true ↦ some after_line
        | false ↦ script_rounds running write fuel (k + 1) after_line s
      ])
  unfolding script_rounds
  script_rounds-line =
      rw
        (
          on,
          script_rounds,
          fgets-line line s unbroken.0 small,
          read_line line unbroken,
          (send_line-Sends write sock line w).1,
          read_line line unbroken,
        )
        refl

script_rounds-end :
    (running : ℕ → Bool) (write : Write) (fuel k : ℕ) (sock : Socket)
    → running k ≡ true
    → script_rounds running write (suc fuel) k sock [] ≡ some sock
unfolding script_rounds fgets
script_rounds-end running write fuel k sock on = rw (on, script_rounds) refl

-- Of a script whose lines fit, the lines up to the first quit are sent, with their newlines.
pub script_rounds-until_quit :
    (running : ℕ → Bool) (write : Write) (fuel k : ℕ) (sock : Socket) (lines : List (List ℕ))
    → ((i : ℕ) → running i ≡ true)
    → Accepts write
    → FitScript lines
    → length lines < fuel
    → (after : Socket) × (script_rounds running write fuel k sock (script_of lines) ≡ some after)
      × (after.sent ≡ sock.sent ++ script_of (until_quit lines))
script_rounds-until_quit running write zero k sock lines on w fit lt = absurd (omega arith)
script_rounds-until_quit running write (suc fuel) k sock [] on w fit lt =
    (sock, script_rounds-end running write fuel k sock (on k), sym (append-nil sock.sent))
script_rounds-until_quit running write (suc fuel) k sock (line ∷ lines) on w fit lt =
    let round =
      script_rounds-line running write fuel k sock line (script_of lines) (on k) w fit.0 fit.1 in
    let after = after_line running write fuel k sock line (script_of lines) (on k) w fit.0 fit.1 in
    elim (Bool-cases (same_text line (codes "quit"))) [
      | inl quits ↦ (after, round ∙ rw quits refl, rw quits refl)
      | inr other ↦
          let (last, e, sent) =
            script_rounds-until_quit running write fuel (k + 1) after lines on w fit.2
              (omega (arith, lt)) in
          (
            last,
            round ∙ rw other e,
            rw other (
                sent
                ∙ append_assoc sock.sent (line ++ b'\n' ∷ []) (script_of (until_quit lines))
                ∙ ap (λ s. sock.sent ++ s)
                    (append_assoc line (b'\n' ∷ []) (script_of (until_quit lines)))),
          )
    ]
