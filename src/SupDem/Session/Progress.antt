-- ===== src/SupDem/Session/Progress.antt =====
-- How far a session of hw1/supdemserv.c gets: short lines are all run, a long line ends it.
use mathlib.Core.Path.{subst}
use advanced_unix_ceng.Base.{
  ℕ, ◌+◌, ◌-◌, ◌≤◌, ◌<◌, ◌≡◌, refl, ap, sym, ◌∙◌, min, List, [], ◌∷◌, ◌++◌, false, if◌then◌else◌,
  ◌==◌, arith, length, take, drop, take-append-drop, append-nil, Bool-cases, inl, inr, length-take,
  length-drop,
}
use advanced_unix_ceng.SupDem.Session.{
  before_nul, prepend, split_lines, received, run_session, buffer_room,
}
use advanced_unix_ceng.SupDem.Session.Lines.{
  run_session-Continues, NoNul, before_nul-NoNul, NoNul-left, NoNul-right, NoNul-append,
  split_lines-NoNul, List-cases, session_turn-ends, session_turn-reads, run_session-ends,
  run_session-reads,
}

-- The length of an unfinished line of `k` bytes after a byte, and after some bytes.
abbrev pub next_length : ℕ → ℕ → ℕ
next_length k c = if c == b'\n' then 0 else k + 1

abbrev pub line_length : ℕ → List ℕ → ℕ
line_length k [] = k
line_length k (c ∷ s) = line_length (next_length k c) s

-- No line of a text, begun with `k` bytes, fills the buffer before its newline.
abbrev pub LinesFit : ℕ → List ℕ → Type 0
LinesFit k [] = Unit {0}
LinesFit k (c ∷ s) = (k < buffer_room) × LinesFit (next_length k c) s

LinesFit-right : (k : ℕ) (xs ys : List ℕ) → LinesFit k (xs ++ ys) → LinesFit (line_length k xs) ys
LinesFit-right k [] ys h = h
LinesFit-right k (c ∷ xs) ys h = LinesFit-right (next_length k c) xs ys h.1

line_length-append :
    (k : ℕ) (xs ys : List ℕ) → line_length k (xs ++ ys) ≡ line_length (line_length k xs) ys
line_length-append k [] ys = refl
line_length-append k (c ∷ xs) ys = line_length-append (next_length k c) xs ys

-- The unfinished line in what split_lines leaves.
abbrev unfinished : ℕ → List (List ℕ) × List ℕ → ℕ
unfinished k ([], rest) = k + length rest
unfinished k (line ∷ lines, rest) = length rest

unfinished-zero : (p : List (List ℕ) × List ℕ) → unfinished 0 p ≡ length p.1
unfinished-zero ([], rest) = omega arith
unfinished-zero (line ∷ lines, rest) = refl

unfinished-prepend :
    (k c : ℕ) (p : List (List ℕ) × List ℕ) → unfinished k (prepend c p) ≡ unfinished (k + 1) p
unfinished-prepend k c ([], rest) = omega arith
unfinished-prepend k c (line ∷ lines, rest) = refl

line_length-eq-unfinished : (k : ℕ) (s : List ℕ) → line_length k s ≡ unfinished k (split_lines s)
unfolding split_lines
line_length-eq-unfinished k [] = omega arith
line_length-eq-unfinished k (c ∷ s) = elim (Bool-cases (c == b'\n')) [
  | inl newline ↦ rw newline (line_length-eq-unfinished 0 s ∙ unfinished-zero (split_lines s))
  | inr other ↦
      rw other (line_length-eq-unfinished (k + 1) s ∙ sym (unfinished-prepend k c (split_lines s)))
]

-- A text with no newline is one unfinished line.
abbrev pub IsOpen : List ℕ → Type 0
IsOpen [] = Unit {0}
IsOpen (c ∷ s) = ((c == b'\n') ≡ false) × IsOpen s

line_length-IsOpen : (k : ℕ) (s : List ℕ) → IsOpen s → line_length k s ≡ k + length s
line_length-IsOpen k [] h = omega arith
line_length-IsOpen k (c ∷ s) h = rw h.0 (omega (arith, line_length-IsOpen (k + 1) s h.1))

prepend-IsOpen :
    (c : ℕ) (p : List (List ℕ) × List ℕ)
    → (c == b'\n') ≡ false
    → IsOpen p.1
    → IsOpen (prepend c p).1
prepend-IsOpen c ([], rest) e h = (e, h)
prepend-IsOpen c (line ∷ lines, rest) e h = h

split_lines-IsOpen : (s : List ℕ) → IsOpen (split_lines s).1
unfolding split_lines
split_lines-IsOpen [] = tt
split_lines-IsOpen (c ∷ s) = elim (Bool-cases (c == b'\n')) [
  | inl newline ↦ rw newline (split_lines-IsOpen s)
  | inr other ↦ rw other (prepend-IsOpen c (split_lines s) other (split_lines-IsOpen s))
]

-- What holds between the rounds of a session.
pub record IsWaiting (buffer input : List ℕ) : Type 0 where
  pub open_line : IsOpen buffer
  pub clean : NoNul buffer
  pub clean_input : NoNul input
  pub fitting : LinesFit (length buffer) input

received-IsWaiting :
    (buffer got input : List ℕ)
    → IsWaiting buffer (got ++ input)
    → IsWaiting (received buffer got input).buffer (received buffer got input).input
unfolding received
received-IsWaiting buffer got input w =
    let now = NoNul-append buffer got w.clean (NoNul-left got input w.clean_input) in
    let whole = buffer ++ got in
    let e : length (split_lines whole).1 ≡ line_length (length buffer) got =
      sym (unfinished-zero (split_lines whole))
      ∙ sym (line_length-eq-unfinished 0 whole)
      ∙ line_length-append 0 buffer got
      ∙ ap (λ k. line_length k got) (line_length-IsOpen 0 buffer w.open_line ∙ omega arith) in
    rw (before_nul-NoNul whole now) (record {
      open_line = split_lines-IsOpen whole;
      clean = split_lines-NoNul whole now;
      clean_input = NoNul-right got input w.clean_input;
      fitting =
          subst (λ k. LinesFit k input) (sym e)
            (LinesFit-right (length buffer) got input w.fitting);
    })

-- Every round asks for at least a byte.
abbrev pub AllPositive : List ℕ → Type 0
AllPositive [] = Unit {0}
AllPositive (n ∷ ns) = (0 < n) × AllPositive ns

LinesFit-room : (k : ℕ) (s : List ℕ) → LinesFit k s → 0 < length s → k < buffer_room
LinesFit-room k [] h lt = absurd (omega arith)
LinesFit-room k (c ∷ s) h lt = h.0

run_session-input :
    (ns buffer input : List ℕ)
    → IsWaiting buffer input
    → AllPositive ns
    → length input ≤ length ns
    → (run_session ns buffer input).input ≡ []
run_session-input [] buffer [] w pos h = unfold run_session in refl
run_session-input [] buffer (c ∷ input) w pos h = absurd (omega arith)
run_session-input (n ∷ ns) buffer [] w pos h =
    elim (List-cases (take (min n (buffer_room - length buffer)) [])) [
      | inl nothing ↦
          rw (run_session-ends ns n buffer [] (session_turn-ends buffer [] n nothing)) refl
      | inr (c, got, e) ↦ absurd (
          omega (
            arith,
            ap (length {A = ℕ}) e,
            length-take {A = ℕ} (min n (buffer_room - length buffer)) [],
          ))
    ]
run_session-input (n ∷ ns) buffer (x ∷ input) w pos h =
    let size = min n (buffer_room - length buffer) in
    let room = LinesFit-room (length buffer) (x ∷ input) w.fitting (omega arith) in
    elim (List-cases (take size (x ∷ input))) [
      | inl nothing ↦
          absurd
            (omega (arith, ap (length {A = ℕ}) nothing, length-take size (x ∷ input), pos.0, room))
      | inr (c, got, e) ↦
          let rest = drop size (x ∷ input) in
          let t = received buffer (c ∷ got) rest in
          let cut : (c ∷ got) ++ rest ≡ x ∷ input =
            ap (λ xs. xs ++ rest) (sym e) ∙ take-append-drop size (x ∷ input) in
          let later : IsWaiting t.buffer t.input =
            received-IsWaiting buffer (c ∷ got) rest (subst (IsWaiting buffer) (sym cut) w) in
          rw
            (run_session-reads ns n buffer (x ∷ input) t
              (session_turn-reads buffer (x ∷ input) n c got e))
            (run_session-input ns t.buffer t.input later pos.1
              (unfold received in omega (arith, length-drop size (x ∷ input), pos.0, room, h)))
    ]

received-IsOpen : (buffer got input : List ℕ) → IsOpen (received buffer got input).buffer
unfolding received
received-IsOpen buffer got input = split_lines-IsOpen (before_nul (buffer ++ got))

pub split_lines-open : (s : List ℕ) → IsOpen s → split_lines s ≡ ([], s)
unfolding split_lines
split_lines-open [] h = refl
split_lines-open (c ∷ s) h = rw h.0 (ap (prepend c) (split_lines-open s h.1))

run_session-IsOpen :
    (ns buffer input : List ℕ) → IsOpen buffer → IsOpen (run_session ns buffer input).buffer
run_session-IsOpen [] buffer input h = unfold run_session in h
run_session-IsOpen (n ∷ ns) buffer input h =
    let size = min n (buffer_room - length buffer) in
    elim (List-cases (take size input)) [
      | inl nothing ↦
          rw (run_session-ends ns n buffer input (session_turn-ends buffer input n nothing)) h
      | inr (c, got, e) ↦
          let t = received buffer (c ∷ got) (drop size input) in
          rw (run_session-reads ns n buffer input t (session_turn-reads buffer input n c got e)) (
            run_session-IsOpen ns t.buffer t.input
              (received-IsOpen buffer (c ∷ got) (drop size input)))
    ]

-- Let an input have no NUL bytes and no line of more than 1022 bytes before its newline. From the
-- empty buffer, a session whose reads each give at least a byte takes the whole input in at most
-- as many reads as it has bytes, and has then run exactly the lines of the input; the buffer holds
-- the line that is not ended.
pub run_session-all_lines :
    (ns input : List ℕ)
    → NoNul input
    → LinesFit 0 input
    → AllPositive ns
    → length input ≤ length ns
    → ((run_session ns [] input).lines ≡ (split_lines input).0)
      × ((run_session ns [] input).buffer ≡ (split_lines input).1)
run_session-all_lines ns input clean fitting pos h =
    let t = run_session ns [] input in
    let taken =
      run_session-input ns [] input
        (record { open_line = tt; clean = tt; clean_input = clean; fitting = fitting }) pos h in
    let all : split_lines input ≡ (t.lines ++ (split_lines t.buffer).0, (split_lines t.buffer).1) =
      (run_session-Continues ns [] input clean).0
      ∙ ap (λ s. (t.lines ++ (split_lines s).0, (split_lines s).1))
          (ap (λ s. t.buffer ++ s) taken ∙ append-nil t.buffer) in
    let last = split_lines-open t.buffer (run_session-IsOpen ns [] input tt) in
    (
      sym (ap (λ p. p.0) all ∙ ap (λ ls. t.lines ++ ls) (ap (λ p. p.0) last) ∙ append-nil t.lines),
      sym (ap (λ p. p.1) all ∙ ap (λ p. p.1) last),
    )
