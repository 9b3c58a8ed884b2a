-- ===== src/SupDem/Session/Limits.antt =====
-- The buffer of a session of hw1/supdemserv.c is never overrun, and a line that fills it ends the
-- session.
use advanced_unix_ceng.Base.{
  ℕ, ◌+◌, ◌-◌, ◌≤◌, ◌≡◌, refl, ap, sym, ◌∙◌, min, List, [], ◌∷◌, ◌++◌, some, arith, length,
  length-append, take, drop, take-append-drop, append_assoc, inl, inr, length-take,
}
use advanced_unix_ceng.SupDem.Session.{
  before_nul, prepend, split_lines, received, run_session, buffer_room,
}
use advanced_unix_ceng.SupDem.Session.Lines.{
  NoNul, before_nul-NoNul, List-cases, session_turn-ends, session_turn-reads, run_session-ends,
  run_session-reads,
}
use advanced_unix_ceng.SupDem.Session.Progress.{IsOpen, split_lines-open}

length-before_nul : (s : List ℕ) → length (before_nul s) ≤ length s
unfolding before_nul
length-before_nul [] = omega arith
length-before_nul (c ∷ s) = ground (arith, length-before_nul s)

length-prepend : (c : ℕ) (p : List (List ℕ) × List ℕ) → length (prepend c p).1 ≤ length p.1 + 1
length-prepend c ([], rest) = omega arith
length-prepend c (line ∷ lines, rest) = omega arith

length-split_lines : (s : List ℕ) → length (split_lines s).1 ≤ length s
unfolding split_lines
length-split_lines [] = omega arith
length-split_lines (c ∷ s) = ground (arith, length-prepend c (split_lines s), length-split_lines s)

length-received :
    (buffer got input : List ℕ)
    → length (received buffer got input).buffer ≤ length buffer + length got
unfolding received
length-received buffer got input = omega (
  arith,
  length-split_lines (before_nul (buffer ++ got)),
  length-before_nul (buffer ++ got),
  length-append buffer got,
)

-- What one read gives fits behind the buffer.
read-fits :
    (n c : ℕ) (buffer input got : List ℕ)
    → length buffer ≤ buffer_room
    → take (min n (buffer_room - length buffer)) input ≡ c ∷ got
    → length buffer + length (c ∷ got) ≤ buffer_room
read-fits n c buffer input got h e =
    omega (arith, ap (length {A = ℕ}) e, length-take (min n (buffer_room - length buffer)) input)

-- Whatever is read, with NUL bytes or without, and in whatever pieces: from a buffer of at most
-- 1023 bytes a session comes to one of at most 1023 bytes, so that the NUL behind it is in the
-- array.
pub run_session-buffer_room :
    (ns buffer input : List ℕ)
    → length buffer ≤ buffer_room
    → length (run_session ns buffer input).buffer ≤ buffer_room
run_session-buffer_room [] buffer input h = unfold run_session in h
run_session-buffer_room (n ∷ ns) buffer input h =
    let size = min n (buffer_room - length buffer) in
    elim (List-cases (take size input)) [
      | inl nothing ↦
          rw (run_session-ends ns n buffer input (session_turn-ends buffer input n nothing)) h
      | inr (c, got, e) ↦
          let t = received buffer (c ∷ got) (drop size input) in
          rw (run_session-reads ns n buffer input t (session_turn-reads buffer input n c got e)) (
            run_session-buffer_room ns t.buffer t.input (
              omega (
                arith,
                length-received buffer (c ∷ got) (drop size input),
                read-fits n c buffer input got h e,
              )))
    ]

-- A text without newlines or NUL bytes.
abbrev pub IsUnbroken : List ℕ → Type 0
IsUnbroken s = IsOpen s × NoNul s

prefix-IsUnbroken :
    (xs ys long rest : List ℕ)
    → xs ++ ys ≡ long ++ rest
    → length xs ≤ length long
    → IsUnbroken long
    → IsUnbroken xs
prefix-IsUnbroken [] ys long rest e h u = (tt, tt)
prefix-IsUnbroken (x ∷ xs) ys [] rest e h u = absurd (omega arith)
prefix-IsUnbroken (x ∷ xs) ys (l ∷ long) rest e h u =
    let same : x ≡ l = cc in
    let more : xs ++ ys ≡ long ++ rest = cc in
    let v = prefix-IsUnbroken xs ys long rest more (omega arith) (u.0.1, u.1.1) in
    ((rw same u.0.0, v.0), (rw same u.1.0, v.1))

received-IsUnbroken :
    (buffer got input : List ℕ)
    → IsUnbroken (buffer ++ got)
    → received buffer got input ≡ record { lines = []; buffer = buffer ++ got; input = input }
unfolding received
received-IsUnbroken buffer got input u =
    rw (before_nul-NoNul (buffer ++ got) u.1, split_lines-open (buffer ++ got) u.0) refl

unbroken-lines :
    (long rest ns buffer input : List ℕ)
    → length long ≡ buffer_room
    → IsUnbroken long
    → buffer ++ input ≡ long ++ rest
    → length buffer ≤ buffer_room
    → (run_session ns buffer input).lines ≡ []
unbroken-lines long rest [] buffer input full u e h = unfold run_session in refl
unbroken-lines long rest (n ∷ ns) buffer input full u e h =
    let size = min n (buffer_room - length buffer) in
    let left = drop size input in
    elim (List-cases (take size input)) [
      | inl nothing ↦
          rw (run_session-ends ns n buffer input (session_turn-ends buffer input n nothing)) refl
      | inr (c, got, read) ↦
          let whole : (buffer ++ (c ∷ got)) ++ left ≡ long ++ rest =
            append_assoc buffer (c ∷ got) left
            ∙ ap (λ xs. buffer ++ (xs ++ left)) (sym read)
            ∙ ap (◌++◌ buffer) (take-append-drop size input)
            ∙ e in
          let fits : length (buffer ++ (c ∷ got)) ≤ buffer_room =
            omega (arith, length-append buffer (c ∷ got), read-fits n c buffer input got h read) in
          let v =
            prefix-IsUnbroken (buffer ++ (c ∷ got)) left long rest whole (omega (arith, fits, full))
              u in
          let t = received-IsUnbroken buffer (c ∷ got) left v in
          rw
            (run_session-reads ns n buffer input
              (record { lines = []; buffer = buffer ++ (c ∷ got); input = left })
              (session_turn-reads buffer input n c got read ∙ ap some t))
            (unbroken-lines long rest ns (buffer ++ (c ∷ got)) left full u whole fits)
    ]

-- Where an input begins with 1023 bytes that are neither newlines nor NUL, a session runs none of
-- its lines, whatever follows these bytes and however they are read.
pub long_line_ends :
    (long rest ns : List ℕ)
    → length long ≡ buffer_room
    → IsUnbroken long
    → (run_session ns [] (long ++ rest)).lines ≡ []
long_line_ends long rest ns full u =
    unbroken-lines long rest ns [] (long ++ rest) full u refl (omega arith)
