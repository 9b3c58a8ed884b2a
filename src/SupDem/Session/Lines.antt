-- ===== src/SupDem/Session/Lines.antt =====
-- The lines of a session of hw1/supdemserv.c do not depend on how read cuts the input.
use mathlib.Core.Path.{subst}
use advanced_unix_ceng.Base.{
  ℕ, ◌-◌, ◌≡◌, ◌≢◌, ◌⊎◌, refl, ap, sym, ◌∙◌, min, List, [], ◌∷◌, ◌++◌, none, some, false, ◌==◌,
  arith, length, take, drop, take-append-drop, append_assoc, Bool-cases, inl, inr,
}
use advanced_unix_ceng.SupDem.Session.{
  before_nul, prepend, split_lines, Turn, received, session_turn, run_session, buffer_room,
}

-- No NUL among the bytes.
abbrev pub NoNul : List ℕ → Type 0
NoNul [] = Unit {0}
NoNul (c ∷ s) = (c ≢ 0) × NoNul s

pub before_nul-NoNul : (s : List ℕ) → NoNul s → before_nul s ≡ s
unfolding before_nul
before_nul-NoNul [] h = refl
before_nul-NoNul (c ∷ s) h = ground (arith, before_nul-NoNul s h.1)

pub NoNul-left : (xs ys : List ℕ) → NoNul (xs ++ ys) → NoNul xs
NoNul-left [] ys h = tt
NoNul-left (x ∷ xs) ys h = (h.0, NoNul-left xs ys h.1)

pub NoNul-right : (xs ys : List ℕ) → NoNul (xs ++ ys) → NoNul ys
NoNul-right [] ys h = h
NoNul-right (x ∷ xs) ys h = NoNul-right xs ys h.1

pub NoNul-append : (xs ys : List ℕ) → NoNul xs → NoNul ys → NoNul (xs ++ ys)
NoNul-append [] ys h k = k
NoNul-append (x ∷ xs) ys h k = (h.0, NoNul-append xs ys h.1 k)

-- What a first part leaves is cut on with the second.
abbrev pub joined : List (List ℕ) × List ℕ → List ℕ → List (List ℕ) × List ℕ
joined first ys = let second = split_lines (first.1 ++ ys) in (first.0 ++ second.0, second.1)

joined-prepend :
    (c : ℕ) (first : List (List ℕ) × List ℕ) (ys : List ℕ)
    → (c == b'\n') ≡ false
    → joined (prepend c first) ys ≡ prepend c (joined first ys)
unfolding split_lines
joined-prepend c ([], rest) ys e = rw e refl
joined-prepend c (line ∷ lines, rest) ys e = refl

split_lines-append : (xs ys : List ℕ) → split_lines (xs ++ ys) ≡ joined (split_lines xs) ys
unfolding split_lines
split_lines-append [] ys = refl
split_lines-append (c ∷ xs) ys = elim (Bool-cases (c == b'\n')) [
  | inl newline ↦ rw newline (ap (λ p. ([] ∷ p.0, p.1)) (split_lines-append xs ys))
  | inr other ↦
      rw other (
        ap (prepend c) (split_lines-append xs ys)
        ∙ sym (joined-prepend c (split_lines xs) ys other))
]

NoNul-prepend : (c : ℕ) (p : List (List ℕ) × List ℕ) → c ≢ 0 → NoNul p.1 → NoNul (prepend c p).1
NoNul-prepend c ([], rest) h k = (h, k)
NoNul-prepend c (line ∷ lines, rest) h k = k

pub split_lines-NoNul : (s : List ℕ) → NoNul s → NoNul (split_lines s).1
unfolding split_lines
split_lines-NoNul [] h = tt
split_lines-NoNul (c ∷ s) h = elim (Bool-cases (c == b'\n')) [
  | inl newline ↦ rw newline (split_lines-NoNul s h.1)
  | inr other ↦ rw other (NoNul-prepend c (split_lines s) h.0 (split_lines-NoNul s h.1))
]

-- What a turn leaves, with the input that is left, gives the lines that are still to come.
abbrev pub Continues : List ℕ → Turn → Type 0
Continues all t =
    let later = split_lines (t.buffer ++ t.input) in
    (split_lines all ≡ (t.lines ++ later.0, later.1)) × NoNul (t.buffer ++ t.input)

received-Continues :
    (buffer got input : List ℕ)
    → NoNul (buffer ++ (got ++ input))
    → Continues (buffer ++ (got ++ input)) (received buffer got input)
unfolding received
received-Continues buffer got input h =
    let all = append_assoc buffer got input in
    let here : NoNul ((buffer ++ got) ++ input) = subst NoNul (sym all) h in
    let clean = NoNul-left (buffer ++ got) input here in
    rw (before_nul-NoNul (buffer ++ got) clean) (
      ap split_lines (sym all) ∙ split_lines-append (buffer ++ got) input,
      NoNul-append (split_lines (buffer ++ got)).1 input (split_lines-NoNul (buffer ++ got) clean)
          (NoNul-right (buffer ++ got) input here),
    )

-- The two outcomes of a turn.
pub session_turn-ends :
    (buffer input : List ℕ) (n : ℕ)
    → take (min n (buffer_room - length buffer)) input ≡ []
    → session_turn buffer input n ≡ none
unfolding session_turn
session_turn-ends buffer input n e = rw (e, session_turn)

pub session_turn-reads :
    (buffer input : List ℕ) (n c : ℕ) (got : List ℕ)
    → take (min n (buffer_room - length buffer)) input ≡ c ∷ got
    → session_turn buffer input n
      ≡ some (received buffer (c ∷ got) (drop (min n (buffer_room - length buffer)) input))
unfolding session_turn
session_turn-reads buffer input n c got e = rw (e, session_turn)

pub List-cases : (xs : List ℕ) → (xs ≡ []) ⊎ ((c : ℕ) × (rest : List ℕ) × (xs ≡ c ∷ rest))
List-cases [] = inl refl
List-cases (c ∷ rest) = inr (c, rest, refl)

pub run_session-ends :
    (ns : List ℕ) (n : ℕ) (buffer input : List ℕ)
    → session_turn buffer input n ≡ none
    → run_session (n ∷ ns) buffer input ≡ record { lines = []; buffer = buffer; input = input }
unfolding run_session
run_session-ends ns n buffer input e = rw (e, run_session)

pub run_session-reads :
    (ns : List ℕ) (n : ℕ) (buffer input : List ℕ) (t : Turn)
    → session_turn buffer input n ≡ some t
    → run_session (n ∷ ns) buffer input ≡ record (run_session ns t.buffer t.input) {
      lines = t.lines ++ (run_session ns t.buffer t.input).lines;
    }
unfolding run_session
run_session-reads ns n buffer input t e = rw (e, run_session)

-- Lines run before those that a later turn leaves.
Continues-before :
    (all : List ℕ) (t u : Turn)
    → Continues all t
    → Continues (t.buffer ++ t.input) u
    → Continues all (record u { lines = t.lines ++ u.lines })
Continues-before all t u h k = (
  h.0
      ∙ ap (λ p. (t.lines ++ p.0, p.1)) k.0
      ∙ ap (λ ls. (ls, (split_lines (u.buffer ++ u.input)).1))
          (sym (append_assoc t.lines u.lines (split_lines (u.buffer ++ u.input)).0)),
  k.1,
)

-- However read cuts an input without NUL bytes into rounds: the lines that the session has run,
-- followed by the lines of what is in the buffer and still to be read, are the lines of the whole.
pub run_session-Continues :
    (ns buffer input : List ℕ)
    → NoNul (buffer ++ input)
    → Continues (buffer ++ input) (run_session ns buffer input)
run_session-Continues [] buffer input h = unfold run_session in (refl, h)
run_session-Continues (n ∷ ns) buffer input h =
    let size = min n (buffer_room - length buffer) in
    elim (List-cases (take size input)) [
      | inl nothing ↦
          rw (run_session-ends ns n buffer input (session_turn-ends buffer input n nothing))
            (refl, h)
      | inr (c, got, some_bytes) ↦
          let t = received buffer (c ∷ got) (drop size input) in
          let cut : (c ∷ got) ++ drop size input ≡ input =
            ap (λ xs. xs ++ drop size input) (sym some_bytes) ∙ take-append-drop size input in
          let first : Continues (buffer ++ input) t =
            subst (λ rest. Continues (buffer ++ rest) t) cut
              (received-Continues buffer (c ∷ got) (drop size input)
                (subst (λ rest. NoNul (buffer ++ rest)) (sym cut) h)) in
          rw
            (run_session-reads ns n buffer input t
              (session_turn-reads buffer input n c got some_bytes))
            (Continues-before (buffer ++ input) t (run_session ns t.buffer t.input) first
              (run_session-Continues ns t.buffer t.input first.1))
    ]
