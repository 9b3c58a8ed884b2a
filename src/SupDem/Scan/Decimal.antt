-- ===== src/SupDem/Scan/Decimal.antt =====
-- sscanf reads back what `%d` prints.
use advanced_unix_ceng.Base.{
  ℕ, zero, suc, ◌+◌, ◌*◌, ◌/◌, ◌%◌, ◌≤◌, ◌<◌, ◌^◌, ◌≡◌, refl, ap, ◌∙◌, List, [], ◌∷◌, ◌++◌, some,
  true, false, ◌==◌, ltb, arith, append_assoc, Bool-cases, inl, inr,
}
use advanced_unix_ceng.Base.Int.{ℤ, pos, negsuc, pos_part, neg_part}
use advanced_unix_ceng.SupDem.Scan.{
  is_digit, is_space, skip_space, scan_digits, negate, scan_unsigned, scan_signed, scan_int,
}
use advanced_unix_ceng.SupDem.Text.{digits, decimal}

-- -2^31 ≤ z < 2^31
pub record IsInt (z : ℤ) : Type 0 where
  pub low : neg_part z ≤ 2 ^ 31
  pub high : pos_part z < 2 ^ 31

-- A text that goes on with something that is no digit, or ends.
abbrev pub EndsNumber : List ℕ → Type 0
EndsNumber [] = Unit {0}
EndsNumber (c ∷ s) = is_digit c ≡ false

abbrev pow10 : ℕ → ℕ
pow10 zero = 1
pow10 (suc f) = 10 * pow10 f

abbrev BeginsNumber : List ℕ → Type 0
BeginsNumber [] = ⊥
BeginsNumber (c ∷ s) = is_digit c ≡ true

BeginsNumber-append : (xs ys : List ℕ) → BeginsNumber xs → BeginsNumber (xs ++ ys)
BeginsNumber-append [] ys h = absurd h
BeginsNumber-append (x ∷ xs) ys h = h

digits-BeginsNumber : (f n : ℕ) → n < pow10 (suc f) → BeginsNumber (digits (suc f) n)
unfolding digits
digits-BeginsNumber zero n h = let one : ltb n 10 ≡ true = ground arith in rw one (ground arith)
digits-BeginsNumber (suc f) n h = elim (Bool-cases (ltb n 10)) [
  | inl one ↦ rw one (ground arith)
  | inr more ↦ rw more (
      BeginsNumber-append (digits (suc f) (n / 10)) _
        (digits-BeginsNumber f (n / 10) (ground (arith, more, h))))
]

scan_digits-step :
    (n d : ℕ) (rest : List ℕ)
    → d < 10
    → scan_digits ((d + b'0') ∷ rest) n ≡ scan_digits rest (n * 10 + d)
unfolding scan_digits
scan_digits-step n d rest h =
    let digit : is_digit (d + b'0') ≡ true = ground arith in
    rw digit (ap (λ k. scan_digits rest (n * 10 + k)) (omega arith))

scan_digits-digits :
    (f n : ℕ) (rest : List ℕ)
    → n < pow10 f
    → scan_digits (digits f n ++ rest) 0 ≡ scan_digits rest n
unfolding digits
scan_digits-digits zero n rest h = ap (scan_digits rest) (omega arith)
scan_digits-digits (suc f) n rest h = elim (Bool-cases (ltb n 10)) [
  | inl one ↦
      rw one (
        scan_digits-step 0 (n % 10) rest (omega arith)
        ∙ ap (scan_digits rest) (ground (arith, one)))
  | inr more ↦ rw more (
      ap (λ s. scan_digits s 0) (append_assoc (digits f (n / 10)) _ rest)
      ∙ scan_digits-digits f (n / 10) _ (omega arith)
      ∙ scan_digits-step (n / 10) (n % 10) rest (omega arith)
      ∙ ap (scan_digits rest) (omega arith))
]

scan_digits-ends : (n : ℕ) (rest : List ℕ) → EndsNumber rest → scan_digits rest n ≡ (n, rest)
unfolding scan_digits
scan_digits-ends n [] h = refl
scan_digits-ends n (c ∷ s) h = rw h

scan_unsigned-begins :
    (sign : ℕ → ℤ) (s : List ℕ)
    → BeginsNumber s
    → scan_unsigned sign s ≡ some (sign (scan_digits s 0).0, (scan_digits s 0).1)
unfolding scan_unsigned
scan_unsigned-begins sign [] h = absurd h
scan_unsigned-begins sign (c ∷ s) h = rw h

scan_unsigned-digits :
    (sign : ℕ → ℤ) (n : ℕ) (rest : List ℕ)
    → n < 10000000000
    → EndsNumber rest
    → scan_unsigned sign (digits 10 n ++ rest) ≡ some (sign n, rest)
scan_unsigned-digits sign n rest h ends =
    scan_unsigned-begins sign (digits 10 n ++ rest)
      (BeginsNumber-append (digits 10 n) rest (digits-BeginsNumber 9 n h))
    ∙ ap (λ r. some (sign r.0, r.1)) (scan_digits-digits 10 n rest h ∙ scan_digits-ends n rest ends)

scan_int-begins : (s : List ℕ) → BeginsNumber s → scan_int s ≡ scan_unsigned pos s
unfolding scan_int skip_space scan_signed
scan_int-begins [] h = absurd h
scan_int-begins (c ∷ s) h =
    let no_space : is_space c ≡ false = ground (arith, h) in
    let no_minus : (c == b'-') ≡ false = ground (arith, h) in
    let no_plus : (c == b'+') ≡ false = ground (arith, h) in rw (no_space, no_minus, no_plus) refl

scan_int-minus : (s : List ℕ) → scan_int (b'-' ∷ s) ≡ scan_unsigned negate s
unfolding scan_int skip_space scan_signed
scan_int-minus s = refl

-- `%d` of sscanf, on what `%d` of snprintf prints for an `int` and a text that does not go on with
-- a digit: it reads that number, and stops before that text.
pub scan_int-decimal :
    (z : ℤ) (rest : List ℕ)
    → IsInt z
    → EndsNumber rest
    → scan_int (decimal z ++ rest) ≡ some (z, rest)
unfolding decimal
scan_int-decimal (pos n) rest h ends =
    scan_int-begins (digits 10 n ++ rest)
      (BeginsNumber-append (digits 10 n) rest (digits-BeginsNumber 9 n (omega (arith, h.high))))
    ∙ scan_unsigned-digits pos n rest (omega (arith, h.high)) ends
scan_int-decimal (negsuc n) rest h ends =
    scan_int-minus (digits 10 (suc n) ++ rest)
    ∙ scan_unsigned-digits negate (suc n) rest (omega (arith, h.low)) ends
