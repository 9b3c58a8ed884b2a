-- ===== src/SupDem/Scan.antt =====
-- The C library's sscanf, as far as hw1/supdemserv.c uses it: letters, spaces and `%d`.
pub mod Decimal
use advanced_unix_ceng.Base.{
  ℕ, zero, suc, ◌+◌, ◌-◌, ◌*◌, List, [], ◌∷◌, ◌++◌, Option, none, some, Bool, ◌&&◌, ◌||◌,
  if◌then◌else◌, ◌==◌, leb, map,
}
use advanced_unix_ceng.Base.Int.{ℤ, pos, negsuc}

abbrev pub is_digit : ℕ → Bool
is_digit c = leb b'0' c && leb c b'9'

-- `isspace`
abbrev pub is_space : ℕ → Bool
is_space c = c == 32 || (leb 9 c && leb c 13)

unfoldable pub skip_space : List ℕ → List ℕ
skip_space [] = []
skip_space (c ∷ s) = let rest = skip_space s in if is_space c then rest else c ∷ s

-- The digits at the start of a text, read on from a number, and what follows them.
unfoldable pub scan_digits : List ℕ → ℕ → ℕ × List ℕ
scan_digits [] n = (n, [])
scan_digits (c ∷ s) n =
    let rest = scan_digits s (n * 10 + (c - b'0')) in if is_digit c then rest else (n, c ∷ s)

abbrev pub negate : ℕ → ℤ
negate zero = pos 0
negate (suc n) = negsuc n

-- At least one digit.
unfoldable pub scan_unsigned : (ℕ → ℤ) → List ℕ → Option (ℤ × List ℕ)
scan_unsigned sign [] = none
scan_unsigned sign (c ∷ s) =
    if is_digit c then (let (n, rest) = scan_digits (c ∷ s) 0 in some (sign n, rest)) else none

unfoldable pub scan_signed : List ℕ → Option (ℤ × List ℕ)
scan_signed [] = none
scan_signed (c ∷ s) =
    if c == b'-'
    then scan_unsigned negate s
    else if c == b'+'
    then scan_unsigned pos s
    else scan_unsigned pos (c ∷ s)

-- `%d`: the number that stands in the text, and what follows it.
unfoldable pub scan_int : List ℕ → Option (ℤ × List ℕ)
scan_int s = scan_signed (skip_space s)

pub data Directive : Type 0 where
  literal : ℕ → Directive
  blank number : Directive

-- The numbers stored; the format stops at the first directive that fails. C leaves open what `%d`
-- stores for a number that does not fit an `int`: `convert` says it.
unfoldable pub sscanf : (ℤ → ℤ) → List Directive → List ℕ → List ℤ
sscanf convert [] s = []
sscanf convert (literal c ∷ format) [] = []
sscanf convert (literal c ∷ format) (x ∷ s) =
    let rest = sscanf convert format s in if x == c then rest else []
sscanf convert (blank ∷ format) s = sscanf convert format (skip_space s)
sscanf convert (number ∷ format) s = elim (scan_int s) [
  | none ↦ []
  | some (z, rest) ↦ convert z ∷ sscanf convert format rest
]
