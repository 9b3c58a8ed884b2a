-- ===== src/SupDem/Parse/RoundTrip.antt =====
-- The commands of hw1/supdemserv.c are read back from their texts.
use advanced_unix_ceng.Base.{
  ℕ, ◌≡◌, refl, ap, ap₂, ◌∙◌, List, [], ◌∷◌, ◌++◌, map, some, arith, length,
}
use advanced_unix_ceng.Base.Int.{ℤ}
use advanced_unix_ceng.SupDem.Parse.{
  number_format, command_format, has_prefix, parse_word, parse_watch, parse_supply, parse_demand,
  parse_command, one_number, two_numbers, three_numbers, four_numbers,
}
use advanced_unix_ceng.SupDem.Scan.{Directive, literal, blank, number, sscanf, skip_space, scan_int}
use advanced_unix_ceng.SupDem.Scan.Decimal.{IsInt, EndsNumber, scan_int-decimal}
use advanced_unix_ceng.SupDem.Server.{
  Command, move, demand, supply, watch, unwatch, listsupplies, listdemands, mysupplies, mydemands,
  quit, invalid,
}
use advanced_unix_ceng.SupDem.Text.{codes, decimal}

-- `%d` stores the number that stands in the text, where it fits an `int`.
abbrev pub KeepsInts : (ℤ → ℤ) → Type 0
KeepsInts convert = (z : ℤ) → IsInt z → convert z ≡ z

-- Numbers, each after a space.
abbrev pub arguments : List ℤ → List ℕ
arguments [] = []
arguments (z ∷ zs) = b' ' ∷ (decimal z ++ arguments zs)

abbrev AllInts : List ℤ → Type 0
AllInts [] = Unit {0}
AllInts (z ∷ zs) = IsInt z × AllInts zs

arguments-EndsNumber : (zs : List ℤ) → EndsNumber (arguments zs)
arguments-EndsNumber [] = tt
arguments-EndsNumber (z ∷ zs) = refl

scan_int-blank : (s : List ℕ) → scan_int (skip_space (b' ' ∷ s)) ≡ scan_int s
unfolding scan_int skip_space
scan_int-blank [] = refl
scan_int-blank (c ∷ s) = ground (arith, scan_int-blank s)

sscanf-blank :
    (convert : ℤ → ℤ) (format : List Directive) (s : List ℕ)
    → sscanf convert (blank ∷ format) s ≡ sscanf convert format (skip_space s)
unfolding sscanf
sscanf-blank convert format s = refl

sscanf-number :
    (convert : ℤ → ℤ) (format : List Directive) (s : List ℕ) (z : ℤ) (rest : List ℕ)
    → scan_int s ≡ some (z, rest)
    → sscanf convert (number ∷ format) s ≡ convert z ∷ sscanf convert format rest
unfolding sscanf
sscanf-number convert format s z rest e = rw (e, sscanf)

sscanf-arguments :
    (convert : ℤ → ℤ) (zs : List ℤ)
    → KeepsInts convert
    → AllInts zs
    → sscanf convert (number_format (length zs)) (arguments zs) ≡ zs
sscanf-arguments convert [] keep h = unfold sscanf in refl
sscanf-arguments convert (z ∷ zs) keep h =
    let s = decimal z ++ arguments zs in
    sscanf-blank convert (number ∷ number_format (length zs)) (b' ' ∷ s)
    ∙ sscanf-number convert (number_format (length zs)) (skip_space (b' ' ∷ s)) z (arguments zs)
        (scan_int-blank s ∙ scan_int-decimal z (arguments zs) h.0 (arguments-EndsNumber zs))
    ∙ ap₂ ◌∷◌ (keep z h.0) (sscanf-arguments convert zs keep h.1)

sscanf-literals :
    (convert : ℤ → ℤ) (word : List ℕ) (format : List Directive) (s : List ℕ)
    → sscanf convert (map literal word ++ format) (word ++ s) ≡ sscanf convert format s
unfolding sscanf
sscanf-literals convert [] format s = refl
sscanf-literals convert (c ∷ word) format s = ground (arith, sscanf-literals convert word format s)

sscanf-command :
    (convert : ℤ → ℤ) (word : List ℕ) (zs : List ℤ)
    → KeepsInts convert
    → AllInts zs
    → sscanf convert (command_format word (length zs)) (word ++ arguments zs) ≡ zs
sscanf-command convert word zs keep h =
    sscanf-literals convert word (number_format (length zs)) (arguments zs)
    ∙ sscanf-arguments convert zs keep h

-- The text of a command, as a client sends it.
unfoldable pub print_command : Command → List ℕ
print_command (move x y) = codes "move" ++ arguments (x ∷ y ∷ [])
print_command (demand a b c) = codes "demand" ++ arguments (a ∷ b ∷ c ∷ [])
print_command (supply distance a b c) = codes "supply" ++ arguments (distance ∷ a ∷ b ∷ c ∷ [])
print_command (watch id) = codes "watch" ++ arguments (id ∷ [])
print_command unwatch = codes "unwatch"
print_command listsupplies = codes "listsupplies"
print_command listdemands = codes "listdemands"
print_command mysupplies = codes "mysupplies"
print_command mydemands = codes "mydemands"
print_command quit = codes "quit"
print_command invalid = []

-- All numbers of a command fit an `int`.
abbrev pub HasInts : Command → Type 0
HasInts (move x y) = IsInt x × IsInt y
HasInts (demand a b c) = IsInt a × IsInt b × IsInt c
HasInts (supply distance a b c) = IsInt distance × IsInt a × IsInt b × IsInt c
HasInts (watch id) = IsInt id
HasInts other = Unit {0}

-- If `%d` stores a number that fits an `int` as it is, then every command whose numbers fit an
-- `int` is read back from its text: its word, and its numbers as `%d` prints them, each after a
-- space.
pub parse_command-print_command :
    (convert : ℤ → ℤ) (cmd : Command)
    → KeepsInts convert
    → HasInts cmd
    → parse_command convert (print_command cmd) ≡ cmd
unfolding print_command parse_command parse_demand parse_supply parse_watch parse_word has_prefix
    sscanf
parse_command-print_command convert (move x y) keep h =
    ap (two_numbers move _)
      (sscanf-command convert (codes "move") (x ∷ y ∷ []) keep (h.0, (h.1, tt)))
parse_command-print_command convert (demand a b c) keep h =
    ap (three_numbers demand _)
      (sscanf-command convert (codes "demand") (a ∷ b ∷ c ∷ []) keep (h.0, (h.1, (h.2, tt))))
parse_command-print_command convert (supply distance a b c) keep h = ap (four_numbers supply _) (
    sscanf-command convert (codes "supply") (distance ∷ a ∷ b ∷ c ∷ []) keep
      (h.0, (h.1, (h.2, (h.3, tt)))))
parse_command-print_command convert (watch id) keep h =
    ap (one_number watch _) (sscanf-command convert (codes "watch") (id ∷ []) keep (h, tt))
parse_command-print_command convert unwatch keep h = refl
parse_command-print_command convert listsupplies keep h = refl
parse_command-print_command convert listdemands keep h = refl
parse_command-print_command convert mysupplies keep h = refl
parse_command-print_command convert mydemands keep h = refl
parse_command-print_command convert quit keep h = refl
parse_command-print_command convert invalid keep h = refl
