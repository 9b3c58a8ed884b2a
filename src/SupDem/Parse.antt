-- ===== src/SupDem/Parse.antt =====
-- The tests of command_thread_func of hw1/supdemserv.c that read a command from a line.
pub mod RoundTrip
use advanced_unix_ceng.Base.{
  ℕ, zero, suc, List, [], ◌∷◌, ◌++◌, map, Bool, true, false, if◌then◌else◌, ◌==◌,
}
use advanced_unix_ceng.Base.Int.{ℤ}
use advanced_unix_ceng.SupDem.Scan.{Directive, literal, blank, number, sscanf}
use advanced_unix_ceng.SupDem.Server.{
  Command, move, demand, supply, watch, unwatch, listsupplies, listdemands, mysupplies, mydemands,
  quit, invalid,
}
use advanced_unix_ceng.SupDem.Text.{codes}

-- `" %d %d"`, for a number of `%d`
abbrev pub number_format : ℕ → List Directive
number_format zero = []
number_format (suc n) = blank ∷ number ∷ number_format n

-- `"move %d %d"` and the like
abbrev pub command_format : List ℕ → ℕ → List Directive
command_format word n = map literal word ++ number_format n

-- `sscanf(...) == n`, with what is done then and what is tried next.
abbrev pub one_number : (ℤ → Command) → Command → List ℤ → Command
one_number f other (x ∷ []) = f x
one_number f other xs = other

abbrev pub two_numbers : (ℤ → ℤ → Command) → Command → List ℤ → Command
two_numbers f other (x ∷ y ∷ []) = f x y
two_numbers f other xs = other

abbrev pub three_numbers : (ℤ → ℤ → ℤ → Command) → Command → List ℤ → Command
three_numbers f other (x ∷ y ∷ z ∷ []) = f x y z
three_numbers f other xs = other

abbrev pub four_numbers : (ℤ → ℤ → ℤ → ℤ → Command) → Command → List ℤ → Command
four_numbers f other (x ∷ y ∷ z ∷ t ∷ []) = f x y z t
four_numbers f other xs = other

-- `strncmp(command, word, length of word) == 0`
unfoldable pub has_prefix : List ℕ → List ℕ → Bool
has_prefix [] s = true
has_prefix (c ∷ word) [] = false
has_prefix (c ∷ word) (x ∷ s) = let rest = has_prefix word s in if x == c then rest else false

unfoldable pub parse_word : List ℕ → Command
parse_word s =
    if has_prefix (codes "unwatch") s
    then unwatch
    else if has_prefix (codes "listsupplies") s
    then listsupplies
    else if has_prefix (codes "listdemands") s
    then listdemands
    else if has_prefix (codes "mysupplies") s
    then mysupplies
    else if has_prefix (codes "mydemands") s
    then mydemands
    else if has_prefix (codes "quit") s
    then quit
    else invalid

unfoldable pub parse_watch : (ℤ → ℤ) → List ℕ → Command
parse_watch convert s =
    one_number watch (parse_word s) (sscanf convert (command_format (codes "watch") 1) s)

unfoldable pub parse_supply : (ℤ → ℤ) → List ℕ → Command
parse_supply convert s =
    four_numbers supply (parse_watch convert s)
      (sscanf convert (command_format (codes "supply") 4) s)

unfoldable pub parse_demand : (ℤ → ℤ) → List ℕ → Command
parse_demand convert s =
    three_numbers demand (parse_supply convert s)
      (sscanf convert (command_format (codes "demand") 3) s)

-- The `if` chain, on a line without its newline.
unfoldable pub parse_command : (ℤ → ℤ) → List ℕ → Command
parse_command convert s =
    two_numbers move (parse_demand convert s) (sscanf convert (command_format (codes "move") 2) s)
