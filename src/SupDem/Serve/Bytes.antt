-- ===== src/SupDem/Serve/Bytes.antt =====
-- The texts of commands of hw1/supdemserv.c: their bytes and lengths.
use advanced_unix_ceng.Base.{
  not, ◌&&◌, ℕ, zero, suc, ◌+◌, ◌*◌, ◌/◌, ◌%◌, ◌≤◌, ◌<◌, ◌≡◌, refl, ap, List, [], ◌∷◌, ◌++◌, Bool,
  true, ◌==◌, ltb, arith, length, length-append, Bool-cases, inl, inr,
}
use advanced_unix_ceng.Base.Int.{ℤ, pos, negsuc}
use advanced_unix_ceng.SupDem.Listing.Laws.{length-decimal}
use advanced_unix_ceng.SupDem.Parse.RoundTrip.{arguments, print_command}
use advanced_unix_ceng.SupDem.Server.{
  Command, move, demand, supply, watch, unwatch, listsupplies, listdemands, mysupplies, mydemands,
  quit, invalid,
}
use advanced_unix_ceng.SupDem.Session.{prepend, split_lines, buffer_room}
use advanced_unix_ceng.SupDem.Session.Lines.{NoNul-append}
use advanced_unix_ceng.SupDem.Session.Progress.{IsOpen, LinesFit}
use advanced_unix_ceng.SupDem.Session.Limits.{IsUnbroken}
use advanced_unix_ceng.SupDem.Text.{codes, digits, decimal}

IsOpen-append : (xs ys : List ℕ) → IsOpen xs → IsOpen ys → IsOpen (xs ++ ys)
IsOpen-append [] ys h k = k
IsOpen-append (x ∷ xs) ys h k = (h.0, IsOpen-append xs ys h.1 k)

IsUnbroken-append : (xs ys : List ℕ) → IsUnbroken xs → IsUnbroken ys → IsUnbroken (xs ++ ys)
IsUnbroken-append xs ys h k = (IsOpen-append xs ys h.0 k.0, NoNul-append xs ys h.1 k.1)

digit-IsUnbroken : (d : ℕ) → IsUnbroken ((d + b'0') ∷ [])
digit-IsUnbroken d = ((ground arith, tt), (λ e. omega arith, tt))

digits-IsUnbroken : (f n : ℕ) → IsUnbroken (digits f n)
unfolding digits
digits-IsUnbroken zero n = (tt, tt)
digits-IsUnbroken (suc f) n = elim (Bool-cases (ltb n 10)) [
  | inl one ↦ rw one (digit-IsUnbroken (n % 10))
  | inr more ↦ rw more (
      IsUnbroken-append (digits f (n / 10)) _ (digits-IsUnbroken f (n / 10))
        (digit-IsUnbroken (n % 10)))
]

decimal-IsUnbroken : (z : ℤ) → IsUnbroken (decimal z)
unfolding decimal
decimal-IsUnbroken (pos n) = digits-IsUnbroken 10 n
decimal-IsUnbroken (negsuc n) =
    let u = digits-IsUnbroken 10 (suc n) in ((refl, u.0), (λ e. omega arith, u.1))

arguments-IsUnbroken : (zs : List ℤ) → IsUnbroken (arguments zs)
arguments-IsUnbroken [] = (tt, tt)
arguments-IsUnbroken (z ∷ zs) =
    let u =
      IsUnbroken-append (decimal z) (arguments zs) (decimal-IsUnbroken z)
        (arguments-IsUnbroken zs) in
    ((refl, u.0), (λ e. omega arith, u.1))

length-arguments : (zs : List ℤ) (n : ℕ) → length zs ≤ n → length (arguments zs) ≤ n * 12
length-arguments [] n h = omega arith
length-arguments (z ∷ zs) zero h = absurd (omega arith)
length-arguments (z ∷ zs) (suc n) h = omega (
  arith,
  length-decimal z,
  length-append (decimal z) (arguments zs),
  length-arguments zs n (omega arith),
)

-- A byte that is neither a newline nor a NUL.
abbrev is_plain : ℕ → Bool
is_plain c = not (c == b'\n') && not (c == 0)

abbrev all_plain : List ℕ → Bool
all_plain [] = true
all_plain (c ∷ s) = is_plain c && all_plain s

all_plain-IsUnbroken : (s : List ℕ) → all_plain s ≡ true → IsUnbroken s
all_plain-IsUnbroken [] h = (tt, tt)
all_plain-IsUnbroken (c ∷ s) h =
    let rest = all_plain-IsUnbroken s (ground arith) in
    ((ground arith, rest.0), (ground arith, rest.1))

command-IsUnbroken :
    (word : List ℕ) (zs : List ℤ) → all_plain word ≡ true → IsUnbroken (word ++ arguments zs)
command-IsUnbroken word zs h =
    IsUnbroken-append word (arguments zs) (all_plain-IsUnbroken word h) (arguments-IsUnbroken zs)

-- The text of a command is one line of at most 54 bytes.
pub print_command-IsUnbroken : (cmd : Command) → IsUnbroken (print_command cmd)
unfolding print_command
print_command-IsUnbroken (move x y) = command-IsUnbroken (codes "move") (x ∷ y ∷ []) refl
print_command-IsUnbroken (demand a b c) = command-IsUnbroken (codes "demand") (a ∷ b ∷ c ∷ []) refl
print_command-IsUnbroken (supply d a b c) =
    command-IsUnbroken (codes "supply") (d ∷ a ∷ b ∷ c ∷ []) refl
print_command-IsUnbroken (watch id) = command-IsUnbroken (codes "watch") (id ∷ []) refl
print_command-IsUnbroken unwatch = all_plain-IsUnbroken (codes "unwatch") refl
print_command-IsUnbroken listsupplies = all_plain-IsUnbroken (codes "listsupplies") refl
print_command-IsUnbroken listdemands = all_plain-IsUnbroken (codes "listdemands") refl
print_command-IsUnbroken mysupplies = all_plain-IsUnbroken (codes "mysupplies") refl
print_command-IsUnbroken mydemands = all_plain-IsUnbroken (codes "mydemands") refl
print_command-IsUnbroken quit = all_plain-IsUnbroken (codes "quit") refl
print_command-IsUnbroken invalid = (tt, tt)

word-arguments :
    (word : List ℕ) (zs : List ℤ)
    → length word ≤ 6
    → length zs ≤ 4
    → length (word ++ arguments zs) ≤ 54
word-arguments word zs h k =
    omega (arith, length-append word (arguments zs), length-arguments zs 4 k)

pub length-print_command : (cmd : Command) → length (print_command cmd) ≤ 54
unfolding print_command
length-print_command (move x y) =
    word-arguments (codes "move") (x ∷ y ∷ []) (omega arith) (omega arith)
length-print_command (demand a b c) =
    word-arguments (codes "demand") (a ∷ b ∷ c ∷ []) (omega arith) (omega arith)
length-print_command (supply d a b c) =
    word-arguments (codes "supply") (d ∷ a ∷ b ∷ c ∷ []) (omega arith) (omega arith)
length-print_command (watch id) =
    word-arguments (codes "watch") (id ∷ []) (omega arith) (omega arith)
length-print_command unwatch = omega arith
length-print_command listsupplies = omega arith
length-print_command listdemands = omega arith
length-print_command mysupplies = omega arith
length-print_command mydemands = omega arith
length-print_command quit = omega arith
length-print_command invalid = omega arith

-- A line and its newline, in front of a text.
pub split_lines-line :
    (line s : List ℕ)
    → IsOpen line
    → split_lines (line ++ b'\n' ∷ s) ≡ (line ∷ (split_lines s).0, (split_lines s).1)
unfolding split_lines
split_lines-line [] s h = refl
split_lines-line (c ∷ line) s h = rw (h.0) (ap (prepend c) (split_lines-line line s h.1))

pub LinesFit-line :
    (k : ℕ) (line s : List ℕ)
    → IsOpen line
    → k + length line < buffer_room
    → LinesFit 0 s
    → LinesFit k (line ++ b'\n' ∷ s)
LinesFit-line k [] s h small fits = (omega arith, fits)
LinesFit-line k (c ∷ line) s h small fits =
    (omega arith, rw (h.0) (LinesFit-line (k + 1) line s h.1 (omega arith) fits))
