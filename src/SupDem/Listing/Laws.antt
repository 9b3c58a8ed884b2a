-- ===== src/SupDem/Listing/Laws.antt =====
-- What the list commands of hw1/supdemserv.c print.
use advanced_unix_ceng.Base.{
  ℕ, zero, suc, ◌+◌, ◌-◌, ◌/◌, ◌%◌, ◌≤◌, ◌≡◌, refl, ap, sym, List, [], ◌∷◌, ◌++◌, Bool, true,
  if◌then◌else◌, arith, length, length-append, length-replicate, replicate, take_all,
}
use advanced_unix_ceng.Base.Int.{ℤ, pos, negsuc, eqb_ℤ}
use advanced_unix_ceng.SupDem.State.{Supply, Demand, live}
use advanced_unix_ceng.SupDem.Text.{codes, digits, decimal}
use advanced_unix_ceng.SupDem.Listing.{
  padded_decimal, column, supply_text, demand_text, supply_line, demand_line, supply_header,
  demand_header, count_slots, slot_lines, supply_live, demand_live, supply_owned, demand_owned,
  list_supplies, list_demands, my_supplies, my_demands,
}

length-digits : (fuel n : ℕ) → length (digits fuel n) ≤ fuel
unfolding digits
length-digits zero n = omega arith
length-digits (suc fuel) n = ground (
  arith,
  length-digits fuel (n / 10),
  length-append (digits fuel (n / 10)) ((n % 10 + b'0') ∷ []),
)

pub length-decimal : (z : ℤ) → length (decimal z) ≤ 11
unfolding decimal
length-decimal (pos n) = omega (arith, length-digits 10 n)
length-decimal (negsuc n) = omega (arith, length-digits 10 (suc n))

length-column : (width : ℕ) (z : ℤ) → width ≤ 11 → length (column width z) ≤ 12
unfolding column padded_decimal
length-column width z h =
    let text = decimal z in
    omega (
      arith,
      length-decimal z,
      length-append (replicate (width - length text) b' ' ++ text) (codes "|"),
      length-append (replicate (width - length text) b' ') text,
      length-replicate {A = ℕ} (width - length text) b' ',
    )

append-le : (xs ys : List ℕ) (m n : ℕ) → length xs ≤ m → length ys ≤ n → length (xs ++ ys) ≤ m + n
append-le xs ys m n h k = omega (arith, length-append xs ys)

length-supply_text : (s : Supply) → length (supply_text s) ≤ 127
unfolding supply_text
length-supply_text s =
    let x = length-column 7 s.x (omega arith) in
    let y = length-column 7 s.y (omega arith) in
    let a = length-column 5 s.a_amount (omega arith) in
    let b = length-column 5 s.b_amount (omega arith) in
    let c = length-column 5 s.c_amount (omega arith) in
    let d = length-column 7 s.distance (omega arith) in
    omega (
      arith,
      append-le _ _ 12 61 x (
          append-le _ _ 12 49 y (
            append-le _ _ 12 37 a (
              append-le _ _ 12 25 b
                (append-le _ _ 12 13 c (append-le _ (codes "\n") 12 1 d (omega arith)))))),
    )

length-demand_text : (d : Demand) → length (demand_text d) ≤ 127
unfolding demand_text
length-demand_text d =
    let x = length-column 7 d.x (omega arith) in
    let y = length-column 7 d.y (omega arith) in
    let a = length-column 5 d.a_amount (omega arith) in
    let b = length-column 5 d.b_amount (omega arith) in
    let c = length-column 5 d.c_amount (omega arith) in
    omega (
      arith,
      append-le _ _ 12 49 x (
          append-le _ _ 12 37 y (
            append-le _ _ 12 25 a
              (append-le _ _ 12 13 b (append-le _ (codes "\n") 12 1 c (omega arith))))),
    )

-- The buffer of 128 bytes cuts off nothing of a line, whatever the numbers in the slot.
lines_uncut :
    (s : Supply) (d : Demand) → (supply_line s ≡ supply_text s) × (demand_line d ≡ demand_text d)
unfolding supply_line demand_line
lines_uncut s d = (
  take_all 127 (supply_text s) (length-supply_text s),
  take_all 127 (demand_text d) (length-demand_text d),
)

module _ {ℓ} {A : Type ℓ} where
  -- The slots that pass a test.
  abbrev pub filter_slots : (A → Bool) → List A → List A
  filter_slots test [] = []
  filter_slots test (x ∷ xs) = let rest = filter_slots test xs in if test x then x ∷ rest else rest

  length-slot_lines :
      (test : A → Bool) (line : A → List ℕ) (xs : List A)
      → length (slot_lines test line xs) ≡ count_slots test xs
  unfolding slot_lines count_slots
  length-slot_lines test line [] = refl
  length-slot_lines test line (x ∷ xs) = ground (arith, length-slot_lines test line xs)

  -- Where the first test implies the second, the second changes nothing among what the first keeps.
  count_slots-filter_slots :
      (own all : A → Bool) (xs : List A)
      → ((x : A) → own x ≡ true → all x ≡ true)
      → count_slots all (filter_slots own xs) ≡ count_slots own xs
  unfolding count_slots
  count_slots-filter_slots own all [] sub = refl
  count_slots-filter_slots own all (x ∷ xs) sub =
      ground (arith, sub x, count_slots-filter_slots own all xs sub)

  slot_lines-filter_slots :
      (own all : A → Bool) (line : A → List ℕ) (xs : List A)
      → ((x : A) → own x ≡ true → all x ≡ true)
      → slot_lines all line (filter_slots own xs) ≡ slot_lines own line xs
  unfolding slot_lines
  slot_lines-filter_slots own all line [] sub = refl
  slot_lines-filter_slots own all line (x ∷ xs) sub =
      ground (arith, sub x, slot_lines-filter_slots own all line xs sub)

owned-live : (id other : ℤ) → live id ≡ true → eqb_ℤ other id ≡ true → live other ≡ true
owned-live id other h e = ground arith

-- For a client with an id other than -1: what my_supplies and my_demands write is what
-- list_supplies and list_demands would write if the client's slots were the only ones.
my_lists-eq-lists :
    (ss : List Supply) (ds : List Demand) (id : ℤ)
    → live id ≡ true
    → (my_supplies ss id ≡ list_supplies (filter_slots (supply_owned id) ss))
      × (my_demands ds id ≡ list_demands (filter_slots (demand_owned id) ds))
unfolding my_supplies my_demands list_supplies list_demands
my_lists-eq-lists ss ds id h =
    let own_s = λ (s : Supply) (e : supply_owned id s ≡ true). owned-live id s.client_id h e in
    let own_d = λ (d : Demand) (e : demand_owned id d ≡ true). owned-live id d.client_id h e in
    (
      rw (
        count_slots-filter_slots (supply_owned id) supply_live ss own_s,
        slot_lines-filter_slots (supply_owned id) supply_live supply_line ss own_s,
      ),
      rw (
        count_slots-filter_slots (demand_owned id) demand_live ds own_d,
        slot_lines-filter_slots (demand_owned id) demand_live demand_line ds own_d,
      ),
    )

-- A header for `n` slots, with `n` texts after it.
abbrev Announces : (ℕ → List ℕ) → List (List ℕ) → Type 0
Announces header [] = ⊥
Announces header (text ∷ lines) = text ≡ header (length lines)

-- The number in the header of each list command is the number of lines after it.
lists-Announces :
    (ss : List Supply) (ds : List Demand) (id : ℤ)
    → Announces supply_header (list_supplies ss)
      × Announces demand_header (list_demands ds)
      × Announces supply_header (my_supplies ss id)
      × Announces demand_header (my_demands ds id)
unfolding my_supplies my_demands list_supplies list_demands
lists-Announces ss ds id = (
  ap supply_header (sym (length-slot_lines supply_live supply_line ss)),
  ap demand_header (sym (length-slot_lines demand_live demand_line ds)),
  ap supply_header (sym (length-slot_lines (supply_owned id) supply_line ss)),
  ap demand_header (sym (length-slot_lines (demand_owned id) demand_line ds)),
)
