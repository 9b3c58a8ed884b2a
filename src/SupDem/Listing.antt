-- ===== src/SupDem/Listing.antt =====
-- list_supplies, list_demands, my_supplies and my_demands of hw1/supdemserv.c, as the texts that
-- they write to the client's socket: a header, then a line for each slot.
pub mod Laws
use advanced_unix_ceng.Base.{
  ℕ, suc, ◌-◌, List, [], ◌∷◌, ◌++◌, Bool, if◌then◌else◌, length, replicate,
}
use advanced_unix_ceng.Base.Int.{ℤ, pos, eqb_ℤ}
use advanced_unix_ceng.SupDem.State.{Supply, Demand, live}
use advanced_unix_ceng.SupDem.Text.{codes, decimal, snprintf}

-- `%7d`, `%5d`: padded with spaces on the left, never cut.
unfoldable pub padded_decimal : ℕ → ℤ → List ℕ
padded_decimal width z = let text = decimal z in replicate (width - length text) b' ' ++ text

-- A column of a line.
unfoldable pub column : ℕ → ℤ → List ℕ
column width z = padded_decimal width z ++ codes "|"

-- What the formats of a supply and of a demand print, before the cut of snprintf.
unfoldable pub supply_text : Supply → List ℕ
supply_text s =
    column 7 s.x
    ++ (column 7 s.y
        ++ (column 5 s.a_amount
            ++ (column 5 s.b_amount
                ++ (column 5 s.c_amount ++ (column 7 s.distance ++ codes "\n")))))

unfoldable pub demand_text : Demand → List ℕ
demand_text d =
    column 7 d.x
    ++ (column 7 d.y
        ++ (column 5 d.a_amount ++ (column 5 d.b_amount ++ (column 5 d.c_amount ++ codes "\n"))))

unfoldable pub supply_line : Supply → List ℕ
supply_line s = snprintf 128 (supply_text s)

unfoldable pub demand_line : Demand → List ℕ
demand_line d = snprintf 128 (demand_text d)

unfoldable pub supply_header : ℕ → List ℕ
supply_header count = snprintf 512 (
    codes "There are "
    ++ (decimal (pos count)
        ++ codes
            " supplies in total.\nX | Y | A | B | C | D |\n-------+-------+-----+-----+-----+-------+\n"))

unfoldable pub demand_header : ℕ → List ℕ
demand_header count = snprintf 512 (
    codes "There are "
    ++ (decimal (pos count)
        ++ codes " demands in total.\nX | Y | A | B | C |\n-------+-------+-----+-----+-----+\n"))

module _ {ℓ} {A : Type ℓ} where
  -- The first loop: how many slots pass the test.
  unfoldable pub count_slots : (A → Bool) → List A → ℕ
  count_slots test [] = 0
  count_slots test (x ∷ xs) = let rest = count_slots test xs in if test x then suc rest else rest

  -- The second loop: a line for each of them.
  unfoldable pub slot_lines : (A → Bool) → (A → List ℕ) → List A → List (List ℕ)
  slot_lines test line [] = []
  slot_lines test line (x ∷ xs) =
      let rest = slot_lines test line xs in if test x then line x ∷ rest else rest

abbrev pub supply_live : Supply → Bool
supply_live s = live s.client_id

abbrev pub demand_live : Demand → Bool
demand_live d = live d.client_id

abbrev pub supply_owned : ℤ → Supply → Bool
supply_owned client_id s = eqb_ℤ s.client_id client_id

abbrev pub demand_owned : ℤ → Demand → Bool
demand_owned client_id d = eqb_ℤ d.client_id client_id

unfoldable pub list_supplies : List Supply → List (List ℕ)
list_supplies ss =
    supply_header (count_slots supply_live ss) ∷ slot_lines supply_live supply_line ss

unfoldable pub list_demands : List Demand → List (List ℕ)
list_demands ds = demand_header (count_slots demand_live ds) ∷ slot_lines demand_live demand_line ds

unfoldable pub my_supplies : List Supply → ℤ → List (List ℕ)
my_supplies ss client_id =
    supply_header (count_slots (supply_owned client_id) ss)
    ∷ slot_lines (supply_owned client_id) supply_line ss

unfoldable pub my_demands : List Demand → ℤ → List (List ℕ)
my_demands ds client_id =
    demand_header (count_slots (demand_owned client_id) ds)
    ∷ slot_lines (demand_owned client_id) demand_line ds
