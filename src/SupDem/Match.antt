-- ===== src/SupDem/Match.antt =====
-- check_case_match, match_demand_and_supply, remove_demand, remove_supply and check_for_match of
-- hw1/supdemserv.c. The notifications are the calls of enqueue_notification, in their order.
pub mod Amounts
pub mod Settled
pub mod Complete
use advanced_unix_ceng.Base.{ℕ, List, [], ◌∷◌, ◌++◌, Bool, ◌&&◌, ◌||◌, not, if◌then◌else◌}
use advanced_unix_ceng.Base.Int.{ℤ, pos, negsuc, ltb_ℤ, eqb_ℤ}
use advanced_unix_ceng.SupDem.State.{Supply, Demand, live}
use advanced_unix_ceng.SupDem.Text.{demand_message, supply_message, removed_message}
use advanced_unix_ceng.SupDem.Word.{sub_int, manhattan_distance}

-- A call of enqueue_notification: the client and the message.
abbrev pub Note : Type 0
Note = ℤ × List ℕ

-- `a >= b`
abbrev pub covers : ℤ → ℤ → Bool
covers a b = not (ltb_ℤ a b)

unfoldable pub check_case_match : Demand → Supply → Bool
check_case_match d s =
    live d.client_id
    && (live s.client_id
        && (ltb_ℤ (manhattan_distance d.x d.y s.x s.y) s.distance
            && (covers s.a_amount d.a_amount
                && (covers s.b_amount d.b_amount && covers s.c_amount d.c_amount))))

unfoldable pub remove_demand : Demand → Demand
remove_demand d = record {
  x = pos 0;
  y = pos 0;
  a_amount = pos 0;
  b_amount = pos 0;
  c_amount = pos 0;
  client_id = negsuc 0;
}

unfoldable pub remove_supply : Supply → Supply
remove_supply s = record {
  x = pos 0;
  y = pos 0;
  a_amount = pos 0;
  b_amount = pos 0;
  c_amount = pos 0;
  distance = pos 0;
  client_id = negsuc 0;
}

-- "Deduct from supply"
unfoldable pub deduct : Demand → Supply → Supply
deduct d s = record s {
  a_amount = sub_int s.a_amount d.a_amount;
  b_amount = sub_int s.b_amount d.b_amount;
  c_amount = sub_int s.c_amount d.c_amount;
}

-- "If supply exhausted"
abbrev pub exhausted : Supply → Bool
exhausted s = eqb_ℤ s.a_amount (pos 0) && (eqb_ℤ s.b_amount (pos 0) && eqb_ℤ s.c_amount (pos 0))

unfoldable pub settle_supply : Demand → Supply → Supply
settle_supply d s = let s' = deduct d s in if exhausted s' then remove_supply s' else s'

abbrev pub note_if : Bool → ℤ → List ℕ → List Note
note_if b id text = if b then (id, text) ∷ [] else []

unfoldable pub match_notes : Demand → Supply → List Note
match_notes d s =
    note_if (live d.client_id) d.client_id (demand_message d s)
    ++ (note_if (live s.client_id) s.client_id (supply_message d s)
        ++ note_if (exhausted (deduct d s) && live s.client_id) s.client_id removed_message)

-- The demand and the supply that it leaves, and its notifications.
unfoldable pub match_demand_and_supply : Demand → Supply → Demand × Supply × List Note
match_demand_and_supply d s = (remove_demand d, settle_supply d s, match_notes d s)

-- The inner loop of check_for_match: one demand against all supplies.
unfoldable pub match_supplies : Demand → List Supply → Demand × List Supply × List Note
match_supplies d [] = (d, [], [])
match_supplies d (s ∷ ss) =
    let (d', s', notes) =
      if live s.client_id && check_case_match d s
      then match_demand_and_supply d s
      else (d, s, []) in
    let (d'', ss', more) = match_supplies d' ss in (d'', s' ∷ ss', notes ++ more)

-- The outer loop. Its argument `client_id` is not used by the source.
unfoldable pub check_for_match : List Demand → List Supply → List Demand × List Supply × List Note
check_for_match [] ss = ([], ss, [])
check_for_match (d ∷ ds) ss =
    let (d', ss', notes) = if live d.client_id then match_supplies d ss else (d, ss, []) in
    let (ds', ss'', more) = check_for_match ds ss' in (d' ∷ ds', ss'', notes ++ more)
