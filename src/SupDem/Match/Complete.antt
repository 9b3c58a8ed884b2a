-- ===== src/SupDem/Match/Complete.antt =====
-- check_for_match of hw1/supdemserv.c leaves no match behind.
use advanced_unix_ceng.Base.{◌≡◌, refl, inl, inr, List, [], ◌∷◌, ◌++◌, true, false, Bool-cases}
use advanced_unix_ceng.SupDem.State.{Supply, Demand, live}
use advanced_unix_ceng.SupDem.Match.{check_case_match, match_supplies, check_for_match}
use advanced_unix_ceng.SupDem.Match.Amounts.{
  SoundDemand, AllSupplies, AllDemands, match_supplies-Balanced,
}
use advanced_unix_ceng.SupDem.Match.Settled.{
  Unmatched, NoMatch, match_supplies_settles, match_supplies-Unmatched, match_supplies-hit,
  match_supplies-miss, check-settle_supply, Unmatched-dead,
}

-- The turn of another demand makes no match.
Unmatched-match_supplies :
    (d e : Demand) (ss : List Supply)
    → SoundDemand e
    → AllSupplies ss
    → Unmatched d ss
    → Unmatched d (match_supplies e ss).1
Unmatched-match_supplies d e [] sd h u = unfold match_supplies in tt
Unmatched-match_supplies d e (s ∷ ss) sd h u = elim (Bool-cases (check_case_match e s)) [
  | inl hit ↦ rw ((match_supplies-hit e s ss hit).1) (check-settle_supply d e s sd h.0 hit u.0, u.1)
  | inr miss ↦
      rw ((match_supplies-miss e s ss miss).1) (u.0, Unmatched-match_supplies d e ss sd h.1 u.1)
]

check_for_match-live :
    (d : Demand) (ds : List Demand) (ss : List Supply)
    → live d.client_id ≡ true
    → let first = match_supplies d ss in
      let rest = check_for_match ds first.1 in
      check_for_match (d ∷ ds) ss ≡ (first.0 ∷ rest.0, rest.1, first.2 ++ rest.2)
unfolding check_for_match
check_for_match-live d ds ss e = rw e

check_for_match-free :
    (d : Demand) (ds : List Demand) (ss : List Supply)
    → live d.client_id ≡ false
    → let rest = check_for_match ds ss in
      check_for_match (d ∷ ds) ss ≡ (d ∷ rest.0, rest.1, [] ++ rest.2)
unfolding check_for_match
check_for_match-free d ds ss e = rw e

Unmatched-check_for_match :
    (d : Demand) (ds : List Demand) (ss : List Supply)
    → AllDemands ds
    → AllSupplies ss
    → Unmatched d ss
    → Unmatched d (check_for_match ds ss).1
Unmatched-check_for_match d [] ss hd hs u = unfold check_for_match in u
Unmatched-check_for_match d (e ∷ ds) ss hd hs u = elim (Bool-cases (live e.client_id)) [
  | inl alive ↦ rw (check_for_match-live e ds ss alive) (
      Unmatched-check_for_match d ds (match_supplies e ss).1 hd.1
        (match_supplies-Balanced e ss hd.0 hs).supplies (Unmatched-match_supplies d e ss hd.0 hs u))
  | inr free ↦ rw (check_for_match-free e ds ss free) (Unmatched-check_for_match d ds ss hd.1 hs u)
]

-- If all amounts are from 0 on and fit an `int`, then after check_for_match no live demand is met
-- by a live supply.
pub check_for_match-NoMatch :
    (ds : List Demand) (ss : List Supply)
    → AllDemands ds
    → AllSupplies ss
    → NoMatch (check_for_match ds ss).0 (check_for_match ds ss).1
check_for_match-NoMatch [] ss hd hs = unfold check_for_match in tt
check_for_match-NoMatch (d ∷ ds) ss hd hs = elim (Bool-cases (live d.client_id)) [
  | inl alive ↦
      let first = match_supplies_settles d ss in
      let sound = (match_supplies-Balanced d ss hd.0 hs).supplies in
      rw (check_for_match-live d ds ss alive) (
        Unmatched-check_for_match (match_supplies d ss).0 ds (match_supplies d ss).1 hd.1 sound
            first.0,
        check_for_match-NoMatch ds (match_supplies d ss).1 hd.1 sound,
      )
  | inr free ↦ rw (check_for_match-free d ds ss free) (
    Unmatched-check_for_match d ds ss hd.1 hs (Unmatched-dead d ss free),
    check_for_match-NoMatch ds ss hd.1 hs,
  )
]

-- Where no live demand is met, check_for_match changes nothing and notifies nobody.
NoMatch-check_for_match :
    (ds : List Demand) (ss : List Supply) → NoMatch ds ss → check_for_match ds ss ≡ (ds, ss, [])
NoMatch-check_for_match [] ss h = unfold check_for_match in refl
NoMatch-check_for_match (d ∷ ds) ss h = elim (Bool-cases (live d.client_id)) [
  | inl alive ↦ rw (
    check_for_match-live d ds ss alive,
    match_supplies-Unmatched d ss h.0,
    NoMatch-check_for_match ds ss h.1,
  )
  | inr free ↦ rw (check_for_match-free d ds ss free, NoMatch-check_for_match ds ss h.1)
]
