-- ===== src/SupDem/Match/Settled.antt =====
-- check_for_match of hw1/supdemserv.c finds every match: a second run has nothing to do.
use advanced_unix_ceng.Base.{
  ◌≡◌, refl, ◌⊎◌, inl, inr, List, [], ◌∷◌, Bool, true, false, ◌&&◌, arith, Bool-cases,
}
use advanced_unix_ceng.Base.Int.{ℤ, ltb_ℤ, ◌≤ℤ◌}
use advanced_unix_ceng.SupDem.State.{Supply, Demand, live}
use advanced_unix_ceng.SupDem.Word.{IsAmount, sub_int, sub_int_parts, manhattan_distance}
use advanced_unix_ceng.SupDem.Match.{
  covers, check_case_match, remove_demand, remove_supply, deduct, exhausted, settle_supply,
  match_demand_and_supply, match_supplies,
}
use advanced_unix_ceng.SupDem.Match.Amounts.{SoundSupply, SoundDemand, matched}

abbrev pub Unmatched : Demand → List Supply → Type 0
Unmatched d [] = Unit {0}
Unmatched d (s ∷ ss) = (check_case_match d s ≡ false) × Unmatched d ss

-- No live demand is met by a live supply.
abbrev pub NoMatch : List Demand → List Supply → Type 0
NoMatch [] ss = Unit {0}
NoMatch (d ∷ ds) ss = Unmatched d ss × NoMatch ds ss

check-dead : (d : Demand) (s : Supply) → live d.client_id ≡ false → check_case_match d s ≡ false
unfolding check_case_match
check-dead d s e = rw e

pub Unmatched-dead : (d : Demand) (ss : List Supply) → live d.client_id ≡ false → Unmatched d ss
Unmatched-dead d [] e = tt
Unmatched-dead d (s ∷ ss) e = (check-dead d s e, Unmatched-dead d ss e)

dead-remove_demand : (d : Demand) → live (remove_demand d).client_id ≡ false
unfolding remove_demand
dead-remove_demand d = refl

and-check :
    (d : Demand) (s : Supply) → live s.client_id && check_case_match d s ≡ check_case_match d s
unfolding check_case_match
and-check d s = ground arith

-- A demand with no match is passed over.
pub match_supplies-Unmatched :
    (d : Demand) (ss : List Supply) → Unmatched d ss → match_supplies d ss ≡ (d, ss, [])
unfolding match_supplies
match_supplies-Unmatched d [] u = refl
match_supplies-Unmatched d (s ∷ ss) u = rw (and-check d s, u.0, match_supplies-Unmatched d ss u.1)

pub match_supplies-hit :
    (d : Demand) (s : Supply) (ss : List Supply)
    → check_case_match d s ≡ true
    → ((match_supplies d (s ∷ ss)).0 ≡ remove_demand d)
      × ((match_supplies d (s ∷ ss)).1 ≡ settle_supply d s ∷ ss)
unfolding match_supplies match_demand_and_supply
match_supplies-hit d s ss hit =
    let gone = Unmatched-dead (remove_demand d) ss (dead-remove_demand d) in
    rw (and-check d s, hit, match_supplies-Unmatched (remove_demand d) ss gone) (refl, refl)

pub match_supplies-miss :
    (d : Demand) (s : Supply) (ss : List Supply)
    → check_case_match d s ≡ false
    → ((match_supplies d (s ∷ ss)).0 ≡ (match_supplies d ss).0)
      × ((match_supplies d (s ∷ ss)).1 ≡ s ∷ (match_supplies d ss).1)
unfolding match_supplies
match_supplies-miss d s ss miss = rw (and-check d s, miss) (refl, refl)

-- After its turn a demand has no match among the supplies.
pub match_supplies_settles :
    (d : Demand) (ss : List Supply)
    → Unmatched (match_supplies d ss).0 (match_supplies d ss).1
      × (((match_supplies d ss).0 ≡ d) ⊎ (live (match_supplies d ss).0.client_id ≡ false))
match_supplies_settles d [] = unfold match_supplies in (tt, inl refl)
match_supplies_settles d (s ∷ ss) = elim (Bool-cases (check_case_match d s)) [
  | inl hit ↦
      let gone = dead-remove_demand d in
      let h = match_supplies-hit d s ss hit in
      rw (h.0, h.1)
        (
          (check-dead (remove_demand d) (settle_supply d s) gone, Unmatched-dead _ ss gone),
          inr gone,
        )
  | inr miss ↦
      let rest = match_supplies_settles d ss in
      let h = match_supplies-miss d s ss miss in
      rw (h.0, h.1)
        (elim rest.1 [
          | inl same ↦ ((rw same miss, rest.0), inl same)
          | inr gone ↦ ((check-dead _ s gone, rest.0), inr gone)
        ])
]

covers-sub_int :
    (s e d : ℤ)
    → IsAmount s
    → IsAmount e
    → e ≤ℤ s
    → covers s d ≡ false
    → covers (sub_int s e) d ≡ false
covers-sub_int s e d hs he le h = ground (arith, sub_int_parts s e)

-- Six tests of which the last three may only get harder.
harder :
    (p q r x y z x' y' z' : Bool)
    → (x ≡ false → x' ≡ false)
    → (y ≡ false → y' ≡ false)
    → (z ≡ false → z' ≡ false)
    → p && (q && (r && (x && (y && z)))) ≡ false
    → p && (q && (r && (x' && (y' && z')))) ≡ false
harder false q r x y z x' y' z' hx hy hz h = refl
harder true false r x y z x' y' z' hx hy hz h = refl
harder true true false x y z x' y' z' hx hy hz h = refl
harder true true true x y z x' y' z' hx hy hz h = ground (arith, hx, hy, hz)

check-deduct :
    (d e : Demand) (s : Supply)
    → SoundDemand e
    → SoundSupply s
    → check_case_match e s ≡ true
    → check_case_match d s ≡ false
    → check_case_match d (deduct e s) ≡ false
unfolding deduct check_case_match
check-deduct d e s sd ss fits miss =
    let m = matched e s sd ss fits in
    harder (live d.client_id) (live s.client_id)
      (ltb_ℤ (manhattan_distance d.x d.y s.x s.y) s.distance) _ _ _ _ _ _
      (covers-sub_int s.a_amount e.a_amount d.a_amount ss.sound_a sd.sound_a m.2)
      (covers-sub_int s.b_amount e.b_amount d.b_amount ss.sound_b sd.sound_b m.3)
      (covers-sub_int s.c_amount e.c_amount d.c_amount ss.sound_c sd.sound_c m.4) miss

check-remove_supply : (d : Demand) (s : Supply) → check_case_match d (remove_supply s) ≡ false
unfolding check_case_match remove_supply
check-remove_supply d s = ground arith

-- Serving one demand makes no match for another.
pub check-settle_supply :
    (d e : Demand) (s : Supply)
    → SoundDemand e
    → SoundSupply s
    → check_case_match e s ≡ true
    → check_case_match d s ≡ false
    → check_case_match d (settle_supply e s) ≡ false
unfolding settle_supply
check-settle_supply d e s sd ss fits miss = elim (Bool-cases (exhausted (deduct e s))) [
  | inl gone ↦ rw gone (check-remove_supply d (deduct e s))
  | inr more ↦ rw more (check-deduct d e s sd ss fits miss)
]
