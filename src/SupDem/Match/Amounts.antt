-- ===== src/SupDem/Match/Amounts.antt =====
-- Matching in hw1/supdemserv.c neither makes nor loses goods.
use advanced_unix_ceng.Base.{
  ℕ, ◌+◌, ◌≡◌, refl, inl, inr, List, [], ◌∷◌, Bool, true, false, ◌&&◌, if◌then◌else◌, arith,
  Bool-cases,
}
use advanced_unix_ceng.Base.Int.{ℤ, pos_part, ◌≤ℤ◌}
use advanced_unix_ceng.SupDem.State.{Supply, Demand, live}
use advanced_unix_ceng.SupDem.Word.{IsAmount, sub_int_parts}
use advanced_unix_ceng.SupDem.Match.{
  check_case_match, remove_demand, remove_supply, deduct, settle_supply, match_demand_and_supply,
  match_supplies, check_for_match,
}

-- The three goods.
pub data Good : Type 0 where
  a b c : Good

abbrev pub supplied : Good → Supply → ℤ
supplied a s = s.a_amount
supplied b s = s.b_amount
supplied c s = s.c_amount

abbrev pub demanded : Good → Demand → ℤ
demanded a d = d.a_amount
demanded b d = d.b_amount
demanded c d = d.c_amount

-- Amounts from 0 on.
pub record SoundSupply (s : Supply) : Type 0 where
  pub sound_a : IsAmount s.a_amount
  pub sound_b : IsAmount s.b_amount
  pub sound_c : IsAmount s.c_amount

pub record SoundDemand (d : Demand) : Type 0 where
  pub sound_a : IsAmount d.a_amount
  pub sound_b : IsAmount d.b_amount
  pub sound_c : IsAmount d.c_amount

abbrev pub AllSupplies : List Supply → Type 0
AllSupplies [] = Unit {0}
AllSupplies (s ∷ ss) = SoundSupply s × AllSupplies ss

abbrev pub AllDemands : List Demand → Type 0
AllDemands [] = Unit {0}
AllDemands (d ∷ ds) = SoundDemand d × AllDemands ds

-- What one slot offers or asks for: nothing, if it is free.
abbrev pub offer : Good → Supply → ℕ
offer g s = if live s.client_id then pos_part (supplied g s) else 0

abbrev pub wish : Good → Demand → ℕ
wish g d = if live d.client_id then pos_part (demanded g d) else 0

abbrev pub total_supply : Good → List Supply → ℕ
total_supply g [] = 0
total_supply g (s ∷ ss) = offer g s + total_supply g ss

abbrev pub total_demand : Good → List Demand → ℕ
total_demand g [] = 0
total_demand g (d ∷ ds) = wish g d + total_demand g ds

module _ (d : Demand) (s : Supply) (sd : SoundDemand d) (ss : SoundSupply s)
    (fits : check_case_match d s ≡ true) where
  -- What a match says of the two.
  pub matched :
      (live d.client_id ≡ true)
      × (live s.client_id ≡ true)
      × (d.a_amount ≤ℤ s.a_amount)
      × (d.b_amount ≤ℤ s.b_amount)
      × (d.c_amount ≤ℤ s.c_amount)
  unfolding check_case_match
  matched = ground arith

  pub deduct-SoundSupply : SoundSupply (deduct d s)
  unfolding deduct
  deduct-SoundSupply = ground (
    arith,
    matched,
    sub_int_parts s.a_amount d.a_amount,
    sub_int_parts s.b_amount d.b_amount,
    sub_int_parts s.c_amount d.c_amount,
  )

  offer-deduct : (g : Good) → offer g (deduct d s) + wish g d ≡ offer g s
  unfolding deduct
  offer-deduct a = ground (arith, matched, sub_int_parts s.a_amount d.a_amount)
  offer-deduct b = ground (arith, matched, sub_int_parts s.b_amount d.b_amount)
  offer-deduct c = ground (arith, matched, sub_int_parts s.c_amount d.c_amount)

pub settled-SoundSupply :
    (d : Demand) (s : Supply) → SoundSupply (deduct d s) → SoundSupply (settle_supply d s)
unfolding settle_supply remove_supply
settled-SoundSupply d s h = ground arith

-- Removing an exhausted supply takes nothing off the market.
offer-settle_supply :
    (g : Good) (d : Demand) (s : Supply) → offer g (settle_supply d s) ≡ offer g (deduct d s)
unfolding settle_supply remove_supply
offer-settle_supply a d s = ground arith
offer-settle_supply b d s = ground arith
offer-settle_supply c d s = ground arith

wish-remove_demand : (g : Good) (d : Demand) → wish g (remove_demand d) ≡ 0
unfolding remove_demand
wish-remove_demand a d = refl
wish-remove_demand b d = refl
wish-remove_demand c d = refl

remove_demand-SoundDemand : (d : Demand) → SoundDemand (remove_demand d)
unfolding remove_demand
remove_demand-SoundDemand d = omega arith

-- What the inner loop keeps: amounts from 0 on, and the balance of each good.
pub record Balanced (d : Demand) (ss : List Supply) (d' : Demand) (ss' : List Supply) : Type 0 where
  pub demand : SoundDemand d'
  pub supplies : AllSupplies ss'
  pub balance : (g : Good) → total_supply g ss + wish g d' ≡ total_supply g ss' + wish g d

pub and-right : (x y : Bool) → x && y ≡ true → y ≡ true
and-right true y h = h
and-right false y h = cc

pub match_supplies-Balanced :
    (d : Demand) (ss : List Supply)
    → SoundDemand d
    → AllSupplies ss
    → Balanced d ss (match_supplies d ss).0 (match_supplies d ss).1
unfolding match_supplies match_demand_and_supply
match_supplies-Balanced d [] sd h = record { demand = sd; supplies = tt; balance = λ g. refl }
match_supplies-Balanced d (s ∷ ss) sd h =
    elim (Bool-cases (live s.client_id && check_case_match d s)) [
      | inl hit ↦
          let fits = and-right (live s.client_id) (check_case_match d s) hit in
          let rest =
            match_supplies-Balanced (remove_demand d) ss (remove_demand-SoundDemand d) h.1 in
          rw hit (record {
            demand = rest.demand;
            supplies =
                (settled-SoundSupply d s (deduct-SoundSupply d s sd h.0 fits), rest.supplies);
            balance = λ g. omega (
              arith,
              rest.balance g,
              wish-remove_demand g d,
              offer-settle_supply g d s,
              offer-deduct d s sd h.0 fits g,
            );
          })
      | inr miss ↦
          let rest = match_supplies-Balanced d ss sd h.1 in
          rw miss (record {
            demand = rest.demand;
            supplies = (h.0, rest.supplies);
            balance = λ g. omega (arith, rest.balance g);
          })
    ]

-- What the whole of check_for_match keeps.
pub record MarketBalanced (ds : List Demand) (ss : List Supply) (ds' : List Demand)
    (ss' : List Supply) : Type 0 where
  pub demands : AllDemands ds'
  pub supplies : AllSupplies ss'
  pub balance :
      (g : Good) → total_supply g ss + total_demand g ds' ≡ total_supply g ss' + total_demand g ds

-- If all amounts are from 0 on and fit an `int`, they are so after check_for_match, and for each
-- good what the live supplies lose in total is what the demands that are fulfilled asked for.
pub check_for_match-MarketBalanced :
    (ds : List Demand) (ss : List Supply)
    → AllDemands ds
    → AllSupplies ss
    → MarketBalanced ds ss (check_for_match ds ss).0 (check_for_match ds ss).1
unfolding check_for_match
check_for_match-MarketBalanced [] ss hd hs = record {
  demands = tt;
  supplies = hs;
  balance = λ g. refl;
}
check_for_match-MarketBalanced (d ∷ ds) ss hd hs = elim (Bool-cases (live d.client_id)) [
  | inl alive ↦
      let first = match_supplies-Balanced d ss hd.0 hs in
      let rest = check_for_match-MarketBalanced ds (match_supplies d ss).1 hd.1 first.supplies in
      rw alive (record {
        demands = (first.demand, rest.demands);
        supplies = rest.supplies;
        balance = λ g. omega (arith, first.balance g, rest.balance g);
      })
  | inr free ↦
      let rest = check_for_match-MarketBalanced ds ss hd.1 hs in
      rw free (record {
        demands = (hd.0, rest.demands);
        supplies = rest.supplies;
        balance = λ g. omega (arith, rest.balance g);
      })
]
