-- ===== src/SupDem/Slots/Places.antt =====
-- Where add_new_supply of hw1/supdemserv.c puts a supply.
use advanced_unix_ceng.Base.{
  ℕ, zero, suc, ◌<◌, ◌≡◌, ◌≢◌, refl, inl, inr, List, [], ◌∷◌, none, some, true, false, arith,
  length, get_elem?, get_elem?-set_self, get_elem?-set_ne, Option-cases,
}
use advanced_unix_ceng.Base.Int.{ℤ, pos, negsuc}
use advanced_unix_ceng.SupDem.Slots.{first_slot, supply_free, new_supply, add_new_supply}
use advanced_unix_ceng.SupDem.State.{Supply, Client}

-- The slot at an index is one that satisfies the test.
abbrev IsFree : List Supply → ℕ → Type 0
IsFree ss i = (s : Supply) × (get_elem? ss i ≡ some s) × (supply_free s ≡ true)

first_slot_found :
    (ss : List Supply) (i : ℕ) → first_slot supply_free ss ≡ some i → (i < length ss) × IsFree ss i
unfolding first_slot
first_slot_found [] i e = ground arith
first_slot_found (s ∷ ss) zero e = (omega arith, (s, refl, ground arith))
first_slot_found (s ∷ ss) (suc i) e =
    let rest = first_slot_found ss i (ground arith) in (omega (arith, rest.0), rest.1)

first_slot-none :
    (ss : List Supply) (j : ℕ) (s : Supply)
    → first_slot supply_free ss ≡ none
    → get_elem? ss j ≡ some s
    → supply_free s ≡ false
unfolding first_slot
first_slot-none [] j s e here = ground arith
first_slot-none (x ∷ ss) zero s e here = ground arith
first_slot-none (x ∷ ss) (suc j) s e here = first_slot-none ss j s (ground arith) here

-- Where add_new_supply returns an index, the slot there was free and now holds the supply, at the
-- client's place, and every other slot is as it was.
add_new_supply-get_elem? :
    (ss : List Supply) (k : Client) (id distance a b c : ℤ) (i j : ℕ)
    → (add_new_supply ss k id distance a b c).1 ≡ pos i
    → i ≢ j
    → IsFree ss i
      × (get_elem? (add_new_supply ss k id distance a b c).0 i
          ≡ some (new_supply k id distance a b c))
      × (get_elem? (add_new_supply ss k id distance a b c).0 j ≡ get_elem? ss j)
unfolding add_new_supply
add_new_supply-get_elem? ss k id distance a b c i j e ne =
    elim (Option-cases (first_slot supply_free ss)) [
      | inl full ↦ absurd (ground (arith, full))
      | inr (n, found) ↦
          let v = new_supply k id distance a b c in
          let same : n ≡ i = ground (arith, found) in
          let slot : first_slot supply_free ss ≡ some i = ground (arith, found, same) in
          let here = first_slot_found ss i slot in
          rw (slot, add_new_supply)
            (here.1, get_elem?-set_self ss i v here.0, get_elem?-set_ne ss v ne)
    ]

-- Where add_new_supply returns -1, it has changed nothing, and no slot was free.
add_new_supply-full :
    (ss : List Supply) (k : Client) (id distance a b c : ℤ) (j : ℕ) (s : Supply)
    → (add_new_supply ss k id distance a b c).1 ≡ negsuc 0
    → get_elem? ss j ≡ some s
    → ((add_new_supply ss k id distance a b c).0 ≡ ss) × (supply_free s ≡ false)
unfolding add_new_supply
add_new_supply-full ss k id distance a b c j s e here =
    elim (Option-cases (first_slot supply_free ss)) [
      | inl full ↦ rw (full, add_new_supply) (refl, first_slot-none ss j s full here)
      | inr (n, found) ↦ absurd (ground (arith, found))
    ]
