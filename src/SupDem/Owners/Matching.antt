-- ===== src/SupDem/Owners/Matching.antt =====
-- Matching gives no slot to anyone, and notifies those whose slots they are.
use advanced_unix_ceng.Base.{
  ℕ, ◌≡◌, refl, List, [], ◌∷◌, All, All-append, Bool, true, false, ◌&&◌, arith, Bool-cases, inl,
  inr,
}
use advanced_unix_ceng.Base.Int.{ℤ, negsuc}
use advanced_unix_ceng.SupDem.Match.{
  note_if, exhausted, deduct, remove_demand, remove_supply, settle_supply, match_notes,
  match_demand_and_supply, match_supplies, check_for_match, check_case_match,
}
use advanced_unix_ceng.SupDem.Match.Amounts.{and-right}
use advanced_unix_ceng.SupDem.Owners.{Notified, Demands, Supplies}
use advanced_unix_ceng.SupDem.State.{Supply, Demand, Watch, live}
use advanced_unix_ceng.SupDem.Text.{demand_message, supply_message, removed_message}
use advanced_unix_ceng.SupDem.Watch.{sees, notify_watches, check_for_watch_events_on_new_supply}

sees-live : (s : Supply) (w : Watch) → sees s w ≡ true → live w.client_id ≡ true
unfolding sees
sees-live s w h = ground arith

module _ (P : ℤ → Type 0) where
  note_if-Notified :
      (b : Bool) (id : ℤ)
      → (b ≡ true → Notified P (id, []))
      → (text : List ℕ) → All (Notified P) (note_if b id text)
  note_if-Notified true id h text = (h refl, tt)
  note_if-Notified false id h text = tt

-- -1 has the property.
module _ (P : ℤ → Type 0) (free : P (negsuc 0)) where
  match_notes-Notified :
      (d : Demand) (s : Supply) → P d.client_id → P s.client_id → All (Notified P) (match_notes d s)
  unfolding match_notes
  match_notes-Notified d s pd ps =
      All-append (Notified P) _ _
        (note_if-Notified P (live d.client_id) d.client_id (λ e. (e, pd)) (demand_message d s))
        (All-append (Notified P) _ _
          (note_if-Notified P (live s.client_id) s.client_id (λ e. (e, ps)) (supply_message d s))
          (note_if-Notified P (exhausted (deduct d s) && live s.client_id) s.client_id
            (λ e. (and-right (exhausted (deduct d s)) (live s.client_id) e, ps)) removed_message))

  settle_supply-client_id :
      (d : Demand) (s : Supply) → P s.client_id → P (settle_supply d s).client_id
  unfolding settle_supply deduct remove_supply
  settle_supply-client_id d s p = elim (Bool-cases (exhausted (deduct d s))) [
    | inl all_gone ↦ rw all_gone free
    | inr some_left ↦ rw some_left p
  ]

  match_supplies-client_id :
      (d : Demand) (ss : List Supply)
      → P d.client_id
      → Supplies P ss
      → P (match_supplies d ss).0.client_id
        × Supplies P (match_supplies d ss).1
        × All (Notified P) (match_supplies d ss).2
  unfolding match_supplies match_demand_and_supply remove_demand
  match_supplies-client_id d [] pd ps = (pd, tt, tt)
  match_supplies-client_id d (s ∷ ss) pd ps =
      elim (Bool-cases (live s.client_id && check_case_match d s)) [
        | inl hit ↦
            let rest = match_supplies-client_id (remove_demand d) ss free ps.1 in
            rw hit (
              rest.0,
              (settle_supply-client_id d s ps.0, rest.1),
              All-append (Notified P) _ _ (match_notes-Notified d s pd ps.0) rest.2,
            )
        | inr miss ↦
            let rest = match_supplies-client_id d ss pd ps.1 in
            rw miss (rest.0, (ps.0, rest.1), rest.2)
      ]

  pub check_for_match-client_id :
      (ds : List Demand) (ss : List Supply)
      → Demands P ds
      → Supplies P ss
      → Demands P (check_for_match ds ss).0
        × Supplies P (check_for_match ds ss).1
        × All (Notified P) (check_for_match ds ss).2
  unfolding check_for_match
  check_for_match-client_id [] ss pd ps = (tt, ps, tt)
  check_for_match-client_id (d ∷ ds) ss pd ps = elim (Bool-cases (live d.client_id)) [
    | inl alive ↦
        let first = match_supplies-client_id d ss pd.0 ps in
        let rest = check_for_match-client_id ds (match_supplies d ss).1 pd.1 first.1 in
        rw alive ((first.0, rest.0), rest.1, All-append (Notified P) _ _ first.2 rest.2)
    | inr unused ↦
        let rest = check_for_match-client_id ds ss pd.1 ps in
        rw unused ((pd.0, rest.0), rest.1, rest.2)
  ]

  notify_watches-Notified :
      (s : Supply) (ws : List Watch)
      → All (λ (w : Watch). P w.client_id) ws
      → All (Notified P) (notify_watches s ws)
  unfolding notify_watches
  notify_watches-Notified s [] h = tt
  notify_watches-Notified s (w ∷ ws) h = elim (Bool-cases (sees s w)) [
    | inl seen ↦ rw seen ((sees-live s w seen, h.0), notify_watches-Notified s ws h.1)
    | inr unseen ↦ rw unseen (notify_watches-Notified s ws h.1)
  ]

  pub watch_events-Notified :
      (s : Supply) (ws : List Watch)
      → All (λ (w : Watch). P w.client_id) ws
      → All (Notified P) (check_for_watch_events_on_new_supply s ws)
  unfolding check_for_watch_events_on_new_supply
  watch_events-Notified s ws h = elim (Bool-cases (live s.client_id)) [
    | inl alive ↦ rw alive (notify_watches-Notified s ws h)
    | inr unused ↦ rw unused tt
  ]
