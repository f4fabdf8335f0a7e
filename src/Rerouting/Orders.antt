-- ===== src/Rerouting/Orders.antt =====
-- The new order of the visits of an agent, and their numbers in the database.
use mathlib.Core.List.Perm
use mathlib.Core.Logic.{∥∥₁_elim}
use mathlib.Core.List.{Mem, Nodup, Nodup-cons, mem-cons, mem-cons_self, mem-cons_of_mem}
use sfa_routing.Prelude.{
  range, ℕ, zero, suc, ◌+◌, ◌≡◌, ◌≢◌, refl, sym, subst, Option, none, some, List, [], ◌∷◌, Perm,
  arith, inl, inr, leb, Bool-cases, Option-cases, length, get_elem?,
}
use sfa_routing.Rerouting.{
  VisitPlan, visit_map, renumber_visits, insert_visit, remaining_visits, is_selected, Place, Reason,
  Service, apply_visit_order,
}
use sfa_routing.Prelude.Picks.{pick-perm, pick-range, range_total}
use sfa_routing.Rerouting.Renumber.{
  collected, Numbered, AreKnown, HaveClients, ids_of, mem-AreKnown, renumber_visits-collected,
  renumber_visits-Numbered,
}

client_at :
    (vs : List VisitPlan) (k : ℕ) (v : VisitPlan)
    → HaveClients vs
    → get_elem? vs k ≡ some v
    → v.client ≢ none
client_at [] k v h e = ground arith
client_at (w ∷ ws) zero v h e =
    let same : w ≡ v = cc e in subst (λ (u : VisitPlan). u.client ≢ none) same h.0
client_at (w ∷ ws) (suc k) v h e = client_at ws k v h.1 e

-- With a client at each visit, `visit_map` finds the visits.
visit_map-get_elem? :
    (vs : List VisitPlan) (k : ℕ) (v : VisitPlan)
    → HaveClients vs
    → get_elem? vs k ≡ some v
    → visit_map vs (suc k) ≡ some v
unfolding visit_map
visit_map-get_elem? vs k v h e = elim (Option-cases v.client) [
  | inl gap ↦ absurd (client_at vs k v h e gap)
  | inr (c, f) ↦ simp (visit_map, e, f) refl
]

counted :
    (vs : List VisitPlan) (k : ℕ) (v : VisitPlan)
    → HaveClients vs
    → get_elem? vs k ≡ some v
    → visit_map vs (1 + k) ≡ some v
counted vs k v h e =
    let one : suc k ≡ 1 + k = omega arith in
    subst (λ j. visit_map vs j ≡ some v) one (visit_map-get_elem? vs k v h e)

-- `visit_map` and the counted visits.
pub collected-visit_map :
    (vs : List VisitPlan) (order : List ℕ)
    → HaveClients vs
    → Perm order (range 1 (length vs))
    → Perm (collected (visit_map vs) order) (ids_of vs)
collected-visit_map vs order h p =
    subst (λ l. Perm (collected (visit_map vs) order) (ids_of l))
      (pick-range (visit_map vs) 1 vs (λ k v e. counted vs k v h e))
      (Perm.map (λ (v : VisitPlan). v.id) (pick-perm (visit_map vs) p))

-- The visits of the database have distinct identifiers.
abbrev pub AreDistinct : List VisitPlan → Type 0
AreDistinct vs = Nodup (ids_of vs)

insert_visit-perm :
    (v : VisitPlan) (ws : List VisitPlan) → Perm (ids_of (insert_visit v ws)) (v.id ∷ ids_of ws)
unfolding insert_visit
insert_visit-perm v [] = Perm.refl (v.id ∷ [])
insert_visit-perm v (w ∷ ws) = elim (Bool-cases (leb v.sequence_number w.sequence_number)) [
  | inl before ↦ rw (insert_visit, before) (Perm.refl (v.id ∷ w.id ∷ ids_of ws))
  | inr after ↦
      rw (insert_visit, after)
        (Perm.trans (Perm.cons w.id (insert_visit-perm v ws)) (Perm.swap v.id w.id (ids_of ws)))
]

module _ (agent today : ℕ) where
  mem-remaining_visits :
      (x : ℕ) (vs : List VisitPlan)
      → Mem x (ids_of (remaining_visits agent today vs))
      → Mem x (ids_of vs)
  unfolding remaining_visits
  mem-remaining_visits x [] m = m
  mem-remaining_visits x (v ∷ vs) m = elim (Bool-cases (is_selected agent today v)) [
    | inl chosen ↦
        let inserted : Mem x (ids_of (insert_visit v (remaining_visits agent today vs))) =
          rw (remaining_visits, chosen) at m in
        ∥∥₁_elim
          (mem-cons.0
            ((Perm.mem_iff (insert_visit-perm v (remaining_visits agent today vs))).0 inserted))
          (hlevel)
          (λ c. elim c [
            | inl e ↦ subst (λ y. Mem y (ids_of (v ∷ vs))) (sym e) mem-cons_self
            | inr in_rest ↦ mem-cons_of_mem v.id (mem-remaining_visits x vs in_rest)
          ])
    | inr passed ↦
        mem-cons_of_mem v.id (mem-remaining_visits x vs (rw (remaining_visits, passed) at m))
  ]

  pub remaining_visits-AreDistinct :
      (vs : List VisitPlan) → AreDistinct vs → AreDistinct (remaining_visits agent today vs)
  unfolding remaining_visits
  remaining_visits-AreDistinct [] h = h
  remaining_visits-AreDistinct (v ∷ vs) h = elim (Bool-cases (is_selected agent today v)) [
    | inl chosen ↦
        rw (remaining_visits, chosen)
          ((Perm.Nodup-iff (insert_visit-perm v (remaining_visits agent today vs))).1 (
            Nodup-cons.1 (
              (λ m. (Nodup-cons.0 h).0 (mem-remaining_visits v.id vs m)),
              remaining_visits-AreDistinct vs (Nodup-cons.0 h).1,
            )))
    | inr passed ↦
        rw (remaining_visits, passed) (remaining_visits-AreDistinct vs (Nodup-cons.0 h).1)
  ]

module _ (distance : Place → Place → ℕ) (solve_tsp : List Place → Option (List ℕ)) where
  -- With a client at each remaining visit, an order that names each place once becomes an order of
  -- the remaining visits, and the database counts them from 1 in this order.
  pub apply_visit_order-Numbered :
      (agent today : ℕ) (here : Place) (reason : Reason) (order : List ℕ) (s : Service)
      → AreDistinct s.visits
      → HaveClients (remaining_visits agent today s.visits)
      → Perm order (range 1 (length (remaining_visits agent today s.visits)))
      → (Perm
          (apply_visit_order distance solve_tsp agent here
            (remaining_visits agent today s.visits)
            reason
            order
            s).1.new_route_order
          (ids_of (remaining_visits agent today s.visits)))
        × Numbered 1
            (apply_visit_order distance solve_tsp agent here
              (remaining_visits agent today s.visits)
              reason
              order
              s).1.new_route_order
            (apply_visit_order distance solve_tsp agent here
              (remaining_visits agent today s.visits)
              reason
              order
              s).0.visits
  unfolding apply_visit_order
  apply_visit_order-Numbered agent today here reason order s distinct clients p =
      let remaining = remaining_visits agent today s.visits in
      let entry = visit_map remaining in
      let all = collected-visit_map remaining order clients p in
      let same = renumber_visits-collected entry 1 order s.visits in
      let nodup : Nodup (collected entry order) =
        (Perm.Nodup-iff all).1 (remaining_visits-AreDistinct agent today s.visits distinct) in
      let known : AreKnown (collected entry order) s.visits =
        mem-AreKnown (collected entry order) s.visits
          (λ x m. mem-remaining_visits agent today x s.visits ((Perm.mem_iff all).0 m)) in
      (
        subst (λ l. Perm l (ids_of remaining)) (sym same) all,
        subst (λ l. Numbered 1 l (renumber_visits entry 1 order s.visits).0) (sym same)
            (renumber_visits-Numbered entry 1 order s.visits
              (λ i m.
                range_total entry 1 remaining i (λ k v e. counted remaining k v clients e)
                  ((Perm.mem_iff p).0 m))
              nodup known),
      )
