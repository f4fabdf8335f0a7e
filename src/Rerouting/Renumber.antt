-- ===== src/Rerouting/Renumber.antt =====
-- What `renumber_visits` of `ReroutingService` does to a list of visits.
use mathlib.Core.Logic.{∥∥₁_elim}
use mathlib.Core.List.{
  Mem, Nodup, Nodup-cons, mem-cons, mem-cons_self, mem-cons_of_mem, not-mem-nil,
}
use sfa_routing.Prelude.{
  ℕ, suc, ◌≡◌, ◌≢◌, refl, sym, ap, ◌∙◌, subst, false, Option, none, some, List, [], ◌∷◌, map, arith,
  inl, inr, ◌==◌, if◌then◌else◌, Bool-cases, Option-cases,
}
use sfa_routing.Prelude.Picks.{pick, pick-none, pick-some}
use sfa_routing.Rerouting.{VisitPlan, set_sequence, renumber_visits}

abbrev pub ids_of : List VisitPlan → List ℕ
ids_of vs = map (λ (v : VisitPlan). v.id) vs

-- The identifiers of the entries in the order.
abbrev pub collected : (ℕ → Option VisitPlan) → List ℕ → List ℕ
collected entry is = ids_of (pick entry is)

-- The number of the first visit with the identifier.
pub number_of : ℕ → List VisitPlan → Option ℕ
number_of id [] = none
number_of id (v ∷ vs) = if v.id == id then some v.sequence_number else number_of id vs

-- The visits have the numbers from `n` on, in this order.
abbrev pub Numbered : ℕ → List ℕ → List VisitPlan → Type 0
Numbered n [] vs = Unit {0}
Numbered n (id ∷ ids) vs = (number_of id vs ≡ some n) × Numbered (suc n) ids vs

collected-none :
    (entry : ℕ → Option VisitPlan) (i : ℕ) (l : List ℕ)
    → entry i ≡ none
    → collected entry (i ∷ l) ≡ collected entry l
collected-none entry i l e = ap ids_of (pick-none entry i l e)

collected-some :
    (entry : ℕ → Option VisitPlan) (i : ℕ) (l : List ℕ) {v : VisitPlan}
    → entry i ≡ some v
    → collected entry (i ∷ l) ≡ v.id ∷ collected entry l
collected-some entry i l e = ap ids_of (pick-some entry i l e)

pub renumber_visits-collected :
    (entry : ℕ → Option VisitPlan) (n : ℕ) (is : List ℕ) (vs : List VisitPlan)
    → (renumber_visits entry n is vs).1 ≡ collected entry is
unfolding renumber_visits pick
renumber_visits-collected entry n [] vs = refl
renumber_visits-collected entry n (i ∷ is) vs = elim (Option-cases (entry i)) [
  | inl gap ↦
      rw (gap, renumber_visits) (renumber_visits-collected entry (suc n) is vs)
      ∙ sym (collected-none entry i is gap)
  | inr (v, e) ↦
      rw (e, renumber_visits)
        (ap (λ l. v.id ∷ l) (renumber_visits-collected entry (suc n) is (set_sequence v.id n vs)))
      ∙ sym (collected-some entry i is e)
]

number_of-set_sequence :
    (x id n : ℕ) (vs : List VisitPlan)
    → number_of x (set_sequence id n vs) ≡ (
        if id == x
        then (elim (number_of x vs) as (λ o. Option ℕ) [ none ↦ none | some m ↦ some n ])
        else number_of x vs)
unfolding number_of set_sequence
number_of-set_sequence x id n [] = ground arith
number_of-set_sequence x id n (v ∷ vs) = ground (arith, number_of-set_sequence x id n vs)

-- An identifier that is not in the new order keeps its number.
pub renumber_visits-other :
    (entry : ℕ → Option VisitPlan) (x n : ℕ) (is : List ℕ) (vs : List VisitPlan)
    → ¬ Mem x (collected entry is)
    → number_of x (renumber_visits entry n is vs).0 ≡ number_of x vs
unfolding renumber_visits
renumber_visits-other entry x n [] vs out = refl
renumber_visits-other entry x n (i ∷ is) vs out = elim (Option-cases (entry i)) [
  | inl gap ↦
      rw (gap, renumber_visits)
        (renumber_visits-other entry x (suc n) is vs (rw (collected-none entry i is gap) at out))
  | inr (v, e) ↦
      let apart : ¬ Mem x (v.id ∷ collected entry is) = rw (collected-some entry i is e) at out in
      let ne : (v.id == x) ≡ false = elim (Bool-cases (v.id == x)) [
        | inl same ↦
            let at : v.id ≡ x = ground arith in
            absurd (apart (subst (λ y. Mem y (v.id ∷ collected entry is)) at mem-cons_self))
        | inr other ↦ other
      ] in
      rw (e, renumber_visits)
        (renumber_visits-other entry x (suc n) is (set_sequence v.id n vs)
            (λ m. apart (mem-cons_of_mem v.id m))
          ∙ (number_of-set_sequence x v.id n vs ∙ (rw ne refl)))
]

-- The identifiers are in the database.
abbrev pub AreKnown : List ℕ → List VisitPlan → Type 0
AreKnown [] vs = Unit {0}
AreKnown (id ∷ ids) vs = (number_of id vs ≢ none) × AreKnown ids vs

set_sequence-AreKnown :
    (id n : ℕ) (ids : List ℕ) (vs : List VisitPlan)
    → AreKnown ids vs
    → AreKnown ids (set_sequence id n vs)
set_sequence-AreKnown id n [] vs h = tt
set_sequence-AreKnown id n (x ∷ xs) vs h = (
  (λ e. ground (arith, h.0, number_of-set_sequence x id n vs)),
  set_sequence-AreKnown id n xs vs h.1,
)

set_sequence_self :
    (id n : ℕ) (vs : List VisitPlan)
    → number_of id vs ≢ none
    → number_of id (set_sequence id n vs) ≡ some n
set_sequence_self id n vs h = elim (Option-cases (number_of id vs)) [
  | inl lost ↦ absurd (h lost)
  | inr (m, e) ↦ ground (arith, e, number_of-set_sequence id id n vs)
]

-- The new numbers follow the new order.
pub renumber_visits-Numbered :
    (entry : ℕ → Option VisitPlan) (n : ℕ) (is : List ℕ) (vs : List VisitPlan)
    → ((i : ℕ) → Mem i is → entry i ≢ none)
    → Nodup (collected entry is)
    → AreKnown (collected entry is) vs
    → Numbered n (collected entry is) (renumber_visits entry n is vs).0
unfolding renumber_visits pick
renumber_visits-Numbered entry n [] vs total distinct known = tt
renumber_visits-Numbered entry n (i ∷ is) vs total distinct known = elim (Option-cases (entry i)) [
  | inl gap ↦ absurd (total i mem-cons_self gap)
  | inr (v, e) ↦
      let parts = collected-some entry i is e in
      let after = set_sequence v.id n vs in
      let fresh = Nodup-cons.0 (subst Nodup parts distinct) in
      let here : AreKnown (v.id ∷ collected entry is) vs = subst (λ l. AreKnown l vs) parts known in
      let first : number_of v.id (renumber_visits entry (suc n) is after).0 ≡ some n =
        renumber_visits-other entry v.id (suc n) is after (fresh.0)
        ∙ set_sequence_self v.id n vs here.0 in
      let rest =
        renumber_visits-Numbered entry (suc n) is after (λ k m. total k (mem-cons_of_mem i m))
          (fresh.1) (set_sequence-AreKnown v.id n (collected entry is) vs here.1) in
      subst (λ l. Numbered n l (renumber_visits entry n (i ∷ is) vs).0) (sym parts)
        (rw (e, renumber_visits) (first, rest))
]

-- The identifiers of the visits behind an offset, if all of them have clients.
abbrev pub HaveClients : List VisitPlan → Type 0
HaveClients [] = Unit {0}
HaveClients (v ∷ vs) = (v.client ≢ none) × HaveClients vs

mem-number_of : (x : ℕ) (vs : List VisitPlan) → Mem x (ids_of vs) → number_of x vs ≢ none
unfolding number_of
mem-number_of x [] m e = absurd (not-mem-nil m)
mem-number_of x (v ∷ vs) m e = elim (Bool-cases (v.id == x)) [
  | inl same ↦ ground (arith, number_of)
  | inr other ↦ ∥∥₁_elim (mem-cons.0 m) (hlevel) (λ c. elim c [
    | inl here ↦ ground arith
    | inr in_rest ↦ mem-number_of x vs in_rest (ground (arith, number_of))
  ])
]

pub mem-AreKnown :
    (ids : List ℕ) (vs : List VisitPlan)
    → ((x : ℕ) → Mem x ids → Mem x (ids_of vs))
    → AreKnown ids vs
mem-AreKnown [] vs h = tt
mem-AreKnown (id ∷ ids) vs h = (
  mem-number_of id vs (h id mem-cons_self),
  mem-AreKnown ids vs (λ x m. h x (mem-cons_of_mem id m)),
)
