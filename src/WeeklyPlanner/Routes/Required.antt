-- ===== src/WeeklyPlanner/Routes/Required.antt =====
-- The visits that the clients of a week require, against those that are planned for it.
use mathlib.Core.Logic.{∥∥₁_elim}
use mathlib.Core.List.{
  Mem, mem-cons, mem-cons_self, mem-cons_of_mem, mem-map_of_mem, Nodup, Nodup-cons, not-mem-nil,
}
use sfa_routing.Prelude.{
  ℕ, suc, ◌+◌, ◌≤◌, ◌<◌, ◌≡◌, refl, sym, subst, true, false, List, [], ◌∷◌, map, arith, inl, inr,
  ltb, ◌==◌, if◌then◌else◌, Bool-cases, length,
}
use sfa_routing.Problem.{ClientCategory, a, b, c}
use sfa_routing.WeeklyPlanner.{
  Client, required_visits, calculate_required_visits, visits_of, clients_to_visit,
}
use sfa_routing.WeeklyPlanner.Assignment.{a_class_clients, is_a_class}
use sfa_routing.WeeklyPlanner.Routes.{sum_required}

-- The identifiers of the clients are distinct.
abbrev pub HaveIds : List Client → Type 0
HaveIds clients = Nodup (map (λ (x : Client). x.id) clients)

module _ (week_number : ℕ) where
  abbrev pub Requires : List (ℕ × ℕ) → Client → Type 0
  Requires needed x = visits_of x.id needed ≡ required_visits week_number x.category

  other_client :
      (y x : Client) (clients : List Client)
      → ¬ Mem y.id (map (λ (x : Client). x.id) clients)
      → Mem x clients
      → (y.id == x.id) ≡ false
  other_client y x clients fresh m = elim (Bool-cases (y.id == x.id)) [
    | inl same ↦
        let e : x.id ≡ y.id = ground arith in
        absurd (
          fresh (
            subst (λ k. Mem k (map (λ (x : Client). x.id) clients)) e
              (mem-map_of_mem (λ (x : Client). x.id) m)))
    | inr other ↦ other
  ]

  pub calculate_required_visits-Requires :
      (x : Client) (clients : List Client)
      → HaveIds clients
      → Mem x clients
      → Requires (calculate_required_visits week_number clients) x
  unfolding calculate_required_visits visits_of
  calculate_required_visits-Requires x [] h m = absurd (not-mem-nil m)
  calculate_required_visits-Requires x (y ∷ ys) h m = ∥∥₁_elim (mem-cons.0 m) (hlevel) (λ c.
      elim c [
        | inl e ↦
            let itself : (y.id == y.id) ≡ true = ground arith in
            subst (λ z. Requires (calculate_required_visits week_number (y ∷ ys)) z) (sym e)
              (rw (itself, visits_of) refl)
        | inr in_rest ↦
            let apart = other_client y x ys (Nodup-cons.0 h).0 in_rest in
            rw (apart, visits_of)
              (calculate_required_visits-Requires x ys (Nodup-cons.0 h).1 in_rest)
      ])

  required_visits-class :
      (k : ClientCategory)
      → 0 < required_visits week_number k
      → suc (if is_a_class k then 1 else 0) ≤ required_visits week_number k
  unfolding required_visits
  required_visits-class a h = omega arith
  required_visits-class b h = omega arith
  required_visits-class c h = omega (arith, h)

  -- First and second visits of the clients that need any are at most the required ones.
  pub visits-sum_required :
      (needed : List (ℕ × ℕ)) (clients : List Client)
      → ((x : Client) → Mem x clients → Requires needed x)
      → length (clients_to_visit needed clients)
          + length (a_class_clients (clients_to_visit needed clients))
        ≤ sum_required (calculate_required_visits week_number clients)
  unfolding clients_to_visit calculate_required_visits a_class_clients sum_required
  visits-sum_required needed [] h = omega arith
  visits-sum_required needed (x ∷ xs) h =
      let rest = visits-sum_required needed xs (λ y m. h y (mem-cons_of_mem x m)) in
      let this = h x mem-cons_self in
      elim (Bool-cases (ltb 0 (visits_of x.id needed))) [
        | inl wanted ↦
            let some_visit : 0 < required_visits week_number x.category = ground arith in
            let points = required_visits-class x.category some_visit in
            elim (Bool-cases (is_a_class x.category)) [
              | inl twice ↦
                  let two = rw twice at points in
                  rw (wanted, clients_to_visit, a_class_clients, twice) (omega (arith, rest, two))
              | inr once ↦
                  let one = rw once at points in
                  rw (wanted, clients_to_visit, a_class_clients, once) (omega (arith, rest, one))
            ]
        | inr unwanted ↦ rw (unwanted, clients_to_visit) (omega (arith, rest))
      ]
