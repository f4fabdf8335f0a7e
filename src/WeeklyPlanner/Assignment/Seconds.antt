-- ===== src/WeeklyPlanner/Assignment/Seconds.antt =====
-- The second visits of `assign_to_days`.
use mathlib.Core.List.Perm
use mathlib.Core.List.{Sublistᴰ, perm_middle}
use sfa_routing.Prelude.{
  ℕ, zero, suc, ◌-◌, ◌≤◌, ◌<◌, ◌≡◌, refl, sym, ap, ◌∙◌, subst, true, some, List, [], ◌∷◌, ◌++◌, ◌⊎◌,
  Perm, arith, inl, inr, ◌==◌, Bool-cases, Option-cases, length, get_or, range, All,
}
use sfa_routing.WeeklyPlanner.{Client}
use sfa_routing.WeeklyPlanner.Assignment.{
  Days, load, least, append_to, has_client, first_visit_day, apart, is_candidate,
  second_day_candidates, append_least, second_visit, second_visits,
}
use sfa_routing.WeeklyPlanner.Assignment.Placing.{
  all_visits, append_to-perm, length-append_to, least-All, All-range,
}
use sfa_routing.WeeklyPlanner.Assignment.Bounds.{Fits, append_to-Fits}

-- The day has a visit to the client.
abbrev pub Visits : Days → ℕ → ℕ → Type 0
Visits days d id = has_client id (get_or days d []) ≡ true

-- Two days that are at least two days apart have a visit to the client.
pub record Twice (days : Days) (id : ℕ) : Type 0 where
  pub first : ℕ
  pub second : ℕ
  pub distant : apart second first ≡ true
  pub at_first : Visits days first id
  pub at_second : Visits days second id

has_client-append :
    (id : ℕ) (day : List Client) (x : Client)
    → has_client id day ≡ true
    → has_client id (day ++ x ∷ []) ≡ true
unfolding has_client
has_client-append id [] x h = ground arith
has_client-append id (y ∷ ys) x h = elim (Bool-cases (y.id == id)) [
  | inl same ↦ rw same refl
  | inr other ↦ rw other (has_client-append id ys x (rw other at h))
]

has_client_last : (day : List Client) (x : Client) → has_client x.id (day ++ x ∷ []) ≡ true
unfolding has_client
has_client_last [] x = ground arith
has_client_last (y ∷ ys) x = ground (arith, has_client_last ys x)

Visits-append_to :
    (days : Days) (d e : ℕ) (id : ℕ) (x : Client)
    → Visits days d id
    → Visits (append_to days e x) d id
unfolding has_client
Visits-append_to [] d e id x h = h
Visits-append_to (day ∷ days) zero zero id x h = has_client-append id day x h
Visits-append_to (day ∷ days) zero (suc e) id x h = h
Visits-append_to (day ∷ days) (suc d) zero id x h = h
Visits-append_to (day ∷ days) (suc d) (suc e) id x h = Visits-append_to days d e id x h

Visits-append_to_self :
    (days : Days) (d : ℕ) (x : Client) → d < length days → Visits (append_to days d x) d x.id
Visits-append_to_self [] d x h = absurd (omega (arith, h))
Visits-append_to_self (day ∷ days) zero x h = has_client_last day x
Visits-append_to_self (day ∷ days) (suc d) x h = Visits-append_to_self days d x (omega (arith, h))

first_visit_day-Visits :
    (id : ℕ) (k : ℕ) (days : Days) (d : ℕ)
    → first_visit_day id k days ≡ some d
    → (k ≤ d) × Visits days (d - k) id
unfolding first_visit_day
first_visit_day-Visits id k [] d h = ground arith
first_visit_day-Visits id k (day ∷ days) d h = elim (Bool-cases (has_client id day)) [
  | inl here ↦
      let at : some k ≡ some d = rw here at h in
      let same : k ≡ d = cc at in
      let none_between : d - k ≡ 0 = omega (arith, same) in
      (omega (arith, same), subst (λ j. Visits (day ∷ days) j id) (sym none_between) here)
  | inr later ↦
      let rest = first_visit_day-Visits id (suc k) days d (rw later at h) in
      let shift : d - k ≡ suc (d - suc k) = omega (arith, rest.0) in
      (omega (arith, rest.0), subst (λ j. Visits (day ∷ days) j id) (sym shift) rest.1)
]

-- The day of a second visit.
abbrev IsFree : ℕ → ℕ → Days → ℕ → Type 0
IsFree m first days d = (d < length days) × (load days d < m) × (apart d first ≡ true)

append_least-IsFree :
    (m first : ℕ) (client : Client) (days : Days) (ds : List ℕ)
    → All (IsFree m first days) ds
    → (append_least client days ds ≡ days)
      ⊎ ((d : ℕ) × IsFree m first days d × (append_least client days ds ≡ append_to days d client))
append_least-IsFree m first client days [] h = inl refl
append_least-IsFree m first client days (d ∷ ds) h =
    inr (least (load days) d ds, least-All (IsFree m first days) (load days) d ds h.0 h.1, refl)

candidates-IsFree :
    (m first : ℕ) (days : Days) (ds : List ℕ)
    → All (λ d. d < length days) ds
    → All (IsFree m first days) (second_day_candidates m first days ds)
unfolding second_day_candidates
candidates-IsFree m first days [] h = tt
candidates-IsFree m first days (d ∷ ds) h = elim (Bool-cases (is_candidate m first days d)) [
  | inl good ↦ rw good ((h.0, ground arith, ground arith), candidates-IsFree m first days ds h.1)
  | inr bad ↦ rw bad (candidates-IsFree m first days ds h.1)
]

-- What the second visit of a client changes.
pub second_visit-step :
    (m : ℕ) (days : Days) (client : Client)
    → (second_visit (length days) m days client ≡ days)
      ⊎ ((d first : ℕ) × IsFree m first days d
          × Visits days first client.id
          × (second_visit (length days) m days client ≡ append_to days d client))
unfolding second_visit
second_visit-step m days client = elim (Option-cases (first_visit_day client.id 0 days)) [
  | inl none_yet ↦ inl (rw (none_yet, second_visit) refl)
  | inr (first, e) ↦
      let found = first_visit_day-Visits client.id 0 days first e in
      let none_less : first - 0 ≡ first = omega arith in
      let here = subst (λ k. Visits days k client.id) none_less found.1 in
      let ds = second_day_candidates m first days (range 0 (length days)) in
      let run : second_visit (length days) m days client ≡ append_least client days ds =
        rw (e, second_visit) refl in
      let in_week = All-range 0 (length days) (length days) (omega arith) in
      let free = candidates-IsFree m first days (range 0 (length days)) in_week in
      elim (append_least-IsFree m first client days ds free) [
        | inl same ↦ inl (run ∙ same)
        | inr (d, good, at) ↦ inr (d, first, good, here, run ∙ at)
      ]
]

-- What the second visits add to a week.
pub record IsExtended (m : ℕ) (clients : List Client) (days after : Days) : Type 0 where
  pub extra : List Client
  pub perm : Perm (all_visits after) (extra ++ all_visits days)
  pub chosen : Sublistᴰ extra clients
  pub twice : All (λ (x : Client). Twice after x.id) extra
  pub size : length after ≡ length days
  pub fits : Fits m days → Fits m after
  pub keeps : (d id : ℕ) → Visits days d id → Visits after d id

pub second_visits-IsExtended :
    (m : ℕ) (clients : List Client) (days : Days)
    → IsExtended m clients days (second_visits (length days) m clients days)
unfolding second_visits
second_visits-IsExtended m [] days = record {
  extra = [];
  perm = Perm.refl (all_visits days);
  chosen = Sublistᴰ.slnil;
  twice = tt;
  size = refl;
  fits = λ h. h;
  keeps = λ d id h. h;
}
second_visits-IsExtended m (x ∷ xs) days =
    let next = second_visit (length days) m days x in
    elim (second_visit-step m days x) [
      | inl same ↦
          let rest = second_visits-IsExtended m xs days in
          let start : second_visits (length days) m (x ∷ xs) days
              ≡ second_visits (length days) m xs days =
            ap (λ w. second_visits (length days) m xs w) same in
          subst (λ w. IsExtended m (x ∷ xs) days w) (sym start)
            (record {
              extra = rest.extra;
              perm = rest.perm;
              chosen = Sublistᴰ.cons rest.chosen;
              twice = rest.twice;
              size = rest.size;
              fits = rest.fits;
              keeps = rest.keeps;
            })
      | inr (d, first, (in_week, free, distant), here, at) ↦
          let now = append_to days d x in
          let size : length now ≡ length days = length-append_to days d x in
          let rest = second_visits-IsExtended m xs now in
          let start : second_visits (length now) m xs now
              ≡ second_visits (length days) m (x ∷ xs) days =
            ap (λ n. second_visits n m xs now) size
            ∙ ap (λ w. second_visits (length days) m xs w) (sym at) in
          subst (λ w. IsExtended m (x ∷ xs) days w) start
            (record {
              extra = x ∷ rest.extra;
              perm = Perm.trans rest.perm (
                  Perm.trans (Perm.append_left rest.extra (append_to-perm days d x in_week))
                    (perm_middle rest.extra (all_visits days)));
              chosen = Sublistᴰ.cons-cons refl rest.chosen;
              twice = (
                record {
                  first = first;
                  second = d;
                  distant = distant;
                  at_first = rest.keeps first x.id (Visits-append_to days first d x.id x here);
                  at_second = rest.keeps d x.id (Visits-append_to_self days d x in_week);
                },
                rest.twice,
              );
              size = rest.size ∙ size;
              fits = λ h. rest.fits (append_to-Fits m days d x h free);
              keeps = λ e id h. rest.keeps e id (Visits-append_to days e d id x h);
            })
    ]
