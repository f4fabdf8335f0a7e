-- ===== src/Greedy/Remaining.antt =====
-- The jobs that are left over: `unassigned_from` when one more job is taken.
use mathlib.Core.List.Perm
use sfa_routing.Prelude.{
  ℕ, zero, suc, ◌+◌, ◌<◌, ◌≡◌, ◌≢◌, refl, ◌∙◌, true, false, some, List, [], ◌∷◌, Perm, arith,
  get_elem?, inl, inr, Bool-cases,
}
use sfa_routing.Problem.{Job}
use sfa_routing.Greedy.{contains, unassigned_from}

pub contains-cons_self : (m i : ℕ) (taken : List ℕ) → m ≡ i → contains (m ∷ taken) i ≡ true
unfolding contains
contains-cons_self m i taken e = ground arith

pub contains-cons_ne :
    (m i : ℕ) (taken : List ℕ) → m ≢ i → contains (m ∷ taken) i ≡ contains taken i
unfolding contains
contains-cons_ne m i taken e = ground arith

module _ (taken : List ℕ) (i : ℕ) (j : Job) (js : List Job) where
  pub unassigned-taken :
      contains taken i ≡ true → unassigned_from taken i (j ∷ js) ≡ unassigned_from taken (suc i) js
  unfolding unassigned_from
  unassigned-taken h = rw h

  pub unassigned-free :
      contains taken i ≡ false
      → unassigned_from taken i (j ∷ js) ≡ j.id ∷ unassigned_from taken (suc i) js
  unfolding unassigned_from
  unassigned-free h = rw h

-- An index in front of the suffix does not matter to it.
unassigned-below :
    (taken : List ℕ) (m i : ℕ) (js : List Job)
    → m < i
    → unassigned_from (m ∷ taken) i js ≡ unassigned_from taken i js
unfolding unassigned_from contains
unassigned-below taken m i [] h = refl
unassigned-below taken m i (j ∷ js) h = ground (arith, unassigned-below taken m (suc i) js)

-- Taking the free job at index `m` takes its identifier, and no other, from the list.
pub unassigned-take-perm :
    (taken : List ℕ) (m i offset : ℕ) (js : List Job) (job : Job)
    → m ≡ i + offset
    → get_elem? js offset ≡ some job
    → contains taken m ≡ false
    → Perm (job.id ∷ unassigned_from (m ∷ taken) i js) (unassigned_from taken i js)
unassigned-take-perm taken m i offset [] job e at free = cc
unassigned-take-perm taken m i zero (j ∷ js) job e at free =
    let here : m ≡ i = omega arith in
    let same : j ≡ job = cc in
    rw
      (
        unassigned-taken (m ∷ taken) i j js (contains-cons_self m i taken here),
        unassigned-below taken m (suc i) js (omega arith),
        unassigned-free taken i j js (rw (← here) free),
        same,
      )
      (Perm.refl (job.id ∷ unassigned_from taken (suc i) js))
unassigned-take-perm taken m i (suc offset) (j ∷ js) job e at free =
    let other = contains-cons_ne m i taken (omega arith) in
    let ih = unassigned-take-perm taken m (suc i) offset js job (omega arith) at free in
    elim (Bool-cases (contains taken i)) [
      | inl held ↦
          rw
            (unassigned-taken (m ∷ taken) i j js (other ∙ held), unassigned-taken taken i j js held)
            ih
      | inr open_ ↦
          rw
            (unassigned-free (m ∷ taken) i j js (other ∙ open_), unassigned-free taken i j js open_)
            (Perm.trans (Perm.swap j.id job.id _) (Perm.cons j.id ih))
    ]
