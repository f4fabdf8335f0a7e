-- ===== src/Genetic/Assigning.antt =====
-- One job of `_split_into_routes`: the vehicle that takes it.
use sfa_routing.Prelude.{
  ℕ, ◌+◌, ◌≤◌, ◌<◌, ◌≡◌, refl, sym, ap, ◌∙◌, subst, true, false, none, some, List, [], ◌∷◌, ◌++◌,
  arith, ltb, ◌==◌, if◌then◌else◌, inl, inr, ◌⊎◌, Bool-cases,
}
use sfa_routing.Genetic.{
  Slot, fits, load_slot, first_fit, min_load, load_first, least_loaded, assign_job,
}

-- No vehicle has room for the demand.
abbrev pub NoRoom : ℕ → List Slot → Type 0
NoRoom demand [] = Unit {0}
NoRoom demand (s ∷ ss) = (fits (s.load + demand) s.capacity ≡ false) × NoRoom demand ss

abbrev pub AtLeast : ℕ → List Slot → Type 0
AtLeast m [] = Unit {0}
AtLeast m (s ∷ ss) = (m ≤ s.load) × AtLeast m ss

abbrev pub Above : ℕ → List Slot → Type 0
Above m [] = Unit {0}
Above m (s ∷ ss) = (m < s.load) × Above m ss

-- The vehicle `slot` between `before` and `rest` takes the job, and the others stay as they are.
pub record Loads (job demand : ℕ) (slots after : List Slot) : Type 0 where
  pub before : List Slot
  pub slot : Slot
  pub rest : List Slot
  pub parts : slots ≡ before ++ slot ∷ rest
  pub loaded : after ≡ before ++ load_slot job demand slot ∷ rest

-- The first vehicle with room takes the job; if none has room, the first of the least loaded does.
pub data Assigned (job demand : ℕ) (slots after : List Slot) : Type 0 where
  fitted :
      (l : Loads job demand slots after)
      → NoRoom demand l.before
      → fits (l.slot.load + demand) l.slot.capacity ≡ true
      → Assigned job demand slots after
  overflow :
      (l : Loads job demand slots after)
      → NoRoom demand slots
      → AtLeast l.slot.load slots
      → Above l.slot.load l.before
      → Assigned job demand slots after

loads_here :
    (job demand : ℕ) (s : Slot) (ss : List Slot)
    → Loads job demand (s ∷ ss) (load_slot job demand s ∷ ss)
loads_here job demand s ss = record {
  before = [];
  slot = s;
  rest = ss;
  parts = refl;
  loaded = refl;
}

loads_later :
    (job demand : ℕ) (s : Slot) {ss after : List Slot}
    → Loads job demand ss after
    → Loads job demand (s ∷ ss) (s ∷ after)
loads_later job demand s l = record {
  before = s ∷ l.before;
  slot = l.slot;
  rest = l.rest;
  parts = ap (λ t. s ∷ t) (l.parts);
  loaded = ap (λ t. s ∷ t) (l.loaded);
}

module _ (job demand : ℕ) where
  -- What the search for room finds, and that it finds nothing only if there is no room.
  first_fit-cases :
      (slots : List Slot)
      → ((first_fit job demand slots ≡ none) × NoRoom demand slots)
        ⊎ ((after : List Slot) × (first_fit job demand slots ≡ some after)
            × (l : Loads job demand slots after) × NoRoom demand l.before
            × (fits (l.slot.load + demand) l.slot.capacity ≡ true))
  unfolding first_fit loads_here loads_later
  first_fit-cases [] = inl (refl, tt)
  first_fit-cases (s ∷ ss) = elim (Bool-cases (fits (s.load + demand) s.capacity)) [
    | inl room ↦ inr (load_slot job demand s ∷ ss, rw room, loads_here job demand s ss, tt, room)
    | inr full ↦ elim (first_fit-cases ss) [
      | inl (e, h) ↦ inl (rw (full, e), (full, h))
      | inr (after, e, l, h, room) ↦
          inr (s ∷ after, rw (full, e), loads_later job demand s l, (full, h), room)
    ]
  ]

  abbrev HasLoad : ℕ → List Slot → Type 0
  HasLoad m [] = ⊥
  HasLoad m (s ∷ ss) = (s.load ≡ m) ⊎ HasLoad m ss

  load_first-cases :
      (m : ℕ) (slots : List Slot)
      → HasLoad m slots
      → AtLeast m slots
      → (l : Loads job demand slots (load_first m job demand slots)) × (l.slot.load ≡ m)
        × Above m l.before
  unfolding load_first loads_here loads_later
  load_first-cases m [] h least = absurd h
  load_first-cases m (s ∷ ss) h least = elim (Bool-cases (s.load == m)) [
    | inl here ↦ rw here (loads_here job demand s ss, ground arith, tt)
    | inr away ↦ elim h [
      | inl e ↦ absurd (ground arith)
      | inr found ↦
          let (l, e, above) = load_first-cases m ss found (least.1) in
          rw away (loads_later job demand s l, e, (ground arith, above))
    ]
  ]

  min_load-le : (m : ℕ) (ss : List Slot) → min_load m ss ≤ m
  unfolding min_load
  min_load-le m [] = omega arith
  min_load-le m (s ∷ ss) = ground (arith, min_load-le (if ltb s.load m then s.load else m) ss)

  AtLeast-mono : (m n : ℕ) (ss : List Slot) → n ≤ m → AtLeast m ss → AtLeast n ss
  AtLeast-mono m n [] h a = tt
  AtLeast-mono m n (s ∷ ss) h a = (omega arith, AtLeast-mono m n ss h (a.1))

  min_load-AtLeast : (m : ℕ) (ss : List Slot) → AtLeast (min_load m ss) ss
  unfolding min_load
  min_load-AtLeast m [] = tt
  min_load-AtLeast m (s ∷ ss) =
      let next : ℕ = if ltb s.load m then s.load else m in
      (ground (arith, min_load-le next ss), min_load-AtLeast next ss)

  min_load-HasLoad : (m : ℕ) (ss : List Slot) → (min_load m ss ≡ m) ⊎ HasLoad (min_load m ss) ss
  unfolding min_load
  min_load-HasLoad m [] = inl refl
  min_load-HasLoad m (s ∷ ss) =
      let next : ℕ = if ltb s.load m then s.load else m in
      elim (min_load-HasLoad next ss) [
        | inr h ↦ inr (inr h)
        | inl e ↦ elim (Bool-cases (ltb s.load m)) [
          | inl less ↦ inr (inl (sym (e ∙ ap (λ b. if b then s.load else m) less)))
          | inr more ↦ inl (e ∙ ap (λ b. if b then s.load else m) more)
        ]
      ]

  least_loaded-cases :
      (s : Slot) (ss : List Slot)
      → (l : Loads job demand (s ∷ ss) (least_loaded job demand (s ∷ ss))) × AtLeast l.slot.load
          (s ∷ ss)
        × Above l.slot.load l.before
  unfolding least_loaded
  least_loaded-cases s ss =
      let m : ℕ = min_load s.load ss in
      let least : AtLeast m (s ∷ ss) = (min_load-le s.load ss, min_load-AtLeast s.load ss) in
      let found : HasLoad m (s ∷ ss) = elim (min_load-HasLoad s.load ss) [
        | inl e ↦ inl (sym e)
        | inr h ↦ inr h
      ] in
      let (l, e, above) = load_first-cases m (s ∷ ss) found least in
      (
        l,
        subst (λ n. AtLeast n (s ∷ ss)) (sym e) least,
        subst (λ n. Above n l.before) (sym e) above,
      )

  -- With at least one vehicle, the first one with room takes the job; if there is none, the first
  -- of the least loaded ones takes it, and no other vehicle changes.
  pub assign_job-Assigned :
      (s : Slot) (ss : List Slot) → Assigned job demand (s ∷ ss) (assign_job job demand (s ∷ ss))
  unfolding assign_job
  assign_job-Assigned s ss = elim (first_fit-cases (s ∷ ss)) [
    | inr (after, e, l, h, room) ↦ rw (e, assign_job) (fitted l h room)
    | inl (e, h) ↦
        let (l, least, above) = least_loaded-cases s ss in
        rw (e, assign_job) (overflow l h least above)
  ]

pub Assigned-Loads :
    {job demand : ℕ} {slots after : List Slot}
    → Assigned job demand slots after
    → Loads job demand slots after
Assigned-Loads (fitted l h room) = l
Assigned-Loads (overflow l h least above) = l
