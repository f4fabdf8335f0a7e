-- ===== src/FieldRouting/Vrpc/Drives.antt =====
-- The loops of one vehicle in `_solve_greedy`.
use mathlib.Core.List.Perm
use mathlib.Core.List.{append_assoc, append-nil}
use sfa_routing.Prelude.{
  ℕ, zero, suc, ◌+◌, ◌-◌, ◌≤◌, ◌<◌, ◌≡◌, refl, sym, ap, ◌∙◌, false, Option, List, [], ◌∷◌, ◌++◌,
  inl, inr, Perm, arith, Bool-cases, ◌==◌, length, length-map, length-append, All, All-append, map,
}
use sfa_routing.Prelude.Perms.{sum_by, sum_by-append, length-perm}
use sfa_routing.TwoOpt.{way}
use sfa_routing.FieldRouting.{VrpcLoop}
use sfa_routing.FieldRouting.Vrpc.{
  LoopState, Drive, beyond, start_loop, fill_loop, close_loop, drive_loops,
}
use sfa_routing.FieldRouting.Vrpc.Loops.{
  IsLoop, run-IsLoop, IsServable, start_loop-none, way-snoc, All-short,
}

-- The points of a stored loop, counted from 1.
abbrev pub points_of : VrpcLoop → List ℕ
points_of l = map suc l.route

abbrev pub all_points : List VrpcLoop → List ℕ
all_points [] = []
all_points (l ∷ ls) = points_of l ++ all_points ls

abbrev pub distance_of : VrpcLoop → ℕ
distance_of l = l.distance

abbrev pub duration_of : VrpcLoop → ℕ
duration_of l = l.duration

suc-pred : (ps : List ℕ) → All (λ p. 0 < p) ps → map suc (map (λ p. p - 1) ps) ≡ ps
suc-pred [] h = refl
suc-pred (p ∷ ps) h = let e : suc (p - 1) ≡ p = omega (arith, h.0) in rw (e, suc-pred ps h.1)

pub all_points-append :
    (xs ys : List VrpcLoop) → all_points (xs ++ ys) ≡ all_points xs ++ all_points ys
all_points-append [] ys = refl
all_points-append (x ∷ xs) ys =
    rw (all_points-append xs ys) (sym (append_assoc (points_of x) (all_points xs) (all_points ys)))

module _ (distances durations : ℕ → ℕ → ℕ) (weight : ℕ → ℕ) (limit : Option ℕ) where
  -- A loop from the depot and back that the vehicle can carry, within the distance limit.
  pub record IsRound (capacity : ℕ) (l : VrpcLoop) : Type 0 where
    pub load : sum_by weight (points_of l) ≤ capacity
    pub distance : l.distance ≡ way distances 0 (points_of l ++ 0 ∷ [])
    pub duration : l.duration ≡ way durations 0 (points_of l ++ 0 ∷ [])
    pub within : beyond l.distance limit ≡ false
    pub nonempty : 0 < length l.route

  -- What the loops of a vehicle do from state `s` on.
  pub record IsDriven (capacity : ℕ) (s t : Drive) : Type 0 where
    pub new : List VrpcLoop
    pub loops : t.loops ≡ s.loops ++ new
    pub rounds : All (IsRound capacity) new
    pub perm : Perm (all_points new ++ t.unassigned) s.unassigned
    pub left : All (λ p. 0 < p) t.unassigned
    pub distance : t.total_distance ≡ s.total_distance + sum_by distance_of new
    pub duration : t.total_duration ≡ s.total_duration + sum_by duration_of new

  IsDriven-refl : (capacity : ℕ) (s : Drive) → All (λ p. 0 < p) s.unassigned → IsDriven capacity s s
  IsDriven-refl capacity s h = record {
    new = [];
    loops = sym (append-nil s.loops);
    rounds = tt;
    perm = Perm.refl s.unassigned;
    left = h;
    distance = omega arith;
    duration = omega arith;
  }

  IsDriven-trans :
      (capacity : ℕ) (s t u : Drive)
      → IsDriven capacity s t
      → IsDriven capacity t u
      → IsDriven capacity s u
  IsDriven-trans capacity s t u h k = record {
    new = h.new ++ k.new;
    loops = k.loops ∙ (ap (λ l. l ++ k.new) h.loops ∙ append_assoc s.loops h.new k.new);
    rounds = All-append (IsRound capacity) h.new k.new h.rounds k.rounds;
    perm =
        rw (all_points-append h.new k.new, append_assoc (all_points h.new))
          (Perm.trans (Perm.append_left (all_points h.new) k.perm) h.perm);
    left = k.left;
    distance = omega (arith, h.distance, k.distance, sum_by-append {0} distance_of h.new k.new);
    duration = omega (arith, h.duration, k.duration, sum_by-append {0} duration_of h.new k.new);
  }

  abbrev closed : LoopState → Drive → Drive
  closed = close_loop distances durations weight limit

  closed_round :
      (capacity : ℕ) (l : LoopState) (start : List ℕ)
      → IsLoop distances durations weight limit capacity start l
      → 0 < length l.route
      → IsRound capacity (record {
        route = map (λ p. p - 1) l.route;
        distance = l.distance + distances l.current 0;
        duration = l.duration + durations l.current 0;
      })
  closed_round capacity l start h some_point =
      let same = suc-pred l.route h.routed in
      record {
        load = rw same (omega (arith, h.load));
        distance = rw (same, way-snoc distances 0 l.route 0, ← h.ends, ← h.distance) refl;
        duration = rw (same, way-snoc durations 0 l.route 0, ← h.ends, ← h.duration) refl;
        within = elim h.within [
          | inl empty ↦ absurd (omega (arith, ap length empty))
          | inr near ↦ near
        ];
        nonempty = omega (arith, length-map {0, 0} l.route (λ (p : ℕ). p - 1));
      }

  close_loop-IsDriven :
      (capacity : ℕ) (l : LoopState) (s : Drive)
      → IsLoop distances durations weight limit capacity s.unassigned l
      → 0 < length l.route
      → IsDriven capacity s (closed l s)
  unfolding close_loop
  close_loop-IsDriven capacity l s h some_point =
      let same = suc-pred l.route h.routed in
      record {
        new =
            record {
              route = map (λ p. p - 1) l.route;
              distance = l.distance + distances l.current 0;
              duration = l.duration + durations l.current 0;
            }
            ∷ [];
        loops = refl;
        rounds = (closed_round capacity l s.unassigned h some_point, tt);
        perm = rw (same, append-nil) h.perm;
        left = h.left;
        distance = omega arith;
        duration = omega arith;
      }

  abbrev drive : ℕ → ℕ → Drive → Drive
  drive = drive_loops distances durations weight limit

  -- The next loop of the vehicle.
  abbrev next_loop : ℕ → Drive → LoopState
  next_loop capacity s =
      fill_loop distances durations weight limit (length s.unassigned)
        (start_loop capacity s.unassigned)

  pub record IsDone (capacity : ℕ) (s t : Drive) : Type 0 where
    pub driven : IsDriven capacity s t
    pub none_servable :
        All (λ p. ¬ IsServable distances durations weight limit capacity p) t.unassigned

  next_loop-IsLoop :
      (capacity : ℕ) (s : Drive)
      → All (λ p. 0 < p) s.unassigned
      → IsLoop distances durations weight limit capacity s.unassigned (next_loop capacity s)
  next_loop-IsLoop capacity s h =
      run-IsLoop distances durations weight limit (length s.unassigned) capacity s.unassigned h

  fewer_left :
      (capacity : ℕ) (s : Drive)
      → All (λ p. 0 < p) s.unassigned
      → 0 < length (next_loop capacity s).route
      → length (next_loop capacity s).unassigned < length s.unassigned
  fewer_left capacity s h e =
      let l = next_loop capacity s in
      omega (
        arith,
        length-perm ((next_loop-IsLoop capacity s h).perm),
        length-append {0} l.route l.unassigned,
        e,
      )

  empty_of_length : (xs : List ℕ) → length xs ≡ 0 → xs ≡ []
  empty_of_length [] h = refl
  empty_of_length (x ∷ xs) h = absurd (omega arith)

  -- The loops end, and then no point that is left can be served by the vehicle.
  pub drive_loops-IsDone :
      (fuel capacity : ℕ) (s : Drive)
      → length s.unassigned ≤ fuel
      → All (λ p. 0 < p) s.unassigned
      → IsDone capacity s (drive fuel capacity s)
  unfolding drive_loops close_loop
  drive_loops-IsDone zero capacity s enough h = record {
    driven = IsDriven-refl capacity s h;
    none_servable = All-short _ s.unassigned enough;
  }
  drive_loops-IsDone (suc fuel) capacity s enough h = elim (Bool-cases (length s.unassigned == 0)) [
    | inl all_served ↦
        rw (all_served, drive_loops)
          (record {
            driven = IsDriven-refl capacity s h;
            none_servable = All-short _ s.unassigned (ground arith);
          })
    | inr some_left ↦ elim (Bool-cases (length (next_loop capacity s).route == 0)) [
      | inl empty ↦
          rw (some_left, empty, drive_loops)
            (record {
              driven = IsDriven-refl capacity s h;
              none_servable =
                  start_loop-none distances durations weight limit capacity s.unassigned
                    (empty_of_length (next_loop capacity s).route (ground arith));
            })
      | inr full ↦
          let l = next_loop capacity s in
          let some_point : 0 < length l.route = ground arith in
          let loop = next_loop-IsLoop capacity s h in
          let step = close_loop-IsDriven capacity l s loop some_point in
          let done =
            drive_loops-IsDone fuel capacity (closed l s)
              (omega (arith, fewer_left capacity s h some_point)) step.left in
          rw (some_left, full, drive_loops)
            (record {
              driven =
                  IsDriven-trans capacity s (closed l s) (drive fuel capacity (closed l s)) step
                    done.driven;
              none_servable = done.none_servable;
            })
    ]
  ]
