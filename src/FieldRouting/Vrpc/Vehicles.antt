-- ===== src/FieldRouting/Vrpc/Vehicles.antt =====
-- `_solve_greedy`: the vehicles one after the other, and the answer.
use mathlib.Core.List.Perm
use mathlib.Core.List.{append_assoc, append-nil}
use sfa_routing.Prelude.{
  ℕ, ◌+◌, ◌<◌, ◌≡◌, sym, ap, ◌∙◌, Option, List, [], ◌∷◌, ◌++◌, inl, inr, Perm, arith, Bool-cases,
  length, All, ◌==◌,
}
use sfa_routing.Prelude.Perms.{sum_by, All-perm}
use sfa_routing.FieldRouting.{VrpcVehicle, VrpcLoop}
use sfa_routing.FieldRouting.Vrpc.{Fleet, serve_vehicle, serve_vehicles}
use sfa_routing.FieldRouting.Vrpc.Loops.{IsServable, All-short}
use sfa_routing.FieldRouting.Vrpc.Drives.{
  all_points, distance_of, duration_of, IsRound, drive_loops-IsDone,
}

abbrev pub fleet_points : List (List VrpcLoop) → List ℕ
fleet_points [] = []
fleet_points (ls ∷ rest) = all_points ls ++ fleet_points rest

abbrev pub fleet_sum : (VrpcLoop → ℕ) → List (List VrpcLoop) → ℕ
fleet_sum f routes = sum_by (sum_by f) routes

pub All-append_right : (P : ℕ → Type 0) (xs ys : List ℕ) → All P (xs ++ ys) → All P ys
All-append_right P [] ys h = h
All-append_right P (x ∷ xs) ys h = All-append_right P xs ys h.1

module _ (distances durations : ℕ → ℕ → ℕ) (weight : ℕ → ℕ) (limit : Option ℕ) where
  -- The vehicles in their order carry the loops at their place; the last ones may stay at home.
  abbrev pub AreCarried : List VrpcVehicle → List (List VrpcLoop) → Type 0
  AreCarried vs [] = Unit {0}
  AreCarried [] (ls ∷ rest) = ⊥
  AreCarried (v ∷ vs) (ls ∷ rest) =
      All (IsRound distances durations weight limit v.capacity) ls × AreCarried vs rest

  abbrev pub IsUnservable : List VrpcVehicle → ℕ → Type 0
  IsUnservable vs p = All (λ v. ¬ IsServable distances durations weight limit v.capacity p) vs

  -- What the vehicles do from fleet state `f` on.
  pub record AreServed (vs : List VrpcVehicle) (f g : Fleet) : Type 0 where
    pub new : List (List VrpcLoop)
    pub routes : g.vehicle_routes ≡ f.vehicle_routes ++ new
    pub carried : AreCarried vs new
    pub perm : Perm (fleet_points new ++ g.unassigned) f.unassigned
    pub left : All (λ p. 0 < p) g.unassigned
    pub distance : g.total_distance ≡ f.total_distance + fleet_sum distance_of new
    pub duration : g.total_duration ≡ f.total_duration + fleet_sum duration_of new
    pub unservable : All (IsUnservable vs) g.unassigned

  -- What one vehicle does.
  record IsServed (v : VrpcVehicle) (f g : Fleet) : Type 0 where
    loops : List VrpcLoop
    routes : g.vehicle_routes ≡ f.vehicle_routes ++ loops ∷ []
    rounds : All (IsRound distances durations weight limit v.capacity) loops
    perm : Perm (all_points loops ++ g.unassigned) f.unassigned
    left : All (λ p. 0 < p) g.unassigned
    distance : g.total_distance ≡ f.total_distance + sum_by distance_of loops
    duration : g.total_duration ≡ f.total_duration + sum_by duration_of loops
    unservable : All (λ p. ¬ IsServable distances durations weight limit v.capacity p) g.unassigned

  abbrev serve : VrpcVehicle → Fleet → Fleet
  serve = serve_vehicle distances durations weight limit

  serve_vehicle-IsServed :
      (v : VrpcVehicle) (f : Fleet) → All (λ p. 0 < p) f.unassigned → IsServed v f (serve v f)
  unfolding serve_vehicle
  serve_vehicle-IsServed v f h =
      let done =
        drive_loops-IsDone distances durations weight limit (length f.unassigned) v.capacity
          (record {
            loops = [];
            unassigned = f.unassigned;
            total_distance = f.total_distance;
            total_duration = f.total_duration;
          })
          (omega arith) h in
      let d = done.driven in
      record {
        loops = d.new;
        routes = ap (λ l. f.vehicle_routes ++ l ∷ []) d.loops;
        rounds = d.rounds;
        perm = d.perm;
        left = d.left;
        distance = d.distance;
        duration = d.duration;
        unservable = done.none_servable;
      }

  both-IsUnservable :
      (v : VrpcVehicle) (vs : List VrpcVehicle) (ps : List ℕ)
      → All (λ p. ¬ IsServable distances durations weight limit v.capacity p) ps
      → All (IsUnservable vs) ps
      → All (IsUnservable (v ∷ vs)) ps
  both-IsUnservable v vs [] h k = tt
  both-IsUnservable v vs (p ∷ ps) h k = ((h.0, k.0), both-IsUnservable v vs ps h.1 k.1)

  -- A point that is left at the end was left all the time.
  still_unservable :
      (v : VrpcVehicle) (done left before : List ℕ)
      → Perm (done ++ left) before
      → All (λ p. ¬ IsServable distances durations weight limit v.capacity p) before
      → All (λ p. ¬ IsServable distances durations weight limit v.capacity p) left
  still_unservable v done left before p h =
      All-append_right _ done left (All-perm _ (λ x. hlevel) (Perm.symm p) h)

  -- The first vehicle serves, and then the others do.
  AreServed-cons :
      (v : VrpcVehicle) (vs : List VrpcVehicle) (f g k : Fleet)
      → IsServed v f g
      → AreServed vs g k
      → AreServed (v ∷ vs) f k
  AreServed-cons v vs f g k a b = record {
    new = a.loops ∷ b.new;
    routes =
        b.routes
        ∙ (ap (λ l. l ++ b.new) a.routes ∙ append_assoc f.vehicle_routes (a.loops ∷ []) b.new);
    carried = (a.rounds, b.carried);
    perm =
        rw (append_assoc (all_points a.loops))
          (Perm.trans (Perm.append_left (all_points a.loops) b.perm) a.perm);
    left = b.left;
    distance = omega (arith, a.distance, b.distance);
    duration = omega (arith, a.duration, b.duration);
    unservable =
        both-IsUnservable v vs k.unassigned
          (still_unservable v (fleet_points b.new) k.unassigned g.unassigned b.perm a.unservable)
          b.unservable;
  }

  -- If nothing is left, the other vehicles stay at home.
  AreServed-rest :
      (vs : List VrpcVehicle) (f : Fleet)
      → All (λ p. 0 < p) f.unassigned
      → All (IsUnservable vs) f.unassigned
      → AreServed vs f f
  AreServed-rest vs f h unservable = record {
    new = [];
    routes = sym (append-nil f.vehicle_routes);
    carried = tt;
    perm = Perm.refl f.unassigned;
    left = h;
    distance = omega arith;
    duration = omega arith;
    unservable = unservable;
  }

  no_vehicle_serves : (ps : List ℕ) → All (IsUnservable []) ps
  no_vehicle_serves [] = tt
  no_vehicle_serves (p ∷ ps) = (tt, no_vehicle_serves ps)

  pub serve_vehicles-AreServed :
      (vs : List VrpcVehicle) (f : Fleet)
      → All (λ p. 0 < p) f.unassigned
      → AreServed vs f (serve_vehicles distances durations weight limit vs f)
  unfolding serve_vehicles
  serve_vehicles-AreServed [] f h = AreServed-rest [] f h (no_vehicle_serves f.unassigned)
  serve_vehicles-AreServed (v ∷ vs) f h =
      let one = serve_vehicle-IsServed v f h in
      elim (Bool-cases (length (serve v f).unassigned == 0)) [
        | inl finished ↦
            rw (finished, serve_vehicles)
              (AreServed-cons v vs f (serve v f) (serve v f) one (
                AreServed-rest vs (serve v f) one.left
                  (All-short _ (serve v f).unassigned (ground arith))))
        | inr more ↦
            rw (more, serve_vehicles)
              (AreServed-cons v vs f (serve v f) _ one
                (serve_vehicles-AreServed vs (serve v f) one.left))
      ]
