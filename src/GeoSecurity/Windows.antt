-- ===== src/GeoSecurity/Windows.antt =====
-- The windows of `anonymize_trajectory`.
use mathlib.Core.List.Perm
use mathlib.Core.List.{append_assoc}
use sfa_routing.Prelude.{
  ℕ, ◌+◌, ◌-◌, ◌*◌, ◌≤◌, ◌<◌, ◌≡◌, refl, sym, ap, ◌∙◌, subst, Option, List, [], ◌∷◌, ◌++◌, map,
  Perm, arith, inl, inr, leb, Bool-cases, All, All-append,
}
use sfa_routing.GeoSecurity.{
  AnonymizationLevel, Point, Place, Mean, insert_point, sort_points, anonymize_window, cloak,
  start_cloak, anonymize_trajectory,
}

-- The points of a window are in the given time from its first point on.
abbrev pub IsWindow : ℕ → List Point → Type 0
IsWindow seconds [] = 1 ≤ 0
IsWindow seconds (p ∷ ps) = All (λ (q : Point). q.time ≤ p.time + seconds) (p ∷ ps)

abbrev pub first_time : List Point → ℕ
first_time [] = 0
first_time (p ∷ ps) = p.time

-- Each window begins after the time of the one before it.
abbrev pub AreSpaced : ℕ → ℕ → List (List Point) → Type 0
AreSpaced seconds before [] = Unit {0}
AreSpaced seconds before (w ∷ ws) =
    (before + seconds < first_time w) × AreSpaced seconds (first_time w) ws

abbrev pub all_points : List (List Point) → List Point
all_points [] = []
all_points (w ∷ ws) = w ++ all_points ws

insert_point-perm : (p : Point) (qs : List Point) → Perm (insert_point p qs) (p ∷ qs)
unfolding insert_point
insert_point-perm p [] = Perm.refl (p ∷ [])
insert_point-perm p (q ∷ qs) = elim (Bool-cases (leb p.time q.time)) [
  | inl before ↦ rw (insert_point, before) (Perm.refl (p ∷ q ∷ qs))
  | inr after ↦
      rw (insert_point, after)
        (Perm.trans (Perm.cons q (insert_point-perm p qs)) (Perm.swap p q qs))
]

sort_points-perm : (ps : List Point) → Perm (sort_points ps) ps
unfolding sort_points
sort_points-perm [] = Perm.refl []
sort_points-perm (p ∷ ps) =
    Perm.trans (insert_point-perm p (sort_points ps)) (Perm.cons p (sort_points-perm ps))

-- In the order of their times.
unfoldable pub AreOrdered : List Point → Type 0
AreOrdered [] = Unit {0}
AreOrdered (p ∷ ps) = All (λ (q : Point). p.time ≤ q.time) ps × AreOrdered ps

All-later :
    (m n : ℕ) (ps : List Point)
    → m ≤ n
    → All (λ (q : Point). n ≤ q.time) ps
    → All (λ (q : Point). m ≤ q.time) ps
All-later m n [] e h = tt
All-later m n (p ∷ ps) e h = (omega (arith, h.0), All-later m n ps e h.1)

insert_point-All :
    (m : ℕ) (p : Point) (qs : List Point)
    → m ≤ p.time
    → All (λ (q : Point). m ≤ q.time) qs
    → All (λ (q : Point). m ≤ q.time) (insert_point p qs)
unfolding insert_point
insert_point-All m p [] e h = (e, tt)
insert_point-All m p (q ∷ qs) e h = elim (Bool-cases (leb p.time q.time)) [
  | inl before ↦ rw (insert_point, before) (e, h)
  | inr after ↦ rw (insert_point, after) (h.0, insert_point-All m p qs e h.1)
]

insert_point-AreOrdered :
    (p : Point) (qs : List Point) → AreOrdered qs → AreOrdered (insert_point p qs)
unfolding insert_point AreOrdered
insert_point-AreOrdered p [] h = (tt, tt)
insert_point-AreOrdered p (q ∷ qs) h = elim (Bool-cases (leb p.time q.time)) [
  | inl before ↦
      let e : p.time ≤ q.time = ground arith in
      rw (insert_point, before) ((e, All-later p.time q.time qs e h.0), h)
  | inr after ↦
      let e : q.time ≤ p.time = ground arith in
      rw (insert_point, after)
        (insert_point-All q.time p qs e h.0, insert_point-AreOrdered p qs h.1)
]

sort_points-AreOrdered : (ps : List Point) → AreOrdered (sort_points ps)
unfolding sort_points AreOrdered
sort_points-AreOrdered [] = tt
sort_points-AreOrdered (p ∷ ps) =
    insert_point-AreOrdered p (sort_points ps) (sort_points-AreOrdered ps)

module _ (h3_centroid : Mean → Option Place) (level : AnonymizationLevel) (seconds : ℕ) where
  record IsCloaked (start : ℕ) (before ps answer : List Point) : Type 0 where
    window : List Point
    rest : List (List Point)
    starts : first_time window ≡ start
    within : IsWindow seconds window
    others : All (IsWindow seconds) rest
    spaced : AreSpaced seconds start rest
    same : answer ≡ map (λ w. anonymize_window h3_centroid w level) (window ∷ rest)
    joined : window ++ all_points rest ≡ before ++ ps

  cloak-IsCloaked :
      (p : Point) (more ps : List Point)
      → IsWindow seconds (p ∷ more)
      → IsCloaked p.time (p ∷ more) ps (cloak h3_centroid level seconds p.time (p ∷ more) ps)
  unfolding cloak
  cloak-IsCloaked p more [] h = record {
    window = p ∷ more;
    rest = [];
    starts = refl;
    within = h;
    others = tt;
    spaced = tt;
    same = refl;
    joined = refl;
  }
  cloak-IsCloaked p more (q ∷ qs) h = elim (Bool-cases (leb (q.time - p.time) seconds)) [
    | inl near ↦
        let late : q.time ≤ p.time + seconds = ground arith in
        let grown : IsWindow seconds (p ∷ (more ++ q ∷ [])) =
          All-append (λ (r : Point). r.time ≤ p.time + seconds) (p ∷ more) (q ∷ []) h (late, tt) in
        let k = cloak-IsCloaked p (more ++ q ∷ []) qs grown in
        record {
          window = k.window;
          rest = k.rest;
          starts = k.starts;
          within = k.within;
          others = k.others;
          spaced = k.spaced;
          same = rw near k.same;
          joined = k.joined ∙ append_assoc (p ∷ more) (q ∷ []) qs;
        }
    | inr far ↦
        let later : p.time + seconds < q.time = ground arith in
        let k = cloak-IsCloaked q [] qs (omega arith, tt) in
        record {
          window = p ∷ more;
          rest = k.window ∷ k.rest;
          starts = refl;
          within = h;
          others = (k.within, k.others);
          spaced = (
            omega (arith, later, k.starts),
            subst (λ t. AreSpaced seconds t k.rest) (sym k.starts) k.spaced,
          );
          same = rw far (ap (λ l. anonymize_window h3_centroid (p ∷ more) level ∷ l) k.same);
          joined = ap (λ l. (p ∷ more) ++ l) k.joined;
        }
  ]

abbrev pub AreApart : ℕ → List (List Point) → Type 0
AreApart seconds [] = Unit {0}
AreApart seconds (w ∷ ws) = AreSpaced seconds (first_time w) ws

-- A trajectory as the points of its windows: one after the other they are all its points in the order
-- of their times, a window lasts at most the
-- given seconds, and the next one starts later than these seconds after its start.
pub record IsTrajectory (h3_centroid : Mean → Option Place) (level : AnonymizationLevel)
    (seconds : ℕ) (points answer : List Point) : Type 0 where
  pub windows : List (List Point)
  pub perm : Perm (all_points windows) points
  pub ordered : AreOrdered (all_points windows)
  pub within : All (IsWindow seconds) windows
  pub spaced : AreApart seconds windows
  pub same : answer ≡ map (λ w. anonymize_window h3_centroid w level) windows

start_cloak-IsTrajectory :
    (h3_centroid : Mean → Option Place) (level : AnonymizationLevel) (seconds : ℕ)
    (points sorted : List Point)
    → Perm sorted points
    → AreOrdered sorted
    → IsTrajectory h3_centroid level seconds points (start_cloak h3_centroid level seconds sorted)
start_cloak-IsTrajectory h3_centroid level seconds points [] e o = record {
  windows = [];
  perm = e;
  ordered = o;
  within = tt;
  spaced = tt;
  same = refl;
}
start_cloak-IsTrajectory h3_centroid level seconds points (p ∷ ps) e o =
    let k = cloak-IsCloaked h3_centroid level seconds p [] ps (omega arith, tt) in
    record {
      windows = k.window ∷ k.rest;
      perm = subst (λ l. Perm l points) (sym k.joined) e;
      ordered = subst AreOrdered (sym k.joined) o;
      within = (k.within, k.others);
      spaced = subst (λ t. AreSpaced seconds t k.rest) (sym k.starts) k.spaced;
      same = k.same;
    }

-- The anonymized trajectory has one point for each window of time. The windows, one after the other,
-- have exactly the points of the trajectory, in the order of their times; no point of a window is more
-- than the given minutes after its first one, so no window is longer; and a window starts later than
-- these minutes after the start of the one before it.
pub anonymize_trajectory-IsTrajectory :
    (h3_centroid : Mean → Option Place) (points : List Point) (level : AnonymizationLevel)
    (minutes : ℕ)
    → IsTrajectory h3_centroid level
        (minutes * 60)
        points
        (anonymize_trajectory h3_centroid points level minutes)
unfolding anonymize_trajectory
anonymize_trajectory-IsTrajectory h3_centroid points level minutes =
    start_cloak-IsTrajectory h3_centroid level (minutes * 60) points (sort_points points)
      (sort_points-perm points) (sort_points-AreOrdered points)
