-- ===== src/WeeklyPlanner/Assignment/Weeks.antt =====
-- `cluster_by_geography` and `assign_to_days` on all clients.
use mathlib.Core.List.Perm
use mathlib.Core.List.{Sublistᴰ, perm_middle, append_assoc, append-nil}
use sfa_routing.Prelude.{
  ℕ, zero, suc, ◌*◌, ◌≤◌, ◌≡◌, refl, sym, ap, ◌∙◌, subst, Option, none, some, List, [], ◌∷◌, ◌++◌,
  Perm, arith, inl, inr, ltb, ◌==◌, Bool-cases, Option-cases, length, get_elem?, length-replicate,
  range, All,
}
use sfa_routing.Prelude.Perms.{length-perm}
use sfa_routing.Prelude.Picks.{pick, pick-some, pick-append, pick-perm, pick_whole}
use sfa_routing.WeeklyPlanner.{Client}
use sfa_routing.WeeklyPlanner.Assignment.{
  Clusters, Days, pick_all, pick_clusters, add_member, group_by_label, cluster_by_geography,
  place_clusters, second_visits, a_class_clients, no_visits, assign_to_days,
}
use sfa_routing.WeeklyPlanner.Assignment.Placing.{all_visits, all_members, place_clusters-perm}
use sfa_routing.WeeklyPlanner.Assignment.Bounds.{Fits, place_clusters-Fits}
use sfa_routing.WeeklyPlanner.Assignment.Seconds.{Twice, second_visits-IsExtended}

abbrev pub all_indices : List (ℕ × List ℕ) → List ℕ
all_indices [] = []
all_indices ((id, indices) ∷ rest) = indices ++ all_indices rest

pick_all-pick :
    (clients : List Client) (is : List ℕ) (xs : List Client)
    → pick_all clients is ≡ some xs
    → pick (get_elem? clients) is ≡ xs
unfolding pick_all pick
pick_all-pick clients [] xs e = cc e
pick_all-pick clients (i ∷ is) xs e = elim (Option-cases (get_elem? clients i)) [
  | inl out ↦ let bad : none ≡ some xs = rw (out, pick_all) at e in absurd (ground (arith, bad))
  | inr (x, f) ↦ elim (Option-cases (pick_all clients is)) [
    | inl lost ↦
        let bad : none ≡ some xs = rw (f, lost, pick_all) at e in absurd (ground (arith, bad))
    | inr (ys, g) ↦
        let whole : some (x ∷ ys) ≡ some xs = rw (f, g, pick_all) at e in
        let same : x ∷ ys ≡ xs = cc whole in
        pick-some (get_elem? clients) i is f
        ∙ ap (λ l. x ∷ l) (pick_all-pick clients is ys g)
        ∙ same
  ]
]

add_member-perm :
    (label : ℕ) (x : Client) (clusters : Clusters)
    → Perm (all_members (add_member label x clusters)) (x ∷ all_members clusters)
unfolding add_member
add_member-perm label x [] = Perm.refl (x ∷ [])
add_member-perm label x ((l, members) ∷ rest) = elim (Bool-cases (l == label)) [
  | inl same ↦
      rw (add_member, same)
        (rw (append_assoc members (x ∷ []) (all_members rest))
          (perm_middle members (all_members rest)))
  | inr other ↦
      rw (add_member, other)
        (Perm.trans (Perm.append_left members (add_member-perm label x rest))
          (perm_middle members (all_members rest)))
]

group_by_label-perm :
    (clients : List Client) (labels : List ℕ) (clusters : Clusters)
    → length labels ≡ length clients
    → Perm (all_members (group_by_label clients labels clusters)) (clients ++ all_members clusters)
unfolding group_by_label
group_by_label-perm [] labels clusters e = Perm.refl (all_members clusters)
group_by_label-perm (x ∷ xs) [] clusters e = absurd (omega (arith, e))
group_by_label-perm (x ∷ xs) (l ∷ ls) clusters e =
    Perm.trans (group_by_label-perm xs ls (add_member l x clusters) (omega (arith, e))) (
      Perm.trans (Perm.append_left xs (add_member-perm l x clusters))
        (perm_middle xs (all_members clusters)))

pick_clusters-pick :
    (clients : List Client) (found : List (ℕ × List ℕ)) (clusters : Clusters)
    → pick_clusters clients found ≡ some clusters
    → pick (get_elem? clients) (all_indices found) ≡ all_members clusters
unfolding pick_clusters pick
pick_clusters-pick clients [] clusters e = let same : [] ≡ clusters = cc e in ap all_members same
pick_clusters-pick clients ((id, is) ∷ rest) clusters e =
    elim (Option-cases (pick_all clients is)) [
      | inl out ↦
          let bad : none ≡ some clusters = rw (out, pick_clusters) at e in
          absurd (ground (arith, bad))
      | inr (xs, f) ↦ elim (Option-cases (pick_clusters clients rest)) [
        | inl lost ↦
            let bad : none ≡ some clusters = rw (f, lost, pick_clusters) at e in
            absurd (ground (arith, bad))
        | inr (more, g) ↦
            let whole : some ((id, xs) ∷ more) ≡ some clusters = rw (f, g, pick_clusters) at e in
            let same : (id, xs) ∷ more ≡ clusters = cc whole in
            pick-append (get_elem? clients) is (all_indices rest)
            ∙ ap (λ l. l ++ pick (get_elem? clients) (all_indices rest))
                (pick_all-pick clients is xs f)
            ∙ ap (λ l. xs ++ l) (pick_clusters-pick clients rest more g)
            ∙ ap all_members same
      ]
    ]

module _ (osrm_clusters : List Client → ℕ → Option (List (ℕ × List ℕ)))
    (kmeans_labels : List Client → ℕ → List ℕ) where
  -- The clustering service puts each index in one cluster; K-means labels each client.
  abbrev pub Partitions : Type 0
  Partitions =
      (clients : List Client) (n : ℕ) (found : List (ℕ × List ℕ))
      → osrm_clusters clients n ≡ some found
      → Perm (all_indices found) (range 0 (length clients))

  abbrev pub Labels : Type 0
  Labels = (clients : List Client) (n : ℕ) → length (kmeans_labels clients n) ≡ length clients

  cluster_by_geography-perm :
      (clients : List Client) (n : ℕ)
      → Partitions
      → Labels
      → Perm (all_members (cluster_by_geography osrm_clusters kmeans_labels clients n)) clients
  unfolding cluster_by_geography
  cluster_by_geography-perm clients n partitions labels =
      let grouped =
        subst (λ l. Perm (all_members (group_by_label clients (kmeans_labels clients n) [])) l)
          (append-nil clients)
          (group_by_label-perm clients (kmeans_labels clients n) [] (labels clients n)) in
      elim (Bool-cases (ltb (length clients) n)) [
        | inl few ↦
            rw few (subst (λ l. Perm l clients) (sym (append-nil clients)) (Perm.refl clients))
        | inr enough ↦ elim (Option-cases (osrm_clusters clients n)) [
          | inl failed ↦ rw (enough, failed) grouped
          | inr (found, e) ↦ elim (Option-cases (pick_clusters clients found)) [
            | inl out ↦ rw (enough, e, out) grouped
            | inr (clusters, f) ↦
                let picked = pick-perm (get_elem? clients) (partitions clients n found e) in
                rw (enough, e, f)
                  (subst (λ l. Perm l clients) (pick_clusters-pick clients found clusters f)
                    (subst (λ l. Perm (pick (get_elem? clients) (all_indices found)) l)
                      (pick_whole clients) picked))
          ]
        ]
      ]

-- A week of the clients: each once, some of the A clients twice on distant days, and no day with too
-- many visits if there is room for the first visits.
pub record IsAssigned (n_days max_per_day : ℕ) (clients : List Client) (days : Days) : Type 0 where
  pub extra : List Client
  pub perm : Perm (all_visits days) (extra ++ clients)
  pub chosen : Sublistᴰ extra (a_class_clients clients)
  pub twice : All (λ (x : Client). Twice days x.id) extra
  pub size : length days ≡ n_days
  pub fits : length clients ≤ n_days * max_per_day → Fits max_per_day days

no_visits-Fits : (n m : ℕ) → Fits m (no_visits n)
no_visits-Fits zero m = tt
no_visits-Fits (suc n) m = (omega arith, no_visits-Fits n m)

all_visits-no_visits : (n : ℕ) → all_visits (no_visits n) ≡ []
all_visits-no_visits zero = refl
all_visits-no_visits (suc n) = all_visits-no_visits n

module _ (osrm_clusters : List Client → ℕ → Option (List (ℕ × List ℕ)))
    (kmeans_labels : List Client → ℕ → List ℕ) where
  -- If the clustering service puts each client in one cluster and K-means labels each client,
  -- `assign_to_days` gives each client one day, and some A clients a second day, at least two days
  -- from the first; no day has more than `max_per_day` visits if the clients are at most `n_days`
  -- times as many.
  pub assign_to_days-IsAssigned :
      (n_days max_per_day : ℕ) (clients : List Client)
      → 1 ≤ n_days
      → Partitions osrm_clusters kmeans_labels
      → Labels osrm_clusters kmeans_labels
      → IsAssigned n_days max_per_day clients
          (assign_to_days osrm_clusters kmeans_labels n_days max_per_day clients)
  unfolding assign_to_days
  assign_to_days-IsAssigned n m clients some_day partitions labels =
      let clusters = cluster_by_geography osrm_clusters kmeans_labels clients n in
      let members =
        cluster_by_geography-perm osrm_clusters kmeans_labels clients n partitions labels in
      let size : length (no_visits n) ≡ n = length-replicate n [] in
      let placed = place_clusters n m clusters (no_visits n) in
      let first = place_clusters-perm n m clusters (no_visits n) some_day size in
      let none_yet : length (all_visits (no_visits n)) ≡ 0 = ap length (all_visits-no_visits n) in
      let all : Perm (all_visits placed) clients = Perm.trans first.1 (
        subst (λ l. Perm (all_members clusters ++ l) clients) (sym (all_visits-no_visits n))
          (subst (λ l. Perm l clients) (sym (append-nil (all_members clusters))) members)) in
      let week = second_visits-IsExtended m (a_class_clients clients) placed in
      let same : second_visits (length placed) m (a_class_clients clients) placed
          ≡ second_visits n m (a_class_clients clients) placed =
        ap (λ k. second_visits k m (a_class_clients clients) placed) first.0 in
      subst (λ days. IsAssigned n m clients days) same
        (record {
          extra = week.extra;
          perm = Perm.trans week.perm (Perm.append_left week.extra all);
          chosen = week.chosen;
          twice = week.twice;
          size = week.size ∙ first.0;
          fits = λ room. week.fits (
              place_clusters-Fits n m clusters (no_visits n) some_day size
                (omega (arith, length-perm members, none_yet, room)) (no_visits-Fits n m));
        })
