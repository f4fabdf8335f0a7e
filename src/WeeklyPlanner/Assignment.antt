-- ===== src/WeeklyPlanner/Assignment.antt =====
-- `cluster_by_geography` and `assign_to_days` of `WeeklyPlanner`.
-- `osrm_clusters` is the clustering service (the numbers of the clusters with the indices of their
-- clients, or `none` where it raises), and `kmeans_labels` gives each client a label.
pub mod Placing
pub mod Bounds
pub mod Seconds
pub mod Weeks
use sfa_routing.Prelude.{
  range, ℕ, zero, suc, ◌+◌, ◌-◌, ◌%◌, Bool, true, false, not, ◌&&◌, ◌||◌, Option, none, some, List,
  [], ◌∷◌, ◌++◌, ltb, leb, ◌==◌, if◌then◌else◌, length, get_elem?, get_or, set, replicate,
}
use sfa_routing.Problem.{ClientCategory, a, b, c}
use sfa_routing.WeeklyPlanner.{Client}

-- `[clients[i] for i in indices]`; an index out of range raises.
pub pick_all : List Client → List ℕ → Option (List Client)
pick_all clients [] = some []
pick_all clients (i ∷ is) = elim (get_elem? clients i) [
  | none ↦ none
  | some x ↦ elim (pick_all clients is) [ none ↦ none | some rest ↦ some (x ∷ rest) ]
]

abbrev pub Clusters : Type 0
Clusters = List (ℕ × List Client)

pub pick_clusters : List Client → List (ℕ × List ℕ) → Option Clusters
pick_clusters clients [] = some []
pick_clusters clients ((id, indices) ∷ rest) = elim (pick_all clients indices) [
  | none ↦ none
  | some members ↦ elim (pick_clusters clients rest) [
    | none ↦ none
    | some clusters ↦ some ((id, members) ∷ clusters)
  ]
]

-- `clusters[label].append(client)`, with a new entry for a new label.
pub add_member : ℕ → Client → Clusters → Clusters
add_member label client [] = (label, client ∷ []) ∷ []
add_member label client ((l, members) ∷ rest) =
    if l == label
    then (l, members ++ client ∷ []) ∷ rest
    else (l, members) ∷ add_member label client rest

-- `for client, label in zip(clients, labels)`
pub group_by_label : List Client → List ℕ → Clusters → Clusters
group_by_label [] labels clusters = clusters
group_by_label (client ∷ clients) [] clusters = clusters
group_by_label (client ∷ clients) (label ∷ labels) clusters =
    group_by_label clients labels (add_member label client clusters)

abbrev pub Days : Type 0
Days = List (List Client)

abbrev pub load : Days → ℕ → ℕ
load days d = length (get_or days d [])

-- `min(days, key=...)` of a list that begins with `best`.
pub least : (ℕ → ℕ) → ℕ → List ℕ → ℕ
least key best [] = best
least key best (d ∷ ds) = least key (if ltb (key d) (key best) then d else best) ds

abbrev pub append_to : Days → ℕ → Client → Days
append_to days d client = set days d (get_or days d [] ++ client ∷ [])

-- The day for a client of the cluster of a day: that day, or where it is full the least loaded one.
pub place_client : ℕ → ℕ → ℕ → Days → Client → Days
place_client n_days max_per_day day days client =
    if ltb (load days day) max_per_day
    then append_to days day client
    else append_to days (least (load days) 0 (range 1 (n_days - 1))) client

pub place_members : ℕ → ℕ → ℕ → List Client → Days → Days
place_members n_days max_per_day day [] days = days
place_members n_days max_per_day day (client ∷ clients) days =
    place_members n_days max_per_day day clients (place_client n_days max_per_day day days client)

pub place_clusters : ℕ → ℕ → Clusters → Days → Days
place_clusters n_days max_per_day [] days = days
place_clusters n_days max_per_day ((id, members) ∷ rest) days =
    place_clusters n_days max_per_day rest
      (place_members n_days max_per_day (id % n_days) members days)

pub has_client : ℕ → List Client → Bool
has_client id [] = false
has_client id (x ∷ xs) = x.id == id || has_client id xs

-- The first day that has the client, counted from `d` on.
pub first_visit_day : ℕ → ℕ → Days → Option ℕ
first_visit_day id d [] = none
first_visit_day id d (day ∷ days) =
    if has_client id day then some d else first_visit_day id (suc d) days

abbrev pub apart : ℕ → ℕ → Bool
apart d first = leb (first + 2) d || leb (d + 2) first

abbrev pub is_candidate : ℕ → ℕ → Days → ℕ → Bool
is_candidate max_per_day first days d =
    not (d == first) && (ltb (load days d) max_per_day && apart d first)

pub second_day_candidates : ℕ → ℕ → Days → List ℕ → List ℕ
second_day_candidates max_per_day first days [] = []
second_day_candidates max_per_day first days (d ∷ ds) =
    let rest = second_day_candidates max_per_day first days ds in
    if is_candidate max_per_day first days d then d ∷ rest else rest

abbrev pub append_least : Client → Days → List ℕ → Days
append_least client days [] = days
append_least client days (d ∷ ds) = append_to days (least (load days) d ds) client

-- The second visit of one client.
pub second_visit : ℕ → ℕ → Days → Client → Days
second_visit n_days max_per_day days client = elim (first_visit_day client.id 0 days) [
  | none ↦ days
  | some first ↦
      append_least client days (second_day_candidates max_per_day first days (range 0 n_days))
]

pub second_visits : ℕ → ℕ → List Client → Days → Days
second_visits n_days max_per_day [] days = days
second_visits n_days max_per_day (client ∷ clients) days =
    second_visits n_days max_per_day clients (second_visit n_days max_per_day days client)

abbrev pub is_a_class : ClientCategory → Bool
is_a_class a = true
is_a_class _ = false

unfoldable pub a_class_clients : List Client → List Client
a_class_clients [] = []
a_class_clients (x ∷ xs) =
    let rest = a_class_clients xs in if is_a_class x.category then x ∷ rest else rest

abbrev pub no_visits : ℕ → Days
no_visits n = replicate n []

module _ (osrm_clusters : List Client → ℕ → Option (List (ℕ × List ℕ)))
    (kmeans_labels : List Client → ℕ → List ℕ) where
  pub cluster_by_geography : List Client → ℕ → Clusters
  cluster_by_geography clients n_clusters =
      let fallback = group_by_label clients (kmeans_labels clients n_clusters) [] in
      if ltb (length clients) n_clusters
      then (0, clients) ∷ []
      else elim (osrm_clusters clients n_clusters) [
        | none ↦ fallback
        | some found ↦ elim (pick_clusters clients found) [
          | none ↦ fallback
          | some clusters ↦ clusters
        ]
      ]

  pub assign_to_days : ℕ → ℕ → List Client → Days
  assign_to_days n_days max_per_day clients =
      second_visits n_days max_per_day (a_class_clients clients)
        (place_clusters n_days max_per_day (cluster_by_geography clients n_days) (no_visits n_days))
