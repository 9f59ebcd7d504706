-- ===== src/Route/Nearby/Nested.antt =====
-- How many instances the levels of the nearby router count: plugin/servicerouter/nearbybase/nearby.go.
use polaris_go.Base.{
  ℕ, zero, suc, ◌≤◌, ◌≡◌, refl, ap, ◌∙◌, Bool, true, none, List, [], ◌∷◌, get_or, Bool-cases, inl,
  inr, arith,
}
use polaris_go.Base.Text.{Str}
use polaris_go.Balance.Cluster.{
  Location, Instance, Cluster, match_metadata, match_location,
  get_instances_set_when_skip_route_filter,
}
use polaris_go.Balance.Cluster.Metadata.{clear_cluster_value}
use polaris_go.Balance.Cluster.Values.{get_cluster_value}
use polaris_go.Balance.Sets.{is_selectable}
use polaris_go.Balance.Counts.{count_if, is_chosen, build_from-counts}
use polaris_go.Route.{count}
use polaris_go.Route.Given.{get_cluster_value-new}
use polaris_go.Route.Nearby.{
  LevelCount, zero_count, get_cluster_instance_count, check_all_level_inst_counts,
}

count_if_mono :
    (p q : Instance → Bool) (xs : List Instance)
    → ((x : Instance) → p x ≡ true → q x ≡ true)
    → count_if p xs ≤ count_if q xs
count_if_mono p q [] f = omega arith
count_if_mono p q (x ∷ xs) f = elim (Bool-cases (p x)) [
  | inl e ↦ rw (e, f x e) (let r = count_if_mono p q xs f in omega (arith, r))
  | inr e ↦ elim (Bool-cases (q x)) [
    | inl g ↦ rw (e, g) (let r = count_if_mono p q xs f in omega (arith, r))
    | inr g ↦ rw (e, g) (count_if_mono p q xs f)
  ]
]

-- The instances that a cluster has at a location.
abbrev pub size_at : Cluster → List Instance → Location → ℕ
size_at c xs l = count_if (is_chosen (match_metadata c) l is_selectable) xs

-- Fewer names in a location leave no fewer instances.
narrower :
    (c : Cluster) (xs : List Instance) (l m : Location)
    → ((x : Instance) → match_location x l ≡ true → match_location x m ≡ true)
    → size_at c xs l ≤ size_at c xs m
narrower c xs l m f =
    count_if_mono (is_chosen (match_metadata c) l is_selectable)
      (is_chosen (match_metadata c) m is_selectable) xs
      (λ x h. (let g = f x (ground (arith, h)) in ground (arith, h, g)))

abbrev at : Str → Str → Str → Location
at r z c = record { region = r; zone = z; campus = c }

campus-zone :
    (r z c : Str) (x : Instance)
    → match_location x (at r z c) ≡ true
    → match_location x (at r z []) ≡ true
unfolding match_location
campus-zone r z c x h = ground (arith, h)

zone-region :
    (r z : Str) (x : Instance)
    → match_location x (at r z []) ≡ true
    → match_location x (at r [] []) ≡ true
unfolding match_location
zone-region r z x h = ground (arith, h)

region-all :
    (r : Str) (x : Instance)
    → match_location x (at r [] []) ≡ true
    → match_location x (at [] [] []) ≡ true
unfolding match_location
region-all r x h = refl

-- What is counted of a cluster at a location.
counted :
    (c : Cluster) (xs : List Instance) (l : Location)
    → count (
        get_instances_set_when_skip_route_filter
          (get_cluster_value xs (record c { location = l; value = none })).1
          true
          true)
      ≡ size_at c xs l
unfolding match_metadata
counted c xs l =
    let c' = record c { location = l; value = none } in
    ap (λ v. count (get_instances_set_when_skip_route_filter v true true))
      (get_cluster_value-new xs c' refl)
    ∙ (build_from-counts (match_metadata c') l xs).2

all_of : List LevelCount → ℕ → ℕ
all_of counts k = (get_or counts k zero_count).all_count

sizes :
    (c : Cluster) (xs : List Instance) (l : Location)
    → let c' = record c { location = at [] [] []; value = none } in
      let counts = (check_all_level_inst_counts xs c' l).1 in
      (all_of counts 0 ≡ size_at c xs (at [] [] []))
      × (all_of counts 1 ≡ size_at c xs (at l.region [] []))
      × (all_of counts 2 ≡ size_at c xs (at l.region l.zone []))
      × (all_of counts 3 ≡ size_at c xs (at l.region l.zone l.campus))
unfolding all_of check_all_level_inst_counts get_cluster_instance_count clear_cluster_value
    get_cluster_value
sizes c xs l = (
  counted c xs (at [] [] []),
  counted c xs (at l.region [] []),
  counted c xs (at l.region l.zone []),
  counted c xs (at l.region l.zone l.campus),
)

none_farther :
    (c : Cluster) (xs : List Instance) (l : Location) (k : ℕ)
    → all_of (check_all_level_inst_counts xs c l).1 (suc (suc (suc (suc k)))) ≡ 0
unfolding all_of check_all_level_inst_counts
none_farther c xs l k = refl

nested :
    (c : Cluster) (xs : List Instance) (l : Location) (k : ℕ)
    → let c' = record c { location = at [] [] []; value = none } in
      let counts = (check_all_level_inst_counts xs c' l).1 in
      all_of counts (suc k) ≤ all_of counts k
nested c xs l zero = let s = sizes c xs l in rw (s.0, s.1) (narrower c xs _ _ (region-all l.region))
nested c xs l (suc zero) =
    let s = sizes c xs l in rw (s.1, s.2) (narrower c xs _ _ (zone-region l.region l.zone))
nested c xs l (suc (suc zero)) =
    let s = sizes c xs l in rw (s.2, s.3) (narrower c xs _ _ (campus-zone l.region l.zone l.campus))
nested c xs l (suc (suc (suc k))) =
    let c' = record c { location = at [] [] []; value = none } in
    rw (none_farther c' xs l k) (omega arith)

-- The counts of the levels, taken from a cluster without a location and without a value: each level
-- has at most as many instances as the next farther one.
pub nearer_fewer :
    (c : Cluster) (xs : List Instance) (l : Location) (k : ℕ)
    → let c' = record c {
      location = record { region = []; zone = []; campus = [] };
      value = none;
    } in
      let counts = (check_all_level_inst_counts xs c' l).1 in
      (get_or counts (suc k) zero_count).all_count ≤ (get_or counts k zero_count).all_count
unfolding all_of
nearer_fewer c xs l k = nested c xs l k
