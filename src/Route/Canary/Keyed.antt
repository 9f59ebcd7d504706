-- ===== src/Route/Canary/Keyed.antt =====
-- What the clusters of the canary router accept and give: plugin/servicerouter/canary/canary_router.go.
use polaris_go.Base.{
  ℕ, suc, ◌+◌, ◌≡◌, refl, ap, ◌∙◌, Bool, true, false, not, ◌&&◌, Option, none, some, List, [], ◌∷◌,
  ◌==◌, ltb, if◌then◌else◌, length, arith,
}
use polaris_go.Base.Text.{Str, str_eq}
use polaris_go.Balance.Cluster.{
  StrMap, Instance, Location, match_location, Cluster, ClusterValue, lookup, match_metadata,
  match_contain_meta_key_data, contain_not_match_metadata, get_instances_set,
  get_instances_set_when_skip_route_filter, new_cluster_value, build_from, build_cluster,
  build_not_contain_meta_key_cluster, build_contain_meta_key_cluster,
  build_contain_not_match_meta_key_cluster,
}
use polaris_go.Balance.Cluster.Metadata.{
  new_cluster, reset, add_metadata, rule_add_metadata, reload_compose_meta_value,
  clear_cluster_value,
}
use polaris_go.Balance.Cluster.Values.{
  get_cluster_value, get_contain_not_match_meta_key_cluster_value,
  get_not_contain_meta_key_cluster_value, get_contain_meta_key_cluster_value,
}
use polaris_go.Balance.Cluster.Matching.{accepted}
use polaris_go.Balance.Sets.{is_selectable, is_available}
use polaris_go.Balance.Counts.{any, count_if-zero, is_chosen, build_from-counts}
use polaris_go.Route.{has_some}
use polaris_go.Route.Canary.{canary_meta_key, keyed_cluster}

any_cong :
    (p q : Instance → Bool) (xs : List Instance)
    → ((x : Instance) → p x ≡ q x)
    → any p xs ≡ any q xs
any_cong p q [] e = refl
any_cong p q (x ∷ xs) e = rw (e x, any_cong p q xs e) refl

positive : (n : ℕ) (b : Bool) → (n == 0) ≡ not b → ltb 0 n ≡ b
positive n b h = ground (arith, h)

-- Whether a value gives available instances, or selectable ones.
some_available :
    (p : Instance → Bool) (l : Location) (xs : List Instance)
    → has_some (get_instances_set (build_from p l new_cluster_value 0 xs) false true)
      ≡ any (is_chosen p l is_available) xs
some_available p l xs =
    let n = build_from-counts p l xs in
    positive _ _ (ap (λ k. k == 0) n.0 ∙ count_if-zero (is_chosen p l is_available) xs)

some_selectable :
    (p : Instance → Bool) (l : Location) (xs : List Instance)
    → has_some
        (get_instances_set_when_skip_route_filter (build_from p l new_cluster_value 0 xs) true true)
      ≡ any (is_chosen p l is_selectable) xs
some_selectable p l xs =
    let n = build_from-counts p l xs in
    positive _ _ (ap (λ k. k == 0) n.2 ∙ count_if-zero (is_chosen p l is_selectable) xs)

-- The tests on the canary of an instance: none, one that is another, and the one asked for.
abbrev pub has_canary : Instance → Bool
has_canary x = accepted (lookup x.metadata canary_meta_key) (λ v. true)

abbrev pub has_other_canary : Str → Instance → Bool
has_other_canary value x = accepted (lookup x.metadata canary_meta_key) (λ v. not (str_eq v value))

abbrev pub has_this_canary : Str → Instance → Bool
has_this_canary value x = accepted (lookup x.metadata canary_meta_key) (λ v. str_eq v value)

tested_at :
    (o : Option Str) (f : Str → Bool) → (elim o [ none ↦ false | some v ↦ f v ]) ≡ accepted o f
tested_at none f = refl
tested_at (some v) f = refl

suc_test : (n : ℕ) → (suc n == 0) ≡ false
suc_test n = ground arith

tested :
    (m : StrMap) (k : Str) (f : Str → Bool)
    → (if length m == 0 then false else elim (lookup m k) [ none ↦ false | some v ↦ f v ])
      ≡ accepted (lookup m k) f
tested [] k f = refl
tested (p ∷ m) k f = rw (suc_test (length m)) (tested_at (lookup (p ∷ m) k) f)

-- What the cluster accepts that the router makes in one without metadata, by each of its tests.
keyed-tests :
    (b b' : Bool) (value : Str) (x : Instance)
    → let c = keyed_cluster b (reset b') value in
      (match_metadata c x ≡ has_this_canary value x)
      × (match_contain_meta_key_data c x ≡ has_canary x)
      × (contain_not_match_metadata c x ≡ has_other_canary value x)
unfolding keyed_cluster match_metadata match_contain_meta_key_data contain_not_match_metadata
    new_cluster reset add_metadata rule_add_metadata reload_compose_meta_value clear_cluster_value
keyed-tests b b' value x =
    let k = canary_meta_key in
    (
      tested x.metadata k (λ v. str_eq v value),
      tested x.metadata k (λ v. true),
      tested x.metadata k (λ v. not (str_eq v value)),
    )

keyed-new :
    (b b' : Bool) (value : Str)
    → let c = keyed_cluster b (reset b') value in
      (c.value ≡ none) × (c.location ≡ (reset b').location) × (c.has_limited_instances ≡ false)
unfolding keyed_cluster new_cluster reset add_metadata rule_add_metadata reload_compose_meta_value
    clear_cluster_value
keyed-new b b' value = (refl, refl, refl)

-- The value that stands for the instances which pass a test, wherever they are.
abbrev pub members : (Instance → Bool) → List Instance → ClusterValue
members p xs = build_from p (record { region = []; zone = []; campus = [] }) new_cluster_value 0 xs

build_from_cong :
    (p q : Instance → Bool) (l : Location) (xs : List Instance) (v : ClusterValue) (i : ℕ)
    → ((x : Instance) → p x ≡ q x)
    → build_from p l v i xs ≡ build_from q l v i xs
unfolding build_from
build_from_cong p q l [] v i e = refl
build_from_cong p q l (x ∷ xs) v i e = rw (e x) (build_from_cong p q l xs _ (i + 1) e)

held_by :
    (b : Bool) (xs : List Instance) (v : ClusterValue) (p p' : Instance → Bool) (l : Location)
    → v ≡ build_from p l new_cluster_value 0 xs
    → l ≡ (reset b).location
    → ((x : Instance) → p x ≡ p' x)
    → v ≡ members p' xs
unfolding reset
held_by b xs v p p' l e f t =
    e
    ∙ ap (λ m. build_from p m new_cluster_value 0 xs) f
    ∙ build_from_cong p p' _ xs new_cluster_value 0 t

-- A cluster that stands for the instances which pass a test, and asks for no limited ones.
pub record Stands (c : Cluster) (p : Instance → Bool) (xs : List Instance) : Type 0 where
  pub limited : c.has_limited_instances ≡ false
  pub value : c.value ≡ some (members p xs)

-- Whether some instance of these passes both tests.
abbrev pub exists : List Instance → (Instance → Bool) → (Instance → Bool) → Bool
exists xs p q = any (λ x. p x && q x) xs

anywhere : (b : Bool) (x : Instance) → match_location x (reset b).location ≡ true
unfolding match_location reset
anywhere b x = refl

-- What a value that the loop built, for a test and no location, gives.
given_by :
    (b : Bool) (xs : List Instance) (v : ClusterValue) (p p' : Instance → Bool) (l : Location)
    → v ≡ build_from p l new_cluster_value 0 xs
    → l ≡ (reset b).location
    → ((x : Instance) → p x ≡ p' x)
    → (has_some (get_instances_set v false true) ≡ exists xs p' is_available)
      × (has_some (get_instances_set_when_skip_route_filter v true true)
          ≡ exists xs p' is_selectable)
given_by b xs v p p' l e f t =
    let same = λ (q : Instance → Bool).
      any_cong (is_chosen p l q) (λ x. p' x && q x) xs
        (λ x. rw (f, anywhere b x, t x) (ground arith)) in
    (
      ap (λ w. has_some (get_instances_set w false true)) e
          ∙ some_available p l xs
          ∙ same is_available,
      ap (λ w. has_some (get_instances_set_when_skip_route_filter w true true)) e
          ∙ some_selectable p l xs
          ∙ same is_selectable,
    )

module _ (b b' : Bool) (xs : List Instance) (value : Str) where
  abbrev pub made : Cluster
  made = keyed_cluster b (reset b') value

  pub given_this :
      let v = (get_cluster_value xs made).1 in
      (has_some (get_instances_set v false true) ≡ exists xs (has_this_canary value) is_available)
      × (has_some (get_instances_set_when_skip_route_filter v true true)
          ≡ exists xs (has_this_canary value) is_selectable)
  unfolding get_cluster_value build_cluster
  given_this =
      let (e, f, g) = keyed-new b b' value in
      given_by b' xs _ (match_metadata made) _ made.location (rw e refl) f
        (λ x. (keyed-tests b b' value x).0)

  pub given_without :
      let v = (get_not_contain_meta_key_cluster_value xs made).1 in
      let without = λ (x : Instance). not (has_canary x) in
      (has_some (get_instances_set v false true) ≡ exists xs without is_available)
      × (has_some (get_instances_set_when_skip_route_filter v true true)
          ≡ exists xs without is_selectable)
  unfolding get_not_contain_meta_key_cluster_value build_not_contain_meta_key_cluster
  given_without =
      let (e, f, g) = keyed-new b b' value in
      given_by b' xs _ (λ x. not (match_contain_meta_key_data made x)) _ made.location (rw e refl) f
        (λ x. ap not (keyed-tests b b' value x).1)

  pub given_with :
      let v = (get_contain_meta_key_cluster_value xs made).1 in
      has_some (get_instances_set v false true) ≡ exists xs has_canary is_available
  unfolding get_contain_meta_key_cluster_value build_contain_meta_key_cluster
  given_with =
      let (e, f, g) = keyed-new b b' value in
      (given_by b' xs _ (match_contain_meta_key_data made) _ made.location (rw e refl) f
        (λ x. (keyed-tests b b' value x).1)).0

  pub given_other :
      let v = (get_contain_not_match_meta_key_cluster_value xs made).1 in
      has_some (get_instances_set v false true) ≡ exists xs (has_other_canary value) is_available
  unfolding get_contain_not_match_meta_key_cluster_value build_contain_not_match_meta_key_cluster
  given_other =
      let (e, f, g) = keyed-new b b' value in
      (given_by b' xs _ (contain_not_match_metadata made) _ made.location (rw e refl) f
        (λ x. (keyed-tests b b' value x).2)).0

  pub held_this : Stands (get_cluster_value xs made).0 (has_this_canary value) xs
  unfolding get_cluster_value build_cluster
  held_this =
      let (e, f, g) = keyed-new b b' value in
      record {
        limited = g;
        value = ap some (
            held_by b' xs _ (match_metadata made) _ made.location (rw e refl) f
              (λ x. (keyed-tests b b' value x).0));
      }

  pub held_without :
      Stands (get_not_contain_meta_key_cluster_value xs made).0 (λ x. not (has_canary x)) xs
  unfolding get_not_contain_meta_key_cluster_value build_not_contain_meta_key_cluster
  held_without =
      let (e, f, g) = keyed-new b b' value in
      record {
        limited = g;
        value = ap some (
            held_by b' xs _ (λ x. not (match_contain_meta_key_data made x)) _ made.location
              (rw e refl) f (λ x. ap not (keyed-tests b b' value x).1));
      }

  pub held_with : Stands (get_contain_meta_key_cluster_value xs made).0 has_canary xs
  unfolding get_contain_meta_key_cluster_value build_contain_meta_key_cluster
  held_with =
      let (e, f, g) = keyed-new b b' value in
      record {
        limited = g;
        value = ap some (
            held_by b' xs _ (match_contain_meta_key_data made) _ made.location (rw e refl) f
              (λ x. (keyed-tests b b' value x).1));
      }

  pub held_other :
      Stands (get_contain_not_match_meta_key_cluster_value xs made).0 (has_other_canary value) xs
  unfolding get_contain_not_match_meta_key_cluster_value build_contain_not_match_meta_key_cluster
  held_other =
      let (e, f, g) = keyed-new b b' value in
      record {
        limited = g;
        value = ap some (
            held_by b' xs _ (contain_not_match_metadata made) _ made.location (rw e refl) f
              (λ x. (keyed-tests b b' value x).2));
      }
