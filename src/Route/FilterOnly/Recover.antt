-- ===== src/Route/FilterOnly/Recover.antt =====
-- What the router that ends a chain leaves to choose from: plugin/servicerouter/filteronly/router.go.
use polaris_go.Base.{
  ℕ, ◌≡◌, refl, sym, ap, ◌∙◌, ◌&&◌, Bool, true, false, not, List, ◌==◌, ltb, leb, Bool-cases, inl,
  inr, arith,
}
use polaris_go.Balance.Cluster.{Instance, Cluster, ClusterValue, match_metadata, get_instances_set}
use polaris_go.Balance.Cluster.Metadata.{new_cluster}
use polaris_go.Balance.Sets.{is_selectable, is_available, is_normal}
use polaris_go.Balance.Counts.{any, any_mono, count_if, count_if-zero, is_chosen, build_from-counts}
use polaris_go.Route.{RouteInfo, Service, count}
use polaris_go.Route.FilterOnly.{is_limited, filtered_cluster}
use polaris_go.Route.Given.{new_cluster-value, built_value, get_cluster_value-new, given}

limited-given :
    (b : Bool) (least : ℕ → ℕ) (r : RouteInfo) (s : Service) (within : Cluster)
    (owner : List Instance)
    → let v = built_value (new_cluster b within) s.instances in
      let n = count v.selectable_instances in
      (filtered_cluster b least true r s (within, owner)).has_limited_instances
      ≡ is_limited true n (given v false r.include_circuit_break_instances) (least n)
unfolding filtered_cluster
limited-given b least r s within owner =
    let e = get_cluster_value-new s.instances (new_cluster b within) (new_cluster-value b within) in
    elim (Bool-cases r.include_circuit_break_instances) [
      | inl f ↦ rw (e, f) refl
      | inr f ↦ rw (e, f) refl
    ]

-- Limited instances are given whatever is asked of half-open ones.
given-limited : (v : ClusterValue) (half_open : Bool) → given v true half_open ≡ given v true true
unfolding get_instances_set
given-limited v half_open = refl

-- If the instances that are closed are some, so are those that are closed or half-open.
given-half_open :
    (c : Cluster) (xs : List Instance)
    → (given (built_value c xs) false false == 0) ≡ false
    → (given (built_value c xs) false true == 0) ≡ false
given-half_open c xs h =
    let normal = is_chosen (match_metadata c) c.location is_normal in
    let available = is_chosen (match_metadata c) c.location is_available in
    let sizes = build_from-counts (match_metadata c) c.location xs in
    let some_normal = count_if-zero normal xs in
    let some_available = count_if-zero available xs in
    let closed : (count_if normal xs == 0) ≡ false = sym (ap (λ k. k == 0) sizes.1) ∙ h in
    let more =
      any_mono normal available xs (λ x p. ground (arith, p))
        (ground (arith, some_normal, closed)) in
    ap (λ k. k == 0) sizes.0 ∙ ground (arith, some_available, more)

-- A load balancer that includes half-open instances whenever the call asks for them. (The proxy of
-- pkg/plugin/loadbalancer/proxy.go makes every load balancer include them.)
given-included :
    (c : Cluster) (xs : List Instance) (asked half_open : Bool)
    → (asked && not half_open) ≡ false
    → (given (built_value c xs) false asked == 0) ≡ false
    → (given (built_value c xs) false half_open == 0) ≡ false
given-included c xs true true h e = e
given-included c xs true false h e = cc
given-included c xs false true h e = given-half_open c xs e
given-included c xs false false h e = e

given_some :
    (v : ClusterValue) (asked half_open : Bool) (n least : ℕ)
    → (n == 0) ≡ false
    → (given v true true == 0) ≡ false
    → ((given v false asked == 0) ≡ false → (given v false half_open == 0) ≡ false)
    → (given v (is_limited true n (given v false asked) least) half_open == 0) ≡ false
unfolding is_limited
given_some v asked half_open n least e f included =
    elim (Bool-cases (leb (given v false asked) least)) [
      | inl g ↦
          let t : ltb 0 n ≡ true = ground (arith, e) in
          rw (t, g) (ap (λ k. k == 0) (given-limited v half_open) ∙ f)
      | inr g ↦
          let t : ltb 0 n ≡ true = ground (arith, e) in rw (t, g) (included (ground (arith, g)))
    ]

-- With recovery on, whatever share of the instances has to be healthy, and for a load balancer that
-- includes half-open instances at least when the call asks for them: if some instance of the cluster
-- is selectable, the load balancer is given at least one instance.
pub never_empty :
    (b : Bool) (least : ℕ → ℕ) (r : RouteInfo) (s : Service) (within : Cluster)
    (owner : List Instance) (half_open : Bool)
    → (r.include_circuit_break_instances && not half_open) ≡ false
    → let c = new_cluster b within in
      any (is_chosen (match_metadata c) c.location is_selectable) s.instances ≡ true
      → let out = filtered_cluster b least true r s (within, owner) in
        (given (built_value c s.instances) out.has_limited_instances half_open == 0) ≡ false
never_empty b least r s within owner half_open included h =
    let c = new_cluster b within in
    let v = built_value c s.instances in
    let n = count v.selectable_instances in
    let selectable = is_chosen (match_metadata c) c.location is_selectable in
    let sizes = build_from-counts (match_metadata c) c.location s.instances in
    let z = count_if-zero selectable s.instances in
    let e : (n == 0) ≡ false = ap (λ k. k == 0) sizes.3 ∙ ground (arith, z, h) in
    let f : (given v true true == 0) ≡ false = sizes.4 ∙ ap not h in
    let asked = r.include_circuit_break_instances in
    rw (limited-given b least r s within owner) (
      given_some v asked half_open n (least n) e f
        (given-included c s.instances asked half_open included))
