-- ===== src/Breaker/Rules/Orders.antt =====
-- The order in which circuit breaker rules are tried: plugin/circuitbreaker/composite/rule.go.
use polaris_go.Base.{◌≡◌, refl, sym, ap, ◌∙◌, true, if◌then◌else◌}
use polaris_go.Base.Text.{Str, Order, same}
use polaris_go.Breaker.Rules.{
  Level, unknown_level, service, method, group, instance_level, CircuitBreakerRule,
  compare_string_value, then_by, compare_service, is_method, same_level, compare_rules,
}
use polaris_go.Breaker.Rules.Compare.{flip, Fits, IsCompare, then_by-IsCompare, texts-IsCompare}

by-IsCompare :
    {A B : Type 0} (f : A → A → Order) (g : B → A) → IsCompare f → IsCompare (λ x y. f (g x) (g y))
by-IsCompare f g c = record {
  flips = λ a b. c.flips (g a) (g b);
  fits = λ a b d. c.fits (g a) (g b) (g d);
}

same-IsCompare : {A : Type 0} → IsCompare (λ (a b : A). same)
same-IsCompare = record { flips = λ a b. refl; fits = λ a b c. refl }

-- Two services by their namespace and name.
services : Str × Str → Str × Str → Order
services a b = compare_service a.0 a.1 b.0 b.1

services-IsCompare : IsCompare services
unfolding services compare_service
services-IsCompare =
    then_by-IsCompare (λ a b. compare_string_value a.0 b.0) (λ a b. compare_string_value a.1 b.1)
      (by-IsCompare compare_string_value (λ (a : Str × Str). a.0) texts-IsCompare)
      (by-IsCompare compare_string_value (λ (a : Str × Str). a.1) texts-IsCompare)

-- The comparison of rules that are both of a level.
methods : Level → CircuitBreakerRule → CircuitBreakerRule → Order
methods l r q =
    if is_method l
    then compare_string_value r.destination_method.value q.destination_method.value
    else same

methods-IsCompare : (l : Level) → IsCompare (methods l)
unfolding methods
methods-IsCompare method =
    by-IsCompare compare_string_value (λ (r : CircuitBreakerRule). r.destination_method.value)
      texts-IsCompare
methods-IsCompare unknown_level = same-IsCompare
methods-IsCompare service = same-IsCompare
methods-IsCompare group = same-IsCompare
methods-IsCompare instance_level = same-IsCompare

of_level : Level → CircuitBreakerRule → CircuitBreakerRule → Order
of_level l r q =
    then_by
      (services (r.destination_namespace, r.destination_service)
        (q.destination_namespace, q.destination_service))
      (then_by (methods l r q)
        (services (r.source_namespace, r.source_service) (q.source_namespace, q.source_service)))

of_level-IsCompare : (l : Level) → IsCompare (of_level l)
unfolding of_level
of_level-IsCompare l =
    then_by-IsCompare _ _
      (by-IsCompare services
        (λ (r : CircuitBreakerRule). (r.destination_namespace, r.destination_service))
        services-IsCompare)
      (then_by-IsCompare (methods l) _ (methods-IsCompare l) (
        by-IsCompare services (λ (r : CircuitBreakerRule). (r.source_namespace, r.source_service))
          services-IsCompare))

itself : (l : Level) → same_level l l ≡ true
itself unknown_level = refl
itself service = refl
itself method = refl
itself group = refl
itself instance_level = refl

same_level_refl : (l k : Level) → l ≡ k → same_level l k ≡ true
same_level_refl l k e = sym (ap (same_level l) e) ∙ itself l

compare-of_level :
    (r q : CircuitBreakerRule) → r.level ≡ q.level → compare_rules r q ≡ of_level r.level r q
unfolding compare_rules of_level methods services
compare-of_level r q e = rw (same_level_refl r.level q.level e) refl

-- On rules of one level the comparison that they are sorted by is a total preorder: to swap two
-- rules turns its answer round, and what it says of two rules that follow each other goes together.
-- A rule before another, or level with it, that is before a third one or level with it is before
-- the third one, and level with it only if both are level.
pub compare_rules_lem :
    (r q p : CircuitBreakerRule)
    → r.level ≡ q.level
    → q.level ≡ p.level
    → (compare_rules q r ≡ flip (compare_rules r q))
      × Fits (compare_rules r q) (compare_rules q p) (compare_rules r p)
compare_rules_lem r q p e f =
    let c = of_level-IsCompare r.level in
    let g : compare_rules q p ≡ of_level r.level q p =
      compare-of_level q p f ∙ ap (λ l. of_level l q p) (sym e) in
    let h : compare_rules q r ≡ of_level r.level q r =
      compare-of_level q r (sym e) ∙ ap (λ l. of_level l q r) (sym e) in
    rw (compare-of_level r q e, g, h, compare-of_level r p (e ∙ f)) (c.flips r q, c.fits r q p)
