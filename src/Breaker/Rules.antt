-- ===== src/Breaker/Rules.antt =====
-- Which circuit breaker rule holds for a resource: plugin/circuitbreaker/composite/rule.go, with
-- matchMethod of checker.go.
mod Compare
mod Orders
mod Tests
use polaris_go.Base.{Bool, true, false, not, ◌&&◌, Option, none, some, List, [], ◌∷◌, if◌then◌else◌}
use polaris_go.Base.Text.{Str, compare_str, Order, less, same, more}
use polaris_go.Match.{Pattern, is_match_all, MatchString, ServiceKey, match_service, match_string}

pub data Level : Type 0 where
  unknown_level service method group instance_level : Level

-- What is read of `fault_tolerance.CircuitBreakerRule`.
pub record CircuitBreakerRule : Type 0 where
  pub enable : Bool
  pub level : Level
  pub destination_namespace : Str
  pub destination_service : Str
  pub destination_method : MatchString
  pub source_namespace : Str
  pub source_service : Str

-- `model.Resource`; the method is that of a method resource.
pub record Resource : Type 0 where
  pub level : Level
  pub service : Option ServiceKey
  pub caller_service : Option ServiceKey
  pub method : Str

unfoldable pub compare_string_value : Str → Str → Order
compare_string_value v₁ v₂ =
    if is_match_all v₁ && is_match_all v₂
    then same
    else if is_match_all v₁
    then more
    else if is_match_all v₂
    then less
    else compare_str v₁ v₂

-- The first comparison, and the second if that finds no difference.
abbrev pub then_by : Order → Order → Order
then_by less o = less
then_by same o = o
then_by more o = more

unfoldable pub compare_service : Str → Str → Str → Str → Order
compare_service ns₁ svc₁ ns₂ svc₂ =
    then_by (compare_string_value ns₁ ns₂) (compare_string_value svc₁ svc₂)

abbrev pub is_method : Level → Bool
is_method method = true
is_method _ = false

abbrev pub same_level : Level → Level → Bool
same_level unknown_level unknown_level = true
same_level service service = true
same_level method method = true
same_level group group = true
same_level instance_level instance_level = true
same_level _ _ = false

abbrev pub is_less : Order → Bool
is_less less = true
is_less _ = false

-- The comparison that `sortCircuitBreakerRules` sorts by, and its test.
unfoldable pub compare_rules : CircuitBreakerRule → CircuitBreakerRule → Order
compare_rules r q =
    then_by
      (compare_service r.destination_namespace r.destination_service q.destination_namespace
        q.destination_service)
      (then_by
        (if same_level r.level q.level && is_method r.level
          then compare_string_value r.destination_method.value q.destination_method.value
          else same)
        (compare_service r.source_namespace r.source_service q.source_namespace q.source_service))

unfoldable pub rule_less : CircuitBreakerRule → CircuitBreakerRule → Bool
rule_less r q = is_less (compare_rules r q)

unfoldable pub match_method : (Str → Option Pattern) → Resource → MatchString → Bool
match_method compile res m =
    if not (is_method res.level) then true else match_string compile res.method m

-- The tests of the loop of `selectCircuitBreakerRule`.
unfoldable pub rule_matches : (Str → Option Pattern) → Resource → CircuitBreakerRule → Bool
unfolding match_method
rule_matches compile res r =
    if not r.enable
    then false
    else if not (same_level r.level res.level)
    then false
    else if not (match_service res.service r.destination_namespace r.destination_service)
    then false
    else if not (match_service res.caller_service r.source_namespace r.source_service)
    then false
    else match_method compile res r.destination_method

abbrev first_match :
    (CircuitBreakerRule → Bool) → List CircuitBreakerRule → Option CircuitBreakerRule
first_match p [] = none
first_match p (r ∷ rs) = if p r then some r else first_match p rs

-- `sort` is `sort.Slice` of the standard library.
unfoldable pub select_circuit_breaker_rule :
    ((CircuitBreakerRule → CircuitBreakerRule → Bool)
      → List CircuitBreakerRule
      → List CircuitBreakerRule)
    → (Str → Option Pattern)
    → Resource
    → List CircuitBreakerRule
    → Option CircuitBreakerRule
unfolding rule_matches
select_circuit_breaker_rule sort compile res rules =
    first_match (rule_matches compile res) (sort rule_less rules)
