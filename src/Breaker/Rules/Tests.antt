-- ===== src/Breaker/Rules/Tests.antt =====
-- The order of circuit breaker rules, at three rules for methods.
use polaris_go.Base.{◌≡◌, refl, true, [], ◌∷◌}
use polaris_go.Base.Text.{Str}
use polaris_go.Match.{exact}
use polaris_go.Breaker.Rules.{method, CircuitBreakerRule, compare_rules}
use polaris_go.Breaker.Rules.Compare.{flip, Fits}
use polaris_go.Breaker.Rules.Orders.{compare_rules_lem}

-- A rule for one service and method, or for all if the text is empty.
abbrev rule : Str → Str → CircuitBreakerRule
rule name method_name = record {
  enable = true;
  level = method;
  destination_namespace = [];
  destination_service = name;
  destination_method = record { kind = exact; value = method_name };
  source_namespace = [];
  source_service = [];
}

abbrev first : CircuitBreakerRule
first = rule (b's' ∷ []) (b'm' ∷ [])

abbrev second : CircuitBreakerRule
second = rule (b's' ∷ []) []

abbrev third : CircuitBreakerRule
third = rule [] (b'm' ∷ [])

compare_rules_lem_example :
    (compare_rules second first ≡ flip (compare_rules first second))
    × Fits (compare_rules first second) (compare_rules second third) (compare_rules first third)
compare_rules_lem_example = compare_rules_lem first second third refl refl
