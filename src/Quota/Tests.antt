-- ===== src/Quota/Tests.antt =====
-- The theorems on the windows of a service, at a rule of one amount.
use polaris_go.Base.{ℕ, ◌≡◌, refl, true, false, some, [], ◌∷◌}
use polaris_go.Base.Int.{pos, sub64, wrap64, ◌-ℤ◌}
use polaris_go.Base.Text.{Str, str_eq}
use polaris_go.Match.{exact}
use polaris_go.Quota.{Rule, local}
use polaris_go.Quota.Windows.{WindowSet}
use polaris_go.Quota.Windows.Store.{get_rate_limit_window, add_rate_limit_window}
use polaris_go.Quota.Updates.{on_service_updated, update_keeps}
use polaris_go.Quota.Lookups.{add_spread-find}

abbrev rule : Rule
rule = record {
  id = b'r' ∷ [];
  revision = b'1' ∷ [];
  type = local;
  disable = false;
  method = record { kind = exact; value = [] };
  arguments = [];
  regex_combine = false;
  amounts = pos 1000000000 ∷ [];
  cluster_namespace = [];
  cluster_service = [];
}

-- The same rule after a change.
abbrev changed_rule : Rule
changed_rule = record rule { revision = b'2' ∷ [] }

abbrev empty_set : WindowSet ℕ
empty_set = record {
  store = [];
  window_by_rule = [];
  last_purge_time_milli = pos 0;
  window_count = pos 0;
  purge_interval_milli = pos 10000;
  limiter_namespace = [];
  limiter_service = [];
  task_values = [];
}

abbrev quota : Rule → Str → ℕ
quota r key = 10

abbrev one_window : WindowSet ℕ
one_window = (add_rate_limit_window quota empty_set [] [] rule [] false).0

update_keeps_example : on_service_updated one_window (changed_rule ∷ []) ≡ one_window
unfolding str_eq add_rate_limit_window
update_keeps_example = update_keeps one_window (changed_rule ∷ []) refl

add_spread-find_example :
    let added = add_rate_limit_window quota empty_set [] [] rule (b'x' ∷ []) true in
    get_rate_limit_window (pos 5000) added.0 rule (b'x' ∷ []) ≡ (added.0, some added.1)
unfolding sub64 wrap64 ◌-ℤ◌
add_spread-find_example = add_spread-find quota empty_set [] [] rule (b'x' ∷ []) (pos 5000) tt refl
