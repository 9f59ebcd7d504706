-- ===== src/Quota/Windows/Store.antt =====
-- The windows that a service keeps: how pkg/flow/quota/window.go finds, adds, purges and deletes them.
use polaris_go.Base.{
  ℕ, Bool, true, false, not, Option, none, some, List, [], ◌∷◌, ◌++◌, if◌then◌else◌, length,
  get_elem?, set,
}
use polaris_go.Base.Int.{ℤ, pos, negsuc, ltb_ℤ, sub64}
use polaris_go.Base.Text.{Str}
use polaris_go.Quota.{Rule}
use polaris_go.Quota.Windows.{
  get_expire_duration, to_milli_seconds, build_quota_key, build_remote_config_mode, container_in,
  put_container, drop_container, window_in, all_windows, add32, both_windows, forget_window,
  container_or_new, find_in, known_or, is_global, RateLimitWindow, WindowContainer, WindowSet,
  created, deleted,
}

module _ {B : Type 0} where
  -- `Expired`
  unfoldable pub is_expired : RateLimitWindow B → ℤ → Bool
  is_expired w now = ltb_ℤ (to_milli_seconds w.expire_nanos) (sub64 now w.last_access_time_milli)

  abbrev pub container_of : WindowSet B → Str → Option WindowContainer
  container_of s revision = container_in s.window_by_rule revision

  abbrev mark_deleted : List (RateLimitWindow B) → ℕ → List (RateLimitWindow B)
  mark_deleted store i = elim (get_elem? store i) [
    | none ↦ store
    | some w ↦ set store i (record w { status = deleted })
  ]

  -- `deleteWindow`, with `DelWindowCount`
  unfoldable pub delete_window : WindowSet B → ℕ → WindowSet B
  delete_window s i = record s {
    store = mark_deleted s.store i;
    window_count = add32 s.window_count (negsuc 0);
  }

  unfoldable pub delete_windows : WindowSet B → List ℕ → WindowSet B
  unfolding delete_window
  delete_windows s [] = s
  delete_windows s (i ∷ is) = delete_windows (delete_window s i) is

  unfoldable pub delete_container : WindowSet B → Str → WindowSet B
  delete_container s revision =
      delete_windows (record s { window_by_rule = drop_container s.window_by_rule revision })
        (both_windows (container_of s revision))

  unfoldable pub on_window_expired : ℤ → WindowSet B → ℕ → WindowSet B × Bool
  unfolding is_expired delete_window
  on_window_expired now s i = elim (get_elem? s.store i) [
    | none ↦ (s, false)
    | some w ↦ if not (is_expired w now) then (s, false) else (
      delete_window
          (record s { window_by_rule = forget_window s.window_by_rule w.rule.revision w.labels i })
          i,
      true,
    )
  ]

  -- The loop of `PurgeWindows` over the windows that there were.
  unfoldable pub purge_all : ℤ → WindowSet B → List ℕ → WindowSet B
  unfolding on_window_expired
  purge_all now s [] = s
  purge_all now s (i ∷ is) = let (s', done) = on_window_expired now s i in purge_all now s' is

  unfoldable pub purge_windows : ℤ → WindowSet B → WindowSet B
  unfolding purge_all all_windows
  purge_windows now s =
      if ltb_ℤ (sub64 now s.last_purge_time_milli) s.purge_interval_milli
      then s
      else purge_all now (record s { last_purge_time_milli = now }) (all_windows s.window_by_rule)

  -- The part of `GetRateLimitWindow` after the purge.
  unfoldable pub find_window : WindowSet B → Rule → Str → Option ℕ
  find_window s r labels = find_in (container_of s r.revision) labels

  unfoldable pub get_rate_limit_window : ℤ → WindowSet B → Rule → Str → WindowSet B × Option ℕ
  unfolding purge_windows find_window
  get_rate_limit_window now s r labels =
      let s' = purge_windows now s in (s', find_window s' r labels)

  -- `init_quota` is `InitQuota` of the rule's plugin; the service and the namespace are those that
  -- the rule names. The time of the last access is zero until
  -- the first request.
  unfoldable pub new_rate_limit_window :
      (Rule → Str → B) → WindowSet B → Str → Str → Rule → Str → RateLimitWindow B
  unfolding build_quota_key get_expire_duration build_remote_config_mode
  new_rate_limit_window init_quota s service namespace r labels =
      let key = build_quota_key service namespace labels in
      let (ns, svc, mode) =
        build_remote_config_mode r (if is_global r.type then s.limiter_namespace else [])
          (if is_global r.type then s.limiter_service else []) in
      record {
        labels = labels;
        unique_key = key;
        rule = r;
        expire_nanos = get_expire_duration r;
        remote_namespace = ns;
        remote_service = svc;
        config_mode = mode;
        bucket = init_quota r key;
        status = created;
        last_access_time_milli = pos 0;
        time_diff = pos 0;
      }

  -- `AddRateLimitWindow`: the window that is there, or a new one.
  unfoldable pub add_rate_limit_window :
      (Rule → Str → B) → WindowSet B → Str → Str → Rule → Str → Bool → WindowSet B × ℕ
  unfolding new_rate_limit_window
  add_rate_limit_window init_quota s service namespace r labels spread =
      let c = container_or_new (container_of s r.revision) in
      let i = length s.store in
      let known = if spread then window_in c.window_by_label labels else c.main_window in
      let c' =
        if spread
        then record c { window_by_label = (labels, i) ∷ c.window_by_label }
        else record c { main_window = some i } in
      let added = record s {
        store = s.store ++ (new_rate_limit_window init_quota s service namespace r labels ∷ []);
        window_by_rule = put_container s.window_by_rule r.revision c';
        window_count = add32 s.window_count (pos 1);
      } in
      known_or known
        (λ j. (record s { window_by_rule = put_container s.window_by_rule r.revision c }, j))
        (added, i)
