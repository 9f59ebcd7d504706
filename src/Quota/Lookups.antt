-- ===== src/Quota/Lookups.antt =====
-- A window that was added is found again: pkg/flow/quota/window.go.
use polaris_go.Base.{
  ℕ, ◌≡◌, refl, ap, true, false, Option, none, some, List, [], ◌∷◌, Bool-cases, Option-cases, inl,
  inr,
}
use polaris_go.Base.Int.{ℤ, ltb_ℤ, sub64}
use polaris_go.Base.Text.{Str, str_eq, str_eq_refl}
use polaris_go.Quota.{Rule}
use polaris_go.Quota.Windows.{
  WindowContainer, WindowSet, container_in, put_container, window_in, container_or_new,
}
use polaris_go.Quota.Windows.Store.{
  container_of, find_window, get_rate_limit_window, purge_windows, add_rate_limit_window,
}

put-container_in :
    (cs : List (Str × WindowContainer)) (k : Str) (c : WindowContainer)
    → container_in (put_container cs k c) k ≡ some c
put-container_in [] k c = rw (str_eq_refl k) refl
put-container_in ((j, d) ∷ cs) k c = elim (Bool-cases (str_eq j k)) [
  | inl e ↦ rw (e, str_eq_refl k) refl
  | inr e ↦ rw (e, e) (put-container_in cs k c)
]

-- The container has no main window, if the windows of the rule are spread over labels.
abbrev pub NoMain : Option WindowContainer → Type 0
NoMain none = Unit {0}
NoMain (some c) = c.main_window ≡ none

no_main : (o : Option WindowContainer) → NoMain o → (container_or_new o).main_window ≡ none
no_main none h = refl
no_main (some c) h = h

module _ {B : Type 0} (init_quota : Rule → Str → B) (s : WindowSet B) (service namespace : Str)
    (r : Rule) (labels : Str) where
  -- A window that is not spread over labels is found by the next lookup of its rule, with any labels.
  pub add_main-find :
      (labels' : Str)
      → let added = add_rate_limit_window init_quota s service namespace r labels false in
        find_window added.0 r labels' ≡ some added.1
  unfolding find_window add_rate_limit_window
  add_main-find labels' =
      let c = container_or_new (container_of s r.revision) in
      elim (Option-cases c.main_window) [
        | inl e ↦ rw (e, put-container_in s.window_by_rule r.revision _) refl
        | inr (j, e) ↦ rw (e, put-container_in s.window_by_rule r.revision _, e) refl
      ]

  spread-find :
      NoMain (container_of s r.revision)
      → let added = add_rate_limit_window init_quota s service namespace r labels true in
        find_window added.0 r labels ≡ some added.1
  unfolding find_window add_rate_limit_window
  spread-find h =
      let c = container_or_new (container_of s r.revision) in
      let m = no_main (container_of s r.revision) h in
      elim (Option-cases (window_in c.window_by_label labels)) [
        | inl e ↦ rw (e, put-container_in s.window_by_rule r.revision _, m, str_eq_refl labels) refl
        | inr (j, e) ↦ rw (e, put-container_in s.window_by_rule r.revision _, m, e) refl
      ]

  -- Adding a window leaves the times of the purge alone.
  add-purge :
      let s' = (add_rate_limit_window init_quota s service namespace r labels true).0 in
      (s'.last_purge_time_milli ≡ s.last_purge_time_milli)
      × (s'.purge_interval_milli ≡ s.purge_interval_milli)
  unfolding add_rate_limit_window
  add-purge =
      let c = container_or_new (container_of s r.revision) in
      elim (Option-cases (window_in c.window_by_label labels)) [
        | inl e ↦ rw e (refl, refl)
        | inr (j, e) ↦ rw e (refl, refl)
      ]

  -- A window of some labels, added while the container of its rule has no main window: before the
  -- next purge is due, `GetRateLimitWindow` with these labels answers it and changes nothing.
  pub add_spread-find :
      (now : ℤ)
      → NoMain (container_of s r.revision)
      → ltb_ℤ (sub64 now s.last_purge_time_milli) s.purge_interval_milli ≡ true
      → let added = add_rate_limit_window init_quota s service namespace r labels true in
        get_rate_limit_window now added.0 r labels ≡ (added.0, some added.1)
  unfolding get_rate_limit_window purge_windows
  add_spread-find now h soon =
      let p = add-purge in
      let s' = (add_rate_limit_window init_quota s service namespace r labels true).0 in
      rw (p.0, p.1, soon) (ap (λ (o : Option ℕ). (s', o)) (spread-find h))
