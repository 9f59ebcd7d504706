-- ===== src/Quota/Allocate.antt =====
-- A request for quota: GetQuota of pkg/flow/quota/assist.go, with the windows that it takes from.
use polaris_go.Base.{ℕ, Bool, true, false, none, some, List, [], ◌∷◌, if◌then◌else◌, get_elem?, set}
use polaris_go.Base.Int.{ℤ, pos, ltb_ℤ, add64}
use polaris_go.Base.Text.{Str}
use polaris_go.Quota.{Rule}
use polaris_go.Quota.Windows.{
  created, initializing, initialized, local_mode, global_mode, RateLimitWindow, WindowSet, known_or,
}
use polaris_go.Quota.Windows.Store.{get_rate_limit_window, add_rate_limit_window}

pub data QuotaResultCode : Type 0 where
  quota_result_ok quota_result_limited : QuotaResultCode

pub record QuotaResponse : Type 0 where
  pub code : QuotaResultCode
  pub wait_ms : ℤ

-- A rule that a request meets with the time of its lookup, its labels and whether they spread its
-- windows.
abbrev pub Labelled : Type 0
Labelled = ℤ × Rule × Str × Bool

abbrev pub is_limited : QuotaResponse → Bool
is_limited a = elim a.code [ quota_result_limited ↦ true | quota_result_ok ↦ false ]

module _ {B : Type 0} where
  -- `Init`: a window of a remote rule waits in the queue of the tasks.
  unfoldable pub init_window : WindowSet B → ℕ → RateLimitWindow B → WindowSet B
  init_window s i w = elim w.status [
    | created ↦ elim w.config_mode [
      | local_mode ↦ record s { store = set s.store i (record w { status = initialized }) }
      | global_mode ↦ record s {
        store = set s.store i (record w { status = initializing });
        task_values = i ∷ s.task_values;
      }
    ]
    | _ ↦ s
  ]

  -- `toServerTimeMilli`
  unfoldable pub to_server_time_milli : RateLimitWindow B → ℤ → ℤ
  to_server_time_milli w now = add64 now w.time_diff

  -- `AllocateQuota`; `take` is `GetQuota` of the buckets.
  unfoldable pub allocate_quota :
      (B → ℤ → ℕ → B × QuotaResponse)
      → ℤ
      → ℕ
      → RateLimitWindow B
      → RateLimitWindow B × QuotaResponse
  unfolding to_server_time_milli
  allocate_quota take now token w =
      let (bucket, answer) = take w.bucket (to_server_time_milli w now) token in
      (record w { last_access_time_milli = now; bucket = bucket }, answer)

  -- What one window of the request does: a place that is not in the store is none of its windows.
  unfoldable pub take_from :
      (B → ℤ → ℕ → B × QuotaResponse) → ℤ → ℕ → WindowSet B → ℕ → WindowSet B × QuotaResponse
  unfolding init_window allocate_quota
  take_from take now token s i =
      let free : QuotaResponse = record { code = quota_result_ok; wait_ms = pos 0 } in
      elim (get_elem? s.store i) [
        | none ↦ (s, free)
        | some w ↦
            let s' = init_window s i w in
            elim (get_elem? s'.store i) [
              | none ↦ (s', free)
              | some w' ↦
                  let (w'', answer) = allocate_quota take now token w' in
                  (record s' { store = set s'.store i w'' }, answer)
            ]
      ]

  -- The loop over the windows, each with the time at which it is asked.
  unfoldable pub get_quota :
      (B → ℤ → ℕ → B × QuotaResponse)
      → ℕ
      → WindowSet B
      → List (ℕ × ℤ)
      → ℤ
      → WindowSet B × QuotaResponse
  get_quota take token s [] longest = (s, record { code = quota_result_ok; wait_ms = longest })
  get_quota take token s ((i, now) ∷ is) longest =
      let (s', answer) = take_from take now token s i in
      let longer = if ltb_ℤ longest answer.wait_ms then answer.wait_ms else longest in
      let rest = get_quota take token s' is longer in
      if is_limited answer then (s', answer) else rest

  -- The loop of `lookupRateLimitWindow`, after the rules were matched.
  unfoldable pub lookup_rate_limit_window :
      (Rule → Str → B) → Str → Str → WindowSet B → List Labelled → WindowSet B × List ℕ
  lookup_rate_limit_window init_quota service namespace s [] = (s, [])
  lookup_rate_limit_window init_quota service namespace s ((now, r, labels, spread) ∷ rs) =
      let (s₁, known) = get_rate_limit_window now s r labels in
      let (s₂, i) =
        known_or known (λ j. (s₁, j))
          (add_rate_limit_window init_quota s₁ service namespace r labels spread) in
      let (s₃, is) = lookup_rate_limit_window init_quota service namespace s₂ rs in (s₃, i ∷ is)
