-- ===== src/Breaker/Counters/Invariant.antt =====
-- The invariant of the counters of a resource (counter.go): how the status and the pending tasks
-- fit.
use mathlib.Core.Path.{subst, ap₂}
use mathlib.Core.List.{append-nil}
use polaris_go.Base.{
  ℕ, ◌+◌, ◌≡◌, refl, sym, ap, ◌∙◌, Bool, true, false, ◌⊎◌, inl, inr, Option, List, [], ◌∷◌, ◌++◌,
  Bool-cases, arith,
}
use polaris_go.Base.Text.{Str}
use polaris_go.Match.{Pattern}
use polaris_go.Breaker.HalfOpen
use polaris_go.Breaker.HalfOpen.{
  Status, open_status, half_open, close, HalfOpenStatus, new_half_open_status, cal_next_status,
  IsTrial, report-IsTrial,
}
use polaris_go.Breaker.Trigger.{report_consecutive, report_err_rate}
use polaris_go.Breaker.Counters.{
  CbStatus, base, half, get_status, is_close, Counter, consecutive, err_rate, Task,
  open_to_half_open, half_open_to_close, half_open_to_open, check, ResourceCounters, ResourceStat,
  BreakerRule, new_resource_counters, add_task, close_to_open, report_counter, report_counters,
  report_half_open, report_success, report,
}

-- The tasks that change the status.
unfoldable pub transitions : List Task → List Task
transitions [] = []
transitions (open_to_half_open ∷ ts) = open_to_half_open ∷ transitions ts
transitions (half_open_to_close ∷ ts) = half_open_to_close ∷ transitions ts
transitions (half_open_to_open ∷ ts) = half_open_to_open ∷ transitions ts
transitions (check i ∷ ts) = transitions ts

-- The tasks of a trial: none while it runs, and the one that ends it once it is decided.
abbrev pub FitsTrial : Bool → List Task → Type 0
FitsTrial false ts = ts ≡ []
FitsTrial true ts = (ts ≡ half_open_to_close ∷ []) ⊎ (ts ≡ half_open_to_open ∷ [])

-- The status and the tasks fit: closed with none; open with the task that starts the trial; on
-- trial as above. A base status is not half-open.
abbrev pub Fits : CbStatus → List Task → Type 0
Fits (base name close f) ts = ts ≡ []
Fits (base name open_status f) ts = ts ≡ open_to_half_open ∷ []
Fits (base name half_open f) ts = ⊥
Fits (half h) ts = FitsTrial h.triggered ts

pub record IsSound (rc : ResourceCounters) : Type 0 where
  pub fits : Fits rc.status (transitions rc.pending)

pub transitions-append :
    (xs ys : List Task) → transitions (xs ++ ys) ≡ transitions xs ++ transitions ys
unfolding transitions
transitions-append [] ys = refl
transitions-append (open_to_half_open ∷ xs) ys =
    ap (λ ts. open_to_half_open ∷ ts) (transitions-append xs ys)
transitions-append (half_open_to_close ∷ xs) ys =
    ap (λ ts. half_open_to_close ∷ ts) (transitions-append xs ys)
transitions-append (half_open_to_open ∷ xs) ys =
    ap (λ ts. half_open_to_open ∷ ts) (transitions-append xs ys)
transitions-append (check i ∷ xs) ys = transitions-append xs ys

pub new-IsSound :
    (rule : BreakerRule) (ins : Bool) (now : ℕ) → IsSound (new_resource_counters rule ins now)
unfolding new_resource_counters transitions
new-IsSound rule ins now = record { fits = refl }

-- The status changes, by the status before.
module _ (rc : ResourceCounters) (name : Str) where
  close_to_open-closed :
      is_close (get_status rc.status) ≡ true
      → transitions rc.pending ≡ []
      → IsSound (close_to_open rc name)
  unfolding close_to_open transitions
  close_to_open-closed e h =
      rw e (record { fits = transitions-append rc.pending (open_to_half_open ∷ []) ∙ rw h })

  close_to_open-other : is_close (get_status rc.status) ≡ false → close_to_open rc name ≡ rc
  unfolding close_to_open
  close_to_open-other e = rw e

Fits-closed : (s : CbStatus) (ts : List Task) → Fits s ts → is_close (get_status s) ≡ true → ts ≡ []
Fits-closed (base name close f) ts h e = h
Fits-closed (base name open_status f) ts h e = cc
Fits-closed (base name half_open f) ts h e = cc
Fits-closed (half h') ts h e = cc

pub close_to_open-IsSound :
    (rc : ResourceCounters) (name : Str) → IsSound rc → IsSound (close_to_open rc name)
close_to_open-IsSound rc name h = elim (Bool-cases (is_close (get_status rc.status))) [
  | inl e ↦ close_to_open-closed rc name e (Fits-closed rc.status (transitions rc.pending) h.fits e)
  | inr e ↦ subst IsSound (sym (close_to_open-other rc name e)) h
]

add_check-IsSound : (rc : ResourceCounters) (i : ℕ) → IsSound rc → IsSound (add_task rc (check i))
unfolding add_task transitions
add_check-IsSound rc i h = record {
  fits =
      subst (Fits rc.status) (sym (transitions-append rc.pending (check i ∷ []) ∙ append-nil _))
        h.fits;
}

report_counter-IsSound :
    (success : Bool) (now time i : ℕ) (c : Counter) (rc : ResourceCounters)
    → IsSound rc
    → IsSound (report_counter success now time i c rc).1
unfolding report_counter
report_counter-IsSound success now time i (consecutive c) rc h =
    elim (Bool-cases (report_consecutive c success).1) [
      | inl e ↦ rw e (close_to_open-IsSound rc rc.active_rule.name h)
      | inr e ↦ rw e h
    ]
report_counter-IsSound success now time i (err_rate c) rc h =
    elim (Bool-cases (report_err_rate c success now time).1) [
      | inl e ↦ rw e (add_check-IsSound rc i h)
      | inr e ↦ rw e h
    ]

report_counters-IsSound :
    (success : Bool) (now time i : ℕ) (cs : List Counter) (rc : ResourceCounters)
    → IsSound rc
    → IsSound (report_counters success now time i cs rc).1
unfolding report_counters
report_counters-IsSound success now time i [] rc h = h
report_counters-IsSound success now time i (c ∷ cs) rc h =
    report_counters-IsSound success now time (i + 1) cs (report_counter success now time i c rc).1
      (report_counter-IsSound success now time i c rc h)

-- What a report to a trial does: it decides the trial, or leaves the trigger as it was.
pub report-trigger :
    (h : HalfOpenStatus) (success : Bool)
    → let (h', checked) = HalfOpen.report h success in
      ((checked ≡ true)
        × (h.triggered ≡ false)
        × (h'.triggered ≡ true)
        × ((cal_next_status h' ≡ close) ⊎ (cal_next_status h' ≡ open_status)))
      ⊎ ((checked ≡ false) × (h'.triggered ≡ h.triggered))
unfolding HalfOpen.report cal_next_status
report-trigger h success = ground arith

module _ (rc : ResourceCounters) (h : HalfOpenStatus) (success : Bool)
    (f : FitsTrial h.triggered (transitions rc.pending)) where
  add_end :
      (t : Task)
      → (transitions (t ∷ []) ≡ t ∷ [])
      → h.triggered ≡ false
      → transitions (rc.pending ++ (t ∷ [])) ≡ t ∷ []
  add_end t e untriggered =
      transitions-append rc.pending (t ∷ [])
      ∙ ap₂ ◌++◌ (subst (λ b. FitsTrial b (transitions rc.pending)) untriggered f) e

  report_half_open-IsSound : IsSound (report_half_open rc h success)
  unfolding report_half_open add_task transitions
  report_half_open-IsSound = elim (report-trigger h success) [
    | inl (checked, untriggered, triggered, inl next) ↦
        rw (checked, next)
          (record { fits = rw triggered (inl (add_end half_open_to_close refl untriggered)) })
    | inl (checked, untriggered, triggered, inr next) ↦
        rw (checked, next)
          (record { fits = rw triggered (inr (add_end half_open_to_open refl untriggered)) })
    | inr (checked, same) ↦ rw checked (record { fits = rw same f })
  ]

-- By the status before, given apart from the rest.
report_success-status :
    (rc : ResourceCounters) (s : CbStatus) (success : Bool) (now time : ℕ)
    → IsSound (record rc { status = s })
    → IsSound (report_success (record rc { status = s }) success now time)
unfolding report_success
report_success-status rc (base name s f) success now time h =
    let rc' = record rc { status = base name s f } in
    record { fits = (report_counters-IsSound success now time 0 rc.counters rc' h).fits }
report_success-status rc (half t) success now time h =
    report_half_open-IsSound (record rc { status = half t }) t success h.fits

pub report-IsSound :
    (compile : Str → Option Pattern) (rc : ResourceCounters) (stat : ResourceStat) (now time : ℕ)
    → IsSound rc
    → IsSound (report compile rc stat now time)
unfolding report
report-IsSound compile rc stat now time h = report_success-status rc rc.status _ now time h
