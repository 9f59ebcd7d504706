-- ===== src/Breaker/Counters/Progress.antt =====
-- The diagram of the breaker, and the moves of the status of counter.go.
use mathlib.Core.Path.{subst}
use polaris_go.Base.{
  ℕ, ◌+◌, ◌≡◌, refl, sym, ◌∙◌, Bool, true, ◌⊎◌, inl, inr, Option, List, [], ◌∷◌, ◌++◌, Bool-cases,
}
use polaris_go.Base.Text.{Str}
use polaris_go.Match.{Pattern}
use polaris_go.Breaker.HalfOpen.{Status, open_status, half_open, close, HalfOpenStatus}
use polaris_go.Breaker.Trigger.{Float64, report_consecutive, report_err_rate}
use polaris_go.Breaker.Counters.{
  CbStatus, base, half, get_status, is_close, is_open, is_half_open, Counter, consecutive, err_rate,
  Task, open_to_half_open, half_open_to_close, half_open_to_open, check, ResourceCounters, add_task,
  close_to_open, run_open_to_half_open, run_half_open_to_close, run_half_open_to_open,
  report_counter, report_counters, report_half_open, report_success, report, check_at, run_task,
}
use polaris_go.Breaker.Counters.Invariant.{report-trigger}
use polaris_go.Breaker.Counters.Steps.{Step, reported, ran}

infix 40 ◌⟶◌
pub data ◌⟶◌ : Status → Status → Type 0 where
  trip : close ⟶ open_status
  try : open_status ⟶ half_open
  pass : half_open ⟶ close
  fail : half_open ⟶ open_status

abbrev pub Moves : Status → Status → Type 0
Moves s t = (s ≡ t) ⊎ (s ⟶ t)

abbrev status_of : ResourceCounters → Status
status_of rc = get_status rc.status

-- What a report to a closed or open breaker may do: stay, or trip.
abbrev Trips : Status → Status → Type 0
Trips s t = (t ≡ s) ⊎ ((s ≡ close) × (t ≡ open_status))

Trips-trans : {s t u : Status} → Trips s t → Trips t u → Trips s u
Trips-trans (inl e) (inl f) = inl (f ∙ e)
Trips-trans (inl e) (inr (f, g)) = inr (sym e ∙ f, g)
Trips-trans (inr (e, f)) (inl g) = inr (e, g ∙ f)
Trips-trans (inr (e, f)) (inr (g, k)) = inr (e, k)

is_close-eq : (s : Status) → is_close s ≡ true → s ≡ close
is_close-eq close e = refl
is_close-eq open_status e = cc
is_close-eq half_open e = cc

close_to_open-Trips :
    (rc : ResourceCounters) (name : Str) → Trips (status_of rc) (status_of (close_to_open rc name))
unfolding close_to_open
close_to_open-Trips rc name = elim (Bool-cases (is_close (get_status rc.status))) [
  | inl e ↦ rw e (inr (is_close-eq _ e, refl))
  | inr e ↦ rw e (inl refl)
]

report_counter-Trips :
    (success : Bool) (now time i : ℕ) (c : Counter) (rc : ResourceCounters)
    → Trips (status_of rc) (status_of (report_counter success now time i c rc).1)
unfolding report_counter add_task
report_counter-Trips success now time i (consecutive c) rc =
    elim (Bool-cases (report_consecutive c success).1) [
      | inl e ↦ rw e (close_to_open-Trips rc rc.active_rule.name)
      | inr e ↦ rw e (inl refl)
    ]
report_counter-Trips success now time i (err_rate c) rc =
    elim (Bool-cases (report_err_rate c success now time).1) [
      | inl e ↦ rw e (inl refl)
      | inr e ↦ rw e (inl refl)
    ]

report_counters-Trips :
    (success : Bool) (now time i : ℕ) (cs : List Counter) (rc : ResourceCounters)
    → Trips (status_of rc) (status_of (report_counters success now time i cs rc).1)
unfolding report_counters
report_counters-Trips success now time i [] rc = inl refl
report_counters-Trips success now time i (c ∷ cs) rc =
    Trips-trans (report_counter-Trips success now time i c rc)
      (report_counters-Trips success now time (i + 1) cs (report_counter success now time i c rc).1)

report_half_open-status :
    (rc : ResourceCounters) (h : HalfOpenStatus) (success : Bool)
    → status_of (report_half_open rc h success) ≡ half_open
unfolding report_half_open add_task
report_half_open-status rc h success = elim (report-trigger h success) [
  | inl (checked, _, _, inl next) ↦ rw (checked, next) refl
  | inl (checked, _, _, inr next) ↦ rw (checked, next) refl
  | inr (checked, same) ↦ rw checked refl
]

report_success-Trips :
    (rc : ResourceCounters) (s : CbStatus) (success : Bool) (now time : ℕ)
    → Trips (get_status s) (status_of (report_success (record rc { status = s }) success now time))
unfolding report_success
report_success-Trips rc (base name s f) success now time =
    report_counters-Trips success now time 0 rc.counters (record rc { status = base name s f })
report_success-Trips rc (half t) success now time =
    inl (report_half_open-status (record rc { status = half t }) t success)

Moves-Trips : {s t : Status} → Trips s t → Moves s t
Moves-Trips (inl e) = inl (sym e)
Moves-Trips {s} {t} (inr (e, f)) =
    inr (subst (λ x. x ⟶ t) (sym e) (subst (λ x. close ⟶ x) (sym f) trip))

is_open-eq : (s : Status) → is_open s ≡ true → s ≡ open_status
is_open-eq close e = cc
is_open-eq open_status e = refl
is_open-eq half_open e = cc

is_half_open-eq : (s : Status) → is_half_open s ≡ true → s ≡ half_open
is_half_open-eq close e = cc
is_half_open-eq open_status e = cc
is_half_open-eq half_open e = refl

run_task-Moves :
    (F : Float64) (now : ℕ) (t : Task) (rc : ResourceCounters)
    → Moves (status_of rc) (status_of (run_task F now t rc))
unfolding run_task run_open_to_half_open run_half_open_to_close run_half_open_to_open
run_task-Moves F now open_to_half_open rc = elim (Bool-cases (is_open (get_status rc.status))) [
  | inl e ↦ rw e (inr (rw (is_open-eq _ e) try))
  | inr e ↦ rw e (inl refl)
]
run_task-Moves F now half_open_to_close rc =
    elim (Bool-cases (is_half_open (get_status rc.status))) [
      | inl e ↦ rw e (inr (rw (is_half_open-eq _ e) pass))
      | inr e ↦ rw e (inl refl)
    ]
run_task-Moves F now half_open_to_open rc =
    elim (Bool-cases (is_half_open (get_status rc.status))) [
      | inl e ↦ rw e (inr (rw (is_half_open-eq _ e) fail))
      | inr e ↦ rw e (inl refl)
    ]
run_task-Moves F now (check i) rc = elim (Bool-cases (check_at F now i rc.counters).1) [
  | inl e ↦ rw e (
      Moves-Trips (
        close_to_open-Trips (record rc { counters = (check_at F now i rc.counters).0 })
          rc.active_rule.name))
  | inr e ↦ rw e (inl refl)
]

-- Each step leaves the status or follows an edge of the diagram: from closed to open, from open to
-- half-open, and from half-open to closed or back to open.
pub Step-Moves :
    (compile : Str → Option Pattern) (F : Float64) {rc rc' : ResourceCounters}
    → Step compile F rc rc'
    → Moves (get_status rc.status) (get_status rc'.status)
unfolding report
Step-Moves compile F (reported rc stat now time) =
    Moves-Trips (report_success-Trips rc rc.status _ now time)
Step-Moves compile F (ran rc xs ys t now e) =
    run_task-Moves F now t (record rc { pending = xs ++ ys })
