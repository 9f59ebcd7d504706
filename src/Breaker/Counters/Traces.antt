-- ===== src/Breaker/Counters/Traces.antt =====
-- The long run of counter.go with suspended counters (nothing calls `resume` of
-- trigger/counter.go).
use mathlib.Core.Path.{subst}
use polaris_go.Base.{
  ℕ, ◌+◌, ◌≡◌, ◌≢◌, refl, sym, ap, ◌∙◌, Bool, true, Option, List, [], ◌∷◌, ◌++◌, All,
}
use polaris_go.Base.Text.{Str}
use polaris_go.Match.{Pattern}
use polaris_go.Breaker.HalfOpen.{close}
use polaris_go.Breaker.Trigger.{Float64, report_consecutive, report_err_rate}
use polaris_go.Breaker.Counters.{
  CbStatus, base, half, get_status, Counter, consecutive, err_rate, Task, ResourceCounters,
  report_counter, report_counters, report_success, report,
}
use polaris_go.Breaker.Counters.Steps.{Step, reported, ran, Reach, here, next}

abbrev is_suspended : Counter → Bool
is_suspended (consecutive c) = c.suspended
is_suspended (err_rate c) = c.suspended

abbrev pub AllSuspended : List Counter → Type 0
AllSuspended = All (λ c. is_suspended c ≡ true)

report_counter-suspended :
    (success : Bool) (now time i : ℕ) (c : Counter) (rc : ResourceCounters)
    → is_suspended c ≡ true
    → report_counter success now time i c rc ≡ (c, rc)
unfolding report_counter report_consecutive report_err_rate
report_counter-suspended success now time i (consecutive c) rc h = rw h refl
report_counter-suspended success now time i (err_rate c) rc h = rw h refl

report_counters-suspended :
    (success : Bool) (now time i : ℕ) (cs : List Counter) (rc : ResourceCounters)
    → AllSuspended cs
    → report_counters success now time i cs rc ≡ (cs, rc)
unfolding report_counters
report_counters-suspended success now time i [] rc h = refl
report_counters-suspended success now time i (c ∷ cs) rc (h, hs) =
    rw
      (
        report_counter-suspended success now time i c rc h,
        report_counters-suspended success now time (i + 1) cs rc hs,
      )
      refl

report-suspended :
    (rc : ResourceCounters) (s : CbStatus) (success : Bool) (now time : ℕ)
    → AllSuspended rc.counters
    → get_status s ≡ close
    → report_success (record rc { status = s }) success now time ≡ record rc { status = s }
unfolding report_success
report-suspended rc (base name t f) success now time h e =
    rw
      (report_counters-suspended success now time 0 rc.counters
        (record rc { status = base name t f }) h)
      refl
report-suspended rc (half t) success now time h e = cc

not-pending : (xs ys : List Task) (t : Task) → xs ++ (t ∷ ys) ≢ []
not-pending [] ys t e = cc
not-pending (x ∷ xs) ys t e = cc

Step-suspended :
    (compile : Str → Option Pattern) (F : Float64) {rc rc' : ResourceCounters}
    → AllSuspended rc.counters
    → rc.pending ≡ []
    → get_status rc.status ≡ close
    → Step compile F rc rc'
    → rc' ≡ rc
unfolding report
Step-suspended compile F h p e (reported rc stat now time) =
    report-suspended rc rc.status _ now time h e
Step-suspended compile F h p e (ran rc xs ys t now e') = absurd (not-pending xs ys t (sym e' ∙ p))

-- A closed breaker with every counter suspended and nothing pending stays as it is: no reports,
-- whatever they say, and no tasks change it, so that it never opens again.
pub suspended_never_opens :
    (compile : Str → Option Pattern) (F : Float64) (rc rc' : ResourceCounters)
    → AllSuspended rc.counters
    → rc.pending ≡ []
    → get_status rc.status ≡ close
    → Reach compile F rc rc'
    → rc' ≡ rc
suspended_never_opens compile F rc rc' h p e here = refl
suspended_never_opens compile F rc rc' h p e (next {rc' = s} r step) =
    let same = suspended_never_opens compile F rc s h p e r in
    Step-suspended compile F (subst (λ s. AllSuspended s.counters) (sym same) h)
      (ap (λ s. s.pending) same ∙ p) (ap (λ s. get_status s.status) same ∙ e) step
    ∙ same
