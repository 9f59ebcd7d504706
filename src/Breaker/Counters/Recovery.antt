-- ===== src/Breaker/Counters/Recovery.antt =====
-- How the breaker of counter.go leaves its open and half-open status: by the tasks that are
-- pending.
use mathlib.Core.Path.{subst}
use polaris_go.Base.{ℕ, ◌≡◌, refl, ap, Bool, true, ◌⊎◌, inl, inr, Option, List, [], ◌∷◌, ◌++◌}
use polaris_go.Base.Text.{Str}
use polaris_go.Match.{Pattern}
use polaris_go.Breaker.HalfOpen.{open_status, half_open, close, HalfOpenStatus}
use polaris_go.Breaker.Trigger.{Float64}
use polaris_go.Breaker.Counters.{
  CbStatus, base, half, get_status, Task, open_to_half_open, half_open_to_close, half_open_to_open,
  check, BreakerRule, ResourceCounters, run_open_to_half_open, run_half_open_to_close,
  run_half_open_to_open, to_open, run_task, new_resource_counters,
}
use polaris_go.Breaker.Counters.Invariant.{transitions, Fits, FitsTrial, IsSound}
use polaris_go.Breaker.Counters.Steps.{Step, ran, Reach, Reach-IsSound}

-- Where a task stands in a list.
At : Task → List Task → Type 0
At t ts = (xs : List Task) × (ys : List Task) × (ts ≡ xs ++ (t ∷ ys))

At-cons : (t u : Task) (ts : List Task) → At t ts → At t (u ∷ ts)
unfolding At
At-cons t u ts (xs, ys, e) = (u ∷ xs, ys, ap (λ l. u ∷ l) e)

At-head : (t u : Task) (ts : List Task) → u ≡ t → At t (u ∷ ts)
unfolding At
At-head t u ts e = ([], ts, ap (λ x. x ∷ ts) e)

pending-At : (t : Task) (ts : List Task) → transitions ts ≡ t ∷ [] → At t ts
unfolding transitions
pending-At t [] e = cc
pending-At t (open_to_half_open ∷ ts) e = At-head t open_to_half_open ts (cc)
pending-At t (half_open_to_close ∷ ts) e = At-head t half_open_to_close ts (cc)
pending-At t (half_open_to_open ∷ ts) e = At-head t half_open_to_open ts (cc)
pending-At t (check i ∷ ts) e = At-cons t (check i) ts (pending-At t ts e)

open-Fits :
    (s : CbStatus) (ts : List Task)
    → get_status s ≡ open_status
    → Fits s ts
    → ts ≡ open_to_half_open ∷ []
open-Fits (base name close f) ts e h = cc
open-Fits (base name open_status f) ts e h = h
open-Fits (base name half_open f) ts e h = cc
open-Fits (half t) ts e h = cc

module _ (compile : Str → Option Pattern) (F : Float64) (rc : ResourceCounters) where
  -- A pending task with a status it leads to.
  run_pending :
      (t : Task)
      → At t rc.pending
      → (rc' : ResourceCounters) × Step compile F rc rc'
        × ((xs : List Task) × rc' ≡ run_task F 0 t (record rc { pending = xs }))
  unfolding At
  run_pending t (xs, ys, e) =
      (run_task F 0 t (record rc { pending = xs ++ ys }), ran rc xs ys t 0 e, (xs ++ ys, refl))

  open_starts_trial :
      IsSound rc
      → get_status rc.status ≡ open_status
      → (rc' : ResourceCounters) × Step compile F rc rc' × (get_status rc'.status ≡ half_open)
  unfolding run_task run_open_to_half_open
  open_starts_trial h e =
      let (rc', step, (xs, same)) =
        run_pending open_to_half_open
          (pending-At open_to_half_open rc.pending (open-Fits rc.status _ e h.fits)) in
      (rc', step, rw (same, e) refl)

  decided_trial_ends :
      (t : HalfOpenStatus)
      → IsSound rc
      → rc.status ≡ half t
      → t.triggered ≡ true
      → (rc' : ResourceCounters) × Step compile F rc rc'
        × ((get_status rc'.status ≡ close) ⊎ (get_status rc'.status ≡ open_status))
  unfolding run_task run_half_open_to_close run_half_open_to_open to_open
  decided_trial_ends t h e b =
      let fits : FitsTrial true (transitions rc.pending) =
        subst (λ b. FitsTrial b (transitions rc.pending)) b
          (subst (λ s. Fits s (transitions rc.pending)) e h.fits) in
      elim fits [
        | inl f ↦
            let (rc', step, (xs, same)) =
              run_pending half_open_to_close (pending-At half_open_to_close rc.pending f) in
            (rc', step, inl (rw (same, e) refl))
        | inr f ↦
            let (rc', step, (xs, same)) =
              run_pending half_open_to_open (pending-At half_open_to_open rc.pending f) in
            (rc', step, inr (rw (same, e) refl))
      ]

module _ (compile : Str → Option Pattern) (F : Float64) (rule : BreakerRule) (ins : Bool) (now : ℕ)
    (rc : ResourceCounters) (r : Reach compile F (new_resource_counters rule ins now) rc) where
  -- From every open state that reports and tasks reach from new counters, some step makes the
  -- breaker half-open.
  pub open_recovers :
      get_status rc.status ≡ open_status
      → (rc' : ResourceCounters) × Step compile F rc rc' × (get_status rc'.status ≡ half_open)
  open_recovers = open_starts_trial compile F rc (Reach-IsSound compile F rule ins now r)

  -- From every state that reports and tasks reach from new counters in which a trial runs that is
  -- decided, some step ends the trial: the breaker is then closed, or open again.
  pub trial_ends :
      (t : HalfOpenStatus)
      → rc.status ≡ half t
      → t.triggered ≡ true
      → (rc' : ResourceCounters) × Step compile F rc rc'
        × ((get_status rc'.status ≡ close) ⊎ (get_status rc'.status ≡ open_status))
  trial_ends t = decided_trial_ends compile F rc t (Reach-IsSound compile F rule ins now r)
