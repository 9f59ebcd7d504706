-- ===== src/Breaker/Counters/Steps.antt =====
-- The steps of counter.go, reports and pending tasks in any order, and the invariant along them.
use mathlib.Core.Path.{subst}
use polaris_go.Base.{
  ℕ, ◌≡◌, ◌≢◌, refl, sym, ap, ◌∙◌, Bool, true, false, ◌⊎◌, inl, inr, Option, List, [], ◌∷◌, ◌++◌,
  Bool-cases,
}
use polaris_go.Base.Text.{Str}
use polaris_go.Match.{Pattern}
use polaris_go.Breaker.HalfOpen.{
  open_status, half_open, close, HalfOpenStatus, new_half_open_status,
}
use polaris_go.Breaker.Trigger.{Float64}
use polaris_go.Breaker.Counters.{
  CbStatus, base, half, get_status, is_open, is_half_open, Task, open_to_half_open,
  half_open_to_close, half_open_to_open, check, ResourceCounters, ResourceStat, BreakerRule,
  new_resource_counters, run_open_to_half_open, run_half_open_to_close, run_half_open_to_open,
  report, check_at, run_task,
}
use polaris_go.Breaker.Counters.Invariant.{
  transitions, transitions-append, Fits, FitsTrial, IsSound, new-IsSound, report-IsSound,
  close_to_open-IsSound,
}

module _ (compile : Str → Option Pattern) (F : Float64) where
  -- A report of any result at any time, or a pending task, taken out and run.
  pub data Step : ResourceCounters → ResourceCounters → Type 0 where
    reported :
        (rc : ResourceCounters) (stat : ResourceStat) (now time : ℕ)
        → Step rc (report compile rc stat now time)
    ran :
        (rc : ResourceCounters) (xs ys : List Task) (t : Task) (now : ℕ)
        → rc.pending ≡ xs ++ (t ∷ ys)
        → Step rc (run_task F now t (record rc { pending = xs ++ ys }))

  pub data Reach (rc : ResourceCounters) : ResourceCounters → Type 0 where
    here : Reach rc rc
    next : {rc' rc'' : ResourceCounters} → Reach rc rc' → Step rc' rc'' → Reach rc rc''

-- The status in which a task is due.
abbrev Due : CbStatus → Task → Type 0
Due s open_to_half_open = is_open (get_status s) ≡ true
Due s half_open_to_close = is_half_open (get_status s) ≡ true
Due s half_open_to_open = is_half_open (get_status s) ≡ true
Due s (check i) = Unit

not-nil : (xs ys : List Task) (t : Task) → xs ++ (t ∷ ys) ≢ []
not-nil [] ys t e = cc
not-nil (x ∷ xs) ys t e = cc

singleton : (xs ys : List Task) (t u : Task) → xs ++ (t ∷ ys) ≡ u ∷ [] → (t ≡ u) × (xs ++ ys ≡ [])
singleton [] ys t u e = (cc, cc)
singleton (x ∷ xs) ys t u e = absurd (not-nil xs ys t (cc))

due_trial :
    (h : HalfOpenStatus) (b : Bool) (xs ys : List Task) (t : Task)
    → FitsTrial b (xs ++ (t ∷ ys))
    → ((t ≡ half_open_to_close) ⊎ (t ≡ half_open_to_open)) × (xs ++ ys ≡ [])
due_trial h false xs ys t f = absurd (not-nil xs ys t f)
due_trial h true xs ys t (inl e) =
    let (same, rest) = singleton xs ys t half_open_to_close e in (inl same, rest)
due_trial h true xs ys t (inr e) =
    let (same, rest) = singleton xs ys t half_open_to_open e in (inr same, rest)

-- A pending change of status is due, and it is the only one.
due :
    (s : CbStatus) (xs ys : List Task) (t : Task)
    → Fits s (xs ++ (t ∷ ys))
    → Due s t × (xs ++ ys ≡ [])
due (base name close g) xs ys t f = absurd (not-nil xs ys t f)
due (base name open_status g) xs ys t f =
    let (same, rest) = singleton xs ys t open_to_half_open f in (rw same refl, rest)
due (base name half_open g) xs ys t f = absurd f
due (half h) xs ys t f =
    let (which, rest) = due_trial h h.triggered xs ys t f in
    (elim which [ inl e ↦ rw e refl | inr e ↦ rw e refl ], rest)

-- The state with one task taken out.
abbrev without : ResourceCounters → List Task → List Task → ResourceCounters
without rc xs ys = record rc { pending = xs ++ ys }

module _ (rc : ResourceCounters) (xs ys : List Task) (h : IsSound rc) where
  Fits-split :
      (t : Task)
      → rc.pending ≡ xs ++ (t ∷ ys)
      → Fits rc.status (transitions xs ++ transitions (t ∷ ys))
  Fits-split t e = subst (Fits rc.status) (ap transitions e ∙ transitions-append xs (t ∷ ys)) h.fits

  emptied : transitions xs ++ transitions ys ≡ [] → transitions (xs ++ ys) ≡ []
  emptied e = transitions-append xs ys ∙ e

  trial-IsSound :
      rc.pending ≡ xs ++ (open_to_half_open ∷ ys)
      → (is_open (get_status rc.status) ≡ true) × IsSound (run_open_to_half_open (without rc xs ys))
  unfolding run_open_to_half_open transitions new_half_open_status
  trial-IsSound e =
      let (is_due, rest) =
        due rc.status (transitions xs) (transitions ys) open_to_half_open
          (Fits-split open_to_half_open e) in
      (is_due, rw is_due (record { fits = emptied rest }))

  close-IsSound :
      rc.pending ≡ xs ++ (half_open_to_close ∷ ys)
      → (is_half_open (get_status rc.status) ≡ true)
        × IsSound (run_half_open_to_close (without rc xs ys))
  unfolding run_half_open_to_close transitions
  close-IsSound e =
      let (is_due, rest) =
        due rc.status (transitions xs) (transitions ys) half_open_to_close
          (Fits-split half_open_to_close e) in
      (is_due, rw is_due (record { fits = emptied rest }))

  open-IsSound :
      rc.pending ≡ xs ++ (half_open_to_open ∷ ys)
      → (is_half_open (get_status rc.status) ≡ true)
        × IsSound (run_half_open_to_open (without rc xs ys))
  unfolding run_half_open_to_open transitions
  open-IsSound e =
      let (is_due, rest) =
        due rc.status (transitions xs) (transitions ys) half_open_to_open
          (Fits-split half_open_to_open e) in
      (
        is_due,
        rw is_due (record {
          fits = transitions-append (xs ++ ys) (open_to_half_open ∷ []) ∙ rw (emptied rest);
        }),
      )

  check-IsSound :
      (F : Float64) (now i : ℕ)
      → rc.pending ≡ xs ++ (check i ∷ ys)
      → IsSound (run_task F now (check i) (without rc xs ys))
  unfolding run_task transitions
  check-IsSound F now i e =
      let rest : IsSound
          (record rc { pending = xs ++ ys; counters = (check_at F now i rc.counters).0 }) =
        record {
          fits = subst (Fits rc.status) (sym (transitions-append xs ys)) (Fits-split (check i) e);
        } in
      elim (Bool-cases (check_at F now i rc.counters).1) [
        | inl b ↦ rw b (close_to_open-IsSound _ rc.active_rule.name rest)
        | inr b ↦ rw b rest
      ]

run_task-IsSound :
    (F : Float64) (now : ℕ) (rc : ResourceCounters) (xs ys : List Task) (t : Task)
    → IsSound rc
    → rc.pending ≡ xs ++ (t ∷ ys)
    → IsSound (run_task F now t (without rc xs ys))
unfolding run_task
run_task-IsSound F now rc xs ys open_to_half_open h e = (trial-IsSound rc xs ys h e).1
run_task-IsSound F now rc xs ys half_open_to_close h e = (close-IsSound rc xs ys h e).1
run_task-IsSound F now rc xs ys half_open_to_open h e = (open-IsSound rc xs ys h e).1
run_task-IsSound F now rc xs ys (check i) h e = check-IsSound rc xs ys h F now i e

-- A step keeps the counters sound: whatever the order of reports and tasks, the task that moves the
-- breaker on is pending exactly when it is due, and no other change of status is.
pub Step-IsSound :
    (compile : Str → Option Pattern) (F : Float64) {rc rc' : ResourceCounters}
    → Step compile F rc rc'
    → IsSound rc
    → IsSound rc'
Step-IsSound compile F (reported rc stat now time) h = report-IsSound compile rc stat now time h
Step-IsSound compile F (ran rc xs ys t now e) h = run_task-IsSound F now rc xs ys t h e

-- In every state that reports and tasks reach from new counters, whatever their order: closed, no
-- change of status is pending; open, the start of the trial is, once; on trial, nothing until the
-- trial is decided, and then its end, once; and only a half-open status object is half-open.
pub Reach-IsSound :
    (compile : Str → Option Pattern) (F : Float64) (rule : BreakerRule) (ins : Bool) (now : ℕ)
    {rc : ResourceCounters}
    → Reach compile F (new_resource_counters rule ins now) rc
    → IsSound rc
Reach-IsSound compile F rule ins now here = new-IsSound rule ins now
Reach-IsSound compile F rule ins now (next r s) =
    Step-IsSound compile F s (Reach-IsSound compile F rule ins now r)
