-- ===== src/Breaker/Counters/Tests.antt =====
-- The theorems on the circuit breaker, on the course of one breaker: an error opens it, a success
-- on the trial closes it.
use polaris_go.Base.{
  ℕ, ◌*◌, ◌≡◌, refl, true, false, ◌⊎◌, Option, none, [], ◌∷◌, leb, if◌then◌else◌, arith,
}
use polaris_go.Base.Int.{pos, pos_part}
use polaris_go.Base.Text.{Str}
use polaris_go.Match.{Pattern}
use polaris_go.Breaker.HalfOpen
use polaris_go.Breaker.Rules.{service}
use polaris_go.Breaker.HalfOpen.{
  Status, open_status, half_open, close, HalfOpenStatus, new_half_open_status, cal_next_status,
  decided, all_success, half_open_trial,
}
use polaris_go.Breaker.Trigger.{Float64, new_consecutive_counter, report_consecutive}
use polaris_go.Breaker.Consecutive
use polaris_go.Breaker.Consecutive.{has_run, consecutive_lem}
use polaris_go.Breaker.Counters.{
  get_status, ret_fail, ret_success, BreakerRule, ResourceStat, consecutive_error, ResourceCounters,
  new_resource_counters, init_counters, open_to_half_open, half_open_to_close, run_task, report,
  report_success, report_counters, report_counter, report_half_open, parse_ret_status,
  close_to_open, to_open, set_status, add_task, run_open_to_half_open, run_half_open_to_close,
}
use polaris_go.Breaker.Counters.Invariant.{IsSound}
use polaris_go.Breaker.Counters.Steps.{Step, reported, ran, here, next, Reach-IsSound}
use polaris_go.Breaker.Counters.Progress.{Moves, Step-Moves}
use polaris_go.Breaker.Counters.Recovery.{open_recovers, trial_ends}
use polaris_go.Breaker.Counters.Traces.{suspended_never_opens}

abbrev no_pattern : Str → Option Pattern
no_pattern s = none

-- Fractions of naturals.
abbrev fractions : Float64
fractions = record {
  Carrier = ℕ × ℕ;
  of_int = λ z. (pos_part z, 1);
  div = λ a b. (a.0 * b.1, a.1 * b.0);
  mul = λ a b. (a.0 * b.0, a.1 * b.1);
  geb = λ a b. leb (b.0 * a.1) (a.0 * b.1);
}

abbrev rule : BreakerRule
rule = record {
  name = b'r' ∷ [];
  error_conditions = [];
  trigger_condition = consecutive_error 1 ∷ [];
  consecutive_success = 1;
  level = service;
  fallback_config = none;
}

abbrev failed : ResourceStat
failed = record { code = []; delay_milli = pos 3; status = ret_fail }

abbrev succeeded : ResourceStat
succeeded = record { code = []; delay_milli = pos 3; status = ret_success }

abbrev fresh : ResourceCounters
fresh = new_resource_counters rule true 0

abbrev opened : ResourceCounters
opened = report no_pattern fresh failed 10 10

abbrev on_trial : ResourceCounters
on_trial = run_task fractions 20 open_to_half_open (record opened { pending = [] })

abbrev trial_over : ResourceCounters
trial_over = report no_pattern on_trial succeeded 30 30

abbrev closed : ResourceCounters
closed = run_task fractions 40 half_open_to_close (record trial_over { pending = [] })

first-Step : Step no_pattern fractions fresh opened
first-Step = reported fresh failed 10 10

second-Step : Step no_pattern fractions opened on_trial
unfolding new_resource_counters init_counters report report_success parse_ret_status report_counters
    report_counter new_consecutive_counter report_consecutive close_to_open to_open set_status
    add_task
second-Step = ran opened [] [] open_to_half_open 20 refl

third-Step : Step no_pattern fractions on_trial trial_over
third-Step = reported on_trial succeeded 30 30

fourth-Step : Step no_pattern fractions trial_over closed
unfolding new_resource_counters init_counters report report_success parse_ret_status report_counters
    report_counter new_consecutive_counter report_consecutive close_to_open to_open set_status
    add_task run_task run_open_to_half_open new_half_open_status report_half_open HalfOpen.report
    cal_next_status all_success
fourth-Step = ran trial_over [] [] half_open_to_close 40 refl

Reach-IsSound_example : IsSound closed
Reach-IsSound_example =
    Reach-IsSound no_pattern fractions rule true 0
      (next (next (next (next here first-Step) second-Step) third-Step) fourth-Step)

Step-Moves_example : Moves (get_status opened.status) (get_status on_trial.status)
Step-Moves_example = Step-Moves no_pattern fractions second-Step

open_recovers_example :
    (rc : ResourceCounters) × Step no_pattern fractions opened rc
    × (get_status rc.status ≡ half_open)
unfolding new_resource_counters init_counters report report_success parse_ret_status report_counters
    report_counter new_consecutive_counter report_consecutive close_to_open to_open set_status
    add_task
open_recovers_example =
    open_recovers no_pattern fractions rule true 0 opened (next here first-Step) refl

abbrev decided_trial : HalfOpenStatus
decided_trial = record {
  name = b'r' ∷ [];
  max_request = 1;
  scheduled = false;
  called_result = true ∷ [];
  triggered = true;
}

trial_ends_example :
    (rc : ResourceCounters) × Step no_pattern fractions trial_over rc
    × ((get_status rc.status ≡ close) ⊎ (get_status rc.status ≡ open_status))
unfolding new_resource_counters init_counters report report_success parse_ret_status report_counters
    report_counter new_consecutive_counter report_consecutive close_to_open to_open set_status
    add_task run_task run_open_to_half_open new_half_open_status report_half_open HalfOpen.report
    cal_next_status all_success
trial_ends_example =
    trial_ends no_pattern fractions rule true 0 trial_over
      (next (next (next here first-Step) second-Step) third-Step) decided_trial refl refl

-- After its first course the breaker takes errors and stays closed.
suspended_never_opens_example : report no_pattern closed failed 50 50 ≡ closed
unfolding new_resource_counters init_counters report report_success parse_ret_status report_counters
    report_counter new_consecutive_counter report_consecutive close_to_open to_open set_status
    add_task run_task run_open_to_half_open new_half_open_status report_half_open HalfOpen.report
    cal_next_status all_success run_half_open_to_close
suspended_never_opens_example =
    suspended_never_opens no_pattern fractions closed (report no_pattern closed failed 50 50)
      (refl, tt) refl refl (next here (reported closed failed 50 50))

half_open_trial_example :
    let (c, n) = HalfOpen.report_all (new_half_open_status (b'r' ∷ []) 2) (true ∷ false ∷ []) in
    (c.called_result ≡ true ∷ false ∷ [])
    × (n ≡ (if decided 2 (true ∷ false ∷ []) then 1 else 0))
    × (cal_next_status c ≡ (
        if decided 2 (true ∷ false ∷ [])
        then if all_success (true ∷ false ∷ []) then close else open_status
        else half_open))
half_open_trial_example = half_open_trial (b'r' ∷ []) 2 (true ∷ false ∷ [])

consecutive_lem_example :
    (Consecutive.report_all (new_consecutive_counter 2) (false ∷ true ∷ false ∷ false ∷ [])).1
    ≡ (if has_run 2 0 (false ∷ true ∷ false ∷ false ∷ []) then 1 else 0)
consecutive_lem_example =
    consecutive_lem 2 (false ∷ true ∷ false ∷ false ∷ []) (omega arith) (omega arith)
