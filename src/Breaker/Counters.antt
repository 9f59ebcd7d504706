-- ===== src/Breaker/Counters.antt =====
-- plugin/circuitbreaker/composite/counter.go: the state of one guarded resource. The status changes
-- hold the lock of the resource's counters, and each is one step; so are a report and a task of the
-- executor. A task handed to the executor is kept in `pending` until the environment runs it: its
-- delay and its worker are left open.
pub mod Invariant
pub mod Steps
pub mod Progress
pub mod Traces
pub mod Recovery
mod Tests
use polaris_go.Base.{
  ℕ, zero, suc, ◌+◌, ◌<◌, Bool, true, false, not, ◌&&◌, Option, none, some, List, [], ◌∷◌, ◌++◌,
  ltb, if◌then◌else◌,
}
use polaris_go.Base.Int.{ℤ, ltb_ℤ}
use polaris_go.Base.Text.{Str, parse_int}
use polaris_go.Match.{Pattern, MatchString, match_string}
use polaris_go.Breaker.HalfOpen
use polaris_go.Breaker.HalfOpen.{
  Status, open_status, half_open, close, FallbackInfo, HalfOpenStatus, new_half_open_status,
  cal_next_status,
}
use polaris_go.Breaker.Rules.{Level}
use polaris_go.Breaker.Fallback.{FallbackConfig, build_fallback_info}
use polaris_go.Breaker.Trigger.{
  ConsecutiveCounter, ErrRateCounter, Float64, new_consecutive_counter, new_err_rate_counter,
  report_consecutive, report_err_rate, check_err_rate,
}

-- `model.RetStatus`
pub data RetStatus : Type 0 where
  ret_unknown ret_success ret_fail ret_timeout ret_reject ret_flow_control : RetStatus

-- `fault_tolerance.ErrorCondition`
pub data ErrorCondition : Type 0 where
  ret_code : MatchString → ErrorCondition
  delay : Str → ErrorCondition
  unknown_input : ErrorCondition

-- `fault_tolerance.TriggerCondition`: the errors in a row; or the interval in seconds, the percent
-- and the least number of requests.
pub data TriggerCondition : Type 0 where
  consecutive_error : ℕ → TriggerCondition
  error_rate : ℕ → ℕ → ℕ → TriggerCondition
  unknown_trigger : TriggerCondition

pub record BreakerRule : Type 0 where
  pub name : Str
  pub error_conditions : List ErrorCondition
  pub trigger_condition : List TriggerCondition
  pub consecutive_success : ℕ
  pub level : Level
  pub fallback_config : Option FallbackConfig

pub record ResourceStat : Type 0 where
  pub code : Str
  pub delay_milli : ℤ
  pub status : RetStatus

-- `model.CircuitBreakerStatus`: a `BaseCircuitBreakerStatus` or a `*HalfOpenStatus`.
pub data CbStatus : Type 0 where
  base : Str → Status → Option FallbackInfo → CbStatus
  half : HalfOpenStatus → CbStatus

abbrev pub get_status : CbStatus → Status
get_status (base name s f) = s
get_status (half h) = half_open

abbrev pub get_circuit_breaker : CbStatus → Str
get_circuit_breaker (base name s f) = name
get_circuit_breaker (half h) = h.name

pub data Counter : Type 0 where
  consecutive : ConsecutiveCounter → Counter
  err_rate : ErrRateCounter → Counter

-- What the executor is asked to run: the status changes, and the callback of a counter.
pub data Task : Type 0 where
  open_to_half_open half_open_to_close half_open_to_open : Task
  check : ℕ → Task

-- `published` is the status last sent to the local registry, which happens for instances only.
pub record ResourceCounters : Type 0 where
  pub active_rule : BreakerRule
  pub fallback_info : Option FallbackInfo
  pub is_ins_res : Bool
  pub counters : List Counter
  pub status : CbStatus
  pub pending : List Task
  pub published : Option CbStatus

unfoldable pub init_counters : ℕ → List TriggerCondition → List Counter
init_counters now [] = []
init_counters now (consecutive_error n ∷ ts) =
    consecutive (new_consecutive_counter n) ∷ init_counters now ts
init_counters now (error_rate interval percent least ∷ ts) =
    err_rate (new_err_rate_counter interval percent least now) ∷ init_counters now ts
init_counters now (unknown_trigger ∷ ts) = init_counters now ts

unfoldable pub new_resource_counters : BreakerRule → Bool → ℕ → ResourceCounters
new_resource_counters rule is_ins_res now = record {
  active_rule = rule;
  fallback_info = build_fallback_info rule.level rule.fallback_config;
  is_ins_res = is_ins_res;
  counters = init_counters now rule.trigger_condition;
  status = base rule.name close none;
  pending = [];
  published = none;
}

-- `updateCircuitBreakerStatus` and `reportCircuitStatus`.
unfoldable pub set_status : ResourceCounters → CbStatus → ResourceCounters
set_status rc s = record rc {
  status = s;
  published = if rc.is_ins_res then some s else rc.published;
}

unfoldable pub add_task : ResourceCounters → Task → ResourceCounters
add_task rc t = record rc { pending = rc.pending ++ (t ∷ []) }

unfoldable pub to_open : ResourceCounters → Str → ResourceCounters
unfolding set_status add_task
to_open rc name =
    add_task (set_status rc (base name open_status rc.fallback_info)) open_to_half_open

abbrev pub is_close : Status → Bool
is_close close = true
is_close _ = false

abbrev pub is_open : Status → Bool
is_open open_status = true
is_open _ = false

abbrev pub is_half_open : Status → Bool
is_half_open half_open = true
is_half_open _ = false

unfoldable pub close_to_open : ResourceCounters → Str → ResourceCounters
unfolding to_open
close_to_open rc breaker = if is_close (get_status rc.status) then to_open rc breaker else rc

unfoldable pub run_open_to_half_open : ResourceCounters → ResourceCounters
unfolding set_status
run_open_to_half_open rc =
    if not (is_open (get_status rc.status))
    then rc
    else set_status rc (
        half
          (new_half_open_status (get_circuit_breaker rc.status) rc.active_rule.consecutive_success))

unfoldable pub run_half_open_to_close : ResourceCounters → ResourceCounters
unfolding set_status
run_half_open_to_close rc =
    if not (is_half_open (get_status rc.status))
    then rc
    else set_status rc (base (get_circuit_breaker rc.status) close none)

unfoldable pub run_half_open_to_open : ResourceCounters → ResourceCounters
unfolding to_open
run_half_open_to_open rc =
    if is_half_open (get_status rc.status) then to_open rc (get_circuit_breaker rc.status) else rc

-- `parseRetStatus`
unfoldable pub parse_conditions :
    (Str → Option Pattern) → ResourceStat → List ErrorCondition → RetStatus
parse_conditions compile stat [] = ret_success
parse_conditions compile stat (ret_code m ∷ cs) =
    let rest = parse_conditions compile stat cs in
    if match_string compile stat.code m then ret_fail else rest
parse_conditions compile stat (delay value ∷ cs) =
    let rest = parse_conditions compile stat cs in
    elim (parse_int value) [
      | none ↦ rest
      | some limit ↦ if ltb_ℤ limit stat.delay_milli then ret_timeout else rest
    ]
parse_conditions compile stat (unknown_input ∷ cs) = parse_conditions compile stat cs

unfoldable pub parse_ret_status : (Str → Option Pattern) → BreakerRule → ResourceStat → RetStatus
parse_ret_status compile rule stat = elim rule.error_conditions [
  | [] ↦ stat.status
  | c ∷ cs ↦ parse_conditions compile stat (c ∷ cs)
]

abbrev pub is_success : RetStatus → Bool
is_success ret_fail = false
is_success ret_timeout = false
is_success _ = true

-- One counter's `Report`, and what it sets off. `i` is the counter's place.
unfoldable pub report_counter :
    Bool → ℕ → ℕ → ℕ → Counter → ResourceCounters → Counter × ResourceCounters
report_counter success now time i (consecutive c) rc =
    let (c', opens) = report_consecutive c success in
    (consecutive c', if opens then close_to_open rc rc.active_rule.name else rc)
report_counter success now time i (err_rate c) rc =
    let (c', scheduled) = report_err_rate c success now time in
    (err_rate c', if scheduled then add_task rc (check i) else rc)

-- The loop over `rc.counters`.
unfoldable pub report_counters :
    Bool → ℕ → ℕ → ℕ → List Counter → ResourceCounters → List Counter × ResourceCounters
report_counters success now time i [] rc = ([], rc)
report_counters success now time i (c ∷ cs) rc =
    let (c', rc') = report_counter success now time i c rc in
    let (cs', rc'') = report_counters success now time (i + 1) cs rc' in (c' ∷ cs', rc'')

unfoldable pub report_half_open : ResourceCounters → HalfOpenStatus → Bool → ResourceCounters
report_half_open rc h success =
    let (h', checked) = HalfOpen.report h success in
    let rc' = record rc { status = half h' } in
    if not checked then rc' else elim (cal_next_status h') [
      | close ↦ add_task rc' half_open_to_close
      | open_status ↦ add_task rc' half_open_to_open
      | half_open ↦ rc'
    ]

-- `Report`, from the test of the status on. A base status is never half-open (`IsSound` of
-- `Breaker.Counters.Invariant`), where Go's type assertion would panic.
unfoldable pub report_success : ResourceCounters → Bool → ℕ → ℕ → ResourceCounters
report_success rc success now time = elim rc.status [
  | half h ↦ report_half_open rc h success
  | base name s f ↦
      let (cs, rc') = report_counters success now time 0 rc.counters rc in
      record rc' { counters = cs }
]

unfoldable pub report :
    (Str → Option Pattern) → ResourceCounters → ResourceStat → ℕ → ℕ → ResourceCounters
report compile rc stat now time =
    report_success rc (is_success (parse_ret_status compile rc.active_rule stat)) now time

-- The callback of the counter at a place: a consecutive counter has none.
unfoldable pub check_at : Float64 → ℕ → ℕ → List Counter → List Counter × Bool
check_at F now i [] = ([], false)
check_at F now zero (consecutive c ∷ cs) = (consecutive c ∷ cs, false)
check_at F now zero (err_rate c ∷ cs) =
    let (c', opens) = check_err_rate F c now in (err_rate c' ∷ cs, opens)
check_at F now (suc i) (c ∷ cs) = let (cs', opens) = check_at F now i cs in (c ∷ cs', opens)

unfoldable pub run_task : Float64 → ℕ → Task → ResourceCounters → ResourceCounters
run_task F now open_to_half_open rc = run_open_to_half_open rc
run_task F now half_open_to_close rc = run_half_open_to_close rc
run_task F now half_open_to_open rc = run_half_open_to_open rc
run_task F now (check i) rc =
    let (cs, opens) = check_at F now i rc.counters in
    let rc' = record rc { counters = cs } in
    if opens then close_to_open rc' rc'.active_rule.name else rc'
