-- ===== src/Breaker/HalfOpen.antt =====
-- The half-open status of pkg/model/circuitbreaker.go: it lets requests through until one fails or
-- enough have succeeded. Its methods hold the lock of the status or are one atomic operation, so
-- each is one step. The start time plays no part in the decisions and is left out.
use mathlib.Core.List.{append-nil, append_assoc}
use polaris_go.Base.{
  sym, ℕ, suc, ◌+◌, ◌≡◌, refl, ◌∙◌, ap, Bool, true, false, not, ◌&&◌, ◌||◌, List, [], ◌∷◌, ◌++◌,
  leb, if◌then◌else◌, length, length-append, arith,
}
use polaris_go.Base.Int.{ℤ}
use polaris_go.Base.Text.{Str}

-- `model.Status`
pub data Status : Type 0 where
  open_status half_open close : Status

pub record FallbackInfo : Type 0 where
  pub code : ℤ
  pub headers : List (Str × Str)
  pub body : Str

pub record HalfOpenStatus : Type 0 where
  pub name : Str
  pub max_request : ℕ
  pub scheduled : Bool
  pub called_result : List Bool
  pub triggered : Bool

unfoldable pub new_half_open_status : Str → ℕ → HalfOpenStatus
new_half_open_status name max_request = record {
  name = name;
  max_request = max_request;
  scheduled = false;
  called_result = [];
  triggered = false;
}

unfoldable pub report : HalfOpenStatus → Bool → HalfOpenStatus × Bool
report c success =
    let results = c.called_result ++ (success ∷ []) in
    let need_trigger = not success || leb c.max_request (length results) in
    if need_trigger && not c.triggered
    then (record c { called_result = results; triggered = true }, true)
    else (record c { called_result = results }, false)

-- `CompareAndSwapInt32(&c.scheduled, 0, 1)`
unfoldable pub schedule : HalfOpenStatus → HalfOpenStatus × Bool
schedule c = if c.scheduled then (c, false) else (record c { scheduled = true }, true)

-- `IsAvailable`, the same of both kinds of status.
unfoldable pub is_available : Status → Bool
is_available close = true
is_available open_status = false
is_available half_open = true

-- The loop of `CalNextStatus`: whether every result is a success.
unfoldable pub all_success : List Bool → Bool
all_success [] = true
all_success (r ∷ rs) = r && all_success rs

unfoldable pub cal_next_status : HalfOpenStatus → Status
unfolding all_success
cal_next_status c =
    if not c.triggered
    then half_open
    else if all_success c.called_result
    then close
    else open_status

-- Reports in a row, and how many of them answered `true`.
unfoldable pub report_all : HalfOpenStatus → List Bool → HalfOpenStatus × ℕ
report_all c [] = (c, 0)
report_all c (r ∷ rs) =
    let (c', checked) = report c r in
    let (c'', n) = report_all c' rs in (c'', if checked then suc n else n)

all_success-append :
    (xs ys : List Bool) → all_success (xs ++ ys) ≡ (all_success xs && all_success ys)
unfolding all_success
all_success-append [] ys = refl
all_success-append (x ∷ xs) ys = ground (arith, all_success-append xs ys)

-- When the trial is over: a report failed, or `m` have come.
abbrev pub decided : ℕ → List Bool → Bool
decided m [] = false
decided m (r ∷ rs) = not (all_success (r ∷ rs)) || leb m (length (r ∷ rs))

decided-append :
    (m : ℕ) (rs : List Bool) (r : Bool)
    → decided m (rs ++ (r ∷ [])) ≡ (decided m rs || (not r || leb m (length (rs ++ (r ∷ [])))))
unfolding all_success
decided-append m [] r = ground arith
decided-append m (q ∷ rs) r =
    ground (arith, all_success-append rs (r ∷ []), length-append rs (r ∷ []))

abbrev once : Bool → ℕ
once true = 1
once false = 0

-- The trigger stands for a decided trial.
pub record IsTrial (c : HalfOpenStatus) : Type 0 where
  pub trigger : c.triggered ≡ decided c.max_request c.called_result

record Reported (c : HalfOpenStatus) (rs : List Bool) (c' : HalfOpenStatus) (n : ℕ) : Type 0 where
  results : c'.called_result ≡ c.called_result ++ rs
  limit : c'.max_request ≡ c.max_request
  trial : IsTrial c'
  count : n + once c.triggered ≡ once c'.triggered

report-Reported :
    (c : HalfOpenStatus) (r : Bool)
    → IsTrial c
    → Reported c (r ∷ []) (report c r).0 (once (report c r).1)
unfolding report
report-Reported c r h = ground (arith, decided-append c.max_request c.called_result r)

pub report-IsTrial : (c : HalfOpenStatus) (r : Bool) → IsTrial c → IsTrial (report c r).0
report-IsTrial c r h = (report-Reported c r h).trial

report_all-Reported :
    (c : HalfOpenStatus) (rs : List Bool)
    → IsTrial c
    → Reported c rs (report_all c rs).0 (report_all c rs).1
unfolding report_all
report_all-Reported c [] h = record {
  results = sym (append-nil c.called_result);
  limit = refl;
  trial = h;
  count = omega arith;
}
report_all-Reported c (r ∷ rs) h =
    let c' = (report c r).0 in
    let first = report-Reported c r h in
    let rest = report_all-Reported c' rs (first.trial) in
    record {
      results =
          rest.results
          ∙ ap (λ xs. xs ++ rs) (first.results)
          ∙ append_assoc c.called_result (r ∷ []) rs;
      limit = rest.limit ∙ first.limit;
      trial = rest.trial;
      count = ground (arith, first.count, rest.count);
    }

-- A half-open trial of `m` requests, over any reports: the reports are kept in order; exactly one
-- of them is answered `true` if there are any, and one failed or there are at least `m`, and none
-- otherwise; the next status is then open if one failed and closed if none did, and half-open
-- before.
pub half_open_trial :
    (name : Str) (m : ℕ) (rs : List Bool)
    → let (c, n) = report_all (new_half_open_status name m) rs in
      (c.called_result ≡ rs)
      × (n ≡ (if decided m rs then 1 else 0))
      × (cal_next_status c
          ≡ (if decided m rs then if all_success rs then close else open_status else half_open))
unfolding new_half_open_status cal_next_status
half_open_trial name m rs =
    let c = new_half_open_status name m in
    let done = report_all-Reported c rs (record { trigger = refl }) in ground (arith, done)
