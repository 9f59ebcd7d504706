-- ===== src/RateLimit/Leaky.antt =====
-- The uniform rate limiter, plugin/ratelimiter/unirate/bucket_leaky.go: requests are granted at a
-- distance, and told how long to wait. Requests are taken one after the other here, so that the
-- compare-and-swap succeeds at once. Times and durations are int64 milliseconds, never negative:
-- plain numbers.
mod Tests
use mathlib.Core.Path.{subst}
use polaris_go.Base.{
  ℕ, zero, suc, ◌+◌, ◌-◌, ◌≤◌, ◌<◌, max, ◌≡◌, refl, ◌⊎◌, inl, inr, Bool-cases, Bool, true, false,
  List, [], ◌∷◌, All, ◌==◌, ltb, leb, if◌then◌else◌, arith,
}

pub record LeakyBucket : Type 0 where
  pub last_grant_time : ℕ
  pub effective_rate : ℕ  -- milliseconds from one grant to the next
  pub max_queuing_duration : ℕ
  pub reject_all : Bool

-- `model.QuotaResponse`: granted after a wait, or limited.
pub data QuotaResponse : Type 0 where
  granted : ℕ → QuotaResponse
  limited : QuotaResponse

-- The response to a wait. A wait that is too long gives the interval back.
unfoldable pub respond : LeakyBucket → ℕ → ℕ → LeakyBucket × QuotaResponse
respond l expected wait =
    let taken = record l { last_grant_time = expected } in
    if wait == 0
    then (taken, granted 0)
    else if leb wait l.max_queuing_duration
    then (taken, granted wait)
    else (record l { last_grant_time = expected - l.effective_rate }, limited)

unfoldable pub allocate_quota : LeakyBucket → ℕ → LeakyBucket × QuotaResponse
allocate_quota l now =
    let expected = l.last_grant_time + l.effective_rate in
    if l.reject_all
    then (l, limited)
    else if leb now expected
    then respond l expected (expected - now)
    else (record l { last_grant_time = now }, granted 0)

-- Requests at some times: of each that is granted, the time at which it may go on, and its wait.
unfoldable pub grants : LeakyBucket → List ℕ → List (ℕ × ℕ)
grants l [] = []
grants l (now ∷ times) =
    let (l', response) = allocate_quota l now in
    let rest = grants l' times in
    elim response [ granted wait ↦ (now + wait, wait) ∷ rest | limited ↦ rest ]

-- Each of the times is at least the rate after the one before.
abbrev pub Spaced : ℕ → ℕ → List (ℕ × ℕ) → Type 0
Spaced rate last [] = Unit
Spaced rate last ((time, wait) ∷ gs) = (last + rate ≤ time) × Spaced rate time gs

-- What a granted request leaves, and a limited one.
record Granted (l : LeakyBucket) (now : ℕ) (l' : LeakyBucket) (wait : ℕ) : Type 0 where
  rate : l'.effective_rate ≡ l.effective_rate
  queue : l'.max_queuing_duration ≡ l.max_queuing_duration
  time : l'.last_grant_time ≡ now + wait
  later : l.last_grant_time + l.effective_rate ≤ now + wait
  short : wait ≤ l.max_queuing_duration

record Kept (l l' : LeakyBucket) : Type 0 where
  rate : l'.effective_rate ≡ l.effective_rate
  queue : l'.max_queuing_duration ≡ l.max_queuing_duration
  time : l'.last_grant_time ≡ l.last_grant_time

Answered : LeakyBucket → ℕ → LeakyBucket → QuotaResponse → Type 0
Answered l now l' (granted wait) = Granted l now l' wait
Answered l now l' limited = Kept l l'

respond-Answered :
    (l : LeakyBucket) (now wait : ℕ)
    → l.last_grant_time + l.effective_rate ≡ now + wait
    → let (l', response) = respond l (now + wait) wait in Answered l now l' response
unfolding respond Answered
respond-Answered l now wait e = elim (Bool-cases (wait == 0)) [
  | inl z ↦ rw z (record {
    rate = refl;
    queue = refl;
    time = ground arith;
    later = ground arith;
    short = omega arith;
  })
  | inr z ↦ elim (Bool-cases (leb wait l.max_queuing_duration)) [
    | inl b ↦
        rw (z, b)
          (record {
            rate = refl;
            queue = refl;
            time = refl;
            later = omega arith;
            short = ground arith;
          })
    | inr b ↦ rw (z, b) (record { rate = refl; queue = refl; time = omega arith })
  ]
]

sum_back : (now expected : ℕ) → now ≤ expected → now + (expected - now) ≡ expected
sum_back now expected h = omega arith

waiting-Answered :
    (l : LeakyBucket) (now : ℕ)
    → now ≤ l.last_grant_time + l.effective_rate
    → let expected = l.last_grant_time + l.effective_rate in
      let (l', response) = respond l expected (expected - now) in Answered l now l' response
waiting-Answered l now h =
    let expected = l.last_grant_time + l.effective_rate in
    subst (λ t. Answered l now (respond l t (expected - now)).0 (respond l t (expected - now)).1)
      (sum_back now expected h) (respond-Answered l now (expected - now) (omega arith))

allocate_quota-Answered :
    (l : LeakyBucket) (now : ℕ)
    → let (l', response) = allocate_quota l now in Answered l now l' response
unfolding allocate_quota Answered
allocate_quota-Answered l now = elim (Bool-cases l.reject_all) [
  | inl r ↦ rw r (record { rate = refl; queue = refl; time = refl })
  | inr r ↦ elim (Bool-cases (leb now (l.last_grant_time + l.effective_rate))) [
    | inl e ↦ rw (r, e) (waiting-Answered (record l { reject_all = false }) now (ground arith))
    | inr e ↦
        rw (r, e)
          (record {
            rate = refl;
            queue = refl;
            time = omega arith;
            later = ground arith;
            short = omega arith;
          })
  ]
]

record Paced (l : LeakyBucket) (gs : List (ℕ × ℕ)) : Type 0 where
  spaced : Spaced l.effective_rate l.last_grant_time gs
  short : All (λ g. g.1 ≤ l.max_queuing_duration) gs

Paced-cons :
    (l l' : LeakyBucket) (now : ℕ) (response : QuotaResponse) (gs : List (ℕ × ℕ))
    → Answered l now l' response
    → Paced l' gs
    → Paced l (elim response [ granted wait ↦ (now + wait, wait) ∷ gs | limited ↦ gs ])
unfolding Answered
Paced-cons l l' now (granted wait) gs a p = record {
  spaced = (
    a.later,
    subst (λ t. Spaced l.effective_rate t gs) a.time
        (subst (λ r. Spaced r l'.last_grant_time gs) a.rate p.spaced),
  );
  short = (a.short, subst (λ q. All (λ g. g.1 ≤ q) gs) a.queue p.short);
}
Paced-cons l l' now limited gs a p = record {
  spaced =
      subst (λ t. Spaced l.effective_rate t gs) a.time
        (subst (λ r. Spaced r l'.last_grant_time gs) a.rate p.spaced);
  short = subst (λ q. All (λ g. g.1 ≤ q) gs) a.queue p.short;
}

grants-Paced : (l : LeakyBucket) (times : List ℕ) → Paced l (grants l times)
unfolding grants
grants-Paced l [] = record { spaced = tt; short = tt }
grants-Paced l (now ∷ times) =
    let (l', response) = allocate_quota l now in
    Paced-cons l l' now response (grants l' times) (allocate_quota-Answered l now)
      (grants-Paced l' times)

-- Over any requests at any times: the times at which the granted ones may go on are each at least
-- the rate after the one before, the first of them after the last grant of the bucket; and none
-- waits for longer than the longest queue.
pub grants_lem :
    (l : LeakyBucket) (times : List ℕ)
    → Spaced l.effective_rate l.last_grant_time (grants l times)
      × All (λ g. g.1 ≤ l.max_queuing_duration) (grants l times)
grants_lem l times = let p = grants-Paced l times in (p.spaced, p.short)

-- A bucket that does not reject all grants a request, with the wait until its interval after the
-- last grant is over, unless that is longer than the longest queue: then it limits the request and
-- notes no grant.
pub allocate_quota_lem :
    (l : LeakyBucket) (now : ℕ)
    → l.reject_all ≡ false
    → let expected = l.last_grant_time + l.effective_rate in
      let (l', response) = allocate_quota l now in
      let too_long = ltb (now + l.max_queuing_duration) expected in
      (response ≡ (if too_long then limited else granted (expected - now)))
      × (l'.last_grant_time ≡ (if too_long then l.last_grant_time else max now expected))
unfolding allocate_quota respond
allocate_quota_lem l now h = ground arith
