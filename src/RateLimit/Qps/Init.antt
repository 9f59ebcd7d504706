-- ===== src/RateLimit/Qps/Init.antt =====
-- `initTokenBuckets` of bucket_qps.go: the buckets of a rule, the longest period first. Go's
-- `sort.Sort` is insertion into a sorted list here; it leaves the order of equal periods open.
use mathlib.Core.List.{Perm}
use mathlib.Core.List.Perm
use polaris_go.Base.{
  ℕ, ◌≤◌, Bool, List, [], ◌∷◌, map, ltb, if◌then◌else◌, All, arith, Bool-cases, inl, inr,
}
use polaris_go.RateLimit.Token.{TokenBucket, BucketShareInfo, new_token_bucket}

-- `apitraffic.Amount`, its duration converted to milliseconds.
pub record Amount : Type 0 where
  pub valid_duration : ℕ
  pub max_amount : ℕ

-- What `initTokenBuckets` reads of `apitraffic.Rule`: whether the amount mode is SHARE_EQUALLY, the
-- type LOCAL and the failover FAILOVER_PASS.
pub record Rule : Type 0 where
  pub share_equally : Bool
  pub is_local : Bool
  pub failover_pass : Bool
  pub amounts : List Amount

abbrev pub share_info : Rule → BucketShareInfo
share_info r = record {
  share_equal = r.share_equally;
  local_quota = r.is_local;
  pass_on_remote_fail = r.failover_pass;
}

-- `TokenBuckets.Less`
unfoldable pub less : TokenBucket → TokenBucket → Bool
less t u = ltb u.valid_duration_milli t.valid_duration_milli

insert : TokenBucket → List TokenBucket → List TokenBucket
insert t [] = t ∷ []
insert t (u ∷ us) = if less u t then u ∷ insert t us else t ∷ u ∷ us

sort : List TokenBucket → List TokenBucket
unfolding insert
sort [] = []
sort (t ∷ ts) = insert t (sort ts)

abbrev new_buckets : Rule → List TokenBucket
new_buckets r = map (λ a. new_token_bucket a.valid_duration a.max_amount (share_info r)) r.amounts

unfoldable pub init_token_buckets : Rule → List TokenBucket
unfolding sort
init_token_buckets r = sort (new_buckets r)

abbrev Longest : ℕ → List TokenBucket → Type 0
Longest d = All (λ t. t.valid_duration_milli ≤ d)

abbrev pub IsDescending : List TokenBucket → Type 0
IsDescending [] = Unit
IsDescending (t ∷ ts) = Longest t.valid_duration_milli ts × IsDescending ts

insert-perm : (t : TokenBucket) (ts : List TokenBucket) → Perm (insert t ts) (t ∷ ts)
unfolding insert
insert-perm t [] = Perm.refl (t ∷ [])
insert-perm t (u ∷ us) = elim (Bool-cases (less u t)) [
  | inl e ↦ rw e (Perm.trans (Perm.cons u (insert-perm t us)) (Perm.swap t u us))
  | inr e ↦ rw e (Perm.refl (t ∷ u ∷ us))
]

sort-perm : (ts : List TokenBucket) → Perm (sort ts) ts
unfolding sort
sort-perm [] = Perm.refl []
sort-perm (t ∷ ts) = Perm.trans (insert-perm t (sort ts)) (Perm.cons t (sort-perm ts))

Longest-insert :
    (d : ℕ) (t : TokenBucket) (ts : List TokenBucket)
    → t.valid_duration_milli ≤ d
    → Longest d ts
    → Longest d (insert t ts)
unfolding insert
Longest-insert d t [] h hs = (h, tt)
Longest-insert d t (u ∷ us) h (k, hs) = elim (Bool-cases (less u t)) [
  | inl e ↦ rw e (k, Longest-insert d t us h hs)
  | inr e ↦ rw e (h, (k, hs))
]

Longest-trans : (d c : ℕ) (ts : List TokenBucket) → d ≤ c → Longest d ts → Longest c ts
Longest-trans d c [] h hs = tt
Longest-trans d c (t ∷ ts) h (k, hs) = (omega arith, Longest-trans d c ts h hs)

insert-IsDescending :
    (t : TokenBucket) (ts : List TokenBucket) → IsDescending ts → IsDescending (insert t ts)
unfolding insert
insert-IsDescending t [] h = (tt, tt)
insert-IsDescending t (u ∷ us) (k, h) = elim (Bool-cases (less u t)) [
  | inl e ↦ rw e (
    Longest-insert u.valid_duration_milli t us (unfold less in ground arith) k,
    insert-IsDescending t us h,
  )
  | inr e ↦
      let le : u.valid_duration_milli ≤ t.valid_duration_milli = unfold less in ground arith in
      rw e ((le, Longest-trans u.valid_duration_milli t.valid_duration_milli us le k), (k, h))
]

sort-IsDescending : (ts : List TokenBucket) → IsDescending (sort ts)
unfolding sort
sort-IsDescending [] = tt
sort-IsDescending (t ∷ ts) = insert-IsDescending t (sort ts) (sort-IsDescending ts)

-- The buckets of a rule are one for each amount, under the rule's flags, from the longest period to
-- the shortest.
pub init_token_buckets_lem :
    (r : Rule) → IsDescending (init_token_buckets r) × Perm (init_token_buckets r) (new_buckets r)
unfolding init_token_buckets
init_token_buckets_lem r = (sort-IsDescending (new_buckets r), sort-perm (new_buckets r))
