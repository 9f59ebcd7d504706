-- ===== src/RateLimit/Qps/Local.antt =====
-- Requests against local quotas (bucket_qps.go): `Allocate` over the buckets, seen as numbers of
-- tokens.
use mathlib.Core.Path.{subst}
use polaris_go.Base.{
  sym, ℕ, ◌<◌, ◌≡◌, refl, ◌∙◌, true, List, [], ◌∷◌, map, ◌==◌, ==_iff, if◌then◌else◌, All, ◌⊎◌, inl,
  inr, arith,
}
use polaris_go.Base.Int.{
  ℤ, pos, negsuc, pos_part, neg_part, leb_ℤ, add64, i64_half, u32_mod, pred_ℤ, add64_pred,
  add64_succ-pred, is_neg-pred,
}
use polaris_go.RateLimit.Token.{
  Mode, unknown, local, UpdateIdentifier, TokenBucket, Alloc, give_back_token, remote_expired,
  calculate_stage_start, init_local_stage_on_local_config, try_allocate_local,
}
use polaris_go.RateLimit.Token.Allocate.{try_allocate_token}
use polaris_go.RateLimit.Qps.{
  Slot, QuotaResult, quota_result_ok, quota_result_limited, try_all, settle_limited, settle_passed,
  settle, allocate,
}

-- The tokens that a local bucket offers at a time: those left in the current stage, or the whole
-- amount of the rule in a new stage.
unfoldable pub available : ℕ → TokenBucket → ℤ
available now t =
    if t.stamp.stage_start_milli == calculate_stage_start t now
    then t.token_left
    else pos t.rule_token_amount

-- A bucket with a local quota, whose counts are machine integers.
pub record IsLocal (now : ℕ) (t : TokenBucket) : Type 0 where
  pub local_quota : t.share_info.local_quota ≡ true
  pub expired : remote_expired t now ≡ true
  pub amount : t.rule_token_amount < u32_mod
  pub high : pos_part t.token_left < i64_half
  pub low : neg_part t.token_left < i64_half

abbrev pub SlotIsLocal : ℕ → Slot → Type 0
SlotIsLocal now s = IsLocal now s.bucket

abbrev pub levels : ℕ → List Slot → List ℤ
levels now = map (λ s. available now s.bucket)

-- A request against the numbers of tokens: it takes one token of each bucket if all have one.
-- Otherwise it takes one of the first bucket that has none, and none of the others.
unfoldable pub take_all : List ℤ → List ℤ × QuotaResult
take_all [] = ([], quota_result_ok)
take_all (l ∷ ls) =
    let (rest, r) = take_all ls in
    if leb_ℤ l (pos 0) then (pred_ℤ l ∷ ls, quota_result_limited) else elim r [
      | quota_result_ok ↦ (pred_ℤ l ∷ rest, quota_result_ok)
      | quota_result_limited ↦ (l ∷ rest, quota_result_limited)
    ]

-- What one local allocation does.
pub record Took (now : ℕ) (t : TokenBucket) (a : Alloc) : Type 0 where
  pub left : a.left ≡ pred_ℤ (available now t)
  pub level : available now a.bucket ≡ pred_ℤ (available now t)
  pub restored : available now (give_back_token a.bucket a.identifier 1 local) ≡ available now t
  pub mode : a.mode ≡ local

-- What `initLocalStageOnLocalConfig` leaves.
pub record Staged (now : ℕ) (t t' : TokenBucket) : Type 0 where
  pub tokens : t'.token_left ≡ available now t
  pub stage : t'.stamp.stage_start_milli ≡ calculate_stage_start t now
  pub duration : t'.valid_duration_milli ≡ t.valid_duration_milli
  pub amount : t'.rule_token_amount ≡ t.rule_token_amount

pub init-Staged :
    (now : ℕ) (t : TokenBucket)
    → IsLocal now t
    → Staged now t (init_local_stage_on_local_config t now)
unfolding init_local_stage_on_local_config available
init-Staged now t h = ground arith

pub available-bounds :
    (now : ℕ) (t : TokenBucket)
    → IsLocal now t
    → (pos_part (available now t) < i64_half) × (neg_part (available now t) < i64_half)
unfolding available
available-bounds now t h = ground arith

available-Staged :
    (now : ℕ) (t t' : TokenBucket) (l : ℤ)
    → Staged now t t'
    → available now (record t' { token_left = l }) ≡ l
unfolding available calculate_stage_start
available-Staged now t t' l h = ground arith

module _ (now : ℕ) (t : TokenBucket) (identifier : UpdateIdentifier) (h : IsLocal now t) where
  pub try_local-Took : Took now t (try_allocate_local t 1 now identifier)
  unfolding try_allocate_local give_back_token
  try_local-Took =
      let t₁ = init_local_stage_on_local_config t now in
      let st = init-Staged now t h in
      let (high, low) = available-bounds now t h in
      let taken : add64 t₁.token_left (negsuc 0) ≡ pred_ℤ (available now t) =
        rw (st.tokens) (add64_pred (available now t) high low) in
      record {
        left = taken;
        level = available-Staged now t t₁ _ st ∙ taken;
        restored =
            rw
              (
                (==_iff t₁.stamp.stage_start_milli _).1 refl,
                taken,
                add64_succ-pred (available now t) high low,
              )
              (available-Staged now t t₁ _ st);
        mode = refl;
      }

-- The modes in which the loop tries a local bucket.
abbrev IsLocalMode : Mode → Type 0
IsLocalMode mode = (mode ≡ unknown) ⊎ (mode ≡ local)

try_token-eq :
    (now : ℕ) (t : TokenBucket) (identifier : UpdateIdentifier) (mode : Mode)
    → IsLocal now t
    → IsLocalMode mode
    → try_allocate_token t 1 now identifier mode ≡ try_allocate_local t 1 now identifier
unfolding try_allocate_token
try_token-eq now t identifier mode h m = ground arith

try_token-Took :
    (now : ℕ) (t : TokenBucket) (identifier : UpdateIdentifier) (mode : Mode)
    → IsLocal now t
    → IsLocalMode mode
    → Took now t (try_allocate_token t 1 now identifier mode)
try_token-Took now t identifier mode h m =
    subst (Took now t) (sym (try_token-eq now t identifier mode h m))
      (try_local-Took now t identifier h)

try_all-mode :
    (now : ℕ) (mode : Mode) (slots : List Slot)
    → mode ≡ local
    → All (SlotIsLocal now) slots
    → (try_all now mode slots).2 ≡ local
unfolding try_all
try_all-mode now mode [] e h = e
try_all-mode now mode (s ∷ slots) e (h, hs) =
    let took = try_token-Took now s.bucket s.identifier mode h (inr e) in
    ground (
      arith,
      took.mode,
      try_all-mode now (try_allocate_token s.bucket 1 now s.identifier mode).mode slots took.mode
          hs,
    )

settle-refines :
    (token now : ℕ) (mode : Mode) (slots : List Slot)
    → IsLocalMode mode
    → All (SlotIsLocal now) slots
    → let (tried, stop, m) = try_all now mode slots in
      let (slots', r) = settle token now tried stop m in
      (levels now slots', r) ≡ take_all (levels now slots)
unfolding try_all settle settle_limited settle_passed take_all
settle-refines token now mode [] m h = refl
settle-refines token now mode (s ∷ slots) m (h, hs) =
    let a = try_allocate_token s.bucket 1 now s.identifier mode in
    let took = try_token-Took now s.bucket s.identifier mode h m in
    let rest = settle-refines token now a.mode slots (inr took.mode) hs in
    ground (
      arith,
      took.left,
      took.level,
      took.restored,
      took.mode,
      is_neg-pred (available now s.bucket),
      try_all-mode now a.mode slots took.mode hs,
      rest,
    )

-- `Allocate` over local buckets refines the request against the numbers of tokens: it grants
-- exactly if every bucket has a token, then each has one less; otherwise the first bucket without
-- a token goes one down, and all others offer what they offered before.
pub allocate_refines :
    (slots : List Slot) (now token : ℕ)
    → All (SlotIsLocal now) slots
    → let (slots', r) = allocate slots now token in
      (levels now slots', r) ≡ take_all (levels now slots)
unfolding allocate
allocate_refines [] now token h = unfold take_all in refl
allocate_refines (s ∷ slots) now token h = settle-refines token now unknown (s ∷ slots) (inl refl) h
