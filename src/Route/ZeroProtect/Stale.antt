-- ===== src/Route/ZeroProtect/Stale.antt =====
-- Which instances the zero protection keeps: plugin/servicerouter/zeroprotect/zeroprotect.go.
use polaris_go.Base.{
  ℕ, ◌+◌, ◌*◌, ◌≤◌, ◌<◌, ◌≡◌, refl, sym, ◌∙◌, true, false, none, some, List, [], ◌∷◌, All,
  Bool-cases, Option-cases, inl, inr, arith,
}
use polaris_go.Base.Int.{ℤ, pos, negsuc, ltb_ℤ, leb_ℤ, sub64, ◌-ℤ◌, wrap64, i64_half}
use polaris_go.Base.Text.{Str, str_eq}
use polaris_go.Balance.Cluster.{Instance}
use polaris_go.Route.ZeroProtect.{
  triple, need_zero_protect, beat_time, put_time, time_of, collect_times, protected,
  protected_instances,
}

-- A time between two.
pub record IsWithin (first last : ℕ) (t : ℤ) : Type 0 where
  pub value : ℕ
  pub is_value : t ≡ pos value
  pub not_before : first ≤ value
  pub not_after : value ≤ last

-- An instance sent a heartbeat between two times, which are not further apart than three of its
-- times to live.
pub record IsRecent (first last : ℕ) (x : Instance) : Type 0 where
  pub beat : ℤ
  pub is_beat : beat_time x ≡ some beat
  pub within : IsWithin first last beat
  pub ttl : ℕ
  pub is_ttl : x.ttl ≡ pos ttl
  pub close : last ≤ first + 3 * ttl
  pub small : 3 * ttl < i64_half

difference :
    (a b f : ℕ)
    → a < i64_half
    → b < i64_half
    → a ≤ f + b
    → ltb_ℤ (pos f) (sub64 (pos a) (pos b)) ≡ false
unfolding sub64 wrap64 ◌-ℤ◌
difference a b f h k l = ground arith

triple_small : (n : ℕ) → 3 * n < i64_half → triple (pos n) ≡ pos (3 * n)
unfolding wrap64
triple_small n h = ground arith

-- From here on the times lie between `first` and `last`, an int64.
module _ (first last : ℕ) (fits : last < i64_half) where
  Known : List (Str × ℤ) → Type 0
  Known ts = All (λ (e : Str × ℤ). IsWithin first last e.1) ts

  put_time-Known :
      (ts : List (Str × ℤ)) (id : Str) (t : ℤ)
      → IsWithin first last t
      → Known ts
      → Known (put_time ts id t)
  unfolding Known
  put_time-Known [] id t w k = (w, tt)
  put_time-Known ((i, u) ∷ ts) id t w k = elim (Bool-cases (str_eq i id)) [
    | inl e ↦ rw e (w, k.1)
    | inr e ↦ rw e (k.0, put_time-Known ts id t w k.1)
  ]

  time_of-Known :
      (ts : List (Str × ℤ)) (id : Str) (t : ℤ)
      → Known ts
      → time_of ts id ≡ some t
      → IsWithin first last t
  unfolding Known
  time_of-Known [] id t k e = absurd (let e' : none ≡ some t = e in cc)
  time_of-Known ((i, u) ∷ ts) id t k e = elim (Bool-cases (str_eq i id)) [
    | inl f ↦ (let e' : some u ≡ some t = sym (rw f refl) ∙ e in let q : t ≡ u = cc in rw q k.0)
    | inr f ↦ time_of-Known ts id t k.1 (sym (rw f refl) ∙ e)
  ]

  -- What the first loop gathers.
  collect-Known :
      (xs : List Instance) (latest : ℤ) (ts : List (Str × ℤ))
      → All (IsRecent first last) xs
      → IsWithin first last latest
      → Known ts
      → IsWithin first last (collect_times xs latest ts).0 × Known (collect_times xs latest ts).1
  unfolding collect_times
  collect-Known [] latest ts r w k = (w, k)
  collect-Known (x ∷ xs) latest ts r w k =
      let k' = put_time-Known ts x.id r.0.beat r.0.within k in
      rw (collect_times, r.0.is_beat)
        (elim (Bool-cases (leb_ℤ latest r.0.beat)) [
          | inl e ↦ rw e (collect-Known xs r.0.beat (put_time ts x.id r.0.beat) r.1 r.0.within k')
          | inr e ↦ rw e (collect-Known xs latest (put_time ts x.id r.0.beat) r.1 w k')
        ])

  not_needed :
      (latest t : ℤ) (x : Instance)
      → IsRecent first last x
      → IsWithin first last latest
      → IsWithin first last t
      → need_zero_protect latest t x.ttl ≡ false
  unfolding need_zero_protect
  not_needed latest t x r w u =
      rw (w.is_value, u.is_value, r.is_ttl, triple_small r.ttl r.small)
        (difference w.value (3 * r.ttl) u.value (let h = w.not_after in omega arith) r.small
          (let h = w.not_after in let k = u.not_before in let c = r.close in omega arith))

  protected-none :
      (xs : List Instance) (latest : ℤ) (ts : List (Str × ℤ))
      → All (IsRecent first last) xs
      → IsWithin first last latest
      → Known ts
      → protected xs latest ts ≡ []
  unfolding protected
  protected-none [] latest ts r w k = refl
  protected-none (x ∷ xs) latest ts r w k = elim (Option-cases (time_of ts x.id)) [
    | inl e ↦ rw (protected, e) (protected-none xs latest ts r.1 w k)
    | inr (t, e) ↦
        rw (protected, e, not_needed latest t x r.0 w (time_of-Known ts x.id t k e))
          (protected-none xs latest ts r.1 w k)
  ]

  first_time : (n : ℕ) → leb_ℤ (negsuc 0) (pos n) ≡ true
  first_time n = ground arith

  -- If there is an instance, and the last heartbeats of all of them lie within three times to live
  -- of each other, so that none has gone stale, the protection keeps none of them: it hands out a
  -- service without instances.
  pub fresh_dropped :
      (x : Instance) (xs : List Instance)
      → All (IsRecent first last) (x ∷ xs)
      → protected_instances (x ∷ xs) ≡ some []
  unfolding protected_instances collect_times Known
  fresh_dropped x xs r =
      let b = r.0.within in
      let ts = put_time [] x.id r.0.beat in
      let e : collect_times (x ∷ xs) (negsuc 0) [] ≡ collect_times xs r.0.beat ts =
        rw (collect_times, r.0.is_beat, b.is_value, first_time b.value) refl in
      let (w, k) = collect-Known xs r.0.beat ts r.1 b (put_time-Known [] x.id r.0.beat b tt) in
      rw (e, protected-none (x ∷ xs) _ _ r w k, w.is_value) refl
