-- ===== src/RateLimit/Float/Exact.antt =====
-- Where the rounding of `createRemoteToLocalTokens` (bucket_qps.go) does not show: totals below 2^53.
use native.Mathlib.Nat.{div-add-mod, mod-lt, mul-le-mul_left, mul-le-mul_right, div-eq_of_lt-le}
use polaris_go.Base.{
  ℕ, zero, suc, ◌+◌, ◌-◌, ◌*◌, ◌/◌, ◌%◌, ◌<◌, ◌≤◌, ◌≡◌, ◌==◌, refl, ap, ◌∙◌, ltb, leb, lt→ltb,
  leb→le, ltb→lt, Bool-cases, inl, inr, arith,
}
use polaris_go.Base.Int.{pos, u32_mod}
use polaris_go.RateLimit.Float.{
  float_low, float_high, round_even, scale_down, scale_up, to_float, float_div, ceil_div,
}

scale_down-one : (fuel n d : ℕ) → n < float_high * d → scale_down (suc fuel) n d 1 ≡ 1
unfolding scale_down
scale_down-one fuel n d h = rw (lt→ltb n (float_high * (d * 1)) (omega arith)) refl

-- What is rounded lies within half a divisor.
round_even-near :
    (n d : ℕ)
    → 0 < d
    → let m = round_even n d in (2 * n ≤ 2 * (m * d) + d) × (2 * (m * d) ≤ 2 * n + d)
unfolding round_even
round_even-near n d h =
    let e = div-add-mod n d in
    let r = mod-lt n h in
    elim (Bool-cases (ltb (2 * (n % d)) d)) [
      | inl f ↦ (let g = ltb→lt (2 * (n % d)) d f in rw f (omega arith, omega arith))
      | inr f ↦
          let g : d ≤ 2 * (n % d) = ground (arith, f) in
          elim (Bool-cases (ltb d (2 * (n % d)))) [
            | inl i ↦ rw (f, i) (omega arith, omega arith)
            | inr i ↦
                let k : 2 * (n % d) ≤ d = ground (arith, i) in
                elim (Bool-cases (n / d % 2 == 0)) [
                  | inl j ↦ rw (f, i, j) (omega arith, omega arith)
                  | inr j ↦ rw (f, i, j) (omega arith, omega arith)
                ]
          ]
    ]

to_float-exact : (n : ℕ) → n < float_high → to_float n ≡ n
unfolding to_float round_even
to_float-exact n h = rw (scale_down-one 10 n 1 (omega arith)) (ground arith)

-- The largest factor that the fuel allows.
abbrev largest : ℕ → ℕ → ℕ
largest zero p = p
largest (suc fuel) p = largest fuel (2 * p)

scale_up-large :
    (fuel n d p : ℕ) → float_low * d ≤ n * largest fuel p → float_low * d ≤ n * scale_up fuel n d p
unfolding scale_up
scale_up-large zero n d p h = h
scale_up-large (suc fuel) n d p h = elim (Bool-cases (leb (float_low * d) (n * p))) [
  | inl e ↦ rw e (leb→le (float_low * d) (n * p) e)
  | inr e ↦ rw e (scale_up-large fuel n d (2 * p) h)
]

module _ (total count p m c : ℕ) (count_pos : 0 < count) (small : total < float_high)
    (large : float_low * count ≤ total * p) where
  -- One step of the mantissa is more than half a divisor.
  fine : count < 2 * p
  fine = elim (Bool-cases (leb (2 * p) count)) [
    | inr e ↦ ground (arith, e)
    | inl e ↦
        let far = mul-le-mul_left total (leb→le (2 * p) count e) in
        let bound = mul-le-mul_right count (let s : total + 1 ≤ float_high = omega arith in s) in
        omega arith
  ]

  -- A mantissa within half a divisor of a quotient just above `c`, and not above `c + 1`, is too.
  module _ (above : count * c < total) (not_above : total ≤ count * (c + 1))
      (near₁ : 2 * (total * p) ≤ 2 * (m * count) + count)
      (near₂ : 2 * (m * count) ≤ 2 * (total * p) + count) where
    mantissa_above : c * p < m
    mantissa_above = elim (Bool-cases (leb m (c * p))) [
      | inr e ↦ ground (arith, e)
      | inl e ↦
          let low = mul-le-mul_right count (leb→le m (c * p) e) in
          let more = mul-le-mul_right p (let s : count * c + 1 ≤ total = omega arith in s) in
          let f = fine in omega arith
    ]

    mantissa_not_above : m ≤ (c + 1) * p
    mantissa_not_above = elim (Bool-cases (leb ((c + 1) * p + 1) m)) [
      | inr e ↦ ground (arith, e)
      | inl e ↦
          let high = mul-le-mul_right count (leb→le ((c + 1) * p + 1) m e) in
          let less = mul-le-mul_right p not_above in omega arith
    ]

    ceil_mantissa : (m + p - 1) / p ≡ c + 1
    ceil_mantissa =
        let a = mantissa_above in
        let b = mantissa_not_above in div-eq_of_lt-le p (omega arith) (omega arith)

-- The exact quotient, rounded up.
pub ceil_bounds :
    (total count : ℕ)
    → 0 < count
    → let k = (total + count - 1) / count in (total ≤ count * k) × (count * k < total + count)
ceil_bounds total count h =
    omega (arith, div-add-mod (total + count - 1) count, mod-lt (total + count - 1) h)

pub ceil_pos : (total count : ℕ) → 0 < total → 0 < count → 0 < (total + count - 1) / count
ceil_pos total count h k = grind (arith, ceil_bounds total count k)

-- For a total of 1 to below 2^53 and a count of 1 to below 2^32, the code computes the exact quotient,
-- rounded up.
pub ceil_div-exact :
    (total count : ℕ)
    → 0 < total
    → total < float_high
    → 0 < count
    → count < u32_mod
    → ceil_div (pos total) count ≡ pos ((total + count - 1) / count)
unfolding ceil_div float_div
ceil_div-exact total count h small count_pos bound =
    let p = scale_up 117 total count 1 in
    let m = round_even (total * p) (count * 1) in
    let large : float_low * count ≤ total * p = scale_up-large 117 total count 1 (omega arith) in
    let near = round_even-near (total * p) (count * 1) (omega arith) in
    let q = (total + count - 1) / count in
    let q_pos : 0 < q = ceil_pos total count h count_pos in
    let bounds = ceil_bounds total count count_pos in
    let back : q - 1 + 1 ≡ q = omega arith in
    let not_above : total ≤ count * (q - 1 + 1) = rw back (bounds.0) in
    let above : count * (q - 1) < total =
      (let high : count * (q - 1 + 1) < total + count = rw back (bounds.1) in omega arith) in
    let whole =
      ceil_mantissa total count p m (q - 1) count_pos small large above not_above (omega arith)
        (omega arith) in
    rw
      (
        to_float-exact total small,
        to_float-exact count (omega arith),
        scale_down-one 10 total count (omega arith),
      )
      (ap pos (ap (λ n. (n + p - 1) / p) (let one : m * 1 ≡ m = omega arith in one) ∙ whole ∙ back))
