-- ===== src/RateLimit/Float.antt =====
-- The float64 arithmetic of `createRemoteToLocalTokens` (bucket_qps.go): a conversion from int64, a
-- division and `math.Ceil`, with IEEE rounding to 53 bits, to nearest and to even on ties. Totals and
-- counts are far inside the range of the exponents.
pub mod Exact
use polaris_go.Base.{ℕ, zero, suc, ◌+◌, ◌-◌, ◌*◌, ◌/◌, ◌%◌, ◌==◌, ltb, leb, if◌then◌else◌}
use polaris_go.Base.Int.{ℤ, pos, negsuc, sub_ℕ}

-- 2^52 and 2^53
abbrev pub float_low : ℕ
float_low = 4503599627370496

abbrev pub float_high : ℕ
float_high = 9007199254740992

-- The integer nearest to `n / d`, an even one on ties.
unfoldable pub round_even : ℕ → ℕ → ℕ
round_even n d =
    let q = n / d in
    let r = n % d in
    if ltb (2 * r) d then q else if ltb d (2 * r) then q + 1 else if q % 2 == 0 then q else q + 1

-- The powers of two, from `p` on, by which a quotient of 2^53 or more is divided, and by which one
-- below 2^52 is multiplied, before it is rounded. The fuel bounds the exponents.
unfoldable pub scale_down : ℕ → ℕ → ℕ → ℕ → ℕ
scale_down zero n d p = p
scale_down (suc fuel) n d p =
    let rest = scale_down fuel n d (2 * p) in if ltb n (float_high * (d * p)) then p else rest

unfoldable pub scale_up : ℕ → ℕ → ℕ → ℕ → ℕ
scale_up zero n d p = p
scale_up (suc fuel) n d p =
    let rest = scale_up fuel n d (2 * p) in if leb (float_low * d) (n * p) then p else rest

-- `float64(n)` for a magnitude below 2^64.
unfoldable pub to_float : ℕ → ℕ
unfolding scale_down round_even
to_float n = let p = scale_down 11 n 1 1 in round_even n p * p

-- A float64 quotient of magnitudes below 2^64, as a mantissa, a factor and a divisor.
unfoldable pub float_div : ℕ → ℕ → ℕ × ℕ × ℕ
unfolding scale_down scale_up round_even
float_div n d =
    let up = scale_down 11 n d 1 in
    let down = scale_up 117 n d 1 in (round_even (n * down) (d * up), up, down)

-- `math.Ceil(float64(total) / float64(count))` as int64.
unfoldable pub ceil_div : ℤ → ℕ → ℤ
unfolding to_float float_div
ceil_div (pos n) count =
    let (m, up, down) = float_div (to_float n) (to_float count) in pos ((m * up + down - 1) / down)
ceil_div (negsuc n) count =
    let (m, up, down) = float_div (to_float (suc n)) (to_float count) in sub_ℕ 0 ((m * up) / down)
