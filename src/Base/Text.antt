-- ===== src/Base/Text.antt =====
-- Go strings as lists of bytes, with what the code uses of `strings` and `strconv`.
use polaris_go.Base.Tests.{ltb, leb, ◌==◌, if◌then◌else◌}
use polaris_go.Base.Int.{ℤ, pos, sub_ℕ, i64_half}
use Prim.Native.Nat.{ℕ, ◌+◌, ◌-◌, ◌*◌}
use mathlib.Core.Path.{◌≡◌, refl}
use mathlib.Core.Logic.{◌↔◌}
use mathlib.Core.Bool.{Bool, true, false, ◌&&◌, ◌||◌}
use mathlib.Core.Option.{Option, none, some}
use mathlib.Core.List.{List, [], ◌∷◌, reverse}
use native.Mathlib.Omega.{arith}

abbrev pub Str : Type 0
Str = List ℕ

unfoldable pub str_eq : Str → Str → Bool
str_eq [] [] = true
str_eq [] (d ∷ t) = false
str_eq (c ∷ s) [] = false
str_eq (c ∷ s) (d ∷ t) = c == d && str_eq s t

pub str_eq_iff : (s t : Str) → (str_eq s t ≡ true) ↔ (s ≡ t)
unfolding str_eq
str_eq_iff [] [] = (λ _. refl, λ _. refl)
str_eq_iff [] (d ∷ t) = (λ h. cc, λ h. cc)
str_eq_iff (c ∷ s) [] = (λ h. cc, λ h. cc)
str_eq_iff (c ∷ s) (d ∷ t) =
    (λ h. ground (arith, str_eq_iff s t), λ h. ground (arith, str_eq_iff s t))

pub str_eq_refl : (s : Str) → str_eq s s ≡ true
str_eq_refl s = (str_eq_iff s s).1 refl

-- `strings.Compare`: bytewise, as -1, 0 and 1.
pub data Order : Type 0 where
  less same more : Order

unfoldable pub compare_str : Str → Str → Order
compare_str [] [] = same
compare_str [] (d ∷ t) = less
compare_str (c ∷ s) [] = more
compare_str (c ∷ s) (d ∷ t) = if ltb c d then less else if ltb d c then more else compare_str s t

-- `strings.Split` at one byte.
unfoldable pub split_at : ℕ → Str → Str → List Str
split_at sep acc [] = reverse acc ∷ []
split_at sep acc (c ∷ s) =
    let whole = reverse acc ∷ split_at sep [] s in
    let more = split_at sep (c ∷ acc) s in if c == sep then whole else more

unfoldable pub split : ℕ → Str → List Str
unfolding split_at
split sep s = split_at sep [] s

-- `strings.TrimSpace` on ASCII text.
abbrev is_space : ℕ → Bool
is_space c = c == 32 || (leb 9 c && leb c 13)

unfoldable pub trim_left : Str → Str
trim_left [] = []
trim_left (c ∷ s) = if is_space c then trim_left s else c ∷ s

unfoldable pub trim_space : Str → Str
unfolding trim_left
trim_space s = reverse (trim_left (reverse (trim_left s)))

-- `strconv.ParseInt(s, 10, 64)`: an optional sign, digits, and the range of an int64.
unfoldable pub digits_value : ℕ → Str → Option ℕ
digits_value acc [] = some acc
digits_value acc (c ∷ s) =
    let rest = digits_value (acc * 10 + (c - b'0')) s in
    if leb b'0' c && leb c b'9' then rest else none

unfoldable pub unsigned_value : Str → Option ℕ
unsigned_value [] = none
unsigned_value (c ∷ s) = digits_value 0 (c ∷ s)

abbrev positive : Option ℕ → Option ℤ
positive none = none
positive (some n) = if ltb n i64_half then some (pos n) else none

abbrev negative : Option ℕ → Option ℤ
negative none = none
negative (some n) = if leb n i64_half then some (sub_ℕ 0 n) else none

unfoldable pub parse_int : Str → Option ℤ
unfolding unsigned_value digits_value
parse_int [] = none
parse_int (c ∷ s) =
    if c == b'-'
    then negative (unsigned_value s)
    else if c == b'+'
    then positive (unsigned_value s)
    else positive (unsigned_value (c ∷ s))
