-- ===== src/Breaker/Rules/Compare.antt =====
-- Comparisons that order what they compare, and the one of the texts of rules: plugin/circuitbreaker/composite/rule.go.
use polaris_go.Base.{
  ℕ, ◌<◌, ◌≡◌, refl, sym, ap, ◌∙◌, Bool, true, false, ◌&&◌, [], ◌∷◌, ltb, if◌then◌else◌, Bool-cases,
  inl, inr, arith,
}
use polaris_go.Base.Text.{Str, compare_str, Order, less, same, more}
use polaris_go.Match.{is_match_all}
use polaris_go.Breaker.Rules.{compare_string_value, then_by}

abbrev pub flip : Order → Order
flip less = more
flip same = same
flip more = less

-- The outcomes of comparing three things in a row: the first two, the last two, and the outer ones.
abbrev pub Fits : Order → Order → Order → Type 0
Fits same o p = p ≡ o
Fits o same p = p ≡ o
Fits less less p = p ≡ less
Fits more more p = p ≡ more
Fits less more p = Unit {0}
Fits more less p = Unit {0}

pub record IsCompare {A : Type 0} (f : A → A → Order) : Type 0 where
  pub flips : (a b : A) → f b a ≡ flip (f a b)
  pub fits : (a b c : A) → Fits (f a b) (f b c) (f a c)

flip-then_by : (o p : Order) → flip (then_by o p) ≡ then_by (flip o) (flip p)
flip-then_by less p = refl
flip-then_by same p = refl
flip-then_by more p = refl

less_last : (o : Order) → Fits o less less
less_last less = refl
less_last same = refl
less_last more = tt

more_last : (o : Order) → Fits o more more
more_last less = tt
more_last same = refl
more_last more = refl

less_first : (o : Order) → Fits less o less
less_first less = refl
less_first same = refl
less_first more = tt

more_first : (o : Order) → Fits more o more
more_first less = tt
more_first same = refl
more_first more = refl

Fits-then_by :
    (a b c a' b' c' : Order)
    → Fits a b c
    → Fits a' b' c'
    → Fits (then_by a a') (then_by b b') (then_by c c')
Fits-then_by same same c a' b' c' h k = rw h k
Fits-then_by same less c a' b' c' h k = rw h (less_last a')
Fits-then_by same more c a' b' c' h k = rw h (more_last a')
Fits-then_by less same c a' b' c' h k = rw h (less_first b')
Fits-then_by more same c a' b' c' h k = rw h (more_first b')
Fits-then_by less less c a' b' c' h k = rw h refl
Fits-then_by more more c a' b' c' h k = rw h refl
Fits-then_by less more c a' b' c' h k = tt
Fits-then_by more less c a' b' c' h k = tt

-- Comparisons of parts, one after the other.
pub then_by-IsCompare :
    {A : Type 0} (f g : A → A → Order)
    → IsCompare f
    → IsCompare g
    → IsCompare (λ a b. then_by (f a b) (g a b))
then_by-IsCompare f g p q = record {
  flips = λ a b.
      ap (λ o. then_by o (g b a)) (p.flips a b)
      ∙ ap (then_by (flip (f a b))) (q.flips a b)
      ∙ sym (flip-then_by (f a b) (g a b));
  fits = λ a b c.
      Fits-then_by (f a b) (f b c) (f a c) (g a b) (g b c) (g a c) (p.fits a b c) (q.fits a b c);
}

compare_str-flips : (s t : Str) → compare_str t s ≡ flip (compare_str s t)
unfolding compare_str
compare_str-flips [] [] = refl
compare_str-flips [] (d ∷ t) = refl
compare_str-flips (c ∷ s) [] = refl
compare_str-flips (c ∷ s) (d ∷ t) = ground (arith, compare_str-flips s t)

-- The comparison of the first bytes.
abbrev compare_byte : ℕ → ℕ → Order
compare_byte c d = if ltb c d then less else if ltb d c then more else same

data Ordered (c d : ℕ) : Type 0 where
  below : c < d → compare_byte c d ≡ less → Ordered c d
  equal : c ≡ d → compare_byte c d ≡ same → Ordered c d
  above : d < c → compare_byte c d ≡ more → Ordered c d

below_byte : (c d : ℕ) → c < d → compare_byte c d ≡ less
below_byte c d h = ground arith

equal_byte : (c d : ℕ) → c ≡ d → compare_byte c d ≡ same
equal_byte c d h = ground arith

above_byte : (c d : ℕ) → d < c → compare_byte c d ≡ more
above_byte c d h = ground arith

order_of : (c d : ℕ) → Ordered c d
order_of c d = elim (Bool-cases (ltb c d)) [
  | inl e ↦ (let h : c < d = ground (arith, e) in below h (below_byte c d h))
  | inr e ↦ elim (Bool-cases (ltb d c)) [
    | inl f ↦ (let h : d < c = ground (arith, f) in above h (above_byte c d h))
    | inr f ↦ (let h : c ≡ d = ground (arith, e, f) in equal h (equal_byte c d h))
  ]
]

compare_byte-Fits : (c d e : ℕ) → Fits (compare_byte c d) (compare_byte d e) (compare_byte c e)
compare_byte-Fits c d e = elim (order_of c d) [
  | below h p ↦ elim (order_of d e) [
    | below k q ↦ rw (p, q) (below_byte c e (omega arith))
    | equal k q ↦ rw (p, q) (below_byte c e (omega arith))
    | above k q ↦ rw (p, q) tt
  ]
  | equal h p ↦ elim (order_of d e) [
    | below k q ↦ rw (p, q) (below_byte c e (omega arith))
    | equal k q ↦ rw (p, q) (equal_byte c e (omega arith))
    | above k q ↦ rw (p, q) (above_byte c e (omega arith))
  ]
  | above h p ↦ elim (order_of d e) [
    | below k q ↦ rw (p, q) tt
    | equal k q ↦ rw (p, q) (above_byte c e (omega arith))
    | above k q ↦ rw (p, q) (above_byte c e (omega arith))
  ]
]

compare_str-cons :
    (c d : ℕ) (s t : Str)
    → compare_str (c ∷ s) (d ∷ t) ≡ then_by (compare_byte c d) (compare_str s t)
unfolding compare_str
compare_str-cons c d s t = ground arith

compare_str-Fits : (s t u : Str) → Fits (compare_str s t) (compare_str t u) (compare_str s u)
unfolding compare_str
compare_str-Fits [] [] [] = refl
compare_str-Fits [] [] (e ∷ u) = refl
compare_str-Fits [] (d ∷ t) [] = tt
compare_str-Fits [] (d ∷ t) (e ∷ u) = less_first _
compare_str-Fits (c ∷ s) [] [] = refl
compare_str-Fits (c ∷ s) [] (e ∷ u) = tt
compare_str-Fits (c ∷ s) (d ∷ t) [] = more_last _
compare_str-Fits (c ∷ s) (d ∷ t) (e ∷ u) =
    rw (compare_str-cons c d s t, compare_str-cons d e t u, compare_str-cons c e s u)
      (Fits-then_by _ _ _ _ _ _ (compare_byte-Fits c d e) (compare_str-Fits s t u))

compare_str-IsCompare : IsCompare compare_str
compare_str-IsCompare = record { flips = compare_str-flips; fits = compare_str-Fits }

-- The values that match all stand after all others.
all_or : Bool → Bool → Order → Order
all_or true true o = same
all_or true false o = more
all_or false true o = less
all_or false false o = o

all_or-flips : (a b : Bool) (o : Order) → all_or b a (flip o) ≡ flip (all_or a b o)
unfolding all_or
all_or-flips true true o = refl
all_or-flips true false o = refl
all_or-flips false true o = refl
all_or-flips false false o = refl

all_or-Fits :
    (a b c : Bool) (o p q : Order) → Fits o p q → Fits (all_or a b o) (all_or b c p) (all_or a c q)
unfolding all_or
all_or-Fits true true true o p q h = refl
all_or-Fits true true false o p q h = refl
all_or-Fits true false true o p q h = tt
all_or-Fits true false false o p q h = more_first p
all_or-Fits false true true o p q h = refl
all_or-Fits false true false o p q h = tt
all_or-Fits false false true o p q h = less_last o
all_or-Fits false false false o p q h = h

all_branches :
    (a b : Bool) (o : Order)
    → (if a && b then same else if a then more else if b then less else o) ≡ all_or a b o
unfolding all_or
all_branches true true o = refl
all_branches true false o = refl
all_branches false true o = refl
all_branches false false o = refl

texts_all :
    (v w : Str)
    → compare_string_value v w ≡ all_or (is_match_all v) (is_match_all w) (compare_str v w)
unfolding compare_string_value all_or
texts_all v w = all_branches (is_match_all v) (is_match_all w) (compare_str v w)

pub texts-IsCompare : IsCompare compare_string_value
texts-IsCompare = record {
  flips = λ v w.
      rw (texts_all v w, texts_all w v, compare_str-flips v w)
        (all_or-flips (is_match_all v) (is_match_all w) (compare_str v w));
  fits = λ v w u.
      rw (texts_all v w, texts_all w u, texts_all v u)
        (all_or-Fits (is_match_all v) (is_match_all w) (is_match_all u) _ _ _
          (compare_str-Fits v w u));
}
