-- ===== src/Balance/Search.antt =====
-- `selectLoop` of pkg/algorithm/search/search.go: the binary search for the place of a selector
-- among accumulated weights. The upper end of the search may become -1, where the code returns 0:
-- the model tests for that before it subtracts.
use polaris_go.Base.{
  ℕ, zero, suc, ◌+◌, ◌-◌, ◌/◌, ◌≤◌, ◌<◌, ◌≡◌, not, ◌&&◌, ◌||◌, Option, none, some, ◌⊎◌, inl, inr,
  ◌==◌, ltb, leb, if◌then◌else◌, arith,
}

-- The interface `SearchableSlice`.
pub record SearchableSlice : Type 0 where
  pub get_value : ℕ → ℕ
  pub count : ℕ

-- The loop, on fuel. `none` says that the fuel is used up.
unfoldable pub select_loop : SearchableSlice → ℕ → ℕ → ℕ → ℕ → Option ℕ
select_loop s selector zero lowp highp = none
select_loop s selector (suc fuel) lowp highp =
    let midp = (lowp + highp) / 2 in
    let midval = s.get_value midp in
    let midval1 = if midp == 0 then 0 else s.get_value (midp - 1) in
    let up = ltb midval selector in
    let lowp' = if up then midp + 1 else lowp in
    let highp' = if up then highp else midp - 1 in
    let is_over = ltb highp' lowp' || (not up && (midp == 0)) in
    let rest = select_loop s selector fuel lowp' highp' in
    if midp == s.count
    then some 0
    else if leb selector midval && ltb midval1 selector
    then some midp
    else if is_over
    then some 0
    else rest

-- `BinarySearch`. Each round of the loop makes the range smaller.
unfoldable pub binary_search : SearchableSlice → ℕ → Option ℕ
unfolding select_loop
binary_search s selector = select_loop s selector (s.count + 1) 0 s.count

-- The values do not decrease.
pub record IsMonotone (s : SearchableSlice) : Type 0 where
  pub monotone : (i j : ℕ) → i ≤ j → j < s.count → s.get_value i ≤ s.get_value j

-- The place of a selector: the first value that is not below it.
pub record IsPlace (s : SearchableSlice) (selector k : ℕ) : Type 0 where
  pub inside : k < s.count
  pub above : selector ≤ s.get_value k
  pub below : (i : ℕ) → i < k → s.get_value i < selector

trichotomy : (m n : ℕ) → (m ≡ n) ⊎ ((m < n) ⊎ (n < m))
trichotomy m n = omega arith

≤_self : (n : ℕ) → n ≤ n
≤_self n = omega arith

no_room : {k lowp highp : ℕ} → lowp ≤ k → k ≤ highp → highp < 0 + lowp → ⊥
no_room l h f = omega arith

module _ (s : SearchableSlice) (selector k : ℕ) (sorted : IsMonotone s)
    (place : IsPlace s selector k) (positive : 0 < selector) where
  inside :
      (lowp highp : ℕ)
      → lowp ≤ k
      → k < (lowp + highp) / 2
      → highp ≤ s.count
      → (lowp + highp) / 2 < s.count
  inside lowp highp l r c = let inside = place.inside in omega arith

  select_loop-place :
      (fuel lowp highp : ℕ)
      → lowp ≤ k
      → k ≤ highp
      → highp ≤ s.count
      → highp < fuel + lowp
      → select_loop s selector fuel lowp highp ≡ some k
  unfolding select_loop
  select_loop-place zero lowp highp l h c f = absurd (no_room l h f)
  select_loop-place (suc fuel) lowp highp l h c f =
      let midp = (lowp + highp) / 2 in
      elim (trichotomy midp k) [
        | inl at_place ↦
            ground (arith, place.inside, place.above, at_place, place.below (midp - 1), positive)
        | inr (inl left) ↦ ground (
          arith,
          place.below midp left,
          place.inside,
          select_loop-place fuel (midp + 1) highp (omega arith) h c (omega arith),
        )
        | inr (inr right) ↦ ground (
          arith,
          place.above,
          inside lowp highp l right c,
          sorted.monotone k midp (omega arith) (inside lowp highp l right c),
          sorted.monotone k (midp - 1) (omega arith),
          select_loop-place fuel lowp (midp - 1) l (omega arith) (omega arith) (omega arith),
        )
      ]

-- On values that do not decrease, the search answers the place of a selector that is not zero, and
-- one round more than there are values is enough for it to end.
pub binary_search_lem :
    (s : SearchableSlice) (selector k : ℕ)
    → IsMonotone s
    → IsPlace s selector k
    → 0 < selector
    → binary_search s selector ≡ some k
unfolding binary_search
binary_search_lem s selector k sorted place positive =
    select_loop-place s selector k sorted place positive (s.count + 1) 0 s.count (omega arith)
      (let inside = place.inside in omega arith) (omega arith) (omega arith)

-- A selector that is zero.
module _ (s : SearchableSlice) where
  select_loop-zero :
      (fuel lowp highp : ℕ)
      → lowp ≤ highp
      → highp < fuel + lowp
      → select_loop s 0 fuel lowp highp ≡ some 0
  unfolding select_loop
  select_loop-zero zero lowp highp h f = absurd (no_room (≤_self lowp) h f)
  select_loop-zero (suc fuel) lowp highp h f =
      ground (arith, select_loop-zero fuel lowp ((lowp + highp) / 2 - 1))

  pub binary_search-zero : binary_search s 0 ≡ some 0
  unfolding binary_search
  binary_search-zero = select_loop-zero (s.count + 1) 0 s.count (omega arith) (omega arith)
