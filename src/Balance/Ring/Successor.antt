-- ===== src/Balance/Ring/Successor.antt =====
-- Which point of the hash ring a value selects: selectByHashValue,
-- plugin/loadbalancer/ringhash/continuum.go, by the search of pkg/algorithm/search/search.go.
use polaris_go.Base.{
  ℕ, zero, suc, ◌+◌, ◌/◌, ◌≤◌, ◌<◌, ◌≡◌, ◌∙◌, refl, sym, ap, some, [], ◌∷◌, All, ◌==◌, leb,
  if◌then◌else◌, length, get_or, ◌⊎◌, Bool-cases, inl, inr, arith,
}
use polaris_go.Balance.Search.{
  SearchableSlice, IsMonotone, IsPlace, select_loop, binary_search, binary_search_lem,
  binary_search-zero,
}
use polaris_go.Balance.Ring.{
  ContinuumPoint, Ring, no_point, slice_of_ring, select_at, select_by_hash_value,
}
use polaris_go.Balance.Ring.Distinct.{IsAscending}

-- The reference: the place of the first point whose value is not below the selector, and the first
-- place if there is none.
abbrev pub successor_from : ℕ → ℕ → Ring → ℕ
successor_from selector i [] = 0
successor_from selector i (p ∷ ps) =
    if leb selector p.hash_value then i else successor_from selector (i + 1) ps

abbrev pub successor : ℕ → Ring → ℕ
successor selector ring = successor_from selector 0 ring

-- A selector above all values.
module _ (s : SearchableSlice) (selector : ℕ) where
  above-select_loop :
      (fuel lowp : ℕ)
      → ((i : ℕ) → i < s.count → s.get_value i < selector)
      → lowp ≤ s.count
      → s.count < fuel + lowp
      → select_loop s selector fuel lowp s.count ≡ some 0
  unfolding select_loop
  above-select_loop zero lowp above l h = absurd (omega arith)
  above-select_loop (suc fuel) lowp above l h =
      elim (Bool-cases ((lowp + s.count) / 2 == s.count)) [
        | inl e ↦ rw e refl
        | inr e ↦ ground (
          arith,
          e,
          above ((lowp + s.count) / 2),
          above-select_loop fuel ((lowp + s.count) / 2 + 1) above,
        )
      ]

abbrev value_at : Ring → ℕ → ℕ
value_at ring i = (get_or ring i no_point).hash_value

-- A point is found at a place, or all values are below.
abbrev Found : ℕ → ℕ → Ring → ℕ → Type 0
Found selector i ps k =
    (successor_from selector i ps ≡ i + k)
    × (k < length ps)
    × (selector ≤ value_at ps k)
    × ((j : ℕ) → j < k → value_at ps j < selector)

abbrev Missed : ℕ → ℕ → Ring → Type 0
Missed selector i ps =
    (successor_from selector i ps ≡ 0) × ((j : ℕ) → j < length ps → value_at ps j < selector)

later_below :
    (selector : ℕ) (p : ContinuumPoint) (ps : Ring) (n : ℕ)
    → p.hash_value < selector
    → ((j : ℕ) → j < n → value_at ps j < selector)
    → (j : ℕ) → j < suc n
    → value_at (p ∷ ps) j < selector
later_below selector p ps n h below zero l = h
later_below selector p ps n h below (suc j) l = below j (omega arith)

successor_cases :
    (selector i : ℕ) (ps : Ring) → ((k : ℕ) × Found selector i ps k) ⊎ Missed selector i ps
successor_cases selector i [] = inr (refl, λ j h. absurd (omega arith))
successor_cases selector i (p ∷ ps) = elim (Bool-cases (leb selector p.hash_value)) [
  | inl e ↦
      inl (0, (rw e (omega arith), omega arith, ground (arith, e), λ j h. absurd (omega arith)))
  | inr e ↦
      let low : p.hash_value < selector = ground (arith, e) in
      elim (successor_cases selector (i + 1) ps) [
        | inl (k, (same, inside, above, below)) ↦ inl (
          suc k,
          (rw e (omega (arith, same)), omega arith, above, later_below selector p ps k low below),
        )
        | inr (none_left, below) ↦
            inr (rw e none_left, later_below selector p ps (length ps) low below)
      ]
]

least-value :
    (p : ContinuumPoint) (ps : Ring) (j : ℕ)
    → All (λ (q : ContinuumPoint). p.hash_value < q.hash_value) ps
    → j < length ps
    → p.hash_value < value_at ps j
least-value p [] j a h = absurd (omega arith)
least-value p (q ∷ ps) zero a h = a.0
least-value p (q ∷ ps) (suc j) a h = least-value p ps j a.1 (omega arith)

values_mono :
    (ring : Ring) (i j : ℕ)
    → IsAscending ring
    → i ≤ j
    → j < length ring
    → value_at ring i ≤ value_at ring j
values_mono [] i j s h b = absurd (omega arith)
values_mono (p ∷ ps) zero zero s h b = omega arith
values_mono (p ∷ ps) zero (suc j) s h b =
    (let q = least-value p ps j s.0 (omega arith) in omega arith)
values_mono (p ∷ ps) (suc i) zero s h b = absurd (omega arith)
values_mono (p ∷ ps) (suc i) (suc j) s h b = values_mono ps i j s.1 (omega arith) (omega arith)

slice-IsMonotone : (ring : Ring) → IsAscending ring → IsMonotone (slice_of_ring ring)
unfolding slice_of_ring
slice-IsMonotone ring s = record { monotone = λ i j h b. values_mono ring i j s h b }

at_zero : (ring : Ring) → successor 0 ring ≡ 0
at_zero [] = refl
at_zero (p ∷ ps) = ground arith

search-successor :
    (ring : Ring) (selector : ℕ)
    → IsAscending ring
    → binary_search (slice_of_ring ring) selector ≡ some (successor selector ring)
search-successor ring zero s =
    binary_search-zero (slice_of_ring ring) ∙ ap some (sym (at_zero ring))
search-successor ring (suc m) s = elim (successor_cases (suc m) 0 ring) [
  | inl (k, (same, inside, above, below)) ↦
      (let place : IsPlace (slice_of_ring ring) (suc m) k =
          unfold slice_of_ring in record { inside = inside; above = above; below = below } in
        binary_search_lem (slice_of_ring ring) (suc m) k (slice-IsMonotone ring s) place
          (omega arith)
        ∙ ap some (omega (arith, same)))
  | inr (none_left, below) ↦
      unfold binary_search slice_of_ring in
      above-select_loop (slice_of_ring ring) (suc m) (length ring + 1) 0 below (omega arith)
        (omega arith)
      ∙ ap some (sym none_left)
]

-- On a ring whose values rise strictly, as every ring that is built: the place selected for a hash
-- value is that of its successor, the first point whose value is not below it, and the first point
-- of the ring where there is none.
pub select_by_hash_value-successor :
    (ring : Ring) (hash_value replicate_count : ℕ)
    → IsAscending ring
    → select_by_hash_value ring hash_value replicate_count
      ≡ some (select_at ring (successor hash_value ring) replicate_count)
unfolding select_by_hash_value
select_by_hash_value-successor ring hash_value replicate_count s =
    rw (search-successor ring hash_value s, select_by_hash_value) refl
