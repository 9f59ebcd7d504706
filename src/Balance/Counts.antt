-- ===== src/Balance/Counts.antt =====
-- How many instances the sets of a cluster value of pkg/model/cluster.go hand out.
use polaris_go.Base.{
  ℕ, ◌+◌, ◌%◌, ◌≡◌, refl, sym, ap, ◌∙◌, Bool, true, false, not, ◌&&◌, ◌||◌, List, [], ◌∷◌, ◌==◌,
  if◌then◌else◌, length, Bool-cases, inl, inr, arith,
}
use polaris_go.Base.Int.{pos, ltb_ℤ, of_bits64, i64_mod}
use polaris_go.Balance.Cluster.{
  Location, Instance, InstanceSet, new_cluster_value, build_from, get_instances_set,
  get_instances_set_when_skip_route_filter,
}
use polaris_go.Balance.Sets.{
  accumulate, sum_weights, Holds, choose_from, is_selectable, is_usable, is_available, is_normal,
  is_member, build_from_lem,
}

abbrev pub any {ℓ} : {A : Type ℓ} → (A → Bool) → List A → Bool
any p [] = false
any p (x ∷ xs) = p x || any p xs

pub any_mono {ℓ} :
    {A : Type ℓ} (p q : A → Bool) (xs : List A)
    → ((x : A) → p x ≡ true → q x ≡ true)
    → any p xs ≡ true
    → any q xs ≡ true
any_mono p q [] f h = cc
any_mono p q (x ∷ xs) f h = elim (Bool-cases (p x)) [
  | inl e ↦ rw (f x e) refl
  | inr e ↦ (let r = any_mono p q xs f (sym (rw e refl) ∙ h) in rw r (ground arith))
]

abbrev pub count_if {ℓ} : {A : Type ℓ} → (A → Bool) → List A → ℕ
count_if p [] = 0
count_if p (x ∷ xs) = if p x then 1 + count_if p xs else count_if p xs

length-accumulate : (n : ℕ) (xs : List (ℕ × Instance)) → length (accumulate n xs) ≡ length xs
length-accumulate n [] = refl
length-accumulate n ((i, x) ∷ xs) = omega (arith, length-accumulate ((n + x.weight) % i64_mod) xs)

length-choose_from :
    (p : Instance → Bool) (i : ℕ) (xs : List Instance) → length (choose_from p i xs) ≡ count_if p xs
length-choose_from p i [] = refl
length-choose_from p i (x ∷ xs) = ground (arith, length-choose_from p (i + 1) xs)

pub count_if-zero {ℓ} :
    {A : Type ℓ} (p : A → Bool) (xs : List A) → (count_if p xs == 0) ≡ not (any p xs)
count_if-zero p [] = refl
count_if-zero p (x ∷ xs) = ground (arith, count_if-zero p xs)

-- A set that holds the chosen instances counts them.
held_count :
    (p : Instance → Bool) (xs : List Instance) (s : InstanceSet)
    → Holds (choose_from p 0 xs) s
    → length s.weighted_indexes ≡ count_if p xs
held_count p xs s h = ap length h.indexes ∙ length-accumulate 0 _ ∙ length-choose_from p 0 xs

no_weight : (xs : List (ℕ × Instance)) → length xs ≡ 0 → sum_weights xs ≡ 0
no_weight [] e = refl
no_weight (x ∷ xs) e = omega arith

positive_total :
    (p : Instance → Bool) (xs : List Instance) (s : InstanceSet)
    → Holds (choose_from p 0 xs) s
    → ltb_ℤ (pos 0) (of_bits64 s.total_weight) ≡ true
    → (count_if p xs == 0) ≡ false
positive_total p xs s h g = elim (Bool-cases (count_if p xs == 0)) [
  | inr e ↦ e
  | inl e ↦
      let z = no_weight (choose_from p 0 xs) (length-choose_from p 0 xs ∙ ground (arith, e)) in
      let u : s.total_weight ≡ 0 = omega (arith, h.total, z) in
      let f = sym (ap (λ n. ltb_ℤ (pos 0) (of_bits64 n)) u) ∙ g in ground (arith, f)
]

-- A member of a cluster that a set is for.
abbrev pub is_chosen : (Instance → Bool) → Location → (Instance → Bool) → Instance → Bool
is_chosen matches location p x = is_member matches location x && p x

some_usable :
    (matches : Instance → Bool) (location : Location) (xs : List Instance)
    → (count_if (is_chosen matches location is_usable) xs == 0) ≡ false
    → (count_if (is_chosen matches location is_usable) xs == 0)
      ≡ not (any (is_chosen matches location is_selectable) xs)
some_usable matches location xs e =
    let u = is_chosen matches location is_usable in
    let s = is_chosen matches location is_selectable in
    let h = count_if-zero u xs in
    let a = any_mono u s xs (λ x p. ground (arith, p)) (ground (arith, h, e)) in
    ground (arith, e, a)

-- The sets of a value that the loop built hand out exactly the instances they are for: as many as
-- are available, closed or selectable. Asked for limited instances, the value hands out some exactly
-- if some member of the cluster is selectable.
pub build_from-counts :
    (matches : Instance → Bool) (location : Location) (xs : List Instance)
    → let v = build_from matches location new_cluster_value 0 xs in
      let size = λ (s : InstanceSet). length s.weighted_indexes in
      let chosen = is_chosen matches location in
      (size (get_instances_set v false true) ≡ count_if (chosen is_available) xs)
      × (size (get_instances_set v false false) ≡ count_if (chosen is_normal) xs)
      × (size (get_instances_set_when_skip_route_filter v true true)
          ≡ count_if (chosen is_selectable) xs)
      × (size v.selectable_instances ≡ count_if (chosen is_selectable) xs)
      × ((size (get_instances_set v true true) == 0) ≡ not (any (chosen is_selectable) xs))
unfolding get_instances_set get_instances_set_when_skip_route_filter
build_from-counts matches location xs =
    let v = build_from matches location new_cluster_value 0 xs in
    let b = build_from_lem matches location xs in
    let chosen = is_chosen matches location in
    let all = held_count (chosen is_selectable) xs v.selectable_instances b.1 in
    let usable = held_count (chosen is_usable) xs v.selectable_instances_without_unhealthy b.2 in
    (
      held_count (chosen is_available) xs v.available_instances b.3,
      held_count (chosen is_normal) xs v.healthy_instances b.4,
      all,
      all,
      elim (Bool-cases
          (ltb_ℤ (pos 0) (of_bits64 v.selectable_instances_without_unhealthy.total_weight))) [
            | inl e ↦
                rw (e, usable)
                  (some_usable matches location xs (
                    positive_total (chosen is_usable) xs v.selectable_instances_without_unhealthy
                      b.2 e))
            | inr e ↦ rw (e, all) (count_if-zero (chosen is_selectable) xs)
          ],
    )
