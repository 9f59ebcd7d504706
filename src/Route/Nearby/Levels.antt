-- ===== src/Route/Nearby/Levels.antt =====
-- The level that the search of the nearby router ends at: plugin/servicerouter/nearbybase/nearby.go.
use polaris_go.Base.{
  ℕ, zero, suc, ◌≤◌, ◌<◌, ◌≡◌, ◌⊎◌, refl, sym, ap, ◌∙◌, Bool, true, false, Option, none, some, List,
  ltb, if◌then◌else◌, Bool-cases, inl, inr, arith,
}
use polaris_go.Route.Nearby.{
  LevelCount, NearbyFilter, check_level_count, search_levels, level_or, final_level,
}

-- The closest level that passes a test, by a search of its own.
abbrev closest : (ℕ → Bool) → ℕ → ℕ → Option ℕ
closest p farthest zero = if ltb 0 farthest then none else if p 0 then some 0 else none
closest p farthest (suc l) =
    let rest = closest p farthest l in
    if ltb (suc l) farthest then none else if p (suc l) then some (suc l) else rest

-- No level of a range passes a test; a level is the closest one of the range that does.
abbrev pub NoLevel : (ℕ → Bool) → ℕ → ℕ → Type 0
NoLevel p farthest nearest = (l : ℕ) → farthest ≤ l → l ≤ nearest → p l ≡ false

pub record IsClosest (p : ℕ → Bool) (farthest nearest level : ℕ) : Type 0 where
  pub passes : p level ≡ true
  pub not_farther : farthest ≤ level
  pub not_nearer : level ≤ nearest
  pub none_closer : (l : ℕ) → level < l → l ≤ nearest → p l ≡ false

-- A range has the levels below its nearest one, and that one.
split_level : (l n : ℕ) → l ≤ suc n → (l ≤ n) ⊎ (l ≡ suc n)
split_level l n h = ground arith

closest-none :
    (p : ℕ → Bool) (farthest nearest : ℕ)
    → closest p farthest nearest ≡ none
    → NoLevel p farthest nearest
closest-none p farthest zero e l h k =
    let z : l ≡ 0 = omega arith in ap p z ∙ ground (arith, e, h, k)
closest-none p farthest (suc n) e l h k =
    let f : ltb (suc n) farthest ≡ false = ground arith in
    elim (Bool-cases (p (suc n))) [
      | inl g ↦ absurd (let e' : some (suc n) ≡ none = sym (rw (f, g) refl) ∙ e in cc)
      | inr g ↦ elim (split_level l n k) [
        | inl k' ↦ closest-none p farthest n (sym (rw (f, g) refl) ∙ e) l h k'
        | inr z ↦ ap p z ∙ g
      ]
    ]

widen :
    (p : ℕ → Bool) (farthest n level : ℕ)
    → p (suc n) ≡ false
    → IsClosest p farthest n level
    → IsClosest p farthest (suc n) level
widen p farthest n level g c = record {
  passes = c.passes;
  not_farther = c.not_farther;
  not_nearer = (let h = c.not_nearer in omega arith);
  none_closer =
      λ l h k. elim (split_level l n k) [ inl k' ↦ c.none_closer l h k' | inr z ↦ ap p z ∙ g ];
}

nearest-IsClosest :
    (p : ℕ → Bool) (farthest n : ℕ) → p n ≡ true → farthest ≤ n → IsClosest p farthest n n
nearest-IsClosest p farthest n g h = record {
  passes = g;
  not_farther = h;
  not_nearer = omega arith;
  none_closer = λ l j k. absurd (omega arith);
}

closest-IsClosest :
    (p : ℕ → Bool) (farthest nearest level : ℕ)
    → closest p farthest nearest ≡ some level
    → IsClosest p farthest nearest level
closest-IsClosest p farthest zero level e = elim (Bool-cases (ltb 0 farthest)) [
  | inl f ↦ absurd (let e' : none ≡ some level = sym (rw f refl) ∙ e in cc)
  | inr f ↦ elim (Bool-cases (p 0)) [
    | inl g ↦
        (let e' : some 0 ≡ some level = sym (rw (f, g) refl) ∙ e in
          (let q : level ≡ 0 = cc in rw q (nearest-IsClosest p farthest 0 g (ground (arith, f)))))
    | inr g ↦ absurd (let e' : none ≡ some level = sym (rw (f, g) refl) ∙ e in cc)
  ]
]
closest-IsClosest p farthest (suc n) level e = elim (Bool-cases (ltb (suc n) farthest)) [
  | inl f ↦ absurd (let e' : none ≡ some level = sym (rw f refl) ∙ e in cc)
  | inr f ↦ elim (Bool-cases (p (suc n))) [
    | inl g ↦
        (let e' : some (suc n) ≡ some level = sym (rw (f, g) refl) ∙ e in
          (let q : level ≡ suc n = cc in
            rw q (nearest-IsClosest p farthest (suc n) g (ground (arith, f)))))
    | inr g ↦
        widen p farthest n level g (closest-IsClosest p farthest n level (sym (rw (f, g) refl) ∙ e))
  ]
]

abbrev or_else : Option ℕ → Option ℕ → Option ℕ
or_else none o = o
or_else (some l) o = some l

module _ (is_tolerable : ℕ → ℕ → Bool) (g : NearbyFilter) (counts : List LevelCount) where
  abbrev pub satisfied : ℕ → Bool
  satisfied l = (check_level_count is_tolerable g counts l).0

  abbrev pub not_zero : ℕ → Bool
  not_zero l = (check_level_count is_tolerable g counts l).1

  search-closest :
      (farthest nearest : ℕ) (found : Option ℕ)
      → level_or is_tolerable (search_levels is_tolerable g counts farthest nearest found)
        ≡ or_else
            (closest satisfied farthest nearest)
            (or_else found (closest not_zero farthest nearest))
  unfolding search_levels
  search-closest farthest zero none = ground arith
  search-closest farthest zero (some k) = ground arith
  search-closest farthest (suc l) none =
      ground (arith, search-closest farthest l none, search-closest farthest l (some (suc l)))
  search-closest farthest (suc l) (some k) = ground (arith, search-closest farthest l (some k))

  -- What the outcome of the search says of the levels from the nearest to the farthest.
  abbrev pub FinalLevel : ℕ → ℕ → Option ℕ → Type 0
  FinalLevel farthest nearest none =
      NoLevel satisfied farthest nearest × NoLevel not_zero farthest nearest
  FinalLevel farthest nearest (some l) =
      IsClosest satisfied farthest nearest l
      ⊎ (NoLevel satisfied farthest nearest × IsClosest not_zero farthest nearest l)

  final_of :
      (farthest nearest : ℕ) (a b : Option ℕ)
      → closest satisfied farthest nearest ≡ a
      → closest not_zero farthest nearest ≡ b
      → FinalLevel farthest nearest (or_else a b)
  final_of farthest nearest (some l) b e f = inl (closest-IsClosest satisfied farthest nearest l e)
  final_of farthest nearest none (some l) e f =
      inr
        (closest-none satisfied farthest nearest e, closest-IsClosest not_zero farthest nearest l f)
  final_of farthest nearest none none e f =
      (closest-none satisfied farthest nearest e, closest-none not_zero farthest nearest f)

  -- The search ends at the closest level of the range that is satisfied; if none is, at the closest
  -- level that has instances; and at none only if no level of the range has instances.
  pub final_level_lem :
      (farthest nearest : ℕ)
      → FinalLevel farthest nearest (final_level is_tolerable g counts nearest farthest)
  unfolding final_level
  final_level_lem farthest nearest =
      rw (search-closest farthest nearest none) (final_of farthest nearest _ _ refl refl)
