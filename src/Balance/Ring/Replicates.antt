-- ===== src/Balance/Ring/Replicates.antt =====
-- The replicates that are chosen beside a target: selectByHashValue and containsIndex,
-- plugin/loadbalancer/ringhash/continuum.go.
use polaris_go.Base.{
  ℕ, zero, suc, ◌+◌, ◌-◌, ◌%◌, ◌≤◌, ◌<◌, ◌≡◌, ◌≢◌, ◌⊎◌, ◌∙◌, refl, ap, true, false, ◌||◌, List, [],
  ◌∷◌, ◌++◌, All, ◌==◌, ltb, if◌then◌else◌, length, length-append, get_or, Bool-cases, inl, inr,
  arith,
}
use polaris_go.Balance.Ring.{Ring, no_point, contains_index, index_after, collect, new_replicates}

abbrev pub index_at : Ring → ℕ → ℕ
index_at ring k = (get_or ring k no_point).index

-- The index of some point of the ring.
abbrev pub IsOnRing : Ring → ℕ → Type 0
IsOnRing ring j = (k : ℕ) × (k < length ring) × (index_at ring k ≡ j)

abbrev pub IsUnique : List ℕ → Type 0
IsUnique [] = Unit
IsUnique (j ∷ js) = (contains_index js j ≡ false) × IsUnique js

contains-append :
    (js : List ℕ) (n j : ℕ) → contains_index (js ++ (n ∷ [])) j ≡ (contains_index js j || n == j)
unfolding contains_index
contains-append [] n j = ground arith
contains-append (k ∷ js) n j = ground (arith, contains-append js n j)

IsUnique-append :
    (js : List ℕ) (n : ℕ) → IsUnique js → contains_index js n ≡ false → IsUnique (js ++ (n ∷ []))
unfolding contains_index
IsUnique-append [] n u f = (refl, tt)
IsUnique-append (k ∷ js) n u f =
    (ground (arith, contains-append js n k, u.0, f), IsUnique-append js n u.1 (ground (arith, f)))

IsOnRing-append :
    (ring : Ring) (js : List ℕ) (n : ℕ)
    → All (IsOnRing ring) js
    → IsOnRing ring n
    → All (IsOnRing ring) (js ++ (n ∷ []))
IsOnRing-append ring [] n a h = (h, tt)
IsOnRing-append ring (j ∷ js) n a h = (a.0, IsOnRing-append ring js n a.1 h)

-- No index twice, not the target, no more than asked for, and all of the ring.
pub record IsChoice (ring : Ring) (target count : ℕ) (js : List ℕ) : Type 0 where
  pub unique : IsUnique js
  pub others : contains_index js target ≡ false
  pub enough : length js ≤ count
  pub on_ring : All (IsOnRing ring) js

module _ (ring : Ring) (ring_index target count : ℕ) (filled : 0 < length ring) where
  abbrev next : ℕ → List ℕ → List ℕ
  next i acc =
      let index = index_after ring ring_index i in
      if target == index || contains_index acc index then acc else acc ++ (index ∷ [])

  next-IsChoice :
      (i : ℕ) (acc : List ℕ)
      → IsChoice ring target count acc
      → (length acc == count) ≡ false
      → IsChoice ring target count (next i acc)
  next-IsChoice i acc c f =
      let index = index_after ring ring_index i in
      elim (Bool-cases (target == index || contains_index acc index)) [
        | inl e ↦ rw e c
        | inr e ↦ rw e (record {
          unique = IsUnique-append acc index c.unique (ground (arith, e));
          others = contains-append acc index target ∙ ground (arith, c.others, e);
          enough =
              (let n = length-append acc (index ∷ []) in
                let enough = c.enough in ground (arith, n, enough, f));
          on_ring =
              IsOnRing-append ring acc index c.on_ring
                ((ring_index + i) % length ring, omega arith, refl);
        })
      ]

  collect-IsChoice :
      (left i : ℕ) (acc : List ℕ)
      → IsChoice ring target count acc
      → IsChoice ring target count (collect ring ring_index target count left i acc)
  unfolding collect
  collect-IsChoice zero i acc c = c
  collect-IsChoice (suc left) i acc c = elim (Bool-cases (length acc == count)) [
    | inl e ↦ rw e c
    | inr e ↦ rw e (collect-IsChoice left (i + 1) (next i acc) (next-IsChoice i acc c e))
  ]

  -- A place whose index is the target's or chosen.
  abbrev IsCovered : List ℕ → ℕ → Type 0
  IsCovered js i =
      let index = index_after ring ring_index i in
      (target ≡ index) ⊎ (contains_index js index ≡ true)

  next-keeps :
      (i : ℕ) (acc : List ℕ) (j : ℕ)
      → contains_index acc j ≡ true
      → contains_index (next i acc) j ≡ true
  next-keeps i acc j h =
      let index = index_after ring ring_index i in
      elim (Bool-cases (target == index || contains_index acc index)) [
        | inl e ↦ rw e h
        | inr e ↦ rw (e, contains-append acc index j, h) refl
      ]

  collect-keeps :
      (left i : ℕ) (acc : List ℕ) (j : ℕ)
      → contains_index acc j ≡ true
      → contains_index (collect ring ring_index target count left i acc) j ≡ true
  unfolding collect
  collect-keeps zero i acc j h = h
  collect-keeps (suc left) i acc j h = elim (Bool-cases (length acc == count)) [
    | inl e ↦ rw e h
    | inr e ↦ rw e (collect-keeps left (i + 1) (next i acc) j (next-keeps i acc j h))
  ]

  next-covers : (i : ℕ) (acc : List ℕ) → IsCovered (next i acc) i
  next-covers i acc =
      let index = index_after ring ring_index i in
      elim (Bool-cases (target == index)) [
        | inl e ↦ inl (ground (arith, e))
        | inr e ↦ elim (Bool-cases (contains_index acc index)) [
          | inl f ↦ inr (rw (e, f) f)
          | inr f ↦ inr (rw (e, f, contains-append acc index index) (ground arith))
        ]
      ]

  kept_cover :
      (left i : ℕ) (acc : List ℕ) (m : ℕ)
      → IsCovered acc m
      → IsCovered (collect ring ring_index target count left i acc) m
  kept_cover left i acc m (inl e) = inl e
  kept_cover left i acc m (inr e) = inr (collect-keeps left i acc _ e)

  collect-covers :
      (left i : ℕ) (acc : List ℕ) (m : ℕ)
      → length (collect ring ring_index target count left i acc) < count
      → i ≤ m
      → m < i + left
      → IsCovered (collect ring ring_index target count left i acc) m
  unfolding collect
  collect-covers zero i acc m h a b = absurd (omega arith)
  collect-covers (suc left) i acc m h a b = elim (Bool-cases (length acc == count)) [
    | inl e ↦ absurd (let h' = rw e at h in ground (arith, h', e))
    | inr e ↦ rw e (
        let h' = rw e at h in
        elim (Bool-cases (m == i)) [
          | inl f ↦
              (let q : i ≡ m = ground (arith, f) in
                rw (← q) (kept_cover left (i + 1) (next i acc) i (next-covers i acc)))
          | inr f ↦
              collect-covers left (i + 1) (next i acc) m h' (ground (arith, f, a)) (omega arith)
        ])
  ]

mod-eq : (a k n : ℕ) → k < n → (a ≡ k) ⊎ (a ≡ k + n) → a % n ≡ k
mod-eq a k n h (inl e) = grind arith
mod-eq a k n h (inr e) = grind arith

-- A place of the ring, counted from another one.
place_after :
    (ring : Ring) (ring_index k : ℕ)
    → ring_index < length ring
    → k < length ring
    → k ≢ ring_index
    → (m : ℕ) × (1 ≤ m)
      × (m < 1 + (length ring - 1))
      × (index_after ring ring_index m ≡ index_at ring k)
place_after ring ring_index k h g n = elim (Bool-cases (ltb k ring_index)) [
  | inr e ↦ (
    k - ring_index,
    ground (arith, e, n),
    omega arith,
    ap (index_at ring) (
        let le : ring_index ≤ k = ground (arith, e) in
        mod-eq (ring_index + (k - ring_index)) k (length ring) g (inl (omega arith))),
  )
  | inl e ↦ (
    k + length ring - ring_index,
    omega arith,
    ground (arith, e),
    ap (index_at ring) (
        let lt : k < ring_index = ground (arith, e) in
        mod-eq (ring_index + (k + length ring - ring_index)) k (length ring) g (inr (omega arith))),
  )
]

-- The replicates chosen beside a target on the ring: their indexes are those of points of the ring,
-- no two are the same, none is the target's and they are no more than asked for; and if they are
-- fewer, every point of the ring has the target's index or a chosen one.
pub new_replicates_lem :
    (ring : Ring) (ring_index count k : ℕ)
    → ring_index < length ring
    → k < length ring
    → let chosen = (new_replicates ring ring_index count).indexes in
      IsChoice ring (index_at ring ring_index) count chosen
      × ((length chosen ≡ count)
          ⊎ ((index_at ring ring_index ≡ index_at ring k)
              ⊎ (contains_index chosen (index_at ring k) ≡ true)))
unfolding new_replicates
new_replicates_lem ring ring_index count k h g =
    let target = index_at ring ring_index in
    let filled : 0 < length ring = omega arith in
    let left = length ring - 1 in
    let chosen = collect ring ring_index target count left 1 [] in
    let start : IsChoice ring target count [] =
      unfold contains_index in
      record { unique = tt; others = refl; enough = omega arith; on_ring = tt } in
    let choice = collect-IsChoice ring ring_index target count filled left 1 [] start in
    (
      choice,
      elim (Bool-cases (length chosen == count)) [
        | inl e ↦ inl (ground (arith, e))
        | inr e ↦ inr (elim (Bool-cases (k == ring_index)) [
          | inl f ↦ inl (ap (index_at ring) (ground (arith, f)))
          | inr f ↦
              (let (m, low, high, same) = place_after ring ring_index k h g (ground (arith, f)) in
                let enough = choice.enough in
                let covered =
                  collect-covers ring ring_index target count filled left 1 [] m
                    (ground (arith, e, enough)) low high in
                rw (← same) covered)
        ])
      ],
    )
