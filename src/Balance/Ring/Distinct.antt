-- ===== src/Balance/Ring/Distinct.antt =====
-- That the hash ring has no value twice, and is in order: NewContinuum and doRehash,
-- plugin/loadbalancer/ringhash/continuum.go.
use polaris_go.Base.{
  ℕ, zero, suc, ◌+◌, ◌<◌, ◌≡◌, ◌≢◌, ap, inl, inr, true, false, ◌||◌, some, List, [], ◌∷◌, ◌++◌, All,
  ◌==◌, ltb, if◌then◌else◌, length, get_elem?, Bool-cases, Option-cases, arith,
}
use polaris_go.Base.Int.{of_bits64}
use polaris_go.Base.Text.{Str}
use polaris_go.Balance.Cluster.{Instance, WeightedIndex, InstanceSet}
use polaris_go.Balance.Ring.{ContinuumPoint, Ring, is_less, insert_point, sort_points}
use polaris_go.Balance.Ring.Build.{
  HashFuncWithSeed, HashValues, has_hash, put_hash, little_endian, itoa, format_int,
  max_rehash_iteration, do_rehash, point_of, add_point, add_points, add_instances, new_continuum,
}

-- No value twice, and strictly in order.
abbrev pub IsDistinct : Ring → Type 0
IsDistinct [] = Unit
IsDistinct (p ∷ ps) = All (λ (q : ContinuumPoint). p.hash_value ≢ q.hash_value) ps × IsDistinct ps

abbrev pub IsAscending : Ring → Type 0
IsAscending [] = Unit
IsAscending (p ∷ ps) = All (λ (q : ContinuumPoint). p.hash_value < q.hash_value) ps × IsAscending ps

-- Every value of the ring is noted, and none stands twice.
abbrev IsNoted : HashValues × Ring → Type 0
IsNoted (hs, ring) =
    All (λ (p : ContinuumPoint). has_hash hs p.hash_value ≡ true) ring × IsDistinct ring

has_hash-put :
    (hs : HashValues) (v : ℕ) (key : Str) (u : ℕ)
    → has_hash (put_hash hs v key) u ≡ (v == u || has_hash hs u)
has_hash-put [] v key u = ground arith
has_hash-put ((w, old) ∷ hs) v key u = ground (arith, has_hash-put hs v key u)

kept-noted :
    (hs : HashValues) (v : ℕ) (key : Str) (ps : Ring)
    → All (λ (p : ContinuumPoint). has_hash hs p.hash_value ≡ true) ps
    → All (λ (p : ContinuumPoint). has_hash (put_hash hs v key) p.hash_value ≡ true) ps
kept-noted hs v key [] a = tt
kept-noted hs v key (p ∷ ps) a =
    (ground (arith, a.0, has_hash-put hs v key p.hash_value), kept-noted hs v key ps a.1)

All-snoc :
    (P : ContinuumPoint → Type 0) (ps : Ring) (n : ContinuumPoint)
    → All P ps
    → P n
    → All P (ps ++ (n ∷ []))
All-snoc P [] n a h = (h, tt)
All-snoc P (p ∷ ps) n a h = (a.0, All-snoc P ps n a.1 h)

new-apart :
    (hs : HashValues) (n : ContinuumPoint) (ps : Ring)
    → has_hash hs n.hash_value ≡ false
    → All (λ (p : ContinuumPoint). has_hash hs p.hash_value ≡ true) ps
    → IsDistinct ps
    → IsDistinct (ps ++ (n ∷ []))
new-apart hs n [] f a d = (tt, tt)
new-apart hs n (p ∷ ps) f a d = (
  All-snoc _ ps n d.0 (λ e. let q = ap (has_hash hs) e in cc (a.0, f)),
  new-apart hs n ps f a.1 d.1,
)

IsNoted-add :
    (hs : HashValues) (ring : Ring) (n : ContinuumPoint) (key : Str)
    → has_hash hs n.hash_value ≡ false
    → IsNoted (hs, ring)
    → IsNoted (put_hash hs n.hash_value key, ring ++ (n ∷ []))
IsNoted-add hs ring n key f h = (
  All-snoc _ ring n (kept-noted hs n.hash_value key ring h.0)
      (ground (arith, has_hash-put hs n.hash_value key n.hash_value)),
  new-apart hs n ring f h.0 h.1,
)

IsNoted-twice :
    (hs : HashValues) (ring : Ring) (n : ContinuumPoint) (key : Str)
    → has_hash hs n.hash_value ≡ false
    → IsNoted (hs, ring)
    → IsNoted (put_hash (put_hash hs n.hash_value key) n.hash_value key, ring ++ (n ∷ []))
IsNoted-twice hs ring n key f h =
    let once = IsNoted-add hs ring n key f h in
    (kept-noted (put_hash hs n.hash_value key) n.hash_value key (ring ++ (n ∷ [])) once.0, once.1)

module _ (hash_func : HashFuncWithSeed) where
  rehash_fresh :
      (left last : ℕ) (hs hs' : HashValues) (v : ℕ) (key : Str)
      → do_rehash hash_func left last hs ≡ some (v, key, hs')
      → (has_hash hs v ≡ false) × (hs' ≡ put_hash hs v key)
  unfolding do_rehash
  rehash_fresh zero last hs hs' v key h = cc
  rehash_fresh (suc left) last hs hs' v key h =
      elim (Option-cases (hash_func (little_endian 8 last) 0)) [
        | inl e ↦ (let q = rw (e, do_rehash) at h in cc)
        | inr (u, e) ↦ elim (Bool-cases (has_hash hs u)) [
          | inl f ↦ rehash_fresh left u hs hs' v key (rw (e, do_rehash, f) at h)
          | inr f ↦
              (let key' = format_int (of_bits64 last) in
                let q : ◌≡◌ {A = ℕ × Str × HashValues} (u, key', put_hash hs u key') (v, key, hs') =
                  (let h' = rw (e, do_rehash, f) at h in cc) in
                let p : u ≡ v = cc in let k : key' ≡ key = cc in (rw (← p) f, rw (← p, ← k) cc))
        ]
      ]

  add_point-IsNoted :
      (id : Str) (i index : ℕ) (state state' : HashValues × Ring)
      → IsNoted state
      → add_point hash_func id i index state ≡ some state'
      → IsNoted state'
  unfolding add_point
  add_point-IsNoted id i index (hs, ring) state' n h =
      let key = id ++ itoa i in
      elim (Option-cases (hash_func key 0)) [
        | inl e ↦ (let q = rw (e, add_point) at h in cc)
        | inr (v, e) ↦ elim (Bool-cases (has_hash hs v)) [
          | inr f ↦
              (let q : (put_hash hs v key, ring ++ (point_of hash_func key v index ∷ [])) ≡ state' =
                  (let h' = rw (e, add_point, f) at h in cc) in
                rw (← q) (IsNoted-add hs ring (point_of hash_func key v index) key f n))
          | inl f ↦ elim (Option-cases (do_rehash hash_func max_rehash_iteration v hs)) [
            | inl g ↦
                (let q : (hs, ring) ≡ state' = (let h' = rw (e, add_point, f, g) at h in cc) in
                  rw (← q) n)
            | inr ((v', key', hs'), g) ↦
                (let (fresh, stored) = rehash_fresh max_rehash_iteration v hs hs' v' key' g in
                  let p = point_of hash_func key' v' index in
                  let q : (put_hash hs' v' key', ring ++ (p ∷ [])) ≡ state' =
                    (let h' = rw (e, add_point, f, g) at h in cc) in
                  rw (← q, stored) (IsNoted-twice hs ring p key' fresh n))
          ]
        ]
      ]

  add_points-IsNoted :
      (left : ℕ) (id : Str) (i index : ℕ) (state state' : HashValues × Ring)
      → IsNoted state
      → add_points hash_func left id i index state ≡ some state'
      → IsNoted state'
  unfolding add_points
  add_points-IsNoted zero id i index state state' n h = (let q : state ≡ state' = cc in rw (← q) n)
  add_points-IsNoted (suc left) id i index state state' n h =
      elim (Option-cases (add_point hash_func id i index state)) [
        | inl e ↦ (let q = rw (e, add_points) at h in cc)
        | inr (state₁, e) ↦
            add_points-IsNoted left id (i + 1) index state₁ state'
              (add_point-IsNoted id i index state state₁ n e) (rw (e, add_points) at h)
      ]

  module _ (limit_of : ℕ → ℕ → ℕ → ℕ) (xs : List Instance) (max_weight vnode_count : ℕ) where
    add_instances-IsNoted :
        (ws : List WeightedIndex) (state state' : HashValues × Ring)
        → IsNoted state
        → add_instances hash_func limit_of xs max_weight vnode_count ws state ≡ some state'
        → IsNoted state'
    unfolding add_instances
    add_instances-IsNoted [] state state' n h = (let q : state ≡ state' = cc in rw (← q) n)
    add_instances-IsNoted (w ∷ ws) state state' n h = elim (Option-cases (get_elem? xs w.index)) [
      | inl e ↦ (let q = rw (e, add_instances) at h in cc)
      | inr (x, e) ↦
          elim (Option-cases (
            add_points hash_func (limit_of x.weight max_weight vnode_count) x.id 0 w.index state)) [
              | inl f ↦ (let q = rw (e, add_instances, f) at h in cc)
              | inr (state₁, f) ↦
                  add_instances-IsNoted ws state₁ state'
                    (add_points-IsNoted _ x.id 0 w.index state state₁ n f)
                    (rw (e, add_instances, f) at h)
            ]
    ]

sorted-All :
    (P : ContinuumPoint → Type 0) (n : ContinuumPoint) (ps : Ring)
    → P n
    → All P ps
    → All P (insert_point n ps)
unfolding insert_point
sorted-All P n [] h a = (h, tt)
sorted-All P n (p ∷ ps) h a = elim (Bool-cases (is_less p n)) [
  | inl e ↦ rw e (a.0, sorted-All P n ps h a.1)
  | inr e ↦ rw e (h, a)
]

sort-All : (P : ContinuumPoint → Type 0) (ps : Ring) → All P ps → All P (sort_points ps)
unfolding sort_points
sort-All P [] a = tt
sort-All P (p ∷ ps) a = sorted-All P p (sort_points ps) a.0 (sort-All P ps a.1)

later :
    (n p : ContinuumPoint) (ps : Ring)
    → n.hash_value < p.hash_value
    → All (λ (q : ContinuumPoint). p.hash_value < q.hash_value) ps
    → All (λ (q : ContinuumPoint). n.hash_value < q.hash_value) ps
later n p [] h a = tt
later n p (q ∷ ps) h a = (omega (arith, a.0), later n p ps h a.1)

insert-IsAscending :
    (n : ContinuumPoint) (ps : Ring)
    → All (λ (q : ContinuumPoint). n.hash_value ≢ q.hash_value) ps
    → IsAscending ps
    → IsAscending (insert_point n ps)
unfolding insert_point
insert-IsAscending n [] a s = (tt, tt)
insert-IsAscending n (p ∷ ps) a s = elim (Bool-cases (is_less p n)) [
  | inl e ↦ rw e (
    sorted-All (λ (q : ContinuumPoint). p.hash_value < q.hash_value) n ps (ground (arith, e)) s.0,
    insert-IsAscending n ps a.1 s.1,
  )
  | inr e ↦
      (let h : n.hash_value < p.hash_value = ground (arith, e, a.0) in
        rw e ((h, later n p ps h s.0), s))
]

sort-IsAscending : (ps : Ring) → IsDistinct ps → IsAscending (sort_points ps)
unfolding sort_points
sort-IsAscending [] d = tt
sort-IsAscending (p ∷ ps) d =
    insert-IsAscending p (sort_points ps) (sort-All _ ps d.0) (sort-IsAscending ps d.1)

short : (ps : Ring) → ltb 1 (length ps) ≡ false → IsAscending ps
short [] h = tt
short (p ∷ []) h = (tt, tt)
short (p ∷ q ∷ ps) h = absurd (ground (arith, h))

ordered :
    (ps : Ring) → IsDistinct ps → IsAscending (if ltb 1 (length ps) then sort_points ps else ps)
ordered ps d = elim (Bool-cases (ltb 1 (length ps))) [
  | inl e ↦ rw e (sort-IsAscending ps d)
  | inr e ↦ rw e (short ps e)
]

-- Whatever the hash function and the limits: if a ring is built, the hash values of its points rise
-- strictly, so that no two points have one value.
pub new_continuum-IsAscending :
    (hash_func : HashFuncWithSeed) (limit_of : ℕ → ℕ → ℕ → ℕ) (xs : List Instance) (s : InstanceSet)
    (vnode_count : ℕ) (ring : Ring)
    → new_continuum hash_func limit_of xs s vnode_count ≡ some ring
    → IsAscending ring
unfolding new_continuum
new_continuum-IsAscending hash_func limit_of xs s vnode_count ring h =
    elim (Bool-cases (length s.weighted_indexes == 0)) [
      | inl e ↦ (let q : [] ≡ ring = (let h' = rw (e, new_continuum) at h in cc) in rw (← q) tt)
      | inr e ↦
          elim (Option-cases (
            add_instances hash_func limit_of xs s.max_weight vnode_count s.weighted_indexes
              ([], []))) [
                | inl f ↦ (let h' = rw (e, new_continuum, f) at h in cc)
                | inr ((hs, points), f) ↦
                    (let q : (if ltb 1 (length points) then sort_points points else points) ≡ ring =
                        (let h' = rw (e, new_continuum, f) at h in cc) in
                      let n =
                        add_instances-IsNoted hash_func limit_of xs s.max_weight vnode_count
                          s.weighted_indexes ([], []) (hs, points) (tt, tt) f in
                      rw (← q) (ordered points n.1))
              ]
    ]
