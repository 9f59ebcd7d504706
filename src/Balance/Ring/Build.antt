-- ===== src/Balance/Ring/Build.antt =====
-- The construction of the hash ring, and the load balancer that selects on it: NewContinuum,
-- doRehash and Select of plugin/loadbalancer/ringhash/continuum.go, ringhash.go, and
-- plugin/loadbalancer/common/hash.go. The selector that an instance set keeps is an argument.
use polaris_go.Base.{
  ℕ, zero, suc, ◌+◌, ◌/◌, ◌%◌, Bool, true, false, Option, none, some, List, [], ◌∷◌, ◌++◌, ◌==◌,
  ltb, if◌then◌else◌, length, get_elem?,
}
use polaris_go.Base.Int.{ℤ, pos, negsuc, of_bits64}
use polaris_go.Base.Text.{Str}
use polaris_go.Balance.Cluster.{Instance, WeightedIndex, InstanceSet}
use polaris_go.Balance.Ring.{ContinuumPoint, Ring, sort_points}

-- A hash function of bytes and a seed; `none` is an error.
abbrev pub HashFuncWithSeed : Type 0
HashFuncWithSeed = Str → ℕ → Option ℕ

-- `strconv.Itoa` and `strconv.FormatInt`: the digits of a number, with one round for each.
unfoldable pub digits : ℕ → ℕ → Str → Str
digits zero n acc = acc
digits (suc fuel) n acc =
    let acc' = (n % 10 + b'0') ∷ acc in
    let rest = digits fuel (n / 10) acc' in if ltb n 10 then acc' else rest

unfoldable pub itoa : ℕ → Str
unfolding digits
itoa n = digits (suc n) n []

abbrev pub format_int : ℤ → Str
format_int (pos n) = itoa n
format_int (negsuc n) = b'-' ∷ itoa (suc n)

-- `binary.Write` of a uint64 in little endian.
unfoldable pub little_endian : ℕ → ℕ → Str
little_endian zero n = []
little_endian (suc left) n = n % 256 ∷ little_endian left (n / 256)

-- The Go map from hash values to keys.
abbrev pub HashValues : Type 0
HashValues = List (ℕ × Str)

abbrev pub has_hash : HashValues → ℕ → Bool
has_hash [] v = false
has_hash ((w, key) ∷ hs) v = if w == v then true else has_hash hs v

abbrev pub put_hash : HashValues → ℕ → Str → HashValues
put_hash [] v key = (v, key) ∷ []
put_hash ((w, old) ∷ hs) v key = if w == v then (v, key) ∷ hs else (w, old) ∷ put_hash hs v key

abbrev pub max_rehash_iteration : ℕ
max_rehash_iteration = 5

module _ (hash_func : HashFuncWithSeed) where
  -- `doRehash`, on the number of iterations that are left; `none` is its error.
  unfoldable pub do_rehash : ℕ → ℕ → HashValues → Option (ℕ × Str × HashValues)
  do_rehash zero last hs = none
  do_rehash (suc left) last hs = elim (hash_func (little_endian 8 last) 0) [
    | none ↦ none
    | some v ↦
        if has_hash hs v
        then do_rehash left v hs
        else some (v, format_int (of_bits64 last), put_hash hs v (format_int (of_bits64 last)))
  ]

  abbrev pub point_of : Str → ℕ → ℕ → ContinuumPoint
  point_of key v index = record { hash_key = key; hash_value = v; index = index; replicates = none }

  -- A point for each number below the limit. `none` is the error of the hash function; a point
  -- whose rehash fails is left out.
  unfoldable pub add_point : Str → ℕ → ℕ → HashValues × Ring → Option (HashValues × Ring)
  unfolding do_rehash
  add_point id i index (hs, ring) =
      let key = id ++ itoa i in
      elim (hash_func key 0) [
        | none ↦ none
        | some v ↦
            if has_hash hs v
            then elim (do_rehash max_rehash_iteration v hs) [
              | none ↦ some (hs, ring)
              | some (v', key', hs') ↦
                  some (put_hash hs' v' key', ring ++ (point_of key' v' index ∷ []))
            ]
            else some (put_hash hs v key, ring ++ (point_of key v index ∷ []))
      ]

  unfoldable pub add_points : ℕ → Str → ℕ → ℕ → HashValues × Ring → Option (HashValues × Ring)
  unfolding add_point
  add_points zero id i index state = some state
  add_points (suc left) id i index state = elim (add_point id i index state) [
    | none ↦ none
    | some state' ↦ add_points left id (i + 1) index state'
  ]

  module _ (limit_of : ℕ → ℕ → ℕ → ℕ) where
    -- The loop over the instances of the set. An index out of the service's range would panic, and
    -- is an error here.
    unfoldable pub add_instances :
        List Instance → ℕ → ℕ → List WeightedIndex → HashValues × Ring → Option (HashValues × Ring)
    unfolding add_points
    add_instances xs max_weight vnode_count [] state = some state
    add_instances xs max_weight vnode_count (w ∷ ws) state = elim (get_elem? xs w.index) [
      | none ↦ none
      | some x ↦ elim (add_points (limit_of x.weight max_weight vnode_count) x.id 0 w.index state) [
        | none ↦ none
        | some state' ↦ add_instances xs max_weight vnode_count ws state'
      ]
    ]

    unfoldable pub new_continuum : List Instance → InstanceSet → ℕ → Option Ring
    unfolding add_instances
    new_continuum xs s vnode_count =
        if length s.weighted_indexes == 0
        then some []
        else elim (add_instances xs s.max_weight vnode_count s.weighted_indexes ([], [])) [
          | none ↦ none
          | some (hs, ring) ↦ some (if ltb 1 (length ring) then sort_points ring else ring)
        ]
