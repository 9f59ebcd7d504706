-- ===== src/Balance/Ring.antt =====
-- The ring of the consistent hash: plugin/loadbalancer/ringhash/continuum.go. The hash function and
-- the float64 product that limits the points of an instance are parameters. The search takes fuel,
-- and `none` of a selection says only that it was used up. The replicates that a point keeps are a
-- field of it; logs are left out.
pub mod Build
pub mod Distinct
pub mod Successor
pub mod Replicates
mod Tests
use polaris_go.Base.{
  ℕ, zero, suc, ◌+◌, ◌-◌, ◌%◌, Bool, true, false, ◌||◌, Option, none, some, List, [], ◌∷◌, ◌++◌,
  ◌==◌, ltb, if◌then◌else◌, length, get_or, set,
}
use polaris_go.Base.Text.{Str}
use polaris_go.Balance.Search.{SearchableSlice, binary_search}

-- `ReplicateNodes`, without the service it belongs to.
pub record ReplicateNodes : Type 0 where
  pub count : ℕ
  pub indexes : List ℕ

pub record ContinuumPoint : Type 0 where
  pub hash_key : Str
  pub hash_value : ℕ
  pub index : ℕ
  pub replicates : Option ReplicateNodes

abbrev pub Ring : Type 0
Ring = List ContinuumPoint

abbrev pub no_point : ContinuumPoint
no_point = record { hash_key = []; hash_value = 0; index = 0; replicates = none }

-- `Less` and `sort.Sort`.
abbrev pub is_less : ContinuumPoint → ContinuumPoint → Bool
is_less p q = ltb p.hash_value q.hash_value

unfoldable pub insert_point : ContinuumPoint → Ring → Ring
insert_point p [] = p ∷ []
insert_point p (q ∷ ps) = if is_less q p then q ∷ insert_point p ps else p ∷ q ∷ ps

unfoldable pub sort_points : Ring → Ring
unfolding insert_point
sort_points [] = []
sort_points (p ∷ ps) = insert_point p (sort_points ps)

-- `GetValue` and `Count`
unfoldable pub slice_of_ring : Ring → SearchableSlice
slice_of_ring ring = record {
  get_value = λ i. (get_or ring i no_point).hash_value;
  count = length ring;
}

unfoldable pub contains_index : List ℕ → ℕ → Bool
contains_index [] i = false
contains_index (j ∷ js) i = if j == i then true else contains_index js i

-- The index of the instance at a place of the ring, counted from the place of the target.
abbrev pub index_after : Ring → ℕ → ℕ → ℕ
index_after ring ring_index i = (get_or ring ((ring_index + i) % length ring) no_point).index

-- The loop over the other places, from the `i`-th on.
unfoldable pub collect : Ring → ℕ → ℕ → ℕ → ℕ → ℕ → List ℕ → List ℕ
unfolding contains_index
collect ring ring_index target count zero i acc = acc
collect ring ring_index target count (suc left) i acc =
    let index = index_after ring ring_index i in
    let skip = target == index || contains_index acc index in
    let acc' = if skip then acc else acc ++ (index ∷ []) in
    let rest = collect ring ring_index target count left (i + 1) acc' in
    if length acc == count then acc else rest

-- The replicates that are kept with the target, if there are as many as asked for.
abbrev pub kept : ContinuumPoint → ℕ → Option ReplicateNodes
kept p count = elim p.replicates [
  | none ↦ none
  | some nodes ↦ if nodes.count == count then some nodes else none
]

-- The replicates of a target that has none kept, and what is selected at a place of the ring.
unfoldable pub new_replicates : Ring → ℕ → ℕ → ReplicateNodes
unfolding collect
new_replicates ring ring_index count = record {
  count = count;
  indexes =
      collect ring ring_index (get_or ring ring_index no_point).index count (length ring - 1) 1 [];
}

unfoldable pub select_at : Ring → ℕ → ℕ → ℕ × Option ReplicateNodes × Ring
unfolding new_replicates
select_at ring ring_index replicate_count =
    let target = get_or ring ring_index no_point in
    let nodes = new_replicates ring ring_index replicate_count in
    if replicate_count == 0
    then (target.index, none, ring)
    else elim (kept target replicate_count) [
      | some old ↦ (target.index, some old, ring)
      | none ↦ (
        target.index,
        some nodes,
        set ring ring_index (record target { replicates = some nodes }),
      )
    ]

-- `selectByHashValue`
unfoldable pub select_by_hash_value : Ring → ℕ → ℕ → Option (ℕ × Option ReplicateNodes × Ring)
unfolding slice_of_ring select_at
select_by_hash_value ring hash_value replicate_count =
    elim (binary_search (slice_of_ring ring) hash_value) [
      | none ↦ none
      | some ring_index ↦ some (select_at ring ring_index replicate_count)
    ]
