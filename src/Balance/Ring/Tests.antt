-- ===== src/Balance/Ring/Tests.antt =====
-- The theorems on the hash ring, at a service of two instances and a hash that adds the bytes.
use polaris_go.Base.{ℕ, ◌+◌, ◌≡◌, ◌⊎◌, refl, true, false, none, some, List, [], ◌∷◌, length, arith}
use polaris_go.Base.Int.{pos}
use polaris_go.Base.Text.{Str}
use polaris_go.Balance.Cluster.{Instance, InstanceSet}
use polaris_go.Balance.Ring.{
  Ring, sort_points, insert_point, contains_index, select_at, select_by_hash_value, new_replicates,
}
use polaris_go.Balance.Ring.Build.{
  HashFuncWithSeed, point_of, new_continuum, add_instances, add_points, add_point, itoa, digits,
}
use polaris_go.Balance.Ring.Distinct.{IsAscending, new_continuum-IsAscending}
use polaris_go.Balance.Ring.Successor.{successor, select_by_hash_value-successor}
use polaris_go.Balance.Ring.Replicates.{IsChoice, index_at, new_replicates_lem}

abbrev sum_bytes : Str → ℕ
sum_bytes [] = 0
sum_bytes (c ∷ s) = c + sum_bytes s

abbrev sum_hash : HashFuncWithSeed
sum_hash key seed = some (sum_bytes key)

abbrev one_point : ℕ → ℕ → ℕ → ℕ
one_point weight max_weight vnode_count = 1

abbrev named : Str → Instance
named id = record {
  id = id;
  ttl = pos 5;
  weight = 100;
  is_isolated = false;
  is_healthy = true;
  circuit_breaker_status = none;
  metadata = [];
  location = record { region = []; zone = []; campus = [] };
}

-- The instances "b" and "a".
abbrev instances : List Instance
instances = named (b'b' ∷ []) ∷ named (b'a' ∷ []) ∷ []

abbrev both : InstanceSet
both = record {
  weighted_indexes =
      record { index = 0; accumulate_weight = 100 }
      ∷ record { index = 1; accumulate_weight = 200 }
      ∷ [];
  total_weight = 200;
  max_weight = 100;
}

abbrev ring : Ring
ring = point_of sum_hash (b'a' ∷ b'0' ∷ []) 145 1 ∷ point_of sum_hash (b'b' ∷ b'0' ∷ []) 146 0 ∷ []

built_ring : new_continuum sum_hash one_point instances both 1 ≡ some ring
unfolding new_continuum add_instances add_points add_point itoa digits sort_points insert_point
built_ring = refl

ring-IsAscending : IsAscending ring
ring-IsAscending = omega arith

new_continuum-IsAscending_example : IsAscending ring
new_continuum-IsAscending_example =
    new_continuum-IsAscending sum_hash one_point instances both 1 ring built_ring

select_by_hash_value-successor_example :
    select_by_hash_value ring 146 1 ≡ some (select_at ring (successor 146 ring) 1)
select_by_hash_value-successor_example = select_by_hash_value-successor ring 146 1 ring-IsAscending

new_replicates_lem_example :
    IsChoice ring (index_at ring 0) 1 (new_replicates ring 0 1).indexes
    × ((length (new_replicates ring 0 1).indexes ≡ 1)
        ⊎ ((index_at ring 0 ≡ index_at ring 1)
            ⊎ (contains_index (new_replicates ring 0 1).indexes (index_at ring 1) ≡ true)))
new_replicates_lem_example = new_replicates_lem ring 0 1 1 (omega arith) (omega arith)
