-- ===== src/Balance/Cluster/Metadata.antt =====
-- The metadata of a cluster, pkg/model/cluster.go: how routers narrow a cluster down. One pair of a
-- key and a value is kept in fields of the cluster, more of them in its map.
use polaris_go.Base.{
  ℕ, ◌+◌, Bool, true, false, not, ◌&&◌, none, List, [], ◌∷◌, ◌++◌, ◌==◌, if◌then◌else◌, length,
}
use polaris_go.Base.Text.{Str, str_eq, compare_str, less, same, more}
use polaris_go.Balance.Cluster.{StrMap, Metadata, has_value, Cluster}

-- `buildComposedValue`
unfoldable pub build_composed_value : Str → Str → Str
build_composed_value key value = key ++ (b':' ∷ value)

-- The writes into the map: the new map, and whether the value was not there. A new value stands at
-- the front of its key's values, a new key at the end.
unfoldable pub put_value : Metadata → Str → Str → Str → Metadata × Bool
put_value [] key value composed = ((key, (value, composed) ∷ []) ∷ [], true)
put_value ((k, values) ∷ ms) key value composed =
    let (ms', added) = put_value ms key value composed in
    if str_eq k key
    then (if has_value values value
        then ((k, values) ∷ ms, false)
        else ((k, (value, composed) ∷ values) ∷ ms, true))
    else ((k, values) ∷ ms', added)

-- The end of `RuleAddMetadata`, from the lookup of the key on.
unfoldable pub insert_metadata : Cluster → Str → Str → Str → Cluster × Bool
unfolding put_value
insert_metadata c key value composed =
    let (ms, added) = put_value c.metadata key value composed in
    (
      record c { metadata = ms; meta_count = if added then c.meta_count + 1 else c.meta_count },
      added,
    )

unfoldable pub rule_add_metadata : Cluster → Str → Str → Str → Cluster × Bool
rule_add_metadata c key value composed =
    if c.meta_count == 0
    then (
      record c { meta_key = key; meta_value = value; composed_value = composed; meta_count = 1 },
      true,
    )
    else if c.meta_count == 1
    then (if str_eq c.meta_key key && str_eq c.meta_value value
        then (c, false)
        else insert_metadata
            (record c { metadata = (c.meta_key, (c.meta_value, c.composed_value) ∷ []) ∷ [] }) key
            value composed)
    else insert_metadata c key value composed

unfoldable pub add_metadata : Cluster → Str → Str → Cluster × Bool
unfolding build_composed_value
add_metadata c key value = rule_add_metadata c key value (build_composed_value key value)

-- `sort.Sort` of a `sort.StringSlice`.
abbrev pub is_less : Str → Str → Bool
is_less s t = elim (compare_str s t) [ less ↦ true | same ↦ false | more ↦ false ]

unfoldable pub insert_sorted : Str → List Str → List Str
insert_sorted s [] = s ∷ []
insert_sorted s (t ∷ ts) = if is_less t s then t ∷ insert_sorted s ts else s ∷ t ∷ ts

unfoldable pub sort_strings : List Str → List Str
unfolding insert_sorted
sort_strings [] = []
sort_strings (s ∷ ss) = insert_sorted s (sort_strings ss)

-- The texts with a comma between them.
unfoldable pub join_values : List Str → Str
join_values [] = []
join_values (s ∷ []) = s
join_values (s ∷ t ∷ ts) = s ++ (b',' ∷ join_values (t ∷ ts))

abbrev pub total_length : List Str → ℕ
total_length [] = 0
total_length (s ∷ ss) = length s + total_length ss

-- `setComposeMetaValue`
unfoldable pub set_compose_meta_value : Cluster → List Str → ℕ → Cluster
unfolding sort_strings join_values
set_compose_meta_value c composed count =
    if count == 0
    then record c { compose_meta_value = [] }
    else record c { compose_meta_value = join_values (sort_strings composed) }

abbrev pub composed_of : StrMap → List Str
composed_of [] = []
composed_of ((v, c) ∷ vs) = c ∷ composed_of vs

-- The composed values of all pairs.
unfoldable pub all_composed : Metadata → List Str
all_composed [] = []
all_composed ((k, values) ∷ ms) = composed_of values ++ all_composed ms

unfoldable pub clear_cluster_value : Cluster → Cluster
clear_cluster_value c = record c { value = none }

unfoldable pub reload_compose_meta_value : Cluster → Cluster
unfolding clear_cluster_value set_compose_meta_value all_composed
reload_compose_meta_value c =
    let composed = all_composed c.metadata in
    clear_cluster_value (
      if c.meta_count == 0
      then record c { compose_meta_value = [] }
      else if c.meta_count == 1
      then record c { compose_meta_value = c.composed_value }
      else set_compose_meta_value c composed (total_length composed))

-- What `reset` leaves of a cluster out of the pool; a new one differs in nothing but `includeHalfOpen`,
-- which `reset` keeps: it is an argument.
unfoldable pub reset : Bool → Cluster
reset include_half_open = record {
  compose_meta_value = [];
  location = record { region = []; zone = []; campus = [] };
  meta_key = [];
  meta_value = [];
  composed_value = [];
  metadata = [];
  meta_count = 0;
  has_limited_instances = false;
  miss_location_instances = false;
  include_half_open = include_half_open;
  value = none;
}

-- `NewCluster` within another cluster. The pair in the fields is copied only if there is no map.
unfoldable pub new_cluster : Bool → Cluster → Cluster
unfolding reset
new_cluster pooled cls =
    let c = record (reset pooled) {
      compose_meta_value = cls.compose_meta_value;
      location = cls.location;
    } in
    if not (length cls.metadata == 0)
    then record c { metadata = cls.metadata; meta_count = cls.meta_count }
    else if not (cls.meta_count == 0)
    then record c {
      meta_count = cls.meta_count;
      meta_key = cls.meta_key;
      meta_value = cls.meta_value;
      composed_value = cls.composed_value;
    }
    else c
