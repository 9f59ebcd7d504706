-- ===== src/Balance/Cluster/Service.antt =====
-- What a service knows of its instances, pkg/model/cluster.go: the values of a metadata key, which
-- are computed once for each location and key, and the locations.
use polaris_go.Base.{
  ℕ, Bool, true, false, not, ◌&&◌, ◌||◌, Option, none, some, List, [], ◌∷◌, ◌==◌, if◌then◌else◌,
  length,
}
use polaris_go.Base.Text.{Str, str_eq}
use polaris_go.Balance.Cluster.{StrMap, Location, Instance, lookup, match_location}
use polaris_go.Balance.Cluster.Metadata.{build_composed_value}

-- `LocationBasedMetaKey`
pub record LocationBasedMetaKey : Type 0 where
  pub location : Location
  pub meta_key : Str
  pub key_type : ℕ

abbrev pub same_location : Location → Location → Bool
same_location l m = str_eq l.region m.region && str_eq l.zone m.zone && str_eq l.campus m.campus

abbrev pub same_key : LocationBasedMetaKey → LocationBasedMetaKey → Bool
same_key k j =
    same_location k.location j.location && str_eq k.meta_key j.meta_key && k.key_type == j.key_type

-- `metaDataSet` of the service.
abbrev pub MetaDataSet : Type 0
MetaDataSet = List (LocationBasedMetaKey × StrMap)

abbrev pub load : MetaDataSet → LocationBasedMetaKey → Option StrMap
load [] key = none
load ((k, values) ∷ ms) key = if same_key k key then some values else load ms key

-- A write into a map.
abbrev pub put : StrMap → Str → Str → StrMap
put [] key v = (key, v) ∷ []
put ((k, w) ∷ m) key v = if str_eq k key then (key, v) ∷ m else (k, w) ∷ put m key v

-- The loop of `GetInstanceMetaValues`.
unfoldable pub collect_values : Location → Str → List Instance → StrMap → StrMap
collect_values location key [] acc = acc
collect_values location key (x ∷ xs) acc =
    let acc' =
      if not (match_location x location)
      then acc
      else if x.is_isolated || x.weight == 0
      then acc
      else if length x.metadata == 0
      then acc
      else elim (lookup x.metadata key) [
        | none ↦ acc
        | some value ↦ put acc value (build_composed_value key value)
      ] in
    collect_values location key xs acc'

-- `LoadOrStore` of what was computed.
abbrev pub load_or_store : MetaDataSet → LocationBasedMetaKey → StrMap → MetaDataSet × StrMap
load_or_store ms key built = elim (load ms key) [
  | some values ↦ (ms, values)
  | none ↦ ((key, built) ∷ ms, built)
]

unfoldable pub get_instance_meta_values :
    List Instance → MetaDataSet → Location → Str → MetaDataSet × StrMap
get_instance_meta_values xs ms location key =
    load_or_store ms (record { location = location; meta_key = key; key_type = 0 })
      (collect_values location key xs [])

-- The loop of `GetInstancesWithMetaValuesNotEqual`.
unfoldable pub collect_unequal : Location → Str → Str → List Instance → StrMap → StrMap
collect_unequal location key value [] acc = acc
collect_unequal location key value (x ∷ xs) acc =
    let acc' =
      if not (match_location x location)
      then acc
      else if x.is_isolated || x.weight == 0 || not x.is_healthy
      then acc
      else if length x.metadata == 0
      then acc
      else elim (lookup x.metadata key) [
        | none ↦ acc
        | some val ↦ if str_eq val value then acc else put acc val (build_composed_value key val)
      ] in
    collect_unequal location key value xs acc'

-- The key of the stored values does not hold the value that is asked for.
unfoldable pub get_instances_with_meta_values_not_equal :
    List Instance → MetaDataSet → Location → Str → Str → MetaDataSet × StrMap
get_instances_with_meta_values_not_equal xs ms location key value =
    load_or_store ms (record { location = location; meta_key = key; key_type = 1 })
      (collect_unequal location key value xs [])

-- `locationInSvc`: the sets of names.
pub record LocationInSvc : Type 0 where
  pub regions : List Str
  pub zones : List Str
  pub campus : List Str

abbrev pub contains : List Str → Str → Bool
contains [] name = false
contains (n ∷ ns) name = str_eq n name || contains ns name

-- An empty name is not added.
abbrev add_name : List Str → Str → List Str
add_name names name =
    if length name == 0 then names else if contains names name then names else name ∷ names

-- `clusterCache.AddInstance` and `locationInSvc.addInstance`.
unfoldable pub add_location : LocationInSvc → Instance → LocationInSvc
add_location l x = if x.is_isolated || x.weight == 0 then l else record {
  regions = add_name l.regions x.location.region;
  zones = add_name l.zones x.location.zone;
  campus = add_name l.campus x.location.campus;
}

unfoldable pub has_region : LocationInSvc → Str → Bool
has_region l region = if length region == 0 then true else contains l.regions region

unfoldable pub has_zone : LocationInSvc → Str → Bool
has_zone l zone = if length zone == 0 then true else contains l.zones zone

unfoldable pub has_campus : LocationInSvc → Str → Bool
has_campus l campus = if length campus == 0 then true else contains l.campus campus
