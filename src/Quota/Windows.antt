-- ===== src/Quota/Windows.antt =====
-- The windows of a service: pkg/flow/quota/window.go, with the counters of the assistant. A window
-- that is referred to from a container stands in a store, where its place is what the code's pointer
-- is. The plugins that are told of a new window, the locks and the logs are left out.
pub mod Store
use polaris_go.Base.{
  ℕ, ◌+◌, ◌-◌, ◌/◌, ◌%◌, Bool, true, false, not, ◌&&◌, ◌||◌, Option, none, some, List, [], ◌∷◌,
  ◌++◌, ◌==◌, ltb, if◌then◌else◌, length, get_elem?, set,
}
use polaris_go.Base.Int.{ℤ, pos, negsuc, ltb_ℤ, add64, sub64, of_bits32, u32_mod}
use polaris_go.Base.Text.{Str, str_eq}
use polaris_go.Quota.{Rule, RuleType, global, local}

pub data Status : Type 0 where
  created initializing initialized deleted : Status

pub data ConfigMode : Type 0 where
  local_mode global_mode : ConfigMode

-- `B` is the type of the buckets of the rate limiter plugins.
pub record RateLimitWindow (B : Type 0) : Type 0 where
  pub labels : Str
  pub unique_key : Str
  pub rule : Rule
  pub expire_nanos : ℤ
  pub remote_namespace : Str
  pub remote_service : Str
  pub config_mode : ConfigMode
  pub bucket : B
  pub status : Status
  pub last_access_time_milli : ℤ
  pub time_diff : ℤ

pub record WindowContainer : Type 0 where
  pub main_window : Option ℕ
  pub window_by_label : List (Str × ℕ)

-- `RateLimitWindowSet` with the store, and with what it reads and writes of the assistant. A window
-- that waits for its first synchronisation stands in `task_values`.
pub record WindowSet (B : Type 0) : Type 0 where
  pub store : List (RateLimitWindow B)
  pub window_by_rule : List (Str × WindowContainer)
  pub last_purge_time_milli : ℤ
  pub window_count : ℤ
  pub purge_interval_milli : ℤ
  pub limiter_namespace : Str
  pub limiter_service : Str
  pub task_values : List ℕ

-- `getMaxDuration` and `getExpireDuration`
unfoldable pub get_max_duration : List ℤ → ℤ → ℤ
get_max_duration [] longest = longest
get_max_duration (d ∷ ds) longest = get_max_duration ds (if ltb_ℤ longest d then d else longest)

unfoldable pub get_expire_duration : Rule → ℤ
unfolding get_max_duration
get_expire_duration r = add64 (get_max_duration r.amounts (pos 0)) (pos 1000000000)

-- A duration in milliseconds, rounded to zero.
abbrev pub to_milli_seconds : ℤ → ℤ
to_milli_seconds (pos n) = pos (n / 1000000)
to_milli_seconds (negsuc n) = let q = (n + 1) / 1000000 in if q == 0 then pos 0 else negsuc (q - 1)

-- The key of a window: its service, namespace and labels. Its hash is left out.
unfoldable pub build_quota_key : Str → Str → Str → Str
build_quota_key service namespace labels =
    service ++ (b'#' ∷ namespace ++ (if ltb 0 (length labels) then b'#' ∷ labels else []))

-- `buildRemoteConfigMode`: the cluster and the mode.
abbrev mode_of : Str → Str → ConfigMode
mode_of ns svc = if length ns == 0 || length svc == 0 then local_mode else global_mode

unfoldable pub build_remote_config_mode : Rule → Str → Str → Str × Str × ConfigMode
build_remote_config_mode r ns svc = elim r.type [
  | local ↦ (ns, svc, local_mode)
  | global ↦
      if ltb 0 (length r.cluster_namespace) && ltb 0 (length r.cluster_service)
      then (r.cluster_namespace, r.cluster_service, mode_of r.cluster_namespace r.cluster_service)
      else (ns, svc, mode_of ns svc)
]

abbrev pub container_in : List (Str × WindowContainer) → Str → Option WindowContainer
container_in [] revision = none
container_in ((k, c) ∷ cs) revision = if str_eq k revision then some c else container_in cs revision

abbrev pub put_container :
    List (Str × WindowContainer) → Str → WindowContainer → List (Str × WindowContainer)
put_container [] revision c = (revision, c) ∷ []
put_container ((k, d) ∷ cs) revision c =
    if str_eq k revision then (revision, c) ∷ cs else (k, d) ∷ put_container cs revision c

abbrev pub drop_container : List (Str × WindowContainer) → Str → List (Str × WindowContainer)
drop_container [] revision = []
drop_container ((k, d) ∷ cs) revision =
    if str_eq k revision then cs else (k, d) ∷ drop_container cs revision

abbrev pub window_in : List (Str × ℕ) → Str → Option ℕ
window_in [] label = none
window_in ((k, w) ∷ ws) label = if str_eq k label then some w else window_in ws label

abbrev drop_window : List (Str × ℕ) → Str → List (Str × ℕ)
drop_window [] label = []
drop_window ((k, w) ∷ ws) label = if str_eq k label then ws else (k, w) ∷ drop_window ws label

abbrev pub new_window_container : WindowContainer
new_window_container = record { main_window = none; window_by_label = [] }

abbrev pub values : List (Str × ℕ) → List ℕ
values [] = []
values ((k, w) ∷ ws) = w ∷ values ws

-- `WindowContainer.GetRateLimitWindows`
unfoldable pub container_windows : WindowContainer → List ℕ
container_windows c = elim c.main_window [ some w ↦ w ∷ [] | none ↦ values c.window_by_label ]

-- `RateLimitWindowSet.GetRateLimitWindows`
unfoldable pub all_windows : List (Str × WindowContainer) → List ℕ
unfolding container_windows
all_windows [] = []
all_windows ((k, c) ∷ cs) = container_windows c ++ all_windows cs

-- `atomic.AddInt32`
abbrev pub add32 : ℤ → ℤ → ℤ
add32 a b = elim (add64 a b) [
  | pos n ↦ of_bits32 (n % u32_mod)
  | negsuc n ↦ of_bits32 (u32_mod - 1 - n % u32_mod)
]

abbrev pub main_list : Option ℕ → List ℕ
main_list none = []
main_list (some i) = i ∷ []

-- The windows of a container that is deleted: its main one and those by label.
abbrev pub both_windows : Option WindowContainer → List ℕ
both_windows none = []
both_windows (some c) = main_list c.main_window ++ values c.window_by_label

abbrev is_main : Option ℕ → ℕ → Bool
is_main none i = false
is_main (some j) i = j == i

-- The containers after `OnWindowExpired` of a window.
abbrev pub forget_window :
    List (Str × WindowContainer) → Str → Str → ℕ → List (Str × WindowContainer)
forget_window cs revision labels i = elim (container_in cs revision) [
  | none ↦ cs
  | some c ↦
      if is_main c.main_window i
      then drop_container cs revision
      else put_container cs revision
          (record c { window_by_label = drop_window c.window_by_label labels })
]

abbrev pub container_or_new : Option WindowContainer → WindowContainer
container_or_new none = new_window_container
container_or_new (some c) = c

abbrev pub main_or : Option ℕ → Option ℕ → Option ℕ
main_or none o = o
main_or (some i) o = some i

abbrev pub find_in : Option WindowContainer → Str → Option ℕ
find_in none labels = none
find_in (some c) labels = main_or c.main_window (window_in c.window_by_label labels)

abbrev pub known_or : {R : Type 0} → Option ℕ → (ℕ → R) → R → R
known_or none f r = r
known_or (some i) f r = f i

abbrev pub is_global : RuleType → Bool
is_global global = true
is_global local = false
