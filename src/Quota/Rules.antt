-- ===== src/Quota/Rules.antt =====
-- Which rules a request meets, and the labels of its windows: lookupRules and FormatLabelToStr of
-- pkg/flow/quota/assist.go.
use polaris_go.Base.{
  ℕ, Bool, true, false, not, ◌&&◌, ◌||◌, Option, none, some, List, [], ◌∷◌, ◌++◌, ◌==◌,
  if◌then◌else◌, length,
}
use polaris_go.Base.Text.{Str, str_eq, split}
use polaris_go.Balance.Cluster.{StrMap, lookup}
use polaris_go.Balance.Cluster.Metadata.{sort_strings}
use polaris_go.Match.{
  is_match_all, MatchType, regex, not_equals, exact, in_list, not_in, range, other, MatchString,
  contains,
}
use polaris_go.Quota.{
  ArgumentType, custom, method, header, query, caller_service, caller_ip, unknown_type,
  MatchArgument, Rule,
}

-- A compiled pattern of the regexp2 library: an error, or the text that was found.
abbrev pub Pattern : Type 0
Pattern = Str → Option (Option Str)

abbrev is_found : Option (Option Str) → Bool
is_found none = false
is_found (some none) = false
is_found (some (some text)) = not (length text == 0)

-- `matchStringValue`; `compile` is the cache of patterns.
unfoldable pub match_value_kind : (Str → Option Pattern) → MatchType → Str → Str → Bool
match_value_kind compile exact text value = str_eq value text
match_value_kind compile regex text value = elim (compile text) [
  | none ↦ false
  | some pattern ↦ is_found (pattern value)
]
match_value_kind compile not_equals text value = not (str_eq value text)
match_value_kind compile in_list text value = contains (split b',' text) value
match_value_kind compile not_in text value = not (contains (split b',' text) value)
match_value_kind compile range text value = false
match_value_kind compile other text value = false

unfoldable pub match_string_value : (Str → Option Pattern) → MatchString → Str → Bool
unfolding match_value_kind
match_string_value compile m value =
    if is_match_all m.value then true else match_value_kind compile m.kind m.value value

-- The arguments of a request by their type.
abbrev pub Arguments : Type 0
Arguments = List (ArgumentType × StrMap)

abbrev same_type : ArgumentType → ArgumentType → Bool
same_type custom custom = true
same_type method method = true
same_type header header = true
same_type query query = true
same_type caller_service caller_service = true
same_type caller_ip caller_ip = true
same_type unknown_type unknown_type = true
same_type _ _ = false

abbrev pub arguments_of : Arguments → ArgumentType → StrMap
arguments_of [] type = []
arguments_of ((t, m) ∷ ms) type = if same_type t type then m else arguments_of ms type

abbrev first_value : StrMap → Option Str
first_value [] = none
first_value ((k, v) ∷ m) = some v

-- The methods and the addresses of callers are read from any entry: here the first one.
unfoldable pub get_label_value : MatchArgument → StrMap → Option Str
get_label_value a m = elim a.type [
  | method ↦ first_value m
  | caller_ip ↦ first_value m
  | _ ↦ lookup m a.key
]

-- The loop over the arguments of a rule.
unfoldable pub match_arguments : (Str → Option Pattern) → List MatchArgument → Arguments → Bool
unfolding get_label_value match_string_value
match_arguments compile [] request = true
match_arguments compile (a ∷ as') request =
    let m = arguments_of request a.type in
    let rest = match_arguments compile as' request in
    if length m == 0 then false else elim (get_label_value a m) [
      | none ↦ false
      | some value ↦ if match_string_value compile a.value value then rest else false
    ]

-- The tests of one rule, in the order of the loop of `lookupRules`.
unfoldable pub is_matched : (Str → Option Pattern) → Str → Arguments → Rule → Bool
is_matched compile request_method request r =
    if r.disable
    then false
    else if length r.amounts == 0
    then false
    else if not (match_string_value compile r.method request_method)
    then false
    else match_arguments compile r.arguments request

-- The rules of a service whose rules are valid.
unfoldable pub lookup_rules : (Str → Option Pattern) → List Rule → Str → Arguments → List Rule
lookup_rules compile [] request_method request = []
lookup_rules compile (r ∷ rs) request_method request =
    let rest = lookup_rules compile rs request_method request in
    if is_matched compile request_method request r then r ∷ rest else rest

abbrev pub is_exact : MatchType → Bool
is_exact exact = true
is_exact _ = false

-- `type_name` is the name that the generated code gives an argument type.
unfoldable pub get_label_entry : (ArgumentType → Str) → MatchArgument → Str → Str
get_label_entry type_name a value =
    let keyed = type_name a.type ++ (b':' ∷ a.key ++ (b':' ∷ value)) in
    let plain = type_name a.type ++ (b':' ∷ value) in
    elim a.type [ method ↦ plain | caller_ip ↦ plain | unknown_type ↦ [] | _ ↦ keyed ]

abbrev join_with : ℕ → List Str → Str
join_with sep [] = []
join_with sep (s ∷ []) = s
join_with sep (s ∷ t ∷ ts) = s ++ (sep ∷ join_with sep (t ∷ ts))

abbrev value_or_empty : Option Str → Str
value_or_empty none = []
value_or_empty (some v) = v

-- The loop over the arguments: the entries, and whether windows are spread over their values.
unfoldable pub label_entries :
    (ArgumentType → Str) → Bool → List MatchArgument → Arguments → List Str × Bool
unfolding get_label_entry get_label_value
label_entries type_name combine [] request = ([], false)
label_entries type_name combine (a ∷ as') request =
    let (entries, spread) = label_entries type_name combine as' request in
    let fixed = combine && not (is_exact a.value.kind) in
    let value =
      if fixed
      then a.value.value
      else value_or_empty (get_label_value a (arguments_of request a.type)) in
    let entry = get_label_entry type_name a value in
    (
      if length entry == 0 then entries else entry ∷ entries,
      (not fixed && not (is_exact a.value.kind)) || spread,
    )

unfoldable pub format_label_to_str : (ArgumentType → Str) → Str → Arguments → Rule → Str × Bool
unfolding label_entries
format_label_to_str type_name request_method request r =
    let (entries, spread) = label_entries type_name r.regex_combine r.arguments request in
    let all = is_match_all r.method.value in
    let fixed = r.regex_combine && not (is_exact r.method.kind) in
    let name = if all then [] else if fixed then r.method.value else request_method in
    (
      name ++ (b'|' ∷ join_with b'|' (sort_strings entries)),
      (not all && not fixed && not (is_exact r.method.kind)) || spread,
    )
