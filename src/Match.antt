-- ===== src/Match.antt =====
-- pkg/algorithm/match/match.go: how a rule's conditions are compared with a request.
pub mod Lists
mod Tests
use polaris_go.Base.{
  Bool, true, false, not, ◌&&◌, ◌||◌, Option, none, some, List, [], ◌∷◌, if◌then◌else◌,
}
use polaris_go.Base.Int.{ℤ, leb_ℤ}
use polaris_go.Base.Text.{Str, str_eq, split, trim_space, parse_int}

-- `*`
abbrev pub match_all : Str
match_all = b'*' ∷ []

unfoldable pub is_match_all : Str → Bool
is_match_all v = str_eq v [] || str_eq v match_all

-- `*model.ServiceKey`, never nil here.
pub record ServiceKey : Type 0 where
  pub namespace : Str
  pub service : Str

unfoldable pub match_service : Option ServiceKey → Str → Str → Bool
match_service key ns svc =
    let input : ServiceKey = elim key [
      | some k ↦ k
      | none ↦ record { namespace = []; service = [] }
    ] in
    let ns' = trim_space ns in
    let svc' = trim_space svc in
    if not (str_eq ns' []) && not (str_eq ns' match_all) && not (str_eq ns' input.namespace)
    then false
    else if not (str_eq svc' []) && not (str_eq svc' match_all) && not (str_eq svc' input.service)
    then false
    else true

-- `apimodel.MatchString_MatchStringType`; a value that the switch does not name is `other`.
pub data MatchType : Type 0 where
  regex not_equals exact in_list not_in range other : MatchType

pub record MatchString : Type 0 where
  pub kind : MatchType
  pub value : Str

-- A compiled pattern: `MatchString` returns a result or an error.
abbrev pub Pattern : Type 0
Pattern = Str → Option Bool

unfoldable pub contains : List Str → Str → Bool
contains [] s = false
contains (t ∷ ts) s = if str_eq t s then true else contains ts s

-- The range test on a list of tokens.
unfoldable pub in_range : List Str → Str → Bool
in_range (l ∷ r ∷ []) s = elim (parse_int l) [
  | none ↦ false
  | some left ↦ elim (parse_int r) [
    | none ↦ false
    | some right ↦ elim (parse_int s) [ none ↦ false | some v ↦ leb_ℤ left v && leb_ℤ v right ]
  ]
]
in_range _ s = false

unfoldable pub match_kind : (Str → Option Pattern) → MatchType → Str → Str → Bool
match_kind compile regex src raw = elim (compile raw) [
  | none ↦ false
  | some pattern ↦ elim (pattern src) [ none ↦ false | some m ↦ m ]
]
match_kind compile not_equals src raw = not (str_eq src raw)
match_kind compile exact src raw = str_eq src raw
match_kind compile in_list src raw = contains (split b',' raw) src
match_kind compile not_in src raw = not (contains (split b',' raw) src)
match_kind compile range src raw = in_range (split b'~' raw) src
match_kind compile other src raw = true

-- `regexToPattern` is the parameter `compile`.
unfoldable pub match_string : (Str → Option Pattern) → Str → MatchString → Bool
match_string compile src m =
    if is_match_all m.value then true else match_kind compile m.kind src m.value
