-- ===== src/Route/Traffic.antt =====
-- The routing rules of a service: what pkg/plugin/servicerouter and plugin/servicerouter/rulebase
-- read of the messages of the rule server and of `model.ServiceRule`. A number or a text that a
-- message lacks is zero or the empty text.
use polaris_go.Base.{ℕ, Bool, Option, List}
use polaris_go.Base.Text.{Str}
use polaris_go.Match.{MatchType}

-- `apimodel.MatchString_ValueType`; a number that the switch does not name is `other_value`.
pub data ValueType : Type 0 where
  text parameter variable other_value : ValueType

-- `apimodel.MatchString`, with where its value comes from.
pub record RuleString : Type 0 where
  pub kind : MatchType
  pub value_type : ValueType
  pub value : Str

-- A Go map from keys to conditions, as the list of its entries in the order of a loop over it.
abbrev pub RuleMap : Type 0
RuleMap = List (Str × RuleString)

pub record Source : Type 0 where
  pub namespace : Str
  pub service : Str
  pub metadata : RuleMap

pub record Destination : Type 0 where
  pub namespace : Str
  pub service : Str
  pub metadata : RuleMap
  pub priority : ℕ
  pub weight : ℕ

pub record Rule : Type 0 where
  pub sources : List Source
  pub destinations : List Destination

pub record Routing : Type 0 where
  pub inbounds : List Rule
  pub outbounds : List Rule

-- `FindStringMatch` of a compiled expression: an error, no match, or the text of the match.
abbrev pub Finder : Type 0
Finder = Str → Option (Option Str)

-- `model.ServiceRule`: its value, whether it has no validation error, and the compiled expressions
-- of its cache.
pub record ServiceRule : Type 0 where
  pub value : Option Routing
  pub is_valid : Bool
  pub get_regex_matcher : Str → Option Finder
