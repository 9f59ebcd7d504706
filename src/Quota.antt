-- ===== src/Quota.antt =====
-- The rate limit flow: pkg/flow/quota/assist.go and window.go. A request is matched with the rules of
-- a service; each matching rule has a window of its own, or one for each combination of labels.
pub mod Rules
pub mod Windows
pub mod Updates
pub mod Lookups
pub mod Allocate
mod Tests
use polaris_go.Base.{ℕ, Bool, List}
use polaris_go.Base.Int.{ℤ}
use polaris_go.Base.Text.{Str}
use polaris_go.Match.{MatchString}

-- `apitraffic.MatchArgument_Type`; a number that the code does not name is `unknown_type`.
pub data ArgumentType : Type 0 where
  custom method header query caller_service caller_ip unknown_type : ArgumentType

pub record MatchArgument : Type 0 where
  pub type : ArgumentType
  pub key : Str
  pub value : MatchString

pub data RuleType : Type 0 where
  global local : RuleType

-- What is read of `apitraffic.Rule`. An amount is its duration in nanoseconds; a rule without a
-- method has one that matches all.
pub record Rule : Type 0 where
  pub id : Str
  pub revision : Str
  pub type : RuleType
  pub disable : Bool
  pub method : MatchString
  pub arguments : List MatchArgument
  pub regex_combine : Bool
  pub amounts : List ℤ
  pub cluster_namespace : Str
  pub cluster_service : Str
