-- ===== src/Breaker/Fallback.antt =====
-- `buildFallbackInfo` of plugin/circuitbreaker/composite/counter.go: the response that a rule sets for
-- calls that its breaker refuses.
use polaris_go.Base.{Bool, true, false, not, Option, none, some, List, [], ◌∷◌, if◌then◌else◌}
use polaris_go.Base.Int.{ℤ}
use polaris_go.Base.Text.{Str, str_eq}
use polaris_go.Breaker.HalfOpen.{FallbackInfo}
use polaris_go.Breaker.Rules.{Level, service, method}

-- `fault_tolerance.FallbackResponse`; its code is an int32.
pub record FallbackResponse : Type 0 where
  pub code : ℤ
  pub headers : List (Str × Str)
  pub body : Str

-- `fault_tolerance.FallbackConfig`
pub record FallbackConfig : Type 0 where
  pub response : Option FallbackResponse

-- `headers[key] = value`
abbrev set_header : List (Str × Str) → Str → Str → List (Str × Str)
set_header [] key value = (key, value) ∷ []
set_header ((k, v) ∷ headers) key value =
    let rest = set_header headers key value in
    if str_eq k key then (k, value) ∷ headers else (k, v) ∷ rest

-- The loop over the headers of the response.
unfoldable pub copy_headers : List (Str × Str) → List (Str × Str) → List (Str × Str)
copy_headers done [] = done
copy_headers done ((key, value) ∷ headers) = copy_headers (set_header done key value) headers

abbrev has_fallback : Level → Bool
has_fallback method = true
has_fallback service = true
has_fallback _ = false

unfoldable pub build_fallback_info : Level → Option FallbackConfig → Option FallbackInfo
unfolding copy_headers
build_fallback_info level config = if not (has_fallback level) then none else elim config [
  | none ↦ none
  | some c ↦ elim c.response [
    | none ↦ none
    | some r ↦ some (record { code = r.code; headers = copy_headers [] r.headers; body = r.body })
  ]
]
