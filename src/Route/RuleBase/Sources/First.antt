-- ===== src/Route/RuleBase/Sources/First.antt =====
-- Which source of a rule matches a caller: matchSource of plugin/servicerouter/rulebase/base.go
-- against a description of a fitting source.
use polaris_go.Base.{
  ◌≡◌, ◌≢◌, ◌⊎◌, ◌∙◌, refl, sym, ap, inl, inr, ◌==◌, Bool, true, false, Option, none, some, List,
  [], ◌∷◌, All, length, Bool-cases, Option-cases, arith,
}
use polaris_go.Base.Text.{Str, str_eq, str_eq_refl}
use polaris_go.Balance.Cluster.{StrMap, lookup}
use polaris_go.Balance.Cluster.Matching.{str_eq→≡}
use polaris_go.Match.{Pattern, match_all, match_string}
use polaris_go.Route.{RouteInfo}
use polaris_go.Route.Traffic.{RuleString, RuleMap, Source}
use polaris_go.Route.RuleBase.{
  RuleMatch, source_metadata, get_rule_meta_value_for_source, note_variable,
}
use polaris_go.Route.RuleBase.Sources.{
  is_nil, is_refused, match_keys, match_source_metadata, match_each, match_source,
}

-- The first of a list with a property, if there is one.
abbrev pub IsFirst : {A : Type 0} → (A → Type 0) → List A → Bool → Option A → Type 0
IsFirst P [] found first = (found ≡ false) × (first ≡ none)
IsFirst P (x ∷ xs) found first =
    (P x × (found ≡ true) × (first ≡ some x)) ⊎ (¬ P x × IsFirst P xs found first)

no_length : {A : Type 0} (xs : List A) → (length xs == 0) ≡ true → xs ≡ []
no_length [] e = refl
no_length (x ∷ xs) e = absurd (ground (arith, e))

some_length : {A : Type 0} (xs : List A) → (length xs == 0) ≡ false → xs ≢ []
some_length [] e n = cc
some_length (x ∷ xs) e n = cc

not_empty : {A : Type 0} (x : A) (xs : List A) → (length (x ∷ xs) == 0) ≡ false
not_empty x xs = ground arith

no_metadata : (r : RouteInfo) → is_nil r.source_service ≡ true → source_metadata r ≡ []
no_metadata r e = elim (Option-cases r.source_service) [
  | inl n ↦ rw n refl
  | inr (m, n) ↦ absurd (ground (arith, e, n))
]

module _ (variables : Str → Option Str) (getenv : Str → Str) (compile : Str → Option Pattern) where
  -- The value that a condition asks for is there, and the value of the caller matches it.
  abbrev pub Matched : RuleString → Str → Type 0
  Matched rule value =
      (raw : Str) × (get_rule_meta_value_for_source variables getenv rule ≡ some raw)
      × (match_string compile value (record { kind = rule.kind; value = raw }) ≡ true)

  abbrev pub Satisfied : StrMap → Str × RuleString → Type 0
  Satisfied source (key, rule) =
      (key ≡ match_all)
      ⊎ ((value : Str) × (lookup source key ≡ some value)
          × ((rule.value ≡ match_all) ⊎ Matched rule value))

  -- A source fits a caller that it does not refuse, and whose metadata satisfy all its conditions.
  abbrev pub Fits : RuleMatch → RouteInfo → Source → Type 0
  Fits kind r s =
      (is_refused kind r s ≡ false)
      × ((s.metadata ≡ [])
          ⊎ ((source_metadata r ≢ []) × All (Satisfied (source_metadata r)) s.metadata))

  refused_key : (key : Str) → str_eq key match_all ≡ false → key ≢ match_all
  refused_key key e k =
      let h = sym (ap (λ t. str_eq t match_all) k) ∙ e in cc (str_eq_refl match_all, h)

  -- One condition: it is satisfied and the loop goes on, or it is not and the loop ends.
  keys-step :
      (source : StrMap) (key : Str) (rule : RuleString) (rules : RuleMap) (env : StrMap)
      → (Satisfied source (key, rule)
          × (env' : StrMap) × (match_keys variables getenv compile source ((key, rule) ∷ rules) env
              ≡ match_keys variables getenv compile source rules env'))
        ⊎ (¬ Satisfied source (key, rule)
            × ((match_keys variables getenv compile source ((key, rule) ∷ rules) env).1 ≡ false))
  unfolding match_keys
  keys-step source key rule rules env = elim (Bool-cases (str_eq key match_all)) [
    | inl e ↦ inl (inl (str_eq→≡ key _ e), env, rw e refl)
    | inr e ↦ elim (Option-cases (lookup source key)) [
      | inl n ↦
          inr (λ s. elim s [ inl k ↦ refused_key key e k | inr (v, l, m) ↦ cc ], rw (e, n) refl)
      | inr (value, l) ↦ elim (Bool-cases (str_eq rule.value match_all)) [
        | inl f ↦ inl (inr (value, l, inl (str_eq→≡ rule.value _ f)), env, rw (e, l, f) refl)
        | inr f ↦ elim (Option-cases (get_rule_meta_value_for_source variables getenv rule)) [
          | inl n ↦ inr (
            λ s. elim s [
              | inl k ↦ refused_key key e k
              | inr (v, l', inl a) ↦ refused_key rule.value f a
              | inr (v, l', inr (raw, g, m)) ↦ cc
            ],
            rw (e, l, f, n) refl,
          )
          | inr (raw, g) ↦
              let test = match_string compile value (record { kind = rule.kind; value = raw }) in
              elim (Bool-cases test) [
                | inl m ↦ inl (
                  inr (value, l, inr (raw, g, m)),
                  note_variable variables getenv rule env,
                  rw (e, l, f, g, m) refl,
                )
                | inr m ↦ inr (
                  λ s. elim s [
                    | inl k ↦ refused_key key e k
                    | inr (v, l', inl a) ↦ refused_key rule.value f a
                    | inr (v, l', inr (raw', g', m')) ↦ cc
                  ],
                  rw (e, l, f, g, m) refl,
                )
              ]
        ]
      ]
    ]
  ]

  keys_decide :
      (source : StrMap) (rules : RuleMap) (env : StrMap)
      → (All (Satisfied source) rules
          × ((match_keys variables getenv compile source rules env).1 ≡ true))
        ⊎ (¬ All (Satisfied source) rules
            × ((match_keys variables getenv compile source rules env).1 ≡ false))
  keys_decide source [] env = inl (tt, unfold match_keys in refl)
  keys_decide source ((key, rule) ∷ rules) env = elim (keys-step source key rule rules env) [
    | inr (n, f) ↦ inr (λ a. n a.0, f)
    | inl (s, env', same) ↦ elim (keys_decide source rules env') [
      | inl (a, t) ↦ inl ((s, a), rw same t)
      | inr (n, f) ↦ inr (λ a. n a.1, rw same f)
    ]
  ]

  metadata_decide :
      (r : RouteInfo) (rules : RuleMap) (env : StrMap)
      → let meets = (source_metadata r ≢ []) × All (Satisfied (source_metadata r)) rules in
        let success = (match_source_metadata variables getenv compile r rules env).1 in
        (meets × (success ≡ true)) ⊎ (¬ meets × (success ≡ false))
  unfolding match_source_metadata
  metadata_decide r rules env = elim (Bool-cases (length (source_metadata r) == 0)) [
    | inl e ↦ inr (λ m. m.0 (no_length (source_metadata r) e), rw e refl)
    | inr e ↦ elim (keys_decide (source_metadata r) rules env) [
      | inl (a, t) ↦ inl ((λ n. some_length _ e n, a), rw e t)
      | inr (n, f) ↦ inr (λ m. n m.1, rw e f)
    ]
  ]

  each-IsFirst :
      (kind : RuleMatch) (r : RouteInfo) (ss : List Source) (env : StrMap)
      → let result = match_each variables getenv compile kind r ss env in
        IsFirst (Fits kind r) ss result.1 result.2
  unfolding match_each
  each-IsFirst kind r [] env = (refl, refl)
  each-IsFirst kind r (s ∷ ss) env = elim (Bool-cases (is_refused kind r s)) [
    | inl e ↦ rw e (inr (λ f. cc, each-IsFirst kind r ss env))
    | inr e ↦ elim (Bool-cases (length s.metadata == 0)) [
      | inl g ↦ rw (e, g) (inl ((refl, inl (no_length s.metadata g)), refl, refl))
      | inr g ↦ elim (Bool-cases (is_nil r.source_service)) [
        | inl n ↦
            rw (e, g, n)
              (inr (
                λ f. elim f.1 [
                  | inl none_left ↦ some_length _ g none_left
                  | inr m ↦ m.0 (no_metadata r n)
                ],
                each-IsFirst kind r ss env,
              ))
        | inr n ↦ elim (metadata_decide r s.metadata env) [
          | inl (m, t) ↦ rw (e, g, n, t) (inl ((refl, inr m), refl, refl))
          | inr (m, t) ↦
              let env' = (match_source_metadata variables getenv compile r s.metadata env).0 in
              rw (e, g, n, t)
                (inr (
                  λ f. elim f.1 [ inl none_left ↦ some_length _ g none_left | inr m' ↦ m m' ],
                  each-IsFirst kind r ss env',
                ))
        ]
      ]
    ]
  ]

  -- When a rule lists sources: the rule is matched by the first of them that fits the caller, and
  -- not matched if none fits. A source fits if it does not refuse the service of the caller, and
  -- has no conditions or the caller has metadata and they satisfy every condition: its key is `*`,
  -- or the caller has this key, and the condition's value is `*` or can be found and matches.
  pub match_source-IsFirst :
      (kind : RuleMatch) (r : RouteInfo) (s : Source) (ss : List Source) (env : StrMap)
      → let result = match_source variables getenv compile kind r (s ∷ ss) env in
        IsFirst (Fits kind r) (s ∷ ss) result.1 result.2
  unfolding match_source
  match_source-IsFirst kind r s ss env = rw (not_empty s ss) (each-IsFirst kind r (s ∷ ss) env)
