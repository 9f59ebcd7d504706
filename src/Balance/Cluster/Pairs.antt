-- ===== src/Balance/Cluster/Pairs.antt =====
-- The test of a cluster, whose first pair is kept in its fields and more of them in its map:
-- pkg/model/cluster.go. What it accepts is said by the pairs that were added.
use polaris_go.Base.{
  ◌≡◌, refl, sym, ◌∙◌, Bool, true, false, not, ◌&&◌, ◌||◌, Option, none, some, [], ◌∷◌, ◌==◌, ltb,
  if◌then◌else◌, length, Bool-cases, inl, inr, arith,
}
use polaris_go.Base.Text.{Str, str_eq, str_eq_refl}
use polaris_go.Balance.Cluster.{
  StrMap, Instance, Metadata, Cluster, lookup, match_all_keys, match_metadata, match_metadata,
}
use polaris_go.Balance.Cluster.Matching.{
  has_key, bears, IsDistinct, str_eq→≡, str_eq_comm, accepted, accepted_cong, Accepts,
  match_all_keys-Accepts, Accepts-match_all_keys,
}

-- The same of a cluster, whose first pair is in its fields.
abbrev pub names : Cluster → Str → Bool
names c j =
    if c.meta_count == 0
    then false
    else if c.meta_count == 1
    then str_eq c.meta_key j
    else has_key c.metadata j

abbrev pub allows : Cluster → Str → Str → Bool
allows c j w =
    if c.meta_count == 0
    then false
    else if c.meta_count == 1
    then str_eq c.meta_key j && str_eq c.meta_value w
    else bears c.metadata j w

-- The map is in use from two pairs on, and has each key once.
pub record IsValid (c : Cluster) : Type 0 where
  pub distinct : IsDistinct c.metadata
  pub used : (length c.metadata == 0) ≡ ltb c.meta_count 2

branches :
    (none_added no_data one : Bool) (o : Option Str) (w : Str) (rest : Bool)
    → (if none_added
        then true
        else if no_data
        then false
        else if one
        then elim o [ none ↦ false | some value ↦ str_eq value w ]
        else rest)
      ≡ (none_added || (not no_data && (if one then accepted o (λ v. str_eq v w) else rest)))
branches true no_data one o w rest = refl
branches false true one o w rest = refl
branches false false true none w rest = refl
branches false false true (some v) w rest = refl
branches false false false o w rest = refl

match_metadata-branches :
    (c : Cluster) (x : Instance)
    → match_metadata c x ≡ (
        (c.meta_count == 0)
        || (not (length x.metadata == 0)
            && (if c.meta_count == 1
                then accepted (lookup x.metadata c.meta_key) (λ v. str_eq v c.meta_value)
                else match_all_keys c.metadata x.metadata)))
unfolding match_metadata
match_metadata-branches c x =
    branches (c.meta_count == 0) (length x.metadata == 0) (c.meta_count == 1) _ _ _

empty-lookup : (m : StrMap) (k : Str) → (length m == 0) ≡ true → lookup m k ≡ none
empty-lookup [] k e = refl
empty-lookup (p ∷ m) k e = ground arith

some_key : (ms : Metadata) → (length ms == 0) ≡ false → (j : Str) × (has_key ms j ≡ true)
some_key [] e = ground arith
some_key ((k, vs) ∷ ms) e = (k, rw (str_eq_refl k) refl)

-- Some key is named, once there is a pair.
some_name : (c : Cluster) → IsValid c → (c.meta_count == 0) ≡ false → (j : Str) × (names c j ≡ true)
some_name c v e = elim (Bool-cases (c.meta_count == 1)) [
  | inl f ↦ (c.meta_key, rw (e, f, str_eq_refl c.meta_key) refl)
  | inr f ↦ let (j, h) = some_key c.metadata (v.used ∙ ground (arith, e, f)) in (j, rw (e, f) h)
]

one_pair :
    (o : Option Str) (k w : Str)
    → accepted o (λ v. str_eq v w) ≡ accepted o (λ v. str_eq k k && str_eq w v)
one_pair o k w = accepted_cong o _ _ (λ v. rw (str_eq_refl k, str_eq_comm v w) refl)

pub match_metadata-Accepts :
    (c : Cluster) (x : Instance)
    → match_metadata c x ≡ true
    → Accepts (names c) (allows c) x.metadata
match_metadata-Accepts c x m j h =
    let m' = sym (match_metadata-branches c x) ∙ m in
    elim (Bool-cases (c.meta_count == 0)) [
      | inl e ↦ ground (arith, e, h)
      | inr e ↦ elim (Bool-cases (c.meta_count == 1)) [
        | inl f ↦ rw (sym (str_eq→≡ c.meta_key j (ground (arith, h, e, f)))) (
            accepted_cong (lookup x.metadata c.meta_key) _ _ (λ w. rw (e, f) refl)
            ∙ sym (one_pair (lookup x.metadata c.meta_key) c.meta_key c.meta_value)
            ∙ ground (arith, m', e, f))
        | inr f ↦
            accepted_cong (lookup x.metadata j) _ (bears c.metadata j) (λ w. rw (e, f) refl)
            ∙ match_all_keys-Accepts c.metadata x.metadata (ground (arith, m', e, f)) j
                (ground (arith, h, e, f))
      ]
    ]

-- Without metadata an instance has no value at a key that is named.
no_data :
    (c : Cluster) (x : Instance) (j : Str)
    → (length x.metadata == 0) ≡ true
    → accepted (lookup x.metadata j) (allows c j) ≡ false
no_data c x j e = rw (empty-lookup x.metadata j e) refl

pub Accepts-match_metadata :
    (c : Cluster) (x : Instance)
    → IsValid c
    → Accepts (names c) (allows c) x.metadata
    → match_metadata c x ≡ true
Accepts-match_metadata c x v a =
    match_metadata-branches c x ∙ elim (Bool-cases (c.meta_count == 0)) [
      | inl e ↦ ground (arith, e)
      | inr e ↦ elim (Bool-cases (length x.metadata == 0)) [
        | inl g ↦
            let (j, h) = some_name c v e in
            absurd (let n = no_data c x j g in let y = a j h in ground (arith, n, y))
        | inr g ↦ elim (Bool-cases (c.meta_count == 1)) [
          | inl f ↦
              rw (e, g, f)
                (one_pair (lookup x.metadata c.meta_key) c.meta_key c.meta_value
                  ∙ sym (accepted_cong (lookup x.metadata c.meta_key) _ _ (λ w. rw (e, f) refl))
                  ∙ a c.meta_key (rw (e, f, str_eq_refl c.meta_key) refl))
          | inr f ↦
              rw (e, g, f)
                (Accepts-match_all_keys c.metadata x.metadata v.distinct (λ j h.
                  sym (accepted_cong (lookup x.metadata j) _ _ (λ w. rw (e, f) refl))
                  ∙ a j (rw (e, f) h)))
        ]
      ]
    ]
