-- ===== src/Balance/Cluster/Matching.antt =====
-- The test of a cluster on instances, pkg/model/cluster.go, against the pairs that were added to it.
use polaris_go.Base.{
  ◌≡◌, refl, sym, ap, ◌∙◌, Bool, true, false, not, ◌&&◌, ◌||◌, Option, none, some, [], ◌∷◌,
  if◌then◌else◌, Bool-cases, inl, inr, arith,
}
use polaris_go.Base.Text.{Str, str_eq, str_eq_iff, str_eq_refl}
use polaris_go.Balance.Cluster.{StrMap, Metadata, lookup, has_value, match_all_keys}
use polaris_go.Balance.Cluster.Metadata.{put_value}

-- Whether the map has a key, and a value at it.
abbrev pub has_key : Metadata → Str → Bool
has_key [] j = false
has_key ((k, vs) ∷ ms) j = str_eq k j || has_key ms j

abbrev pub bears : Metadata → Str → Str → Bool
bears [] j w = false
bears ((k, vs) ∷ ms) j w = if str_eq k j then has_value vs w else bears ms j w

abbrev pub IsDistinct : Metadata → Type 0
IsDistinct [] = Unit
IsDistinct ((k, vs) ∷ ms) = (has_key ms k ≡ false) × IsDistinct ms

pub str_eq→≡ : (s t : Str) → str_eq s t ≡ true → s ≡ t
str_eq→≡ s t h = (str_eq_iff s t).0 h

pub str_eq_comm : (s t : Str) → str_eq s t ≡ str_eq t s
str_eq_comm s t = ground (arith, str_eq_iff s t, str_eq_iff t s)

-- The write at a cons.
put-cons :
    (k' : Str) (vs : StrMap) (ms : Metadata) (k v c : Str)
    → put_value ((k', vs) ∷ ms) k v c ≡ (
        if str_eq k' k
        then (if has_value vs v then ((k', vs) ∷ ms, false) else ((k', (v, c) ∷ vs) ∷ ms, true))
        else ((k', vs) ∷ (put_value ms k v c).0, (put_value ms k v c).1))
unfolding put_value
put-cons k' vs ms k v c = refl

pub has_key-put :
    (ms : Metadata) (k v c j : Str)
    → has_key (put_value ms k v c).0 j ≡ (str_eq k j || has_key ms j)
has_key-put [] k v c j = unfold put_value in refl
has_key-put ((k', vs) ∷ ms) k v c j = elim (Bool-cases (str_eq k' k)) [
  | inl e ↦ elim (Bool-cases (has_value vs v)) [
    | inl f ↦ rw (put-cons k' vs ms k v c, e, f, str_eq→≡ k' k e) (ground arith)
    | inr f ↦ rw (put-cons k' vs ms k v c, e, f, str_eq→≡ k' k e) (ground arith)
  ]
  | inr e ↦ rw (put-cons k' vs ms k v c, e) (ground (arith, has_key-put ms k v c j))
]

has_value-known :
    (vs : StrMap) (v w : Str)
    → has_value vs v ≡ true
    → has_value vs w ≡ (str_eq v w || has_value vs w)
has_value-known vs v w h = elim (Bool-cases (str_eq v w)) [
  | inl e ↦ rw (e, sym (str_eq→≡ v w e)) h
  | inr e ↦ rw e refl
]

pub bears-put :
    (ms : Metadata) (k v c j w : Str)
    → bears (put_value ms k v c).0 j w ≡ ((str_eq k j && str_eq v w) || bears ms j w)
bears-put [] k v c j w = unfold put_value in ground arith
bears-put ((k', vs) ∷ ms) k v c j w = elim (Bool-cases (str_eq k' k)) [
  | inl e ↦ elim (Bool-cases (has_value vs v)) [
    | inl f ↦
        rw (put-cons k' vs ms k v c, e, f, sym (str_eq→≡ k' k e))
          (ground (arith, has_value-known vs v w f))
    | inr f ↦ rw (put-cons k' vs ms k v c, e, f, sym (str_eq→≡ k' k e)) (ground arith)
  ]
  | inr e ↦ elim (Bool-cases (str_eq k' j)) [
    | inl g ↦
        rw (put-cons k' vs ms k v c, e, sym (str_eq→≡ k' j g), str_eq_refl k', str_eq_comm k k', e)
          refl
    | inr g ↦ rw (put-cons k' vs ms k v c, e, g) (ground (arith, bears-put ms k v c j w))
  ]
]

pub put-added : (ms : Metadata) (k v c : Str) → (put_value ms k v c).1 ≡ not (bears ms k v)
put-added [] k v c = unfold put_value in refl
put-added ((k', vs) ∷ ms) k v c = elim (Bool-cases (str_eq k' k)) [
  | inl e ↦ elim (Bool-cases (has_value vs v)) [
    | inl f ↦ rw (put-cons k' vs ms k v c, e, f) (ground arith)
    | inr f ↦ rw (put-cons k' vs ms k v c, e, f) (ground arith)
  ]
  | inr e ↦ rw (put-cons k' vs ms k v c, e) (ground (arith, put-added ms k v c))
]

pub put-IsDistinct :
    (ms : Metadata) (k v c : Str) → IsDistinct ms → IsDistinct (put_value ms k v c).0
put-IsDistinct [] k v c d = unfold put_value in (refl, tt)
put-IsDistinct ((k', vs) ∷ ms) k v c d = elim (Bool-cases (str_eq k' k)) [
  | inl e ↦ elim (Bool-cases (has_value vs v)) [
    | inl f ↦ rw (put-cons k' vs ms k v c, e, f) d
    | inr f ↦ rw (put-cons k' vs ms k v c, e, f) d
  ]
  | inr e ↦
      rw (put-cons k' vs ms k v c, e)
        (
          ground (arith, has_key-put ms k v c k', str_eq_comm k k', d.0),
          put-IsDistinct ms k v c d.1,
        )
]

-- What a key requires of an instance that has this value there, or none.
abbrev pub accepted : Option Str → (Str → Bool) → Bool
accepted none allowed = false
accepted (some v) allowed = allowed v

-- Every key that is named has one of the values that it is allowed.
abbrev pub Accepts : (Str → Bool) → (Str → Str → Bool) → StrMap → Type 0
Accepts named allowed inst =
    (j : Str) → named j ≡ true → accepted (lookup inst j) (allowed j) ≡ true

required :
    (o : Option Str) (vs : StrMap) (rest : Bool)
    → (elim o [ none ↦ false | some value ↦ if not (has_value vs value) then false else rest ])
      ≡ (accepted o (has_value vs) && rest)
required none vs rest = refl
required (some v) vs rest = ground arith

match_all_keys-cons :
    (k : Str) (vs : StrMap) (ms : Metadata) (inst : StrMap)
    → match_all_keys ((k, vs) ∷ ms) inst
      ≡ (accepted (lookup inst k) (has_value vs) && match_all_keys ms inst)
unfolding match_all_keys
match_all_keys-cons k vs ms inst = required (lookup inst k) vs (match_all_keys ms inst)

pub accepted_cong :
    (o : Option Str) (f g : Str → Bool) → ((w : Str) → f w ≡ g w) → accepted o f ≡ accepted o g
accepted_cong none f g e = refl
accepted_cong (some v) f g e = e v

pub match_all_keys-Accepts :
    (ms : Metadata) (inst : StrMap)
    → match_all_keys ms inst ≡ true
    → Accepts (has_key ms) (bears ms) inst
match_all_keys-Accepts [] inst m j h = cc
match_all_keys-Accepts ((k, vs) ∷ ms) inst m j h =
    let m' = sym (match_all_keys-cons k vs ms inst) ∙ m in
    elim (Bool-cases (str_eq k j)) [
      | inl e ↦ rw (sym (str_eq→≡ k j e)) (
          accepted_cong (lookup inst k) _ (has_value vs) (λ w. rw (str_eq_refl k) refl)
          ∙ ground (arith, m'))
      | inr e ↦
          accepted_cong (lookup inst j) _ (bears ms j) (λ w. rw e refl)
          ∙ match_all_keys-Accepts ms inst (ground (arith, m')) j (ground (arith, h, e))
    ]

key_apart :
    (ms : Metadata) (k j : Str) → str_eq k j ≡ true → has_key ms k ≡ false → has_key ms j ≡ true → ⊥
key_apart ms k j e fresh h =
    let f = sym (ap (has_key ms) (str_eq→≡ k j e)) ∙ fresh in ground (arith, f, h)

-- What is required at the keys after the first.
later_key :
    (k : Str) (vs : StrMap) (ms : Metadata) (inst : StrMap)
    → has_key ms k ≡ false
    → Accepts (has_key ((k, vs) ∷ ms)) (bears ((k, vs) ∷ ms)) inst
    → Accepts (has_key ms) (bears ms) inst
later_key k vs ms inst fresh a j h = elim (Bool-cases (str_eq k j)) [
  | inl e ↦ absurd (key_apart ms k j e fresh h)
  | inr e ↦
      sym (accepted_cong (lookup inst j) _ (bears ms j) (λ w. rw e refl)) ∙ a j (rw (e, h) refl)
]

pub Accepts-match_all_keys :
    (ms : Metadata) (inst : StrMap)
    → IsDistinct ms
    → Accepts (has_key ms) (bears ms) inst
    → match_all_keys ms inst ≡ true
Accepts-match_all_keys [] inst d a = unfold match_all_keys in refl
Accepts-match_all_keys ((k, vs) ∷ ms) inst d a =
    let first =
      sym (accepted_cong (lookup inst k) _ (has_value vs) (λ w. rw (str_eq_refl k) refl))
      ∙ a k (rw (str_eq_refl k) refl) in
    let rest = Accepts-match_all_keys ms inst d.1 (later_key k vs ms inst d.0 a) in
    match_all_keys-cons k vs ms inst ∙ ground (arith, first, rest)
