-- ===== src/Match/Lists.antt =====
-- The IN and NOT_IN conditions of match.go: a value is compared with the items of a comma list.
use mathlib.Core.List.{reverse, reverse-cons, append_assoc, append-nil}
use polaris_go.Base.{
  ℕ, ◌≡◌, ◌≢◌, refl, ap, sym, ◌∙◌, true, false, not, ◌↔◌, ◌⊎◌, inl, inr, Bool-cases, Option, List,
  [], ◌∷◌, ◌++◌, All, ==_iff, test_false,
}
use polaris_go.Base.Text.{Str, str_eq, str_eq_iff, split_at, split}
use polaris_go.Match.{Pattern, in_list, not_in, contains, match_kind, match_string, is_match_all}

-- The items of a list with a separator between them.
abbrev pub join : ℕ → List Str → Str
join sep [] = []
join sep (t ∷ []) = t
join sep (t ∷ u ∷ ts) = t ++ (sep ∷ join sep (u ∷ ts))

abbrev pub Without : ℕ → Str → Type 0
Without sep = All (λ c. c ≢ sep)

split_at-item :
    (sep : ℕ) (acc t : Str) → Without sep t → split_at sep acc t ≡ (reverse acc ++ t) ∷ []
unfolding split_at
split_at-item sep acc [] h = ap (λ s. s ∷ []) (sym (append-nil (reverse acc)))
split_at-item sep acc (c ∷ t) (h, hs) =
    rw (test_false c sep h, split_at-item sep (c ∷ acc) t hs, reverse-cons, append_assoc)

split_at-sep :
    (sep : ℕ) (acc t rest : Str)
    → Without sep t
    → split_at sep acc (t ++ (sep ∷ rest)) ≡ (reverse acc ++ t) ∷ split_at sep [] rest
unfolding split_at
split_at-sep sep acc [] rest h =
    rw ((==_iff sep sep).1 refl)
      (ap (λ s. s ∷ split_at sep [] rest) (sym (append-nil (reverse acc))))
split_at-sep sep acc (c ∷ t) rest (h, hs) =
    rw (test_false c sep h, split_at-sep sep (c ∷ acc) t rest hs, reverse-cons, append_assoc)

pub split-join :
    (sep : ℕ) (t : Str) (ts : List Str)
    → All (Without sep) (t ∷ ts)
    → split sep (join sep (t ∷ ts)) ≡ t ∷ ts
unfolding split
split-join sep t [] (h, hs) = split_at-item sep [] t h
split-join sep t (u ∷ ts) (h, hs) =
    split_at-sep sep [] t (join sep (u ∷ ts)) h ∙ ap (λ r. t ∷ r) (split-join sep u ts hs)

-- A text is one of the items.
abbrev pub IsItem : Str → List Str → Type 0
IsItem s [] = ⊥
IsItem s (t ∷ ts) = (t ≡ s) ⊎ IsItem s ts

contains-IsItem : (ts : List Str) (s : Str) → (contains ts s ≡ true) ↔ IsItem s ts
unfolding contains
contains-IsItem [] s = (λ h. cc, λ h. elim h [ ])
contains-IsItem (t ∷ ts) s = elim (Bool-cases (str_eq t s)) [
  | inl e ↦ (λ h. inl ((str_eq_iff t s).0 e), λ h. rw e refl)
  | inr e ↦ (
    λ h. inr ((contains-IsItem ts s).0 (rw e at h)),
    λ h. elim h [
      | inl g ↦ (let k = (str_eq_iff t s).1 g in cc)
      | inr g ↦ rw e ((contains-IsItem ts s).1 g)
    ],
  )
]

not-contains : (ts : List Str) (s : Str) → (not (contains ts s) ≡ true) ↔ (¬ IsItem s ts)
not-contains ts s = elim (Bool-cases (contains ts s)) [
  | inl e ↦ (λ h. cc, λ h. absurd (h ((contains-IsItem ts s).0 e)))
  | inr e ↦ (λ h i. (let k = (contains-IsItem ts s).1 i in cc), λ h. rw e refl)
]

-- On a rule that lists items with no comma in them, and whose text is not one of the match-all
-- values, IN accepts a value exactly if it is one of the items, and NOT_IN exactly if it is none.
pub match_in-join :
    (compile : Str → Option Pattern) (src t : Str) (ts : List Str)
    → All (Without b',') (t ∷ ts)
    → is_match_all (join b',' (t ∷ ts)) ≡ false
    → let value = join b',' (t ∷ ts) in
      ((match_string compile src (record { kind = in_list; value = value }) ≡ true)
        ↔ IsItem src (t ∷ ts))
      × ((match_string compile src (record { kind = not_in; value = value }) ≡ true)
          ↔ (¬ IsItem src (t ∷ ts)))
unfolding match_string match_kind
match_in-join compile src t ts h e =
    rw (e, split-join b',' t ts h) (contains-IsItem (t ∷ ts) src, not-contains (t ∷ ts) src)
