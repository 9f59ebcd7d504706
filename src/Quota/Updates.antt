-- ===== src/Quota/Updates.antt =====
-- What a change of the rules does to the windows: pkg/flow/quota/window.go.
use polaris_go.Base.{
  ◌≡◌, refl, ap, ◌∙◌, Option, none, some, List, [], ◌∷◌, if◌then◌else◌, All, Bool-cases, inl, inr,
}
use polaris_go.Base.Text.{Str, str_eq}
use polaris_go.Quota.{Rule}
use polaris_go.Quota.Windows.{WindowContainer, WindowSet, container_in, drop_container}
use polaris_go.Quota.Windows.Store.{container_of, delete_windows, delete_container}

-- `common.RevisionChange` by the id of a rule.
pub record RevisionChange : Type 0 where
  pub id : Str
  pub old_revision : Str
  pub new_revision : Str

pub record RateLimitDiffInfo : Type 0 where
  pub updated_rules : List RevisionChange
  pub deleted_rules : List (Str × Str)

abbrev put_change : List RevisionChange → RevisionChange → List RevisionChange
put_change [] c = c ∷ []
put_change (d ∷ ds) c = if str_eq d.id c.id then c ∷ ds else d ∷ put_change ds c

abbrev change_of : List RevisionChange → Str → Option RevisionChange
change_of [] id = none
change_of (d ∷ ds) id = if str_eq d.id id then some d else change_of ds id

abbrev drop_change : List RevisionChange → Str → List RevisionChange
drop_change [] id = []
drop_change (d ∷ ds) id = if str_eq d.id id then ds else d ∷ drop_change ds id

-- The loop over the new rules, and the one over the old ones.
unfoldable pub new_changes : List Rule → List RevisionChange → List RevisionChange
new_changes [] cs = cs
new_changes (r ∷ rs) cs =
    new_changes rs
      (put_change cs (record { id = r.id; old_revision = []; new_revision = r.revision }))

unfoldable pub old_changes : List Rule → RateLimitDiffInfo → RateLimitDiffInfo
old_changes [] d = d
old_changes (r ∷ rs) d = old_changes rs (elim (change_of d.updated_rules r.id) [
  | none ↦ record d { deleted_rules = (r.id, r.revision) ∷ d.deleted_rules }
  | some c ↦
      if str_eq c.new_revision r.revision
      then record d { updated_rules = drop_change d.updated_rules r.id }
      else record d {
        updated_rules = put_change d.updated_rules (record c { old_revision = r.revision });
      }
])

unfoldable pub calc_rate_limit_diff_info : List Rule → List Rule → RateLimitDiffInfo
unfolding new_changes old_changes
calc_rate_limit_diff_info old new =
    old_changes old (record { updated_rules = new_changes new []; deleted_rules = [] })

module _ {B : Type 0} where
  unfoldable pub delete_revisions : WindowSet B → List (Str × Str) → WindowSet B
  delete_revisions s [] = s
  delete_revisions s ((id, revision) ∷ ds) = delete_revisions (delete_container s revision) ds

  unfoldable pub delete_changed : WindowSet B → List RevisionChange → WindowSet B
  delete_changed s [] = s
  delete_changed s (c ∷ cs) = delete_changed (delete_container s c.old_revision) cs

  -- `OnServiceUpdated` on new rules. The old rules are not handed to the comparison.
  unfoldable pub on_service_updated : WindowSet B → List Rule → WindowSet B
  unfolding calc_rate_limit_diff_info
  on_service_updated s new =
      let d = calc_rate_limit_diff_info [] new in
      delete_changed (delete_revisions s d.deleted_rules) d.updated_rules

-- No container to drop.
drop_none :
    (cs : List (Str × WindowContainer)) (k : Str)
    → container_in cs k ≡ none
    → drop_container cs k ≡ cs
drop_none [] k e = refl
drop_none ((i, c) ∷ cs) k e = elim (Bool-cases (str_eq i k)) [
  | inl f ↦ (let g : some c ≡ none = rw f at e in cc)
  | inr f ↦ rw f (ap (λ rest. (i, c) ∷ rest) (drop_none cs k (rw f at e)))
]

-- No change of new rules alone names an old revision.
abbrev NoOld : List RevisionChange → Type 0
NoOld cs = All (λ (c : RevisionChange). c.old_revision ≡ []) cs

put_change-NoOld :
    (cs : List RevisionChange) (c : RevisionChange)
    → c.old_revision ≡ []
    → NoOld cs
    → NoOld (put_change cs c)
put_change-NoOld [] c e h = (e, tt)
put_change-NoOld (d ∷ ds) c e h = elim (Bool-cases (str_eq d.id c.id)) [
  | inl f ↦ rw f (e, h.1)
  | inr f ↦ rw f (h.0, put_change-NoOld ds c e h.1)
]

new_changes-NoOld :
    (rs : List Rule) (cs : List RevisionChange) → NoOld cs → NoOld (new_changes rs cs)
unfolding new_changes
new_changes-NoOld [] cs h = h
new_changes-NoOld (r ∷ rs) cs h = new_changes-NoOld rs _ (put_change-NoOld cs _ refl h)

module _ {B : Type 0} where
  delete_container-none :
      (s : WindowSet B) (k : Str) → container_of s k ≡ none → delete_container s k ≡ s
  unfolding delete_container delete_windows
  delete_container-none s k e = rw (drop_none s.window_by_rule k e, e) refl

  delete_changed-NoOld :
      (s : WindowSet B) (cs : List RevisionChange)
      → container_of s [] ≡ none
      → NoOld cs
      → delete_changed s cs ≡ s
  unfolding delete_changed
  delete_changed-NoOld s [] e h = refl
  delete_changed-NoOld s (c ∷ cs) e h =
      ap (λ k. delete_changed (delete_container s k) cs) h.0
      ∙ ap (λ u. delete_changed u cs) (delete_container-none s [] e)
      ∙ delete_changed-NoOld s cs e h.1

  -- If no windows are kept for the empty text as a revision, an update of the rules changes nothing,
  -- whatever the new rules are: every window of every rule stays where it is, as it is, those of rules
  -- that have changed or are gone as well.
  pub update_keeps :
      (s : WindowSet B) (new : List Rule) → container_of s [] ≡ none → on_service_updated s new ≡ s
  unfolding on_service_updated old_changes delete_revisions
  update_keeps s new e = delete_changed-NoOld s (new_changes new []) e (new_changes-NoOld new [] tt)
