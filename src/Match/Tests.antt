-- ===== src/Match/Tests.antt =====
-- The theorem on the IN and NOT_IN conditions, at a rule that lists `a` and `b`.
use polaris_go.Base.{◌≡◌, ◌↔◌, refl, true, Option, none, [], ◌∷◌, arith}
use polaris_go.Base.Text.{Str, str_eq}
use polaris_go.Match.{Pattern, in_list, not_in, match_string, is_match_all}
use polaris_go.Match.Lists.{IsItem, join, match_in-join}

abbrev no_pattern : Str → Option Pattern
no_pattern s = none

abbrev item_a : Str
item_a = b'a' ∷ []

abbrev item_b : Str
item_b = b'b' ∷ []

match_in-join_example :
    let value = join b',' (item_a ∷ item_b ∷ []) in
    ((match_string no_pattern item_b (record { kind = in_list; value = value }) ≡ true)
      ↔ IsItem item_b (item_a ∷ item_b ∷ []))
    × ((match_string no_pattern item_b (record { kind = not_in; value = value }) ≡ true)
        ↔ (¬ IsItem item_b (item_a ∷ item_b ∷ [])))
unfolding is_match_all str_eq
match_in-join_example =
    match_in-join no_pattern item_b item_a (item_b ∷ [])
      (((omega arith, tt), ((omega arith, tt), tt))) refl
