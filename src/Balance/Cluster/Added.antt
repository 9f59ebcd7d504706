-- ===== src/Balance/Cluster/Added.antt =====
-- What the operations on the metadata of a cluster add to what it names and allows:
-- pkg/model/cluster.go.
use polaris_go.Base.{
  ℕ, ◌≡◌, ◌↔◌, refl, sym, ◌∙◌, Bool, true, false, not, ◌&&◌, ◌||◌, [], ◌∷◌, ◌++◌, ◌==◌, ltb, length,
  Bool-cases, inl, inr, arith,
}
use polaris_go.Base.Text.{Str, str_eq, str_eq_refl}
use polaris_go.Balance.Cluster.{
  StrMap, Instance, Metadata, Cluster, lookup, match_metadata, match_metadata,
}
use polaris_go.Balance.Cluster.Metadata.{
  put_value, insert_metadata, rule_add_metadata, reload_compose_meta_value, set_compose_meta_value,
  total_length, all_composed, clear_cluster_value, reset, new_cluster,
}
use polaris_go.Balance.Cluster.Matching.{
  has_key, bears, IsDistinct, str_eq→≡, has_key-put, bears-put, put-added, put-IsDistinct,
  accepted_cong, Accepts,
}
use polaris_go.Balance.Cluster.Pairs.{
  names, allows, IsValid, match_metadata-Accepts, Accepts-match_metadata,
}

-- Keys and pairs of a list of pairs.
abbrev pub named : StrMap → Str → Bool
named [] j = false
named ((k, v) ∷ ps) j = str_eq k j || named ps j

abbrev pub paired : StrMap → Str → Str → Bool
paired [] j w = false
paired ((k, v) ∷ ps) j w = (str_eq k j && str_eq v w) || paired ps j w

-- A cluster stands for the pairs of a list.
pub record Means (c : Cluster) (ps : StrMap) : Type 0 where
  pub valid : IsValid c
  pub names_ones : (j : Str) → names c j ≡ named ps j
  pub allows_ones : (j w : Str) → allows c j w ≡ paired ps j w

nonempty : (ms : Metadata) (j : Str) → has_key ms j ≡ true → (length ms == 0) ≡ false
nonempty [] j h = cc
nonempty (m ∷ ms) j h = ground arith

-- A write into the map of a cluster that has at least two pairs afterwards.
inserted_count :
    (c : Cluster) (k v d : Str)
    → (c.meta_count == 0) ≡ false
    → (ltb 1 c.meta_count || not (bears c.metadata k v)) ≡ true
    → ltb (insert_metadata c k v d).0.meta_count 2 ≡ false
unfolding insert_metadata
inserted_count c k v d n h =
    let a = put-added c.metadata k v d in
    rw a (elim (Bool-cases (bears c.metadata k v)) [
      | inl e ↦ rw e (ground (arith, h, e))
      | inr e ↦ rw e (ground (arith, n))
    ])

many : (n : ℕ) → ltb n 2 ≡ false → ((n == 0) ≡ false) × ((n == 1) ≡ false)
many n h = (ground (arith, h), ground (arith, h))

insert-Means :
    (c : Cluster) (k v d : Str) (ps : StrMap)
    → IsDistinct c.metadata
    → (c.meta_count == 0) ≡ false
    → (ltb 1 c.meta_count || not (bears c.metadata k v)) ≡ true
    → ((j : Str) → has_key c.metadata j ≡ named ps j)
    → ((j w : Str) → bears c.metadata j w ≡ paired ps j w)
    → Means (insert_metadata c k v d).0 ((k, v) ∷ ps)
insert-Means c k v d ps distinct n h ns bs =
    let big = inserted_count c k v d n h in
    let (e, f) = many (insert_metadata c k v d).0.meta_count big in
    let ms = (put_value c.metadata k v d).0 in
    let p : (insert_metadata c k v d).0.metadata ≡ ms = unfold insert_metadata in refl in
    record {
      valid = record {
        distinct = rw p (put-IsDistinct c.metadata k v d distinct);
        used =
            rw (p, nonempty ms k (has_key-put c.metadata k v d k ∙ (rw (str_eq_refl k) refl)))
              (sym big);
      };
      names_ones = λ j. rw (e, f, p) (has_key-put c.metadata k v d j ∙ rw (ns j) refl);
      allows_ones = λ j w. rw (e, f, p) (bears-put c.metadata k v d j w ∙ rw (bs j w) refl);
    }

-- What a cluster of no pair, of one and of many names and allows.
no_pair :
    (c : Cluster) (ps : StrMap)
    → Means c ps
    → (c.meta_count == 0) ≡ true
    → ((j : Str) → named ps j ≡ false) × ((j w : Str) → paired ps j w ≡ false)
no_pair c ps m e = (
  λ j. (let h = m.names_ones j in ground (arith, h, e)),
  λ j w. (let h = m.allows_ones j w in ground (arith, h, e)),
)

one_pair_only :
    (c : Cluster) (ps : StrMap)
    → Means c ps
    → (c.meta_count == 0) ≡ false
    → (c.meta_count == 1) ≡ true
    → ((j : Str) → str_eq c.meta_key j ≡ named ps j)
      × ((j w : Str) → (str_eq c.meta_key j && str_eq c.meta_value w) ≡ paired ps j w)
one_pair_only c ps m e f =
    (λ j. sym (rw (e, f) refl) ∙ m.names_ones j, λ j w. sym (rw (e, f) refl) ∙ m.allows_ones j w)

abbrev first_map : Cluster → Metadata
first_map c = (c.meta_key, (c.meta_value, c.composed_value) ∷ []) ∷ []

-- The pair that is there already.
same_pair :
    (c : Cluster) (k v : Str) (ps : StrMap)
    → Means c ps
    → (c.meta_count == 0) ≡ false
    → (c.meta_count == 1) ≡ true
    → (str_eq c.meta_key k && str_eq c.meta_value v) ≡ true
    → Means c ((k, v) ∷ ps)
same_pair c k v ps m e f g =
    let (ns, bs) = one_pair_only c ps m e f in
    let p = sym (str_eq→≡ c.meta_key k (ground (arith, g))) in
    let q = sym (str_eq→≡ c.meta_value v (ground (arith, g))) in
    record {
      valid = m.valid;
      names_ones = λ j. m.names_ones j ∙ rw (p, ns j) (ground arith);
      allows_ones = λ j w. m.allows_ones j w ∙ rw (p, q, bs j w) (ground arith);
    }

second_pair :
    (c : Cluster) (k v d : Str) (ps : StrMap)
    → Means c ps
    → (c.meta_count == 0) ≡ false
    → (c.meta_count == 1) ≡ true
    → (str_eq c.meta_key k && str_eq c.meta_value v) ≡ false
    → Means (insert_metadata (record c { metadata = first_map c }) k v d).0 ((k, v) ∷ ps)
second_pair c k v d ps m e f g =
    let (ns, bs) = one_pair_only c ps m e f in
    insert-Means (record c { metadata = first_map c }) k v d ps (refl, tt) e (ground (arith, g))
      (λ j. (let h = ns j in ground (arith, h))) (λ j w. (let h = bs j w in ground (arith, h)))

pub rule_add-Means :
    (c : Cluster) (k v d : Str) (ps : StrMap)
    → Means c ps
    → Means (rule_add_metadata c k v d).0 ((k, v) ∷ ps)
unfolding rule_add_metadata
rule_add-Means c k v d ps m = elim (Bool-cases (c.meta_count == 0)) [
  | inl e ↦
      let (ns, bs) = no_pair c ps m e in
      rw e (record {
        valid = record { distinct = m.valid.distinct; used = m.valid.used ∙ ground (arith, e) };
        names_ones = λ j. (let h = ns j in ground (arith, h));
        allows_ones = λ j w. (let h = bs j w in ground (arith, h));
      })
  | inr e ↦ elim (Bool-cases (c.meta_count == 1)) [
    | inl f ↦ elim (Bool-cases (str_eq c.meta_key k && str_eq c.meta_value v)) [
      | inl g ↦ rw (e, f, g) (same_pair c k v ps m e f g)
      | inr g ↦ rw (e, f, g) (second_pair c k v d ps m e f g)
    ]
    | inr f ↦
        rw (e, f)
          (insert-Means c k v d ps m.valid.distinct e (ground (arith, e, f))
            (λ j. sym (rw (e, f) refl) ∙ m.names_ones j)
            (λ j w. sym (rw (e, f) refl) ∙ m.allows_ones j w))
  ]
]

pub reset-Means : (b : Bool) → Means (reset b) []
unfolding reset
reset-Means b = record {
  valid = record { distinct = tt; used = refl };
  names_ones = λ j. refl;
  allows_ones = λ j w. refl;
}

few : (n : ℕ) → (n == 0) ≡ false → ltb n 2 ≡ true → (n == 1) ≡ true
few n e h = ground (arith, e, h)

pub new_cluster-Means :
    (b : Bool) (c : Cluster) (ps : StrMap) → Means c ps → Means (new_cluster b c) ps
unfolding new_cluster
new_cluster-Means b c ps m = elim (Bool-cases (length c.metadata == 0)) [
  | inl e ↦ elim (Bool-cases (c.meta_count == 0)) [
    | inl f ↦
        (let (ns, bs) = no_pair c ps m f in
          rw (e, f)
            (record {
              valid = record { distinct = tt; used = refl };
              names_ones = λ j. sym (ns j);
              allows_ones = λ j w. sym (bs j w);
            }))
    | inr f ↦
        (let one = few c.meta_count f (sym m.valid.used ∙ e) in
          let (ns, bs) = one_pair_only c ps m f one in
          rw (e, f)
            (record {
              valid = record { distinct = tt; used = sym e ∙ m.valid.used };
              names_ones = λ j. rw (f, one) (ns j);
              allows_ones = λ j w. rw (f, one) (bs j w);
            }))
  ]
  | inr e ↦
      (let (f, g) = many c.meta_count (sym m.valid.used ∙ e) in
        rw e (record {
          valid = record { distinct = m.valid.distinct; used = m.valid.used };
          names_ones = λ j. rw (f, g) (sym (rw (f, g) refl) ∙ m.names_ones j);
          allows_ones = λ j w. rw (f, g) (sym (rw (f, g) refl) ∙ m.allows_ones j w);
        }))
]

abbrev with_key : Cluster → Str → Cluster
with_key c s = clear_cluster_value (record c { compose_meta_value = s })

with_key-Means : (c : Cluster) (s : Str) (ps : StrMap) → Means c ps → Means (with_key c s) ps
unfolding clear_cluster_value
with_key-Means c s ps m = record {
  valid = record { distinct = m.valid.distinct; used = m.valid.used };
  names_ones = m.names_ones;
  allows_ones = m.allows_ones;
}

pub reload-Means : (c : Cluster) (ps : StrMap) → Means c ps → Means (reload_compose_meta_value c) ps
unfolding reload_compose_meta_value set_compose_meta_value
reload-Means c ps m = elim (Bool-cases (c.meta_count == 0)) [
  | inl e ↦ rw e (with_key-Means c _ ps m)
  | inr e ↦ elim (Bool-cases (c.meta_count == 1)) [
    | inl f ↦ rw (e, f) (with_key-Means c _ ps m)
    | inr f ↦ elim (Bool-cases (total_length (all_composed c.metadata) == 0)) [
      | inl g ↦ rw (e, f, g) (with_key-Means c _ ps m)
      | inr g ↦ rw (e, f, g) (with_key-Means c _ ps m)
    ]
  ]
]

named-insert :
    (m ps : StrMap) (k v j : Str) → named (m ++ ((k, v) ∷ ps)) j ≡ named ((k, v) ∷ m ++ ps) j
named-insert [] ps k v j = refl
named-insert ((k', v') ∷ m) ps k v j = ground (arith, named-insert m ps k v j)

paired-insert :
    (m ps : StrMap) (k v j w : Str)
    → paired (m ++ ((k, v) ∷ ps)) j w ≡ paired ((k, v) ∷ m ++ ps) j w
paired-insert [] ps k v j w = refl
paired-insert ((k', v') ∷ m) ps k v j w = ground (arith, paired-insert m ps k v j w)

pub moved-Means :
    (c : Cluster) (m ps : StrMap) (k v : Str)
    → Means c (m ++ ((k, v) ∷ ps))
    → Means c ((k, v) ∷ m ++ ps)
moved-Means c m ps k v h = record {
  valid = h.valid;
  names_ones = λ j. h.names_ones j ∙ named-insert m ps k v j;
  allows_ones = λ j w. h.allows_ones j w ∙ paired-insert m ps k v j w;
}

-- What a cluster that stands for a list of pairs accepts.
pub Means-match :
    (c : Cluster) (ps : StrMap) (x : Instance)
    → Means c ps
    → (match_metadata c x ≡ true) ↔ Accepts (named ps) (paired ps) x.metadata
Means-match c ps x m = (
  λ h j n.
      sym (accepted_cong (lookup x.metadata j) _ _ (m.allows_ones j))
      ∙ match_metadata-Accepts c x h j (m.names_ones j ∙ n),
  λ a. Accepts-match_metadata c x m.valid (λ j n.
      accepted_cong (lookup x.metadata j) _ _ (m.allows_ones j) ∙ a j (sym (m.names_ones j) ∙ n)),
)
