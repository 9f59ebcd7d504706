-- ===== src/Balance/Cluster/Composed.antt =====
-- The composed key of a cluster, pkg/model/cluster.go: the pairs can be read back from it.
use mathlib.Core.List.{Perm}
use mathlib.Core.List.Perm
use polaris_go.Base.{
  ℕ, ◌≡◌, refl, ap, ◌∙◌, false, List, [], ◌∷◌, ◌++◌, map, ◌==◌, if◌then◌else◌, length, All,
  Bool-cases, inl, inr, test_false, arith,
}
use polaris_go.Base.Text.{Str, split}
use polaris_go.Match.Lists.{join, Without, split-join}
use polaris_go.Balance.Cluster.{StrMap, Cluster}
use polaris_go.Balance.Cluster.Metadata.{
  build_composed_value, insert_sorted, is_less, sort_strings, join_values, set_compose_meta_value,
  total_length,
}

-- The key before the first colon of a composed value, and the value after it.
abbrev pub cut : Str → Str × Str
cut [] = ([], [])
cut (c ∷ s) = let (k, v) = cut s in if c == b':' then ([], s) else (c ∷ k, v)

-- The pairs of a composed key.
abbrev pub pairs_of : Str → StrMap
pairs_of s = map cut (split b',' s)

abbrev composed : Str × Str → Str
composed p = build_composed_value p.0 p.1

abbrev pub IsClean : Str × Str → Type 0
IsClean p = Without b':' p.0 × Without b',' p.0 × Without b',' p.1

cut-composed : (k v : Str) → Without b':' k → cut (build_composed_value k v) ≡ (k, v)
unfolding build_composed_value
cut-composed [] v h = refl
cut-composed (c ∷ k) v h = rw (test_false c b':' h.0, cut-composed k v h.1) refl

Without-append : (sep : ℕ) (s t : Str) → Without sep s → Without sep t → Without sep (s ++ t)
Without-append sep [] t h k = k
Without-append sep (c ∷ s) t h k = (h.0, Without-append sep s t h.1 k)

composed-Without :
    (k v : Str) → Without b',' k → Without b',' v → Without b',' (build_composed_value k v)
unfolding build_composed_value
composed-Without k v h g = Without-append b',' k (b':' ∷ v) h (omega arith, g)

join_values-join : (ts : List Str) → join_values ts ≡ join b',' ts
unfolding join_values
join_values-join [] = refl
join_values-join (t ∷ []) = refl
join_values-join (t ∷ u ∷ ts) = ap (λ s. t ++ (b',' ∷ s)) (join_values-join (u ∷ ts))

-- Sorting moves the pairs, and composes them as before.
record Sorted (ps : StrMap) (ts : List Str) : Type 0 where
  moved : StrMap
  same_texts : ts ≡ map composed moved
  permuted : Perm ps moved
  clean : All IsClean moved

insert-Sorted :
    (p : Str × Str) (qs : StrMap)
    → IsClean p
    → All IsClean qs
    → Sorted (p ∷ qs) (insert_sorted (composed p) (map composed qs))
unfolding insert_sorted
insert-Sorted p [] c cs = record {
  moved = p ∷ [];
  same_texts = refl;
  permuted = Perm.refl (p ∷ []);
  clean = (c, tt);
}
insert-Sorted p (q ∷ qs) c cs =
    let rest = insert-Sorted p qs c cs.1 in
    elim (Bool-cases (is_less (composed q) (composed p))) [
      | inl e ↦ rw e (record {
        moved = q ∷ rest.moved;
        same_texts = ap (λ ts. composed q ∷ ts) rest.same_texts;
        permuted = Perm.trans (Perm.swap q p qs) (Perm.cons q rest.permuted);
        clean = (cs.0, rest.clean);
      })
      | inr e ↦ rw e (record {
        moved = p ∷ q ∷ qs;
        same_texts = refl;
        permuted = Perm.refl (p ∷ q ∷ qs);
        clean = (c, cs);
      })
    ]

sort-Sorted : (ps : StrMap) → All IsClean ps → Sorted ps (sort_strings (map composed ps))
unfolding sort_strings
sort-Sorted [] cs = record { moved = []; same_texts = refl; permuted = Perm.refl []; clean = tt }
sort-Sorted (p ∷ ps) cs =
    let rest = sort-Sorted ps cs.1 in
    let next = insert-Sorted p rest.moved cs.0 rest.clean in
    record {
      moved = next.moved;
      same_texts = ap (insert_sorted (composed p)) rest.same_texts ∙ next.same_texts;
      permuted = Perm.trans (Perm.cons p rest.permuted) next.permuted;
      clean = next.clean;
    }

texts-Without : (ps : StrMap) → All IsClean ps → All (Without b',') (map composed ps)
texts-Without [] cs = tt
texts-Without (p ∷ ps) cs = (composed-Without p.0 p.1 cs.0.1 cs.0.2, texts-Without ps cs.1)

map-cut : (ps : StrMap) → All IsClean ps → map cut (map composed ps) ≡ ps
map-cut [] cs = refl
map-cut (p ∷ ps) cs = rw (cut-composed p.0 p.1 cs.0.0, map-cut ps cs.1) refl

pairs_of-join :
    (p : Str × Str) (ps : StrMap)
    → All IsClean (p ∷ ps)
    → pairs_of (join_values (map composed (p ∷ ps))) ≡ p ∷ ps
pairs_of-join p ps cs =
    ap pairs_of (join_values-join (map composed (p ∷ ps)))
    ∙ ap (map cut) (split-join b',' (composed p) (map composed ps) (texts-Without (p ∷ ps) cs))
    ∙ map-cut (p ∷ ps) cs

composed-length : (k v : Str) → (length (build_composed_value k v) == 0) ≡ false
unfolding build_composed_value
composed-length [] v = ground arith
composed-length (c ∷ k) v = ground arith

some_length : (p : Str × Str) (ps : StrMap) → (total_length (map composed (p ∷ ps)) == 0) ≡ false
some_length p ps = ground (arith, composed-length p.0 p.1)

moved-read :
    (p : Str × Str) (ps qs : StrMap)
    → Perm (p ∷ ps) qs
    → All IsClean qs
    → Perm (p ∷ ps) (pairs_of (join_values (map composed qs)))
moved-read p ps [] h cs = absurd (let e = Perm.eq-nil h in cc)
moved-read p ps (q ∷ qs) h cs = rw (pairs_of-join q qs cs) h

read_back :
    (p : Str × Str) (ps : StrMap) (ts : List Str)
    → Sorted (p ∷ ps) ts
    → Perm (p ∷ ps) (pairs_of (join_values ts))
read_back p ps ts s = rw s.same_texts (moved-read p ps s.moved s.permuted s.clean)

-- If there is a pair, no key has a colon and neither a key nor a value has a comma, then the pairs
-- can be read back, in some order, from the composed key that a cluster gets of them.
pub composed_key-read :
    (c : Cluster) (p : Str × Str) (ps : StrMap)
    → All IsClean (p ∷ ps)
    → let texts = map (λ (q : Str × Str). build_composed_value q.0 q.1) (p ∷ ps) in
      let key = (set_compose_meta_value c texts (total_length texts)).compose_meta_value in
      Perm (p ∷ ps) (pairs_of key)
composed_key-read c p ps cs =
    unfold set_compose_meta_value in
    rw (some_length p ps) (read_back p ps _ (sort-Sorted (p ∷ ps) cs))
