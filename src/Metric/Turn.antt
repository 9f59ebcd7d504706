-- ===== src/Metric/Turn.antt =====
-- One turn of the sliced window of pkg/metric: the buckets that are in place for it, and what an
-- update does to them.
use mathlib.Core.Path.{subst}
use native.Mathlib.Nat.{div-add-mod, mod-lt, sub-zero}
use native.Mathlib.Decide.{dec_lt, ℕ_discrete}
use polaris_go.Base.{
  ℕ, suc, ◌+◌, ◌-◌, ◌*◌, ◌/◌, ◌%◌, ◌≤◌, ◌<◌, ◌≡◌, ◌≢◌, refl, ap, ◌∙◌, sym, ◌&&◌, some, List, [],
  ◌∷◌, length, get_or, set, if◌then◌else◌, ◌==◌, ==_iff, Bool-cases, inl, inr, length-set,
  get_or-set_self, get_or-set_ne, arith,
}
use polaris_go.Base.Int.{i64_mod}
use polaris_go.Metric.{
  Bucket, no_bucket, SliceWindow, get_metric, add_metric, calc_bucket_index, calc_start_time,
  lookup_and_create, on_metrics, get_buckets,
}
use polaris_go.Metric.Laws.{IsValid, Query, covers, share, shares, shares-set}

-- One value added to a dimension at a time.
pub record Entry : Type 0 where
  pub time : ℕ
  pub dimension : ℕ
  pub value : ℕ

unfoldable pub add_entry : ℕ → SliceWindow → Entry → SliceWindow
add_entry now s e =
    lookup_and_create s now e.time (on_metrics (λ m. add_metric m e.dimension e.value))

unfoldable pub add_all : ℕ → SliceWindow → List Entry → SliceWindow
add_all now s [] = s
add_all now s (e ∷ es) = add_all now (add_entry now s e) es

-- The sum over the log: the entries of the dimension whose bucket the query covers.
unfoldable pub log_sum : SliceWindow → Query → List Entry → ℕ
log_sum s q [] = 0
log_sum s q (e ∷ es) =
    (if covers s q (calc_start_time s e.time) && (e.dimension == q.dimension) then e.value else 0)
    + log_sum s q es

-- The entry falls into the turn of the window that begins with period `first`, and its dimension is
-- one of the window's.
abbrev pub InTurn : SliceWindow → ℕ → Entry → Type 0
InTurn s first e =
    (first ≤ e.time / s.bucket_interval_milli)
    × (e.time / s.bucket_interval_milli < first + s.bucket_count)
    × (e.dimension < s.metric_size)

-- The buckets of one turn, all made for it.
pub record IsTurn (s : SliceWindow) (first : ℕ) (bs : List Bucket) : Type 0 where
  pub size : length bs ≡ s.bucket_count
  pub starts :
      (p : ℕ)
      → first ≤ p
      → p < first + s.bucket_count
      → (get_or bs (p % s.bucket_count) no_bucket).start_time ≡ s.bucket_interval_milli * p
  pub dims :
      (p : ℕ)
      → first ≤ p
      → p < first + s.bucket_count
      → length (get_or bs (p % s.bucket_count) no_bucket).metrics ≡ s.metric_size

mul_mono : (c a b : ℕ) → a ≤ b → c * a ≤ c * b
mul_mono c a b h = grind arith

pub mod_ne : (c i j : ℕ) → i < j → j < i + c → i % c ≢ j % c
mod_ne c i j h k e = elim (dec_lt (i / c) (j / c)) [
  | yes p ↦
      absurd
        (omega (arith, div-add-mod i c, div-add-mod j c, e, mul_mono c (suc (i / c)) (j / c) p))
  | no p ↦
      absurd (
        omega
          (arith, div-add-mod i c, div-add-mod j c, e, mul_mono c (j / c) (i / c) (omega arith)))
]

pub index-period :
    {s : SliceWindow} (v : IsValid s) (time : ℕ)
    → calc_bucket_index s time ≡ (time / s.bucket_interval_milli) % s.bucket_count
unfolding calc_bucket_index
index-period {s} v time =
    ap (λ (o : ℕ). ((time - o) / s.bucket_interval_milli) % s.bucket_count) (v.origin)
    ∙ ap (λ (t : ℕ). (t / s.bucket_interval_milli) % s.bucket_count) (omega arith)

pub start-period :
    {s : SliceWindow} (v : IsValid s) (time : ℕ)
    → calc_start_time s time ≡ s.bucket_interval_milli * (time / s.bucket_interval_milli)
unfolding calc_start_time
start-period {s} v time =
    ap (λ (o : ℕ). o + (time - o - (time - o) % s.bucket_interval_milli)) (v.origin)
    ∙ rw sub-zero (omega (arith, div-add-mod time s.bucket_interval_milli))

get-add_metric :
    (m : List ℕ) (d d' v : ℕ)
    → d < length m
    → get_metric (add_metric m d v) d'
      ≡ (if d == d' then (get_metric m d + v) % i64_mod else get_metric m d')
unfolding get_metric add_metric
get-add_metric m d d' v h = elim (Bool-cases (d == d')) [
  | inl e ↦
      let same = (==_iff d d').0 e in
      rw (e, ← same, get_or-set_self m d ((get_or m d 0 + v) % i64_mod) 0 h)
  | inr e ↦ rw (
    e,
    get_or-set_ne m {i = d} {j = d'} ((get_or m d 0 + v) % i64_mod) 0
        (λ same. ground (arith, ==_iff d d')),
  )
]

-- Adding to a bucket that is there changes its share by what the query counts of the entry.
share-add :
    (s : SliceWindow) (q : Query) (b : Bucket) (d v : ℕ)
    → d < length b.metrics
    → share s q (on_metrics (λ m. add_metric m d v) b) % i64_mod
      ≡ (share s q b + (if covers s q b.start_time && (d == q.dimension) then v else 0)) % i64_mod
unfolding share
share-add s q b d v h =
    ground (arith, get-add_metric b.metrics d q.dimension v h, ==_iff d q.dimension)

-- What one entry does to the buckets of a turn.
pub record Added (s : SliceWindow) (q : Query) (first : ℕ) (e : Entry) (bs bs' : List Bucket)
    : Type 0 where
  pub turn : IsTurn s first bs'
  pub sum :
      shares s q bs' % i64_mod
      ≡ (shares s q bs
          + (if covers s q (calc_start_time s e.time) && (e.dimension == q.dimension)
              then e.value
              else 0))
        % i64_mod

-- The buckets after an entry of the turn.
abbrev pub after : SliceWindow → List Bucket → Entry → List Bucket
after s bs e =
    let i = calc_bucket_index s e.time in
    set bs i (on_metrics (λ m. add_metric m e.dimension e.value) (get_or bs i no_bucket))

pub add_entry-after :
    (now : ℕ) (s : SliceWindow) (bs : List Bucket) (first : ℕ) (e : Entry)
    → IsValid s
    → get_buckets s now ≡ bs
    → IsTurn s first bs
    → InTurn s first e
    → add_entry now s e ≡ record s { buckets = some (after s bs e) }
unfolding add_entry lookup_and_create
add_entry-after now s bs first e v made t (lo, hi, dim) =
    let p = e.time / s.bucket_interval_milli in
    let current : (get_or bs (calc_bucket_index s e.time) no_bucket).start_time
        ≡ calc_start_time s e.time =
      ap (λ i. (get_or bs i no_bucket).start_time) (index-period v e.time)
      ∙ t.starts p lo hi
      ∙ sym (start-period v e.time) in
    rw (made, (==_iff _ _).1 current)

module _ (s : SliceWindow) (q : Query) (bs : List Bucket) (first : ℕ) (e : Entry) (v : IsValid s)
    (t : IsTurn s first bs) (h : InTurn s first e) where
  index_lt : calc_bucket_index s e.time < length bs
  unfolding calc_bucket_index
  index_lt = omega (
    arith,
    t.size,
    mod-lt ((e.time - s.window_start_time_milli) / s.bucket_interval_milli) (v.count_pos),
  )

  old_start :
      (get_or bs (calc_bucket_index s e.time) no_bucket).start_time ≡ calc_start_time s e.time
  old_start =
      ap (λ i. (get_or bs i no_bucket).start_time) (index-period v e.time)
      ∙ t.starts (e.time / s.bucket_interval_milli) h.0 h.1
      ∙ sym (start-period v e.time)

  old_dims : length (get_or bs (calc_bucket_index s e.time) no_bucket).metrics ≡ s.metric_size
  old_dims =
      ap (λ i. length (get_or bs i no_bucket).metrics) (index-period v e.time)
      ∙ t.dims (e.time / s.bucket_interval_milli) h.0 h.1

  -- A bucket keeps its start and its dimensions, whichever entry is written.
  after-bucket :
      (i : ℕ)
      → ((get_or (after s bs e) i no_bucket).start_time ≡ (get_or bs i no_bucket).start_time)
        × (length (get_or (after s bs e) i no_bucket).metrics
            ≡ length (get_or bs i no_bucket).metrics)
  unfolding add_metric
  after-bucket i = elim (ℕ_discrete (calc_bucket_index s e.time) i) [
    | yes same ↦
        rw
          (
            ← same,
            get_or-set_self bs (calc_bucket_index s e.time)
                (on_metrics (λ m. add_metric m e.dimension e.value)
                  (get_or bs (calc_bucket_index s e.time) no_bucket))
                no_bucket index_lt,
          )
          (
            refl,
            length-set (get_or bs (calc_bucket_index s e.time) no_bucket).metrics e.dimension _,
          )
    | no ne ↦
        rw
          (get_or-set_ne bs {i = calc_bucket_index s e.time} {j = i}
            (on_metrics (λ m. add_metric m e.dimension e.value)
              (get_or bs (calc_bucket_index s e.time) no_bucket))
            no_bucket ne)
          (refl, refl)
  ]

  gain :
      let b = get_or bs (calc_bucket_index s e.time) no_bucket in
      share s q (on_metrics (λ m. add_metric m e.dimension e.value) b) % i64_mod
      ≡ (share s q b
          + (if covers s q (calc_start_time s e.time) && (e.dimension == q.dimension)
              then e.value
              else 0))
        % i64_mod
  gain =
      let b = get_or bs (calc_bucket_index s e.time) no_bucket in
      subst
        (λ start.
          share s q (on_metrics (λ m. add_metric m e.dimension e.value) b) % i64_mod
          ≡ (share s q b
              + (if covers s q start && (e.dimension == q.dimension) then e.value else 0))
            % i64_mod)
        old_start (share-add s q b e.dimension e.value (rw old_dims (h.2)))

  pub after-Added : Added s q first e bs (after s bs e)
  after-Added = record {
    turn = record {
      size = length-set bs (calc_bucket_index s e.time) _ ∙ t.size;
      starts = λ p lo hi. (after-bucket (p % s.bucket_count)).0 ∙ t.starts p lo hi;
      dims = λ p lo hi. (after-bucket (p % s.bucket_count)).1 ∙ t.dims p lo hi;
    };
    sum = omega (
      arith,
      shares-set s q bs (calc_bucket_index s e.time)
          (on_metrics (λ m. add_metric m e.dimension e.value)
            (get_or bs (calc_bucket_index s e.time) no_bucket))
          index_lt,
      gain,
    );
  }
