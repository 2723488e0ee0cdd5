-- ===== src/Encoding/Metric/Into.antt =====
-- `encode_metric_entry_into` of crates/tell-encoding/src/metric.rs writes the same bytes wherever it stands:
-- every position that it notes and every distance that it writes is counted from its own start.
use tell_rs.Prelude.{
  ℕ, zero, suc, ◌+◌, ◌*◌, ◌%◌, ◌≡◌, Option, none, some, List, [], ◌∷◌, length, ◌>>=◌, ◌>>◌, arith,
}
use tell_rs.Encoding.Helpers.{Write, patch_offset}
use tell_rs.Encoding.Helpers.Shift.{
  Shifts, AnyUnit, Later, Starts, neither, later, bind, pure-Shifts, patch-Shifts,
}
use tell_rs.Encoding.Helpers.Then.{shifting, then_position, then_extend, then_align, then_distance}
use tell_rs.Encoding.Vector.{reserve_slots, patch_slots}
use tell_rs.Encoding.Metric.{
  LabelParam, HistogramParams, MetricEntryParams, collect, label_table, encode_label, encode_labels,
  encode_bucket, encode_buckets, add_buckets, encode_histogram, labels_section, histogram_section,
  metric_sections, encode_metric_entry_into,
}

module _ (pre : List ℕ) where
  -- Lists of positions behind `pre`.
  pub data AllLater : List ℕ → List ℕ → Type 0 where
    no_more : AllLater [] []
    one_more :
        (x y : ℕ) (xs ys : List ℕ) → Later pre x y → AllLater xs ys → AllLater (x ∷ xs) (y ∷ ys)

  reserve_slots-Shifts : (n : ℕ) → Shifts pre (AnyUnit pre) (reserve_slots n) (reserve_slots n)
  unfolding reserve_slots
  reserve_slots-Shifts zero = search shifting
  reserve_slots-Shifts (suc n) = search (shifting, reserve_slots-Shifts n)

  patch_slots-Shifts :
      (x y i : ℕ) {ps qs : List ℕ}
      → Later pre x y
      → AllLater ps qs
      → Shifts pre (AnyUnit pre) (patch_slots x i ps) (patch_slots y i qs)
  unfolding patch_slots
  patch_slots-Shifts x y i e no_more = pure-Shifts pre tt tt tt
  patch_slots-Shifts x y i e (one_more p q ps qs f h) =
      bind pre (patch-Shifts pre (x + i * 4) (y + i * 4) p q (omega arith) f)
        (λ _ _ _. patch_slots-Shifts x y (suc i) e h)

  module _ {A : Type 0} (each : A → Write ℕ)
      (each-Shifts : (a : A) → Shifts pre (Later pre) (each a) (each a)) where
    collect-Shifts : (xs : List A) → Shifts pre AllLater (collect each xs) (collect each xs)
    unfolding collect
    collect-Shifts [] = pure-Shifts pre [] [] no_more
    collect-Shifts (x ∷ xs) = bind pre (each-Shifts x) (λ p q e.
        bind pre (collect-Shifts xs)
          (λ ps qs f. pure-Shifts pre (p ∷ ps) (q ∷ qs) (one_more p q ps qs e f)))

  module _ {B : Type 0} {S : B → B → Type 0} where
    then_slots :
        {m m' : Write B} (n : ℕ)
        → Shifts pre S m m'
        → Shifts pre S (reserve_slots n >> m) (reserve_slots n >> m')
    then_slots n h = bind pre (reserve_slots-Shifts n) (λ _ _ _. h)

    then_patch_slots :
        {m m' : Write B} (x y : ℕ) (ps qs : List ℕ)
        → Later pre x y
        → AllLater ps qs
        → Shifts pre S m m'
        → Shifts pre S (patch_slots x 0 ps >> m) (patch_slots y 0 qs >> m')
    then_patch_slots x y ps qs e f h = bind pre (patch_slots-Shifts x y 0 e f) (λ _ _ _. h)

    then_patch :
        {m m' : Write B} (x y t u : ℕ)
        → Later pre x y
        → Later pre t u
        → Shifts pre S m m'
        → Shifts pre S (patch_offset x t >> m) (patch_offset y u >> m')
    then_patch x y t u e f h = bind pre (patch-Shifts pre x y t u e f) (λ _ _ _. h)

    module _ {A : Type 0} (each : A → Write ℕ)
        (each-Shifts : (a : A) → Shifts pre (Later pre) (each a) (each a)) where
      then_collect :
          {k k' : List ℕ → Write B} (xs : List A)
          → ((ps qs : List ℕ) → AllLater ps qs → Shifts pre S (k ps) (k' qs))
          → Shifts pre S (collect each xs >>= k) (collect each xs >>= k')
      then_collect xs h = bind pre (collect-Shifts each each-Shifts xs) h

  module _ (aligned : length pre % 4 ≡ 0) where
    label_table-Shifts :
        (label : LabelParam) → Shifts pre (Later pre) (label_table label) (label_table label)
    unfolding label_table
    label_table-Shifts label = search (then_patch, shifting) depth 40

    pub encode_label-Shifts :
        (label : LabelParam) → Shifts pre (Later pre) (encode_label label) (encode_label label)
    unfolding encode_label
    encode_label-Shifts label = search (label_table-Shifts label, then_align)

    pub encode_labels-Shifts :
        (labels : List LabelParam)
        → Shifts pre (Later pre) (encode_labels labels) (encode_labels labels)
    unfolding encode_labels
    encode_labels-Shifts labels =
        search
          (then_slots, then_patch_slots, then_collect encode_label encode_label-Shifts, shifting)
          depth 40

    pub encode_bucket-Shifts :
        (bucket : ℕ × ℕ) → Shifts pre (Later pre) (encode_bucket bucket) (encode_bucket bucket)
    unfolding encode_bucket
    encode_bucket-Shifts (upper_bound, count) = search shifting depth 40

    encode_buckets-Shifts :
        (buckets : List (ℕ × ℕ))
        → Shifts pre (Later pre) (encode_buckets buckets) (encode_buckets buckets)
    unfolding encode_buckets
    encode_buckets-Shifts buckets =
        search
          (then_slots, then_patch_slots, then_collect encode_bucket encode_bucket-Shifts, shifting)
          depth 40

    add_buckets-Shifts :
        (x y : ℕ) (buckets : List (ℕ × ℕ))
        → Later pre x y
        → Shifts pre (AnyUnit pre) (add_buckets x buckets) (add_buckets y buckets)
    unfolding add_buckets
    add_buckets-Shifts x y [] e = pure-Shifts pre tt tt tt
    add_buckets-Shifts x y (bucket ∷ buckets) e =
        bind pre (encode_buckets-Shifts (bucket ∷ buckets)) (λ t u f. patch-Shifts pre x y t u e f)

    then_add_buckets :
        {B : Type 0} {S : B → B → Type 0} {m m' : Write B} (x y : ℕ) (buckets : List (ℕ × ℕ))
        → Later pre x y
        → Shifts pre S m m'
        → Shifts pre S (add_buckets x buckets >> m) (add_buckets y buckets >> m')
    then_add_buckets x y buckets e h = bind pre (add_buckets-Shifts x y buckets e) (λ _ _ _. h)

    pub encode_histogram-Shifts :
        (h : HistogramParams) → Shifts pre (Later pre) (encode_histogram h) (encode_histogram h)
    unfolding encode_histogram
    encode_histogram-Shifts h = search (then_add_buckets, shifting) depth 40

    labels_section-Shifts :
        (labels : List LabelParam)
        → Shifts pre (Starts pre) (labels_section labels) (labels_section labels)
    unfolding labels_section
    labels_section-Shifts [] = pure-Shifts pre none none neither
    labels_section-Shifts (label ∷ labels) =
        bind pre (encode_labels-Shifts (label ∷ labels))
          (λ x y e. pure-Shifts pre (some x) (some y) (later x y e))

    histogram_section-Shifts :
        (h : Option HistogramParams)
        → Shifts pre (Starts pre) (histogram_section h) (histogram_section h)
    unfolding histogram_section
    histogram_section-Shifts none = pure-Shifts pre none none neither
    histogram_section-Shifts (some h) =
        bind pre (encode_histogram-Shifts h)
          (λ x y e. pure-Shifts pre (some x) (some y) (later x y e))

    then_labels :
        {B : Type 0} {S : B → B → Type 0} {k k' : Option ℕ → Write B} (labels : List LabelParam)
        → ((x y : Option ℕ) → Starts pre x y → Shifts pre S (k x) (k' y))
        → Shifts pre S (labels_section labels >>= k) (labels_section labels >>= k')
    then_labels labels h = bind pre (labels_section-Shifts labels) h

    then_histogram :
        {B : Type 0} {S : B → B → Type 0} {k k' : Option ℕ → Write B} (o : Option HistogramParams)
        → ((x y : Option ℕ) → Starts pre x y → Shifts pre S (k x) (k' y))
        → Shifts pre S (histogram_section o >>= k) (histogram_section o >>= k')
    then_histogram o h = bind pre (histogram_section-Shifts o) h

    metric_sections-Shifts :
        (p : MetricEntryParams) (r r' t t' n n' o o' c c' l l' h h' s s' : ℕ)
        → Later pre r r'
        → Later pre t t'
        → Later pre n n'
        → Later pre o o'
        → Later pre c c'
        → Later pre l l'
        → Later pre h h'
        → Later pre s s'
        → Shifts pre
            (AnyUnit pre)
            (metric_sections p r t n o c l h s)
            (metric_sections p r' t' n' o' c' l' h' s')
    unfolding metric_sections
    metric_sections-Shifts p r r' t t' n n' o o' c c' l l' h h' s s' e1 e2 e3 e4 e5 e6 e7 e8 =
        search (then_labels, then_histogram, then_patch, shifting) depth 40

    pub encode_metric_entry_into-Shifts :
        (p : MetricEntryParams)
        → Shifts pre (AnyUnit pre) (encode_metric_entry_into p) (encode_metric_entry_into p)
    unfolding encode_metric_entry_into
    encode_metric_entry_into-Shifts p =
        search (metric_sections-Shifts p, then_position, then_extend, then_distance) depth 60
