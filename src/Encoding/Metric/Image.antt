-- ===== src/Encoding/Metric/Image.antt =====
-- What `encode_metric_entry` of crates/tell-encoding/src/metric.rs leaves: the table, and behind it the
-- strings, the session, the labels and the histogram.
use tell_rs.Prelude.{
  ℕ, ◌+◌, ◌%◌, ◌≡◌, ap, ap₂, sym, ◌∙◌, if◌then◌else◌, Option, none, some, List, [], ◌∷◌, ◌++◌,
  length, map, replicate, done, running, append_assoc, append-nil, length-append, arith,
}
use tell_rs.Bytes.{le_bytes}
use tell_rs.Encoding.Helpers.{is_some}
use tell_rs.Encoding.Helpers.Fields.{distance}
use tell_rs.Encoding.Vector.Whole.{vector_bytes}
use tell_rs.Encoding.Metric.{
  LabelParam, HistogramParams, MetricEntryParams, metric_type_as_u8, temporality_as_u8, is_empty,
  labels_section, histogram_section,
}
use tell_rs.Encoding.Metric.Label.{label_entry}
use tell_rs.Encoding.Metric.Labels.{encode_labels_lem}
use tell_rs.Encoding.Metric.Histogram.{histogram_bytes, gap, encode_histogram_lem}

-- The words of the table that are filled in at the end.
pub record Words : Type 0 where
  pub root : ℕ
  pub name : ℕ
  pub source : ℕ
  pub service : ℕ
  pub labels : ℕ
  pub histogram : ℕ
  pub session : ℕ

-- The first 84 bytes.
abbrev pub metric_head : MetricEntryParams → Words → List ℕ
metric_head p w =
    le_bytes 4 w.root
    ++ le_bytes 2 26
    ++ le_bytes 2 52
    ++ le_bytes 2 48
    ++ le_bytes 2 32
    ++ le_bytes 2 4
    ++ le_bytes 2 40
    ++ le_bytes 2 (if is_some p.source then 8 else 0)
    ++ le_bytes 2 (if is_some p.service then 12 else 0)
    ++ le_bytes 2 (if is_empty p.labels then 0 else 16)
    ++ le_bytes 2 49
    ++ le_bytes 2 (if is_some p.histogram then 24 else 0)
    ++ le_bytes 2 (if is_some p.session_id then 28 else 0)
    ++ le_bytes 2 0
    ++ replicate 2 0
    ++ le_bytes 4 28
    ++ le_bytes 4 w.name
    ++ le_bytes 4 w.source
    ++ le_bytes 4 w.service
    ++ le_bytes 4 w.labels
    ++ le_bytes 4 0
    ++ le_bytes 4 w.histogram
    ++ le_bytes 4 w.session
    ++ le_bytes 8 p.timestamp
    ++ le_bytes 8 p.value
    ++ metric_type_as_u8 p.metric_type ∷ []
    ++ temporality_as_u8 p.temporality ∷ []
    ++ replicate 2 0

abbrev pub unfilled : Words
unfilled = record {
  root = 0;
  name = 0;
  source = 0;
  service = 0;
  labels = 0;
  histogram = 0;
  session = 0;
}

-- Where the sections stand.
pub record Places : Type 0 where
  pub name : Option ℕ
  pub source : Option ℕ
  pub service : Option ℕ
  pub session : Option ℕ
  pub labels : Option ℕ
  pub histogram : Option ℕ

abbrev pub filled : Places → Words
filled a = record {
  root = 32;
  name = distance a.name 36;
  source = distance a.source 40;
  service = distance a.service 44;
  labels = distance a.labels 48;
  histogram = distance a.histogram 56;
  session = distance a.session 60;
}

-- The vector of labels in the bytes `t` behind a head of `size` bytes.
pub data LabelsStand (size : ℕ) (t : List ℕ) : Option ℕ → List LabelParam → Type 0 where
  no_labels : LabelsStand size t none []
  labels_at :
      (before after : List ℕ) (label : LabelParam) (labels : List LabelParam)
      → t
        ≡ before
          ++ (vector_bytes (size + length before) (map label_entry (label ∷ labels)) ++ after)
      → (size + length before) % 4 ≡ 0
      → LabelsStand size t (some (size + length before)) (label ∷ labels)

pub data HistogramStands (size : ℕ) (t : List ℕ) : Option ℕ → Option HistogramParams → Type 0 where
  no_histogram : HistogramStands size t none none
  histogram_at :
      (before after : List ℕ) (h : HistogramParams)
      → t ≡ before ++ (histogram_bytes (size + length before) h ++ after)
      → HistogramStands size t
          (some (size + length before + 14 + gap (size + length before)))
          (some h)

regrouped :
    (t before bytes after more : List ℕ)
    → t ≡ before ++ (bytes ++ after)
    → t ++ more ≡ before ++ (bytes ++ (after ++ more))
regrouped t before bytes after more e =
    ap (λ xs. xs ++ more) e
    ∙ append_assoc before (bytes ++ after) more
    ∙ ap (λ xs. before ++ xs) (append_assoc bytes after more)

pub LabelsStand-append :
    {size : ℕ} {t : List ℕ} {o : Option ℕ} {labels : List LabelParam} (more : List ℕ)
    → LabelsStand size t o labels
    → LabelsStand size (t ++ more) o labels
LabelsStand-append more no_labels = no_labels
LabelsStand-append {size} {t} more (labels_at before after label labels e aligned) =
    labels_at before (after ++ more) label labels
      (regrouped t before (vector_bytes (size + length before) (map label_entry (label ∷ labels)))
        after more e)
      aligned

pub HistogramStands-append :
    {size : ℕ} {t : List ℕ} {o : Option ℕ} {h : Option HistogramParams} (more : List ℕ)
    → HistogramStands size t o h
    → HistogramStands size (t ++ more) o h
HistogramStands-append more no_histogram = no_histogram
HistogramStands-append {size} {t} more (histogram_at before after h e) =
    histogram_at before (after ++ more) h
      (regrouped t before (histogram_bytes (size + length before) h) after more e)

module _ (hd : List ℕ) where
  pub place_labels :
      (labels : List LabelParam) (t : List ℕ)
      → length (hd ++ t) % 4 ≡ 0
      → (start : Option ℕ) × (more : List ℕ) × (labels_section labels (hd ++ t)
          ≡ done start (hd ++ (t ++ more)))
        × LabelsStand (length hd) (t ++ more) start labels
  unfolding labels_section
  place_labels [] t aligned =
      (none, [], ap (λ xs. done none (hd ++ xs)) (sym (append-nil t)), no_labels)
  place_labels (label ∷ labels) t aligned = (
    some (length hd + length t),
    bytes,
    rw (running, encode_labels_lem (label ∷ labels) (hd ++ t) aligned)
        (ap₂ (λ (n : ℕ) xs. done (some n) xs) len
          (append_assoc hd t (vector_bytes (length (hd ++ t)) (map label_entry (label ∷ labels)))
            ∙ ap (λ (n : ℕ). hd ++ (t ++ vector_bytes n (map label_entry (label ∷ labels)))) len)),
    labels_at t [] label labels (ap (λ xs. t ++ xs) (sym (append-nil bytes))) (omega (arith, len)),
  )
    where
      len : length (hd ++ t) ≡ length hd + length t
      len = length-append hd t

      bytes : List ℕ
      bytes = vector_bytes (length hd + length t) (map label_entry (label ∷ labels))

  pub place_histogram :
      (h : Option HistogramParams) (t : List ℕ)
      → (start : Option ℕ) × (more : List ℕ) × (histogram_section h (hd ++ t)
          ≡ done start (hd ++ (t ++ more)))
        × HistogramStands (length hd) (t ++ more) start h
  unfolding histogram_section
  place_histogram none t =
      (none, [], ap (λ xs. done none (hd ++ xs)) (sym (append-nil t)), no_histogram)
  place_histogram (some h) t = (
    some (length hd + length t + 14 + gap (length hd + length t)),
    bytes,
    rw (running, encode_histogram_lem h (hd ++ t))
        (ap₂ (λ (n : ℕ) xs. done (some n) xs) (ap (λ (n : ℕ). n + 14 + gap n) len)
          (append_assoc hd t (histogram_bytes (length (hd ++ t)) h)
            ∙ ap (λ (n : ℕ). hd ++ (t ++ histogram_bytes n h)) len)),
    histogram_at t [] h (ap (λ xs. t ++ xs) (sym (append-nil bytes))),
  )
    where
      len : length (hd ++ t) ≡ length hd + length t
      len = length-append hd t

      bytes : List ℕ
      bytes = histogram_bytes (length hd + length t) h
