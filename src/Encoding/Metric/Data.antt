-- ===== src/Encoding/Metric/Data.antt =====
-- The encoders of metric entries of crates/tell-encoding/src/metric.rs return, write the same bytes wherever
-- an entry stands, and a reader finds the entries in them.
use tell_rs.Prelude.{
  ℕ, zero, ◌+◌, ◌%◌, ◌^◌, ◌<◌, ◌≤◌, ◌≡◌, refl, ap, sym, ◌∙◌, subst, List, [], ◌++◌, length, map,
  take, done, final, append_assoc, append-nil, arith, All, Succeeds,
}
use tell_rs.Bytes.{le_bytes, from_le_bytes}
use tell_rs.Encoding.Helpers.Sections.{Stands-append}
use tell_rs.Encoding.Helpers.Shift.{Moved-done}
use tell_rs.Encoding.Reader.{target_at}
use tell_rs.Encoding.Vector.{root_offset}
use tell_rs.Encoding.Vector.Same.{Places, root_offset_lem}
use tell_rs.Encoding.Vector.Total.{encode_data_into_lem}
use tell_rs.Encoding.Vector.RoundTrip.{ReadsAll, data_into_ReadsAll}
use tell_rs.Encoding.Metric.{
  MetricEntryParams, encode_metric_entry, encode_metric_entry_into, encode_metric_data,
  encode_metric_data_into,
}
use tell_rs.Encoding.Metric.Into.{encode_metric_entry_into-Shifts}
use tell_rs.Encoding.Metric.Image.{metric_head, filled, LabelsStand-append, HistogramStands-append}
use tell_rs.Encoding.Metric.Whole.{Image, metric-Image}
use tell_rs.Encoding.Metric.RoundTrip.{ReadsAt, FitsMetric, Image-ReadsAt, Image-root, Image-long}

-- encode_metric_entry does not panic and gives 84 bytes or more; in a buffer whose length is a
-- multiple of four, encode_metric_entry_into puts exactly these bytes behind what is there.
pub encode_metric_entry_into_lem :
    (p : MetricEntryParams) (buf : List ℕ)
    → length buf % 4 ≡ 0
    → Succeeds
        (encode_metric_entry p)
        (λ _ out. (84 ≤ length out) × (encode_metric_entry_into p buf ≡ done tt (buf ++ out)))
unfolding encode_metric_entry
encode_metric_entry_into_lem p buf aligned =
    let (out, e, i) = metric-Image p in
    (
      tt,
      out,
      e,
      (
        Image-long p out i,
        ap (encode_metric_entry_into p) (sym (append-nil buf))
            ∙ Moved-done buf out (encode_metric_entry_into p (buf ++ []))
                (encode_metric_entry_into p [])
                ((encode_metric_entry_into-Shifts buf aligned p).on_any []) e,
      ),
    )

-- The bytes of one entry.
abbrev pub metric_bytes : MetricEntryParams → List ℕ
metric_bytes p = final (encode_metric_entry p)

metric_bytes-Image : (p : MetricEntryParams) → Image p (metric_bytes p)
metric_bytes-Image p = let (out, e, i) = metric-Image p in subst (Image p) (sym (ap final e)) i

pub encode_metric_entry-Places : Places encode_metric_entry_into metric_bytes
encode_metric_entry-Places p buf aligned = placed (encode_metric_entry_into_lem p buf aligned)
  where
    placed :
        Succeeds
          (encode_metric_entry p)
          (λ _ out. (84 ≤ length out) × (encode_metric_entry_into p buf ≡ done tt (buf ++ out)))
        → (4 ≤ length (metric_bytes p))
          × (encode_metric_entry_into p buf ≡ done tt (buf ++ metric_bytes p))
    placed (_, out, e, (long, puts)) = (
      omega (arith, ap (λ r. length (final r)) e),
      puts ∙ ap (λ r. done tt (buf ++ final r)) (sym e),
    )

-- In an empty buffer, encode_metric_data_into gives the bytes that encode_metric_data gives for the
-- separately encoded entries, and returns the whole buffer as their range; neither panics.
pub encode_metric_data_into_lem :
    (entries : List MetricEntryParams)
    → Succeeds
        (encode_metric_data (map metric_bytes entries))
        (λ _ out. encode_metric_data_into entries [] ≡ done (zero, length out) out)
encode_metric_data_into_lem =
    encode_data_into_lem encode_metric_entry_into metric_bytes encode_metric_entry-Places

-- In the bytes that encode_metric_entry gives, if they are below 4 GiB and every number of the
-- entry fits in 64 bits, a reader of the format finds the type, the timestamp, the name, the value,
-- the source, the service, each label with its key and value in order, the temporality, the
-- histogram with its count, sum, buckets in order, minimum and maximum, and the session, or no such
-- field where the entry has none.
pub metric_entry_round_trip :
    (p : MetricEntryParams) (out : List ℕ)
    → encode_metric_entry p ≡ done tt out
    → length out < 2 ^ 32
    → FitsMetric p
    → ReadsAt (target_at 0 out) p out
metric_entry_round_trip p out e small fits =
    let (out', e', i') = metric-Image p in
    let i : Image p out = subst (Image p) (same out' e') i' in
    subst (λ (table : ℕ). ReadsAt table p out) (sym (Image-root p out i))
      (Image-ReadsAt p [] out i refl small fits)
  where
    same : (out' : List ℕ) → encode_metric_entry p ≡ done tt out' → out' ≡ out
    same out' e' = cc (e, e')

Image-append :
    {p : MetricEntryParams} {out : List ℕ} (more : List ℕ) → Image p out → Image p (out ++ more)
Image-append {p} more i = record {
  a = i.a;
  t = i.t ++ more;
  whole = ap (λ out. out ++ more) i.whole ∙ append_assoc (metric_head p (filled i.a)) i.t more;
  name = Stands-append more i.name;
  source = Stands-append more i.source;
  service = Stands-append more i.service;
  session = Stands-append more i.session;
  labels = LabelsStand-append more i.labels;
  histogram = HistogramStands-append more i.histogram;
}

metric-root : (p : MetricEntryParams) → root_offset (metric_bytes p) ≡ 32
unfolding le_bytes from_le_bytes
metric-root p =
    root_offset_lem (metric_bytes p) (encode_metric_entry-Places p [] refl).0
    ∙ ap (λ xs. from_le_bytes (take 4 xs)) (metric_bytes-Image p).whole

-- Wherever the entry stands.
metric_anywhere :
    (p : MetricEntryParams) (before after : List ℕ)
    → FitsMetric p
    → length before % 4 ≡ 0
    → length (before ++ (metric_bytes p ++ after)) < 2 ^ 32
    → ReadsAt (length before + root_offset (metric_bytes p)) p (before ++ (metric_bytes p ++ after))
metric_anywhere p before after fits by_four small =
    subst (λ (root : ℕ). ReadsAt (length before + root) p (before ++ (metric_bytes p ++ after)))
      (sym (metric-root p))
      (Image-ReadsAt p before (metric_bytes p ++ after) (Image-append after (metric_bytes-Image p))
        by_four small fits)

-- If encode_metric_data_into writes the entries into an empty buffer, the bytes stay below 4 GiB
-- and every number of the entries fits in 64 bits, then a reader of the format finds in the bytes a
-- vector with one table for each entry, in order, and in each table all the fields of the entry,
-- its labels and its histogram included.
pub metric_data_round_trip :
    (entries : List MetricEntryParams) (range : ℕ × ℕ) (out : List ℕ)
    → encode_metric_data_into entries [] ≡ done range out
    → All FitsMetric entries
    → length out < 2 ^ 32
    → ReadsAll ReadsAt entries out
metric_data_round_trip =
    data_into_ReadsAll encode_metric_entry_into metric_bytes encode_metric_entry-Places FitsMetric
      ReadsAt
      (λ p. omega (arith, metric-root p, Image-long p (metric_bytes p) (metric_bytes-Image p)))
      metric_anywhere
