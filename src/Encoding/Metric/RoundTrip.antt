-- ===== src/Encoding/Metric/RoundTrip.antt =====
-- A reader finds in a metric entry of crates/tell-encoding/src/metric.rs what was put into it, and in the
-- data of many entries each of them, in order.
use tell_rs.Prelude.{
  ℕ, ◌+◌, ◌%◌, ◌^◌, ◌<◌, ◌≤◌, ◌≡◌, refl, ap, sym, ◌∙◌, subst, some, List, ◌++◌, length,
  length-append, arith,
}
use tell_rs.Bytes.{le_bytes, from_le_bytes, from_le_bytes-u64}
use tell_rs.Encoding.Helpers.Fields.{section_read}
use tell_rs.Encoding.Reader.{field_at, word_at, scalar_field, vector_field, target_at}
use tell_rs.Encoding.Reader.Behind.{scalar_behind, vector_behind}
use tell_rs.Encoding.Metric.{MetricEntryParams, metric_type_as_u8, temporality_as_u8}
use tell_rs.Encoding.Metric.Image.{metric_head, filled}
use tell_rs.Encoding.Metric.Whole.{Image}
use tell_rs.Encoding.Metric.Read.{
  LabelsRead, HistogramRead, FitsOption, labels_found, histogram_found,
}

-- What a reader finds in the table at that position.
abbrev pub ReadsAt : ℕ → MetricEntryParams → List ℕ → Type 0
ReadsAt table p buf =
    (scalar_field 1 table 0 buf ≡ some (metric_type_as_u8 p.metric_type))
    × (scalar_field 8 table 1 buf ≡ some p.timestamp)
    × (vector_field table 2 buf ≡ some p.name)
    × (scalar_field 8 table 3 buf ≡ some p.value)
    × (vector_field table 4 buf ≡ p.source)
    × (vector_field table 5 buf ≡ p.service)
    × LabelsRead table p.labels buf
    × (scalar_field 1 table 7 buf ≡ some (temporality_as_u8 p.temporality))
    × HistogramRead table p.histogram buf
    × (vector_field table 9 buf ≡ p.session_id)

-- The numbers of an entry are u64, or the eight bytes of a float.
pub record FitsMetric (p : MetricEntryParams) : Type 0 where
  pub timestamp : p.timestamp < 2 ^ 64
  pub value : p.value < 2 ^ 64
  pub histogram : FitsOption p.histogram

module _ (p : MetricEntryParams) (out : List ℕ) (i : Image p out) where
  abbrev head : List ℕ
  head = metric_head p (filled i.a)

  pub Image-root : target_at 0 out ≡ 32
  unfolding le_bytes from_le_bytes
  Image-root = ap (target_at 0) i.whole

  pub Image-back : word_at 4 32 out ≤ 32
  unfolding le_bytes from_le_bytes
  Image-back = subst (λ out. word_at 4 32 out ≤ 32) (sym i.whole) (omega arith)

  pub Image-long : 84 ≤ length out
  unfolding le_bytes
  Image-long = omega (arith, ap length i.whole, length-append head i.t)

  module _ (small : length out < 2 ^ 32) (fits : FitsMetric p) where
    within : 84 + length i.t < 2 ^ 32
    unfolding le_bytes
    within = omega (arith, ap length i.whole, length-append head i.t)

    read_type : scalar_field 1 32 0 (head ++ i.t) ≡ some (metric_type_as_u8 p.metric_type)
    unfolding scalar_field field_at le_bytes from_le_bytes
    read_type = ap some (omega arith)

    read_time : scalar_field 8 32 1 (head ++ i.t) ≡ some p.timestamp
    unfolding scalar_field field_at le_bytes from_le_bytes
    read_time = ap some (from_le_bytes-u64 p.timestamp fits.timestamp)

    read_name : vector_field 32 2 (head ++ i.t) ≡ some p.name
    unfolding field_at le_bytes from_le_bytes
    read_name =
        section_read head i.t i.a.name (some p.name) 32 2 4 i.name within (omega arith)
          (omega arith) (omega arith) refl refl

    read_value : scalar_field 8 32 3 (head ++ i.t) ≡ some p.value
    unfolding scalar_field field_at le_bytes from_le_bytes
    read_value = ap some (from_le_bytes-u64 p.value fits.value)

    read_source : vector_field 32 4 (head ++ i.t) ≡ p.source
    unfolding field_at le_bytes from_le_bytes
    read_source =
        section_read head i.t i.a.source p.source 32 4 8 i.source within (omega arith) (omega arith)
          (omega arith) refl refl

    read_service : vector_field 32 5 (head ++ i.t) ≡ p.service
    unfolding field_at le_bytes from_le_bytes
    read_service =
        section_read head i.t i.a.service p.service 32 5 12 i.service within (omega arith)
          (omega arith) (omega arith) refl refl

    read_temporality : scalar_field 1 32 7 (head ++ i.t) ≡ some (temporality_as_u8 p.temporality)
    unfolding scalar_field field_at le_bytes from_le_bytes
    read_temporality = ap some (omega arith)

    read_session : vector_field 32 9 (head ++ i.t) ≡ p.session_id
    unfolding field_at le_bytes from_le_bytes
    read_session =
        section_read head i.t i.a.session p.session_id 32 9 28 i.session within (omega arith)
          (omega arith) (omega arith) refl refl

-- Wherever the entry stands.
pub Image-ReadsAt :
    (p : MetricEntryParams) (before out : List ℕ)
    → Image p out
    → length before % 4 ≡ 0
    → length (before ++ out) < 2 ^ 32
    → FitsMetric p
    → ReadsAt (length before + 32) p (before ++ out)
Image-ReadsAt p before out i by_four small fits =
    subst (λ out. ReadsAt (length before + 32) p (before ++ out)) (sym i.whole)
      (
        scalar_behind before buf 32 back 1 0 ∙ read_type p out i short fits,
        scalar_behind before buf 32 back 8 1 ∙ read_time p out i short fits,
        vector_behind before buf 32 back 2 ∙ read_name p out i short fits,
        scalar_behind before buf 32 back 8 3 ∙ read_value p out i short fits,
        vector_behind before buf 32 back 4 ∙ read_source p out i short fits,
        vector_behind before buf 32 back 5 ∙ read_service p out i short fits,
        labels_found p (filled i.a) before i.t by_four i.a.labels p.labels i.labels long,
        scalar_behind before buf 32 back 1 7 ∙ read_temporality p out i short fits,
        histogram_found p (filled i.a) before i.t by_four i.a.histogram p.histogram i.histogram
            fits.histogram long,
        vector_behind before buf 32 back 9 ∙ read_session p out i short fits,
      )
  where
    buf : List ℕ
    buf = metric_head p (filled i.a) ++ i.t

    back : word_at 4 32 buf ≤ 32
    back = subst (λ out. word_at 4 32 out ≤ 32) i.whole (Image-back p out i)

    short : length out < 2 ^ 32
    short = omega (arith, length-append before out)

    long : length (before ++ buf) < 2 ^ 32
    long = subst (λ out. length (before ++ out) < 2 ^ 32) i.whole small
