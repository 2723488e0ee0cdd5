-- ===== src/Encoding/Metric/Tests.antt =====
-- The encoders of crates/tell-encoding/src/metric.rs on concrete entries.
use tell_rs.Prelude.{
  ℕ, ◌^◌, ◌≡◌, refl, some, none, [], ◌∷◌, length, map, replicate, done, final, arith, Succeeds,
  List,
}
use tell_rs.Bytes.{le_bytes}
use tell_rs.Encoding.Helpers.{overwrite, pad_loop}
use tell_rs.Encoding.Reader.{target_at}
use tell_rs.Encoding.Vector.{reserve_slots, patch_slots, place_entries, encode_data_into, read_u32}
use tell_rs.Encoding.Vector.RoundTrip.{ReadsAll}
use tell_rs.Encoding.Metric.{
  MetricEntryParams, counter, histogram, delta, cumulative, encode_metric_entry,
  encode_metric_entry_into, encode_metric_data, encode_metric_data_into, metric_sections,
  labels_section, histogram_section, encode_labels, encode_label, label_table, encode_histogram,
  add_buckets, encode_buckets, encode_bucket, collect, metric_type_as_u8, temporality_as_u8,
}
use tell_rs.Encoding.Metric.RoundTrip.{ReadsAt, FitsMetric}
use tell_rs.Encoding.Metric.Data.{
  metric_bytes, encode_metric_data_into_lem, metric_entry_round_trip, metric_data_round_trip,
}

-- A counter with two labels, and a latency with a label and two buckets.
abbrev requests : MetricEntryParams
requests = record {
  metric_type = counter;
  timestamp = 2 ^ 40;
  name = b'r' ∷ b'e' ∷ b'q' ∷ [];
  value = 0x4008000000000000;
  source = some (b'a' ∷ []);
  service = none;
  labels =
      record { key = b'k' ∷ []; value = b'v' ∷ b'w' ∷ [] }
      ∷ record { key = b'm' ∷ b'n' ∷ b'o' ∷ b'p' ∷ []; value = [] }
      ∷ [];
  temporality = cumulative;
  histogram = none;
  session_id = none;
}

abbrev latency : MetricEntryParams
latency = record {
  metric_type = histogram;
  timestamp = 77;
  name = b'l' ∷ [];
  value = 0;
  source = none;
  service = some (b'w' ∷ b'e' ∷ b'b' ∷ []);
  labels = record { key = b'k' ∷ []; value = b'v' ∷ b'w' ∷ [] } ∷ [];
  temporality = delta;
  histogram = some (record {
    count = 3;
    sum = 0x4008000000000000;
    min = 0;
    max = 0x3ff0000000000000;
    buckets = (0x3ff0000000000000, 2) ∷ (0x7ff0000000000000, 3) ∷ [];
  });
  session_id = some (replicate 16 5);
}

requests_fit : FitsMetric requests
requests_fit = record { timestamp = omega arith; value = omega arith; histogram = tt }

latency_fit : FitsMetric latency
latency_fit = record {
  timestamp = omega arith;
  value = omega arith;
  histogram = record {
    count = omega arith;
    sum = omega arith;
    min = omega arith;
    max = omega arith;
    buckets = omega arith;
  };
}

encode_metric_data_into_lem_example :
    Succeeds
      (encode_metric_data (map metric_bytes (requests ∷ latency ∷ [])))
      (λ _ out. encode_metric_data_into (requests ∷ latency ∷ []) [] ≡ done (0, length out) out)
encode_metric_data_into_lem_example = encode_metric_data_into_lem (requests ∷ latency ∷ [])

latency_encoded : encode_metric_entry latency ≡ done tt (metric_bytes latency)
unfolding encode_metric_entry encode_metric_entry_into metric_sections labels_section
    histogram_section encode_labels encode_label label_table encode_histogram add_buckets
    encode_buckets encode_bucket collect reserve_slots patch_slots metric_type_as_u8
    temporality_as_u8 le_bytes overwrite pad_loop
latency_encoded = refl

metric_entry_round_trip_example :
    ReadsAt (target_at 0 (metric_bytes latency)) latency (metric_bytes latency)
unfolding encode_metric_entry encode_metric_entry_into metric_sections labels_section
    histogram_section encode_labels encode_label label_table encode_histogram add_buckets
    encode_buckets encode_bucket collect reserve_slots patch_slots metric_type_as_u8
    temporality_as_u8 le_bytes overwrite pad_loop
metric_entry_round_trip_example =
    metric_entry_round_trip latency (metric_bytes latency) latency_encoded (omega arith) latency_fit

abbrev two_metrics : List ℕ
two_metrics = final (encode_metric_data_into (requests ∷ latency ∷ []) [])

metric_data_round_trip_example : ReadsAll ReadsAt (requests ∷ latency ∷ []) two_metrics
unfolding encode_metric_entry encode_metric_entry_into metric_sections labels_section
    histogram_section encode_labels encode_label label_table encode_histogram add_buckets
    encode_buckets encode_bucket collect reserve_slots patch_slots metric_type_as_u8
    temporality_as_u8 le_bytes overwrite pad_loop encode_data_into place_entries read_u32
metric_data_round_trip_example =
    metric_data_round_trip (requests ∷ latency ∷ []) (0, length two_metrics) two_metrics refl
      (requests_fit, (latency_fit, tt)) (omega arith)
