-- ===== src/Encoding/Metric.antt =====
-- crates/tell-encoding/src/metric.rs: the encoding of one metric entry, with its labels and its
-- histogram, and of a vector of entries, and the parameters in lib.rs. A float is the number whose
-- eight bytes `to_le_bytes` gives.
pub mod Into
pub mod Label
pub mod Collect
pub mod Labels
pub mod Buckets
pub mod Histogram
pub mod HistogramRead
pub mod Image
pub mod Whole
pub mod Read
pub mod RoundTrip
pub mod Data
mod Tests
use tell_rs.Prelude.{
  ℕ, ◌+◌, ◌-◌, ◌*◌, if◌then◌else◌, Option, none, some, Run, List, [], ◌∷◌, length, replicate, ◌>>=◌,
  ◌>>◌, pure, Bool, true, false,
}
use tell_rs.Bytes.{le_bytes}
use tell_rs.Encoding.Helpers.{
  Panic, Write, extend, position, write_u16, write_u32, write_u64, write_i32, align4,
  write_byte_vector, write_string, put_u32, patch_offset, optionally, patch_present, is_some,
}
use tell_rs.Encoding.Vector.{reserve_slots, patch_slots, encode_data, encode_data_into}

pub data MetricType : Type 0 where
  unknown gauge counter histogram : MetricType

-- `MetricType::as_u8`
unfoldable pub metric_type_as_u8 : MetricType → ℕ
metric_type_as_u8 unknown = 0
metric_type_as_u8 gauge = 1
metric_type_as_u8 counter = 2
metric_type_as_u8 histogram = 3

pub data Temporality : Type 0 where
  unspecified cumulative delta : Temporality

-- `Temporality::as_u8`
unfoldable pub temporality_as_u8 : Temporality → ℕ
temporality_as_u8 unspecified = 0
temporality_as_u8 cumulative = 1
temporality_as_u8 delta = 2

pub record LabelParam : Type 0 where
  pub key : List ℕ
  pub value : List ℕ

pub record HistogramParams : Type 0 where
  pub count : ℕ
  pub sum : ℕ
  pub min : ℕ
  pub max : ℕ
  pub buckets : List (ℕ × ℕ)

pub record MetricEntryParams : Type 0 where
  pub metric_type : MetricType
  pub timestamp : ℕ
  pub name : List ℕ
  pub value : ℕ
  pub source : Option (List ℕ)
  pub service : Option (List ℕ)
  pub labels : List LabelParam
  pub temporality : Temporality
  pub histogram : Option HistogramParams
  pub session_id : Option (List ℕ)

-- `write_f64`
abbrev pub write_f64 : ℕ → Write Unit
write_f64 bits = extend (le_bytes 8 bits)

abbrev pub is_empty : {A : Type 0} → List A → Bool
is_empty [] = true
is_empty (x ∷ xs) = false

-- A loop over a slice that collects the position which each round gives.
unfoldable pub collect : {A : Type 0} → (A → Write ℕ) → List A → Write (List ℕ)
collect each [] = pure []
collect each (x ∷ xs) = do pos ← each x; rest ← collect each xs; pure (pos ∷ rest)

-- One round of the loop of `encode_labels`, behind its padding: where the label's table stands.
unfoldable pub label_table : LabelParam → Write ℕ
label_table label = do
  vtable_start ← position
  write_u16 8
  write_u16 12
  write_u16 4
  write_u16 8
  table_start ← position
  write_i32 (table_start - vtable_start)
  key_off_pos ← position
  write_u32 0
  value_off_pos ← position
  write_u32 0
  align4
  key_start ← write_string label.key
  align4
  value_start ← write_string label.value
  patch_offset key_off_pos key_start
  patch_offset value_off_pos value_start
  pure table_start

-- One round of the loop of `encode_labels`
unfoldable pub encode_label : LabelParam → Write ℕ
encode_label label = do align4; label_table label

-- `encode_labels`
unfoldable pub encode_labels : List LabelParam → Write ℕ
encode_labels labels = do
  vec_start ← position
  write_u32 (length labels)
  offsets_start ← position
  reserve_slots (length labels)
  align4
  table_positions ← collect encode_label labels
  patch_slots offsets_start 0 table_positions
  pure vec_start

-- One round of the loop of `encode_buckets`
unfoldable pub encode_bucket : ℕ × ℕ → Write ℕ
encode_bucket (upper_bound, count) = do
  vtable_start ← position
  write_u16 8
  write_u16 20
  write_u16 4
  write_u16 12
  align4
  table_start ← position
  write_i32 (table_start - vtable_start)
  write_f64 upper_bound
  write_u64 count
  align4
  pure table_start

-- `encode_buckets`
unfoldable pub encode_buckets : List (ℕ × ℕ) → Write ℕ
encode_buckets buckets = do
  vec_start ← position
  write_u32 (length buckets)
  slots_start ← position
  reserve_slots (length buckets)
  align4
  offsets ← collect encode_bucket buckets
  patch_slots slots_start 0 offsets
  pure vec_start

-- The vector at the end of `encode_histogram`, if there are buckets.
unfoldable pub add_buckets : ℕ → List (ℕ × ℕ) → Write Unit
add_buckets buckets_off_pos [] = pure tt
add_buckets buckets_off_pos (bucket ∷ buckets) = do
  start ← encode_buckets (bucket ∷ buckets)
  patch_offset buckets_off_pos start

-- `encode_histogram`
unfoldable pub encode_histogram : HistogramParams → Write ℕ
encode_histogram h = do
  vtable_start ← position
  write_u16 14
  write_u16 40
  write_u16 4
  write_u16 12
  write_u16 (if is_empty h.buckets then 0 else 20)
  write_u16 24
  write_u16 32
  align4
  table_start ← position
  write_i32 (table_start - vtable_start)
  write_u64 h.count
  write_f64 h.sum
  buckets_off_pos ← position
  write_u32 0
  write_f64 h.min
  write_f64 h.max
  align4
  add_buckets buckets_off_pos h.buckets
  pure table_start

-- The vector of labels, if there are labels.
unfoldable pub labels_section : List LabelParam → Write (Option ℕ)
labels_section [] = pure none
labels_section (label ∷ labels) = do start ← encode_labels (label ∷ labels); pure (some start)

-- The table of the histogram, if there is one.
unfoldable pub histogram_section : Option HistogramParams → Write (Option ℕ)
histogram_section none = pure none
histogram_section (some h) = do start ← encode_histogram h; pure (some start)

-- `encode_metric_entry_into`, from the padding behind the table on: where the table's words for
-- the sections stand.
unfoldable pub metric_sections : MetricEntryParams → ℕ → ℕ → ℕ → ℕ → ℕ → ℕ → ℕ → ℕ → Write Unit
metric_sections params root_pos table_start name_off_pos source_off_pos service_off_pos
      labels_off_pos histogram_off_pos session_id_off_pos =
    do
      align4
      name_start ← write_string params.name
      align4
      source_start ← optionally params.source write_string
      align4
      service_start ← optionally params.service write_string
      align4
      session_id_start ← optionally params.session_id write_byte_vector
      align4
      labels_start ← labels_section params.labels
      histogram_start ← histogram_section params.histogram
      put_u32 root_pos (table_start - root_pos)
      patch_offset name_off_pos name_start
      patch_present source_off_pos source_start
      patch_present service_off_pos service_start
      patch_present session_id_off_pos session_id_start
      patch_present labels_off_pos labels_start
      patch_present histogram_off_pos histogram_start

-- `encode_metric_entry_into`
unfoldable pub encode_metric_entry_into : MetricEntryParams → Write Unit
encode_metric_entry_into params = do
  let vtable_size = 4 + 11 * 2
  let table_size : ℕ = 52
  root_pos ← position
  extend (replicate 4 0)
  vtable_start ← position
  write_u16 vtable_size
  write_u16 table_size
  write_u16 48
  write_u16 32
  write_u16 4
  write_u16 40
  write_u16 (if is_some params.source then 8 else 0)
  write_u16 (if is_some params.service then 12 else 0)
  write_u16 (if is_empty params.labels then 0 else 16)
  write_u16 49
  write_u16 (if is_some params.histogram then 24 else 0)
  write_u16 (if is_some params.session_id then 28 else 0)
  write_u16 0
  extend (replicate 2 0)
  table_start ← position
  write_i32 (table_start - vtable_start)
  name_off_pos ← position
  write_u32 0
  source_off_pos ← position
  write_u32 0
  service_off_pos ← position
  write_u32 0
  labels_off_pos ← position
  write_u32 0
  write_u32 0
  histogram_off_pos ← position
  write_u32 0
  session_id_off_pos ← position
  write_u32 0
  write_u64 params.timestamp
  write_f64 params.value
  extend (metric_type_as_u8 params.metric_type ∷ [])
  extend (temporality_as_u8 params.temporality ∷ [])
  extend (replicate 2 0)
  metric_sections params root_pos table_start name_off_pos source_off_pos service_off_pos
      labels_off_pos histogram_off_pos session_id_off_pos

-- `encode_metric_entry`
unfoldable pub encode_metric_entry : MetricEntryParams → Run Panic (List ℕ) Unit
encode_metric_entry params = encode_metric_entry_into params []

-- `encode_metric_data`
abbrev pub encode_metric_data : List (List ℕ) → Run Panic (List ℕ) Unit
encode_metric_data = encode_data

-- `encode_metric_data_into`
abbrev pub encode_metric_data_into : List MetricEntryParams → Write (ℕ × ℕ)
encode_metric_data_into = encode_data_into encode_metric_entry_into
