-- ===== src/Worker/Encode.antt =====
-- crates/tell/src/worker/encode.rs: a chunk of a queue becomes a batch in the sender's buffer; and the
-- queued entries of crates/tell/src/types.rs.
pub mod RoundTrip
pub mod Encoders
use tell_rs.Prelude.{
  ℕ, ◌+◌, ◌-◌, ◌%◌, ◌^◌, Option, none, some, List, [], length, map, take, drop, Run, done, failed,
  pure, gets, modify, ◌>>=◌, ◌>>◌,
}
use tell_rs.Encoding.Helpers.{Panic, Write}
use tell_rs.Encoding.Batch.{SchemaType, event, log, metric, default_version, encode_batch_into}
use tell_rs.Encoding.Event.{EventType, EventParams, encode_event_data_into}
use tell_rs.Encoding.Log
use tell_rs.Encoding.Log.{LogLevel, LogEntryParams, encode_log_data_into}
use tell_rs.Encoding.Metric.{
  MetricType, Temporality, LabelParam, HistogramParams, MetricEntryParams, encode_metric_data_into,
}
use tell_rs.Worker.Defs.{Sender, W}

pub record QueuedEvent : Type 0 where
  pub event_type : EventType
  pub timestamp : ℕ
  pub device_id : List ℕ
  pub session_id : Option (List ℕ)
  pub event_name : Option (List ℕ)
  pub payload : Option (List ℕ)

pub record QueuedLog : Type 0 where
  pub level : LogLevel
  pub timestamp : ℕ
  pub session_id : Option (List ℕ)
  pub component : Option (List ℕ)
  pub service : Option (List ℕ)
  pub payload : Option (List ℕ)

-- A label is a key and a value.
pub record QueuedMetric : Type 0 where
  pub metric_type : MetricType
  pub timestamp : ℕ
  pub name : List ℕ
  pub value : ℕ
  pub labels : List (List ℕ × List ℕ)
  pub temporality : Temporality
  pub histogram : Option HistogramParams

-- An encoder that works on `data_buf`.
abbrev pub on_data : {A : Type 0} → Write A → W A
on_data m s = elim (m s.data_buf) [
  | done a out ↦ done a (record s { data_buf = out })
  | failed e out ↦ failed e (record s { data_buf = out })
]

-- An encoder that works on `batch_buf`.
abbrev pub on_batch : {A : Type 0} → Write A → W A
on_batch m s = elim (m s.batch_buf) [
  | done a out ↦ done a (record s { batch_buf = out })
  | failed e out ↦ failed e (record s { batch_buf = out })
]

-- `next_batch_id`
unfoldable pub next_batch_id : W ℕ
next_batch_id = do
  id ← gets (λ s. s.next_id)
  modify (λ s. record s { next_id = (s.next_id + 1) % 2 ^ 64 })
  pure id

-- `&buf[range]`
abbrev pub slice : List ℕ → ℕ × ℕ → List ℕ
slice buf range = take (range.1 - range.0) (drop range.0 buf)

-- `finish_batch`
unfoldable pub finish_batch : SchemaType → ℕ × ℕ → W Unit
finish_batch schema_type range = do
  modify (λ s. record s { batch_buf = [] })
  batch_id ← next_batch_id
  s ← gets (λ s. s)
  on_batch (
      encode_batch_into (record {
        api_key = s.api_key;
        schema_type = schema_type;
        version = default_version;
        batch_id = batch_id;
        data_bytes = slice s.data_buf range;
      }))

unfoldable pub event_params : Option (List ℕ) → QueuedEvent → EventParams
event_params service e = record {
  event_type = e.event_type;
  timestamp = e.timestamp;
  service = service;
  device_id = some e.device_id;
  session_id = e.session_id;
  event_name = e.event_name;
  payload = e.payload;
}

-- `encode_events`
unfoldable pub encode_events : List QueuedEvent → W Unit
encode_events chunk = do
  service ← gets (λ s. s.service)
  let params = map (event_params service) chunk
  modify (λ s. record s { data_buf = [] })
  range ← on_data (encode_event_data_into params)
  finish_batch event range

-- `Option::or`
abbrev pub or_else : Option (List ℕ) → Option (List ℕ) → Option (List ℕ)
or_else none other = other
or_else (some text) other = some text

unfoldable pub log_params : Option (List ℕ) → Option (List ℕ) → QueuedLog → LogEntryParams
log_params service source l = record {
  event_type = Log.log;
  session_id = l.session_id;
  level = l.level;
  timestamp = l.timestamp;
  source = or_else l.component source;
  service = or_else l.service service;
  payload = l.payload;
}

-- `encode_logs`
unfoldable pub encode_logs : List QueuedLog → W Unit
encode_logs chunk = do
  service ← gets (λ s. s.service)
  source ← gets (λ s. s.source)
  let params = map (log_params service source) chunk
  modify (λ s. record s { data_buf = [] })
  range ← on_data (encode_log_data_into params)
  finish_batch log range

abbrev pub label_param : List ℕ × List ℕ → LabelParam
label_param (key, value) = record { key = key; value = value }

unfoldable pub metric_params : Option (List ℕ) → Option (List ℕ) → QueuedMetric → MetricEntryParams
metric_params service source m = record {
  metric_type = m.metric_type;
  timestamp = m.timestamp;
  name = m.name;
  value = m.value;
  source = source;
  service = service;
  labels = map label_param m.labels;
  temporality = m.temporality;
  histogram = m.histogram;
  session_id = none;
}

-- `encode_metrics`
unfoldable pub encode_metrics : List QueuedMetric → W Unit
encode_metrics chunk = do
  service ← gets (λ s. s.service)
  source ← gets (λ s. s.source)
  let params = map (metric_params service source) chunk
  modify (λ s. record s { data_buf = [] })
  range ← on_data (encode_metric_data_into params)
  finish_batch metric range
