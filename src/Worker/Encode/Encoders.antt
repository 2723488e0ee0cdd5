-- ===== src/Worker/Encode/Encoders.antt =====
-- The three encoders of crates/tell/src/worker/encode.rs as `flush_queue` and `save_queue` use them.
use tell_rs.Prelude.{ℕ, ◌^◌, ◌<◌, ◌≡◌, ap, sym, ◌∙◌, subst, List, length, map, All, Succeeds}
use tell_rs.Buffer.Frames.{Frame}
use tell_rs.Encoding.Helpers.{Write}
use tell_rs.Encoding.Batch.{SchemaType, event, log, metric}
use tell_rs.Encoding.Batch.RoundTrip.{envelope_size}
use tell_rs.Encoding.Vector.RoundTrip.{ReadsAll}
use tell_rs.Encoding.Event.{EventParams, encode_event_data_into}
use tell_rs.Encoding.Event.RoundTrip as Event
use tell_rs.Encoding.Log.{LogEntryParams, encode_log_data_into}
use tell_rs.Encoding.Log.RoundTrip as Log
use tell_rs.Encoding.Metric.{MetricEntryParams, encode_metric_data_into}
use tell_rs.Encoding.Metric.RoundTrip as Metric
use tell_rs.Encoding.Metric.RoundTrip.{FitsMetric}
use tell_rs.Worker.Defs.{Sender}
use tell_rs.Worker.Batches.{Config, IsReady, Encoder, encoded, IsEncoded}
use tell_rs.Worker.Encode.{
  QueuedEvent, QueuedLog, QueuedMetric, event_params, log_params, metric_params, encode_events,
  encode_logs, encode_metrics,
}
use tell_rs.Worker.Encode.RoundTrip.{
  data_of, BatchReads, BatchOf, encode_events_lem, encode_logs_lem, encode_metrics_lem,
}

finished :
    (schema_type : SchemaType) (key : List ℕ) (m : Write (ℕ × ℕ)) (R : List ℕ → Type 0)
    (s t : Sender)
    → BatchOf schema_type key m R s t
    → IsEncoded s t
      × (length t.batch_buf ≡ envelope_size (length (data_of m)))
      × (BatchReads schema_type key s.next_id (data_of m) t.batch_buf × R (data_of m))
finished schema_type key m R s t (same, (long, reads), holds) = (
  same ∙ ap (λ out. encoded s out t.batch_buf) (sym (ap (λ v. v.data_buf) same)),
  long,
  ((long, reads), holds),
)

event_same :
    (c : Config) (s : Sender) (chunk : List QueuedEvent)
    → IsReady c s
    → map (event_params s.service) chunk ≡ map (event_params c.service) chunk
event_same c s chunk ready = ap (λ service. map (event_params service) chunk) ready.service

log_same :
    (c : Config) (s : Sender) (chunk : List QueuedLog)
    → IsReady c s
    → map (log_params s.service s.source) chunk ≡ map (log_params c.service c.source) chunk
log_same c s chunk ready =
    ap (λ service. map (log_params service s.source) chunk) ready.service
    ∙ ap (λ source. map (log_params c.service source) chunk) ready.source

metric_same :
    (c : Config) (s : Sender) (chunk : List QueuedMetric)
    → IsReady c s
    → map (metric_params s.service s.source) chunk ≡ map (metric_params c.service c.source) chunk
metric_same c s chunk ready =
    ap (λ service. map (metric_params service s.source) chunk) ready.service
    ∙ ap (λ source. map (metric_params c.service source) chunk) ready.source

abbrev pub event_data : List EventParams → List ℕ
event_data params = data_of (encode_event_data_into params)

-- What the hypotheses of `encode_events_lem` give for these entries.
abbrev EventBatch : List ℕ → List EventParams → List QueuedEvent → Sender → Type 0
EventBatch api_key params chunk s =
    length api_key ≡ 16
    → All (λ p. p.timestamp < 2 ^ 64) params
    → length (event_data params) < 2 ^ 32
    → Succeeds (encode_events chunk s) (λ _ t.
      BatchOf event api_key (encode_event_data_into params) (ReadsAll Event.ReadsAt params) s t)

module _ (c : Config) where
  abbrev pub events_of : List QueuedEvent → List EventParams
  events_of chunk = map (event_params c.service) chunk

  -- Timestamps below 2^64 and data below 4 GiB.
  abbrev pub FitsEvents : List QueuedEvent → Type 0
  FitsEvents chunk =
      All (λ p. p.timestamp < 2 ^ 64) (events_of chunk)
      × (length (event_data (events_of chunk)) < 2 ^ 32)

  -- A reader finds the events of the chunk in the batch.
  abbrev pub ReadsEvents : ℕ → List QueuedEvent → Frame → Type 0
  ReadsEvents id chunk batch =
      BatchReads event c.api_key id (event_data (events_of chunk)) batch
      × ReadsAll Event.ReadsAt (events_of chunk) (event_data (events_of chunk))

  module _ (key : length c.api_key ≡ 16) where
    pub event_encodes :
        (chunk : List QueuedEvent) (s : Sender)
        → IsReady c s
        → FitsEvents chunk
        → Succeeds (encode_events chunk s) (λ _ t.
          IsEncoded s t
          × (length t.batch_buf ≡ envelope_size (length (event_data (events_of chunk))))
          × ReadsEvents s.next_id chunk t.batch_buf)
    event_encodes chunk s ready (fit, small) =
        let params = map (event_params s.service) chunk in
        let with_key : EventBatch c.api_key params chunk s =
          subst (λ key. EventBatch key params chunk s) ready.api_key
            (λ key' fit' small'. encode_events_lem chunk s key' ready.next_id fit' small') in
        let (_, t, run, done_so) =
          subst (λ params. EventBatch c.api_key params chunk s) (event_same c s chunk ready)
            with_key key fit small in
        (
          tt,
          t,
          run,
          finished event c.api_key (encode_event_data_into (events_of chunk))
              (ReadsAll Event.ReadsAt (events_of chunk)) s t done_so,
        )

    abbrev pub event_encoder : Encoder c QueuedEvent
    event_encoder = record {
      encode = encode_events;
      Fits = FitsEvents;
      size = λ chunk. envelope_size (length (event_data (events_of chunk)));
      Encoded = ReadsEvents;
      encodes = event_encodes;
    }

abbrev pub log_data : List LogEntryParams → List ℕ
log_data params = data_of (encode_log_data_into params)

-- What the hypotheses of `encode_logs_lem` give for these entries.
abbrev LogBatch : List ℕ → List LogEntryParams → List QueuedLog → Sender → Type 0
LogBatch api_key params chunk s =
    length api_key ≡ 16
    → All (λ p. p.timestamp < 2 ^ 64) params
    → length (log_data params) < 2 ^ 32
    → Succeeds (encode_logs chunk s)
        (λ _ t. BatchOf log api_key (encode_log_data_into params) (ReadsAll Log.ReadsAt params) s t)

module _ (c : Config) where
  abbrev pub logs_of : List QueuedLog → List LogEntryParams
  logs_of chunk = map (log_params c.service c.source) chunk

  -- Timestamps below 2^64 and data below 4 GiB.
  abbrev pub FitsLogs : List QueuedLog → Type 0
  FitsLogs chunk =
      All (λ p. p.timestamp < 2 ^ 64) (logs_of chunk) × (length (log_data (logs_of chunk)) < 2 ^ 32)

  -- A reader finds the logs of the chunk in the batch.
  abbrev pub ReadsLogs : ℕ → List QueuedLog → Frame → Type 0
  ReadsLogs id chunk batch =
      BatchReads log c.api_key id (log_data (logs_of chunk)) batch
      × ReadsAll Log.ReadsAt (logs_of chunk) (log_data (logs_of chunk))

  module _ (key : length c.api_key ≡ 16) where
    pub log_encodes :
        (chunk : List QueuedLog) (s : Sender)
        → IsReady c s
        → FitsLogs chunk
        → Succeeds (encode_logs chunk s) (λ _ t.
          IsEncoded s t
          × (length t.batch_buf ≡ envelope_size (length (log_data (logs_of chunk))))
          × ReadsLogs s.next_id chunk t.batch_buf)
    log_encodes chunk s ready (fit, small) =
        let params = map (log_params s.service s.source) chunk in
        let with_key : LogBatch c.api_key params chunk s =
          subst (λ key. LogBatch key params chunk s) ready.api_key
            (λ key' fit' small'. encode_logs_lem chunk s key' ready.next_id fit' small') in
        let (_, t, run, done_so) =
          subst (λ params. LogBatch c.api_key params chunk s) (log_same c s chunk ready) with_key
            key fit small in
        (
          tt,
          t,
          run,
          finished log c.api_key (encode_log_data_into (logs_of chunk))
              (ReadsAll Log.ReadsAt (logs_of chunk)) s t done_so,
        )

    abbrev pub log_encoder : Encoder c QueuedLog
    log_encoder = record {
      encode = encode_logs;
      Fits = FitsLogs;
      size = λ chunk. envelope_size (length (log_data (logs_of chunk)));
      Encoded = ReadsLogs;
      encodes = log_encodes;
    }

abbrev pub metric_data : List MetricEntryParams → List ℕ
metric_data params = data_of (encode_metric_data_into params)

-- What the hypotheses of `encode_metrics_lem` give for these entries.
abbrev MetricBatch : List ℕ → List MetricEntryParams → List QueuedMetric → Sender → Type 0
MetricBatch api_key params chunk s =
    length api_key ≡ 16
    → All FitsMetric params
    → length (metric_data params) < 2 ^ 32
    → Succeeds (encode_metrics chunk s) (λ _ t.
      BatchOf metric api_key (encode_metric_data_into params) (ReadsAll Metric.ReadsAt params) s t)

module _ (c : Config) where
  abbrev pub metrics_of : List QueuedMetric → List MetricEntryParams
  metrics_of chunk = map (metric_params c.service c.source) chunk

  -- Timestamps below 2^64 and data below 4 GiB.
  abbrev pub FitsMetrics : List QueuedMetric → Type 0
  FitsMetrics chunk =
      All FitsMetric (metrics_of chunk) × (length (metric_data (metrics_of chunk)) < 2 ^ 32)

  -- A reader finds the metrics of the chunk in the batch.
  abbrev pub ReadsMetrics : ℕ → List QueuedMetric → Frame → Type 0
  ReadsMetrics id chunk batch =
      BatchReads metric c.api_key id (metric_data (metrics_of chunk)) batch
      × ReadsAll Metric.ReadsAt (metrics_of chunk) (metric_data (metrics_of chunk))

  module _ (key : length c.api_key ≡ 16) where
    pub metric_encodes :
        (chunk : List QueuedMetric) (s : Sender)
        → IsReady c s
        → FitsMetrics chunk
        → Succeeds (encode_metrics chunk s) (λ _ t.
          IsEncoded s t
          × (length t.batch_buf ≡ envelope_size (length (metric_data (metrics_of chunk))))
          × ReadsMetrics s.next_id chunk t.batch_buf)
    metric_encodes chunk s ready (fit, small) =
        let params = map (metric_params s.service s.source) chunk in
        let with_key : MetricBatch c.api_key params chunk s =
          subst (λ key. MetricBatch key params chunk s) ready.api_key
            (λ key' fit' small'. encode_metrics_lem chunk s key' ready.next_id fit' small') in
        let (_, t, run, done_so) =
          subst (λ params. MetricBatch c.api_key params chunk s) (metric_same c s chunk ready)
            with_key key fit small in
        (
          tt,
          t,
          run,
          finished metric c.api_key (encode_metric_data_into (metrics_of chunk))
              (ReadsAll Metric.ReadsAt (metrics_of chunk)) s t done_so,
        )

    abbrev pub metric_encoder : Encoder c QueuedMetric
    metric_encoder = record {
      encode = encode_metrics;
      Fits = FitsMetrics;
      size = λ chunk. envelope_size (length (metric_data (metrics_of chunk)));
      Encoded = ReadsMetrics;
      encodes = metric_encodes;
    }
