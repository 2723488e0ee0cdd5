-- ===== src/Worker/Encode/RoundTrip.antt =====
-- The batches of crates/tell/src/worker/encode.rs against a reader of the format.
use tell_rs.Prelude.{
  ℕ, zero, ◌-◌, ◌^◌, ◌<◌, ◌≡◌, refl, ap, sym, ◌∙◌, List, [], length, map, All, done, final, running,
  take_all, arith, Succeeds, ◌>>=◌, ◌>>◌, modify,
}
use tell_rs.Encoding.Helpers.{Write}
use tell_rs.Encoding.Batch.{
  SchemaType, event, log, metric, default_version, BatchParams, encode_batch, encode_batch_into,
}
use tell_rs.Encoding.Batch.RoundTrip.{batch_round_trip, envelope_size, encode_batch-length}
use tell_rs.Encoding.Batch.RoundTrip
use tell_rs.Encoding.Vector.RoundTrip.{ReadsAll}
use tell_rs.Encoding.Event.{encode_event_data_into}
use tell_rs.Encoding.Event.Into.{encode_event_data_into_lem}
use tell_rs.Encoding.Event.Data.{event_data_round_trip}
use tell_rs.Encoding.Event.RoundTrip as Event
use tell_rs.Encoding.Log.{encode_log_data_into}
use tell_rs.Encoding.Log.Into.{encode_log_data_into_lem}
use tell_rs.Encoding.Log.RoundTrip.{log_data_round_trip}
use tell_rs.Encoding.Log.RoundTrip as Log
use tell_rs.Encoding.Metric.{encode_metric_data_into}
use tell_rs.Encoding.Metric.Data.{encode_metric_data_into_lem, metric_data_round_trip}
use tell_rs.Encoding.Metric.RoundTrip.{FitsMetric}
use tell_rs.Encoding.Metric.RoundTrip as Metric
use tell_rs.Buffer.Frames.{Frame}
use tell_rs.Worker.Defs.{Sender, W}
use tell_rs.Worker.Batches.{encoded, after_id}
use tell_rs.Worker.Encode.{
  QueuedEvent, QueuedLog, QueuedMetric, on_data, on_batch, next_batch_id, finish_batch,
  event_params, log_params, metric_params, encode_events, encode_logs, encode_metrics,
}

-- What the batch is made of.
abbrev pub envelope : List ℕ → SchemaType → ℕ → List ℕ → BatchParams
envelope api_key schema_type id out = record {
  api_key = api_key;
  schema_type = schema_type;
  version = default_version;
  batch_id = id;
  data_bytes = out;
}

-- In the batch a reader finds the key, the schema, the version, the batch id and the data.
abbrev pub BatchReads : SchemaType → List ℕ → ℕ → List ℕ → Frame → Type 0
BatchReads schema_type api_key id out batch =
    (length batch ≡ envelope_size (length out))
    × RoundTrip.Reads (envelope api_key schema_type id out) batch

module _ (s : Sender) (schema_type : SchemaType) (out : List ℕ) (key : length s.api_key ≡ 16)
    (id : s.next_id < 2 ^ 64) (small : length out < 2 ^ 32) where
  finish_run :
      (batch : List ℕ)
      → encode_batch (envelope s.api_key schema_type s.next_id out) ≡ done tt batch
      → finish_batch schema_type (zero, length out) (record s { data_buf = out })
        ≡ done tt (encoded s out batch)
  unfolding finish_batch next_batch_id encode_batch
  finish_run batch e =
      ap
        (λ d.
          on_batch (encode_batch_into (envelope s.api_key schema_type s.next_id d))
            (record s { data_buf = out; batch_buf = []; next_id = after_id s.next_id }))
        (take_all out (length out - zero) (omega arith))
      ∙ (let run : encode_batch_into (envelope s.api_key schema_type s.next_id out) []
              ≡ done tt batch =
            e in
          rw (running, on_batch, run) refl)

  finish_lem :
      Succeeds (finish_batch schema_type (zero, length out) (record s { data_buf = out })) (λ _ t.
        (t ≡ encoded s out t.batch_buf)
        × BatchReads schema_type s.api_key s.next_id out t.batch_buf)
  finish_lem =
      let p = envelope s.api_key schema_type s.next_id out in
      let (_, batch, e, reads) = batch_round_trip p key small id in
      (
        tt,
        encoded s out batch,
        finish_run batch e,
        (refl, (encode_batch-length p key batch e, reads)),
      )

-- The steps that the three encoders share.
abbrev steps : SchemaType → Write (ℕ × ℕ) → W Unit
steps schema_type m = do
  modify (λ s. record s { data_buf = [] })
  range ← on_data m
  finish_batch schema_type range

-- What the data will be.
abbrev pub data_of : Write (ℕ × ℕ) → List ℕ
data_of m = final (m [])

-- The two buffers and the counter have changed; the batch holds the data, and the data holds `R`.
abbrev pub BatchOf :
    SchemaType → List ℕ → Write (ℕ × ℕ) → (List ℕ → Type 0) → Sender → Sender → Type 0
BatchOf schema_type api_key m R s t =
    (t ≡ encoded s (data_of m) t.batch_buf)
    × BatchReads schema_type api_key s.next_id (data_of m) t.batch_buf
    × R (data_of m)

steps_lem :
    (s : Sender) (schema_type : SchemaType) (m : Write (ℕ × ℕ)) (R : List ℕ → Type 0)
    → length s.api_key ≡ 16
    → s.next_id < 2 ^ 64
    → length (data_of m) < 2 ^ 32
    → m [] ≡ done (zero, length (data_of m)) (data_of m)
    → R (data_of m)
    → Succeeds (steps schema_type m s) (λ _ t. BatchOf schema_type s.api_key m R s t)
steps_lem s schema_type m R key id small run holds =
    let (_, t, e, (same, reads)) = finish_lem s schema_type (data_of m) key id small in
    (tt, t, rw (running, on_data, run) e, (same, reads, holds))

-- An encoder that gives its range gives that of its data.
ranged :
    (m : Write (ℕ × ℕ)) (out : List ℕ)
    → m [] ≡ done (zero, length out) out
    → m [] ≡ done (zero, length (data_of m)) (data_of m)
ranged m out e = e ∙ ap (λ out. done (zero, length out) out) (sym (ap final e))

-- With a key of 16 bytes, timestamps and the batch id below 2^64 and data below 4 GiB, encode_events
-- does not panic, and a reader of the format finds in the batch buffer the key, the schema of events,
-- the version, the batch id and the data, and in the data each event of the chunk, in order, with the
-- service of the configuration; only the two buffers and the counter change.
pub encode_events_lem :
    (chunk : List QueuedEvent) (s : Sender)
    → length s.api_key ≡ 16
    → s.next_id < 2 ^ 64
    → All (λ p. p.timestamp < 2 ^ 64) (map (event_params s.service) chunk)
    → length (data_of (encode_event_data_into (map (event_params s.service) chunk))) < 2 ^ 32
    → Succeeds (encode_events chunk s) (λ _ t.
      BatchOf event s.api_key
        (encode_event_data_into (map (event_params s.service) chunk))
        (ReadsAll Event.ReadsAt (map (event_params s.service) chunk))
        s
        t)
unfolding encode_events
encode_events_lem chunk s key id fits small =
    let params = map (event_params s.service) chunk in
    let (_, out, _, run) = encode_event_data_into_lem params in
    steps_lem s event (encode_event_data_into params) (ReadsAll Event.ReadsAt params) key id small
      (ranged (encode_event_data_into params) out run)
      (event_data_round_trip params (zero, length (data_of (encode_event_data_into params)))
        (data_of (encode_event_data_into params)) (ranged (encode_event_data_into params) out run)
        fits small)

-- The same for encode_logs: an entry's own source and service come before those of the
-- configuration.
pub encode_logs_lem :
    (chunk : List QueuedLog) (s : Sender)
    → length s.api_key ≡ 16
    → s.next_id < 2 ^ 64
    → All (λ p. p.timestamp < 2 ^ 64) (map (log_params s.service s.source) chunk)
    → length (data_of (encode_log_data_into (map (log_params s.service s.source) chunk))) < 2 ^ 32
    → Succeeds (encode_logs chunk s) (λ _ t.
      BatchOf log s.api_key
        (encode_log_data_into (map (log_params s.service s.source) chunk))
        (ReadsAll Log.ReadsAt (map (log_params s.service s.source) chunk))
        s
        t)
unfolding encode_logs
encode_logs_lem chunk s key id fits small =
    let params = map (log_params s.service s.source) chunk in
    let (_, out, _, run) = encode_log_data_into_lem params in
    steps_lem s log (encode_log_data_into params) (ReadsAll Log.ReadsAt params) key id small
      (ranged (encode_log_data_into params) out run)
      (log_data_round_trip params (zero, length (data_of (encode_log_data_into params)))
        (data_of (encode_log_data_into params)) (ranged (encode_log_data_into params) out run) fits
        small)

-- The same for encode_metrics: the source and the service are those of the configuration, and there
-- is no session.
pub encode_metrics_lem :
    (chunk : List QueuedMetric) (s : Sender)
    → length s.api_key ≡ 16
    → s.next_id < 2 ^ 64
    → All FitsMetric (map (metric_params s.service s.source) chunk)
    → length (data_of (encode_metric_data_into (map (metric_params s.service s.source) chunk)))
      < 2 ^ 32
    → Succeeds (encode_metrics chunk s) (λ _ t.
      BatchOf metric s.api_key
        (encode_metric_data_into (map (metric_params s.service s.source) chunk))
        (ReadsAll Metric.ReadsAt (map (metric_params s.service s.source) chunk))
        s
        t)
unfolding encode_metrics
encode_metrics_lem chunk s key id fits small =
    let params = map (metric_params s.service s.source) chunk in
    let (_, out, _, run) = encode_metric_data_into_lem params in
    steps_lem s metric (encode_metric_data_into params) (ReadsAll Metric.ReadsAt params) key id
      small (ranged (encode_metric_data_into params) out run)
      (metric_data_round_trip params (zero, length (data_of (encode_metric_data_into params)))
        (data_of (encode_metric_data_into params)) (ranged (encode_metric_data_into params) out run)
        fits small)
