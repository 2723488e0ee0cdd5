-- ===== src/Worker/QueueTests.antt =====
-- The queues of crates/tell/src/worker/mod.rs with three events, a log and a metric.
use tell_rs.Prelude.{◌^◌, ◌≡◌, refl, none, some, List, [], ◌∷◌, replicate, Succeeds, arith}
use tell_rs.Bytes.{le_bytes}
use tell_rs.Encoding.Helpers.{overwrite, pad_loop}
use tell_rs.Encoding.Vector.{reserve_slots, patch_slots, place_entries, encode_data_into, read_u32}
use tell_rs.Encoding.Event.{track, encode_event_into}
use tell_rs.Encoding.Log.{warning, encode_log_entry_into}
use tell_rs.Encoding.Metric.{
  counter, delta, encode_metric_entry, encode_metric_entry_into, metric_sections, labels_section,
  histogram_section, encode_labels, encode_label, label_table, encode_histogram, add_buckets,
  encode_buckets, encode_bucket, collect, metric_type_as_u8, temporality_as_u8,
}
use tell_rs.Worker.Defs.{Sender, flush_queue}
use tell_rs.Worker.Chunks.{chunks_of, Cuts}
use tell_rs.Worker.Batches.{Config, IsReady}
use tell_rs.Worker.Flush.{Flushed, flush_queue_lem}
use tell_rs.Worker.Encode.{
  QueuedEvent, QueuedLog, QueuedMetric, event_params, log_params, metric_params, encode_events,
}
use tell_rs.Worker.Encode.Encoders.{
  event_encoder, log_encoder, metric_encoder, FitsEvents, FitsLogs, FitsMetrics,
}
use tell_rs.Worker.Queues.{Queues, flush_full_queues}
use tell_rs.Worker.Queues.Flush.{Encodable, EmptiedIfFull, flush_full_queues_lem}
use tell_rs.Worker.Tests.{sender, bare}

abbrev pub config : Config
config = record {
  api_key = sender.api_key;
  service = sender.service;
  source = sender.source;
  batch_size = 2;
}

abbrev pub visit : QueuedEvent
visit = record {
  event_type = track;
  timestamp = 2 ^ 40;
  device_id = replicate 16 1;
  session_id = some (replicate 16 2);
  event_name = some (b'v' ∷ []);
  payload = none;
}

abbrev pub note : QueuedLog
note = record {
  level = warning;
  timestamp = 5;
  session_id = none;
  component = some (b'd' ∷ b'b' ∷ []);
  service = none;
  payload = some (b'{' ∷ b'}' ∷ []);
}

abbrev pub hits : QueuedMetric
hits = record {
  metric_type = counter;
  timestamp = 9;
  name = b'h' ∷ [];
  value = 7;
  labels = (b'k' ∷ [], b'v' ∷ []) ∷ [];
  temporality = delta;
  histogram = none;
}

abbrev pub queues : Queues
queues = record { events = visit ∷ visit ∷ visit ∷ []; logs = note ∷ []; metrics = hits ∷ [] }

pub is_ready :
    (s : Sender)
    → s.api_key ≡ config.api_key
    → s.service ≡ config.service
    → s.source ≡ config.source
    → s.batch_size ≡ 2
    → s.next_id ≡ 1
    → IsReady config s
is_ready s key service source size id = record {
  api_key = key;
  service = service;
  source = source;
  batch_size = size;
  next_id = omega (arith, id);
}

pub sender-IsReady : IsReady config sender
sender-IsReady = is_ready sender refl refl refl refl refl

pub bare-IsReady : IsReady config bare
bare-IsReady = is_ready bare refl refl refl refl refl

pub visits_fit : FitsEvents config (visit ∷ visit ∷ [])
unfolding event_params encode_event_into le_bytes overwrite pad_loop encode_data_into place_entries
    read_u32 reserve_slots patch_slots
visits_fit = ((omega arith, (omega arith, tt)), omega arith)

pub visit_fits : FitsEvents config (visit ∷ [])
unfolding event_params encode_event_into le_bytes overwrite pad_loop encode_data_into place_entries
    read_u32 reserve_slots patch_slots
visit_fits = ((omega arith, tt), omega arith)

pub note_fits : FitsLogs config (note ∷ [])
unfolding log_params encode_log_entry_into le_bytes overwrite pad_loop encode_data_into
    place_entries read_u32 reserve_slots patch_slots
note_fits = ((omega arith, tt), omega arith)

pub hits_fit : FitsMetrics config (hits ∷ [])
unfolding metric_params encode_metric_entry encode_metric_entry_into metric_sections labels_section
    histogram_section encode_labels encode_label label_table encode_histogram add_buckets
    encode_buckets encode_bucket collect metric_type_as_u8 temporality_as_u8 le_bytes overwrite
    pad_loop encode_data_into place_entries read_u32 reserve_slots patch_slots
hits_fit =
    ((record { timestamp = omega arith; value = omega arith; histogram = tt }, tt), omega arith)

flush_queue_lem_example : Succeeds (flush_queue 3 encode_events queues.events bare) (λ left t.
    (left ≡ [])
    × ((chunks : List (List QueuedEvent)) × Cuts 2 queues.events chunks
        × Flushed (event_encoder config refl) chunks bare t))
unfolding chunks_of
flush_queue_lem_example =
    flush_queue_lem (event_encoder config refl) 3 queues.events bare bare-IsReady refl (omega arith)
      (omega arith) (omega arith) (visits_fit, (visit_fits, tt))

pub queues-Encodable : Encodable config queues
unfolding chunks_of
queues-Encodable = record {
  key = refl;
  size = omega arith;
  events = (visits_fit, (visit_fits, tt));
  logs = (note_fits, tt);
  metrics = (hits_fit, tt);
}

flush_full_queues_lem_example : Succeeds (flush_full_queues queues bare) (λ left v.
    (t : Sender) × (u : Sender) × EmptiedIfFull
      (event_encoder config refl)
      queues.events
      left.events
      bare
      t
    × EmptiedIfFull (log_encoder config refl) queues.logs left.logs t u
    × EmptiedIfFull (metric_encoder config refl) queues.metrics left.metrics u v)
flush_full_queues_lem_example =
    flush_full_queues_lem config queues bare queues-Encodable bare-IsReady refl (omega arith)
