-- ===== src/Worker/LoopTests.antt =====
-- A shutdown that saves the queues, and a turn of the loop, of crates/tell/src/worker/mod.rs.
use tell_rs.Prelude.{ℕ, ◌+◌, ◌≡◌, refl, some, List, [], ◌∷◌, Succeeds, arith, inl}
use tell_rs.Bytes.{le_bytes}
use tell_rs.Encoding.Helpers.{overwrite, pad_loop}
use tell_rs.Encoding.Vector.{reserve_slots, patch_slots, place_entries, encode_data_into, read_u32}
use tell_rs.Encoding.Event.{encode_event_into}
use tell_rs.Encoding.Log.{encode_log_entry_into}
use tell_rs.Encoding.Metric.{
  encode_metric_entry, encode_metric_entry_into, metric_sections, labels_section, histogram_section,
  encode_labels, encode_label, label_table, encode_histogram, add_buckets, encode_buckets,
  encode_bucket, collect, metric_type_as_u8, temporality_as_u8,
}
use tell_rs.Buffer.Wal.{DiskBuffer}
use tell_rs.Buffer.Holds.{Holds}
use tell_rs.Buffer.Recovery.{on}
use tell_rs.Worker.Defs.{Sender, save_queue}
use tell_rs.Worker.Chunks.{chunks_of, Cuts}
use tell_rs.Worker.Save.{HasRoom, Saved, save_queue_lem}
use tell_rs.Worker.Encode.{QueuedEvent, event_params, log_params, metric_params, encode_events}
use tell_rs.Worker.Batches.{IsReady}
use tell_rs.Worker.Encode.Encoders.{event_encoder, log_encoder, metric_encoder}
use tell_rs.Worker.Queues.{Queues, WorkerMessage, event, flush}
use tell_rs.Worker.Queues.Flush.{no_entries}
use tell_rs.Worker.Queues.Save.{Savable, needed, dropped, save_queues_without_buffer}
use tell_rs.Worker.Queues.Save as Queued
use tell_rs.Worker.Loop.{bulk_drain, no_acks}
use tell_rs.Worker.Loop.Absorb.{with_messages, bulk_drain_lem}
use tell_rs.Worker.Tests.{frames, buf, sender}
use tell_rs.Worker.QueueTests.{
  config, visit, queues, is_ready, visits_fit, visit_fits, note_fits, hits_fit,
}

-- A buffer that has room for all the batches.
abbrev roomy : DiskBuffer
roomy = record buf { max_bytes = 10000 }

abbrev saver : Sender
saver = record sender { disk_buffer = some roomy }

saver-IsReady : IsReady config saver
saver-IsReady = is_ready saver refl refl refl refl refl

saver-Holds : Holds (on roomy saver.disk) frames
unfolding le_bytes
saver-Holds = record {
  quiet = refl;
  pending = refl;
  ends = refl;
  starts = omega arith;
  fits = omega arith;
  framed = (omega arith, (omega arith, tt));
  at_start = inl refl;
}

queues-Savable : Savable config queues
unfolding chunks_of event_params encode_event_into log_params encode_log_entry_into metric_params
    encode_metric_entry encode_metric_entry_into metric_sections labels_section histogram_section
    encode_labels encode_label label_table encode_histogram add_buckets encode_buckets encode_bucket
    collect metric_type_as_u8 temporality_as_u8 le_bytes overwrite pad_loop encode_data_into
    place_entries read_u32 reserve_slots patch_slots
queues-Savable = record {
  key = refl;
  size = omega arith;
  events = ((visits_fit, omega arith), ((visit_fits, omega arith), tt));
  logs = ((note_fits, omega arith), tt);
  metrics = ((hits_fit, omega arith), tt);
}

saver-HasRoom : HasRoom saver frames (needed config queues queues-Savable)
unfolding chunks_of event_params encode_event_into log_params encode_log_entry_into metric_params
    encode_metric_entry encode_metric_entry_into metric_sections labels_section histogram_section
    encode_labels encode_label label_table encode_histogram add_buckets encode_buckets encode_bucket
    collect metric_type_as_u8 temporality_as_u8 le_bytes overwrite pad_loop encode_data_into
    place_entries read_u32 reserve_slots patch_slots
saver-HasRoom = record {
  b = roomy;
  has = refl;
  held = saver-Holds;
  room = omega arith;
  small = omega arith;
}

save_queue_lem_example : Succeeds (save_queue 3 encode_events queues.events saver) (λ left t.
    (left ≡ [])
    × ((chunks : List (List QueuedEvent)) × Cuts 2 queues.events chunks
        × Saved
            (event_encoder config refl)
            frames
            (Queued.queue_size (log_encoder config refl) queues.logs
              + Queued.queue_size (metric_encoder config refl) queues.metrics)
            chunks
            saver
            t))
unfolding chunks_of
save_queue_lem_example =
    save_queue_lem (event_encoder config refl) 3 queues.events saver frames
      (Queued.queue_size (log_encoder config refl) queues.logs
        + Queued.queue_size (metric_encoder config refl) queues.metrics)
      saver-IsReady (omega arith) (omega arith) queues-Savable.events saver-HasRoom

abbrev messages : List WorkerMessage
messages = event visit ∷ flush 8 ∷ event visit ∷ []

bulk_drain_lem_example :
    bulk_drain 2 (queues, no_acks) messages
    ≡ (with_messages (queues, no_acks) (event visit ∷ flush 8 ∷ []), event visit ∷ [])
bulk_drain_lem_example = bulk_drain_lem 2 (queues, no_acks) messages

abbrev callers : List ℕ
callers = 8 ∷ []

-- The queue as the turn finds it.
abbrev one_visit : Queues
one_visit = (with_messages (no_entries, no_acks) (event visit ∷ flush 8 ∷ [])).0
