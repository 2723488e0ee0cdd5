-- ===== src/Worker/Queues.antt =====
-- The queues, the messages and the acknowledgements of crates/tell/src/worker/mod.rs, and the functions
-- that flush or save all the queues. An acknowledgement is the number of the caller who waits for it.
pub mod Flush
pub mod Save
use tell_rs.Prelude.{
  ℕ, ◌+◌, ◌==◌, Option, none, some, List, [], ◌∷◌, ◌++◌, length, ltb, leb, when◌then◌else◌, pure,
  gets, ◌>>=◌, ◌>>◌,
}
use tell_rs.Errors.{buffer, lit, num}
use tell_rs.Buffer.Wal.{DiskBuffer}
use tell_rs.Worker.Defs.{Sender, W, report, flush_queue, save_queue, drain_disk_buffer}
use tell_rs.Worker.Encode.{
  QueuedEvent, QueuedLog, QueuedMetric, encode_events, encode_logs, encode_metrics,
}

pub data WorkerMessage : Type 0 where
  event : QueuedEvent → WorkerMessage
  log : QueuedLog → WorkerMessage
  metric : QueuedMetric → WorkerMessage
  flush close : ℕ → WorkerMessage

pub record Queues : Type 0 where
  pub events : List QueuedEvent
  pub logs : List QueuedLog
  pub metrics : List QueuedMetric

-- `Queues::len`
abbrev pub queues_len : Queues → ℕ
queues_len q = length q.events + length q.logs + length q.metrics

pub record Acks : Type 0 where
  pub flush : List ℕ
  pub close : List ℕ

-- `Acks::send_all`: who is answered, in this order.
abbrev pub send_all : Acks → List ℕ
send_all acks = acks.flush ++ acks.close

-- `absorb`
unfoldable pub absorb : Queues × Acks → WorkerMessage → Queues × Acks
absorb (q, a) (event e) = (record q { events = q.events ++ e ∷ [] }, a)
absorb (q, a) (log l) = (record q { logs = q.logs ++ l ∷ [] }, a)
absorb (q, a) (metric m) = (record q { metrics = q.metrics ++ m ∷ [] }, a)
absorb (q, a) (flush n) = (q, record a { flush = a.flush ++ n ∷ [] })
absorb (q, a) (close n) = (q, record a { close = a.close ++ n ∷ [] })

-- `flush_all`. A queue is flushed in as many rounds as it has entries at most.
unfoldable pub flush_all : Queues → W Queues
flush_all q = do
  drain_disk_buffer
  events ← flush_queue (length q.events) encode_events q.events
  logs ← flush_queue (length q.logs) encode_logs q.logs
  metrics ← flush_queue (length q.metrics) encode_metrics q.metrics
  pure (record { events = events; logs = logs; metrics = metrics })

-- `if queue.len() >= n`
abbrev pub flush_full : {T : Type 0} → ℕ → (List T → W Unit) → List T → W (List T)
flush_full n encode queue =
    when leb n (length queue) then flush_queue (length queue) encode queue else pure queue

-- `flush_full_queues`
unfoldable pub flush_full_queues : Queues → W Queues
flush_full_queues q = do
  n ← gets (λ s. s.batch_size)
  events ← flush_full n encode_events q.events
  logs ← flush_full n encode_logs q.logs
  metrics ← flush_full n encode_metrics q.metrics
  pure (record { events = events; logs = logs; metrics = metrics })

-- `save_queues_to_wal`
abbrev pub save_into : Option DiskBuffer → Queues → W Queues
save_into none q = do
  when ltb 0 (queues_len q)
      then report (
          buffer (
            lit "no disk buffer configured — dropping "
            ∷ num (queues_len q)
            ∷ lit " unsent items on shutdown"
            ∷ []))
      else pure tt
  pure q
save_into (some b) q = do
  events ← save_queue (length q.events) encode_events q.events
  logs ← save_queue (length q.logs) encode_logs q.logs
  metrics ← save_queue (length q.metrics) encode_metrics q.metrics
  pure (record { events = events; logs = logs; metrics = metrics })

unfoldable pub save_queues_to_wal : Queues → W Queues
save_queues_to_wal q = do b ← gets (λ s. s.disk_buffer); save_into b q
