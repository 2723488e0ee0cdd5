-- ===== src/Worker/Loop/Absorb.antt =====
-- What the bulk drain of crates/tell/src/worker/mod.rs makes of the messages.
use tell_rs.Prelude.{
  ℕ, zero, suc, ◌≡◌, ap, ◌∙◌, List, [], ◌∷◌, ◌++◌, take, drop, append_assoc, append-nil,
}
use tell_rs.Worker.Encode.{QueuedEvent, QueuedLog, QueuedMetric}
use tell_rs.Worker.Queues.{Queues, Acks, WorkerMessage, event, log, metric, flush, close, absorb}
use tell_rs.Worker.Loop.{bulk_drain}

-- What a message is for, as a list of one or none.
abbrev pub event_of : WorkerMessage → List QueuedEvent
event_of (event e) = e ∷ []
event_of _ = []

abbrev pub log_of : WorkerMessage → List QueuedLog
log_of (log l) = l ∷ []
log_of _ = []

abbrev pub metric_of : WorkerMessage → List QueuedMetric
metric_of (metric m) = m ∷ []
metric_of _ = []

abbrev pub flush_of : WorkerMessage → List ℕ
flush_of (flush n) = n ∷ []
flush_of _ = []

abbrev pub close_of : WorkerMessage → List ℕ
close_of (close n) = n ∷ []
close_of _ = []

abbrev pub all_of : {A : Type 0} → (WorkerMessage → List A) → List WorkerMessage → List A
all_of f [] = []
all_of f (msg ∷ messages) = f msg ++ all_of f messages

-- The queues and acknowledgements with what the messages bring.
abbrev pub with_messages : Queues × Acks → List WorkerMessage → Queues × Acks
with_messages (q, a) messages = (
  record {
    events = q.events ++ all_of event_of messages;
    logs = q.logs ++ all_of log_of messages;
    metrics = q.metrics ++ all_of metric_of messages;
  },
  record {
    flush = a.flush ++ all_of flush_of messages;
    close = a.close ++ all_of close_of messages;
  },
)

no_messages : (state : Queues × Acks) → state ≡ with_messages state []
no_messages (q, a) = simp append-nil

absorbed_first :
    (state : Queues × Acks) (msg : WorkerMessage) (messages : List WorkerMessage)
    → with_messages (absorb state msg) messages ≡ with_messages state (msg ∷ messages)
unfolding absorb
absorbed_first (q, a) (event e) messages = simp append_assoc
absorbed_first (q, a) (log l) messages = simp append_assoc
absorbed_first (q, a) (metric m) messages = simp append_assoc
absorbed_first (q, a) (flush n) messages = simp append_assoc
absorbed_first (q, a) (close n) messages = simp append_assoc

-- The bulk drain takes the first messages, as many as its limit or all that there are, and leaves
-- the others in the channel; each entry is at the end of its queue and each caller among those to
-- be answered, in the order of the messages, and nothing else changes.
pub bulk_drain_lem :
    (limit : ℕ) (state : Queues × Acks) (messages : List WorkerMessage)
    → bulk_drain limit state messages
      ≡ (with_messages state (take limit messages), drop limit messages)
unfolding bulk_drain
bulk_drain_lem zero state messages = ap (λ x. (x, messages)) (no_messages state)
bulk_drain_lem (suc limit) state [] = ap (λ x. (x, [])) (no_messages state)
bulk_drain_lem (suc limit) state (msg ∷ messages) =
    bulk_drain_lem limit (absorb state msg) messages
    ∙ ap (λ x. (x, drop limit messages)) (absorbed_first state msg (take limit messages))
