-- ===== src/Worker/Queues/Save.antt =====
-- `save_queues_to_wal` of crates/tell/src/worker/mod.rs, with and without a disk buffer.
use tell_rs.Prelude.{
  ℕ, ◌+◌, ◌<◌, ◌≡◌, ap, sym, ◌∙◌, inl, inr, none, List, [], ◌∷◌, length, All, ltb, Bool-cases, done,
  running, if◌then◌else◌,
}
use tell_rs.Errors.{TellError, buffer, lit, num}
use tell_rs.Buffer.Frames.{Frame}
use tell_rs.Worker.Send.{told-nil}
use tell_rs.Worker.Defs.{told, Sender}
use tell_rs.Worker.Chunks.{chunks_of, Cuts}
use tell_rs.Worker.Batches.{Config, Encoder, Numbered}
use tell_rs.Worker.Save.{IsSavable, saved_size}
use tell_rs.Worker.Encode.Encoders.{event_encoder, log_encoder, metric_encoder}
use tell_rs.Worker.Queues.{Queues, queues_len, save_into, save_queues_to_wal}

abbrev pub chunks : {c : Config} {T : Type 0} → Encoder c T → List T → List (List T)
chunks {c = c} encoder queue = chunks_of (length queue) c.batch_size queue

-- The configuration, and queues that the encoders and the disk buffer take.
pub record Savable (c : Config) (q : Queues) : Type 0 where
  pub key : length c.api_key ≡ 16
  pub size : 0 < c.batch_size
  pub events : All (IsSavable (event_encoder c key)) (chunks (event_encoder c key) q.events)
  pub logs : All (IsSavable (log_encoder c key)) (chunks (log_encoder c key) q.logs)
  pub metrics : All (IsSavable (metric_encoder c key)) (chunks (metric_encoder c key) q.metrics)

-- How many bytes of the log a queue will take.
abbrev pub queue_size : {c : Config} {T : Type 0} → Encoder c T → List T → ℕ
queue_size encoder queue = saved_size encoder (chunks encoder queue)

abbrev pub needed : (c : Config) (q : Queues) → Savable c q → ℕ
needed c q fit =
    queue_size (event_encoder c fit.key) q.events
    + (queue_size (log_encoder c fit.key) q.logs + queue_size (metric_encoder c fit.key) q.metrics)

-- The batches hold the queue, cut into chunks, under consecutive ids from `id` on.
abbrev pub Holds : {c : Config} {T : Type 0} → Encoder c T → List T → ℕ → List Frame → Type 0
Holds {c = c} {T = T} encoder queue id batches =
    (cut : List (List T)) × Cuts c.batch_size queue cut × Numbered encoder.Encoded id cut batches

abbrev pub dropped : ℕ → List TellError
dropped total =
    if ltb 0 total
    then buffer (
        lit "no disk buffer configured — dropping "
        ∷ num total
        ∷ lit " unsent items on shutdown"
        ∷ [])
      ∷ []
    else []

-- Without a disk buffer, save_queues_to_wal changes nothing but the reports: if there are entries in
-- the queues, it reports once how many are dropped, and nothing otherwise.
pub save_queues_without_buffer :
    (q : Queues) (s : Sender)
    → s.disk_buffer ≡ none
    → save_queues_to_wal q s ≡ done q (told s (dropped (queues_len q)))
unfolding save_queues_to_wal
save_queues_without_buffer q s lacks =
    ap (λ o. save_into o q s) lacks ∙ elim (Bool-cases (ltb 0 (queues_len q))) [
      | inl e ↦ rw (running, e)
      | inr e ↦ rw (running, e) (ap (λ t. done q t) (sym (told-nil s)))
    ]
