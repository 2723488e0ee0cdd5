-- ===== src/Worker/Queues/Flush.antt =====
-- `flush_all` and `flush_full_queues` of crates/tell/src/worker/mod.rs without a disk buffer.
use tell_rs.Prelude.{
  sym, ℕ, ◌+◌, ◌^◌, ◌≤◌, ◌<◌, ◌≡◌, refl, ap, ◌∙◌, inl, inr, none, List, [], length, All, arith, leb,
  Bool-cases, done, Succeeds, ◌⊎◌, subst, leb→le, leb_false→lt, running,
}
use tell_rs.Worker.Defs.{Sender, flush_queue, drain_disk_buffer}
use tell_rs.Worker.Chunks.{chunks_of, Cuts, chunks_of-Cuts}
use tell_rs.Worker.Batches.{Config, IsReady, Encoder}
use tell_rs.Worker.Flush.{Flushed, flush_chunks}
use tell_rs.Worker.Encode.{encode_events, encode_logs, encode_metrics}
use tell_rs.Worker.Encode.Encoders.{event_encoder, log_encoder, metric_encoder}
use tell_rs.Worker.Queues.{Queues, flush_all, flush_full, flush_full_queues}

-- A queue whose chunks fit their encoder.
abbrev pub AllFit : {c : Config} {T : Type 0} → Encoder c T → List T → Type 0
AllFit {c = c} encoder queue = All encoder.Fits (chunks_of (length queue) c.batch_size queue)

-- The configuration, and queues that its encoders take.
pub record Encodable (c : Config) (q : Queues) : Type 0 where
  pub key : length c.api_key ≡ 16
  pub size : 0 < c.batch_size
  pub events : AllFit (event_encoder c key) q.events
  pub logs : AllFit (log_encoder c key) q.logs
  pub metrics : AllFit (metric_encoder c key) q.metrics

-- The queue has been cut into chunks, each is encoded, and is accounted for.
abbrev pub Emptied : {c : Config} {T : Type 0} → Encoder c T → List T → Sender → Sender → Type 0
Emptied {c = c} {T = T} encoder queue s t =
    (chunks : List (List T)) × Cuts c.batch_size queue chunks × Flushed encoder chunks s t

no_buffer_drain : (s : Sender) → s.disk_buffer ≡ none → drain_disk_buffer s ≡ done tt s
unfolding drain_disk_buffer
no_buffer_drain s lacks = rw (running, lacks) refl

module _ {c : Config} {T : Type 0} (encoder : Encoder c T) (size : 0 < c.batch_size) where
  empty_queue :
      (queue : List T) (s : Sender)
      → IsReady c s
      → s.disk_buffer ≡ none
      → s.max_retries + 1 < 2 ^ 32
      → AllFit encoder queue
      → Succeeds (flush_queue (length queue) encoder.encode queue s) (λ left t.
        (left ≡ [])
        × Emptied encoder queue s t
        × IsReady c t
        × (t.disk_buffer ≡ none)
        × (t.max_retries + 1 < 2 ^ 32)
        × (t.answered ≡ s.answered))
  empty_queue queue s ready lacks retries fits =
      let (left, t, run, (gone, flushed, ready', lacks', retries', answered)) =
        flush_chunks encoder (length queue) queue s ready lacks retries size (omega arith) fits in
      (
        left,
        t,
        run,
        (
          gone,
          (
            chunks_of (length queue) c.batch_size queue,
            chunks_of-Cuts (length queue) c.batch_size queue size (omega arith),
            flushed,
          ),
          ready',
          lacks',
          subst (λ (n : ℕ). n + 1 < 2 ^ 32) (sym retries') retries,
          answered,
        ),
      )

flush_all_run :
    (q : Queues) (s t u v : Sender)
    → drain_disk_buffer s ≡ done tt s
    → flush_queue (length q.events) encode_events q.events s ≡ done [] t
    → flush_queue (length q.logs) encode_logs q.logs t ≡ done [] u
    → flush_queue (length q.metrics) encode_metrics q.metrics u ≡ done [] v
    → flush_all q s ≡ done (record { events = []; logs = []; metrics = [] }) v
unfolding flush_all
flush_all_run q s t u v d e f g = rw (running, d, e, f, g)

abbrev pub no_entries : Queues
no_entries = record { events = []; logs = []; metrics = [] }

-- The three queues are emptied one after the other.
abbrev pub AllEmptied : (c : Config) (q : Queues) → Encodable c q → Sender → Sender → Type 0
AllEmptied c q fit s v =
    (t : Sender) × (u : Sender) × Emptied (event_encoder c fit.key) q.events s t
    × Emptied (log_encoder c fit.key) q.logs t u
    × Emptied (metric_encoder c fit.key) q.metrics u v

pub flush_all-AllEmptied :
    (c : Config) (q : Queues) (s : Sender) (fit : Encodable c q)
    → IsReady c s
    → s.disk_buffer ≡ none
    → s.max_retries + 1 < 2 ^ 32
    → Succeeds
        (flush_all q s)
        (λ left v. (left ≡ no_entries) × AllEmptied c q fit s v × (v.answered ≡ s.answered))
flush_all-AllEmptied c q s fit ready lacks small =
    let (l1, t, e1, (g1, m1, r1, d1, n1, a1)) =
      empty_queue (event_encoder c fit.key) fit.size q.events s ready lacks small fit.events in
    let (l2, u, e2, (g2, m2, r2, d2, n2, a2)) =
      empty_queue (log_encoder c fit.key) fit.size q.logs t r1 d1 n1 fit.logs in
    let (l3, v, e3, (g3, m3, r3, d3, n3, a3)) =
      empty_queue (metric_encoder c fit.key) fit.size q.metrics u r2 d2 n2 fit.metrics in
    (
      no_entries,
      v,
      flush_all_run q s t u v (no_buffer_drain s lacks) (e1 ∙ ap (λ l. done l t) g1)
          (e2 ∙ ap (λ l. done l u) g2) (e3 ∙ ap (λ l. done l v) g3),
      (refl, (t, u, m1, m2, m3), a3 ∙ a2 ∙ a1),
    )

-- What flush_full_queues does to a queue: nothing if it is shorter than `batch_size`.
abbrev pub EmptiedIfFull :
    {c : Config} {T : Type 0} → Encoder c T → List T → List T → Sender → Sender → Type 0
EmptiedIfFull {c = c} encoder queue left s t =
    ((length queue < c.batch_size) × (left ≡ queue) × (t ≡ s))
    ⊎ ((c.batch_size ≤ length queue) × (left ≡ []) × Emptied encoder queue s t)

module _ {c : Config} {T : Type 0} (encoder : Encoder c T) (size : 0 < c.batch_size) where
  empty_full_queue :
      (queue : List T) (s : Sender)
      → IsReady c s
      → s.disk_buffer ≡ none
      → s.max_retries + 1 < 2 ^ 32
      → AllFit encoder queue
      → Succeeds (flush_full c.batch_size encoder.encode queue s) (λ left t.
        EmptiedIfFull encoder queue left s t
        × IsReady c t
        × (t.disk_buffer ≡ none)
        × (t.max_retries + 1 < 2 ^ 32))
  empty_full_queue queue s ready lacks small fits =
      elim (Bool-cases (leb c.batch_size (length queue))) [
        | inl e ↦
            let (left, t, run, (gone, flushed, ready', lacks', small', _)) =
              empty_queue encoder size queue s ready lacks small fits in
            (
              left,
              t,
              rw e run,
              (inr (leb→le c.batch_size (length queue) e, gone, flushed), ready', lacks', small'),
            )
        | inr e ↦ (
          queue,
          s,
          rw e refl,
          (inl (leb_false→lt c.batch_size (length queue) e, refl, refl), ready, lacks, small),
        )
      ]

flush_full_queues_run :
    (q r : Queues) (n : ℕ) (s t u v : Sender)
    → s.batch_size ≡ n
    → flush_full n encode_events q.events s ≡ done r.events t
    → flush_full n encode_logs q.logs t ≡ done r.logs u
    → flush_full n encode_metrics q.metrics u ≡ done r.metrics v
    → flush_full_queues q s ≡ done r v
unfolding flush_full_queues
flush_full_queues_run q r n s t u v size e f g =
    subst
      (λ (n : ℕ).
        flush_full n encode_events q.events s ≡ done r.events t
        → flush_full n encode_logs q.logs t ≡ done r.logs u
        → flush_full n encode_metrics q.metrics u ≡ done r.metrics v
        → flush_full_queues q s ≡ done r v)
      size (λ e' f' g'. rw (running, e', f', g')) e f g

-- Without a disk buffer, flush_full_queues empties each queue that has reached batch_size, as
-- flush_all does, and leaves the others, which are shorter than batch_size, with nothing sent or
-- reported for them. max_retries is below 2^32 - 1, the API key has 16 bytes, every number of an
-- entry fits in 64 bits, and the data of a chunk is below 4 GiB.
pub flush_full_queues_lem :
    (c : Config) (q : Queues) (s : Sender) (fit : Encodable c q)
    → IsReady c s
    → s.disk_buffer ≡ none
    → s.max_retries + 1 < 2 ^ 32
    → Succeeds (flush_full_queues q s) (λ left v.
      (t : Sender) × (u : Sender) × EmptiedIfFull (event_encoder c fit.key) q.events left.events s t
      × EmptiedIfFull (log_encoder c fit.key) q.logs left.logs t u
      × EmptiedIfFull (metric_encoder c fit.key) q.metrics left.metrics u v)
flush_full_queues_lem c q s fit ready lacks small =
    let (l1, t, e1, (m1, r1, d1, n1)) =
      empty_full_queue (event_encoder c fit.key) fit.size q.events s ready lacks small fit.events in
    let (l2, u, e2, (m2, r2, d2, n2)) =
      empty_full_queue (log_encoder c fit.key) fit.size q.logs t r1 d1 n1 fit.logs in
    let (l3, v, e3, (m3, r3, d3, n3)) =
      empty_full_queue (metric_encoder c fit.key) fit.size q.metrics u r2 d2 n2 fit.metrics in
    let left : Queues = record { events = l1; logs = l2; metrics = l3 } in
    (
      left,
      v,
      flush_full_queues_run q left c.batch_size s t u v ready.batch_size e1 e2 e3,
      (t, u, m1, m2, m3),
    )
