-- ===== src/Worker/Send.antt =====
-- `send_with_fallback` and `append_to_wal` of crates/tell/src/worker/mod.rs: a batch is sent, put
-- into the disk buffer, or reported.
use tell_rs.Prelude.{
  ℕ, zero, suc, ◌+◌, arith, ◌-◌, ◌%◌, ◌^◌, Bool, true, false, ◌≤◌, ◌<◌, ◌≡◌, refl, ap, sym, ◌∙◌,
  ◌⊎◌, inl, inr, List, [], ◌∷◌, ◌++◌, length, append_assoc, append-nil, Option, none, some, ok, Run,
  done, failed, Succeeds, Bool-cases, ltb, if◌then◌else◌,
}
use tell_rs.Encoding.Helpers.{Panic}
use tell_rs.Errors.{TellError, buffer, lit, num}
use tell_rs.Buffer.Wal.{DiskBuffer, State, append, u64_mod, max_frame_len}
use tell_rs.Buffer.Frames.{Frame, frame_size}
use tell_rs.Buffer.Holds.{Holds}
use tell_rs.Buffer.Evict.{kept, freed_by, lacking}
use tell_rs.Buffer.Append.{append_lem}
use tell_rs.Buffer.Recovery.{on}
use tell_rs.Transport.{TcpTransport, send_frame, wire_bytes}
use tell_rs.Transport.Send.{send_frame_lem}
use tell_rs.Worker.Defs.{
  Sender, deliveries, on_buffer, stored, backoff, attempt_loop, send_with_fallback, append_to_wal,
  append_into, fall_back, attempts, all_attempts, told, given,
}
use tell_rs.Worker.Drain.{Buffers, on_buffer_lem}

-- The pauses before `left` more attempts.
abbrev pub pauses : ℕ → ℕ → List ℕ
pauses attempt zero = []
pauses attempt (suc left) = backoff attempt ∷ pauses (suc attempt) left

abbrev after : Sender → TcpTransport → List ℕ → Sender
after s x y = record s { transport = x; slept = y }

-- One attempt has delivered the batch, or all have failed and the last error comes back.
abbrev Tried : ℕ → ℕ → Sender → Run Panic Sender (Option TellError) → Type 0
Tried attempt left s r =
    (x : TcpTransport) × (y : List ℕ) × (((r ≡ done none (after s x y))
        × (x.handed ≡ s.transport.handed ++ wire_bytes s.batch_buf ∷ []))
      ⊎ ((e : TellError) × (r ≡ done (some e) (after s x y))
          × (x.handed ≡ s.transport.handed)
          × (y ≡ s.slept ++ pauses attempt left)))

module _ (attempt : ℕ) (s : Sender) (t : TcpTransport) where
  delivered_at :
      (left : ℕ)
      → send_frame s.batch_buf s.transport ≡ done tt t
      → attempt_loop attempt left s ≡ done none (after s t s.slept)
  unfolding attempt_loop
  delivered_at zero sends = rw (deliveries, sends)
  delivered_at (suc left) sends = rw (deliveries, sends)

  last_refused :
      (e : TellError)
      → send_frame s.batch_buf s.transport ≡ failed e t
      → attempt_loop attempt zero s ≡ done (some e) (after s t s.slept)
  unfolding attempt_loop
  last_refused e refuses = rw (deliveries, refuses)

  -- The state in which the next attempt is made.
  abbrev paused : Sender
  paused = after s t (s.slept ++ backoff attempt ∷ [])

  refused_once :
      (e : TellError) (left : ℕ)
      → send_frame s.batch_buf s.transport ≡ failed e t
      → attempt_loop attempt (suc left) s ≡ attempt_loop (suc attempt) left paused
  unfolding attempt_loop
  refused_once e left refuses = rw (deliveries, refuses)

  retry_after :
      (e : TellError) (left : ℕ)
      → send_frame s.batch_buf s.transport ≡ failed e t
      → t.handed ≡ s.transport.handed
      → Tried (suc attempt) left paused (attempt_loop (suc attempt) left paused)
      → Tried attempt (suc left) s (attempt_loop attempt (suc left) s)
  retry_after e left refuses same (x, y, inl (run, arrives)) = (
    x,
    y,
    inl (
      refused_once e left refuses ∙ run,
      arrives ∙ ap (λ xs. xs ++ wire_bytes s.batch_buf ∷ []) same,
    ),
  )
  retry_after e left refuses same (x, y, inr (e', run, arrives, slept)) = (
    x,
    y,
    inr (
      e',
      refused_once e left refuses ∙ run,
      arrives ∙ same,
      slept ∙ append_assoc s.slept (backoff attempt ∷ []) (pauses (suc attempt) left),
    ),
  )

-- Every attempt is made until one delivers, with the pauses between them.
attempt_loop_lem :
    (left attempt : ℕ) (s : Sender) → Tried attempt left s (attempt_loop attempt left s)
attempt_loop_lem zero attempt s = elim (send_frame_lem s.batch_buf s.transport) [
  | inl (t, sends, arrives, up) ↦ (t, s.slept, inl (delivered_at attempt s t zero sends, arrives))
  | inr (t, e, refuses, arrives, down) ↦
      (t, s.slept, inr (e, last_refused attempt s t e refuses, arrives, sym (append-nil s.slept)))
]
attempt_loop_lem (suc left) attempt s = elim (send_frame_lem s.batch_buf s.transport) [
  | inl (t, sends, arrives, up) ↦
      (t, s.slept, inl (delivered_at attempt s t (suc left) sends, arrives))
  | inr (t, e, refuses, arrives, down) ↦
      retry_after attempt s t e left refuses arrives
        (attempt_loop_lem left (suc attempt) (paused attempt s t))
]

fallback_run :
    (s t : Sender) (n : ℕ) (o : Option TellError) (r : Run Panic Sender Unit)
    → attempts s.disk_buffer s.max_retries ≡ suc n
    → attempt_loop 0 n s ≡ done o t
    → fall_back o s.disk_buffer t ≡ r
    → send_with_fallback s ≡ r
unfolding send_with_fallback all_attempts
fallback_run s t n o r e run falls = rw (deliveries, e, run) falls

-- No retries are lost to the wrap of the sum.
retries_and_first :
    (s : Sender)
    → s.disk_buffer ≡ none
    → s.max_retries + 1 < 2 ^ 32
    → attempts s.disk_buffer s.max_retries ≡ suc s.max_retries
retries_and_first s lacks small =
    let all : (s.max_retries + 1) % 2 ^ 32 ≡ suc s.max_retries = omega arith in
    ap (λ o. attempts o s.max_retries) lacks ∙ all

-- What only the configuration and the encoders set.
pub record Keeps (s t : Sender) : Type 0 where
  pub next_id : t.next_id ≡ s.next_id
  pub api_key : t.api_key ≡ s.api_key
  pub service : t.service ≡ s.service
  pub source : t.source ≡ s.source
  pub batch_size : t.batch_size ≡ s.batch_size
  pub max_retries : t.max_retries ≡ s.max_retries
  pub answered : t.answered ≡ s.answered

kept_all : (s : Sender) (x : TcpTransport) (y : List ℕ) → Keeps s (after s x y)
kept_all s x y = record {
  next_id = refl;
  api_key = refl;
  service = refl;
  source = refl;
  batch_size = refl;
  max_retries = refl;
  answered = refl;
}

kept_told :
    (s : Sender) (x : TcpTransport) (y : List ℕ) (es : List TellError)
    → Keeps s (told (after s x y) es)
kept_told s x y es = record {
  next_id = refl;
  api_key = refl;
  service = refl;
  source = refl;
  batch_size = refl;
  max_retries = refl;
  answered = refl;
}

given-nil : (b : Bool) (heard : List TellError) → given b heard [] ≡ heard
given-nil true heard = append-nil heard
given-nil false heard = refl

pub told-nil : (s : Sender) → told s [] ≡ s
told-nil s =
    ap (λ rs. record s { reports = rs; heard = given s.on_error s.heard [] }) (append-nil s.reports)
    ∙ ap (λ es. record s { heard = es }) (given-nil s.on_error s.heard)

-- The batch has been handed to the connection; or the last error is reported, and given to the
-- callback if there is one, after all the retries.
abbrev pub SentOrReported : Sender → Sender → Type 0
SentOrReported s t =
    ((t.transport.handed ≡ s.transport.handed ++ wire_bytes s.batch_buf ∷ [])
      × (t.reports ≡ s.reports)
      × (t.heard ≡ s.heard))
    ⊎ ((e : TellError) × (t.transport.handed ≡ s.transport.handed)
        × (t.reports ≡ s.reports ++ e ∷ [])
        × (t.heard ≡ given s.on_error s.heard (e ∷ []))
        × (t.slept ≡ s.slept ++ pauses 0 s.max_retries))

pub send_without_buffer :
    (s : Sender)
    → s.disk_buffer ≡ none
    → s.max_retries + 1 < 2 ^ 32
    → Succeeds
        (send_with_fallback s)
        (λ _ t. SentOrReported s t × (t.disk_buffer ≡ none) × Keeps s t)
send_without_buffer s lacks small = found (attempt_loop_lem s.max_retries 0 s)
  where
    found :
        Tried 0 s.max_retries s (attempt_loop 0 s.max_retries s)
        → Succeeds
            (send_with_fallback s)
            (λ _ t. SentOrReported s t × (t.disk_buffer ≡ none) × Keeps s t)
    found (x, y, inl (run, arrives)) = (
      tt,
      after s x y,
      fallback_run s (after s x y) s.max_retries none (done tt (after s x y))
          (retries_and_first s lacks small) run refl,
      (inl (arrives, refl, refl), lacks, kept_all s x y),
    )
    found (x, y, inr (e, run, arrives, slept)) = (
      tt,
      told (after s x y) (e ∷ []),
      fallback_run s (after s x y) s.max_retries (some e) _ (retries_and_first s lacks small) run
          (ap (λ o. fall_back (some e) o (after s x y)) lacks),
      (inr (e, arrives, refl, refl, slept), lacks, kept_told s x y (e ∷ [])),
    )

-- Without a disk buffer, and with max_retries at 2^32 - 1, where the sum with 1 wraps:
-- send_with_fallback makes no attempt and does nothing at all, so that the batch is neither handed
-- to the connection nor reported.
pub no_attempt :
    (s : Sender)
    → s.disk_buffer ≡ none
    → s.max_retries ≡ 2 ^ 32 - 1
    → send_with_fallback s ≡ done tt s
unfolding send_with_fallback all_attempts
no_attempt s lacks largest =
    let wraps : (s.max_retries + 1) % 2 ^ 32 ≡ 0 = omega (arith, largest) in
    rw (deliveries, ap (λ o. attempts o s.max_retries) lacks ∙ wraps) refl

abbrev pub eviction_report : ℕ → List TellError
eviction_report evicted =
    if ltb 0 evicted
    then buffer (
        lit "disk buffer full — evicted "
        ∷ num evicted
        ∷ lit " bytes of oldest data to make room"
        ∷ [])
      ∷ []
    else []

-- The batch has been handed to the connection and the buffer is as it was; or it stands behind the frames that make room
-- for it, and it is reported how many bytes were evicted, if any.
abbrev pub SentOrStored : Sender → DiskBuffer → List Frame → Sender → Type 0
SentOrStored s b fs t =
    let need = lacking (on b s.disk) fs (frame_size s.batch_buf) in
    ((t.transport.handed ≡ s.transport.handed ++ wire_bytes s.batch_buf ∷ [])
      × (t.reports ≡ s.reports)
      × Buffers t fs)
    ⊎ ((t.transport.handed ≡ s.transport.handed)
        × (t.reports ≡ s.reports ++ eviction_report (freed_by need fs))
        × Buffers t (kept need fs ++ s.batch_buf ∷ []))

pub append_run :
    (s : Sender) (b : DiskBuffer) (n : ℕ) (v : State)
    → s.disk_buffer ≡ some b
    → on_buffer (append s.batch_buf) b s ≡ done (ok n) (stored s v)
    → append_to_wal s ≡ done tt (told (stored s v) (eviction_report n))
unfolding append_to_wal
append_run s b n v has puts = ap (λ o. append_into o s) has ∙ elim (Bool-cases (ltb 0 n)) [
  | inl e ↦ rw (deliveries, puts, e)
  | inr e ↦ rw (deliveries, puts, e) (ap (λ t. done tt t) (sym (told-nil (stored s v))))
]

-- While no system call on the disk fails: with a disk buffer, send_with_fallback succeeds; either
-- the batch has been handed to the connection and the buffer holds what it held, or the batch is
-- the last frame in the buffer behind those that eviction leaves, and a report names the evicted
-- bytes if there are any. The batch has at most 256 MiB and the log stays below 2^64 bytes.
pub send_with_buffer :
    (s : Sender) (b : DiskBuffer) (fs : List Frame)
    → s.disk_buffer ≡ some b
    → Holds (on b s.disk) fs
    → length s.batch_buf ≤ max_frame_len
    → length s.disk.wal + frame_size s.batch_buf < u64_mod
    → Succeeds (send_with_fallback s) (λ _ t. SentOrStored s b fs t)
send_with_buffer s b fs has h fits small = found (attempt_loop_lem 0 0 s)
  where
    found :
        Tried 0 0 s (attempt_loop 0 0 s)
        → Succeeds (send_with_fallback s) (λ _ t. SentOrStored s b fs t)
    found (x, y, inl (run, arrives)) = (
      tt,
      after s x y,
      fallback_run s (after s x y) 0 none (done tt (after s x y))
          (ap (λ o. attempts o s.max_retries) has) run refl,
      inl (arrives, refl, (b, has, h)),
    )
    found (x, y, inr (e, run, arrives, slept)) =
        let (n, v, puts, (en, hv, _, _)) =
          on_buffer_lem (append s.batch_buf) b (after s x y)
            (append_lem (on b s.disk) fs s.batch_buf h fits small) in
        (
          tt,
          told (stored (after s x y) v) (eviction_report n),
          fallback_run s (after s x y) 0 (some e) _ (ap (λ o. attempts o s.max_retries) has) run (
              ap (λ o. fall_back (some e) o (after s x y)) has
              ∙ append_run (after s x y) b n v has puts),
          inr (arrives, ap (λ m. s.reports ++ eviction_report m) en, (v.buf, refl, hv)),
        )
