-- ===== src/Worker/Defs.antt =====
-- The delivery half of crates/tell/src/worker/mod.rs: `Sender` and the functions that flush queues
-- and the disk buffer. The functions do not fail; what goes wrong is reported.
use tell_rs.Prelude.{
  ℕ, zero, suc, ◌+◌, ◌-◌, ◌*◌, ◌%◌, ◌^◌, ◌==◌, min, max, Bool, true, false, Option, none, some,
  List, [], ◌∷◌, ◌++◌, length, take, drop, ltb, leb, when◌then◌else◌, Result, ok, err, Run, done,
  failed, Exec, pure, fail, attempt, modify, gets, ◌>>=◌, ◌>>◌, running,
}
use tell_rs.Errors.{TellError, buffer, lit, num, shown}
use tell_rs.Buffer.Disk.{Kind, Disk}
use tell_rs.Buffer.Wal.{DiskBuffer, State, M, append, drain_next, commit, is_empty, buffered_bytes}
use tell_rs.Encoding.Helpers.{Panic}
use tell_rs.Transport.{TcpTransport, Net, send_frame}

-- `disk` is the directory of the disk buffer, `slept` the milliseconds of each backoff. `on_error` says
-- whether there is a callback; `reports` are the errors that `report` was called with, `heard` those
-- that the callback was given, and `answered` the callers whose acknowledgement was sent. `next_id` is the static `BATCH_COUNTER`, as this worker finds it.
pub record Sender : Type 0 where
  pub transport : TcpTransport
  pub disk_buffer : Option DiskBuffer
  pub disk : Disk
  pub data_buf : List ℕ
  pub batch_buf : List ℕ
  pub next_id : ℕ
  pub api_key : List ℕ
  pub service : Option (List ℕ)
  pub source : Option (List ℕ)
  pub batch_size : ℕ
  pub max_retries : ℕ
  pub on_error : Bool
  pub reports : List TellError
  pub heard : List TellError
  pub answered : List ℕ
  pub slept : List ℕ

-- Only an encoder can panic.
abbrev pub W : Type 0 → Type 0
W A = Exec Panic Sender A

-- What the callback has been given after some reports.
abbrev pub given : Bool → List TellError → List TellError → List TellError
given true heard errors = heard ++ errors
given false heard errors = heard

abbrev pub told : Sender → List TellError → Sender
told s errors = record s { reports = s.reports ++ errors; heard = given s.on_error s.heard errors }

-- `report`
abbrev pub report : TellError → W Unit
report e = modify (λ s. told s (e ∷ []))

abbrev pub on_transport : {A : Type 0} → Net A → W (Result TellError A)
on_transport net s = elim (net s.transport) [
  | done a t ↦ done (ok a) (record s { transport = t })
  | failed e t ↦ done (err e) (record s { transport = t })
]

-- A method of the disk buffer, and its `io::Result`.
abbrev pub stored : Sender → State → Sender
stored s t = record s { disk_buffer = some t.buf; disk = t.disk }

abbrev pub on_buffer : {A : Type 0} → M A → DiskBuffer → W (Result Kind A)
on_buffer m b s = elim (m (record { buf = b; disk = s.disk })) [
  | done a t ↦ done (ok a) (stored s t)
  | failed k t ↦ done (err k) (stored s t)
]

-- `backoff`, in milliseconds
abbrev pub backoff : ℕ → ℕ
backoff attempt = 100 * 2 ^ min attempt 10

abbrev pub sleep : ℕ → W Unit
sleep ms = modify (λ s. record s { slept = s.slept ++ ms ∷ [] })

-- The `match` on the result of `buf.append`.
abbrev pub append_result : Result Kind ℕ → W Unit
append_result (ok evicted) =
    when ltb 0 evicted
    then report (
        buffer (
          lit "disk buffer full — evicted "
          ∷ num evicted
          ∷ lit " bytes of oldest data to make room"
          ∷ []))
    else pure tt
append_result (err k) = report (buffer (lit "failed to buffer batch: " ∷ shown k ∷ []))

abbrev pub append_into : Option DiskBuffer → W Unit
append_into none = pure tt
append_into (some b) = do
  batch ← gets (λ s. s.batch_buf)
  r ← on_buffer (append batch) b
  append_result r

-- `append_to_wal`
unfoldable pub append_to_wal : W Unit
append_to_wal = do b ← gets (λ s. s.disk_buffer); append_into b

-- The loop over `attempt..attempts`, `left` attempts being left: the last error, or none if one was
-- delivered.
abbrev pub tried : ℕ → ℕ → Result TellError Unit → W (Option TellError) → W (Option TellError)
tried attempt left (ok _) again = pure none
tried attempt zero (err e) again = pure (some e)
tried attempt (suc left) (err e) again = do sleep (backoff attempt); again

unfoldable pub attempt_loop : ℕ → ℕ → W (Option TellError)
attempt_loop attempt zero = do
  batch ← gets (λ s. s.batch_buf)
  r ← on_transport (send_frame batch)
  tried attempt zero r (pure none)
attempt_loop attempt (suc left) = do
  batch ← gets (λ s. s.batch_buf)
  r ← on_transport (send_frame batch)
  tried attempt (suc left) r (attempt_loop (suc attempt) left)

-- `attempts`: `max_retries + 1` is a sum of 32 bits, and wraps where overflow is not checked.
abbrev pub attempts : Option DiskBuffer → ℕ → ℕ
attempts none max_retries = (max_retries + 1) % 2 ^ 32
attempts (some b) max_retries = 1

-- `for attempt in 0..attempts`
unfoldable pub all_attempts : ℕ → W (Option TellError)
all_attempts zero = pure none
all_attempts (suc left) = attempt_loop 0 left

abbrev pub fall_back : Option TellError → Option DiskBuffer → W Unit
fall_back none b = pure tt
fall_back (some e) none = report e
fall_back (some e) (some b) = append_to_wal

-- `send_with_fallback`
unfoldable pub send_with_fallback : W Unit
send_with_fallback = do
  s ← gets (λ s. s)
  last_err ← all_attempts (attempts s.disk_buffer s.max_retries)
  fall_back last_err s.disk_buffer

-- `flush_queue`: each round takes an entry at least, as `batch_size` is at least 1.
unfoldable pub flush_queue : {T : Type 0} → ℕ → (List T → W Unit) → List T → W (List T)
flush_queue zero encode queue = pure queue
flush_queue (suc fuel) encode [] = pure []
flush_queue (suc fuel) encode (x ∷ xs) = do
  size ← gets (λ s. s.batch_size)
  encode (take (min (length (x ∷ xs)) size) (x ∷ xs))
  send_with_fallback
  flush_queue fuel encode (drop (min (length (x ∷ xs)) size) (x ∷ xs))

-- `save_queue`
unfoldable pub save_queue : {T : Type 0} → ℕ → (List T → W Unit) → List T → W (List T)
save_queue zero encode queue = pure queue
save_queue (suc fuel) encode [] = pure []
save_queue (suc fuel) encode (x ∷ xs) = do
  size ← gets (λ s. s.batch_size)
  encode (take (min (length (x ∷ xs)) size) (x ∷ xs))
  append_to_wal
  save_queue fuel encode (drop (min (length (x ∷ xs)) size) (x ∷ xs))

-- What `drain_disk_buffer` does when the frame it took could not be sent.
abbrev pub rebuffered : Result Kind ℕ → W Unit
rebuffered (ok _) = pure tt
rebuffered (err k) = report (buffer (lit "failed to re-buffer frame: " ∷ shown k ∷ []))

abbrev pub put_back : List ℕ → TellError → Option DiskBuffer → W Unit
put_back frame e none = pure tt
put_back frame e (some b) = do r ← on_buffer (append frame) b; rebuffered r; report e

abbrev pub frame_sent : List ℕ → Result TellError Unit → W Unit → W Unit
frame_sent frame (ok _) next = next
frame_sent frame (err e) next = do b ← gets (λ s. s.disk_buffer); put_back frame e b

abbrev pub frame_taken : Result Kind (Option (List ℕ)) → W Unit → W Unit
frame_taken (ok none) next = pure tt
frame_taken (err k) next = report (buffer (lit "disk buffer read error: " ∷ shown k ∷ []))
frame_taken (ok (some frame)) next = do r ← on_transport (send_frame frame); frame_sent frame r next

abbrev pub take_from : Option DiskBuffer → W Unit → W Unit
take_from none next = pure tt
take_from (some b) next = do taken ← on_buffer drain_next b; frame_taken taken next

-- The loop of `drain_disk_buffer`. A frame has four bytes at least, so that there are fewer rounds
-- than bytes: see `Worker.Drain`.
unfoldable pub drain_loop : ℕ → W Unit
drain_loop zero = pure tt
drain_loop (suc fuel) = do b ← gets (λ s. s.disk_buffer); take_from b (drain_loop fuel)

abbrev pub committed : Result Kind Unit → W Unit
committed (ok _) = pure tt
committed (err k) = report (buffer (lit "disk buffer commit error: " ∷ shown k ∷ []))

abbrev pub commit_from : Option DiskBuffer → W Unit
commit_from none = pure tt
commit_from (some b) = do r ← on_buffer commit b; committed r

abbrev pub drain_from : Option DiskBuffer → W Unit
drain_from none = pure tt
drain_from (some b) =
    when is_empty b
    then pure tt
    else do drain_loop (suc (buffered_bytes b)); b ← gets (λ s. s.disk_buffer); commit_from b

-- `drain_disk_buffer`
unfoldable pub drain_disk_buffer : W Unit
drain_disk_buffer = do b ← gets (λ s. s.disk_buffer); drain_from b

-- What `rw` and `simp` look into when they run these functions.
pub ruleset deliveries = (running, on_transport, on_buffer)
