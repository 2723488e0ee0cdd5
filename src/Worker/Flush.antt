-- ===== src/Worker/Flush.antt =====
-- `flush_queue` of crates/tell/src/worker/mod.rs: the whole queue leaves in batches of at most
-- `batch_size` entries.
use tell_rs.Prelude.{
  ℕ, zero, suc, ◌+◌, ◌^◌, ◌≤◌, ◌<◌, ◌≡◌, refl, ap, subst, sym, ◌∙◌, inl, inr, List, [], ◌∷◌, ◌++◌,
  length, map, take, drop, min, All, append_assoc, append-nil, arith, none, done, Succeeds, running,
  length-drop,
}
use tell_rs.Errors.{TellError}
use tell_rs.Buffer.Frames.{Frame}
use tell_rs.Transport.{wire_bytes}
use tell_rs.Worker.Defs.{Sender, send_with_fallback, flush_queue}
use tell_rs.Worker.Send.{Keeps, send_without_buffer, SentOrReported}
use tell_rs.Worker.Chunks.{chunks_of, Cuts, chunks_of-Cuts}
use tell_rs.Worker.Batches.{
  Config, IsReady, IsReady-IsEncoded, IsReady-Keeps, Encoder, Numbered, encoded,
}

-- Of the batches those in `taken` have been handed to the connection, and for each of the others there
-- is an error.
pub data Accounted : List Frame → List Frame → List TellError → Type 0 where
  all_done : Accounted [] [] []
  sent :
      (batch : Frame) (batches taken : List Frame) (errors : List TellError)
      → Accounted batches taken errors
      → Accounted (batch ∷ batches) (batch ∷ taken) errors
  reported :
      (batch : Frame) (batches taken : List Frame) (e : TellError) (errors : List TellError)
      → Accounted batches taken errors
      → Accounted (batch ∷ batches) taken (e ∷ errors)

module _ {c : Config} {T : Type 0} (encoder : Encoder c T) where
  -- Each chunk has been encoded, in order, and is accounted for.
  abbrev pub Flushed : List (List T) → Sender → Sender → Type 0
  Flushed chunks s t =
      (batches : List Frame) × (taken : List Frame) × (errors : List TellError) × Numbered
        encoder.Encoded s.next_id chunks batches
      × Accounted batches taken errors
      × (t.transport.handed ≡ s.transport.handed ++ map wire_bytes taken)
      × (t.reports ≡ s.reports ++ errors)

  nothing : (s : Sender) → Flushed [] s s
  nothing s =
      ([], [], [], tt, all_done, sym (append-nil s.transport.handed), sym (append-nil s.reports))

  module _ (fuel : ℕ) (x : T) (xs : List T) (s t u : Sender) where
    -- The first round takes `size` entries at most.
    abbrev Round : ℕ → Type 0
    Round size =
        encoder.encode (take (min (length (x ∷ xs)) size) (x ∷ xs)) s ≡ done tt t
        → send_with_fallback t ≡ done tt u
        → flush_queue (suc fuel) encoder.encode (x ∷ xs) s
          ≡ flush_queue fuel encoder.encode (drop (min (length (x ∷ xs)) size) (x ∷ xs)) u

    flush_first : Round s.batch_size
    unfolding flush_queue
    flush_first encodes sends = rw (running, encodes, sends)

    flush_step : s.batch_size ≡ c.batch_size → Round c.batch_size
    flush_step size = subst Round size flush_first

  -- A first chunk that is accounted for, and the rest of the queue after it.
  with_first :
      (chunk : List T) (chunks : List (List T)) (s t u : Sender) (out batch : Frame)
      → encoder.Encoded s.next_id chunk batch
      → Keeps (encoded s out batch) t
      → SentOrReported (encoded s out batch) t
      → Flushed chunks t u
      → Flushed (chunk ∷ chunks) s u
  with_first chunk chunks s t u out batch good keeps (inl (arrives, silent, _))
        (batches, got, errors, numbered, accounts, taken, reports) =
      (
        batch ∷ batches,
        batch ∷ got,
        errors,
        (good, subst (λ (n : ℕ). Numbered encoder.Encoded n chunks batches) keeps.next_id numbered),
        sent batch batches got errors accounts,
        taken
            ∙ ap (λ xs. xs ++ map wire_bytes got) arrives
            ∙ append_assoc s.transport.handed (wire_bytes batch ∷ []) (map wire_bytes got),
        reports ∙ ap (λ xs. xs ++ errors) silent,
      )
  with_first chunk chunks s t u out batch good keeps (inr (e, arrives, says, _, slept))
        (batches, got, errors, numbered, accounts, taken, reports) =
      (
        batch ∷ batches,
        got,
        e ∷ errors,
        (good, subst (λ (n : ℕ). Numbered encoder.Encoded n chunks batches) keeps.next_id numbered),
        reported batch batches got e errors accounts,
        taken ∙ ap (λ xs. xs ++ map wire_bytes got) arrives,
        reports ∙ ap (λ xs. xs ++ errors) says ∙ append_assoc s.reports (e ∷ []) errors,
      )

  pub flush_chunks :
      (fuel : ℕ) (queue : List T) (s : Sender)
      → IsReady c s
      → s.disk_buffer ≡ none
      → s.max_retries + 1 < 2 ^ 32
      → 0 < c.batch_size
      → length queue ≤ fuel
      → All encoder.Fits (chunks_of fuel c.batch_size queue)
      → Succeeds (flush_queue fuel encoder.encode queue s) (λ left t.
        (left ≡ [])
        × Flushed (chunks_of fuel c.batch_size queue) s t
        × IsReady c t
        × (t.disk_buffer ≡ none)
        × (t.max_retries ≡ s.max_retries)
        × (t.answered ≡ s.answered))
  unfolding chunks_of
  flush_chunks zero [] s ready lacks retries size enough fits =
      ([], s, unfold flush_queue in refl, (refl, nothing s, ready, lacks, refl, refl))
  flush_chunks zero (x ∷ xs) s ready lacks retries size enough fits = absurd (omega arith)
  flush_chunks (suc fuel) [] s ready lacks retries size enough fits =
      ([], s, unfold flush_queue in refl, (refl, nothing s, ready, lacks, refl, refl))
  flush_chunks (suc fuel) (x ∷ xs) s ready lacks retries size enough (first_fits, fits) =
      let n = min (length (x ∷ xs)) c.batch_size in
      let chunk = take n (x ∷ xs) in
      let (_, t, encodes, (same, _, good)) = encoder.encodes chunk s ready first_fits in
      let next = encoded s t.data_buf t.batch_buf in
      let (_, u, sends, (outcome, lacks', keeps)) = send_without_buffer next lacks retries in
      let (left, v, run, (gone, flushed, ready', lacks'', retries', answered')) =
        flush_chunks fuel (drop n (x ∷ xs)) u
          (IsReady-Keeps (subst (IsReady c) same (IsReady-IsEncoded ready same)) keeps) lacks'
          (subst (λ (n : ℕ). n + 1 < 2 ^ 32) (sym keeps.max_retries) retries) size
          (omega (arith, length-drop n (x ∷ xs))) fits in
      (
        left,
        v,
        flush_step fuel x xs s next u ready.batch_size (encodes ∙ ap (λ v. done tt v) same) sends
            ∙ run,
        (
          gone,
          with_first chunk (chunks_of fuel c.batch_size (drop n (x ∷ xs))) s u v t.data_buf
              t.batch_buf good keeps outcome flushed,
          ready',
          lacks'',
          retries' ∙ keeps.max_retries,
          answered' ∙ keeps.answered,
        ),
      )

  -- Without a disk buffer, flush_queue empties the queue: it is cut into chunks of at least one and
  -- at most batch_size entries that make up the whole queue in order, each chunk is encoded under
  -- consecutive batch ids, and each batch has been handed to the connection or an error is reported
  -- for it. max_retries is below 2^32 - 1, the fuel is the length of the queue, and every chunk
  -- fits its encoder.
  pub flush_queue_lem :
      (fuel : ℕ) (queue : List T) (s : Sender)
      → IsReady c s
      → s.disk_buffer ≡ none
      → s.max_retries + 1 < 2 ^ 32
      → 0 < c.batch_size
      → length queue ≤ fuel
      → All encoder.Fits (chunks_of fuel c.batch_size queue)
      → Succeeds (flush_queue fuel encoder.encode queue s) (λ left t.
        (left ≡ [])
        × ((chunks : List (List T)) × Cuts c.batch_size queue chunks × Flushed chunks s t))
  flush_queue_lem fuel queue s ready lacks retries size enough fits =
      let (left, t, run, (gone, flushed, _, _, _, _)) =
        flush_chunks fuel queue s ready lacks retries size enough fits in
      (
        left,
        t,
        run,
        (
          gone,
          (
            chunks_of fuel c.batch_size queue,
            chunks_of-Cuts fuel c.batch_size queue size enough,
            flushed,
          ),
        ),
      )
