-- ===== src/Worker/Save.antt =====
-- `save_queue` of crates/tell/src/worker/mod.rs: at a shutdown that is out of time, the entries go
-- into the disk buffer without any network.
use tell_rs.Prelude.{
  ℕ, zero, suc, ◌+◌, ◌≤◌, ◌<◌, ◌≡◌, refl, ap, subst, sym, ◌∙◌, List, [], ◌∷◌, ◌++◌, length, take,
  drop, min, All, append_assoc, append-nil, arith, some, done, Succeeds, running, length-drop,
}
use tell_rs.Buffer.Wal.{DiskBuffer, append, u64_mod, max_frame_len}
use tell_rs.Buffer.Frames.{Frame, total_size, total_size-snoc, frame_size}
use tell_rs.Buffer.Holds.{Holds}
use tell_rs.Buffer.Evict.{kept, lacking, kept_nothing, freed_by_nothing}
use tell_rs.Buffer.Append.{append_lem}
use tell_rs.Buffer.Recovery.{on}
use tell_rs.Worker.Defs.{told, Sender, stored, append_to_wal, save_queue}
use tell_rs.Worker.Drain.{on_buffer_lem}
use tell_rs.Worker.Send.{append_run, eviction_report}
use tell_rs.Worker.Send.{Keeps}
use tell_rs.Worker.Chunks.{chunks_of, Cuts, chunks_of-Cuts}
use tell_rs.Worker.Batches.{
  Config, IsReady, IsReady-IsEncoded, IsReady-Keeps, Encoder, Numbered, encoded,
}

-- The buffer holds `fs`, and has room for `more` bytes of frames.
pub record HasRoom (s : Sender) (fs : List Frame) (more : ℕ) : Type 0 where
  pub b : DiskBuffer
  pub has : s.disk_buffer ≡ some b
  pub held : Holds (on b s.disk) fs
  pub room : total_size fs + more ≤ b.max_bytes
  pub small : length s.disk.wal + more < u64_mod

HasRoom-encoded :
    {s : Sender} {fs : List Frame} {more : ℕ} (out batch : List ℕ)
    → HasRoom s fs more
    → HasRoom (encoded s out batch) fs more
HasRoom-encoded out batch r = record {
  b = r.b;
  has = r.has;
  held = r.held;
  room = r.room;
  small = r.small;
}

-- With room, the batch comes last and nothing is reported.
append_with_room :
    (s : Sender) (fs : List Frame) (more : ℕ)
    → HasRoom s fs (frame_size s.batch_buf + more)
    → length s.batch_buf ≤ max_frame_len
    → Succeeds (append_to_wal s) (λ _ t.
      HasRoom t (fs ++ s.batch_buf ∷ []) more
      × (t.reports ≡ s.reports)
      × Keeps s t
      × (t.transport ≡ s.transport))
append_with_room s fs more r fits =
    let (n, v, puts, (en, hv, m, w)) =
      on_buffer_lem (append s.batch_buf) r.b s
        (append_lem (on r.b s.disk) fs s.batch_buf r.held fits (omega (arith, r.small))) in
    (
      tt,
      told (stored s v) (eviction_report n),
      append_run s r.b n v r.has puts,
      (
        record {
          b = v.buf;
          has = refl;
          held =
              subst (λ left. Holds v (left ++ s.batch_buf ∷ []))
                (ap (λ k. kept k fs) nothing_lacks ∙ kept_nothing fs) hv;
          room = omega (arith, r.room, m, total_size-snoc fs s.batch_buf);
          small = omega (arith, r.small, w);
        },
        ap (λ k. s.reports ++ eviction_report k) (en ∙ freed_by_nothing fs _ nothing_lacks)
            ∙ append-nil s.reports,
        record {
          next_id = refl;
          api_key = refl;
          service = refl;
          source = refl;
          batch_size = refl;
          max_retries = refl;
          answered = refl;
        },
        refl,
      ),
    )
  where
    nothing_lacks : lacking (on r.b s.disk) fs (frame_size s.batch_buf) ≡ 0
    nothing_lacks = omega (arith, r.room)

pub HasRoom-same :
    {s : Sender} {fs : List Frame} {m n : ℕ} → m ≡ n → HasRoom s fs m → HasRoom s fs n
HasRoom-same {s} {fs} e r = subst (λ (n : ℕ). HasRoom s fs n) e r

module _ {c : Config} {T : Type 0} (encoder : Encoder c T) where
  -- How many bytes the chunks will take in the log.
  abbrev pub saved_size : List (List T) → ℕ
  saved_size [] = 0
  saved_size (chunk ∷ chunks) = (4 + encoder.size chunk) + saved_size chunks

  -- A chunk that fits its encoder, and a batch that fits the disk buffer.
  abbrev pub IsSavable : List T → Type 0
  IsSavable chunk = encoder.Fits chunk × (encoder.size chunk ≤ max_frame_len)

  -- The batches of the chunks, in order, are behind the frames that were there; the network has not
  -- been used, and there is no report.
  abbrev pub Saved : List Frame → ℕ → List (List T) → Sender → Sender → Type 0
  Saved fs more chunks s t =
      (batches : List Frame) × Numbered encoder.Encoded s.next_id chunks batches
      × HasRoom t (fs ++ batches) more
      × (t.reports ≡ s.reports)
      × (t.transport ≡ s.transport)

  nothing-Saved :
      (fs : List Frame) (more : ℕ) (s : Sender) → HasRoom s fs (0 + more) → Saved fs more [] s s
  nothing-Saved fs more s r = (
    [],
    tt,
    subst (λ gs. HasRoom s gs more) (sym (append-nil fs)) (HasRoom-same (omega arith) r),
    refl,
    refl,
  )

  module _ (fuel : ℕ) (x : T) (xs : List T) (s t u : Sender) where
    -- The first round takes `size` entries at most.
    abbrev Round : ℕ → Type 0
    Round size =
        encoder.encode (take (min (length (x ∷ xs)) size) (x ∷ xs)) s ≡ done tt t
        → append_to_wal t ≡ done tt u
        → save_queue (suc fuel) encoder.encode (x ∷ xs) s
          ≡ save_queue fuel encoder.encode (drop (min (length (x ∷ xs)) size) (x ∷ xs)) u

    save_first : Round s.batch_size
    unfolding save_queue
    save_first encodes puts = rw (running, encodes, puts)

    save_step : s.batch_size ≡ c.batch_size → Round c.batch_size
    save_step size = subst Round size save_first

  -- A first chunk whose batch is in the buffer, and the rest of the queue after it.
  with_first :
      (chunk : List T) (chunks : List (List T)) (fs : List Frame) (more : ℕ) (s t u : Sender)
      (out batch : Frame)
      → encoder.Encoded s.next_id chunk batch
      → Keeps (encoded s out batch) t
      → t.reports ≡ s.reports
      → t.transport ≡ s.transport
      → Saved (fs ++ batch ∷ []) more chunks t u
      → Saved fs more (chunk ∷ chunks) s u
  with_first chunk chunks fs more s t u out batch good keeps silent same
        (batches, numbered, r, silent', same') =
      (
        batch ∷ batches,
        (good, subst (λ (n : ℕ). Numbered encoder.Encoded n chunks batches) keeps.next_id numbered),
        subst (λ gs. HasRoom u gs more) (append_assoc fs (batch ∷ []) batches) r,
        silent' ∙ silent,
        same' ∙ same,
      )

  pub save_chunks :
      (fuel : ℕ) (queue : List T) (s : Sender) (fs : List Frame) (more : ℕ)
      → IsReady c s
      → 0 < c.batch_size
      → length queue ≤ fuel
      → All IsSavable (chunks_of fuel c.batch_size queue)
      → HasRoom s fs (saved_size (chunks_of fuel c.batch_size queue) + more)
      → Succeeds (save_queue fuel encoder.encode queue s) (λ left t.
        (left ≡ []) × Saved fs more (chunks_of fuel c.batch_size queue) s t × IsReady c t)
  unfolding chunks_of
  save_chunks zero [] s fs more ready size enough fits r =
      ([], s, unfold save_queue in refl, (refl, nothing-Saved fs more s r, ready))
  save_chunks zero (x ∷ xs) s fs more ready size enough fits r = absurd (omega arith)
  save_chunks (suc fuel) [] s fs more ready size enough fits r =
      ([], s, unfold save_queue in refl, (refl, nothing-Saved fs more s r, ready))
  save_chunks (suc fuel) (x ∷ xs) s fs more ready size enough ((first_fits, short), fits) r =
      let n = min (length (x ∷ xs)) c.batch_size in
      let chunk = take n (x ∷ xs) in
      let rest = chunks_of fuel c.batch_size (drop n (x ∷ xs)) in
      let (_, t, encodes, (same, long, good)) = encoder.encodes chunk s ready first_fits in
      let next = encoded s t.data_buf t.batch_buf in
      let (_, u, puts, (r', silent, keeps, same')) =
        append_with_room next fs (saved_size rest + more)
          (HasRoom-encoded t.data_buf t.batch_buf (HasRoom-same (omega (arith, long)) r))
          (omega (arith, long, short)) in
      let (left, v, run, (gone, saved, ready')) =
        save_chunks fuel (drop n (x ∷ xs)) u (fs ++ t.batch_buf ∷ []) more
          (IsReady-Keeps (subst (IsReady c) same (IsReady-IsEncoded ready same)) keeps) size
          (omega (arith, length-drop n (x ∷ xs))) fits r' in
      (
        left,
        v,
        save_step fuel x xs s next u ready.batch_size (encodes ∙ ap (λ v. done tt v) same) puts
            ∙ run,
        (
          gone,
          with_first chunk rest fs more s u v t.data_buf t.batch_buf good keeps silent same' saved,
          ready',
        ),
      )

  -- While no system call on the disk fails: if the disk buffer has room for the batches and `more`
  -- bytes, and none exceeds 256 MiB, save_queue empties the queue: it is cut into chunks of at
  -- least one and at most batch_size entries that make up the whole queue in order, each chunk is
  -- encoded under consecutive batch ids, and the batches are, in order, behind the frames in the
  -- buffer, which has room for `more` bytes; nothing is reported and the network is not used. The
  -- fuel is the length of the queue, and every chunk fits its encoder.
  pub save_queue_lem :
      (fuel : ℕ) (queue : List T) (s : Sender) (fs : List Frame) (more : ℕ)
      → IsReady c s
      → 0 < c.batch_size
      → length queue ≤ fuel
      → All IsSavable (chunks_of fuel c.batch_size queue)
      → HasRoom s fs (saved_size (chunks_of fuel c.batch_size queue) + more)
      → Succeeds (save_queue fuel encoder.encode queue s) (λ left t.
        (left ≡ [])
        × ((chunks : List (List T)) × Cuts c.batch_size queue chunks × Saved fs more chunks s t))
  save_queue_lem fuel queue s fs more ready size enough fits r =
      let (left, t, run, (gone, saved, _)) =
        save_chunks fuel queue s fs more ready size enough fits r in
      (
        left,
        t,
        run,
        (
          gone,
          (
            chunks_of fuel c.batch_size queue,
            chunks_of-Cuts fuel c.batch_size queue size enough,
            saved,
          ),
        ),
      )
