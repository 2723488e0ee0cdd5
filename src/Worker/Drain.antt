-- ===== src/Worker/Drain.antt =====
-- `drain_disk_buffer` of crates/tell/src/worker/mod.rs: a pass over the disk buffer that runs to its end.
use tell_rs.Prelude.{
  ℕ, zero, suc, ◌+◌, ◌-◌, ◌≤◌, ◌<◌, ◌≡◌, refl, ap, sym, subst, ◌∙◌, inl, inr, false, List, [], ◌∷◌,
  ◌++◌, length, map, append_assoc, append-nil, arith, none, some, ok, Run, done, failed, Succeeds,
  leb, Bool-cases,
}
use tell_rs.Encoding.Helpers.{Panic}
use tell_rs.Errors.{TellError}
use tell_rs.Buffer.Wal.{
  DiskBuffer, State, M, append, drain_next, commit, u64_mod, max_frame_len, is_empty,
  buffered_bytes,
}
use tell_rs.Buffer.Frames.{Frame, total_size, frame_size}
use tell_rs.Buffer.Holds.{Holds, room}
use tell_rs.Buffer.Drain.{drain_next_lem}
use tell_rs.Buffer.Evict.{kept, lacking, kept_nothing}
use tell_rs.Buffer.Append.{append_lem}
use tell_rs.Buffer.Compact.{commit_lem}
use tell_rs.Buffer.Recovery.{on}
use tell_rs.Transport.{TcpTransport, send_frame, wire_bytes}
use tell_rs.Transport.Send.{Delivered, send_frame_lem}
use tell_rs.Worker.Defs.{
  Sender, told, deliveries, on_buffer, stored, drain_loop, drain_from, drain_disk_buffer,
}

-- Of the frames `fs` those in `sent` were sent and those in `left` are in the buffer afterwards: all
-- were sent, or one could not be sent, and stands behind those that were not tried.
pub data Passed : List Frame → List Frame → List Frame → Type 0 where
  all_sent : (fs : List Frame) → Passed fs fs []
  stopped :
      (sent : List Frame) (f : Frame) (rest : List Frame)
      → Passed (sent ++ f ∷ rest) sent (rest ++ f ∷ [])

one_more :
    (f : Frame) {fs sent left : List Frame} → Passed fs sent left → Passed (f ∷ fs) (f ∷ sent) left
one_more f (all_sent fs) = all_sent (f ∷ fs)
one_more f (stopped sent g rest) = stopped (f ∷ sent) g rest

-- The disk buffer is there, and holds `fs`.
abbrev pub Buffers : Sender → List Frame → Type 0
Buffers s fs = (b : DiskBuffer) × (s.disk_buffer ≡ some b) × Holds (on b s.disk) fs

abbrev pub Drained : Sender → List Frame → Sender → Type 0
Drained s fs t =
    (sent : List Frame) × (left : List Frame) × Passed fs sent left
    × (t.transport.handed ≡ s.transport.handed ++ map wire_bytes sent)
    × Buffers t left

-- A method that succeeds on the buffer and the disk succeeds within the worker.
pub on_buffer_lem :
    {A : Type 0} (m : M A) (b : DiskBuffer) (s : Sender) {P : A → State → Type 0}
    → Succeeds (m (on b s.disk)) P
    → (a : A) × (u : State) × (on_buffer m b s ≡ done (ok a) (stored s u)) × P a u
on_buffer_lem m b s (a, u, run, p) = (a, u, rw (deliveries, run), p)

module _ (fuel : ℕ) (f : Frame) (fs : List Frame) (s : Sender) (b : DiskBuffer)
    (has : s.disk_buffer ≡ some b) (u : State)
    (takes : on_buffer drain_next b s ≡ done (ok (some f)) (stored s u)) where
  step_sent :
      (t : TcpTransport) (r : Run Panic Sender Unit)
      → send_frame f s.transport ≡ done tt t
      → drain_loop fuel (record (stored s u) { transport = t }) ≡ r
      → drain_loop (suc fuel) s ≡ r
  unfolding drain_loop
  step_sent t r sends rest = rw (deliveries, has, takes, sends) rest

  -- The state after a frame that could not be sent has been put back.
  abbrev given_back : State → TcpTransport → TellError → Sender
  given_back v t e =
      let back : Sender = stored (record (stored s u) { transport = t }) v in told back (e ∷ [])

  step_refused :
      (t : TcpTransport) (e : TellError) (n : ℕ) (v : State)
      → send_frame f s.transport ≡ failed e t
      → on_buffer (append f) u.buf (record (stored s u) { transport = t })
        ≡ done (ok n) (stored (record (stored s u) { transport = t }) v)
      → drain_loop (suc fuel) s ≡ done tt (given_back v t e)
  unfolding drain_loop
  step_refused t e n v refuses puts = rw (deliveries, has, takes, refuses, puts)

  -- Where `f` has been taken, and the rest of the pass is known.
  after_send :
      (framed : length f ≤ max_frame_len) (h : Holds u fs)
      (within : frame_size f + total_size fs ≤ u.max_bytes)
      (small : length u.wal + frame_size f < u64_mod)
      → ((t : TcpTransport)
          → Succeeds
              (drain_loop fuel (record (stored s u) { transport = t }))
              (λ _ v. Drained (record (stored s u) { transport = t }) fs v))
      → Delivered f s.transport (send_frame f s.transport)
      → Succeeds (drain_loop (suc fuel) s) (λ _ t. Drained s (f ∷ fs) t)
  after_send framed h within small go_on (inl (t, sends, arrives, up)) =
      let (_, v, run, (sent, left, passed, got, holding)) = go_on t in
      (
        tt,
        v,
        step_sent t (done tt v) sends run,
        (
          f ∷ sent,
          left,
          one_more f passed,
          got
              ∙ ap (λ xs. xs ++ map wire_bytes sent) arrives
              ∙ append_assoc s.transport.handed (wire_bytes f ∷ []) (map wire_bytes sent),
          holding,
        ),
      )
  after_send framed h within small go_on (inr (t, e, refuses, arrives, down)) =
      let (n, v, puts, (_, hv, _, _)) =
        on_buffer_lem (append f) u.buf (record (stored s u) { transport = t })
          (append_lem u fs f h framed small) in
      (
        tt,
        given_back v t e,
        step_refused t e n v refuses puts,
        (
          [],
          fs ++ f ∷ [],
          stopped [] f fs,
          arrives ∙ sym (append-nil s.transport.handed),
          (
            v.buf,
            refl,
            subst (λ left. Holds v (left ++ f ∷ []))
                (ap (λ need. kept need fs) nothing_lacks ∙ kept_nothing fs) hv,
          ),
        ),
      )
    where
      nothing_lacks : lacking u fs (frame_size f) ≡ 0
      nothing_lacks = omega arith

step_empty :
    (fuel : ℕ) (s : Sender) (b : DiskBuffer)
    → s.disk_buffer ≡ some b
    → (u : State) → on_buffer drain_next b s ≡ done (ok none) (stored s u)
    → drain_loop (suc fuel) s ≡ done tt (stored s u)
unfolding drain_loop
step_empty fuel s b has u takes = rw (deliveries, has, takes)

drain_loop_lem :
    (fuel : ℕ) (fs : List Frame) (s : Sender) (b : DiskBuffer)
    → s.disk_buffer ≡ some b
    → Holds (on b s.disk) fs
    → total_size fs ≤ b.max_bytes
    → length s.disk.wal + total_size fs < u64_mod
    → total_size fs < fuel
    → Succeeds (drain_loop fuel s) (λ _ t. Drained s fs t)
drain_loop_lem zero fs s b has h within small enough = absurd (omega arith)
drain_loop_lem (suc fuel) [] s b has h within small enough =
    let (out, u, takes, (e, h', m, w)) =
      on_buffer_lem drain_next b s (drain_next_lem (on b s.disk) [] h) in
    (
      tt,
      stored s u,
      step_empty fuel s b has u (takes ∙ ap (λ o. done (ok o) (stored s u)) e),
      ([], [], all_sent [], sym (append-nil s.transport.handed), (u.buf, refl, h')),
    )
drain_loop_lem (suc fuel) (f ∷ fs) s b has h within small enough =
    let (out, u, takes, (e, h', m, w)) =
      on_buffer_lem drain_next b s (drain_next_lem (on b s.disk) (f ∷ fs) h) in
    let w' = ap length w in
    after_send fuel f fs s b has u (takes ∙ ap (λ o. done (ok o) (stored s u)) e) h.framed.0 h'
      (omega arith) (omega arith)
      (λ t.
        drain_loop_lem fuel fs (record (stored s u) { transport = t }) u.buf refl h' (omega arith)
          (omega arith) (omega arith))
      (send_frame_lem f s.transport)

whole_pass :
    (s : Sender) (b : DiskBuffer)
    → s.disk_buffer ≡ some b
    → leb b.write_pos b.read_pos ≡ false
    → (t : Sender) → drain_loop (suc (b.write_pos - b.read_pos)) s ≡ done tt t
    → (c : DiskBuffer) → t.disk_buffer ≡ some c
    → (u : State) → on_buffer commit c t ≡ done (ok tt) (stored t u)
    → drain_disk_buffer s ≡ done tt (stored t u)
unfolding drain_disk_buffer is_empty buffered_bytes
whole_pass s b has e t run c has' u commits =
    ap (λ o. drain_from o s) has ∙ rw (deliveries, e, run) (rw (deliveries, has', commits))

-- While no system call on the disk fails: with a disk buffer that holds frames within its limit, a
-- pass of drain_disk_buffer that is not cancelled hands the oldest frames to the connection, in
-- order, until all are handed over or one cannot be, and that one stands last in the buffer behind
-- those that were not tried: at the end of the pass each frame has been handed over or is in the
-- buffer, whatever the waits on the network end with. The log stays below 2^64 bytes.
pub drain_disk_buffer_lem :
    (s : Sender) (b : DiskBuffer) (fs : List Frame)
    → s.disk_buffer ≡ some b
    → Holds (on b s.disk) fs
    → total_size fs ≤ b.max_bytes
    → length s.disk.wal + total_size fs < u64_mod
    → Succeeds (drain_disk_buffer s) (λ _ t. Drained s fs t)
unfolding drain_disk_buffer is_empty buffered_bytes
drain_disk_buffer_lem s b fs has h within small = elim (Bool-cases (leb b.write_pos b.read_pos)) [
  | inl e ↦ (tt, s, ap (λ o. drain_from o s) has ∙ rw (deliveries, e), nothing fs h (ground arith))
  | inr e ↦ pass e (
      drain_loop_lem (suc (b.write_pos - b.read_pos)) fs s b has h within small
        (omega (arith, room h)))
]
  where
    pass :
        leb b.write_pos b.read_pos ≡ false
        → Succeeds (drain_loop (suc (b.write_pos - b.read_pos)) s) (λ _ t. Drained s fs t)
        → Succeeds (drain_disk_buffer s) (λ _ t. Drained s fs t)
    pass e (_, t, run, (sent, left, passed, got, (c, has', h'))) =
        let (_, u, commits, (h'', _, _)) =
          on_buffer_lem commit c t (commit_lem (on c t.disk) left h') in
        (
          tt,
          stored t u,
          whole_pass s b has e t run c has' u commits,
          (sent, left, passed, got, (u.buf, refl, h'')),
        )

    nothing : (fs : List Frame) → Holds (on b s.disk) fs → b.write_pos ≤ b.read_pos → Drained s fs s
    nothing [] h e = ([], [], all_sent [], sym (append-nil s.transport.handed), (b, has, h))
    nothing (f ∷ fs) h e = absurd (omega (arith, room h))
