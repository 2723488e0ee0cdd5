-- ===== src/Buffer/Reopen.antt =====
-- `drop` of crates/tell/src/buffer.rs and a restart after it: what the next process finds.
use tell_rs.Prelude.{
  ℕ, ◌^◌, ◌==◌, ◌≡◌, ◌≢◌, ap, ◌∙◌, List, [], ◌∷◌, arith, final, inl, inr, true, Bool-cases,
  Succeeds, lt→ltb,
}
use tell_rs.Buffer.Disk.{link_to_file, holds}
use tell_rs.Buffer.Wal.{State, open_buffer, on_drop, drain_next}
use tell_rs.Buffer.Frames.{Frame, log_bytes}
use tell_rs.Buffer.Holds.{Holds, Holds-Ready, Ready-Holds, write_cursor_quiet}
use tell_rs.Buffer.Drain.{taken, Ready-taken, drain_next_frame}
use tell_rs.Buffer.Recovery.{open_buffer_lem, on}

on_drop_lem :
    (s : State)
    → s.coming ≡ []
    → s.cursor ≡ holds s.persisted_pos
    → on_drop s ≡ record s.disk { cursor = holds s.read_pos }
unfolding on_drop
on_drop_lem s quiet persisted = elim (Bool-cases (s.read_pos == s.persisted_pos)) [
  | inl e ↦ rw e (ap (λ c. record s.disk { cursor = c }) (persisted ∙ ap holds (same e)))
  | inr e ↦ rw (e, write_cursor_quiet s.read_pos s.disk quiet)
]
  where
    same : (s.read_pos == s.persisted_pos) ≡ true → s.persisted_pos ≡ s.read_pos
    same e = ground arith

-- While no system call on the disk fails: if the cursor file agrees with persisted_pos and the log
-- is not a link, dropping the buffer and opening it again gives the frames that it held, with the
-- new limit.
pub reopen_lem :
    (s : State) (fs : List Frame) (max : ℕ)
    → Holds s fs
    → s.cursor ≡ holds s.persisted_pos
    → s.entry ≢ link_to_file
    → Succeeds (open_buffer max (on_drop s)) (λ b d. Holds (on b d) fs × (b.max_bytes ≡ max))
reopen_lem s fs max h persisted direct = rw (on_drop_lem s h.quiet persisted) (
    open_buffer_lem max s.read_pos (record s.disk { cursor = holds s.read_pos }) fs h.quiet
      (rw (lt→ltb s.read_pos (2 ^ 64) (omega (arith, h.starts, h.ends, h.fits)))) direct h.fits
      h.pending h.framed)

-- While no system call on the disk fails: if the buffer is dropped after drain_next has handed out
-- a frame, before it is committed or put back, a restart holds the other frames only: the frame
-- that was handed out is not there.
pub taken_frame_forgotten :
    (s : State) (f : Frame) (fs : List Frame) (max : ℕ)
    → Holds s (f ∷ fs)
    → s.cursor ≡ holds s.persisted_pos
    → s.entry ≢ link_to_file
    → Succeeds
        (open_buffer max (on_drop (final (drain_next s))))
        (λ b d. Holds (on b d) fs × (b.max_bytes ≡ max))
taken_frame_forgotten s f fs max h persisted direct =
    rw (ap final (drain_next_frame s f (log_bytes fs) (Holds-Ready h) h.framed.0)) (
      reopen_lem (taken s f (log_bytes fs) (Holds-Ready h) h.framed.0) fs max
        (Ready-Holds fs (Ready-taken s f (log_bytes fs) (Holds-Ready h) h.framed.0) h.framed.1)
        persisted direct)
