-- ===== src/Buffer/Drain.antt =====
-- `drain_next` of crates/tell/src/buffer.rs hands out the frames of the log in order.
use tell_rs.Prelude.{
  ℕ, ◌+◌, ◌≤◌, ◌≡◌, refl, ap, sym, List, [], ◌∷◌, ◌++◌, length, length-append, arith, done,
  Succeeds, inr, le→leb, lt→leb_false, le→ltb_false, lt→leb_false, drop-drop, drop-append_exact,
  none, some,
}
use tell_rs.Buffer.Disk.{read_exact, read_frame_header}
use tell_rs.Buffer.Wal.{
  State, methods, drain_next, drain_frame, get_reader, read_own, max_frame_len, add64, sub64,
}
use tell_rs.Buffer.Holds.{
  Holds, Ready, Holds-Ready, Ready-Holds, remaining_lem, room, get_reader_quiet,
}
use mathlib.Core.List.{head?, tail}
use tell_rs.Buffer.Frames.{
  Frame, log_bytes, frame_bytes, frame_size, read_frame_header_quiet, read_body_quiet,
  length-frame_bytes,
}

module _ (s : State) (f : Frame) (rest : List ℕ) (h : Ready s (frame_bytes f ++ rest))
    (small : length f ≤ max_frame_len) where
  length_rest : s.read_pos + frame_size f + length rest ≡ s.write_pos
  length_rest =
      omega (arith, remaining_lem h, length-append (frame_bytes f) rest, length-frame_bytes f)

  header_at_start :
      read_frame_header (s.read_pos, s.disk) ≡ done (length f) (s.read_pos + 4, s.disk)
  header_at_start =
      read_frame_header_quiet f rest s.read_pos s.disk h.quiet h.pending
        (omega (arith, length_rest, h.ends)) (omega arith)

  body_at_start :
      read_exact (length f) (s.read_pos + 4, s.disk) ≡ done f (s.read_pos + 4 + length f, s.disk)
  body_at_start =
      read_body_quiet f rest s.read_pos s.disk h.quiet h.pending
        (omega (arith, length_rest, h.ends))

  -- The state after `f` has been handed out.
  abbrev pub taken : State
  taken = record s {
    buf = record s.buf {
      read_pos = add64 s.read_pos (frame_size f);
      reader = some (s.read_pos + 4 + length f);
    };
  }

  pub drain_next_frame : drain_next s ≡ done (some f) taken
  unfolding drain_next read_own drain_frame
  drain_next_frame =
      rw
        (
          methods,
          lt→leb_false s.write_pos s.read_pos (omega (arith, length_rest)),
          get_reader_quiet s h.quiet h.at_start,
        )
        (unfold get_reader in
          rw (
            methods,
            read_own,
            header_at_start,
            drain_frame,
            le→ltb_false max_frame_len (length f) small,
            le→ltb_false (sub64 s.write_pos s.read_pos) (length f + 4)
                (omega (arith, length_rest, h.ends, h.fits)),
            body_at_start,
          ))

  pub Ready-taken : Ready taken rest
  Ready-taken = record {
    quiet = h.quiet;
    pending =
        rw
          (
            ← drop-drop s.read_pos (frame_size f) (add64 s.read_pos (frame_size f)) s.wal
                (omega (arith, length_rest, h.ends, h.fits)),
            h.pending,
          )
          (drop-append_exact (frame_bytes f) rest (frame_size f) (sym (length-frame_bytes f)));
    ends = h.ends;
    starts = omega (arith, length_rest, h.ends, h.fits);
    fits = h.fits;
    at_start = inr (ap some (omega (arith, length_rest, h.ends, h.fits)));
  }

-- While no system call on the disk fails: on a log whose unconsumed part is a sequence of frames,
-- drain_next succeeds, returns the oldest frame and leaves the others, the limit and the log as
-- they were; on an empty one it returns nothing and the buffer stays empty.
pub drain_next_lem :
    (s : State) (fs : List Frame)
    → Holds s fs
    → Succeeds (drain_next s) (λ out t.
      (out ≡ head? fs) × Holds t (tail fs) × (t.max_bytes ≡ s.max_bytes) × (t.wal ≡ s.wal))
drain_next_lem s [] h = (
  none,
  s,
  unfold drain_next in rw (methods, le→leb s.write_pos s.read_pos (omega (arith, room h))),
  (refl, h, refl, refl),
)
drain_next_lem s (f ∷ fs) h = (
  some f,
  taken s f (log_bytes fs) (Holds-Ready h) h.framed.0,
  drain_next_frame s f (log_bytes fs) (Holds-Ready h) h.framed.0,
  (
    refl,
    Ready-Holds fs (Ready-taken s f (log_bytes fs) (Holds-Ready h) h.framed.0) h.framed.1,
    refl,
    refl,
  ),
)
