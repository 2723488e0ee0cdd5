-- ===== src/Buffer/Crash.antt =====
-- A crash inside the compaction of crates/tell/src/buffer.rs: the log has been replaced by its tail,
-- the cursor file still counts from the start of the old log.
use tell_rs.Prelude.{
  ℕ, ◌<◌, ◌*◌, ◌==◌, ◌≡◌, refl, ap, ◌∙◌, List, [], ◌∷◌, ◌++◌, length, drop, replicate, arith, true,
  false, Succeeds, lt→ltb, le→ltb_false, le→leb, length-drop, final, take_all, some,
}
use tell_rs.Buffer.Disk.{
  Kind, Disk, regular, pass, fault, holds, sys, open_append, open_reader, rewrite_tail,
  write_cursor,
}
use tell_rs.Buffer.Wal.{
  State, methods, open_buffer, maybe_compact, compact, replace_wal, persist_cursor, is_empty, sub64,
}
use tell_rs.Buffer.Frames.{Frame, total_size}
use tell_rs.Prelude.{◌^◌}
use tell_rs.Buffer.Holds.{Holds, room}
use tell_rs.Buffer.Recovery.{open_buffer_quiet, resume_at}

-- The calls of a compaction up to the one that puts the new cursor in place pass, and that one is
-- not made any more.
abbrev pub struck : State → Kind → ℕ → State
struck s k n = record s { disk = record s.disk { coming = replicate 10 pass ++ fault k n ∷ [] } }

-- The disk that such a crash leaves.
abbrev torn : State → Disk
torn s = record s.disk { entry = regular; wal = drop s.read_pos s.wal; tmp = []; coming = [] }

module _ (s : State) (fs : List Frame) (h : Holds s fs) (rest : 0 < total_size fs)
    (mostly_read : s.write_pos < 2 * s.read_pos) (k : Kind) (n : ℕ) where
  crash_disk : (final (maybe_compact (struck s k n))).disk ≡ torn s
  unfolding maybe_compact compact replace_wal rewrite_tail open_reader open_append persist_cursor
      write_cursor sys
  crash_disk =
      rw
        (
          methods,
          writes,
          lt→ltb s.write_pos (2 * s.read_pos) mostly_read,
          reads,
          remains,
          take_all (drop s.read_pos s.wal) (sub64 s.write_pos s.read_pos)
              (omega (arith, tail_length)),
          le→ltb_false (length (drop s.read_pos s.wal)) (sub64 s.write_pos s.read_pos)
              (omega (arith, tail_length)),
        )
        (ap (λ w. record s.disk { entry = regular; wal = w; tmp = []; coming = [] })
          (take_all (drop s.read_pos s.wal) (sub64 s.write_pos s.read_pos)
            (omega (arith, tail_length))))
    where
      tail_length : length (drop s.read_pos s.wal) ≡ sub64 s.write_pos s.read_pos
      tail_length = omega (arith, length-drop s.read_pos s.wal, room h, h.ends, h.fits)

      writes : (s.write_pos == 0) ≡ false
      writes = ground (arith, room h)

      reads : (s.read_pos == 0) ≡ false
      reads = ground (arith, room h)

      remains : (sub64 s.write_pos s.read_pos == 0) ≡ false
      remains = ground (arith, room h, h.ends, h.fits)

  -- If more than half of the log is consumed and committed, frames are left, and compaction is cut
  -- off at the rename of the cursor file, the restarted buffer is empty: the frames are lost.
  pub crash_loses_frames :
      (max : ℕ)
      → s.cursor ≡ holds s.read_pos
      → Succeeds
          (open_buffer max (final (maybe_compact (struck s k n))).disk)
          (λ b _. is_empty b ≡ true)
  unfolding is_empty
  crash_loses_frames max persisted = (
    _,
    _,
    ap (open_buffer max) crash_disk
        ∙ open_buffer_quiet max s.read_pos (torn s) refl sound (λ e. cc e),
    rw
        (lt→ltb (length (drop s.read_pos s.wal)) s.read_pos
          (omega (arith, length-drop s.read_pos s.wal, room h, h.ends)))
        (le→leb (length (drop s.read_pos s.wal)) (length (drop s.read_pos s.wal)) (omega arith)),
  )
    where
      sound : resume_at s.cursor ≡ some s.read_pos
      sound = rw (persisted, lt→ltb s.read_pos (2 ^ 64) (omega (arith, room h, h.ends, h.fits)))
