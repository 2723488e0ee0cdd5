-- ===== src/Buffer/Holds.antt =====
-- The invariant of the disk buffer of crates/tell/src/buffer.rs that ties its positions and the log
-- to the frames that are still to be handed out, and its small methods on a disk whose calls pass.
use tell_rs.Prelude.{
  ℕ, ◌+◌, ◌≤◌, ◌<◌, ◌≡◌, refl, ap, List, [], length, drop, length-drop, arith, done, running, All,
  drop_past, none, some, ◌⊎◌, inl, inr, true, Bool-cases, Succeeds,
}
use tell_rs.Buffer.Disk.{Disk, holds, sys, open_reader, open_append, opened, write_cursor}
use tell_rs.Buffer.Wal.{
  State, get_reader, reset_to_end, persist_cursor, file, max_frame_len, u64_mod,
}
use tell_rs.Buffer.Frames.{Frame, log_bytes, total_size, length-log_bytes}

-- `fs` are the unconsumed frames, and every system call to come passes.
pub record Holds (s : State) (fs : List Frame) : Type 0 where
  pub quiet : s.coming ≡ []
  pub pending : drop s.read_pos s.wal ≡ log_bytes fs
  pub ends : s.write_pos ≡ length s.wal
  pub starts : s.read_pos ≤ s.write_pos
  pub fits : length s.wal < u64_mod
  pub framed : All (λ f. length f ≤ max_frame_len) fs
  pub at_start : (s.reader ≡ none) ⊎ (s.reader ≡ some s.read_pos)

-- The unconsumed bytes of the log are `bytes`, whole frames or not.
pub record Ready (s : State) (bytes : List ℕ) : Type 0 where
  pub quiet : s.coming ≡ []
  pub pending : drop s.read_pos s.wal ≡ bytes
  pub ends : s.write_pos ≡ length s.wal
  pub starts : s.read_pos ≤ s.write_pos
  pub fits : length s.wal < u64_mod
  pub at_start : (s.reader ≡ none) ⊎ (s.reader ≡ some s.read_pos)

pub Holds-Ready : {s : State} {fs : List Frame} → Holds s fs → Ready s (log_bytes fs)
Holds-Ready h = record {
  quiet = h.quiet;
  pending = h.pending;
  ends = h.ends;
  starts = h.starts;
  fits = h.fits;
  at_start = h.at_start;
}

pub Ready-Holds :
    {s : State} (fs : List Frame)
    → Ready s (log_bytes fs)
    → All (λ f. length f ≤ max_frame_len) fs
    → Holds s fs
Ready-Holds fs h framed = record {
  quiet = h.quiet;
  pending = h.pending;
  ends = h.ends;
  starts = h.starts;
  fits = h.fits;
  framed = framed;
  at_start = h.at_start;
}

pub remaining_lem :
    {s : State} {bytes : List ℕ} → Ready s bytes → s.read_pos + length bytes ≡ s.write_pos
remaining_lem {s} h =
    omega (arith, ap length h.pending, length-drop s.read_pos s.wal, h.starts, h.ends)

-- The unconsumed part of the log is as long as its frames.
pub room : {s : State} {fs : List Frame} → Holds s fs → s.read_pos + total_size fs ≡ s.write_pos
room {s} {fs} h =
    omega (arith, ap length h.pending, length-drop s.read_pos s.wal, length-log_bytes fs)

pub sys_quiet :
    (effect : Disk → Disk) (d : Disk) → d.coming ≡ [] → sys effect d ≡ done tt (effect d)
unfolding sys
sys_quiet effect d q = rw q

pub open_reader_quiet : (pos : ℕ) (d : Disk) → d.coming ≡ [] → open_reader pos d ≡ done pos d
unfolding open_reader
open_reader_quiet pos d q = rw q

pub write_cursor_quiet :
    (pos : ℕ) (d : Disk)
    → d.coming ≡ []
    → write_cursor pos d ≡ done tt (record d { cursor = holds pos })
unfolding write_cursor
write_cursor_quiet pos d q = rw q

module _ (s : State) (q : s.coming ≡ []) where
  pub get_reader_quiet :
      (s.reader ≡ none) ⊎ (s.reader ≡ some s.read_pos)
      → get_reader s
        ≡ done s.read_pos (record s { buf = record s.buf { reader = some s.read_pos } })
  unfolding get_reader open_reader
  get_reader_quiet h = ground arith

  pub persist_cursor_quiet :
      persist_cursor s
      ≡ done tt (record s {
        buf = record s.buf { persisted_pos = s.read_pos };
        disk = record s.disk { cursor = holds s.read_pos };
      })
  unfolding persist_cursor
  persist_cursor_quiet = rw (running, write_cursor_quiet s.read_pos s.disk q)

-- The handle is there afterwards, and nothing else has changed.
pub Holds-file :
    {s : State} {fs : List Frame}
    → Holds s fs
    → Succeeds
        (file s)
        (λ _ t. Holds t fs × (t.buf ≡ record s.buf { wal_file = true }) × (t.wal ≡ s.wal))
unfolding file open_append
Holds-file {s} h = elim (Bool-cases s.wal_file) [
  | inl e ↦ (tt, s, ground arith, (h, λ i. record s.buf { wal_file = e i }, refl))
  | inr e ↦ (
    tt,
    record s {
      buf = record s.buf { wal_file = true };
      disk = record s.disk { entry = opened s.entry };
    },
    rw (running, e, h.quiet),
    (
      record {
        quiet = h.quiet;
        pending = h.pending;
        ends = h.ends;
        starts = h.starts;
        fits = h.fits;
        framed = h.framed;
        at_start = h.at_start;
      },
      refl,
      refl,
    ),
  )
]

-- Wherever the reader stands, `reset_to_end` leaves nothing to be handed out.
pub reset_to_end_lem :
    (s : State)
    → s.coming ≡ []
    → s.write_pos ≡ length s.wal
    → length s.wal < u64_mod
    → Succeeds (reset_to_end s) (λ _ t. Holds t [])
unfolding reset_to_end
reset_to_end_lem s quiet ends fits = (
  tt,
  _,
  persist_cursor_quiet _ quiet,
  record {
    quiet = quiet;
    pending = drop_past s.wal s.write_pos (omega arith);
    ends = ends;
    starts = omega arith;
    fits = fits;
    framed = tt;
    at_start = inl refl;
  },
)
