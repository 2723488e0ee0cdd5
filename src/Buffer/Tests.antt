-- ===== src/Buffer/Tests.antt =====
-- The disk buffer of crates/tell/src/buffer.rs on a small log: three frames of which the first is
-- consumed and committed.
use tell_rs.Prelude.{
  ℕ, length, ◌≤◌, ◌≡◌, refl, none, some, List, [], ◌∷◌, ◌++◌, arith, Succeeds, inl, true, final,
}
use mathlib.Core.List.{head?, tail}
use tell_rs.Bytes.{le_bytes}
use tell_rs.Buffer.Disk.{Disk, regular, holds, other}
use tell_rs.Buffer.Wal.{
  State, drain_next, on_drop, compact, commit, maybe_compact, append, evict_if_needed, open_buffer,
  buffered_bytes, is_empty,
}
use tell_rs.Buffer.Frames.{Frame, log_bytes}
use tell_rs.Buffer.Holds.{Holds, Ready}
use tell_rs.Buffer.Drain.{drain_next_lem}
use tell_rs.Buffer.Compact.{Keeps, compact_lem}
use tell_rs.Buffer.Compact.Commit.{commit_lasts}
use tell_rs.Buffer.Evict.{evict_if_needed_lem, freed_by, kept}
use tell_rs.Buffer.Append.{append_lem, append_bound}
use tell_rs.Buffer.Recovery.{open_buffer_lem, on}
use tell_rs.Buffer.Reopen.{reopen_lem, taken_frame_forgotten}
use tell_rs.Buffer.Torn.{IsTorn, drain_next_before_torn}
use tell_rs.Buffer.Crash.{crash_loses_frames, struck}

abbrev sent : Frame
sent = 1 ∷ 2 ∷ 3 ∷ 4 ∷ 5 ∷ 6 ∷ 7 ∷ 8 ∷ []

abbrev first : Frame
first = 11 ∷ 12 ∷ []

abbrev second : Frame
second = 21 ∷ []

abbrev disk : Disk
disk = record {
  entry = regular;
  wal = log_bytes (sent ∷ first ∷ second ∷ []);
  tmp = [];
  cursor = holds 12;
  coming = [];
}

abbrev state : State
state = record {
  buf = record {
    max_bytes = 20;
    write_pos = 23;
    read_pos = 12;
    persisted_pos = 12;
    wal_file = true;
    reader = none;
  };
  disk = disk;
}

abbrev two : List Frame
two = first ∷ second ∷ []

state-Holds : Holds state two
unfolding le_bytes
state-Holds = record {
  quiet = refl;
  pending = refl;
  ends = refl;
  starts = omega arith;
  fits = omega arith;
  framed = (omega arith, (omega arith, tt));
  at_start = inl refl;
}

drain_next_lem_example :
    Succeeds
      (drain_next state)
      (λ out t. (out ≡ head? two) × Holds t (tail two) × (t.max_bytes ≡ 20) × (t.wal ≡ disk.wal))
drain_next_lem_example = drain_next_lem state two state-Holds

compact_lem_example : Succeeds (compact state) (λ _ t. Keeps state two t)
compact_lem_example = compact_lem state two state-Holds

-- A frame has been consumed since the cursor was written.
abbrev ahead : State
ahead = record {
  buf = record state.buf { persisted_pos = 0 };
  disk = record disk { cursor = holds 0 };
}

ahead-Holds : Holds ahead two
unfolding le_bytes
ahead-Holds = record {
  quiet = refl;
  pending = refl;
  ends = refl;
  starts = omega arith;
  fits = omega arith;
  framed = (omega arith, (omega arith, tt));
  at_start = inl refl;
}

commit_lasts_example : Succeeds (commit ahead) (λ _ t.
    Keeps ahead two t
    × Succeeds (open_buffer 50 t.disk) (λ b d. Holds (on b d) two × (b.max_bytes ≡ 50)))
commit_lasts_example = commit_lasts ahead two 50 ahead-Holds refl refl

evict_if_needed_lem_example :
    Succeeds (evict_if_needed 10 state) (λ n t. (n ≡ freed_by 1 two) × Keeps state (kept 1 two) t)
evict_if_needed_lem_example = evict_if_needed_lem state two state-Holds 10 (omega arith)

-- The new frame has twelve bytes, three more than there is room for.
append_lem_example : Succeeds (append sent state) (λ n t.
    (n ≡ freed_by 3 two)
    × Holds t (kept 3 two ++ sent ∷ [])
    × (t.max_bytes ≡ 20)
    × (length t.wal ≤ 35))
unfolding le_bytes
append_lem_example = append_lem state two sent state-Holds (omega arith) (omega arith)

append_bound_example : Succeeds (append sent state) (λ _ t. buffered_bytes t.buf ≤ 20)
unfolding le_bytes
append_bound_example =
    append_bound state two sent state-Holds (omega arith) (omega arith) (omega arith)

open_buffer_lem_example :
    Succeeds (open_buffer 20 disk) (λ b d. Holds (on b d) two × (b.max_bytes ≡ 20))
unfolding le_bytes
open_buffer_lem_example =
    open_buffer_lem 20 12 disk two refl refl (λ e. cc e) (omega arith) refl
      (omega arith, (omega arith, tt))

crash_loses_frames_example :
    Succeeds
      (open_buffer 20 (final (maybe_compact (struck state other 0))).disk)
      (λ b _. is_empty b ≡ true)
crash_loses_frames_example =
    crash_loses_frames state two state-Holds (omega arith) (omega arith) other 0 20 refl

-- The second frame has lost its last byte.
abbrev cut : List ℕ
cut = 1 ∷ 0 ∷ 0 ∷ 0 ∷ []

abbrev broken : State
broken = record state {
  buf = record state.buf { write_pos = 22 };
  disk = record disk { wal = log_bytes (sent ∷ first ∷ []) ++ cut };
}

broken-Ready : Ready broken (log_bytes (first ∷ []) ++ cut)
unfolding le_bytes
broken-Ready = record {
  quiet = refl;
  pending = refl;
  ends = refl;
  starts = omega arith;
  fits = omega arith;
  at_start = inl refl;
}

cut-IsTorn : IsTorn cut
unfolding le_bytes
cut-IsTorn = record {
  whole = second;
  k = 4;
  cut = refl;
  some_there = omega arith;
  some_missing = omega arith;
  small = omega arith;
}

drain_next_before_torn_example :
    Succeeds (drain_next broken) (λ out t. (out ≡ some first) × Ready t cut)
drain_next_before_torn_example =
    drain_next_before_torn broken (first ∷ []) cut broken-Ready (omega arith, tt) cut-IsTorn

reopen_lem_example :
    Succeeds (open_buffer 50 (on_drop state)) (λ b d. Holds (on b d) two × (b.max_bytes ≡ 50))
reopen_lem_example = reopen_lem state two 50 state-Holds refl (λ e. cc e)

taken_frame_forgotten_example :
    Succeeds
      (open_buffer 50 (on_drop (final (drain_next state))))
      (λ b d. Holds (on b d) (second ∷ []) × (b.max_bytes ≡ 50))
taken_frame_forgotten_example =
    taken_frame_forgotten state first (second ∷ []) 50 state-Holds refl (λ e. cc e)
