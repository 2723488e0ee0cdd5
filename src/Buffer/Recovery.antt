-- ===== src/Buffer/Recovery.antt =====
-- `open` of crates/tell/src/buffer.rs: what a restart finds on the disk.
use tell_rs.Prelude.{
  ℕ, ◌≤◌, ◌<◌, ◌≡◌, ◌≢◌, refl, sym, ◌∙◌, List, [], length, drop, arith, done, inl, inr, Bool-cases,
  Succeeds, All, Option, some, none, if◌then◌else◌, ◌^◌, drop_past, ltb, running,
}
use tell_rs.Buffer.Disk.{
  Disk, Entry, absent, regular, link_to_file, dangling_link, opened, CursorFile, missing, garbled,
  holds, sys, open_append, read_cursor,
}
use tell_rs.Buffer.Wal.{
  State, DiskBuffer, methods, open_buffer, open_files, check_link, clamp_cursor, fresh,
  max_frame_len, u64_mod,
}
use tell_rs.Buffer.Frames.{Frame, log_bytes}
use tell_rs.Buffer.Holds.{Holds, sys_quiet, persist_cursor_quiet}

abbrev pub on : DiskBuffer → Disk → State
on b d = record { buf = b; disk = d }

-- Where a restart begins to read, if the cursor file is sound.
abbrev pub resume_at : CursorFile → Option ℕ
resume_at missing = some 0
resume_at garbled = none
resume_at (holds n) = if ltb n (2 ^ 64) then some n else none

check_link_quiet :
    (e : Entry) (d : Disk) → d.coming ≡ [] → e ≢ link_to_file → check_link e d ≡ done tt d
check_link_quiet absent d q direct = refl
check_link_quiet regular d q direct = sys_quiet (λ x. x) d q
check_link_quiet link_to_file d q direct = absurd (direct refl)
check_link_quiet dangling_link d q direct = refl

open_append_quiet :
    (d : Disk) → d.coming ≡ [] → open_append d ≡ done tt (record d { entry = opened d.entry })
unfolding open_append
open_append_quiet d q = rw q

read_cursor_quiet :
    (d : Disk) (c : ℕ) → d.coming ≡ [] → resume_at d.cursor ≡ some c → read_cursor d ≡ done c d
unfolding read_cursor sys
read_cursor_quiet d c q sound = ground arith

module _ (d : Disk) (c : ℕ) (q : d.coming ≡ []) (sound : resume_at d.cursor ≡ some c) where
  abbrev prepared : Disk
  prepared = record d { entry = opened d.entry }

  open_files_quiet : d.entry ≢ link_to_file → open_files d ≡ done (length d.wal, c) prepared
  unfolding open_files
  open_files_quiet direct = rw (
    running,
    sys_quiet (λ x. x) d q,
    sys_quiet (λ x. x) d q,
    check_link_quiet d.entry d q direct,
    open_append_quiet d q,
    sys_quiet (λ x. x) prepared q,
    sys_quiet (λ x. x) prepared q,
    read_cursor_quiet prepared c q sound,
  )

abbrev pub clamped : State → State
clamped s = record {
  buf = record s.buf { read_pos = s.write_pos; persisted_pos = s.write_pos };
  disk = record s.disk { cursor = holds s.write_pos };
}

clamp_cursor_quiet :
    (s : State)
    → s.coming ≡ []
    → clamp_cursor s ≡ done tt (if ltb s.write_pos s.read_pos then clamped s else s)
unfolding clamp_cursor
clamp_cursor_quiet s q = elim (Bool-cases (ltb s.write_pos s.read_pos)) [
  | inl e ↦ rw (methods, e) (persist_cursor_quiet _ q)
  | inr e ↦ rw (methods, e)
]

-- What the buffer is after a restart with the limit `max` and the cursor `c`.
abbrev pub reopened : ℕ → ℕ → Disk → State
reopened max c d =
    let s : State = on (fresh max (length d.wal, c)) (record d { entry = opened d.entry }) in
    if ltb (length d.wal) c then clamped s else s

pub open_buffer_quiet :
    (max c : ℕ) (d : Disk)
    → d.coming ≡ []
    → resume_at d.cursor ≡ some c
    → d.entry ≢ link_to_file
    → open_buffer max d ≡ done (reopened max c d).buf (reopened max c d).disk
unfolding open_buffer
open_buffer_quiet max c d q sound direct = rw (
  running,
  open_files_quiet d c q sound direct,
  clamp_cursor_quiet (on (fresh max (length d.wal, c)) (record d { entry = opened d.entry })) q,
)

-- While no system call on the disk fails: if the persisted cursor is sound, the log is not a link,
-- has less than 2^64 bytes, and the bytes behind the cursor are frames of at most 256 MiB, open
-- succeeds and holds exactly those frames, with the limit that it is given; a cursor beyond the log
-- is clamped.
pub open_buffer_lem :
    (max c : ℕ) (d : Disk) (fs : List Frame)
    → d.coming ≡ []
    → resume_at d.cursor ≡ some c
    → d.entry ≢ link_to_file
    → length d.wal < u64_mod
    → drop c d.wal ≡ log_bytes fs
    → All (λ f. length f ≤ max_frame_len) fs
    → Succeeds (open_buffer max d) (λ b d'. Holds (on b d') fs × (b.max_bytes ≡ max))
open_buffer_lem max c d fs q sound direct small there framed =
    elim (Bool-cases (ltb (length d.wal) c)) [
      | inl e ↦ (
        _,
        _,
        open_buffer_quiet max c d q sound direct,
        rw e (
          record {
            quiet = q;
            pending =
                drop_past d.wal (length d.wal) (omega arith)
                ∙ sym (drop_past d.wal c (ground arith))
                ∙ there;
            ends = refl;
            starts = omega arith;
            fits = small;
            framed = framed;
            at_start = inl refl;
          },
          refl,
        ),
      )
      | inr e ↦ (
        _,
        _,
        open_buffer_quiet max c d q sound direct,
        rw e (
          record {
            quiet = q;
            pending = there;
            ends = refl;
            starts = ground arith;
            fits = small;
            framed = framed;
            at_start = inl refl;
          },
          refl,
        ),
      )
    ]
