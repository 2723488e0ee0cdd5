-- ===== src/Buffer/Compact/Commit.antt =====
-- `commit` of crates/tell/src/buffer.rs, and a crash after it: what the next process finds.
use tell_rs.Prelude.{
  ℕ, ◌*◌, ◌^◌, ◌==◌, ◌≡◌, refl, ap, sym, ◌∙◌, List, length-drop, arith, inl, inr, Bool-cases, ltb,
  lt→ltb, Succeeds,
}
use tell_rs.Buffer.Disk.{regular, link_to_file, holds}
use tell_rs.Buffer.Wal.{State, methods, compact, maybe_compact, commit, open_buffer, sub64}
use tell_rs.Buffer.Frames.{Frame}
use tell_rs.Buffer.Holds.{Holds, room, persist_cursor_quiet}
use tell_rs.Buffer.Recovery.{open_buffer_lem, on}
use tell_rs.Buffer.Compact.{
  Keeps, emptied, compacted, compact_start, compact_drained, compact_rest, Holds-emptied,
  Holds-compacted,
}

-- The frames are kept, and the cursor file has the read position.
abbrev Settles : State → List Frame → State → Type 0
Settles s fs t = Keeps s fs t × (t.cursor ≡ holds t.read_pos) × (t.entry ≡ regular)

module _ (s : State) (fs : List Frame) (h : Holds s fs) (file : s.entry ≡ regular)
    (settled : s.cursor ≡ holds s.read_pos) where
  as_is : Settles s fs s
  as_is = ((h, refl, omega arith), settled, file)

  compact-Settles : Succeeds (compact s) (λ _ t. Settles s fs t)
  compact-Settles = elim (Bool-cases (s.read_pos == 0)) [
    | inl e ↦ (tt, s, compact_start s fs h e, as_is)
    | inr e ↦ elim (Bool-cases (sub64 s.write_pos s.read_pos == 0)) [
      | inl d ↦ (
        tt,
        emptied s,
        compact_drained s fs h e d,
        (
          (Holds-emptied s fs h (ground (arith, h.starts, h.ends, h.fits)), refl, omega arith),
          refl,
          rw file refl,
        ),
      )
      | inr d ↦ (
        tt,
        compacted s _,
        compact_rest s fs h e d,
        (
          (
            Holds-compacted s fs h _ (omega (arith, room h)),
            refl,
            omega (arith, length-drop s.read_pos s.wal),
          ),
          refl,
          refl,
        ),
      )
    ]
  ]

  maybe_compact-Settles : Succeeds (maybe_compact s) (λ _ t. Settles s fs t)
  unfolding maybe_compact
  maybe_compact-Settles = elim (Bool-cases (s.write_pos == 0)) [
    | inl e ↦ (tt, s, rw (methods, e), as_is)
    | inr e ↦ elim (Bool-cases (ltb s.write_pos (2 * s.read_pos))) [
      | inl c ↦
          let (u, t, run, settles) = compact-Settles in (u, t, rw (methods, e, c) run, settles)
      | inr c ↦ (tt, s, rw (methods, e, c), as_is)
    ]
  ]

abbrev persisted_now : State → State
persisted_now s = record {
  buf = record s.buf { persisted_pos = s.read_pos };
  disk = record s.disk { cursor = holds s.read_pos };
}

Holds-persisted_now : (s : State) (fs : List Frame) → Holds s fs → Holds (persisted_now s) fs
Holds-persisted_now s fs h = record {
  quiet = h.quiet;
  pending = h.pending;
  ends = h.ends;
  starts = h.starts;
  fits = h.fits;
  framed = h.framed;
  at_start = h.at_start;
}

commit-Settles :
    (s : State) (fs : List Frame)
    → Holds s fs
    → s.entry ≡ regular
    → s.cursor ≡ holds s.persisted_pos
    → Succeeds (commit s) (λ _ t. Settles s fs t)
unfolding commit
commit-Settles s fs h file persisted = elim (Bool-cases (s.read_pos == s.persisted_pos)) [
  | inl e ↦
      let same : s.persisted_pos ≡ s.read_pos = ground arith in
      let (u, t, run, settles) = maybe_compact-Settles s fs h file (persisted ∙ ap holds same) in
      (u, t, rw (methods, e) run, settles)
  | inr e ↦
      let (u, t, run, settles) =
        maybe_compact-Settles (persisted_now s) fs (Holds-persisted_now s fs h) file refl in
      (u, t, rw (methods, e, persist_cursor_quiet s h.quiet) run, settles)
]

-- While no system call on the disk fails: if the log is a regular file and the cursor file agrees
-- with persisted_pos, commit succeeds, keeps the unconsumed frames and the limit, and does not make
-- the log longer; and if the process crashes right afterwards, without a drop, opening the buffer
-- again gives exactly the unconsumed frames, so that no frame that was consumed before is handed
-- out again.
pub commit_lasts :
    (s : State) (fs : List Frame) (max : ℕ)
    → Holds s fs
    → s.entry ≡ regular
    → s.cursor ≡ holds s.persisted_pos
    → Succeeds (commit s) (λ _ t.
      Keeps s fs t
      × Succeeds (open_buffer max t.disk) (λ b d. Holds (on b d) fs × (b.max_bytes ≡ max)))
commit_lasts s fs max h file persisted =
    let (u, t, run, ((h', m, l), cursor, file')) = commit-Settles s fs h file persisted in
    (
      u,
      t,
      run,
      (
        (h', m, l),
        open_buffer_lem max t.read_pos t.disk fs h'.quiet
            (rw cursor
              (rw (lt→ltb t.read_pos (2 ^ 64) (omega (arith, h'.starts, h'.ends, h'.fits))) refl))
            (λ link. regular_or_link (sym file' ∙ link)) h'.fits h'.pending h'.framed,
      ),
    )
  where
    regular_or_link : regular ≡ link_to_file → ⊥
    regular_or_link e = cc e
