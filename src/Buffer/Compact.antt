-- ===== src/Buffer/Compact.antt =====
-- Compaction in crates/tell/src/buffer.rs: `compact`, `maybe_compact` and `commit` keep the frames.
pub mod Commit
use tell_rs.Prelude.{
  ℕ, ◌≤◌, ◌*◌, ◌==◌, ◌≡◌, refl, ap, sym, ◌∙◌, List, [], length, drop, length-drop, take_all, arith,
  done, running, drop_past, ltb, none, inl, inr, true, false, Bool, Bool-cases, Succeeds,
}
use tell_rs.Buffer.Disk.{sys, regular, holds, open_append, rewrite_tail, opened}
use tell_rs.Buffer.Wal.{
  State, methods, persist_cursor, compact, truncate_all, replace_wal, maybe_compact, commit, sub64,
}
use tell_rs.Buffer.Frames.{Frame, total_size, length-log_bytes}
use tell_rs.Buffer.Holds.{Holds, room, sys_quiet, open_reader_quiet, persist_cursor_quiet}

-- The frames `fs` are still to come, the limit stands, and the log has not grown.
abbrev pub Keeps : State → List Frame → State → Type 0
Keeps s fs t = Holds t fs × (t.max_bytes ≡ s.max_bytes) × (length t.wal ≤ length s.wal)

abbrev emptied : State → State
emptied s = record {
  buf = record s.buf {
    wal_file = true;
    reader = none;
    write_pos = 0;
    read_pos = 0;
    persisted_pos = 0;
  };
  disk = record s.disk { wal = []; entry = opened s.entry; cursor = holds 0 };
}

truncate_all_quiet : (s : State) → s.coming ≡ [] → truncate_all s ≡ done tt (emptied s)
unfolding truncate_all
truncate_all_quiet s q = rw (running, sys_quiet _ s.disk q) (persist_cursor_quiet _ q)

rewrite_tail_quiet :
    (s : State) (n : ℕ)
    → s.coming ≡ []
    → n ≡ length (drop s.read_pos s.wal)
    → rewrite_tail s.read_pos n s.disk ≡ done tt (record s.disk { tmp = drop s.read_pos s.wal })
unfolding rewrite_tail
rewrite_tail_quiet s n q e =
    ground (arith, open_reader_quiet s.read_pos s.disk q, take_all (drop s.read_pos s.wal) n)

abbrev compacted : State → ℕ → State
compacted s n = record {
  buf = record s.buf {
    wal_file = true;
    reader = none;
    write_pos = n;
    read_pos = 0;
    persisted_pos = 0;
  };
  disk = record s.disk { wal = drop s.read_pos s.wal; tmp = []; entry = regular; cursor = holds 0 };
}

module _ (s : State) (fs : List Frame) (h : Holds s fs) where
  Holds-emptied : s.read_pos ≡ s.write_pos → Holds (emptied s) fs
  Holds-emptied e = record {
    quiet = h.quiet;
    pending = sym (drop_past s.wal s.read_pos (omega (arith, h.ends))) ∙ h.pending;
    ends = refl;
    starts = omega arith;
    fits = omega arith;
    framed = h.framed;
    at_start = inl refl;
  }

  Holds-compacted : (n : ℕ) → n ≡ total_size fs → Holds (compacted s n) fs
  Holds-compacted n e = record {
    quiet = h.quiet;
    pending = h.pending;
    ends = omega (arith, ap length h.pending, length-log_bytes fs);
    starts = omega arith;
    fits = omega (arith, room h, length-drop s.read_pos s.wal, h.fits);
    framed = h.framed;
    at_start = inl refl;
  }

  replace_wal_quiet :
      (n : ℕ)
      → n ≡ length (drop s.read_pos s.wal)
      → replace_wal n s
        ≡ done tt (record s {
          buf = record s.buf { wal_file = false; reader = none };
          disk = record s.disk { wal = drop s.read_pos s.wal; tmp = []; entry = regular };
        })
  unfolding replace_wal
  replace_wal_quiet n e = rw (methods, rewrite_tail_quiet s n h.quiet e) (unfold sys in rw h.quiet)

  abbrev is_start : Bool
  is_start = s.read_pos == 0

  abbrev is_drained : Bool
  is_drained = sub64 s.write_pos s.read_pos == 0

  compact_start : is_start ≡ true → compact s ≡ done tt s
  unfolding compact
  compact_start e = rw (methods, e)

  compact_drained : is_start ≡ false → is_drained ≡ true → compact s ≡ done tt (emptied s)
  unfolding compact
  compact_drained e d = rw (methods, e, d) (truncate_all_quiet s h.quiet)

  compact_rest :
      is_start ≡ false
      → is_drained ≡ false
      → compact s ≡ done tt (compacted s (sub64 s.write_pos s.read_pos))
  unfolding compact
  compact_rest e d =
      rw
        (
          methods,
          e,
          d,
          replace_wal_quiet (sub64 s.write_pos s.read_pos)
              (omega (arith, room h, h.ends, length-drop s.read_pos s.wal)),
        )
        (unfold open_append sys in rw (methods, h.quiet) (persist_cursor_quiet _ refl))

-- While no system call on the disk fails: compact succeeds and keeps the unconsumed frames and the
-- limit, and the log is not longer than before.
pub compact_lem :
    (s : State) (fs : List Frame) → Holds s fs → Succeeds (compact s) (λ _ t. Keeps s fs t)
compact_lem s fs h = elim (Bool-cases (s.read_pos == 0)) [
  | inl e ↦ (tt, s, compact_start s fs h e, (h, refl, omega arith))
  | inr e ↦ elim (Bool-cases (sub64 s.write_pos s.read_pos == 0)) [
    | inl d ↦ (
      tt,
      emptied s,
      compact_drained s fs h e d,
      (Holds-emptied s fs h (drained d), refl, omega arith),
    )
    | inr d ↦ (
      tt,
      compacted s _,
      compact_rest s fs h e d,
      (
        Holds-compacted s fs h _ (omega (arith, room h)),
        refl,
        omega (arith, length-drop s.read_pos s.wal),
      ),
    )
  ]
]
  where
    drained : (sub64 s.write_pos s.read_pos == 0) ≡ true → s.read_pos ≡ s.write_pos
    drained d = ground (arith, h.starts, h.ends, h.fits)

pub maybe_compact_lem :
    (s : State) (fs : List Frame) → Holds s fs → Succeeds (maybe_compact s) (λ _ t. Keeps s fs t)
unfolding maybe_compact
maybe_compact_lem s fs h = elim (Bool-cases (s.write_pos == 0)) [
  | inl e ↦ (tt, s, rw (methods, e), (h, refl, omega arith))
  | inr e ↦ elim (Bool-cases (ltb s.write_pos (2 * s.read_pos))) [
    | inl c ↦ let (u, t, run, keeps) = compact_lem s fs h in (u, t, rw (methods, e, c) run, keeps)
    | inr c ↦ (tt, s, rw (methods, e, c), (h, refl, omega arith))
  ]
]

pub Holds-persisted :
    (s : State) (fs : List Frame) → Holds s fs → Succeeds (persist_cursor s) (λ _ t. Keeps s fs t)
Holds-persisted s fs h = (
  tt,
  _,
  persist_cursor_quiet s h.quiet,
  (
    record {
      quiet = h.quiet;
      pending = h.pending;
      ends = h.ends;
      starts = h.starts;
      fits = h.fits;
      framed = h.framed;
      at_start = h.at_start;
    },
    refl,
    omega arith,
  ),
)

-- While no system call on the disk fails: commit succeeds and keeps the unconsumed frames and the
-- limit, and the log is not longer than before.
pub commit_lem :
    (s : State) (fs : List Frame) → Holds s fs → Succeeds (commit s) (λ _ t. Keeps s fs t)
unfolding commit
commit_lem s fs h = elim (Bool-cases (s.read_pos == s.persisted_pos)) [
  | inl e ↦ let (u, t, run, keeps) = maybe_compact_lem s fs h in (u, t, rw (methods, e) run, keeps)
  | inr e ↦
      let (_, t, run, (h', m, l)) = Holds-persisted s fs h in
      let (u, t', run', (h'', m', l')) = maybe_compact_lem t fs h' in
      (u, t', rw (methods, e, run) run', (h'', m' ∙ m, omega arith))
]
