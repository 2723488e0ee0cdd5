-- ===== src/Buffer/Evict.antt =====
-- Eviction in crates/tell/src/buffer.rs: to make room the oldest frames are dropped, as few as will
-- do. The fuel of the loop is enough.
use tell_rs.Prelude.{
  ℕ, zero, suc, ◌+◌, ◌-◌, ◌≤◌, ◌<◌, ◌==◌, ◌≡◌, refl, subst, ap, sym, ◌∙◌, List, [], ◌∷◌, length,
  drop, arith, done, failed, running, le→ltb_false, lt→leb_false, lt→ltb, le→leb, ltb, leb, min,
  none, inl, inr, true, false, Bool-cases, Succeeds, All, drop-drop, drop-append_exact,
  if◌then◌else◌,
}
use native.Mathlib.Decide.{dec_le}
use tell_rs.Buffer.Disk.{Disk, unexpected_eof, read_exact, read_frame_header}
use tell_rs.Buffer.Wal.{
  State, methods, evict_loop, evict_if_needed, max_frame_len, u64_mod, add64, sub64,
}
use tell_rs.Buffer.Frames.{
  Frame, frame_bytes, log_bytes, frame_size, total_size, read_frame_header_quiet,
  length-frame_bytes,
}
use tell_rs.Buffer.Holds.{Holds, room, sys_quiet, open_reader_quiet}
use tell_rs.Buffer.Compact.{Keeps, Holds-persisted, maybe_compact_lem}

-- The frames that are left when frames are dropped from the front until `need` bytes are free.
unfoldable pub kept : ℕ → List Frame → List Frame
kept need [] = []
kept need (f ∷ fs) = if need == 0 then f ∷ fs else kept (need - frame_size f) fs

unfoldable pub freed_by : ℕ → List Frame → ℕ
freed_by need [] = 0
freed_by need (f ∷ fs) = if need == 0 then 0 else frame_size f + freed_by (need - frame_size f) fs

pub total_size-kept :
    (need : ℕ) (fs : List Frame) → freed_by need fs + total_size (kept need fs) ≡ total_size fs
unfolding kept freed_by
total_size-kept need [] = refl
total_size-kept need (f ∷ fs) = ground (arith, total_size-kept (need - frame_size f) fs)

pub need-le-freed : (need : ℕ) (fs : List Frame) → min need (total_size fs) ≤ freed_by need fs
unfolding freed_by
need-le-freed need [] = omega arith
need-le-freed need (f ∷ fs) = ground (arith, need-le-freed (need - frame_size f) fs)

pub All-kept : (P : Frame → Type 0) (need : ℕ) (fs : List Frame) → All P fs → All P (kept need fs)
unfolding kept
All-kept P need [] h = tt
All-kept P need (f ∷ fs) (hf, h) = elim (Bool-cases (need == 0)) [
  | inl e ↦ rw e (hf, h)
  | inr e ↦ rw e (All-kept P (need - frame_size f) fs h)
]

drop-log_bytes :
    (need : ℕ) (fs : List Frame) → drop (freed_by need fs) (log_bytes fs) ≡ log_bytes (kept need fs)
unfolding kept freed_by
drop-log_bytes need [] = refl
drop-log_bytes need (f ∷ fs) = elim (Bool-cases (need == 0)) [
  | inl e ↦ rw e
  | inr e ↦ rw e (
      sym (
        drop-drop (frame_size f) (freed_by (need - frame_size f) fs)
          (frame_size f + freed_by (need - frame_size f) fs) (log_bytes (f ∷ fs)) refl)
      ∙ ap (drop (freed_by (need - frame_size f) fs)) (
          drop-append_exact (frame_bytes f) (log_bytes fs) (frame_size f)
            (sym (length-frame_bytes f)))
      ∙ drop-log_bytes (need - frame_size f) fs)
]

read_frame_header_end :
    (pos : ℕ) (d : Disk)
    → d.coming ≡ []
    → length d.wal ≤ pos
    → read_frame_header (pos, d) ≡ failed unexpected_eof (length d.wal, d)
unfolding read_frame_header read_exact
read_frame_header_end pos d q h =
    rw (running, q, lt→leb_false (pos + 4) (length d.wal) (omega arith))

pub freed_by_nothing : (fs : List Frame) (n : ℕ) → n ≡ 0 → freed_by n fs ≡ 0
unfolding freed_by
freed_by_nothing [] n e = refl
freed_by_nothing (f ∷ fs) n e = ground arith

behind :
    (pos : ℕ) (d : Disk) (f : Frame) (fs : List Frame)
    → drop pos d.wal ≡ log_bytes (f ∷ fs)
    → drop (pos + 4 + length f) d.wal ≡ log_bytes fs
behind pos d f fs there =
    sym (drop-drop pos (frame_size f) (pos + 4 + length f) d.wal (omega arith))
    ∙ ap (drop (frame_size f)) there
    ∙ drop-append_exact (frame_bytes f) (log_bytes fs) (frame_size f) (sym (length-frame_bytes f))

-- One frame more has been freed.
freed_by_more :
    (must freed : ℕ) (f : Frame) (fs : List Frame)
    → freed < must
    → freed + frame_size f < u64_mod
    → add64 freed (frame_size f) + freed_by (must - add64 freed (frame_size f)) fs
      ≡ freed + freed_by (must - freed) (f ∷ fs)
unfolding freed_by
freed_by_more must freed f fs h small = ground (arith, ap (λ (n : ℕ). freed_by n fs) same)
  where
    same : must - add64 freed (frame_size f) ≡ must - freed - frame_size f
    same = omega arith

evict_loop_stops :
    (fuel must freed pos : ℕ) (d : Disk)
    → must ≤ freed
    → evict_loop fuel must freed pos d ≡ done freed d
unfolding evict_loop
evict_loop_stops zero must freed pos d h = refl
evict_loop_stops (suc fuel) must freed pos d h = rw (evict_loop, le→ltb_false freed must h)

evict_loop_ends :
    (fuel must freed pos : ℕ) (d : Disk)
    → d.coming ≡ []
    → length d.wal ≤ pos
    → evict_loop fuel must freed pos d ≡ done freed d
unfolding evict_loop
evict_loop_ends zero must freed pos d q h = refl
evict_loop_ends (suc fuel) must freed pos d q h = elim (Bool-cases (ltb freed must)) [
  | inl e ↦ rw (evict_loop, e, read_frame_header_end pos d q h)
  | inr e ↦ rw (evict_loop, e)
]

evict_loop_step :
    (fuel must freed pos : ℕ) (d : Disk) (len : ℕ)
    → d.coming ≡ []
    → freed < must
    → read_frame_header (pos, d) ≡ done len (pos + 4, d)
    → len ≤ max_frame_len
    → evict_loop (suc fuel) must freed pos d
      ≡ evict_loop fuel must (add64 freed (4 + len)) (pos + 4 + len) d
unfolding evict_loop
evict_loop_step fuel must freed pos d len q less header small =
    rw (evict_loop, lt→ltb freed must less, header)
      (rw (methods, le→leb len max_frame_len small, sys_quiet (λ x. x) d q))

-- With fuel for the bytes that are still to be freed the loop frees whole frames, as many as the
-- specification drops, and stops at the end of the log.
evict_loop_quiet :
    (fuel must freed pos : ℕ) (d : Disk) (fs : List Frame)
    → d.coming ≡ []
    → drop pos d.wal ≡ log_bytes fs
    → pos + total_size fs ≡ length d.wal
    → All (λ f. length f ≤ max_frame_len) fs
    → must ≤ freed + fuel
    → freed + total_size fs < u64_mod
    → evict_loop fuel must freed pos d ≡ done (freed + freed_by (must - freed) fs) d
evict_loop_quiet fuel must freed pos d [] q there ends fits enough small =
    evict_loop_ends fuel must freed pos d q (omega arith)
    ∙ unfold freed_by in ap (λ (n : ℕ). done n d) (omega arith)
evict_loop_quiet zero must freed pos d fs q there ends fits enough small =
    evict_loop_stops zero must freed pos d (omega arith)
    ∙ ap (λ (n : ℕ). done n d) (omega (arith, freed_by_nothing fs (must - freed) (omega arith)))
evict_loop_quiet (suc fuel) must freed pos d (f ∷ fs) q there ends fits enough small =
    elim (dec_le must freed) [
      | yes h ↦
          evict_loop_stops (suc fuel) must freed pos d h
          ∙ ap (λ (n : ℕ). done n d)
              (omega (arith, freed_by_nothing (f ∷ fs) (must - freed) (omega arith)))
      | no h ↦
          evict_loop_step fuel must freed pos d (length f) q (omega arith)
            (read_frame_header_quiet f (log_bytes fs) pos d q there (omega arith) (omega arith))
            fits.0
          ∙ evict_loop_quiet fuel must (add64 freed (4 + length f)) (pos + 4 + length f) d fs q
              (behind pos d f fs there) (omega arith) fits.1 (omega arith) (omega arith)
          ∙ ap (λ (n : ℕ). done n d) (ground (arith, freed_by_more must freed f fs))
    ]

pub kept_nothing : (fs : List Frame) → kept 0 fs ≡ fs
unfolding kept
kept_nothing [] = refl
kept_nothing (f ∷ fs) = refl

-- How many bytes a new frame of `needed` bytes lacks.
abbrev pub lacking : State → List Frame → ℕ → ℕ
lacking s fs needed = total_size fs + needed - s.max_bytes

module _ (s : State) (fs : List Frame) (h : Holds s fs) (needed : ℕ)
    (small : total_size fs + needed < u64_mod) where
  abbrev evicted : State
  evicted = record s {
    buf = record s.buf {
      read_pos = min (add64 s.read_pos (freed_by (lacking s fs needed) fs)) s.write_pos;
      reader = none;
    };
  }

  freed_total :
      freed_by (lacking s fs needed) fs + total_size (kept (lacking s fs needed) fs) ≡ total_size fs
  freed_total = total_size-kept (lacking s fs needed) fs

  Holds-evicted : Holds evicted (kept (lacking s fs needed) fs)
  Holds-evicted = record {
    quiet = h.quiet;
    pending =
        sym (
          drop-drop s.read_pos (freed_by (lacking s fs needed) fs) evicted.read_pos s.wal
            (omega (arith, room h, freed_total, h.fits, h.ends)))
        ∙ ap (drop (freed_by (lacking s fs needed) fs)) h.pending
        ∙ drop-log_bytes (lacking s fs needed) fs;
    ends = h.ends;
    starts = omega arith;
    fits = h.fits;
    framed = All-kept (λ f. length f ≤ max_frame_len) (lacking s fs needed) fs h.framed;
    at_start = inl refl;
  }

  abbrev wanted : ℕ
  wanted = add64 (sub64 s.write_pos s.read_pos) needed

  wanted_lem : wanted ≡ total_size fs + needed
  wanted_lem = omega (arith, room h, h.fits, h.ends)

  evict_loop_lem :
      (must : ℕ)
      → must ≡ lacking s fs needed
      → evict_loop must must 0 s.read_pos s.disk ≡ done (freed_by (lacking s fs needed) fs) s.disk
  evict_loop_lem must e =
      evict_loop_quiet must must 0 s.read_pos s.disk fs h.quiet h.pending
        (omega (arith, room h, h.ends)) h.framed (omega arith) (omega arith)
      ∙ ap (λ (n : ℕ). done n s.disk)
          (omega (arith, ap (λ (n : ℕ). freed_by n fs) (same_need must e)))
    where
      same_need : (must : ℕ) → must ≡ lacking s fs needed → must - 0 ≡ lacking s fs needed
      same_need must e = omega arith

  -- While no system call on the disk fails: evict_if_needed succeeds, drops the frames that the
  -- specification drops from the front, as few as will do, and returns their bytes. The log and the
  -- request stay below 2^64 bytes.
  pub evict_if_needed_lem :
      Succeeds
        (evict_if_needed needed s)
        (λ n t. (n ≡ freed_by (lacking s fs needed) fs) × Keeps s (kept (lacking s fs needed) fs) t)
  unfolding evict_if_needed
  evict_if_needed_lem = elim (Bool-cases (leb wanted s.max_bytes)) [
    | inl e ↦ (
      0,
      s,
      rw (methods, e),
      (
        sym (freed_by_nothing fs _ (none_lacking e)),
        (subst (Holds s) (unchanged e) h, refl, omega arith),
      ),
    )
    | inr e ↦
        let (_, t, run, (h', m, l)) =
          Holds-persisted evicted (kept (lacking s fs needed) fs) Holds-evicted in
        let (_, t', run', (h'', m', l')) = maybe_compact_lem t (kept (lacking s fs needed) fs) h' in
        (
          freed_by (lacking s fs needed) fs,
          t',
          rw (
            methods,
            e,
            open_reader_quiet s.read_pos s.disk h.quiet,
            evict_loop_lem (sub64 wanted s.max_bytes) (must_lem e),
            run,
            run',
          ),
          (refl, (h'', m' ∙ m, omega arith)),
        )
  ]
    where
      none_lacking : leb wanted s.max_bytes ≡ true → lacking s fs needed ≡ 0
      none_lacking e = ground (arith, wanted_lem)

      unchanged : leb wanted s.max_bytes ≡ true → fs ≡ kept (lacking s fs needed) fs
      unchanged e = sym (ap (λ (n : ℕ). kept n fs) (none_lacking e) ∙ kept_nothing fs)

      must_lem : leb wanted s.max_bytes ≡ false → sub64 wanted s.max_bytes ≡ lacking s fs needed
      must_lem e = ground (arith, wanted_lem)
