-- ===== src/Buffer/Torn.antt =====
-- A crash in the middle of an append (crates/tell/src/buffer.rs) leaves the start of a frame at the
-- end of the log. The whole frames before it are handed out, and the rest is skipped.
use tell_rs.Prelude.{
  ℕ, zero, suc, ◌+◌, ◌≤◌, ◌<◌, ◌≡◌, refl, ap, subst, Option, sym, List, [], ◌∷◌, ◌++◌, length, take,
  length-take, take-append_exact, append_assoc, arith, done, failed, Succeeds, All, lt→leb_false,
  lt→ltb, le→ltb_false, none, some,
}
use mathlib.Core.List.{head?}
use native.Mathlib.Decide.{dec_lt}
use tell_rs.Bytes.{le_bytes, length-le_bytes, from_le_bytes-u32}
use tell_rs.Buffer.Disk.{unexpected_eof, read_exact, read_frame_header}
use tell_rs.Buffer.Wal.{
  State, methods, drain_next, drain_frame, get_reader, read_own, reset_to_end, max_frame_len, sub64,
}
use tell_rs.Buffer.Frames.{
  Frame, log_bytes, frame_bytes, frame_size, length-frame_bytes, read_exact_quiet,
}
use tell_rs.Buffer.Holds.{Holds, Ready, remaining_lem, get_reader_quiet, reset_to_end_lem}
use tell_rs.Buffer.Drain.{drain_next_frame, Ready-taken}

-- The first `k` bytes of a frame, at least one and not all.
pub record IsTorn (bytes : List ℕ) : Type 0 where
  pub whole : Frame
  pub k : ℕ
  pub cut : bytes ≡ take k (frame_bytes whole)
  pub some_there : 0 < k
  pub some_missing : k < frame_size whole
  pub small : length whole ≤ max_frame_len

take-take : {A : Type 0} (n k : ℕ) (xs : List A) → n ≤ k → take n (take k xs) ≡ take n xs
take-take zero k xs h = refl
take-take (suc n) zero xs h = absurd (omega arith)
take-take (suc n) (suc k) [] h = refl
take-take (suc n) (suc k) (x ∷ xs) h = ap (λ t. x ∷ t) (take-take n k xs (omega arith))

module _ (s : State) (bytes : List ℕ) (h : Ready s bytes) (torn : IsTorn bytes) where
  length-whole : length bytes ≡ torn.k
  length-whole = omega (
    arith,
    ap length torn.cut,
    length-take torn.k (frame_bytes torn.whole),
    length-frame_bytes torn.whole,
    torn.some_missing,
  )

  -- Fewer than four bytes are no header.
  short_header :
      torn.k < 4
      → read_frame_header (s.read_pos, s.disk) ≡ failed unexpected_eof (length s.wal, s.disk)
  unfolding read_frame_header read_exact
  short_header short = rw (
    methods,
    h.quiet,
    lt→leb_false (s.read_pos + 4) (length s.wal)
        (omega (arith, remaining_lem h, h.ends, length-whole)),
  )

  whole_header :
      4 ≤ torn.k
      → read_frame_header (s.read_pos, s.disk) ≡ done (length torn.whole) (s.read_pos + 4, s.disk)
  unfolding read_frame_header
  whole_header long = rw (
    methods,
    read_exact_quiet 4 s.read_pos s.disk h.quiet
        (omega (arith, remaining_lem h, h.ends, length-whole)),
    h.pending,
    torn.cut,
    take-take 4 torn.k (frame_bytes torn.whole) long,
    take-append_exact (le_bytes 4 (length torn.whole)) torn.whole 4
        (sym (length-le_bytes 4 (length torn.whole))),
    from_le_bytes-u32 (length torn.whole) (omega (arith, torn.small)),
  )

  -- The state after the reader has moved.
  abbrev read_to : ℕ → State
  read_to pos = record s { buf = record s.buf { reader = some pos } }

  abbrev Skipped : Option (List ℕ) → State → Type 0
  Skipped out t = (out ≡ none) × Holds t []

  short_case :
      torn.k < 4
      → Succeeds (reset_to_end (read_to (length s.wal))) (λ _ t. Holds t [])
      → Succeeds (drain_next s) Skipped
  unfolding drain_next
  short_case short (_, t, resets, holds) = (
    none,
    t,
    rw
        (
          methods,
          lt→leb_false s.write_pos s.read_pos
              (omega (arith, remaining_lem h, length-whole, torn.some_there)),
          get_reader_quiet s h.quiet h.at_start,
        )
        (unfold read_own get_reader drain_frame in rw (methods, short_header short, resets)),
    (refl, holds),
  )

  long_case :
      4 ≤ torn.k
      → Succeeds (reset_to_end (read_to (s.read_pos + 4))) (λ _ t. Holds t [])
      → Succeeds (drain_next s) Skipped
  unfolding drain_next
  long_case long (_, t, resets, holds) = (
    none,
    t,
    rw
        (
          methods,
          lt→leb_false s.write_pos s.read_pos
              (omega (arith, remaining_lem h, length-whole, torn.some_there)),
          get_reader_quiet s h.quiet h.at_start,
        )
        (unfold read_own get_reader drain_frame in
          rw (
            methods,
            whole_header long,
            le→ltb_false max_frame_len (length torn.whole) torn.small,
            lt→ltb (sub64 s.write_pos s.read_pos) (length torn.whole + 4)
                (omega (arith, remaining_lem h, length-whole, torn.some_missing, h.ends, h.fits)),
            resets,
          )),
    (refl, holds),
  )

  -- The start of a frame is skipped: nothing is handed out, and nothing is left.
  pub drain_next_torn : Succeeds (drain_next s) Skipped
  drain_next_torn = elim (dec_lt torn.k 4) [
    | yes short ↦ short_case short (reset_to_end_lem (read_to (length s.wal)) h.quiet h.ends h.fits)
    | no long ↦
        long_case (omega arith) (reset_to_end_lem (read_to (s.read_pos + 4)) h.quiet h.ends h.fits)
  ]

-- What is left after one call, if `fs` were whole frames before the torn one.
abbrev Rest : List Frame → List ℕ → State → Type 0
Rest [] bytes t = Holds t []
Rest (f ∷ fs) bytes t = Ready t (log_bytes fs ++ bytes)

-- While no system call on the disk fails: if the log ends in the proper start of a frame, as a
-- crash inside append leaves it, drain_next returns the whole frames before it in order, and then
-- returns nothing and empties the buffer.
pub drain_next_before_torn :
    (s : State) (fs : List Frame) (bytes : List ℕ)
    → Ready s (log_bytes fs ++ bytes)
    → All (λ f. length f ≤ max_frame_len) fs
    → IsTorn bytes
    → Succeeds (drain_next s) (λ out t. (out ≡ head? fs) × Rest fs bytes t)
drain_next_before_torn s [] bytes h framed torn = drain_next_torn s bytes h torn
drain_next_before_torn s (f ∷ fs) bytes h (small, framed) torn =
    let h' : Ready s (frame_bytes f ++ (log_bytes fs ++ bytes)) =
      subst (Ready s) (append_assoc (frame_bytes f) (log_bytes fs) bytes) h in
    (
      some f,
      _,
      drain_next_frame s f (log_bytes fs ++ bytes) h' small,
      (refl, Ready-taken s f (log_bytes fs ++ bytes) h' small),
    )
