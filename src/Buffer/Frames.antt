-- ===== src/Buffer/Frames.antt =====
-- What the log of crates/tell/src/buffer.rs holds: length-prefixed frames. The reads of whole frames
-- on a disk whose calls all pass.
use tell_rs.Prelude.{
  ℕ, ◌+◌, ◌≤◌, ◌<◌, ◌^◌, ◌≡◌, refl, ap, sym, ◌∙◌, List, [], ◌∷◌, ◌++◌, length, take, drop,
  length-append, take-append_exact, append_assoc, arith, done, ◌>>=◌, le→leb, drop-drop,
  drop-append_exact,
}
use tell_rs.Bytes.{le_bytes, length-le_bytes, from_le_bytes-u32}
use tell_rs.Buffer.Disk.{Disk, read_exact, read_frame_header}

abbrev pub Frame : Type 0
Frame = List ℕ

abbrev pub frame_bytes : Frame → List ℕ
frame_bytes f = le_bytes 4 (length f) ++ f

abbrev pub log_bytes : List Frame → List ℕ
log_bytes [] = []
log_bytes (f ∷ fs) = frame_bytes f ++ log_bytes fs

abbrev pub frame_size : Frame → ℕ
frame_size f = 4 + length f

abbrev pub total_size : List Frame → ℕ
total_size [] = 0
total_size (f ∷ fs) = frame_size f + total_size fs

pub length-frame_bytes : (f : Frame) → length (frame_bytes f) ≡ frame_size f
length-frame_bytes f =
    omega (arith, length-append (le_bytes 4 (length f)) f, length-le_bytes 4 (length f))

pub length-log_bytes : (fs : List Frame) → length (log_bytes fs) ≡ total_size fs
length-log_bytes [] = refl
length-log_bytes (f ∷ fs) =
    omega (
      arith,
      length-append (frame_bytes f) (log_bytes fs),
      length-frame_bytes f,
      length-log_bytes fs,
    )

pub total_size-snoc :
    (fs : List Frame) (f : Frame) → total_size (fs ++ f ∷ []) ≡ total_size fs + frame_size f
total_size-snoc [] f = omega arith
total_size-snoc (g ∷ fs) f = omega (arith, total_size-snoc fs f)

pub log_bytes-append : (fs gs : List Frame) → log_bytes (fs ++ gs) ≡ log_bytes fs ++ log_bytes gs
log_bytes-append [] gs = refl
log_bytes-append (f ∷ fs) gs =
    ap (λ t. frame_bytes f ++ t) (log_bytes-append fs gs)
    ∙ sym (append_assoc (frame_bytes f) (log_bytes fs) (log_bytes gs))

pub read_exact_quiet :
    (n pos : ℕ) (d : Disk)
    → d.coming ≡ []
    → pos + n ≤ length d.wal
    → read_exact n (pos, d) ≡ done (take n (drop pos d.wal)) (pos + n, d)
unfolding read_exact
read_exact_quiet n pos d q h = rw (q, le→leb _ _ h)

module _ (f : Frame) (rest : List ℕ) (pos : ℕ) (d : Disk) (quiet : d.coming ≡ [])
    (there : drop pos d.wal ≡ frame_bytes f ++ rest)
    (within : pos + frame_size f ≤ length d.wal) where
  pub read_frame_header_quiet :
      length f < 2 ^ 32 → read_frame_header (pos, d) ≡ done (length f) (pos + 4, d)
  unfolding read_frame_header
  read_frame_header_quiet small = rw (
    read_frame_header,
    ◌>>=◌,
    read_exact_quiet 4 pos d quiet (omega arith),
    there,
    append_assoc,
    take-append_exact (le_bytes 4 (length f)) (f ++ rest) 4 (sym (length-le_bytes 4 (length f))),
    from_le_bytes-u32 (length f) small,
  )

  pub read_body_quiet : read_exact (length f) (pos + 4, d) ≡ done f (pos + 4 + length f, d)
  read_body_quiet = rw (
    read_exact_quiet (length f) (pos + 4) d quiet (omega arith),
    ← drop-drop pos 4 (pos + 4) d.wal refl,
    there,
    append_assoc,
    drop-append_exact (le_bytes 4 (length f)) (f ++ rest) 4 (sym (length-le_bytes 4 (length f))),
    take-append_exact f rest (length f) refl,
  )
