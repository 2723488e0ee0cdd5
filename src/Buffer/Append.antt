-- ===== src/Buffer/Append.antt =====
-- `append` of crates/tell/src/buffer.rs: the new frame comes last, the oldest frames make room.
use tell_rs.Prelude.{
  ℕ, ◌+◌, ◌≤◌, ◌<◌, ◌≡◌, ap, subst, sym, ◌∙◌, List, [], ◌∷◌, ◌++◌, length, drop, arith, done, true,
  Succeeds, All, append-nil, append_assoc, length-append, drop-append_le,
}
use tell_rs.Bytes.{le_bytes, length-le_bytes}
use tell_rs.Buffer.Disk.{Disk, sys, write_all}
use tell_rs.Buffer.Wal.{
  State, DiskBuffer, methods, append, evict_if_needed, file, max_frame_len, u64_mod, add64,
  buffered_bytes,
}
use tell_rs.Buffer.Frames.{
  Frame, frame_bytes, log_bytes, log_bytes-append, total_size-snoc, frame_size,
}
use tell_rs.Buffer.Holds.{Holds, Holds-file, room}
use tell_rs.Buffer.Compact.{Keeps}
use tell_rs.Buffer.Evict.{
  kept, freed_by, lacking, evict_if_needed_lem, total_size-kept, need-le-freed,
}

write_all_quiet :
    (bytes : List ℕ) (d : Disk)
    → d.coming ≡ []
    → write_all bytes d ≡ done tt (record d { wal = d.wal ++ bytes })
unfolding write_all
write_all_quiet bytes d q = rw q

All-snoc :
    (P : Frame → Type 0) (fs : List Frame) (f : Frame) → All P fs → P f → All P (fs ++ f ∷ [])
All-snoc P [] f h hf = (hf, tt)
All-snoc P (g ∷ fs) f (hg, h) hf = (hg, All-snoc P fs f h hf)

-- The frame stands at the end of the log, and the write position behind it.
abbrev extended : State → Frame → State
extended s batch = record s {
  buf = record s.buf { write_pos = add64 s.write_pos (add64 4 (length batch)) };
  disk = record s.disk { wal = (s.wal ++ le_bytes 4 (length batch)) ++ batch };
}

abbrev extended_header : State → Frame → Disk
extended_header s batch = record s.disk { wal = s.wal ++ le_bytes 4 (length batch) }

length-extended :
    (s : State) (batch : Frame) → length (extended s batch).wal ≡ length s.wal + frame_size batch
length-extended s batch = omega (
  arith,
  length-append (s.wal ++ le_bytes 4 (length batch)) batch,
  length-append s.wal (le_bytes 4 (length batch)),
  length-le_bytes 4 (length batch),
)

Holds-extended :
    (s : State) (fs : List Frame) (batch : Frame)
    → Holds s fs
    → length batch ≤ max_frame_len
    → length s.wal + frame_size batch < u64_mod
    → Holds (extended s batch) (fs ++ batch ∷ [])
Holds-extended s fs batch h fits small = record {
  quiet = h.quiet;
  pending =
      ap (drop s.read_pos) (append_assoc s.wal (le_bytes 4 (length batch)) batch)
      ∙ drop-append_le s.wal (frame_bytes batch) s.read_pos (omega (arith, h.starts, h.ends))
      ∙ ap (λ t. t ++ frame_bytes batch) h.pending
      ∙ ap (λ t. log_bytes fs ++ t) (sym (append-nil (frame_bytes batch)))
      ∙ sym (log_bytes-append fs (batch ∷ []));
  ends = omega (arith, length-extended s batch, h.ends, h.fits);
  starts = omega (arith, h.starts, h.ends, h.fits);
  fits = omega (arith, length-extended s batch);
  framed = All-snoc (λ f. length f ≤ max_frame_len) fs batch h.framed fits;
  at_start = h.at_start;
}

module _ (s t u : State) (batch : Frame) (n : ℕ)
    (evicts : evict_if_needed (add64 4 (length batch)) s ≡ done n t) (opens : file t ≡ done tt u)
    (quiet : u.coming ≡ []) where
  -- What `append` does once there is room and the handle is there.
  append_run : append batch s ≡ done n (extended u batch)
  unfolding append
  append_run =
      rw (methods, evicts, opens, write_all_quiet (le_bytes 4 (length batch)) u.disk quiet)
        (rw (methods, write_all_quiet batch (extended_header u batch) quiet)
          (unfold sys in rw quiet))

module _ (s : State) (fs : List Frame) (batch : Frame) (h : Holds s fs)
    (fits : length batch ≤ max_frame_len) (small : length s.wal + frame_size batch < u64_mod) where
  -- The frames that are left when the batch has been given room.
  abbrev left : List Frame
  left = kept (lacking s fs (frame_size batch)) fs

  abbrev Appended : ℕ → State → Type 0
  Appended n t =
      (n ≡ freed_by (lacking s fs (frame_size batch)) fs)
      × Holds t (left ++ batch ∷ [])
      × (t.max_bytes ≡ s.max_bytes)
      × (length t.wal ≤ length s.wal + frame_size batch)

  append_from :
      (n : ℕ) (t : State)
      → evict_if_needed (add64 4 (length batch)) s ≡ done n t
      → (n ≡ freed_by (lacking s fs (frame_size batch)) fs) × Keeps s left t
      → Succeeds
          (file t)
          (λ _ u. Holds u left × (u.buf ≡ record t.buf { wal_file = true }) × (u.wal ≡ t.wal))
      → Succeeds (append batch s) Appended
  append_from n t evicts (e, (h', m, l)) (_, u, opens, (h'', b, w)) = (
    n,
    extended u batch,
    append_run s t u batch n evicts opens h''.quiet,
    (
      e,
      Holds-extended u left batch h'' fits (omega (arith, ap length w)),
      ap (λ (b : DiskBuffer). b.max_bytes) b ∙ m,
      omega (arith, ap length w, length-extended u batch),
    ),
  )

  -- While no system call on the disk fails: append succeeds, puts the batch behind the frames that
  -- the specification of eviction leaves, returns the number of bytes of the frames it dropped,
  -- keeps the limit, and makes the log longer by the new frame at most. The batch has at most 256
  -- MiB and the log stays below 2^64 bytes.
  pub append_lem : Succeeds (append batch s) Appended
  append_lem =
      let (n, t, run, (e, keeps)) = evicts in append_from n t run (e, keeps) (Holds-file keeps.0)
    where
      evicts :
          Succeeds
            (evict_if_needed (add64 4 (length batch)) s)
            (λ n t. (n ≡ freed_by (lacking s fs (frame_size batch)) fs) × Keeps s left t)
      evicts =
          subst
            (λ (k : ℕ).
              Succeeds (evict_if_needed k s)
                (λ n t. (n ≡ freed_by (lacking s fs (frame_size batch)) fs) × Keeps s left t))
            (omega arith)
            (evict_if_needed_lem s fs h (frame_size batch) (omega (arith, room h, h.ends)))

  -- While no system call on the disk fails: on a buffer whose unconsumed log is whole frames, after
  -- append of a batch of at most 256 MiB whose frame is not larger than the limit, the buffered
  -- bytes are within the limit. The log stays below 2^64 bytes.
  pub append_bound :
      frame_size batch ≤ s.max_bytes
      → Succeeds (append batch s) (λ _ t. buffered_bytes t.buf ≤ s.max_bytes)
  unfolding buffered_bytes
  append_bound within =
      let (n, t, run, (e, h', m, _)) = append_lem in
      (
        n,
        t,
        run,
        omega (
          arith,
          room h',
          total_size-snoc left batch,
          total_size-kept (lacking s fs (frame_size batch)) fs,
          need-le-freed (lacking s fs (frame_size batch)) fs,
        ),
      )
