-- ===== src/Buffer/Wal.antt =====
-- `DiskBuffer` of crates/tell/src/buffer.rs: the write-ahead log of encoded batches. A method is a
-- computation on the buffer's fields and the disk. Positions are u64, with their wrap-around.
use tell_rs.Prelude.{
  ℕ, zero, suc, ◌+◌, ◌-◌, ◌*◌, ◌%◌, ◌^◌, min, Bool, true, false, not, Option, none, some, List, [],
  length, leb, ltb, ◌==◌, if◌then◌else◌, when◌then◌else◌, Result, ok, err, running, Run, done,
  failed, final, Exec, pure, fail, attempt, modify, gets, ◌>>=◌, ◌>>◌,
}
use tell_rs.Bytes.{le_bytes}
use tell_rs.Buffer.Disk.{
  Kind, unexpected_eof, invalid_input, invalid_data, Disk, Entry, regular, link_to_file, opened, Io,
  sys, Reader, Read, write_all, read_exact, read_frame_header, open_append, open_reader,
  read_cursor, write_cursor, rewrite_tail,
}

abbrev pub u64_mod : ℕ
u64_mod = 2 ^ 64

abbrev pub add64 : ℕ → ℕ → ℕ
add64 a b = (a + b) % u64_mod

abbrev pub sub64 : ℕ → ℕ → ℕ
sub64 a b = (a + u64_mod - b) % u64_mod

abbrev pub frame_header_len : ℕ
frame_header_len = 4

abbrev pub max_frame_len : ℕ
max_frame_len = 256 * 1024 * 1024

-- The two paths are fixed, and stand for the files of `Disk`. A handle is open or not; the reader
-- is the offset at which it stands.
pub record DiskBuffer : Type 0 where
  pub max_bytes : ℕ
  pub write_pos : ℕ
  pub read_pos : ℕ
  pub persisted_pos : ℕ
  pub wal_file : Bool
  pub reader : Option ℕ

pub record State : Type 0 where
  pub buf : DiskBuffer
  pub open buf use *
  pub disk : Disk
  pub open disk use *

abbrev pub M : Type 0 → Type 0
M A = Exec Kind State A

abbrev pub lift : {A : Type 0} → Io A → M A
lift io s = elim (io s.disk) [
  | done a d ↦ done a (record s { disk = d })
  | failed k d ↦ failed k (record s { disk = d })
]

abbrev pub set_buf : (DiskBuffer → DiskBuffer) → M Unit
set_buf f = modify (λ s. record s { buf = f s.buf })

-- `file`
unfoldable pub file : M Unit
file = do
  is_open ← gets (λ s. s.wal_file)
  when is_open then pure tt else do lift open_append; set_buf (λ b. record b { wal_file = true })

-- `reader`: where the reader stands, opened at `read_pos` if there is none.
abbrev pub reader_at : Option ℕ → M ℕ
reader_at (some pos) = pure pos
reader_at none = do
  offset ← gets (λ s. s.read_pos)
  pos ← lift (open_reader offset)
  set_buf (λ b. record b { reader = some pos })
  pure pos

unfoldable pub get_reader : M ℕ
get_reader = do r ← gets (λ s. s.reader); reader_at r

-- A read through the buffer's own reader moves it.
abbrev pub moved : State → Reader → State
moved s (pos, d) = record s { buf = record s.buf { reader = some pos }; disk = d }

abbrev pub read_from : {A : Type 0} → Read A → ℕ → M A
read_from read pos s = elim (read (pos, s.disk)) [
  | done a r ↦ done a (moved s r)
  | failed k r ↦ failed k (moved s r)
]

unfoldable pub read_own : {A : Type 0} → Read A → M A
read_own read = do pos ← get_reader; read_from read pos

-- `persist_cursor`
unfoldable pub persist_cursor : M Unit
persist_cursor = do
  pos ← gets (λ s. s.read_pos)
  lift (write_cursor pos)
  set_buf (λ b. record b { persisted_pos = b.read_pos })

-- `reset_to_end`
unfoldable pub reset_to_end : M Unit
reset_to_end = do set_buf (λ b. record b { read_pos = b.write_pos; reader = none }); persist_cursor

-- `truncate_all`
unfoldable pub truncate_all : M Unit
truncate_all = do
  set_buf (λ b. record b { wal_file = false; reader = none })
  lift (sys (λ d. record d { wal = []; entry = opened d.entry }))
  set_buf (λ b. record b { wal_file = true; write_pos = 0; read_pos = 0 })
  persist_cursor

-- The part of `compact` up to the rename, which replaces the log by its unconsumed tail.
unfoldable pub replace_wal : ℕ → M Unit
replace_wal remaining = do
  offset ← gets (λ s. s.read_pos)
  lift (rewrite_tail offset remaining)
  set_buf (λ b. record b { wal_file = false; reader = none })
  lift (sys (λ d. record d { wal = d.tmp; tmp = []; entry = regular }))

-- `compact`
unfoldable pub compact : M Unit
compact = do
  b ← gets (λ s. s.buf)
  let remaining = sub64 b.write_pos b.read_pos
  when b.read_pos == 0 then pure tt else when remaining == 0 then truncate_all else do
    replace_wal remaining
    lift open_append
    set_buf (λ b. record b { wal_file = true; write_pos = remaining; read_pos = 0 })
    persist_cursor

-- `maybe_compact`. The source compares the quotient of two f64 with 0.5; below 2 ^ 53 bytes both
-- conversions are exact and the rounded quotient exceeds 0.5 exactly when this test holds.
unfoldable pub maybe_compact : M Unit
maybe_compact = do
  b ← gets (λ s. s.buf)
  when b.write_pos == 0
      then pure tt
      else when ltb b.write_pos (2 * b.read_pos)
      then compact
      else pure tt

-- One round of the loop of `evict_if_needed`: what the header says, and the next round.
abbrev pub evict_step : Run Kind Reader ℕ → (ℕ → ℕ → Io ℕ) → ℕ → Run Kind Disk ℕ
evict_step (done len (pos, d)) next freed =
    (when leb len max_frame_len then sys (λ d. d) >> next len (pos + len) else pure freed) d
evict_step (failed unexpected_eof (pos, d)) next freed = done freed d
evict_step (failed k (pos, d)) next freed = failed k d

-- The loop of `evict_if_needed`, with its own reader at `pos`. Each round frees a header at least,
-- so that `must_free` rounds are enough: see `Buffer.Evict`.
unfoldable pub evict_loop : ℕ → ℕ → ℕ → ℕ → Io ℕ
evict_loop zero must_free freed pos d = done freed d
evict_loop (suc fuel) must_free freed pos d = elim (ltb freed must_free) [
  | true ↦
      evict_step (read_frame_header (pos, d))
        (λ len pos'. evict_loop fuel must_free (add64 freed (frame_header_len + len)) pos') freed
  | false ↦ done freed d
]

-- `evict_if_needed`
unfoldable pub evict_if_needed : ℕ → M ℕ
evict_if_needed needed = do
  b ← gets (λ s. s.buf)
  let wanted = add64 (sub64 b.write_pos b.read_pos) needed
  when leb wanted b.max_bytes then pure 0 else do
    let must_free = sub64 wanted b.max_bytes
    start ← lift (open_reader b.read_pos)
    freed ← lift (evict_loop must_free must_free 0 start)
    set_buf (λ b. record b { read_pos = min (add64 b.read_pos freed) b.write_pos; reader = none })
    persist_cursor
    maybe_compact
    pure freed

-- `append`
unfoldable pub append : List ℕ → M ℕ
append batch = do
  let frame_size = add64 frame_header_len (length batch)
  evicted ← evict_if_needed frame_size
  file
  lift (write_all (le_bytes 4 (length batch)))
  lift (write_all batch)
  lift (sys (λ d. d))
  set_buf (λ b. record b { write_pos = add64 b.write_pos frame_size })
  pure evicted

-- `read_header`: `none` is a truncated header.
abbrev pub header_found : Result Kind ℕ → M (Option ℕ)
header_found (ok len) = pure (some len)
header_found (err unexpected_eof) = pure none
header_found (err k) = fail k

-- The `match` on the frame's body.
abbrev pub body_found : ℕ → Result Kind (List ℕ) → M (Option (List ℕ))
body_found len (ok frame) = do
  set_buf (λ b. record b { read_pos = add64 b.read_pos (frame_header_len + len) })
  pure (some frame)
body_found len (err unexpected_eof) = do reset_to_end; pure none
body_found len (err k) = fail k

-- What `drain_next` does once it has the header, `remaining` bytes being unconsumed.
unfoldable pub drain_frame : ℕ → Option ℕ → M (Option (List ℕ))
drain_frame remaining none = do reset_to_end; pure none
drain_frame remaining (some len) =
    when ltb max_frame_len len
    then (do reset_to_end; fail invalid_data)
    else when ltb remaining (len + frame_header_len)
    then (do reset_to_end; pure none)
    else (do get_reader; body ← attempt (read_own (read_exact len)); body_found len body)

-- `drain_next`. An error of opening the reader is not one that `read_header` inspects.
unfoldable pub drain_next : M (Option (List ℕ))
drain_next = do
  b ← gets (λ s. s.buf)
  when leb b.write_pos b.read_pos then pure none else do
    get_reader
    header ← attempt (read_own read_frame_header)
    found ← header_found header
    drain_frame (sub64 b.write_pos b.read_pos) found

-- `commit`
unfoldable pub commit : M Unit
commit = do
  b ← gets (λ s. s.buf)
  when b.read_pos == b.persisted_pos then pure tt else persist_cursor
  maybe_compact

-- `is_empty`
unfoldable pub is_empty : DiskBuffer → Bool
is_empty b = leb b.write_pos b.read_pos

-- `buffered_bytes`
unfoldable pub buffered_bytes : DiskBuffer → ℕ
buffered_bytes b = b.write_pos - b.read_pos

-- `drop`: the result of the write is ignored.
unfoldable pub on_drop : State → Disk
on_drop s = if s.read_pos == s.persisted_pos then s.disk else final (write_cursor s.read_pos s.disk)

-- `wal_path.exists() && symlink_metadata(…)?.file_type().is_symlink()`: `exists` follows a link, so
-- that a dangling one is not seen here.
abbrev pub check_link : Entry → Io Unit
check_link regular = sys (λ d. d)
check_link link_to_file = do sys (λ d. d); fail invalid_input
check_link _ = pure tt

-- The calls of `open` up to the two positions: directory and its permissions, the link test, the
-- log, its permissions and length, the cursor.
unfoldable pub open_files : Io (ℕ × ℕ)
open_files = do
  sys (λ d. d)
  sys (λ d. d)
  entry ← gets (λ d. d.entry)
  check_link entry
  open_append
  sys (λ d. d)
  sys (λ d. d)
  written ← gets (λ d. length d.wal)
  cursor ← read_cursor
  pure (written, cursor)

-- A cursor beyond the log is clamped to its end.
unfoldable pub clamp_cursor : M Unit
clamp_cursor = do
  b ← gets (λ s. s.buf)
  when ltb b.write_pos b.read_pos
      then (do set_buf (λ b. record b { read_pos = b.write_pos }); persist_cursor)
      else pure tt

abbrev pub fresh : ℕ → ℕ × ℕ → DiskBuffer
fresh max_bytes (written, cursor) = record {
  max_bytes = max_bytes;
  write_pos = written;
  read_pos = cursor;
  persisted_pos = cursor;
  wal_file = true;
  reader = none;
}

-- On an error the half-made buffer is dropped.
abbrev pub made : Run Kind State Unit → Run Kind Disk DiskBuffer
made (done _ s) = done s.buf s.disk
made (failed k s) = failed k (on_drop s)

-- `open`
unfoldable pub open_buffer : ℕ → Io DiskBuffer
open_buffer max_bytes = do
  positions ← open_files
  λ d. made (clamp_cursor (record { buf = fresh max_bytes positions; disk = d }))

-- What `rw` and `simp` look into when they run a method.
pub ruleset methods = (running, lift, set_buf, reader_at, read_from)
