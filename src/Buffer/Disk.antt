-- ===== src/Buffer/Disk.antt =====
-- The file system under crates/tell/src/buffer.rs: the two files of the buffer's directory, the
-- calls of `std::fs` and `std::io` on them, and the file helpers at the end of that file.
use tell_rs.Prelude.{
  ℕ, ◌+◌, ◌^◌, List, [], ◌∷◌, ◌++◌, length, take, drop, leb, ltb, if◌then◌else◌, when◌then◌else◌,
  Run, done, failed, Exec, pure, fail, gets, ◌>>=◌, ◌>>◌,
}
use tell_rs.Bytes.{from_le_bytes}

-- `io::ErrorKind`; the messages are not kept.
pub data Kind : Type 0 where
  unexpected_eof invalid_input invalid_data other : Kind

-- What stands at the path `buffer.wal`.
pub data Entry : Type 0 where
  absent regular link_to_file dangling_link : Entry

-- `buffer.cursor`: missing, a text that parses as a u64, or one that does not.
pub data CursorFile : Type 0 where
  missing garbled : CursorFile
  holds : ℕ → CursorFile

-- How a system call ends. A failing read or write has moved some bytes before.
pub data Outcome : Type 0 where
  pass : Outcome
  fault : Kind → ℕ → Outcome

-- `coming` lists how the next calls end; those after the list pass.
pub record Disk : Type 0 where
  pub entry : Entry
  pub wal : List ℕ
  pub tmp : List ℕ
  pub cursor : CursorFile
  pub coming : List Outcome

abbrev pub Io : Type 0 → Type 0
Io A = Exec Kind Disk A

abbrev pub outcome : List Outcome → Outcome
outcome [] = pass
outcome (o ∷ rest) = o

abbrev pub later : List Outcome → List Outcome
later [] = []
later (o ∷ rest) = rest

abbrev pub finish : Outcome → (Disk → Disk) → Io Unit
finish pass effect d = done tt (effect d)
finish (fault k n) effect d = failed k d

-- A call that does the whole of its effect, or nothing.
unfoldable pub sys : (Disk → Disk) → Io Unit
sys effect d = finish (outcome d.coming) effect (record d { coming = later d.coming })

abbrev pub written : Outcome → List ℕ → Io Unit
written pass bytes d = done tt (record d { wal = d.wal ++ bytes })
written (fault k n) bytes d = failed k (record d { wal = d.wal ++ take n bytes })

-- `write_all` on the handle that appends: a failure may leave a part of the bytes in the file.
unfoldable pub write_all : List ℕ → Io Unit
write_all bytes d = written (outcome d.coming) bytes (record d { coming = later d.coming })

-- A reader of the log: the offset at which it stands, and the disk.
abbrev pub Reader : Type 0
Reader = ℕ × Disk

abbrev pub Read : Type 0 → Type 0
Read A = Exec Kind Reader A

-- `read_exact` of `n` bytes. After a failure the reader stands where the failing call left it.
abbrev pub delivered : Outcome → ℕ → ℕ → Disk → Run Kind Reader (List ℕ)
delivered (fault k m) n pos d = failed k (pos + m, d)
delivered pass n pos d =
    if leb (pos + n) (length d.wal)
    then done (take n (drop pos d.wal)) (pos + n, d)
    else failed unexpected_eof (length d.wal, d)

unfoldable pub read_exact : ℕ → Read (List ℕ)
read_exact n (pos, d) = delivered (outcome d.coming) n pos (record d { coming = later d.coming })

-- `read_frame_header`
unfoldable pub read_frame_header : Read ℕ
unfolding read_exact
read_frame_header = do header ← read_exact 4; pure (from_le_bytes header)

abbrev pub opened : Entry → Entry
opened absent = regular
opened dangling_link = link_to_file
opened e = e

-- `open_append`: opens through a link, and creates what is not there.
unfoldable pub open_append : Io Unit
unfolding sys
open_append = sys (λ d. record d { entry = opened d.entry })

-- `open_reader`: `File::open`, then `seek`. The reader stands at the offset.
unfoldable pub open_reader : ℕ → Io ℕ
unfolding sys
open_reader offset = do sys (λ d. d); sys (λ d. d); pure offset

abbrev pub parsed : CursorFile → Io ℕ
parsed missing = pure 0
parsed garbled = fail invalid_data
parsed (holds n) = when ltb n (2 ^ 64) then pure n else fail invalid_data

-- `read_cursor`
unfoldable pub read_cursor : Io ℕ
unfolding sys
read_cursor = do sys (λ d. d); file ← gets (λ d. d.cursor); parsed file

-- `write_cursor`: create, write and fsync the temporary file, then rename it over the old one.
-- Only the rename changes what `read_cursor` finds.
unfoldable pub write_cursor : ℕ → Io Unit
unfolding sys
write_cursor pos = do
  sys (λ d. d)
  sys (λ d. d)
  sys (λ d. d)
  sys (λ d. record d { cursor = holds pos })

-- `rewrite_tail`: the copy into the temporary file of `len` bytes from `offset`.
unfoldable pub rewrite_tail : ℕ → ℕ → Io Unit
unfolding open_reader sys
rewrite_tail offset len = do
  start ← open_reader offset
  sys (λ d. record d { tmp = [] })
  sys (λ d. record d { tmp = take len (drop start d.wal) })
  copied ← gets (λ d. length d.tmp)
  when ltb copied len then fail unexpected_eof else sys (λ d. d)
