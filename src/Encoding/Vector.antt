-- ===== src/Encoding/Vector.antt =====
-- The vector of entries that event.rs and log.rs of crates/tell-encoding/src write, in the same words:
-- one encoder copies entries that are encoded already, the other encodes them in place.
pub mod Same
pub mod Total
pub mod Image
pub mod Whole
pub mod Moved
pub mod Read
pub mod Each
pub mod RoundTrip
use tell_rs.Prelude.{
  ℕ, zero, suc, ◌+◌, ◌-◌, ◌*◌, leb, if◌then◌else◌, Run, List, [], ◌∷◌, length, take, drop,
  replicate, ◌>>=◌, ◌>>◌, pure, fail, when◌then◌else◌, gets,
}
use tell_rs.Bytes.{from_le_bytes}
use tell_rs.Encoding.Helpers.{
  Panic, out_of_range, Write, extend, position, write_u16, write_u32, write_i32, align4, put_u32,
  patch_offset,
}

-- The loop that reserves the offset slots.
unfoldable pub reserve_slots : ℕ → Write Unit
reserve_slots zero = pure tt
reserve_slots (suc n) = do write_u32 0; reserve_slots n

unfoldable pub root_offset : List ℕ → ℕ
root_offset bytes = if leb 4 (length bytes) then from_le_bytes (take 4 bytes) else 0

-- The loop that copies the entries, and where their tables stand.
unfoldable pub copy_entries : List (List ℕ) → Write (List ℕ)
copy_entries [] = pure []
copy_entries (entry_bytes ∷ entries) = do
  align4
  entry_start ← position
  extend entry_bytes
  rest ← copy_entries entries
  pure ((entry_start + root_offset entry_bytes) ∷ rest)

-- `u32::from_le_bytes([buf[pos], ..., buf[pos + 3]])`
unfoldable pub read_u32 : ℕ → Write ℕ
read_u32 pos = do
  buf ← gets (λ buf. buf)
  when leb (pos + 4) (length buf)
      then pure (from_le_bytes (take 4 (drop pos buf)))
      else fail out_of_range

-- The loop that encodes the entries in their place.
unfoldable pub place_entries : {P : Type 0} → (P → Write Unit) → List P → Write (List ℕ)
place_entries encode_into [] = pure []
place_entries encode_into (params ∷ entries) = do
  align4
  entry_start ← position
  encode_into params
  root ← read_u32 entry_start
  rest ← place_entries encode_into entries
  pure ((entry_start + root) ∷ rest)

-- The loop over the slots, from slot `i` on.
unfoldable pub patch_slots : ℕ → ℕ → List ℕ → Write Unit
patch_slots offsets_start i [] = pure tt
patch_slots offsets_start i (table_pos ∷ rest) = do
  patch_offset (offsets_start + i * 4) table_pos
  patch_slots offsets_start (suc i) rest

unfoldable pub encode_data_steps : List (List ℕ) → Write Unit
encode_data_steps encoded_entries = do
  extend (replicate 4 0)
  vtable_start ← position
  write_u16 (4 + 2)
  write_u16 8
  write_u16 4
  extend (replicate 2 0)
  table_start ← position
  write_i32 (table_start - vtable_start)
  entries_off_pos ← position
  write_u32 0
  align4
  entries_vec_start ← position
  write_u32 (length encoded_entries)
  offsets_start ← position
  reserve_slots (length encoded_entries)
  align4
  table_positions ← copy_entries encoded_entries
  patch_slots offsets_start 0 table_positions
  patch_offset entries_off_pos entries_vec_start
  put_u32 0 table_start

-- `encode_event_data` and `encode_log_data`, on their new buffer
unfoldable pub encode_data : List (List ℕ) → Run Panic (List ℕ) Unit
encode_data encoded_entries = encode_data_steps encoded_entries []

-- `encode_event_data_into` and `encode_log_data_into`: the range of the data.
unfoldable pub encode_data_into : {P : Type 0} → (P → Write Unit) → List P → Write (ℕ × ℕ)
encode_data_into encode_into entries = do
  data_start ← position
  root_pos ← position
  extend (replicate 4 0)
  vtable_start ← position
  write_u16 6
  write_u16 8
  write_u16 4
  extend (replicate 2 0)
  table_start ← position
  write_i32 (table_start - vtable_start)
  entries_off_pos ← position
  write_u32 0
  align4
  entries_vec_start ← position
  write_u32 (length entries)
  offsets_start ← position
  reserve_slots (length entries)
  align4
  table_positions ← place_entries encode_into entries
  patch_slots offsets_start 0 table_positions
  patch_offset entries_off_pos entries_vec_start
  put_u32 root_pos (table_start - data_start)
  end ← position
  pure (data_start, end)
