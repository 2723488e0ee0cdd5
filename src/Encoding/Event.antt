-- ===== src/Encoding/Event.antt =====
-- crates/tell-encoding/src/event.rs: the encoding of one event and of a vector of them, and the
-- parameters in lib.rs.
pub mod Into
pub mod Head
pub mod Image
pub mod RoundTrip
pub mod Data
use tell_rs.Prelude.{
  ℕ, ◌+◌, ◌-◌, ◌*◌, if◌then◌else◌, Option, Run, List, [], ◌∷◌, replicate, ◌>>=◌, ◌>>◌,
}
use tell_rs.Encoding.Helpers.{
  Panic, Write, extend, position, write_u16, write_u32, write_u64, write_i32, align4,
  write_byte_vector, write_string, put_u32, optionally, patch_present, is_some,
}
use tell_rs.Encoding.Vector.{encode_data, encode_data_into}

pub data EventType : Type 0 where
  unknown track identify group alias enrich context : EventType

-- `as_u8`
unfoldable pub as_u8 : EventType → ℕ
as_u8 unknown = 0
as_u8 track = 1
as_u8 identify = 2
as_u8 group = 3
as_u8 alias = 4
as_u8 enrich = 5
as_u8 context = 6

pub record EventParams : Type 0 where
  pub event_type : EventType
  pub timestamp : ℕ
  pub service : Option (List ℕ)
  pub device_id : Option (List ℕ)
  pub session_id : Option (List ℕ)
  pub event_name : Option (List ℕ)
  pub payload : Option (List ℕ)

-- The steps of `encode_event`, on its new buffer. The capacity that it reserves is left out.
unfoldable pub encode_event_steps : EventParams → Write Unit
encode_event_steps params = do
  let vtable_size = 4 + 7 * 2
  let table_size = 4 + 32
  extend (replicate 4 0)
  vtable_start ← position
  write_u16 vtable_size
  write_u16 table_size
  write_u16 28
  write_u16 20
  write_u16 (if is_some params.service then 32 else 0)
  write_u16 (if is_some params.device_id then 4 else 0)
  write_u16 (if is_some params.session_id then 8 else 0)
  write_u16 (if is_some params.event_name then 12 else 0)
  write_u16 (if is_some params.payload then 16 else 0)
  extend (replicate 2 0)
  table_start ← position
  write_i32 (table_start - vtable_start)
  device_id_off_pos ← position
  write_u32 0
  session_id_off_pos ← position
  write_u32 0
  event_name_off_pos ← position
  write_u32 0
  payload_off_pos ← position
  write_u32 0
  write_u64 params.timestamp
  extend (as_u8 params.event_type ∷ [])
  extend (replicate 3 0)
  service_off_pos ← position
  write_u32 0
  align4
  device_id_start ← optionally params.device_id write_byte_vector
  align4
  session_id_start ← optionally params.session_id write_byte_vector
  align4
  service_start ← optionally params.service write_string
  align4
  event_name_start ← optionally params.event_name write_string
  align4
  payload_start ← optionally params.payload write_byte_vector
  put_u32 0 table_start
  patch_present device_id_off_pos device_id_start
  patch_present session_id_off_pos session_id_start
  patch_present service_off_pos service_start
  patch_present event_name_off_pos event_name_start
  patch_present payload_off_pos payload_start

-- `encode_event`
unfoldable pub encode_event : EventParams → Run Panic (List ℕ) Unit
encode_event params = encode_event_steps params []

-- `encode_event_into`
unfoldable pub encode_event_into : EventParams → Write Unit
encode_event_into params = do
  let vtable_size = 4 + 7 * 2
  let table_size = 4 + 32
  root_pos ← position
  extend (replicate 4 0)
  vtable_start ← position
  write_u16 vtable_size
  write_u16 table_size
  write_u16 28
  write_u16 20
  write_u16 (if is_some params.service then 32 else 0)
  write_u16 (if is_some params.device_id then 4 else 0)
  write_u16 (if is_some params.session_id then 8 else 0)
  write_u16 (if is_some params.event_name then 12 else 0)
  write_u16 (if is_some params.payload then 16 else 0)
  extend (replicate 2 0)
  table_start ← position
  write_i32 (table_start - vtable_start)
  device_id_off_pos ← position
  write_u32 0
  session_id_off_pos ← position
  write_u32 0
  event_name_off_pos ← position
  write_u32 0
  payload_off_pos ← position
  write_u32 0
  write_u64 params.timestamp
  extend (as_u8 params.event_type ∷ [])
  extend (replicate 3 0)
  service_off_pos ← position
  write_u32 0
  align4
  device_id_start ← optionally params.device_id write_byte_vector
  align4
  session_id_start ← optionally params.session_id write_byte_vector
  align4
  service_start ← optionally params.service write_string
  align4
  event_name_start ← optionally params.event_name write_string
  align4
  payload_start ← optionally params.payload write_byte_vector
  put_u32 root_pos (table_start - root_pos)
  patch_present device_id_off_pos device_id_start
  patch_present session_id_off_pos session_id_start
  patch_present service_off_pos service_start
  patch_present event_name_off_pos event_name_start
  patch_present payload_off_pos payload_start

-- `encode_event_data`
abbrev pub encode_event_data : List (List ℕ) → Run Panic (List ℕ) Unit
encode_event_data = encode_data

-- `encode_event_data_into`
abbrev pub encode_event_data_into : List EventParams → Write (ℕ × ℕ)
encode_event_data_into = encode_data_into encode_event_into
