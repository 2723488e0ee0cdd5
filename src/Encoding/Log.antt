-- ===== src/Encoding/Log.antt =====
-- crates/tell-encoding/src/log.rs: the encoding of one log entry and of a vector of them, and the
-- parameters in lib.rs.
pub mod Into
pub mod Image
pub mod RoundTrip
use tell_rs.Prelude.{
  ℕ, ◌+◌, ◌-◌, ◌*◌, if◌then◌else◌, Option, Run, List, [], ◌∷◌, replicate, ◌>>=◌, ◌>>◌,
}
use tell_rs.Encoding.Helpers.{
  Panic, Write, extend, position, write_u16, write_u32, write_u64, write_i32, align4,
  write_byte_vector, write_string, put_u32, optionally, patch_present, is_some,
}
use tell_rs.Encoding.Vector.{encode_data, encode_data_into}

pub data LogEventType : Type 0 where
  unknown log enrich : LogEventType

-- `LogEventType::as_u8`
unfoldable pub log_type_as_u8 : LogEventType → ℕ
log_type_as_u8 unknown = 0
log_type_as_u8 log = 1
log_type_as_u8 enrich = 2

pub data LogLevel : Type 0 where
  emergency alert critical error warning notice info debug trace : LogLevel

-- `LogLevel::as_u8`
unfoldable pub level_as_u8 : LogLevel → ℕ
level_as_u8 emergency = 0
level_as_u8 alert = 1
level_as_u8 critical = 2
level_as_u8 error = 3
level_as_u8 warning = 4
level_as_u8 notice = 5
level_as_u8 info = 6
level_as_u8 debug = 7
level_as_u8 trace = 8

pub record LogEntryParams : Type 0 where
  pub event_type : LogEventType
  pub session_id : Option (List ℕ)
  pub level : LogLevel
  pub timestamp : ℕ
  pub source : Option (List ℕ)
  pub service : Option (List ℕ)
  pub payload : Option (List ℕ)

-- The steps of `encode_log_entry`, on its new buffer. The capacity that it reserves is left out.
unfoldable pub encode_log_entry_steps : LogEntryParams → Write Unit
encode_log_entry_steps params = do
  let vtable_size = 4 + 7 * 2
  let table_size = 4 + 28
  extend (replicate 4 0)
  vtable_start ← position
  write_u16 vtable_size
  write_u16 table_size
  write_u16 28
  write_u16 (if is_some params.session_id then 4 else 0)
  write_u16 29
  write_u16 20
  write_u16 (if is_some params.source then 8 else 0)
  write_u16 (if is_some params.service then 12 else 0)
  write_u16 (if is_some params.payload then 16 else 0)
  extend (replicate 2 0)
  table_start ← position
  write_i32 (table_start - vtable_start)
  session_id_off_pos ← position
  write_u32 0
  source_off_pos ← position
  write_u32 0
  service_off_pos ← position
  write_u32 0
  payload_off_pos ← position
  write_u32 0
  write_u64 params.timestamp
  extend (log_type_as_u8 params.event_type ∷ [])
  extend (level_as_u8 params.level ∷ [])
  extend (replicate 2 0)
  align4
  session_id_start ← optionally params.session_id write_byte_vector
  align4
  source_start ← optionally params.source write_string
  align4
  service_start ← optionally params.service write_string
  align4
  payload_start ← optionally params.payload write_byte_vector
  put_u32 0 table_start
  patch_present session_id_off_pos session_id_start
  patch_present source_off_pos source_start
  patch_present service_off_pos service_start
  patch_present payload_off_pos payload_start

-- `encode_log_entry`
unfoldable pub encode_log_entry : LogEntryParams → Run Panic (List ℕ) Unit
encode_log_entry params = encode_log_entry_steps params []

-- `encode_log_entry_into`
unfoldable pub encode_log_entry_into : LogEntryParams → Write Unit
encode_log_entry_into params = do
  let vtable_size = 4 + 7 * 2
  let table_size = 4 + 28
  root_pos ← position
  extend (replicate 4 0)
  vtable_start ← position
  write_u16 vtable_size
  write_u16 table_size
  write_u16 28
  write_u16 (if is_some params.session_id then 4 else 0)
  write_u16 29
  write_u16 20
  write_u16 (if is_some params.source then 8 else 0)
  write_u16 (if is_some params.service then 12 else 0)
  write_u16 (if is_some params.payload then 16 else 0)
  extend (replicate 2 0)
  table_start ← position
  write_i32 (table_start - vtable_start)
  session_id_off_pos ← position
  write_u32 0
  source_off_pos ← position
  write_u32 0
  service_off_pos ← position
  write_u32 0
  payload_off_pos ← position
  write_u32 0
  write_u64 params.timestamp
  extend (log_type_as_u8 params.event_type ∷ [])
  extend (level_as_u8 params.level ∷ [])
  extend (replicate 2 0)
  align4
  session_id_start ← optionally params.session_id write_byte_vector
  align4
  source_start ← optionally params.source write_string
  align4
  service_start ← optionally params.service write_string
  align4
  payload_start ← optionally params.payload write_byte_vector
  put_u32 root_pos (table_start - root_pos)
  patch_present session_id_off_pos session_id_start
  patch_present source_off_pos source_start
  patch_present service_off_pos service_start
  patch_present payload_off_pos payload_start

-- `encode_log_data`
abbrev pub encode_log_data : List (List ℕ) → Run Panic (List ℕ) Unit
encode_log_data = encode_data

-- `encode_log_data_into`
abbrev pub encode_log_data_into : List LogEntryParams → Write (ℕ × ℕ)
encode_log_data_into = encode_data_into encode_log_entry_into
