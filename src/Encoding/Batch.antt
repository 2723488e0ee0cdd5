-- ===== src/Encoding/Batch.antt =====
-- crates/tell-encoding/src/batch.rs: the envelope of a batch, and its parameters in lib.rs.
pub mod RoundTrip
use tell_rs.Prelude.{
  ℕ, ◌+◌, ◌-◌, ◌*◌, ◌==◌, not, if◌then◌else◌, Run, List, [], ◌∷◌, replicate, ◌>>=◌, ◌>>◌, pure,
}
use tell_rs.Encoding.Helpers.{
  Panic, Write, extend, position, write_u16, write_u32, write_u64, write_i32, align4,
  write_byte_vector, put_u32, patch_offset,
}

pub data SchemaType : Type 0 where
  unknown event log metric : SchemaType

-- `as_u8`
unfoldable pub as_u8 : SchemaType → ℕ
as_u8 unknown = 0
as_u8 event = 1
as_u8 log = 2
as_u8 metric = 3

abbrev pub api_key_length : ℕ
api_key_length = 16

abbrev pub default_version : ℕ
default_version = 100

pub record BatchParams : Type 0 where
  pub api_key : List ℕ
  pub schema_type : SchemaType
  pub version : ℕ
  pub batch_id : ℕ
  pub data_bytes : List ℕ

-- `encode_batch_into`. The capacity that it reserves is left out.
unfoldable pub encode_batch_into : BatchParams → Write Unit
encode_batch_into params = do
  let has_batch_id = not (params.batch_id == 0)
  let version = if params.version == 0 then default_version else params.version
  let vtable_size = 4 + 6 * 2
  let table_size = 4 + 28
  base ← position
  extend (replicate 4 0)
  vtable_start ← position
  write_u16 vtable_size
  write_u16 table_size
  write_u16 4
  write_u16 24
  write_u16 25
  write_u16 (if has_batch_id then 16 else 0)
  write_u16 8
  write_u16 0
  table_start ← position
  write_i32 (table_start - vtable_start)
  api_key_off_pos ← position
  write_u32 0
  data_off_pos ← position
  write_u32 0
  write_u32 0
  write_u64 params.batch_id
  extend (as_u8 params.schema_type ∷ [])
  extend (version ∷ [])
  extend (replicate 2 0)
  align4
  api_key_vec_start ← write_byte_vector params.api_key
  align4
  data_vec_start ← write_byte_vector params.data_bytes
  put_u32 base table_start
  patch_offset api_key_off_pos api_key_vec_start
  patch_offset data_off_pos data_vec_start

-- `encode_batch`
unfoldable pub encode_batch : BatchParams → Run Panic (List ℕ) Unit
encode_batch params = encode_batch_into params []
