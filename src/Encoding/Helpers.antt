-- ===== src/Encoding/Helpers.antt =====
-- crates/tell-encoding/src/helpers.rs: the writers that all encoders share. An encoder is a
-- computation on the buffer, a list of bytes; a write outside the buffer panics.
pub mod Pad
pub mod Shift
pub mod Grows
pub mod Then
pub mod Fields
pub mod Sections
use tell_rs.Prelude.{
  ℕ, zero, suc, ◌+◌, ◌-◌, ◌%◌, ◌^◌, ◌==◌, ◌≡◌, refl, ap, Bool, true, false, Option, none, some,
  List, [], ◌∷◌, ◌++◌, length, Run, done, failed, Exec, pure, fail, modify, gets, ◌>>=◌, ◌>>◌,
  running,
}
use tell_rs.Bytes.{le_bytes}

pub data Panic : Type 0 where
  out_of_range : Panic

abbrev pub Write : Type 0 → Type 0
Write A = Exec Panic (List ℕ) A

-- `extend_from_slice`
abbrev pub extend : List ℕ → Write Unit
extend bytes = modify (λ buf. buf ++ bytes)

abbrev pub position : Write ℕ
position = gets length

-- `write_u16`
abbrev pub write_u16 : ℕ → Write Unit
write_u16 value = extend (le_bytes 2 value)

-- `write_u32`
abbrev pub write_u32 : ℕ → Write Unit
write_u32 value = extend (le_bytes 4 value)

-- `write_u64`
abbrev pub write_u64 : ℕ → Write Unit
write_u64 value = extend (le_bytes 8 value)

-- `write_i32`: only distances within the buffer are written, which are not negative.
abbrev pub write_i32 : ℕ → Write Unit
write_i32 value = extend (le_bytes 4 value)

-- The loop of `align4`. Three rounds are enough: see `length-aligned`.
unfoldable pub pad_loop : ℕ → List ℕ → List ℕ
pad_loop zero buf = buf
pad_loop (suc fuel) buf = elim (length buf % 4 == 0) [
  | true ↦ buf
  | false ↦ pad_loop fuel (buf ++ 0 ∷ [])
]

-- `align4`
abbrev pub align4 : Write Unit
align4 = modify (pad_loop 3)

-- `write_byte_vector`
abbrev pub write_byte_vector : List ℕ → Write ℕ
write_byte_vector bytes = do start ← position; write_u32 (length bytes); extend bytes; pure start

-- `write_string`
abbrev pub write_string : List ℕ → Write ℕ
write_string s = do start ← position; write_u32 (length s); extend s; extend (0 ∷ []); pure start

abbrev pub keep_first : ℕ → Option (List ℕ) → Option (List ℕ)
keep_first b none = none
keep_first b (some buf) = some (b ∷ buf)

-- `buf[pos..pos + bytes.len()].copy_from_slice(bytes)`: all the places must be there.
unfoldable pub overwrite : ℕ → List ℕ → List ℕ → Option (List ℕ)
overwrite zero [] buf = some buf
overwrite zero (x ∷ xs) [] = none
overwrite zero (x ∷ xs) (b ∷ buf) = keep_first x (overwrite zero xs buf)
overwrite (suc pos) xs [] = none
overwrite (suc pos) xs (b ∷ buf) = keep_first b (overwrite pos xs buf)

abbrev pub replaced : Option (List ℕ) → Write Unit
replaced none = fail out_of_range
replaced (some buf) = λ _. done tt buf

abbrev pub put_u32 : ℕ → ℕ → Write Unit
put_u32 pos value buf = replaced (overwrite pos (le_bytes 4 value) buf) buf

-- `patch_offset`: the distance from `offset_pos` to `target`, which stands behind it.
abbrev pub patch_offset : ℕ → ℕ → Write Unit
patch_offset offset_pos target = put_u32 offset_pos (target - offset_pos)

-- `option.map(|bytes| write(buf, bytes))`
abbrev pub optionally : Option (List ℕ) → (List ℕ → Write ℕ) → Write (Option ℕ)
optionally none write = pure none
optionally (some bytes) write = do start ← write bytes; pure (some start)

-- `if let Some(start) = start { patch_offset(buf, offset_pos, start) }`
abbrev pub patch_present : ℕ → Option ℕ → Write Unit
patch_present offset_pos none = pure tt
patch_present offset_pos (some start) = patch_offset offset_pos start

abbrev pub is_some : {A : Type 0} → Option A → Bool
is_some none = false
is_some (some a) = true
