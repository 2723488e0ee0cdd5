-- ===== src/Encoding/Helpers/Fields.antt =====
-- What a reader finds in a field of a table whose section one of the encoders of
-- crates/tell-encoding/src has put behind the table, if it is there.
use tell_rs.Prelude.{
  ℕ, ◌+◌, ◌-◌, ◌^◌, ◌<◌, ◌≤◌, ◌≡◌, ◌==◌, refl, ap, ◌∙◌, if◌then◌else◌, Option, none, some, List,
  ◌++◌, length, arith, false,
}
use tell_rs.Bytes.{le_bytes, from_le_bytes, from_le_bytes-u16, from_le_bytes-u32}
use tell_rs.Encoding.Helpers.{is_some}
use tell_rs.Encoding.Helpers.Sections.{Stands, not_there, there, Stands-read, section_fits}
use tell_rs.Encoding.Reader.{
  field_at, word_at, present, vector_field, target_at, vector_at, map_option,
}

-- From a slot to the section, or 0.
abbrev pub distance : Option ℕ → ℕ → ℕ
distance none slot = 0
distance (some start) slot = start - slot

-- The word of the vtable for a section that stands `off` bytes into the table.
abbrev pub vtable_word : {A : Type 0} → ℕ → Option A → ℕ
vtable_word off b = from_le_bytes (le_bytes 2 (if is_some b then off else 0))

-- A field whose slot stands `off` bytes into the table.
pub field_present :
    (table off i : ℕ) (buf : List ℕ)
    → 0 < off
    → off < 2 ^ 16
    → field_at table i buf ≡ present table (from_le_bytes (le_bytes 2 off))
    → field_at table i buf ≡ some (table + off)
field_present table off i buf pos small e =
    e ∙ ap (present table) (from_le_bytes-u16 off small) ∙ rw (there_is pos)
  where
    there_is : 0 < off → (off == 0) ≡ false
    there_is h = ground arith

field_absent : (table : ℕ) → present table (from_le_bytes (le_bytes 2 0)) ≡ none
unfolding le_bytes from_le_bytes
field_absent table = refl

-- The word in a slot leads to the section.
pub slot_target :
    (slot start : ℕ) (buf : List ℕ)
    → slot ≤ start
    → start < 2 ^ 32
    → word_at 4 slot buf ≡ from_le_bytes (le_bytes 4 (start - slot))
    → target_at slot buf ≡ start
slot_target slot start buf le small e =
    omega (arith, e, from_le_bytes-u32 (start - slot) (omega arith))

pub section_read :
    (h t : List ℕ) (o : Option ℕ) (b : Option (List ℕ)) (table i off : ℕ)
    → Stands (length h) t o b
    → length h + length t < 2 ^ 32
    → 0 < off
    → off < 2 ^ 16
    → table + off ≤ length h
    → field_at table i (h ++ t) ≡ present table (vtable_word off b)
    → word_at 4 (table + off) (h ++ t) ≡ from_le_bytes (le_bytes 4 (distance o (table + off)))
    → vector_field table i (h ++ t) ≡ b
unfolding vector_field
section_read h t o b table i off not_there small pos less within field word =
    ap (map_option (λ pos. vector_at (target_at pos (h ++ t)) (h ++ t)))
      (field ∙ field_absent table)
section_read h t o b table i off (there at bytes rest fits e) small pos less within field word =
    ap (map_option (λ pos. vector_at (target_at pos (h ++ t)) (h ++ t)))
      (field_present table off i (h ++ t) pos less field)
    ∙ ap (λ start. some (vector_at start (h ++ t)))
        (slot_target (table + off) (length h + at) (h ++ t) (omega arith)
          (omega (arith, section_fits t at bytes rest e)) word)
    ∙ ap some (Stands-read h t at bytes rest (omega (arith, section_fits t at bytes rest e)) e)
