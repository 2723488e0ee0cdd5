-- ===== src/Encoding/Reader.antt =====
-- What a reader of the FlatBuffer format finds in a buffer, by the format's own rules: the first
-- word leads to a table, the table's first word back to its vtable, and the vtable has the place of
-- each field in the table, or 0. Independent of the encoders of crates/tell-encoding/src.
pub mod Behind
use tell_rs.Prelude.{
  ℕ, zero, suc, [], ◌∷◌, ◌+◌, ◌-◌, ◌*◌, ◌==◌, leb, if◌then◌else◌, Option, none, some, List, take,
  drop,
}
use tell_rs.Bytes.{from_le_bytes}

-- The number of `k` bytes at `pos`.
abbrev pub word_at : ℕ → ℕ → List ℕ → ℕ
word_at k pos buf = from_le_bytes (take k (drop pos buf))

-- The word at `pos` counts from its own place.
abbrev pub target_at : ℕ → List ℕ → ℕ
target_at pos buf = pos + word_at 4 pos buf

abbrev pub vtable_of : ℕ → List ℕ → ℕ
vtable_of table buf = table - word_at 4 table buf

-- Where field `i` stands in the buffer, if the table has it.
abbrev pub present : ℕ → ℕ → Option ℕ
present table off = if off == 0 then none else some (table + off)

unfoldable pub field_at : ℕ → ℕ → List ℕ → Option ℕ
field_at table i buf =
    let vtable = vtable_of table buf in
    if leb (word_at 2 vtable buf) (4 + 2 * i)
    then none
    else present table (word_at 2 (vtable + 4 + 2 * i) buf)

-- The vector to which the word at `pos` leads: its length, then so many bytes.
abbrev pub vector_at : ℕ → List ℕ → List ℕ
vector_at start buf = take (word_at 4 start buf) (drop (start + 4) buf)

abbrev pub map_option : {A B : Type 0} → (A → B) → Option A → Option B
map_option f none = none
map_option f (some a) = some (f a)

unfoldable pub scalar_field : ℕ → ℕ → ℕ → List ℕ → Option ℕ
scalar_field k table i buf = map_option (λ pos. word_at k pos buf) (field_at table i buf)

unfoldable pub vector_field : ℕ → ℕ → List ℕ → Option (List ℕ)
vector_field table i buf =
    map_option (λ pos. vector_at (target_at pos buf) buf) (field_at table i buf)

-- Where the words at `pos`, `pos + 4` and so on lead.
unfoldable pub slot_targets : ℕ → ℕ → List ℕ → List ℕ
slot_targets zero pos buf = []
slot_targets (suc n) pos buf = target_at pos buf ∷ slot_targets n (pos + 4) buf

-- The tables of the vector of tables at `start`.
unfoldable pub table_list : ℕ → List ℕ → List ℕ
table_list start buf = slot_targets (word_at 4 start buf) (start + 4) buf

unfoldable pub tables_field : ℕ → ℕ → List ℕ → Option (List ℕ)
tables_field table i buf =
    map_option (λ pos. table_list (target_at pos buf) buf) (field_at table i buf)

-- The table to which a field leads.
unfoldable pub table_field : ℕ → ℕ → List ℕ → Option ℕ
table_field table i buf = map_option (λ pos. target_at pos buf) (field_at table i buf)
