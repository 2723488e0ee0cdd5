-- ===== src/Encoding/Reader/Behind.antt =====
-- A reader of the format that starts from a table finds the same fields when other bytes stand in
-- front: every word of the format counts from its own place.
use tell_rs.Prelude.{
  ℕ, ◌+◌, ◌*◌, ◌≤◌, ◌≡◌, refl, ap, ap₂, ◌∙◌, leb, if◌then◌else◌, Bool, true, false, Bool-cases,
  Option, none, some, List, ◌++◌, length, take, drop-append, arith, ◌==◌, inl, inr,
}
use tell_rs.Bytes.{from_le_bytes}
use tell_rs.Encoding.Reader.{
  word_at, target_at, vtable_of, present, field_at, vector_at, map_option, scalar_field,
  vector_field, table_list, tables_field, table_field,
}

module _ (pre buf : List ℕ) where
  word_behind :
      (k pos at : ℕ) → at ≡ length pre + pos → word_at k at (pre ++ buf) ≡ word_at k pos buf
  word_behind k pos at e = ap (λ xs. from_le_bytes (take k xs)) (drop-append pre buf at pos e)

  target_behind :
      (pos at : ℕ)
      → at ≡ length pre + pos
      → target_at at (pre ++ buf) ≡ length pre + target_at pos buf
  target_behind pos at e = omega (arith, word_behind 4 pos at e)

  vector_at_behind :
      (pos at : ℕ) → at ≡ length pre + pos → vector_at at (pre ++ buf) ≡ vector_at pos buf
  vector_at_behind pos at e =
      ap₂ (λ (n : ℕ) xs. take n xs) (word_behind 4 pos at e)
        (drop-append pre buf (at + 4) (pos + 4) (omega arith))

  shifted : Option ℕ → Option ℕ
  shifted o = map_option (λ pos. length pre + pos) o

  present_behind : (table off : ℕ) → present (length pre + table) off ≡ shifted (present table off)
  unfolding shifted
  present_behind table off = elim (Bool-cases (off == 0)) [
    | inl e ↦ rw e
    | inr e ↦ rw e (ap some (omega arith))
  ]

  module _ (table : ℕ) (back : word_at 4 table buf ≤ table) where
    vtable_behind : vtable_of (length pre + table) (pre ++ buf) ≡ length pre + vtable_of table buf
    vtable_behind = omega (arith, word_behind 4 table (length pre + table) refl)

    field_behind :
        (i : ℕ) → field_at (length pre + table) i (pre ++ buf) ≡ shifted (field_at table i buf)
    unfolding field_at
    field_behind i =
        ap₂ (λ size off. if leb size (4 + 2 * i) then none else present (length pre + table) off)
          (word_behind 2 (vtable_of table buf) _ vtable_behind)
          (word_behind 2 (vtable_of table buf + 4 + 2 * i) _ (omega (arith, vtable_behind)))
        ∙ chosen (leb (word_at 2 (vtable_of table buf) buf) (4 + 2 * i))
      where
        off : ℕ
        off = word_at 2 (vtable_of table buf + 4 + 2 * i) buf

        chosen :
            (b : Bool)
            → (if b then none else present (length pre + table) off)
              ≡ shifted (if b then none else present table off)
        chosen true = unfold shifted in refl
        chosen false = present_behind table off

    read_behind :
        {A : Type 0} (i : ℕ) (f g : ℕ → A)
        → ((pos : ℕ) → f (length pre + pos) ≡ g pos)
        → map_option f (field_at (length pre + table) i (pre ++ buf))
          ≡ map_option g (field_at table i buf)
    read_behind {A} i f g h = ap (map_option f) (field_behind i) ∙ over (field_at table i buf)
      where
        over : (o : Option ℕ) → map_option f (shifted o) ≡ map_option g o
        over none = unfold shifted in refl
        over (some pos) = unfold shifted in ap some (h pos)

    pub scalar_behind :
        (k i : ℕ) → scalar_field k (length pre + table) i (pre ++ buf) ≡ scalar_field k table i buf
    unfolding scalar_field
    scalar_behind k i =
        read_behind i (λ pos. word_at k pos (pre ++ buf)) (λ pos. word_at k pos buf)
          (λ pos. word_behind k pos (length pre + pos) refl)

    pub vector_behind :
        (i : ℕ) → vector_field (length pre + table) i (pre ++ buf) ≡ vector_field table i buf
    unfolding vector_field
    vector_behind i =
        read_behind i (λ pos. vector_at (target_at pos (pre ++ buf)) (pre ++ buf))
          (λ pos. vector_at (target_at pos buf) buf)
          (λ pos.
            vector_at_behind (target_at pos buf) _ (target_behind pos (length pre + pos) refl))

    pub tables_behind :
        (i : ℕ)
        → tables_field (length pre + table) i (pre ++ buf)
          ≡ map_option
              (λ pos. table_list (length pre + target_at pos buf) (pre ++ buf))
              (field_at table i buf)
    unfolding tables_field
    tables_behind i =
        read_behind i (λ pos. table_list (target_at pos (pre ++ buf)) (pre ++ buf))
          (λ pos. table_list (length pre + target_at pos buf) (pre ++ buf))
          (λ pos.
            ap (λ (start : ℕ). table_list start (pre ++ buf))
              (target_behind pos (length pre + pos) refl))

    pub table_behind :
        (i : ℕ)
        → table_field (length pre + table) i (pre ++ buf)
          ≡ map_option (λ pos. length pre + target_at pos buf) (field_at table i buf)
    unfolding table_field
    table_behind i =
        read_behind i (λ pos. target_at pos (pre ++ buf)) (λ pos. length pre + target_at pos buf)
          (λ pos. target_behind pos (length pre + pos) refl)
