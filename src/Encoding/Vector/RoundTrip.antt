-- ===== src/Encoding/Vector/RoundTrip.antt =====
-- A reader finds in the data of event.rs, log.rs and metric.rs of crates/tell-encoding/src one table for
-- each entry, in order, and there the bytes of the entry.
use tell_rs.Prelude.{
  ℕ, zero, ◌≤◌, ◌+◌, ◌%◌, ◌*◌, ◌^◌, ◌<◌, ◌≡◌, refl, ap, sym, ◌∙◌, subst, some, List, [], ◌∷◌, ◌++◌,
  length, map, done, append-nil, length-append, arith, All, ◌>>◌,
}
use tell_rs.Bytes.{le_bytes, from_le_bytes}
use tell_rs.Encoding.Helpers.{Write, patch_offset, put_u32, overwrite}
use tell_rs.Encoding.Reader.{target_at, field_at, tables_field, table_list}
use tell_rs.Encoding.Vector.{copy_entries, encode_data, encode_data_into, root_offset}
use tell_rs.Encoding.Vector.Same.{
  data_steps, start, steps, Places, length-map, with_range, encode_data_into_ranged,
}
use tell_rs.Encoding.Vector.Image.{Entry, tables, copied, copy_entries_lem}
use tell_rs.Encoding.Vector.Whole.{vector_bytes, vector_lem}
use tell_rs.Encoding.Vector.Each.{Each, Holds-Each}
use tell_rs.Encoding.Vector.Read.{Holds, HasRoot, vector_read, vector-Holds}

-- The root offset, the vtable and the table in front of the vector.
abbrev pub front : List ℕ
front = 12 ∷ 0 ∷ 0 ∷ 0 ∷ 6 ∷ 0 ∷ 8 ∷ 0 ∷ 4 ∷ 0 ∷ 0 ∷ 0 ∷ 8 ∷ 0 ∷ 0 ∷ 0 ∷ 4 ∷ 0 ∷ 0 ∷ 0 ∷ []

abbrev last_steps : Write Unit
last_steps = patch_offset 16 20 >> put_u32 0 12

last_lem : (v : List ℕ) → last_steps (start ++ v) ≡ done tt (front ++ v)
unfolding le_bytes overwrite
last_lem v = refl

pub encode_data-image :
    (encoded : List (List ℕ))
    → encode_data encoded ≡ done tt (front ++ vector_bytes 20 (map copied encoded))
unfolding le_bytes
encode_data-image encoded =
    data_steps encoded
    ∙ ap (λ (n : ℕ). steps n (copy_entries encoded) start) (sym (length-map copied encoded))
    ∙ vector_lem (map copied encoded) (copy_entries encoded) last_steps start refl
        (λ b _. copy_entries_lem encoded b)
    ∙ last_lem (vector_bytes 20 (map copied encoded))

-- What a reader finds in the data of the entries.
abbrev pub DataReads : List (List ℕ) → List ℕ → Type 0
DataReads encoded out =
    (ts : List ℕ) × (tables_field (target_at 0 out) 0 out ≡ some ts)
    × Holds out (map copied encoded) ts

front_read :
    (v : List ℕ)
    → tables_field (target_at 0 (front ++ v)) 0 (front ++ v) ≡ some (table_list 20 (front ++ v))
unfolding tables_field field_at from_le_bytes
front_read v = refl

pub image-DataReads :
    (encoded : List (List ℕ))
    → All HasRoot (map copied encoded)
    → length (front ++ vector_bytes 20 (map copied encoded)) < 2 ^ 32
    → DataReads encoded (front ++ vector_bytes 20 (map copied encoded))
image-DataReads encoded roots small = (
  tables (20 + 4 + length es * 4) es,
  front_read (vector_bytes 20 es)
      ∙ ap some (
          subst (λ v. table_list 20 (front ++ v) ≡ tables (20 + 4 + length es * 4) es)
            (append-nil (vector_bytes 20 es)) (vector_read front [] es roots small')),
  subst (λ v. Holds (front ++ v) es (tables (20 + 4 + length es * 4) es))
      (append-nil (vector_bytes 20 es)) (vector-Holds front [] es refl),
)
  where
    es : List Entry
    es = map copied encoded

    small' : 20 + length (vector_bytes 20 es) < 2 ^ 32
    small' = omega (arith, length-append front (vector_bytes 20 es))

-- What a reader finds in the data: a vector of tables, and in each table what `R` says of it.
abbrev pub ReadsAll : {P : Type 0} → (ℕ → P → List ℕ → Type 0) → List P → List ℕ → Type 0
ReadsAll R ps out =
    (ts : List ℕ) × (tables_field (target_at 0 out) 0 out ≡ some ts) × Each (λ t p. R t p out) ps ts

module _ {P : Type 0} (encode_into : P → Write Unit) (bytes : P → List ℕ)
    (places : Places encode_into bytes) (IsFit : P → Type 0) (R : ℕ → P → List ℕ → Type 0)
    (root : (p : P) → root_offset (bytes p) ≤ length (bytes p))
    (reads : (p : P) (before after : List ℕ)
      → IsFit p
      → length before % 4 ≡ 0
      → length (before ++ (bytes p ++ after)) < 2 ^ 32
      → R (length before + root_offset (bytes p)) p (before ++ (bytes p ++ after))) where
  roots : (ps : List P) → All HasRoot (map copied (map bytes ps))
  roots [] = tt
  roots (p ∷ ps) = (root p, roots ps)

  map_twice : (ps : List P) → map copied (map bytes ps) ≡ map (λ p. copied (bytes p)) ps
  map_twice [] = refl
  map_twice (p ∷ ps) = ap (λ es. copied (bytes p) ∷ es) (map_twice ps)

  pub data_into_ReadsAll :
      (ps : List P) (range : ℕ × ℕ) (out : List ℕ)
      → encode_data_into encode_into ps [] ≡ done range out
      → All IsFit ps
      → length out < 2 ^ 32
      → ReadsAll R ps out
  data_into_ReadsAll ps range out e fits small = subst (ReadsAll R ps) (sym same) (
      let (ts, field, holds) =
        image-DataReads (map bytes ps) (roots ps) (subst (λ xs. length xs < 2 ^ 32) same small) in
      (
        ts,
        field,
        Holds-Each (λ p. copied (bytes p)) IsFit (λ t p. R t p image) image
            (λ p before after fit aligned whole.
              subst (R (length before + root_offset (bytes p)) p) (sym whole) (
                reads p before after fit aligned
                  (subst (λ xs. length xs < 2 ^ 32) (same ∙ whole) small)))
            ps ts fits (subst (λ es. Holds image es ts) (map_twice ps) holds),
      ))
    where
      image : List ℕ
      image = front ++ vector_bytes 20 (map copied (map bytes ps))

      run : encode_data_into encode_into ps [] ≡ done (zero, length image) image
      run =
          encode_data_into_ranged encode_into bytes places ps
          ∙ ap with_range (encode_data-image (map bytes ps))

      same : out ≡ image
      same = cc (e, run)
