-- ===== src/Encoding/Vector/Whole.antt =====
-- The whole vector that the encoders of crates/tell-encoding/src leave behind what is in the buffer, from
-- the images of its parts.
use tell_rs.Prelude.{
  ℕ, zero, ◌+◌, ◌*◌, ◌%◌, ◌≡◌, refl, ap, sym, ◌∙◌, List, ◌++◌, length, replicate, done,
  append_assoc, append-nil, length-append, length-replicate, running, arith, ◌>>=◌, ◌>>◌,
}
use tell_rs.Bytes.{le_bytes, length-le_bytes}
use tell_rs.Encoding.Helpers.{Write, position, write_u32, align4, pad_loop}
use tell_rs.Encoding.Helpers.Pad.{pad_loop_lem, padding}
use tell_rs.Encoding.Vector.{reserve_slots, patch_slots}
use tell_rs.Encoding.Vector.Image.{
  Entry, laid, tables, slots, reserve_slots_lem, patch_slots_lem, length-tables,
}

-- A vector of tables at position `at`.
abbrev pub vector_bytes : ℕ → List Entry → List ℕ
vector_bytes at es =
    le_bytes 4 (length es)
    ++ (slots (at + 4) (tables (at + 4 + length es * 4) es) ++ laid (at + 4 + length es * 4) es)

pub aligned_already : (buf : List ℕ) → length buf % 4 ≡ 0 → pad_loop 3 buf ≡ buf
aligned_already buf aligned =
    pad_loop_lem buf
    ∙ ap (λ (n : ℕ). buf ++ replicate n 0) {x = padding (length buf)} {y = zero} (omega arith)
    ∙ append-nil buf

module _ {B : Type 0} (es : List Entry) (body : Write (List ℕ)) (k : Write B) (buf : List ℕ)
    (aligned : length buf % 4 ≡ 0)
    (lays : (b : List ℕ)
      → length b % 4 ≡ 0
      → body b ≡ done (tables (length b) es) (b ++ laid (length b) es)) where
  opened : List ℕ
  opened = buf ++ le_bytes 4 (length es)

  reserved : List ℕ
  reserved = opened ++ replicate (length es * 4) 0

  at : ℕ
  at = length buf + 4 + length es * 4

  length-opened : length opened ≡ length buf + 4
  unfolding opened
  length-opened =
      omega (arith, length-append buf (le_bytes 4 (length es)), length-le_bytes 4 (length es))

  length-reserved : length reserved ≡ at
  unfolding reserved at
  length-reserved = omega (
    arith,
    length-opened,
    length-append opened (replicate (length es * 4) 0),
    length-replicate {0} (length es * 4) zero,
  )

  body_lem : body reserved ≡ done (tables at es) (reserved ++ laid at es)
  unfolding at
  body_lem =
      lays reserved (omega (arith, length-reserved))
      ∙ ap (λ (n : ℕ). done (tables n es) (reserved ++ laid n es)) length-reserved

  slots_lem :
      patch_slots (length opened) 0 (tables at es) (reserved ++ laid at es)
      ≡ done tt (buf ++ vector_bytes (length buf) es)
  unfolding at opened reserved
  slots_lem =
      ap
        (λ (n : ℕ).
          patch_slots (length opened) 0 (tables at es)
            (opened ++ replicate (n * 4) 0 ++ laid at es))
        (sym (length-tables at es))
      ∙ ap (patch_slots (length opened) 0 (tables at es))
          (append_assoc opened (replicate (length (tables at es) * 4) 0) (laid at es))
      ∙ patch_slots_lem (tables at es) opened (laid at es) (length opened) 0 (omega arith)
      ∙ ap (λ out. done tt out)
          (append_assoc buf (le_bytes 4 (length es))
              (slots (length opened) (tables at es) ++ laid at es)
            ∙ ap
                (λ (n : ℕ).
                  buf ++ (le_bytes 4 (length es) ++ (slots n (tables at es) ++ laid at es)))
                length-opened)

  pub vector_lem :
      (write_u32 (length es)
          >> (position >>= λ offsets_start.
              reserve_slots (length es)
              >> (align4
                  >> (body >>= λ table_positions.
                      patch_slots offsets_start 0 table_positions >> k))))
        buf
      ≡ k (buf ++ vector_bytes (length buf) es)
  unfolding opened reserved at
  vector_lem =
      rw
        (
          running,
          reserve_slots_lem (length es) opened,
          aligned_already reserved (omega (arith, length-reserved)),
          body_lem,
          slots_lem,
        )
        refl
