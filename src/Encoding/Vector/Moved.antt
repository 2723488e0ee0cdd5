-- ===== src/Encoding/Vector/Moved.antt =====
-- The vectors of tables of crates/tell-encoding/src have the same bytes at places that differ by a
-- multiple of four.
use tell_rs.Prelude.{
  ℕ, ◌+◌, ◌-◌, ◌*◌, ◌%◌, ◌≡◌, refl, ap₂, List, [], ◌∷◌, ◌++◌, length, replicate, arith,
}
use tell_rs.Bytes.{le_bytes}
use tell_rs.Encoding.Helpers.Pad.{padding}
use tell_rs.Encoding.Vector.Image.{Entry, laid, tables, slots}
use tell_rs.Encoding.Vector.Whole.{vector_bytes}

module _ (s : ℕ) (by_four : s % 4 ≡ 0) where
  same_padding : (at there : ℕ) → there ≡ s + at → padding there ≡ padding at
  same_padding at there e = omega arith

  laid_moved : (es : List Entry) (at there : ℕ) → there ≡ s + at → laid there es ≡ laid at es
  unfolding laid
  laid_moved [] at there e = refl
  laid_moved (x ∷ es) at there e =
      ap₂ (λ (n : ℕ) xs. replicate n 0 ++ (x.bytes ++ xs)) (same_padding at there e)
        (laid_moved es (at + padding at + length x.bytes) (there + padding there + length x.bytes)
          (omega (arith, same_padding at there e)))

  slots_moved :
      (es : List Entry) (slot slot' at there : ℕ)
      → slot' ≡ s + slot
      → there ≡ s + at
      → slots slot' (tables there es) ≡ slots slot (tables at es)
  unfolding slots tables
  slots_moved [] slot slot' at there e f = refl
  slots_moved (x ∷ es) slot slot' at there e f =
      ap₂ (λ (n : ℕ) xs. le_bytes 4 n ++ xs) first
        (slots_moved es (slot + 4) (slot' + 4) (at + padding at + length x.bytes)
          (there + padding there + length x.bytes) (omega arith)
          (omega (arith, same_padding at there f)))
    where
      first : there + padding there + x.root - slot' ≡ at + padding at + x.root - slot
      first = omega (arith, same_padding at there f)

  pub vector_moved :
      (es : List Entry) (at there : ℕ) → there ≡ s + at → vector_bytes there es ≡ vector_bytes at es
  vector_moved es at there e =
      ap₂ (λ xs ys. le_bytes 4 (length es) ++ (xs ++ ys))
        (slots_moved es (at + 4) (there + 4) (at + 4 + length es * 4) (there + 4 + length es * 4)
          (omega arith) (omega arith))
        (laid_moved es (at + 4 + length es * 4) (there + 4 + length es * 4) (omega arith))
