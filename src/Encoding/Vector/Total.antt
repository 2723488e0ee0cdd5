-- ===== src/Encoding/Vector/Total.antt =====
-- The encoders of a vector in event.rs and log.rs of crates/tell-encoding/src do not panic.
use tell_rs.Prelude.{
  ℕ, zero, suc, ◌+◌, ◌-◌, ◌*◌, ◌≤◌, ◌≡◌, refl, ap, ◌∙◌, done, final, List, [], ◌∷◌, ◌++◌, length,
  map, ◌>>=◌, ◌>>◌, running, arith, Succeeds, Succeeds-bind, length-append,
}
use tell_rs.Bytes.{le_bytes, length-le_bytes}
use tell_rs.Encoding.Helpers.{Write, align4, pad_loop}
use tell_rs.Encoding.Helpers.Grows.{Grows, Grows-bind, align-Grows, put-Grows}
use tell_rs.Encoding.Vector.{
  reserve_slots, copy_entries, root_offset, patch_slots, encode_data, encode_data_into,
}
use tell_rs.Encoding.Vector.Same.{
  Places, start, data_steps, slots_filled, with_range, encode_data_into_ranged,
}

reserve_total :
    (n : ℕ) (buf : List ℕ)
    → Succeeds (reserve_slots n buf) (λ _ out. length buf + 4 * n ≤ length out)
unfolding reserve_slots
reserve_total zero buf = (tt, buf, refl, omega arith)
reserve_total (suc n) buf =
    let (u, out, e, long) = reserve_total n (buf ++ le_bytes 4 0) in
    (u, out, e, omega (arith, length-append buf (le_bytes 4 0), length-le_bytes 4 0))

copy_total :
    (k : ℕ) (entries : List (List ℕ)) (buf : List ℕ)
    → k ≤ length buf
    → Succeeds
        (copy_entries entries buf)
        (λ positions out. (k ≤ length out) × (length positions ≡ length entries))
unfolding copy_entries
copy_total k [] buf long = ([], buf, refl, (long, refl))
copy_total k (entry ∷ entries) buf long =
    let (_, padded, e, longer) = (align-Grows k).on_any buf long in
    let (positions, out, e', (long', n)) =
      copy_total k entries (pad_loop 3 buf ++ entry)
        (omega (arith, length-append (pad_loop 3 buf) entry, ap (λ r. length (final r)) e)) in
    (
      (length (pad_loop 3 buf) + root_offset entry) ∷ positions,
      out,
      rw (running, e'),
      (long', omega arith),
    )

patch_total :
    (k offsets i : ℕ) (positions : List ℕ)
    → offsets + (i + length positions) * 4 ≤ k
    → Grows k (patch_slots offsets i positions)
unfolding patch_slots
patch_total k offsets i [] within = record { on_any = λ buf long. (tt, buf, refl, long) }
patch_total k offsets i (p ∷ positions) within =
    unfold patch_slots in
    Grows-bind (put-Grows k (offsets + i * 4) (omega arith) (p - (offsets + i * 4)))
      (λ _. patch_total k offsets (suc i) positions (omega arith))

-- After the slots: `k` bytes are there, all the slots among them.
after_slots :
    (k : ℕ) (entries : List (List ℕ)) (buf : List ℕ)
    → k ≤ length buf
    → 24 + length entries * 4 ≤ k
    → Succeeds
        ((align4 >> (copy_entries entries >>= slots_filled (length entries) (copy_entries entries)))
          buf)
        (λ _ out. k ≤ length out)
after_slots k entries buf long slots =
    Succeeds-bind align4
      (λ _. copy_entries entries >>= slots_filled (length entries) (copy_entries entries)) buf
      ((align-Grows k).on_any buf long)
      (λ _ t long'.
        Succeeds-bind (copy_entries entries) (slots_filled (length entries) (copy_entries entries))
          t (copy_total k entries t long')
          (λ positions u (long'', n).
            (Grows-bind (patch_total k 24 0 positions (omega arith)) (λ _.
                Grows-bind (put-Grows k 16 (omega arith) (20 - 16))
                  (λ _. put-Grows k 0 (omega arith) 12))).on_any
              u long''))

encode_data_total :
    (entries : List (List ℕ))
    → Succeeds (encode_data entries) (λ _ out. 24 + length entries * 4 ≤ length out)
encode_data_total entries =
    let (_, slots, e, long) =
      reserve_total (length entries) (start ++ le_bytes 4 (length entries)) in
    let (_, out, e', long') =
      after_slots (24 + length entries * 4) entries slots
        (omega (
          arith,
          length-append start (le_bytes 4 (length entries)),
          length-le_bytes 4 (length entries),
        ))
        (omega arith) in
    (tt, out, data_steps entries ∙ rw (running, e) e', long')

-- The encoder in place gives what the other one gives for the encoded entries, and its range.
pub encode_data_into_lem :
    {P : Type 0} (encode_into : P → Write Unit) (bytes : P → List ℕ)
    → Places encode_into bytes
    → (entries : List P)
    → Succeeds
        (encode_data (map bytes entries))
        (λ _ out. encode_data_into encode_into entries [] ≡ done (zero, length out) out)
encode_data_into_lem encode_into bytes places entries =
    let (_, out, e, long) = encode_data_total (map bytes entries) in
    (tt, out, e, encode_data_into_ranged encode_into bytes places entries ∙ ap with_range e)
