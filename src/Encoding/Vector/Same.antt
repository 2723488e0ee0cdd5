-- ===== src/Encoding/Vector/Same.antt =====
-- The two encoders of a vector in event.rs and log.rs of crates/tell-encoding/src give the same bytes, if
-- the encoder of one entry puts the same bytes in any place.
use tell_rs.Prelude.{
  ℕ, zero, suc, ◌+◌, ◌%◌, ◌≤◌, ◌≡◌, refl, ap, sym, ◌∙◌, le→leb, Run, done, failed, List, [], ◌∷◌,
  ◌++◌, length, map, take, replicate, ◌>>=◌, ◌>>◌, pure, running, arith, length-append,
  length-replicate, drop-append_exact,
}
use tell_rs.Bytes.{le_bytes, from_le_bytes}
use tell_rs.Encoding.Helpers.{
  Panic, Write, position, write_u32, align4, pad_loop, patch_offset, put_u32,
}
use tell_rs.Encoding.Helpers.Pad.{pad_loop_lem, padding}
use tell_rs.Encoding.Vector.{
  read_u32, root_offset, reserve_slots, copy_entries, place_entries, patch_slots, encode_data,
  encode_data_steps, encode_data_into,
}

length-padded : (buf : List ℕ) → length (pad_loop 3 buf) % 4 ≡ 0
length-padded buf = omega (
  arith,
  ap length (pad_loop_lem buf),
  length-append buf (replicate (padding (length buf)) 0),
  length-replicate (padding (length buf)) zero,
)

read_behind :
    (buf out : List ℕ)
    → 4 ≤ length out
    → read_u32 (length buf) (buf ++ out) ≡ done (from_le_bytes (take 4 out)) (buf ++ out)
unfolding read_u32
read_behind buf out long =
    rw
      (
        running,
        le→leb (length buf + 4) (length (buf ++ out)) (omega (arith, length-append buf out)),
      )
      (ap (λ bytes. done (from_le_bytes (take 4 bytes)) (buf ++ out))
        (drop-append_exact buf out (length buf) refl))

pub root_offset_lem : (out : List ℕ) → 4 ≤ length out → root_offset out ≡ from_le_bytes (take 4 out)
unfolding root_offset
root_offset_lem out long = rw (le→leb 4 (length out) long)

place_one :
    {P : Type 0} (encode_into : P → Write Unit) (p : P) (entries : List P) (encoded : List (List ℕ))
    (buf out : List ℕ)
    → 4 ≤ length out
    → encode_into p (pad_loop 3 buf) ≡ done tt (pad_loop 3 buf ++ out)
    → ((b : List ℕ) → place_entries encode_into entries b ≡ copy_entries encoded b)
    → place_entries encode_into (p ∷ entries) buf ≡ copy_entries (out ∷ encoded) buf
unfolding place_entries copy_entries
place_one encode_into p entries encoded buf out long puts rest =
    rw (running, puts, read_behind (pad_loop 3 buf) out long, rest (pad_loop 3 buf ++ out))
      (ap
        (λ (root : ℕ).
          (copy_entries encoded >>= λ rest. pure ((length (pad_loop 3 buf) + root) ∷ rest))
            (pad_loop 3 buf ++ out))
        (sym (root_offset_lem out long)))

-- In an aligned buffer the encoder of one entry puts the same bytes behind what is there.
abbrev pub Places : {P : Type 0} → (P → Write Unit) → (P → List ℕ) → Type 0
Places {P} encode_into bytes =
    (p : P) (buf : List ℕ)
    → length buf % 4 ≡ 0
    → (4 ≤ length (bytes p)) × (encode_into p buf ≡ done tt (buf ++ bytes p))

place_entries_lem :
    {P : Type 0} (encode_into : P → Write Unit) (bytes : P → List ℕ)
    → Places encode_into bytes
    → (entries : List P) (buf : List ℕ)
    → place_entries encode_into entries buf ≡ copy_entries (map bytes entries) buf
place_entries_lem encode_into bytes places [] buf = unfold place_entries copy_entries in refl
place_entries_lem encode_into bytes places (p ∷ entries) buf =
    let (long, puts) = places p (pad_loop 3 buf) (length-padded buf) in
    place_one encode_into p entries (map bytes entries) buf (bytes p) long puts
      (place_entries_lem encode_into bytes places entries)

-- The steps that both encoders take in an empty buffer, for `count` events that `body` writes.
abbrev pub steps : ℕ → Write (List ℕ) → Write Unit
steps count body = do
  write_u32 count
  reserve_slots count
  align4
  table_positions ← body
  patch_slots 24 0 table_positions
  patch_offset 16 20
  put_u32 0 12

abbrev pub start : List ℕ
start = 0 ∷ 0 ∷ 0 ∷ 0 ∷ 6 ∷ 0 ∷ 8 ∷ 0 ∷ 4 ∷ 0 ∷ 0 ∷ 0 ∷ 8 ∷ 0 ∷ 0 ∷ 0 ∷ 0 ∷ 0 ∷ 0 ∷ 0 ∷ []

pub data_steps :
    (encoded : List (List ℕ))
    → encode_data encoded ≡ steps (length encoded) (copy_entries encoded) start
unfolding encode_data encode_data_steps le_bytes pad_loop
data_steps encoded = refl

-- A writer, and then the range from the start to the end of the buffer.
abbrev ranged : Write Unit → Write (ℕ × ℕ)
ranged m = m >>= λ _. position >>= λ end. pure (zero, end)

module _ {A : Type 0} (m : Write A) where
  ranged_bind :
      (k : A → Write Unit) (s : List ℕ) → ranged (m >>= k) s ≡ (m >>= (λ a. ranged (k a))) s
  ranged_bind k s = over (m s)
    where
      over :
          (r : Run Panic (List ℕ) A)
          → elim (elim r as (λ _. Run Panic (List ℕ) Unit) [
            | done a t ↦ k a t
            | failed e t ↦ failed e t
          ])
              as (λ _. Run Panic (List ℕ) (ℕ × ℕ)) [
                | done a t ↦ (position >>= λ end. pure (zero, end)) t
                | failed e t ↦ failed e t
              ]
            ≡ elim r as (λ _. Run Panic (List ℕ) (ℕ × ℕ)) [
              | done a t ↦ ranged (k a) t
              | failed e t ↦ failed e t
            ]
      over (done a t) = refl
      over (failed e t) = refl

  bind_cong :
      {B : Type 0} (k l : A → Write B)
      → ((a : A) (t : List ℕ) → k a t ≡ l a t)
      → (s : List ℕ) → (m >>= k) s ≡ (m >>= l) s
  bind_cong {B} k l h s = over (m s)
    where
      over :
          (r : Run Panic (List ℕ) A)
          → elim r as (λ _. Run Panic (List ℕ) B) [ done a t ↦ k a t | failed e t ↦ failed e t ]
            ≡ elim r as (λ _. Run Panic (List ℕ) B) [ done a t ↦ l a t | failed e t ↦ failed e t ]
      over (done a t) = h a t
      over (failed e t) = refl

module _ (count : ℕ) (body : Write (List ℕ)) where
  abbrev offsets_filled : Write Unit
  offsets_filled = patch_offset 16 20 >> put_u32 0 12

  abbrev pub slots_filled : List ℕ → Write Unit
  slots_filled table_positions = patch_slots 24 0 table_positions >> offsets_filled

  range_of_offsets :
      (s : List ℕ) → ranged offsets_filled s ≡ (patch_offset 16 20 >> ranged (put_u32 0 12)) s
  range_of_offsets s = ranged_bind (patch_offset 16 20) (λ _. put_u32 0 12) s

  range_of_slots :
      (table_positions : List ℕ) (s : List ℕ)
      → ranged (slots_filled table_positions) s
        ≡ (patch_slots 24 0 table_positions >> (patch_offset 16 20 >> ranged (put_u32 0 12))) s
  range_of_slots table_positions s =
      ranged_bind (patch_slots 24 0 table_positions) (λ _. offsets_filled) s
      ∙ bind_cong (patch_slots 24 0 table_positions) (λ _. ranged offsets_filled)
          (λ _. patch_offset 16 20 >> ranged (put_u32 0 12)) (λ _ t. range_of_offsets t) s

  range_of_body :
      (s : List ℕ)
      → ranged (body >>= slots_filled) s
        ≡ (body >>= λ table_positions.
              patch_slots 24 0 table_positions >> (patch_offset 16 20 >> ranged (put_u32 0 12)))
            s
  range_of_body s =
      ranged_bind body slots_filled s
      ∙ bind_cong body (λ ps. ranged (slots_filled ps))
          (λ ps. patch_slots 24 0 ps >> (patch_offset 16 20 >> ranged (put_u32 0 12)))
          range_of_slots s

  range_last :
      (s : List ℕ)
      → ranged (steps count body) s
        ≡ (do
          write_u32 count
          reserve_slots count
          align4
          table_positions ← body
          patch_slots 24 0 table_positions
          patch_offset 16 20
          put_u32 0 12
          end ← position
          pure (zero, end))
            s
  range_last s =
      ranged_bind (reserve_slots count) (λ _. align4 >> (body >>= slots_filled))
        (s ++ le_bytes 4 count)
      ∙ bind_cong (reserve_slots count) (λ _. ranged (align4 >> (body >>= slots_filled)))
          (λ _.
            align4
            >> (body >>= λ ps.
                patch_slots 24 0 ps >> (patch_offset 16 20 >> ranged (put_u32 0 12))))
          (λ _ t. range_of_body (pad_loop 3 t)) (s ++ le_bytes 4 count)

into_steps :
    {P : Type 0} (encode_into : P → Write Unit) (entries : List P)
    → encode_data_into encode_into entries []
      ≡ ranged (steps (length entries) (place_entries encode_into entries)) start
unfolding encode_data_into le_bytes pad_loop
into_steps encode_into entries =
    sym (range_last (length entries) (place_entries encode_into entries) start)

same_body :
    (count : ℕ) (f g : Write (List ℕ))
    → ((s : List ℕ) → f s ≡ g s)
    → steps count f start ≡ steps count g start
same_body count f g h = λ i. steps count (λ s. h s i) start

-- What a run that has no value gives if its value is the range of its buffer.
abbrev pub with_range : Run Panic (List ℕ) Unit → Run Panic (List ℕ) (ℕ × ℕ)
with_range (done _ out) = done (zero, length out) out
with_range (failed e out) = failed e out

ranged_lem : (m : Write Unit) (s : List ℕ) → ranged m s ≡ with_range (m s)
ranged_lem m s = over (m s)
  where
    over :
        (r : Run Panic (List ℕ) Unit)
        → elim r as (λ _. Run Panic (List ℕ) (ℕ × ℕ)) [
          | done a t ↦ (position >>= λ end. pure (zero, end)) t
          | failed e t ↦ failed e t
        ]
          ≡ with_range r
    over (done a t) = refl
    over (failed e t) = refl

pub length-map : {A B : Type 0} (f : A → B) (xs : List A) → length (map f xs) ≡ length xs
length-map f [] = refl
length-map f (x ∷ xs) = ap suc (length-map f xs)

-- The encoder in place gives what the other one gives for the encoded entries, and its range.
pub encode_data_into_ranged :
    {P : Type 0} (encode_into : P → Write Unit) (bytes : P → List ℕ)
    → Places encode_into bytes
    → (entries : List P)
    → encode_data_into encode_into entries [] ≡ with_range (encode_data (map bytes entries))
encode_data_into_ranged encode_into bytes places entries =
    into_steps encode_into entries
    ∙ ranged_lem (steps (length entries) (place_entries encode_into entries)) start
    ∙ ap with_range (
        same_body (length entries) (place_entries encode_into entries)
          (copy_entries (map bytes entries)) (place_entries_lem encode_into bytes places entries)
        ∙ ap (λ count. steps count (copy_entries (map bytes entries)) start)
            (sym (length-map bytes entries))
        ∙ sym (data_steps (map bytes entries)))
