-- ===== src/Encoding/Batch/RoundTrip.antt =====
-- A reader finds in the envelope of crates/tell-encoding/src/batch.rs what was put into it.
use tell_rs.Prelude.{
  ℕ, ◌/◌, ◌%◌, ◌^◌, ◌==◌, not, if◌then◌else◌, List, [], ◌∷◌, ◌++◌, ◌≡◌, length, some, none, refl,
  done, ◌<◌, ◌+◌, length-append, final, take, take-append_exact, take_all, ap, ◌∙◌, sym, arith,
  Bool-cases, inl, inr, Succeeds, spell_out,
}
use tell_rs.Bytes.{le_bytes, from_le_bytes, from_le_bytes-u32, from_le_bytes-u64}
use tell_rs.Encoding.Helpers.{overwrite, pad_loop}
use tell_rs.Encoding.Reader.{field_at, scalar_field, vector_field, target_at}
use tell_rs.Encoding.Batch.{encode_batch, encode_batch_into, BatchParams, as_u8, default_version}

-- The envelope before the bytes of its two vectors.
abbrev head_bytes : BatchParams → List ℕ
head_bytes p =
    20
      ∷ 0
      ∷ 0
      ∷ 0
      ∷ 16
      ∷ 0
      ∷ 32
      ∷ 0
      ∷ 4
      ∷ 0
      ∷ 24
      ∷ 0
      ∷ 25
      ∷ 0
      ∷ (if not (p.batch_id == 0) then 16 else 0) % 256
      ∷ (if not (p.batch_id == 0) then 16 else 0) / 256 % 256
      ∷ 8
      ∷ 0
      ∷ 0
      ∷ 0
      ∷ 16
      ∷ 0
      ∷ 0
      ∷ 0
      ∷ 24
      ∷ 0
      ∷ 0
      ∷ 0
      ∷ 40
      ∷ 0
      ∷ 0
      ∷ 0
      ∷ 0
      ∷ 0
      ∷ 0
      ∷ 0
      ∷ le_bytes 8 p.batch_id
    ++ as_u8 p.schema_type ∷ (if p.version == 0 then default_version else p.version) ∷ 0 ∷ 0 ∷ []

abbrev image : BatchParams → List ℕ
image p =
    head_bytes p ++ 16 ∷ 0 ∷ 0 ∷ 0 ∷ p.api_key ++ (le_bytes 4 (length p.data_bytes) ++ p.data_bytes)

encode_batch-image : (p : BatchParams) → length p.api_key ≡ 16 → encode_batch p ≡ done tt (image p)
unfolding encode_batch encode_batch_into le_bytes overwrite pad_loop
encode_batch-image p n =
    spell_out 16
      (λ key.
        encode_batch (record p { api_key = key }) ≡ done tt (image (record p { api_key = key })))
      (λ a b c d e f g h i j k l m n o q. refl) p.api_key n

-- What a reader finds in the table to which a buffer's first word leads.
abbrev pub Reads : BatchParams → List ℕ → Type 0
Reads p buf =
    let table = target_at 0 buf in
    (vector_field table 0 buf ≡ some p.api_key)
    × (scalar_field 1 table 1 buf ≡ some (as_u8 p.schema_type))
    × (scalar_field 1 table 2 buf ≡ some (if p.version == 0 then default_version else p.version))
    × (scalar_field 8 table 3 buf ≡ (if p.batch_id == 0 then none else some p.batch_id))
    × (vector_field table 4 buf ≡ some p.data_bytes)
    × (vector_field table 5 buf ≡ none)

-- How long the batch for so many bytes of data is.
abbrev pub envelope_size : ℕ → ℕ
envelope_size n = 72 + n

image-length :
    (p : BatchParams)
    → length p.api_key ≡ 16
    → length (image p) ≡ envelope_size (length p.data_bytes)
unfolding le_bytes
image-length p n =
    omega (arith, n, length-append p.api_key (le_bytes 4 (length p.data_bytes) ++ p.data_bytes))

pub encode_batch-length :
    (p : BatchParams)
    → length p.api_key ≡ 16
    → (batch : List ℕ) → encode_batch p ≡ done tt batch
    → length batch ≡ envelope_size (length p.data_bytes)
encode_batch-length p n batch e =
    ap (λ r. length (final r)) (sym e ∙ encode_batch-image p n) ∙ image-length p n

module _ (p : BatchParams) (n : length p.api_key ≡ 16) (small : length p.data_bytes < 2 ^ 32)
    (fits : p.batch_id < 2 ^ 64) where
  reads_key : vector_field (target_at 0 (image p)) 0 (image p) ≡ some p.api_key
  unfolding vector_field field_at le_bytes from_le_bytes
  reads_key =
      ap some
        (take-append_exact p.api_key (le_bytes 4 (length p.data_bytes) ++ p.data_bytes) 16 (sym n))

  reads_schema : scalar_field 1 (target_at 0 (image p)) 1 (image p) ≡ some (as_u8 p.schema_type)
  unfolding scalar_field field_at le_bytes from_le_bytes
  reads_schema = ap some (omega arith)

  reads_version :
      scalar_field 1 (target_at 0 (image p)) 2 (image p)
      ≡ some (if p.version == 0 then default_version else p.version)
  unfolding scalar_field field_at le_bytes from_le_bytes
  reads_version = ap some (omega arith)

  reads_batch_id :
      scalar_field 8 (target_at 0 (image p)) 3 (image p)
      ≡ (if p.batch_id == 0 then none else some p.batch_id)
  unfolding scalar_field field_at le_bytes from_le_bytes
  reads_batch_id = elim (Bool-cases (p.batch_id == 0)) [
    | inl e ↦ rw e
    | inr e ↦ rw e (ap some (from_le_bytes-u64 p.batch_id fits))
  ]

  reads_data : vector_field (target_at 0 (image p)) 4 (image p) ≡ some p.data_bytes
  unfolding vector_field field_at le_bytes from_le_bytes
  reads_data =
      spell_out 16
        (λ key.
          vector_field (target_at 0 (image (record p { api_key = key }))) 4
            (image (record p { api_key = key }))
          ≡ some p.data_bytes)
        (λ a b c d e f g h i j k l m n o q.
          ap (λ (len : ℕ). some (take len p.data_bytes))
            (from_le_bytes-u32 (length p.data_bytes) small)
          ∙ ap some (take_all p.data_bytes (length p.data_bytes) (omega arith)))
        p.api_key n

  -- For a key of 16 bytes, data below 4 GiB and a batch id below 2^64, encode_batch does not panic,
  -- and a reader of the format finds the key, the schema type, the version (100 for 0), the batch
  -- id (absent for 0), the data, and no source address.
  pub batch_round_trip : Succeeds (encode_batch p) (λ _ buf. Reads p buf)
  batch_round_trip = (
    tt,
    image p,
    encode_batch-image p n,
    (
      reads_key,
      reads_schema,
      reads_version,
      reads_batch_id,
      reads_data,
      unfold vector_field field_at le_bytes from_le_bytes in refl,
    ),
  )
