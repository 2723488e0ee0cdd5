-- ===== src/Validation/Tests.antt =====
-- The functions of crates/tell/src/validation.rs on concrete texts.
use tell_rs.Prelude.{
  inl, inr, ℕ, zero, suc, ◌≡◌, refl, List, [], ◌∷◌, length, replicate, All, ok, err, arith,
}
use tell_rs.Bytes.{IsByte}
use tell_rs.Validation.Defs.{hex_val, validate_and_decode_api_key, decode_chunks, non_hex}
use tell_rs.Validation.ApiKey.{IsHex, hex_text, api_key_round_trip, hex_key_accepted, api_key_sound}

abbrev bytes : List ℕ
bytes = 0 ∷ 1 ∷ 15 ∷ 16 ∷ 17 ∷ 31 ∷ 127 ∷ 128 ∷ 160 ∷ 170 ∷ 187 ∷ 204 ∷ 221 ∷ 238 ∷ 254 ∷ 255 ∷ []

abbrev key : List ℕ
key = hex_text bytes

-- One key has digits of both cases; the other has a letter that is no digit.
decodes_both_cases : decode_chunks (b'f' ∷ b'F' ∷ b'0' ∷ b'a' ∷ []) ≡ ok (255 ∷ 10 ∷ [])
unfolding decode_chunks hex_val
decodes_both_cases = refl

refuses_letter : decode_chunks (b'0' ∷ b'g' ∷ []) ≡ err (non_hex b'g')
unfolding decode_chunks hex_val
refuses_letter = refl

bytes-IsByte : All IsByte bytes
bytes-IsByte = ground arith

api_key_round_trip_example : validate_and_decode_api_key key ≡ ok bytes
api_key_round_trip_example = api_key_round_trip bytes refl bytes-IsByte

abbrev zeros : List ℕ
zeros = replicate 32 b'0'

replicate-IsHex : (n : ℕ) → All IsHex (replicate n b'0')
replicate-IsHex zero = tt
replicate-IsHex (suc n) = (inl (omega arith, omega arith), replicate-IsHex n)

-- Digits of all three kinds.
abbrev mixed : List ℕ
mixed = b'A' ∷ b'f' ∷ replicate 30 b'0'

mixed-IsHex : All IsHex mixed
mixed-IsHex = (
  inr (inr (omega arith, omega arith)),
  (inr (inl (omega arith, omega arith)), replicate-IsHex 30),
)

hex_key_accepted_example : (bytes : List ℕ) × (validate_and_decode_api_key mixed ≡ ok bytes)
hex_key_accepted_example = hex_key_accepted mixed refl mixed-IsHex

abbrev zero_bytes : List ℕ
zero_bytes = replicate 16 0

zeros_decoded : validate_and_decode_api_key zeros ≡ ok zero_bytes
unfolding validate_and_decode_api_key decode_chunks hex_val
zeros_decoded = refl

api_key_sound_example :
    (length zeros ≡ 32) × All IsHex zeros × All IsByte zero_bytes × (length zero_bytes ≡ 16)
api_key_sound_example = api_key_sound zeros zero_bytes zeros_decoded
