-- ===== src/Config/Tests.antt =====
-- The configurations of crates/tell/src/config.rs for a key of 32 zeros.
use tell_rs.Prelude.{
  inl, inr, arith, ℕ, zero, suc, ◌≡◌, refl, List, replicate, All, ok, err, some, [], ◌∷◌,
}
use tell_rs.Errors.{configuration, lit}
use tell_rs.Validation.Defs.{hex_val, decode_chunks, validate_and_decode_api_key}
use tell_rs.Validation.ApiKey.{IsHex}
use tell_rs.Config.{TellConfig, build, builder, production, assembled}
use tell_rs.Config.Build.{IsSound, build-IsSound, build_complete}

abbrev zeros : List ℕ
zeros = replicate 32 b'0'

abbrev standard : TellConfig
standard = assembled (builder zeros) (replicate 16 0)

standard_built : build (builder zeros) ≡ ok standard
unfolding build builder validate_and_decode_api_key decode_chunks hex_val
standard_built = refl

production_is_standard : production zeros ≡ ok standard
unfolding production build builder validate_and_decode_api_key decode_chunks hex_val
production_is_standard = refl

refuses_empty_batches :
    build (record (builder zeros) { batch_size = some 0 })
    ≡ err (configuration (lit "batch_size must be at least 1" ∷ []))
unfolding build builder validate_and_decode_api_key decode_chunks hex_val
refuses_empty_batches = refl

build-IsSound_example : IsSound standard
build-IsSound_example = build-IsSound (builder zeros) standard standard_built

-- A key with digits of all three kinds.
abbrev mixed : List ℕ
mixed = b'A' ∷ b'f' ∷ replicate 30 b'0'

replicate-IsHex : (n : ℕ) → All IsHex (replicate n b'0')
replicate-IsHex zero = tt
replicate-IsHex (suc n) = (inl (omega arith, omega arith), replicate-IsHex n)

mixed-IsHex : All IsHex mixed
mixed-IsHex = (
  inr (inr (omega arith, omega arith)),
  (inr (inl (omega arith, omega arith)), replicate-IsHex 30),
)

build_complete_example : (c : TellConfig) × (build (builder mixed) ≡ ok c)
unfolding builder
build_complete_example =
    build_complete (builder mixed) refl mixed-IsHex (λ e. cc e) (λ e. cc e) (λ e. cc e) (λ e. cc e)
