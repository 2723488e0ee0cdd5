-- ===== src/Validation/Defs.antt =====
-- The functions of crates/tell/src/validation.rs.
use Prim.Native.Nat.{bit_or}
use tell_rs.Prelude.{
  ℕ, ◌+◌, ◌-◌, ◌*◌, ◌%◌, ◌^◌, ◌&&◌, Option, none, some, List, [], ◌∷◌, length, ltb, leb, ◌==◌,
  if◌then◌else◌, Result, ok, err,
}
use tell_rs.Errors.{TellError, configuration, validation, Message, lit, num, chr}

infixl 10 ◌>>=◌ ◌>>◌
abbrev pub ◌>>=◌ :
    {A B : Type 0} → Result TellError A → (A → Result TellError B) → Result TellError B
ok a >>= f = f a
err e >>= f = err e

abbrev pub ◌>>◌ : {A B : Type 0} → Result TellError A → Result TellError B → Result TellError B
m >> n = m >>= λ _. n

abbrev pub ok_or : {A : Type 0} → Option A → TellError → Result TellError A
ok_or none e = err e
ok_or (some a) e = ok a

-- `hex_val`
unfoldable pub hex_val : ℕ → Option ℕ
hex_val c =
    if leb b'0' c && leb c b'9'
    then some (c - b'0')
    else if leb b'a' c && leb c b'f'
    then some (c - b'a' + 10)
    else if leb b'A' c && leb c b'F'
    then some (c - b'A' + 10)
    else none

abbrev pub non_hex : ℕ → TellError
non_hex c = configuration (lit "apiKey contains non-hex character '" ∷ chr c ∷ lit "'" ∷ [])

-- The loop of `validate_and_decode_api_key` over `chunks(2)`. The length has been checked, so that
-- no chunk has one byte.
unfoldable pub decode_chunks : List ℕ → Result TellError (List ℕ)
decode_chunks (a ∷ b ∷ rest) = do
  hi ← ok_or (hex_val a) (non_hex a)
  lo ← ok_or (hex_val b) (non_hex b)
  bytes ← decode_chunks rest
  ok (bit_or (hi * 2 ^ 4 % 256) lo ∷ bytes)
decode_chunks _ = ok []

-- `validate_and_decode_api_key`
unfoldable pub validate_and_decode_api_key : List ℕ → Result TellError (List ℕ)
validate_and_decode_api_key key =
    if length key == 32
    then decode_chunks key
    else err (configuration (lit "apiKey must be 32 hex characters, got " ∷ num (length key) ∷ []))

abbrev pub required : Message
required = lit "is required" ∷ []

abbrev pub too_long : ℕ → ℕ → Message
too_long limit n = lit "must be at most " ∷ num limit ∷ lit " characters, got " ∷ num n ∷ []

-- `validate_user_id`
unfoldable pub validate_user_id : List ℕ → Result TellError Unit
validate_user_id [] = err (validation "userId" required)
validate_user_id (c ∷ cs) = ok tt

-- `validate_event_name`
unfoldable pub validate_event_name : List ℕ → Result TellError Unit
validate_event_name [] = err (validation "eventName" required)
validate_event_name (c ∷ cs) =
    if ltb 256 (length (c ∷ cs))
    then err (validation "eventName" (too_long 256 (length (c ∷ cs))))
    else ok tt

-- `validate_log_message`
unfoldable pub validate_log_message : List ℕ → Result TellError Unit
validate_log_message [] = err (validation "message" required)
validate_log_message (c ∷ cs) =
    if ltb 65536 (length (c ∷ cs))
    then err (validation "message" (too_long 65536 (length (c ∷ cs))))
    else ok tt
