-- ===== src/Validation/ApiKey.antt =====
-- The API key of crates/tell/src/validation.rs: what is accepted, and what it decodes to.
use Prim.Native.Nat.{bit_or}
use tell_rs.Prelude.{
  ◌⊎◌, inl, inr, ◌≤◌, leb, ◌&&◌, Bool-cases, ℕ, zero, suc, ◌+◌, ◌-◌, ◌*◌, ◌/◌, ◌%◌, ◌^◌, ◌<◌, ◌≡◌,
  refl, subst, ap₂, sym, Bool, true, false, Option, none, some, List, [], ◌∷◌, length, ltb, ◌==◌,
  if◌then◌else◌, Result, ok, err, All, arith,
}
use native.Mathlib.Decide.{dec_lt}
use tell_rs.Bytes.{IsByte}
use tell_rs.Validation.Defs.{
  hex_val, decode_chunks, validate_and_decode_api_key, ok_or, non_hex, ◌>>=◌,
}
use tell_rs.Errors.{TellError}

-- Whether each number below `size` is put together from its two digits.
digits_join : ℕ → Bool
digits_join zero = true
digits_join (suc last) =
    if bit_or (last / 16 * 16 % 256) (last % 16) == last then digits_join last else false

joined_below :
    (size : ℕ)
    → digits_join size ≡ true
    → (x : ℕ) → x < size
    → bit_or (x / 16 * 16 % 256) (x % 16) ≡ x
unfolding digits_join
joined_below zero table x small = absurd (omega arith)
joined_below (suc last) table x small = elim (dec_lt x last) [
  | yes before ↦ joined_below last (ground arith) x before
  | no at_end ↦ let here : x ≡ last = omega arith in rw here (ground arith)
]

every_byte_joins : digits_join 256 ≡ true
unfolding digits_join
every_byte_joins = refl

join_digits : (x : ℕ) → x < 256 → bit_or (x / 16 * 16 % 256) (x % 16) ≡ x
join_digits = joined_below 256 every_byte_joins

hex_val-lt : (c v : ℕ) → hex_val c ≡ some v → v < 16
unfolding hex_val
hex_val-lt c v h = ground arith

-- The digit for a value, in lower case: the inverse that the program does not need.
abbrev pub hex_digit : ℕ → ℕ
hex_digit v = if ltb v 10 then b'0' + v else b'a' + (v - 10)

hex_val-hex_digit : (v : ℕ) → v < 16 → hex_val (hex_digit v) ≡ some v
unfolding hex_val
hex_val-hex_digit v h = ground arith

abbrev pub hex_text : List ℕ → List ℕ
hex_text [] = []
hex_text (x ∷ xs) = hex_digit (x / 16) ∷ hex_digit (x % 16) ∷ hex_text xs

length-hex_text : (xs : List ℕ) → length (hex_text xs) ≡ 2 * length xs
length-hex_text [] = refl
length-hex_text (x ∷ xs) = omega (arith, length-hex_text xs)

decode_chunks-hex_text : (xs : List ℕ) → All IsByte xs → decode_chunks (hex_text xs) ≡ ok xs
unfolding decode_chunks
decode_chunks-hex_text [] h = refl
decode_chunks-hex_text (x ∷ xs) (b, h) = rw (
  ◌>>=◌,
  hex_val-hex_digit (x / 16) (omega arith),
  hex_val-hex_digit (x % 16) (omega arith),
  decode_chunks-hex_text xs h,
  join_digits x b,
)

-- The hexadecimal text of 16 bytes is accepted as an API key and decodes to these bytes.
pub api_key_round_trip :
    (xs : List ℕ)
    → length xs ≡ 16
    → All IsByte xs
    → validate_and_decode_api_key (hex_text xs) ≡ ok xs
unfolding validate_and_decode_api_key
api_key_round_trip xs n h = rw (length-hex_text xs, n) (decode_chunks-hex_text xs h)

-- The characters from 0 to 9, a to f and A to F.
abbrev pub IsHex : ℕ → Type 0
IsHex c = ((48 ≤ c) × (c ≤ 57)) ⊎ ((97 ≤ c) × (c ≤ 102)) ⊎ ((65 ≤ c) × (c ≤ 70))

-- What the digits are worth.
hex_val-IsHex : (c : ℕ) → IsHex c → (v : ℕ) × (hex_val c ≡ some v)
unfolding hex_val
hex_val-IsHex c (inl (low, high)) = (c - 48, ground arith)
hex_val-IsHex c (inr (inl (low, high))) = (c - 97 + 10, ground arith)
hex_val-IsHex c (inr (inr (low, high))) = (c - 65 + 10, ground arith)

-- Whether a character is a digit is decided by the two bounds of each range.
IsHex-hex_val : (c v : ℕ) → hex_val c ≡ some v → IsHex c
unfolding hex_val
IsHex-hex_val c v e = elim (Bool-cases (leb 48 c && leb c 57)) [
  | inl d ↦ inl (both 48 c 57 d)
  | inr d ↦ elim (Bool-cases (leb 97 c && leb c 102)) [
    | inl l ↦ inr (inl (both 97 c 102 l))
    | inr l ↦ elim (Bool-cases (leb 65 c && leb c 70)) [
      | inl u ↦ inr (inr (both 65 c 70 u))
      | inr u ↦ absurd (missing (rw (d, l, u) at e))
    ]
  ]
]
  where
    both : (a c b : ℕ) → (leb a c && leb c b) ≡ true → (a ≤ c) × (c ≤ b)
    both a c b t = (ground arith, ground arith)

    missing : ◌≡◌ {A = Option ℕ} none (some v) → ⊥
    missing h = cc h

decode_chunks_total :
    (n : ℕ) (key : List ℕ)
    → length key ≡ 2 * n
    → All IsHex key
    → (bytes : List ℕ) × (decode_chunks key ≡ ok bytes)
unfolding decode_chunks
decode_chunks_total n [] e h = ([], refl)
decode_chunks_total n (a ∷ []) e h = ([], refl)
decode_chunks_total zero (a ∷ b ∷ key) e h = absurd (omega arith)
decode_chunks_total (suc n) (a ∷ b ∷ key) e (first, (second, h)) =
    let (hi, p) = hex_val-IsHex a first in
    let (lo, q) = hex_val-IsHex b second in
    let (bytes, r) = decode_chunks_total n key (omega arith) h in
    (bit_or (hi * 2 ^ 4 % 256) lo ∷ bytes, rw (p, q, r))

or_byte : (hi lo : ℕ) → hi < 16 → lo < 16 → bit_or (hi * 2 ^ 4 % 256) lo < 256
or_byte hi lo p q = omega (arith, same, join_digits (hi * 16 + lo) (omega arith))
  where
    same :
        bit_or (hi * 2 ^ 4 % 256) lo ≡ bit_or ((hi * 16 + lo) / 16 * 16 % 256) ((hi * 16 + lo) % 16)
    same = ap₂ bit_or (omega arith) (omega arith)

abbrev Decoded : List ℕ → List ℕ → Type 0
Decoded key bytes = All IsHex key × All IsByte bytes × (length key ≡ 2 * length bytes)

-- Two digits and the rest, each of which can be missing.
two_digits :
    (p q : Option ℕ) (e1 e2 : TellError) (rest : Result TellError (List ℕ)) (bytes : List ℕ)
    → (do hi ← ok_or p e1; lo ← ok_or q e2; xs ← rest; ok (bit_or (hi * 2 ^ 4 % 256) lo ∷ xs))
      ≡ ok bytes
    → (hi : ℕ) × (lo : ℕ) × (xs : List ℕ) × (p ≡ some hi)
      × (q ≡ some lo)
      × (rest ≡ ok xs)
      × (bytes ≡ bit_or (hi * 2 ^ 4 % 256) lo ∷ xs)
two_digits none q e1 e2 rest bytes r = absurd (cc r)
two_digits (some hi) none e1 e2 rest bytes r = absurd (cc r)
two_digits (some hi) (some lo) e1 e2 (err e) bytes r = absurd (cc r)
two_digits (some hi) (some lo) e1 e2 (ok xs) bytes r = (hi, lo, xs, refl, refl, refl, cc r)

decode_chunks_sound :
    (n : ℕ) (key bytes : List ℕ)
    → length key ≡ 2 * n
    → decode_chunks key ≡ ok bytes
    → Decoded key bytes
unfolding decode_chunks
decode_chunks_sound n [] bytes e r = ground arith
decode_chunks_sound n (a ∷ []) bytes e r = absurd (omega arith)
decode_chunks_sound zero (a ∷ b ∷ key) bytes e r = absurd (omega arith)
decode_chunks_sound (suc n) (a ∷ b ∷ key) bytes e r =
    let (hi, lo, xs, p, q, t, eq) =
      two_digits (hex_val a) (hex_val b) (non_hex a) (non_hex b) (decode_chunks key) bytes r in
    let (hexes, small, n') = decode_chunks_sound n key xs (omega arith) t in
    subst (λ (out : List ℕ). Decoded (a ∷ b ∷ key) out) (sym eq)
      (
        (IsHex-hex_val a hi p, (IsHex-hex_val b lo q, hexes)),
        (or_byte hi lo (hex_val-lt a hi p) (hex_val-lt b lo q), small),
        omega arith,
      )

-- A text of 32 characters, each from 0 to 9, a to f or A to F, is accepted as an API key.
pub hex_key_accepted :
    (key : List ℕ)
    → length key ≡ 32
    → All IsHex key
    → (bytes : List ℕ) × (validate_and_decode_api_key key ≡ ok bytes)
unfolding validate_and_decode_api_key
hex_key_accepted key n hexes =
    let (bytes, r) = decode_chunks_total 16 key n hexes in (bytes, rw n r)

-- An API key that is accepted has 32 characters, each from 0 to 9, a to f or A to F, and decodes to
-- 16 bytes.
pub api_key_sound :
    (key bytes : List ℕ)
    → validate_and_decode_api_key key ≡ ok bytes
    → (length key ≡ 32) × All IsHex key × All IsByte bytes × (length bytes ≡ 16)
unfolding validate_and_decode_api_key
api_key_sound key bytes r =
    let n : length key ≡ 32 = ground arith in
    let (hexes, small, m) = decode_chunks_sound 16 key bytes n (ground arith) in
    (n, hexes, small, omega arith)
