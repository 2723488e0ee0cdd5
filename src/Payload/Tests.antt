-- ===== src/Payload/Tests.antt =====
-- An object of crates/tell/src/payload.rs.
use tell_rs.Prelude.{ℕ, ap, ◌≡◌, List, [], ◌∷◌, some, arith}
use tell_rs.Payload.{with_capacity, finish, object_inner}
use tell_rs.Payload.Members.{
  IsOther, in_braces, Call, field_call, fragment_call, object_call, other_call, calls,
  json_object_lem,
}

-- A field, an empty fragment, an empty object, an array, an object and a fragment.
abbrev script : List Call
script =
    field_call (b'"' ∷ b'a' ∷ b'"' ∷ b':' ∷ []) (b'1' ∷ [])
    ∷ fragment_call []
    ∷ object_call []
    ∷ other_call (some (b'[' ∷ b']' ∷ []))
    ∷ object_call (b'x' ∷ [])
    ∷ fragment_call (b'y' ∷ [])
    ∷ []

first_byte : List ℕ → ℕ
first_byte [] = 0
first_byte (x ∷ xs) = x

array-IsOther : IsOther (some (b'[' ∷ b']' ∷ []))
unfolding first_byte
array-IsOther inner e =
    let same : b'[' ≡ first_byte (in_braces inner) = ap first_byte e in absurd (omega arith)

json_object_lem_example :
    finish (calls script (with_capacity 10))
    ≡ b'{' ∷ b'"' ∷ b'a' ∷ b'"' ∷ b':' ∷ b'1' ∷ b',' ∷ b'x' ∷ b',' ∷ b'y' ∷ b'}' ∷ []
unfolding object_inner
json_object_lem_example =
    json_object_lem 10 script (omega arith, (tt, (tt, (array-IsOther, (tt, (tt, tt))))))
