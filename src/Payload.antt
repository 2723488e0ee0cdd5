-- ===== src/Payload.antt =====
-- crates/tell/src/payload.rs: a JSON object is written member by member. A value is given by the bytes
-- that serde_json writes for it.
pub mod Members
mod Tests
use tell_rs.Prelude.{
  ℕ, ◌-◌, ◌==◌, ◌&&◌, Bool, true, false, Option, none, some, List, [], ◌∷◌, ◌++◌, length, take,
  drop, ltb, if◌then◌else◌,
}

pub record JsonObject : Type 0 where
  pub buf : List ℕ

-- `JsonObject::with_capacity`; the capacity has no effect on the bytes.
unfoldable pub with_capacity : ℕ → JsonObject
with_capacity cap = record { buf = b'{' ∷ [] }

-- `JsonObject::separator`
unfoldable pub separator : JsonObject → JsonObject
separator o = if ltb 1 (length o.buf) then record { buf = o.buf ++ b',' ∷ [] } else o

abbrev pub extend : List ℕ → JsonObject → JsonObject
extend bytes o = record { buf = o.buf ++ bytes }

-- `JsonObject::field`
unfoldable pub field : List ℕ → List ℕ → JsonObject → JsonObject
field key_colon value o = extend value (extend key_colon (separator o))

-- `JsonObject::fragment`
unfoldable pub fragment : List ℕ → JsonObject → JsonObject
fragment [] o = o
fragment (x ∷ xs) o = extend (x ∷ xs) (separator o)

abbrev pub is_byte : ℕ → Option ℕ → Bool
is_byte n none = false
is_byte n (some m) = m == n

abbrev pub first_of : List ℕ → Option ℕ
first_of [] = none
first_of (x ∷ xs) = some x

abbrev pub last_of : List ℕ → Option ℕ
last_of [] = none
last_of (x ∷ []) = some x
last_of (x ∷ y ∷ ys) = last_of (y ∷ ys)

-- `object_inner`
unfoldable pub object_inner : Option (List ℕ) → Option (List ℕ)
object_inner none = none
object_inner (some b) =
    if ltb 2 (length b) && (is_byte b'{' (first_of b) && is_byte b'}' (last_of b))
    then some (take (length b - 1 - 1) (drop 1 b))
    else none

abbrev pub splice : Option (List ℕ) → JsonObject → JsonObject
splice none o = o
splice (some inner) o = extend inner (separator o)

-- `JsonObject::object`
unfoldable pub object : Option (List ℕ) → JsonObject → JsonObject
object o = splice (object_inner o)

-- `JsonObject::finish`
unfoldable pub finish : JsonObject → List ℕ
finish o = o.buf ++ b'}' ∷ []
