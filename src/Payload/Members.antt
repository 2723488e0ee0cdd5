-- ===== src/Payload/Members.antt =====
-- What the calls of crates/tell/src/payload.rs write: the members between braces, with a comma between
-- each two.
use tell_rs.Prelude.{
  ◌≢◌, take-append_exact, ℕ, ◌-◌, ◌<◌, ◌≡◌, refl, ap, sym, ◌∙◌, Option, none, some, List, [], ◌∷◌,
  ◌++◌, length, ltb, All, arith, append_assoc, append-nil, length-append, lt→ltb, ltb→lt, ◌&&◌,
  Bool, true, false, Bool-cases, inl, inr,
}
use tell_rs.Payload.{
  JsonObject, with_capacity, separator, extend, field, fragment, object, object_inner, splice,
  finish, is_byte, first_of, last_of,
}

-- A call of one of the three methods. `object_call` is one of `object` with the serialized object that
-- has these bytes between its braces, `other_call` one with anything else.
pub data Call : Type 0 where
  field_call : List ℕ → List ℕ → Call
  fragment_call object_call : List ℕ → Call
  other_call : Option (List ℕ) → Call

abbrev pub in_braces : List ℕ → List ℕ
in_braces inner = b'{' ∷ inner ++ b'}' ∷ []

abbrev pub call : Call → JsonObject → JsonObject
call (field_call key_colon value) = field key_colon value
call (fragment_call bytes) = fragment bytes
call (object_call inner) = object (some (in_braces inner))
call (other_call bytes) = object bytes

abbrev pub calls : List Call → JsonObject → JsonObject
calls [] o = o
calls (c ∷ cs) o = calls cs (call c o)

abbrev pub none_if_empty : List ℕ → List (List ℕ)
none_if_empty [] = []
none_if_empty (x ∷ xs) = (x ∷ xs) ∷ []

-- What a call adds: a member, or several with their commas, or nothing.
abbrev pub members : Call → List (List ℕ)
members (field_call key_colon value) = (key_colon ++ value) ∷ []
members (fragment_call bytes) = none_if_empty bytes
members (object_call inner) = none_if_empty inner
members (other_call bytes) = []

abbrev pub all_members : List Call → List (List ℕ)
all_members [] = []
all_members (c ∷ cs) = members c ++ all_members cs

-- Nothing, or bytes that are not between braces.
abbrev pub IsOther : Option (List ℕ) → Type 0
IsOther none = Unit
IsOther (some bytes) = (inner : List ℕ) → bytes ≢ in_braces inner

-- A field has a key, and what is called other is not between braces.
abbrev pub IsProper : Call → Type 0
IsProper (field_call key_colon value) = 0 < length key_colon
IsProper (fragment_call bytes) = Unit
IsProper (object_call inner) = Unit
IsProper (other_call bytes) = IsOther bytes

-- Members behind others.
abbrev pub behind : List (List ℕ) → List ℕ
behind [] = []
behind (m ∷ ms) = b',' ∷ m ++ behind ms

-- Members with a comma between each two.
abbrev pub joined : List (List ℕ) → List ℕ
joined [] = []
joined (m ∷ ms) = m ++ behind ms

-- An object with these members that is not closed.
abbrev open_object : List (List ℕ) → JsonObject
open_object ms = record { buf = b'{' ∷ joined ms }

abbrev IsFilled : List (List ℕ) → Type 0
IsFilled ms = All (λ m. 0 < length m) ms

behind-append : (ms ns : List (List ℕ)) → behind (ms ++ ns) ≡ behind ms ++ behind ns
behind-append [] ns = refl
behind-append (m ∷ ms) ns =
    ap (λ xs. b',' ∷ m ++ xs) (behind-append ms ns)
    ∙ ap (λ xs. b',' ∷ xs) (sym (append_assoc m (behind ms) (behind ns)))

separator_first : separator (open_object []) ≡ open_object []
unfolding separator
separator_first = refl

separator_later :
    (o : JsonObject) → 1 < length o.buf → separator o ≡ record { buf = o.buf ++ b',' ∷ [] }
unfolding separator
separator_later o some_there = rw (lt→ltb 1 (length o.buf) some_there) refl

-- A member comes behind those that are there.
put :
    (m : List ℕ) (ms : List (List ℕ))
    → IsFilled ms
    → extend m (separator (open_object ms)) ≡ open_object (ms ++ m ∷ [])
put m [] filled =
    ap (extend m) separator_first ∙ ap (λ xs. record { buf = b'{' ∷ xs }) (sym (append-nil m))
put m (n ∷ ms) (some_there, filled) =
    ap (extend m)
      (separator_later (open_object (n ∷ ms)) (omega (arith, length-append n (behind ms))))
    ∙ ap (λ xs. record { buf = b'{' ∷ xs })
        (ap (λ xs. xs ++ m) (append_assoc n (behind ms) (b',' ∷ []))
          ∙ append_assoc n (behind ms ++ b',' ∷ []) m
          ∙ ap (λ xs. n ++ xs)
              (append_assoc (behind ms) (b',' ∷ []) m
                ∙ ap (λ xs. behind ms ++ b',' ∷ xs) (sym (append-nil m))
                ∙ sym (behind-append ms (m ∷ []))))

last_of-snoc : (xs : List ℕ) (y : ℕ) → last_of (xs ++ y ∷ []) ≡ some y
last_of-snoc [] y = refl
last_of-snoc (x ∷ []) y = refl
last_of-snoc (x ∷ z ∷ xs) y = last_of-snoc (z ∷ xs) y

-- Between braces `object_inner` finds what is there, and nothing if nothing is there.
abbrev inner_of : List ℕ → Option (List ℕ)
inner_of [] = none
inner_of (x ∷ xs) = some (x ∷ xs)

object_inner-in_braces : (inner : List ℕ) → object_inner (some (in_braces inner)) ≡ inner_of inner
unfolding object_inner
object_inner-in_braces [] = refl
object_inner-in_braces (x ∷ xs) =
    rw
      (
        lt→ltb 2 (length (in_braces (x ∷ xs))) (omega (arith, length-append xs (b'}' ∷ []))),
        last_of-snoc (x ∷ xs) b'}',
      )
      (ap some (
        take-append_exact (x ∷ xs) (b'}' ∷ []) (length (in_braces (x ∷ xs)) - 1 - 1)
          (omega (arith, length-append xs (b'}' ∷ [])))))

-- What begins and ends with the braces is between them.
ends_with :
    (y : ℕ) (ys : List ℕ)
    → is_byte b'}' (last_of (y ∷ ys)) ≡ true
    → (inner : List ℕ) × (y ∷ ys ≡ inner ++ b'}' ∷ [])
ends_with y [] e = let same : y ≡ b'}' = ground arith in ([], ap (λ z. z ∷ []) same)
ends_with y (z ∷ zs) e = let (inner, same) = ends_with z zs e in (y ∷ inner, ap (λ xs. y ∷ xs) same)

both-true : (x y : Bool) → x && y ≡ true → (x ≡ true) × (y ≡ true)
both-true true y e = (refl, e)
both-true false y e = absurd (cc e)

braces_of :
    (b : List ℕ)
    → 2 < length b
    → is_byte b'{' (first_of b) ≡ true
    → is_byte b'}' (last_of b) ≡ true
    → (inner : List ℕ) × (b ≡ in_braces inner)
braces_of [] long starts ends = absurd (omega arith)
braces_of (x ∷ []) long starts ends = absurd (omega arith)
braces_of (x ∷ y ∷ ys) long starts ends =
    let same : x ≡ b'{' = ground arith in
    let (inner, rest) = ends_with y ys ends in
    (inner, ap (λ z. z ∷ y ∷ ys) same ∙ ap (λ xs. b'{' ∷ xs) rest)

object_inner-IsOther : (o : Option (List ℕ)) → IsOther o → object_inner o ≡ none
unfolding object_inner
object_inner-IsOther none other = refl
object_inner-IsOther (some b) other =
    let starts = is_byte b'{' (first_of b) in
    let ends = is_byte b'}' (last_of b) in
    elim (Bool-cases (ltb 2 (length b) && (starts && ends))) [
      | inl e ↦
          let (long, braces) = both-true (ltb 2 (length b)) (starts && ends) e in
          let (start, end) = both-true starts ends braces in
          let (inner, same) = braces_of b (ltb→lt 2 (length b) long) start end in
          absurd (other inner same)
      | inr e ↦ rw e refl
    ]

members-IsFilled : (c : Call) → IsProper c → IsFilled (members c)
members-IsFilled (field_call key_colon value) proper =
    (omega (arith, length-append key_colon value), tt)
members-IsFilled (fragment_call []) proper = tt
members-IsFilled (fragment_call (x ∷ xs)) proper = (omega arith, tt)
members-IsFilled (object_call []) proper = tt
members-IsFilled (object_call (x ∷ xs)) proper = (omega arith, tt)
members-IsFilled (other_call bytes) proper = tt

splice_lem :
    (inner : List ℕ) (ms : List (List ℕ))
    → IsFilled ms
    → splice (inner_of inner) (open_object ms) ≡ open_object (ms ++ none_if_empty inner)
splice_lem [] ms filled = ap open_object (sym (append-nil ms))
splice_lem (x ∷ xs) ms filled = put (x ∷ xs) ms filled

call_lem :
    (c : Call) (ms : List (List ℕ))
    → IsProper c
    → IsFilled ms
    → call c (open_object ms) ≡ open_object (ms ++ members c)
unfolding field fragment object
call_lem (field_call key_colon value) ms proper filled =
    ap (λ xs. record { buf = xs }) (append_assoc (separator (open_object ms)).buf key_colon value)
    ∙ put (key_colon ++ value) ms filled
call_lem (fragment_call []) ms proper filled = ap open_object (sym (append-nil ms))
call_lem (fragment_call (x ∷ xs)) ms proper filled = put (x ∷ xs) ms filled
call_lem (object_call inner) ms proper filled =
    ap (λ o. splice o (open_object ms)) (object_inner-in_braces inner) ∙ splice_lem inner ms filled
call_lem (other_call bytes) ms proper filled =
    ap (λ o. splice o (open_object ms)) (object_inner-IsOther bytes proper)
    ∙ ap open_object (sym (append-nil ms))

IsFilled-append : (ms ns : List (List ℕ)) → IsFilled ms → IsFilled ns → IsFilled (ms ++ ns)
IsFilled-append [] ns filled more = more
IsFilled-append (m ∷ ms) ns (some_there, filled) more =
    (some_there, IsFilled-append ms ns filled more)

calls_lem :
    (cs : List Call) (ms : List (List ℕ))
    → All IsProper cs
    → IsFilled ms
    → calls cs (open_object ms) ≡ open_object (ms ++ all_members cs)
calls_lem [] ms proper filled = ap open_object (sym (append-nil ms))
calls_lem (c ∷ cs) ms (proper, all_proper) filled =
    ap (calls cs) (call_lem c ms proper filled)
    ∙ calls_lem cs (ms ++ members c) all_proper
        (IsFilled-append ms (members c) filled (members-IsFilled c proper))
    ∙ ap open_object (append_assoc ms (members c) (all_members cs))

-- Whatever fields, fragments and objects are added, in whatever order, if no field has an empty
-- key: the finished bytes are the members, with one comma between each two, none in front and none
-- at the end, between braces. An object given as bytes between braces adds these bytes, if there
-- are any; an empty fragment, and an object argument that is missing or not between braces, add
-- nothing.
pub json_object_lem :
    (cap : ℕ) (cs : List Call)
    → All IsProper cs
    → finish (calls cs (with_capacity cap)) ≡ b'{' ∷ joined (all_members cs) ++ b'}' ∷ []
unfolding with_capacity finish
json_object_lem cap cs proper = ap finish (calls_lem cs [] proper tt)
