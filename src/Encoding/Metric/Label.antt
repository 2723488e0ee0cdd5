-- ===== src/Encoding/Metric/Label.antt =====
-- One label of crates/tell-encoding/src/metric.rs: what its table holds, and what a reader finds there.
use tell_rs.Prelude.{
  ℕ, zero, ◌+◌, ◌%◌, ◌^◌, ◌<◌, ◌≤◌, ◌≡◌, refl, ap, ap₂, append-nil, sym, ◌∙◌, subst, Option, none,
  some, List, [], ◌∷◌, ◌++◌, length, replicate, done, final, ◌>>=◌, ◌>>◌, pure, running,
  append_assoc, length-append, length-replicate, arith,
}
use tell_rs.Bytes.{le_bytes, from_le_bytes}
use tell_rs.Encoding.Helpers.{
  Write, write_string, align4, optionally, patch_offset, overwrite, pad_loop,
}
use tell_rs.Encoding.Helpers.Pad.{pad_loop_lem, padding}
use tell_rs.Encoding.Helpers.Shift.{Moved-at}
use tell_rs.Encoding.Helpers.Sections.{Stands, Stands-append, string-Writes, place_section}
use tell_rs.Encoding.Helpers.Fields.{distance, section_read}
use tell_rs.Encoding.Reader.{field_at, word_at, vector_field}
use tell_rs.Encoding.Reader.Behind.{vector_behind}
use tell_rs.Encoding.Vector.Image.{Entry}
use tell_rs.Encoding.Vector.Whole.{aligned_already}
use tell_rs.Encoding.Metric.{LabelParam, label_table, encode_label}
use tell_rs.Encoding.Metric.Into.{encode_label-Shifts}

-- The vtable and the table, with the words that lead to the key and to the value.
abbrev pub label_head : ℕ → ℕ → List ℕ
label_head k v =
    le_bytes 2 8
    ++ le_bytes 2 12
    ++ le_bytes 2 4
    ++ le_bytes 2 8
    ++ le_bytes 4 8
    ++ le_bytes 4 k
    ++ le_bytes 4 v

-- A section that is always written.
abbrev pub or_zero : Option ℕ → ℕ
or_zero none = 0
or_zero (some start) = start

abbrev fill : Option ℕ → Option ℕ → Write ℕ
fill k v = do patch_offset 12 (or_zero k); patch_offset 16 (or_zero v); pure 8

abbrev from_value : LabelParam → Option ℕ → Write ℕ
from_value label k = align4 >> (optionally (some label.value) write_string >>= fill k)

abbrev from_key : LabelParam → Write ℕ
from_key label = align4 >> (optionally (some label.key) write_string >>= from_value label)

encode_label-head :
    (label : LabelParam) → encode_label label [] ≡ from_key label (label_head 0 0 ++ [])
unfolding encode_label label_table le_bytes pad_loop
encode_label-head label = refl

key_filled :
    (k : Option ℕ) (t : List ℕ)
    → patch_offset 12 (or_zero k) (label_head 0 0 ++ t)
      ≡ done tt (label_head (distance k 12) 0 ++ t)
unfolding le_bytes overwrite
key_filled none t = refl
key_filled (some start) t = refl

value_filled :
    (a : ℕ) (v : Option ℕ) (t : List ℕ)
    → patch_offset 16 (or_zero v) (label_head a 0 ++ t)
      ≡ done tt (label_head a (distance v 16) ++ t)
unfolding le_bytes overwrite
value_filled a none t = refl
value_filled a (some start) t = refl

fill_lem :
    (k v : Option ℕ) (t : List ℕ)
    → fill k v (label_head 0 0 ++ t) ≡ done 8 (label_head (distance k 12) (distance v 16) ++ t)
fill_lem k v t = rw (running, key_filled k t, value_filled (distance k 12) v t) refl

-- What one round of the loop leaves: the table, and the two strings.
pub record LabelImage (label : LabelParam) (out : List ℕ) : Type 0 where
  pub k : Option ℕ
  pub v : Option ℕ
  pub t : List ℕ
  pub whole : out ≡ label_head (distance k 12) (distance v 16) ++ t
  pub key : Stands 20 t k (some label.key)
  pub value : Stands 20 t v (some label.value)

pub label-Image :
    (label : LabelParam)
    → (out : List ℕ) × (encode_label label [] ≡ done 8 out) × LabelImage label out
unfolding le_bytes
label-Image label =
    let h = label_head 0 0 in
    let (k, t1, e1, at1) =
      place_section h write_string (0 ∷ []) string-Writes (from_value label) (some label.key) [] in
    let (v, t2, e2, at2) =
      place_section h write_string (0 ∷ []) string-Writes (fill k) (some label.value) t1 in
    (
      label_head (distance k 12) (distance v 16) ++ (t1 ++ t2),
      encode_label-head label ∙ e1 ∙ e2 ∙ fill_lem k v (t1 ++ t2),
      record { k = k; v = v; t = t1 ++ t2; whole = refl; key = Stands-append t2 at1; value = at2 },
    )

-- The bytes of one label.
abbrev pub label_bytes : LabelParam → List ℕ
label_bytes label = final (encode_label label [])

abbrev pub label_entry : LabelParam → Entry
label_entry label = record { root = 8; bytes = label_bytes label }

-- In any buffer: the padding, then these bytes.
pub encode_label_lem :
    (label : LabelParam) (buf : List ℕ)
    → encode_label label buf
      ≡ done
          (length buf + padding (length buf) + 8)
          (buf ++ (replicate (padding (length buf)) 0 ++ label_bytes label))
encode_label_lem label buf =
    let (out, e, _) = label-Image label in
    padded_first
    ∙ ap (encode_label label) (sym (append-nil padded))
    ∙ Moved-at padded (label_bytes label) 8 (encode_label label (padded ++ []))
        (encode_label label []) ((encode_label-Shifts padded aligned label).on_any [])
        (e ∙ ap (λ out. done 8 out) (sym (ap final e)))
    ∙ ap₂ (λ (n : ℕ) out. done (n + 8) out) len (append_assoc buf zeros (label_bytes label))
  where
    zeros : List ℕ
    zeros = replicate (padding (length buf)) 0

    padded : List ℕ
    padded = buf ++ zeros

    len : length padded ≡ length buf + padding (length buf)
    len = omega (arith, length-append buf zeros, length-replicate {0} (padding (length buf)) zero)

    aligned : length padded % 4 ≡ 0
    aligned = omega (arith, len)

    padded_first : encode_label label buf ≡ encode_label label padded
    padded_first =
        unfold encode_label in
        (ap (label_table label) (pad_loop_lem buf ∙ sym (aligned_already padded aligned)))

-- What a reader finds in the table at that position.
abbrev pub LabelReadsAt : ℕ → LabelParam → List ℕ → Type 0
LabelReadsAt table label buf =
    (vector_field table 0 buf ≡ some label.key) × (vector_field table 1 buf ≡ some label.value)

label_bytes-Image : (label : LabelParam) → LabelImage label (label_bytes label)
label_bytes-Image label =
    let (out, e, i) = label-Image label in subst (LabelImage label) (sym (ap final e)) i

LabelImage-append :
    {label : LabelParam} {out : List ℕ} (more : List ℕ)
    → LabelImage label out
    → LabelImage label (out ++ more)
LabelImage-append more i = record {
  k = i.k;
  v = i.v;
  t = i.t ++ more;
  whole =
      ap (λ out. out ++ more) i.whole
      ∙ append_assoc (label_head (distance i.k 12) (distance i.v 16)) i.t more;
  key = Stands-append more i.key;
  value = Stands-append more i.value;
}

LabelImage-ReadsAt :
    (label : LabelParam) (out : List ℕ)
    → LabelImage label out
    → length out < 2 ^ 32
    → (word_at 4 8 out ≤ 8) × LabelReadsAt 8 label out
unfolding field_at le_bytes from_le_bytes
LabelImage-ReadsAt label out i small =
    subst (λ out. (word_at 4 8 out ≤ 8) × LabelReadsAt 8 label out) (sym i.whole)
      (
        omega arith,
        (
          section_read head i.t i.k (some label.key) 8 0 4 i.key within (omega arith) (omega arith)
              (omega arith) refl refl,
          section_read head i.t i.v (some label.value) 8 1 8 i.value within (omega arith)
              (omega arith) (omega arith) refl refl,
        ),
      )
  where
    head : List ℕ
    head = label_head (distance i.k 12) (distance i.v 16)

    within : 20 + length i.t < 2 ^ 32
    within = omega (arith, ap length i.whole, length-append head i.t)

pub length-label : (label : LabelParam) → 20 ≤ length (label_bytes label)
unfolding le_bytes
length-label label = omega (
  arith,
  ap length (label_bytes-Image label).whole,
  length-append
      (label_head (distance (label_bytes-Image label).k 12)
        (distance (label_bytes-Image label).v 16))
      (label_bytes-Image label).t,
)

-- Wherever the label stands.
pub label_anywhere :
    (label : LabelParam) (before after : List ℕ)
    → length (before ++ (label_bytes label ++ after)) < 2 ^ 32
    → LabelReadsAt (length before + 8) label (before ++ (label_bytes label ++ after))
label_anywhere label before after small =
    let out = label_bytes label ++ after in
    let (back, (k, v)) =
      LabelImage-ReadsAt label out (LabelImage-append after (label_bytes-Image label))
        (omega (arith, length-append before out)) in
    (vector_behind before out 8 back 0 ∙ k, vector_behind before out 8 back 1 ∙ v)
