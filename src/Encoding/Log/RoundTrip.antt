-- ===== src/Encoding/Log/RoundTrip.antt =====
-- A reader finds in a log entry of crates/tell-encoding/src/log.rs what was put into it, and in the data of
-- many entries each of them, in order.
use tell_rs.Prelude.{
  ℕ, ◌+◌, ◌^◌, ◌<◌, ◌≤◌, ◌≡◌, refl, ap, sym, ◌∙◌, subst, some, List, [], ◌++◌, length, take, done,
  final, append_assoc, length-append, arith, All,
}
use tell_rs.Bytes.{le_bytes, from_le_bytes, from_le_bytes-u64}
use tell_rs.Encoding.Helpers.Sections.{Stands-append}
use tell_rs.Encoding.Helpers.Fields.{distance, section_read}
use tell_rs.Encoding.Reader.{field_at, word_at, scalar_field, vector_field, target_at}
use tell_rs.Encoding.Reader.Behind.{scalar_behind, vector_behind}
use tell_rs.Encoding.Vector.{root_offset}
use tell_rs.Encoding.Vector.Same.{root_offset_lem}
use tell_rs.Encoding.Vector.RoundTrip.{ReadsAll, data_into_ReadsAll}
use tell_rs.Encoding.Log.{
  LogEntryParams, log_type_as_u8, level_as_u8, encode_log_entry, encode_log_entry_into,
  encode_log_data_into,
}
use tell_rs.Encoding.Log.Image.{log_head, Image, log-Image}
use tell_rs.Encoding.Log.Into.{log_bytes, encode_log_entry-Places}

-- What a reader finds in the table at that position.
abbrev pub ReadsAt : ℕ → LogEntryParams → List ℕ → Type 0
ReadsAt table p buf =
    (scalar_field 1 table 0 buf ≡ some (log_type_as_u8 p.event_type))
    × (vector_field table 1 buf ≡ p.session_id)
    × (scalar_field 1 table 2 buf ≡ some (level_as_u8 p.level))
    × (scalar_field 8 table 3 buf ≡ some p.timestamp)
    × (vector_field table 4 buf ≡ p.source)
    × (vector_field table 5 buf ≡ p.service)
    × (vector_field table 6 buf ≡ p.payload)

module _ (p : LogEntryParams) (out : List ℕ) (i : Image p out) (small : length out < 2 ^ 32)
    (fits : p.timestamp < 2 ^ 64) where
  abbrev head : List ℕ
  head = log_head p 24 (distance i.s 28) (distance i.o 32) (distance i.c 36) (distance i.q 40)

  within : 56 + length i.t < 2 ^ 32
  unfolding le_bytes
  within = omega (arith, ap length i.whole, length-append head i.t)

  read_type : scalar_field 1 24 0 (head ++ i.t) ≡ some (log_type_as_u8 p.event_type)
  unfolding scalar_field field_at le_bytes from_le_bytes
  read_type = ap some (omega arith)

  read_level : scalar_field 1 24 2 (head ++ i.t) ≡ some (level_as_u8 p.level)
  unfolding scalar_field field_at le_bytes from_le_bytes
  read_level = ap some (omega arith)

  read_time : scalar_field 8 24 3 (head ++ i.t) ≡ some p.timestamp
  unfolding scalar_field field_at le_bytes from_le_bytes
  read_time = ap some (from_le_bytes-u64 p.timestamp fits)

  read_session : vector_field 24 1 (head ++ i.t) ≡ p.session_id
  unfolding field_at le_bytes from_le_bytes
  read_session =
      section_read head i.t i.s p.session_id 24 1 4 i.session within (omega arith) (omega arith)
        (omega arith) refl refl

  read_source : vector_field 24 4 (head ++ i.t) ≡ p.source
  unfolding field_at le_bytes from_le_bytes
  read_source =
      section_read head i.t i.o p.source 24 4 8 i.source within (omega arith) (omega arith)
        (omega arith) refl refl

  read_service : vector_field 24 5 (head ++ i.t) ≡ p.service
  unfolding field_at le_bytes from_le_bytes
  read_service =
      section_read head i.t i.c p.service 24 5 12 i.service within (omega arith) (omega arith)
        (omega arith) refl refl

  read_payload : vector_field 24 6 (head ++ i.t) ≡ p.payload
  unfolding field_at le_bytes from_le_bytes
  read_payload =
      section_read head i.t i.q p.payload 24 6 16 i.payload within (omega arith) (omega arith)
        (omega arith) refl refl

  pub Image-ReadsAt : ReadsAt 24 p out
  Image-ReadsAt =
      subst (ReadsAt 24 p) (sym i.whole)
        (read_type, read_session, read_level, read_time, read_source, read_service, read_payload)

Image-root : (p : LogEntryParams) (out : List ℕ) → Image p out → target_at 0 out ≡ 24
unfolding le_bytes from_le_bytes
Image-root p out i = ap (target_at 0) i.whole

Image-back : (p : LogEntryParams) (out : List ℕ) → Image p out → word_at 4 24 out ≤ 24
unfolding le_bytes from_le_bytes
Image-back p out i = subst (λ out. word_at 4 24 out ≤ 24) (sym i.whole) (omega arith)

Image-append :
    {p : LogEntryParams} {out : List ℕ} (more : List ℕ) → Image p out → Image p (out ++ more)
Image-append {p} more i = record {
  s = i.s;
  o = i.o;
  c = i.c;
  q = i.q;
  t = i.t ++ more;
  whole =
      ap (λ out. out ++ more) i.whole
      ∙ append_assoc
          (log_head p 24 (distance i.s 28) (distance i.o 32) (distance i.c 36) (distance i.q 40))
          i.t more;
  session = Stands-append more i.session;
  source = Stands-append more i.source;
  service = Stands-append more i.service;
  payload = Stands-append more i.payload;
}

-- In the bytes that encode_log_entry gives, if they are below 4 GiB and the timestamp below 2^64, a
-- reader of the format finds the type, the session, the level, the timestamp, the source, the
-- service and the payload, each with its value or absent as in the parameters.
pub log_entry_round_trip :
    (p : LogEntryParams) (out : List ℕ)
    → encode_log_entry p ≡ done tt out
    → length out < 2 ^ 32
    → p.timestamp < 2 ^ 64
    → ReadsAt (target_at 0 out) p out
log_entry_round_trip p out e small fits =
    let (out', e', i') = log-Image p in
    let i : Image p out = subst (Image p) (same out' e') i' in
    subst (λ (table : ℕ). ReadsAt table p out) (sym (Image-root p out i))
      (Image-ReadsAt p out i small fits)
  where
    same : (out' : List ℕ) → encode_log_entry p ≡ done tt out' → out' ≡ out
    same out' e' = cc (e, e')

log_bytes-Image : (p : LogEntryParams) → Image p (log_bytes p)
log_bytes-Image p = let (out, e, i) = log-Image p in subst (Image p) (sym (ap final e)) i

log-root : (p : LogEntryParams) → root_offset (log_bytes p) ≡ 24
unfolding le_bytes from_le_bytes
log-root p =
    root_offset_lem (log_bytes p) (encode_log_entry-Places p [] refl).0
    ∙ ap (λ xs. from_le_bytes (take 4 xs)) (log_bytes-Image p).whole

-- Wherever the entry stands.
log_anywhere :
    (p : LogEntryParams) (before after : List ℕ)
    → p.timestamp < 2 ^ 64
    → length (before ++ (log_bytes p ++ after)) < 2 ^ 32
    → ReadsAt (length before + root_offset (log_bytes p)) p (before ++ (log_bytes p ++ after))
log_anywhere p before after fits small =
    subst (λ (root : ℕ). ReadsAt (length before + root) p (before ++ out)) (sym (log-root p))
      (
        scalar_behind before out 24 back 1 0 ∙ r.0,
        vector_behind before out 24 back 1 ∙ r.1,
        scalar_behind before out 24 back 1 2 ∙ r.2,
        scalar_behind before out 24 back 8 3 ∙ r.3,
        vector_behind before out 24 back 4 ∙ r.4,
        vector_behind before out 24 back 5 ∙ r.5,
        vector_behind before out 24 back 6 ∙ r.6,
      )
  where
    out : List ℕ
    out = log_bytes p ++ after

    image : Image p out
    image = Image-append after (log_bytes-Image p)

    back : word_at 4 24 out ≤ 24
    back = Image-back p out image

    r : ReadsAt 24 p out
    r = Image-ReadsAt p out image (omega (arith, length-append before out)) fits

-- If encode_log_data_into writes the entries into an empty buffer, the bytes stay below 4 GiB and
-- every timestamp is below 2^64, then a reader of the format finds in the bytes a vector with one
-- table for each entry, in order, and in each table the entry's type, session, level, timestamp,
-- source, service and payload.
pub log_data_round_trip :
    (entries : List LogEntryParams) (range : ℕ × ℕ) (out : List ℕ)
    → encode_log_data_into entries [] ≡ done range out
    → All (λ p. p.timestamp < 2 ^ 64) entries
    → length out < 2 ^ 32
    → ReadsAll ReadsAt entries out
log_data_round_trip =
    data_into_ReadsAll encode_log_entry_into log_bytes encode_log_entry-Places
      (λ p. p.timestamp < 2 ^ 64) ReadsAt (λ p. omega (arith, log-root p, long p))
      (λ p before after fits _ small. log_anywhere p before after fits small)
  where
    long : (p : LogEntryParams) → 24 ≤ length (log_bytes p)
    long p =
        subst (λ xs. 24 ≤ length xs) (sym (log_bytes-Image p).whole)
          (unfold le_bytes in omega arith)
