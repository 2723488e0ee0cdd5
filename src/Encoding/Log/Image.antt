-- ===== src/Encoding/Log/Image.antt =====
-- What `encode_log_entry` of crates/tell-encoding/src/log.rs leaves: the table and the sections behind it.
use tell_rs.Prelude.{
  ℕ, ◌≡◌, refl, ◌∙◌, if◌then◌else◌, Option, none, some, List, [], ◌∷◌, ◌++◌, replicate, done, ◌>>=◌,
  ◌>>◌, running,
}
use tell_rs.Bytes.{le_bytes}
use tell_rs.Encoding.Helpers.{
  Write, write_byte_vector, write_string, align4, optionally, put_u32, patch_present, is_some,
  overwrite,
}
use tell_rs.Encoding.Helpers.Sections.{
  Stands, Stands-append, vector-Writes, string-Writes, place_section,
}
use tell_rs.Encoding.Helpers.Fields.{distance}
use tell_rs.Encoding.Log.{
  LogEntryParams, log_type_as_u8, level_as_u8, encode_log_entry, encode_log_entry_steps,
}

-- The first 56 bytes: the root offset, and the words that lead to the session, the source, the
-- service and the payload.
abbrev pub log_head : LogEntryParams → ℕ → ℕ → ℕ → ℕ → ℕ → List ℕ
log_head p root s o c q =
    le_bytes 4 root
    ++ le_bytes 2 18
    ++ le_bytes 2 32
    ++ le_bytes 2 28
    ++ le_bytes 2 (if is_some p.session_id then 4 else 0)
    ++ le_bytes 2 29
    ++ le_bytes 2 20
    ++ le_bytes 2 (if is_some p.source then 8 else 0)
    ++ le_bytes 2 (if is_some p.service then 12 else 0)
    ++ le_bytes 2 (if is_some p.payload then 16 else 0)
    ++ replicate 2 0
    ++ le_bytes 4 20
    ++ le_bytes 4 s
    ++ le_bytes 4 o
    ++ le_bytes 4 c
    ++ le_bytes 4 q
    ++ le_bytes 8 p.timestamp
    ++ log_type_as_u8 p.event_type ∷ []
    ++ level_as_u8 p.level ∷ []
    ++ replicate 2 0

module _ (p : LogEntryParams) where
  abbrev fill : Option ℕ → Option ℕ → Option ℕ → Option ℕ → Write Unit
  fill s o c q = do
    put_u32 0 24
    patch_present 28 s
    patch_present 32 o
    patch_present 36 c
    patch_present 40 q

  abbrev from_payload : Option ℕ → Option ℕ → Option ℕ → Write Unit
  from_payload s o c = align4 >> (optionally p.payload write_byte_vector >>= fill s o c)

  abbrev from_service : Option ℕ → Option ℕ → Write Unit
  from_service s o = align4 >> (optionally p.service write_string >>= from_payload s o)

  abbrev from_source : Option ℕ → Write Unit
  from_source s = align4 >> (optionally p.source write_string >>= from_service s)

  abbrev from_session : Write Unit
  from_session = align4 >> (optionally p.session_id write_byte_vector >>= from_source)

  encode_log_entry-head : encode_log_entry p ≡ from_session (log_head p 0 0 0 0 0 ++ [])
  unfolding encode_log_entry encode_log_entry_steps le_bytes
  encode_log_entry-head = refl

  module _ (t : List ℕ) where
    root_filled : put_u32 0 24 (log_head p 0 0 0 0 0 ++ t) ≡ done tt (log_head p 24 0 0 0 0 ++ t)
    unfolding le_bytes overwrite
    root_filled = refl

    session_filled :
        (s : Option ℕ)
        → patch_present 28 s (log_head p 24 0 0 0 0 ++ t)
          ≡ done tt (log_head p 24 (distance s 28) 0 0 0 ++ t)
    unfolding le_bytes overwrite
    session_filled none = refl
    session_filled (some start) = refl

    source_filled :
        (a : ℕ) (o : Option ℕ)
        → patch_present 32 o (log_head p 24 a 0 0 0 ++ t)
          ≡ done tt (log_head p 24 a (distance o 32) 0 0 ++ t)
    unfolding le_bytes overwrite
    source_filled a none = refl
    source_filled a (some start) = refl

    service_filled :
        (a b : ℕ) (c : Option ℕ)
        → patch_present 36 c (log_head p 24 a b 0 0 ++ t)
          ≡ done tt (log_head p 24 a b (distance c 36) 0 ++ t)
    unfolding le_bytes overwrite
    service_filled a b none = refl
    service_filled a b (some start) = refl

    payload_filled :
        (a b c : ℕ) (q : Option ℕ)
        → patch_present 40 q (log_head p 24 a b c 0 ++ t)
          ≡ done tt (log_head p 24 a b c (distance q 40) ++ t)
    unfolding le_bytes overwrite
    payload_filled a b c none = refl
    payload_filled a b c (some start) = refl

    fill_lem :
        (s o c q : Option ℕ)
        → fill s o c q (log_head p 0 0 0 0 0 ++ t)
          ≡ done tt
              (log_head p 24 (distance s 28) (distance o 32) (distance c 36) (distance q 40) ++ t)
    fill_lem s o c q =
        rw
          (
            running,
            root_filled,
            session_filled s,
            source_filled (distance s 28) o,
            service_filled (distance s 28) (distance o 32) c,
          )
          (payload_filled (distance s 28) (distance o 32) (distance c 36) q)

-- What the encoder leaves: the head, and every section in its place.
pub record Image (p : LogEntryParams) (out : List ℕ) : Type 0 where
  pub s : Option ℕ
  pub o : Option ℕ
  pub c : Option ℕ
  pub q : Option ℕ
  pub t : List ℕ
  pub whole :
      out ≡ log_head p 24 (distance s 28) (distance o 32) (distance c 36) (distance q 40) ++ t
  pub session : Stands 56 t s p.session_id
  pub source : Stands 56 t o p.source
  pub service : Stands 56 t c p.service
  pub payload : Stands 56 t q p.payload

pub log-Image :
    (p : LogEntryParams) → (out : List ℕ) × (encode_log_entry p ≡ done tt out) × Image p out
unfolding le_bytes
log-Image p =
    let h = log_head p 0 0 0 0 0 in
    let (s, t1, e1, at1) =
      place_section h write_byte_vector [] vector-Writes (from_source p) p.session_id [] in
    let (o, t2, e2, at2) =
      place_section h write_string (0 ∷ []) string-Writes (from_service p s) p.source t1 in
    let (c, t3, e3, at3) =
      place_section h write_string (0 ∷ []) string-Writes (from_payload p s o) p.service
        (t1 ++ t2) in
    let (q, t4, e4, at4) =
      place_section h write_byte_vector [] vector-Writes (fill p s o c) p.payload
        (t1 ++ t2 ++ t3) in
    let t = t1 ++ t2 ++ t3 ++ t4 in
    (
      log_head p 24 (distance s 28) (distance o 32) (distance c 36) (distance q 40) ++ t,
      encode_log_entry-head p ∙ e1 ∙ e2 ∙ e3 ∙ e4 ∙ fill_lem p t s o c q,
      record {
        s = s;
        o = o;
        c = c;
        q = q;
        t = t;
        whole = refl;
        session = Stands-append t4 (Stands-append t3 (Stands-append t2 at1));
        source = Stands-append t4 (Stands-append t3 at2);
        service = Stands-append t4 at3;
        payload = at4;
      },
    )
