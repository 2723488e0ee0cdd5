-- ===== src/Encoding/Event/RoundTrip.antt =====
-- A reader finds in an event of crates/tell-encoding/src/event.rs what was put into it.
use tell_rs.Prelude.{
  ℕ, ◌+◌, ◌^◌, ◌<◌, ◌≡◌, refl, ap, subst, sym, ◌∙◌, Option, some, List, ◌++◌, length, done,
  length-append, arith,
}
use tell_rs.Bytes.{le_bytes}
use tell_rs.Encoding.Reader.{scalar_field, vector_field, target_at}
use tell_rs.Encoding.Event.{EventParams, as_u8, encode_event}
use tell_rs.Encoding.Event.Head.{
  Head, head_bytes, read_device, read_session, read_service, read_name, read_payload, at_24,
  read_kind, read_time,
}
use tell_rs.Encoding.Event.Image.{complete, event-Image, Image}

-- What a reader finds in the table at that position.
abbrev pub ReadsAt : ℕ → EventParams → List ℕ → Type 0
ReadsAt table p buf =
    (scalar_field 1 table 0 buf ≡ some (as_u8 p.event_type))
    × (scalar_field 8 table 1 buf ≡ some p.timestamp)
    × (vector_field table 2 buf ≡ p.service)
    × (vector_field table 3 buf ≡ p.device_id)
    × (vector_field table 4 buf ≡ p.session_id)
    × (vector_field table 5 buf ≡ p.event_name)
    × (vector_field table 6 buf ≡ p.payload)

-- In the table to which the buffer's first word leads.
abbrev pub Reads : EventParams → List ℕ → Type 0
Reads p buf = ReadsAt (target_at 0 buf) p buf

length-image :
    (p : EventParams) (d s c n q : Option ℕ) (t : List ℕ)
    → length (head_bytes (complete p d s c n q) ++ t) ≡ 60 + length t
unfolding le_bytes
length-image p d s c n q t = length-append (head_bytes (complete p d s c n q)) t

pub Image-ReadsAt :
    (p : EventParams) (out : List ℕ)
    → Image p out
    → length out < 2 ^ 32
    → p.timestamp < 2 ^ 64
    → ReadsAt 24 p out
Image-ReadsAt p out i small fits = subst (ReadsAt 24 p) (sym i.whole) (
  read_kind g i.t,
  read_time g i.t fits,
  read_service g i.t i.c p.service i.service within,
  read_device g i.t i.d p.device_id i.device within,
  read_session g i.t i.s p.session_id i.session within,
  read_name g i.t i.n p.event_name i.name within,
  read_payload g i.t i.q p.payload i.payload within,
)
  where
    g : Head
    g = complete p i.d i.s i.c i.n i.q

    within : 60 + length i.t < 2 ^ 32
    within = omega (arith, ap length i.whole, length-image p i.d i.s i.c i.n i.q i.t)

Image-root : (p : EventParams) (out : List ℕ) → Image p out → target_at 0 out ≡ 24
Image-root p out i = ap (target_at 0) i.whole ∙ at_24 (complete p i.d i.s i.c i.n i.q) i.t refl

Image-Reads :
    (p : EventParams) (out : List ℕ)
    → Image p out
    → length out < 2 ^ 32
    → p.timestamp < 2 ^ 64
    → Reads p out
Image-Reads p out i small fits =
    subst (λ (table : ℕ). ReadsAt table p out) (sym (Image-root p out i))
      (Image-ReadsAt p out i small fits)

-- In the bytes that encode_event gives, if they are below 4 GiB and the timestamp below 2^64, a
-- reader of the format finds the type, the timestamp, and the service, device, session, name and
-- payload, each with its bytes or absent as in the parameters.
pub event_round_trip :
    (p : EventParams) (out : List ℕ)
    → encode_event p ≡ done tt out
    → length out < 2 ^ 32
    → p.timestamp < 2 ^ 64
    → Reads p out
event_round_trip p out e small fits =
    let (out', e', image) = event-Image p in
    Image-Reads p out (subst (Image p) (same out' e') image) small fits
  where
    same : (out' : List ℕ) → encode_event p ≡ done tt out' → out' ≡ out
    same out' e' = cc (e, e')
