-- ===== src/Encoding/Event/Data.antt =====
-- A reader finds in the data that `encode_event_data_into` of crates/tell-encoding/src/event.rs gives the
-- events that were put into it, in order.
use tell_rs.Prelude.{
  ℕ, ◌+◌, ◌^◌, ◌<◌, ◌≤◌, ◌≡◌, refl, ap, sym, ◌∙◌, subst, List, [], ◌++◌, length, take, done, final,
  append_assoc, length-append, arith, All,
}
use tell_rs.Bytes.{le_bytes, from_le_bytes}
use tell_rs.Encoding.Helpers.Sections.{Stands-append}
use tell_rs.Encoding.Reader.{word_at}
use tell_rs.Encoding.Reader.Behind.{scalar_behind, vector_behind}
use tell_rs.Encoding.Vector.{root_offset}
use tell_rs.Encoding.Vector.Same.{root_offset_lem}
use tell_rs.Encoding.Vector.RoundTrip.{ReadsAll, data_into_ReadsAll}
use tell_rs.Encoding.Event.{EventParams, encode_event_into, encode_event_data_into}
use tell_rs.Encoding.Event.Head.{head_bytes}
use tell_rs.Encoding.Event.Image.{Image, complete, event-Image}
use tell_rs.Encoding.Event.RoundTrip.{ReadsAt, Image-ReadsAt}
use tell_rs.Encoding.Event.Into.{event_bytes, encode_event-Places}

event_bytes-Image : (p : EventParams) → Image p (event_bytes p)
event_bytes-Image p = let (out, e, i) = event-Image p in subst (Image p) (sym (ap final e)) i

Image-append :
    {p : EventParams} {out : List ℕ} (more : List ℕ) → Image p out → Image p (out ++ more)
Image-append {p} more i = record {
  d = i.d;
  s = i.s;
  c = i.c;
  n = i.n;
  q = i.q;
  t = i.t ++ more;
  whole =
      ap (λ out. out ++ more) i.whole
      ∙ append_assoc (head_bytes (complete p i.d i.s i.c i.n i.q)) i.t more;
  device = Stands-append more i.device;
  session = Stands-append more i.session;
  service = Stands-append more i.service;
  name = Stands-append more i.name;
  payload = Stands-append more i.payload;
}

Image-back : (p : EventParams) (out : List ℕ) → Image p out → word_at 4 24 out ≤ 24
unfolding le_bytes from_le_bytes
Image-back p out i = subst (λ out. word_at 4 24 out ≤ 24) (sym i.whole) (omega arith)

event-root : (p : EventParams) → root_offset (event_bytes p) ≡ 24
unfolding le_bytes from_le_bytes
event-root p =
    root_offset_lem (event_bytes p) (encode_event-Places p [] refl).0
    ∙ ap (λ xs. from_le_bytes (take 4 xs)) (event_bytes-Image p).whole

-- Wherever the event stands.
event_anywhere :
    (p : EventParams) (before after : List ℕ)
    → p.timestamp < 2 ^ 64
    → length (before ++ (event_bytes p ++ after)) < 2 ^ 32
    → ReadsAt (length before + root_offset (event_bytes p)) p (before ++ (event_bytes p ++ after))
event_anywhere p before after fits small =
    subst (λ (root : ℕ). ReadsAt (length before + root) p (before ++ out)) (sym (event-root p))
      (
        scalar_behind before out 24 back 1 0 ∙ r.0,
        scalar_behind before out 24 back 8 1 ∙ r.1,
        vector_behind before out 24 back 2 ∙ r.2,
        vector_behind before out 24 back 3 ∙ r.3,
        vector_behind before out 24 back 4 ∙ r.4,
        vector_behind before out 24 back 5 ∙ r.5,
        vector_behind before out 24 back 6 ∙ r.6,
      )
  where
    out : List ℕ
    out = event_bytes p ++ after

    image : Image p out
    image = Image-append after (event_bytes-Image p)

    back : word_at 4 24 out ≤ 24
    back = Image-back p out image

    r : ReadsAt 24 p out
    r = Image-ReadsAt p out image (omega (arith, length-append before out)) fits

-- If encode_event_data_into writes the events into an empty buffer, the bytes stay below 4 GiB and
-- every timestamp is below 2^64, then a reader of the format finds in the bytes a vector with one
-- table for each event, in order, and in each table the event's type, timestamp, service, device,
-- session, name and payload.
pub event_data_round_trip :
    (events : List EventParams) (range : ℕ × ℕ) (out : List ℕ)
    → encode_event_data_into events [] ≡ done range out
    → All (λ p. p.timestamp < 2 ^ 64) events
    → length out < 2 ^ 32
    → ReadsAll ReadsAt events out
event_data_round_trip =
    data_into_ReadsAll encode_event_into event_bytes encode_event-Places (λ p. p.timestamp < 2 ^ 64)
      ReadsAt (λ p. omega (arith, event-root p, (encode_event-Places p [] refl).0, long p))
      (λ p before after fits _ small. event_anywhere p before after fits small)
  where
    long : (p : EventParams) → 24 ≤ length (event_bytes p)
    long p =
        subst (λ xs. 24 ≤ length xs) (sym (event_bytes-Image p).whole)
          (unfold le_bytes in omega arith)
