-- ===== src/Encoding/Event/Image.antt =====
-- What `encode_event` of crates/tell-encoding/src/event.rs leaves: the head and the sections behind it.
use tell_rs.Prelude.{ℕ, ◌≡◌, refl, ◌∙◌, Option, List, [], ◌∷◌, ◌++◌, done, ◌>>=◌, ◌>>◌, running}
use tell_rs.Bytes.{le_bytes}
use tell_rs.Encoding.Helpers.{
  Write, write_byte_vector, write_string, align4, optionally, put_u32, patch_present,
}
use tell_rs.Encoding.Helpers.Sections.{
  Stands, Stands-append, vector-Writes, string-Writes, place_section,
}
use tell_rs.Encoding.Helpers.Fields.{distance}
use tell_rs.Encoding.Event.{EventParams, encode_event, encode_event_steps}
use tell_rs.Encoding.Event.Head.{
  Head, head_bytes, blank, put_root, patch_device, patch_session, patch_service, patch_name,
  patch_payload,
}

-- The rest of the encoder, from each section on.
abbrev fill : Option ℕ → Option ℕ → Option ℕ → Option ℕ → Option ℕ → Write Unit
fill d s c n q = do
  put_u32 0 24
  patch_present 28 d
  patch_present 32 s
  patch_present 56 c
  patch_present 36 n
  patch_present 40 q

abbrev from_payload : EventParams → Option ℕ → Option ℕ → Option ℕ → Option ℕ → Write Unit
from_payload p d s c n = align4 >> (optionally p.payload write_byte_vector >>= fill d s c n)

abbrev from_name : EventParams → Option ℕ → Option ℕ → Option ℕ → Write Unit
from_name p d s c = align4 >> (optionally p.event_name write_string >>= from_payload p d s c)

abbrev from_service : EventParams → Option ℕ → Option ℕ → Write Unit
from_service p d s = align4 >> (optionally p.service write_string >>= from_name p d s)

abbrev from_session : EventParams → Option ℕ → Write Unit
from_session p d = align4 >> (optionally p.session_id write_byte_vector >>= from_service p d)

abbrev from_device : EventParams → Write Unit
from_device p = align4 >> (optionally p.device_id write_byte_vector >>= from_session p)

encode_event-blank : (p : EventParams) → encode_event p ≡ from_device p (head_bytes (blank p) ++ [])
unfolding encode_event encode_event_steps le_bytes
encode_event-blank p = refl

-- The head when all the sections have their places.
abbrev pub complete : EventParams → Option ℕ → Option ℕ → Option ℕ → Option ℕ → Option ℕ → Head
complete p d s c n q = record (blank p) {
  root = 24;
  o_device = distance d 28;
  o_session = distance s 32;
  o_service = distance c 56;
  o_name = distance n 36;
  o_payload = distance q 40;
}

done_then :
    (m : Write Unit) (k : Write Unit) (buf out : List ℕ)
    → m buf ≡ done tt out
    → (m >> k) buf ≡ k out
done_then m k buf out e = rw (running, e)

module _ (p : EventParams) (d s c n q : Option ℕ) (t : List ℕ) where
  abbrev rooted : Head
  rooted = record (blank p) { root = 24 }

  fill_lem :
      fill d s c n q (head_bytes (blank p) ++ t) ≡ done tt (head_bytes (complete p d s c n q) ++ t)
  fill_lem =
      done_then (put_u32 0 24)
        (patch_present 28 d
          >> (patch_present 32 s
              >> (patch_present 56 c >> (patch_present 36 n >> patch_present 40 q))))
        _ _ (put_root (blank p) t)
      ∙ done_then (patch_present 28 d)
          (patch_present 32 s >> (patch_present 56 c >> (patch_present 36 n >> patch_present 40 q)))
          _ _ (patch_device rooted t d refl)
      ∙ done_then (patch_present 32 s)
          (patch_present 56 c >> (patch_present 36 n >> patch_present 40 q)) _ _
          (patch_session (record rooted { o_device = distance d 28 }) t s refl)
      ∙ done_then (patch_present 56 c) (patch_present 36 n >> patch_present 40 q) _ _ (
          patch_service (record rooted { o_device = distance d 28; o_session = distance s 32 }) t c
            refl)
      ∙ done_then (patch_present 36 n) (patch_present 40 q) _ _ (
          patch_name
            (record rooted {
              o_device = distance d 28;
              o_session = distance s 32;
              o_service = distance c 56;
            })
            t n refl)
      ∙ patch_payload
          (record rooted {
            o_device = distance d 28;
            o_session = distance s 32;
            o_service = distance c 56;
            o_name = distance n 36;
          })
          t q refl

-- What the encoder leaves: the head, and every section in its place.
pub record Image (p : EventParams) (out : List ℕ) : Type 0 where
  pub d : Option ℕ
  pub s : Option ℕ
  pub c : Option ℕ
  pub n : Option ℕ
  pub q : Option ℕ
  pub t : List ℕ
  pub whole : out ≡ head_bytes (complete p d s c n q) ++ t
  pub device : Stands 60 t d p.device_id
  pub session : Stands 60 t s p.session_id
  pub service : Stands 60 t c p.service
  pub name : Stands 60 t n p.event_name
  pub payload : Stands 60 t q p.payload

pub event-Image : (p : EventParams) → (out : List ℕ) × (encode_event p ≡ done tt out) × Image p out
unfolding le_bytes
event-Image p =
    let h = head_bytes (blank p) in
    let (d, t1, e1, at1) =
      place_section h write_byte_vector [] vector-Writes (from_session p) p.device_id [] in
    let (s, t2, e2, at2) =
      place_section h write_byte_vector [] vector-Writes (from_service p d) p.session_id t1 in
    let (c, t3, e3, at3) =
      place_section h write_string (0 ∷ []) string-Writes (from_name p d s) p.service (t1 ++ t2) in
    let (n, t4, e4, at4) =
      place_section h write_string (0 ∷ []) string-Writes (from_payload p d s c) p.event_name
        (t1 ++ t2 ++ t3) in
    let (q, t5, e5, at5) =
      place_section h write_byte_vector [] vector-Writes (fill d s c n) p.payload
        (t1 ++ t2 ++ t3 ++ t4) in
    (
      head_bytes (complete p d s c n q) ++ (t1 ++ t2 ++ t3 ++ t4 ++ t5),
      encode_event-blank p
          ∙ e1
          ∙ e2
          ∙ e3
          ∙ e4
          ∙ e5
          ∙ fill_lem p d s c n q (t1 ++ t2 ++ t3 ++ t4 ++ t5),
      record {
        d = d;
        s = s;
        c = c;
        n = n;
        q = q;
        t = t1 ++ t2 ++ t3 ++ t4 ++ t5;
        whole = refl;
        device = Stands-append t5 (Stands-append t4 (Stands-append t3 (Stands-append t2 at1)));
        session = Stands-append t5 (Stands-append t4 (Stands-append t3 at2));
        service = Stands-append t5 (Stands-append t4 at3);
        name = Stands-append t5 at4;
        payload = at5;
      },
    )
