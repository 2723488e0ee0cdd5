-- ===== src/Encoding/Event/Head.antt =====
-- The first 60 bytes of an event of crates/tell-encoding/src/event.rs: how its offsets are filled in, and
-- what a reader finds there.
use tell_rs.Prelude.{
  ℕ, ◌+◌, ◌^◌, ◌<◌, ◌≡◌, refl, ap, Option, none, some, List, [], ◌∷◌, ◌++◌, length, replicate, done,
  if◌then◌else◌, arith,
}
use tell_rs.Bytes.{le_bytes, from_le_bytes, from_le_bytes-u64}
use tell_rs.Encoding.Helpers.{is_some, put_u32, patch_present, overwrite}
use tell_rs.Encoding.Helpers.Sections.{Stands}
use tell_rs.Encoding.Helpers.Fields.{distance, section_read}
use tell_rs.Encoding.Reader.{field_at, scalar_field, vector_field, target_at}
use tell_rs.Encoding.Event.{EventParams, as_u8}

-- The numbers in the first 60 bytes of an event: type and time, the places in the vtable, the root
-- offset, and the distances in the table.
pub record Head : Type 0 where
  pub kind : ℕ
  pub time : ℕ
  pub v_service : ℕ
  pub v_device : ℕ
  pub v_session : ℕ
  pub v_name : ℕ
  pub v_payload : ℕ
  pub root : ℕ
  pub o_device : ℕ
  pub o_session : ℕ
  pub o_name : ℕ
  pub o_payload : ℕ
  pub o_service : ℕ

abbrev pub head_bytes : Head → List ℕ
head_bytes g =
    le_bytes 4 g.root
    ++ le_bytes 2 18
    ++ le_bytes 2 36
    ++ le_bytes 2 28
    ++ le_bytes 2 20
    ++ le_bytes 2 g.v_service
    ++ le_bytes 2 g.v_device
    ++ le_bytes 2 g.v_session
    ++ le_bytes 2 g.v_name
    ++ le_bytes 2 g.v_payload
    ++ replicate 2 0
    ++ le_bytes 4 20
    ++ le_bytes 4 g.o_device
    ++ le_bytes 4 g.o_session
    ++ le_bytes 4 g.o_name
    ++ le_bytes 4 g.o_payload
    ++ le_bytes 8 g.time
    ++ g.kind ∷ []
    ++ replicate 3 0
    ++ le_bytes 4 g.o_service

-- What is written before the sections.
abbrev pub blank : EventParams → Head
blank p = record {
  kind = as_u8 p.event_type;
  time = p.timestamp;
  v_service = if is_some p.service then 32 else 0;
  v_device = if is_some p.device_id then 4 else 0;
  v_session = if is_some p.session_id then 8 else 0;
  v_name = if is_some p.event_name then 12 else 0;
  v_payload = if is_some p.payload then 16 else 0;
  root = 0;
  o_device = 0;
  o_session = 0;
  o_name = 0;
  o_payload = 0;
  o_service = 0;
}

pub patch_device :
    (g : Head) (t : List ℕ) (o : Option ℕ)
    → g.o_device ≡ 0
    → patch_present 28 o (head_bytes g ++ t)
      ≡ done tt (head_bytes (record g { o_device = distance o 28 }) ++ t)
unfolding le_bytes overwrite
patch_device g t none e = ap (λ n. done tt (head_bytes (record g { o_device = n }) ++ t)) e
patch_device g t (some start) e = refl

pub patch_session :
    (g : Head) (t : List ℕ) (o : Option ℕ)
    → g.o_session ≡ 0
    → patch_present 32 o (head_bytes g ++ t)
      ≡ done tt (head_bytes (record g { o_session = distance o 32 }) ++ t)
unfolding le_bytes overwrite
patch_session g t none e = ap (λ n. done tt (head_bytes (record g { o_session = n }) ++ t)) e
patch_session g t (some start) e = refl

pub patch_service :
    (g : Head) (t : List ℕ) (o : Option ℕ)
    → g.o_service ≡ 0
    → patch_present 56 o (head_bytes g ++ t)
      ≡ done tt (head_bytes (record g { o_service = distance o 56 }) ++ t)
unfolding le_bytes overwrite
patch_service g t none e = ap (λ n. done tt (head_bytes (record g { o_service = n }) ++ t)) e
patch_service g t (some start) e = refl

pub patch_name :
    (g : Head) (t : List ℕ) (o : Option ℕ)
    → g.o_name ≡ 0
    → patch_present 36 o (head_bytes g ++ t)
      ≡ done tt (head_bytes (record g { o_name = distance o 36 }) ++ t)
unfolding le_bytes overwrite
patch_name g t none e = ap (λ n. done tt (head_bytes (record g { o_name = n }) ++ t)) e
patch_name g t (some start) e = refl

pub patch_payload :
    (g : Head) (t : List ℕ) (o : Option ℕ)
    → g.o_payload ≡ 0
    → patch_present 40 o (head_bytes g ++ t)
      ≡ done tt (head_bytes (record g { o_payload = distance o 40 }) ++ t)
unfolding le_bytes overwrite
patch_payload g t none e = ap (λ n. done tt (head_bytes (record g { o_payload = n }) ++ t)) e
patch_payload g t (some start) e = refl

pub put_root :
    (g : Head) (t : List ℕ)
    → put_u32 0 24 (head_bytes g ++ t) ≡ done tt (head_bytes (record g { root = 24 }) ++ t)
unfolding le_bytes overwrite
put_root g t = refl

abbrev pub with_device : Head → Option ℕ → Option (List ℕ) → Head
with_device g o b = record g { v_device = if is_some b then 4 else 0; o_device = distance o 28 }

pub read_device :
    (g : Head) (t : List ℕ) (o : Option ℕ) (b : Option (List ℕ))
    → Stands 60 t o b
    → 60 + length t < 2 ^ 32
    → vector_field 24 3 (head_bytes (with_device g o b) ++ t) ≡ b
unfolding field_at le_bytes from_le_bytes
read_device g t o b stands small =
    section_read (head_bytes (with_device g o b)) t o b 24 3 4 stands small (omega arith)
      (omega arith) (omega arith) refl refl

abbrev pub with_session : Head → Option ℕ → Option (List ℕ) → Head
with_session g o b = record g { v_session = if is_some b then 8 else 0; o_session = distance o 32 }

pub read_session :
    (g : Head) (t : List ℕ) (o : Option ℕ) (b : Option (List ℕ))
    → Stands 60 t o b
    → 60 + length t < 2 ^ 32
    → vector_field 24 4 (head_bytes (with_session g o b) ++ t) ≡ b
unfolding field_at le_bytes from_le_bytes
read_session g t o b stands small =
    section_read (head_bytes (with_session g o b)) t o b 24 4 8 stands small (omega arith)
      (omega arith) (omega arith) refl refl

abbrev pub with_service : Head → Option ℕ → Option (List ℕ) → Head
with_service g o b = record g { v_service = if is_some b then 32 else 0; o_service = distance o 56 }

pub read_service :
    (g : Head) (t : List ℕ) (o : Option ℕ) (b : Option (List ℕ))
    → Stands 60 t o b
    → 60 + length t < 2 ^ 32
    → vector_field 24 2 (head_bytes (with_service g o b) ++ t) ≡ b
unfolding field_at le_bytes from_le_bytes
read_service g t o b stands small =
    section_read (head_bytes (with_service g o b)) t o b 24 2 32 stands small (omega arith)
      (omega arith) (omega arith) refl refl

abbrev pub with_name : Head → Option ℕ → Option (List ℕ) → Head
with_name g o b = record g { v_name = if is_some b then 12 else 0; o_name = distance o 36 }

pub read_name :
    (g : Head) (t : List ℕ) (o : Option ℕ) (b : Option (List ℕ))
    → Stands 60 t o b
    → 60 + length t < 2 ^ 32
    → vector_field 24 5 (head_bytes (with_name g o b) ++ t) ≡ b
unfolding field_at le_bytes from_le_bytes
read_name g t o b stands small =
    section_read (head_bytes (with_name g o b)) t o b 24 5 12 stands small (omega arith)
      (omega arith) (omega arith) refl refl

abbrev pub with_payload : Head → Option ℕ → Option (List ℕ) → Head
with_payload g o b = record g { v_payload = if is_some b then 16 else 0; o_payload = distance o 40 }

pub read_payload :
    (g : Head) (t : List ℕ) (o : Option ℕ) (b : Option (List ℕ))
    → Stands 60 t o b
    → 60 + length t < 2 ^ 32
    → vector_field 24 6 (head_bytes (with_payload g o b) ++ t) ≡ b
unfolding field_at le_bytes from_le_bytes
read_payload g t o b stands small =
    section_read (head_bytes (with_payload g o b)) t o b 24 6 16 stands small (omega arith)
      (omega arith) (omega arith) refl refl

module _ (g : Head) (t : List ℕ) where
  pub at_24 : g.root ≡ 24 → target_at 0 (head_bytes g ++ t) ≡ 24
  unfolding le_bytes from_le_bytes
  at_24 e = rw e

  pub read_kind : scalar_field 1 24 0 (head_bytes g ++ t) ≡ some g.kind
  unfolding scalar_field field_at le_bytes from_le_bytes
  read_kind = ap some (omega arith)

  pub read_time : g.time < 2 ^ 64 → scalar_field 8 24 1 (head_bytes g ++ t) ≡ some g.time
  unfolding scalar_field field_at le_bytes from_le_bytes
  read_time small = ap some (from_le_bytes-u64 g.time small)
