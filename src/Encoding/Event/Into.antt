-- ===== src/Encoding/Event/Into.antt =====
-- `encode_event_into` of crates/tell-encoding/src/event.rs against `encode_event`: the copy that
-- writes into a buffer in use puts the same bytes behind what is there.
use tell_rs.Prelude.{
  ℕ, zero, ◌-◌, ◌%◌, ◌≤◌, ◌≡◌, refl, List, [], ◌∷◌, ◌++◌, length, map, replicate, ◌>>=◌, ◌>>◌,
  if◌then◌else◌, done, final, arith, append-nil, ap, sym, ◌∙◌, Succeeds, length-append,
}
use tell_rs.Bytes.{le_bytes}
use tell_rs.Encoding.Helpers.{
  position, extend, write_u16, write_u32, write_u64, write_i32, Write, is_some, write_byte_vector,
  write_string, align4, optionally, put_u32, patch_present,
}
use tell_rs.Encoding.Helpers.Shift.{Shifts, AnyUnit, Later, Moved-done}
use tell_rs.Encoding.Helpers.Then.{shifting, then_position, then_extend, then_distance}
use tell_rs.Encoding.Vector.Same.{Places}
use tell_rs.Encoding.Vector.Total.{encode_data_into_lem}
use tell_rs.Encoding.Event.Head.{head_bytes}
use tell_rs.Encoding.Event.Image.{complete, event-Image}
use tell_rs.Encoding.Event.{
  EventParams, as_u8, encode_event, encode_event_steps, encode_event_into, encode_event_data,
  encode_event_data_into,
}

-- The two copies of the encoder agree on an empty buffer.
encode_event_into_empty : (p : EventParams) → encode_event_into p [] ≡ encode_event p
unfolding encode_event encode_event_steps encode_event_into le_bytes
encode_event_into_empty p = refl

-- What encode_event_into does behind its table: where the record starts, its table, and the words
-- for the sections.
abbrev sections : EventParams → ℕ → ℕ → ℕ → ℕ → ℕ → ℕ → ℕ → Write Unit
sections p root table device session name payload service = do
  align4
  d ← optionally p.device_id write_byte_vector
  align4
  s ← optionally p.session_id write_byte_vector
  align4
  c ← optionally p.service write_string
  align4
  n ← optionally p.event_name write_string
  align4
  q ← optionally p.payload write_byte_vector
  put_u32 root (table - root)
  patch_present device d
  patch_present session s
  patch_present service c
  patch_present name n
  patch_present payload q

sections-Shifts :
    (pre : List ℕ) (p : EventParams) (r r' t t' d d' s s' n n' q q' c c' : ℕ)
    → length pre % 4 ≡ 0
    → Later pre r r'
    → Later pre t t'
    → Later pre d d'
    → Later pre s s'
    → Later pre n n'
    → Later pre q q'
    → Later pre c c'
    → Shifts pre (AnyUnit pre) (sections p r t d s n q c) (sections p r' t' d' s' n' q' c')
sections-Shifts pre p r r' t t' d d' s s' n n' q q' c c' aligned er et ed es en eq ec =
    search shifting depth 30

-- What encode_event_into does before that; `k` goes on with the places.
abbrev table_first : EventParams → (ℕ → ℕ → ℕ → ℕ → ℕ → ℕ → ℕ → Write Unit) → Write Unit
table_first p k = do
  r ← position
  extend (replicate 4 0)
  v ← position
  write_u16 18
  write_u16 36
  write_u16 28
  write_u16 20
  write_u16 (if is_some p.service then 32 else 0)
  write_u16 (if is_some p.device_id then 4 else 0)
  write_u16 (if is_some p.session_id then 8 else 0)
  write_u16 (if is_some p.event_name then 12 else 0)
  write_u16 (if is_some p.payload then 16 else 0)
  extend (replicate 2 0)
  t ← position
  write_i32 (t - v)
  d ← position
  write_u32 0
  s ← position
  write_u32 0
  n ← position
  write_u32 0
  q ← position
  write_u32 0
  write_u64 p.timestamp
  extend (as_u8 p.event_type ∷ [])
  extend (replicate 3 0)
  c ← position
  write_u32 0
  k r t d s n q c

table_first-Shifts :
    (pre : List ℕ) (p : EventParams) (k : ℕ → ℕ → ℕ → ℕ → ℕ → ℕ → ℕ → Write Unit)
    → ((r r' t t' d d' s s' n n' q q' c c' : ℕ)
        → Later pre r r'
        → Later pre t t'
        → Later pre d d'
        → Later pre s s'
        → Later pre n n'
        → Later pre q q'
        → Later pre c c'
        → Shifts pre (AnyUnit pre) (k r t d s n q c) (k r' t' d' s' n' q' c'))
    → Shifts pre (AnyUnit pre) (table_first p k) (table_first p k)
table_first-Shifts pre p k h = search (then_position, then_extend, then_distance) depth 60

encode_event_into-Shifts :
    (pre : List ℕ) (p : EventParams)
    → length pre % 4 ≡ 0
    → Shifts pre (AnyUnit pre) (encode_event_into p) (encode_event_into p)
unfolding encode_event_into
encode_event_into-Shifts pre p aligned =
    table_first-Shifts pre p (sections p) (λ r r' t t' d d' s s' n n' q q' c c'.
      sections-Shifts pre p r r' t t' d d' s s' n n' q q' c c' aligned)

-- The encoder never panics.
encode_event_total : (p : EventParams) → Succeeds (encode_event p) (λ _ out. 60 ≤ length out)
unfolding le_bytes
encode_event_total p =
    let (out, e, i) = event-Image p in
    (
      tt,
      out,
      e,
      omega (
        arith,
        ap length i.whole,
        length-append (head_bytes (complete p i.d i.s i.c i.n i.q)) i.t,
      ),
    )

-- encode_event does not panic and gives 60 bytes or more; in a buffer whose length is a multiple of
-- four, encode_event_into puts exactly these bytes behind what is there.
pub encode_event_into_lem :
    (p : EventParams) (buf : List ℕ)
    → length buf % 4 ≡ 0
    → Succeeds
        (encode_event p)
        (λ _ out. (60 ≤ length out) × (encode_event_into p buf ≡ done tt (buf ++ out)))
encode_event_into_lem p buf aligned =
    let (_, out, e, long) = encode_event_total p in
    (
      tt,
      out,
      e,
      (
        long,
        ap (encode_event_into p) (sym (append-nil buf))
            ∙ Moved-done buf out (encode_event_into p (buf ++ [])) (encode_event_into p [])
                ((encode_event_into-Shifts buf p aligned).on_any [])
                (encode_event_into_empty p ∙ e),
      ),
    )

-- The bytes of one entry.
abbrev pub event_bytes : EventParams → List ℕ
event_bytes p = final (encode_event p)

pub encode_event-Places : Places encode_event_into event_bytes
encode_event-Places p buf aligned = placed (encode_event_into_lem p buf aligned)
  where
    placed :
        Succeeds
          (encode_event p)
          (λ _ out. (60 ≤ length out) × (encode_event_into p buf ≡ done tt (buf ++ out)))
        → (4 ≤ length (event_bytes p)) × (encode_event_into p buf ≡ done tt (buf ++ event_bytes p))
    placed (_, out, e, (long, puts)) = (
      omega (arith, ap (λ r. length (final r)) e),
      puts ∙ ap (λ r. done tt (buf ++ final r)) (sym e),
    )

-- In an empty buffer, encode_event_data_into gives the bytes that encode_event_data gives for the
-- separately encoded events, and returns the whole buffer as their range; neither panics.
pub encode_event_data_into_lem :
    (entries : List EventParams)
    → Succeeds
        (encode_event_data (map event_bytes entries))
        (λ _ out. encode_event_data_into entries [] ≡ done (zero, length out) out)
encode_event_data_into_lem = encode_data_into_lem encode_event_into event_bytes encode_event-Places
