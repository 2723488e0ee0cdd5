-- ===== src/Encoding/Log/Into.antt =====
-- `encode_log_entry_into` of crates/tell-encoding/src/log.rs against `encode_log_entry`: the copy that
-- writes into a buffer in use puts the same bytes behind what is there.
use tell_rs.Prelude.{
  ℕ, zero, ◌%◌, ◌≤◌, ◌≡◌, refl, List, [], ◌++◌, length, map, done, final, arith, append-nil, ap,
  sym, ◌∙◌, Succeeds, length-append,
}
use tell_rs.Bytes.{le_bytes}
use tell_rs.Encoding.Helpers.Shift.{Shifts, AnyUnit, Moved-done}
use tell_rs.Encoding.Helpers.Then.{shifting}
use tell_rs.Encoding.Vector.Same.{Places}
use tell_rs.Encoding.Vector.Total.{encode_data_into_lem}
use tell_rs.Encoding.Helpers.Fields.{distance}
use tell_rs.Encoding.Log.Image.{log_head, log-Image}
use tell_rs.Encoding.Log.{
  LogEntryParams, encode_log_entry, encode_log_entry_steps, encode_log_entry_into, encode_log_data,
  encode_log_data_into,
}

-- The two copies of the encoder agree on an empty buffer.
encode_log_entry_into_empty : (p : LogEntryParams) → encode_log_entry_into p [] ≡ encode_log_entry p
unfolding encode_log_entry encode_log_entry_steps encode_log_entry_into le_bytes
encode_log_entry_into_empty p = refl

encode_log_entry_into-Shifts :
    (pre : List ℕ) (p : LogEntryParams)
    → length pre % 4 ≡ 0
    → Shifts pre (AnyUnit pre) (encode_log_entry_into p) (encode_log_entry_into p)
unfolding encode_log_entry_into
encode_log_entry_into-Shifts pre p aligned = search shifting depth 60

-- The encoder never panics.
encode_log_entry_total :
    (p : LogEntryParams) → Succeeds (encode_log_entry p) (λ _ out. 56 ≤ length out)
unfolding le_bytes
encode_log_entry_total p =
    let (out, e, i) = log-Image p in
    (
      tt,
      out,
      e,
      omega (
        arith,
        ap length i.whole,
        length-append
            (log_head p 24 (distance i.s 28) (distance i.o 32) (distance i.c 36) (distance i.q 40))
            i.t,
      ),
    )

-- encode_log_entry does not panic and gives 56 bytes or more; in a buffer whose length is a
-- multiple of four, encode_log_entry_into puts exactly these bytes behind what is there.
pub encode_log_entry_into_lem :
    (p : LogEntryParams) (buf : List ℕ)
    → length buf % 4 ≡ 0
    → Succeeds
        (encode_log_entry p)
        (λ _ out. (56 ≤ length out) × (encode_log_entry_into p buf ≡ done tt (buf ++ out)))
encode_log_entry_into_lem p buf aligned =
    let (_, out, e, long) = encode_log_entry_total p in
    (
      tt,
      out,
      e,
      (
        long,
        ap (encode_log_entry_into p) (sym (append-nil buf))
            ∙ Moved-done buf out (encode_log_entry_into p (buf ++ [])) (encode_log_entry_into p [])
                ((encode_log_entry_into-Shifts buf p aligned).on_any [])
                (encode_log_entry_into_empty p ∙ e),
      ),
    )

-- The bytes of one entry.
abbrev pub log_bytes : LogEntryParams → List ℕ
log_bytes p = final (encode_log_entry p)

pub encode_log_entry-Places : Places encode_log_entry_into log_bytes
encode_log_entry-Places p buf aligned = placed (encode_log_entry_into_lem p buf aligned)
  where
    placed :
        Succeeds
          (encode_log_entry p)
          (λ _ out. (56 ≤ length out) × (encode_log_entry_into p buf ≡ done tt (buf ++ out)))
        → (4 ≤ length (log_bytes p)) × (encode_log_entry_into p buf ≡ done tt (buf ++ log_bytes p))
    placed (_, out, e, (long, puts)) = (
      omega (arith, ap (λ r. length (final r)) e),
      puts ∙ ap (λ r. done tt (buf ++ final r)) (sym e),
    )

-- In an empty buffer, encode_log_data_into gives the bytes that encode_log_data gives for the
-- separately encoded entries, and returns the whole buffer as their range; neither panics.
pub encode_log_data_into_lem :
    (entries : List LogEntryParams)
    → Succeeds
        (encode_log_data (map log_bytes entries))
        (λ _ out. encode_log_data_into entries [] ≡ done (zero, length out) out)
encode_log_data_into_lem =
    encode_data_into_lem encode_log_entry_into log_bytes encode_log_entry-Places
