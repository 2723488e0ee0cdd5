-- ===== src/Encoding/Tests.antt =====
-- The encoders of crates/tell-encoding/src on concrete parameters.
use tell_rs.Prelude.{◌+◌, ◌^◌, ◌≡◌, refl, some, none, [], ◌∷◌, replicate, arith, Succeeds}
use tell_rs.Encoding.Batch.{BatchParams, encode_batch, log}
use tell_rs.Encoding.Batch.RoundTrip.{Reads, batch_round_trip}
use tell_rs.Encoding.Event.{
  EventParams, track, encode_event, encode_event_into, encode_event_steps, encode_event_data,
  encode_event_data_into,
}
use tell_rs.Encoding.Event.Into.{event_bytes, encode_event_data_into_lem}
use tell_rs.Prelude.{ℕ, List, map, length, done, final}
use tell_rs.Bytes.{le_bytes}
use tell_rs.Encoding.Helpers.{overwrite, pad_loop}
use tell_rs.Encoding.Event.RoundTrip.{event_round_trip}
use tell_rs.Encoding.Event.RoundTrip as EventRoundTrip
use tell_rs.Encoding.Event.Data.{event_data_round_trip}
use tell_rs.Encoding.Reader.{target_at}
use tell_rs.Encoding.Vector.{encode_data_into, place_entries, read_u32, reserve_slots, patch_slots}
use tell_rs.Encoding.Vector.RoundTrip.{ReadsAll}
use tell_rs.Encoding.Log.RoundTrip as LogRoundTrip
use tell_rs.Encoding.Log.RoundTrip.{log_entry_round_trip, log_data_round_trip}
use tell_rs.Encoding.Log
use tell_rs.Encoding.Log.{
  LogEntryParams, warning, encode_log_entry, encode_log_entry_into, encode_log_entry_steps,
  encode_log_data, encode_log_data_into,
}
use tell_rs.Encoding.Log.Into.{log_bytes, encode_log_data_into_lem}

abbrev logs : BatchParams
logs = record {
  api_key = replicate 16 7;
  schema_type = log;
  version = 0;
  batch_id = 2 ^ 40 + 3;
  data_bytes = 1 ∷ 2 ∷ 3 ∷ [];
}

pads_to_four : pad_loop 3 (1 ∷ 2 ∷ 3 ∷ 4 ∷ 5 ∷ []) ≡ 1 ∷ 2 ∷ 3 ∷ 4 ∷ 5 ∷ 0 ∷ 0 ∷ 0 ∷ []
unfolding pad_loop
pads_to_four = refl

overwrites_within : overwrite 1 (8 ∷ 9 ∷ []) (1 ∷ 2 ∷ 3 ∷ 4 ∷ []) ≡ some (1 ∷ 8 ∷ 9 ∷ 4 ∷ [])
unfolding overwrite
overwrites_within = refl

overwrites_beyond : overwrite 3 (8 ∷ 9 ∷ []) (1 ∷ 2 ∷ 3 ∷ 4 ∷ []) ≡ none
unfolding overwrite
overwrites_beyond = refl

batch_round_trip_example : Succeeds (encode_batch logs) (λ _ buf. Reads logs buf)
batch_round_trip_example = batch_round_trip logs refl (omega arith) (omega arith)

-- A page view without device and payload, and a log entry with a source.
abbrev view : EventParams
view = record {
  event_type = track;
  timestamp = 2 ^ 40;
  service = some (b'w' ∷ b'e' ∷ b'b' ∷ []);
  device_id = none;
  session_id = some (replicate 16 5);
  event_name = some (b'v' ∷ []);
  payload = none;
}

abbrev entry : LogEntryParams
entry = record {
  event_type = Log.log;
  session_id = none;
  level = warning;
  timestamp = 77;
  source = some (b'a' ∷ []);
  service = none;
  payload = some (1 ∷ 2 ∷ []);
}

encode_event_data_into_lem_example :
    Succeeds
      (encode_event_data (map event_bytes (view ∷ view ∷ [])))
      (λ _ out. encode_event_data_into (view ∷ view ∷ []) [] ≡ done (0, length out) out)
encode_event_data_into_lem_example = encode_event_data_into_lem (view ∷ view ∷ [])

encode_log_data_into_lem_example :
    Succeeds
      (encode_log_data (map log_bytes (entry ∷ [])))
      (λ _ out. encode_log_data_into (entry ∷ []) [] ≡ done (0, length out) out)
encode_log_data_into_lem_example = encode_log_data_into_lem (entry ∷ [])

view_encoded : encode_event view ≡ done tt (event_bytes view)
unfolding encode_event encode_event_steps le_bytes overwrite pad_loop
view_encoded = refl

event_round_trip_example : EventRoundTrip.Reads view (event_bytes view)
unfolding encode_event encode_event_steps le_bytes overwrite pad_loop
event_round_trip_example =
    event_round_trip view (event_bytes view) view_encoded (omega arith) (omega arith)

abbrev two_views : List ℕ
two_views = final (encode_event_data_into (view ∷ view ∷ []) [])

event_data_round_trip_example : ReadsAll EventRoundTrip.ReadsAt (view ∷ view ∷ []) two_views
unfolding encode_event_into le_bytes overwrite pad_loop encode_data_into place_entries read_u32
    reserve_slots patch_slots
event_data_round_trip_example =
    event_data_round_trip (view ∷ view ∷ []) (0, length two_views) two_views refl
      (omega arith, (omega arith, tt)) (omega arith)

entry_encoded : encode_log_entry entry ≡ done tt (log_bytes entry)
unfolding encode_log_entry encode_log_entry_steps le_bytes overwrite pad_loop
entry_encoded = refl

log_entry_round_trip_example :
    LogRoundTrip.ReadsAt (target_at 0 (log_bytes entry)) entry (log_bytes entry)
unfolding encode_log_entry encode_log_entry_steps le_bytes overwrite pad_loop
log_entry_round_trip_example =
    log_entry_round_trip entry (log_bytes entry) entry_encoded (omega arith) (omega arith)

abbrev one_entry : List ℕ
one_entry = final (encode_log_data_into (entry ∷ []) [])

log_data_round_trip_example : ReadsAll LogRoundTrip.ReadsAt (entry ∷ []) one_entry
unfolding encode_log_entry_into le_bytes overwrite pad_loop encode_data_into place_entries read_u32
    reserve_slots patch_slots
log_data_round_trip_example =
    log_data_round_trip (entry ∷ []) (0, length one_entry) one_entry refl (omega arith, tt)
      (omega arith)
