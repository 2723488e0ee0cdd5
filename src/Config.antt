-- ===== src/Config.antt =====
-- crates/tell/src/config.rs: the configuration and the checks of its builder. A duration is its
-- nanoseconds; the error callback is only there or not.
pub mod Build
mod Tests
use Prim.Native.String.{String}
use tell_rs.Prelude.{
  ℕ, ◌+◌, ◌*◌, ◌^◌, ◌==◌, Bool, true, false, Option, none, some, List, [], ◌∷◌, length,
  if◌then◌else◌, Result, ok, err,
}
use tell_rs.Errors.{TellError, configuration, validation, lit}
use tell_rs.Validation.Defs.{validate_and_decode_api_key, ◌>>=◌, ◌>>◌}

pub record TellConfigBuilder : Type 0 where
  pub api_key : List ℕ
  pub service : Option (List ℕ)
  pub source : Option (List ℕ)
  pub endpoint : Option String
  pub batch_size : Option ℕ
  pub flush_interval : Option ℕ
  pub max_retries : Option ℕ
  pub close_timeout : Option ℕ
  pub network_timeout : Option ℕ
  pub on_error : Bool
  pub buffer_path : Option String
  pub buffer_max_bytes : Option ℕ
  pub enable_session : Bool
  pub queue_capacity : Option ℕ
  pub metrics_interval : Option ℕ

pub record TellConfig : Type 0 where
  pub api_key_bytes : List ℕ
  pub service : Option (List ℕ)
  pub source : Option (List ℕ)
  pub endpoint : String
  pub batch_size : ℕ
  pub flush_interval : ℕ
  pub max_retries : ℕ
  pub close_timeout : ℕ
  pub network_timeout : ℕ
  pub on_error : Bool
  pub buffer_path : Option String
  pub buffer_max_bytes : ℕ
  pub enable_session : Bool
  pub queue_capacity : ℕ
  pub metrics_interval : ℕ

abbrev pub from_secs : ℕ → ℕ
from_secs n = n * 10 ^ 9

abbrev pub unwrap_or : {A : Type 0} → Option A → A → A
unwrap_or none d = d
unwrap_or (some a) d = a

-- `self.batch_size == Some(0)`
abbrev pub is_some_zero : Option ℕ → Bool
is_some_zero none = false
is_some_zero (some n) = n == 0

abbrev pub is_some_empty : Option (List ℕ) → Bool
is_some_empty (some []) = true
is_some_empty _ = false

abbrev pub refuse_if : Bool → TellError → Result TellError Unit
refuse_if true e = err e
refuse_if false e = ok tt

-- The literal at the end of `build`: what is not given takes its default.
abbrev pub assembled : TellConfigBuilder → List ℕ → TellConfig
assembled b api_key_bytes = record {
  api_key_bytes = api_key_bytes;
  service = b.service;
  source = b.source;
  endpoint = unwrap_or b.endpoint "collect.tell.rs:50000";
  batch_size = unwrap_or b.batch_size 100;
  flush_interval = unwrap_or b.flush_interval (from_secs 10);
  max_retries = unwrap_or b.max_retries 3;
  close_timeout = unwrap_or b.close_timeout (from_secs 5);
  network_timeout = unwrap_or b.network_timeout (from_secs 5);
  on_error = b.on_error;
  buffer_path = b.buffer_path;
  buffer_max_bytes = unwrap_or b.buffer_max_bytes (3 * 1024 * 1024 * 1024);
  enable_session = b.enable_session;
  queue_capacity = unwrap_or b.queue_capacity 10000;
  metrics_interval = unwrap_or b.metrics_interval (from_secs 15);
}

-- `build`
unfoldable pub build : TellConfigBuilder → Result TellError TellConfig
build b = do
  api_key_bytes ← validate_and_decode_api_key b.api_key
  refuse_if (is_some_empty b.service) (validation "service" (lit "must not be empty" ∷ []))
  refuse_if (is_some_zero b.batch_size) (configuration (lit "batch_size must be at least 1" ∷ []))
  refuse_if (is_some_zero b.queue_capacity)
      (configuration (lit "queue_capacity must be at least 1" ∷ []))
  refuse_if (is_some_zero b.metrics_interval)
      (configuration (lit "metrics_interval must be non-zero" ∷ []))
  ok (assembled b api_key_bytes)

-- `new`
unfoldable pub builder : List ℕ → TellConfigBuilder
builder api_key = record {
  api_key = api_key;
  service = none;
  source = none;
  endpoint = none;
  batch_size = none;
  flush_interval = none;
  max_retries = none;
  close_timeout = none;
  network_timeout = none;
  on_error = false;
  buffer_path = none;
  buffer_max_bytes = none;
  enable_session = false;
  queue_capacity = none;
  metrics_interval = none;
}

-- `development`
unfoldable pub development : List ℕ → Result TellError TellConfig
development api_key = build (record (builder api_key) {
  endpoint = some "localhost:50000";
  batch_size = some 10;
  flush_interval = some (from_secs 2);
})

-- `production`
unfoldable pub production : List ℕ → Result TellError TellConfig
production api_key = build (builder api_key)
