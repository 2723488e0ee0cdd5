-- ===== src/Worker/Batches.antt =====
-- The encoders as `flush_queue` and `save_queue` of crates/tell/src/worker/mod.rs call them: what they
-- ask of one, and the state that it finds and leaves.
use tell_rs.Prelude.{
  ℕ, ◌+◌, ◌%◌, ◌^◌, ◌<◌, ◌≡◌, sym, ◌∙◌, subst, arith, Option, List, [], ◌∷◌, length, Succeeds,
}
use tell_rs.Buffer.Frames.{Frame}
use tell_rs.Worker.Defs.{Sender, W}
use tell_rs.Worker.Send.{Keeps}

-- The part of the configuration that cuts the queues and goes into the batches.
pub record Config : Type 0 where
  pub api_key : List ℕ
  pub service : Option (List ℕ)
  pub source : Option (List ℕ)
  pub batch_size : ℕ

pub record IsReady (c : Config) (s : Sender) : Type 0 where
  pub api_key : s.api_key ≡ c.api_key
  pub service : s.service ≡ c.service
  pub source : s.source ≡ c.source
  pub batch_size : s.batch_size ≡ c.batch_size
  pub next_id : s.next_id < 2 ^ 64

-- The batch counter wraps.
abbrev pub after_id : ℕ → ℕ
after_id id = (id + 1) % 2 ^ 64

-- The state after a batch has been written.
abbrev pub encoded : Sender → List ℕ → List ℕ → Sender
encoded s out batch = record s { data_buf = out; batch_buf = batch; next_id = after_id s.next_id }

-- The two buffers and the counter have changed.
abbrev pub IsEncoded : Sender → Sender → Type 0
IsEncoded s t = t ≡ encoded s t.data_buf t.batch_buf

-- What is asked of an encoder: on a chunk that fits it does not panic, changes the two buffers and the
-- counter only, and leaves a batch of `size` bytes that is `Encoded` under the batch id.
pub record Encoder (c : Config) (T : Type 0) : Type 1 where
  pub encode : List T → W Unit
  pub Fits : List T → Type 0
  pub size : List T → ℕ
  pub Encoded : ℕ → List T → Frame → Type 0
  pub encodes :
      (chunk : List T) (s : Sender)
      → IsReady c s
      → Fits chunk
      → Succeeds (encode chunk s) (λ _ t.
        IsEncoded s t × (length t.batch_buf ≡ size chunk) × Encoded s.next_id chunk t.batch_buf)

-- The batches of the chunks, in order and under consecutive ids.
abbrev pub Numbered :
    {T : Type 0} → (ℕ → List T → Frame → Type 0) → ℕ → List (List T) → List Frame → Type 0
Numbered R id [] [] = Unit
Numbered R id [] (batch ∷ batches) = ⊥
Numbered R id (chunk ∷ chunks) [] = ⊥
Numbered R id (chunk ∷ chunks) (batch ∷ batches) =
    R id chunk batch × Numbered R (after_id id) chunks batches

after_id_bound : (id : ℕ) → after_id id < 2 ^ 64
after_id_bound id = omega arith

IsReady-encoded :
    {c : Config} {s : Sender} (out batch : List ℕ) → IsReady c s → IsReady c (encoded s out batch)
IsReady-encoded {c} {s} out batch r = record {
  api_key = r.api_key;
  service = r.service;
  source = r.source;
  batch_size = r.batch_size;
  next_id = after_id_bound s.next_id;
}

pub IsReady-IsEncoded : {c : Config} {s t : Sender} → IsReady c s → IsEncoded s t → IsReady c t
IsReady-IsEncoded {c} {s} {t} r e =
    subst (IsReady c) (sym e) (IsReady-encoded t.data_buf t.batch_buf r)

pub IsReady-Keeps : {c : Config} {s t : Sender} → IsReady c s → Keeps s t → IsReady c t
IsReady-Keeps r k = record {
  api_key = k.api_key ∙ r.api_key;
  service = k.service ∙ r.service;
  source = k.source ∙ r.source;
  batch_size = k.batch_size ∙ r.batch_size;
  next_id = subst (λ (n : ℕ). n < 2 ^ 64) (sym k.next_id) r.next_id;
}
