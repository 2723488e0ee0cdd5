-- ===== src/Worker/Loop.antt =====
-- The branch of `worker_loop` of crates/tell/src/worker/mod.rs that receives messages, and the end of
-- `shutdown`. The messages that are in the channel are a list.
pub mod Absorb
pub mod Answers
use tell_rs.Prelude.{
  ℕ, zero, suc, Bool, true, false, not, List, [], ◌∷◌, when◌then◌else◌, pure, ◌++◌, modify, ◌>>=◌,
  ◌>>◌,
}
use tell_rs.Errors.{network, lit}
use tell_rs.Transport.{close}
use tell_rs.Worker.Defs.{W, report, on_transport}
use tell_rs.Worker.Queues.{
  Queues, Acks, WorkerMessage, absorb, send_all, flush_all, flush_full_queues, save_queues_to_wal,
}

-- `Acks::default()`
abbrev pub no_acks : Acks
no_acks = record { flush = []; close = [] }

-- The loop of at most `drain_limit` calls of `try_recv`: what it has absorbed, and what is still in
-- the channel.
unfoldable pub bulk_drain :
    ℕ → Queues × Acks → List WorkerMessage → (Queues × Acks) × List WorkerMessage
bulk_drain zero state messages = (state, messages)
bulk_drain (suc limit) state [] = (state, [])
bulk_drain (suc limit) state (msg ∷ messages) = bulk_drain limit (absorb state msg) messages

-- `acks.send_all()`
abbrev pub answer : Acks → W Unit
answer acks = modify (λ s. record s { answered = s.answered ++ send_all acks })

-- How a turn of the loop ends: with these queues, or in `shutdown`.
pub data Turn : Type 0 where
  continues : Queues → Turn
  shuts_down : Queues → Acks → Turn

abbrev pub is_empty : {A : Type 0} → List A → Bool
is_empty [] = true
is_empty (x ∷ xs) = false

-- What follows the bulk drain.
unfoldable pub react : Queues × Acks → W Turn
react (queues, acks) =
    when not (is_empty acks.close)
    then pure (shuts_down queues acks)
    else when not (is_empty acks.flush)
    then (do left ← flush_all queues; answer acks; pure (continues left))
    else (do left ← flush_full_queues queues; pure (continues left))

-- The turn that begins with the receipt of a message.
unfoldable pub received : ℕ → Queues → WorkerMessage → List WorkerMessage → W Turn
received drain_limit queues msg messages =
    react (bulk_drain drain_limit (absorb (queues, no_acks) msg) messages).0

-- What `shutdown` does when its flush is over, or has been cancelled since the time was up. Where in
-- the flush that happens is not modelled.
unfoldable pub after_flush : Bool → Queues → Acks → W Unit
after_flush timed_out queues acks = do
  when timed_out
      then (do
        report (network (lit "shutdown flush timed out — saving pending data to disk buffer" ∷ []))
        save_queues_to_wal queues
        pure tt)
      else pure tt
  on_transport close
  answer acks
