-- ===== src/Worker/Loop/Answers.antt =====
-- How a turn of `worker_loop` of crates/tell/src/worker/mod.rs answers `flush`.
use tell_rs.Prelude.{◌++◌, ℕ, List}
use tell_rs.Worker.Defs.{Sender}
use tell_rs.Worker.Queues.{Queues}

-- The state in which callers have been answered.
abbrev pub answering : Sender → List ℕ → Sender
answering s callers = record s { answered = s.answered ++ callers }
