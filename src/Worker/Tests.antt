-- ===== src/Worker/Tests.antt =====
-- The worker of crates/tell/src/worker/mod.rs with a buffer of two frames and a network that fails at
-- the second send.
use tell_rs.Prelude.{
  ◌^◌, ◌-◌, done, ◌≡◌, refl, true, false, none, some, List, [], ◌∷◌, Succeeds, arith, inl,
  replicate,
}
use tell_rs.Bytes.{le_bytes}
use tell_rs.Buffer.Disk.{regular, holds, other}
use tell_rs.Buffer.Wal.{DiskBuffer}
use tell_rs.Buffer.Frames.{Frame, log_bytes}
use tell_rs.Buffer.Holds.{Holds}
use tell_rs.Buffer.Recovery.{on}
use tell_rs.Transport.{TcpTransport, ready, broken, send_frame}
use tell_rs.Transport.Send.{Delivered, send_frame_lem}
use tell_rs.Worker.Defs.{Sender, send_with_fallback, drain_disk_buffer}
use tell_rs.Worker.Drain.{Drained, drain_disk_buffer_lem}
use tell_rs.Worker.Send.{SentOrStored, no_attempt, send_with_buffer}

abbrev first : Frame
first = 11 ∷ 12 ∷ []

abbrev second : Frame
second = 21 ∷ []

abbrev pub frames : List Frame
frames = first ∷ second ∷ []

-- Connect and write, then a write that breaks.
abbrev net : TcpTransport
net = record { stream = false; handed = []; waits = ready ∷ ready ∷ broken other ∷ [] }

abbrev pub buf : DiskBuffer
buf = record {
  max_bytes = 100;
  write_pos = 11;
  read_pos = 0;
  persisted_pos = 0;
  wal_file = true;
  reader = none;
}

abbrev pub sender : Sender
sender = record {
  transport = net;
  disk_buffer = some buf;
  disk = record {
    entry = regular;
    wal = log_bytes frames;
    tmp = [];
    cursor = holds 0;
    coming = [];
  };
  data_buf = [];
  batch_buf = 9 ∷ 9 ∷ [];
  next_id = 1;
  api_key = replicate 16 7;
  service = some (b'w' ∷ b'e' ∷ b'b' ∷ []);
  source = none;
  batch_size = 2;
  max_retries = 3;
  on_error = true;
  reports = [];
  heard = [];
  answered = [];
  slept = [];
}

abbrev pub bare : Sender
bare = record sender { disk_buffer = none }

pub sender-Holds : Holds (on buf sender.disk) frames
unfolding le_bytes
sender-Holds = record {
  quiet = refl;
  pending = refl;
  ends = refl;
  starts = omega arith;
  fits = omega arith;
  framed = (omega arith, (omega arith, tt));
  at_start = inl refl;
}

send_frame_lem_example : Delivered first net (send_frame first net)
send_frame_lem_example = send_frame_lem first net

drain_disk_buffer_lem_example : Succeeds (drain_disk_buffer sender) (λ _ t. Drained sender frames t)
unfolding le_bytes
drain_disk_buffer_lem_example =
    drain_disk_buffer_lem sender buf frames refl sender-Holds (omega arith) (omega arith)

send_with_buffer_example :
    Succeeds (send_with_fallback sender) (λ _ t. SentOrStored sender buf frames t)
unfolding le_bytes
send_with_buffer_example =
    send_with_buffer sender buf frames refl sender-Holds (omega arith) (omega arith)

-- As many retries as 32 bits can hold.
abbrev tireless : Sender
tireless = record bare { max_retries = 2 ^ 32 - 1 }

no_attempt_example : send_with_fallback tireless ≡ done tt tireless
no_attempt_example = no_attempt tireless refl refl
