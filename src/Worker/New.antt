-- ===== src/Worker/New.antt =====
-- `Sender::new` of crates/tell/src/worker/mod.rs on a configuration of crates/tell/src/config.rs.
use Prim.Native.String.{String}
use tell_rs.Prelude.{ℕ, max, false, Option, none, some, List, [], ◌∷◌, Run, done, failed}
use tell_rs.Errors.{TellError, buffer, lit, shown}
use tell_rs.Buffer.Disk.{Disk, Kind}
use tell_rs.Buffer.Wal.{DiskBuffer, open_buffer}
use tell_rs.Transport.{TcpTransport, Wait}
use tell_rs.Config.{TellConfig}
use tell_rs.Worker.Defs.{Sender, told}

-- The disk buffer if there is one, the disk, and what is reported.
abbrev pub Opening : Type 0
Opening = Option DiskBuffer × Disk × List TellError

-- The `match` on the result of `DiskBuffer::open`.
abbrev pub from_open : Run Kind Disk DiskBuffer → Opening
from_open (done b e) = (some b, e, [])
from_open (failed k e) = (none, e, buffer (lit "failed to open disk buffer: " ∷ shown k ∷ []) ∷ [])

abbrev pub open_at : ℕ → Option String → Disk → Opening
open_at max_bytes none d = (none, d, [])
open_at max_bytes (some path) d = from_open (open_buffer max_bytes d)

-- `TcpTransport::new`
abbrev pub new_transport : List Wait → TcpTransport
new_transport waits = record { stream = false; handed = []; waits = waits }

-- `Sender::new`, with the directory of the buffer, how the next waits on the network end, and the next
-- batch id.
unfoldable pub sender_new : TellConfig → Disk → List Wait → ℕ → Sender
sender_new config d waits id =
    let opening = open_at config.buffer_max_bytes config.buffer_path d in
    told
      (record {
        transport = new_transport waits;
        disk_buffer = opening.0;
        disk = opening.1;
        data_buf = [];
        batch_buf = [];
        next_id = id;
        api_key = config.api_key_bytes;
        service = config.service;
        source = config.source;
        batch_size = max config.batch_size 1;
        max_retries = config.max_retries;
        on_error = config.on_error;
        reports = [];
        heard = [];
        answered = [];
        slept = [];
      })
      opening.2
