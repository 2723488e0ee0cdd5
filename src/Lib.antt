-- ===== src/Lib.antt =====
-- Tell is a client for events, logs and metrics: a caller's calls are validated and queued, a worker
-- encodes the queues into batches, sends them, and keeps on disk what could not be sent. This
-- library is about the parts of it named below; paths are from the repository's root.
--
-- Buffer: `DiskBuffer` of crates/tell/src/buffer.rs, the log of batches that could not be sent.
--   Buffer/Disk has the file system that it uses: the log, the temporary file, the cursor file, what
--   stands at the log's path, and a list of how the next system calls end. A call passes, or fails
--   after part of its effect; calls beyond the list pass. It also has the functions at the end of
--   the file (open_append, read_cursor, write_cursor, open_reader, read_frame_header,
--   rewrite_tail). Buffer/Wal has the record `DiskBuffer` and one definition for each method under
--   its name (`open` is open_buffer, `drop` is on_drop, `reader` is get_reader), as a computation on
--   the buffer and the disk whose changes stay when it fails. The other files are about those methods:
--   Holds has the invariant that ties the positions to the frames that are still to be handed out.
-- Config: crates/tell/src/config.rs; a setter of the builder is an update of its record.
-- Validation: crates/tell/src/validation.rs in Validation/Defs, its API keys in Validation/ApiKey.
-- Encoding: the FlatBuffer encoders of crates/tell-encoding/src. Encoding/Helpers has helpers.rs, with
--   the buffer as a list of bytes and a write outside it as a panic, Encoding/Batch has batch.rs,
--   Encoding/Event event.rs, Encoding/Log log.rs and Encoding/Metric metric.rs. Encoding/Vector has the loops
--   that event.rs, log.rs and metric.rs write out in the same words, with the encoder of one entry as
--   an argument. A float is the number whose eight bytes `to_le_bytes` gives. Encoding/Reader is a
--   reader of the format that knows nothing of the encoders.
-- Transport: crates/tell/src/transport.rs, with the network as a list of how its waits end, and the
--   frames that connections took as a whole.
-- Worker: crates/tell/src/worker. Worker/Defs has the delivery half of mod.rs under the names of its
--   functions, on the record `Sender`, which uses the transport and the disk buffer; `flush_queue` and
--   `save_queue` take the encoder as an argument, as they do in the source. Worker/Batches says what
--   they ask of an encoder, Worker/Encode has those of encode.rs, and Worker/Encode/Encoders shows that
--   they are such. The static counter of batch ids is the field `next_id`, with the ids as this worker
--   draws them. Worker/New has `Sender::new`, Worker/Queues the three queues and the functions that
--   flush or save them all, and Worker/Loop the branch of `worker_loop` that receives messages: the
--   messages in the channel are a list, and a caller who waits for an answer is a number.
--   `reports` are the errors that `report` is called with, which is what "reported" means below; the
--   callback, if the configuration has one, is given them and has them in `heard`. The sum
--   `max_retries + 1` wraps at 32 bits, as in a build without overflow checks.
-- Payload: crates/tell/src/payload.rs; Payload/Members has the sequences of its calls.
-- Metrics: series_index and label_pair of crates/tell/src/metrics/mod.rs; Metrics/Counter has counter.rs.
--   Its atomic operations are steps that do not overlap, and the cast of a number to a float is an
--   argument of `sample`.
-- Errors: crates/tell/src/error.rs.
-- Bytes: `to_le_bytes` and `from_le_bytes`. Prelude: lists, tests and computations that fail.
--
-- A byte is a natural number, a text is the list of its bytes, and u64 arithmetic in the buffer is
-- taken modulo 2 ^ 64. The loop of `evict_if_needed` runs on fuel, the number of bytes to be freed:
-- each round frees a header of four bytes at least, so that this is enough, as Buffer/Evict shows.
-- `drain_disk_buffer` runs on the number of buffered bytes, `flush_queue` and `save_queue` on the length
-- of the queue, the padding of `align4` on 3; the theorems about them show that nothing is left.
--
-- Not modelled: the client's calls, properties, the clock, gauges, histograms and the registry of
-- metrics, and the tracing layer; the cancelling of a flush, or of its pass over the disk buffer, at the time limit of `shutdown`, of which
-- Worker/Loop has only what follows, and the ticks of `worker_loop`; permissions and fsync (calls that
-- can fail, without an effect of their own), the texts of I/O errors, buffering inside `BufReader`.
mod Prelude
pub mod Bytes
pub mod Buffer
pub mod Errors
pub mod Validation
pub mod Config
pub mod Payload
pub mod Encoding
pub mod Transport
pub mod Worker
pub mod Metrics
