-- ===== src/Transport.antt =====
-- `TcpTransport` of crates/tell/src/transport.rs, with the network as a list of how the next waits
-- end. The endpoint is fixed; NODELAY is left out.
pub mod Send
use tell_rs.Prelude.{
  ℕ, ◌/◌, ◌%◌, ◌^◌, Bool, true, false, List, [], ◌∷◌, ◌++◌, length, when◌then◌else◌, Run, done,
  failed, Exec, pure, fail, modify, gets, ◌>>=◌, ◌>>◌,
}
use tell_rs.Errors.{TellError, io, network, lit}
use tell_rs.Buffer.Disk.{Kind}

-- How a wait under a timeout ends.
pub data Wait : Type 0 where
  ready elapsed : Wait
  broken : Kind → Wait

-- `stream` says whether there is a connection. `handed` are the frames that a connection took as a
-- whole: their bytes were written to the socket and flushed, which does not say that the peer has read
-- them. `waits` is how the next waits end; those after the list are ready.
pub record TcpTransport : Type 0 where
  pub stream : Bool
  pub handed : List (List ℕ)
  pub waits : List Wait

abbrev pub Net : Type 0 → Type 0
Net A = Exec TellError TcpTransport A

abbrev pub next_wait : List Wait → Wait
next_wait [] = ready
next_wait (w ∷ ws) = w

abbrev pub other_waits : List Wait → List Wait
other_waits [] = []
other_waits (w ∷ ws) = ws

abbrev pub wait : Net Wait
wait t = done (next_wait t.waits) (record t { waits = other_waits t.waits })

abbrev pub set_stream : Bool → Net Unit
set_stream b = modify (λ t. record t { stream = b })

-- The `?` on the two layers of a connect's result.
abbrev pub connected : Wait → Net Unit
connected ready = set_stream true
connected (broken k) = fail (io k)
connected elapsed = fail (network (lit "connection timeout to " ∷ lit "endpoint" ∷ []))

-- `connect`
unfoldable pub connect : Net Unit
connect = do w ← wait; connected w

-- `ensure_connected`
unfoldable pub ensure_connected : Net Unit
ensure_connected = do up ← gets (λ t. t.stream); when up then pure tt else connect

-- `(len as u32).to_be_bytes()`
abbrev pub be_u32 : ℕ → List ℕ
be_u32 n = n / 2 ^ 24 % 256 ∷ n / 2 ^ 16 % 256 ∷ n / 2 ^ 8 % 256 ∷ n % 256 ∷ []

-- The bytes that `send_frame` writes.
abbrev pub wire_bytes : List ℕ → List ℕ
wire_bytes frame = be_u32 (length frame) ++ frame

-- The last `match` of `send_frame`. What a failing write has put on the old connection is no frame.
abbrev pub written : List ℕ → Wait → Net Unit
written frame ready = modify (λ t. record t { handed = t.handed ++ wire_bytes frame ∷ [] })
written frame (broken k) = do set_stream false; fail (io k)
written frame elapsed = do
  set_stream false
  fail (network (lit "write timeout to " ∷ lit "endpoint" ∷ []))

-- `send_frame`. The test for a connection that follows `ensure_connected` never fails.
unfoldable pub send_frame : List ℕ → Net Unit
send_frame frame = do
  ensure_connected
  up ← gets (λ t. t.stream)
  when up
      then (do w ← wait; written frame w)
      else fail (network (lit "connection not established" ∷ []))

-- `close`
unfoldable pub close : Net Unit
close = set_stream false
