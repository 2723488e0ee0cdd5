-- ===== src/Transport/Send.antt =====
-- `send_frame` of crates/tell/src/transport.rs delivers the frame or reports an error.
use tell_rs.Prelude.{
  ℕ, Bool, true, false, List, [], ◌∷◌, ◌++◌, Run, done, failed, ◌≡◌, refl, ◌⊎◌, inl, inr,
}
use tell_rs.Errors.{TellError}
use tell_rs.Transport.{
  TcpTransport, Wait, ready, elapsed, broken, send_frame, ensure_connected, connect, wire_bytes,
}

-- The frame has reached the peer and there is a connection; or an error comes back, the peer has
-- not got the frame, and the next send dials again.
abbrev pub Delivered : List ℕ → TcpTransport → Run TellError TcpTransport Unit → Type 0
Delivered frame t r =
    ((u : TcpTransport) × (r ≡ done tt u)
      × (u.handed ≡ t.handed ++ wire_bytes frame ∷ [])
      × (u.stream ≡ true))
    ⊎ ((u : TcpTransport) × (e : TellError) × (r ≡ failed e u)
        × (u.handed ≡ t.handed)
        × (u.stream ≡ false))

abbrev from : Bool → List (List ℕ) → List Wait → TcpTransport
from up got ws = record { stream = up; handed = got; waits = ws }

send_from :
    (frame : List ℕ) (up : Bool) (got : List (List ℕ)) (ws : List Wait)
    → Delivered frame (from up got ws) (send_frame frame (from up got ws))
unfolding send_frame ensure_connected connect
send_from frame true got [] = inl (_, refl, refl, refl)
send_from frame true got (ready ∷ ws) = inl (_, refl, refl, refl)
send_from frame true got (broken k ∷ ws) = inr (_, _, refl, refl, refl)
send_from frame true got (elapsed ∷ ws) = inr (_, _, refl, refl, refl)
send_from frame false got [] = inl (_, refl, refl, refl)
send_from frame false got (broken k ∷ ws) = inr (_, _, refl, refl, refl)
send_from frame false got (elapsed ∷ ws) = inr (_, _, refl, refl, refl)
send_from frame false got (ready ∷ []) = inl (_, refl, refl, refl)
send_from frame false got (ready ∷ ready ∷ ws) = inl (_, refl, refl, refl)
send_from frame false got (ready ∷ broken k ∷ ws) = inr (_, _, refl, refl, refl)
send_from frame false got (ready ∷ elapsed ∷ ws) = inr (_, _, refl, refl, refl)

-- send_frame either returns without error, with the length-prefixed frame handed to the connection
-- as a whole and the connection kept, or returns an error, with the frame not handed over as a
-- whole and no connection, so that the next call dials again.
pub send_frame_lem : (frame : List ℕ) (t : TcpTransport) → Delivered frame t (send_frame frame t)
send_frame_lem frame t = send_from frame t.stream t.handed t.waits
