-- ===== src/Tunnel/Link.antt =====
-- The two ends of one stream of yggdrasil/stream.go, joined by the mesh: a queue of frames each way.
-- The ends act in any order; a call that would wait does nothing and may be tried again.
use r1s.Base.{ℕ, List, [], ◌∷◌, ◌++◌, take, if◌then◌else◌}
use r1s.Tunnel.Framing.{Packet, Frame, Reason, max_packet_payload}
use r1s.Tunnel.Stream.{
  Stream, new_stream, Wrote, Sent, sent, send_data, Received, peer_ended, received, read,
  close_read, close_write, close_with_reason, ingest,
}

-- One end: its stream, the frames on their way to the peer, the bytes it has sent and has read.
pub record Side : Type 0 where
  pub stream : Stream
  pub wire : List Frame
  pub written : Packet
  pub got : Packet

pub record Link : Type 0 where
  pub near : Side
  pub far : Side

pub data Action : Type 0 where
  -- One segment of a Write, cut to a packet.
  send : Packet → Action
  receive : ℕ → Action
  -- The peer's oldest frame comes in.
  deliver : Action
  stop_reading stop_writing : Action
  hang_up : Reason → Packet → Action

abbrev pub start : ℕ → Link
start id =
    let side : Side = record { stream = new_stream id; wire = []; written = []; got = [] } in
    record { near = side; far = side }

abbrev pub swap : Link → Link
swap l = record { near = l.far; far = l.near }

abbrev pub emit : Side → Wrote → Side
emit e w = record e { stream = w.stream; wire = e.wire ++ w.frames }

abbrev pub after_send : Side → Packet → Sent → Side
after_send e p (sent w) = record (emit e w) { written = e.written ++ p }
after_send e p _ = e

abbrev pub after_read : Side → Received → Side
after_read e (received p w) = record (emit e w) { got = e.got ++ p }
after_read e (peer_ended err s) = record e { stream = s }
after_read e _ = e

-- A closed stream is no longer among the pair's streams, so its frames are dropped.
abbrev pub take_in : Side → Frame → Side
take_in e f = if e.stream.closed then e else emit e (ingest e.stream f)

unfoldable pub act : Action → Link → Link
unfolding send_data read ingest close_read close_write close_with_reason
act (send p) l =
    let segment : Packet = take max_packet_payload p in
    record l { near = after_send l.near segment (send_data l.near.stream segment) }
act (receive n) l = record l { near = after_read l.near (read l.near.stream n) }
act deliver l = elim l.far.wire [
  | [] ↦ l
  | f ∷ rest ↦ record { near = take_in l.near f; far = record l.far { wire = rest } }
]
act stop_reading l = record l { near = record l.near { stream = close_read l.near.stream } }
act stop_writing l = record l { near = emit l.near (close_write l.near.stream) }
act (hang_up reason detail) l = record l {
  near = emit l.near (close_with_reason l.near.stream reason detail);
}

pub data Turn : Type 0 where
  near_acts far_acts : Action → Turn

unfoldable pub run : List Turn → Link → Link
unfolding act
run [] l = l
run (near_acts a ∷ turns) l = run turns (act a l)
run (far_acts a ∷ turns) l = run turns (swap (act a (swap l)))
