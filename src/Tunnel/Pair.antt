-- ===== src/Tunnel/Pair.antt =====
-- yggdrasil/pair.go, pair_streams.go and pair_handshake.go: one authenticated mesh connection, its
-- streams by id, its handshake buffer and its teardown. Packets written to the mesh are listed as
-- frames; the waits, their timers and the preamble's JSON are not modelled.
use r1s.Base.{
  ℕ, ◌+◌, ◌%◌, ◌-◌, ◌||◌, not, Bool, true, false, Option, none, some, List, [], ◌∷◌, ◌++◌, Bytes,
  ascii, length, drop, leb, ltb, ◌==◌, is_none, if◌then◌else◌, map, Assoc, get, put, delete,
  hex_encode,
}
use r1s.Tunnel.Contract.{Target}
use r1s.Tunnel.Registry.{Registry, Session, is_closed, resolve_target}
use r1s.Tunnel.Framing.{
  Packet, Frame, Reason, execution_ended, unauthorized, session_failed, SessionError, Parsed,
  incomplete, unknown_type, oversized, complete, append_frame, parse_frame, close_payload,
  parse_close_payload, decode_stream_open, max_packet_payload, frame_header_size,
}
use r1s.Tunnel.Stream
use r1s.Tunnel.Stream.{Stream, Sent, new_stream, send_open, end}

abbrev pub stream_id_none : ℕ
stream_id_none = 0

abbrev pub frame_type_preamble : ℕ
frame_type_preamble = 4

abbrev pub frame_type_accept : ℕ
frame_type_accept = 5

abbrev pub max_incoming_streams : ℕ
max_incoming_streams = 64

-- The key of a stream id in a map.
abbrev pub stream_key : ℕ → Bytes
stream_key id = id ∷ []

-- IncomingStream, less its Conn, which is the stream registered under `id`.
pub record IncomingStream : Type 0 where
  pub target : Target
  pub id : ℕ

-- pairConn. `closed` also says that closeOnce is spent.
pub record Pair : Type 0 where
  pub peer : Bytes
  pub max_seg : ℕ
  pub streams : Assoc Stream
  pub next_id : ℕ
  pub closed : Bool
  pub close_err : Option SessionError
  pub session : Option Session
  pub client_ready : Bool
  pub incoming : List IncomingStream
  pub raw : Packet

-- The MTU of the mesh, less the header, if that is between one byte and a whole payload.
unfoldable pub segment_size : ℕ → ℕ
segment_size mtu =
    let room : ℕ = mtu - frame_header_size in
    if room == 0 || ltb max_packet_payload room then max_packet_payload else room

unfoldable pub new_pair : ℕ → Bytes → Pair
unfolding segment_size
new_pair mtu peer = record {
  peer = peer;
  max_seg = segment_size mtu;
  streams = [];
  next_id = 1;
  closed = false;
  close_err = none;
  session = none;
  client_ready = false;
  incoming = [];
  raw = [];
}

-- A pair, the frames it wrote, and the streams that it ended.
pub record Result : Type 0 where
  pub pair : Pair
  pub frames : List Frame
  pub ended : List Stream

abbrev pub silent : Pair → Result
silent p = record { pair = p; frames = []; ended = [] }

-- writeFrame: nothing is written on a closed pair.
abbrev pub write_frame : Pair → ℕ → ℕ → Packet → List Frame
write_frame p typ id payload =
    if p.closed then [] else record { typ = typ; stream_id = id; payload = payload } ∷ []

abbrev pub reject : Pair → ℕ → Reason → Packet → Result
reject p id reason detail = record {
  pair = p;
  frames = write_frame p Stream.frame_type_close id (close_payload reason detail);
  ended = [];
}

unfoldable pub remove : Pair → ℕ → Pair
remove p id = record p { streams = delete (stream_key id) p.streams }

abbrev pub end_stream : SessionError → Stream → Stream
end_stream e s = (end (record s { peer_err = some e }) none).stream

unfoldable pub terminate : Pair → SessionError → Bool → Result
unfolding end
terminate p e notify = if p.closed then silent p else record {
  pair = record p { closed = true; close_err = some e; streams = []; raw = [] };
  frames =
      if notify
      then write_frame p Stream.frame_type_close stream_id_none (close_payload e.reason e.detail)
      else [];
  ended = map (λ entry. end_stream e entry.1) p.streams;
}

unfoldable pub end_all : Pair → SessionError → Result
unfolding terminate
end_all p e = terminate p e true

-- OpenStream: none where the pair may not open streams.
unfoldable pub open_stream : Pair → ℕ → Option Result
unfolding send_open
open_stream p target_port =
    if p.closed || not p.client_ready
    then none
    else elim (send_open (new_stream p.next_id) target_port) [
      | Stream.sent w ↦ some (record {
        pair = record p {
          next_id = (p.next_id + 1) % 4294967296;
          streams = put (stream_key p.next_id) w.stream p.streams;
        };
        frames = w.frames;
        ended = [];
      })
      | _ ↦ none
    ]

unfoldable pub open_allocator_stream : Registry → Pair → Frame → Result
unfolding remove
open_allocator_stream r p f =
    if p.closed || is_none p.session
    then reject p f.stream_id unauthorized (ascii "unvalidated mesh session")
    else elim p.session [
      | none ↦ silent p
      | some session ↦
          if not (is_none (get (stream_key f.stream_id) p.streams))
          then silent p
          else elim (resolve_target r session (decode_stream_open f.payload)) [
            | none ↦
                reject (remove p f.stream_id) f.stream_id unauthorized
                  (ascii "target port was not pre-authorized")
            | some target ↦
                if ltb (length p.incoming) max_incoming_streams
                then silent (record p {
                  streams = put (stream_key f.stream_id) (new_stream f.stream_id) p.streams;
                  incoming = p.incoming ++ (record { target = target; id = f.stream_id } ∷ []);
                })
                else reject (remove p f.stream_id) f.stream_id session_failed
                    (ascii "allocator edge is not accepting streams")
          ]
    ]

unfoldable pub ingest_pair_frame : Pair → Frame → Result
unfolding terminate end_all
ingest_pair_frame p f =
    if f.typ == Stream.frame_type_close
    then terminate p (parse_close_payload f.payload) false
    else if f.typ == frame_type_preamble || f.typ == frame_type_accept
    then if leb max_packet_payload (length p.raw)
      then end_all p
          (record { reason = session_failed; detail = ascii "stray handshake frame flood" })
      else silent (record p { raw = p.raw ++ append_frame [] f.typ f.stream_id f.payload })
    else silent p

-- The stream takes in the frame; one that ends is forgotten by the pair.
abbrev pub to_stream : Pair → Frame → Stream → Result
to_stream p f s =
    let w = Stream.ingest s f in
    record {
      pair = record p {
        streams =
            if w.stream.closed
            then delete (stream_key f.stream_id) p.streams
            else put (stream_key f.stream_id) w.stream p.streams;
      };
      frames = if p.closed then [] else w.frames;
      ended = if w.stream.closed then w.stream ∷ [] else [];
    }

unfoldable pub route : Registry → Pair → Frame → Result
unfolding ingest_pair_frame open_allocator_stream Stream.ingest
route r p f =
    if f.stream_id == stream_id_none
    then ingest_pair_frame p f
    else if f.typ == Stream.frame_type_stream_open
    then open_allocator_stream r p f
    else elim (get (stream_key f.stream_id) p.streams) [
      | none ↦ silent p
      | some s ↦ to_stream p f s
    ]

abbrev first_byte : Packet → Packet
first_byte [] = []
first_byte (b ∷ bs) = b ∷ []

abbrev malformed : Packet → SessionError
malformed why = record { reason = session_failed; detail = ascii "yggdrasil tunnel frame: " ++ why }

-- What is done with a packet, once it is parsed.
unfoldable pub take_parsed : Registry → Pair → Packet → Parsed → Result
unfolding route end_all
take_parsed r p packet incomplete = end_all p (malformed (ascii "short frame"))
take_parsed r p packet unknown_type =
    end_all p (malformed (ascii "unknown frame type 0x" ++ hex_encode (first_byte packet)))
take_parsed r p packet oversized = end_all p (malformed (ascii "oversized frame length"))
take_parsed r p packet (complete f consumed) = route r p f

unfoldable pub ingest : Registry → Pair → Packet → Result
unfolding take_parsed
ingest r p packet = take_parsed r p packet (parse_frame packet)

-- Whether the session's done channel is closed.
abbrev pub is_done : Registry → Session → Bool
is_done r s = is_closed s.id r.closed

-- Authorize: none where the pair or the session is over.
unfoldable pub authorize : Registry → Pair → Session → Option Result
authorize r p session =
    if p.closed || is_done r session
    then none
    else some (record {
      pair = record p { session = some session };
      frames = write_frame p frame_type_accept stream_id_none [];
      ended = [];
    })

-- The goroutine of Authorize, once the session is done.
unfoldable pub session_done : Pair → Result
unfolding end_all
session_done p = end_all p (record { reason = execution_ended; detail = [] })

-- One turn of readPairFrame: a frame, nothing yet, or the reason why none will come.
pub data HandshakeRead : Type 0 where
  frame_error : HandshakeRead
  nothing_yet : HandshakeRead
  pair_closed : Option SessionError → HandshakeRead
  frame_read : Frame → Pair → HandshakeRead

unfoldable pub read_pair_frame : Pair → HandshakeRead
read_pair_frame p = elim (parse_frame p.raw) [
  | unknown_type ↦ frame_error
  | oversized ↦ frame_error
  | incomplete ↦ if p.closed then pair_closed p.close_err else nothing_yet
  | complete f consumed ↦ frame_read f (record p { raw = drop consumed p.raw })
]

-- AcceptStream, with what a session that is over refuses; none where it waits.
pub data Accepted : Type 0 where
  edge_closed : Accepted
  waits : Accepted
  accepted : IncomingStream → Pair → Accepted

abbrev over : Registry → Option Session → Bool
over r none = false
over r (some s) = is_done r s

unfoldable pub accept_stream : Registry → Pair → Accepted
accept_stream r p = elim p.incoming [
  | [] ↦ if p.closed then edge_closed else waits
  | i ∷ rest ↦
      if p.closed || over r p.session
      then edge_closed
      else accepted i (record p { incoming = rest })
]
