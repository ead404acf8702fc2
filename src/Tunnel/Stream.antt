-- ===== src/Tunnel/Stream.antt =====
-- yggdrasil/stream.go: one logical stream of a pair. A blocked call is a result of its own; the
-- frames a call writes are listed in its result, in order. pair.writeFrame is taken to succeed.
use r1s.Base.{
  ℕ, zero, suc, ◌+◌, ◌-◌, ◌&&◌, ◌||◌, not, Bool, true, false, Option, none, some, List, [], ◌∷◌,
  ◌++◌, ascii, length, take, drop, ltb, leb, ◌==◌, is_empty, is_none, if◌then◌else◌,
}
use r1s.Tunnel.Framing.{
  Packet, Frame, Reason, closed, session_failed, SessionError, close_payload, parse_close_payload,
  encode_stream_open, stream_window_payload, parse_window_payload,
}

-- The frame types.
abbrev pub frame_type_data : ℕ
frame_type_data = 1

abbrev pub frame_type_eof : ℕ
frame_type_eof = 2

abbrev pub frame_type_close : ℕ
frame_type_close = 3

abbrev pub frame_type_stream_open : ℕ
frame_type_stream_open = 6

abbrev pub frame_type_window_update : ℕ
frame_type_window_update = 7

abbrev pub stream_window_size : ℕ
stream_window_size = 65536

abbrev pub window_update_threshold : ℕ
window_update_threshold = 16384

-- streamConn. `closed` also says that closeOnce is spent.
pub record Stream : Type 0 where
  pub id : ℕ
  pub inbox : Packet
  pub eof : Bool
  pub peer_err : Option SessionError
  pub closed : Bool
  pub read_done : Bool
  pub write_eof : Bool
  pub recv_avail : ℕ
  pub grant_pending : ℕ
  pub peer_window : ℕ

abbrev pub new_stream : ℕ → Stream
new_stream id = record {
  id = id;
  inbox = [];
  eof = false;
  peer_err = none;
  closed = false;
  read_done = false;
  write_eof = false;
  recv_avail = stream_window_size;
  grant_pending = 0;
  peer_window = stream_window_size;
}

abbrev pub frame : Stream → ℕ → Packet → Frame
frame s typ payload = record { typ = typ; stream_id = s.id; payload = payload }

-- A stream and the frames written to the peer.
pub record Wrote : Type 0 where
  pub stream : Stream
  pub frames : List Frame

pub data Sent : Type 0 where
  write_closed : Sent
  peer_ended : SessionError → Sent
  -- The call waits for window.
  blocked : Sent
  sent : Wrote → Sent

unfoldable pub send_open : Stream → ℕ → Sent
send_open s target_port =
    if s.closed || s.write_eof
    then write_closed
    else sent (record {
      stream = s;
      frames = frame s frame_type_stream_open (encode_stream_open target_port) ∷ [];
    })

unfoldable pub send_data : Stream → Packet → Sent
send_data s payload = if s.closed || s.write_eof then write_closed else elim s.peer_err [
  | some e ↦ peer_ended e
  | none ↦
      if ltb s.peer_window (length payload)
      then blocked
      else sent (record {
        stream = record s { peer_window = s.peer_window - length payload };
        frames = frame s frame_type_data payload ∷ [];
      })
]

-- How a Write ends: all written, waiting for window with the rest of the bytes, or failed.
pub data Ending : Type 0 where
  all_written : Ending
  waiting : Packet → Ending
  failed : Sent → Ending

-- `total` counts the bytes written.
pub record Writing : Type 0 where
  pub stream : Stream
  pub frames : List Frame
  pub total : ℕ
  pub ending : Ending

abbrev pub stop : Stream → ℕ → Ending → Writing
stop s total ending = record { stream = s; frames = []; total = total; ending = ending }

abbrev pub after_frames : List Frame → Writing → Writing
after_frames frames w = record w { frames = frames ++ w.frames }

-- Each turn takes one segment of at most `max_seg` bytes, so `length p` turns are enough.
unfoldable pub write_loop : ℕ → ℕ → Stream → Packet → ℕ → Writing
write_loop zero max_seg s p total = stop s total (if is_empty p then all_written else waiting p)
write_loop (suc fuel) max_seg s p total =
    if is_empty p then stop s total all_written else elim (send_data s (take max_seg p)) [
      | blocked ↦ stop s total (waiting p)
      | sent w ↦
          after_frames w.frames
            (write_loop fuel max_seg w.stream (drop max_seg p) (total + length (take max_seg p)))
      | write_closed ↦ stop s total (failed write_closed)
      | peer_ended e ↦ stop s total (failed (peer_ended e))
    ]

unfoldable pub write : ℕ → Stream → Packet → Writing
unfolding write_loop
write max_seg s p = write_loop (length p) max_seg s p 0

-- `end`: the pair then forgets the stream.
unfoldable pub end : Stream → Option SessionError → Wrote
end s notice = if s.closed then record { stream = s; frames = [] } else record {
  stream = record s { closed = true };
  frames = elim notice [
    | none ↦ []
    | some e ↦ frame s frame_type_close (close_payload e.reason e.detail) ∷ []
  ];
}

pub data Received : Type 0 where
  read_aborted : Received
  end_of_file : Received
  peer_ended : SessionError → Stream → Received
  -- The call waits for the stream to change.
  waiting : Received
  received : Packet → Wrote → Received

-- The bytes taken out of the inbox are granted back, in batches.
abbrev pub consume : Stream → ℕ → Wrote
consume s n =
    let taken : ℕ = length (take n s.inbox) in
    let pending : ℕ = s.grant_pending + taken in
    let rest : Stream = record s {
      inbox = drop n s.inbox;
      recv_avail = s.recv_avail + taken;
      grant_pending = if leb window_update_threshold pending then 0 else pending;
    } in
    record {
      stream = rest;
      frames =
          if leb window_update_threshold pending
          then frame s frame_type_window_update (stream_window_payload pending) ∷ []
          else [];
    }

-- Read with room for `n` bytes.
unfoldable pub read : Stream → ℕ → Received
unfolding end
read s n =
    if s.read_done
    then read_aborted
    else if not (is_empty s.inbox)
    then received (take n s.inbox) (consume s n)
    else elim s.peer_err [
      | some e ↦ peer_ended e (end s none).stream
      | none ↦ if s.eof then end_of_file else if s.closed then read_aborted else waiting
    ]

unfoldable pub close_read : Stream → Stream
close_read s = record s { read_done = true; inbox = [] }

unfoldable pub close_write : Stream → Wrote
close_write s =
    if s.closed || s.write_eof
    then record { stream = s; frames = [] }
    else record { stream = record s { write_eof = true }; frames = frame s frame_type_eof [] ∷ [] }

unfoldable pub close_with_reason : Stream → Reason → Packet → Wrote
unfolding end
close_with_reason s reason detail = end s (some (record { reason = reason; detail = detail }))

unfoldable pub close : Stream → Wrote
unfolding end
close s = end s (some (record { reason = closed; detail = [] }))

abbrev quiet : Stream → Wrote
quiet s = record { stream = s; frames = [] }

unfoldable pub ingest : Stream → Frame → Wrote
unfolding end
ingest s f =
    if f.typ == frame_type_data
    then if ltb s.recv_avail (length f.payload)
      then end s (
          some (record {
            reason = session_failed;
            detail = ascii "per-stream flow-control violation";
          }))
      else quiet
          (record s { recv_avail = s.recv_avail - length f.payload; inbox = s.inbox ++ f.payload })
    else if f.typ == frame_type_eof
    then quiet (record s { eof = true })
    else if f.typ == frame_type_close
    then if is_none s.peer_err && not (is_empty f.payload)
      then quiet (record s { peer_err = some (parse_close_payload f.payload) })
      else quiet s
    else if f.typ == frame_type_window_update
    then if leb 4 (length f.payload)
      then quiet (record s { peer_window = s.peer_window + parse_window_payload f.payload })
      else quiet s
    else quiet s
