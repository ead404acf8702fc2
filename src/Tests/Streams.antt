-- ===== src/Tests/Streams.antt =====
-- The theorems on streams and pairs, at concrete inputs.
use r1s.Base.{
  ◌≡◌, ◌≢◌, ◌≤◌, ◌+◌, ◌⊎◌, refl, true, false, none, some, List, [], ◌∷◌, ◌++◌, ascii, length, take,
  IsMap, arith, get,
}
use r1s.Tunnel.Registry.{Registry, Session}
use r1s.Tunnel.Framing.{
  Packet, Frame, SessionError, session_failed, max_packet_payload, append_frame,
}
use r1s.Tunnel.Stream
use r1s.Tunnel.Link.{Turn, near_acts, far_acts, send, receive, deliver, start, run}
use r1s.Tunnel.Flow.{data_size, run-window}
use r1s.Tunnel.Pipe.{data_in, run-pipe}
use r1s.Tunnel.Wakes.{MovesOn, run-wakes}
use r1s.Tunnel.Segments.{Segmented, write-Segmented}
use r1s.Tunnel.Pair
use r1s.Tunnel.PairLaws.{Grows, Ended, ingest-Grows, route-other, terminate_lem}

-- The far end sends three bytes and then two; the near end takes in the first frame and reads two.
abbrev talk : List Turn
talk =
    far_acts (send (1 ∷ 2 ∷ 3 ∷ []))
    ∷ far_acts (send (4 ∷ 5 ∷ []))
    ∷ near_acts deliver
    ∷ near_acts (receive 2)
    ∷ []

abbrev second : Frame
second = record { typ = 1; stream_id = 7; payload = 4 ∷ 5 ∷ [] }

talk_wire : (run talk (start 7)).far.wire ≡ second ∷ []
unfolding run
talk_wire = refl

run-window_example :
    ((Stream.ingest (run talk (start 7)).near.stream second).stream.closed
      ≡ (run talk (start 7)).near.stream.closed)
    × (data_size (second ∷ []) + length (run talk (start 7)).near.stream.inbox ≤ 65536)
run-window_example = run-window talk 7 second [] talk_wire

run-pipe_example :
    (rest : Packet) × (((run talk (start 7)).far.written ≡ (run talk (start 7)).near.got ++ rest)
      × (((run talk (start 7)).near.stream.read_done ≡ true)
          ⊎ (((run talk (start 7)).near.stream.closed ≡ true)
              ⊎ (rest
                  ≡ (run talk (start 7)).near.stream.inbox
                    ++ data_in (run talk (start 7)).far.wire))))
run-pipe_example = run-pipe talk 7

-- The near end has sent a segment that the far end has not taken in.
abbrev sending : List Turn
sending = near_acts (send (1 ∷ 2 ∷ 3 ∷ [])) ∷ []

sending_near : (run sending (start 7)).near.stream.closed ≡ false
unfolding run
sending_near = refl

sending_far : (run sending (start 7)).far.stream.closed ≡ false
unfolding run
sending_far = refl

sending_reads : (run sending (start 7)).far.stream.read_done ≡ false
unfolding run
sending_reads = refl

run-wakes_example :
    (more : List Turn) × (MovesOn more
      × ((run more (run sending (start 7))).near.stream.closed ≡ false)
      × (Stream.send_data
            (run more (run sending (start 7))).near.stream
            (take max_packet_payload (4 ∷ 5 ∷ []))
          ≢ Stream.blocked))
run-wakes_example = run-wakes sending 7 (4 ∷ 5 ∷ []) sending_near sending_far sending_reads

write-Segmented_example :
    Segmented 2 (1 ∷ 2 ∷ 3 ∷ []) 0 (Stream.write 2 (Stream.new_stream 7) (1 ∷ 2 ∷ 3 ∷ []))
write-Segmented_example = write-Segmented 2 (Stream.new_stream 7) (1 ∷ 2 ∷ 3 ∷ []) (omega arith)

abbrev session_3 : Session
session_3 = record {
  id = 3;
  execution_id = ascii "e1";
  peer_key = ascii "peer";
  targets = record { port = 8080 } ∷ [];
  endpoint = record { address = ascii "200::1"; pub_key = ascii "k" };
}

abbrev no_grants : Registry
no_grants = record { records = []; issued = 4; closed = [] }

abbrev authorized_pair : Pair.Pair
authorized_pair = record {
  peer = ascii "peer";
  max_seg = 16384;
  streams = (Pair.stream_key 2, Stream.new_stream 2) ∷ [];
  next_id = 1;
  closed = false;
  close_err = none;
  session = some session_3;
  client_ready = false;
  incoming = [];
  raw = [];
}

ingest-Grows_example :
    Grows no_grants authorized_pair
      (Pair.ingest no_grants authorized_pair (append_frame [] 6 9 (31 ∷ 144 ∷ []))).pair.incoming
ingest-Grows_example = ingest-Grows no_grants authorized_pair (append_frame [] 6 9 (31 ∷ 144 ∷ []))

abbrev bytes_for_9 : Frame
bytes_for_9 = record { typ = 6; stream_id = 9; payload = 31 ∷ 144 ∷ [] }

one_stream : IsMap authorized_pair.streams
unfolding get
one_stream = (refl, tt)

route-other_example :
    (get (Pair.stream_key 2) (Pair.route no_grants authorized_pair bytes_for_9).pair.streams
      ≡ get (Pair.stream_key 2) authorized_pair.streams)
    × ((Pair.route no_grants authorized_pair bytes_for_9).pair.closed ≡ false)
    × ((Pair.route no_grants authorized_pair bytes_for_9).pair.session ≡ some session_3)
    × ((Pair.route no_grants authorized_pair bytes_for_9).pair.raw ≡ [])
route-other_example =
    route-other no_grants authorized_pair bytes_for_9 2 one_stream (omega arith) (omega arith)

abbrev lost : SessionError
lost = record { reason = session_failed; detail = [] }

terminate_lem_example :
    Ended lost authorized_pair.streams (Pair.terminate authorized_pair lost true).ended
    × ((Pair.terminate authorized_pair lost true).pair.streams ≡ [])
    × (Pair.open_stream (Pair.terminate authorized_pair lost true).pair 80 ≡ none)
    × (Pair.accept_stream no_grants (Pair.terminate authorized_pair lost true).pair
        ≡ Pair.edge_closed)
    × (Pair.authorize no_grants (Pair.terminate authorized_pair lost true).pair session_3 ≡ none)
    × (Pair.end_all (Pair.terminate authorized_pair lost true).pair lost
        ≡ Pair.silent (Pair.terminate authorized_pair lost true).pair)
    × ((Pair.ingest no_grants (Pair.terminate authorized_pair lost true).pair (1 ∷ [])).frames ≡ [])
terminate_lem_example =
    terminate_lem no_grants authorized_pair lost lost true 80 session_3 (1 ∷ []) refl
