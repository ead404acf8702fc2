-- ===== src/Tunnel/FramingLaws.antt =====
-- framing.go: what is written is read back.
use r1s.Base.{
  ℕ, ◌+◌, ◌*◌, ◌/◌, ◌%◌, ◌≤◌, ◌<◌, ◌≡◌, refl, [], ◌++◌, length, take, take-append, take_all,
  if_rule, sym, length-append, ltb, arith, if◌then◌else◌,
}
use r1s.Tunnel.Framing.{
  Packet, append_frame, parse_frame, complete, max_packet_payload, Reason, reason_code,
  reason_from_code, close_payload, parse_close_payload, encode_stream_open, decode_stream_open,
  stream_window_payload, parse_window_payload, session_failed, unlisted, close_detail_max,
}

read_be32 :
    (n : ℕ)
    → n < 4294967296
    → n / 16777216 % 256 * 16777216 + n / 65536 % 256 * 65536 + n / 256 % 256 * 256 + n % 256 ≡ n
read_be32 n h = omega arith

read_be16 : (n : ℕ) → n < 65536 → n / 256 % 256 * 256 + n % 256 ≡ n
read_be16 n h = omega arith

-- A frame of a known type, with a stream id of 32 bits and a payload that fits a packet, is read
-- back from the front of any buffer: its type, its stream id and its payload, and exactly its own
-- bytes are consumed.
pub parse_frame-append_frame :
    (typ stream_id : ℕ) (payload rest : Packet)
    → 1 ≤ typ
    → typ ≤ 7
    → stream_id < 4294967296
    → length payload ≤ max_packet_payload
    → parse_frame (append_frame [] typ stream_id payload ++ rest)
      ≡ complete
          (record { typ = typ; stream_id = stream_id; payload = payload })
          (length (append_frame [] typ stream_id payload))
unfolding parse_frame append_frame
parse_frame-append_frame typ stream_id payload rest low high id fits =
    rw (read_be32 stream_id id)
      (ground (arith, take-append payload rest, length-append payload rest))

cut : (n : ℕ) (xs : Packet) → (if ltb n (length xs) then take n xs else xs) ≡ take n xs
cut n xs =
    if_rule (λ ys. ys ≡ take n xs) (ltb n (length xs)) (λ _. refl)
      (λ short. sym (take_all n xs (ground arith)))

-- The reason that the other side reads.
abbrev understood : Reason → Reason
understood (unlisted r) = session_failed
understood reason = reason

understood_lem : (reason : Reason) → reason_from_code (reason_code reason) ≡ understood reason
unfolding reason_from_code reason_code
understood_lem reason = ground arith

-- A listed reason survives the close frame, an unlisted one reads as session_failed; of the
-- detail the first 512 bytes survive.
pub parse_close_payload-close_payload :
    (reason : Reason) (detail : Packet)
    → parse_close_payload (close_payload reason detail)
      ≡ record { reason = understood reason; detail = take close_detail_max detail }
unfolding parse_close_payload close_payload
parse_close_payload-close_payload reason detail =
    rw (understood_lem reason, cut close_detail_max detail) refl

-- A container port and a window increment survive their frames.
pub decode_stream_open-encode :
    (port : ℕ) → port < 65536 → decode_stream_open (encode_stream_open port) ≡ port
unfolding decode_stream_open encode_stream_open
decode_stream_open-encode port h = read_be16 port h

pub parse_window_payload-stream_window_payload :
    (n : ℕ) → parse_window_payload (stream_window_payload n) ≡ n % 4294967296
unfolding parse_window_payload stream_window_payload
parse_window_payload-stream_window_payload n = read_be32 (n % 4294967296) (omega arith)
