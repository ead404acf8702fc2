-- ===== src/Tunnel/Framing.antt =====
-- yggdrasil/framing.go: the frames of the tunnel, one packet each. Bytes are numbers below 256; the
-- JSON of the preamble is not modelled.
use r1s.Base.{
  ℕ, ◌+◌, ◌*◌, ◌/◌, ◌%◌, ◌||◌, List, [], ◌∷◌, ◌++◌, Bytes, ascii, length, take, ltb, ◌==◌,
  if◌then◌else◌,
}

-- The byte strings of packets.
abbrev pub Packet : Type 0
Packet = List ℕ

abbrev pub max_packet_payload : ℕ
max_packet_payload = 16384

abbrev pub close_detail_max : ℕ
close_detail_max = 512

abbrev pub frame_header_size : ℕ
frame_header_size = 7

pub record Frame : Type 0 where
  pub typ : ℕ
  pub stream_id : ℕ
  pub payload : Packet

-- binary.BigEndian.AppendUint16, AppendUint32
abbrev pub be16 : ℕ → Packet
be16 n = (n / 256 % 256) ∷ (n % 256) ∷ []

abbrev pub be32 : ℕ → Packet
be32 n = (n / 16777216 % 256) ∷ (n / 65536 % 256) ∷ (n / 256 % 256) ∷ (n % 256) ∷ []

abbrev pub u16 : ℕ → ℕ
u16 n = n % 65536

unfoldable pub append_frame : Packet → ℕ → ℕ → Packet → Packet
append_frame dst typ stream_id payload =
    dst ++ ((typ ∷ be32 stream_id) ++ (be16 (u16 (length payload)) ++ payload))

pub data Parsed : Type 0 where
  incomplete : Parsed
  unknown_type : Parsed
  oversized : Parsed
  complete : Frame → ℕ → Parsed

abbrev read16 : ℕ → ℕ → ℕ
read16 a b = a * 256 + b

abbrev read32 : ℕ → ℕ → ℕ → ℕ → ℕ
read32 a b c d = a * 16777216 + b * 65536 + c * 256 + d

-- The body after a whole header.
abbrev read_body : ℕ → ℕ → ℕ → Packet → Parsed
read_body typ stream_id size rest =
    if ltb typ 1 || ltb 7 typ
    then unknown_type
    else if ltb max_packet_payload size
    then oversized
    else if ltb (length rest) size
    then incomplete
    else complete (record { typ = typ; stream_id = stream_id; payload = take size rest })
        (frame_header_size + size)

unfoldable pub parse_frame : Packet → Parsed
parse_frame (typ ∷ a ∷ b ∷ c ∷ d ∷ e ∷ f ∷ rest) = read_body typ (read32 a b c d) (read16 e f) rest
parse_frame _ = incomplete

-- tunnel.Reason
pub data Reason : Type 0 where
  closed execution_ended grant_rejected grant_expired : Reason
  grant_revoked unauthorized session_failed mesh_unreachable : Reason
  -- A reason that reasonCodes does not list.
  unlisted : Bytes → Reason

-- reasonCode
unfoldable pub reason_code : Reason → ℕ
reason_code closed = 1
reason_code execution_ended = 2
reason_code grant_rejected = 3
reason_code grant_expired = 4
reason_code grant_revoked = 5
reason_code unauthorized = 6
reason_code session_failed = 7
reason_code mesh_unreachable = 8
reason_code (unlisted r) = 7

-- reasonFromCode: the codes are distinct, so the order in which the map is searched is no matter.
unfoldable pub reason_from_code : ℕ → Reason
reason_from_code code =
    if code == 1
    then closed
    else if code == 2
    then execution_ended
    else if code == 3
    then grant_rejected
    else if code == 4
    then grant_expired
    else if code == 5
    then grant_revoked
    else if code == 6
    then unauthorized
    else if code == 7
    then session_failed
    else if code == 8
    then mesh_unreachable
    else session_failed

pub record SessionError : Type 0 where
  pub reason : Reason
  pub detail : Packet

unfoldable pub close_payload : Reason → Packet → Packet
unfolding reason_code
close_payload reason detail =
    reason_code reason
    ∷ (if ltb close_detail_max (length detail) then take close_detail_max detail else detail)

unfoldable pub parse_close_payload : Packet → SessionError
unfolding reason_from_code
parse_close_payload [] = record {
  reason = session_failed;
  detail = ascii "close frame without reason";
}
parse_close_payload (code ∷ rest) = record { reason = reason_from_code code; detail = rest }

unfoldable pub encode_stream_open : ℕ → Packet
encode_stream_open port = be16 port

unfoldable pub decode_stream_open : Packet → ℕ
decode_stream_open (a ∷ b ∷ rest) = read16 a b
decode_stream_open _ = 0

unfoldable pub stream_window_payload : ℕ → Packet
stream_window_payload increment = be32 (increment % 4294967296)

unfoldable pub parse_window_payload : Packet → ℕ
parse_window_payload (a ∷ b ∷ c ∷ d ∷ rest) = read32 a b c d
parse_window_payload _ = 0
