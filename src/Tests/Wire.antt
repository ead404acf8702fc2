-- ===== src/Tests/Wire.antt =====
-- The theorems on messages, placement, frames and the tunnel registry, at concrete inputs.
use r1s.Base.{
  err, ℕ, ◌≡◌, ◌≢◌, ◌≤◌, ◌+◌, if◌then◌else◌, refl, ◌↔◌, Bool, true, false, none, some, List, [],
  ◌∷◌, ◌++◌, Bytes, ascii, length, All, IsMap, get, ok, arith, err, blank, ltb, beq, is_empty,
}
use r1s.Tunnel.Contract.{Target, Endpoint}
use r1s.Protocol.Messages.{
  NodeCapabilities, PlacementConstraints, TunnelTarget, ExecutionLogsResponse, Envelope, absent,
}
use r1s.Protocol.Placement.{placement_matches, placement_compatible, missing, validate_constraints}
use r1s.Protocol.PlacementLaws.{
  Satisfies, placement_matches_iff, missing_iff, matched_labels_present,
}
use r1s.Protocol.Validate.{validate_tunnel_targets, targets_to_proto, validate_logs_response}
use r1s.Protocol.ValidateLaws.{IsPort, validate_tunnel_targets_lem, logs_response_range}
use r1s.Tunnel.Registry.{
  Session, Record, Registry, open_session, current, active, release, invalidate, resolve_target,
  issue,
}
use r1s.Tunnel.RegistryLaws.{open_session_lem, release-newer, invalidate_lem}
use r1s.Tunnel.Framing
use r1s.Tunnel.Framing.{append_frame, parse_frame, close_payload, parse_close_payload}
use r1s.Tunnel.FramingLaws.{parse_frame-append_frame, parse_close_payload-close_payload}

abbrev gpu_node : NodeCapabilities
gpu_node = record {
  os = ascii "linux";
  arch = ascii "arm64";
  runtime = ascii "containerd";
  resource_profiles = ascii "small" ∷ [];
  devices = ascii "gpu" ∷ [];
  labels = (ascii "zone", ascii "eu") ∷ [];
  cached_images = [];
}

abbrev wanted : PlacementConstraints
wanted = record {
  os = ascii "linux";
  arch = [];
  runtime = [];
  labels = (ascii "zone", ascii "eu") ∷ [];
  devices = ascii "gpu" ∷ [];
}

abbrev amd_only : PlacementConstraints
amd_only = record wanted { arch = ascii "amd64" }

placement_matches_iff_example :
    (placement_matches (some wanted) (some gpu_node) ≡ true) ↔ Satisfies wanted gpu_node
placement_matches_iff_example = placement_matches_iff wanted gpu_node

missing_iff_example :
    (missing amd_only gpu_node ≡ []) ↔ (placement_matches (some amd_only) (some gpu_node) ≡ true)
missing_iff_example = missing_iff amd_only gpu_node

wanted_valid : validate_constraints (some wanted) ≡ none
unfolding validate_constraints r1s.Protocol.Placement.capability_value r1s.Base.all r1s.Base.any
    r1s.Protocol.Placement.capability_key
wanted_valid = refl

wanted_fits : placement_matches (some wanted) (some gpu_node) ≡ true
unfolding placement_matches beq r1s.Protocol.Placement.labels_match get
    r1s.Protocol.Placement.devices_match r1s.Protocol.Placement.contains
wanted_fits = refl

matched_labels_present_example : All (λ e. get e.0 gpu_node.labels ≡ some e.1) wanted.labels
matched_labels_present_example = matched_labels_present wanted gpu_node wanted_valid wanted_fits

abbrev web_port : TunnelTarget
web_port = record { port = 8080 }

abbrev web_target : Target
web_target = record { port = 8080 }

accepts_ports : validate_tunnel_targets (web_port ∷ []) ≡ ok (web_target ∷ [])
unfolding validate_tunnel_targets r1s.Protocol.Validate.target_problem
accepts_ports = refl

validate_tunnel_targets_lem_example :
    (web_port ∷ [] ≢ [])
    × All (λ t. IsPort t.port) (web_target ∷ [])
    × (targets_to_proto (web_target ∷ []) ≡ web_port ∷ [])
validate_tunnel_targets_lem_example =
    validate_tunnel_targets_lem (web_port ∷ []) (web_target ∷ []) accepts_ports

abbrev reply : Envelope
reply = record {
  message_id = ascii "m1";
  sender = ascii "alloc";
  correlation_id = ascii "c1";
  sent_at = none;
  payload = absent;
}

abbrev chunk : ExecutionLogsResponse
chunk = record {
  execution_id = ascii "e1";
  stream = ascii "stdout";
  offset = 4;
  contents = ascii "hello";
  next_offset = 9;
  eof = false;
  truncated = false;
  sha256 = ascii "olleh";
}

-- A checksum for the example.
abbrev sum : Bytes → Bytes
sum data_bytes = if beq data_bytes (ascii "hello") then ascii "olleh" else []

accepts_chunk : validate_logs_response sum reply (some chunk) ≡ none
unfolding validate_logs_response beq
accepts_chunk = refl

logs_response_range_example :
    (9 ≡ 4 + length (ascii "hello"))
    × (length (ascii "hello") ≤ 65536)
    × (sum (ascii "hello") ≡ ascii "olleh")
logs_response_range_example = logs_response_range sum reply chunk accepts_chunk

abbrev eof_frame : Framing.Frame
eof_frame = record { typ = 2; stream_id = 70000; payload = 9 ∷ 8 ∷ [] }

parse_frame-append_frame_example :
    parse_frame (append_frame [] 2 70000 (9 ∷ 8 ∷ []) ++ (1 ∷ []))
    ≡ Framing.complete eof_frame (length (append_frame [] 2 70000 (9 ∷ 8 ∷ [])))
parse_frame-append_frame_example =
    parse_frame-append_frame 2 70000 (9 ∷ 8 ∷ []) (1 ∷ []) (omega arith) (omega arith) (omega arith)
      (omega arith)

parse_close_payload-close_payload_example :
    parse_close_payload (close_payload Framing.grant_revoked (7 ∷ []))
    ≡ record { reason = Framing.grant_revoked; detail = 7 ∷ [] }
parse_close_payload-close_payload_example =
    parse_close_payload-close_payload Framing.grant_revoked (7 ∷ [])

abbrev mesh : Endpoint
mesh = record { address = ascii "200::1"; pub_key = ascii "k" }

abbrev bound : Record
bound = record {
  execution_id = ascii "e1";
  peer_key = ascii "peer";
  targets = web_target ∷ [];
  endpoint = mesh;
  session = none;
}

abbrev grants : Registry
grants = record { records = (ascii "e1", bound) ∷ []; issued = 3; closed = [] }

abbrev opened : Session
opened = issue grants (ascii "e1") (ascii "peer") bound

abbrev busy : Registry
busy = record {
  records = (ascii "e1", record bound { session = some opened }) ∷ [];
  issued = 4;
  closed = [];
}

abbrev old_session : Session
old_session = record opened { id = 1 }

opens : open_session grants (ascii "e1") (ascii "peer") ≡ ok (busy, opened)
unfolding open_session get beq r1s.Base.put
opens = refl

open_session_lem_example :
    (rec : Record) × ((get (ascii "e1") grants.records ≡ some rec)
      × (rec.peer_key ≡ ascii "peer")
      × (rec.session ≡ none)
      × (opened ≡ issue grants (ascii "e1") (ascii "peer") rec)
      × (current busy (ascii "e1") ≡ some opened)
      × (active busy opened ≡ true))
open_session_lem_example = open_session_lem grants busy (ascii "e1") (ascii "peer") opened opens

release-newer_example :
    (release busy old_session ≡ busy)
    × (current (release busy old_session) (ascii "e1") ≡ some opened)
release-newer_example =
    release-newer grants busy (ascii "peer") old_session opened (omega arith) opens

single : get {V = Record} (ascii "e1") [] ≡ none
unfolding get
single = refl

opened_holds : current busy (ascii "e1") ≡ some opened
unfolding current get beq
opened_holds = refl

invalidate_lem_example :
    (active (invalidate busy (ascii "e1")) opened ≡ false)
    × (resolve_target (invalidate busy (ascii "e1")) opened 8080 ≡ none)
    × (get (ascii "e1") (invalidate busy (ascii "e1")).records ≡ none)
invalidate_lem_example = invalidate_lem busy opened 8080 (single, tt) opened_holds
