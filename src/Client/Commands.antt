-- ===== src/Client/Commands.antt =====
-- commands.go, logs.go and tunnel.go of internal/client: the commands a client sends. sha256 is the
-- digest of the validation and of the first run ID.
use r1s.Base.{
  ℕ, ◌+◌, ◌||◌, Option, none, some, List, [], Bytes, get, length, take, beq, ltb, ◌==◌, is_empty,
  is_none, if◌then◌else◌, hex_encode, Checked, ok, err, ◌>>=◌, ◌>>◌, stop_if, present,
}
use r1s.Protocol.Messages.{
  Envelope, Payload, Workload, ExecutionPolicy, PlacementConstraints, ExecutionRequest,
  ExecutionLogsRequest, ExecutionTunnelOpen, execution_inspect, execution_cancel,
  execution_logs_request, execution_tunnel_open, stamp,
}
use r1s.Protocol.Validate.{validate_envelope, validate_tunnel_targets, targets_to_proto}
use r1s.Tunnel.Contract.{Target, max_peer_key_size}
use r1s.Client.State.{
  ClientError, invalid_config, execution_not_found, conflict, invalid_message, ExecutionRecord,
  Client, put_execution, put_request,
}
use r1s.Client.Selection.{Command, request_envelope}

abbrev pub max_uint64 : ℕ
max_uint64 = 18446744073709551615

-- What a client-made message carries besides its payload.
abbrev pub message : Client → Bytes → ℕ → Payload → Envelope
message c message_id now payload = record {
  message_id = message_id;
  sender = c.identity;
  correlation_id = [];
  sent_at = stamp now;
  payload = payload;
}

-- The first attempt of a run, without its IDs.
abbrev pub first_request :
    Option Workload
    → Option ExecutionPolicy
    → Bytes
    → Option PlacementConstraints
    → ExecutionRequest
first_request workload policy class constraints = record {
  request_id = [];
  workload = workload;
  policy = policy;
  resource_class = class;
  constraints = constraints;
  run_id = [];
  attempt = 1;
}

module _ (sha256 : Bytes → Bytes) where
  abbrev pub check : Envelope → Checked ClientError (Unit {0})
  check e = elim (validate_envelope sha256 e) [
    | none ↦ ok tt
    | some problem ↦ err (invalid_message problem)
  ]

  abbrev pub initial_run_id : Bytes → Bytes
  initial_run_id request_id = hex_encode (take 16 (sha256 request_id))

  -- createRequest, with the request but for its IDs.
  unfoldable pub create_request :
      (ℕ → Bytes) → ℕ → Client → ExecutionRequest → Checked ClientError (Client × Bytes × Envelope)
  create_request new_id now c asked = do
    let request_id : Bytes = if is_none (get (new_id 0) c.requests) then new_id 0 else []
    stop_if (is_empty request_id || is_empty (new_id 1)) invalid_config
    let request : ExecutionRequest = record asked {
      request_id = request_id;
      run_id = if is_empty asked.run_id then initial_run_id request_id else asked.run_id;
    }
    let envelope : Envelope = request_envelope c request (new_id 1) now
    check envelope
    ok (
      put_request c request_id (record {
        request = request;
        message_id = new_id 1;
        created_at = now;
        offers = [];
        execution_id = [];
      }),
      request_id,
      envelope,
    )

  -- CreateRequestWithConstraints; CreateRequest gives no constraints.
  unfoldable pub create_first :
      (ℕ → Bytes)
      → ℕ
      → Client
      → Option Workload
      → Option ExecutionPolicy
      → Bytes
      → Option PlacementConstraints
      → Checked ClientError (Client × Bytes × Envelope)
  unfolding create_request
  create_first new_id now c workload policy class constraints =
      create_request new_id now c (first_request workload policy class constraints)

  unfoldable pub create_next_attempt :
      (ℕ → Bytes)
      → ℕ
      → Client
      → Option ExecutionRequest
      → Checked ClientError (Client × Bytes × Envelope)
  unfolding create_request
  create_next_attempt new_id now c previous = do
    request ← present previous invalid_config
    stop_if (request.attempt == max_uint64) invalid_config
    create_request new_id now c (record request { attempt = request.attempt + 1 })

  unfoldable pub logs :
      Bytes → ℕ → Client → Bytes → Bytes → ℕ → ℕ → Checked ClientError (Client × Command)
  logs message_id now c id stream offset limit = do
    r ← present (get id c.executions) execution_not_found
    let request : ExecutionLogsRequest = record {
      execution_id = id;
      stream = stream;
      offset = offset;
      max_bytes = limit;
    }
    let envelope : Envelope = message c message_id now (execution_logs_request (some request))
    check envelope
    ok (
      record c { log_message_id = message_id; log_request = some request },
      record { destination = r.destination; envelope = envelope },
    )

  unfoldable pub tunnel_open :
      Bytes → ℕ → Client → Bytes → Bytes → List Target → Checked ClientError Command
  unfolding targets_to_proto
  tunnel_open message_id now c execution_id peer_key targets = do
    r ← present (get execution_id c.executions) execution_not_found
    stop_if (is_empty peer_key || ltb max_peer_key_size (length peer_key)) invalid_config
    elim (validate_tunnel_targets (targets_to_proto targets))
        as (λ x. Checked ClientError (Unit {0})) [
          | err problem ↦ err (invalid_message problem)
          | ok valid ↦ ok tt
        ]
    let request : ExecutionTunnelOpen = record {
      execution_id = execution_id;
      ygg_peer_pubkey = peer_key;
      targets = targets_to_proto targets;
    }
    let envelope : Envelope = message c message_id now (execution_tunnel_open (some request))
    check envelope
    ok (record { destination = r.destination; envelope = envelope })

-- RequestEnvelope
unfoldable pub stable_envelope : Client → Bytes → Option Envelope
stable_envelope c request_id = elim (get request_id c.requests) [
  | none ↦ none
  | some r ↦ some (request_envelope c r.request r.message_id r.created_at)
]

unfoldable pub inspect : Bytes → ℕ → Client → Bytes → Checked ClientError (Client × Command)
inspect message_id now c execution_id = do
  r ← present (get execution_id c.executions) execution_not_found
  stop_if (is_empty message_id) invalid_config
  ok (
    put_execution c execution_id
        (record r { inspect_message_id = message_id; inspect_sent_at = now }),
    record {
      destination = r.destination;
      envelope =
          message c message_id now
            (execution_inspect (some (record { execution_id = execution_id })));
    },
  )

abbrev pub cancel_command : Client → ExecutionRecord → Bytes → Bytes → Command
cancel_command c r execution_id reason = record {
  destination = r.destination;
  envelope =
      message c r.cancel_message_id r.cancel_sent_at
        (execution_cancel (some (record { execution_id = execution_id; reason = reason })));
}

abbrev asked : Bytes → ℕ → Bytes → ExecutionRecord → ExecutionRecord
asked message_id now reason r = record r {
  cancel_message_id = message_id;
  cancel_sent_at = now;
  cancel_reason = reason;
}

-- The time and the reason stay recorded where newID gives no ID.
unfoldable pub cancel : Bytes → ℕ → Client → Bytes → Bytes → Client × Checked ClientError Command
cancel message_id now c execution_id reason = elim (get execution_id c.executions) [
  | none ↦ (c, err execution_not_found)
  | some r ↦
      if is_empty r.cancel_message_id
      then (
        put_execution c execution_id (asked message_id now reason r),
        if is_empty message_id
            then err invalid_config
            else ok (cancel_command c (asked message_id now reason r) execution_id reason),
      )
      else (
        c,
        if beq r.cancel_reason reason
            then ok (cancel_command c r execution_id reason)
            else err conflict,
      )
]
