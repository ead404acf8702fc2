-- ===== src/Tests/Access.antt =====
-- The theorems on the direct access to an execution, at concrete inputs.
use r1s.Base.{
  ℕ, ◌≡◌, ◌≢◌, ◌↔◌, refl, Bool, true, false, none, some, List, [], ◌∷◌, Bytes, ascii, is_empty, get,
  arith, ok, err,
}
use r1s.Protocol.Messages.{
  ExecutionPhase, ExecutionTunnelOpen, terminal, ExecutionLogsRequest, ExecutionLogsResponse,
  Envelope, execution_logs_response,
}
use r1s.Protocol.Validate.{targets_to_proto, validate_logs_request, validate_logs_response}
use r1s.Tunnel.Registry
use r1s.Tunnel.Registry.{Session}
use r1s.Allocator.Errors.{nil}
use r1s.Allocator.State.{Allocator, ExecutionRecord, Outcome}
use r1s.Allocator.Access.{
  is_live, Opening, open_tunnel_session, handle_tunnel_open, dial_tunnel_target, refused,
}
use r1s.Allocator.AccessLaws.{
  Settled, MayConnect, open_tunnel_session-Settled, handle_tunnel_open-opens,
  dial_tunnel_target_iff,
}
use r1s.Allocator.Views.{envelope_of}
use r1s.Allocator.Logs.{handle_logs}
use r1s.Allocator.LogsLaws.{handle_logs-Accepted}
use r1s.Client.Inbound.{answers}
use r1s.Tests.Logs.{named, one_log}
use r1s.Tests.Commands.{idle, steady}

-- An execution that runs, on an allocator with an edge.
abbrev serving : Allocator
serving = record idle {
  executions = (ascii "e1", steady) ∷ [];
  tunnel_config = record {
    enabled = true;
    endpoint = record { address = ascii "tls://a"; pub_key = ascii "k" };
  };
}

abbrev web : ExecutionTunnelOpen
web = record {
  execution_id = ascii "e1";
  ygg_peer_pubkey = ascii "peer";
  targets = record { port = 8080 } ∷ [];
}

abbrev unchanged : Allocator → Allocator
unchanged a = a

-- The execution ends meanwhile.
abbrev ended : Allocator → Allocator
ended a = record a {
  executions = (ascii "e1", record steady { phase = ExecutionPhase.completed }) ∷ [];
}

abbrev bound : Allocator
bound = (handle_tunnel_open (ascii "m1") 5 unchanged serving steady.client (ascii "c1") web).state

open_tunnel_session-Settled_example :
    Settled bound bound
      (ascii "e1")
      (ascii "peer")
      (open_tunnel_session unchanged ended bound (ascii "e1") (ascii "peer"))
open_tunnel_session-Settled_example =
    open_tunnel_session-Settled unchanged ended bound (ascii "e1") (ascii "peer")

web_answered :
    (handle_tunnel_open (ascii "m1") 5 unchanged serving steady.client (ascii "c1") web).error ≡ nil
unfolding handle_tunnel_open get r1s.Base.beq r1s.Protocol.Validate.validate_tunnel_targets
    r1s.Protocol.Validate.target_problem Registry.bind
web_answered = refl

serving_idle : Registry.current serving.tunnels (ascii "e1") ≡ none
unfolding Registry.current get
serving_idle = refl

serving_live : is_live (get (ascii "e1") serving.executions) ≡ true
unfolding get r1s.Base.beq
serving_live = refl

handle_tunnel_open-opens_example :
    let opening : Opening =
      open_tunnel_session unchanged unchanged bound (ascii "e1") (ascii "peer") in
    ((e : ExecutionRecord) × ((get (ascii "e1") serving.executions ≡ some e)
        × (e.client ≡ steady.client)
        × (terminal e.phase ≡ false)))
    × (ascii "peer" ≡ ascii "peer"
        → (s : Session) × ((opening.result ≡ ok s) × (targets_to_proto s.targets ≡ web.targets)))
    × (ascii "peer" ≢ ascii "peer" → opening.result ≡ err (refused Registry.peer_key_mismatch))
handle_tunnel_open-opens_example =
    handle_tunnel_open-opens (ascii "m1") 5 unchanged serving steady.client (ascii "c1") web
      (ascii "peer") web_answered serving_live serving_idle

-- The session of the bound execution.
abbrev door : Session
door = record {
  id = 0;
  execution_id = ascii "e1";
  peer_key = ascii "peer";
  targets = record { port = 8080 } ∷ [];
  endpoint = serving.tunnel_config.endpoint;
}

abbrev opened : Allocator
opened = (open_tunnel_session unchanged unchanged bound (ascii "e1") (ascii "peer")).state

dialled : dial_tunnel_target true true unchanged opened door 8080 ≡ ok tt
unfolding dial_tunnel_target Registry.active get open_tunnel_session handle_tunnel_open r1s.Base.beq
    r1s.Protocol.Validate.validate_tunnel_targets r1s.Protocol.Validate.target_problem Registry.bind
    Registry.open_session r1s.Base.put Registry.resolve_target
dialled = refl

dial_tunnel_target_iff_example :
    (dial_tunnel_target true true unchanged opened door 8080 ≡ ok tt)
    ↔ ((true ≡ true) × (true ≡ true) × MayConnect opened opened door 8080)
dial_tunnel_target_iff_example = dial_tunnel_target_iff true true unchanged opened door 8080

abbrev ask : ExecutionLogsRequest
ask = record { execution_id = ascii "e1"; stream = ascii "stdout"; offset = 1; max_bytes = 9 }

-- A stand-in for SHA-256.
abbrev digest : Bytes → Bytes
digest b = b

ask_valid : validate_logs_request (some ask) ≡ none
unfolding validate_logs_request r1s.Base.blank r1s.Base.beq
ask_valid = refl

correlated : is_empty (ascii "c1") ≡ false
correlated = refl

abbrev logs_answer : Outcome
logs_answer =
    handle_logs digest named (ascii "m1") 5 (some one_log) serving steady.client (ascii "c1") ask

handle_logs-Accepted_example :
    (logs_answer.state ≡ serving)
    × (logs_answer.error ≡ nil
        → ((e : ExecutionRecord) × ((get (ascii "e1") serving.executions ≡ some e)
              × (e.client ≡ steady.client)))
          × ((r : ExecutionLogsResponse) × (let answer : Envelope =
                  envelope_of serving
                    (ascii "m1")
                    (ascii "c1")
                    5
                    (execution_logs_response (some r)) in
                (logs_answer.responses ≡ answer ∷ [])
                × (validate_logs_response digest answer (some r) ≡ none)
                × (answers ask r ≡ true))))
handle_logs-Accepted_example =
    handle_logs-Accepted digest named (ascii "m1") 5 (some one_log) serving steady.client
      (ascii "c1") ask ask_valid correlated

-- The run of the witness is one that answers.
logs_answered : logs_answer.error ≡ nil
unfolding handle_logs get r1s.Base.beq
logs_answered = refl
