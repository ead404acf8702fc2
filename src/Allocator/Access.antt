-- ===== src/Allocator/Access.antt =====
-- tunnel.go and logs.go: direct access to an execution. A section that runs unlocked between two locked
-- ones takes `between`, what other goroutines do to the allocator in that time.
use r1s.Base.{
  ℕ, Bool, false, ◌||◌, not, Option, none, some, [], ◌∷◌, Bytes, beq, get, is_empty, if◌then◌else◌,
  Checked, ok, err, ◌>>=◌, ◌>>◌, stop_if, present,
}
use r1s.Protocol.Messages.{ExecutionTunnelOpen, execution_tunnel_open_ack, terminal}
use r1s.Protocol.Validate.{validate_tunnel_targets, targets_to_proto}
use r1s.Tunnel.Contract.{Endpoint}
use r1s.Tunnel.Registry
use r1s.Tunnel.Registry.{Refusal, Session, SessionCopy, Registry}
use r1s.Allocator.Errors.{
  Err, invalid_config, execution_not_found, unauthorized, invalid_transition, tunnel_disabled,
  tunnel_no_endpoint, invalid_envelope, other,
}
use r1s.Allocator.State.{Allocator, ExecutionRecord, Outcome, refuse, answer, is_cancelling}
use r1s.Allocator.Views.{envelope_of}

-- OpenTunnelSession fails as the allocator or as the registry.
pub data AccessError : Type 0 where
  denied : Err → AccessError
  refused : Refusal → AccessError

-- An execution that is there and not terminal.
abbrev pub is_live : Option ExecutionRecord → Bool
is_live none = false
is_live (some e) = not (terminal e.phase)

abbrev pub with_tunnels : Allocator → Registry → Allocator
with_tunnels a r = record a { tunnels = r }

pub record Opening : Type 0 where
  pub state : Allocator
  pub result : Checked AccessError Session

abbrev pub not_opened : Allocator → AccessError → Opening
not_opened a e = record { state = a; result = err e }

-- The second locked section: the session stays open only on a live execution.
unfoldable pub confirm_session : Allocator → Bytes → Session → Opening
confirm_session a execution_id session =
    if is_live (get execution_id a.executions)
    then record { state = a; result = ok session }
    else not_opened (with_tunnels a (Registry.close_session a.tunnels execution_id))
        (denied (invalid_transition ∷ []))

-- `between` comes before the registry's Open, `later` after it.
unfoldable pub open_tunnel_session :
    (Allocator → Allocator) → (Allocator → Allocator) → Allocator → Bytes → Bytes → Opening
unfolding confirm_session
open_tunnel_session between later a execution_id peer_key = elim (get execution_id a.executions) [
  | none ↦ not_opened a (denied (execution_not_found ∷ []))
  | some e ↦
      if terminal e.phase
      then not_opened a (denied (invalid_transition ∷ []))
      else let b : Allocator = between a in
        elim (Registry.open_session b.tunnels execution_id peer_key) [
          | err problem ↦ not_opened b (refused problem)
          | ok opened ↦ confirm_session (later (with_tunnels b opened.0)) execution_id opened.1
        ]
]

unfoldable pub tunnel_session : Allocator → Bytes → Option SessionCopy
tunnel_session a execution_id = Registry.session a.tunnels execution_id

unfoldable pub close_tunnel : Allocator → Session → Allocator
close_tunnel a session = with_tunnels a (Registry.release a.tunnels session)

abbrev no_address : Endpoint → Bool
no_address e = is_empty e.address || is_empty e.pub_key

-- The checks under the lock.
unfoldable pub owned_live : Allocator → Bytes → Bytes → Checked Err ExecutionRecord
owned_live a execution_id sender = do
  e ← present (get execution_id a.executions) (execution_not_found ∷ [])
  stop_if (not (beq e.client sender)) (unauthorized ∷ [])
  stop_if (terminal e.phase) (invalid_transition ∷ [])
  ok e

-- After the lock is given up: `b` is the allocator at the call of Bind.
unfoldable pub bind_tunnel :
    Bytes → ℕ → Allocator → Bytes → ExecutionTunnelOpen → Checked Err Outcome
bind_tunnel message_id now b correlation_id q = do
  stop_if (not b.tunnel_config.enabled) (tunnel_disabled ∷ [])
  targets ← elim (validate_tunnel_targets q.targets) [
    | err problem ↦ err (invalid_envelope ∷ [])
    | ok ts ↦ ok ts
  ]
  stop_if (no_address b.tunnel_config.endpoint) (tunnel_no_endpoint ∷ [])
  bound ←
      elim (Registry.bind b.tunnels q.execution_id q.ygg_peer_pubkey targets
        b.tunnel_config.endpoint) [ err problem ↦ err (other ∷ []) | ok r ↦ ok (with_tunnels b r) ]
  ok (
      if is_empty message_id
      then refuse bound (invalid_config ∷ [])
      else answer bound (
          envelope_of bound message_id correlation_id now (
            execution_tunnel_open_ack (
              some (record {
                execution_id = q.execution_id;
                allocator_endpoint = b.tunnel_config.endpoint.address;
                allocator_endpoint_pubkey = b.tunnel_config.endpoint.pub_key;
                targets = targets_to_proto targets;
              })))
          ∷ []))

-- A check that fails leaves the allocator as it is.
abbrev settle_in : Allocator → Checked Err Outcome → Outcome
settle_in a (ok o) = o
settle_in a (err e) = refuse a e

unfoldable pub handle_tunnel_open :
    Bytes → ℕ → (Allocator → Allocator) → Allocator → Bytes → Bytes → ExecutionTunnelOpen → Outcome
unfolding owned_live bind_tunnel
handle_tunnel_open message_id now between a sender correlation_id q =
    elim (owned_live a q.execution_id sender) [
      | err e ↦ refuse a e
      | ok e ↦ settle_in (between a) (bind_tunnel message_id now (between a) correlation_id q)
    ]

pub data DialError : Type 0 where
  denied : Err → DialError
  -- ErrTunnelUnsupported of internal/runtime.
  unsupported : DialError
  failed : DialError

unfoldable pub may_dial : Allocator → Session → ℕ → Checked DialError (Unit {0})
may_dial a session port = do
  stop_if (not (Registry.active a.tunnels session)) (denied (unauthorized ∷ []))
  e ← present (get session.execution_id a.executions) (denied (invalid_transition ∷ []))
  stop_if (terminal e.phase || is_cancelling e.phase) (denied (invalid_transition ∷ []))
  target ← present (Registry.resolve_target a.tunnels session port) (denied (unauthorized ∷ []))
  ok tt

-- DialTunnelTarget: `dialer` says that the runtime can dial, `connected` how its DialExecution ends.
unfoldable pub dial_tunnel_target :
    Bool → Bool → (Allocator → Allocator) → Allocator → Session → ℕ → Checked DialError (Unit {0})
unfolding may_dial
dial_tunnel_target dialer connected between a session port = do
  may_dial a session port
  stop_if (not dialer) unsupported
  stop_if (not connected) failed
  stop_if (not (Registry.active (between a).tunnels session)) (denied (invalid_transition ∷ []))
  ok tt
