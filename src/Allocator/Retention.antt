-- ===== src/Allocator/Retention.antt =====
-- retention_policy.go and retention.go: the freshness of commands, and the collection pass of Sweep.
use r1s.Base.{
  ℕ, ◌+◌, ◌*◌, Bool, true, false, ◌&&◌, ◌||◌, not, Option, none, some, List, [], ◌∷◌, ◌++◌, Bytes,
  Assoc, beq, get, put, delete, keys, is_empty, is_none, ltb, any, min, if◌then◌else◌, Checked, ok,
  ◌>>◌, stop_if,
}
use r1s.Protocol.Messages.{
  Payload, execution_request, execution_assign, execution_cancel, execution_inspect,
  execution_logs_request, execution_lease_renew, execution_tunnel_open, Envelope, as_time, terminal,
  nanoseconds,
}
use r1s.Protocol.Placement.{contains}
use r1s.Allocator.Errors.{Err, nil, command_expired, result_expired}
use r1s.Allocator.State.{
  OfferStatus, OfferRecord, ExecutionRecord, Tombstone, ReplayEntry, Allocator, is_nil, persist,
  persist_error, command_horizon,
}
use r1s.Allocator.Views.{expire_offers, authority_key}
use r1s.Allocator.Replay.{prune}
use r1s.Allocator.Eviction.{effective_now}

-- retention
unfoldable pub bounded_retention : ℕ → ℕ
bounded_retention configured = min configured command_horizon

-- The execution that a command names; "" for the others.
abbrev pub named_execution : Payload → Bytes
named_execution (execution_inspect (some q)) = q.execution_id
named_execution (execution_cancel (some q)) = q.execution_id
named_execution (execution_assign (some q)) = q.execution_id
named_execution (execution_logs_request (some q)) = q.execution_id
named_execution (execution_lease_renew (some q)) = q.execution_id
named_execution (execution_tunnel_open (some q)) = q.execution_id
named_execution _ = []

-- Terminal, and no longer retained.
abbrev pub forgotten : ℕ → ExecutionRecord → Bool
forgotten now e = terminal e.phase && not (ltb now e.retain_until)

abbrev result_gone : ℕ → Bytes → Option ExecutionRecord → Bool
result_gone now sender none = false
result_gone now sender (some e) = beq e.client sender && forgotten now e

abbrev buried_execution : Bytes → Bytes → Bytes × Tombstone → Bool
buried_execution id sender t =
    not (is_empty t.1.execution_id) && beq t.1.execution_id id && beq t.1.client sender

abbrev pub clock_skew : ℕ
clock_skew = 120 * nanoseconds

unfoldable pub freshness_checks : Allocator → Envelope → Checked Err (Unit {0})
freshness_checks a e =
    let now = a.high_water in
    let sent = as_time e.sent_at in
    let id = named_execution e.payload in
    do
      stop_if (ltb (sent + command_horizon) now || ltb (now + clock_skew) sent)
          (command_expired ∷ [])
      stop_if (result_gone now e.sender (get id a.executions)) (result_expired ∷ [])
      stop_if (any (buried_execution id e.sender) a.tombstones) (result_expired ∷ [])
      ok tt

-- checkFreshness: the state keeps the clock that it read.
unfoldable pub check_freshness : ℕ → Allocator → Envelope → Allocator × Checked Err (Unit {0})
unfolding freshness_checks
check_freshness now a e = let current = effective_now now a in (current, freshness_checks current e)

abbrev client_key : Option ExecutionRecord → List Bytes
client_key none = []
client_key (some e) = authority_key e.client e.request.request_id ∷ []

-- The requests that a command in flight is working on.
abbrev busy_key : Assoc ExecutionRecord → Envelope → Payload → List Bytes
busy_key executions e (execution_request (some q)) = authority_key e.sender q.request_id ∷ []
busy_key executions e (execution_assign (some q)) = authority_key e.sender q.request_id ∷ []
busy_key executions e (execution_cancel (some q)) = client_key (get q.execution_id executions)
busy_key executions e _ = []

unfoldable pub busy_keys : Assoc ExecutionRecord → Assoc ReplayEntry → List Bytes
busy_keys executions [] = []
busy_keys executions ((k, r) ∷ m) =
    (if r.completed then [] else busy_key executions r.envelope r.envelope.payload)
    ++ busy_keys executions m

abbrev retained_over : ℕ → Option ExecutionRecord → Bool
retained_over now none = false
retained_over now (some e) = forgotten now e

-- Expired, released, or assigned to an execution that is no longer retained.
unfoldable pub eligible : ℕ → Assoc ExecutionRecord → OfferRecord → Bool
eligible now executions o = elim o.status [
  | OfferStatus.outstanding ↦ false
  | OfferStatus.assigned ↦ retained_over now (get o.execution executions)
  | OfferStatus.expired ↦ true
  | OfferStatus.released ↦ true
]

abbrev pub bury : ℕ → Bytes → OfferRecord → Tombstone
bury now id o = record {
  client = o.client;
  request_id = o.offer.request_id;
  offer_id = id;
  execution_id = o.execution;
  expires_at = now + command_horizon;
  cleanup_pending = not (is_empty o.execution);
}

abbrev pub offer_key : OfferRecord → Bytes
offer_key o = authority_key o.client o.offer.request_id

-- The body of the loop over the offers.
unfoldable pub collect_offer : ℕ → List Bytes → Bytes → OfferRecord → Allocator → Allocator
collect_offer now busy id o a =
    if contains busy (offer_key o)
    then a
    else if eligible now a.executions o
    then record a {
      tombstones = put id (bury now id o) a.tombstones;
      offers = delete id a.offers;
      requests = delete (offer_key o) a.requests;
      executions = delete o.execution a.executions;
    }
    else a

-- The loop visits the keys, and reads the offer of each when it gets there.
unfoldable pub collect_offers : ℕ → List Bytes → List Bytes → Allocator → Allocator
unfolding collect_offer
collect_offers now busy [] a = a
collect_offers now busy (id ∷ ids) a =
    collect_offers now busy ids
      (elim (get id a.offers) [ none ↦ a | some o ↦ collect_offer now busy id o a ])

unfoldable pub retired_keys : Assoc Tombstone → List Bytes
retired_keys [] = []
retired_keys ((id, t) ∷ m) = authority_key t.client t.request_id ∷ retired_keys m

unfoldable pub keep_tombstones : ℕ → Assoc Tombstone → Assoc Tombstone
keep_tombstones now [] = []
keep_tombstones now ((id, t) ∷ m) =
    let rest = keep_tombstones now m in
    if not t.cleanup_pending && not (ltb now t.expires_at) then rest else (id, t) ∷ rest

-- A finished command whose request or execution is gone.
abbrev droppable : List Bytes → Assoc ExecutionRecord → Envelope → Payload → Bool
droppable retired executions e (execution_request (some q)) =
    contains retired (authority_key e.sender q.request_id)
droppable retired executions e (execution_assign (some q)) =
    contains retired (authority_key e.sender q.request_id)
droppable retired executions e (execution_cancel (some q)) = is_none (get q.execution_id executions)
droppable retired executions e (execution_inspect (some q)) =
    is_none (get q.execution_id executions)
droppable retired executions e (execution_lease_renew (some q)) =
    is_none (get q.execution_id executions)
droppable retired executions e (execution_tunnel_open (some q)) =
    is_none (get q.execution_id executions)
droppable retired executions e _ = false

unfoldable pub keep_replay :
    List Bytes → Assoc ExecutionRecord → Assoc ReplayEntry → Assoc ReplayEntry
keep_replay retired executions [] = []
keep_replay retired executions ((k, r) ∷ m) =
    let rest = keep_replay retired executions m in
    if r.completed && droppable retired executions r.envelope r.envelope.payload
    then rest
    else (k, r) ∷ rest

-- The expiry at the start of the pass.
abbrev pub expired_state : ℕ → Allocator → Allocator
expired_state now a =
    let current = effective_now now a in
    let offered = expire_offers current.high_water current in
    record offered { replay = prune offered.replay current.high_water }

-- What the pass computes under the lock, before the Save.
unfoldable pub collected : ℕ → Allocator → Allocator
unfolding busy_keys collect_offers retired_keys keep_tombstones keep_replay
collected now a =
    let ready = expired_state now a in
    let clock = ready.high_water in
    let busy = busy_keys ready.executions ready.replay.entries in
    let culled = collect_offers clock busy (keys ready.offers) ready in
    record culled {
      tombstones = keep_tombstones clock culled.tombstones;
      replay = record culled.replay {
        entries =
            keep_replay (retired_keys culled.tombstones) culled.executions culled.replay.entries;
      };
    }

-- The pass: a failed Save puts back all that it changed.
unfoldable pub collect : Bool → ℕ → Allocator → Allocator × Err
unfolding collected
collect saved now a =
    let done = collected now a in
    if is_nil (persist_error saved done) then (persist saved done, nil) else (
      record done {
        offers = a.offers;
        executions = a.executions;
        requests = a.requests;
        replay = a.replay;
        tombstones = a.tombstones;
        high_water = a.high_water;
        capacity = record done.capacity { used = a.capacity.used };
      },
      persist_error saved done,
    )

abbrev no_tombstone : Tombstone
no_tombstone = record {
  client = [];
  request_id = [];
  offer_id = [];
  execution_id = [];
  expires_at = 0;
  cleanup_pending = false;
}

abbrev or_zero : Option Tombstone → Tombstone
or_zero none = no_tombstone
or_zero (some t) = t

-- After the runtime has forgotten an execution and its logs are gone: the cleanup is marked done.
unfoldable pub cleaned_up : Bool → Allocator → Tombstone → Allocator × Err
cleaned_up saved a dead =
    let current = or_zero (get dead.offer_id a.tombstones) in
    let marked = record a {
      tombstones = put dead.offer_id (record current { cleanup_pending = false }) a.tombstones;
    } in
    if is_nil (persist_error saved marked) then (persist saved marked, nil) else (
      record marked { tombstones = put dead.offer_id dead marked.tombstones },
      persist_error saved marked,
    )
