-- ===== src/Allocator/Assign.antt =====
-- assign.go: handleAssign, in its two locked sections with the runtime's Start between them.
use r1s.Base.{
  ℕ, ◌+◌, Bool, true, false, ◌&&◌, not, Option, none, some, [], ◌∷◌, ◌++◌, Bytes, beq, get, put,
  delete, if◌then◌else◌, Checked, ok, err, ◌>>=◌, ◌>>◌, stop_if, present,
}
use r1s.Protocol.Messages.{ExecutionPhase, ExecutionAssign}
use r1s.Protocol.Placement.{placement_matches, placement_conflict_details}
use r1s.Allocator.Errors.{
  Err, nil, offer_not_found, unauthorized, execution_conflict, offer_released, offer_expired,
  offer_already_assigned, incompatible, runtime_start, other,
}
use r1s.Allocator.State.{
  OfferStatus, OfferRecord, ExecutionRecord, Allocator, Outcome, refuse, answer, is_nil, persist,
  persist_error, is_starting,
}
use r1s.Allocator.Views.{expire_offers, state_envelope, finish, bump, put_offer, put_execution}
use r1s.Allocator.Admission.{admit}

-- How the first section ends: with a reply, or with an execution that the runtime is to start.
pub data Begun : Type 0 where
  replied : Outcome → Begun
  launching : Allocator → ExecutionRecord → Begun

abbrev pub state_of : Begun → Allocator
state_of (replied o) = o.state
state_of (launching a e) = a

abbrev pub settle_begun : Allocator → Checked Err Begun → Begun
settle_begun a (err e) = replied (refuse a e)
settle_begun a (ok b) = b

-- The status switch: `none` goes on, `some r` answers.
unfoldable pub status_answer :
    Bytes → Allocator → OfferRecord → Bytes → ℕ → ExecutionAssign → Checked Err (Option Outcome)
status_answer message_id a o correlation_id now q = elim o.status [
  | OfferStatus.released ↦ err (offer_released ∷ [])
  | OfferStatus.expired ↦ err (offer_expired ∷ [])
  | OfferStatus.assigned ↦ do
    stop_if (not (beq o.execution q.execution_id)) (offer_already_assigned ∷ [])
    response ← state_envelope message_id a (get o.execution a.executions) correlation_id now
    ok (some (answer a (response ∷ [])))
  | OfferStatus.outstanding ↦ ok none
]

abbrev pub new_execution : Allocator → OfferRecord → ExecutionAssign → ℕ → ExecutionRecord
new_execution a o q now = record {
  id = q.execution_id;
  offer_id = o.offer.offer_id;
  client = o.client;
  resource_class = o.offer.resource_class;
  request = o.request;
  phase = ExecutionPhase.starting;
  detail = [];
  exit_code = none;
  occurred_at = now;
  started_at = now;
  released = false;
  retain_until = 0;
  lease_until = now + a.lease_ttl;
  revision = 1;
  resources = o.resources;
}

abbrev pub take_offer : OfferRecord → Bytes → OfferRecord
take_offer o execution_id = record o { status = OfferStatus.assigned; execution = execution_id }

-- What a failed Save undoes: the execution is taken out, the offer is outstanding again.
abbrev pub untake : OfferRecord → ExecutionAssign → Allocator → Allocator
untake o q a = record a {
  executions = delete q.execution_id a.executions;
  offers = put q.offer_id (record o { status = OfferStatus.outstanding; execution = [] }) a.offers;
}

-- The offer is taken, the execution recorded.
abbrev pub taken : Allocator → OfferRecord → ExecutionAssign → ℕ → Allocator
taken a o q now =
    put_execution q.execution_id (new_execution a o q now)
      (put_offer q.offer_id (take_offer o q.execution_id) a)

-- The commit of the assignment.
unfoldable pub commit_assign : Bool → Allocator → OfferRecord → ExecutionAssign → ℕ → Begun
commit_assign saved a o q now =
    let b = taken a o q now in
    if is_nil (persist_error saved b)
    then launching (persist saved b) (new_execution a o q now)
    else replied (refuse (untake o q b) (persist_error saved b))

-- An execution of this id that is already there: acknowledged if it is this assignment's.
abbrev pub duplicate_answer : Allocator → OfferRecord → Bytes → ExecutionRecord → Checked Err Begun
duplicate_answer a o sender e =
    if beq e.offer_id o.offer.offer_id && beq e.client sender
    then ok (replied (answer a []))
    else err (execution_conflict ∷ [])

unfoldable pub fresh_assign :
    Bool → Allocator → OfferRecord → Bytes → ℕ → ExecutionAssign → Checked Err Begun
unfolding commit_assign
fresh_assign saved a o sender now q = elim (get q.execution_id a.executions) [
  | some e ↦ duplicate_answer a o sender e
  | none ↦ do
    stop_if (not (placement_matches o.request.constraints a.node))
        (incompatible (placement_conflict_details o.request.constraints a.node) ∷ [])
    admit a sender true
    ok (commit_assign saved a o q now)
]

unfoldable pub after_status :
    Bytes → Bool → Allocator → OfferRecord → Bytes → Bytes → ℕ → ExecutionAssign → Checked Err Begun
unfolding status_answer fresh_assign
after_status message_id saved a o sender correlation_id now q = do
  early ← status_answer message_id a o correlation_id now q
  elim early [ some r ↦ ok (replied r) | none ↦ fresh_assign saved a o sender now q ]

unfoldable pub assign_checks :
    Bytes → Bool → Allocator → Bytes → Bytes → ℕ → ExecutionAssign → Checked Err Begun
unfolding after_status
assign_checks message_id saved a sender correlation_id now q = do
  o ← present (get q.offer_id a.offers) (offer_not_found ∷ [])
  stop_if (not (beq o.client sender)) (unauthorized ∷ [])
  stop_if (not (beq o.offer.request_id q.request_id)) (execution_conflict ∷ [])
  after_status message_id saved a o sender correlation_id now q

-- The first locked section.
unfoldable pub begin_assign : Bytes → Bool → ℕ → Allocator → Bytes → Bytes → ExecutionAssign → Begun
unfolding assign_checks
begin_assign message_id saved now a sender correlation_id q =
    let current = expire_offers now a in
    settle_begun current (assign_checks message_id saved current sender correlation_id now q)

-- The state after Start has returned: `start_error` is the text of its error.
unfoldable pub started : ℕ → Allocator → Bytes → ExecutionRecord → Option Bytes → Allocator
started now a id e start_error =
    if is_starting e.phase
    then elim start_error [
      | some text ↦ finish a id e ExecutionPhase.failed text none now
      | none ↦
          put_execution id
            (record e {
              phase = ExecutionPhase.running;
              occurred_at = now;
              revision = bump e.revision;
            })
            a
    ]
    else a

abbrev start_sentinels : Option Bytes → Err
start_sentinels none = nil
start_sentinels (some text) = other ∷ []

abbrev start_failure : Option Bytes → Err
start_failure none = nil
start_failure (some text) = runtime_start ∷ other ∷ []

-- The second locked section. `none` is the nil dereference of an execution that is gone.
unfoldable pub finish_assign :
    Bytes → Bool → ℕ → Allocator → Bytes → Bytes → Option Bytes → Option Outcome
unfolding started
finish_assign message_id saved now a id correlation_id start_error = elim (get id a.executions) [
  | none ↦ none
  | some e ↦
      let b = started now a id e start_error in
      let c = persist saved b in
      elim (state_envelope message_id b (get id b.executions) correlation_id now) [
        | err failed ↦ some (refuse c failed)
        | ok response ↦ some (record {
          state = c;
          responses = response ∷ [];
          error =
              if is_nil (persist_error saved b)
              then start_failure start_error
              else start_sentinels start_error ++ persist_error saved b;
        })
      ]
]

-- The whole handler. `meanwhile` is what other commands do to the state while Start runs.
unfoldable pub handle_assign :
    Bytes
    → Bool
    → Bool
    → ℕ
    → ℕ
    → (Allocator → Allocator)
    → Option Bytes
    → Allocator
    → Bytes
    → Bytes
    → ExecutionAssign
    → Option Outcome
unfolding begin_assign finish_assign
handle_assign message_id saved saved_again now later meanwhile start_error a sender correlation_id
      q =
    elim (begin_assign message_id saved now a sender correlation_id q) [
      | replied o ↦ some o
      | launching b e ↦
          finish_assign message_id saved_again later (meanwhile b) e.id correlation_id start_error
    ]
