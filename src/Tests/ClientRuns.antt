-- ===== src/Tests/ClientRuns.antt =====
-- The theorems on the client, at concrete inputs.
use r1s.Base.{
  ℕ, ◌≡◌, ◌≢◌, ◌⊎◌, inl, inr, refl, sym, ap, ◌∙◌, ◌&&◌, not, Bool, true, false, none, some, Option,
  List, [], ◌∷◌, ◌++◌, map, take, is_none, Bytes, ascii, Assoc, IsMap, get, put, beq, beq_iff, ◌==◌,
  ok, err, arith, if◌then◌else◌,
}
use r1s.Protocol.Messages.{
  ℤ, pos, negsuc, Timestamp, ExecutionPhase, ExecutionOffer, ExecutionState, Envelope,
  ExecutionLeaseRenewAck, execution_offer, execution_state, execution_lease_renew_ack, stamp,
}
use r1s.Client.State.{
  unauthorized, Allocator, OfferRecord, RequestRecord, ExecutionRecord, new_execution, Client, new,
}
use r1s.Client.Catalog.{lookup, Candidate, usable, ranks_before, choose}
use r1s.Client.CatalogLaws.{IsCandidate, choose_lem}
use r1s.Client.Leases.{
  Maintained, maintain, handle_renew_ack, lease_intent_lost, renewed_duration, renewal,
}
use r1s.Client.LeaseLaws.{maintain-acknowledged}
use r1s.Client.Inbound
use r1s.Client.Evolution.{Evolves, handle-Evolves}
use r1s.Client.Observed.{Forward, handle-Forward, handle-stranger}
use r1s.Client.Settled.{IsConsistent}
use r1s.Client.SettledRun.{run-IsConsistent}
use r1s.Client.System

abbrev near_node : Allocator
near_node = record {
  identity = 1 ∷ [];
  destination = ascii "d1";
  hops = 1;
  capacity = none;
  node = none;
  tunnel_host = [];
  tunnel_port = 0;
  tunnel_destination = [];
}

abbrev far_node : Allocator
far_node = record near_node { identity = 2 ∷ []; destination = ascii "d2"; hops = 3 }

abbrev catalog : Assoc Allocator
catalog = (ascii "01", near_node) ∷ (ascii "02", far_node) ∷ []

abbrev offer_from : Bytes → Bytes → OfferRecord
offer_from id allocator = record {
  offer = record {
    offer_id = id;
    request_id = ascii "q";
    resource_class = ascii "small";
    expires_at = stamp 100;
    node = none;
  };
  allocator_id = allocator;
  received_at = 1;
  release = none;
}

abbrev two_offers : Assoc OfferRecord
two_offers =
    (ascii "o2", offer_from (ascii "o2") (2 ∷ []))
    ∷ (ascii "o1", offer_from (ascii "o1") (1 ∷ []))
    ∷ []

two_offers-IsMap : IsMap two_offers
unfolding get beq
two_offers-IsMap = (refl, (refl, tt))

o2_there : get (ascii "o2") two_offers ≡ some (offer_from (ascii "o2") (2 ∷ []))
unfolding get beq
o2_there = refl

o2_known : lookup catalog (2 ∷ []) ≡ some far_node
unfolding lookup get beq r1s.Base.hex_encode
o2_known = refl

o2_usable : usable 5 none (offer_from (ascii "o2") (2 ∷ [])) far_node ≡ true
unfolding r1s.Base.blank r1s.Protocol.Placement.placement_matches
o2_usable = refl

choose_lem_example :
    (x : Candidate) × ((choose catalog two_offers 5 none [] ≡ some x)
      × IsCandidate catalog 5 none two_offers x
      × (ranks_before []
            (record {
              key = ascii "o2";
              held = offer_from (ascii "o2") (2 ∷ []);
              allocator = far_node;
            })
            x
          ≡ false))
choose_lem_example =
    choose_lem catalog 5 none [] two_offers (ascii "o2") (offer_from (ascii "o2") (2 ∷ [])) far_node
      two_offers-IsMap o2_there o2_known o2_usable

-- Equality of states, field by field.
abbrev phase_code : ExecutionPhase → ℕ
phase_code ExecutionPhase.unspecified = 0
phase_code ExecutionPhase.starting = 1
phase_code ExecutionPhase.running = 2
phase_code ExecutionPhase.cancelling = 3
phase_code ExecutionPhase.cancelled = 4
phase_code ExecutionPhase.completed = 5
phase_code ExecutionPhase.failed = 6

abbrev phase_of : ℕ → ExecutionPhase
phase_of n =
    if n == 0
    then ExecutionPhase.unspecified
    else if n == 1
    then ExecutionPhase.starting
    else if n == 2
    then ExecutionPhase.running
    else if n == 3
    then ExecutionPhase.cancelling
    else if n == 4
    then ExecutionPhase.cancelled
    else if n == 5
    then ExecutionPhase.completed
    else ExecutionPhase.failed

phase_of-phase_code : (p : ExecutionPhase) → phase_of (phase_code p) ≡ p
phase_of-phase_code ExecutionPhase.unspecified = refl
phase_of-phase_code ExecutionPhase.starting = refl
phase_of-phase_code ExecutionPhase.running = refl
phase_of-phase_code ExecutionPhase.cancelling = refl
phase_of-phase_code ExecutionPhase.cancelled = refl
phase_of-phase_code ExecutionPhase.completed = refl
phase_of-phase_code ExecutionPhase.failed = refl

abbrev same_stamp : Option Timestamp → Option Timestamp → Bool
same_stamp none none = true
same_stamp (some a) (some b) =
    (if a.check_valid then b.check_valid else not b.check_valid) && (a.as_time == b.as_time)
same_stamp _ _ = false

abbrev same_code : Option ℤ → Option ℤ → Bool
same_code none none = true
same_code (some (pos a)) (some (pos b)) = a == b
same_code (some (negsuc a)) (some (negsuc b)) = a == b
same_code _ _ = false

same_stamp-eq : (a b : Option Timestamp) → same_stamp a b ≡ true → a ≡ b
same_stamp-eq a b h = ground arith

same_code-eq : (a b : Option ℤ) → same_code a b ≡ true → a ≡ b
same_code-eq a b h = ground arith

abbrev same_state : ExecutionState → ExecutionState → Bool
same_state a b =
    beq a.execution_id b.execution_id
    && (phase_code a.phase == phase_code b.phase)
    && same_stamp a.occurred_at b.occurred_at
    && beq a.detail b.detail
    && same_code a.exit_code b.exit_code
    && (a.revision == b.revision)

phase_code-eq : (a b : ExecutionPhase) → (phase_code a == phase_code b) ≡ true → a ≡ b
phase_code-eq a b h =
    let codes : phase_code a ≡ phase_code b = ground (arith, h) in
    sym (phase_of-phase_code a) ∙ ap phase_of codes ∙ phase_of-phase_code b

same_state-eq : (a b : ExecutionState) → same_state a b ≡ true → a ≡ b
same_state-eq a b h = ground (
  arith,
  h,
  beq_iff a.execution_id b.execution_id,
  phase_code-eq a.phase b.phase,
  same_stamp-eq a.occurred_at b.occurred_at,
  beq_iff a.detail b.detail,
  same_code-eq a.exit_code b.exit_code,
)

abbrev same_offer : ExecutionOffer → ExecutionOffer → Bool
same_offer a b = beq a.offer_id b.offer_id && beq a.request_id b.request_id

-- A checksum for the examples.
abbrev no_sum : Bytes → Bytes
no_sum data_bytes = data_bytes

abbrev running : ExecutionState
running = record {
  execution_id = ascii "e1";
  phase = ExecutionPhase.running;
  occurred_at = stamp 3;
  detail = [];
  exit_code = none;
  revision = 4;
}

abbrev held : ExecutionRecord
held =
    record (new_execution (ascii "e1") (ascii "q") (ascii "o1") (1 ∷ []) (ascii "d1") (ascii "m2")
      2) { state = some running }

abbrev holding : Client
holding = record {
  log_message_id = [];
  log_request = none;
  identity = 9 ∷ [];
  allocators = catalog;
  requests = [];
  executions = (ascii "e1", held) ∷ [];
}

abbrev done_message : Bytes → Envelope
done_message sender = record {
  message_id = ascii "m7";
  sender = sender;
  correlation_id = ascii "m2";
  sent_at = stamp 4;
  payload =
      execution_state (some (record running { phase = ExecutionPhase.completed; revision = 5 }));
}

-- The client after a message of a sender.
abbrev told : Bytes → Client
told sender =
    (Inbound.handle same_offer same_state no_sum (ascii "m8") 6 holding
      (done_message sender)).client

e1_held : get (ascii "e1") holding.executions ≡ some held
unfolding get beq
e1_held = refl

handle-Evolves_example :
    (r' : ExecutionRecord) × ((get (ascii "e1") (told (1 ∷ [])).executions ≡ some r')
      × Evolves same_state 6 (done_message (1 ∷ [])) held r')
handle-Evolves_example =
    handle-Evolves same_state 6 holding (done_message (1 ∷ [])) (ascii "e1") held e1_held same_offer
      no_sum (ascii "m8")

handle-Forward_example :
    (r' : ExecutionRecord) × ((get (ascii "e1") (told (1 ∷ [])).executions ≡ some r')
      × Forward held running r')
handle-Forward_example =
    handle-Forward same_state 6 (done_message (1 ∷ [])) same_offer no_sum (ascii "m8") holding
      (ascii "e1") held running same_state-eq e1_held refl

other_sender : held.allocator_id ≢ 2 ∷ []
other_sender = ground arith

handle-stranger_example : get (ascii "e1") (told (2 ∷ [])).executions ≡ some held
handle-stranger_example =
    handle-stranger same_state 6 (done_message (2 ∷ [])) same_offer no_sum (ascii "m8") holding
      (ascii "e1") held e1_held other_sender

abbrev new_client : Client
new_client = record {
  log_message_id = [];
  log_request = none;
  identity = 9 ∷ [];
  allocators = [];
  requests = [];
  executions = [];
}

makes_client : new (9 ∷ []) ≡ ok new_client
unfolding new
makes_client = refl

abbrev ids : ℕ → Bytes
ids n = n ∷ 65 ∷ []

-- A digest of sixteen bytes.
abbrev short_digest : Bytes → Bytes
short_digest data_bytes = take 16 (data_bytes ++ ascii "0123456789abcdef")

-- The offer of a node for the first request.
abbrev offer_message : Bytes → Bytes → Envelope
offer_message id sender = record {
  message_id = id;
  sender = sender;
  correlation_id = ids 1;
  sent_at = stamp 2;
  payload = execution_offer (
      some (record {
        offer_id = id;
        request_id = ids 0;
        resource_class = ascii "small";
        expires_at = stamp 100;
        node = none;
      }));
}

-- Two nodes offer, one offer is taken, and a third one comes too late.
abbrev first_run : List System.Call
first_run =
    System.register near_node
    ∷ System.register far_node
    ∷ System.create ids 1
        (some (record {
          image = ascii "img";
          command = [];
          args = [];
          environment = [];
          working_directory = [];
        }))
        (some (record {})) (ascii "small") none
    ∷ System.take_message (ascii "m5") 3 (offer_message (ascii "o1") (1 ∷ []))
    ∷ System.take_message (ascii "m6") 3 (offer_message (ascii "o2") (2 ∷ []))
    ∷ System.choose_offer ids 4 (ids 0)
    ∷ System.take_message (ascii "m8") 5 (offer_message (ascii "o3") (2 ∷ []))
    ∷ []

abbrev after_first_run : Client
after_first_run = System.run same_offer same_state short_digest first_run new_client

run-IsConsistent_example : IsConsistent after_first_run
run-IsConsistent_example =
    run-IsConsistent same_offer same_state short_digest (9 ∷ []) new_client first_run makes_client

-- Which offers a request has a release for.
abbrev released : Assoc OfferRecord → List (Bytes × Bool)
released = map (λ entry. (entry.0, not (is_none entry.1.release)))

abbrev offers_of : Option RequestRecord → List (Bytes × Bool)
offers_of none = []
offers_of (some r) = released r.offers

-- The run selects the near node's offer and releases both others.
first_run_selects :
    offers_of (get (ids 0) after_first_run.requests)
    ≡ (ascii "o1", false) ∷ (ascii "o2", true) ∷ (ascii "o3", true) ∷ []
unfolding get System.run r1s.Protocol.Validate.validate_envelope r1s.Base.blank
    r1s.Protocol.Validate.validate_payload r1s.Protocol.Validate.validate_offer
    r1s.Protocol.Placement.validate_capabilities r1s.Protocol.Validate.validate_request
    r1s.Base.hex_encode r1s.Base.any r1s.Base.all r1s.Protocol.Placement.validate_constraints put
    beq r1s.Protocol.Placement.placement_matches
first_run_selects = refl

abbrev renewing : Client
renewing = record holding {
  executions =
      (
        ascii "e1",
        record held {
          lease_duration = renewed_duration (pos 0) (pos 0);
          lease_renew_message_id = ascii "m9";
          lease_renewed_at = 7;
        },
      )
      ∷ [];
}

abbrev renewal_sent : Maintained
renewal_sent = record {
  command = some (record {
    destination = ascii "d1";
    envelope =
        renewal holding (ascii "m9") 7
          (record held { lease_duration = renewed_duration (pos 0) (pos 0) });
  });
  lost = false;
}

renews : maintain (ascii "m9") 7 holding (ascii "e1") (pos 0) ≡ (renewing, ok renewal_sent)
unfolding maintain get beq put
renews = refl

abbrev ack_of_e1 : ExecutionLeaseRenewAck
ack_of_e1 = record { execution_id = ascii "e1"; expires_at = stamp 90 }

abbrev ack_message : Envelope
ack_message = record {
  message_id = ascii "m10";
  sender = 1 ∷ [];
  correlation_id = ascii "m9";
  sent_at = stamp 8;
  payload = execution_lease_renew_ack (some ack_of_e1);
}

maintain-acknowledged_example :
    (after : Client) × ((handle_renew_ack 8 renewing ack_message ack_of_e1 ≡ ok after)
      × (lease_intent_lost after (ascii "e1") ≡ false)
      × (handle_renew_ack 9 after ack_message ack_of_e1 ≡ err unauthorized))
maintain-acknowledged_example =
    maintain-acknowledged (ascii "m9") 7 8 9 holding renewing (ascii "e1") (pos 0) held renewal_sent
      ack_message ack_of_e1 e1_held renews refl refl refl refl
