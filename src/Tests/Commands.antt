-- ===== src/Tests/Commands.antt =====
-- The theorems on the allocator, at concrete inputs.
use r1s.Base.{
  inr, count, ℕ, ◌≡◌, ◌≤◌, ◌<◌, ◌⊎◌, refl, Bool, true, false, Option, none, some, List, [], ◌∷◌,
  Bytes, Assoc, ascii, blank, beq, get, length, arith, Values, IsMap,
}
use r1s.Protocol.Messages.{
  ExecutionPhase, ExecutionOffer, execution_offer, ExecutionRequest, ExecutionAssign, Envelope,
  absent, stamp,
}
use r1s.Protocol.Validate.{validate_error}
use r1s.Allocator.Errors.{
  capacity_exhausted, store, nil, command_failure, is, tunnel_disabled, tunnel_no_endpoint,
  error_text, Err, other,
}
use r1s.Allocator.ErrorsLaws.{command_failure-Accepted}
use r1s.Allocator.Ledger.{CapacityLedger, slots}
use r1s.Allocator.State.{
  ExecutionRecord, OfferStatus, OfferRecord, answer, Allocator, ReplayEntry, ReplayCache,
}
use r1s.Allocator.Accounts.{held}
use r1s.Allocator.Views.{envelope_of, expire_offers}
use r1s.Allocator.Offers.{Fresh, handle_request}
use r1s.Allocator.Rollback.{Same, handle_request-unsaved}
use r1s.Allocator.Repeat.{handle_request-again}
use r1s.Allocator.Retention.{collect}
use r1s.Allocator.SoundCollect.{Tidy, collect-Tidy}
use r1s.Allocator.Eviction.{stop_ok, Trip, evict_expired_leases}
use r1s.Allocator.Keys.{ZeroFree, authority_key-injective}
use r1s.Allocator.Replay.{
  Verdict, first, duplicate, in_flight, complete_entry, begin, finish_entry, evict, prune,
}
use r1s.Allocator.ReplayLaws.{InFlight, length-evict_le, get-evict-InFlight, begin-finish_entry}
use r1s.Allocator.System
use r1s.Allocator.System.{run}
use r1s.Allocator.SoundRun.{run-balanced}

-- A stand-in for proto.Equal on requests.
abbrev same_request : ExecutionRequest → ExecutionRequest → Bool
same_request p q = beq p.request_id q.request_id

-- A stand-in for proto.Equal on envelopes.
abbrev same_message : Envelope → Envelope → Bool
same_message p q = beq p.message_id q.message_id

abbrev ledger : CapacityLedger
ledger = record { limits = (ascii "small", 2) ∷ []; used = [] }

abbrev empty_cache : ReplayCache
empty_cache = record { ttl = 60; capacity = 2; entries = [] }

abbrev pub idle : Allocator
idle = record {
  max_records = 100;
  high_water = 0;
  tombstones = [];
  identity = ascii "alloc";
  capacity = ledger;
  offer_ttl = 30;
  lease_ttl = 600;
  retention = 3600;
  has_store = true;
  disk = none;
  admission = record {
    profiles = [];
    allowed_clients = none;
    default_quota = record { offers = 0; executions = 0 };
    client_quotas = [];
  };
  node = none;
  offers = [];
  requests = [];
  executions = [];
  replay = empty_cache;
  tunnels = record { records = []; issued = 0; closed = [] };
  tunnel_config = record { enabled = false; endpoint = record { address = []; pub_key = [] } };
}

abbrev job : ExecutionRequest
job = record {
  request_id = ascii "r1";
  workload = none;
  policy = none;
  resource_class = ascii "small";
  constraints = none;
  run_id = [];
  attempt = 1;
}

abbrev ids : Fresh
ids = record { offer_id = ascii "o1"; message_id = ascii "m1" }

abbrev take_it : ExecutionAssign
take_it = record { request_id = ascii "r1"; offer_id = ascii "o1"; execution_id = ascii "e1" }

abbrev client : Bytes
client = ascii "alice"

-- A request, its assignment, and a Start that fails.
abbrev script : List System.Section
script =
    System.request ids true 5 client (ascii "c1") job
    ∷ System.assign_begins (ascii "m2") true 6 client (ascii "c2") take_it
    ∷ System.assign_ends (ascii "m3") true 7 (ascii "e1") (ascii "c2") (some (ascii "no image"))
    ∷ []

abbrev after : Allocator
after = (run same_request same_message script (record { allocator = idle; stops = [] })).allocator

small_limits : (c : Bytes) → slots c idle.capacity.limits < 4294967296
unfolding slots get
small_limits c = ground arith

run-balanced_example :
    (slots (ascii "small") after.capacity.used ≡ held (ascii "small") after.offers after.executions)
    × (slots (ascii "small") after.capacity.used ≤ slots (ascii "small") after.capacity.limits)
run-balanced_example =
    run-balanced same_request same_message script idle (ascii "small") refl refl refl small_limits

handle_request-unsaved_example :
    Same
      (expire_offers 5 idle)
      (handle_request same_request ids false 5 idle client (ascii "c1") job).state
handle_request-unsaved_example =
    handle_request-unsaved same_request ids 5 idle client (ascii "c1") job refl small_limits

abbrev command : Envelope
command = record {
  message_id = ascii "m9";
  sender = client;
  correlation_id = ascii "c9";
  sent_at = stamp 5;
  payload = absent;
}

abbrev noted : ReplayCache
noted = record empty_cache { entries = (ascii "k", in_flight command 5) ∷ [] }

noted_first : begin same_message empty_cache (ascii "k") command 5 ≡ (noted, first)
unfolding begin get prune r1s.Allocator.Replay.prune_entries evict r1s.Base.put
noted_first = refl

begin-finish_entry_example :
    (begin same_message (finish_entry noted (ascii "k") [] (store ∷ [])) (ascii "k") command 30).1
    ≡ duplicate (complete_entry (in_flight command 5) [] (store ∷ []))
unfolding beq
begin-finish_entry_example =
    begin-finish_entry same_message empty_cache noted (ascii "k") command command 5 30 []
      (store ∷ []) (omega arith) noted_first (omega arith) refl

abbrev done_entry : ReplayEntry
done_entry = complete_entry (in_flight command 1) [] nil

abbrev full : ReplayCache
full = record empty_cache {
  entries = (ascii "a", done_entry) ∷ (ascii "b", in_flight command 2) ∷ [];
}

full-IsMap : IsMap full.entries
unfolding get beq
full-IsMap = ((refl), ((refl), tt))

length-evict_le_example :
    (length (evict full 1).entries ≤ 1) ⊎ Values InFlight (evict full 1).entries
length-evict_le_example = length-evict_le full 1 full-IsMap

full_b : get (ascii "b") full.entries ≡ some (in_flight command 2)
unfolding get beq
full_b = refl

get-evict-InFlight_example :
    (get (ascii "b") (evict full 1).entries ≡ some (in_flight command 2))
    × (get (ascii "b") (prune full 99).entries ≡ some (in_flight command 2))
get-evict-InFlight_example =
    get-evict-InFlight full 1 99 (ascii "b") (in_flight command 2) full-IsMap full_b refl

r1_plain : ZeroFree (ascii "r1")
r1_plain = ((λ e. cc), ((λ e. cc), tt))

authority_key-injective_example : (client ≡ client) × (ascii "r1" ≡ ascii "r1")
authority_key-injective_example =
    authority_key-injective client client (ascii "r1") (ascii "r1") (inr (r1_plain, r1_plain)) refl

correlated : blank command.correlation_id ≡ false
unfolding blank
correlated = refl

not_disabled : is (capacity_exhausted ∷ []) tunnel_disabled ≡ false
unfolding is r1s.Base.any
not_disabled = refl

not_missing : is (capacity_exhausted ∷ []) tunnel_no_endpoint ≡ false
unfolding is r1s.Base.any
not_missing = refl

short_text : length (error_text (capacity_exhausted ∷ [])) ≤ 256
unfolding error_text
short_text = omega arith

command_failure-Accepted_example :
    validate_error command (some (command_failure (capacity_exhausted ∷ []))) ≡ none
command_failure-Accepted_example =
    command_failure-Accepted command (capacity_exhausted ∷ []) correlated not_disabled not_missing
      short_text

abbrev job_offer : ExecutionOffer
job_offer = record {
  offer_id = ascii "o1";
  request_id = ascii "r1";
  resource_class = ascii "small";
  expires_at = stamp 35;
  node = none;
}

abbrev offering : Envelope
offering = record {
  message_id = ascii "m1";
  sender = ascii "alloc";
  correlation_id = ascii "c1";
  sent_at = stamp 5;
  payload = execution_offer (some job_offer);
}

abbrev offered : Allocator
offered = (handle_request same_request ids true 5 idle client (ascii "c1") job).state

offers :
    handle_request same_request ids true 5 idle client (ascii "c1") job
    ≡ answer offered (offering ∷ [])
unfolding handle_request get expire_offers r1s.Base.any r1s.Allocator.Views.expire_records
    r1s.Allocator.Admission.admit r1s.Allocator.Admission.allowed r1s.Allocator.Admission.quota_of
    r1s.Allocator.Ledger.available slots r1s.Allocator.Views.release_due beq
    r1s.Protocol.Placement.placement_matches r1s.Allocator.Views.offer_envelope
    r1s.Allocator.Ledger.reserve r1s.Allocator.State.commit r1s.Allocator.State.persist_error
offers = refl

abbrev more_ids : Fresh
more_ids = record { offer_id = ascii "o2"; message_id = ascii "m5" }

same_itself : same_request job job ≡ true
unfolding beq
same_itself = refl

handle_request-again_example :
    handle_request same_request more_ids true 20 offered client (ascii "c7") job
    ≡ answer (expire_offers 20 offered) (
        envelope_of
          (expire_offers 20 offered)
          (ascii "m5")
          (ascii "c7")
          20
          (execution_offer (some job_offer))
        ∷ [])
handle_request-again_example =
    handle_request-again same_request ids more_ids true true job job_offer 5 20 idle offered client
      (ascii "c1") (ascii "c7") offering same_itself offers refl (omega arith) refl

abbrev gone : OfferRecord
gone = record {
  offer = job_offer;
  request = job;
  client = client;
  status = OfferStatus.expired;
  execution = [];
  resources = record { memory_bytes = 0; cpu_milli = 0; pids = 0 };
}

abbrev spent : Allocator
spent = record idle { offers = (ascii "o1", gone) ∷ []; requests = [] }

spent-Tidy : Tidy spent
unfolding slots get count
spent-Tidy = record {
  sound = record {
    balanced = λ c. refl;
    within = λ c. ground arith;
    bounded = small_limits;
    settled = tt;
    unique = tt;
  };
  unlinked = (inr refl, tt);
}

collect-Tidy_example : Tidy (collect true 50 spent).0
collect-Tidy_example = collect-Tidy true 50 spent spent-Tidy

abbrev pub steady : ExecutionRecord
steady = record {
  id = ascii "e1";
  offer_id = ascii "o1";
  client = client;
  resource_class = ascii "small";
  request = job;
  phase = ExecutionPhase.running;
  detail = [];
  exit_code = none;
  occurred_at = 5;
  started_at = 5;
  released = false;
  retain_until = 0;
  lease_until = 900;
  revision = 2;
  resources = record { memory_bytes = 0; cpu_milli = 0; pids = 0 };
}

abbrev working : Allocator
working = record idle { executions = (ascii "e1", steady) ∷ [] }

-- The lease of `steady` is over; Stop succeeds, and nothing else happens meanwhile.
abbrev trip : ℕ → Trip
trip n = record {
  before = λ b. b;
  cancelled = false;
  saved = true;
  now = 1000;
  meanwhile = λ b. b;
  result = stop_ok;
  saved_again = true;
  later = 1001;
}

-- The run of the witness ends without an error.
abbrev error_of : Option (Allocator × Err) → Err
error_of none = other ∷ []
error_of (some x) = x.1

evicts : error_of (evict_expired_leases 2 trip 0 working) ≡ nil
unfolding evict_expired_leases r1s.Allocator.Eviction.next_expired
    r1s.Allocator.Eviction.effective_now r1s.Allocator.State.persist_error get
    r1s.Allocator.State.persist r1s.Base.put beq r1s.Allocator.Views.finish
    r1s.Allocator.Views.finished_record
evicts = refl
