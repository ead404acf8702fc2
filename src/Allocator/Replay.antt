-- ===== src/Allocator/Replay.antt =====
-- replay.go: the cache that answers a redelivered command from what the first delivery got.
-- `same_envelope` is proto.Equal on envelopes.
use r1s.Base.{
  ℕ, zero, suc, ◌+◌, ◌-◌, Bool, true, false, ◌&&◌, not, Option, none, some, List, [], ◌∷◌, Bytes,
  Assoc, get, put, delete, length, ltb, leb, if◌then◌else◌,
}
use r1s.Protocol.Messages.{Envelope}
use r1s.Allocator.Errors.{Err, nil, replay_conflict, replay_capacity}
use r1s.Allocator.State.{ReplayEntry, ReplayCache, Allocator, is_nil, persist, persist_error}
use r1s.Allocator.Views.{expire_offers}

-- Done, and seen no later than `ttl` ago.
abbrev pub stale : ℕ → ℕ → ReplayEntry → Bool
stale ttl now e = e.completed && not (ltb now (e.seen_at + ttl))

unfoldable pub prune_entries : ℕ → ℕ → Assoc ReplayEntry → Assoc ReplayEntry
prune_entries ttl now [] = []
prune_entries ttl now ((k, e) ∷ m) =
    let rest = prune_entries ttl now m in if stale ttl now e then rest else (k, e) ∷ rest

unfoldable pub prune : ReplayCache → ℕ → ReplayCache
prune c now = record c { entries = prune_entries c.ttl now c.entries }

abbrev pub older : Option (Bytes × ℕ) → ℕ → Bool
older none t = true
older (some best) t = ltb t best.1

-- The done entry that was seen first.
unfoldable pub oldest : Option (Bytes × ℕ) → Assoc ReplayEntry → Option (Bytes × ℕ)
oldest best [] = best
oldest best ((k, e) ∷ m) =
    oldest (if e.completed && older best e.seen_at then some (k, e.seen_at) else best) m

-- The loop of evict. A round takes one entry out, so their number is fuel enough.
unfoldable pub evict_from : ℕ → ℕ → Assoc ReplayEntry → Assoc ReplayEntry
evict_from zero limit m = m
evict_from (suc fuel) limit m = elim (ltb limit (length m)) [
  | false ↦ m
  | true ↦ elim (oldest none m) [
    | none ↦ m
    | some victim ↦ evict_from fuel limit (delete victim.0 m)
  ]
]

unfoldable pub evict : ReplayCache → ℕ → ReplayCache
unfolding evict_from
evict c limit = record c { entries = evict_from (length c.entries) limit c.entries }

pub data Verdict : Type 0 where
  first : Verdict
  duplicate : ReplayEntry → Verdict
  refused : Err → Verdict

abbrev pub in_flight : Envelope → ℕ → ReplayEntry
in_flight envelope now = record {
  seen_at = now;
  completed = false;
  envelope = envelope;
  responses = [];
  error = nil;
}

-- A key that is not in the cache: make room, and record it as in flight.
unfoldable pub admit_entry : ReplayCache → Bytes → Envelope → ℕ → ReplayCache × Verdict
admit_entry c key envelope now =
    let roomy = evict c (c.capacity - 1) in
    if leb roomy.capacity (length roomy.entries)
    then (roomy, refused (replay_capacity ∷ []))
    else (record roomy { entries = put key (in_flight envelope now) roomy.entries }, first)

module _ (same_envelope : Envelope → Envelope → Bool) where
  unfoldable pub begin : ReplayCache → Bytes → Envelope → ℕ → ReplayCache × Verdict
  unfolding admit_entry
  begin c key envelope now =
      let pruned = prune c now in
      elim (get key pruned.entries) [
        | some e ↦ (
          pruned,
          if same_envelope e.envelope envelope then duplicate e else refused (replay_conflict ∷ []),
        )
        | none ↦ admit_entry pruned key envelope now
      ]

abbrev pub complete_entry : ReplayEntry → List Envelope → Err → ReplayEntry
complete_entry e responses error = record e {
  completed = true;
  responses = responses;
  error = error;
}

-- The handler's entry, found under its key: what is in flight is never pruned or evicted.
unfoldable pub finish_entry : ReplayCache → Bytes → List Envelope → Err → ReplayCache
finish_entry c key responses error =
    let filled : Assoc ReplayEntry = elim (get key c.entries) [
      | none ↦ c.entries
      | some e ↦ put key (complete_entry e responses error) c.entries
    ] in
    evict (record c { entries = filled }) c.capacity

abbrev pub with_replay : Allocator → ReplayCache → Allocator
with_replay a c = record a { replay = c }

-- After a verdict: the first delivery is saved, and forgotten if that fails.
unfoldable pub save_first : Bool → Allocator → Bytes → ReplayCache × Verdict → Allocator × Verdict
save_first saved a key (c, first) =
    let noted = with_replay a c in
    if is_nil (persist_error saved noted) then (persist saved noted, first) else (
      with_replay noted (record c { entries = delete key c.entries }),
      refused (persist_error saved noted),
    )
save_first saved a key (c, verdict) = (with_replay a c, verdict)

unfoldable pub begin_replay :
    (Envelope → Envelope → Bool) → Bool → ℕ → Allocator → Bytes → Envelope → Allocator × Verdict
unfolding save_first
begin_replay same_envelope saved now a key envelope =
    let current = expire_offers now a in
    save_first saved current key (begin same_envelope current.replay key envelope now)

-- The error is the one of the Save.
unfoldable pub finish_replay : Bool → Allocator → Bytes → List Envelope → Err → Allocator × Err
finish_replay saved a key responses error =
    let noted = with_replay a (finish_entry a.replay key responses error) in
    (persist saved noted, persist_error saved noted)
