-- ===== src/Allocator/SoundRelease.antt =====
-- The release of an offer and the runtime's reports (release.go, runtime_bridge.go) keep the ledger
-- equal to the slots that the records hold.
use r1s.Base.{
  ℕ, ◌+◌, ◌<◌, ◌≤◌, ◌≡◌, refl, ap, Bool, Option, some, [], Bytes, inl, inr, get, put, put-put,
  put-get, count-put, beq_iff, beq_refl, arith, ok, err, Option-cases,
}
use r1s.Protocol.Messages.{ℤ, ExecutionPhase, ExecutionOfferRelease}
use r1s.Allocator.Ledger
use r1s.Allocator.Ledger.{CapacityLedger}
use r1s.Allocator.State.{OfferStatus, OfferRecord, ExecutionRecord, Tombstone, Allocator}
use r1s.Allocator.Views.{finish}
use r1s.Allocator.Accounts.{holds_offer, Accounts, IsSound, Accounts-release, Accounts-same}
use r1s.Allocator.Sound.{Leaves, settle_rule, commit-IsSound}
use r1s.Allocator.SoundSections.{finish-IsSound}
use r1s.Allocator.Lease.{
  released_status, commit_release, release_found, release_checks, handle_offer_release, find_offer,
  try_reserve, Found,
}
use r1s.Allocator.Runtime.{
  Completion, completion_phase, completion_detail, commit_completion, completion_checks,
  runtime_completed,
}

-- The undoing of a terminal transition: the record, and the slots that were in use.
undone_finish-IsSound :
    (a : Allocator) (id : Bytes) (e : ExecutionRecord) (phase : ExecutionPhase) (detail : Bytes)
    (exit_code : Option ℤ) (now : ℕ)
    → get id a.executions ≡ some e
    → IsSound a
    → let b = finish a id e phase detail exit_code now in
      Accounts (Ledger.restore b.capacity a.capacity.used) b.offers (put id e b.executions)
unfolding finish
undone_finish-IsSound a id e phase detail exit_code now h s =
    rw (put-put id e _ a.executions, put-get id e a.executions h)
      (Accounts-same _ (λ c. refl)
        (ground (arith, Ledger.release-limits a.capacity e.resource_class)) s)

try_reserve_ok :
    (l m : CapacityLedger) (class : Bytes) → Ledger.reserve l class ≡ ok m → try_reserve l class ≡ m
try_reserve_ok l m class h = ap (λ r. elim r [ err e ↦ l | ok m ↦ m ]) h

-- A slot that was given back can be taken again at once.
try_reserve-release :
    (l : CapacityLedger) (class c : Bytes)
    → 0 < Ledger.slots class l.used
    → Ledger.slots class l.used ≤ Ledger.slots class l.limits
    → Ledger.slots class l.limits < 4294967296
    → let m = try_reserve (Ledger.release l class) class in
      (Ledger.slots c m.used ≡ Ledger.slots c l.used) × (m.limits ≡ l.limits)
try_reserve-release l class c taken room small =
    let given = Ledger.release l class in
    let limits = Ledger.release-limits l class in
    let again = try_reserve_ok given _ class (
      Ledger.reserve_room given class
        (rw (limits, Ledger.release-used l class class, beq_refl class) (omega arith))
        (rw limits small)) in
    rw again (
      ground (
        arith,
        Ledger.slots-put class c (Ledger.slots class given.used + 1) given.used,
        Ledger.release-used l class c,
        Ledger.release-used l class class,
        beq_iff class c,
        beq_refl class,
      ),
      limits,
    )

-- An outstanding offer keeps at least one slot of its class in use.
slot_in_use :
    (a : Allocator) (id : Bytes) (o : OfferRecord)
    → IsSound a
    → get id a.offers ≡ some o
    → o.status ≡ OfferStatus.outstanding
    → 0 < Ledger.slots o.offer.resource_class a.capacity.used
slot_in_use a id o s h out = ground (
  arith,
  s.balanced o.offer.resource_class,
  beq_refl o.offer.resource_class,
  count-put (holds_offer o.offer.resource_class) id (record o { status = OfferStatus.released })
      a.offers,
)

undone_release-IsSound :
    (a : Allocator) (id : Bytes) (o p : OfferRecord)
    → IsSound a
    → get id a.offers ≡ some o
    → o.status ≡ OfferStatus.outstanding
    → Accounts
        (try_reserve (Ledger.release a.capacity o.offer.resource_class) o.offer.resource_class)
        (put id o (put id p a.offers))
        a.executions
undone_release-IsSound a id o p s h out =
    let class = o.offer.resource_class in
    let taken = slot_in_use a id o s h out in
    rw (put-put id o p a.offers, put-get id o a.offers h)
      (Accounts-same _
        (λ c. (try_reserve-release a.capacity class c taken (s.within class) (s.bounded class)).0)
        (try_reserve-release a.capacity class class taken (s.within class) (s.bounded class)).1 s)

commit_completion-IsSound :
    (saved : Bool) (now : ℕ) (a : Allocator) (e : ExecutionRecord) (c : Completion)
    → get c.execution_id a.executions ≡ some e
    → IsSound a
    → IsSound (commit_completion saved now a e c).state
unfolding commit_completion
commit_completion-IsSound saved now a e c h s =
    commit-IsSound saved _ [] _
      (finish-IsSound a c.execution_id e (completion_phase c) (completion_detail c) c.exit_code now
        h (ground arith) s)
      (undone_finish-IsSound a c.execution_id e (completion_phase c) (completion_detail c)
        c.exit_code now h s)

commit_release-IsSound :
    (message_id : Bytes) (saved : Bool) (a : Allocator) (cid : Bytes) (now : ℕ) (o : OfferRecord)
    (q : ExecutionOfferRelease)
    → get q.offer_id a.offers ≡ some o
    → o.status ≡ OfferStatus.outstanding
    → IsSound a
    → IsSound (commit_release message_id saved a cid now o q).state
unfolding commit_release
commit_release-IsSound message_id saved a cid now o q h out s =
    commit-IsSound saved _ _ _
      (Accounts-release s q.offer_id o (record o { status = released_status now o }) h out
        (ground arith))
      (undone_release-IsSound a q.offer_id o (record o { status = released_status now o }) s h out)

buried_state :
    (message_id : Bytes) (saved : Bool) (a : Allocator) (cid : Bytes) (now : ℕ)
    (q : ExecutionOfferRelease) (t : Tombstone)
    → (release_found message_id saved a cid now (Found.buried t) q).state ≡ a
unfolding release_found
buried_state message_id saved a cid now q t = refl

release_found-IsSound :
    (message_id : Bytes) (saved : Bool) (a : Allocator) (cid : Bytes) (now : ℕ)
    (q : ExecutionOfferRelease) (o : OfferRecord)
    → get q.offer_id a.offers ≡ some o
    → IsSound a
    → IsSound (release_found message_id saved a cid now (Found.live o) q).state
unfolding release_found
release_found-IsSound message_id saved a cid now q o h s = ground (
  arith,
  λ (out : o.status ≡ OfferStatus.outstanding).
      commit_release-IsSound message_id saved a cid now o q h out s,
)

-- A release gives back the slot of an outstanding offer, and no other.
pub handle_offer_release-IsSound :
    (message_id : Bytes) (saved : Bool) (now : ℕ) (a : Allocator) (sender cid : Bytes)
    (q : ExecutionOfferRelease)
    → IsSound a
    → IsSound (handle_offer_release message_id saved now a sender cid q).state
unfolding handle_offer_release release_checks find_offer
handle_offer_release-IsSound message_id saved now a sender cid q s =
    elim (Option-cases (get q.offer_id a.offers)) [
      | inl e ↦ grind (arith, buried_state)
      | inr (o, h) ↦ ground (arith, release_found-IsSound message_id saved a cid now q o h s)
    ]

completion_checks-IsSound :
    (saved : Bool) (now : ℕ) (a : Allocator) (c : Completion)
    → IsSound a
    → Leaves IsSound (completion_checks saved now a c)
unfolding completion_checks
completion_checks-IsSound saved now a c s = elim (Option-cases (get c.execution_id a.executions)) [
  | inl e ↦ ground arith
  | inr (e, h) ↦ ground (arith, commit_completion-IsSound saved now a e c h s)
]

-- A report of the runtime ends an execution and gives its slot back, or changes nothing.
pub runtime_completed-IsSound :
    (saved : Bool) (now : ℕ) (a : Allocator) (c : Completion)
    → IsSound a
    → IsSound (runtime_completed saved now a c).state
unfolding runtime_completed
runtime_completed-IsSound saved now a c s =
    settle_rule IsSound a _ s (completion_checks-IsSound saved now a c s)
