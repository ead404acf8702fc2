-- ===== src/Allocator/Accounts.antt =====
-- The slots of the ledger against the records that hold them: each transition of the records, with
-- what the ledger does, keeps the two equal.
use r1s.Base.{
  ℕ, ◌+◌, ◌-◌, ◌≤◌, ◌<◌, ◌≡◌, refl, ◌∙◌, Bool, true, false, ◌&&◌, not, none, some, [], ◌∷◌, Bytes,
  Assoc, beq, get, put, delete, count, count_of, count-put, count-delete, Values, Values-put,
  Values-delete, IsMap, put-IsMap, delete-IsMap, beq_iff, arith, if◌then◌else◌, ok,
}
use r1s.Protocol.Messages.{terminal}
use r1s.Allocator.Ledger.{
  CapacityLedger, slots, slots-put, reserve, reserve_lem, release-used, release-limits,
}
use r1s.Allocator.Ledger
use r1s.Allocator.State.{OfferStatus, OfferRecord, ExecutionRecord, Allocator, is_outstanding}
use r1s.Allocator.Views.{due, expire_records, release_due, expire_offers}

-- An outstanding offer, and an execution that has not given its slot back, hold one slot each.
abbrev pub holds_offer : Bytes → OfferRecord → Bool
holds_offer c o = is_outstanding o.status && beq o.offer.resource_class c

abbrev pub holds_execution : Bytes → ExecutionRecord → Bool
holds_execution c e = not e.released && beq e.resource_class c

abbrev pub held : Bytes → Assoc OfferRecord → Assoc ExecutionRecord → ℕ
held c offers executions = count (holds_offer c) offers + count (holds_execution c) executions

-- An execution has given its slot back exactly if its phase is terminal.
abbrev pub Settled : ExecutionRecord → Type 0
Settled e = terminal e.phase ≡ e.released

pub record Accounts (l : CapacityLedger) (offers : Assoc OfferRecord)
    (executions : Assoc ExecutionRecord) : Type 0 where
  pub balanced : (c : Bytes) → slots c l.used ≡ held c offers executions
  pub within : (c : Bytes) → slots c l.used ≤ slots c l.limits
  pub bounded : (c : Bytes) → slots c l.limits < 4294967296
  pub settled : Values Settled executions
  pub unique : IsMap executions

abbrev pub IsSound : Allocator → Type 0
IsSound a = Accounts a.capacity a.offers a.executions

abbrev due_of : ℕ → Bytes → OfferRecord → Bool
due_of now c o = due now o && beq o.offer.resource_class c

pub release_due-limits :
    (now : ℕ) (m : Assoc OfferRecord) (l : CapacityLedger) → (release_due now m l).limits ≡ l.limits
unfolding release_due
release_due-limits now [] l = refl
release_due-limits now ((id, o) ∷ m) l = ground (
  arith,
  release_due-limits now m (if due now o then Ledger.release l o.offer.resource_class else l),
  release-limits l o.offer.resource_class,
)

release_due-used :
    (now : ℕ) (c : Bytes) (m : Assoc OfferRecord) (l : CapacityLedger)
    → slots c (release_due now m l).used ≡ slots c l.used - count (due_of now c) m
unfolding release_due count
release_due-used now c [] l = omega arith
release_due-used now c ((id, o) ∷ m) l = ground (
  arith,
  release_due-used now c m (if due now o then Ledger.release l o.offer.resource_class else l),
  release-used l o.offer.resource_class c,
)

count-expire :
    (now : ℕ) (c : Bytes) (m : Assoc OfferRecord)
    → count (holds_offer c) (expire_records now m) + count (due_of now c) m
      ≡ count (holds_offer c) m
unfolding expire_records count
count-expire now c [] = omega arith
count-expire now c ((id, o) ∷ m) = ground (arith, count-expire now c m)

-- Expiring offers gives back exactly the slots of the offers that expire.
pub expire-IsSound : (now : ℕ) (a : Allocator) → IsSound a → IsSound (expire_offers now a)
unfolding expire_offers
expire-IsSound now a s = record {
  balanced = λ c. omega (
    arith,
    release_due-used now c a.offers a.capacity,
    count-expire now c a.offers,
    s.balanced c,
  );
  within = λ c.
      rw (release_due-limits now a.offers a.capacity)
        (omega (arith, release_due-used now c a.offers a.capacity, s.within c));
  bounded = λ c. rw (release_due-limits now a.offers a.capacity) (s.bounded c);
  settled = s.settled;
  unique = s.unique;
}

module _ {l : CapacityLedger} {offers : Assoc OfferRecord} {executions : Assoc ExecutionRecord}
    (s : Accounts l offers executions) where
  -- A reservation for a new outstanding offer.
  pub Accounts-publish :
      (id : Bytes) (o : OfferRecord) (m : CapacityLedger)
      → get id offers ≡ none
      → o.status ≡ OfferStatus.outstanding
      → reserve l o.offer.resource_class ≡ ok m
      → Accounts m (put id o offers) executions
  Accounts-publish id o m new out h =
      let (room, limits, used) = reserve_lem l m o.offer.resource_class s.bounded h in
      record {
        balanced = λ c.
            rw (used, slots-put o.offer.resource_class c _ l.used)
              (ground (
                arith,
                count-put (holds_offer c) id o offers,
                s.balanced c,
                beq_iff o.offer.resource_class c,
              ));
        within = λ c.
            rw (used, limits, slots-put o.offer.resource_class c _ l.used)
              (ground (arith, s.within c, beq_iff o.offer.resource_class c));
        bounded = λ c. rw limits (s.bounded c);
        settled = s.settled;
        unique = s.unique;
      }

  -- An offer is replaced by one that holds the same slot, or none as before.
  pub Accounts-offer :
      (id : Bytes) (o p : OfferRecord)
      → get id offers ≡ some o
      → ((c : Bytes) → holds_offer c p ≡ holds_offer c o)
      → Accounts l (put id p offers) executions
  Accounts-offer id o p h same = record {
    balanced = λ c. ground (arith, count-put (holds_offer c) id p offers, s.balanced c, same c);
    within = s.within;
    bounded = s.bounded;
    settled = s.settled;
    unique = s.unique;
  }

  -- An outstanding offer is no longer outstanding, and its slot is given back.
  pub Accounts-release :
      (id : Bytes) (o p : OfferRecord)
      → get id offers ≡ some o
      → o.status ≡ OfferStatus.outstanding
      → is_outstanding p.status ≡ false
      → Accounts (Ledger.release l o.offer.resource_class) (put id p offers) executions
  Accounts-release id o p h out gone = record {
    balanced = λ c. ground (
      arith,
      count-put (holds_offer c) id p offers,
      s.balanced c,
      release-used l o.offer.resource_class c,
    );
    within = λ c.
        rw (release-limits l o.offer.resource_class)
          (ground (arith, s.within c, release-used l o.offer.resource_class c));
    bounded = λ c. rw (release-limits l o.offer.resource_class) (s.bounded c);
    settled = s.settled;
    unique = s.unique;
  }

  -- The slot of an offer passes to a new execution.
  pub Accounts-assign :
      (id eid : Bytes) (o p : OfferRecord) (e : ExecutionRecord)
      → get id offers ≡ some o
      → o.status ≡ OfferStatus.outstanding
      → is_outstanding p.status ≡ false
      → get eid executions ≡ none
      → e.resource_class ≡ o.offer.resource_class
      → e.released ≡ false
      → Settled e
      → Accounts l (put id p offers) (put eid e executions)
  Accounts-assign id eid o p e h out gone new class kept done = record {
    balanced = λ c. ground (
      arith,
      count-put (holds_offer c) id p offers,
      count-put (holds_execution c) eid e executions,
      s.balanced c,
    );
    within = s.within;
    bounded = s.bounded;
    settled = Values-put Settled eid e executions s.settled done;
    unique = put-IsMap eid e executions s.unique;
  }

  -- An execution changes, and its slot stays where it was.
  pub Accounts-execution :
      (id : Bytes) (e f : ExecutionRecord)
      → get id executions ≡ some e
      → f.resource_class ≡ e.resource_class
      → f.released ≡ e.released
      → Settled f
      → Accounts l offers (put id f executions)
  Accounts-execution id e f h class kept done = record {
    balanced = λ c. ground (arith, count-put (holds_execution c) id f executions, s.balanced c);
    within = s.within;
    bounded = s.bounded;
    settled = Values-put Settled id f executions s.settled done;
    unique = put-IsMap id f executions s.unique;
  }

  -- An execution ends: its slot is given back, unless that was done before.
  pub Accounts-end :
      (id : Bytes) (e f : ExecutionRecord)
      → get id executions ≡ some e
      → f.released ≡ true
      → Settled f
      → Accounts
          (if e.released then l else Ledger.release l e.resource_class)
          offers
          (put id f executions)
  Accounts-end id e f h over done = record {
    balanced = λ c. ground (
      arith,
      count-put (holds_execution c) id f executions,
      s.balanced c,
      release-used l e.resource_class c,
    );
    within = λ c.
        ground
          (arith, s.within c, release-used l e.resource_class c, release-limits l e.resource_class);
    bounded = λ c. ground (arith, s.bounded c, release-limits l e.resource_class);
    settled = Values-put Settled id f executions s.settled done;
    unique = put-IsMap id f executions s.unique;
  }

  -- An offer that holds no slot is taken out, with an execution that holds none.
  pub Accounts-delete :
      (id eid : Bytes) (o : OfferRecord)
      → get id offers ≡ some o
      → is_outstanding o.status ≡ false
      → ((e : ExecutionRecord) → get eid executions ≡ some e → e.released ≡ true)
      → Accounts l (delete id offers) (delete eid executions)
  Accounts-delete id eid o h gone over = record {
    balanced = λ c. ground (
      arith,
      count-delete (holds_offer c) id offers,
      count-delete (holds_execution c) eid executions,
      s.balanced c,
      freed c,
    );
    within = s.within;
    bounded = s.bounded;
    settled = Values-delete Settled eid executions s.settled;
    unique = delete-IsMap eid executions s.unique;
  }
    where
      freed : (c : Bytes) → count_of (holds_execution c) (get eid executions) ≡ 0
      freed c =
          elim (get eid executions)
              as (λ x.
                ((e : ExecutionRecord) → x ≡ some e → e.released ≡ true)
                → count_of (holds_execution c) x ≡ 0) [
                  | none ↦ λ _. refl
                  | some e ↦ λ g. rw (g e refl)
                ]
            over

-- Only the slots count, not how the ledger's map is written.
pub Accounts-same :
    {l : CapacityLedger} (m : CapacityLedger) {offers : Assoc OfferRecord}
    {executions : Assoc ExecutionRecord}
    → ((c : Bytes) → slots c m.used ≡ slots c l.used)
    → m.limits ≡ l.limits
    → Accounts l offers executions
    → Accounts m offers executions
Accounts-same m used limits s = record {
  balanced = λ c. used c ∙ s.balanced c;
  within = λ c. rw limits (omega (arith, used c, s.within c));
  bounded = λ c. rw limits (s.bounded c);
  settled = s.settled;
  unique = s.unique;
}

-- A reservation that is given back at once changes no slot.
pub release-reserve :
    (l m : CapacityLedger) (class c : Bytes)
    → ((d : Bytes) → slots d l.limits < 4294967296)
    → reserve l class ≡ ok m
    → (slots c (Ledger.release m class).used ≡ slots c l.used)
      × ((Ledger.release m class).limits ≡ l.limits)
release-reserve l m class c small h =
    let (room, limits, used) = reserve_lem l m class small h in
    (
      rw (release-used m class c, used, slots-put class c _ l.used)
          (ground (arith, beq_iff class c)),
      release-limits m class ∙ limits,
    )
