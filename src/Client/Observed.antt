-- ===== src/Client/Observed.antt =====
-- inbound.go: the observed state of an execution goes forward only.
use r1s.Base.{
  ℕ, ◌≡◌, ◌≢◌, ◌≤◌, ◌⊎◌, inl, inr, refl, ◌∙◌, ap, Bool, true, false, some, Bytes, get, arith,
}
use r1s.Protocol.Messages.{Envelope, ExecutionOffer, ExecutionState, terminal}
use r1s.Client.State.{ExecutionRecord, Client}
use r1s.Client.Leases.{mark_renewal_failure}
use r1s.Client.Inbound.{newer, order_of, judge, observe, handle}
use r1s.Client.Evolution.{Evolves, unchanged, observed, acknowledged, failed, handle-Evolves}

order_of-newer :
    (same : ExecutionState → ExecutionState → Bool) (old state : ExecutionState)
    → order_of same old state ≡ newer
    → old.revision ≤ state.revision
unfolding order_of
order_of-newer same old state h = ground (arith, h)

judge-newer :
    (same : ExecutionState → ExecutionState → Bool) (old state : ExecutionState)
    → judge same (some old) state ≡ newer
    → (old.revision ≤ state.revision) × ((terminal old.phase ≡ false) ⊎ (same old state ≡ true))
unfolding judge
judge-newer same old state h = ground (arith, h, order_of-newer same old state)

-- What a later record still says of an observed state.
pub record Forward (r : ExecutionRecord) (old : ExecutionState) (r' : ExecutionRecord)
    : Type 0 where
  pub new : ExecutionState
  pub shows : r'.state ≡ some new
  pub ordered : old.revision ≤ new.revision
  pub final : (terminal old.phase ≡ false) ⊎ (old ≡ new)
  pub owner : r'.allocator_id ≡ r.allocator_id

observe-state :
    (state : ExecutionState) (r : ExecutionRecord)
    → ((observe state r).state ≡ some state) × ((observe state r).allocator_id ≡ r.allocator_id)
observe-state state r = (ground arith, ground arith)

mark_renewal_failure-state :
    (code : Bytes) (r : ExecutionRecord)
    → ((mark_renewal_failure code r).state ≡ r.state)
      × ((mark_renewal_failure code r).allocator_id ≡ r.allocator_id)
unfolding mark_renewal_failure
mark_renewal_failure-state code r = (ground arith, ground arith)

module _ (same : ExecutionState → ExecutionState → Bool) (now : ℕ) (e : Envelope) where
  stays :
      (r r' : ExecutionRecord) (old : ExecutionState)
      → r.state ≡ some old
      → r'.state ≡ r.state
      → r'.allocator_id ≡ r.allocator_id
      → Forward r old r'
  stays r r' old h state owner = record {
    new = old;
    shows = state ∙ h;
    ordered = omega arith;
    final = inr refl;
    owner = owner;
  }

  Evolves-Forward :
      (r r' : ExecutionRecord) (old : ExecutionState)
      → ((a b : ExecutionState) → same a b ≡ true → a ≡ b)
      → r.state ≡ some old
      → Evolves same now e r r'
      → Forward r old r'
  Evolves-Forward r _ old sound h unchanged = stays r r old h refl refl
  Evolves-Forward r _ old sound h (observed state told own verdict) =
      let judged = judge-newer same old state (rw h at verdict) in
      record {
        new = state;
        shows = (observe-state state r).0;
        ordered = judged.0;
        final = elim judged.1 [ inl going ↦ inl going | inr eq ↦ inr (sound old state eq) ];
        owner = (observe-state state r).1;
      }
  Evolves-Forward r _ old sound h (acknowledged ack told own named mine live) =
      stays r _ old h refl refl
  Evolves-Forward r _ old sound h (failed failure told own correlated asked) =
      let kept = mark_renewal_failure-state failure.code r in stays r _ old h kept.0 kept.1

  -- Where proto.Equal holds of equal states only: once a state of an execution was observed, every
  -- message leaves the execution with a state of no smaller revision, and a terminal state with
  -- that state itself. The allocator that it is assigned to stays the same.
  pub handle-Forward :
      (same_offer : ExecutionOffer → ExecutionOffer → Bool) (sha256 : Bytes → Bytes)
      (release_id : Bytes) (c : Client) (id : Bytes) (r : ExecutionRecord) (old : ExecutionState)
      → ((a b : ExecutionState) → same a b ≡ true → a ≡ b)
      → get id c.executions ≡ some r
      → r.state ≡ some old
      → (r' : ExecutionRecord) × ((get id
              (handle same_offer same sha256 release_id now c e).client.executions
            ≡ some r')
          × Forward r old r')
  handle-Forward same_offer sha256 release_id c id r old sound h state =
      let next = handle-Evolves same now c e id r h same_offer sha256 release_id in
      (next.0, (next.1.0, Evolves-Forward r next.0 old sound state next.1.1))

  Evolves-stranger :
      (r r' : ExecutionRecord) → r.allocator_id ≢ e.sender → Evolves same now e r r' → r' ≡ r
  Evolves-stranger r _ other unchanged = refl
  Evolves-stranger r _ other (observed state told own verdict) = elim (other own) [ ]
  Evolves-stranger r _ other (acknowledged ack told own named mine live) = elim (other own) [ ]
  Evolves-stranger r _ other (failed failure told own correlated asked) = elim (other own) [ ]

  -- A message whose sender is not the allocator that an execution was assigned to leaves the client's
  -- record of that execution as it is.
  pub handle-stranger :
      (same_offer : ExecutionOffer → ExecutionOffer → Bool) (sha256 : Bytes → Bytes)
      (release_id : Bytes) (c : Client) (id : Bytes) (r : ExecutionRecord)
      → get id c.executions ≡ some r
      → r.allocator_id ≢ e.sender
      → get id (handle same_offer same sha256 release_id now c e).client.executions ≡ some r
  handle-stranger same_offer sha256 release_id c id r h other =
      let next = handle-Evolves same now c e id r h same_offer sha256 release_id in
      next.1.0 ∙ ap some (Evolves-stranger r next.0 other next.1.1)
