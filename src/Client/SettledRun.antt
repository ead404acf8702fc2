-- ===== src/Client/SettledRun.antt =====
-- Every run of the client keeps its requests settled.
use r1s.Base.{
  ℕ, ◌+◌, ◌≡◌, inl, refl, subst, ◌∙◌, ◌||◌, not, Bool, false, Option, some, List, [], ◌∷◌, Bytes,
  Values-put, get, put, get-put, beq, ◌==◌, is_empty, option_rule, if_rule, Checked, ok, err,
  Ensures, present_rule, stop_if_rule, bind_rule,
}
use r1s.Protocol.Messages.{ℤ, pos, Envelope, ExecutionRequest, ExecutionOffer, ExecutionState}
use r1s.Client.State.{
  ClientError, RequestRecord, ExecutionRecord, Client, Allocator, put_execution, new,
}
use r1s.Client.Catalog.{register_allocator}
use r1s.Client.Selection.{Command}
use r1s.Client.Leases.{
  Maintained, has_ended, ended_by_lease, is_positive, maintain, record_lease_intent,
  rebind_lease_intent,
}
use r1s.Client.Commands
use r1s.Client.Commands.{
  create_request, create_first, create_next_attempt, inspect, cancel, logs, first_request,
  max_uint64,
}
use r1s.Client.System
use r1s.Client.Settled.{IsSettled, IsConsistent, IsConsistent-put}
use r1s.Client.SettledSelect.{select-IsConsistent}
use r1s.Client.SettledInbound.{handle-IsConsistent}

kept-IsConsistent :
    {A : Type 0} (f : A → Client) (c : Client) (m : Checked ClientError A)
    → IsConsistent c
    → Ensures (λ (a : A). IsConsistent (f a)) m
    → IsConsistent (System.kept f c m)
kept-IsConsistent f c (ok a) k h = h
kept-IsConsistent f c (err e) k h = k

register-IsConsistent :
    (c : Client) (a : Allocator) → IsConsistent c → Ensures IsConsistent (register_allocator c a)
unfolding register_allocator
register-IsConsistent c a k =
    if_rule (Ensures IsConsistent) (is_empty a.identity || _) (λ _. tt)
      (λ _. record { unnamed = k.unnamed; settled = k.settled })

module _ (c : Client) (k : IsConsistent c) where
  fresh_request-IsConsistent :
      (id : Bytes) (r : RequestRecord)
      → r.execution_id ≡ []
      → r.offers ≡ []
      → IsConsistent (record c { requests = put id r c.requests })
  fresh_request-IsConsistent id r fresh none_yet = record {
    unnamed = k.unnamed;
    settled = Values-put (IsSettled c.executions) id r c.requests k.settled (record {
      backed = inl fresh;
      fits = rw none_yet tt;
      selected = rw (fresh, k.unnamed) refl;
      unique = rw none_yet tt;
    });
  }

  changed-IsConsistent :
      (id : Bytes) (r r' : ExecutionRecord)
      → get id c.executions ≡ some r
      → r'.offer_id ≡ r.offer_id
      → IsConsistent (record c { executions = put id r' c.executions })
  changed-IsConsistent id r r' h same = IsConsistent-put c id r r' h same k

  maintain-IsConsistent :
      (message_id : Bytes) (now : ℕ) (id : Bytes) (asked : ℤ)
      → IsConsistent (maintain message_id now c id asked).0
  unfolding maintain
  maintain-IsConsistent message_id now id asked =
      let P : Client × Checked ClientError Maintained → Type 0 =
        λ (x : Client × Checked ClientError Maintained). IsConsistent x.0 in
      option_rule P (get id c.executions) (λ _. k)
        (λ r found.
          if_rule P r.lease_lost (λ _. k)
            (λ _.
              if_rule P (has_ended r.state)
                (λ _.
                  if_rule P (ended_by_lease r.state) (λ _. changed-IsConsistent id r _ found refl)
                    (λ _. k))
                (λ _.
                  if_rule P (is_empty message_id) (λ _. changed-IsConsistent id r _ found refl)
                    (λ _. changed-IsConsistent id r _ found refl))))

  cancel-IsConsistent :
      (message_id : Bytes) (now : ℕ) (id reason : Bytes)
      → IsConsistent (cancel message_id now c id reason).0
  unfolding cancel
  cancel-IsConsistent message_id now id reason =
      let P : Client × Checked ClientError Command → Type 0 =
        λ (x : Client × Checked ClientError Command). IsConsistent x.0 in
      option_rule P (get id c.executions) (λ _. k)
        (λ r found.
          if_rule P (is_empty r.cancel_message_id) (λ _. changed-IsConsistent id r _ found refl)
            (λ _. k))

  inspect-IsConsistent :
      (message_id : Bytes) (now : ℕ) (id : Bytes)
      → Ensures (λ (x : Client × Command). IsConsistent x.0) (inspect message_id now c id)
  unfolding inspect
  inspect-IsConsistent message_id now id =
      let P : Client × Command → Type 0 = λ (x : Client × Command). IsConsistent x.0 in
      present_rule P (get id c.executions) _ _ (λ r found.
        stop_if_rule P (is_empty message_id) _ _ (λ _. changed-IsConsistent id r _ found refl))

  record_lease_intent-IsConsistent :
      (id : Bytes) (asked : ℤ) (pinned : List Bytes)
      → Ensures IsConsistent (record_lease_intent c id asked pinned)
  unfolding record_lease_intent
  record_lease_intent-IsConsistent id asked pinned =
      present_rule IsConsistent (get id c.executions) _ _ (λ r found.
        stop_if_rule IsConsistent (r.lease_lost || has_ended r.state) _ _
          (λ _. changed-IsConsistent id r _ found refl))

  create_request-IsConsistent :
      (sha256 : Bytes → Bytes) (new_id : ℕ → Bytes) (now : ℕ) (q : ExecutionRequest)
      → Ensures
          (λ (x : Client × Bytes × Envelope). IsConsistent x.0)
          (create_request sha256 new_id now c q)
  unfolding create_request
  create_request-IsConsistent sha256 new_id now q =
      let P : Client × Bytes × Envelope → Type 0 =
        λ (x : Client × Bytes × Envelope). IsConsistent x.0 in
      stop_if_rule P (is_empty _ || is_empty (new_id 1)) _ _ (λ _.
        bind_rule P (Commands.check sha256 _) _ (λ _ _. fresh_request-IsConsistent _ _ refl refl))

  logs-IsConsistent :
      (sha256 : Bytes → Bytes) (message_id : Bytes) (now : ℕ) (id stream : Bytes) (offset limit : ℕ)
      → Ensures
          (λ (x : Client × Command). IsConsistent x.0)
          (logs sha256 message_id now c id stream offset limit)
  unfolding logs
  logs-IsConsistent sha256 message_id now id stream offset limit =
      let P : Client × Command → Type 0 = λ (x : Client × Command). IsConsistent x.0 in
      present_rule P (get id c.executions) _ _ (λ r found.
        bind_rule P (Commands.check sha256 _) _
          (λ _ _. record { unnamed = k.unnamed; settled = k.settled }))

  rebind-IsConsistent :
      (old_id new_id : Bytes) → Ensures IsConsistent (rebind_lease_intent c old_id new_id)
  unfolding rebind_lease_intent
  rebind-IsConsistent old_id new_id =
      present_rule IsConsistent (get old_id c.executions) _ _ (λ previous found.
        present_rule IsConsistent (get new_id c.executions) _ _ (λ next there.
          stop_if_rule IsConsistent (beq old_id new_id) _ _ (λ apart.
            stop_if_rule IsConsistent (not (is_positive previous.lease_duration)) _ _ (λ _.
              let cleared : ExecutionRecord = record previous {
                lease_duration = pos 0;
                lease_lost = false;
                lease_allocators = [];
              } in
              IsConsistent-put (put_execution c old_id cleared) new_id next _
                (get-put old_id new_id cleared c.executions ∙ rw apart there) refl
                (changed-IsConsistent old_id previous cleared found refl)))))

  create_next-IsConsistent :
      (sha256 : Bytes → Bytes) (new_id : ℕ → Bytes) (now : ℕ) (q : Option ExecutionRequest)
      → Ensures
          (λ (x : Client × Bytes × Envelope). IsConsistent x.0)
          (create_next_attempt sha256 new_id now c q)
  unfolding create_next_attempt
  create_next-IsConsistent sha256 new_id now q =
      let P : Client × Bytes × Envelope → Type 0 =
        λ (x : Client × Bytes × Envelope). IsConsistent x.0 in
      present_rule P q _ _ (λ previous _. stop_if_rule P (previous.attempt == max_uint64) _ _ (λ _.
        create_request-IsConsistent sha256 new_id now
          (record previous { attempt = previous.attempt + 1 })))

module _ (same_offer : ExecutionOffer → ExecutionOffer → Bool)
    (same_state : ExecutionState → ExecutionState → Bool) (sha256 : Bytes → Bytes) where
  step-IsConsistent :
      (call : System.Call) (c : Client)
      → IsConsistent c
      → IsConsistent (System.step same_offer same_state sha256 call c)
  unfolding System.step create_first
  step-IsConsistent (System.register a) c k =
      kept-IsConsistent (λ x. x) c (register_allocator c a) k (register-IsConsistent c a k)
  step-IsConsistent (System.create new_id now workload policy class constraints) c k =
      kept-IsConsistent (λ (x : Client × Bytes × Envelope). x.0) c _ k
        (create_request-IsConsistent c k sha256 new_id now
          (first_request workload policy class constraints))
  step-IsConsistent (System.next_attempt new_id now q) c k =
      kept-IsConsistent (λ (x : Client × Bytes × Envelope). x.0) c _ k
        (create_next-IsConsistent c k sha256 new_id now q)
  step-IsConsistent (System.choose_offer new_id now request_id) c k =
      kept-IsConsistent (λ (x : Client × Command). x.0) c _ k
        (select-IsConsistent new_id now c request_id k)
  step-IsConsistent (System.ask_state message_id now id) c k =
      kept-IsConsistent (λ (x : Client × Command). x.0) c _ k
        (inspect-IsConsistent c k message_id now id)
  step-IsConsistent (System.stop message_id now id reason) c k =
      cancel-IsConsistent c k message_id now id reason
  step-IsConsistent (System.read_logs message_id now id stream offset limit) c k =
      kept-IsConsistent (λ (x : Client × Command). x.0) c _ k
        (logs-IsConsistent c k sha256 message_id now id stream offset limit)
  step-IsConsistent (System.renew message_id now id asked) c k =
      maintain-IsConsistent c k message_id now id asked
  step-IsConsistent (System.intend id asked pinned) c k =
      kept-IsConsistent (λ x. x) c _ k (record_lease_intent-IsConsistent c k id asked pinned)
  step-IsConsistent (System.rebind old_id new_id) c k =
      kept-IsConsistent (λ x. x) c _ k (rebind-IsConsistent c k old_id new_id)
  step-IsConsistent (System.take_message release_id now e) c k =
      handle-IsConsistent same_offer same_state sha256 release_id now c e k

  run_from-IsConsistent :
      (calls : List System.Call) (c : Client)
      → IsConsistent c
      → IsConsistent (System.run same_offer same_state sha256 calls c)
  unfolding System.run
  run_from-IsConsistent [] c k = k
  run_from-IsConsistent (call ∷ calls) c k =
      run_from-IsConsistent calls _ (step-IsConsistent call c k)

  new-IsConsistent : (identity : Bytes) → Ensures IsConsistent (new identity)
  unfolding new get
  new-IsConsistent identity =
      if_rule (Ensures IsConsistent) (is_empty identity) (λ _. tt)
        (λ _. record { unnamed = refl; settled = tt })

  -- Whatever calls are made of a new client and whatever messages it takes, in any order: under each
  -- request every offer stands under its own ID, no offer has a release before a selection, and
  -- after it the selected offer is there and has none while every other offer has one.
  pub run-IsConsistent :
      (identity : Bytes) (c : Client) (calls : List System.Call)
      → new identity ≡ ok c
      → IsConsistent (System.run same_offer same_state sha256 calls c)
  run-IsConsistent identity c calls h =
      run_from-IsConsistent calls c (subst (Ensures IsConsistent) h (new-IsConsistent identity))
