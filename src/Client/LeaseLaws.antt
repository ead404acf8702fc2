-- ===== src/Client/LeaseLaws.antt =====
-- lease_intent.go and lease_ack.go: a renewal and its acknowledgement, and the pinned allocators.
use r1s.Base.{
  ℕ, ◌≡◌, ◌≢◌, refl, ◌||◌, false, some, [], Bytes, get, put, get-put_same, beq_refl, is_empty,
  arith, ok, err,
}
use r1s.Protocol.Messages.{ℤ, Envelope, ExecutionLeaseRenewAck}
use r1s.Client.State.{unauthorized, ExecutionRecord, Client, put_execution}
use r1s.Client.Leases.{
  Maintained, maintain, handle_renew_ack, lease_intent_lost, has_ended, renewed_duration,
}
use r1s.Client.Evolution.{renewed, wrong_renewal}

-- The record that a renewal leaves.
maintain-record :
    (message_id : Bytes) (now : ℕ) (c after : Client) (id : Bytes) (asked : ℤ) (r : ExecutionRecord)
    (m : Maintained)
    → get id c.executions ≡ some r
    → maintain message_id now c id asked ≡ (after, ok m)
    → m.lost ≡ false
    → (r' : ExecutionRecord) × ((get id after.executions ≡ some r')
        × (r'.allocator_id ≡ r.allocator_id)
        × (r'.lease_renew_message_id ≡ message_id)
        × (message_id ≢ [])
        × (r'.lease_lost ≡ false))
unfolding maintain
maintain-record message_id now c after id asked r m found run kept =
    let renewed : ExecutionRecord = record r {
      lease_duration = renewed_duration r.lease_duration asked;
      lease_renew_message_id = message_id;
      lease_renewed_at = now;
    } in
    let live : (r.lease_lost || has_ended r.state || is_empty message_id) ≡ false =
      ground (arith, found, run, kept) in
    let moved : after.executions ≡ put id renewed c.executions =
      ground (arith, found, run, kept, live) in
    (
      renewed,
      (
        rw moved (get-put_same id renewed c.executions),
        refl,
        refl,
        ground (arith, live),
        ground (arith, live),
      ),
    )

handle_renew_ack-ok :
    (t : ℕ) (c : Client) (e : Envelope) (ack : ExecutionLeaseRenewAck) (r : ExecutionRecord)
    → get ack.execution_id c.executions ≡ some r
    → wrong_renewal e r ≡ false
    → r.lease_lost ≡ false
    → handle_renew_ack t c e ack ≡ ok (put_execution c ack.execution_id (renewed t ack r))
unfolding handle_renew_ack
handle_renew_ack-ok t c e ack r found mine live = rw (found, mine, live) refl

handle_renew_ack-err :
    (t : ℕ) (c : Client) (e : Envelope) (ack : ExecutionLeaseRenewAck) (r : ExecutionRecord)
    → get ack.execution_id c.executions ≡ some r
    → r.lease_renew_message_id ≡ []
    → handle_renew_ack t c e ack ≡ err unauthorized
unfolding handle_renew_ack
handle_renew_ack-err t c e ack r found none_pending = rw (found, none_pending) refl

lease_intent_lost-get :
    (c : Client) (id key : Bytes) (r : ExecutionRecord)
    → get key c.executions ≡ some r
    → key ≡ id
    → r.lease_lost ≡ false
    → lease_intent_lost c id ≡ false
unfolding lease_intent_lost
lease_intent_lost-get c id key r found same live = ground (arith, found, same, live)

-- A renewal that was sent is acknowledged by its allocator's answer to it: the lease is then not
-- lost, and the same answer is refused the second time.
pub maintain-acknowledged :
    (message_id : Bytes) (now acked later : ℕ) (c after : Client) (id : Bytes) (asked : ℤ)
    (r : ExecutionRecord) (m : Maintained) (e : Envelope) (ack : ExecutionLeaseRenewAck)
    → get id c.executions ≡ some r
    → maintain message_id now c id asked ≡ (after, ok m)
    → m.lost ≡ false
    → ack.execution_id ≡ id
    → e.sender ≡ r.allocator_id
    → e.correlation_id ≡ message_id
    → (held : Client) × ((handle_renew_ack acked after e ack ≡ ok held)
        × (lease_intent_lost held id ≡ false)
        × (handle_renew_ack later held e ack ≡ err unauthorized))
maintain-acknowledged message_id now acked later c after id asked r m e ack found run kept same
      sender named =
    let (r', (there, owner, pending, nonempty, live)) =
      maintain-record message_id now c after id asked r m found run kept in
    let at : get ack.execution_id after.executions ≡ some r' = rw same there in
    let mine : wrong_renewal e r' ≡ false =
      rw (owner, pending, sender, named, beq_refl r.allocator_id, beq_refl message_id)
        (ground (arith, nonempty)) in
    let done : ExecutionRecord = renewed acked ack r' in
    let held : Client = put_execution after ack.execution_id done in
    let known : get ack.execution_id held.executions ≡ some done =
      get-put_same ack.execution_id done after.executions in
    (
      held,
      (
        handle_renew_ack-ok acked after e ack r' at mine live,
        lease_intent_lost-get held id ack.execution_id done known same live,
        handle_renew_ack-err later held e ack done known refl,
      ),
    )
