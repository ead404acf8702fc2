-- ===== src/Allocator/SoundSections.antt =====
-- The locked sections of the other commands, of the runtime's reports and of the evictions keep the
-- ledger equal to the slots that the records hold.
use r1s.Base.{
  ℕ, ◌≡◌, refl, Bool, true, false, Option, none, some, [], Bytes, inl, inr, get, put, delete-put,
  put-put, Checked, Values-get, arith, if_rule, ok, err, Option-cases, Ensures,
}
use r1s.Protocol.Messages.{ℤ, ExecutionPhase, ExecutionAssign, terminal}
use r1s.Allocator.Errors.{Err}
use r1s.Allocator.State.{
  OfferStatus, OfferRecord, ExecutionRecord, Allocator, Outcome, persist_error, is_nil, is_starting,
}
use r1s.Allocator.Views.{expire_offers, finish, finished_record}
use r1s.Allocator.Accounts.{
  Accounts, Settled, IsSound, expire-IsSound, Accounts-offer, Accounts-assign, Accounts-execution,
  Accounts-end,
}
use r1s.Allocator.Sound.{persist-IsSound}
use r1s.Allocator.Assign.{started, finish_assign, taken, untake, take_offer, new_execution}
use r1s.Allocator.Assign

-- The terminal transition, to a phase that is terminal.
pub finish-IsSound :
    (a : Allocator) (id : Bytes) (e : ExecutionRecord) (phase : ExecutionPhase) (detail : Bytes)
    (exit_code : Option ℤ) (now : ℕ)
    → get id a.executions ≡ some e
    → terminal phase ≡ true
    → IsSound a
    → IsSound (finish a id e phase detail exit_code now)
unfolding finish finished_record
finish-IsSound a id e phase detail exit_code now h over s =
    Accounts-end s id e (finished_record a e phase detail exit_code now) h refl over

module _ (a : Allocator) (id : Bytes) (e : ExecutionRecord) (h : get id a.executions ≡ some e)
    (s : IsSound a) where
  unsettled : terminal e.phase ≡ false → e.released ≡ false
  unsettled live = ground (arith, Values-get Settled id a.executions s.settled h)

  -- An execution that is not terminal goes to a phase that is not terminal.
  pub move-IsSound :
      (f : ExecutionRecord)
      → terminal e.phase ≡ false
      → terminal f.phase ≡ false
      → f.resource_class ≡ e.resource_class
      → f.released ≡ e.released
      → Accounts a.capacity a.offers (put id f a.executions)
  move-IsSound f live still class kept =
      Accounts-execution s id e f h class kept (ground (arith, unsettled live))

  pub started-IsSound :
      (now : ℕ) (start_error : Option Bytes) → IsSound (started now a id e start_error)
  unfolding started
  started-IsSound now none =
      if_rule IsSound (is_starting e.phase) (λ p. move-IsSound _ (ground arith) refl refl refl)
        (λ _. s)
  started-IsSound now (some text) =
      if_rule IsSound (is_starting e.phase)
        (λ p. finish-IsSound a id e ExecutionPhase.failed text none now h refl s) (λ _. s)

-- The second section of an assignment.
pub finish_assign-IsSound :
    (message_id : Bytes) (saved : Bool) (now : ℕ) (a : Allocator) (id cid : Bytes)
    (start_error : Option Bytes) {o : Outcome}
    → IsSound a
    → finish_assign message_id saved now a id cid start_error ≡ some o
    → IsSound o.state
unfolding finish_assign
finish_assign-IsSound message_id saved now a id cid start_error s h =
    elim (Option-cases (get id a.executions)) [
      | inl e ↦ ground arith
      | inr (e, found) ↦ ground (
        arith,
        persist-IsSound saved (started now a id e start_error)
            (started-IsSound a id e found s now start_error),
      )
    ]

-- The commit of an assignment: the slot passes from the offer to the execution, or stays.
commit_assign-IsSound :
    (saved : Bool) (a : Allocator) (o : OfferRecord) (q : ExecutionAssign) (now : ℕ)
    → IsSound a
    → get q.offer_id a.offers ≡ some o
    → o.status ≡ OfferStatus.outstanding
    → get q.execution_id a.executions ≡ none
    → IsSound (Assign.state_of (Assign.commit_assign saved a o q now))
unfolding Assign.commit_assign
commit_assign-IsSound saved a o q now s h out new =
    if_rule (λ b. IsSound (Assign.state_of b)) (is_nil (persist_error saved (taken a o q now)))
      (λ _. persist-IsSound saved (taken a o q now) next) (λ _. back)
  where
    next : IsSound (taken a o q now)
    next =
        Accounts-assign s q.offer_id q.execution_id o (take_offer o q.execution_id)
          (new_execution a o q now) h out refl new refl refl refl

    back : IsSound (untake o q (taken a o q now))
    back =
        rw
          (
            put-put q.offer_id (record o { status = OfferStatus.outstanding; execution = [] })
                (take_offer o q.execution_id) a.offers,
            delete-put q.execution_id (new_execution a o q now) a.executions new,
          )
          (Accounts-offer s q.offer_id o
            (record o { status = OfferStatus.outstanding; execution = [] }) h (λ c. ground arith))

-- What holds of the state after the first section of an assignment.
abbrev LeavesBegun : Checked Err Assign.Begun → Type 0
LeavesBegun = Ensures (λ b. IsSound (Assign.state_of b))

fresh_assign-IsSound :
    (saved : Bool) (a : Allocator) (o : OfferRecord) (sender : Bytes) (now : ℕ)
    (q : ExecutionAssign)
    → IsSound a
    → get q.offer_id a.offers ≡ some o
    → o.status ≡ OfferStatus.outstanding
    → LeavesBegun (Assign.fresh_assign saved a o sender now q)
unfolding Assign.fresh_assign
fresh_assign-IsSound saved a o sender now q s h out =
    elim (Option-cases (get q.execution_id a.executions)) [
      | inl new ↦ ground (arith, commit_assign-IsSound saved a o q now s h out new)
      | inr (e, old) ↦ ground arith
    ]

after_status-IsSound :
    (message_id : Bytes) (saved : Bool) (a : Allocator) (o : OfferRecord) (sender cid : Bytes)
    (now : ℕ) (q : ExecutionAssign)
    → IsSound a
    → get q.offer_id a.offers ≡ some o
    → LeavesBegun (Assign.after_status message_id saved a o sender cid now q)
unfolding Assign.after_status Assign.status_answer
after_status-IsSound message_id saved a o sender cid now q s h = ground (
  arith,
  λ (out : o.status ≡ OfferStatus.outstanding). fresh_assign-IsSound saved a o sender now q s h out,
)

assign_checks-IsSound :
    (message_id : Bytes) (saved : Bool) (a : Allocator) (sender cid : Bytes) (now : ℕ)
    (q : ExecutionAssign)
    → IsSound a
    → LeavesBegun (Assign.assign_checks message_id saved a sender cid now q)
unfolding Assign.assign_checks
assign_checks-IsSound message_id saved a sender cid now q s =
    elim (Option-cases (get q.offer_id a.offers)) [
      | inl e ↦ ground arith
      | inr (o, h) ↦ ground (arith, after_status-IsSound message_id saved a o sender cid now q s h)
    ]

settle_begun-IsSound :
    (a : Allocator) (m : Checked Err Assign.Begun)
    → IsSound a
    → LeavesBegun m
    → IsSound (Assign.state_of (Assign.settle_begun a m))
settle_begun-IsSound a (ok b) s h = h
settle_begun-IsSound a (err e) s h = s

-- The first section of an assignment.
pub begin_assign-IsSound :
    (message_id : Bytes) (saved : Bool) (now : ℕ) (a : Allocator) (sender cid : Bytes)
    (q : ExecutionAssign)
    → IsSound a
    → IsSound (Assign.state_of (Assign.begin_assign message_id saved now a sender cid q))
unfolding Assign.begin_assign
begin_assign-IsSound message_id saved now a sender cid q s =
    settle_begun-IsSound (expire_offers now a) _ (expire-IsSound now a s) (
      assign_checks-IsSound message_id saved (expire_offers now a) sender cid now q
        (expire-IsSound now a s))
