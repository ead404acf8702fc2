-- ===== src/Allocator/SoundCancel.antt =====
-- Cancellation and renewal (cancel.go, lease.go) keep the ledger equal to the slots that the
-- records hold.
use r1s.Base.{
  ℕ, ◌≡◌, refl, Bool, false, none, some, Bytes, inl, inr, get, put-put, put-get, arith, if_rule, ok,
  err, Option-cases, Ensures, Checked,
}
use r1s.Protocol.Messages.{ExecutionPhase, ExecutionCancel, ExecutionLeaseRenew, terminal}
use r1s.Allocator.Errors.{Err}
use r1s.Allocator.State.{ExecutionRecord, Allocator, Outcome, persist_error, is_nil, is_cancelling}
use r1s.Allocator.Views.{put_execution}
use r1s.Allocator.Accounts.{IsSound}
use r1s.Allocator.Sound.{persist-IsSound}
use r1s.Allocator.SoundSections.{finish-IsSound, move-IsSound}
use r1s.Allocator.Cancel
use r1s.Allocator.Cancel.{
  cancelling_record, stop_failed, stopped, finish_cancel, begin_cancel, cancel_checks,
  commit_cancel,
}
use r1s.Allocator.Lease.{renewed, commit_renew, renew_checks, handle_lease_renew}
use r1s.Allocator.Runtime.{}

-- Writing an execution's record back undoes a change of it.
pub restored-IsSound :
    (a : Allocator) (id : Bytes) (e f : ExecutionRecord)
    → get id a.executions ≡ some e
    → IsSound a
    → IsSound (put_execution id e (put_execution id f a))
restored-IsSound a id e f h s = rw (put-put id e f a.executions, put-get id e a.executions h) s

module _ (a : Allocator) (id : Bytes) (e : ExecutionRecord) (h : get id a.executions ≡ some e)
    (s : IsSound a) where
  pub cancelling-IsSound :
      (reason : Bytes) (now : ℕ)
      → terminal e.phase ≡ false
      → IsSound (put_execution id (cancelling_record e reason now) a)
  cancelling-IsSound reason now alive =
      move-IsSound a id e h s (cancelling_record e reason now) alive refl refl refl

  commit_cancel-IsSound :
      (saved : Bool) (reason : Bytes) (now : ℕ)
      → terminal e.phase ≡ false
      → IsSound (Cancel.state_of (commit_cancel saved a id e reason now))
  unfolding commit_cancel
  commit_cancel-IsSound saved reason now alive =
      if_rule (λ b. IsSound (Cancel.state_of b))
        (is_nil (persist_error saved (put_execution id (cancelling_record e reason now) a)))
        (λ _. persist-IsSound saved _ (cancelling-IsSound reason now alive))
        (λ _. restored-IsSound a id e (cancelling_record e reason now) h s)

  pub stop_failed-IsSound :
      (now : ℕ) (phase : ExecutionPhase) (detail : Bytes)
      → terminal phase ≡ false
      → IsSound (stop_failed now a id e phase detail)
  unfolding stop_failed
  stop_failed-IsSound now phase detail still =
      if_rule IsSound (is_cancelling e.phase)
        (λ p. move-IsSound a id e h s _ (ground arith) still refl refl) (λ _. s)

  stopped-IsSound : (now : ℕ) (reason : Bytes) → IsSound (stopped now a id e reason)
  unfolding stopped
  stopped-IsSound now reason =
      if_rule IsSound (terminal e.phase) (λ _. s)
        (λ _. finish-IsSound a id e ExecutionPhase.cancelled reason none now h refl s)

-- The second section of a cancellation. The phase to go back to is the one that the first section
-- found, which is not terminal.
pub finish_cancel-IsSound :
    (message_id : Bytes) (saved : Bool) (now : ℕ) (a : Allocator) (id cid : Bytes)
    (phase : ExecutionPhase) (detail reason : Bytes) (failed : Bool) {o : Outcome}
    → IsSound a
    → terminal phase ≡ false
    → finish_cancel message_id saved now a id cid phase detail reason failed ≡ some o
    → IsSound o.state
unfolding finish_cancel
finish_cancel-IsSound message_id saved now a id cid phase detail reason failed s still h =
    elim (Option-cases (get id a.executions)) [
      | inl e ↦ ground arith
      | inr (e, found) ↦ ground (
        arith,
        persist-IsSound saved (stop_failed now a id e phase detail)
            (stop_failed-IsSound a id e found s now phase detail still),
        persist-IsSound saved (stopped now a id e reason)
            (stopped-IsSound a id e found s now reason),
      )
    ]

cancel_checks-IsSound :
    (message_id : Bytes) (saved : Bool) (a : Allocator) (sender cid : Bytes) (now : ℕ)
    (q : ExecutionCancel)
    → IsSound a
    → Ensures (λ b. IsSound (Cancel.state_of b)) (cancel_checks message_id saved a sender cid now q)
unfolding cancel_checks
cancel_checks-IsSound message_id saved a sender cid now q s =
    elim (Option-cases (get q.execution_id a.executions)) [
      | inl e ↦ ground arith
      | inr (e, h) ↦ ground (
        arith,
        λ (alive : terminal e.phase ≡ false).
            commit_cancel-IsSound a q.execution_id e h s saved q.reason now alive,
      )
    ]

-- The first section of a cancellation.
pub begin_cancel-IsSound :
    (message_id : Bytes) (saved : Bool) (now : ℕ) (a : Allocator) (sender cid : Bytes)
    (q : ExecutionCancel)
    → IsSound a
    → IsSound (Cancel.state_of (begin_cancel message_id saved now a sender cid q))
unfolding begin_cancel
begin_cancel-IsSound message_id saved now a sender cid q s =
    settle (cancel_checks message_id saved a sender cid now q)
      (cancel_checks-IsSound message_id saved a sender cid now q s)
  where
    settle :
        (m : Checked Err Cancel.Begun)
        → Ensures (λ b. IsSound (Cancel.state_of b)) m
        → IsSound (Cancel.state_of (Cancel.settle_begun a m))
    settle (ok b) k = k
    settle (err e) k = s

commit_renew-IsSound :
    (message_id : Bytes) (saved : Bool) (a : Allocator) (cid : Bytes) (now : ℕ)
    (e : ExecutionRecord) (q : ExecutionLeaseRenew)
    → get q.execution_id a.executions ≡ some e
    → terminal e.phase ≡ false
    → IsSound a
    → IsSound (commit_renew message_id saved a cid now e q).state
unfolding commit_renew
commit_renew-IsSound message_id saved a cid now e q h alive s = ground (
  arith,
  persist-IsSound saved (put_execution q.execution_id (renewed e now q) a)
      (move-IsSound a q.execution_id e h s (renewed e now q) alive alive refl refl),
  restored-IsSound a q.execution_id e (renewed e now q) h s,
)

-- A renewal moves no slot.
pub handle_lease_renew-IsSound :
    (message_id : Bytes) (saved : Bool) (now : ℕ) (a : Allocator) (sender cid : Bytes)
    (q : ExecutionLeaseRenew)
    → IsSound a
    → IsSound (handle_lease_renew message_id saved now a sender cid q).state
unfolding handle_lease_renew renew_checks
handle_lease_renew-IsSound message_id saved now a sender cid q s =
    elim (Option-cases (get q.execution_id a.executions)) [
      | inl e ↦ ground arith
      | inr (e, h) ↦ ground (
        arith,
        λ (alive : terminal e.phase ≡ false).
            commit_renew-IsSound message_id saved a cid now e q h alive s,
      )
    ]
