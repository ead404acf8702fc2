-- ===== src/Allocator/Cancel.antt =====
-- cancel.go: handleCancel, in its two locked sections with the runtime's Stop between them.
use r1s.Base.{
  ℕ, Bool, ◌||◌, not, Option, none, some, [], ◌∷◌, Bytes, beq, get, if◌then◌else◌, Checked, ok, err,
  ◌>>=◌, ◌>>◌, stop_if, present,
}
use r1s.Protocol.Messages.{ExecutionPhase, ExecutionCancel, terminal}
use r1s.Allocator.Errors.{Err, execution_not_found, unauthorized, runtime_stop, other}
use r1s.Allocator.State.{
  ExecutionRecord, Allocator, Outcome, refuse, answer, is_nil, is_cancelling, persist,
  persist_error,
}
use r1s.Allocator.Views.{state_envelope, finish, bump, put_execution}

-- How the first section ends: with a reply, or with an execution that the runtime is to stop and
-- the phase and detail that it had.
pub data Begun : Type 0 where
  replied : Outcome → Begun
  stopping : Allocator → ExecutionPhase → Bytes → Begun

abbrev pub state_of : Begun → Allocator
state_of (replied o) = o.state
state_of (stopping a phase detail) = a

abbrev pub settle_begun : Allocator → Checked Err Begun → Begun
settle_begun a (err e) = replied (refuse a e)
settle_begun a (ok b) = b

abbrev pub cancelling_record : ExecutionRecord → Bytes → ℕ → ExecutionRecord
cancelling_record e reason now = record e {
  phase = ExecutionPhase.cancelling;
  detail = reason;
  occurred_at = now;
  revision = bump e.revision;
}

-- The record of the execution is restored field by field if the Save fails.
unfoldable pub commit_cancel : Bool → Allocator → Bytes → ExecutionRecord → Bytes → ℕ → Begun
commit_cancel saved a id e reason now =
    let marked = put_execution id (cancelling_record e reason now) a in
    if is_nil (persist_error saved marked)
    then stopping (persist saved marked) e.phase e.detail
    else replied (refuse (put_execution id e marked) (persist_error saved marked))

unfoldable pub cancel_checks :
    Bytes → Bool → Allocator → Bytes → Bytes → ℕ → ExecutionCancel → Checked Err Begun
unfolding commit_cancel
cancel_checks message_id saved a sender correlation_id now q = do
  e ← present (get q.execution_id a.executions) (execution_not_found ∷ [])
  stop_if (not (beq e.client sender)) (unauthorized ∷ [])
  if terminal e.phase || is_cancelling e.phase
      then (do
        response ← state_envelope message_id a (some e) correlation_id now
        ok (replied (answer a (response ∷ []))))
      else ok (commit_cancel saved a q.execution_id e q.reason now)

-- The first locked section.
unfoldable pub begin_cancel : Bytes → Bool → ℕ → Allocator → Bytes → Bytes → ExecutionCancel → Begun
unfolding cancel_checks
begin_cancel message_id saved now a sender correlation_id q =
    settle_begun a (cancel_checks message_id saved a sender correlation_id now q)

-- A failed Stop gives the execution its phase and detail back, under a new revision.
unfoldable pub stop_failed :
    ℕ → Allocator → Bytes → ExecutionRecord → ExecutionPhase → Bytes → Allocator
stop_failed now a id e phase detail =
    if is_cancelling e.phase
    then put_execution id
        (record e { phase = phase; detail = detail; occurred_at = now; revision = bump e.revision })
        a
    else a

unfoldable pub stopped : ℕ → Allocator → Bytes → ExecutionRecord → Bytes → Allocator
stopped now a id e reason =
    if terminal e.phase then a else finish a id e ExecutionPhase.cancelled reason none now

-- The second locked section; `failed` is whether Stop returned an error. `none` is the nil
-- dereference of an execution that is gone.
unfoldable pub finish_cancel :
    Bytes
    → Bool
    → ℕ
    → Allocator
    → Bytes
    → Bytes
    → ExecutionPhase
    → Bytes
    → Bytes
    → Bool
    → Option Outcome
unfolding stop_failed stopped
finish_cancel message_id saved now a id correlation_id phase detail reason failed =
    elim (get id a.executions) [
      | none ↦ none
      | some e ↦
          if failed
          then (let b = stop_failed now a id e phase detail in
              some (refuse (persist saved b) (runtime_stop ∷ other ∷ persist_error saved b)))
          else (let b = stopped now a id e reason in
              let c = persist saved b in
              elim (state_envelope message_id b (get id b.executions) correlation_id now) [
                | err problem ↦ some (refuse c problem)
                | ok response ↦
                    some (record {
                      state = c;
                      responses = response ∷ [];
                      error = persist_error saved b;
                    })
              ])
    ]

-- The whole handler. `meanwhile` is what other commands do to the state while Stop runs.
unfoldable pub handle_cancel :
    Bytes
    → Bool
    → Bool
    → ℕ
    → ℕ
    → (Allocator → Allocator)
    → Bool
    → Allocator
    → Bytes
    → Bytes
    → ExecutionCancel
    → Option Outcome
unfolding begin_cancel finish_cancel
handle_cancel message_id saved saved_again now later meanwhile failed a sender correlation_id q =
    elim (begin_cancel message_id saved now a sender correlation_id q) [
      | replied o ↦ some o
      | stopping b phase detail ↦
          finish_cancel message_id saved_again later (meanwhile b) q.execution_id correlation_id
            phase detail q.reason failed
    ]
