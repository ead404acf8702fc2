-- ===== src/Allocator/Runtime.antt =====
-- runtime_bridge.go: the runtime's asynchronous completion of an execution.
use r1s.Base.{
  ℕ, Bool, true, false, Option, none, some, [], ◌∷◌, Bytes, beq, get, is_empty, if◌then◌else◌,
  Checked, ok, err, ◌>>=◌, ◌>>◌, stop_if, present,
}
use r1s.Protocol.Messages.{ℤ, ExecutionPhase, terminal}
use r1s.Allocator.Errors.{Err, execution_not_found, execution_conflict, invalid_transition}
use r1s.Allocator.Ledger
use r1s.Allocator.State.{ExecutionRecord, Allocator, Outcome, refuse, answer, commit}
use r1s.Allocator.Views.{finish, put_execution}
use r1s.Allocator.Offers.{settle}

-- The completion; `failure` is the text of its error.
pub record Completion : Type 0 where
  pub execution_id : Bytes
  pub failure : Option Bytes
  pub detail : Bytes
  pub exit_code : Option ℤ

abbrev pub completion_phase : Completion → ExecutionPhase
completion_phase c = elim c.failure [
  | none ↦ ExecutionPhase.completed
  | some text ↦ ExecutionPhase.failed
]

abbrev pub completion_detail : Completion → Bytes
completion_detail c = elim c.failure [
  | none ↦ c.detail
  | some text ↦ if is_empty c.detail then text else c.detail
]

abbrev pub same_end : ExecutionPhase → ExecutionPhase → Bool
same_end ExecutionPhase.completed ExecutionPhase.completed = true
same_end ExecutionPhase.failed ExecutionPhase.failed = true
same_end _ _ = false

-- A failed Save restores the record and the ledger; the tunnel that was closed stays closed.
unfoldable pub commit_completion : Bool → ℕ → Allocator → ExecutionRecord → Completion → Outcome
commit_completion saved now a e c =
    let done =
      finish a c.execution_id e (completion_phase c) (completion_detail c) c.exit_code now in
    commit saved done [] (record (put_execution c.execution_id e done) {
      capacity = Ledger.restore done.capacity a.capacity.used;
    })

unfoldable pub completion_checks : Bool → ℕ → Allocator → Completion → Checked Err Outcome
unfolding commit_completion
completion_checks saved now a c = do
  stop_if (is_empty c.execution_id) (invalid_transition ∷ [])
  e ← present (get c.execution_id a.executions) (execution_not_found ∷ [])
  if terminal e.phase
      then (if same_end e.phase (completion_phase c)
          then ok (answer a [])
          else err (invalid_transition ∷ []))
      else ok (commit_completion saved now a e c)

unfoldable pub runtime_completed : Bool → ℕ → Allocator → Completion → Outcome
unfolding completion_checks
runtime_completed saved now a c = settle a (completion_checks saved now a c)

-- completionReporter: the callback of one execution takes no report about another.
unfoldable pub completion_reporter : Bytes → Bool → ℕ → Allocator → Completion → Outcome
completion_reporter execution_id saved now a c =
    let named : Completion =
      if is_empty c.execution_id then record c { execution_id = execution_id } else c in
    if beq named.execution_id execution_id
    then runtime_completed saved now a named
    else refuse a (execution_conflict ∷ [])
