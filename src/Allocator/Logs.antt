-- ===== src/Allocator/Logs.antt =====
-- logs.go: handleLogs. `logs` is the store of the logs, where the allocator has one; `directory` is its
-- hash of an ID, `message_id` what randomID returns.
use r1s.Base.{
  ℕ, Bool, false, not, Option, none, some, [], ◌∷◌, Bytes, beq, get, if◌then◌else◌, Checked, ok,
  err,
}
use r1s.Protocol.Messages.{
  Envelope, ExecutionLogsRequest, ExecutionLogsResponse, execution_logs_response, command_error,
}
use r1s.Logstore.Store
use r1s.Logstore.Store.{LogError, LogChunk}
use r1s.Allocator.Errors.{Err, execution_not_found, execution_conflict, other, command_failure}
use r1s.Allocator.State.{Allocator, Outcome, answer}
use r1s.Allocator.Views.{envelope_of}

-- errorResponse, with the id that randomID returns.
abbrev pub error_response : Bytes → ℕ → Allocator → Bytes → Err → Envelope
error_response message_id now a correlation_id e =
    envelope_of a message_id correlation_id now (command_error (some (command_failure e)))

abbrev pub refuse_with : Bytes → ℕ → Allocator → Bytes → Err → Outcome
refuse_with message_id now a correlation_id e = record {
  state = a;
  responses = error_response message_id now a correlation_id e ∷ [];
  error = e;
}

-- ErrLogsMissing and ErrLogOffset are told as errors of the allocator.
abbrev pub log_failure : LogError → Err
log_failure Store.logs_missing = execution_not_found ∷ []
log_failure Store.log_offset = execution_conflict ∷ []
log_failure _ = other ∷ []

unfoldable pub logs_authorized : Allocator → Bytes → Bytes → Bool
logs_authorized a id sender = elim (get id a.executions) [
  | none ↦ false
  | some e ↦ beq e.client sender
]

module _ (sha256 : Bytes → Bytes) (directory : Bytes → Bytes) where
  abbrev pub logs_response : ExecutionLogsRequest → LogChunk → ExecutionLogsResponse
  logs_response q chunk = record {
    execution_id = q.execution_id;
    stream = q.stream;
    offset = q.offset;
    contents = chunk.contents;
    next_offset = chunk.next_offset;
    eof = chunk.eof;
    truncated = chunk.truncated;
    sha256 = sha256 chunk.contents;
  }

  unfoldable pub read_chunk : Option Store.Store → ExecutionLogsRequest → Checked Err LogChunk
  unfolding Store.read
  read_chunk none q = err (execution_not_found ∷ [])
  read_chunk (some s) q =
      elim (Store.read directory s q.execution_id q.stream q.offset q.max_bytes) [
        | err problem ↦ err (log_failure problem)
        | ok chunk ↦ ok chunk
      ]

  unfoldable pub handle_logs :
      Bytes → ℕ → Option Store.Store → Allocator → Bytes → Bytes → ExecutionLogsRequest → Outcome
  unfolding logs_authorized read_chunk
  handle_logs message_id now logs a sender correlation_id q =
      if not (logs_authorized a q.execution_id sender)
      then refuse_with message_id now a correlation_id (execution_not_found ∷ [])
      else elim (read_chunk logs q) [
        | err e ↦ refuse_with message_id now a correlation_id e
        | ok chunk ↦ answer a (
            envelope_of a message_id correlation_id now
              (execution_logs_response (some (logs_response q chunk)))
            ∷ [])
      ]
