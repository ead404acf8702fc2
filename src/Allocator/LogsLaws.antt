-- ===== src/Allocator/LogsLaws.antt =====
-- logs.go: what a client gets of an execution's logs.
use r1s.Base.{
  ℕ, ◌+◌, ◌≡◌, ◌≢◌, Bool-cases, ◌≤◌, refl, true, false, Option, none, some, [], ◌∷◌, Bytes, inl,
  inr, beq_iff, beq_refl, get, blank, is_empty, length, arith, ok, err, Option-cases, Checked-cases,
}
use r1s.Protocol.Messages.{
  Envelope, ExecutionLogsRequest, ExecutionLogsResponse, execution_logs_response,
}
use r1s.Protocol.Validate.{validate_logs_request, validate_logs_response}
use r1s.Logstore.Store
use r1s.Logstore.Store.{LogChunk}
use r1s.Logstore.StoreLaws.{read-Covers}
use r1s.Allocator.Errors.{nil}
use r1s.Allocator.State.{Allocator, ExecutionRecord, Outcome}
use r1s.Allocator.Views.{envelope_of}
use r1s.Allocator.Logs.{logs_authorized, read_chunk, logs_response, handle_logs, log_failure}
use r1s.Client.Inbound.{answers}

blank-nonempty : (value : Bytes) → blank value ≡ false → is_empty value ≡ false
unfolding blank
blank-nonempty [] h = cc
blank-nonempty (c ∷ cs) h = refl

logs_authorized_lem :
    (a : Allocator) (id sender : Bytes)
    → logs_authorized a id sender ≡ true
    → (e : ExecutionRecord) × ((get id a.executions ≡ some e) × (e.client ≡ sender))
unfolding logs_authorized
logs_authorized_lem a id sender h = elim (Option-cases (get id a.executions)) [
  | inl n ↦ ground arith
  | inr (e, n) ↦ (e, (n, ground (arith, beq_iff e.client sender)))
]

log_failure_some : (problem : Store.LogError) → log_failure problem ≢ nil
log_failure_some Store.invalid_budget h = cc
log_failure_some Store.identity_conflict h = cc
log_failure_some Store.invalid_reservation h = cc
log_failure_some Store.budget_exhausted h = cc
log_failure_some Store.log_offset h = cc
log_failure_some Store.logs_missing h = cc
log_failure_some Store.invalid_metadata h = cc
log_failure_some Store.limit_mismatch h = cc

module _ (sha256 : Bytes → Bytes) (directory : Bytes → Bytes) where
  -- A chunk read for a valid request makes a response that the client's validation accepts.
  response_accepted :
      (s : Store.Store) (q : ExecutionLogsRequest) (chunk : LogChunk) (e : Envelope)
      → validate_logs_request (some q) ≡ none
      → Store.read directory s q.execution_id q.stream q.offset q.max_bytes ≡ ok chunk
      → is_empty e.correlation_id ≡ false
      → (validate_logs_response sha256 e (some (logs_response sha256 directory q chunk)) ≡ none)
        × (answers q (logs_response sha256 directory q chunk) ≡ true)
  unfolding validate_logs_request validate_logs_response
  response_accepted s q chunk e valid reads correlated =
      let (d, (f, (there, own, held, marked, covers))) =
        read-Covers directory s q.execution_id q.stream q.offset q.max_bytes chunk reads in
      let advances : chunk.next_offset ≡ q.offset + length chunk.contents = covers.advances in
      let bounded : length chunk.contents ≤ q.max_bytes = covers.bounded in
      (
        ground (
          arith,
          blank-nonempty q.execution_id,
          beq_refl (sha256 chunk.contents),
          advances,
          bounded,
        ),
        ground (arith, beq_refl q.execution_id, beq_refl q.stream, bounded),
      )

  read_chunk_lem :
      (logs : Option Store.Store) (q : ExecutionLogsRequest) (chunk : LogChunk)
      → read_chunk sha256 directory logs q ≡ ok chunk
      → (s : Store.Store) × (Store.read directory s q.execution_id q.stream q.offset q.max_bytes
          ≡ ok chunk)
  unfolding read_chunk
  read_chunk_lem none q chunk h = cc
  read_chunk_lem (some s) q chunk h =
      elim (Checked-cases (Store.read directory s q.execution_id q.stream q.offset q.max_bytes)) [
        | inl (c, e) ↦ (s, ground (arith, e))
        | inr (problem, e) ↦ ground (arith, e)
      ]

  read_chunk_err :
      (logs : Option Store.Store) (q : ExecutionLogsRequest)
      → read_chunk sha256 directory logs q ≢ err nil
  unfolding read_chunk
  read_chunk_err none q = λ h. cc
  read_chunk_err (some s) q = λ h.
      elim (Checked-cases (Store.read directory s q.execution_id q.stream q.offset q.max_bytes)) [
        | inl (c, e) ↦ ground (arith, e)
        | inr (problem, e) ↦ ground (arith, e, log_failure_some problem)
      ]

  -- A log request that passes its validation, if handleLogs answers it without an error, comes from the
  -- client of the execution, and is answered with one response, which passes the validation of the
  -- receiver and answers that request: the stream and the offset asked for, and at most as many bytes.
  -- The allocator stays as it is, whatever the answer.
  pub handle_logs-Accepted :
      (message_id : Bytes) (now : ℕ) (logs : Option Store.Store) (a : Allocator)
      (sender cid : Bytes) (q : ExecutionLogsRequest)
      → validate_logs_request (some q) ≡ none
      → is_empty cid ≡ false
      → let o : Outcome = handle_logs sha256 directory message_id now logs a sender cid q in
        (o.state ≡ a)
        × (o.error ≡ nil
            → ((e : ExecutionRecord) × ((get q.execution_id a.executions ≡ some e)
                  × (e.client ≡ sender)))
              × ((r : ExecutionLogsResponse) × (let answer : Envelope =
                      envelope_of a message_id cid now (execution_logs_response (some r)) in
                    (o.responses ≡ answer ∷ [])
                    × (validate_logs_response sha256 answer (some r) ≡ none)
                    × (answers q r ≡ true))))
  unfolding handle_logs
  handle_logs-Accepted message_id now logs a sender cid q valid correlated =
      elim (Bool-cases (logs_authorized a q.execution_id sender)) [
        | inr other ↦ (ground arith, λ good. ground arith)
        | inl own ↦ elim (Checked-cases (read_chunk sha256 directory logs q)) [
          | inr (e, h) ↦ (ground arith, λ good. ground (arith, read_chunk_err logs q))
          | inl (chunk, h) ↦
              let (s, reads) = read_chunk_lem logs q chunk h in
              let r : ExecutionLogsResponse = logs_response sha256 directory q chunk in
              let (accepted, asked) =
                response_accepted s q chunk
                  (envelope_of a message_id cid now (execution_logs_response (some r))) valid reads
                  correlated in
              (
                ground arith,
                λ good. (
                  logs_authorized_lem a q.execution_id sender own,
                  (r, (ground arith, accepted, asked)),
                ),
              )
        ]
      ]
