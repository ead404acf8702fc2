-- ===== src/Allocator/Eviction.antt =====
-- eviction.go: executions whose lease has expired are stopped and failed. Each round is two locked
-- sections with the runtime's Stop between them.
use r1s.Base.{
  ℕ, zero, suc, Bool, true, false, ◌&&◌, not, Option, none, some, [], ◌∷◌, Bytes, Assoc, ascii, get,
  ltb, ◌==◌, if◌then◌else◌,
}
use r1s.Protocol.Messages.{ExecutionPhase, terminal}
use r1s.Allocator.Errors.{Err, nil, runtime_stop, other}
use r1s.Allocator.State.{ExecutionRecord, Allocator, is_nil, is_cancelling, persist, persist_error}
use r1s.Allocator.Views.{finish, put_execution}
use r1s.Allocator.Cancel.{cancelling_record, stop_failed}

-- internal/protocol/lease.go
abbrev pub lease_expired_detail : Bytes
lease_expired_detail = ascii "execution lease expired"

-- effectiveNowLocked: the clock never goes back.
unfoldable pub effective_now : ℕ → Allocator → Allocator
effective_now now a = if ltb a.high_water now then record a { high_water = now } else a

-- `!record.leaseUntil.IsZero() && !record.leaseUntil.After(now)`
abbrev pub lease_over : ℕ → ExecutionRecord → Bool
lease_over now e = not (e.lease_until == 0) && not (ltb now e.lease_until)

abbrev pub evictable : ℕ → ExecutionRecord → Bool
evictable now e = not (terminal e.phase) && not (is_cancelling e.phase) && lease_over now e

-- nextExpiredLeaseLocked
unfoldable pub next_expired : ℕ → Assoc ExecutionRecord → Option (Bytes × ExecutionRecord)
next_expired now [] = none
next_expired now ((id, e) ∷ m) = if evictable now e then some (id, e) else next_expired now m

-- How the first section of a round ends.
pub data Round : Type 0 where
  nothing_due : Allocator → Round
  failed : Allocator → Err → Round
  stopping : Allocator → Bytes → ExecutionPhase → Bytes → Round

-- beginEvictionLocked, in a context that is not cancelled.
unfoldable pub begin_eviction : Bool → ℕ → Allocator → Bytes → ExecutionRecord → Round
begin_eviction saved now a id e =
    let marked = put_execution id (cancelling_record e lease_expired_detail now) a in
    if is_nil (persist_error saved marked)
    then stopping (persist saved marked) id e.phase e.detail
    else failed (put_execution id e marked) (persist_error saved marked)

-- The first locked section of a round; `cancelled` is whether the context has ended.
unfoldable pub eviction_round : Bool → Bool → ℕ → Allocator → Round
unfolding begin_eviction
eviction_round cancelled saved now a =
    let current = effective_now now a in
    elim (next_expired current.high_water current.executions) [
      | none ↦ nothing_due current
      | some found ↦
          if cancelled
          then failed current (other ∷ [])
          else begin_eviction saved current.high_water current found.0 found.1
    ]

-- What Stop returned. A missing execution counts as stopped.
pub data StopResult : Type 0 where
  stop_ok stop_missing stop_error : StopResult

abbrev is_failure : StopResult → Bool
is_failure stop_error = true
is_failure _ = false

unfoldable pub evicted : ℕ → Allocator → Bytes → ExecutionRecord → Allocator
evicted now a id e =
    if terminal e.phase
    then a
    else finish a id e ExecutionPhase.failed lease_expired_detail none now

-- completeEviction, from the second lock on.
unfoldable pub complete_eviction :
    Bool → ℕ → Allocator → Bytes → ExecutionPhase → Bytes → StopResult → Allocator × Err
unfolding evicted
complete_eviction saved now a id phase detail result = elim (get id a.executions) [
  | none ↦ (a, nil)
  | some e ↦
      if is_failure result
      then (let b = stop_failed now a id e phase detail in
          (persist saved b, runtime_stop ∷ other ∷ persist_error saved b))
      else (let b = evicted now a id e in (persist saved b, persist_error saved b))
]

-- What one round of the loop meets: the context, the Saves, the clock, what Stop returns, and what
-- other goroutines do before the round takes the lock and while Stop runs.
pub record Trip : Type 0 where
  pub before : Allocator → Allocator
  pub cancelled : Bool
  pub saved : Bool
  pub now : ℕ
  pub meanwhile : Allocator → Allocator
  pub result : StopResult
  pub saved_again : Bool
  pub later : ℕ

unfoldable pub finish_round : Trip → Allocator → Bytes → ExecutionPhase → Bytes → Allocator × Err
unfolding complete_eviction
finish_round t b id phase detail =
    complete_eviction t.saved_again t.later (t.meanwhile b) id phase detail t.result

-- EvictExpiredLeases; the i-th round meets `trips i`. `none` if the fuel does not do. A round that goes on
-- has no error, so none is carried along.
unfoldable pub evict_expired_leases : ℕ → (ℕ → Trip) → ℕ → Allocator → Option (Allocator × Err)
unfolding eviction_round finish_round
evict_expired_leases zero trips i a = none
evict_expired_leases (suc fuel) trips i a =
    elim (eviction_round (trips i).cancelled (trips i).saved (trips i).now ((trips i).before a)) [
      | nothing_due b ↦ some (b, nil)
      | failed b e ↦ some (b, e)
      | stopping b id phase detail ↦ elim (is_nil (finish_round (trips i) b id phase detail).1) [
        | true ↦
            evict_expired_leases fuel trips (suc i) (finish_round (trips i) b id phase detail).0
        | false ↦ some (finish_round (trips i) b id phase detail)
      ]
    ]
