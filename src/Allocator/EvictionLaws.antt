-- ===== src/Allocator/EvictionLaws.antt =====
-- eviction.go: the loop over expired leases ends, and what it leaves when it ends without an error.
use r1s.Base.{
  ◌≡◌, ◌≢◌, ◌≤◌, ◌<◌, ◌⊎◌, ℕ, Bool, true, ◌&&◌, not, none, some, Values, IsMap, count, Option,
}
use r1s.Protocol.Messages.{terminal}
use r1s.Allocator.Errors.{Err, nil}
use r1s.Allocator.State.{ExecutionRecord, Allocator, is_cancelling}
use r1s.Allocator.Eviction.{Round, nothing_due, failed, stopping}

-- Nothing is left to evict: the execution is terminal or is being stopped, it has no lease, or its
-- lease ends after `now`.
abbrev pub Kept : ℕ → ExecutionRecord → Type 0
Kept now e =
    (terminal e.phase ≡ true)
    ⊎ ((is_cancelling e.phase ≡ true) ⊎ ((e.lease_until ≡ 0) ⊎ (now < e.lease_until)))

-- An execution that an eviction may still take.
abbrev pub pending : ExecutionRecord → Bool
pending e = not (terminal e.phase) && not (is_cancelling e.phase)

-- What one round does, in the executions: a map, with fewer pending ones.
abbrev pub Less : ℕ → Allocator → Type 0
Less n b = IsMap b.executions × (count pending b.executions < n)

abbrev RoundLess : ℕ → Round → Type 0
RoundLess n (nothing_due b) = Values (Kept b.high_water) b.executions
RoundLess n (failed b e) = e ≢ nil
RoundLess n (stopping b id phase detail) = Less n b

-- The second section of a round: it goes on only with no more pending executions than before.
abbrev GoesOn : Allocator → Allocator × Err → Type 0
GoesOn a x =
    x.1 ≡ nil → IsMap x.0.executions × (count pending x.0.executions ≤ count pending a.executions)

-- Other goroutines that start no execution.
abbrev pub Calm : (Allocator → Allocator) → Type 0
Calm meanwhile =
    (b : Allocator)
    → IsMap b.executions
    → IsMap (meanwhile b).executions
      × (count pending (meanwhile b).executions ≤ count pending b.executions)

-- The loop has ended, with an error or with nothing left to evict.
abbrev pub Ends : Option (Allocator × Err) → Type 0
Ends none = ⊥
Ends (some (b, error)) = (error ≢ nil) ⊎ Values (Kept b.high_water) b.executions
