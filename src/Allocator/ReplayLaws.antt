-- ===== src/Allocator/ReplayLaws.antt =====
-- replay.go: what the cache keeps, and what a redelivered command gets.
use r1s.Base.{
  ℕ, zero, suc, ◌+◌, ◌-◌, ◌≡◌, ◌≢◌, ◌≤◌, ◌<◌, ◌⊎◌, refl, ap, Bool, true, false, ◌&&◌, Option, none,
  some, List, [], ◌∷◌, Bytes, Assoc, inl, inr, get, put, delete, get-put, get-delete, length,
  length-put_old, length-put_le, length-delete_found, ltb, beq_iff, beq_refl, IsMap, delete-IsMap,
  Values, arith, Bool-cases, Option-cases,
}
use r1s.Protocol.Messages.{Envelope}
use r1s.Allocator.Errors.{Err}
use r1s.Allocator.State.{ReplayEntry, ReplayCache}
use r1s.Allocator.Replay.{
  first, in_flight, admit_entry, older, stale, prune_entries, prune, oldest, evict_from, evict,
  duplicate, begin, complete_entry, finish_entry,
}

-- The handler that the entry stands for has not returned.
abbrev pub InFlight : ReplayEntry → Type 0
InFlight e = e.completed ≡ false

≤-or-> : (m n : ℕ) → (m ≤ n) ⊎ (n < m)
≤-or-> m n = omega arith

-- What `oldest` answers: nothing only if all is in flight, and otherwise the key of a done entry.
oldest-some : (b : Bytes × ℕ) (m : Assoc ReplayEntry) → oldest (some b) m ≢ none
unfolding oldest
oldest-some b [] h = cc
oldest-some b ((k, e) ∷ m) h = elim (Bool-cases (e.completed && (ltb e.seen_at b.1))) [
  | inl p ↦ oldest-some (k, e.seen_at) m (ground arith)
  | inr n ↦ oldest-some b m (ground arith)
]

oldest-none : (m : Assoc ReplayEntry) → oldest none m ≡ none → Values InFlight m
unfolding oldest
oldest-none [] h = tt
oldest-none ((k, e) ∷ m) h = ground (arith, oldest-some (k, e.seen_at) m, oldest-none m)

-- The victim is done, and its key is in the map.
oldest_found :
    (best : Option (Bytes × ℕ)) (m : Assoc ReplayEntry) (v : Bytes × ℕ)
    → IsMap m
    → oldest best m ≡ some v
    → (best ≡ some v) ⊎ ((e : ReplayEntry) × (get v.0 m ≡ some e) × (e.completed ≡ true))
unfolding oldest get
oldest_found best [] v u h = inl h
oldest_found best ((k, e) ∷ m) v u h = elim (Bool-cases (e.completed && older best e.seen_at)) [
  | inl p ↦ elim (oldest_found (some (k, e.seen_at)) m v u.1 (ground arith)) [
    | inl same ↦ inr (e, ground (arith, beq_refl k), ground arith)
    | inr (f, found, done) ↦ inr (f, ground (arith, u.0, beq_iff k v.0), done)
  ]
  | inr n ↦ elim (oldest_found best m v u.1 (ground arith)) [
    | inl same ↦ inl same
    | inr (f, found, done) ↦ inr (f, ground (arith, u.0, beq_iff k v.0), done)
  ]
]

evict_stops :
    (fuel limit : ℕ) (m : Assoc ReplayEntry) → length m ≤ limit → evict_from (suc fuel) limit m ≡ m
unfolding evict_from
evict_stops fuel limit m h = ground arith

evict_idle :
    (fuel limit : ℕ) (m : Assoc ReplayEntry)
    → oldest none m ≡ none
    → evict_from (suc fuel) limit m ≡ m
unfolding evict_from
evict_idle fuel limit m h = ground arith

evict_step :
    (fuel limit : ℕ) (m : Assoc ReplayEntry) (v : Bytes × ℕ)
    → limit < length m
    → oldest none m ≡ some v
    → evict_from (suc fuel) limit m ≡ evict_from fuel limit (delete v.0 m)
unfolding evict_from
evict_step fuel limit m v p h = ground arith

evict_from_bound :
    (fuel limit : ℕ) (m : Assoc ReplayEntry)
    → IsMap m
    → length m ≤ fuel
    → (length (evict_from fuel limit m) ≤ limit) ⊎ Values InFlight (evict_from fuel limit m)
unfolding evict_from
evict_from_bound zero limit [] u enough = inl (omega arith)
evict_from_bound zero limit (e ∷ m) u enough = omega arith
evict_from_bound (suc fuel) limit m u enough = elim (≤-or-> (length m) limit) [
  | inl n ↦ rw (evict_stops fuel limit m n) (inl n)
  | inr p ↦ elim (Option-cases (oldest none m)) [
    | inl e ↦ rw (evict_idle fuel limit m e) (inr (oldest-none m e))
    | inr (v, h) ↦ elim (oldest_found none m v u h) [
      | inl e ↦ cc
      | inr (e, found, done) ↦ rw (evict_step fuel limit m v p h) (
          evict_from_bound fuel limit (delete v.0 m) (delete-IsMap v.0 m u)
            (omega (arith, length-delete_found v.0 e m found)))
    ]
  ]
]

evict_from-keeps :
    (fuel limit : ℕ) (m : Assoc ReplayEntry) (k : Bytes) (e : ReplayEntry)
    → IsMap m
    → get k m ≡ some e
    → InFlight e
    → get k (evict_from fuel limit m) ≡ some e
unfolding evict_from
evict_from-keeps zero limit m k e u h busy = h
evict_from-keeps (suc fuel) limit m k e u h busy = elim (≤-or-> (length m) limit) [
  | inl n ↦ rw (evict_stops fuel limit m n) h
  | inr p ↦ elim (Option-cases (oldest none m)) [
    | inl none_done ↦ rw (evict_idle fuel limit m none_done) h
    | inr (v, found) ↦ elim (oldest_found none m v u found) [
      | inl e ↦ cc
      | inr (f, at, done) ↦ rw (evict_step fuel limit m v p found) (
          evict_from-keeps fuel limit (delete v.0 m) k e (delete-IsMap v.0 m u)
            (rw (get-delete v.0 k m u) (ground (arith, beq_iff v.0 k))) busy)
    ]
  ]
]

prune-keeps :
    (ttl now : ℕ) (m : Assoc ReplayEntry) (k : Bytes) (e : ReplayEntry)
    → get k m ≡ some e
    → stale ttl now e ≡ false
    → get k (prune_entries ttl now m) ≡ some e
unfolding prune_entries get
prune-keeps ttl now [] k e h fresh = cc
prune-keeps ttl now ((j, f) ∷ m) k e h fresh = ground (arith, prune-keeps ttl now m k e)

-- Eviction, on a cache with no key twice, ends with at most `limit` entries or with nothing but
-- commands in flight: its loop has fuel enough.
pub length-evict_le :
    (c : ReplayCache) (limit : ℕ)
    → IsMap c.entries
    → (length (evict c limit).entries ≤ limit) ⊎ Values InFlight (evict c limit).entries
unfolding evict
length-evict_le c limit u = evict_from_bound (length c.entries) limit c.entries u (omega arith)

-- Pruning and eviction, on a cache with no key twice, never take out a command in flight, whatever
-- the limit and however old it is.
pub get-evict-InFlight :
    (c : ReplayCache) (limit now : ℕ) (k : Bytes) (e : ReplayEntry)
    → IsMap c.entries
    → get k c.entries ≡ some e
    → InFlight e
    → (get k (evict c limit).entries ≡ some e) × (get k (prune c now).entries ≡ some e)
unfolding evict prune
get-evict-InFlight c limit now k e u h busy = (
  evict_from-keeps (length c.entries) limit c.entries k e u h busy,
  prune-keeps c.ttl now c.entries k e h (rw busy refl),
)

evict_from-room :
    (fuel limit : ℕ) (m : Assoc ReplayEntry) → length m ≤ limit → evict_from fuel limit m ≡ m
unfolding evict_from
evict_from-room zero limit m h = refl
evict_from-room (suc fuel) limit m h = evict_stops fuel limit m h

finish_entry-found :
    (c : ReplayCache) (key : Bytes) (rs : List Envelope) (error : Err) (e : ReplayEntry)
    → get key c.entries ≡ some e
    → length c.entries ≤ c.capacity
    → finish_entry c key rs error
      ≡ record c { entries = put key (complete_entry e rs error) c.entries }
unfolding finish_entry evict
finish_entry-found c key rs error e h room =
    let filled = put key (complete_entry e rs error) c.entries in
    let kept =
      evict_from-room (length filled) c.capacity filled
        (rw (length-put_old key (complete_entry e rs error) e c.entries h) room) in
    rw h (ap (λ m. record c { entries = m }) kept)

module _ (same : Envelope → Envelope → Bool) where
  begin-first :
      (c d : ReplayCache) (key : Bytes) (envelope : Envelope) (now : ℕ)
      → 0 < c.capacity
      → begin same c key envelope now ≡ (d, first)
      → (get key d.entries ≡ some (in_flight envelope now))
        × (length d.entries ≤ d.capacity)
        × (d.ttl ≡ c.ttl)
  unfolding begin admit_entry prune evict
  begin-first c d key envelope now some_room h =
      let m = prune_entries c.ttl now c.entries in
      let roomy = evict_from (length m) (c.capacity - 1) m in
      elim (Option-cases (get key m)) [
        | inl e ↦ ground (
          arith,
          beq_refl key,
          get-put key key (in_flight envelope now) roomy,
          length-put_le key (in_flight envelope now) roomy,
        )
        | inr (f, e) ↦ ground arith
      ]

  begin-duplicate :
      (c : ReplayCache) (key : Bytes) (envelope : Envelope) (now : ℕ) (e : ReplayEntry)
      → get key c.entries ≡ some e
      → stale c.ttl now e ≡ false
      → same e.envelope envelope ≡ true
      → (begin same c key envelope now).1 ≡ duplicate e
  unfolding begin prune
  begin-duplicate c key envelope now e h kept equal =
      ground (arith, prune-keeps c.ttl now c.entries key e h kept)

  -- A command that a cache of some capacity took as a first delivery and that has been handled:
  -- if an equal command is delivered under the same key within the cache's retention, with no
  -- other command in between, it is a duplicate and gets the recorded responses and error, so it
  -- is not handled a second time.
  pub begin-finish_entry :
      (c d : ReplayCache) (key : Bytes) (envelope again : Envelope) (now later : ℕ)
      (rs : List Envelope) (error : Err)
      → 0 < c.capacity
      → begin same c key envelope now ≡ (d, first)
      → later < now + c.ttl
      → same envelope again ≡ true
      → (begin same (finish_entry d key rs error) key again later).1
        ≡ duplicate (complete_entry (in_flight envelope now) rs error)
  begin-finish_entry c d key envelope again now later rs error some_room h soon equal =
      let (found, room, ttl) = begin-first c d key envelope now some_room h in
      rw (finish_entry-found d key rs error (in_flight envelope now) found room) (
        begin-duplicate _ key again later (complete_entry (in_flight envelope now) rs error)
          (rw
            (
              get-put key key (complete_entry (in_flight envelope now) rs error) d.entries,
              beq_refl key,
            )
            refl)
          (ground (arith, ttl)) equal)
