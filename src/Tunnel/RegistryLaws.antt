-- ===== src/Tunnel/RegistryLaws.antt =====
-- registry.go: who gets a session, and how long it stands.
use r1s.Base.{
  ℕ, ◌<◌, ◌≡◌, true, false, none, some, Bytes, inl, inr, get, get-put, get-delete, beq_iff,
  beq_refl, IsMap, arith, ok, Option-cases,
}
use r1s.Tunnel.Registry.{
  Session, Record, Registry, open_session, current, invalidate, active, release, resolve_target,
  issue,
}

-- Open succeeds only for the peer key that the execution is bound to, and with no session open. The
-- session has the bound targets, and is the execution's session from then on.
pub open_session_lem :
    (r q : Registry) (id key : Bytes) (s : Session)
    → open_session r id key ≡ ok (q, s)
    → (rec : Record) × ((get id r.records ≡ some rec)
        × (rec.peer_key ≡ key)
        × (rec.session ≡ none)
        × (s ≡ issue r id key rec)
        × (current q id ≡ some s)
        × (active q s ≡ true))
unfolding open_session current active
open_session_lem r q id key s h = elim (Option-cases (get id r.records)) [
  | inl e ↦ ground (arith)
  | inr (rec, e) ↦ (
    rec,
    ground (
      arith,
      beq_iff rec.peer_key key,
      get-put id id (record rec { session = some (issue r id key rec) }) r.records,
      beq_refl id,
    ),
  )
]

release-stale :
    (q : Registry) (s t : Session)
    → current q s.execution_id ≡ some t
    → s.id < t.id
    → release q s ≡ q
unfolding release active current
release-stale q s t h older = ground arith

-- The deferred Release of a session never ends a session that was opened later for the same
-- execution: it leaves the registry as it is. A session was opened later if the registry had
-- issued the number of the first one before.
pub release-newer :
    (r q : Registry) (key : Bytes) (s t : Session)
    → s.id < r.issued
    → open_session r s.execution_id key ≡ ok (q, t)
    → (release q s ≡ q) × (current (release q s) s.execution_id ≡ some t)
release-newer r q key s t older h =
    let (rec, (there, key_ok, idle, which, now_open, alive)) =
      open_session_lem r q s.execution_id key t h in
    let stays : release q s ≡ q = release-stale q s t now_open (ground (arith, which)) in
    (stays, rw stays now_open)

-- In a registry with no execution twice, invalidation revokes the execution's open session at
-- once: it is no longer the active one, no target port resolves through it, and the execution is
-- bound no more.
pub invalidate_lem :
    (r : Registry) (s : Session) (port : ℕ)
    → IsMap r.records
    → current r s.execution_id ≡ some s
    → (active (invalidate r s.execution_id) s ≡ false)
      × (resolve_target (invalidate r s.execution_id) s port ≡ none)
      × (get s.execution_id (invalidate r s.execution_id).records ≡ none)
unfolding current active invalidate resolve_target
invalidate_lem r s port u h =
    ground (arith, get-delete s.execution_id s.execution_id r.records u, beq_refl s.execution_id)
