-- ===== src/Tunnel/Registry.antt =====
-- registry.go and session.go of internal/tunnel. A session pointer is the number `id` under which the
-- registry issued it; `closed` holds the sessions whose done channel is closed.
use r1s.Base.{
  ℕ, suc, Bool, true, false, Option, none, some, List, [], ◌∷◌, Bytes, Assoc, beq, get, put, delete,
  is_empty, ◌==◌, if◌then◌else◌, Checked, ok, ◌>>=◌, ◌>>◌, stop_if, present,
}
use r1s.Tunnel.Contract.{Target, Endpoint}

pub data Refusal : Type 0 where
  execution_id_required peer_key_required target_required : Refusal
  tunnel_not_bound peer_key_mismatch session_busy : Refusal

pub record Session : Type 0 where
  pub id : ℕ
  pub execution_id : Bytes
  pub peer_key : Bytes
  pub targets : List Target
  pub endpoint : Endpoint

-- grants.go
pub record Record : Type 0 where
  pub execution_id : Bytes
  pub peer_key : Bytes
  pub targets : List Target
  pub endpoint : Endpoint
  pub session : Option Session

pub record Registry : Type 0 where
  pub records : Assoc Record
  pub issued : ℕ
  pub closed : List ℕ

unfoldable pub new_registry : Registry
new_registry = record { records = []; issued = 0; closed = [] }

abbrev pub session_of : Option Record → Option Session
session_of none = none
session_of (some rec) = rec.session

unfoldable pub bind : Registry → Bytes → Bytes → List Target → Endpoint → Checked Refusal Registry
bind r execution_id peer_key targets endpoint = do
  stop_if (is_empty execution_id) execution_id_required
  stop_if (is_empty peer_key) peer_key_required
  stop_if (is_empty targets) target_required
  let bound : Record = record {
    execution_id = execution_id;
    peer_key = peer_key;
    targets = targets;
    endpoint = endpoint;
    session = session_of (get execution_id r.records);
  }
  ok (record r { records = put execution_id bound r.records })

abbrev is_some : Option Session → Bool
is_some none = false
is_some (some s) = true

-- The session that Open issues.
abbrev pub issue : Registry → Bytes → Bytes → Record → Session
issue r execution_id peer_key rec = record {
  id = r.issued;
  execution_id = execution_id;
  peer_key = peer_key;
  targets = rec.targets;
  endpoint = rec.endpoint;
}

unfoldable pub open_session : Registry → Bytes → Bytes → Checked Refusal (Registry × Session)
open_session r execution_id peer_key = do
  stop_if (is_empty execution_id) execution_id_required
  rec ← present (get execution_id r.records) tunnel_not_bound
  stop_if (if beq rec.peer_key peer_key then false else true) peer_key_mismatch
  stop_if (is_some rec.session) session_busy
  let session : Session = issue r execution_id peer_key rec
  ok (
    record r {
      records = put execution_id (record rec { session = some session }) r.records;
      issued = suc r.issued;
    },
    session,
  )

-- The pointer in the execution's record.
unfoldable pub current : Registry → Bytes → Option Session
current r execution_id = session_of (get execution_id r.records)

-- What Session returns: a copy behind a pointer of its own, so never the active one. It shares the done
-- channel of the session `done_of`.
pub record SessionCopy : Type 0 where
  pub done_of : ℕ
  pub execution_id : Bytes
  pub peer_key : Bytes
  pub targets : List Target
  pub endpoint : Endpoint

abbrev copy_of : Option Session → Option SessionCopy
copy_of none = none
copy_of (some s) = some (record {
  done_of = s.id;
  execution_id = s.execution_id;
  peer_key = s.peer_key;
  targets = s.targets;
  endpoint = s.endpoint;
})

unfoldable pub session : Registry → Bytes → Option SessionCopy
unfolding current
session r execution_id = copy_of (current r execution_id)

-- `close(rec.session.done)`, where the record has a session.
abbrev close_done : Option Session → List ℕ → List ℕ
close_done none closed = closed
close_done (some s) closed = s.id ∷ closed

unfoldable pub close_session : Registry → Bytes → Registry
close_session r execution_id = elim (get execution_id r.records) [
  | none ↦ r
  | some rec ↦ elim rec.session [
    | none ↦ r
    | some s ↦ record r {
      records = put execution_id (record rec { session = none }) r.records;
      closed = s.id ∷ r.closed;
    }
  ]
]

unfoldable pub invalidate : Registry → Bytes → Registry
invalidate r execution_id = record r {
  records = delete execution_id r.records;
  closed = close_done (session_of (get execution_id r.records)) r.closed;
}

-- `rec.session == session`
abbrev same_session : Option Session → Session → Bool
same_session none s = false
same_session (some t) s = t.id == s.id

unfoldable pub active : Registry → Session → Bool
active r s = same_session (session_of (get s.execution_id r.records)) s

unfoldable pub release : Registry → Session → Registry
unfolding active close_session
release r s = if active r s then close_session r s.execution_id else r

unfoldable pub find_target : ℕ → List Target → Option Target
find_target port [] = none
find_target port (t ∷ ts) = if t.port == port then some t else find_target port ts

unfoldable pub is_closed : ℕ → List ℕ → Bool
is_closed id [] = false
is_closed id (c ∷ cs) = if c == id then true else is_closed id cs

unfoldable pub resolve_target : Registry → Session → ℕ → Option Target
unfolding find_target is_closed
resolve_target r s port = if is_closed s.id r.closed then none else find_target port s.targets
