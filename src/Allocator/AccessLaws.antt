-- ===== src/Allocator/AccessLaws.antt =====
-- tunnel.go: who reaches an execution, whatever other goroutines do in between.
use r1s.Base.{
  ℕ, ◌≡◌, ◌≢◌, ◌↔◌, All, ◌==◌, Bool-cases, ◌⊎◌, inl, inr, refl, sym, Bool, true, false, none, some,
  Bytes, beq_iff, get, get-put, get-put_same, put, suc, is_empty, beq_refl, arith, ok, err,
  Option-cases, Checked-cases, if_rule, option_rule, List, ◌∷◌, [],
}
use r1s.Protocol.Messages.{ExecutionTunnelOpen, terminal}
use r1s.Protocol.Validate.{targets_to_proto, validate_tunnel_targets}
use r1s.Protocol.ValidateLaws.{validate_tunnel_targets_lem}
use r1s.Tunnel.Contract.{Target, Endpoint}
use r1s.Tunnel.Registry
use r1s.Tunnel.Registry.{Session, Record, Registry, issue, session_of}
use r1s.Tunnel.RegistryLaws.{open_session_lem}
use r1s.Allocator.Errors.{nil}
use r1s.Allocator.State.{Allocator, ExecutionRecord, Outcome, is_cancelling}
use r1s.Allocator.Access.{
  is_live, with_tunnels, Opening, confirm_session, open_tunnel_session, handle_tunnel_open,
  bind_tunnel, owned_live, dial_tunnel_target, may_dial, refused,
}

current-close_session :
    (r : Registry) (id : Bytes) → Registry.current (Registry.close_session r id) id ≡ none
unfolding Registry.current Registry.close_session
current-close_session r id = elim (Option-cases (get id r.records)) [
  | inl e ↦ ground arith
  | inr (rec, e) ↦ elim (Option-cases rec.session) [
    | inl n ↦ ground arith
    | inr (s, n) ↦
        ground (arith, get-put id id (record rec { session = none }) r.records, beq_refl id)
  ]
]

-- A session is given out on a live execution only, for the key that the execution was bound to while
-- no session was open.
abbrev pub Granted : Allocator → Allocator → Bytes → Bytes → Session → Type 0
Granted b last id key s =
    (is_live (get id last.executions) ≡ true)
    × ((rec : Record) × ((get id b.tunnels.records ≡ some rec)
          × (rec.peer_key ≡ key)
          × (rec.session ≡ none)
          × (s ≡ issue b.tunnels id key rec)))

-- A refusal: nothing was opened, or the execution is dead and has no session.
abbrev pub Withheld : Allocator → Allocator → Allocator → Bytes → Type 0
Withheld a b last id =
    (last ≡ a)
    ⊎ ((last ≡ b)
        ⊎ ((is_live (get id last.executions) ≡ false) × (Registry.current last.tunnels id ≡ none)))

abbrev pub Settled : Allocator → Allocator → Bytes → Bytes → Opening → Type 0
Settled a b id key o = elim o.result [
  | ok s ↦ Granted b o.state id key s
  | err e ↦ Withheld a b o.state id
]

confirm_session-Settled :
    (a b c : Allocator) (id key : Bytes) (rec : Record) (s : Session)
    → get id b.tunnels.records ≡ some rec
    → rec.peer_key ≡ key
    → rec.session ≡ none
    → s ≡ issue b.tunnels id key rec
    → Settled a b id key (confirm_session c id s)
unfolding confirm_session
confirm_session-Settled a b c id key rec s there own idle which =
    if_rule (Settled a b id key) (is_live (get id c.executions))
      (λ live. (live, (rec, (there, own, idle, which))))
      (λ dead. inr (inr (dead, current-close_session c.tunnels id)))

module _ (between later : Allocator → Allocator) where
  registry_open-Settled :
      (a : Allocator) (id key : Bytes)
      → let b : Allocator = between a in
        Settled a b id key (elim (Registry.open_session b.tunnels id key) [
          | err problem ↦ record { state = b; result = err (refused problem) }
          | ok opened ↦ confirm_session (later (with_tunnels b opened.0)) id opened.1
        ])
  registry_open-Settled a id key =
      let b : Allocator = between a in
      elim (Registry.open_session b.tunnels id key)
          as (λ m.
            Registry.open_session b.tunnels id key ≡ m
            → Settled a b id key (elim m [
              | err problem ↦ record { state = b; result = err (refused problem) }
              | ok opened ↦ confirm_session (later (with_tunnels b opened.0)) id opened.1
            ])) [
              | err problem ↦ λ h. inr (inl refl)
              | ok (r, s) ↦ λ h.
                  let (rec, (there, own, idle, which, now_open, alive)) =
                    open_session_lem b.tunnels r id key s h in
                  confirm_session-Settled a b (later (with_tunnels b r)) id key rec s there own idle
                    which
            ]
        refl

  -- OpenTunnelSession, whatever other goroutines do to the allocator before and after the registry's
  -- Open. If it gives a session, then the execution is on record and not terminal at the end, the
  -- registry had bound it to the caller's peer key with no session open, and the session is the one
  -- issued for that binding. If it fails, then the allocator is as the caller or the other goroutines
  -- left it, or the execution is dead and has no session.
  pub open_tunnel_session-Settled :
      (a : Allocator) (id key : Bytes)
      → Settled a (between a) id key (open_tunnel_session between later a id key)
  unfolding open_tunnel_session
  open_tunnel_session-Settled a id key =
      option_rule (Settled a (between a) id key) (get id a.executions) (λ _. inl refl)
        (λ e there.
          if_rule (Settled a (between a) id key) (terminal e.phase) (λ _. inl refl)
            (λ _. registry_open-Settled a id key))

-- What an accepted request for a tunnel has done: the owner asked for an execution that is not terminal,
-- and the registry has bound it to the owner's key and to the ports that passed validation.
abbrev pub Bound : Allocator → Allocator → Bytes → ExecutionTunnelOpen → Allocator → Type 0
Bound a b sender q last =
    (e : ExecutionRecord) × ((get q.execution_id a.executions ≡ some e)
      × (e.client ≡ sender)
      × (terminal e.phase ≡ false)
      × ((targets : List Target) × ((validate_tunnel_targets q.targets ≡ ok targets)
            × ((r : Registry) × ((Registry.bind b.tunnels q.execution_id q.ygg_peer_pubkey targets
                      b.tunnel_config.endpoint
                    ≡ ok r)
                  × (last ≡ with_tunnels b r))))))

bind_tunnel_lem :
    (message_id : Bytes) (now : ℕ) (b : Allocator) (cid : Bytes) (q : ExecutionTunnelOpen)
    (o : Outcome)
    → bind_tunnel message_id now b cid q ≡ ok o
    → o.error ≡ nil
    → (targets : List Target) × ((validate_tunnel_targets q.targets ≡ ok targets)
        × ((r : Registry) × ((Registry.bind b.tunnels q.execution_id q.ygg_peer_pubkey targets
                  b.tunnel_config.endpoint
                ≡ ok r)
              × (o.state ≡ with_tunnels b r))))
unfolding bind_tunnel
bind_tunnel_lem message_id now b cid q o h good =
    elim (Checked-cases (validate_tunnel_targets q.targets)) [
      | inr (problem, e) ↦ ground (arith)
      | inl (targets, e) ↦
          elim (Checked-cases (
            Registry.bind b.tunnels q.execution_id q.ygg_peer_pubkey targets
              b.tunnel_config.endpoint)) [
                | inr (problem, f) ↦ ground (arith)
                | inl (r, f) ↦ (targets, (e, (r, (f, ground (arith)))))
              ]
    ]

owned_live_lem :
    (a : Allocator) (id sender : Bytes) (e : ExecutionRecord)
    → owned_live a id sender ≡ ok e
    → (get id a.executions ≡ some e) × (e.client ≡ sender) × (terminal e.phase ≡ false)
unfolding owned_live
owned_live_lem a id sender e h = elim (Option-cases (get id a.executions)) [
  | inl n ↦ ground arith
  | inr (x, n) ↦ ground (arith, beq_iff x.client sender)
]

owned_live_err : (a : Allocator) (id sender : Bytes) → owned_live a id sender ≢ err nil
unfolding owned_live
owned_live_err a id sender = λ h. elim (Option-cases (get id a.executions)) [
  | inl n ↦ ground arith
  | inr (x, n) ↦ ground arith
]

bind_tunnel_err :
    (message_id : Bytes) (now : ℕ) (b : Allocator) (cid : Bytes) (q : ExecutionTunnelOpen)
    → bind_tunnel message_id now b cid q ≢ err nil
unfolding bind_tunnel
bind_tunnel_err message_id now b cid q = λ h.
    elim (Checked-cases (validate_tunnel_targets q.targets)) [
      | inr (problem, e) ↦ ground arith
      | inl (targets, e) ↦
          elim (Checked-cases (
            Registry.bind b.tunnels q.execution_id q.ygg_peer_pubkey targets
              b.tunnel_config.endpoint)) [
                | inr (problem, f) ↦ ground arith
                | inl (r, f) ↦ ground arith
              ]
    ]

handle_tunnel_open-Bound :
    (message_id : Bytes) (now : ℕ) (between : Allocator → Allocator) (a : Allocator)
    (sender cid : Bytes) (q : ExecutionTunnelOpen)
    → let o : Outcome = handle_tunnel_open message_id now between a sender cid q in
      o.error ≡ nil → Bound a (between a) sender q o.state
unfolding handle_tunnel_open
handle_tunnel_open-Bound message_id now between a sender cid q good =
    elim (Checked-cases (owned_live a q.execution_id sender)) [
      | inr (e, f) ↦ ground (arith, owned_live_err a q.execution_id sender)
      | inl (e, f) ↦ elim (Checked-cases (bind_tunnel message_id now (between a) cid q)) [
        | inr (e, g) ↦ ground (arith, bind_tunnel_err message_id now (between a) cid q)
        | inl (o, g) ↦
            let (there, own, live) = owned_live_lem a q.execution_id sender e f in
            let (targets, (valid, (r, (bound, last)))) =
              bind_tunnel_lem message_id now (between a) cid q o g (ground arith) in
            (e, (there, own, live, (targets, (valid, (r, (bound, ground arith))))))
      ]
    ]

abbrev binding : Registry → Bytes → Bytes → List Target → Endpoint → Record
binding r id key targets endpoint = record {
  execution_id = id;
  peer_key = key;
  targets = targets;
  endpoint = endpoint;
  session = session_of (get id r.records);
}

bind_lem :
    (r q : Registry) (id key : Bytes) (targets : List Target) (endpoint : Endpoint)
    → Registry.bind r id key targets endpoint ≡ ok q
    → (is_empty id ≡ false) × (get id q.records ≡ some (binding r id key targets endpoint))
unfolding Registry.bind
bind_lem r q id key targets endpoint h =
    ground (arith, get-put_same id (binding r id key targets endpoint) r.records)

open_session-bound :
    (q : Registry) (id key : Bytes) (rec : Record)
    → is_empty id ≡ false
    → get id q.records ≡ some rec
    → rec.peer_key ≡ key
    → rec.session ≡ none
    → (p : Registry) × (Registry.open_session q id key ≡ ok (p, issue q id key rec))
unfolding Registry.open_session
open_session-bound q id key rec named there own idle = (
  record q {
    records = put id (record rec { session = some (issue q id key rec) }) q.records;
    issued = suc q.issued;
  },
  ground (arith, beq_iff rec.peer_key key),
)

open_session-mismatch :
    (q : Registry) (id key : Bytes) (rec : Record)
    → is_empty id ≡ false
    → get id q.records ≡ some rec
    → rec.peer_key ≢ key
    → Registry.open_session q id key ≡ err Registry.peer_key_mismatch
unfolding Registry.open_session
open_session-mismatch q id key rec named there other = ground (arith, beq_iff rec.peer_key key)

abbrev pub alone : Allocator → Allocator
alone a = a

open_tunnel_session-registry :
    (a : Allocator) (id key : Bytes)
    → is_live (get id a.executions) ≡ true
    → ((p : Registry) (s : Session)
        → Registry.open_session a.tunnels id key ≡ ok (p, s)
        → (open_tunnel_session alone alone a id key).result ≡ ok s)
      × ((problem : Registry.Refusal)
          → Registry.open_session a.tunnels id key ≡ err problem
          → (open_tunnel_session alone alone a id key).result ≡ err (refused problem))
unfolding open_tunnel_session confirm_session
open_tunnel_session-registry a id key live = elim (Option-cases (get id a.executions)) [
  | inl n ↦ ground arith
  | inr (e, n) ↦ ((λ p s h. ground arith), (λ problem h. ground arith))
]

-- An accepted request for a tunnel opens it to its owner's key alone. If handleTunnelOpen answers
-- without an error, then the sender is the client of the execution, which was not terminal; and if
-- the execution is still live and had no session when Bind was called, then OpenTunnelSession, with
-- nothing else in between, gives a session to the key of the request, with exactly the ports asked for,
-- and refuses every other key.
pub handle_tunnel_open-opens :
    (message_id : Bytes) (now : ℕ) (between : Allocator → Allocator) (a : Allocator)
    (sender cid : Bytes) (q : ExecutionTunnelOpen) (other : Bytes)
    → let o : Outcome = handle_tunnel_open message_id now between a sender cid q in
      let opening : Opening = open_tunnel_session alone alone o.state q.execution_id other in
      o.error ≡ nil
      → is_live (get q.execution_id (between a).executions) ≡ true
      → Registry.current (between a).tunnels q.execution_id ≡ none
      → ((e : ExecutionRecord) × ((get q.execution_id a.executions ≡ some e)
            × (e.client ≡ sender)
            × (terminal e.phase ≡ false)))
        × (other ≡ q.ygg_peer_pubkey
            → (s : Session) × ((opening.result ≡ ok s) × (targets_to_proto s.targets ≡ q.targets)))
        × (other ≢ q.ygg_peer_pubkey → opening.result ≡ err (refused Registry.peer_key_mismatch))
unfolding Registry.current
handle_tunnel_open-opens message_id now between a sender cid q other good live idle =
    let b : Allocator = between a in
    let id : Bytes = q.execution_id in
    let key : Bytes = q.ygg_peer_pubkey in
    let (e, (there, own, running, (targets, (valid, (r, (bound, last)))))) =
      handle_tunnel_open-Bound message_id now between a sender cid q good in
    let (named, held) = bind_lem b.tunnels r id key targets b.tunnel_config.endpoint bound in
    let rec : Record = binding b.tunnels id key targets b.tunnel_config.endpoint in
    let (opens, refuses) = open_tunnel_session-registry (with_tunnels b r) id other live in
    rw last (
      (e, (there, own, running)),
      (λ same.
          let (p, h) = open_session-bound r id other rec named held (sym same) idle in
          (
            issue r id other rec,
            (
              opens p (issue r id other rec) h,
              (validate_tunnel_targets_lem q.targets targets valid).2,
            ),
          )),
      (λ differs.
          refuses Registry.peer_key_mismatch
            (open_session-mismatch r id other rec named held (λ same. differs (sym same)))),
    )

-- The registry holds the session for its execution.
abbrev pub Holds : Registry → Session → Type 0
Holds r s =
    (rec : Record) × ((get s.execution_id r.records ≡ some rec)
      × ((t : Session) × ((rec.session ≡ some t) × (t.id ≡ s.id))))

-- A port of the session.
abbrev pub Lists : ℕ → List Target → Type 0
Lists port [] = ⊥
Lists port (t ∷ ts) = (t.port ≡ port) ⊎ Lists port ts

-- What a dial takes, without the runtime: `a` is the allocator before the dial, `b` after it.
pub record MayConnect (a b : Allocator) (s : Session) (port : ℕ) : Type 0 where
  pub held : Holds a.tunnels s
  pub running :
      (e : ExecutionRecord) × ((get s.execution_id a.executions ≡ some e)
        × (terminal e.phase ≡ false)
        × (is_cancelling e.phase ≡ false))
  pub not_done : All (λ id. id ≢ s.id) a.tunnels.closed
  pub lists : Lists port s.targets
  pub still_held : Holds b.tunnels s

active-Holds : (r : Registry) (s : Session) → (Registry.active r s ≡ true) ↔ Holds r s
unfolding Registry.active
active-Holds r s = elim (Option-cases (get s.execution_id r.records)) [
  | inl n ↦ ((λ h. ground arith), (λ (rec, (there, rest)). ground arith))
  | inr (rec, there) ↦ elim (Option-cases rec.session) [
    | inl n ↦ ((λ h. ground arith), (λ (rec', (there', (t, (has, same)))). ground arith))
    | inr (t, has) ↦ (
      (λ h. (rec, (there, (t, (has, ground arith))))),
      (λ (rec', (there', (t', (has', same)))). ground arith),
    )
  ]
]

find_target-Lists :
    (port : ℕ) (ts : List Target) (t : Target)
    → Registry.find_target port ts ≡ some t
    → Lists port ts
unfolding Registry.find_target
find_target-Lists port [] t h = cc
find_target-Lists port (x ∷ ts) t h = elim (Bool-cases (x.port == port)) [
  | inl here ↦ inl (ground arith)
  | inr there ↦ inr (find_target-Lists port ts t (ground arith))
]

Lists-find_target :
    (port : ℕ) (ts : List Target)
    → Lists port ts
    → (t : Target) × (Registry.find_target port ts ≡ some t)
unfolding Registry.find_target
Lists-find_target port [] h = absurd h
Lists-find_target port (x ∷ ts) (inl here) = (x, ground arith)
Lists-find_target port (x ∷ ts) (inr later) = elim (Bool-cases (x.port == port)) [
  | inl here ↦ (x, ground arith)
  | inr there ↦ let (t, h) = Lists-find_target port ts later in (t, ground (arith, h))
]

is_closed_iff :
    (id : ℕ) (closed : List ℕ) → (Registry.is_closed id closed ≡ false) ↔ All (λ c. c ≢ id) closed
unfolding Registry.is_closed
is_closed_iff id [] = ((λ h. tt), (λ h. refl))
is_closed_iff id (c ∷ cs) = (
  (λ h. (ground arith, (is_closed_iff id cs).0 (ground arith))),
  (λ (here, rest). ground (arith, here, (is_closed_iff id cs).1 rest)),
)

resolve_target_iff :
    (r : Registry) (s : Session) (port : ℕ)
    → ((t : Target) × (Registry.resolve_target r s port ≡ some t))
      ↔ (All (λ c. c ≢ s.id) r.closed × Lists port s.targets)
unfolding Registry.resolve_target
resolve_target_iff r s port = (
  (λ (t, h). (
    (is_closed_iff s.id r.closed).0 (ground arith),
    find_target-Lists port s.targets t (ground arith),
  )),
  (λ (open_still, listed).
      let (t, h) = Lists-find_target port s.targets listed in
      (t, ground (arith, (is_closed_iff s.id r.closed).1 open_still, h))),
)

-- DialTunnelTarget connects exactly if the runtime can dial and its dial succeeds, the registry
-- holds the session for its execution before and after the dial, the session is not done and one of its
-- targets is the port, and at the start the execution is on record and neither terminal nor being
-- cancelled.
pub dial_tunnel_target_iff :
    (dialer connected : Bool) (between : Allocator → Allocator) (a : Allocator) (s : Session)
    (port : ℕ)
    → (dial_tunnel_target dialer connected between a s port ≡ ok tt)
      ↔ ((dialer ≡ true) × (connected ≡ true) × MayConnect a (between a) s port)
unfolding dial_tunnel_target may_dial
dial_tunnel_target_iff dialer connected between a s port = (
  (λ h. elim (Option-cases (get s.execution_id a.executions)) [
    | inl n ↦ ground arith
    | inr (e, n) ↦ elim (Option-cases (Registry.resolve_target a.tunnels s port)) [
      | inl m ↦ ground arith
      | inr (t, m) ↦
          let (open_still, listed) = (resolve_target_iff a.tunnels s port).0 (t, m) in
          (
            ground arith,
            ground arith,
            record {
              held = (active-Holds a.tunnels s).0 (ground arith);
              running = (e, (n, ground arith, ground arith));
              not_done = open_still;
              lists = listed;
              still_held = (active-Holds (between a).tunnels s).0 (ground arith);
            },
          )
    ]
  ]),
  (λ (can, connects, k).
      let (e, (there, live, kept)) = k.running in
      let (t, resolved) = (resolve_target_iff a.tunnels s port).1 (k.not_done, k.lists) in
      let before = (active-Holds a.tunnels s).1 k.held in
      let after = (active-Holds (between a).tunnels s).1 k.still_held in
      rw (can, connects, before, there, live, kept, resolved, after) refl),
)
