-- ===== src/Lib.antt =====
-- r1s: clients ask allocators for execution capacity over a mesh, take an offer, and run a
-- workload under a lease. This library models the allocator (internal/allocator), the client's
-- controller (internal/client), the validation and the placement rules of the messages
-- (internal/protocol), the tunnel's registry, frames, streams and pairs (internal/tunnel,
-- internal/tunnel/yggdrasil) and the log store (internal/logstore).
--
-- The client's commands are the allocator's messages, and the allocator's answers, its offers,
-- states and acknowledgements, are what the client handles; both validate an envelope first. A
-- tunnel's session is granted by the allocator's registry, and its pair carries streams of framed
-- bytes.
--
-- The parts, and the files that model them:
--
-- Protocol.Messages: the control messages (api/proto/r1s/v1/control.proto). A message pointer is
--   an `Option`, a byte slice or string is the list of its bytes, a map is an association list. A
--   Protobuf timestamp carries what CheckValid and AsTime give; a time is in nanoseconds since
--   the Unix epoch. Protocol.Validate: ValidateEnvelope with its validators (base.go,
--   contract.go, feedback.go, lease.go, release.go, targets.go, tunnel.go); SHA-256 is an
--   argument. Protocol.Placement: placement.go.
-- Tunnel.Contract, Tunnel.Registry: tunnel.go, grants.go, session.go, registry.go. A session
--   pointer is the number under which the registry issued it. Tunnel.Framing: the frames, one
--   packet each; bytes are numbers, the fields have the widths of the wire.
-- Allocator.State: the record of an Allocator under its lock. Times and durations are ℕ. Save is
--   outside: each section takes `saved`, its outcome, and `disk` is what the store then holds.
--   Allocator.Ledger: capacity.go, with uint32 written out. Allocator.Errors: an error is the
--   list of the sentinels that errors.Is finds in it. Allocator.Views: expiry, envelopes,
--   finishLocked. Allocator.Admission, Offers, Assign, Cancel, Lease (with release.go), Runtime,
--   Eviction, Replay, Retention: one file per Go file, one function per handler. A handler that
--   unlocks around the runtime's Start or Stop is two functions, `begin_…` and `finish_…`, and
--   the handler itself (`handle_assign`, `handle_cancel`) takes what other goroutines do in
--   between as an argument. Allocator.Access and Allocator.Logs: tunnel.go and logs.go, over the
--   registry of Tunnel.Registry and the store of Logstore.Store.
-- Allocator.System: the locked sections as data (`Section`), one step each (`step`), and their
--   sequences (`run`): every order in which the goroutines can take these sections is such a
--   sequence. What newID returns, the clock and the runtime's results are the section's
--   arguments.
-- Allocator.Accounts, Sound, SoundSections, SoundCancel, SoundRelease, SoundSystem, SoundRun,
--   SoundCollect: the slots against the records, for each section and for their sequences.
--   Allocator.Rollback, Recorded, Repeat, Keys, AccessLaws, LogsLaws, EvictionLaws, ReplayLaws,
--   ErrorsLaws, Protocol.PlacementLaws, ValidateLaws, Tunnel.RegistryLaws, FramingLaws: what
--   holds of the parts.
-- Tunnel.Stream: stream.go, every operation of a streamConn. A call that would wait is a result
--   of its own, and the frames that a call writes are listed in its result; pair.writeFrame is
--   taken to succeed. Tunnel.Link: two ends of a stream, joined by a queue of frames each way
--   (the session keeps frames in order), and the sequences of their operations (`run`).
--   Tunnel.Flow, Pipe, Wakes and Segments: what holds of such sequences, and of Write.
-- Tunnel.Pair: pair.go, pair_streams.go and pair_handshake.go, the streams of one session. The
--   waits, the timers and the JSON preamble are left out. Tunnel.PairLaws: what holds of a pair.
-- Client.State, Catalog, Selection, Leases, Inbound, Commands: the Controller under its lock, one
--   function per method. What newID returns is `new_id n`, the n-th ID of an operation. A sorted
--   list is kept in the order of the map. Client.System: its methods as data (`Call`) and their
--   sequences (`run`). Client.CatalogLaws, Evolution, Observed, Settled, SettledSelect,
--   SettledInbound, SettledRun, LeaseLaws: what holds of them.
-- Logstore.Store: store.go. A directory is what stands in it, under its name; New takes the ones
--   that stand under its root already. The file system is taken to succeed, and the hash that
--   names a directory is a parameter. Logstore.StoreLaws, Budget: what holds of it.
-- Tests: the theorems at concrete inputs.
--
-- Bounds. Revisions wrap at 2^64 and slots at 2^32, as in the source. Stream IDs wrap at 2^32
-- too. The loop of evict has as much fuel as there are entries: a round takes one entry out. The
-- loop of Write has as much as there are bytes: a round writes at least one. The loop of
-- EvictExpiredLeases takes its fuel as an argument. Go visits a map in any order; the model
-- visits it in the order of insertion. Equality of messages (proto.Equal) is an argument.
--
-- Not modelled: the collection pass of Sweep (Allocator.Retention) stands by itself and is not
-- among the sections of Allocator.System; the allocator's Handle, Recover and loadLocked;
-- metrics; the delivery and the ranking probes of the client, its store and its command line; the
-- multiplexer of the tunnel's listener; the cluster and the broker; the containerd, bbolt,
-- Reticulum and Yggdrasil libraries and the command line programs, which are glue to them.
pub mod Base
pub mod Protocol
pub mod Tunnel
pub mod Allocator
pub mod Client
pub mod Logstore
pub mod Tests
