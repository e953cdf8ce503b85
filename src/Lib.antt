-- ===== src/Lib.antt =====
-- A model of the wait machinery of chanvoy: the daemon that keeps one connection to a Mattermost
-- server for each profile and lets agents wait for messages on it.
--
-- Parts of the program, and the files that model them:
--
--   Slots, Slots/Decisions      crates/chanvoy-core/src/wait_registry.rs: the decisions for one wait
--                               slot (`decide_acquire`, `should_release`, `can_install_replacement`)
--                               and the limits on the strings of a wait request.
--   Registry, Registry/Acquire, crates/chanvoy-daemon/src/wait_owner.rs: the registry of live waits.
--   Registry/Guard              `acquire_kind` is cut at its lock boundaries: `acquire_prepare` is
--                               the first locked section, `cancel_cell` the cancellation of the old
--                               owner, `acquire_install` the second locked section; `abandon_handoff`
--                               is `HandoffTxn::drop`, `complete_guard` is `WaitGuard::complete`.
--   Registry/Protocol           every interleaving: tasks that acquire, wait for cleanup, time out,
--                               are dropped, hold and complete, together with admission calls and
--                               shutdown, as a step relation (`Step`, `Reach`). The modules below it
--                               hold the invariant and one lemma for each kind of move.
--   Admission and below         crates/chanvoy-daemon/src/wait_owner/admission.rs: the inventory of
--                               owners (`Inventory`, `reserve`, `validate`, `transfer`, `release`)
--                               and the handles (`request_permit`, `reserve_stream`, `retain`,
--                               `confirm_done`, `registration_owner`, `task_cleanup_pair`).
--   Registry/Arena,             `retire_if_idle` and the calls of the handles on the registry, which
--   Registry/Retirement,        holds the inventory under the same mutex.
--   Registry/Closure
--   Message, Follow and below   crates/chanvoy-core/src/wait_follow.rs: the v1 event (`Single`), the
--                               v2 event (`Batch`), the result (`Results`), the field checks and the
--                               strict order of a batch.
--   Coalesce and below          crates/chanvoy-daemon/src/wait_coalesce.rs: `order_coalesced` and
--                               the fixed-window buffer (`new`, `push`, `take`, `take_if_expired`).
--   Inbox and below             the cursor of crates/chanvoy-core/src/wait_inbox.rs: `advance`,
--                               `admits`, `encode`, `decode` and its base64url text.
--   WaitChannels and below      crates/chanvoy-core/src/wait_channels.rs: the parameters of a fan-in wait
--                               and the winner among the matches of its backfill.
--   WaitDm                      the names of direct channels, in crates/chanvoy-core/src/wait_dm.rs and
--                               `peer_user_id_from_dm_name` in wait_inbox.rs.
--   WsCollection and below      crates/chanvoy-core/src/websocket_ownership.rs: the coordinator of one
--                               websocket execution (`launch`), one function for each branch of its
--                               loop.
--   Observation                 crates/chanvoy-core/src/lib.rs: `derive_daemon_health` and
--                               `current_ws_observation_degraded`.
--   Observation/Gate            `WsState` there: the admission gate, one function for each of the
--                               sections under its connection lock.
--   Startup and below           crates/chanvoy-daemon/src/startup_work.rs: the owners of a provider
--                               task that the daemon starts, and their return when it is collected.
--   Recovery and below          crates/chanvoy-core/src/recovery.rs: the identity probe, the gate with
--                               its refusal flag, and the assessment of a daemon.
--   Runtime, Runtime/Hex,       crates/chanvoy-core/src/runtime/record.rs and identity.rs: the record
--   Runtime/Paths,              of a daemon process with its claims (`validate`, `encode`, `decode`),
--   Runtime/Record              the namespace it is filed under, and the hexadecimal texts of paths.
--   Runtime/Storage             crates/chanvoy-core/src/runtime/authority.rs: the record file
--                               (`read_record`, `publish_record`, `confirm_publication`).
--   Runtime/Stage,              crates/chanvoy-core/src/runtime/publisher.rs: the state of a
--   Runtime/Publisher and below publication (`stage`, `finish`, `inspect`) and the calls of the child's
--                               publisher on it and on the file.
--   RetirementControl and below crates/chanvoy-daemon/src/retirement_control.rs: the request to retire
--                               a daemon (`bind`, `attempt`).
--   ReadCursors and below       crates/chanvoy-daemon/src/waitprims_poll.rs and lib.rs: the poll and
--                               attention cursors, their files and the redo record (`commit_combined`,
--                               `apply_pending_txn`), and every call that writes them.
--   Mentions, Wait and below    crates/chanvoy-daemon/src/wait.rs: the filter (`compile`), the buffer of
--                               events, `first_match_bus_then_rest`, and `wait_push_after_baseline`,
--                               one `turn` for each pass of its loop; `mentions_bot` of
--                               crates/chanvoy-core/src/lib.rs.
--   Delivery and below          crates/chanvoy-daemon/src/follow_delivery.rs: `ChannelDelivery`, its stop
--                               cause, its admission gate and its writer, over calls in any order; in
--                               Delivery/Producer the producer of crates/chanvoy-daemon/src/
--                               waitprims_hold.rs (`emit_follow_event` of the armed record, then
--                               `open_gate`) beside the calls of the connection.
--   Wait/Retry                  `provider_retry` of wait.rs, over the rounds of its loop.
--   Replay                      `FanInReplayStore` of crates/chanvoy-daemon/src/waitprims_fanin.rs.
--   Examples and below          concrete runs, and each theorem applied to one.
--
-- How the parts interact. A wait request takes an admission permit, acquires the slot of its
-- channel in the registry by the decisions of `Slots`, and emits events; a follow gathers matches
-- in the coalescing buffer and emits each burst as one v2 event. An inbox wait hands out a cursor
-- with each match. A monitored wait reads the daemon's event stream and the provider's pages until
-- a message passes its filter; a channel follow writes its records through one delivery, which
-- admits entries until a stop cause is seen or a write fails. A read that is acknowledged moves
-- the read cursors, which a start of the daemon recovers. Startup work holds owners of the same
-- inventory. Retirement asks the registry whether anything is live, closes admission when nothing
-- is, and then publishes a retiring record; a later request may continue a publication that
-- failed.
--
-- How state is modelled. A `HashMap` is an association list in which a write replaces the entry of
-- its key (Base/Maps). The flags that a registry slot, its guard and a replacing task share
-- through `Arc` are cells of a store (`Registry.cells`), named by numbers. One call under a mutex
-- is one step; what happens between two locked sections of `acquire_kind` is any number of other
-- steps. An await that times out is a step that a task may take at any moment. The clock, a fresh
-- wait id and `Instant::checked_add` are arguments. `InstanceId` is a number. A `u64` counter ends
-- at `u64_max`, after which `checked_add` answers none, as in the source; the reconnect count
-- wraps. Text is the list of its UTF-8 bytes, in the order of `str`. An `i64` is an integer of
-- Base/Int. Error texts are constructors. The record file has one writer, its publisher; its
-- content is the record and the bytes last written, with a number for its identity, size and
-- times. What the lease and the file system answer during a call is an argument (`Io`): each
-- access may fail, and a replacement may fail before the rename, or after it, unconfirmed. Each
-- access to a cursor file or its lock takes the next answer of the system: done, refused, or
-- failed after its effect. One turn of a wait loop, one round of its retries and one poll of a
-- writer take what they receive as an argument, so a run is a list of them. A compiled pattern is
-- the test that it makes. All loops are structural recursions, so no fuel is used.
--
-- Not modelled: sockets, HTTP and the event stream of the server, JSON (an argument where a cursor
-- or a runtime record needs it), locks and process evidence of the runtime directory, the command
-- line, the MCP server, and the supervision of tokio tasks; the wait loops that another library
-- runs (holds, poll cycles, fan-in observers), and how a channel, a baseline or a legacy cursor
-- key is resolved.
pub mod Base
pub mod Admission
pub mod Slots
pub mod Registry
mod Examples
pub mod Message
pub mod Follow
pub mod Coalesce
pub mod Inbox
pub mod Startup
pub mod ReadCursors
pub mod Mentions
pub mod Wait
pub mod Delivery
pub mod Replay
pub mod Recovery
pub mod WaitDm
pub mod Observation
pub mod WsCollection
pub mod WaitChannels
pub mod Runtime
pub mod RetirementControl
