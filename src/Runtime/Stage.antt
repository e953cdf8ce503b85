-- ===== src/Runtime/Stage.antt =====
-- `PublicationState` of crates/chanvoy-core/src/runtime/publisher.rs.
use native.Mathlib.Decide.{ℕ_discrete}
use chanvoy.Base.{
  Option, none, some, Result, ok, err, Bool, true, false, ◌&&◌, not, ◌==◌, is_none, is_some,
  if◌then◌else◌, refuse_if, ◌>>=◌, ◌>>◌, ◌≡◌, ◌↔◌,
}
use chanvoy.Base.Texts.{lit, text_beq}
use chanvoy.Runtime.{
  RuntimeError, unavailable, invalid, changed, RuntimePhase, starting, running, retiring, exited,
  RuntimeProcess, RuntimeSocket,
}
use chanvoy.Runtime.Paths.{Platform}
use chanvoy.Runtime.Record.{RuntimeRecord, validate, next_revision, is_running}
use chanvoy.Runtime.Storage.{RecordSnapshot, same_record, same_snapshot, is_yes, is_yes_iff}

pub record PublicationView : Type 0 where
  pub observed : RuntimeRecord
  pub logical : RuntimeRecord
  pub confirmed : Bool

pub record PublicationState : Type 0 where
  pub durable : RecordSnapshot
  pub pending : Option RuntimeRecord

abbrev pub pending_is : Option RuntimeRecord → RuntimeRecord → Bool
pending_is none r = false
pending_is (some p) r = same_record p r

abbrev pub logical_of : Option RuntimeRecord → RecordSnapshot → RuntimeRecord
logical_of none durable = durable.captured
logical_of (some p) durable = p

unfoldable pub logical : PublicationState → RuntimeRecord
logical s = logical_of s.pending s.durable

unfoldable pub inspect : PublicationState → RecordSnapshot → Result RuntimeError PublicationView
unfolding logical
inspect s observed =
    if not (same_snapshot observed s.durable) && not (pending_is s.pending observed.captured)
    then err (changed (lit "publisher record epoch/revision"))
    else ok (record {
      observed = observed.captured;
      logical = logical s;
      confirmed = is_none s.pending && same_snapshot observed s.durable;
    })

-- The fields that a publisher never changes.
abbrev pub same_epoch : RuntimeRecord → RuntimeRecord → Bool
same_epoch next current =
    text_beq next.namespace current.namespace
    && (next.instance_uuid == current.instance_uuid)
    && (next.uid == current.uid)
    && text_beq next.config_root current.config_root
    && text_beq next.profile current.profile

unfoldable pub Process-discrete : Discrete (Option RuntimeProcess)
Process-discrete = hlevel ℕ_discrete

unfoldable pub Socket-discrete : Discrete (Option RuntimeSocket)
Socket-discrete = hlevel ℕ_discrete

unfoldable pub same_process : Option RuntimeProcess → Option RuntimeProcess → Bool
same_process a b = is_yes (Process-discrete a b)

unfoldable pub same_socket : Option RuntimeSocket → Option RuntimeSocket → Bool
same_socket a b = is_yes (Socket-discrete a b)

pub same_process_iff : (a b : Option RuntimeProcess) → (same_process a b ≡ true) ↔ (a ≡ b)
unfolding same_process
same_process_iff a b = is_yes_iff (Process-discrete a b)

pub same_socket_iff : (a b : Option RuntimeSocket) → (same_socket a b ≡ true) ↔ (a ≡ b)
unfolding same_socket
same_socket_iff a b = is_yes_iff (Socket-discrete a b)

abbrev pub transition_allowed : RuntimePhase → RuntimePhase → RuntimeRecord → RuntimeRecord → Bool
transition_allowed starting starting current next =
    (current.revision == 0) && is_none current.process
transition_allowed starting running current next = same_process current.process next.process
transition_allowed running retiring current next = same_process current.process next.process
transition_allowed starting retiring current next = false
transition_allowed starting exited current next = false
transition_allowed running starting current next = false
transition_allowed running running current next = false
transition_allowed running exited current next = false
transition_allowed retiring other current next = false
transition_allowed exited other current next = false

module _ (os : Platform) where
  unfoldable pub check_stage : PublicationState → RuntimeRecord → Result RuntimeError (Unit {0})
  check_stage s next = do
    refuse_if (is_some s.pending) (unavailable (lit "publication requires forward reconciliation"))
    refuse_if (not (same_epoch next s.durable.captured)) (invalid (lit "publisher epoch/revision"))
    revision ← next_revision s.durable.captured
    refuse_if (not (next.revision == revision)) (invalid (lit "publisher epoch/revision"))
    refuse_if (not (transition_allowed s.durable.captured.phase next.phase s.durable.captured next))
        (invalid (lit "publisher phase transition"))
    refuse_if
        (is_running s.durable.captured.phase
          && not (same_socket s.durable.captured.socket next.socket))
        (changed (lit "retirement socket claim"))
    validate os next

  -- `stage` stores the record that passes the checks.
  unfoldable pub stage : PublicationState → RuntimeRecord → Result RuntimeError PublicationState
  unfolding check_stage
  stage s next = do check_stage s next; ok (record s { pending = some next })

unfoldable pub finish : PublicationState → RecordSnapshot → Result RuntimeError PublicationState
finish s published =
    if pending_is s.pending published.captured
    then ok (record { durable = published; pending = none })
    else err (changed (lit "publication outcome"))
