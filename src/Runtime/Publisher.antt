-- ===== src/Runtime/Publisher.antt =====
-- The child's publisher of crates/chanvoy-core/src/runtime/publisher.rs, with the record file that
-- it writes. `Io` is what the lease and the file system answer during one call.
pub mod Invariant
pub mod Forward
pub mod History
pub mod Retry
use chanvoy.Base.{
  ℕ, Option, none, some, Result, ok, err, Bool, true, false, ◌&&◌, ◌||◌, not, ◌==◌, if◌then◌else◌,
  refuse_if, is_none,
}
use chanvoy.Base.Actions.{Action, ◌>>=◌, ◌>>◌, pure, fail, gets, modify, check}
use chanvoy.Base.Texts.{Text, lit, text_beq}
use chanvoy.Runtime.{
  RuntimeError, invalid, changed, RuntimePhase, starting, running, retiring, RuntimeProcess,
  RuntimeSocket, RuntimeBuildPin,
}
use chanvoy.Runtime.Paths.{Platform}
use chanvoy.Runtime.Record.{RuntimeRecord, next_revision, is_starting}
use chanvoy.Runtime.Storage.{
  RecordSnapshot, same_record, same_snapshot, Disk, Access, allowed, Replacement, read_record,
  unchanged, publish_record, confirm_publication,
}
use chanvoy.Runtime.Stage.{PublicationView, PublicationState, logical, inspect, stage, finish}

pub record Io : Type 0 where
  pub lease : Access
  pub access : Access
  pub replacement : Replacement
  pub synced : Access

pub record Publisher : Type 0 where
  pub state : PublicationState
  pub disk : Disk

abbrev pub Call : Type 0 → Type 0
Call A = Action Publisher RuntimeError A

abbrev stored : Result RuntimeError PublicationState → Call (Unit {0})
stored (ok s) p = (ok tt, record p { state = s })
stored (err e) p = (err e, p)

abbrev pub found : Disk → Call RecordSnapshot
found none p = (err (changed (lit "publisher record missing")), p)
found (some s) p = (ok s, p)

module _ (os : Platform) (to_vec : RuntimeRecord → Option Text) (uid : ℕ) where
  -- `publish_record`, which writes the disk.
  abbrev pub publish : Io → RecordSnapshot → RuntimeRecord → Call RecordSnapshot
  publish io expected next p =
      let (out, disk) =
        publish_record os to_vec uid io.access io.replacement p.disk expected next in
      (out, record p { disk = disk })

  abbrev pub finish_with : RecordSnapshot → Call (Unit {0})
  finish_with published p = stored (finish p.state published) p

  abbrev pub flush_observed : Io → RuntimeRecord → RecordSnapshot → Call (Unit {0})
  flush_observed io next observed p =
      if same_snapshot observed p.state.durable
      then (do published ← publish io p.state.durable next; finish_with published) p
      else if same_record observed.captured next
      then (do
        check (λ q. confirm_publication io.access io.synced q.disk observed)
        finish_with observed)
          p
      else fail (changed (lit "publisher record epoch/revision")) p

  abbrev pub flush_pending : Io → Option RuntimeRecord → Call (Unit {0})
  flush_pending io none = do
    same ← check (λ q. unchanged io.access q.disk q.state.durable)
    check (λ q. refuse_if (not same) (changed (lit "publisher durable record epoch/revision")))
  flush_pending io (some next) = do
    disk ← check (λ q. read_record io.access q.disk)
    observed ← found disk
    flush_observed io next observed

  unfoldable pub flush : Io → Call (Unit {0})
  flush io = do
    check (λ q. allowed io.lease)
    pending ← gets (λ q. q.state.pending)
    flush_pending io pending

  abbrev pub stage_call : RuntimeRecord → Call (Unit {0})
  stage_call next p = stored (stage os p.state next) p

  unfoldable pub publish_running : Io → RuntimeSocket → RuntimeBuildPin → Call (Unit {0})
  unfolding flush
  publish_running io socket build = do
    next ← gets (λ q. logical q.state)
    revision ← check (λ q. next_revision next)
    stage_call (record next {
      revision = revision;
      phase = running;
      ready = true;
      socket = some socket;
      build = some build;
    })
    flush io

  unfoldable pub publish_retiring : Io → Call (Unit {0})
  unfolding flush
  publish_retiring io = do
    next ← gets (λ q. logical q.state)
    revision ← check (λ q. next_revision next)
    stage_call (record next { revision = revision; phase = retiring; ready = false })
    flush io

  unfoldable pub retry_publication : Io → Call (Unit {0})
  unfolding flush
  retry_publication io = flush io

  unfoldable pub inspect_publication : Io → Call PublicationView
  inspect_publication io = do
    check (λ q. allowed io.lease)
    disk ← check (λ q. read_record io.access q.disk)
    observed ← found disk
    check (λ q. inspect q.state observed)

  abbrev pub owned : Io → ℕ → Text → RuntimeProcess → Publisher → Result RuntimeError Bool
  owned io own_pid lease_namespace process p =
      if not (process.pid == own_pid)
        || not (process.uid == uid)
        || not (text_beq p.state.durable.captured.namespace lease_namespace)
        || not (is_starting p.state.durable.captured.phase)
        || not (p.state.durable.captured.revision == 0)
      then ok false
      else unchanged io.access p.disk p.state.durable

  -- `for_current_child`, run on `fresh`: `own_pid` is the process that runs, `lease_namespace` what
  -- its lease names.
  unfoldable pub for_current_child : Io → ℕ → Text → RuntimeProcess → Call (Unit {0})
  for_current_child io own_pid lease_namespace process = do
    check (λ q. allowed io.lease)
    child ← check (owned io own_pid lease_namespace process)
    check (λ q. refuse_if (not child) (invalid (lit "child publisher ownership")))
    next ← gets (λ q. q.state.durable.captured)
    revision ← check (λ q. next_revision next)
    stage_call (record next { revision = revision; process = some process })

abbrev pub fresh : RecordSnapshot → Disk → Publisher
fresh begun disk = record { state = record { durable = begun; pending = none }; disk = disk }
