-- ===== src/RetirementControl.antt =====
-- crates/chanvoy-daemon/src/retirement_control.rs: the request to retire a daemon, which closes the
-- registry and then publishes the retirement. Between its own accesses other tasks use the registry.
pub mod Answers
pub mod Outcomes
pub mod Continue
use native.Mathlib.Decide.{ℕ_discrete}
use chanvoy.Base.{
  ℕ, Option, none, some, Result, ok, err, Bool, true, false, ◌&&◌, ◌||◌, not, ◌==◌, is_none,
  refuse_if, if◌then◌else◌, ◌>>=◌, ◌>>◌, ◌≡◌, ◌↔◌,
}
use chanvoy.Base.Texts.{Text, lit, text_beq}
use chanvoy.Admission
use chanvoy.Admission.{Phase, Failure}
use chanvoy.Registry.{Registry, Snapshot, snapshot}
use chanvoy.Registry.Arena
use chanvoy.Registry.Arena.{RetirementDecision, retire_if_idle}
use chanvoy.Runtime.{
  RuntimeError, invalid, changed, RuntimePhase, starting, running, retiring, exited, RuntimeProcess,
  RuntimeBuildPin,
}
use chanvoy.Runtime.Paths.{Platform}
use chanvoy.Runtime.Record.{RuntimeRecord, is_running, is_retiring}
use chanvoy.Runtime.Storage.{same_record, is_yes, is_yes_iff}
use chanvoy.Runtime.Stage.{PublicationView, same_process, same_socket}
use chanvoy.Runtime.Publisher.{
  Io, Publisher, Call, inspect_publication, publish_retiring, retry_publication,
}

pub data ControlAction : Type 0 where
  begin continue_same_epoch : ControlAction

pub record Target : Type 0 where
  pub namespace : Text
  pub instance_uuid : ℕ
  pub record_revision : ℕ
  pub process : RuntimeProcess

pub record Params : Type 0 where
  pub schema_version : ℕ
  pub kind : Text
  pub action : ControlAction
  pub target : Target
  pub caller_generation : RuntimeBuildPin

-- A control document: whether its root is `RetireRequest`, and what `serde_json` reads as `params`.
pub record ControlDocument : Type 0 where
  pub is_retire_request : Bool
  pub params : Option Params

pub data Outcome : Type 0 where
  committed continued busy target_mismatch revision_changed generation_refused native_unavailable :
      Outcome
  already_retiring not_retiring publication_unconfirmed : Outcome

pub record ResultFacts : Type 0 where
  pub outcome : Outcome
  pub arena : Option Snapshot
  pub publication : Option PublicationView

pub record Control : Type 0 where
  pub registry : Registry
  pub anchor : RuntimeRecord
  pub publisher : Publisher

-- What the lease and the file system answer to the three calls of the publisher, and what other
-- tasks do to the registry before each of the three accesses.
pub record Setting : Type 0 where
  pub looked : Io
  pub published : Io
  pub looked_again : Io
  pub before_arena : Registry → Registry
  pub before_decision : Registry → Registry
  pub before_facts : Registry → Registry

unfoldable pub Build-discrete : Discrete (Option RuntimeBuildPin)
Build-discrete = hlevel ℕ_discrete

unfoldable pub same_build : Option RuntimeBuildPin → Option RuntimeBuildPin → Bool
same_build a b = is_yes (Build-discrete a b)

pub same_build_iff : (a b : Option RuntimeBuildPin) → (same_build a b ≡ true) ↔ (a ≡ b)
unfolding same_build
same_build_iff a b = is_yes_iff (Build-discrete a b)

unfoldable pub same_identity : RuntimeRecord → RuntimeRecord → Bool
same_identity a b =
    text_beq a.namespace b.namespace
    && (a.instance_uuid == b.instance_uuid)
    && (a.uid == b.uid)
    && text_beq a.config_root b.config_root
    && text_beq a.profile b.profile
    && same_process a.process b.process
    && same_socket a.socket b.socket
    && same_build a.build b.build

abbrev pub unpinned : Option RuntimeBuildPin → Bool
unpinned none = true
unpinned (some g) = is_none g.dirty || text_beq g.commit (lit "unknown")

abbrev pub is_closed : Phase → Bool
is_closed Admission.running = false
is_closed Admission.retiring = true

abbrev Step : Type 0
Step = Control → Result RuntimeError ResultFacts × Control

-- Facts with the arena as it then is, and facts without it.
abbrev pub facts : Setting → Outcome → Option PublicationView → Step
facts s outcome publication c =
    let r = s.before_facts c.registry in
    (
      ok (record { outcome = outcome; arena = some (snapshot r); publication = publication }),
      record c { registry = r },
    )

abbrev pub bare : Outcome → Step
bare outcome c = (ok (record { outcome = outcome; arena = none; publication = none }), c)

abbrev pub to_option : {A : Type 0} → Result RuntimeError A → Option A
to_option (ok a) = some a
to_option (err e) = none

abbrev pub is_settled : Result RuntimeError (Unit {0}) → Option PublicationView → Bool
is_settled (err e) after = false
is_settled (ok u) none = false
is_settled (ok u) (some v) = v.confirmed && is_retiring v.observed.phase

abbrev pub report : Setting → Outcome → Bool → Option PublicationView → Step
report s outcome true after = facts s outcome after
report s outcome false after = facts s publication_unconfirmed after

abbrev pub wrong_target : RuntimeRecord → Target → PublicationView → Bool
wrong_target anchor t view =
    not (same_identity anchor view.observed)
    || not (same_identity anchor view.logical)
    || not (text_beq t.namespace view.observed.namespace)
    || not (t.instance_uuid == view.observed.instance_uuid)
    || not (same_process (some t.process) view.observed.process)

module _ (os : Platform) (to_vec : RuntimeRecord → Option Text) (uid : ℕ) where
  -- `for_child`.
  unfoldable pub bind : Io → Registry → Publisher → Result RuntimeError Control
  bind io r p = do
    view ← (inspect_publication os to_vec uid io p).0
    refuse_if
        (not view.confirmed
          || not (same_record view.observed view.logical)
          || not (is_running view.logical.phase)
          || is_closed r.admission.phase
          || not (r.admission.instance_id == view.logical.instance_uuid)
          || is_none view.logical.process
          || unpinned view.logical.build)
        (invalid (lit "retirement coordinator binding"))
    ok (record { registry = r; anchor = view.logical; publisher = p })

  abbrev pub settle : Setting → Outcome → Call (Unit {0}) → Step
  settle s outcome call c =
      let (out, p) = call c.publisher in
      let (seen, q) = inspect_publication os to_vec uid s.looked_again p in
      report s outcome (is_settled out (to_option seen)) (to_option seen)
        (record c { publisher = q })

  abbrev pub publish_at : Setting → RuntimePhase → Outcome → PublicationView → Step
  publish_at s running outcome view = settle s outcome (publish_retiring os to_vec uid s.published)
  publish_at s retiring outcome view =
      settle s outcome (retry_publication os to_vec uid s.published)
  publish_at s starting outcome view = facts s publication_unconfirmed (some view)
  publish_at s exited outcome view = facts s publication_unconfirmed (some view)

  abbrev pub decided : Setting → PublicationView → Result Failure RetirementDecision → Step
  decided s view (err e) c = (err (changed (lit "retirement arena instance")), c)
  decided s view (ok (Arena.busy seen)) c =
      (ok (record { outcome = busy; arena = some seen; publication = some view }), c)
  decided s view (ok (Arena.already_retiring seen)) c = facts s already_retiring (some view) c
  decided s view (ok (Arena.closed seen)) c = publish_at s view.logical.phase committed view c

  abbrev pub act : Setting → ControlAction → PublicationView → Step
  act s begin view c =
      let r = s.before_arena c.registry in
      if is_closed r.admission.phase
      then facts s already_retiring (some view) (record c { registry = r })
      else if not (is_running view.logical.phase) || not view.confirmed
      then facts s publication_unconfirmed (some view) (record c { registry = r })
      else (let (decision, r') = retire_if_idle c.anchor.instance_uuid (s.before_decision r) in
          decided s view decision (record c { registry = r' }))
  act s continue_same_epoch view c =
      let r = s.before_arena c.registry in
      if is_closed r.admission.phase
      then publish_at s view.logical.phase continued view (record c { registry = r })
      else facts s not_retiring (some view) (record c { registry = r })

  abbrev pub looked_at :
      Setting → (RuntimeRecord → Bool) → Params → Result RuntimeError PublicationView → Step
  looked_at s native_recheck params (err e) c = bare publication_unconfirmed c
  looked_at s native_recheck params (ok view) c =
      if wrong_target c.anchor params.target view
      then bare target_mismatch c
      else if not (params.target.record_revision == view.observed.revision)
      then facts s revision_changed (some view) c
      else if not (same_build (some params.caller_generation) view.observed.build)
      then facts s generation_refused (some view) c
      else if not (native_recheck view.observed)
      then facts s native_unavailable (some view) c
      else act s params.action view c

  abbrev pub attempt_params : Setting → (RuntimeRecord → Bool) → Option Params → Step
  attempt_params s native_recheck none c = (err (invalid (lit "retirement request projection")), c)
  attempt_params s native_recheck (some params) c =
      let (seen, p) = inspect_publication os to_vec uid s.looked c.publisher in
      looked_at s native_recheck params seen (record c { publisher = p })

  unfoldable pub attempt : Setting → (RuntimeRecord → Bool) → ControlDocument → Step
  unfolding same_identity same_build
  attempt s native_recheck request c =
      if not request.is_retire_request
      then (err (invalid (lit "retirement request root")), c)
      else attempt_params s native_recheck request.params c
