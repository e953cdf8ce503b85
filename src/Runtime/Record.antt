-- ===== src/Runtime/Record.antt =====
-- `RuntimeRecord` of crates/chanvoy-core/src/runtime/record.rs.
use native.Mathlib.Decide.{ℕ_discrete}
use chanvoy.Base.{
  ℕ, Option, none, some, Result, ok, Bool, true, false, ◌&&◌, ◌||◌, not, is_none, ltb, ◌==◌, length,
  if◌then◌else◌, refuse_if, ok_or, checked_suc, ◌>>=◌, ◌>>◌,
}
use chanvoy.Base.Texts.{Text, lit, text_beq}
use chanvoy.Runtime.{
  RuntimeError, invalid, unavailable, record_version, record_max_bytes, RuntimePhase, starting,
  running, retiring, exited, RuntimeProcess, RuntimeSocket, RuntimeBuildPin, validate_process,
  validate_inode, validate_build, platform,
}
use chanvoy.Runtime.Paths.{Platform, to_path, derive, child_socket_path}

pub record RuntimeRecord : Type 0 where
  pub schema_version : ℕ
  pub namespace : Text
  pub instance_uuid : ℕ
  pub revision : ℕ
  pub phase : RuntimePhase
  pub uid : ℕ
  pub config_root : Text
  pub profile : Text
  pub process : Option RuntimeProcess
  pub socket : Option RuntimeSocket
  pub build : Option RuntimeBuildPin
  pub ready : Bool

unfoldable pub RuntimeRecord-discrete : Discrete RuntimeRecord
RuntimeRecord-discrete = hlevel ℕ_discrete

abbrev pub is_running : RuntimePhase → Bool
is_running starting = false
is_running running = true
is_running retiring = false
is_running exited = false

abbrev pub is_retiring : RuntimePhase → Bool
is_retiring starting = false
is_retiring running = false
is_retiring retiring = true
is_retiring exited = false

abbrev pub is_starting : RuntimePhase → Bool
is_starting starting = true
is_starting running = false
is_starting retiring = false
is_starting exited = false

abbrev pub is_live : RuntimePhase → Bool
is_live starting = false
is_live running = true
is_live retiring = true
is_live exited = false

abbrev validate_option_process : Option RuntimeProcess → ℕ → Result RuntimeError (Unit {0})
validate_option_process none uid = ok tt
validate_option_process (some p) uid = validate_process p uid

abbrev validate_option_build : Option RuntimeBuildPin → Result RuntimeError (Unit {0})
validate_option_build none = ok tt
validate_option_build (some b) = validate_build b

unfoldable pub next_revision : RuntimeRecord → Result RuntimeError ℕ
next_revision r = ok_or (checked_suc r.revision) (invalid (lit "record revision overflow"))

module _ (os : Platform) where
  unfoldable pub validate_socket :
      Option RuntimeSocket → Option RuntimeProcess → Result RuntimeError (Unit {0})
  validate_socket none process = ok tt
  validate_socket (some s) process = do
    validate_inode s.identity
    p ← ok_or process (invalid (lit "socket without process"))
    path ← to_path s.path
    root ← ok_or (os.parent path) (invalid (lit "socket root"))
    expected ← child_socket_path os root p.pid (platform p.birth)
    refuse_if (not (text_beq s.path expected)) (invalid (lit "socket is not the child PID locator"))

  unfoldable pub validate : RuntimeRecord → Result RuntimeError (Unit {0})
  unfolding validate_socket
  validate r = do
    refuse_if (not (r.schema_version == record_version)) (unavailable (lit "record version"))
    namespace ← derive os r.uid r.config_root r.profile
    refuse_if (not (text_beq r.namespace namespace))
        (invalid (lit "record namespace/input mismatch"))
    refuse_if (if r.ready then not (is_running r.phase) else is_running r.phase)
        (invalid (lit "phase/readiness claim mismatch"))
    refuse_if
        ((r.revision == 0)
          && (not (is_starting r.phase) || not (is_none r.process) || not (is_none r.socket)))
        (invalid (lit "launcher revision zero claim"))
    refuse_if (is_live r.phase && (is_none r.process || is_none r.socket))
        (invalid (lit "live phase lacks process/socket claim"))
    validate_option_process r.process r.uid
    validate_socket r.socket r.process
    validate_option_build r.build

  -- `serde_json::to_vec` is an argument.
  unfoldable pub encode : (RuntimeRecord → Option Text) → RuntimeRecord → Result RuntimeError Text
  encode to_vec r = do
    validate r
    bytes ← ok_or (to_vec r) (invalid (lit "record encoding"))
    refuse_if (ltb record_max_bytes (length bytes)) (invalid (lit "record byte cap"))
    ok bytes

  unfoldable pub decode :
      (Text → Option RuntimeRecord) → Text → Text → ℕ → Result RuntimeError RuntimeRecord
  decode from_slice bytes expected uid = do
    refuse_if (ltb record_max_bytes (length bytes)) (invalid (lit "record byte cap"))
    r ← ok_or (from_slice bytes) (invalid (lit "record schema"))
    validate r
    refuse_if (not (text_beq r.namespace expected) || not (r.uid == uid))
        (invalid (lit "record does not match selected namespace/account"))
    ok r
