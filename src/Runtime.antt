-- ===== src/Runtime.antt =====
-- The claims of a runtime record, of crates/chanvoy-core/src/runtime/record.rs: process, birth,
-- socket and build, each with its own validation. An error keeps its class and its text.
pub mod Hex
pub mod Paths
pub mod Record
pub mod Storage
pub mod Stage
pub mod Publisher
use chanvoy.Base.{
  ℕ, ◌^◌, Option, none, some, Result, ok, err, Bool, true, false, ◌&&◌, ◌||◌, not, ltb, leb, ◌==◌,
  if◌then◌else◌, is_some, all, length, refuse_if, ok_or, ◌>>=◌, ◌>>◌,
}
use chanvoy.Base.Texts.{Text, lit, text_beq, is_empty, is_ascii_hexdigit}

-- `Io` carries the code of the operating system's error.
pub data RuntimeError : Type 0 where
  unavailable invalid changed : Text → RuntimeError
  locked publication_uncertain : RuntimeError
  io : ℕ → RuntimeError
  panicked : RuntimeError

abbrev pub record_version : ℕ
record_version = 1

abbrev pub record_max_bytes : ℕ
record_max_bytes = 65536

pub data RuntimePhase : Type 0 where
  starting running retiring exited : RuntimePhase

pub data NativePlatform : Type 0 where
  linux macos : NativePlatform

unfoldable pub socket_root_budget : NativePlatform → ℕ
socket_root_budget macos = 87
socket_root_budget linux = 91

pub data NativeBirth : Type 0 where
  linux_birth : (clock_ticks : ℕ) → NativeBirth
  macos_birth : (seconds : ℕ) (microseconds : ℕ) → NativeBirth

unfoldable pub platform : NativeBirth → NativePlatform
platform (linux_birth clock_ticks) = linux
platform (macos_birth seconds microseconds) = macos

-- `ProcessId::new`: the number as a positive `i32`.
unfoldable pub new_process_id : ℕ → Result RuntimeError ℕ
new_process_id pid = do
  refuse_if (leb (2 ^ 31) pid) (invalid (lit "PID range"))
  refuse_if (pid == 0) (invalid (lit "positive PID required"))
  ok pid

pub record InodeIdentity : Type 0 where
  pub device : ℕ
  pub inode : ℕ

unfoldable pub validate_inode : InodeIdentity → Result RuntimeError (Unit {0})
validate_inode i = refuse_if (i.inode == 0) (invalid (lit "zero inode identity"))

pub record RuntimeProcess : Type 0 where
  pub pid : ℕ
  pub uid : ℕ
  pub birth : NativeBirth
  pub executable : Text
  pub pid_namespace : Option InodeIdentity
  pub mount_namespace : Option InodeIdentity

abbrev validate_birth :
    NativeBirth → Option InodeIdentity → Option InodeIdentity → Result RuntimeError (Unit {0})
validate_birth (linux_birth clock_ticks) pid_namespace mount_namespace = do
  p ← ok_or pid_namespace (invalid (lit "missing PID namespace"))
  validate_inode p
  m ← ok_or mount_namespace (invalid (lit "missing mount namespace"))
  validate_inode m
validate_birth (macos_birth seconds microseconds) pid_namespace mount_namespace =
    refuse_if (leb 1000000 microseconds || is_some pid_namespace || is_some mount_namespace)
      (invalid (lit "macOS birth/namespace claim"))

unfoldable pub validate_process : RuntimeProcess → ℕ → Result RuntimeError (Unit {0})
unfolding validate_inode
validate_process p uid = do
  refuse_if (not (p.uid == uid)) (invalid (lit "process/account UID mismatch"))
  validate_birth p.birth p.pid_namespace p.mount_namespace

pub record RuntimeSocket : Type 0 where
  pub path : Text
  pub identity : InodeIdentity

pub record RuntimeBuildPin : Type 0 where
  pub version : Text
  pub commit : Text
  pub dirty : Option Bool

unfoldable pub validate_build : RuntimeBuildPin → Result RuntimeError (Unit {0})
validate_build b =
    refuse_if
      (is_empty b.version
        || not (
            text_beq b.commit (lit "unknown")
            || ((length b.commit == 40) && all is_ascii_hexdigit b.commit)))
      (invalid (lit "build pin claim"))
