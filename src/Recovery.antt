-- ===== src/Recovery.antt =====
-- The identity probe and the daemon's disposition of crates/chanvoy-core/src/recovery.rs. The
-- probe's HTTP call is not modelled: its result is an argument.
pub mod Refusal
use chanvoy.Base.{
  ℕ, Option, none, some, Bool, true, false, ◌&&◌, ◌||◌, ◌==◌, not, if◌then◌else◌, is_some,
}
use chanvoy.Base.Texts.{Text, lit, text_beq, is_empty}

pub data RemoteProbeOutcome : Type 0 where
  verified rejected_credential timeout unavailable unknown : RemoteProbeOutcome

pub record IdentityProbe : Type 0 where
  pub outcome : RemoteProbeOutcome
  pub observed_username : Option Text

unfoldable pub not_probed : IdentityProbe
not_probed = record { outcome = unknown; observed_username = none }

abbrev name_refuses : Option Text → Text → Bool → Bool
name_refuses none expected previous = previous
name_refuses (some name) expected previous =
    if is_empty expected then previous else not (text_beq name expected)

abbrev outcome_refuses : RemoteProbeOutcome → Option Text → Text → Bool → Bool
outcome_refuses rejected_credential observed expected previous = true
outcome_refuses verified observed expected previous = name_refuses observed expected previous
outcome_refuses timeout observed expected previous = previous
outcome_refuses unavailable observed expected previous = previous
outcome_refuses unknown observed expected previous = previous

unfoldable pub refusal_after : IdentityProbe → Text → Bool → Bool
refusal_after p expected previous = outcome_refuses p.outcome p.observed_username expected previous

abbrev diagnostic_of : RemoteProbeOutcome → Option Text
diagnostic_of verified = none
diagnostic_of rejected_credential = some (lit "identity probe rejected credential")
diagnostic_of timeout = some (lit "identity probe timed out")
diagnostic_of unavailable = some (lit "identity probe unavailable")
diagnostic_of unknown = some (lit "identity probe unknown")

unfoldable pub diagnostic : IdentityProbe → Option Text
diagnostic p = diagnostic_of p.outcome

-- The errors of a server call that the probe tells apart: an answer with its status, or another.
pub data ProbeError : Type 0 where
  api : (status : ℕ) → ProbeError
  other_error : ProbeError

unfoldable pub identity_probe_error : ProbeError → RemoteProbeOutcome
identity_probe_error (api status) =
    if (status == 401) || (status == 403) then rejected_credential else unavailable
identity_probe_error other_error = unavailable

-- What the call gave within its budget: a name, an error, or nothing.
pub data Whoami : Type 0 where
  answered : (username : Text) → Whoami
  refused_with : ProbeError → Whoami
  no_answer : Whoami

unfoldable pub probe_identity : Whoami → IdentityProbe
unfolding identity_probe_error
probe_identity (answered username) = record {
  outcome = verified;
  observed_username = some username;
}
probe_identity (refused_with e) = record {
  outcome = identity_probe_error e;
  observed_username = none;
}
probe_identity no_answer = record { outcome = timeout; observed_username = none }

pub data DaemonDisposition : Type 0 where
  healthy degraded_remote identity_refused unresponsive_local : DaemonDisposition

unfoldable pub successful : DaemonDisposition → Bool
successful healthy = true
successful degraded_remote = true
successful identity_refused = false
successful unresponsive_local = false

abbrev is_verified : RemoteProbeOutcome → Bool
is_verified verified = true
is_verified rejected_credential = false
is_verified timeout = false
is_verified unavailable = false
is_verified unknown = false

abbrev is_ready : Option Bool → Bool
is_ready none = false
is_ready (some ready) = ready

unfoldable pub assess_daemon : Bool → IdentityProbe → Text → Bool → Option Bool → DaemonDisposition
unfolding refusal_after
assess_daemon responsive p expected_username refused observation_ready =
    if not responsive
    then unresponsive_local
    else if refused || refusal_after p expected_username false
    then identity_refused
    else if is_verified p.outcome && is_some p.observed_username && is_ready observation_ready
    then healthy
    else degraded_remote

-- The two flags that the gate keeps up to date.
pub record ProbeFlags : Type 0 where
  pub refused : Bool
  pub drifted : Bool

abbrev drift_of : Option Text → Text → Bool → Bool
drift_of none expected previous = previous
drift_of (some name) expected previous =
    if is_empty expected then previous else not (text_beq name expected)

abbrev drift_after : RemoteProbeOutcome → Option Text → Text → Bool → Bool
drift_after verified observed expected previous = drift_of observed expected previous
drift_after rejected_credential observed expected previous = previous
drift_after timeout observed expected previous = previous
drift_after unavailable observed expected previous = previous
drift_after unknown observed expected previous = previous

-- `IdentityProbeGate::probe`: `none` when another probe holds the gate. Both stores of `refused`
-- together store the new value.
unfoldable pub gate_probe : Option Whoami → Text → ProbeFlags → IdentityProbe × ProbeFlags
unfolding refusal_after probe_identity not_probed
gate_probe none expected flags = (not_probed, flags)
gate_probe (some w) expected flags =
    let p = probe_identity w in
    (
      p,
      record {
        refused = refusal_after p expected flags.refused;
        drifted = drift_after p.outcome p.observed_username expected flags.drifted;
      },
    )
