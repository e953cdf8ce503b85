-- ===== src/Observation.antt =====
-- The health of a daemon and its view of the event stream, of crates/chanvoy-core/src/lib.rs.
pub mod Gate
use chanvoy.Base.{
  ℕ, suc, Option, none, some, Bool, true, false, ◌&&◌, ◌||◌, if◌then◌else◌, ltb, is_some, ◌≡◌, ◌↔◌,
  arith,
}
use chanvoy.Base.Int.{ℤ, ltb_ℤ}
use chanvoy.Base.Texts.{Text}

pub data WsConnectionState : Type 0 where
  disconnected connecting healthy degraded : WsConnectionState

pub data DaemonHealthState : Type 0 where
  disconnected_health connecting_health healthy_health degraded_health recovering_health :
      DaemonHealthState

abbrev pub health_of : WsConnectionState → Bool → DaemonHealthState
health_of disconnected recovering = disconnected_health
health_of connecting recovering = connecting_health
health_of degraded recovering = degraded_health
health_of healthy recovering = if recovering then recovering_health else healthy_health

unfoldable pub derive_daemon_health :
    ℤ → Option WsConnectionState → Bool → ℤ → Option DaemonHealthState
derive_daemon_health now_millis none suspected_gap recovering_until_millis = none
derive_daemon_health now_millis (some state) suspected_gap recovering_until_millis =
    some (health_of state (ltb_ℤ now_millis recovering_until_millis || suspected_gap))

abbrev pub is_down : Option WsConnectionState → Bool
is_down none = false
is_down (some disconnected) = true
is_down (some connecting) = false
is_down (some healthy) = false
is_down (some degraded) = true

abbrev pub is_connecting : Option WsConnectionState → Bool
is_connecting none = false
is_connecting (some disconnected) = false
is_connecting (some connecting) = true
is_connecting (some healthy) = false
is_connecting (some degraded) = false

abbrev pub is_recovering : Option DaemonHealthState → Bool
is_recovering none = false
is_recovering (some disconnected_health) = false
is_recovering (some connecting_health) = false
is_recovering (some healthy_health) = false
is_recovering (some degraded_health) = false
is_recovering (some recovering_health) = true

-- `unwrap_or`.
abbrev pub or_false : Option Bool → Bool
or_false none = false
or_false (some b) = b

abbrev pub or_zero : Option ℕ → ℕ
or_zero none = 0
or_zero (some n) = n

abbrev degraded_fallback :
    Option WsConnectionState
    → Option Text
    → Option ℕ
    → Option DaemonHealthState
    → Option Bool
    → Option Bool
    → Bool
degraded_fallback connection_state last_error reconnect_count health suspected_gap
      catchup_in_flight =
    if is_some last_error
    then true
    else if is_down connection_state
    then true
    else ltb 0 (or_zero reconnect_count)
      && (is_connecting connection_state
          || is_recovering health
          || or_false suspected_gap
          || or_false catchup_in_flight)

unfoldable pub current_ws_observation_degraded :
    Option WsConnectionState
    → Option Text
    → Option ℕ
    → Option DaemonHealthState
    → Option Bool
    → Option Bool
    → Option Bool
    → Bool
current_ws_observation_degraded connection_state last_error reconnect_count health suspected_gap
      catchup_in_flight (some closed) =
    closed
current_ws_observation_degraded connection_state last_error reconnect_count health suspected_gap
      catchup_in_flight none =
    degraded_fallback connection_state last_error reconnect_count health suspected_gap
      catchup_in_flight

-- For a daemon without an admission gate that has reconnected and reports the health it derives,
-- observation is open exactly when there is no error, no catch-up, and the health is Healthy.
pub observation_open_iff :
    (now until : ℤ) (state : WsConnectionState) (last_error : Option Text) (reconnects : ℕ)
    (gap catchup : Bool)
    → (current_ws_observation_degraded
          (some state)
          last_error
          (some (suc reconnects))
          (derive_daemon_health now (some state) gap until)
          (some gap)
          (some catchup)
          none
        ≡ false)
      ↔ ((last_error ≡ none)
          × ((catchup ≡ false)
              × (derive_daemon_health now (some state) gap until ≡ some healthy_health)))
unfolding current_ws_observation_degraded derive_daemon_health
observation_open_iff now until disconnected none reconnects gap catchup = ground arith
observation_open_iff now until disconnected (some e) reconnects gap catchup = ground arith
observation_open_iff now until connecting none reconnects gap catchup = ground arith
observation_open_iff now until connecting (some e) reconnects gap catchup = ground arith
observation_open_iff now until healthy none reconnects gap catchup = ground arith
observation_open_iff now until healthy (some e) reconnects gap catchup = ground arith
observation_open_iff now until degraded none reconnects gap catchup = ground arith
observation_open_iff now until degraded (some e) reconnects gap catchup = ground arith
