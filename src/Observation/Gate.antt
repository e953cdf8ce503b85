-- ===== src/Observation/Gate.antt =====
-- The admission gate of `WsState`, of crates/chanvoy-core/src/lib.rs. One section under the
-- connection lock, or one store of an atomic field, is one step; `set_state` reads whether the
-- execution is reconnecting before it takes the lock, so that reading is an argument of its step.
use chanvoy.Base.{
  ℕ, ◌+◌, ◌%◌, ◌^◌, List, [], ◌∷◌, Option, none, some, Bool, true, false, not, ◌&&◌, ◌||◌, ◌==◌,
  ==_iff, if◌then◌else◌, is_some, ◌≡◌, refl, inl, inr, arith, Bool-cases, subst,
}
use chanvoy.Base.Int.{ℤ, pos, eqb_ℤ}
use chanvoy.Base.Texts.{Text}
use chanvoy.Observation.{
  WsConnectionState, disconnected, connecting, healthy, degraded, is_down, is_connecting,
}

pub record WsState : Type 0 where
  pub connection_state : WsConnectionState
  pub last_error : Option Text
  pub reconnect_count : ℕ
  pub last_disconnect_at : ℤ
  pub suspected_gap : Bool
  pub recovering_until : ℤ
  pub last_recovered_at : ℤ
  pub catchup_in_flight : Bool
  pub observation_admission_closed : Bool

abbrev pub new : WsState
new = record {
  connection_state = disconnected;
  last_error = none;
  reconnect_count = 0;
  last_disconnect_at = pos 0;
  suspected_gap = false;
  recovering_until = pos 0;
  last_recovered_at = pos 0;
  catchup_in_flight = false;
  observation_admission_closed = true;
}

abbrev pub is_healthy : WsConnectionState → Bool
is_healthy disconnected = false
is_healthy connecting = false
is_healthy healthy = true
is_healthy degraded = false

-- The stores of `set_state` before and after the lock is taken.
unfoldable pub stamp_disconnect : WsConnectionState → ℤ → WsState → WsState
stamp_disconnect disconnected now s = record s { last_disconnect_at = now }
stamp_disconnect connecting now s = s
stamp_disconnect healthy now s = s
stamp_disconnect degraded now s = s

unfoldable pub set_state : WsConnectionState → Bool → WsState → WsState
set_state state reconnecting s = record s {
  connection_state = state;
  last_error = if is_healthy state then none else s.last_error;
  observation_admission_closed =
      if not reconnecting && (is_connecting (some state) || is_healthy state)
      then false
      else if is_down (some state) || (is_connecting (some state) && reconnecting)
      then true
      else s.observation_admission_closed;
}

unfoldable pub set_error : Text → WsState → WsState
set_error msg s = record s { observation_admission_closed = true; last_error = some msg }

unfoldable pub bump_reconnect : WsState → WsState
bump_reconnect s = record s { reconnect_count = (s.reconnect_count + 1) % 2 ^ 64 }

unfoldable pub prepare_authenticated_session : WsState → WsState
prepare_authenticated_session s = record s { catchup_in_flight = true; suspected_gap = false }

abbrev pub stale : ℤ → ℕ → WsState → Bool
stale target reconnect_generation s =
    not (eqb_ℤ s.recovering_until target)
    || not (s.reconnect_count == reconnect_generation)
    || s.catchup_in_flight
    || not (is_healthy s.connection_state)
    || is_some s.last_error

unfoldable pub commit_recovery_open : ℤ → ℕ → ℤ → WsState → WsState
commit_recovery_open target reconnect_generation now s =
    if stale target reconnect_generation s then s else record s {
      last_recovered_at = now;
      suspected_gap = false;
      observation_admission_closed = false;
    }

pub data WsStep : Type 0 where
  stamped : WsConnectionState → ℤ → WsStep
  state_set : (state : WsConnectionState) (reconnecting : Bool) → WsStep
  error_set : Text → WsStep
  bumped prepared : WsStep
  recovery_committed : (target : ℤ) (reconnect_generation : ℕ) (now : ℤ) → WsStep
  window_armed : (target : ℤ) → WsStep
  catchup_set gap_set : Bool → WsStep

unfoldable pub ws_step : WsStep → WsState → WsState
unfolding stamp_disconnect set_state set_error bump_reconnect prepare_authenticated_session
    commit_recovery_open
ws_step (stamped state now) s = stamp_disconnect state now s
ws_step (state_set state reconnecting) s = set_state state reconnecting s
ws_step (error_set msg) s = set_error msg s
ws_step bumped s = bump_reconnect s
ws_step prepared s = prepare_authenticated_session s
ws_step (recovery_committed target reconnect_generation now) s =
    commit_recovery_open target reconnect_generation now s
ws_step (window_armed target) s = record s { recovering_until = target }
ws_step (catchup_set b) s = record s { catchup_in_flight = b }
ws_step (gap_set b) s = record s { suspected_gap = b }

abbrev pub ws_steps : List WsStep → WsState → WsState
ws_steps [] s = s
ws_steps (w ∷ ws) s = ws_steps ws (ws_step w s)

-- What opens a gate that was closed.
pub data Opener (s : WsState) : WsStep → Type 0 where
  cold_start :
      (state : WsConnectionState) → is_down (some state) ≡ false → Opener s (state_set state false)
  recovered :
      (target : ℤ) (now : ℤ)
      → s.connection_state ≡ healthy
      → s.last_error ≡ none
      → s.catchup_in_flight ≡ false
      → eqb_ℤ s.recovering_until target ≡ true
      → Opener s (recovery_committed target s.reconnect_count now)

abbrev Sound : WsState → Type 0
Sound s = (is_down (some s.connection_state) && not s.observation_admission_closed) ≡ false

healthy_up : (c : WsConnectionState) → is_healthy c ≡ true → is_down (some c) ≡ false
healthy_up disconnected h = cc
healthy_up connecting h = refl
healthy_up healthy h = refl
healthy_up degraded h = cc

healthy_eq : (c : WsConnectionState) → is_healthy c ≡ true → c ≡ healthy
healthy_eq disconnected h = cc
healthy_eq connecting h = cc
healthy_eq healthy h = refl
healthy_eq degraded h = cc

ws_step-Sound : (w : WsStep) (s : WsState) → Sound s → Sound (ws_step w s)
unfolding ws_step set_state stamp_disconnect set_error bump_reconnect prepare_authenticated_session
    commit_recovery_open
ws_step-Sound (stamped disconnected now) s h = h
ws_step-Sound (stamped connecting now) s h = h
ws_step-Sound (stamped healthy now) s h = h
ws_step-Sound (stamped degraded now) s h = h
ws_step-Sound (state_set disconnected r) s h = ground arith
ws_step-Sound (state_set connecting r) s h = refl
ws_step-Sound (state_set healthy r) s h = refl
ws_step-Sound (state_set degraded r) s h = ground arith
ws_step-Sound (error_set msg) s h = ground arith
ws_step-Sound bumped s h = h
ws_step-Sound prepared s h = h
ws_step-Sound (recovery_committed target g now) s h = elim (Bool-cases (stale target g s)) [
  | inl e ↦ rw e h
  | inr e ↦ rw e (ground (arith, healthy_up s.connection_state (ground arith)))
]
ws_step-Sound (window_armed target) s h = h
ws_step-Sound (catchup_set b) s h = h
ws_step-Sound (gap_set b) s h = h

ws_steps-Sound : (ws : List WsStep) (s : WsState) → Sound s → Sound (ws_steps ws s)
ws_steps-Sound [] s h = h
ws_steps-Sound (w ∷ ws) s h = ws_steps-Sound ws (ws_step w s) (ws_step-Sound w s h)

opened-Opener :
    (w : WsStep) (s : WsState)
    → s.observation_admission_closed ≡ true
    → (ws_step w s).observation_admission_closed ≡ false
    → Opener s w
unfolding ws_step set_state stamp_disconnect set_error bump_reconnect prepare_authenticated_session
    commit_recovery_open
opened-Opener (stamped disconnected now) s h k = absurd (cc)
opened-Opener (stamped connecting now) s h k = absurd (cc)
opened-Opener (stamped healthy now) s h k = absurd (cc)
opened-Opener (stamped degraded now) s h k = absurd (cc)
opened-Opener (state_set disconnected true) s h k = absurd (cc)
opened-Opener (state_set disconnected false) s h k = absurd (cc)
opened-Opener (state_set connecting true) s h k = absurd (cc)
opened-Opener (state_set connecting false) s h k = cold_start connecting refl
opened-Opener (state_set healthy true) s h k = absurd (cc)
opened-Opener (state_set healthy false) s h k = cold_start healthy refl
opened-Opener (state_set degraded true) s h k = absurd (cc)
opened-Opener (state_set degraded false) s h k = absurd (cc)
opened-Opener (error_set msg) s h k = absurd (cc)
opened-Opener bumped s h k = absurd (cc)
opened-Opener prepared s h k = absurd (cc)
opened-Opener (recovery_committed target g now) s h k = elim (Bool-cases (stale target g s)) [
  | inl e ↦ absurd (ground arith)
  | inr e ↦
      subst (λ n. Opener s (recovery_committed target n now))
        ((==_iff s.reconnect_count g).0 (ground arith))
        (recovered target now (healthy_eq s.connection_state (ground arith))
          (no_error s.last_error (ground arith)) (ground arith) (ground arith))
]
  where
    no_error : (e : Option Text) → is_some e ≡ false → e ≡ none
    no_error none h = refl
    no_error (some t) h = cc
opened-Opener (window_armed target) s h k = absurd (cc)
opened-Opener (catchup_set b) s h k = absurd (cc)
opened-Opener (gap_set b) s h k = absurd (cc)

-- In every order of steps, from the start, the gate is not open while the connection is disconnected
-- or degraded, and a step that opens the closed gate is either a state set by an execution that has
-- not reconnected, or the commit of a recovery for the current window and reconnect count, while the
-- connection is healthy without error or catch-up.
pub gate_opens_only_when_ready :
    (ws : List WsStep) (w : WsStep)
    → (is_down (some (ws_steps ws new).connection_state) ≡ true
        → (ws_steps ws new).observation_admission_closed ≡ true)
      × ((ws_steps ws new).observation_admission_closed ≡ true
          → (ws_step w (ws_steps ws new)).observation_admission_closed ≡ false
          → Opener (ws_steps ws new) w)
gate_opens_only_when_ready ws w =
    let sound = ws_steps-Sound ws new refl in
    (λ h. ground (arith, sound), λ h k. opened-Opener w (ws_steps ws new) h k)
