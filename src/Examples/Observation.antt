-- ===== src/Examples/Observation.antt =====
-- A daemon that has reconnected once and is still in its grace period.
use chanvoy.Base.{List, [], ◌∷◌, some, true, false, ◌≡◌}
use chanvoy.Base.Int.{pos}
use chanvoy.Base.Texts.{lit}
use chanvoy.Observation.Gate
use chanvoy.Observation.Gate.{
  WsStep, state_set, error_set, recovery_committed, ws_step, ws_steps, Opener,
  gate_opens_only_when_ready,
}
use chanvoy.Observation.{connecting, is_down, healthy}

abbrev cold_connected : List WsStep
cold_connected =
    state_set connecting false ∷ state_set healthy false ∷ error_set (lit "closed") ∷ []

gate_opens_only_when_ready_example :
    (is_down (some (ws_steps cold_connected Gate.new).connection_state) ≡ true
      → (ws_steps cold_connected Gate.new).observation_admission_closed ≡ true)
    × ((ws_steps cold_connected Gate.new).observation_admission_closed ≡ true
        → (ws_step
            (recovery_committed (pos 9) 0 (pos 10))
            (ws_steps cold_connected Gate.new)).observation_admission_closed
          ≡ false
        → Opener (ws_steps cold_connected Gate.new) (recovery_committed (pos 9) 0 (pos 10)))
gate_opens_only_when_ready_example =
    gate_opens_only_when_ready cold_connected (recovery_committed (pos 9) 0 (pos 10))
