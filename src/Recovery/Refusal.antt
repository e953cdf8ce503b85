-- ===== src/Recovery/Refusal.antt =====
-- How a refusal of identity stands over a sequence of probes, and what an assessment needs.
use chanvoy.Base.{
  List, [], ◌∷◌, Option, none, some, Bool, true, false, ◌≡◌, ◌≢◌, refl, ◌↔◌, arith, All, Bool-cases,
  inl, inr, ap, ◌∙◌,
}
use chanvoy.Base.Texts.{Text, text_beq, text_beq_iff}
use chanvoy.Recovery.{
  Whoami, answered, refused_with, no_answer, probe_identity, ProbeFlags, gate_probe,
  identity_probe_error, refusal_after, assess_daemon, healthy,
}

-- The flags after a sequence of calls on the gate, of which some find it held.
abbrev pub gate_probes : Text → ProbeFlags → List (Option Whoami) → ProbeFlags
gate_probes expected flags [] = flags
gate_probes expected flags (w ∷ ws) = gate_probes expected (gate_probe w expected flags).1 ws

gate_probe-refused :
    (expected : Text) (w : Option Whoami) (flags : ProbeFlags)
    → w ≢ some (answered expected)
    → flags.refused ≡ true
    → (gate_probe w expected flags).1.refused ≡ true
unfolding gate_probe refusal_after probe_identity identity_probe_error
gate_probe-refused expected none flags h r = r
gate_probe-refused expected (some (answered name)) flags h r =
    elim (Bool-cases (text_beq name expected)) [
      | inl b ↦ absurd (h (ap (λ n. some (answered n)) ((text_beq_iff name expected).0 b)))
      | inr b ↦ ground arith
    ]
gate_probe-refused expected (some (refused_with e)) flags h r = ground arith
gate_probe-refused expected (some no_answer) flags h r = r

-- A refusal stands through every sequence of calls on the gate in which the server never answers
-- with the expected name.
pub refusal_stands :
    (expected : Text) (flags : ProbeFlags) (ws : List (Option Whoami))
    → flags.refused ≡ true
    → All (λ w. w ≢ some (answered expected)) ws
    → (gate_probes expected flags ws).refused ≡ true
refusal_stands expected flags [] r h = r
refusal_stands expected flags (w ∷ ws) r h =
    refusal_stands expected (gate_probe w expected flags).1 ws
      (gate_probe-refused expected w flags h.0 r) h.1

abbrev answer_of : Text → Whoami → Text
answer_of default (answered name) = name
answer_of default (refused_with e) = default
answer_of default no_answer = default

-- The daemon is assessed as healthy exactly when it is responsive, not refused, its observation is
-- ready, and the server answered with a name that is the expected one if one is expected.
pub assess_daemon-healthy :
    (responsive refused : Bool) (w : Whoami) (expected : Text) (ready : Option Bool)
    → (assess_daemon responsive (probe_identity w) expected refused ready ≡ healthy) ↔ (
        (responsive ≡ true)
        × ((refused ≡ false)
            × ((ready ≡ some true)
                × ((name : Text) × ((w ≡ answered name) × (expected ≢ [] → name ≡ expected))))))
unfolding assess_daemon refusal_after probe_identity identity_probe_error
assess_daemon-healthy responsive refused (answered name) [] ready = (
  λ h. (ground arith, (ground arith, (ground arith, (name, (refl, λ e. absurd (e refl)))))),
  λ k. ground arith,
)
assess_daemon-healthy responsive refused (answered name) (c ∷ cs) ready = (
  λ h. (
    ground arith,
    (ground arith, (ground arith, (name, (refl, λ e. ground (arith, text_beq_iff name (c ∷ cs)))))),
  ),
  λ k.
      ground (
        arith,
        text_beq_iff name (c ∷ cs),
        ap (answer_of name) k.1.1.1.1.0 ∙ k.1.1.1.1.1 (λ e. cc),
      ),
)
assess_daemon-healthy responsive refused (refused_with e) expected ready =
    (λ h. absurd (ground arith), λ k. ground arith)
assess_daemon-healthy responsive refused no_answer expected ready =
    (λ h. absurd (ground arith), λ k. ground arith)
