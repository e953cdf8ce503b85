-- ===== src/Examples/Recovery.antt =====
-- Probes of an agent named ann.
use chanvoy.Base.{arith, [], ◌∷◌, none, some, true, false, ◌≡◌, ◌≢◌, refl, ◌↔◌}
use chanvoy.Base.Texts.{Text, lit}
use chanvoy.Recovery.{
  answered, refused_with, no_answer, api, ProbeFlags, probe_identity, assess_daemon, healthy,
}
use chanvoy.Recovery.Refusal.{gate_probes, refusal_stands, assess_daemon-healthy}

abbrev refused_flags : ProbeFlags
refused_flags = record { refused = true; drifted = false }

refusal_stands_example :
    (gate_probes (lit "ann") refused_flags (
      some no_answer
      ∷ none
      ∷ some (refused_with (api 403))
      ∷ some (answered (lit "bob"))
      ∷ [])).refused
    ≡ true
refusal_stands_example =
    refusal_stands (lit "ann") refused_flags
      (some no_answer ∷ none ∷ some (refused_with (api 403)) ∷ some (answered (lit "bob")) ∷ [])
      refl ((λ h. cc), ((λ h. cc), ((λ h. cc), ((λ h. ground arith), tt))))

assess_daemon-healthy_example :
    (assess_daemon true (probe_identity (answered (lit "ann"))) (lit "ann") false (some true)
      ≡ healthy)
    ↔ ((true ≡ true)
        × ((false ≡ false)
            × ((some true ≡ some true)
                × ((name : Text) × ((answered (lit "ann") ≡ answered name)
                      × (lit "ann" ≢ [] → name ≡ lit "ann"))))))
assess_daemon-healthy_example =
    assess_daemon-healthy true false (answered (lit "ann")) (lit "ann") (some true)
