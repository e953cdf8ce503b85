-- ===== src/Delivery/Armed.antt =====
-- When entries are admitted, in the order of crates/chanvoy-daemon/src/waitprims_hold.rs.
use chanvoy.Base.{
  ℕ, List, [], ◌∷◌, none, some, ok, Bool, ◌≡◌, refl, sym, ap, subst, ◌∙◌, ◌⊎◌, inl, inr,
  Option-cases,
}
use chanvoy.Delivery.{new, admit}
use chanvoy.Delivery.Final.{admitted_gate}
use chanvoy.Delivery.Producer.{Hold, bound, HoldEvent, hold_step, hold_steps}
use chanvoy.Delivery.Unarmed.{ArmedWritten, later, Unarmed, same, hold_step-Unarmed}

hold_steps-Unarmed :
    (es : List HoldEvent) (h h' : Hold)
    → Unarmed h
    → hold_steps es (some h) ≡ some h'
    → ArmedWritten es h ⊎ Unarmed h'
hold_steps-Unarmed [] h h' u r = inr (subst Unarmed (same h h' r) u)
hold_steps-Unarmed (e ∷ es) h h' u r = elim (Option-cases (hold_step e h)) [
  | inl k ↦ absurd (stopped es (sym (ap (hold_steps es) k) ∙ r))
  | inr (g, k) ↦ elim (hold_step-Unarmed e es h g u k) [
    | inl w ↦ inl w
    | inr v ↦ elim (hold_steps-Unarmed es g h' v (sym (ap (hold_steps es) k) ∙ r)) [
      | inl w ↦ inl (later e es h g k w)
      | inr t ↦ inr t
    ]
  ]
]
  where
    stopped : (es : List HoldEvent) → hold_steps es none ≡ some h' → ⊥
    stopped es r = cc

bound-Unarmed : (client_gone : Bool) → Unarmed (bound client_gone)
unfolding new
bound-Unarmed client_gone = record { early = refl; no_receipt = λ r. cc; shut = λ g. cc }

-- From the start of a channel follow, in the order of its producer's calls and with any calls of the
-- connection between them: when `admit` lets an entry through, the armed record was taken from the
-- stream before, and `write_record` answered ok for it.
pub admitted_only_when_armed :
    (client_gone : Bool) (es : List HoldEvent) (h : Hold) (now : ℕ)
    → hold_steps es (some (bound client_gone)) ≡ some h
    → (admit now h.delivery).0 ≡ some (ok tt)
    → ArmedWritten es (bound client_gone)
admitted_only_when_armed client_gone es h now r a =
    elim (hold_steps-Unarmed es (bound client_gone) h (bound-Unarmed client_gone) r) [
      | inl w ↦ w
      | inr u ↦ absurd (u.shut (admitted_gate now h.delivery a).0)
    ]
