-- ===== src/Slots/Decisions.antt =====
-- What each decision of wait_registry.rs means, on every branch.
use chanvoy.Base.{ℕ, ◌≡◌, ◌↔◌, Option, some, true, false, arith}
use chanvoy.Base.Texts.{Text, text_beq_iff}
use chanvoy.Base.Int.{ℤ}
use chanvoy.Slots.{
  WaitSlotView, WaitAcquireIntent, replace, begin_replace, wait_id_well_formed, decide_acquire,
}

-- A replacement begins exactly when the slot is held under the exact, well-formed id of the
-- request and no other replacement is under way.
pub decide_acquire-begin_replace :
    (current : Option WaitSlotView) (intent : WaitAcquireIntent) (next : ℕ) (now : ℤ) (fresh : Text)
    (slot : WaitSlotView) (wait_id : Text)
    → current ≡ some slot
    → intent ≡ replace wait_id
    → (decide_acquire current intent next now fresh
        ≡ begin_replace slot.wait_id slot.generation fresh next now)
      ↔ ((wait_id_well_formed wait_id ≡ true) × (slot.wait_id ≡ wait_id) × (slot.replacing ≡ false))
unfolding decide_acquire
decide_acquire-begin_replace current intent next now fresh slot wait_id p q =
    ground (arith, text_beq_iff slot.wait_id wait_id)
