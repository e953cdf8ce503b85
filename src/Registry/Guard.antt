-- ===== src/Registry/Guard.antt =====
-- The end of a wait: the guard's completion, which is two locked sections, and the cancellation of
-- every wait.
use chanvoy.Base.{
  ℕ, List, [], ◌∷◌, Option, none, some, Bool, true, false, ◌&&◌, ◌||◌, ◌==◌, if◌then◌else◌,
}
use chanvoy.Base.Texts.{Text, text_eq}
use chanvoy.Base.Maps.{lookup, remove}
use chanvoy.Slots.{should_release}
use chanvoy.Registry.{Cell, LiveSlot, Registry, write}

abbrev observe_slot : Option LiveSlot → ℕ → Bool
observe_slot none g = false
observe_slot (some s) g = (s.view.generation == g) && s.handoff_pending

-- The first locked section: was a handoff pending on this generation?
unfoldable pub observe_pending : Registry → Text → ℕ → Bool
observe_pending r c g = observe_slot (lookup c r.slots) g

abbrev pub set_acked : (ℕ → Cell) → ℕ → ℕ → Cell
set_acked cells p = write cells p (record (cells p) { cleanup_acked = true })

abbrev complete_slot : Option LiveSlot → Registry → Text → ℕ → Bool → Registry
complete_slot none r c g observed = r
complete_slot (some s) r c g observed =
    if s.view.generation == g
    then (if s.handoff_pending
        then record r { cells = set_acked r.cells s.cell }
        else (if observed || should_release (some s.view) g
            then record r { slots = remove c r.slots }
            else r))
    else r

-- The second locked section, and the guard's own acknowledgement, stored under the same lock.
unfoldable pub complete_guard : Registry → Text → ℕ → ℕ → Bool → Registry
unfolding should_release
complete_guard r c g own observed =
    let r' = complete_slot (lookup c r.slots) r c g observed in
    record r' { cells = set_acked r'.cells own }

abbrev pub cancel_slots : List (Text × LiveSlot) → (ℕ → Cell) → ℕ → Cell
cancel_slots [] cells = cells
cancel_slots ((c, s) ∷ m) cells =
    cancel_slots m (write cells s.cell (record (cells s.cell) { cancelled = true }))

unfoldable pub cancel_all : Registry → Registry
cancel_all r = record r { cells = cancel_slots r.slots r.cells }
