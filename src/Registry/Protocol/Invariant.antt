-- ===== src/Registry/Protocol/Invariant.antt =====
-- The invariant of the shared registry.
use chanvoy.Base.{ℕ, ◌≡◌, ◌≢◌, ◌<◌, Option, none, some, true, false}
use chanvoy.Base.Texts.{Text, text_eq}
use chanvoy.Base.Maps.{lookup}
use chanvoy.Registry.{LiveSlot, Registry, WaitLease}
use chanvoy.Registry.Acquire.{Request, Handoff}
use chanvoy.Registry.Protocol.{Task, idle, begun, waiting, confirmed, failed, holding, World}

-- A guard that is not complete owns the slot of its channel.
pub record Owns (r : Registry) (l : WaitLease) : Type 0 where
  pub slot : LiveSlot
  pub found : lookup l.channel_id r.slots ≡ some slot
  pub generation : slot.view.generation ≡ l.generation
  pub cell : slot.cell ≡ l.cell
  pub not_acked : (r.cells l.cell).cleanup_acked ≡ false

-- A reserved replacement: its generation is new, and its cell is that of the slot it replaces.
pub record Reserved (r : Registry) (q : Request) (h : Handoff) : Type 0 where
  pub ordered : h.old_generation < h.new_generation
  pub taken : h.new_generation < r.next_generation
  pub allocated : h.cell < r.next_cell
  pub unused :
      (k : Text) (s : LiveSlot) → lookup k r.slots ≡ some s → s.view.generation ≢ h.new_generation
  pub same_cell :
      (s : LiveSlot)
      → lookup q.channel_id r.slots ≡ some s
      → s.view.generation ≡ h.old_generation
      → s.cell ≡ h.cell

pub data TaskOk (r : Registry) : Task → Type 0 where
  idle_ok : TaskOk r idle
  begun_ok : {q : Request} {h : Handoff} → Reserved r q h → TaskOk r (begun q h)
  waiting_ok : {q : Request} {h : Handoff} → Reserved r q h → TaskOk r (waiting q h)
  confirmed_ok :
      {q : Request} {h : Handoff}
      → Reserved r q h
      → (r.cells h.cell).cleanup_acked ≡ true
      → TaskOk r (confirmed q h)
  failed_ok : {q : Request} {h : Handoff} → Reserved r q h → TaskOk r (failed q h)
  holding_ok : {l : WaitLease} → Owns r l → TaskOk r (holding l)

-- What two tasks may not share.
abbrev pub reserved_of : Task → Option Handoff
reserved_of idle = none
reserved_of (begun q h) = some h
reserved_of (waiting q h) = some h
reserved_of (confirmed q h) = some h
reserved_of (failed q h) = some h
reserved_of (holding l) = none

abbrev pub lease_of : Task → Option WaitLease
lease_of (holding l) = some l
lease_of _ = none

pub record Apart (x y : Task) : Type 0 where
  pub leases : (l m : WaitLease) → lease_of x ≡ some l → lease_of y ≡ some m → l.cell ≢ m.cell
  pub handoffs :
      (h k : Handoff)
      → reserved_of x ≡ some h
      → reserved_of y ≡ some k
      → (h.new_generation ≢ k.new_generation)
        × (h.old_generation ≢ k.new_generation)
        × (k.old_generation ≢ h.new_generation)

pub record SlotsOk (r : Registry) : Type 0 where
  pub generations :
      (k : Text) (s : LiveSlot) → lookup k r.slots ≡ some s → s.view.generation < r.next_generation
  pub cells : (k : Text) (s : LiveSlot) → lookup k r.slots ≡ some s → s.cell < r.next_cell

pub record Inv (w : World) : Type 0 where
  pub slots : SlotsOk w.registry
  pub each : (t : ℕ) → TaskOk w.registry (w.tasks t)
  pub pairs : (t u : ℕ) → t ≢ u → Apart (w.tasks t) (w.tasks u)
