-- ===== src/Registry.antt =====
-- The daemon's wait registry: crates/chanvoy-daemon/src/wait_owner.rs, with the snapshot of
-- wait_owner/admission.rs. Everything here is guarded by one mutex, so each function is one locked
-- section. The cancellation token, the acknowledgement flag and the name of the successor of a
-- slot are shared by the slot, its lease and a task that replaces it: they are a cell of a store.
-- The clock and the random wait id enter as arguments.
pub mod Acquire
pub mod Guard
pub mod Arena
pub mod Protocol
pub mod Retirement
pub mod Closure
use chanvoy.Base.{
  ℕ, suc, ◌+◌, List, [], ◌∷◌, Option, none, some, Result, ok, err, Bool, true, false, ◌&&◌, ◌==◌,
  if◌then◌else◌,
}
use chanvoy.Base.Texts.{Text, lit, text_eq}
use chanvoy.Base.Int.{ℤ}
use chanvoy.Base.Maps.{count_values, insert}
use chanvoy.Admission.{Inventory, Phase, Kind, kind_beq, request, stream, cleanup, new}
use chanvoy.Slots.{WaitSlotView}

pub data OwnerKind : Type 0 where
  channel direct inbox : OwnerKind

abbrev pub owner_kind_beq : OwnerKind → OwnerKind → Bool
owner_kind_beq channel channel = true
owner_kind_beq direct direct = true
owner_kind_beq inbox inbox = true
owner_kind_beq _ _ = false

pub record Cell : Type 0 where
  pub cancelled : Bool
  pub cleanup_acked : Bool
  pub replaced_by : Option Text

pub record LiveSlot : Type 0 where
  pub view : WaitSlotView
  pub kind : OwnerKind
  pub cell : ℕ
  pub handoff_pending : Bool

pub record Registry : Type 0 where
  pub admission : Inventory
  pub slots : List (Text × LiveSlot)
  pub next_generation : ℕ
  pub cells : ℕ → Cell
  pub next_cell : ℕ

pub record WaitLease : Type 0 where
  pub channel_id : Text
  pub wait_id : Text
  pub generation : ℕ
  pub replaced_wait_id : Option Text
  pub cell : ℕ

pub data CoreError : Type 0 where
  wait_already_active : (team channel existing_wait_id : Text) (started_at_ms : ℤ) → CoreError
  wait_conflict_changed : (team channel : Text) → CoreError
  wait_replace_unconfirmed : (team channel existing_wait_id : Text) → CoreError
  runtime_admission_closed runtime_ownership_exhausted : CoreError

abbrev pub dm_class_ownership_key : Text
dm_class_ownership_key = lit "dm-class"

abbrev pub dm_class_team : Text
dm_class_team = lit "direct"

abbrev pub dm_class_channel : Text
dm_class_channel = lit "inbox"

abbrev pub new_cell : Cell
new_cell = record { cancelled = false; cleanup_acked = false; replaced_by = none }

abbrev pub write : (ℕ → Cell) → ℕ → Cell → ℕ → Cell
write cells p c q = if q == p then c else cells q

unfoldable pub for_instance : ℕ → Registry
for_instance i = record {
  admission = new i;
  slots = [];
  next_generation = 1;
  cells = λ p. new_cell;
  next_cell = 0;
}

pub record Snapshot : Type 0 where
  pub instance_id : ℕ
  pub phase : Phase
  pub requests : ℕ
  pub streams : ℕ
  pub slots : ℕ
  pub replacements : ℕ
  pub cleanup : ℕ

unfoldable pub snapshot : Registry → Snapshot
snapshot r = record {
  instance_id = r.admission.instance_id;
  phase = r.admission.phase;
  requests = count_values (kind_beq request) r.admission.owners;
  streams = count_values (kind_beq stream) r.admission.owners;
  slots = count_values (λ s. true) r.slots;
  replacements = count_values (λ s. s.handoff_pending) r.slots;
  cleanup = count_values (kind_beq cleanup) r.admission.owners;
}

unfoldable pub is_empty : Snapshot → Bool
is_empty s =
    (s.requests == 0)
    && (s.streams == 0)
    && (s.slots == 0)
    && (s.replacements == 0)
    && (s.cleanup == 0)
