-- ===== src/Registry/Acquire.antt =====
-- `acquire_kind`, cut at its lock boundaries: the first locked section decides and either installs
-- or reserves; then the old owner is cancelled and its cleanup awaited; then the second locked
-- section installs. `abandon_handoff` also runs when the acquiring task is dropped.
use chanvoy.Base.{
  ℕ, ◌+◌, List, [], ◌∷◌, Option, none, some, Result, ok, err, Bool, true, false, ◌&&◌, ◌==◌,
  if◌then◌else◌, checked_suc,
}
use chanvoy.Base.Texts.{Text, text_eq}
use chanvoy.Base.Int.{ℤ}
use chanvoy.Base.Maps.{lookup, insert, remove}
use chanvoy.Admission.{running, retiring, Phase}
use chanvoy.Slots.{
  WaitSlotView, WaitAcquireIntent, default, replace, WaitAcquireDecision, admit, refuse_active,
  conflict_changed, begin_replace, decide_acquire, can_install_replacement,
}
use chanvoy.Registry.{
  OwnerKind, channel, direct, inbox, owner_kind_beq, LiveSlot, Registry, WaitLease, CoreError,
  wait_already_active, wait_conflict_changed, wait_replace_unconfirmed, runtime_admission_closed,
  runtime_ownership_exhausted, dm_class_team, dm_class_channel, new_cell, write,
}

-- The arguments of `acquire_kind`.
pub record Request : Type 0 where
  pub channel_id : Text
  pub team : Text
  pub channel_name : Text
  pub replace_wait_id : Option Text
  pub kind : OwnerKind

-- What a task keeps of a replacement that it has reserved.
pub record Handoff : Type 0 where
  pub old_wait_id : Text
  pub old_generation : ℕ
  pub new_wait_id : Text
  pub new_generation : ℕ
  pub started_at_ms : ℤ
  pub cell : ℕ

pub data Prepared : Type 0 where
  ready : WaitLease → Prepared
  replacing : Handoff → Prepared

abbrev pub find_kind : OwnerKind → List (Text × LiveSlot) → Option LiveSlot
find_kind k [] = none
find_kind k ((c, s) ∷ m) = if owner_kind_beq s.kind k then some s else find_kind k m

abbrev active_error : LiveSlot → CoreError
active_error s =
    wait_already_active dm_class_team dm_class_channel s.view.wait_id s.view.started_at_ms

abbrev inbox_error : Option LiveSlot → Option CoreError
inbox_error none = none
inbox_error (some s) = some (active_error s)

abbrev direct_error : Option LiveSlot → Option Text → Option CoreError
direct_error none replace_wait_id = none
direct_error (some s) none = some (active_error s)
direct_error (some s) (some wait_id) = some (wait_conflict_changed dm_class_team dm_class_channel)

unfoldable pub inbox_blocks_direct : Registry → Option CoreError
inbox_blocks_direct r = inbox_error (find_kind inbox r.slots)

unfoldable pub direct_blocks_inbox : Option Text → Registry → Option CoreError
direct_blocks_inbox replace_wait_id r = direct_error (find_kind direct r.slots) replace_wait_id

-- The same two checks inside the first locked section.
abbrev pub class_conflict : Registry → OwnerKind → Option Text → Option CoreError
class_conflict r channel replace_wait_id = none
class_conflict r direct replace_wait_id = inbox_error (find_kind inbox r.slots)
class_conflict r inbox replace_wait_id = direct_error (find_kind direct r.slots) replace_wait_id

abbrev pub intent_of : Option Text → WaitAcquireIntent
intent_of none = default
intent_of (some wait_id) = replace wait_id

abbrev pub view_of : Option LiveSlot → Option WaitSlotView
view_of none = none
view_of (some s) = some s.view

unfoldable pub install_locked :
    Registry → Text → Text → ℕ → ℤ → Option Text → OwnerKind → WaitLease × Registry
install_locked r channel_id wait_id generation started_at_ms replaced_wait_id kind = (
  record {
    channel_id = channel_id;
    wait_id = wait_id;
    generation = generation;
    replaced_wait_id = replaced_wait_id;
    cell = r.next_cell;
  },
  record r {
    slots =
        insert channel_id
          (record {
            view = record {
              wait_id = wait_id;
              generation = generation;
              started_at_ms = started_at_ms;
              replacing = false;
            };
            kind = kind;
            cell = r.next_cell;
            handoff_pending = false;
          })
          r.slots;
    cells = write r.cells r.next_cell new_cell;
    next_cell = r.next_cell + 1;
  },
)

abbrev pub mark_replacing : LiveSlot → LiveSlot
mark_replacing s = record s { view = record (s.view) { replacing = true }; handoff_pending = true }

abbrev admit_next :
    Option ℕ → Registry → Request → Text → ℕ → ℤ → Result CoreError Prepared × Registry
admit_next none r q wait_id generation now = (err runtime_ownership_exhausted, r)
admit_next (some next) r q wait_id generation now =
    let (lease, r') =
      install_locked (record r { next_generation = next }) q.channel_id wait_id generation now none
        q.kind in
    (ok (ready lease), r')

abbrev reserve_slot :
    Option LiveSlot → Registry → Request → Handoff → Result CoreError Prepared × Registry
reserve_slot none r q h = (err (wait_conflict_changed q.team q.channel_name), r)
reserve_slot (some s) r q h = (
  ok (replacing (record h { cell = s.cell })),
  record r {
    slots = insert q.channel_id (mark_replacing s) r.slots;
    cells = write r.cells s.cell (record (r.cells s.cell) { replaced_by = some h.new_wait_id });
  },
)

abbrev reserve_next : Option ℕ → Registry → Request → Handoff → Result CoreError Prepared × Registry
reserve_next none r q h = (err runtime_ownership_exhausted, r)
reserve_next (some next) r q h =
    reserve_slot (lookup q.channel_id r.slots) (record r { next_generation = next }) q h

abbrev prepare_decided :
    WaitAcquireDecision → Registry → Request → Result CoreError Prepared × Registry
prepare_decided (admit wait_id generation now) r q =
    admit_next (checked_suc generation) r q wait_id generation now
prepare_decided (refuse_active existing started) r q =
    (err (wait_already_active q.team q.channel_name existing started), r)
prepare_decided conflict_changed r q = (err (wait_conflict_changed q.team q.channel_name), r)
prepare_decided (begin_replace old_id old_generation new_id new_generation now) r q =
    reserve_next (checked_suc new_generation) r q (record {
      old_wait_id = old_id;
      old_generation = old_generation;
      new_wait_id = new_id;
      new_generation = new_generation;
      started_at_ms = now;
      cell = 0;
    })

abbrev prepare_unblocked :
    Option CoreError → Registry → Request → ℤ → Text → Result CoreError Prepared × Registry
prepare_unblocked (some e) r q now fresh = (err e, r)
prepare_unblocked none r q now fresh =
    prepare_decided
      (decide_acquire (view_of (lookup q.channel_id r.slots)) (intent_of q.replace_wait_id)
        r.next_generation now fresh)
      r q

abbrev prepare_phase : Phase → Registry → Request → ℤ → Text → Result CoreError Prepared × Registry
prepare_phase retiring r q now fresh = (err runtime_admission_closed, r)
prepare_phase running r q now fresh =
    prepare_unblocked (class_conflict r q.kind q.replace_wait_id) r q now fresh

-- The first locked section of `acquire_kind`.
unfoldable pub acquire_prepare :
    Registry → Request → ℤ → Text → Result CoreError Prepared × Registry
unfolding install_locked
acquire_prepare r q now fresh = prepare_phase r.admission.phase r q now fresh

unfoldable pub cancel_cell : Registry → ℕ → Registry
cancel_cell r p = record r { cells = write r.cells p (record (r.cells p) { cancelled = true }) }

abbrev clear_pending : Option LiveSlot → Text → ℕ → List (Text × LiveSlot) → List (Text × LiveSlot)
clear_pending none c g m = m
clear_pending (some s) c g m =
    if s.view.generation == g then insert c (record s { handoff_pending = false }) m else m

abbrev has_generation : Option LiveSlot → ℕ → Bool
has_generation none g = false
has_generation (some s) g = s.view.generation == g

abbrev is_acked : Option LiveSlot → Registry → Bool
is_acked none r = false
is_acked (some s) r = (r.cells s.cell).cleanup_acked

unfoldable pub abandon_handoff : Registry → Text → ℕ → Registry
abandon_handoff r c g =
    let acked = has_generation (lookup c r.slots) g && is_acked (lookup c r.slots) r in
    let cleared = clear_pending (lookup c r.slots) c g r.slots in
    record r {
      slots = if acked && has_generation (lookup c cleared) g then remove c cleared else cleared;
    }

abbrev install_allowed : Bool → Registry → Request → Handoff → Result CoreError WaitLease × Registry
install_allowed false r q h = (
  err (wait_replace_unconfirmed q.team q.channel_name h.old_wait_id),
  record r {
    slots = clear_pending (lookup q.channel_id r.slots) q.channel_id h.old_generation r.slots;
  },
)
install_allowed true r q h =
    let (lease, r') =
      install_locked r q.channel_id h.new_wait_id h.new_generation h.started_at_ms
        (some h.old_wait_id) q.kind in
    (ok lease, r')

abbrev install_phase : Phase → Registry → Request → Handoff → Result CoreError WaitLease × Registry
install_phase retiring r q h = (err runtime_admission_closed, r)
install_phase running r q h =
    install_allowed
      (can_install_replacement (view_of (lookup q.channel_id r.slots)) h.old_generation
        h.new_generation)
      r q h

-- The second locked section of `acquire_kind`, after the old owner has acknowledged its cleanup.
unfoldable pub acquire_install :
    Registry → Request → Handoff → Result CoreError WaitLease × Registry
unfolding install_locked
acquire_install r q h = install_phase r.admission.phase r q h
