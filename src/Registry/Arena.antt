-- ===== src/Registry/Arena.antt =====
-- The calls of wait_owner/admission.rs on the registry: reservations, confirmations, and the
-- decision to retire, all under the registry's mutex.
use chanvoy.Base.{ℕ, Result, ok, err, ◌==◌, if◌then◌else◌}
use chanvoy.Base.Actions.{Action}
use chanvoy.Admission.{
  Inventory, Phase, running, retiring, Kind, OwnerToken, Failure, refused, wrong_instance,
}
use chanvoy.Admission.Handles.{
  request_permit, reserve_stream, retain, confirm_done, registration_owner, task_cleanup_pair,
}
use chanvoy.Registry.{Registry, Snapshot, snapshot, is_empty}

pub data RetirementDecision : Type 0 where
  closed already_retiring busy : Snapshot → RetirementDecision

abbrev pub retired : Registry → Registry
retired r = record r { admission = record (r.admission) { phase = retiring } }

abbrev pub retire_phase : Phase → Registry → Result Failure RetirementDecision × Registry
retire_phase retiring r = (ok (already_retiring (snapshot r)), r)
retire_phase running r =
    if is_empty (snapshot r)
    then (ok (closed (snapshot (retired r))), retired r)
    else (ok (busy (snapshot r)), r)

unfoldable pub retire_if_idle : ℕ → Registry → Result Failure RetirementDecision × Registry
retire_if_idle expected r =
    if expected == r.admission.instance_id
    then retire_phase r.admission.phase r
    else (err (refused wrong_instance), r)

-- A call on the inventory inside the registry.
abbrev pub admit_after : {A : Type 0} → Action Inventory Failure A → Registry → Registry
admit_after m r = record r { admission = (m r.admission).1 }

-- Every call that a holder of handles can make.
pub data ArenaCall : Type 0 where
  permit registration cleanup_pair : ArenaCall
  stream_for confirm : OwnerToken → ArenaCall
  into : OwnerToken → Kind → ArenaCall
  retire : ℕ → ArenaCall

unfoldable pub arena_step : ArenaCall → Registry → Registry
arena_step permit r = admit_after request_permit r
arena_step registration r = admit_after registration_owner r
arena_step cleanup_pair r = admit_after task_cleanup_pair r
arena_step (stream_for t) r = admit_after (reserve_stream t) r
arena_step (confirm t) r = admit_after (confirm_done t) r
arena_step (into t k) r = admit_after (retain t k) r
arena_step (retire expected) r = (retire_if_idle expected r).1
