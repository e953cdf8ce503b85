-- ===== src/Examples/Startup.antt =====
-- Startup work on an empty inventory.
use chanvoy.Base.{
  ℕ, ◌≡◌, refl, none, some, ok, true, [], ◌∷◌, if◌then◌else◌, ◌==◌, ◌&&◌, arith, nat_eq,
}
use chanvoy.Base.Maps.{lookup, insert}
use chanvoy.Admission.{
  Inventory, running, request, cleanup, OwnerToken, new, Kind, reserve, transfer, validate,
  ensure_running,
}
use chanvoy.Admission.Bounds.{new-IsValid}
use chanvoy.Admission.Handles.{request_permit, task_cleanup_pair}
use chanvoy.Startup.{StartupOwners, spawn, collect}
use chanvoy.Startup.Owners.{SpawnOutcome, spawn-SpawnOutcome, collect_lem}

spawn-SpawnOutcome_example : SpawnOutcome (new 7) (spawn (new 7))
spawn-SpawnOutcome_example = spawn-SpawnOutcome (new 7) (new-IsValid 7)

abbrev owner : ℕ → Kind → OwnerToken
owner n k = record { instance_id = 7; sequence = n; kind = k }

abbrev work_owners : StartupOwners
work_owners = record {
  request_owner = owner 1 request;
  child_owner = owner 2 cleanup;
  collector_owner = owner 3 cleanup;
}

abbrev working : Inventory
working = record {
  instance_id = 7;
  phase = running;
  next_owner = some 4;
  owners = (1, request) ∷ (2, cleanup) ∷ (3, cleanup) ∷ [];
}

work_starts : spawn (new 7) ≡ (ok (some work_owners), working)
unfolding spawn request_permit task_cleanup_pair new reserve transfer validate ensure_running lookup
    insert
work_starts = refl

collect_lem_example :
    ((collect true work_owners working).0 ≡ ok tt)
    × ((n : ℕ)
        → lookup n (collect true work_owners working).1.owners ≡ (
            if n == 2
            then none
            else if n == 3
            then none
            else if true && (n == 1)
            then none
            else lookup n working.owners))
unfolding lookup
collect_lem_example =
    collect_lem true work_owners working (refl, refl) (refl, refl) (refl, refl) (λ h. omega arith)
      (λ h. omega arith) (λ h. omega arith)
