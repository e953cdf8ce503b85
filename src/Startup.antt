-- ===== src/Startup.antt =====
-- Provider work that the daemon starts, of crates/chanvoy-daemon/src/startup_work.rs: the owners
-- that `spawn` takes and the collector returns. Each call on the inventory is one locked section.
pub mod Owners
use chanvoy.Base.{Option, none, some, Result, ok, err, Bool, true, false}
use chanvoy.Admission.{
  Inventory, OwnerToken, Failure, refused, panicked, AdmissionError, closed, exhausted,
  wrong_instance, owner_changed,
}
use chanvoy.Admission.Handles.{request_permit, task_cleanup_pair, confirm_done}

-- `DaemonError`, from an admission call or from the work.
pub data StartupError : Type 0 where
  admission_error : Failure → StartupError
  work_failed : StartupError

pub record StartupOwners : Type 0 where
  pub request_owner : OwnerToken
  pub child_owner : OwnerToken
  pub collector_owner : OwnerToken

abbrev pub Spawned : Type 0
Spawned = Result StartupError (Option StartupOwners) × Inventory

-- Neither child nor factory exists yet: the request is confirmed, and the error returned.
abbrev pub after_unstarted : Failure → Result Failure (Unit {0}) × Inventory → Spawned
after_unstarted f (ok u, i) = (err (admission_error f), i)
after_unstarted f (err g, i) = (err (admission_error g), i)

abbrev pub after_pair : OwnerToken → Result Failure (OwnerToken × OwnerToken) × Inventory → Spawned
after_pair r (ok (child, collector), i) =
    (ok (some (record { request_owner = r; child_owner = child; collector_owner = collector })), i)
after_pair r (err f, i) = after_unstarted f (confirm_done r i)

abbrev pub after_permit : Result Failure OwnerToken × Inventory → Spawned
after_permit (ok r, i) = after_pair r (task_cleanup_pair i)
after_permit (err (refused closed), i) = (ok none, i)
after_permit (err (refused exhausted), i) = (err (admission_error (refused exhausted)), i)
after_permit (err (refused wrong_instance), i) = (err (admission_error (refused wrong_instance)), i)
after_permit (err (refused owner_changed), i) = (err (admission_error (refused owner_changed)), i)
after_permit (err panicked, i) = (err (admission_error panicked), i)

-- `none` is the answer `Ok(false)`.
unfoldable pub spawn : Inventory → Spawned
spawn i = after_permit (request_permit i)

abbrev Collected : Type 0
Collected = Result StartupError (Unit {0}) × Inventory

abbrev map_admission : Result Failure (Unit {0}) × Inventory → Collected
map_admission (ok u, i) = (ok tt, i)
map_admission (err f, i) = (err (admission_error f), i)

-- `Result::and`.
abbrev and :
    Result StartupError (Unit {0}) → Result StartupError (Unit {0}) → Result StartupError (Unit {0})
and (ok u) second = second
and (err e) second = err e

-- Unknown work retains its request.
abbrev after_work : Bool → OwnerToken → Inventory → Collected
after_work true r i = map_admission (confirm_done r i)
after_work false r i = (err work_failed, i)

abbrev after_collector : Result StartupError (Unit {0}) → Collected → Collected
after_collector outcome (collected, i) = (and outcome collected, i)

-- An ownership mismatch cannot release the collector's owner.
abbrev after_child : Result StartupError (Unit {0}) → OwnerToken → Collected → Collected
after_child outcome collector (ok u, i) =
    after_collector outcome (map_admission (confirm_done collector i))
after_child outcome collector (err e, i) = (and outcome (err e), i)

abbrev after_outcome : StartupOwners → Collected → Collected
after_outcome o (outcome, i) =
    after_child outcome o.collector_owner (map_admission (confirm_done o.child_owner i))

-- The collector's task, after the child ended with or without an error.
unfoldable pub collect : Bool → StartupOwners → Inventory → Collected
collect worked o i = after_outcome o (after_work worked o.request_owner i)
