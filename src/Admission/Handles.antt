-- ===== src/Admission/Handles.antt =====
-- `RequestPermit`, `RetainedOwner` and the reservations of wait_owner/admission.rs. Each is one
-- locked section. A handle is its token: dropping it changes nothing.
use chanvoy.Base.{ℕ, Option, none, some, Result, ok, err, checked_suc}
use chanvoy.Base.Actions.{Action, ◌>>=◌, ◌>>◌, pure, check}
use chanvoy.Admission.{
  Inventory, Kind, stream, cleanup, OwnerToken, Failure, refused, exhausted, ensure_running,
  reserve, validate, transfer, release,
}
use chanvoy.Admission.Evolution.{
  Keeps, >>=-Keeps, check-Keeps, reserve-Keeps, transfer-Keeps, release-Keeps, pure-Keeps,
  validate-NoPanic, ensure_running-NoPanic, NoPanic,
}

unfoldable pub request_permit : Action Inventory Failure OwnerToken
request_permit = reserve

unfoldable pub reserve_stream : OwnerToken → Action Inventory Failure OwnerToken
reserve_stream parent = do check (validate parent); token ← reserve; transfer token stream

-- `into_stream` and `into_cleanup` of both handles.
unfoldable pub retain : OwnerToken → Kind → Action Inventory Failure OwnerToken
retain token kind = transfer token kind

unfoldable pub confirm_done : OwnerToken → Action Inventory Failure (Unit {0})
confirm_done token = release token

unfoldable pub registration_owner : Action Inventory Failure OwnerToken
registration_owner = do token ← reserve; transfer token stream

abbrev second_sequence : Option ℕ → Option ℕ
second_sequence none = none
second_sequence (some n) = checked_suc n

abbrev has_capacity : Option ℕ → Result Failure (Unit {0})
has_capacity none = err (refused exhausted)
has_capacity (some n) = ok tt

unfoldable pub task_cleanup_pair : Action Inventory Failure (OwnerToken × OwnerToken)
task_cleanup_pair = do
  check ensure_running
  check (λ i. has_capacity (second_sequence i.next_owner))
  child ← reserve
  child' ← transfer child cleanup
  collector ← reserve
  collector' ← transfer collector cleanup
  pure (child', collector')

has_capacity-NoPanic : (o : Option ℕ) → NoPanic (has_capacity o)
has_capacity-NoPanic none = tt
has_capacity-NoPanic (some n) = tt

pub request_permit-Keeps : Keeps request_permit
unfolding request_permit
request_permit-Keeps = reserve-Keeps

pub registration_owner-Keeps : Keeps registration_owner
unfolding registration_owner
registration_owner-Keeps = >>=-Keeps reserve _ reserve-Keeps (λ t. transfer-Keeps t stream)

pub reserve_stream-Keeps : (parent : OwnerToken) → Keeps (reserve_stream parent)
unfolding reserve_stream
reserve_stream-Keeps parent =
    >>=-Keeps (check (validate parent)) _ (check-Keeps (validate parent) (validate-NoPanic parent))
      (λ _. >>=-Keeps reserve _ reserve-Keeps (λ t. transfer-Keeps t stream))

pub retain-Keeps : (t : OwnerToken) (k : Kind) → Keeps (retain t k)
unfolding retain
retain-Keeps t k = transfer-Keeps t k

pub confirm_done-Keeps : (t : OwnerToken) → Keeps (confirm_done t)
unfolding confirm_done
confirm_done-Keeps t = release-Keeps t

pub task_cleanup_pair-Keeps : Keeps task_cleanup_pair
unfolding task_cleanup_pair
task_cleanup_pair-Keeps =
    >>=-Keeps (check ensure_running) _ (check-Keeps ensure_running ensure_running-NoPanic) λ _.
      >>=-Keeps (check (λ i. has_capacity (second_sequence i.next_owner))) _
        (check-Keeps _ (λ i. has_capacity-NoPanic (second_sequence i.next_owner)))
        λ _. >>=-Keeps reserve _ reserve-Keeps λ child.
          >>=-Keeps (transfer child cleanup) _ (transfer-Keeps child cleanup) λ child'.
            >>=-Keeps reserve _ reserve-Keeps λ collector.
              >>=-Keeps (transfer collector cleanup) _ (transfer-Keeps collector cleanup)
                λ collector'. pure-Keeps (child', collector')
