-- ===== src/Examples/Arena.antt =====
-- Owners of a small daemon.
use chanvoy.Base.{◌≡◌, ◌≢◌, ◌↔◌, refl, none, some, ok, err, [], nat_eq}
use chanvoy.Base.Int.{pos}
use chanvoy.Base.Texts.{lit, text_eq}
use chanvoy.Base.Maps.{lookup, insert}
use chanvoy.Admission.{
  OwnerToken, running, request, new, reserve, validate, transfer, refused, closed, ensure_running,
}
use chanvoy.Admission.Bounds.{IsValid, new-IsValid, Live}
use chanvoy.Admission.Handles.{request_permit, task_cleanup_pair}
use chanvoy.Admission.Pairs.{PairOutcome, task_cleanup_pair_atomic}
use chanvoy.Registry.{
  Snapshot, snapshot, is_empty, for_instance, WaitLease, channel, runtime_admission_closed,
}
use chanvoy.Registry.Acquire.{Request, acquire_prepare}
use chanvoy.Registry.Arena.{arena_step, permit, confirm, retire, retire_if_idle, busy, retired}
use chanvoy.Registry.Arena
use chanvoy.Registry.Protocol.{World, admission, Reach, here, next, start, holding}
use chanvoy.Registry.Retirement.{
  admission_always-IsValid, confirmed_number_never_returns, retire_if_idle-closed,
}
use chanvoy.Registry.Closure.{IsClosed, closed_forever}

-- One request permit is out.
abbrev one_request : World
one_request = record (start 7) { registry = arena_step permit (start 7).registry }

one_request-Reach : Reach (start 7) one_request
one_request-Reach = next here (admission permit)

abbrev first_token : OwnerToken
first_token = record { instance_id = 7; sequence = 1; kind = request }

first_token-Live : Live one_request.registry.admission first_token
unfolding arena_step request_permit reserve ensure_running for_instance new lookup insert
first_token-Live = (refl, refl)

admission_always-IsValid_example : IsValid one_request.registry.admission
admission_always-IsValid_example = admission_always-IsValid 7 one_request one_request-Reach

abbrev confirmed_once : World
confirmed_once = record one_request {
  registry = arena_step (confirm first_token) one_request.registry;
}

abbrev asked_again : World
asked_again = record confirmed_once { registry = arena_step permit confirmed_once.registry }

confirmed_number_never_returns_example : ¬ (Live asked_again.registry.admission first_token)
confirmed_number_never_returns_example =
    confirmed_number_never_returns 7 one_request asked_again first_token first_token
      one_request-Reach first_token-Live (next here (admission permit)) refl

retire_if_idle-closed_example :
    ((s : Snapshot) × (retire_if_idle 7 (for_instance 7)
        ≡ (ok (Arena.closed s), retired (for_instance 7))))
    ↔ ((7 ≡ (for_instance 7).admission.instance_id)
        × ((for_instance 7).admission.phase ≡ running)
        × ((for_instance 7).admission.owners ≡ [])
        × ((for_instance 7).slots ≡ []))
retire_if_idle-closed_example = retire_if_idle-closed 7 (for_instance 7)

abbrev closed_snapshot : Snapshot
closed_snapshot = snapshot (retired (for_instance 7))

start_closes : (retire_if_idle 7 (start 7).registry).0 ≡ ok (Arena.closed closed_snapshot)
unfolding retire_if_idle for_instance new snapshot is_empty
start_closes = refl

abbrev shut : World
shut = record (start 7) { registry = arena_step (retire 7) (start 7).registry }

abbrev late : World
late = record shut { registry = arena_step permit shut.registry }

abbrev late_request : Request
late_request = record {
  channel_id = lit "ch-1";
  team = lit "org";
  channel_name = lit "brief";
  replace_wait_id = none;
  kind = channel;
}

abbrev some_lease : WaitLease
some_lease = record {
  channel_id = lit "ch-1";
  wait_id = lit "wait_1";
  generation = 1;
  replaced_wait_id = none;
  cell = 0;
}

closed_forever_example :
    IsClosed late.registry
    × (late.tasks 0 ≢ holding some_lease)
    × (acquire_prepare late.registry late_request (pos 9) (lit "wait_2")
        ≡ (err runtime_admission_closed, late.registry))
    × (request_permit late.registry.admission ≡ (err (refused closed), late.registry.admission))
closed_forever_example =
    closed_forever 7 0 7 closed_snapshot (start 7) late late_request (pos 9) (lit "wait_2")
      some_lease here start_closes (next here (admission permit))

task_cleanup_pair_atomic_example : PairOutcome (new 7) (task_cleanup_pair (new 7))
task_cleanup_pair_atomic_example = task_cleanup_pair_atomic (new 7) (new-IsValid 7)

-- The two numbers that are left go to the pair, and then there are none.
last_pair :
    (task_cleanup_pair (record (new 7) { next_owner = some 18446744073709551614 })).1.next_owner
    ≡ none
unfolding task_cleanup_pair reserve ensure_running new transfer validate lookup insert
last_pair = refl
