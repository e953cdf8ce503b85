-- ===== src/Registry/Protocol.antt =====
-- The tasks that share the wait registry (wait_owner.rs), interleaved at their lock boundaries.
-- A task that is dropped while it waits abandons its handoff, as `HandoffTxn::drop` does.
pub mod Invariant
pub mod Frames
pub mod Finish
pub mod Admissions
pub mod Entry
pub mod Install
pub mod Effects
pub mod Moves
pub mod Exclusion
use chanvoy.Base.{
  ℕ, ◌≡◌, Option, none, some, Result, ok, err, Bool, true, false, ◌==◌, if◌then◌else◌,
}
use chanvoy.Base.Texts.{Text}
use chanvoy.Base.Int.{ℤ}
use chanvoy.Registry.{Cell, Registry, WaitLease, CoreError, for_instance}
use chanvoy.Registry.Acquire.{
  Request, Handoff, Prepared, ready, replacing, acquire_prepare, acquire_install, cancel_cell,
  abandon_handoff,
}
use chanvoy.Registry.Arena.{ArenaCall, arena_step}
use chanvoy.Registry.Guard.{complete_guard, cancel_all}

-- Where a task stands: `begun` has reserved and not yet cancelled the old owner; `waiting` awaits
-- its cleanup; `confirmed` has seen the acknowledgement; `failed` has still to drop its handoff;
-- `holding` owns a lease whose guard is not yet complete.
pub data Task : Type 0 where
  idle : Task
  begun waiting confirmed failed : Request → Handoff → Task
  holding : WaitLease → Task

pub record World : Type 0 where
  pub registry : Registry
  pub tasks : ℕ → Task

abbrev pub assign : (ℕ → Task) → ℕ → Task → ℕ → Task
assign tasks t x u = if u == t then x else tasks u

abbrev pub prepared_task : Request → Result CoreError Prepared → Task
prepared_task q (ok (ready lease)) = holding lease
prepared_task q (ok (replacing h)) = begun q h
prepared_task q (err e) = idle

abbrev pub installed_task : Request → Handoff → Result CoreError WaitLease → Task
installed_task q h (ok lease) = holding lease
installed_task q h (err e) = failed q h

-- What a task can do next.
pub data Move : Task → Type 0 where
  prepare : (q : Request) (now : ℤ) (fresh : Text) → Move idle
  cancel_old : (q : Request) (h : Handoff) → Move (begun q h)
  time_out : (q : Request) (h : Handoff) → Move (waiting q h)
  confirm : (q : Request) (h : Handoff) → Move (waiting q h)
  install : (q : Request) (h : Handoff) → Move (confirmed q h)
  drop_begun : (q : Request) (h : Handoff) → Move (begun q h)
  drop_waiting : (q : Request) (h : Handoff) → Move (waiting q h)
  drop_confirmed : (q : Request) (h : Handoff) → Move (confirmed q h)
  drop_failed : (q : Request) (h : Handoff) → Move (failed q h)
  complete : (lease : WaitLease) (observed : Bool) → Move (holding lease)

abbrev pub dropped : Registry → Request → Handoff → Registry × Task
dropped r q h = (abandon_handoff r q.channel_id h.old_generation, idle)

abbrev pub prepared : Request → Result CoreError Prepared × Registry → Registry × Task
prepared q (out, r) = (r, prepared_task q out)

abbrev pub installed : Request → Handoff → Result CoreError WaitLease × Registry → Registry × Task
installed q h (out, r) = (r, installed_task q h out)

abbrev pub confirmed_if : Bool → Request → Handoff → Task
confirmed_if true q h = confirmed q h
confirmed_if false q h = waiting q h

unfoldable pub move : {x : Task} → Move x → Registry → Registry × Task
move (prepare q now fresh) r = prepared q (acquire_prepare r q now fresh)
move (cancel_old q h) r = (cancel_cell r h.cell, waiting q h)
move (time_out q h) r = (abandon_handoff r q.channel_id h.old_generation, failed q h)
move (confirm q h) r = (r, confirmed_if (r.cells h.cell).cleanup_acked q h)
move (install q h) r = installed q h (acquire_install r q h)
move (drop_begun q h) r = dropped r q h
move (drop_waiting q h) r = dropped r q h
move (drop_confirmed q h) r = dropped r q h
move (drop_failed q h) r = dropped r q h
move (complete lease observed) r =
    (complete_guard r lease.channel_id lease.generation lease.cell observed, idle)

pub data Step (w : World) : World → Type 0 where
  task :
      (t : ℕ) (m : Move (w.tasks t))
      → Step w (record {
        registry = (move m w.registry).0;
        tasks = assign w.tasks t (move m w.registry).1;
      })
  admission : (c : ArenaCall) → Step w (record w { registry = arena_step c w.registry })
  shut_down : Step w (record w { registry = cancel_all w.registry })

pub data Reach (w : World) : World → Type 0 where
  here : Reach w w
  next : {u v : World} → Reach w u → Step u v → Reach w v

abbrev pub start : ℕ → World
start i = record { registry = for_instance i; tasks = λ t. idle }
