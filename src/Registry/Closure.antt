-- ===== src/Registry/Closure.antt =====
-- After retirement: nothing is admitted, nothing is owned, nobody waits.
use chanvoy.Base.{ℕ, ◌≡◌, ◌≢◌, ◌∙◌, ap, ok, err, Bool, arith, inl, inr, Bool-cases, nat_eq, [], ◌⊎◌}
use chanvoy.Base.Int.{ℤ}
use chanvoy.Base.Texts.{Text, text_eq}
use chanvoy.Base.Maps.{lookup}
use chanvoy.Admission.{running, retiring, OwnerToken, refused, closed}
use chanvoy.Admission.Bounds.{IsValid, Live, reserve_retiring}
use chanvoy.Admission.Handles.{request_permit}
use chanvoy.Registry.{Registry, Snapshot, WaitLease, snapshot, is_empty, runtime_admission_closed}
use chanvoy.Registry.Acquire.{
  Request, Handoff, acquire_prepare, acquire_install, abandon_handoff, cancel_cell,
}
use chanvoy.Registry.Guard.{complete_guard, cancel_all}
use chanvoy.Registry.Arena.{
  ArenaCall, permit, registration, cleanup_pair, stream_for, confirm, into, retire, arena_step,
  retire_if_idle, busy, retired,
}
use chanvoy.Registry.Arena
use chanvoy.Registry.Protocol.{
  Task, holding, Move, prepare, cancel_old, time_out, install, drop_begun, drop_waiting,
  drop_confirmed, drop_failed, complete, move, World, Step, task, admission, shut_down, Reach, here,
  next, start,
}
use chanvoy.Registry.Protocol.Admissions.{arena_step-SameSlots}
use chanvoy.Registry.Protocol.Exclusion.{holder-Owns}
use chanvoy.Registry.Retirement.{
  Later, arena_step-Later, Step-Later, Reach-Later, admission_always-IsValid, no_owner,
  snapshot-is_empty,
}

abandon-empty :
    (r : Registry) (c : Text) (g : ℕ) → r.slots ≡ [] → (abandon_handoff r c g).slots ≡ []
unfolding abandon_handoff lookup
abandon-empty r c g e = ground (arith, ap (lookup c) e)

complete-empty :
    (r : Registry) (c : Text) (g own : ℕ) (observed : Bool)
    → r.slots ≡ []
    → (complete_guard r c g own observed).slots ≡ []
unfolding complete_guard lookup
complete-empty r c g own observed e = ground (arith, ap (lookup c) e)

-- A retiring registry refuses every acquisition and is left as it was.
pub acquire_prepare-retiring :
    (r : Registry) (q : Request) (now : ℤ) (fresh : Text)
    → r.admission.phase ≡ retiring
    → acquire_prepare r q now fresh ≡ (err runtime_admission_closed, r)
unfolding acquire_prepare
acquire_prepare-retiring r q now fresh p = ground arith

pub acquire_install-retiring :
    (r : Registry) (q : Request) (h : Handoff)
    → r.admission.phase ≡ retiring
    → acquire_install r q h ≡ (err runtime_admission_closed, r)
unfolding acquire_install
acquire_install-retiring r q h p = ground arith

move-empty :
    {x : Task} (m : Move x) (r : Registry)
    → r.admission.phase ≡ retiring
    → r.slots ≡ []
    → (move m r).0.slots ≡ []
unfolding move
move-empty (prepare q now fresh) r p e = rw (acquire_prepare-retiring r q now fresh p) e
move-empty (install q h) r p e = rw (acquire_install-retiring r q h p) e
move-empty (time_out q h) r p e = abandon-empty r q.channel_id h.old_generation e
move-empty (drop_begun q h) r p e = abandon-empty r q.channel_id h.old_generation e
move-empty (drop_waiting q h) r p e = abandon-empty r q.channel_id h.old_generation e
move-empty (drop_confirmed q h) r p e = abandon-empty r q.channel_id h.old_generation e
move-empty (drop_failed q h) r p e = abandon-empty r q.channel_id h.old_generation e
move-empty (complete lease observed) r p e =
    complete-empty r lease.channel_id lease.generation lease.cell observed e
move-empty (cancel_old q h) r p e = unfold cancel_cell in e
move-empty (Move.confirm q h) r p e = e

-- Closed and without an owner or a slot.
pub record IsClosed (r : Registry) : Type 0 where
  pub phase : r.admission.phase ≡ retiring
  pub owners : r.admission.owners ≡ []
  pub slots : r.slots ≡ []

-- The state between two steps: open, or closed for good.
abbrev OpenOrClosed : Registry → Type 0
OpenOrClosed r = (r.admission.phase ≡ running) ⊎ IsClosed r

owners_stay_empty :
    (r r' : Registry) → Later r.admission r'.admission → IsClosed r → r'.admission.owners ≡ []
unfolding lookup
owners_stay_empty r r' l c =
    no_owner r'.admission.owners
      (λ n. l.evolves.closed_admits_none n c.phase (ap (lookup n) c.owners))

Step-slots_empty : {w w' : World} → Step w w' → IsClosed w.registry → w'.registry.slots ≡ []
Step-slots_empty {w} (task t m) c = move-empty m w.registry c.phase c.slots
Step-slots_empty {w} (admission call) c = (arena_step-SameSlots call w.registry).slots ∙ c.slots
Step-slots_empty {w} shut_down c = unfold cancel_all in c.slots

Step-IsClosed :
    {w w' : World}
    → Step w w'
    → IsValid w.registry.admission
    → IsClosed w.registry
    → IsClosed w'.registry
Step-IsClosed {w} {w'} s v c =
    let l = Step-Later s v in
    record {
      phase = l.evolves.closed_kept c.phase;
      owners = owners_stay_empty w.registry w'.registry l c;
      slots = Step-slots_empty s c;
    }

pub Reach-IsClosed :
    {w w' : World}
    → Reach w w'
    → IsValid w.registry.admission
    → IsClosed w.registry
    → IsClosed w'.registry
Reach-IsClosed here v c = c
Reach-IsClosed (next r s) v c = Step-IsClosed s (Reach-Later r v).valid (Reach-IsClosed r v c)

Reach-trans : {u v w : World} → Reach u v → Reach v w → Reach u w
Reach-trans r here = r
Reach-trans r (next r' s) = next (Reach-trans r r') s

retired-IsClosed :
    (expected : ℕ) (s : Snapshot) (r : Registry)
    → (retire_if_idle expected r).0 ≡ ok (Arena.closed s)
    → IsClosed (arena_step (retire expected) r)
unfolding arena_step retire_if_idle
retired-IsClosed expected s r e =
    let empty = (snapshot-is_empty r).0 (ground arith) in
    record {
      phase = ground arith;
      owners = ground (arith, empty.0);
      slots = ground (arith, empty.1);
    }

no_holder :
    (i t : ℕ) (w : World) (l : WaitLease)
    → Reach (start i) w
    → IsClosed w.registry
    → w.tasks t ≢ holding l
unfolding lookup
no_holder i t w l r c e =
    let o = holder-Owns i t w l r e in
    let none_there = ap (lookup l.channel_id) c.slots in ground (arith, o.found, none_there)

-- Once `retire_if_idle` has answered that a reachable daemon is closed, then in every later world
-- it is retiring with no owner and no slot, no task holds a lease, and every acquisition and every
-- request permit is refused and changes nothing.
pub closed_forever :
    (i t expected : ℕ) (s : Snapshot) (w w' : World) (q : Request) (now : ℤ) (fresh : Text)
    (l : WaitLease)
    → Reach (start i) w
    → (retire_if_idle expected w.registry).0 ≡ ok (Arena.closed s)
    → Reach (record w { registry = arena_step (retire expected) w.registry }) w'
    → IsClosed w'.registry
      × (w'.tasks t ≢ holding l)
      × (acquire_prepare w'.registry q now fresh ≡ (err runtime_admission_closed, w'.registry))
      × (request_permit w'.registry.admission ≡ (err (refused closed), w'.registry.admission))
unfolding request_permit
closed_forever i t expected s w w' q now fresh l r answer r' =
    let v = admission_always-IsValid i w r in
    let v1 = arena_step-Later (retire expected) w.registry v in
    let c' = Reach-IsClosed r' v1.valid (retired-IsClosed expected s w.registry answer) in
    (
      c',
      no_holder i t w' l (Reach-trans (next r (admission (retire expected))) r') c',
      acquire_prepare-retiring w'.registry q now fresh c'.phase,
      reserve_retiring w'.registry.admission c'.phase,
    )

-- While a token is live, an attempt to retire its open daemon reports busy and changes nothing.
pub retire_if_idle-busy :
    (r : Registry) (t : OwnerToken)
    → Live r.admission t
    → r.admission.phase ≡ running
    → retire_if_idle r.admission.instance_id r ≡ (ok (busy (snapshot r)), r)
unfolding retire_if_idle lookup
retire_if_idle-busy r t l p = elim (Bool-cases (is_empty (snapshot r))) [
  | inl e ↦
      let none_there = ap (lookup t.sequence) ((snapshot-is_empty r).0 e).0 in
      absurd (ground (arith, l.1, none_there))
  | inr e ↦ ground arith
]
