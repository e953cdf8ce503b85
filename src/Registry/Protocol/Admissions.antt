-- ===== src/Registry/Protocol/Admissions.antt =====
-- Admission calls leave slots and cells alone, and steps of the wait protocol leave admission alone.
use chanvoy.Base.{ℕ, ◌≡◌, refl, Bool, arith, inl, inr, Option-cases}
use chanvoy.Base.Texts.{Text, text_eq}
use chanvoy.Base.Maps.{lookup}
use chanvoy.Slots.{decide_acquire}
use chanvoy.Registry.{Registry, WaitLease}
use chanvoy.Registry.Arena.{ArenaCall, retire, arena_step, retire_if_idle}
use chanvoy.Base.Int.{ℤ}
use chanvoy.Registry.Acquire.{
  Request, Handoff, acquire_prepare, acquire_install, cancel_cell, abandon_handoff,
}
use chanvoy.Registry.Guard.{complete_guard}
use chanvoy.Registry.Protocol.{
  Task, Move, prepare, cancel_old, time_out, install, drop_begun, drop_waiting, drop_confirmed,
  drop_failed, complete, move,
}
use chanvoy.Registry.Protocol.Invariant.{Owns}
use chanvoy.Registry.Protocol.Frames.{Refines-refl, Frame}

-- The same slots, generations and cells.
pub record SameSlots (r r' : Registry) : Type 0 where
  pub slots : r'.slots ≡ r.slots
  pub next_generation : r'.next_generation ≡ r.next_generation
  pub cells : r'.cells ≡ r.cells
  pub next_cell : r'.next_cell ≡ r.next_cell

same : (r : Registry) → SameSlots r r
same r = record { slots = refl; next_generation = refl; cells = refl; next_cell = refl }

retire-SameSlots : (expected : ℕ) (r : Registry) → SameSlots r (retire_if_idle expected r).1
unfolding retire_if_idle
retire-SameSlots expected r = ground arith

pub arena_step-SameSlots : (c : ArenaCall) (r : Registry) → SameSlots r (arena_step c r)
unfolding arena_step
arena_step-SameSlots (retire expected) r = retire-SameSlots expected r
arena_step-SameSlots _ r = record {
  slots = refl;
  next_generation = refl;
  cells = refl;
  next_cell = refl;
}

pub arena_step-Frame : (c : ArenaCall) (r : Registry) → Frame r (arena_step c r)
arena_step-Frame c r =
    let s = arena_step-SameSlots c r in
    record {
      next_generation = omega (arith, s.next_generation);
      next_cell = omega (arith, s.next_cell);
      slots = λ k. rw (s.slots) (Refines-refl (lookup k r.slots));
      acks = λ p h. rw (s.cells) h;
    }

pub arena_step-Owns :
    (c : ArenaCall) (r : Registry) (l : WaitLease) → Owns r l → Owns (arena_step c r) l
arena_step-Owns c r l o =
    let s = arena_step-SameSlots c r in
    record {
      slot = o.slot;
      found = rw (s.slots) o.found;
      generation = o.generation;
      cell = o.cell;
      not_acked = rw (s.cells) o.not_acked;
    }

abandon-admission :
    (r : Registry) (c : Text) (g : ℕ) → (abandon_handoff r c g).admission ≡ r.admission
unfolding abandon_handoff
abandon-admission r c g = refl

complete-admission :
    (r : Registry) (c : Text) (g own : ℕ) (observed : Bool)
    → (complete_guard r c g own observed).admission ≡ r.admission
unfolding complete_guard
complete-admission r c g own observed = elim (Option-cases (lookup c r.slots)) [
  | inl e ↦ ground arith
  | inr (s, e) ↦ ground arith
]

prepare-admission :
    (r : Registry) (q : Request) (now : ℤ) (fresh : Text)
    → (acquire_prepare r q now fresh).1.admission ≡ r.admission
unfolding acquire_prepare decide_acquire
prepare-admission r q now fresh = ground arith

install-admission :
    (r : Registry) (q : Request) (h : Handoff) → (acquire_install r q h).1.admission ≡ r.admission
unfolding acquire_install
install-admission r q h = ground arith

-- No step of a waiting task touches the inventory.
pub move-admission : {x : Task} (m : Move x) (r : Registry) → (move m r).0.admission ≡ r.admission
unfolding move
move-admission (prepare q now fresh) r = prepare-admission r q now fresh
move-admission (install q h) r = install-admission r q h
move-admission (time_out q h) r = abandon-admission r q.channel_id h.old_generation
move-admission (drop_begun q h) r = abandon-admission r q.channel_id h.old_generation
move-admission (drop_waiting q h) r = abandon-admission r q.channel_id h.old_generation
move-admission (drop_confirmed q h) r = abandon-admission r q.channel_id h.old_generation
move-admission (drop_failed q h) r = abandon-admission r q.channel_id h.old_generation
move-admission (complete lease observed) r =
    complete-admission r lease.channel_id lease.generation lease.cell observed
move-admission (cancel_old q h) r = unfold cancel_cell in refl
move-admission (Move.confirm q h) r = refl
