-- ===== src/Registry/Protocol/Finish.antt =====
-- The completion of a guard and the cancellation of every wait, as seen by another task.
use chanvoy.Base.{
  ℕ, ◌≡◌, ◌≢◌, ◌∙◌, refl, sym, ap, Option, none, some, Bool, true, ◌==◌, if◌then◌else◌, arith,
  Option-cases, subst, le_refl, inl, inr, Bool-cases, List, [], ◌∷◌,
}
use chanvoy.Base.Texts.{Text, text_eq, text_beq, text_beq_iff}
use chanvoy.Base.Maps.{lookup, lookup-remove}
use chanvoy.Registry.{Cell, LiveSlot, Registry, WaitLease, write}
use chanvoy.Registry.Guard.{complete_guard, cancel_slots, cancel_all}
use chanvoy.Registry.Protocol.Invariant.{Owns}
use chanvoy.Registry.Protocol.Frames.{Refines, Refines-refl, Frame}

abbrev completed : Option LiveSlot → ℕ → Option LiveSlot
completed none g = none
completed (some s) g =
    if s.view.generation == g then (if s.handoff_pending then some s else none) else some s

lookup-complete_guard :
    (r : Registry) (c k : Text) (g own : ℕ) (observed : Bool)
    → lookup k (complete_guard r c g own observed).slots
      ≡ (if text_beq c k then completed (lookup c r.slots) g else lookup k r.slots)
unfolding complete_guard
lookup-complete_guard r c k g own observed = elim (Option-cases (lookup c r.slots)) [
  | inl e ↦ ground (arith, text_beq_iff c k)
  | inr (s, e) ↦ ground (arith, text_beq_iff c k, lookup-remove c k r.slots)
]

completed-Refines : (o : Option LiveSlot) (g : ℕ) → Refines o (completed o g)
completed-Refines none g = tt
completed-Refines (some s) g = ground arith

complete_guard_acks :
    (r : Registry) (c : Text) (g own p : ℕ) (observed : Bool)
    → (r.cells p).cleanup_acked ≡ true
    → ((complete_guard r c g own observed).cells p).cleanup_acked ≡ true
unfolding complete_guard
complete_guard_acks r c g own p observed h = elim (Option-cases (lookup c r.slots)) [
  | inl e ↦ ground arith
  | inr (s, e) ↦ ground arith
]

complete_guard_counters :
    (r : Registry) (c : Text) (g own : ℕ) (observed : Bool)
    → ((complete_guard r c g own observed).next_generation ≡ r.next_generation)
      × ((complete_guard r c g own observed).next_cell ≡ r.next_cell)
unfolding complete_guard
complete_guard_counters r c g own observed = elim (Option-cases (lookup c r.slots)) [
  | inl e ↦ ground arith
  | inr (s, e) ↦ ground arith
]

pub complete_guard-Frame :
    (r : Registry) (c : Text) (g own : ℕ) (observed : Bool)
    → Frame r (complete_guard r c g own observed)
complete_guard-Frame r c g own observed = record {
  next_generation = omega (arith, (complete_guard_counters r c g own observed).0);
  next_cell = omega (arith, (complete_guard_counters r c g own observed).1);
  slots = λ k. rw (lookup-complete_guard r c k g own observed) (elim (Bool-cases (text_beq c k)) [
    | inl e ↦ rw e (
        subst (λ j. Refines (lookup j r.slots) (completed (lookup c r.slots) g))
          ((text_beq_iff c k).0 e) (completed-Refines (lookup c r.slots) g))
    | inr e ↦ rw e (Refines-refl (lookup k r.slots))
  ]);
  acks = λ p h. complete_guard_acks r c g own p observed h;
}

-- Two tasks that own the slot of one channel share its cell.
pub Owns-same_channel :
    (r : Registry) (l m : WaitLease)
    → Owns r l
    → Owns r m
    → l.channel_id ≡ m.channel_id
    → l.cell ≡ m.cell
Owns-same_channel r l m o p e =
    let same : some o.slot ≡ some p.slot = sym o.found ∙ ap (λ k. lookup k r.slots) e ∙ p.found in
    ground (arith, same, o.cell, p.cell)

complete_guard_spares :
    (r : Registry) (own l : WaitLease) (observed : Bool)
    → Owns r own
    → l.cell ≢ own.cell
    → ((complete_guard r own.channel_id own.generation own.cell observed).cells
        l.cell).cleanup_acked
      ≡ (r.cells l.cell).cleanup_acked
unfolding complete_guard
complete_guard_spares r own l observed o d = ground (arith, o.found, o.cell)

pub complete_guard-Owns :
    (r : Registry) (own l : WaitLease) (observed : Bool)
    → Owns r own
    → Owns r l
    → l.cell ≢ own.cell
    → Owns (complete_guard r own.channel_id own.generation own.cell observed) l
complete_guard-Owns r own l observed o p d =
    elim (Bool-cases (text_beq own.channel_id l.channel_id)) [
      | inl e ↦
          absurd (
            d (
              sym (Owns-same_channel r own l o p ((text_beq_iff own.channel_id l.channel_id).0 e))))
      | inr e ↦ record {
        slot = p.slot;
        found = ground (
          arith,
          p.found,
          lookup-complete_guard r own.channel_id l.channel_id own.generation own.cell observed,
        );
        generation = p.generation;
        cell = p.cell;
        not_acked = complete_guard_spares r own l observed o d ∙ p.not_acked;
      }
    ]

cancel_slots_acks :
    (m : List (Text × LiveSlot)) (cells : ℕ → Cell) (p : ℕ)
    → (cancel_slots m cells p).cleanup_acked ≡ (cells p).cleanup_acked
cancel_slots_acks [] cells p = refl
cancel_slots_acks ((c, s) ∷ m) cells p =
    cancel_slots_acks m (write cells s.cell (record (cells s.cell) { cancelled = true })) p
    ∙ ground arith

pub cancel_all-Frame : (r : Registry) → Frame r (cancel_all r)
unfolding cancel_all
cancel_all-Frame r = record {
  next_generation = le_refl r.next_generation;
  next_cell = le_refl r.next_cell;
  slots = λ k. Refines-refl (lookup k r.slots);
  acks = λ p h. cancel_slots_acks r.slots r.cells p ∙ h;
}

pub cancel_all-Owns : (r : Registry) (l : WaitLease) → Owns r l → Owns (cancel_all r) l
unfolding cancel_all
cancel_all-Owns r l o = record {
  slot = o.slot;
  found = o.found;
  generation = o.generation;
  cell = o.cell;
  not_acked = cancel_slots_acks r.slots r.cells l.cell ∙ o.not_acked;
}
