-- ===== src/Registry/Protocol/Frames.antt =====
-- What the locked sections leave alone, as seen by another task.
use chanvoy.Base.{
  ℕ, ◌≡◌, ◌≤◌, ◌∙◌, refl, Option, none, some, true, false, ◌==◌, if◌then◌else◌, arith, Option-cases,
  beq_refl, subst, le_refl, inl, inr, Bool-cases,
}
use chanvoy.Base.Texts.{Text, text_eq, text_beq, text_beq_iff}
use chanvoy.Base.Maps.{lookup, insert, lookup-insert, lookup-remove}
use chanvoy.Registry.{LiveSlot, Registry, WaitLease}
use chanvoy.Registry.Acquire.{Request, Handoff, abandon_handoff, cancel_cell}
use chanvoy.Registry.Protocol.Invariant.{Owns, Reserved, SlotsOk}

-- A slot that is still there has kept its generation and its cell.
abbrev pub Refines : Option LiveSlot → Option LiveSlot → Type 0
Refines s none = Unit {0}
Refines none (some s') = ⊥
Refines (some s) (some s') = (s'.view.generation ≡ s.view.generation) × (s'.cell ≡ s.cell)

pub Refines-refl : (s : Option LiveSlot) → Refines s s
Refines-refl none = tt
Refines-refl (some s) = (refl, refl)

pub Refines-some :
    (o : Option LiveSlot) (s' : LiveSlot)
    → Refines o (some s')
    → (s : LiveSlot) × (o ≡ some s) × (s'.view.generation ≡ s.view.generation) × (s'.cell ≡ s.cell)
Refines-some none s' h = absurd h
Refines-some (some s) s' h = (s, refl, h.0, h.1)

-- Slots keep their generations and cells, or go away; nothing is unallocated or unacknowledged.
pub record Frame (r r' : Registry) : Type 0 where
  pub next_generation : r.next_generation ≤ r'.next_generation
  pub next_cell : r.next_cell ≤ r'.next_cell
  pub slots : (k : Text) → Refines (lookup k r.slots) (lookup k r'.slots)
  pub acks : (p : ℕ) → (r.cells p).cleanup_acked ≡ true → (r'.cells p).cleanup_acked ≡ true

pub Frame-refl : (r : Registry) → Frame r r
Frame-refl r = record {
  next_generation = le_refl r.next_generation;
  next_cell = le_refl r.next_cell;
  slots = λ k. Refines-refl (lookup k r.slots);
  acks = λ p h. h;
}

pub Frame-back :
    {r r' : Registry} (k : Text) (s' : LiveSlot)
    → Frame r r'
    → lookup k r'.slots ≡ some s'
    → (s : LiveSlot) × (lookup k r.slots ≡ some s)
      × (s'.view.generation ≡ s.view.generation)
      × (s'.cell ≡ s.cell)
Frame-back {r} {r'} k s' f e =
    Refines-some (lookup k r.slots) s' (subst (Refines (lookup k r.slots)) e (f.slots k))

pub Frame-Reserved :
    {r r' : Registry} (q : Request) (h : Handoff) → Frame r r' → Reserved r q h → Reserved r' q h
Frame-Reserved q h f v = record {
  ordered = v.ordered;
  taken = omega (arith, v.taken, f.next_generation);
  allocated = omega (arith, v.allocated, f.next_cell);
  unused = λ k s e. let (s0, e0, g, c) = Frame-back k s f e in ground (arith, v.unused k s0 e0);
  same_cell = λ s e d.
      let (s0, e0, g, c) = Frame-back q.channel_id s f e in ground (arith, v.same_cell s0 e0);
}

pub Frame-SlotsOk : {r r' : Registry} → Frame r r' → SlotsOk r → SlotsOk r'
Frame-SlotsOk f v = record {
  generations = λ k s e.
      let (s0, e0, g, c) = Frame-back k s f e in
      ground (arith, v.generations k s0 e0, f.next_generation);
  cells = λ k s e.
      let (s0, e0, g, c) = Frame-back k s f e in ground (arith, v.cells k s0 e0, f.next_cell);
}

pub cancel_cell-Frame : (r : Registry) (p : ℕ) → Frame r (cancel_cell r p)
unfolding cancel_cell
cancel_cell-Frame r p = record {
  next_generation = omega arith;
  next_cell = omega arith;
  slots = λ k. Refines-refl (lookup k r.slots);
  acks = λ q h. ground arith;
}

pub cancel_cell-Owns : (r : Registry) (p : ℕ) (l : WaitLease) → Owns r l → Owns (cancel_cell r p) l
unfolding cancel_cell
cancel_cell-Owns r p l o = record {
  slot = o.slot;
  found = o.found;
  generation = o.generation;
  cell = o.cell;
  not_acked = ground (arith, o.not_acked);
}

abbrev abandoned : Option LiveSlot → Registry → ℕ → Option LiveSlot
abandoned none r g = none
abandoned (some s) r g =
    if s.view.generation == g
    then (if (r.cells s.cell).cleanup_acked
        then none
        else some (record s { handoff_pending = false }))
    else some s

lookup-abandon_handoff :
    (r : Registry) (c k : Text) (g : ℕ)
    → lookup k (abandon_handoff r c g).slots
      ≡ (if text_beq c k then abandoned (lookup c r.slots) r g else lookup k r.slots)
unfolding abandon_handoff
lookup-abandon_handoff r c k g = elim (Option-cases (lookup c r.slots)) [
  | inl e ↦ ground (arith, text_beq_iff c k)
  | inr (s, e) ↦
      let s' : LiveSlot = record s { handoff_pending = false } in
      ground (
        arith,
        text_beq_iff c k,
        beq_refl c,
        lookup-insert c k s' r.slots,
        lookup-insert c c s' r.slots,
        lookup-remove c k r.slots,
        lookup-remove c k (insert c s' r.slots),
      )
]

abandoned-Refines : (o : Option LiveSlot) (r : Registry) (g : ℕ) → Refines o (abandoned o r g)
abandoned-Refines none r g = tt
abandoned-Refines (some s) r g = ground arith

pub abandon_handoff-Frame : (r : Registry) (c : Text) (g : ℕ) → Frame r (abandon_handoff r c g)
abandon_handoff-Frame r c g = record {
  next_generation = unfold abandon_handoff in le_refl r.next_generation;
  next_cell = unfold abandon_handoff in le_refl r.next_cell;
  slots = λ k. rw (lookup-abandon_handoff r c k g) (elim (Bool-cases (text_beq c k)) [
    | inl e ↦ rw e (
        subst (λ j. Refines (lookup j r.slots) (abandoned (lookup c r.slots) r g))
          ((text_beq_iff c k).0 e) (abandoned-Refines (lookup c r.slots) r g))
    | inr e ↦ rw e (Refines-refl (lookup k r.slots))
  ]);
  acks = λ p h. unfold abandon_handoff in h;
}

-- Not acknowledged, the slot stays with its generation and cell.
abandoned_kept :
    (s : LiveSlot) (r : Registry) (g : ℕ)
    → (r.cells s.cell).cleanup_acked ≡ false
    → (s' : LiveSlot) × (abandoned (some s) r g ≡ some s')
      × (s'.view.generation ≡ s.view.generation)
      × (s'.cell ≡ s.cell)
abandoned_kept s r g h = elim (Bool-cases (s.view.generation == g)) [
  | inl e ↦ (record s { handoff_pending = false }, ground arith, refl, refl)
  | inr e ↦ (s, ground arith, refl, refl)
]

abandon_handoff_slot :
    (r : Registry) (c : Text) (g : ℕ) (l : WaitLease) (o : Owns r l)
    → (s' : LiveSlot) × (lookup l.channel_id (abandon_handoff r c g).slots ≡ some s')
      × (s'.view.generation ≡ o.slot.view.generation)
      × (s'.cell ≡ o.slot.cell)
abandon_handoff_slot r c g l o = elim (Bool-cases (text_beq c l.channel_id)) [
  | inr e ↦ (o.slot, ground (arith, lookup-abandon_handoff r c l.channel_id g, o.found), refl, refl)
  | inl e ↦
      let (s', a, b, d) = abandoned_kept o.slot r g (ground (arith, o.not_acked, o.cell)) in
      (
        s',
        ground (
          arith,
          lookup-abandon_handoff r c l.channel_id g,
          o.found,
          text_beq_iff c l.channel_id,
          a,
        ),
        b,
        d,
      )
]

pub abandon_handoff-Owns :
    (r : Registry) (c : Text) (g : ℕ) (l : WaitLease) → Owns r l → Owns (abandon_handoff r c g) l
abandon_handoff-Owns r c g l o =
    let (s', found, b, d) = abandon_handoff_slot r c g l o in
    record {
      slot = s';
      found = found;
      generation = b ∙ o.generation;
      cell = d ∙ o.cell;
      not_acked = unfold abandon_handoff in o.not_acked;
    }
