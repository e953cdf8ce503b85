-- ===== src/Registry/Protocol/Install.antt =====
-- The second locked section, and what any installation means for the other tasks.
use chanvoy.Base.{
  ℕ, ◌≡◌, ◌≢◌, ◌<◌, ◌∙◌, refl, sym, none, some, ok, err, true, false, ◌==◌, arith, Option-cases,
  beq_refl, le_refl, ◌⊎◌, inl, inr, Bool-cases,
}
use chanvoy.Base.Texts.{Text, text_eq, text_beq, text_beq_iff}
use chanvoy.Base.Maps.{lookup, insert, lookup-insert}
use chanvoy.Admission.Bounds.{Phase-cases}
use chanvoy.Slots.{can_install_replacement}
use chanvoy.Registry.{LiveSlot, Registry, WaitLease, CoreError}
use chanvoy.Registry.Acquire.{Request, Handoff, acquire_install, install_locked}
use chanvoy.Registry.Protocol.Invariant.{Owns, Reserved, SlotsOk}
use chanvoy.Registry.Protocol.Frames.{Refines, Refines-refl, Frame, Frame-refl}
use chanvoy.Registry.Protocol.Entry.{Installs, install_locked-Installs}

install_held :
    (r r' : Registry) (q : Request) (h : Handoff) (l : WaitLease) (s : LiveSlot)
    → lookup q.channel_id r.slots ≡ some s
    → acquire_install r q h ≡ (ok l, r')
    → let out =
        install_locked
          (record r { next_generation = r.next_generation })
          q.channel_id
          h.new_wait_id
          h.new_generation
          h.started_at_ms
          (some h.old_wait_id)
          q.kind in
      (s.view.generation ≡ h.old_generation)
      × (s.view.replacing ≡ true)
      × (l ≡ out.0)
      × (r' ≡ out.1)
unfolding acquire_install can_install_replacement
install_held r r' q h l s f e = ground arith

install_free :
    (r r' : Registry) (q : Request) (h : Handoff) (l : WaitLease)
    → lookup q.channel_id r.slots ≡ none
    → acquire_install r q h ≢ (ok l, r')
unfolding acquire_install can_install_replacement
install_free r r' q h l f e = ground arith

-- A replacement is installed over the slot that was reserved.
pub install_ok :
    (r r' : Registry) (q : Request) (h : Handoff) (l : WaitLease)
    → h.new_generation < r.next_generation
    → acquire_install r q h ≡ (ok l, r')
    → (s : LiveSlot) × (lookup q.channel_id r.slots ≡ some s)
      × (s.view.generation ≡ h.old_generation)
      × Installs r r' q.channel_id h.new_generation l
install_ok r r' q h l b e = elim (Option-cases (lookup q.channel_id r.slots)) [
  | inl f ↦ absurd (install_free r r' q h l f e)
  | inr (s, f) ↦
      let (g, _, el, er) = install_held r r' q h l s f e in
      (
        s,
        f,
        g,
        rw (el, er)
            (install_locked-Installs r q.channel_id h.new_wait_id h.new_generation r.next_generation
              h.started_at_ms (some h.old_wait_id) q.kind (le_refl r.next_generation) b),
      )
]

-- A refused installation only clears the mark of its own reservation.
abbrev Unmarks : Registry → Registry → Text → Type 0
Unmarks r r' c =
    (r' ≡ r)
    ⊎ ((s : LiveSlot) × (lookup c r.slots ≡ some s)
        × (r' ≡ record r { slots = insert c (record s { handoff_pending = false }) r.slots }))

install_error_Unmarks :
    (r r' : Registry) (q : Request) (h : Handoff) (e : CoreError)
    → acquire_install r q h ≡ (err e, r')
    → Unmarks r r' q.channel_id
unfolding acquire_install can_install_replacement
install_error_Unmarks r r' q h e f = elim (Option-cases (lookup q.channel_id r.slots)) [
  | inl g ↦ inl (ground arith)
  | inr (s, g) ↦ elim (Bool-cases (s.view.generation == h.old_generation)) [
    | inl same ↦ elim (Phase-cases r.admission.phase) [
      | inl p ↦ inr (s, g, ground arith)
      | inr p ↦ inl (ground arith)
    ]
    | inr other ↦ inl (ground arith)
  ]
]

unmark-Refines :
    (r : Registry) (c k : Text) (s : LiveSlot)
    → lookup c r.slots ≡ some s
    → Refines
        (lookup k r.slots)
        (lookup k (insert c (record s { handoff_pending = false }) r.slots))
unmark-Refines r c k s e =
    rw (lookup-insert c k (record s { handoff_pending = false }) r.slots)
      (elim (Bool-cases (text_beq c k)) [
        | inl b ↦ rw (b, ← (text_beq_iff c k).0 b, e) (refl, refl)
        | inr b ↦ rw b (Refines-refl (lookup k r.slots))
      ])

unmark-Owns :
    (r : Registry) (c : Text) (s : LiveSlot) (l : WaitLease)
    → lookup c r.slots ≡ some s
    → Owns r l
    → Owns (record r { slots = insert c (record s { handoff_pending = false }) r.slots }) l
unmark-Owns r c s l e o =
    let s' : LiveSlot = record s { handoff_pending = false } in
    elim (Bool-cases (text_beq c l.channel_id)) [
      | inr b ↦ record {
        slot = o.slot;
        found = ground (arith, lookup-insert c l.channel_id s' r.slots, o.found);
        generation = o.generation;
        cell = o.cell;
        not_acked = o.not_acked;
      }
      | inl b ↦ record {
        slot = s';
        found = ground (arith, lookup-insert c l.channel_id s' r.slots);
        generation = ground (arith, o.found, o.generation, text_beq_iff c l.channel_id);
        cell = ground (arith, o.found, o.cell, text_beq_iff c l.channel_id);
        not_acked = o.not_acked;
      }
    ]

pub install_error :
    (r r' : Registry) (q : Request) (h : Handoff) (e : CoreError)
    → acquire_install r q h ≡ (err e, r')
    → Frame r r' × ((l : WaitLease) → Owns r l → Owns r' l)
install_error r r' q h e f = elim (install_error_Unmarks r r' q h e f) [
  | inl same ↦ rw same (Frame-refl r, λ l o. o)
  | inr (s, g, er) ↦ rw er (
    record {
      next_generation = le_refl r.next_generation;
      next_cell = le_refl r.next_cell;
      slots = λ k. unmark-Refines r q.channel_id k s g;
      acks = λ p a. a;
    },
    λ l o. unmark-Owns r q.channel_id s l g o,
  )
]

module _ (r r' : Registry) (c : Text) (g : ℕ) (l : WaitLease) (i : Installs r r' c g l) where
  pub Installs-Owns : Owns r' l
  Installs-Owns = record {
    slot = i.slot;
    found = ground (arith, i.slots l.channel_id, i.channel, beq_refl c);
    generation = i.slot_generation ∙ sym i.generation;
    cell = i.slot_cell ∙ sym i.cell;
    not_acked = ground (arith, i.fresh_cell, i.cell);
  }

  pub Installs-Owns_other : (m : WaitLease) → SlotsOk r → Owns r m → m.channel_id ≢ c → Owns r' m
  Installs-Owns_other m v o d = record {
    slot = o.slot;
    found = ground (arith, i.slots m.channel_id, o.found, text_beq_iff c m.channel_id);
    generation = o.generation;
    cell = o.cell;
    not_acked =
        ground
          (arith, i.other_cells m.cell, v.cells m.channel_id o.slot o.found, o.cell, o.not_acked);
  }

  pub Installs-Reserved :
      (q : Request) (h : Handoff)
      → Reserved r q h
      → g ≢ h.new_generation
      → h.old_generation ≢ g
      → Reserved r' q h
  Installs-Reserved q h v a b = record {
    ordered = v.ordered;
    taken = omega (arith, v.taken, i.next_generation);
    allocated = omega (arith, v.allocated, i.next_cell);
    unused = λ k s e. ground (arith, i.slots k, v.unused k s, i.slot_generation);
    same_cell = λ s e d. ground (arith, i.slots q.channel_id, v.same_cell s, i.slot_generation);
  }

  pub Installs-SlotsOk : SlotsOk r → SlotsOk r'
  Installs-SlotsOk v = record {
    generations = λ k s e.
        ground (arith, i.slots k, v.generations k s, i.slot_generation, i.below, i.next_generation);
    cells = λ k s e. ground (arith, i.slots k, v.cells k s, i.slot_cell, i.next_cell);
  }

  pub Installs_acks :
      (p : ℕ)
      → p < r.next_cell
      → (r.cells p).cleanup_acked ≡ true
      → (r'.cells p).cleanup_acked ≡ true
  Installs_acks p lt a = ground (arith, i.other_cells p lt)
