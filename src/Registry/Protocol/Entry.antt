-- ===== src/Registry/Protocol/Entry.antt =====
-- The two locked sections that install a lease, as seen by the acquiring task and by another one.
use chanvoy.Base.{
  ℕ, suc, ◌≡◌, ◌≢◌, ◌≤◌, ◌<◌, refl, Option, none, some, ok, err, false, if◌then◌else◌, arith,
  Option-cases, le_refl, inl, inr, Bool-cases,
}
use chanvoy.Base.Int.{ℤ}
use chanvoy.Base.Texts.{Text, text_eq, text_beq, text_beq_iff}
use chanvoy.Base.Maps.{lookup, insert, lookup-insert}
use chanvoy.Slots.{decide_acquire}
use chanvoy.Registry.{LiveSlot, Registry, WaitLease, OwnerKind, CoreError, write}
use chanvoy.Registry.Acquire.{
  Request, Handoff, ready, replacing, acquire_prepare, install_locked, mark_replacing,
}
use chanvoy.Registry.Protocol.Invariant.{Owns}
use chanvoy.Registry.Protocol.Frames.{Refines, Refines-refl, Frame}

-- A lease was installed at a channel, under a generation and in a cell of its own.
pub record Installs (r r' : Registry) (c : Text) (g : ℕ) (l : WaitLease) : Type 0 where
  pub slot : LiveSlot
  pub slots :
      (k : Text) → lookup k r'.slots ≡ (if text_beq c k then some slot else lookup k r.slots)
  pub slot_generation : slot.view.generation ≡ g
  pub slot_cell : slot.cell ≡ r.next_cell
  pub channel : l.channel_id ≡ c
  pub generation : l.generation ≡ g
  pub cell : l.cell ≡ r.next_cell
  pub fresh_cell : (r'.cells r.next_cell).cleanup_acked ≡ false
  pub other_cells : (p : ℕ) → p < r.next_cell → r'.cells p ≡ r.cells p
  pub next_cell : r'.next_cell ≡ suc r.next_cell
  pub next_generation : r.next_generation ≤ r'.next_generation
  pub below : g < r'.next_generation

pub install_locked-Installs :
    (r : Registry) (c id : Text) (g next : ℕ) (now : ℤ) (old : Option Text) (kind : OwnerKind)
    → r.next_generation ≤ next
    → g < next
    → Installs r
        (install_locked (record r { next_generation = next }) c id g now old kind).1
        c
        g
        (install_locked (record r { next_generation = next }) c id g now old kind).0
unfolding install_locked
install_locked-Installs r c id g next now old kind h b = record {
  slot = record {
    view = record { wait_id = id; generation = g; started_at_ms = now; replacing = false };
    kind = kind;
    cell = r.next_cell;
    handoff_pending = false;
  };
  slots = λ k. lookup-insert c k _ r.slots;
  slot_generation = refl;
  slot_cell = refl;
  channel = refl;
  generation = refl;
  cell = refl;
  fresh_cell = ground arith;
  other_cells = λ p lt. ground arith;
  next_cell = omega arith;
  next_generation = h;
  below = b;
}

prepare_ready_lem :
    (r r' : Registry) (q : Request) (now : ℤ) (fresh : Text) (l : WaitLease)
    → acquire_prepare r q now fresh ≡ (ok (ready l), r')
    → let out =
        install_locked
          (record r { next_generation = suc r.next_generation })
          q.channel_id
          fresh
          r.next_generation
          now
          none
          q.kind in
      (lookup q.channel_id r.slots ≡ none) × (l ≡ out.0) × (r' ≡ out.1)
unfolding acquire_prepare decide_acquire
prepare_ready_lem r r' q now fresh l h = ground arith

pub prepare_ready :
    (r r' : Registry) (q : Request) (now : ℤ) (fresh : Text) (l : WaitLease)
    → acquire_prepare r q now fresh ≡ (ok (ready l), r')
    → (lookup q.channel_id r.slots ≡ none) × Installs r r' q.channel_id r.next_generation l
prepare_ready r r' q now fresh l h =
    let (free, el, er) = prepare_ready_lem r r' q now fresh l h in
    (
      free,
      rw (el, er)
          (install_locked-Installs r q.channel_id fresh r.next_generation (suc r.next_generation)
            now none q.kind (omega arith) (omega arith)),
    )

-- A refusal leaves the registry as it was.
pub prepare_error :
    (r r' : Registry) (q : Request) (now : ℤ) (fresh : Text) (e : CoreError)
    → acquire_prepare r q now fresh ≡ (err e, r')
    → r' ≡ r
unfolding acquire_prepare decide_acquire
prepare_error r r' q now fresh e h = ground arith

prepare_replacing_held :
    (r r' : Registry) (q : Request) (now : ℤ) (fresh : Text) (h : Handoff) (s : LiveSlot)
    → lookup q.channel_id r.slots ≡ some s
    → acquire_prepare r q now fresh ≡ (ok (replacing h), r')
    → (h.old_generation ≡ s.view.generation)
      × (h.new_generation ≡ r.next_generation)
      × (h.cell ≡ s.cell)
      × (r' ≡ record r {
        next_generation = suc r.next_generation;
        slots = insert q.channel_id (mark_replacing s) r.slots;
        cells = write r.cells s.cell (record (r.cells s.cell) { replaced_by = some h.new_wait_id });
      })
unfolding acquire_prepare decide_acquire
prepare_replacing_held r r' q now fresh h s f e = ground arith

prepare_replacing_free :
    (r r' : Registry) (q : Request) (now : ℤ) (fresh : Text) (h : Handoff)
    → lookup q.channel_id r.slots ≡ none
    → acquire_prepare r q now fresh ≢ (ok (replacing h), r')
unfolding acquire_prepare decide_acquire
prepare_replacing_free r r' q now fresh h f e = ground arith

-- A slot was marked as being replaced, and a generation reserved.
pub record Reserves (r r' : Registry) (q : Request) (h : Handoff) : Type 0 where
  pub slot : LiveSlot
  pub found : lookup q.channel_id r.slots ≡ some slot
  pub old_generation : h.old_generation ≡ slot.view.generation
  pub new_generation : h.new_generation ≡ r.next_generation
  pub cell : h.cell ≡ slot.cell
  pub frame : Frame r r'
  pub next_generation : r'.next_generation ≡ suc r.next_generation
  pub next_cell : r'.next_cell ≡ r.next_cell
  pub keeps : (l : WaitLease) → Owns r l → Owns r' l

-- Marking the slot of a channel keeps generations, cells and owners.
abbrev marked : Registry → Text → LiveSlot → Option Text → Registry
marked r c s id = record r {
  next_generation = suc r.next_generation;
  slots = insert c (mark_replacing s) r.slots;
  cells = write r.cells s.cell (record (r.cells s.cell) { replaced_by = id });
}

marked-Refines :
    (r : Registry) (c k : Text) (s : LiveSlot) (id : Option Text)
    → lookup c r.slots ≡ some s
    → Refines (lookup k r.slots) (lookup k (marked r c s id).slots)
marked-Refines r c k s id e =
    rw (lookup-insert c k (mark_replacing s) r.slots) (elim (Bool-cases (text_beq c k)) [
      | inl b ↦ rw (b, ← (text_beq_iff c k).0 b, e) (refl, refl)
      | inr b ↦ rw b (Refines-refl (lookup k r.slots))
    ])

marked-Owns :
    (r : Registry) (c : Text) (s : LiveSlot) (id : Option Text) (l : WaitLease)
    → lookup c r.slots ≡ some s
    → Owns r l
    → Owns (marked r c s id) l
marked-Owns r c s id l e o = elim (Bool-cases (text_beq c l.channel_id)) [
  | inr b ↦ record {
    slot = o.slot;
    found = ground (arith, lookup-insert c l.channel_id (mark_replacing s) r.slots, o.found);
    generation = o.generation;
    cell = o.cell;
    not_acked = ground (arith, o.not_acked);
  }
  | inl b ↦ record {
    slot = mark_replacing s;
    found = ground (arith, lookup-insert c l.channel_id (mark_replacing s) r.slots);
    generation = ground (arith, o.found, o.generation, text_beq_iff c l.channel_id);
    cell = ground (arith, o.found, o.cell, text_beq_iff c l.channel_id);
    not_acked = ground (arith, o.not_acked);
  }
]

pub prepare_replacing :
    (r r' : Registry) (q : Request) (now : ℤ) (fresh : Text) (h : Handoff)
    → acquire_prepare r q now fresh ≡ (ok (replacing h), r')
    → Reserves r r' q h
prepare_replacing r r' q now fresh h e = elim (Option-cases (lookup q.channel_id r.slots)) [
  | inl f ↦ absurd (prepare_replacing_free r r' q now fresh h f e)
  | inr (s, f) ↦
      let (og, ng, c, er) = prepare_replacing_held r r' q now fresh h s f e in
      rw er (record {
        slot = s;
        found = f;
        old_generation = og;
        new_generation = ng;
        cell = c;
        frame = record {
          next_generation = omega arith;
          next_cell = le_refl r.next_cell;
          slots = λ k. marked-Refines r q.channel_id k s (some h.new_wait_id) f;
          acks = λ p a. ground arith;
        };
        next_generation = refl;
        next_cell = refl;
        keeps = λ l o. marked-Owns r q.channel_id s (some h.new_wait_id) l f o;
      })
]
