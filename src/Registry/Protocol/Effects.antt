-- ===== src/Registry/Protocol/Effects.antt =====
-- What a move does to the mover and to any other task, and that an acquisition keeps the invariant.
use chanvoy.Base.{ℕ, ◌≡◌, ◌≢◌, refl, none, some, Result, ok, err, arith, subst}
use chanvoy.Base.Int.{ℤ}
use chanvoy.Base.Texts.{Text, text_eq}
use chanvoy.Base.Maps.{lookup}
use chanvoy.Registry.{Registry, WaitLease, CoreError}
use chanvoy.Registry.Acquire.{Request, Handoff, Prepared, ready, replacing, acquire_prepare}
use chanvoy.Registry.Protocol.{Task, idle, begun, holding, prepared}
use chanvoy.Registry.Protocol.Invariant.{
  Owns, Reserved, TaskOk, idle_ok, begun_ok, waiting_ok, confirmed_ok, failed_ok, holding_ok,
  reserved_of, lease_of, Apart, SlotsOk,
}
use chanvoy.Registry.Protocol.Frames.{Frame, Frame-refl, Frame-back, Frame-Reserved, Frame-SlotsOk}
use chanvoy.Registry.Protocol.Entry.{
  Installs, prepare_ready, prepare_error, prepare_replacing, Reserves,
}
use chanvoy.Registry.Protocol.Install.{
  Installs-Owns, Installs-Owns_other, Installs-Reserved, Installs-SlotsOk, Installs_acks,
}

pub Frame-TaskOk :
    {r r' : Registry} {y : Task}
    → Frame r r'
    → ((l : WaitLease) → lease_of y ≡ some l → Owns r l → Owns r' l)
    → TaskOk r y
    → TaskOk r' y
Frame-TaskOk f keep idle_ok = idle_ok
Frame-TaskOk f keep (begun_ok v) = begun_ok (Frame-Reserved _ _ f v)
Frame-TaskOk f keep (waiting_ok v) = waiting_ok (Frame-Reserved _ _ f v)
Frame-TaskOk f keep (confirmed_ok v a) = confirmed_ok (Frame-Reserved _ _ f v) (f.acks _ a)
Frame-TaskOk f keep (failed_ok v) = failed_ok (Frame-Reserved _ _ f v)
Frame-TaskOk f keep (holding_ok o) = holding_ok (keep _ refl o)

TaskOk-Reserved :
    {r : Registry} {y : Task} (k : Handoff)
    → TaskOk r y
    → reserved_of y ≡ some k
    → (q : Request) × Reserved r q k
TaskOk-Reserved {r} k idle_ok e = absurd (cc)
TaskOk-Reserved {r} k (begun_ok {q} {h} v) e = (q, subst (Reserved r q) (ground arith) v)
TaskOk-Reserved {r} k (waiting_ok {q} {h} v) e = (q, subst (Reserved r q) (ground arith) v)
TaskOk-Reserved {r} k (confirmed_ok {q} {h} v a) e = (q, subst (Reserved r q) (ground arith) v)
TaskOk-Reserved {r} k (failed_ok {q} {h} v) e = (q, subst (Reserved r q) (ground arith) v)
TaskOk-Reserved {r} k (holding_ok o) e = absurd (cc)

pub TaskOk-Owns :
    {r : Registry} {y : Task} (m : WaitLease) → TaskOk r y → lease_of y ≡ some m → Owns r m
TaskOk-Owns {r} m (holding_ok {l} o) e = subst (Owns r) (ground arith) o
TaskOk-Owns {r} m idle_ok e = absurd (cc)
TaskOk-Owns {r} m (begun_ok v) e = absurd (cc)
TaskOk-Owns {r} m (waiting_ok v) e = absurd (cc)
TaskOk-Owns {r} m (confirmed_ok v a) e = absurd (cc)
TaskOk-Owns {r} m (failed_ok v) e = absurd (cc)

pub idle-Apart : (y : Task) → Apart idle y
idle-Apart y = record { leases = λ l m e. cc; handoffs = λ h k e. absurd (cc) }

-- What one move does to the mover and to any other task.
pub record MoveOk (r : Registry) (x : Task) (r' : Registry) (x' : Task) : Type 0 where
  pub slots : SlotsOk r'
  pub self : TaskOk r' x'
  pub other : (y : Task) → TaskOk r y → Apart x y → TaskOk r' y × Apart x' y

-- A move that frames the registry and keeps every owner.
pub framed :
    {r r' : Registry} {x x' : Task}
    → SlotsOk r
    → Frame r r'
    → ((l : WaitLease) → Owns r l → Owns r' l)
    → TaskOk r' x'
    → ((y : Task) → TaskOk r y → Apart x y → Apart x' y)
    → MoveOk r x r' x'
framed v f keep self apart = record {
  slots = Frame-SlotsOk f v;
  self = self;
  other = λ y ty a. (Frame-TaskOk f (λ l e o. keep l o) ty, apart y ty a);
}

pub holding-Apart :
    (r : Registry) (l : WaitLease) (y : Task)
    → SlotsOk r
    → l.cell ≡ r.next_cell
    → TaskOk r y
    → Apart (holding l) y
holding-Apart r l y v e ty = record {
  leases = λ l' m e1 e2.
      let o = TaskOk-Owns m ty e2 in ground (arith, v.cells m.channel_id o.slot o.found, o.cell);
  handoffs = λ h k e1 e2. absurd (cc);
}

pub Installs-TaskOk :
    {r r' : Registry} {c : Text} {g : ℕ} {l : WaitLease} {y : Task}
    → Installs r r' c g l
    → SlotsOk r
    → ((m : WaitLease) → lease_of y ≡ some m → Owns r m → m.channel_id ≢ c)
    → ((k : Handoff) → reserved_of y ≡ some k → (g ≢ k.new_generation) × (k.old_generation ≢ g))
    → TaskOk r y
    → TaskOk r' y
Installs-TaskOk i v away apart idle_ok = idle_ok
Installs-TaskOk {r} {r'} {c} {g} {l} i v away apart (begun_ok {q} {h} w) =
    begun_ok (Installs-Reserved r r' c g l i q h w (apart h refl).0 (apart h refl).1)
Installs-TaskOk {r} {r'} {c} {g} {l} i v away apart (waiting_ok {q} {h} w) =
    waiting_ok (Installs-Reserved r r' c g l i q h w (apart h refl).0 (apart h refl).1)
Installs-TaskOk {r} {r'} {c} {g} {l} i v away apart (confirmed_ok {q} {h} w a) =
    confirmed_ok (Installs-Reserved r r' c g l i q h w (apart h refl).0 (apart h refl).1)
      (Installs_acks r r' c g l i h.cell w.allocated a)
Installs-TaskOk {r} {r'} {c} {g} {l} i v away apart (failed_ok {q} {h} w) =
    failed_ok (Installs-Reserved r r' c g l i q h w (apart h refl).0 (apart h refl).1)
Installs-TaskOk {r} {r'} {c} {g} {l} i v away apart (holding_ok {l = m} o) =
    holding_ok (Installs-Owns_other r r' c g l i m v o (away m refl o))

admit-MoveOk :
    (r r' : Registry) (q : Request) (l : WaitLease)
    → SlotsOk r
    → lookup q.channel_id r.slots ≡ none
    → Installs r r' q.channel_id r.next_generation l
    → MoveOk r idle r' (holding l)
admit-MoveOk r r' q l v free i = record {
  slots = Installs-SlotsOk r r' q.channel_id r.next_generation l i v;
  self = holding_ok (Installs-Owns r r' q.channel_id r.next_generation l i);
  other = λ y ty a. (
    Installs-TaskOk i v
        (λ m e o d.
          let f : lookup q.channel_id r.slots ≡ some o.slot =
            subst (λ k. lookup k r.slots ≡ some o.slot) d o.found in
          cc)
        (λ k e.
          let (q', w) = TaskOk-Reserved k ty e in
          (omega (arith, w.taken), omega (arith, w.ordered, w.taken)))
        ty,
    holding-Apart r l y v i.cell ty,
  );
}

Reserves-Reserved :
    (r r' : Registry) (q : Request) (h : Handoff) → SlotsOk r → Reserves r r' q h → Reserved r' q h
Reserves-Reserved r r' q h v s = record {
  ordered =
      omega (arith, v.generations q.channel_id s.slot s.found, s.old_generation, s.new_generation);
  taken = omega (arith, s.new_generation, s.next_generation);
  allocated = omega (arith, v.cells q.channel_id s.slot s.found, s.cell, s.next_cell);
  unused = λ k s' e.
      let (s0, e0, g, c) = Frame-back k s' s.frame e in
      λ d. omega (arith, v.generations k s0 e0, s.new_generation, g, d);
  same_cell = λ s' e d.
      let (s0, e0, g, c) = Frame-back q.channel_id s' s.frame e in ground (arith, s.found, s.cell);
}

reserved-Apart :
    (r r' : Registry) (q : Request) (h : Handoff) (y : Task)
    → SlotsOk r
    → Reserves r r' q h
    → TaskOk r y
    → Apart (begun q h) y
reserved-Apart r r' q h y v s ty = record {
  leases = λ l m e. absurd (cc);
  handoffs = λ h' k e1 e2.
      let (q', w) = TaskOk-Reserved k ty e2 in
      ground (
        arith,
        w.taken,
        w.ordered,
        w.unused q.channel_id s.slot s.found,
        s.old_generation,
        s.new_generation,
      );
}

reserve-MoveOk :
    (r r' : Registry) (q : Request) (h : Handoff)
    → SlotsOk r
    → Reserves r r' q h
    → MoveOk r idle r' (begun q h)
reserve-MoveOk r r' q h v s =
    framed v s.frame s.keeps (begun_ok (Reserves-Reserved r r' q h v s))
      λ y ty a. reserved-Apart r r' q h y v s ty

pub prepare-MoveOk :
    (r r' : Registry) (q : Request) (now : ℤ) (fresh : Text) (out : Result CoreError Prepared)
    → SlotsOk r
    → acquire_prepare r q now fresh ≡ (out, r')
    → MoveOk r idle r' (prepared q (out, r')).1
prepare-MoveOk r r' q now fresh (ok (ready l)) v e =
    let (free, i) = prepare_ready r r' q now fresh l e in admit-MoveOk r r' q l v free i
prepare-MoveOk r r' q now fresh (ok (replacing h)) v e =
    reserve-MoveOk r r' q h v (prepare_replacing r r' q now fresh h e)
prepare-MoveOk r r' q now fresh (err x) v e =
    rw (prepare_error r r' q now fresh x e)
      (framed v (Frame-refl r) (λ l o. o) idle_ok (λ y ty a. a))
