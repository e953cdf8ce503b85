-- ===== src/Registry/Protocol/Moves.antt =====
-- Each move of a task keeps the invariant, for the task that moves and for any other.
use chanvoy.Base.{◌≡◌, refl, sym, Result, ok, err, Bool, true, false, arith}
use chanvoy.Base.Texts.{text_eq}
use chanvoy.Registry.{Registry, WaitLease, CoreError}
use chanvoy.Registry.Guard.{complete_guard}
use chanvoy.Registry.Acquire.{Request, Handoff, acquire_prepare, acquire_install}
use chanvoy.Registry.Protocol.{
  Task, idle, begun, waiting, confirmed, failed, holding, Move, prepare, cancel_old, time_out,
  confirm, install, drop_begun, drop_waiting, drop_confirmed, drop_failed, complete, move,
  installed, confirmed_if, dropped,
}
use chanvoy.Registry.Protocol.Invariant.{
  Owns, Reserved, TaskOk, idle_ok, begun_ok, waiting_ok, confirmed_ok, failed_ok, holding_ok, Apart,
  SlotsOk,
}
use chanvoy.Registry.Protocol.Frames.{
  Frame-refl, Frame-Reserved, Frame-SlotsOk, cancel_cell-Frame, cancel_cell-Owns,
  abandon_handoff-Frame, abandon_handoff-Owns,
}
use chanvoy.Registry.Protocol.Finish.{complete_guard-Frame, complete_guard-Owns}
use chanvoy.Registry.Protocol.Install.{install_ok, install_error, Installs-Owns, Installs-SlotsOk}
use chanvoy.Registry.Protocol.Effects.{
  Frame-TaskOk, idle-Apart, MoveOk, framed, holding-Apart, Installs-TaskOk, prepare-MoveOk,
}

install-MoveOk :
    (r r' : Registry) (q : Request) (h : Handoff) (out : Result CoreError WaitLease)
    → SlotsOk r
    → Reserved r q h
    → (r.cells h.cell).cleanup_acked ≡ true
    → acquire_install r q h ≡ (out, r')
    → MoveOk r (confirmed q h) r' (installed q h (out, r')).1
install-MoveOk r r' q h (ok l) v w acked e =
    let (s, f, g, i) = install_ok r r' q h l w.taken e in
    record {
      slots = Installs-SlotsOk r r' q.channel_id h.new_generation l i v;
      self = holding_ok (Installs-Owns r r' q.channel_id h.new_generation l i);
      other = λ y ty a. (
        Installs-TaskOk i v
            (λ m e' o d.
              let same : o.slot ≡ s = ground (arith, o.found, f) in
              ground (arith, w.same_cell s f g, o.cell, o.not_acked))
            (λ k e'. let apart = a.handoffs h k refl e' in (apart.0, apart.2)) ty,
        holding-Apart r l y v i.cell ty,
      );
    }
install-MoveOk r r' q h (err x) v w acked e =
    let (f, keep) = install_error r r' q h x e in
    framed v f keep (failed_ok (Frame-Reserved q h f w))
      (λ y ty a. record { leases = a.leases; handoffs = a.handoffs })

dropped-MoveOk :
    (r : Registry) (x : Task) (q : Request) (h : Handoff)
    → SlotsOk r
    → MoveOk r x (dropped r q h).0 (dropped r q h).1
dropped-MoveOk r x q h v =
    framed v (abandon_handoff-Frame r q.channel_id h.old_generation)
      (abandon_handoff-Owns r q.channel_id h.old_generation) idle_ok (λ y ty a. idle-Apart y)

-- A guard completes: the slot goes or is acknowledged, and no other owner is touched.
complete-MoveOk :
    (r : Registry) (l : WaitLease) (observed : Bool)
    → SlotsOk r
    → Owns r l
    → MoveOk r (holding l) (complete_guard r l.channel_id l.generation l.cell observed) idle
complete-MoveOk r l observed v o =
    let f = complete_guard-Frame r l.channel_id l.generation l.cell observed in
    record {
      slots = Frame-SlotsOk f v;
      self = idle_ok;
      other = λ y ty a. (
        Frame-TaskOk f
            (λ m e p. complete_guard-Owns r l m observed o p (λ d. a.leases l m refl e (sym d))) ty,
        idle-Apart y,
      );
    }

confirm-MoveOk :
    (r : Registry) (q : Request) (h : Handoff) (acked : Bool)
    → SlotsOk r
    → Reserved r q h
    → (r.cells h.cell).cleanup_acked ≡ acked
    → MoveOk r (waiting q h) r (confirmed_if acked q h)
confirm-MoveOk r q h true v w e =
    framed v (Frame-refl r) (λ l o. o) (confirmed_ok w e)
      (λ y ty a. record { leases = a.leases; handoffs = a.handoffs })
confirm-MoveOk r q h false v w e = framed v (Frame-refl r) (λ l o. o) (waiting_ok w) (λ y ty a. a)

pub move-MoveOk :
    {x : Task} (m : Move x) (r : Registry)
    → SlotsOk r
    → TaskOk r x
    → MoveOk r x (move m r).0 (move m r).1
unfolding move
move-MoveOk (prepare q now fresh) r v ty =
    prepare-MoveOk r (acquire_prepare r q now fresh).1 q now fresh (acquire_prepare r q now fresh).0
      v refl
move-MoveOk (cancel_old q h) r v (begun_ok w) =
    framed v (cancel_cell-Frame r h.cell) (cancel_cell-Owns r h.cell)
      (waiting_ok (Frame-Reserved q h (cancel_cell-Frame r h.cell) w))
      (λ y ty a. record { leases = a.leases; handoffs = a.handoffs })
move-MoveOk (time_out q h) r v (waiting_ok w) =
    framed v (abandon_handoff-Frame r q.channel_id h.old_generation)
      (abandon_handoff-Owns r q.channel_id h.old_generation)
      (failed_ok (Frame-Reserved q h (abandon_handoff-Frame r q.channel_id h.old_generation) w))
      (λ y ty a. record { leases = a.leases; handoffs = a.handoffs })
move-MoveOk (confirm q h) r v (waiting_ok w) =
    confirm-MoveOk r q h (r.cells h.cell).cleanup_acked v w refl
move-MoveOk (install q h) r v (confirmed_ok w acked) =
    install-MoveOk r (acquire_install r q h).1 q h (acquire_install r q h).0 v w acked refl
move-MoveOk (drop_begun q h) r v ty = dropped-MoveOk r (begun q h) q h v
move-MoveOk (drop_waiting q h) r v ty = dropped-MoveOk r (waiting q h) q h v
move-MoveOk (drop_confirmed q h) r v ty = dropped-MoveOk r (confirmed q h) q h v
move-MoveOk (drop_failed q h) r v ty = dropped-MoveOk r (failed q h) q h v
move-MoveOk (complete lease observed) r v (holding_ok o) = complete-MoveOk r lease observed v o

pub Apart-sym : {x y : Task} → Apart x y → Apart y x
Apart-sym a = record {
  leases = λ l m e f d. a.leases m l f e (sym d);
  handoffs = λ h k e f. let b = a.handoffs k h f e in (λ d. b.0 (sym d), b.2, b.1);
}
