-- ===== src/Registry/Protocol/Exclusion.antt =====
-- The wait registry under every interleaving of its tasks: one waiter for each channel.
use chanvoy.Base.{
  ℕ, ◌≡◌, ◌≢◌, ◌∙◌, sym, ap, ok, true, false, ◌==◌, arith, inl, inr, Bool-cases, subst,
}
use chanvoy.Base.Texts.{text_eq}
use chanvoy.Base.Maps.{lookup}
use chanvoy.Registry.{Registry, WaitLease, for_instance}
use chanvoy.Registry.Acquire.{Request, Handoff, acquire_install}
use chanvoy.Registry.Protocol.{
  idle, confirmed, holding, World, Move, move, assign, Step, task, admission, shut_down, Reach,
  here, next, start,
}
use chanvoy.Registry.Protocol.Invariant.{
  Owns, Reserved, TaskOk, idle_ok, confirmed_ok, lease_of, Apart, Inv,
}
use chanvoy.Registry.Protocol.Frames.{Frame-SlotsOk}
use chanvoy.Registry.Protocol.Finish.{Owns-same_channel, cancel_all-Frame, cancel_all-Owns}
use chanvoy.Registry.Protocol.Admissions.{arena_step-Frame, arena_step-Owns}
use chanvoy.Registry.Protocol.Install.{install_ok}
use chanvoy.Registry.Protocol.Effects.{MoveOk, TaskOk-Owns, Frame-TaskOk, idle-Apart}
use chanvoy.Registry.Protocol.Moves.{move-MoveOk, Apart-sym}

start-Inv : (i : ℕ) → Inv (start i)
unfolding for_instance lookup
start-Inv i = record {
  slots = record { generations = λ k s e. absurd (cc); cells = λ k s e. absurd (cc) };
  each = λ t. idle_ok;
  pairs = λ t u d. idle-Apart idle;
}

ne_of_test : (t u : ℕ) → (u == t) ≡ false → t ≢ u
ne_of_test t u e d = ground arith

eq_of_test : (t u : ℕ) → (u == t) ≡ true → u ≡ t
eq_of_test t u e = ground arith

module _ (w : World) (t : ℕ) (m : Move (w.tasks t)) (v : Inv w) where
  moved : MoveOk w.registry (w.tasks t) (move m w.registry).0 (move m w.registry).1
  moved = move-MoveOk m w.registry v.slots (v.each t)

  moved_each : (u : ℕ) → TaskOk (move m w.registry).0 (assign w.tasks t (move m w.registry).1 u)
  moved_each u = elim (Bool-cases (u == t)) [
    | inl e ↦ rw e moved.self
    | inr e ↦ rw e (moved.other (w.tasks u) (v.each u) (v.pairs t u (ne_of_test t u e))).0
  ]

  moved-Apart : (u : ℕ) → t ≢ u → Apart (move m w.registry).1 (w.tasks u)
  moved-Apart u d = (moved.other (w.tasks u) (v.each u) (v.pairs t u d)).1

  moved_pairs :
      (a b : ℕ)
      → a ≢ b
      → Apart (assign w.tasks t (move m w.registry).1 a) (assign w.tasks t (move m w.registry).1 b)
  moved_pairs a b d = elim (Bool-cases (a == t)) [
    | inl e ↦ elim (Bool-cases (b == t)) [
      | inl f ↦ absurd (d (eq_of_test t a e ∙ sym (eq_of_test t b f)))
      | inr f ↦ rw (e, f) (moved-Apart b (ne_of_test t b f))
    ]
    | inr e ↦ elim (Bool-cases (b == t)) [
      | inl f ↦ rw (e, f) (Apart-sym (moved-Apart a (ne_of_test t a e)))
      | inr f ↦ rw (e, f) (v.pairs a b d)
    ]
  ]

Step-Inv : {w w' : World} → Step w w' → Inv w → Inv w'
Step-Inv {w} (task t m) v = record {
  slots = (moved w t m v).slots;
  each = moved_each w t m v;
  pairs = moved_pairs w t m v;
}
Step-Inv {w} (admission c) v =
    let f = arena_step-Frame c w.registry in
    record {
      slots = Frame-SlotsOk f v.slots;
      each = λ t. Frame-TaskOk f (λ l e o. arena_step-Owns c w.registry l o) (v.each t);
      pairs = v.pairs;
    }
Step-Inv {w} shut_down v =
    let f = cancel_all-Frame w.registry in
    record {
      slots = Frame-SlotsOk f v.slots;
      each = λ t. Frame-TaskOk f (λ l e o. cancel_all-Owns w.registry l o) (v.each t);
      pairs = v.pairs;
    }

Reach-Inv : {w w' : World} → Inv w → Reach w w' → Inv w'
Reach-Inv v here = v
Reach-Inv v (next r s) = Step-Inv s (Reach-Inv v r)

-- In every interleaving, a task whose guard is not complete is the visible owner of its channel:
-- the slot of the channel has the lease's generation and cell, and its cleanup is unacknowledged.
pub holder-Owns :
    (i t : ℕ) (w : World) (l : WaitLease)
    → Reach (start i) w
    → w.tasks t ≡ holding l
    → Owns w.registry l
holder-Owns i t w l r e = TaskOk-Owns l ((Reach-Inv (start-Inv i) r).each t) (ap lease_of e)

-- In every interleaving of acquisitions, replacements, timeouts, dropped tasks and completions,
-- two tasks never hold leases on one channel at the same time.
pub one_waiter_per_channel :
    (i t u : ℕ) (w : World) (l m : WaitLease)
    → Reach (start i) w
    → w.tasks t ≡ holding l
    → w.tasks u ≡ holding m
    → l.channel_id ≡ m.channel_id
    → t ≡ u
one_waiter_per_channel i t u w l m r e f c = elim (Bool-cases (t == u)) [
  | inl same ↦ eq_of_test u t same
  | inr other ↦
      let v = Reach-Inv (start-Inv i) r in
      let shared =
        Owns-same_channel w.registry l m (holder-Owns i t w l r e) (holder-Owns i u w m r f) c in
      absurd (
        (v.pairs t u (λ d. ne_of_test u t other (sym d))).leases l m (ap lease_of e) (ap lease_of f)
          shared)
]

confirmed-acked :
    {r : Registry} {q : Request} {h : Handoff}
    → TaskOk r (confirmed q h)
    → Reserved r q h × ((r.cells h.cell).cleanup_acked ≡ true)
confirmed-acked (confirmed_ok w a) = (w, a)

-- A replacement is installed only over a finished wait: when the second locked section of a
-- confirmed replacement succeeds, no task holds a lease on that channel.
pub replacement_waits_for_cleanup :
    (i t u : ℕ) (w : World) (q : Request) (h : Handoff) (l m : WaitLease) (r' : Registry)
    → Reach (start i) w
    → w.tasks t ≡ confirmed q h
    → acquire_install w.registry q h ≡ (ok l, r')
    → w.tasks u ≡ holding m
    → m.channel_id ≢ q.channel_id
replacement_waits_for_cleanup i t u w q h l m r' r e out f c =
    let (k, acked) =
      confirmed-acked (subst (TaskOk w.registry) e ((Reach-Inv (start-Inv i) r).each t)) in
    let o = holder-Owns i u w m r f in
    let (s, found, g, _) = install_ok w.registry r' q h l k.taken out in
    let same : o.slot ≡ s = ground (arith, o.found, found) in
    ground (arith, k.same_cell s found g, o.cell, o.not_acked)
