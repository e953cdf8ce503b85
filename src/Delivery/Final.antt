-- ===== src/Delivery/Final.antt =====
-- `ChannelDelivery` of crates/chanvoy-daemon/src/follow_delivery.rs over any sequence of its calls.
use chanvoy.Base.{
  ℕ, List, Option, none, some, Result, ok, err, Bool, true, false, ◌&&◌, ◌||◌, not, if◌then◌else◌,
  is_none, ◌≡◌, ◌≢◌, refl, ◌∙◌, ◌⊎◌, inl, inr, Bool-cases,
}
use chanvoy.Delivery.{
  StopCause, transport, Gate, closed, open_, failed_, ChannelDelivery, latch, cause, latched_or,
  found_cause, poison, admit, admit_at, admitted_unless, stopped_by, WriteError, transport_unusable,
  context_unavailable, Selected, Peek, write, write_by, peeked, poison_on_error,
}
use chanvoy.Delivery.Steps.{Step, steps}
use chanvoy.Delivery.Onward.{steps-Stopped}

-- The delivery is over: every later call says so and changes nothing.
pub record Unusable (d : ChannelDelivery) : Type 0 where
  pub stops : (now : ℕ) → cause now d ≡ (some transport, d)
  pub admits_none : (now : ℕ) → (admit now d).0 ≡ some (err transport)
  pub writes_none :
      (completion : Bool) (now : ℕ) (s : Selected) (ready : Bool) (k : Peek)
      → write completion now s ready k d ≡ (err transport_unusable, d)

failed-Unusable : (d : ChannelDelivery) → d.failed ≡ true → Unusable d
unfolding cause admit write
failed-Unusable d h = record {
  stops = λ now. rw h refl;
  admits_none = λ now. by_gate d.gate now;
  writes_none = λ completion now s ready k. rw h refl;
}
  where
    by_gate : (g : Gate) (now : ℕ) → (admit_at g now d).0 ≡ some (err transport)
    by_gate open_ now = rw h refl
    by_gate failed_ now = refl
    by_gate closed now = rw h refl

poison_on_error-fails :
    (out : Result WriteError (Unit {0}) × ChannelDelivery) (e : WriteError)
    → (poison_on_error out).0 ≡ err e
    → (poison_on_error out).1.failed ≡ true
unfolding poison
poison_on_error-fails (ok u, d) e h = absurd cc
poison_on_error-fails (err x, d) e h = refl

write-fails :
    (completion : Bool) (now : ℕ) (s : Selected) (ready : Bool) (k : Peek) (d : ChannelDelivery)
    (e : WriteError)
    → (write completion now s ready k d).0 ≡ err e
    → (write completion now s ready k d).1.failed ≡ true
unfolding write poison
write-fails completion now s ready k d e h =
    by_tests d.failed
      (not completion && (is_none d.published_deadline || is_none d.published_session)) refl h
  where
    out : Result WriteError (Unit {0}) × ChannelDelivery
    out = peeked k (write_by (cause now d).0 s ready (cause now d).1)

    by_tests :
        (f g : Bool)
        → d.failed ≡ f
        → (if f
            then (err transport_unusable, d)
            else (if g then (err context_unavailable, poison d) else poison_on_error out)).0
          ≡ err e
        → (if f
            then (err transport_unusable, d)
            else (if g then (err context_unavailable, poison d) else poison_on_error out)).1.failed
          ≡ true
    by_tests true g same h = same
    by_tests false true same h = refl
    by_tests false false same h = poison_on_error-fails out e h

-- After a write that fails, and any later calls, the delivery is unusable: its cause is the transport,
-- nothing is admitted, and every write is refused, without a change.
pub failed_write_is_last :
    (completion : Bool) (now : ℕ) (s : Selected) (ready : Bool) (k : Peek) (d : ChannelDelivery)
    (e : WriteError) (ss : List Step)
    → (write completion now s ready k d).0 ≡ err e
    → Unusable (steps ss (write completion now s ready k d).1)
failed_write_is_last completion now s ready k d e ss h = failed-Unusable _ (
    (steps-Stopped ss (write completion now s ready k d).1).failed
      (write-fails completion now s ready k d e h))

-- What stays once a stop cause was given.
pub record StopsBy (c : StopCause) (d : ChannelDelivery) : Type 0 where
  pub stops : (now : ℕ) → ((cause now d).0 ≡ some c) ⊎ ((cause now d).0 ≡ some transport)
  pub admits_none : (now : ℕ) → (admit now d).0 ≢ some (ok tt)

cause-admits_none :
    (now : ℕ) (d : ChannelDelivery) (c : StopCause)
    → (cause now d).0 ≡ some c
    → (admit now d).0 ≢ some (ok tt)
unfolding admit
cause-admits_none now d c h = by_gate d.gate
  where
    by_cause :
        (o : Option StopCause) (v : ChannelDelivery)
        → o ≡ some c
        → ((admitted_unless o v).0 ≢ some (ok tt)) × ((stopped_by o v).0 ≢ some (ok tt))
    by_cause none v h = absurd cc
    by_cause (some x) v h = ((λ e. cc), (λ e. cc))

    by_gate : (g : Gate) → (admit_at g now d).0 ≢ some (ok tt)
    by_gate open_ = (by_cause (cause now d).0 (cause now d).1 h).0
    by_gate failed_ = λ e. cc
    by_gate closed = (by_cause (cause now d).0 (cause now d).1 h).1

latched_cause :
    (now : ℕ) (d : ChannelDelivery) (c : StopCause)
    → (d.failed ≡ true) ⊎ (d.latched ≡ some c)
    → ((cause now d).0 ≡ some c) ⊎ ((cause now d).0 ≡ some transport)
unfolding cause
latched_cause now d c (inl f) = inr (rw f refl)
latched_cause now d c (inr l) = elim (Bool-cases d.failed) [
  | inl f ↦ inr (rw f refl)
  | inr f ↦ inl (rw (f, l) refl)
]

stopped-StopsBy :
    (c : StopCause) (d : ChannelDelivery) → (d.failed ≡ true) ⊎ (d.latched ≡ some c) → StopsBy c d
stopped-StopsBy c d h = record {
  stops = λ now. latched_cause now d c h;
  admits_none = λ now. elim (latched_cause now d c h) [
    | inl e ↦ cause-admits_none now d c e
    | inr e ↦ cause-admits_none now d transport e
  ];
}

cause-latches :
    (now : ℕ) (d : ChannelDelivery) (c : StopCause)
    → (cause now d).0 ≡ some c
    → ((cause now d).1.failed ≡ true) ⊎ ((cause now d).1.latched ≡ some c)
unfolding cause latch
cause-latches now d c h = by_failed d.failed d.latched (found_cause now d) d refl refl h
  where
    by_failed :
        (f : Bool) (l found : Option StopCause) (d : ChannelDelivery)
        → d.failed ≡ f
        → d.latched ≡ l
        → (if f then (some transport, d) else latched_or l found d).0 ≡ some c
        → ((if f then (some transport, d) else latched_or l found d).1.failed ≡ true)
          ⊎ ((if f then (some transport, d) else latched_or l found d).1.latched ≡ some c)
    by_failed true l found d e g h = inl e
    by_failed false (some x) found d e g h = inr (g ∙ h)
    by_failed false none none d e g h = absurd cc
    by_failed false none (some x) d e g h = inr h

-- Once `cause` has given a stop cause, then after any later calls it gives that cause, or the
-- transport, at every time, and no poll of `admit` lets an entry through.
pub stop_cause_stands :
    (now : ℕ) (d : ChannelDelivery) (c : StopCause) (ss : List Step)
    → (cause now d).0 ≡ some c
    → StopsBy c (steps ss (cause now d).1)
stop_cause_stands now d c ss h =
    let on = steps-Stopped ss (cause now d).1 in
    stopped-StopsBy c _
      (elim (cause-latches now d c h) [ inl f ↦ inl (on.failed f) | inr l ↦ inr (on.latched c l) ])

pub admitted_gate :
    (now : ℕ) (d : ChannelDelivery)
    → (admit now d).0 ≡ some (ok tt)
    → (d.gate ≡ open_) × ((cause now d).0 ≡ none)
unfolding admit
admitted_gate now d h = by_gate d.gate refl h
  where
    by_cause :
        (o : Option StopCause) (v : ChannelDelivery)
        → ((admitted_unless o v).0 ≡ some (ok tt) → o ≡ none) × ((stopped_by o v).0 ≢ some (ok tt))
    by_cause none v = ((λ _. refl), (λ e. cc))
    by_cause (some x) v = ((λ e. absurd cc), (λ e. cc))

    by_gate :
        (g : Gate)
        → d.gate ≡ g
        → (admit_at g now d).0 ≡ some (ok tt)
        → (d.gate ≡ open_) × ((cause now d).0 ≡ none)
    by_gate open_ e h = (e, (by_cause (cause now d).0 (cause now d).1).0 h)
    by_gate failed_ e h = absurd cc
    by_gate closed e h = absurd ((by_cause (cause now d).0 (cause now d).1).1 h)
