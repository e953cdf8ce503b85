-- ===== src/Delivery/Unarmed.antt =====
-- The producer of a channel follow, of crates/chanvoy-daemon/src/waitprims_hold.rs, up to the
-- acknowledgement of its armed record.
use chanvoy.Base.{
  ℕ, List, [], ◌∷◌, ◌++◌, Option, none, some, Result, ok, err, Bool, true, false, if◌then◌else◌,
  ◌≡◌, ◌≢◌, refl, ap, subst, ◌∙◌, ◌⊎◌, inl, inr,
}
use chanvoy.Delivery.{
  StopCause, open_, ChannelDelivery, cause, Selected, Peek, write_record, RecordError,
}
use chanvoy.Delivery.Steps.{step}
use chanvoy.Delivery.Onward.{Onward, step-Onward, write_record-Onward, cause-Onward, stays}
use chanvoy.Delivery.Producer.{
  Producer, binding, permitted, awaiting, acknowledged, tested, streaming, ended, StreamRecord,
  armed_record, other_record, Hold, HoldEvent, permit_granted, permit_stopped, permit_sent,
  record_taken, receipt_taken, receipt_lost, gate_tested, gate_opened, other_queued, dropped,
  elsewhere, is_elsewhere, stopped_on, sent_unless, taken, answered, is_binding, is_permitted,
  is_awaiting, is_acknowledged, gate_write, take_record, hold_step,
}

-- Along the events, the armed record was once taken from the stream, and its write succeeded.
pub data ArmedWritten : List HoldEvent → Hold → Type 0 where
  here :
      (encoded alive : Bool) (now : ℕ) (s : Selected) (ready : Bool) (k : Peek)
      (queue : List StreamRecord) (es : List HoldEvent) (h : Hold)
      → h.queue ≡ armed_record ∷ queue
      → (write_record encoded alive now s ready k h.delivery).0 ≡ ok tt
      → ArmedWritten (record_taken encoded alive now s ready k ∷ es) h
  later :
      (e : HoldEvent) (es : List HoldEvent) (h h' : Hold)
      → hold_step e h ≡ some h'
      → ArmedWritten es h'
      → ArmedWritten (e ∷ es) h

abbrev pub is_early : Producer → Bool
is_early binding = true
is_early permitted = true
is_early awaiting = true
is_early acknowledged = false
is_early (tested passed) = false
is_early streaming = false
is_early ended = true

-- No armed record was acknowledged yet, and the gate is not open.
pub record Unarmed (h : Hold) : Type 0 where
  pub early : is_early h.producer ≡ true
  pub no_receipt : h.receipt ≢ some true
  pub shut : h.delivery.gate ≢ open_

pub same : (a b : Hold) → some a ≡ some b → a ≡ b
same a b e = cc

moved :
    (h : Hold) (p : Producer) (queue : List StreamRecord) (d : ChannelDelivery)
    → Unarmed h
    → is_early p ≡ true
    → Onward h.delivery d
    → Unarmed (record h { producer = p; queue = queue; delivery = d })
moved h p queue d u e o = record {
  early = e;
  no_receipt = u.no_receipt;
  shut = λ g. u.shut (o.gate g);
}

taken-Unarmed :
    (x : StreamRecord) (queue : List StreamRecord) (encoded alive : Bool) (now : ℕ) (s : Selected)
    (ready : Bool) (k : Peek) (es : List HoldEvent) (h h' : Hold)
    (out : Result RecordError (Unit {0}) × ChannelDelivery)
    → Unarmed h
    → h.queue ≡ x ∷ queue
    → write_record encoded alive now s ready k h.delivery ≡ out
    → some (taken x queue alive out h) ≡ some h'
    → ArmedWritten (record_taken encoded alive now s ready k ∷ es) h ⊎ Unarmed h'
taken-Unarmed armed_record queue encoded alive now s ready k es h h' (ok tt, d) u q w e =
    inl (here encoded alive now s ready k queue es h q (ap (λ o. o.0) w))
taken-Unarmed armed_record queue encoded true now s ready k es h h' (err f, d) u q w e =
    let o = write_record-Onward encoded true now s ready k h.delivery in
    inr (
      subst Unarmed (same _ h' e) (record {
        early = u.early;
        no_receipt = λ r. cc;
        shut = λ g. u.shut (o.gate (ap (λ x. x.1.gate) w ∙ g));
      }))
taken-Unarmed armed_record queue encoded false now s ready k es h h' (err f, d) u q w e =
    let o = write_record-Onward encoded false now s ready k h.delivery in
    inr (
      subst Unarmed (same _ h' e) (record {
        early = u.early;
        no_receipt = u.no_receipt;
        shut = λ g. u.shut (o.gate (ap (λ x. x.1.gate) w ∙ g));
      }))
taken-Unarmed other_record queue encoded alive now s ready k es h h' (r, d) u q w e =
    let o = write_record-Onward encoded alive now s ready k h.delivery in
    inr (
      subst Unarmed (same _ h' e) (record {
        early = u.early;
        no_receipt = u.no_receipt;
        shut = λ g. u.shut (o.gate (ap (λ x. x.1.gate) w ∙ g));
      }))

take_record-Unarmed :
    (queue : List StreamRecord) (encoded alive : Bool) (now : ℕ) (s : Selected) (ready : Bool)
    (k : Peek) (es : List HoldEvent) (h h' : Hold)
    → Unarmed h
    → h.queue ≡ queue
    → take_record queue encoded alive now s ready k h ≡ some h'
    → ArmedWritten (record_taken encoded alive now s ready k ∷ es) h ⊎ Unarmed h'
take_record-Unarmed [] encoded alive now s ready k es h h' u q e = absurd (cc)
take_record-Unarmed (x ∷ queue) encoded alive now s ready k es h h' u q e =
    taken-Unarmed x queue encoded alive now s ready k es h h' _ u q refl e

of_test :
    (b : Bool) (o : Option Hold) (h' : Hold)
    → (if b then o else none) ≡ some h'
    → (b ≡ true) × (o ≡ some h')
of_test true o h' e = (refl, e)
of_test false o h' e = absurd (cc)

late : (p : Producer) → is_acknowledged p ≡ true → is_early p ≡ false
late binding e = absurd (cc)
late permitted e = absurd (cc)
late awaiting e = absurd (cc)
late acknowledged e = refl
late (tested passed) e = refl
late streaming e = refl
late ended e = absurd (cc)

stopped_on-Unarmed :
    (h h' : Hold) (out : Option StopCause × ChannelDelivery)
    → Unarmed h
    → Onward h.delivery out.1
    → stopped_on h out ≡ some h'
    → Unarmed h'
stopped_on-Unarmed h h' (none, d) u o e = absurd (cc)
stopped_on-Unarmed h h' (some c, d) u o e =
    subst Unarmed (same _ h' e) (moved h ended h.queue d u refl o)

sent_unless-Unarmed :
    (h : Hold) (out : Option StopCause × ChannelDelivery)
    → Unarmed h
    → Onward h.delivery out.1
    → Unarmed (sent_unless h out)
sent_unless-Unarmed h (some c, d) u o = moved h ended h.queue d u refl o
sent_unless-Unarmed h (none, d) u o = moved h awaiting (h.queue ++ (armed_record ∷ [])) d u refl o

answered-Unarmed :
    (r : Option Bool) (h h' : Hold)
    → Unarmed h
    → h.receipt ≡ r
    → answered r h ≡ some h'
    → Unarmed h'
answered-Unarmed none h h' u q e = absurd (cc)
answered-Unarmed (some true) h h' u q e = absurd (u.no_receipt q)
answered-Unarmed (some false) h h' u q e =
    subst Unarmed (same _ h' e) (moved h ended h.queue h.delivery u refl (stays h.delivery))

gate_write-Unarmed :
    (p : Producer) (h h' : Hold) → is_early p ≡ true → gate_write p h ≡ some h' → Unarmed h'
gate_write-Unarmed binding h h' u e = absurd (cc)
gate_write-Unarmed permitted h h' u e = absurd (cc)
gate_write-Unarmed awaiting h h' u e = absurd (cc)
gate_write-Unarmed acknowledged h h' u e = absurd (cc)
gate_write-Unarmed (tested passed) h h' u e = absurd (cc)
gate_write-Unarmed streaming h h' u e = absurd (cc)
gate_write-Unarmed ended h h' u e = absurd (cc)

-- An event writes the armed record, or leaves the hold unarmed.
pub hold_step-Unarmed :
    (e : HoldEvent) (es : List HoldEvent) (h h' : Hold)
    → Unarmed h
    → hold_step e h ≡ some h'
    → ArmedWritten (e ∷ es) h ⊎ Unarmed h'
unfolding hold_step
hold_step-Unarmed permit_granted es h h' u e =
    let (b, f) = of_test (is_binding h.producer) _ h' e in
    inr
      (subst Unarmed (same _ h' f) (moved h permitted h.queue h.delivery u refl (stays h.delivery)))
hold_step-Unarmed (permit_stopped now) es h h' u e =
    let (b, f) = of_test (is_binding h.producer) _ h' e in
    inr (stopped_on-Unarmed h h' (cause now h.delivery) u (cause-Onward now h.delivery) f)
hold_step-Unarmed (permit_sent now) es h h' u e =
    let (b, f) = of_test (is_permitted h.producer) _ h' e in
    inr (
      subst Unarmed (same _ h' f)
        (sent_unless-Unarmed h (cause now h.delivery) u (cause-Onward now h.delivery)))
hold_step-Unarmed (record_taken encoded alive now s ready k) es h h' u e =
    take_record-Unarmed h.queue encoded alive now s ready k es h h' u refl e
hold_step-Unarmed receipt_taken es h h' u e =
    let (b, f) = of_test (is_awaiting h.producer) _ h' e in
    inr (answered-Unarmed h.receipt h h' u refl f)
hold_step-Unarmed receipt_lost es h h' u e =
    let (b, f) = of_test (is_awaiting h.producer) _ h' e in
    inr (subst Unarmed (same _ h' f) (moved h ended h.queue h.delivery u refl (stays h.delivery)))
hold_step-Unarmed gate_tested es h h' u e =
    let (b, f) = of_test (is_acknowledged h.producer) _ h' e in
    let l = late h.producer b in let y = u.early in absurd (cc)
hold_step-Unarmed gate_opened es h h' u e = inr (gate_write-Unarmed h.producer h h' u.early e)
hold_step-Unarmed other_queued es h h' u e = inr (
    subst Unarmed (same _ h' e)
      (moved h h.producer (h.queue ++ (other_record ∷ [])) h.delivery u u.early (stays h.delivery)))
hold_step-Unarmed dropped es h h' u e =
    inr (subst Unarmed (same _ h' e) (moved h ended h.queue h.delivery u refl (stays h.delivery)))
hold_step-Unarmed (elsewhere s) es h h' u e =
    let (b, f) = of_test (is_elsewhere s) _ h' e in
    inr (
      subst Unarmed (same _ h' f) (
        moved h h.producer h.queue (step s h.delivery) u u.early
          (step-Onward s h.delivery (λ g. not_sent (ap is_elsewhere g) b))))
  where
    not_sent : is_elsewhere s ≡ false → is_elsewhere s ≡ true → ⊥
    not_sent a b = cc
