-- ===== src/Delivery/Onward.antt =====
-- What the calls of `ChannelDelivery`, in crates/chanvoy-daemon/src/follow_delivery.rs, keep.
use chanvoy.Base.{
  ℕ, List, [], ◌∷◌, Option, none, some, Result, ok, err, Bool, true, false, ◌&&◌, ◌||◌, not,
  if◌then◌else◌, is_none, ◌≡◌, ◌≢◌, refl, sym, ◌∙◌, arith,
}
use chanvoy.Delivery.{
  StopCause, transport, Gate, closed, open_, failed_, ChannelDelivery, publish_deadline,
  publish_session, latch, cause, latched_or, found_cause, client_disconnected, poison, close_gate,
  open_gate, send_open, admit, admit_at, admitted_unless, stopped_by, WriteError,
  transport_unusable, context_unavailable, Selected, write_done, stopped_at, line_read, line_failed,
  Peek, eof, other_bytes, pending, peek_error, write, write_by, selected, peeked, poison_on_error,
  acked, encode_failed, write_record, write_response, ready_only,
}
use chanvoy.Delivery.Steps.{
  Step, deadline_published, session_published, session_canceled, cause_read, admission_polled,
  disconnected, poisoned, gate_closed, gate_checked, gate_sent, record_written, response_written,
  step, steps,
}

-- What a call does to the fields that say why the delivery stops, and to the gate; only the write of
-- the gate opens it.
pub record Onward (d d' : ChannelDelivery) : Type 0 where
  pub failed : d.failed ≡ true → d'.failed ≡ true
  pub latched : (c : StopCause) → d.latched ≡ some c → d'.latched ≡ some c
  pub gate : d'.gate ≡ open_ → d.gate ≡ open_

pub stays : (d : ChannelDelivery) → Onward d d
stays d = record { failed = λ h. h; latched = λ c h. h; gate = λ h. h }

Onward-then : {a b c : ChannelDelivery} → Onward a b → Onward b c → Onward a c
Onward-then h k = record {
  failed = λ f. k.failed (h.failed f);
  latched = λ x l. k.latched x (h.latched x l);
  gate = λ g. h.gate (k.gate g);
}

poison-Onward : (d : ChannelDelivery) → Onward d (poison d)
unfolding poison
poison-Onward d = record { failed = λ _. refl; latched = λ c h. h; gate = λ g. absurd cc }

pub cause-Onward : (now : ℕ) (d : ChannelDelivery) → Onward d (cause now d).1
unfolding cause latch
cause-Onward now d = by_failed d.failed d.latched (found_cause now d) d refl
  where
    by_failed :
        (f : Bool) (l found : Option StopCause) (d : ChannelDelivery)
        → d.latched ≡ l
        → Onward d (if f then (some transport, d) else latched_or l found d).1
    by_failed true l found d e = stays d
    by_failed false (some c) found d e = stays d
    by_failed false none none d e = stays d
    by_failed false none (some c) d e = record {
      failed = λ h. h;
      latched = λ x h. absurd cc;
      gate = λ h. h;
    }

stopped-Onward :
    (c : Option StopCause) (d : ChannelDelivery)
    → Onward d (stopped_by c d).1 × Onward d (admitted_unless c d).1
stopped-Onward none d = (stays d, stays d)
stopped-Onward (some c) d = (
  record { failed = λ h. h; latched = λ x h. h; gate = λ h. h },
  record { failed = λ h. h; latched = λ x h. h; gate = λ h. h },
)

admit-Onward : (now : ℕ) (d : ChannelDelivery) → Onward d (admit now d).1
unfolding admit
admit-Onward now d = by_gate d.gate
  where
    by_gate : (g : Gate) → Onward d (admit_at g now d).1
    by_gate open_ =
        Onward-then (cause-Onward now d) ((stopped-Onward (cause now d).0 (cause now d).1).1)
    by_gate failed_ = stays d
    by_gate closed =
        Onward-then (cause-Onward now d) ((stopped-Onward (cause now d).0 (cause now d).1).0)

peeked-Onward :
    (k : Peek) (out : Result WriteError (Unit {0}) × ChannelDelivery)
    → Onward out.1 (poison_on_error (peeked k out)).1
unfolding client_disconnected
peeked-Onward k (err e, d) = poison-Onward d
peeked-Onward eof (ok u, d) = record { failed = λ h. h; latched = λ x h. h; gate = λ h. h }
peeked-Onward other_bytes (ok u, d) = stays d
peeked-Onward pending (ok u, d) = stays d
peeked-Onward peek_error (ok u, d) = poison-Onward d

selected-Onward :
    (s : Selected) (ready : Bool) (d : ChannelDelivery) → Onward d (selected s ready d).1
unfolding client_disconnected
selected-Onward (write_done done) ready d = stays d
selected-Onward (stopped_at now) ready d = cause-Onward now d
selected-Onward line_read ready d = record { failed = λ h. h; latched = λ x h. h; gate = λ h. h }
selected-Onward line_failed ready d = stays d

write_by-Onward :
    (c : Option StopCause) (s : Selected) (ready : Bool) (d : ChannelDelivery)
    → Onward d (write_by c s ready d).1
write_by-Onward (some c) s ready d = stays d
write_by-Onward none s ready d = by_test (is_none d.published_deadline)
  where
    by_test : (b : Bool) → Onward d (if b then (ready_only ready, d) else selected s ready d).1
    by_test true = stays d
    by_test false = selected-Onward s ready d

write-Onward :
    (completion : Bool) (now : ℕ) (s : Selected) (ready : Bool) (k : Peek) (d : ChannelDelivery)
    → Onward d (write completion now s ready k d).1
unfolding write
write-Onward completion now s ready k d =
    by_tests d.failed
      (not completion && (is_none d.published_deadline || is_none d.published_session))
  where
    by_tests :
        (f g : Bool)
        → Onward d
            (if f
              then (err transport_unusable, d)
              else (if g
                  then (err context_unavailable, poison d)
                  else poison_on_error
                      (peeked k (write_by (cause now d).0 s ready (cause now d).1)))).1
    by_tests true g = stays d
    by_tests false true = poison-Onward d
    by_tests false false = Onward-then (cause-Onward now d) (
        Onward-then (write_by-Onward (cause now d).0 s ready (cause now d).1)
          (peeked-Onward k (write_by (cause now d).0 s ready (cause now d).1)))

acked-Onward :
    (alive : Bool) (out : Result WriteError (Unit {0}) × ChannelDelivery)
    → Onward out.1 (acked alive out).1
acked-Onward true (ok u, d) = stays d
acked-Onward false (ok u, d) = poison-Onward d
acked-Onward true (err e, d) = stays d
acked-Onward false (err e, d) = stays d

record-Onward :
    (encoded alive completion : Bool) (now : ℕ) (s : Selected) (ready : Bool) (k : Peek)
    (d : ChannelDelivery)
    → Onward d
        (if encoded
          then acked alive (write completion now s ready k d)
          else (err encode_failed, poison d)).1
record-Onward true alive completion now s ready k d =
    Onward-then (write-Onward completion now s ready k d)
      (acked-Onward alive (write completion now s ready k d))
record-Onward false alive completion now s ready k d = poison-Onward d

same_stop :
    {d d' : ChannelDelivery}
    → d.failed ≡ d'.failed
    → d.latched ≡ d'.latched
    → (d'.gate ≡ open_ → d.gate ≡ open_)
    → Onward d d'
same_stop f l g = record { failed = λ h. sym f ∙ h; latched = λ c h. sym l ∙ h; gate = g }

pub write_record-Onward :
    (encoded alive : Bool) (now : ℕ) (s : Selected) (ready : Bool) (k : Peek) (d : ChannelDelivery)
    → Onward d (write_record encoded alive now s ready k d).1
unfolding write_record
write_record-Onward encoded alive now s ready k d =
    record-Onward encoded alive false now s ready k d

pub open_gate-Onward : (d : ChannelDelivery) → Onward d (open_gate d).1
unfolding open_gate
open_gate-Onward d = same_stop refl refl (λ g. g)

pub step-Onward : (s : Step) (d : ChannelDelivery) → s ≢ gate_sent → Onward d (step s d)
unfolding step publish_deadline publish_session client_disconnected close_gate write_response
step-Onward (deadline_published at) d n = same_stop (ground arith) (ground arith) (ground arith)
step-Onward (session_published s) d n = same_stop (ground arith) (ground arith) (ground arith)
step-Onward (session_canceled id) d n = same_stop refl refl (λ h. h)
step-Onward (cause_read now) d n = cause-Onward now d
step-Onward (admission_polled now) d n = admit-Onward now d
step-Onward disconnected d n = same_stop refl refl (λ h. h)
step-Onward poisoned d n = poison-Onward d
step-Onward gate_closed d n = same_stop refl refl (λ g. absurd cc)
step-Onward gate_checked d n = open_gate-Onward d
step-Onward gate_sent d n = absurd (n refl)
step-Onward (record_written encoded alive now s ready k) d n =
    write_record-Onward encoded alive now s ready k d
step-Onward (response_written encoded now s ready k) d n =
    record-Onward encoded true true now s ready k d

-- The same for any calls, the write of the gate included, but for the gate.
pub record Stopped (d d' : ChannelDelivery) : Type 0 where
  pub failed : d.failed ≡ true → d'.failed ≡ true
  pub latched : (c : StopCause) → d.latched ≡ some c → d'.latched ≡ some c

Onward-Stopped : {d d' : ChannelDelivery} → Onward d d' → Stopped d d'
Onward-Stopped h = record { failed = h.failed; latched = h.latched }

step-Stopped : (s : Step) (d : ChannelDelivery) → Stopped d (step s d)
unfolding step send_open
step-Stopped gate_sent d = record { failed = λ h. h; latched = λ c h. h }
step-Stopped (deadline_published at) d =
    Onward-Stopped (step-Onward (deadline_published at) d (λ e. cc))
step-Stopped (session_published s) d =
    Onward-Stopped (step-Onward (session_published s) d (λ e. cc))
step-Stopped (session_canceled id) d =
    Onward-Stopped (step-Onward (session_canceled id) d (λ e. cc))
step-Stopped (cause_read now) d = Onward-Stopped (step-Onward (cause_read now) d (λ e. cc))
step-Stopped (admission_polled now) d =
    Onward-Stopped (step-Onward (admission_polled now) d (λ e. cc))
step-Stopped disconnected d = Onward-Stopped (step-Onward disconnected d (λ e. cc))
step-Stopped poisoned d = Onward-Stopped (step-Onward poisoned d (λ e. cc))
step-Stopped gate_closed d = Onward-Stopped (step-Onward gate_closed d (λ e. cc))
step-Stopped gate_checked d = Onward-Stopped (step-Onward gate_checked d (λ e. cc))
step-Stopped (record_written encoded alive now s ready k) d =
    Onward-Stopped (step-Onward (record_written encoded alive now s ready k) d (λ e. cc))
step-Stopped (response_written encoded now s ready k) d =
    Onward-Stopped (step-Onward (response_written encoded now s ready k) d (λ e. cc))

pub steps-Stopped : (ss : List Step) (d : ChannelDelivery) → Stopped d (steps ss d)
unfolding steps
steps-Stopped [] d = record { failed = λ h. h; latched = λ c h. h }
steps-Stopped (s ∷ more) d =
    let first = step-Stopped s d in
    let rest = steps-Stopped more (step s d) in
    record {
      failed = λ f. rest.failed (first.failed f);
      latched = λ c l. rest.latched c (first.latched c l);
    }
