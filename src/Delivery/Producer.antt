-- ===== src/Delivery/Producer.antt =====
-- The producer of a channel follow up to its open gate, of crates/chanvoy-daemon/src/waitprims_hold.rs,
-- between the calls that the connection makes of the same delivery: `emit_armed_with_admission` and
-- then `open_gate`, in the order of `run_single_channel_follow`.
use chanvoy.Base.{
  ℕ, List, [], ◌∷◌, ◌++◌, Option, none, some, Result, ok, err, Bool, true, false, if◌then◌else◌,
}
use chanvoy.Delivery.{
  StopCause, ChannelDelivery, new, cause, open_gate, send_open, Selected, Peek, write_record,
  RecordError,
}
use chanvoy.Delivery.Steps.{
  Step, deadline_published, session_published, session_canceled, cause_read, admission_polled,
  disconnected, poisoned, gate_closed, gate_checked, gate_sent, record_written, response_written,
  step,
}

-- Where the producer stands: before the permit, with it, waiting for the receipt of the armed record,
-- past that receipt, in `open_gate` after its test, or past `open_gate`; or it has returned an error.
pub data Producer : Type 0 where
  binding permitted awaiting acknowledged : Producer
  tested : (passed : Bool) → Producer
  streaming ended : Producer

pub data StreamRecord : Type 0 where
  armed_record other_record : StreamRecord

-- `queue` is the stream of records, without its capacity; `receipt` is what was sent over `written` of
-- the armed record.
pub record Hold : Type 0 where
  pub producer : Producer
  pub queue : List StreamRecord
  pub receipt : Option Bool
  pub delivery : ChannelDelivery

abbrev pub bound : Bool → Hold
bound client_gone = record {
  producer = binding;
  queue = [];
  receipt = none;
  delivery = new client_gone;
}

-- `elsewhere` is a call that neither writes a record nor opens the gate. `other_queued` is a later
-- record, of any sender. `dropped` is any other end of the producer: an error it returns, or its future
-- dropped.
pub data HoldEvent : Type 0 where
  permit_granted : HoldEvent
  permit_stopped permit_sent : (now : ℕ) → HoldEvent
  record_taken :
      (encoded alive : Bool) (now : ℕ) (s : Selected) (ready : Bool) (k : Peek) → HoldEvent
  receipt_taken receipt_lost gate_tested gate_opened other_queued dropped : HoldEvent
  elsewhere : Step → HoldEvent

abbrev pub is_elsewhere : Step → Bool
is_elsewhere (deadline_published at) = true
is_elsewhere (session_published s) = true
is_elsewhere (session_canceled id) = true
is_elsewhere (cause_read now) = true
is_elsewhere (admission_polled now) = true
is_elsewhere disconnected = true
is_elsewhere poisoned = true
is_elsewhere gate_closed = true
is_elsewhere gate_checked = false
is_elsewhere gate_sent = false
is_elsewhere (record_written encoded alive now s ready k) = false
is_elsewhere (response_written encoded now s ready k) = true

-- While the permit is awaited, a stop cause ends the producer.
abbrev pub stopped_on : Hold → Option StopCause × ChannelDelivery → Option Hold
stopped_on h (none, d) = none
stopped_on h (some c, d) = some (record h { producer = ended; delivery = d })

-- With the permit, the cause is read once more, and without one the record is sent.
abbrev pub sent_unless : Hold → Option StopCause × ChannelDelivery → Hold
sent_unless h (some c, d) = record h { producer = ended; delivery = d }
sent_unless h (none, d) = record h {
  producer = awaiting;
  queue = h.queue ++ (armed_record ∷ []);
  delivery = d;
}

abbrev pub told : Bool → Result RecordError (Unit {0}) → Option Bool → Option Bool
told true (ok u) old = some true
told true (err e) old = some false
told false r old = old

abbrev pub taken :
    StreamRecord
    → List StreamRecord
    → Bool
    → Result RecordError (Unit {0}) × ChannelDelivery
    → Hold
    → Hold
taken armed_record queue alive (r, d) h = record h {
  queue = queue;
  receipt = told alive r h.receipt;
  delivery = d;
}
taken other_record queue alive (r, d) h = record h { queue = queue; delivery = d }

abbrev pub answered : Option Bool → Hold → Option Hold
answered none h = none
answered (some true) h = some (record h { producer = acknowledged })
answered (some false) h = some (record h { producer = ended })

abbrev pub is_binding : Producer → Bool
is_binding binding = true
is_binding p = false

abbrev pub is_permitted : Producer → Bool
is_permitted permitted = true
is_permitted p = false

abbrev pub is_awaiting : Producer → Bool
is_awaiting awaiting = true
is_awaiting p = false

abbrev pub is_acknowledged : Producer → Bool
is_acknowledged acknowledged = true
is_acknowledged p = false

-- `open_gate`, in two parts: its test, and the write of the gate that the test lets through.
abbrev pub gate_test : Bool × ChannelDelivery → Hold → Hold
gate_test (passed, d) h = record h { producer = tested passed; delivery = d }

abbrev pub gate_write : Producer → Hold → Option Hold
gate_write (tested true) h =
    some (record h { producer = streaming; delivery = send_open h.delivery })
gate_write (tested false) h = some (record h { producer = streaming })
gate_write p h = none

abbrev pub take_record :
    List StreamRecord → Bool → Bool → ℕ → Selected → Bool → Peek → Hold → Option Hold
take_record [] encoded alive now s ready k h = none
take_record (x ∷ queue) encoded alive now s ready k h =
    some (taken x queue alive (write_record encoded alive now s ready k h.delivery) h)

-- One event of the producer or of the others; none where it is not enabled.
unfoldable pub hold_step : HoldEvent → Hold → Option Hold
hold_step permit_granted h =
    if is_binding h.producer then some (record h { producer = permitted }) else none
hold_step (permit_stopped now) h =
    if is_binding h.producer then stopped_on h (cause now h.delivery) else none
hold_step (permit_sent now) h =
    if is_permitted h.producer then some (sent_unless h (cause now h.delivery)) else none
hold_step (record_taken encoded alive now s ready k) h =
    take_record h.queue encoded alive now s ready k h
hold_step receipt_taken h = if is_awaiting h.producer then answered h.receipt h else none
hold_step receipt_lost h =
    if is_awaiting h.producer then some (record h { producer = ended }) else none
hold_step gate_tested h =
    if is_acknowledged h.producer then some (gate_test (open_gate h.delivery) h) else none
hold_step gate_opened h = gate_write h.producer h
hold_step other_queued h = some (record h { queue = h.queue ++ (other_record ∷ []) })
hold_step dropped h = some (record h { producer = ended })
hold_step (elsewhere s) h =
    if is_elsewhere s then some (record h { delivery = step s h.delivery }) else none

abbrev pub hold_steps : List HoldEvent → Option Hold → Option Hold
hold_steps es none = none
hold_steps [] (some h) = some h
hold_steps (e ∷ es) (some h) = hold_steps es (hold_step e h)
