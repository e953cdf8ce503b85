-- ===== src/Delivery/Steps.antt =====
-- The calls of `ChannelDelivery` in crates/chanvoy-daemon/src/follow_delivery.rs as steps, in any order.
use chanvoy.Base.{ℕ, List, [], ◌∷◌, Option, none, some, Bool, true, if◌then◌else◌}
use chanvoy.Base.Texts.{Text}
use chanvoy.Delivery.{
  Session, ChannelDelivery, publish_deadline, publish_session, cause, client_disconnected, poison,
  close_gate, open_gate, send_open, admit, Selected, Peek, write_record, write_response,
}

-- One call, or a cancellation of the session from outside. `open_gate` is two steps: `gate_checked` up
-- to its test, and `gate_sent`, its write of the gate. Here each may come at any time, also where the
-- program makes no such call.
pub data Step : Type 0 where
  deadline_published : ℕ → Step
  session_published : Session → Step
  session_canceled : Text → Step
  cause_read admission_polled : ℕ → Step
  disconnected poisoned gate_closed gate_checked gate_sent : Step
  record_written : Bool → Bool → ℕ → Selected → Bool → Peek → Step
  response_written : Bool → ℕ → Selected → Bool → Peek → Step

abbrev pub cancel_session : Text → Option Session → Option Session
cancel_session id none = none
cancel_session id (some s) =
    if s.is_cancelled then some s else some (record s { is_cancelled = true; replaced_by_id = id })

unfoldable pub step : Step → ChannelDelivery → ChannelDelivery
step (deadline_published at) d = publish_deadline at d
step (session_published s) d = publish_session s d
step (session_canceled id) d = record d {
  published_session = cancel_session id d.published_session;
}
step (cause_read now) d = (cause now d).1
step (admission_polled now) d = (admit now d).1
step disconnected d = client_disconnected d
step poisoned d = poison d
step gate_closed d = close_gate d
step gate_checked d = (open_gate d).1
step gate_sent d = send_open d
step (record_written encoded alive now s ready k) d = (write_record encoded alive now s ready k d).1
step (response_written encoded now s ready k) d = (write_response encoded now s ready k d).1

unfoldable pub steps : List Step → ChannelDelivery → ChannelDelivery
steps [] d = d
steps (s ∷ more) d = steps more (step s d)
