-- ===== src/Examples/Delivery.antt =====
-- A follow whose second record finds a broken transport, and one whose client goes away.
use chanvoy.Base.{List, [], ◌∷◌, some, true, false, refl}
use chanvoy.Base.Texts.{lit}
use chanvoy.Delivery.{
  deadline, ChannelDelivery, new, publish_deadline, publish_session, write_record, open_gate,
  send_open, poison, latch, cause, admit, write, write_failed, write_done, stopped_at, pending,
}
use chanvoy.Delivery.Steps.{
  Step, deadline_published, session_published, gate_checked, gate_sent, admission_polled,
  cause_read, disconnected, record_written, step, steps,
}
use chanvoy.Delivery.Final.{Unusable, StopsBy, failed_write_is_last, stop_cause_stands}
use chanvoy.Delivery.Unarmed.{ArmedWritten}
use chanvoy.Delivery.Armed.{admitted_only_when_armed}
use chanvoy.Delivery.Producer.{
  Hold, HoldEvent, bound, streaming, permit_granted, permit_sent, record_taken, receipt_taken,
  gate_tested, gate_opened, elsewhere, hold_step,
}

abbrev armed_steps : List Step
armed_steps =
    deadline_published 50
    ∷ session_published (record { wait_id = lit "w"; is_cancelled = false; replaced_by_id = [] })
    ∷ record_written true true 10 (write_done true) true pending
    ∷ gate_checked
    ∷ gate_sent
    ∷ []

abbrev armed : ChannelDelivery
armed = steps armed_steps (new false)

failed_write_is_last_example : Unusable (
    steps
      (gate_checked ∷ gate_sent ∷ admission_polled 21 ∷ [])
      (write false 20 (stopped_at 60) false pending armed).1)
unfolding write cause new step steps publish_deadline publish_session write_record open_gate
    send_open poison
failed_write_is_last_example =
    failed_write_is_last false 20 (stopped_at 60) false pending armed write_failed
      (gate_checked ∷ gate_sent ∷ admission_polled 21 ∷ []) refl

stop_cause_stands_example :
    StopsBy deadline (steps (disconnected ∷ cause_read 80 ∷ []) (cause 60 armed).1)
unfolding write cause new step steps publish_deadline publish_session write_record open_gate
    send_open poison latch
stop_cause_stands_example =
    stop_cause_stands 60 armed deadline (disconnected ∷ cause_read 80 ∷ []) refl

abbrev follow_events : List HoldEvent
follow_events =
    elsewhere (deadline_published 50)
    ∷ elsewhere (
        session_published (record { wait_id = lit "w"; is_cancelled = false; replaced_by_id = [] }))
    ∷ permit_granted
    ∷ permit_sent 5
    ∷ record_taken true true 10 (write_done true) true pending
    ∷ elsewhere (admission_polled 12)
    ∷ receipt_taken
    ∷ gate_tested
    ∷ gate_opened
    ∷ []

abbrev streaming_hold : Hold
streaming_hold = record { producer = streaming; queue = []; receipt = some true; delivery = armed }

admitted_only_when_armed_example : ArmedWritten follow_events (bound false)
unfolding hold_step admit write cause new step steps publish_deadline publish_session write_record
    open_gate send_open poison
admitted_only_when_armed_example =
    admitted_only_when_armed false follow_events streaming_hold 20 refl refl
