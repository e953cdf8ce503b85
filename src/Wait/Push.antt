-- ===== src/Wait/Push.antt =====
-- The monitored wait of crates/chanvoy-daemon/src/wait.rs: `wait_push_after_baseline`. One input is
-- what one turn of its loop receives: each list of events is what one `drain_bus` takes, and a fetch
-- ends with the posts or the error that `provider_retry` gives. The deadline is an input too.
use chanvoy.Base.{
  List, [], ◌∷◌, ◌++◌, Option, none, some, Bool, true, false, ◌&&◌, ◌||◌, not, if◌then◌else◌,
}
use chanvoy.Base.Texts.{Text, text_beq}
use chanvoy.Message.{Message}
use chanvoy.Wait.{
  DaemonEventPayloadInner, inbound, connection_state_changed, gap, WaitError, bus_lagged,
  bus_closed, observation_failing, nothing_observed, provider_failed, call_stalled, wait_timeout,
  WaitPredicate, matches_inbound, inbound_to_message, in_set, first_match, page_ids,
  note_after_eligible, bus_id_after_eligible,
}

-- The bus part of `first_match_bus_then_rest`.
abbrev pub first_bus :
    WaitPredicate → List Text → Option (List Text) → List DaemonEventPayloadInner → Option Message
first_bus p processed el [] = none
first_bus p processed el (inbound e ∷ bus) =
    let rest = first_bus p processed el bus in
    if in_set e.post_id processed
    then rest
    else (if not (bus_id_after_eligible el e.post_id)
        then rest
        else (if matches_inbound p e then some (inbound_to_message e) else rest))
first_bus p processed el (connection_state_changed ∷ bus) = first_bus p processed el bus
first_bus p processed el (gap ∷ bus) = first_bus p processed el bus

abbrev pub or_else : {A : Type 0} → Option A → Option A → Option A
or_else none b = b
or_else (some a) b = some a

unfoldable pub first_match_bus_then_rest :
    List Message
    → List DaemonEventPayloadInner
    → WaitPredicate
    → List Text
    → Option (List Text)
    → Option Message
first_match_bus_then_rest rest bus p processed el =
    or_else (first_bus p processed el bus) (first_match rest p processed)

-- The buffer that is kept, and the processed ids.
unfoldable pub reconcile_bus_after_eval :
    List DaemonEventPayloadInner
    → WaitPredicate
    → List Text
    → Option (List Text)
    → List DaemonEventPayloadInner × List Text
reconcile_bus_after_eval [] p processed el = ([], processed)
reconcile_bus_after_eval (inbound e ∷ bus) p processed el =
    let skipped = reconcile_bus_after_eval bus p processed el in
    let marked = reconcile_bus_after_eval bus p (e.post_id ∷ processed) el in
    if text_beq e.channel_id p.channel_id
    then (if in_set e.post_id processed
        then skipped
        else (if not (bus_id_after_eligible el e.post_id) && matches_inbound p e
            then (inbound e ∷ skipped.0, skipped.1)
            else marked))
    else skipped
reconcile_bus_after_eval (connection_state_changed ∷ bus) p processed el =
    reconcile_bus_after_eval bus p processed el
reconcile_bus_after_eval (gap ∷ bus) p processed el = reconcile_bus_after_eval bus p processed el

abbrev pub keep_members :
    WaitPredicate → List Text → List DaemonEventPayloadInner → List DaemonEventPayloadInner
keep_members p el [] = []
keep_members p el (inbound e ∷ bus) =
    let kept = keep_members p el bus in
    if text_beq e.channel_id p.channel_id && matches_inbound p e
    then (if in_set e.post_id el then inbound e ∷ kept else kept)
    else kept
keep_members p el (connection_state_changed ∷ bus) = keep_members p el bus
keep_members p el (gap ∷ bus) = keep_members p el bus

unfoldable pub drop_pending_non_members_after_success :
    List DaemonEventPayloadInner → WaitPredicate → Option (List Text) → List DaemonEventPayloadInner
drop_pending_non_members_after_success bus p none = bus
drop_pending_non_members_after_success bus p (some el) = keep_members p el bus

-- The variables of the loop.
pub record PushWait : Type 0 where
  pub bus : List DaemonEventPayloadInner
  pub processed : List Text
  pub after_eligible : Option (List Text)
  pub scan_cursor : Option Text
  pub clean_observe : Bool
  pub saw_healthy_inbound : Bool
  pub saw_successful_rest : Bool

pub data Outcome : Type 0 where
  fired : Message → Outcome
  failed : WaitError → Outcome
  waiting : PushWait → Outcome

abbrev pub and_then : Outcome → (PushWait → Outcome) → Outcome
and_then (fired m) f = fired m
and_then (failed e) f = failed e
and_then (waiting w) f = f w

unfoldable pub push_deadline_outcome : PushWait → WaitError
push_deadline_outcome w =
    if not w.clean_observe
    then observation_failing
    else (if not w.saw_healthy_inbound && not w.saw_successful_rest
        then nothing_observed
        else wait_timeout)

abbrev pub reconciled : WaitPredicate → PushWait → PushWait
reconciled p w =
    let (keep, processed) = reconcile_bus_after_eval w.bus p w.processed w.after_eligible in
    record w { bus = keep; processed = processed }

abbrev pub dropped : WaitPredicate → PushWait → PushWait
dropped p w = record w { bus = drop_pending_non_members_after_success w.bus p w.after_eligible }

abbrev pub fire_or : Option Message → PushWait → Outcome
fire_or none w = waiting w
fire_or (some hit) w = fired hit

-- The evaluation of a buffer with the posts of a page, and what is done to the buffer unless it fires.
abbrev pub hit_of : WaitPredicate → List Message → PushWait → Option Message
hit_of p page w = first_match_bus_then_rest page w.bus p w.processed w.after_eligible

abbrev pub evaluate : WaitPredicate → PushWait → Outcome
evaluate p w = fire_or (hit_of p [] w) (reconciled p w)

abbrev pub pushed : List DaemonEventPayloadInner → PushWait → PushWait
pushed events w = record w { bus = w.bus ++ events }

abbrev pub last_id : Option Text → List Message → Option Text
last_id cursor [] = cursor
last_id cursor (m ∷ ms) = last_id (some m.id) ms

-- A page that was fetched, with the events drained after it.
unfoldable pub page_fetched :
    WaitPredicate → List DaemonEventPayloadInner → List Message → PushWait → Outcome
page_fetched p events page w =
    let noted = record w {
      bus = w.bus ++ events;
      after_eligible = note_after_eligible w.after_eligible page;
      saw_successful_rest = true;
      clean_observe = true;
    } in
    let after = dropped p (reconciled p noted) in
    fire_or (hit_of p page noted) (record after {
      scan_cursor = last_id after.scan_cursor page;
      processed = page_ids page ++ after.processed;
    })

-- The events that are drained and evaluated while a fetch runs.
unfoldable pub fetching : WaitPredicate → List (List DaemonEventPayloadInner) → PushWait → Outcome
fetching p [] w = waiting w
fetching p (events ∷ more) w =
    and_then (evaluate p (pushed events w)) (λ next. fetching p more next)

-- How a fetch ends: with a page, after one more drain; with an error; or with a drain that fails.
pub data Fetched : Type 0 where
  page : List DaemonEventPayloadInner → List Message → Fetched
  broken : WaitError → Fetched
  undrained_lagged undrained_closed : Fetched

abbrev pub is_wait_timeout : WaitError → Bool
is_wait_timeout wait_timeout = true
is_wait_timeout other = false

-- `WaitProviderDegraded`.
abbrev pub is_degraded : WaitError → Bool
is_degraded bus_lagged = true
is_degraded bus_closed = true
is_degraded observation_failing = true
is_degraded nothing_observed = true
is_degraded call_stalled = true
is_degraded provider_failed = true
is_degraded other = false

unfoldable pub after_lag : WaitPredicate → Fetched → PushWait → Outcome
after_lag p (page events posts) w = page_fetched p events posts w
after_lag p (broken e) w =
    if is_degraded e || is_wait_timeout e
    then waiting (record w { clean_observe = false })
    else failed e
after_lag p undrained_lagged w = failed bus_lagged
after_lag p undrained_closed w = failed bus_closed

unfoldable pub after_idle : WaitPredicate → Fetched → PushWait → Outcome
after_idle p (page events posts) w = page_fetched p events posts w
after_idle p (broken e) w =
    if is_degraded e
    then waiting (record w { clean_observe = false })
    else (if is_wait_timeout e then failed (push_deadline_outcome w) else failed e)
after_idle p undrained_lagged w = failed bus_lagged
after_idle p undrained_closed w = failed bus_closed

-- `lagged` has the events that are left, those of the drains while the fetch runs, and its end.
pub data Input : Type 0 where
  received : Bool → DaemonEventPayloadInner → Input
  lagged : List DaemonEventPayloadInner → List (List DaemonEventPayloadInner) → Fetched → Input
  idle : List (List DaemonEventPayloadInner) → Fetched → Input
  closed deadline_reached : Input

abbrev pub is_inbound : DaemonEventPayloadInner → Bool
is_inbound (inbound e) = true
is_inbound connection_state_changed = false
is_inbound gap = false

abbrev pub observed : Bool → PushWait → PushWait
observed true w = record w { saw_healthy_inbound = true; clean_observe = true }
observed false w = w

-- One turn of the loop; `received` says whether the connection is healthy.
unfoldable pub turn : WaitPredicate → Input → PushWait → Outcome
turn p (received healthy e) w = evaluate p (pushed (e ∷ []) (observed (is_inbound e && healthy) w))
turn p (lagged left during end) w = and_then (fetching p during (pushed left w)) (after_lag p end)
turn p (idle during end) w = and_then (fetching p during w) (after_idle p end)
turn p closed w = failed bus_closed
turn p deadline_reached w = failed (push_deadline_outcome w)

unfoldable pub turns : WaitPredicate → List Input → PushWait → Outcome
turns p [] w = waiting w
turns p (i ∷ more) w = and_then (turn p i w) (turns p more)

abbrev pub eligible_from : Option Text → Option (List Text)
eligible_from none = none
eligible_from (some anchor) = some []

abbrev pub first_wait :
    Option Text → Option Text → List DaemonEventPayloadInner → List Message → PushWait
first_wait after scan_after bus backfill = record {
  bus = bus;
  processed = [];
  after_eligible = note_after_eligible (eligible_from after) backfill;
  scan_cursor = last_id scan_after backfill;
  clean_observe = true;
  saw_healthy_inbound = false;
  saw_successful_rest = false;
}

-- The wait once its first fetch has given `backfill`, the events before it in `bus`.
unfoldable pub begin :
    WaitPredicate
    → Option Text
    → Option Text
    → List DaemonEventPayloadInner
    → List Message
    → Outcome
begin p after scan_after bus backfill =
    let noted = first_wait after scan_after bus backfill in
    fire_or (hit_of p backfill noted)
      (dropped p (reconciled p (record noted { processed = page_ids backfill })))
