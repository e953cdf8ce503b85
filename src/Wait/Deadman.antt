-- ===== src/Wait/Deadman.antt =====
-- The clean timeout of the monitored wait of crates/chanvoy-daemon/src/wait.rs.
use chanvoy.Base.{
  List, [], ◌∷◌, ◌++◌, append-nil, Option, none, some, Bool, true, false, ◌||◌, if◌then◌else◌, any,
  All, ◌≡◌, ◌≢◌, refl, sym, subst, arith,
}
use chanvoy.Base.Texts.{Text}
use chanvoy.Message.{Message}
use chanvoy.Wait.{DaemonEventPayloadInner, WaitPredicate, WaitError, wait_timeout}
use chanvoy.Wait.Push.{
  PushWait, Outcome, fired, failed, waiting, and_then, fire_or, hit_of, reconciled, pushed,
  page_fetched, fetching, Fetched, page, broken, undrained_lagged, undrained_closed, after_lag,
  after_idle, Input, received, lagged, idle, closed, deadline_reached, turn, turns, begin,
  push_deadline_outcome, is_degraded, is_wait_timeout,
}
use chanvoy.Wait.Quiet.{hits, ReadsPost, ReadsMessage, QuietMessage}
use chanvoy.Wait.Silence.{Held, concat, fetching-Held}
use chanvoy.Wait.Inputs.{end_events, events_of, posts_of, observes, all_events}
use chanvoy.Wait.Timeout.{ReadsInput, turns-Held, begin-Held, concat-Reads, All-parts}

not_failed : (hit : Option Message) (w : PushWait) (e : WaitError) → fire_or hit w ≢ failed e
not_failed none w e h = cc
not_failed (some m) w e h = cc

fetching_never_fails :
    (p : WaitPredicate) (during : List (List DaemonEventPayloadInner)) (w : PushWait)
    (e : WaitError)
    → fetching p during w ≢ failed e
unfolding fetching
fetching_never_fails p [] w e h = cc
fetching_never_fails p (events ∷ more) w e h =
    by_hit (hit_of p [] (pushed events w)) (reconciled p (pushed events w))
      (λ v. fetching_never_fails p more v e) h
  where
    by_hit :
        (hit : Option Message) (v : PushWait)
        → ((v : PushWait) → fetching p more v ≢ failed e)
        → and_then (fire_or hit v) (fetching p more) ≢ failed e
    by_hit none v again h = again v h
    by_hit (some m) v again h = cc

-- A fetch that is done before the wait fails.
fetched_then :
    (o : Outcome) (f : PushWait → Outcome) (e : WaitError)
    → o ≢ failed e
    → and_then o f ≡ failed e
    → (v : PushWait) × (o ≡ waiting v) × (f v ≡ failed e)
fetched_then (fired m) f e n h = absurd cc
fetched_then (failed x) f e n h = absurd (n h)
fetched_then (waiting v) f e n h = (v, refl, h)

failed_inj : (e : WaitError) → failed e ≡ failed wait_timeout → e ≡ wait_timeout
failed_inj e h = cc

other_timeout : (e : WaitError) → e ≡ wait_timeout → is_wait_timeout e ≢ false
other_timeout e same t = subst (λ x. is_wait_timeout x ≢ false) (sym same) (λ b. cc) t

-- Only the deadline, and an idle fetch that times out, end the wait by a clean timeout.
idle_timeout :
    (p : WaitPredicate) (end : Fetched) (w : PushWait)
    → after_idle p end w ≡ failed wait_timeout
    → (end_events end ≡ []) × (push_deadline_outcome w ≡ wait_timeout)
unfolding after_idle page_fetched
idle_timeout p (page events posts) w h = absurd (not_failed _ _ _ h)
idle_timeout p (broken e) w h = (refl, by_tests (is_degraded e) (is_wait_timeout e) e refl h)
  where
    by_tests :
        (degraded timed_out : Bool) (e : WaitError)
        → is_wait_timeout e ≡ timed_out
        → (if degraded
            then waiting (record w { clean_observe = false })
            else (if timed_out then failed (push_deadline_outcome w) else failed e))
          ≡ failed wait_timeout
        → push_deadline_outcome w ≡ wait_timeout
    by_tests true timed_out e t h = absurd cc
    by_tests false true e t h = cc
    by_tests false false e t h = absurd (other_timeout e (failed_inj e h) t)
idle_timeout p undrained_lagged w h = absurd cc
idle_timeout p undrained_closed w h = absurd cc

lag_timeout :
    (p : WaitPredicate) (end : Fetched) (w : PushWait) → after_lag p end w ≢ failed wait_timeout
unfolding after_lag page_fetched
lag_timeout p (page events posts) w h = not_failed _ _ _ h
lag_timeout p (broken e) w h = by_tests (is_degraded e) (is_wait_timeout e) e refl h
  where
    by_tests :
        (degraded timed_out : Bool) (e : WaitError)
        → is_wait_timeout e ≡ timed_out
        → (if degraded || timed_out then waiting (record w { clean_observe = false }) else failed e)
          ≢ failed wait_timeout
    by_tests true timed_out e t h = cc
    by_tests false true e t h = cc
    by_tests false false e t h = other_timeout e (failed_inj e h) t
lag_timeout p undrained_lagged w h = cc
lag_timeout p undrained_closed w h = cc

-- What a clean timeout says.
pub record Silent (p : WaitPredicate) (post_matches : Text → Bool) (after : Option Text)
    (bus : List DaemonEventPayloadInner) (backfill : List Message) (inputs : List Input)
    (last : Input) : Type 0 where
  pub backfill_quiet : All (QuietMessage p post_matches) backfill
  pub pages_quiet : All (λ i. All (QuietMessage p post_matches) (posts_of i)) inputs
  pub bus_quiet : after ≡ none → any (hits p) ((bus ++ all_events inputs) ++ events_of last) ≡ false
  pub was_observed : any observes inputs ≡ true

module _ (p : WaitPredicate) (post_matches : Text → Bool) (after : Option Text) where
  clean_deadline :
      (seen : List DaemonEventPayloadInner) (saw : Bool) (w : PushWait)
      → Held p post_matches after seen saw true w
      → push_deadline_outcome w ≡ wait_timeout
      → (after ≡ none → any (hits p) seen ≡ false) × (saw ≡ true)
  unfolding push_deadline_outcome
  clean_deadline seen saw w h e =
      ((λ bare. ground (arith, h.clean bare refl, h.pending bare)), ground (arith, h.observation))

  -- The last turn.
  last_turn :
      (last : Input) (seen : List DaemonEventPayloadInner) (saw : Bool) (w : PushWait)
      → Held p post_matches after seen saw true w
      → ReadsInput p post_matches after last
      → turn p last w ≡ failed wait_timeout
      → (after ≡ none → any (hits p) (seen ++ events_of last) ≡ false) × (saw ≡ true)
  unfolding turn
  last_turn (received healthy e) seen saw w h r k = absurd (not_failed _ _ _ k)
  last_turn (lagged left during end) seen saw w h r k =
      let (v, _, k1) =
        fetched_then _ (after_lag p end) wait_timeout
          (fetching_never_fails p during (pushed left w) wait_timeout) k in
      absurd (lag_timeout p end v k1)
  last_turn (idle during end) seen saw w h r k =
      let (v, k0, k1) =
        fetched_then _ (after_idle p end) wait_timeout
          (fetching_never_fails p during w wait_timeout) k in
      let (none_left, timed_out) = idle_timeout p end v k1 in
      let (r0, _) = All-parts (ReadsPost p post_matches) (concat during) (end_events end) r.0 in
      let held =
        fetching-Held p post_matches after during seen saw true w v h
          (concat-Reads p post_matches after during r0) k0 in
      let (quiet, saw_one) = clean_deadline _ saw v held timed_out in
      (
        (λ bare.
            subst (λ l. any (hits p) (seen ++ (concat during ++ l)) ≡ false) (sym none_left)
              (subst (λ l. any (hits p) (seen ++ l) ≡ false) (sym (append-nil (concat during)))
                (quiet bare))),
        saw_one,
      )
  last_turn closed seen saw w h r k = absurd cc
  last_turn deadline_reached seen saw w h r k =
      clean_deadline (seen ++ []) saw w
        (subst (λ s. Held p post_matches after s saw true w) (sym (append-nil seen)) h)
        (failed_inj _ k)

-- Let a post's id decide whether it matches. When the monitored wait, after any turns of its loop, ends
-- by a clean timeout, then no post of the backfill and of the fetched pages matches, some turn observed
-- the channel (a healthy inbound event or a fetched page), and, unless the wait was asked for posts
-- after a given one, no event that was delivered to it matches either.
pub clean_timeout-Silent :
    (p : WaitPredicate) (post_matches : Text → Bool) (after scan_after : Option Text)
    (bus : List DaemonEventPayloadInner) (backfill : List Message) (inputs : List Input)
    (last : Input) (first w : PushWait)
    → All (ReadsPost p post_matches) bus
    → All (ReadsMessage p post_matches) backfill
    → All (ReadsInput p post_matches after) inputs
    → ReadsInput p post_matches after last
    → begin p after scan_after bus backfill ≡ waiting first
    → turns p inputs first ≡ waiting w
    → turn p last w ≡ failed wait_timeout
    → Silent p post_matches after bus backfill inputs last
clean_timeout-Silent p post_matches after scan_after bus backfill inputs last first w r m ri rl b t
      l =
    let (held, backfill_quiet) =
      begin-Held p post_matches after scan_after bus backfill first r m b in
    let (held_then, pages) = turns-Held p post_matches after inputs bus false first w held ri t in
    let (bus_quiet, saw) = last_turn p post_matches after last _ _ w held_then rl l in
    record {
      backfill_quiet = backfill_quiet;
      pages_quiet = pages;
      bus_quiet = bus_quiet;
      was_observed = saw;
    }
