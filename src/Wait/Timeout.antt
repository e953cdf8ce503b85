-- ===== src/Wait/Timeout.antt =====
-- The clean end of the monitored wait of crates/chanvoy-daemon/src/wait.rs.
use chanvoy.Base.{
  List, [], ◌∷◌, ◌++◌, append-nil, append_assoc, Option, none, some, Bool, true, false, ◌&&◌, ◌||◌,
  if◌then◌else◌, any, All, ◌≡◌, ◌⊎◌, inl, inr, refl, sym, subst, arith,
}
use chanvoy.Base.Texts.{Text}
use chanvoy.Message.{Message}
use chanvoy.Wait.{DaemonEventPayloadInner, WaitPredicate, WaitError, page_ids, note_after_eligible}
use chanvoy.Wait.Push.{
  PushWait, failed, waiting, hit_of, pushed, fetching, Fetched, page, broken, undrained_lagged,
  undrained_closed, after_lag, after_idle, Input, received, lagged, idle, closed, deadline_reached,
  is_inbound, observed, turn, turns, first_wait, begin, eligible_from,
}
use chanvoy.Wait.Quiet.{ReadsPost, ReadsMessage, QuietMessage, page_ids-Quiet}
use chanvoy.Wait.Silence.{
  Held, relax, hit_none-Passed, reconciled-Held, dropped-Held, and_then-waiting, concat,
  fetching-Held, page_fetched-Held, pushed-Held, evaluate-Held, fire_none,
}
use chanvoy.Wait.Inputs.{all_events, end_events, end_posts, events_of, is_page, observes, posts_of}

pub All-parts {ℓ κ} :
    {A : Type ℓ} (P : A → Type κ) (xs ys : List A) → All P (xs ++ ys) → All P xs × All P ys
All-parts P [] ys h = (tt, h)
All-parts P (x ∷ xs) ys h = let (a, b) = All-parts P xs ys h.1 in ((h.0, a), b)

module _ (p : WaitPredicate) (post_matches : Text → Bool) (after : Option Text) where
  abbrev Reads : List DaemonEventPayloadInner → Type 0
  Reads = All (ReadsPost p post_matches)

  -- Everything that an input delivers reads as its post does.
  abbrev pub ReadsInput : Input → Type 0
  ReadsInput i =
      All (ReadsPost p post_matches) (events_of i) × All (ReadsMessage p post_matches) (posts_of i)

  pub concat-Reads :
      (xss : List (List DaemonEventPayloadInner)) → Reads (concat xss) → All Reads xss
  concat-Reads [] r = tt
  concat-Reads (xs ∷ xss) r =
      let (a, b) = All-parts (ReadsPost p post_matches) xs (concat xss) r in (a, concat-Reads xss b)

  -- The state after a turn, when the wait still runs.
  record Turned (seen : List DaemonEventPayloadInner) (saw : Bool) (i : Input) (w : PushWait)
      : Type 0 where
    held : Held p post_matches after (seen ++ events_of i) (saw || observes i) true w
    quiet : All (QuietMessage p post_matches) (posts_of i)

  more_saw :
      {seen : List DaemonEventPayloadInner} {saw saw' strict : Bool} {w : PushWait}
      → (saw ≡ true → saw' ≡ true)
      → Held p post_matches after seen saw strict w
      → Held p post_matches after seen saw' strict w
  more_saw f h = record {
    processed = h.processed;
    bus = h.bus;
    gate = h.gate;
    pending = h.pending;
    clean = h.clean;
    observation = λ s. f (h.observation s);
  }

  or_left : (a b : Bool) → a ≡ true → (a || b) ≡ true
  or_left a b h = ground arith

  or_right : (a b : Bool) → b ≡ true → (a || b) ≡ true
  or_right a b h = ground arith

  observed-Held :
      (o : Bool) (seen : List DaemonEventPayloadInner) (saw : Bool) (w : PushWait)
      → Held p post_matches after seen saw true w
      → Held p post_matches after seen (saw || o) false (observed o w)
  observed-Held true seen saw w h = record {
    processed = h.processed;
    bus = h.bus;
    gate = h.gate;
    pending = h.pending;
    clean = λ bare s. absurd cc;
    observation = λ _. or_right saw true refl;
  }
  observed-Held false seen saw w h = more_saw (or_left saw false) (relax p post_matches after h)

  muddied :
      {seen : List DaemonEventPayloadInner} {saw strict : Bool} {w : PushWait}
      → Held p post_matches after seen saw strict w
      → Held p post_matches after seen saw true (record w { clean_observe = false })
  muddied h = record {
    processed = h.processed;
    bus = h.bus;
    gate = h.gate;
    pending = h.pending;
    clean = λ bare s c. absurd cc;
    observation = h.observation;
  }

  waiting_if :
      (b : Bool) (w w' : PushWait) (e : WaitError)
      → (if b then waiting w else failed e) ≡ waiting w'
      → w ≡ w'
  waiting_if true w w' e h = cc
  waiting_if false w w' e h = absurd cc

  waiting_if_only :
      (b c : Bool) (w w' : PushWait) (e f : WaitError)
      → (if b then waiting w else (if c then failed e else failed f)) ≡ waiting w'
      → w ≡ w'
  waiting_if_only true c w w' e f h = cc
  waiting_if_only false true w w' e f h = absurd cc
  waiting_if_only false false w w' e f h = absurd cc

  -- The end of a fetch, after a lag or an idle wait.
  ended-Turned :
      (end : Fetched) (seen : List DaemonEventPayloadInner) (saw strict : Bool) (w w' : PushWait)
      → Held p post_matches after seen saw strict w
      → Reads (end_events end)
      → All (ReadsMessage p post_matches) (end_posts end)
      → (after_lag p end w ≡ waiting w') ⊎ (after_idle p end w ≡ waiting w')
      → Held p post_matches after (seen ++ end_events end) (saw || is_page end) true w'
        × All (QuietMessage p post_matches) (end_posts end)
  unfolding after_lag after_idle
  ended-Turned (page events posts) seen saw strict w w' h r m e =
      let (k, q) =
        page_fetched-Held p post_matches after events seen posts saw strict w w' h r m
          (elim e [ inl a ↦ a | inr b ↦ b ]) in
      (more_saw (or_right saw true) k, q)
  ended-Turned (broken err) seen saw strict w w' h r m e = (
    subst (λ s. Held p post_matches after s (saw || false) true w') (sym (append-nil seen))
        (subst (Held p post_matches after seen (saw || false) true)
          (elim e [ inl a ↦ waiting_if _ _ _ _ a | inr b ↦ waiting_if_only _ _ _ _ _ _ b ])
          (muddied (more_saw (or_left saw false) h))),
    tt,
  )
  ended-Turned undrained_lagged seen saw strict w w' h r m (inl e) = absurd cc
  ended-Turned undrained_lagged seen saw strict w w' h r m (inr e) = absurd cc
  ended-Turned undrained_closed seen saw strict w w' h r m (inl e) = absurd cc
  ended-Turned undrained_closed seen saw strict w w' h r m (inr e) = absurd cc

  turn-Turned :
      (i : Input) (seen : List DaemonEventPayloadInner) (saw : Bool) (w w' : PushWait)
      → Held p post_matches after seen saw true w
      → ReadsInput i
      → turn p i w ≡ waiting w'
      → Turned seen saw i w'
  unfolding turn
  turn-Turned (received healthy e) seen saw w w' h r k =
      let o = is_inbound e && healthy in
      record {
        held =
            evaluate-Held p post_matches after _ _ (pushed (e ∷ []) (observed o w)) w'
              (pushed-Held p post_matches after seen (e ∷ []) _ false (observed o w)
                (observed-Held o seen saw w h) r.0)
              k;
        quiet = tt;
      }
  turn-Turned (lagged left during end) seen saw w w' h r k =
      let (v, k0, k1) =
        and_then-waiting p post_matches after (fetching p during (pushed left w)) (after_lag p end)
          w' k in
      let (r0, r1) =
        All-parts (ReadsPost p post_matches) (left ++ concat during) (end_events end) r.0 in
      let (r00, r01) = All-parts (ReadsPost p post_matches) left (concat during) r0 in
      let pushed_held = pushed-Held p post_matches after seen left saw true w h r00 in
      let fetched =
        fetching-Held p post_matches after during (seen ++ left) saw false (pushed left w) v
          pushed_held (concat-Reads during r01) k0 in
      let (held, quiet) = ended-Turned end _ saw false v w' fetched r1 r.1 (inl k1) in
      record {
        held =
            subst (λ s. Held p post_matches after s (saw || is_page end) true w')
              (simp append_assoc) held;
        quiet = quiet;
      }
  turn-Turned (idle during end) seen saw w w' h r k =
      let (v, k0, k1) =
        and_then-waiting p post_matches after (fetching p during w) (after_idle p end) w' k in
      let (r0, r1) = All-parts (ReadsPost p post_matches) (concat during) (end_events end) r.0 in
      let fetched =
        fetching-Held p post_matches after during seen saw true w v h (concat-Reads during r0) k0 in
      let (held, quiet) = ended-Turned end _ saw true v w' fetched r1 r.1 (inr k1) in
      record {
        held =
            subst (λ s. Held p post_matches after s (saw || is_page end) true w')
              (append_assoc seen (concat during) (end_events end)) held;
        quiet = quiet;
      }
  turn-Turned closed seen saw w w' h r k = absurd cc
  turn-Turned deadline_reached seen saw w w' h r k = absurd cc

  pub turns-Held :
      (inputs : List Input) (seen : List DaemonEventPayloadInner) (saw : Bool) (w w' : PushWait)
      → Held p post_matches after seen saw true w
      → All ReadsInput inputs
      → turns p inputs w ≡ waiting w'
      → Held p post_matches after (seen ++ all_events inputs) (saw || any observes inputs) true w'
        × All (λ i. All (QuietMessage p post_matches) (posts_of i)) inputs
  unfolding turns
  turns-Held [] seen saw w w' h r e = (
    subst (λ s. Held p post_matches after s (saw || false) true w') (sym (append-nil seen))
        (subst (Held p post_matches after seen (saw || false) true) (waiting_inj e)
          (more_saw (or_left saw false) h)),
    tt,
  )
    where
      waiting_inj : waiting w ≡ waiting w' → w ≡ w'
      waiting_inj e = cc
  turns-Held (i ∷ more) seen saw w w' h r e =
      let (v, e0, e1) = and_then-waiting p post_matches after (turn p i w) (turns p more) w' e in
      let turned = turn-Turned i seen saw w v h r.0 e0 in
      let (held, quiet) = turns-Held more _ _ v w' turned.held r.1 e1 in
      (
        subst (λ s. Held p post_matches after s (saw || any observes (i ∷ more)) true w')
            (append_assoc seen (events_of i) (all_events more))
            (more_saw (λ t. ground (arith, t)) held),
        (turned.quiet, quiet),
      )

  pub begin-Held :
      (scan_after : Option Text) (bus : List DaemonEventPayloadInner) (backfill : List Message)
      (w : PushWait)
      → Reads bus
      → All (ReadsMessage p post_matches) backfill
      → begin p after scan_after bus backfill ≡ waiting w
      → Held p post_matches after bus false true w × All (QuietMessage p post_matches) backfill
  unfolding begin note_after_eligible
  begin-Held scan_after bus backfill w r m e =
      let first = first_wait after scan_after bus backfill in
      let f = fire_none p post_matches after (hit_of p backfill first) _ w e in
      let passed =
        hit_none-Passed p post_matches after bus false false backfill first first-Held m f.0 in
      (
        subst (Held p post_matches after bus false true) f.1 (
            dropped-Held p post_matches after bus false _ (
              reconciled-Held p post_matches after bus false backfill _ (marked passed.posts_quiet)
                (record {
                  evaluated = passed.evaluated;
                  posts_quiet = passed.posts_quiet;
                  seen_quiet = passed.seen_quiet;
                }))),
        passed.posts_quiet,
      )
    where
      bare_start :
          (a : Option Text) → a ≡ none → note_after_eligible (eligible_from a) backfill ≡ none
      bare_start none h = refl
      bare_start (some anchor) h = absurd cc

      first-Held :
          Held p post_matches after bus false false (first_wait after scan_after bus backfill)
      first-Held = record {
        processed = tt;
        bus = r;
        gate = bare_start after;
        pending = λ _ s. s;
        clean = λ bare s. absurd cc;
        observation = λ s. absurd cc;
      }

      marked :
          All (QuietMessage p post_matches) backfill
          → Held p post_matches after bus false false
              (record (first_wait after scan_after bus backfill) { processed = page_ids backfill })
      marked q = record {
        processed = page_ids-Quiet p post_matches backfill q;
        bus = r;
        gate = bare_start after;
        pending = λ _ s. s;
        clean = λ bare s. absurd cc;
        observation = λ s. absurd cc;
      }
