-- ===== src/Wait/Silence.antt =====
-- The monitored wait of crates/chanvoy-daemon/src/wait.rs over any turns of its loop, and its clean end.
use chanvoy.Base.{
  List, [], ◌∷◌, ◌++◌, append-nil, append_assoc, Option, none, some, Bool, true, false, ◌||◌, any,
  All, All-append, ◌≡◌, refl, sym, ap, subst, ◌∙◌, arith,
}
use chanvoy.Base.Texts.{Text}
use chanvoy.Message.{Message}
use chanvoy.Wait.{
  DaemonEventPayloadInner, WaitPredicate, page_ids, note_after_eligible, first_match,
}
use chanvoy.Wait.Push.{
  PushWait, Outcome, fired, failed, waiting, and_then, fire_or, hit_of, reconciled, dropped,
  evaluate, pushed, page_fetched, fetching, first_bus, or_else, first_match_bus_then_rest,
  drop_pending_non_members_after_success,
}
use chanvoy.Wait.Quiet.{
  hits, ReadsPost, ReadsMessage, Quiet, QuietMessage, Evaluated, first_bus-Evaluated, no_hits,
  first_match-Quiet, page_ids-Quiet, reconcile-Reconciled, keep_members-Reads,
}

any-append :
    {A : Type 0} (f : A → Bool) (xs ys : List A) → any f (xs ++ ys) ≡ (any f xs || any f ys)
any-append f [] ys = refl
any-append f (x ∷ xs) ys = ground (arith, any-append f xs ys)

abbrev pub concat : List (List DaemonEventPayloadInner) → List DaemonEventPayloadInner
concat [] = []
concat (xs ∷ xss) = xs ++ concat xss

module _ (p : WaitPredicate) (post_matches : Text → Bool) (after : Option Text) where
  abbrev Reads : List DaemonEventPayloadInner → Type 0
  Reads = All (ReadsPost p post_matches)

  -- The state after the events that were seen: no processed id matches; under a bare wait a match that
  -- was seen is still in the buffer, and not while the observation is clean, when that is asked for.
  pub record Held (seen : List DaemonEventPayloadInner) (saw strict : Bool) (w : PushWait)
      : Type 0 where
    pub processed : All (Quiet p post_matches) w.processed
    pub bus : Reads w.bus
    pub gate : after ≡ none → w.after_eligible ≡ none
    pub pending : after ≡ none → any (hits p) seen ≡ true → any (hits p) w.bus ≡ true
    pub clean : after ≡ none → strict ≡ true → w.clean_observe ≡ true → any (hits p) w.bus ≡ false
    pub observation : (w.saw_healthy_inbound || w.saw_successful_rest) ≡ true → saw ≡ true

  pub relax :
      {seen : List DaemonEventPayloadInner} {saw strict : Bool} {w : PushWait}
      → Held seen saw true w
      → Held seen saw strict w
  relax h = record {
    processed = h.processed;
    bus = h.bus;
    gate = h.gate;
    pending = h.pending;
    clean = λ bare _. h.clean bare refl;
    observation = h.observation;
  }

  -- An evaluation that does not fire.
  pub record Passed (seen : List DaemonEventPayloadInner) (posts : List Message) (w : PushWait)
      : Type 0 where
    pub evaluated : All (Evaluated p post_matches w.after_eligible) w.bus
    pub posts_quiet : All (QuietMessage p post_matches) posts
    pub seen_quiet : after ≡ none → any (hits p) seen ≡ false

  or_else-none : {A : Type 0} (a b : Option A) → or_else a b ≡ none → (a ≡ none) × (b ≡ none)
  or_else-none none b h = (refl, h)
  or_else-none (some x) b h = absurd cc

  pub fire_none :
      (hit : Option Message) (w w' : PushWait)
      → fire_or hit w ≡ waiting w'
      → (hit ≡ none) × (w ≡ w')
  fire_none none w w' h = (refl, cc)
  fire_none (some m) w w' h = absurd cc

  pub hit_none-Passed :
      (seen : List DaemonEventPayloadInner) (saw strict : Bool) (posts : List Message)
      (w : PushWait)
      → Held seen saw strict w
      → All (ReadsMessage p post_matches) posts
      → hit_of p posts w ≡ none
      → Passed seen posts w
  unfolding first_match_bus_then_rest
  hit_none-Passed seen saw strict posts w h r none_hit = record {
    evaluated = ev;
    posts_quiet = first_match-Quiet p post_matches w.processed posts h.processed r (both.1);
    seen_quiet = λ bare. ground (
      arith,
      h.pending bare,
      no_hits p post_matches w.bus h.bus
          (subst (λ el. All (Evaluated p post_matches el) w.bus) (h.gate bare) ev),
    );
  }
    where
      both :
          (first_bus p w.processed w.after_eligible w.bus ≡ none)
          × (first_match posts p w.processed ≡ none)
      both = or_else-none _ _ none_hit

      ev : All (Evaluated p post_matches w.after_eligible) w.bus
      ev =
          first_bus-Evaluated p post_matches w.processed w.after_eligible w.bus h.processed h.bus
            both.0

  pub reconciled-Held :
      (seen : List DaemonEventPayloadInner) (saw : Bool) (posts : List Message) (w : PushWait)
      → Held seen saw false w
      → Passed seen posts w
      → Held seen saw true (reconciled p w)
  reconciled-Held seen saw posts w h e =
      let out =
        reconcile-Reconciled p post_matches w.bus w.processed w.after_eligible h.processed h.bus
          e.evaluated in
      record {
        processed = out.marked;
        bus = out.kept;
        gate = h.gate;
        pending = λ bare seen_hit. ground (arith, e.seen_quiet bare);
        clean = λ bare _ _. out.bare (h.gate bare);
        observation = h.observation;
      }

  drop-Reads :
      (bus : List DaemonEventPayloadInner) (el : Option (List Text))
      → Reads bus
      → Reads (drop_pending_non_members_after_success bus p el)
  unfolding drop_pending_non_members_after_success
  drop-Reads bus none r = r
  drop-Reads bus (some el) r = keep_members-Reads p post_matches el bus r

  drop_bare :
      (bus : List DaemonEventPayloadInner) (el : Option (List Text))
      → el ≡ none
      → drop_pending_non_members_after_success bus p el ≡ bus
  unfolding drop_pending_non_members_after_success
  drop_bare bus none h = refl
  drop_bare bus (some el) h = absurd cc

  pub dropped-Held :
      (seen : List DaemonEventPayloadInner) (saw : Bool) (w : PushWait)
      → Held seen saw true w
      → Held seen saw true (dropped p w)
  dropped-Held seen saw w h = record {
    processed = h.processed;
    bus = drop-Reads w.bus w.after_eligible h.bus;
    gate = h.gate;
    pending = λ bare s.
        ap (any (hits p)) (drop_bare w.bus w.after_eligible (h.gate bare)) ∙ h.pending bare s;
    clean = λ bare s c.
        ap (any (hits p)) (drop_bare w.bus w.after_eligible (h.gate bare)) ∙ h.clean bare s c;
    observation = h.observation;
  }

  pub pushed-Held :
      (seen events : List DaemonEventPayloadInner) (saw strict : Bool) (w : PushWait)
      → Held seen saw strict w
      → Reads events
      → Held (seen ++ events) saw false (pushed events w)
  pushed-Held seen events saw strict w h r = record {
    processed = h.processed;
    bus = All-append (ReadsPost p post_matches) w.bus events h.bus r;
    gate = h.gate;
    pending = λ bare.
        ground (
          arith,
          any-append (hits p) seen events,
          any-append (hits p) w.bus events,
          h.pending bare,
        );
    clean = λ bare s. absurd cc;
    observation = h.observation;
  }

  pub evaluate-Held :
      (seen : List DaemonEventPayloadInner) (saw : Bool) (w w' : PushWait)
      → Held seen saw false w
      → evaluate p w ≡ waiting w'
      → Held seen saw true w'
  evaluate-Held seen saw w w' h e =
      let f = fire_none (hit_of p [] w) (reconciled p w) w' e in
      subst (Held seen saw true) f.1
        (reconciled-Held seen saw [] w h (hit_none-Passed seen saw false [] w h tt f.0))

  pub and_then-waiting :
      (o : Outcome) (f : PushWait → Outcome) (w' : PushWait)
      → and_then o f ≡ waiting w'
      → (w : PushWait) × (o ≡ waiting w) × (f w ≡ waiting w')
  and_then-waiting (fired m) f w' h = absurd cc
  and_then-waiting (failed e) f w' h = absurd cc
  and_then-waiting (waiting w) f w' h = (w, refl, h)

  pub fetching-Held :
      (during : List (List DaemonEventPayloadInner)) (seen : List DaemonEventPayloadInner)
      (saw strict : Bool) (w w' : PushWait)
      → Held seen saw strict w
      → All Reads during
      → fetching p during w ≡ waiting w'
      → Held (seen ++ concat during) saw strict w'
  unfolding fetching
  fetching-Held [] seen saw strict w w' h r e =
      subst (λ s. Held s saw strict w') (sym (append-nil seen))
        (subst (Held seen saw strict) (waiting_inj e) h)
    where
      waiting_inj : waiting w ≡ waiting w' → w ≡ w'
      waiting_inj e = cc
  fetching-Held (events ∷ more) seen saw strict w w' h r e =
      let (next, e0, e1) = and_then-waiting (evaluate p (pushed events w)) (fetching p more) w' e in
      subst (λ s. Held s saw strict w') (append_assoc seen events (concat more))
        (fetching-Held more (seen ++ events) saw strict next w'
          (relax (
            evaluate-Held (seen ++ events) saw (pushed events w) next
              (pushed-Held seen events saw strict w h r.0) e0))
          r.1 e1)

  pub page_fetched-Held :
      (events seen : List DaemonEventPayloadInner) (posts : List Message) (saw strict : Bool)
      (w w' : PushWait)
      → Held seen saw strict w
      → Reads events
      → All (ReadsMessage p post_matches) posts
      → page_fetched p events posts w ≡ waiting w'
      → Held (seen ++ events) true true w' × All (QuietMessage p post_matches) posts
  unfolding page_fetched note_after_eligible
  page_fetched-Held events seen posts saw strict w w' h r m e =
      let f = fire_none (hit_of p posts noted) _ w' e in
      let passed = hit_none-Passed (seen ++ events) true false posts noted noted-Held m f.0 in
      (
        subst (Held (seen ++ events) true true) f.1 (
            marked
              (dropped-Held _ true (reconciled p noted)
                (reconciled-Held _ true posts noted noted-Held passed))
              passed.posts_quiet),
        passed.posts_quiet,
      )
    where
      noted : PushWait
      noted = record w {
        bus = w.bus ++ events;
        after_eligible = note_after_eligible w.after_eligible posts;
        saw_successful_rest = true;
        clean_observe = true;
      }

      still_bare : (el : Option (List Text)) → el ≡ none → note_after_eligible el posts ≡ none
      still_bare none h = refl
      still_bare (some el) h = absurd cc

      noted-Held : Held (seen ++ events) true false noted
      noted-Held =
          let h' = pushed-Held seen events saw strict w h r in
          record {
            processed = h'.processed;
            bus = h'.bus;
            gate = λ bare. still_bare w.after_eligible (h.gate bare);
            pending = h'.pending;
            clean = λ bare s. absurd cc;
            observation = λ _. refl;
          }

      marked :
          {v : PushWait} {c : Option Text}
          → Held (seen ++ events) true true v
          → All (QuietMessage p post_matches) posts
          → Held
              (seen ++ events)
              true
              true
              (record v { scan_cursor = c; processed = page_ids posts ++ v.processed })
      marked {v} k q = record {
        processed =
            All-append (Quiet p post_matches) (page_ids posts) v.processed
              (page_ids-Quiet p post_matches posts q) k.processed;
        bus = k.bus;
        gate = k.gate;
        pending = k.pending;
        clean = k.clean;
        observation = k.observation;
      }
