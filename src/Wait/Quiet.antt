-- ===== src/Wait/Quiet.antt =====
-- What has been evaluated while the monitored wait of crates/chanvoy-daemon/src/wait.rs still runs.
use chanvoy.Base.{
  List, [], ◌∷◌, Option, none, Bool, true, false, ◌&&◌, not, if◌then◌else◌, any, All, ◌≡◌, ◌≢◌,
  refl, subst, arith,
}
use chanvoy.Base.Texts.{Text, text_beq, text_beq_iff}
use chanvoy.Coalesce.{message_order, place, sort_by_key}
use chanvoy.Message.{Message}
use chanvoy.Wait.{
  DaemonEventPayloadInner, inbound, connection_state_changed, gap, WaitPredicate, matches_message,
  matches_inbound, in_set, candidates, first_of, first_match, page_ids, bus_id_after_eligible,
}
use chanvoy.Wait.Push.{first_bus, reconcile_bus_after_eval, keep_members}

by_if {ℓ κ} :
    {A : Type ℓ} (b : Bool) (P : A → Type κ) {x y : A}
    → (b ≡ true → P x)
    → (b ≡ false → P y)
    → P (if b then x else y)
by_if true P h k = h refl
by_if false P h k = k refl

ungated : (post_id : Text) (b : Bool) → (not (bus_id_after_eligible none post_id) && b) ≡ true → ⊥
unfolding bus_id_after_eligible
ungated post_id b h = cc

-- The event is a match.
unfoldable pub hits : WaitPredicate → DaemonEventPayloadInner → Bool
hits p (inbound e) = matches_inbound p e
hits p connection_state_changed = false
hits p gap = false

module _ (p : WaitPredicate) (post_matches : Text → Bool) where
  -- Whether a post matches depends on its id only.
  abbrev pub ReadsPost : DaemonEventPayloadInner → Type 0
  ReadsPost (inbound e) =
      text_beq e.channel_id p.channel_id ≡ true → matches_inbound p e ≡ post_matches e.post_id
  ReadsPost connection_state_changed = Unit
  ReadsPost gap = Unit

  abbrev pub ReadsMessage : Message → Type 0
  ReadsMessage m = matches_message p m ≡ post_matches m.id

  abbrev pub Quiet : Text → Type 0
  Quiet id = post_matches id ≡ false

  abbrev pub QuietMessage : Message → Type 0
  QuietMessage m = post_matches m.id ≡ false

  -- A post of the channel that may fire does not match.
  abbrev pub Evaluated : Option (List Text) → DaemonEventPayloadInner → Type 0
  Evaluated el (inbound e) =
      text_beq e.channel_id p.channel_id ≡ true
      → bus_id_after_eligible el e.post_id ≡ true
      → Quiet e.post_id
  Evaluated el connection_state_changed = Unit
  Evaluated el gap = Unit

  in_set-Quiet : (id : Text) (ids : List Text) → All Quiet ids → in_set id ids ≡ true → Quiet id
  in_set-Quiet id [] h k = cc
  in_set-Quiet id (i ∷ ids) h k = ground (arith, text_beq_iff i id, in_set-Quiet id ids h.1)

  pub first_bus-Evaluated :
      (processed : List Text) (el : Option (List Text)) (bus : List DaemonEventPayloadInner)
      → All Quiet processed
      → All ReadsPost bus
      → first_bus p processed el bus ≡ none
      → All (Evaluated el) bus
  first_bus-Evaluated processed el [] q r h = tt
  first_bus-Evaluated processed el (inbound e ∷ bus) q r h = (
    (λ here may. ground (arith, in_set-Quiet e.post_id processed q, r.0 here)),
    first_bus-Evaluated processed el bus q r.1 (ground arith),
  )
  first_bus-Evaluated processed el (connection_state_changed ∷ bus) q r h =
      (tt, first_bus-Evaluated processed el bus q r.1 h)
  first_bus-Evaluated processed el (gap ∷ bus) q r h =
      (tt, first_bus-Evaluated processed el bus q r.1 h)

  pub no_hits :
      (bus : List DaemonEventPayloadInner)
      → All ReadsPost bus
      → All (Evaluated none) bus
      → any (hits p) bus ≡ false
  unfolding hits matches_inbound bus_id_after_eligible
  no_hits [] r e = refl
  no_hits (inbound x ∷ bus) r e = ground (arith, r.0, e.0, no_hits bus r.1 e.1)
  no_hits (connection_state_changed ∷ bus) r e = no_hits bus r.1 e.1
  no_hits (gap ∷ bus) r e = no_hits bus r.1 e.1

  place_some : (m : Message) (ms : List Message) → first_of (place m ms) ≢ none
  place_some m [] h = absurd cc
  place_some m (n ∷ ms) h = ground arith

  sorted_none : (ms : List Message) → first_of (sort_by_key ms) ≡ none → ms ≡ []
  sorted_none [] h = refl
  sorted_none (m ∷ ms) h = absurd (place_some m (sort_by_key ms) h)

  no_candidates-Quiet :
      (processed : List Text) (page : List Message)
      → All Quiet processed
      → All ReadsMessage page
      → candidates p processed page ≡ []
      → All QuietMessage page
  no_candidates-Quiet processed [] q r h = tt
  no_candidates-Quiet processed (m ∷ ms) q r h = (
    ground (arith, in_set-Quiet m.id processed q, r.0),
    no_candidates-Quiet processed ms q r.1 (ground arith),
  )

  pub first_match-Quiet :
      (processed : List Text) (page : List Message)
      → All Quiet processed
      → All ReadsMessage page
      → first_match page p processed ≡ none
      → All QuietMessage page
  unfolding first_match
  first_match-Quiet processed page q r h =
      no_candidates-Quiet processed page q r (sorted_none (candidates p processed page) h)

  pub page_ids-Quiet : (page : List Message) → All QuietMessage page → All Quiet (page_ids page)
  page_ids-Quiet [] q = tt
  page_ids-Quiet (m ∷ ms) q = (q.0, page_ids-Quiet ms q.1)

  -- What is left in the buffer, and what is marked, after an evaluation that does not fire.
  pub record Reconciled (el : Option (List Text)) (out : List DaemonEventPayloadInner × List Text)
      : Type 0 where
    pub kept : All ReadsPost out.0
    pub marked : All Quiet out.1
    pub bare : el ≡ none → any (hits p) out.0 ≡ false

  pub reconcile-Reconciled :
      (bus : List DaemonEventPayloadInner) (processed : List Text) (el : Option (List Text))
      → All Quiet processed
      → All ReadsPost bus
      → All (Evaluated el) bus
      → Reconciled el (reconcile_bus_after_eval bus p processed el)
  unfolding reconcile_bus_after_eval
  reconcile-Reconciled [] processed el q r e = record { kept = tt; marked = q; bare = λ _. refl }
  reconcile-Reconciled (inbound x ∷ bus) processed el q r e =
      let skipped = reconcile-Reconciled bus processed el q r.1 e.1 in
      by_if (text_beq x.channel_id p.channel_id) (Reconciled el)
        (λ here.
          by_if (in_set x.post_id processed) (Reconciled el) (λ _. skipped)
            (λ _.
              by_if (not (bus_id_after_eligible el x.post_id) && matches_inbound p x)
                (Reconciled el)
                (λ gated. record {
                  kept = (r.0, skipped.kept);
                  marked = skipped.marked;
                  bare = λ none_el. absurd (bare_ungated none_el gated);
                })
                (λ free.
                  reconcile-Reconciled bus (x.post_id ∷ processed) el (quiet here free, q) r.1
                    e.1)))
        (λ _. skipped)
    where
      quiet :
          text_beq x.channel_id p.channel_id ≡ true
          → (not (bus_id_after_eligible el x.post_id) && matches_inbound p x) ≡ false
          → Quiet x.post_id
      quiet here free = ground (arith, r.0 here, e.0 here)

      bare_ungated :
          el ≡ none → (not (bus_id_after_eligible el x.post_id) && matches_inbound p x) ≡ true → ⊥
      bare_ungated none_el gated = ungated x.post_id (matches_inbound p x) (
          subst (λ l. (not (bus_id_after_eligible l x.post_id) && matches_inbound p x) ≡ true)
            none_el gated)
  reconcile-Reconciled (connection_state_changed ∷ bus) processed el q r e =
      reconcile-Reconciled bus processed el q r.1 e.1
  reconcile-Reconciled (gap ∷ bus) processed el q r e =
      reconcile-Reconciled bus processed el q r.1 e.1

  pub keep_members-Reads :
      (el : List Text) (bus : List DaemonEventPayloadInner)
      → All ReadsPost bus
      → All ReadsPost (keep_members p el bus)
  keep_members-Reads el [] r = tt
  keep_members-Reads el (inbound x ∷ bus) r = ground (arith, keep_members-Reads el bus r.1)
  keep_members-Reads el (connection_state_changed ∷ bus) r = keep_members-Reads el bus r.1
  keep_members-Reads el (gap ∷ bus) r = keep_members-Reads el bus r.1
