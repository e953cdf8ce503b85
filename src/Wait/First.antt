-- ===== src/Wait/First.antt =====
-- The choice of `first_match_bus_then_rest` in crates/chanvoy-daemon/src/wait.rs.
use chanvoy.Base.{
  List, [], ◌∷◌, ◌++◌, Option, none, some, Bool, true, false, ◌&&◌, not, if◌then◌else◌, All,
  Bool-cases, ◌≡◌, refl, ap, subst, ◌∙◌, arith, ◌⊎◌, inl, inr, any,
}
use chanvoy.Base.Texts.{Text, text_ltb_irrefl}
use chanvoy.Coalesce.{message_order, order_key, place, sort_by_key}
use chanvoy.Coalesce.Burst.{Sorted, sort_by_key-Sorted, sort_by_key-All}
use chanvoy.Follow.{key_ltb}
use chanvoy.Message.{Message}
use chanvoy.Wait.{
  InboundEventPayload, DaemonEventPayloadInner, inbound, connection_state_changed, gap,
  WaitPredicate, matches_message, matches_inbound, inbound_to_message, in_set, candidates, first_of,
  first_match, bus_id_after_eligible,
}
use chanvoy.Wait.Push.{first_bus, or_else, first_match_bus_then_rest}

module _ (p : WaitPredicate) (processed : List Text) (el : Option (List Text)) where
  -- The event may fire: a match that is not processed, and eligible.
  unfoldable pub may_fire : DaemonEventPayloadInner → Bool
  may_fire (inbound e) =
      not (in_set e.post_id processed) && bus_id_after_eligible el e.post_id && matches_inbound p e
  may_fire connection_state_changed = false
  may_fire gap = false

  unfoldable pub fresh : Message → Bool
  fresh m = not (in_set m.id processed) && matches_message p m

  abbrev pub Among : Message → List Message → Type 0
  Among m [] = ⊥
  Among m (x ∷ xs) = (x ≡ m) ⊎ Among m xs

  -- The hit is the event of the buffer that arrived first among those that may fire.
  pub record FromBus (bus : List DaemonEventPayloadInner) (m : Message) : Type 0 where
    pub before : List DaemonEventPayloadInner
    pub event : InboundEventPayload
    pub after : List DaemonEventPayloadInner
    pub split : bus ≡ before ++ (inbound event ∷ after)
    pub earlier : any may_fire before ≡ false
    pub fires : may_fire (inbound event) ≡ true
    pub message : m ≡ inbound_to_message event

  -- No event may fire, and the hit is a post of the page that is fresh, with the least time and id.
  pub record FromPage (bus : List DaemonEventPayloadInner) (page : List Message) (m : Message)
      : Type 0 where
    pub none_fires : any may_fire bus ≡ false
    pub among : Among m page
    pub is_fresh : fresh m ≡ true
    pub least : All (λ x. fresh x ≡ true → key_ltb (order_key x) (order_key m) ≡ false) page

  later_bus :
      (x : DaemonEventPayloadInner) (bus : List DaemonEventPayloadInner) (m : Message)
      → may_fire x ≡ false
      → FromBus bus m
      → FromBus (x ∷ bus) m
  later_bus x bus m h f = record {
    before = x ∷ f.before;
    event = f.event;
    after = f.after;
    split = ap (λ l. x ∷ l) f.split;
    earlier = ground (arith, f.earlier);
    fires = f.fires;
    message = f.message;
  }

  first_bus-FromBus :
      (bus : List DaemonEventPayloadInner) (m : Message)
      → first_bus p processed el bus ≡ some m
      → FromBus bus m
  unfolding may_fire
  first_bus-FromBus [] m h = absurd cc
  first_bus-FromBus (inbound e ∷ bus) m h = elim (Bool-cases (may_fire (inbound e))) [
    | inl fires ↦ record {
      before = [];
      event = e;
      after = bus;
      split = refl;
      earlier = refl;
      fires = fires;
      message = ground arith;
    }
    | inr silent ↦ later_bus (inbound e) bus m silent (first_bus-FromBus bus m (ground arith))
  ]
  first_bus-FromBus (connection_state_changed ∷ bus) m h =
      later_bus connection_state_changed bus m refl (first_bus-FromBus bus m h)
  first_bus-FromBus (gap ∷ bus) m h = later_bus gap bus m refl (first_bus-FromBus bus m h)

  first_bus-none :
      (bus : List DaemonEventPayloadInner)
      → first_bus p processed el bus ≡ none
      → any may_fire bus ≡ false
  unfolding may_fire
  first_bus-none [] h = refl
  first_bus-none (inbound e ∷ bus) h = ground (arith, first_bus-none bus)
  first_bus-none (connection_state_changed ∷ bus) h = first_bus-none bus h
  first_bus-none (gap ∷ bus) h = first_bus-none bus h

  place-All_back :
      (P : Message → Type 0) (x : Message) (ys : List Message) → All P (place x ys) → P x × All P ys
  place-All_back P x [] h = (h.0, tt)
  place-All_back P x (y ∷ ys) h =
      by_test (key_ltb (order_key y) (order_key x)) h (place-All_back P x ys)
    where
      by_test :
          (b : Bool)
          → All P (if b then y ∷ place x ys else x ∷ y ∷ ys)
          → (All P (place x ys) → P x × All P ys)
          → P x × (P y × All P ys)
      by_test true k again = let (a, r) = again k.1 in (a, (k.0, r))
      by_test false k again = k

  sort_by_key-All_back :
      (P : Message → Type 0) (xs : List Message) → All P (sort_by_key xs) → All P xs
  sort_by_key-All_back P [] h = tt
  sort_by_key-All_back P (x ∷ xs) h =
      let (a, b) = place-All_back P x (sort_by_key xs) h in (a, sort_by_key-All_back P xs b)

  Among-All :
      (P : Message → Type 0) (page : List Message)
      → ((m : Message) → Among m page → P m)
      → All P page
  Among-All P [] f = tt
  Among-All P (x ∷ xs) f = (f x (inl refl), Among-All P xs (λ m a. f m (inr a)))

  candidates-All :
      (P : Message → Type 0) (page : List Message)
      → All (λ m. fresh m ≡ true → P m) page
      → All P (candidates p processed page)
  unfolding fresh
  candidates-All P [] h = tt
  candidates-All P (m ∷ ms) h = elim (Bool-cases (fresh m)) [
    | inl yes_fresh ↦ rw yes_fresh (h.0 yes_fresh, candidates-All P ms h.1)
    | inr stale ↦ rw stale (candidates-All P ms h.1)
  ]

  candidates-All_back :
      (P : Message → Type 0) (page : List Message)
      → All P (candidates p processed page)
      → All (λ m. fresh m ≡ true → P m) page
  unfolding fresh
  candidates-All_back P [] h = tt
  candidates-All_back P (m ∷ ms) h = by_test (fresh m) h (candidates-All_back P ms)
    where
      by_test :
          (b : Bool)
          → All P (if b then m ∷ candidates p processed ms else candidates p processed ms)
          → (All P (candidates p processed ms) → All (λ m. fresh m ≡ true → P m) ms)
          → (b ≡ true → P m) × All (λ m. fresh m ≡ true → P m) ms
      by_test true k again = ((λ _. k.0), again k.1)
      by_test false k again = ((λ b. absurd cc), again k)

  key_irrefl : (m : Message) → key_ltb (order_key m) (order_key m) ≡ false
  key_irrefl m = ground (arith, text_ltb_irrefl m.id)

  head-least :
      (sorted : List Message) (m : Message)
      → Sorted sorted
      → first_of sorted ≡ some m
      → All (λ x. key_ltb (order_key x) (order_key m) ≡ false) sorted
  head-least [] m s h = absurd cc
  head-least (x ∷ xs) m s h =
      subst (λ y. All (λ z. key_ltb (order_key z) (order_key y) ≡ false) (x ∷ xs)) (some_inj h)
        (key_irrefl x, s.0)
    where
      some_inj : some x ≡ some m → x ≡ m
      some_inj h = cc

  head-All :
      (P : Message → Type 0) (sorted : List Message) (m : Message)
      → All P sorted
      → first_of sorted ≡ some m
      → P m
  head-All P [] m a h = absurd cc
  head-All P (x ∷ xs) m a h = subst P (some_inj h) a.0
    where
      some_inj : some x ≡ some m → x ≡ m
      some_inj h = cc

  first_match-FromPage :
      (bus : List DaemonEventPayloadInner) (page : List Message) (m : Message)
      → any may_fire bus ≡ false
      → first_match page p processed ≡ some m
      → FromPage bus page m
  unfolding first_match
  first_match-FromPage bus page m h e = record {
    none_fires = h;
    among = found.0;
    is_fresh = found.1;
    least =
        candidates-All_back (λ x. key_ltb (order_key x) (order_key m) ≡ false) page
          (sort_by_key-All_back _ (candidates p processed page)
            (head-least _ m (sort_by_key-Sorted (candidates p processed page)) e));
  }
    where
      found : Among m page × (fresh m ≡ true)
      found =
          head-All (λ x. Among x page × (fresh x ≡ true))
            (sort_by_key (candidates p processed page)) m
            (sort_by_key-All _ (candidates p processed page)
              (candidates-All _ page (Among-All _ page (λ x a f. (a, f)))))
            e

-- The message that `first_match_bus_then_rest` gives is either of the event of the buffer that arrived
-- first among those that are not processed, eligible and a match; or, when there is none, a post of
-- the page that is not processed and matches, and no such post of the page is below it by time and id.
pub first_match_bus_then_rest-First :
    (p : WaitPredicate) (processed : List Text) (el : Option (List Text))
    (bus : List DaemonEventPayloadInner) (page : List Message) (m : Message)
    → first_match_bus_then_rest page bus p processed el ≡ some m
    → FromBus p processed el bus m ⊎ FromPage p processed el bus page m
unfolding first_match_bus_then_rest
first_match_bus_then_rest-First p processed el bus page m h =
    by_bus (first_bus p processed el bus) refl h
  where
    by_bus :
        (o : Option Message)
        → first_bus p processed el bus ≡ o
        → or_else o (first_match page p processed) ≡ some m
        → FromBus p processed el bus m ⊎ FromPage p processed el bus page m
    by_bus none e k =
        inr (first_match-FromPage p processed el bus page m (first_bus-none p processed el bus e) k)
    by_bus (some x) e k = inl (first_bus-FromBus p processed el bus m (e ∙ k))
