-- ===== src/WsCollection/Effects.antt =====
-- What one event of the coordinator does to what is registered, joined and told.
use chanvoy.Base.{
  ℕ, ◌+◌, List, [], ◌∷◌, ◌++◌, none, some, Result, ok, err, Bool, true, false, ◌||◌, ◌==◌,
  if◌then◌else◌, count_if, ◌≡◌, refl, sym, ap, subst, arith,
}
use chanvoy.WsCollection.{
  WsCollectionError, outer_join_unconfirmed, recovery_join_unconfirmed, Coordinator, Event,
  register, drop_sender, record_error, join_outer, receive, join_child,
  recovery_execution_unconfirmed, outer_execution_unconfirmed, registration_unavailable,
  first_error, first_collection, blame, take_one, has, recv, after,
}

-- How often a child was registered, and joined.
abbrev pub registered : ℕ → List Event → ℕ
registered c [] = 0
registered c (register x ∷ es) = (if x == c then 1 else 0) + registered c es
registered c (drop_sender ∷ es) = registered c es
registered c (record_error e ∷ es) = registered c es
registered c (join_outer good ∷ es) = registered c es
registered c (receive ∷ es) = registered c es
registered c (join_child x good ∷ es) = registered c es

abbrev pub joined_times : ℕ → List Event → ℕ
joined_times c [] = 0
joined_times c (register x ∷ es) = joined_times c es
joined_times c (drop_sender ∷ es) = joined_times c es
joined_times c (record_error e ∷ es) = joined_times c es
joined_times c (join_outer good ∷ es) = joined_times c es
joined_times c (receive ∷ es) = joined_times c es
joined_times c (join_child x good ∷ es) = (if x == c then 1 else 0) + joined_times c es

-- The first join that failed.
abbrev pub first_failed : List Event → Result WsCollectionError (Unit {0})
first_failed [] = ok tt
first_failed (register x ∷ es) = first_failed es
first_failed (drop_sender ∷ es) = first_failed es
first_failed (record_error e ∷ es) = first_failed es
first_failed (join_outer true ∷ es) = first_failed es
first_failed (join_outer false ∷ es) = err outer_join_unconfirmed
first_failed (receive ∷ es) = first_failed es
first_failed (join_child x true ∷ es) = first_failed es
first_failed (join_child x false ∷ es) = err recovery_join_unconfirmed

abbrev pub occurs : ℕ → List ℕ → ℕ
occurs c xs = count_if (λ x. x == c) xs

pub record IsValid (s : Coordinator) : Type 0 where
  pub closed_once_joined : s.closed ≡ s.joined
  pub dropped_once_joined : s.joined ≡ true → s.sender_dropped ≡ true
  pub drained : s.registrations_closed ≡ true → (s.sender_dropped ≡ true) × (s.queue ≡ [])

abbrev pub or_else :
    Result WsCollectionError (Unit {0})
    → Result WsCollectionError (Unit {0})
    → Result WsCollectionError (Unit {0})
or_else (ok u) r = r
or_else (err e) r = err e

-- What one event does.
pub record Effect (e : Event) (s s' : Coordinator) : Type 0 where
  pub valid : IsValid s'
  pub counted :
      (c : ℕ)
      → occurs c s.queue + occurs c s.children + registered c (e ∷ [])
        ≡ occurs c s'.queue + occurs c s'.children + joined_times c (e ∷ [])
  pub told : s'.collection ≡ or_else s.collection (first_failed (e ∷ []))

occurs-append : (c : ℕ) (xs ys : List ℕ) → occurs c (xs ++ ys) ≡ occurs c xs + occurs c ys
occurs-append c [] ys = omega arith
occurs-append c (x ∷ xs) ys = omega (arith, occurs-append c xs ys)

occurs-take_one :
    (c d : ℕ) (xs : List ℕ)
    → has d xs ≡ true
    → occurs c xs ≡ occurs c (take_one d xs) + (if d == c then 1 else 0)
occurs-take_one c d [] h = absurd (cc)
occurs-take_one c d (x ∷ xs) h = ground (arith, occurs-take_one c d xs)

pub or_else-ok : (r : Result WsCollectionError (Unit {0})) → or_else r (ok tt) ≡ r
or_else-ok (ok u) = refl
or_else-ok (err e) = refl

pub of_some : (t s' : Coordinator) → some t ≡ some s' → t ≡ s'
of_some t s' h = cc

register-Effect :
    (c : ℕ) (s s' : Coordinator) (b k : Bool)
    → IsValid s
    → (s.joined || s.sender_dropped) ≡ b
    → s.closed ≡ k
    → (if b
        then none
        else if k
        then some (record s { error = first_error s.error registration_unavailable })
        else some (record s { queue = s.queue ++ (c ∷ []) }))
      ≡ some s'
    → Effect (register c) s s'
register-Effect c s s' true k v e f h = absurd (cc)
register-Effect c s s' false true v e f h = let g = v.closed_once_joined in absurd (ground arith)
register-Effect c s s' false false v e f h =
    subst (Effect (register c) s) (of_some _ s' h) (record {
      valid = record {
        closed_once_joined = v.closed_once_joined;
        dropped_once_joined = v.dropped_once_joined;
        drained = λ k. let d = (v.drained k).0 in absurd (ground arith);
      };
      counted = λ x. omega (arith, occurs-append x s.queue (c ∷ []));
      told = sym (or_else-ok s.collection);
    })

drop-Effect :
    (s s' : Coordinator) (b : Bool)
    → IsValid s
    → (if b then none else some (record s { sender_dropped = true })) ≡ some s'
    → Effect drop_sender s s'
drop-Effect s s' true v h = absurd (cc)
drop-Effect s s' false v h = subst (Effect drop_sender s) (of_some _ s' h) (record {
  valid = record {
    closed_once_joined = v.closed_once_joined;
    dropped_once_joined = λ j. refl;
    drained = λ k. (refl, (v.drained k).1);
  };
  counted = λ c. refl;
  told = sym (or_else-ok s.collection);
})

told_by :
    (r : Result WsCollectionError (Unit {0})) (e : WsCollectionError)
    → first_collection r e ≡ or_else r (err e)
told_by (ok u) e = refl
told_by (err f) e = refl

outer-Effect :
    (good : Bool) (s s' : Coordinator) (j : Bool)
    → IsValid s
    → s.joined ≡ j
    → (if j
        then none
        else some
            (record (blame outer_execution_unconfirmed outer_join_unconfirmed good
              (record s { joined = true; sender_dropped = true })) { closed = true }))
      ≡ some s'
    → Effect (join_outer good) s s'
outer-Effect good s s' true v e h = absurd (cc)
outer-Effect true s s' false v e h = subst (Effect (join_outer true) s) (of_some _ s' h) (record {
  valid = record {
    closed_once_joined = refl;
    dropped_once_joined = λ j. refl;
    drained = λ k. (refl, (v.drained k).1);
  };
  counted = λ x. omega arith;
  told = sym (or_else-ok s.collection);
})
outer-Effect false s s' false v e h = subst (Effect (join_outer false) s) (of_some _ s' h) (record {
  valid = record {
    closed_once_joined = refl;
    dropped_once_joined = λ j. refl;
    drained = λ k. (refl, (v.drained k).1);
  };
  counted = λ x. omega arith;
  told = told_by s.collection outer_join_unconfirmed;
})

receive-Effect :
    (s s' : Coordinator) (r k : Bool) (queue : List ℕ)
    → IsValid s
    → s.registrations_closed ≡ r
    → s.closed ≡ k
    → s.queue ≡ queue
    → (if r then none else recv queue s) ≡ some s'
    → Effect receive s s'
receive-Effect s s' true k queue v e f g h = absurd (cc)
receive-Effect s s' false k (c ∷ queue) v e f g h =
    subst (Effect receive s) (of_some _ s' h) (record {
      valid = record {
        closed_once_joined = v.closed_once_joined;
        dropped_once_joined = v.dropped_once_joined;
        drained = λ x. absurd (cc);
      };
      counted = λ x. omega (arith, ap (occurs x) g);
      told = sym (or_else-ok s.collection);
    })
receive-Effect s s' false k [] v e f g h = drained_by (s.closed || s.sender_dropped) refl h
  where
    drained_by :
        (b : Bool)
        → (s.closed || s.sender_dropped) ≡ b
        → (if b then some (record s { registrations_closed = true }) else none) ≡ some s'
        → Effect receive s s'
    drained_by true f h = subst (Effect receive s) (of_some _ s' h) (record {
      valid = record {
        closed_once_joined = v.closed_once_joined;
        dropped_once_joined = v.dropped_once_joined;
        drained = λ x. (dropped, g);
      };
      counted = λ x. omega arith;
      told = sym (or_else-ok s.collection);
    })
      where
        dropped : s.sender_dropped ≡ true
        dropped = let c = v.closed_once_joined in let d = v.dropped_once_joined in ground arith
    drained_by false f h = absurd (cc)

child-Effect :
    (c : ℕ) (good : Bool) (s s' : Coordinator) (b : Bool)
    → IsValid s
    → has c s.children ≡ b
    → (if b
        then some (
            blame recovery_execution_unconfirmed recovery_join_unconfirmed good
              (record s { children = take_one c s.children }))
        else none)
      ≡ some s'
    → Effect (join_child c good) s s'
child-Effect c good s s' false v e h = absurd (cc)
child-Effect c true s s' true v e h =
    subst (Effect (join_child c true) s) (of_some _ s' h) (record {
      valid = record {
        closed_once_joined = v.closed_once_joined;
        dropped_once_joined = v.dropped_once_joined;
        drained = v.drained;
      };
      counted = λ x. omega (arith, occurs-take_one x c s.children e);
      told = sym (or_else-ok s.collection);
    })
child-Effect c false s s' true v e h =
    subst (Effect (join_child c false) s) (of_some _ s' h) (record {
      valid = record {
        closed_once_joined = v.closed_once_joined;
        dropped_once_joined = v.dropped_once_joined;
        drained = v.drained;
      };
      counted = λ x. omega (arith, occurs-take_one x c s.children e);
      told = told_by s.collection recovery_join_unconfirmed;
    })

pub after-Effect :
    (e : Event) (s s' : Coordinator) → IsValid s → after e s ≡ some s' → Effect e s s'
unfolding after
after-Effect (register c) s s' v h =
    register-Effect c s s' (s.joined || s.sender_dropped) s.closed v refl refl h
after-Effect drop_sender s s' v h = drop-Effect s s' (s.joined || s.sender_dropped) v h
after-Effect (record_error e) s s' v h =
    subst (Effect (record_error e) s) (of_some _ s' h) (record {
      valid = record {
        closed_once_joined = v.closed_once_joined;
        dropped_once_joined = v.dropped_once_joined;
        drained = v.drained;
      };
      counted = λ x. refl;
      told = sym (or_else-ok s.collection);
    })
after-Effect (join_outer good) s s' v h = outer-Effect good s s' s.joined v refl h
after-Effect receive s s' v h =
    receive-Effect s s' s.registrations_closed s.closed s.queue v refl refl refl h
after-Effect (join_child c good) s s' v h = child-Effect c good s s' (has c s.children) v refl h
