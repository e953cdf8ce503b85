-- ===== src/WsCollection/Joined.antt =====
-- Sequences of events of the coordinator, up to its receipt.
use chanvoy.Base.{
  ℕ, ◌+◌, List, [], ◌∷◌, none, some, Result, ok, err, true, false, ◌≡◌, refl, sym, ap, subst, ◌∙◌,
  inl, inr, arith, Option-cases,
}
use chanvoy.WsCollection.{
  WsCollectionError, Coordinator, launch, Event, register, drop_sender, record_error, join_outer,
  receive, join_child, after, none_left, is_done, after_all, finish,
}
use chanvoy.WsCollection.Effects.{
  registered, joined_times, first_failed, occurs, IsValid, or_else, or_else-ok, of_some,
  after-Effect,
}

registered-split :
    (c : ℕ) (e : Event) (es : List Event)
    → registered c (e ∷ es) ≡ registered c (e ∷ []) + registered c es
registered-split c (register x) es = omega arith
registered-split c drop_sender es = omega arith
registered-split c (record_error t) es = omega arith
registered-split c (join_outer good) es = omega arith
registered-split c receive es = omega arith
registered-split c (join_child x good) es = omega arith

joined_times-split :
    (c : ℕ) (e : Event) (es : List Event)
    → joined_times c (e ∷ es) ≡ joined_times c (e ∷ []) + joined_times c es
joined_times-split c (register x) es = omega arith
joined_times-split c drop_sender es = omega arith
joined_times-split c (record_error t) es = omega arith
joined_times-split c (join_outer good) es = omega arith
joined_times-split c receive es = omega arith
joined_times-split c (join_child x good) es = omega arith

first_failed-split :
    (r : Result WsCollectionError (Unit {0})) (e : Event) (es : List Event)
    → or_else (or_else r (first_failed (e ∷ []))) (first_failed es)
      ≡ or_else r (first_failed (e ∷ es))
first_failed-split (err f) e es = refl
first_failed-split (ok u) (register x) es = refl
first_failed-split (ok u) drop_sender es = refl
first_failed-split (ok u) (record_error t) es = refl
first_failed-split (ok u) (join_outer true) es = refl
first_failed-split (ok u) (join_outer false) es = refl
first_failed-split (ok u) receive es = refl
first_failed-split (ok u) (join_child x true) es = refl
first_failed-split (ok u) (join_child x false) es = refl

-- What a sequence of events does.
pub record Effects (es : List Event) (s s' : Coordinator) : Type 0 where
  pub valid : IsValid s'
  pub counted :
      (c : ℕ)
      → occurs c s.queue + occurs c s.children + registered c es
        ≡ occurs c s'.queue + occurs c s'.children + joined_times c es
  pub told : s'.collection ≡ or_else s.collection (first_failed es)

none_left-eq : (cs : List ℕ) → none_left cs ≡ true → cs ≡ []
none_left-eq [] h = refl
none_left-eq (c ∷ cs) h = absurd (cc)

pub after_all-Effects :
    (es : List Event) (s s' : Coordinator)
    → IsValid s
    → after_all es (some s) ≡ some s'
    → Effects es s s'
after_all-Effects [] s s' v h =
    subst (Effects [] s) (of_some s s' h)
      (record { valid = v; counted = λ c. refl; told = sym (or_else-ok s.collection) })
after_all-Effects (e ∷ es) s s' v h = elim (Option-cases (after e s)) [
  | inl k ↦ absurd (stopped es (sym (ap (after_all es) k) ∙ h))
  | inr (t, k) ↦
      let f = after-Effect e s t v k in
      let g = after_all-Effects es t s' f.valid (sym (ap (after_all es) k) ∙ h) in
      record {
        valid = g.valid;
        counted = λ c.
            omega
              (arith, f.counted c, g.counted c, registered-split c e es, joined_times-split c e es);
        told =
            g.told
            ∙ (ap (λ r. or_else r (first_failed es)) f.told ∙ first_failed-split s.collection e es);
      }
]
  where
    stopped : (es : List Event) → after_all es none ≡ some s' → ⊥
    stopped es h = cc

pub launch-IsValid : IsValid launch
launch-IsValid = record {
  closed_once_joined = refl;
  dropped_once_joined = λ j. absurd (cc);
  drained = λ k. absurd (cc);
}

-- When the coordinator sends its receipt, every child was joined as often as it was registered, and
-- the receipt names the first join that failed, if any did.
pub receipt_after_all_joined :
    (es : List Event) (s : Coordinator)
    → after_all es (some launch) ≡ some s
    → is_done s ≡ true
    → ((c : ℕ) → joined_times c es ≡ registered c es) × ((finish s).collection ≡ first_failed es)
unfolding finish
receipt_after_all_joined es s h d =
    let f = after_all-Effects es launch s launch-IsValid h in
    (λ c. omega (arith, f.counted c, nothing_left c), f.told)
  where
    nothing_left : (c : ℕ) → occurs c s.queue + occurs c s.children ≡ 0
    nothing_left c =
        let f = after_all-Effects es launch s launch-IsValid h in
        omega (
          arith,
          ap (occurs c) (f.valid.drained (ground arith)).1,
          ap (occurs c) (none_left-eq s.children (ground arith)),
        )
