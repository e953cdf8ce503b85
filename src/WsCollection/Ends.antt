-- ===== src/WsCollection/Ends.antt =====
-- How many branches of the coordinator's loop are left.
use chanvoy.Base.{
  ℕ, is_some, suc, ==_iff, ◌+◌, List, [], ◌∷◌, none, some, Bool, true, false, ◌&&◌, ◌||◌,
  if◌then◌else◌, length, count_if, All, ◌≡◌, refl, sym, ap, subst, ◌∙◌, inl, inr, arith,
  Option-cases,
}
use chanvoy.WsCollection.Effects.{IsValid, of_some}
use chanvoy.WsCollection.Joined.{launch-IsValid, after_all-Effects}
use chanvoy.WsCollection.{
  Coordinator, launch, Event, register, drop_sender, record_error, join_outer, receive, join_child,
  blame, take_one, has, recv, after, none_left, is_done, after_all, outer_execution_unconfirmed,
  recovery_execution_unconfirmed, outer_join_unconfirmed, recovery_join_unconfirmed,
}

abbrev one_unless : Bool → ℕ
one_unless true = 0
one_unless false = 1

-- How many branches the loop has still to take, if the work registers no more.
abbrev pub remaining : Coordinator → ℕ
remaining s =
    one_unless s.joined
    + one_unless s.registrations_closed
    + (length s.queue + length s.queue)
    + length s.children

-- A branch of the loop, as against what the work does.
abbrev pub is_branch : Event → Bool
is_branch (register c) = false
is_branch drop_sender = false
is_branch (record_error e) = false
is_branch (join_outer good) = true
is_branch receive = true
is_branch (join_child c good) = true

abbrev pub is_registration : Event → Bool
is_registration (register c) = true
is_registration drop_sender = false
is_registration (record_error e) = false
is_registration (join_outer good) = false
is_registration receive = false
is_registration (join_child c good) = false

-- How many branches were taken.
abbrev pub branches_taken : List Event → ℕ
branches_taken es = count_if is_branch es

length-take_one : (c : ℕ) (xs : List ℕ) → has c xs ≡ true → length xs ≡ suc (length (take_one c xs))
length-take_one c [] h = absurd (cc)
length-take_one c (x ∷ xs) h = ground (arith, length-take_one c xs)

outer-remaining :
    (good : Bool) (s s' : Coordinator) (j : Bool)
    → s.joined ≡ j
    → (if j
        then none
        else some
            (record (blame outer_execution_unconfirmed outer_join_unconfirmed good
              (record s { joined = true; sender_dropped = true })) { closed = true }))
      ≡ some s'
    → remaining s ≡ suc (remaining s')
outer-remaining good s s' true e h = absurd (cc)
outer-remaining true s s' false e h =
    subst (λ t. remaining s ≡ suc (remaining t)) (of_some _ s' h) (omega (arith, ap one_unless e))
outer-remaining false s s' false e h =
    subst (λ t. remaining s ≡ suc (remaining t)) (of_some _ s' h) (omega (arith, ap one_unless e))

recv-remaining :
    (s s' : Coordinator) (r k : Bool) (queue : List ℕ)
    → s.registrations_closed ≡ r
    → s.closed ≡ k
    → s.queue ≡ queue
    → (if r then none else recv queue s) ≡ some s'
    → remaining s ≡ suc (remaining s')
recv-remaining s s' true k queue e f g h = absurd (cc)
recv-remaining s s' false k (c ∷ queue) e f g h =
    subst (λ t. remaining s ≡ suc (remaining t)) (of_some _ s' h) (omega (arith, ap length g))
recv-remaining s s' false k [] e f g h = closed_by (s.closed || s.sender_dropped) h
  where
    closed_by :
        (k : Bool)
        → (if k then some (record s { registrations_closed = true }) else none) ≡ some s'
        → remaining s ≡ suc (remaining s')
    closed_by true h =
        subst (λ t. remaining s ≡ suc (remaining t)) (of_some _ s' h)
          (omega (arith, ap one_unless e))
    closed_by false h = absurd (cc)

child-remaining :
    (c : ℕ) (good : Bool) (s s' : Coordinator) (b : Bool)
    → has c s.children ≡ b
    → (if b
        then some (
            blame recovery_execution_unconfirmed recovery_join_unconfirmed good
              (record s { children = take_one c s.children }))
        else none)
      ≡ some s'
    → remaining s ≡ suc (remaining s')
child-remaining c good s s' false e h = absurd (cc)
child-remaining c true s s' true e h =
    subst (λ t. remaining s ≡ suc (remaining t)) (of_some _ s' h)
      (omega (arith, length-take_one c s.children e))
child-remaining c false s s' true e h =
    subst (λ t. remaining s ≡ suc (remaining t)) (of_some _ s' h)
      (omega (arith, length-take_one c s.children e))

drop-remaining :
    (s s' : Coordinator) (b : Bool)
    → (if b then none else some (record s { sender_dropped = true })) ≡ some s'
    → remaining s ≡ remaining s'
drop-remaining s s' true h = absurd (cc)
drop-remaining s s' false h = ap remaining (of_some _ s' h)

after-remaining :
    (e : Event) (s s' : Coordinator)
    → is_registration e ≡ false
    → after e s ≡ some s'
    → remaining s ≡ branches_taken (e ∷ []) + remaining s'
unfolding after
after-remaining (register c) s s' b h = absurd (cc)
after-remaining drop_sender s s' b h =
    omega (arith, drop-remaining s s' (s.joined || s.sender_dropped) h)
after-remaining (record_error e) s s' b h = omega (arith, ap remaining (of_some _ s' h))
after-remaining (join_outer good) s s' b h =
    omega (arith, outer-remaining good s s' s.joined refl h)
after-remaining receive s s' b h =
    omega (arith, recv-remaining s s' s.registrations_closed s.closed s.queue refl refl refl h)
after-remaining (join_child c good) s s' b h =
    omega (arith, child-remaining c good s s' (has c s.children) refl h)

branches_taken-split :
    (e : Event) (es : List Event)
    → branches_taken (e ∷ es) ≡ branches_taken (e ∷ []) + branches_taken es
branches_taken-split e es = omega arith

after_all-remaining :
    (es : List Event) (s s' : Coordinator)
    → All (λ e. is_registration e ≡ false) es
    → after_all es (some s) ≡ some s'
    → branches_taken es + remaining s' ≡ remaining s
after_all-remaining [] s s' b h = omega (arith, ap remaining (of_some s s' h))
after_all-remaining (e ∷ es) s s' (b, bs) h = elim (Option-cases (after e s)) [
  | inl k ↦ absurd (stopped es (sym (ap (after_all es) k) ∙ h))
  | inr (t, k) ↦ omega (
    arith,
    branches_taken-split e es,
    after-remaining e s t b k,
    after_all-remaining es t s' bs (sym (ap (after_all es) k) ∙ h),
  )
]
  where
    stopped : (es : List Event) → after_all es none ≡ some s' → ⊥
    stopped es h = cc

-- A branch that can be taken.
abbrev pub Ready : Coordinator → Type 0
Ready s = (e : Event) × ((is_branch e ≡ true) × (is_some (after e s) ≡ true))

Ready-is_done :
    (s : Coordinator) (j r : Bool) (queue children : List ℕ)
    → IsValid s
    → s.joined ≡ j
    → s.registrations_closed ≡ r
    → s.queue ≡ queue
    → s.children ≡ children
    → (j && r && none_left children) ≡ false
    → Ready s
unfolding after
Ready-is_done s false r queue children v e f g k h = (join_outer true, (refl, rw e refl))
Ready-is_done s true false (c ∷ queue) children v e f g k h = (receive, (refl, rw (f, g) refl))
Ready-is_done s true false [] children v e f g k h =
    (receive, (refl, rw (f, g, v.closed_once_joined ∙ e) refl))
Ready-is_done s true true queue [] v e f g k h = absurd (cc)
Ready-is_done s true true queue (c ∷ children) v e f g k h =
    (join_child c true, (refl, rw (k, (==_iff c c).1 refl) refl))

-- Once the work registers no more, the loop ends after the number of branches that `remaining` tells:
-- from any state that the execution can reach, each branch taken brings the end one nearer, whenever
-- the work drops its sender or records an error between them, and while the end is not reached there
-- is a branch that can be taken.
pub loop_ends :
    (work es : List Event) (s s' : Coordinator)
    → after_all work (some launch) ≡ some s
    → All (λ e. is_registration e ≡ false) es
    → after_all es (some s) ≡ some s'
    → (branches_taken es + remaining s' ≡ remaining s) × (is_done s' ≡ false → Ready s')
loop_ends work es s s' g b h =
    let v = (after_all-Effects work launch s launch-IsValid g).valid in
    let w = (after_all-Effects es s s' v h).valid in
    (
      after_all-remaining es s s' b h,
      λ d.
          Ready-is_done s' s'.joined s'.registrations_closed s'.queue s'.children w refl refl refl
            refl d,
    )
