-- ===== src/Examples/WsCollection.antt =====
-- An execution that registers two children, one of which fails, and that drops its sender before its
-- outer task is joined: the registrations close first.
use chanvoy.Base.{ℕ, ◌+◌, List, [], ◌∷◌, ◌++◌, some, true, false, err, ◌≡◌, refl}
use chanvoy.WsCollection.{
  recovery_join_unconfirmed, recovery_execution_unconfirmed, Coordinator, launch, Event, register,
  drop_sender, join_outer, receive, join_child, after, after_all, is_done, finish,
}
use chanvoy.WsCollection.Effects.{registered, joined_times, first_failed}
use chanvoy.WsCollection.Joined.{receipt_after_all_joined}
use chanvoy.WsCollection.Ends.{remaining, branches_taken, Ready, loop_ends}

abbrev work : List Event
work = register 4 ∷ register 5 ∷ []

abbrev branches : List Event
branches =
    receive
    ∷ drop_sender
    ∷ receive
    ∷ receive
    ∷ join_child 5 false
    ∷ join_outer true
    ∷ join_child 4 true
    ∷ []

abbrev two_queued : Coordinator
two_queued = record launch { queue = 4 ∷ 5 ∷ [] }

abbrev collected : Coordinator
collected = record {
  joined = true;
  closed = true;
  sender_dropped = true;
  registrations_closed = true;
  queue = [];
  children = [];
  collection = err recovery_join_unconfirmed;
  error = some recovery_execution_unconfirmed;
}

queued : after_all work (some launch) ≡ some two_queued
unfolding after
queued = refl

ran : after_all branches (some two_queued) ≡ some collected
unfolding after
ran = refl

ran_all : after_all (work ++ branches) (some launch) ≡ some collected
unfolding after
ran_all = refl

receipt_after_all_joined_example :
    ((c : ℕ) → joined_times c (work ++ branches) ≡ registered c (work ++ branches))
    × ((finish collected).collection ≡ first_failed (work ++ branches))
receipt_after_all_joined_example =
    receipt_after_all_joined (work ++ branches) collected ran_all refl

loop_ends_example :
    (branches_taken branches + remaining collected ≡ remaining two_queued)
    × (is_done collected ≡ false → Ready collected)
loop_ends_example =
    loop_ends work branches two_queued collected queued
      (refl, (refl, (refl, (refl, (refl, (refl, (refl, tt))))))) ran
