-- ===== src/Startup/Owners.antt =====
-- What startup work leaves in the inventory.
use chanvoy.Base.{
  ℕ, ◌≡◌, ◌≢◌, ◌∙◌, refl, sym, subst, none, some, Result, ok, err, Bool, true, false, arith, nat_eq,
  Option-cases, inl, inr, if◌then◌else◌, ◌==◌, ◌&&◌,
}
use chanvoy.Base.Maps.{lookup, insert, remove, lookup-insert, lookup-remove}
use chanvoy.Admission.{Inventory, OwnerToken, Failure, request, cleanup}
use chanvoy.Admission.Bounds.{
  IsValid, Live, Phase-cases, reserve_retiring, reserve_exhausted, reserve_running, token, issue,
  issue-IsValid, next_vacant, release-Live,
}
use chanvoy.Admission.Handles.{request_permit, confirm_done}
use chanvoy.Admission.Pairs.{PairOutcome, OnlyTwoNew, unchanged, reserved, task_cleanup_pair_atomic}
use chanvoy.Startup.{
  StartupOwners, work_failed, Spawned, after_unstarted, after_pair, spawn, collect,
}

-- The owners of started work: a request and two of cleanup, all live, of three different numbers
-- that were free before, and every other owner as it was.
pub record HeldOwners (i j : Inventory) (o : StartupOwners) : Type 0 where
  pub kinds :
      (o.request_owner.kind ≡ request)
      × (o.child_owner.kind ≡ cleanup)
      × (o.collector_owner.kind ≡ cleanup)
  pub request_live : Live j o.request_owner
  pub child_live : Live j o.child_owner
  pub collector_live : Live j o.collector_owner
  pub request_child : o.request_owner.sequence ≢ o.child_owner.sequence
  pub request_collector : o.request_owner.sequence ≢ o.collector_owner.sequence
  pub child_collector : o.child_owner.sequence ≢ o.collector_owner.sequence
  pub free_before :
      (lookup o.request_owner.sequence i.owners ≡ none)
      × (lookup o.child_owner.sequence i.owners ≡ none)
      × (lookup o.collector_owner.sequence i.owners ≡ none)
  pub others :
      (m : ℕ)
      → m ≢ o.request_owner.sequence
      → m ≢ o.child_owner.sequence
      → m ≢ o.collector_owner.sequence
      → lookup m j.owners ≡ lookup m i.owners

-- Either the work is started and its three owners held, or no owner was gained or lost.
pub data SpawnOutcome (i : Inventory) (out : Spawned) : Type 0 where
  started : (o : StartupOwners) → out.0 ≡ ok (some o) → HeldOwners i out.1 o → SpawnOutcome i out
  not_started :
      ((o : StartupOwners) → out.0 ≢ ok (some o))
      → ((n : ℕ) → lookup n out.1.owners ≡ lookup n i.owners)
      → SpawnOutcome i out

confirm_done-issue :
    (i : Inventory) (n : ℕ)
    → confirm_done (token i n) (issue i n)
      ≡ (ok tt, record (issue i n) { owners = remove n (issue i n).owners })
unfolding confirm_done
confirm_done-issue i n =
    release-Live (issue i n) (token i n) (refl, ground (arith, lookup-insert n n request i.owners))

pair-HeldOwners :
    (i j : Inventory) (n : ℕ) (child collector : OwnerToken)
    → lookup n i.owners ≡ none
    → child.sequence ≢ collector.sequence
    → (child.kind ≡ cleanup) × (collector.kind ≡ cleanup)
    → Live j child
    → Live j collector
    → OnlyTwoNew (issue i n) j child.sequence collector.sequence
    → HeldOwners i j
        (record { request_owner = token i n; child_owner = child; collector_owner = collector })
pair-HeldOwners i j n child collector free differ kinds lc lk new =
    let issued = λ (m : ℕ). lookup-insert n m request i.owners in
    let not_child : n ≢ child.sequence = λ h. ground (arith, issued n, new.first_free) in
    let not_collector : n ≢ collector.sequence = λ h. ground (arith, issued n, new.second_free) in
    record {
      kinds = (refl, kinds.0, kinds.1);
      request_live =
          (sym new.same_instance, new.others n not_child not_collector ∙ ground (arith, issued n));
      child_live = lc;
      collector_live = lk;
      request_child = not_child;
      request_collector = not_collector;
      child_collector = differ;
      free_before = (
        free,
        ground (arith, issued child.sequence, new.first_free),
        ground (arith, issued collector.sequence, new.second_free),
      );
      others = λ m r c k. new.others m c k ∙ ground (arith, issued m);
    }

after_pair-SpawnOutcome :
    (i : Inventory) (n : ℕ)
    → lookup n i.owners ≡ none
    → (out : Result Failure (OwnerToken × OwnerToken) × Inventory) → PairOutcome (issue i n) out
    → SpawnOutcome i (after_pair (token i n) out)
after_pair-SpawnOutcome i n free out (unchanged f e) =
    subst (λ x. SpawnOutcome i (after_pair (token i n) x)) (sym e)
      (subst (λ x. SpawnOutcome i (after_unstarted f x)) (sym (confirm_done-issue i n))
        (not_started (λ o h. cc)
          (λ m. ground (
            arith,
            lookup-remove n m (insert n request i.owners),
            lookup-insert n m request i.owners,
          ))))
after_pair-SpawnOutcome i n free (r, j) (reserved child collector e differ kinds lc lk new) =
    rw e (started _ refl (pair-HeldOwners i j n child collector free differ kinds lc lk new))

-- On a valid inventory `spawn`, run without other calls between its own, either starts the work with
-- a live request owner and two live cleanup owners, of three different numbers that were free before,
-- and leaves every other owner as it was; or it leaves exactly the owners there were.
pub spawn-SpawnOutcome : (i : Inventory) → IsValid i → SpawnOutcome i (spawn i)
unfolding spawn request_permit
spawn-SpawnOutcome i v = elim (Phase-cases i.phase) [
  | inr p ↦ rw (reserve_retiring i p) (not_started (λ o h. cc) (λ n. refl))
  | inl p ↦ elim (Option-cases i.next_owner) [
    | inl e ↦ rw (reserve_exhausted i p e) (not_started (λ o h. cc) (λ n. refl))
    | inr (n, e) ↦ rw (reserve_running i n v p e) (
        after_pair-SpawnOutcome i n (next_vacant i n v e) _
          (task_cleanup_pair_atomic (issue i n) (issue-IsValid i n v e)))
  ]
]

abbrev without : ℕ → Inventory → Inventory
without n i = record i { owners = remove n i.owners }

without-Live :
    (n : ℕ) (i : Inventory) (t : OwnerToken) → Live i t → t.sequence ≢ n → Live (without n i) t
without-Live n i t l d = (l.0, ground (arith, lookup-remove n t.sequence i.owners))

-- With its three owners live under different numbers, the collector of work that succeeded answers
-- ok and gives back all three; of work that failed it answers the failure, keeps the request and
-- gives back the other two. Other owners stay as they were.
pub collect_lem :
    (worked : Bool) (o : StartupOwners) (i : Inventory)
    → Live i o.request_owner
    → Live i o.child_owner
    → Live i o.collector_owner
    → o.request_owner.sequence ≢ o.child_owner.sequence
    → o.request_owner.sequence ≢ o.collector_owner.sequence
    → o.child_owner.sequence ≢ o.collector_owner.sequence
    → ((collect worked o i).0 ≡ (if worked then ok tt else err work_failed))
      × ((n : ℕ)
          → lookup n (collect worked o i).1.owners ≡ (
              if n == o.child_owner.sequence
              then none
              else if n == o.collector_owner.sequence
              then none
              else if worked && (n == o.request_owner.sequence)
              then none
              else lookup n i.owners))
unfolding collect confirm_done
collect_lem true o i lr lc lk a b c =
    let req = o.request_owner.sequence in
    let child = o.child_owner.sequence in
    let collector = o.collector_owner.sequence in
    let first = without req i in
    let second = without child first in
    let child_live = without-Live req i o.child_owner lc (λ h. a (sym h)) in
    let collector_live =
      without-Live child first o.collector_owner
        (without-Live req i o.collector_owner lk (λ h. b (sym h))) (λ h. c (sym h)) in
    rw
      (
        release-Live i o.request_owner lr,
        release-Live first o.child_owner child_live,
        release-Live second o.collector_owner collector_live,
      )
      (
        refl,
        λ n. ground (
          arith,
          lookup-remove collector n second.owners,
          lookup-remove child n first.owners,
          lookup-remove req n i.owners,
        ),
      )
collect_lem false o i lr lc lk a b c =
    let child = o.child_owner.sequence in
    let collector = o.collector_owner.sequence in
    let first = without child i in
    let collector_live = without-Live child i o.collector_owner lk (λ h. c (sym h)) in
    rw (release-Live i o.child_owner lc, release-Live first o.collector_owner collector_live)
      (
        refl,
        λ n. ground (arith, lookup-remove collector n first.owners, lookup-remove child n i.owners),
      )
