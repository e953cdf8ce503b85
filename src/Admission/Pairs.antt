-- ===== src/Admission/Pairs.antt =====
-- Reservations of more than one owner are all or nothing.
use chanvoy.Base.{
  ℕ, suc, ◌≡◌, ◌≢◌, ◌<◌, refl, none, some, Result, ok, err, arith, checked_suc, nat_eq, ◌⊎◌, inl,
  inr, dec_lt, Option-cases, u64_max,
}
use chanvoy.Base.Maps.{lookup, insert, lookup-insert}
use chanvoy.Base.Actions.{resume}
use chanvoy.Admission.{
  Inventory, Kind, running, retiring, request, stream, cleanup, OwnerToken, AdmissionError, Failure,
  refused, closed, exhausted, ensure_running, reserve, transfer,
}
use chanvoy.Admission.Bounds.{
  IsValid, Live, Live-dec, validate-Live, validate_refuses, reserve_running, reserve_retiring,
  reserve_exhausted, transfer-Live, issue, token, Phase-cases, issue-IsValid, insert_held-IsValid,
  next_vacant,
}
use chanvoy.Admission.Handles.{task_cleanup_pair, reserve_stream}

-- The inventory with one more owner of a kind.
abbrev pub grant : Inventory → ℕ → Kind → Inventory
grant i n k = record i {
  next_owner = checked_suc n;
  owners = insert n k (insert n request i.owners);
}

abbrev pub granted : Inventory → ℕ → Kind → OwnerToken
granted i n k = record { instance_id = i.instance_id; sequence = n; kind = k }

-- A reservation that is transferred at once.
pub reserve-transfer :
    (i : Inventory) (n : ℕ) (k : Kind)
    → IsValid i
    → i.phase ≡ running
    → i.next_owner ≡ some n
    → resume (reserve i) (λ t. transfer t k) ≡ (ok (granted i n k), grant i n k)
reserve-transfer i n k v p e = rw (reserve_running i n v p e) (
    transfer-Live (issue i n) (token i n) k
      (refl, ground (arith, lookup-insert n n request i.owners)))

pub grant-IsValid :
    (i : Inventory) (n : ℕ) (k : Kind) → IsValid i → i.next_owner ≡ some n → IsValid (grant i n k)
grant-IsValid i n k v e =
    insert_held-IsValid (issue i n) n request k (issue-IsValid i n v e)
      (ground (arith, lookup-insert n n request i.owners))

-- With two numbers left, `task_cleanup_pair` reserves exactly two.
task_cleanup_pair_room :
    (i : Inventory) (n : ℕ)
    → IsValid i
    → i.phase ≡ running
    → i.next_owner ≡ some n
    → n < u64_max
    → task_cleanup_pair i ≡ (
      ok (granted i n cleanup, granted i (suc n) cleanup),
      grant (grant i n cleanup) (suc n) cleanup,
    )
unfolding task_cleanup_pair ensure_running
task_cleanup_pair_room i n v p e room =
    let j = grant i n cleanup in
    let w = grant-IsValid i n cleanup v e in
    ground (
      arith,
      reserve_running i n v p e,
      transfer-Live (issue i n) (token i n) cleanup
          (refl, ground (arith, lookup-insert n n request i.owners)),
      reserve_running j (suc n) w p (ground arith),
      transfer-Live (issue j (suc n)) (token j (suc n)) cleanup
          (refl, ground (arith, lookup-insert (suc n) (suc n) request j.owners)),
    )

task_cleanup_pair_no_room :
    (i : Inventory)
    → i.phase ≡ running
    → ((n : ℕ) → i.next_owner ≡ some n → ¬ (n < u64_max))
    → task_cleanup_pair i ≡ (err (refused exhausted), i)
unfolding task_cleanup_pair ensure_running
task_cleanup_pair_no_room i p full = elim (Option-cases i.next_owner) [
  | inl e ↦ ground arith
  | inr (n, e) ↦ ground (arith, full n e)
]

task_cleanup_pair_closed :
    (i : Inventory) → i.phase ≡ retiring → task_cleanup_pair i ≡ (err (refused closed), i)
unfolding task_cleanup_pair ensure_running
task_cleanup_pair_closed i p = ground arith

-- The owners under two numbers, free before, are the only ones that changed.
pub record OnlyTwoNew (i j : Inventory) (a b : ℕ) : Type 0 where
  pub same_instance : j.instance_id ≡ i.instance_id
  pub first_free : lookup a i.owners ≡ none
  pub second_free : lookup b i.owners ≡ none
  pub others : (m : ℕ) → m ≢ a → m ≢ b → lookup m j.owners ≡ lookup m i.owners

-- What `task_cleanup_pair` may do: nothing, or two distinct cleanup owners, both held, and no other
-- change of an owner.
pub data PairOutcome (i : Inventory) (out : Result Failure (OwnerToken × OwnerToken) × Inventory)
    : Type 0 where
  unchanged : (f : Failure) → out ≡ (err f, i) → PairOutcome i out
  reserved :
      (child collector : OwnerToken)
      → out.0 ≡ ok (child, collector)
      → child.sequence ≢ collector.sequence
      → (child.kind ≡ cleanup) × (collector.kind ≡ cleanup)
      → Live out.1 child
      → Live out.1 collector
      → OnlyTwoNew i out.1 child.sequence collector.sequence
      → PairOutcome i out

pair-OnlyTwoNew :
    (i : Inventory) (n : ℕ)
    → IsValid i
    → i.next_owner ≡ some n
    → OnlyTwoNew i (grant (grant i n cleanup) (suc n) cleanup) n (suc n)
pair-OnlyTwoNew i n v e =
    let m = insert n cleanup (insert n request i.owners) in
    record {
      same_instance = refl;
      first_free = next_vacant i n v e;
      second_free = elim (Option-cases (lookup (suc n) i.owners)) [
        | inl free ↦ free
        | inr (k, h) ↦ ground (arith, v.issued (suc n) k h)
      ];
      others = λ x a b. ground (
        arith,
        lookup-insert (suc n) x cleanup (insert (suc n) request m),
        lookup-insert (suc n) x request m,
        lookup-insert n x cleanup (insert n request i.owners),
        lookup-insert n x request i.owners,
      );
    }

room_or_not :
    (i : Inventory)
    → ((n : ℕ) × (i.next_owner ≡ some n) × (n < u64_max))
      ⊎ ((n : ℕ) → i.next_owner ≡ some n → ¬ (n < u64_max))
room_or_not i = elim (Option-cases i.next_owner) [
  | inl e ↦ inr (λ n f lt. cc)
  | inr (n, e) ↦ elim (dec_lt n u64_max) [
    | yes lt ↦ inl (n, e, lt)
    | no ge ↦ inr (λ m f lt. ge (ground arith))
  ]
]

-- `task_cleanup_pair` is all or nothing on a valid inventory: a refusal leaves it as it was, and a
-- success holds two different cleanup owners, both new, and leaves every other owner as it was.
pub task_cleanup_pair_atomic : (i : Inventory) → IsValid i → PairOutcome i (task_cleanup_pair i)
task_cleanup_pair_atomic i v = elim (Phase-cases i.phase) [
  | inr p ↦ unchanged (refused closed) (task_cleanup_pair_closed i p)
  | inl p ↦ elim (room_or_not i) [
    | inr full ↦ unchanged (refused exhausted) (task_cleanup_pair_no_room i p full)
    | inl (n, e, room) ↦
        let m = insert n cleanup (insert n request i.owners) in
        let m' = insert (suc n) request m in
        rw (task_cleanup_pair_room i n v p e room) (
          reserved (granted i n cleanup) (granted i (suc n) cleanup) refl (λ d. omega arith)
            (refl, refl)
            (
              refl,
              ground (
                arith,
                lookup-insert (suc n) n cleanup m',
                lookup-insert (suc n) n request m,
                lookup-insert n n cleanup (insert n request i.owners),
              ),
            )
            (refl, ground (arith, lookup-insert (suc n) (suc n) cleanup m'))
            (pair-OnlyTwoNew i n v e))
  ]
]

-- What `reserve_stream` may do: nothing, or one more owner, a stream, beside the live parent.
pub data StreamOutcome (i : Inventory) (parent : OwnerToken)
    (out : Result Failure OwnerToken × Inventory) : Type 0 where
  unchanged : (f : Failure) → out ≡ (err f, i) → StreamOutcome i parent out
  reserved :
      (child : OwnerToken)
      → out.0 ≡ ok child
      → child.kind ≡ stream
      → child.sequence ≢ parent.sequence
      → Live out.1 child
      → Live out.1 parent
      → StreamOutcome i parent out

reserve_stream-Live :
    (i : Inventory) (parent : OwnerToken)
    → Live i parent
    → reserve_stream parent i ≡ resume (reserve i) (λ t. transfer t stream)
unfolding reserve_stream
reserve_stream-Live i parent l = ground (arith, (validate-Live i parent).1 l)

reserve_stream_refused :
    (i : Inventory) (parent : OwnerToken)
    → ¬ (Live i parent)
    → (e : AdmissionError) × (reserve_stream parent i ≡ (err (refused e), i))
unfolding reserve_stream
reserve_stream_refused i parent h =
    let (e, q) = validate_refuses i parent h in (e, ground (arith, q))

-- `reserve_stream` on a valid inventory either changes nothing or adds one stream owner with a
-- number of its own, and the parent it was asked for stays held.
pub reserve_stream_keeps_parent :
    (i : Inventory) (parent : OwnerToken)
    → IsValid i
    → StreamOutcome i parent (reserve_stream parent i)
reserve_stream_keeps_parent i parent v = elim (Live-dec i parent) [
  | inr h ↦ let (e, q) = reserve_stream_refused i parent h in unchanged (refused e) q
  | inl l ↦ rw (reserve_stream-Live i parent l) (elim (Phase-cases i.phase) [
    | inr p ↦ rw (reserve_retiring i p) (unchanged (refused closed) refl)
    | inl p ↦ elim (Option-cases i.next_owner) [
      | inl e ↦ rw (reserve_exhausted i p e) (unchanged (refused exhausted) refl)
      | inr (n, e) ↦
          let old = v.issued parent.sequence parent.kind l.1 in
          rw (reserve-transfer i n stream v p e) (
            reserved (granted i n stream) refl refl (λ d. ground arith)
              (refl, ground (arith, lookup-insert n n stream (insert n request i.owners)))
              (
                l.0,
                ground (
                  arith,
                  l.1,
                  lookup-insert n parent.sequence stream (insert n request i.owners),
                  lookup-insert n parent.sequence request i.owners,
                ),
              ))
    ]
  ])
]
