-- ===== src/Admission/Bounds.antt =====
-- What holds of the inventory between two calls, and that its methods keep it.
use chanvoy.Base.{
  ℕ, ◌≤◌, ◌<◌, ◌≡◌, refl, Option, none, some, ok, err, arith, ◌==◌, u64_max, checked_suc, nat_eq,
  Option-cases, Result-cases, Bool-cases, ◌⊎◌, inl, inr, ◌↔◌,
}
use chanvoy.Base.Maps.{
  lookup, insert, remove, Unique, lookup-insert, lookup-remove, insert-Unique, remove-Unique,
}
use chanvoy.Admission.{
  Inventory, Kind, Phase, running, retiring, OwnerToken, AdmissionError, refused, closed, exhausted,
  wrong_instance, owner_changed, holds_kind, new, reserve, validate, transfer, release, request,
}

-- A sequence number was given out if it is positive and below the next one.
abbrev pub Issued : Option ℕ → ℕ → Type 0
Issued none n = (1 ≤ n) × (n ≤ u64_max)
Issued (some k) n = (1 ≤ n) × (n < k)

abbrev pub NextInRange : Option ℕ → Type 0
NextInRange none = Unit {0}
NextInRange (some k) = (1 ≤ k) × (k ≤ u64_max)

pub record IsValid (i : Inventory) : Type 0 where
  pub next : NextInRange i.next_owner
  pub unique : Unique i.owners
  pub issued : (n : ℕ) (k : Kind) → lookup n i.owners ≡ some k → Issued i.next_owner n

pub new-IsValid : (n : ℕ) → IsValid (new n)
unfolding new lookup
new-IsValid n = record { next = omega arith; unique = tt; issued = λ n k h. cc }

-- The next sequence number is free, so the insertion of `reserve` finds no entry.
pub next_vacant :
    (i : Inventory) (n : ℕ) → IsValid i → i.next_owner ≡ some n → lookup n i.owners ≡ none
next_vacant i n v h = elim (Option-cases (lookup n i.owners)) [
  | inl e ↦ e
  | inr (k, e) ↦ ground (arith, v.issued n k e)
]

abbrev pub token : Inventory → ℕ → OwnerToken
token i n = record { instance_id = i.instance_id; sequence = n; kind = request }

abbrev pub issue : Inventory → ℕ → Inventory
issue i n = record i { next_owner = checked_suc n; owners = insert n request i.owners }

-- What `reserve` does on a valid inventory: the assertion never fails.
pub reserve_retiring : (i : Inventory) → i.phase ≡ retiring → reserve i ≡ (err (refused closed), i)
unfolding reserve
reserve_retiring i h = ground arith

pub reserve_exhausted :
    (i : Inventory)
    → i.phase ≡ running
    → i.next_owner ≡ none
    → reserve i ≡ (err (refused exhausted), i)
unfolding reserve
reserve_exhausted i h e = ground arith

pub reserve_running :
    (i : Inventory) (n : ℕ)
    → IsValid i
    → i.phase ≡ running
    → i.next_owner ≡ some n
    → reserve i ≡ (ok (token i n), issue i n)
unfolding reserve
reserve_running i n v h e = ground (arith, next_vacant i n v)

pub issue-IsValid :
    (i : Inventory) (n : ℕ) → IsValid i → i.next_owner ≡ some n → IsValid (issue i n)
issue-IsValid i n v e = record {
  next = ground (arith, v.next);
  unique = insert-Unique n request i.owners v.unique;
  issued = λ m k h. ground (arith, v.next, v.issued m k, lookup-insert n m request i.owners);
}

pub Phase-cases : (p : Phase) → (p ≡ running) ⊎ (p ≡ retiring)
Phase-cases running = inl refl
Phase-cases retiring = inr refl

pub reserve-IsValid : (i : Inventory) → IsValid i → IsValid (reserve i).1
reserve-IsValid i v = elim (Phase-cases i.phase) [
  | inr h ↦ rw (reserve_retiring i h) v
  | inl h ↦ elim (Option-cases i.next_owner) [
    | inl e ↦ rw (reserve_exhausted i h e) v
    | inr (n, e) ↦ rw (reserve_running i n v h e) (issue-IsValid i n v e)
  ]
]

pub insert_held-IsValid :
    (i : Inventory) (n : ℕ) (j k : Kind)
    → IsValid i
    → lookup n i.owners ≡ some j
    → IsValid (record i { owners = insert n k i.owners })
insert_held-IsValid i n j k v h = record {
  next = v.next;
  unique = insert-Unique n k i.owners v.unique;
  issued = λ m l e. ground (arith, v.issued m l, v.issued n j, lookup-insert n m k i.owners);
}

remove-IsValid :
    (i : Inventory) (n : ℕ) → IsValid i → IsValid (record i { owners = remove n i.owners })
remove-IsValid i n v = record {
  next = v.next;
  unique = remove-Unique n i.owners v.unique;
  issued = λ m l e. ground (arith, v.issued m l, lookup-remove n m i.owners);
}

-- A valid token names this instance and an owner of its kind.
abbrev pub Live : Inventory → OwnerToken → Type 0
Live i t = (t.instance_id ≡ i.instance_id) × (lookup t.sequence i.owners ≡ some t.kind)

pub validate-Live : (i : Inventory) (t : OwnerToken) → (validate t i ≡ ok tt) ↔ Live i t
unfolding validate
validate-Live i t = ground arith

pub validate_refuses :
    (i : Inventory) (t : OwnerToken)
    → ¬ (Live i t)
    → (e : AdmissionError) × (validate t i ≡ err (refused e))
unfolding validate
validate_refuses i t h = elim (Bool-cases (t.instance_id == i.instance_id)) [
  | inr d ↦ (wrong_instance, rw d)
  | inl d ↦ elim (Bool-cases (holds_kind t.kind (lookup t.sequence i.owners))) [
    | inr c ↦ (owner_changed, rw (d, c))
    | inl c ↦ absurd (h (ground arith))
  ]
]

pub Live-dec : (i : Inventory) (t : OwnerToken) → Live i t ⊎ ¬ (Live i t)
unfolding validate
Live-dec i t = elim (Result-cases (validate t i)) [
  | inl (a, e) ↦ inl ((validate-Live i t).0 (ground arith))
  | inr (f, e) ↦ inr (λ l. ground (arith, (validate-Live i t).1 l))
]

pub transfer-Live :
    (i : Inventory) (t : OwnerToken) (k : Kind)
    → Live i t
    → transfer t k i
      ≡ (ok (record t { kind = k }), record i { owners = insert t.sequence k i.owners })
unfolding transfer
transfer-Live i t k l = ground (arith, (validate-Live i t).1 l)

pub release-Live :
    (i : Inventory) (t : OwnerToken)
    → Live i t
    → release t i ≡ (ok tt, record i { owners = remove t.sequence i.owners })
unfolding release
release-Live i t l = ground (arith, (validate-Live i t).1 l)

pub transfer_refused :
    (i : Inventory) (t : OwnerToken) (k : Kind)
    → ¬ (Live i t)
    → (e : AdmissionError) × (transfer t k i ≡ (err (refused e), i))
unfolding transfer
transfer_refused i t k h = let (e, q) = validate_refuses i t h in (e, ground (arith, q))

pub release_refused :
    (i : Inventory) (t : OwnerToken)
    → ¬ (Live i t)
    → (e : AdmissionError) × (release t i ≡ (err (refused e), i))
unfolding release
release_refused i t h = let (e, q) = validate_refuses i t h in (e, ground (arith, q))

pub transfer-IsValid :
    (i : Inventory) (t : OwnerToken) (k : Kind) → IsValid i → IsValid (transfer t k i).1
transfer-IsValid i t k v = elim (Live-dec i t) [
  | inl l ↦ rw (transfer-Live i t k l) (insert_held-IsValid i t.sequence t.kind k v l.1)
  | inr h ↦ rw ((transfer_refused i t k h).1) v
]

pub release-IsValid : (i : Inventory) (t : OwnerToken) → IsValid i → IsValid (release t i).1
release-IsValid i t v = elim (Live-dec i t) [
  | inl l ↦ rw (release-Live i t l) (remove-IsValid i t.sequence v)
  | inr h ↦ rw ((release_refused i t h).1) v
]
