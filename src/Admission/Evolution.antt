-- ===== src/Admission/Evolution.antt =====
-- How one call may change the inventory, as a contract that every method meets and that calls in
-- sequence compose.
use chanvoy.Base.{
  ℕ, ◌≡◌, refl, ◌∙◌, none, some, Result, ok, err, arith, nat_eq, Option-cases, Bool-cases, ◌==◌,
  inl, inr,
}
use chanvoy.Base.Maps.{lookup, insert, remove, lookup-insert, lookup-remove}
use chanvoy.Base.Actions.{Action, ◌>>=◌, resume, check, pure}
use chanvoy.Admission.{
  Inventory, Kind, running, retiring, OwnerToken, Failure, refused, panicked, reserve, validate,
  holds_kind, ensure_running, transfer, release, request,
}
use chanvoy.Admission.Bounds.{
  Issued, IsValid, reserve_retiring, reserve_exhausted, reserve_running, Phase-cases, issue,
  Live-dec, transfer-Live, transfer_refused, release-Live, release_refused, reserve-IsValid,
  transfer-IsValid, release-IsValid,
}

pub record Evolves (i j : Inventory) : Type 0 where
  pub same_instance : j.instance_id ≡ i.instance_id
  pub closed_kept : i.phase ≡ retiring → j.phase ≡ retiring
  pub issued_kept : (n : ℕ) → Issued i.next_owner n → Issued j.next_owner n
  pub never_reissued :
      (n : ℕ) → Issued i.next_owner n → lookup n i.owners ≡ none → lookup n j.owners ≡ none
  pub closed_admits_none :
      (n : ℕ) → i.phase ≡ retiring → lookup n i.owners ≡ none → lookup n j.owners ≡ none

pub Evolves-refl : (i : Inventory) → Evolves i i
Evolves-refl i = record {
  same_instance = refl;
  closed_kept = λ h. h;
  issued_kept = λ n h. h;
  never_reissued = λ n h e. e;
  closed_admits_none = λ n h e. e;
}

pub Evolves-trans : {i j k : Inventory} → Evolves i j → Evolves j k → Evolves i k
Evolves-trans p q = record {
  same_instance = q.same_instance ∙ p.same_instance;
  closed_kept = λ h. q.closed_kept (p.closed_kept h);
  issued_kept = λ n h. q.issued_kept n (p.issued_kept n h);
  never_reissued = λ n h e. q.never_reissued n (p.issued_kept n h) (p.never_reissued n h e);
  closed_admits_none =
      λ n h e. q.closed_admits_none n (p.closed_kept h) (p.closed_admits_none n h e);
}

-- A method keeps the inventory valid, evolves it, and never fails its assertion.
abbrev pub NoPanic : {A : Type 0} → Result Failure A → Type 0
NoPanic (ok a) = Unit {0}
NoPanic (err (refused e)) = Unit {0}
NoPanic (err panicked) = ⊥

pub record Kept {A : Type 0} (i : Inventory) (out : Result Failure A × Inventory) : Type 0 where
  pub valid : IsValid out.1
  pub evolves : Evolves i out.1
  pub no_panic : NoPanic out.0

abbrev pub Keeps : {A : Type 0} → Action Inventory Failure A → Type 0
Keeps m = (i : Inventory) → IsValid i → Kept i (m i)

resume-Kept :
    {A B : Type 0} (i : Inventory) (out : Result Failure A × Inventory)
    (f : A → Action Inventory Failure B)
    → Kept i out
    → ((a : A) → Keeps (f a))
    → Kept i (resume out f)
resume-Kept i (ok a, j) f k h = record {
  valid = (h a j k.valid).valid;
  evolves = Evolves-trans k.evolves (h a j k.valid).evolves;
  no_panic = (h a j k.valid).no_panic;
}
resume-Kept i (err (refused e), j) f k h = record {
  valid = k.valid;
  evolves = k.evolves;
  no_panic = tt;
}
resume-Kept i (err panicked, j) f k h = absurd k.no_panic

pub >>=-Keeps :
    {A B : Type 0} (m : Action Inventory Failure A) (f : A → Action Inventory Failure B)
    → Keeps m
    → ((a : A) → Keeps (f a))
    → Keeps (m >>= f)
>>=-Keeps m f k h i v = resume-Kept i (m i) f (k i v) h

issue-Evolves :
    (i : Inventory) (n : ℕ)
    → IsValid i
    → i.phase ≡ running
    → i.next_owner ≡ some n
    → Evolves i (issue i n)
issue-Evolves i n v h e = record {
  same_instance = refl;
  closed_kept = λ c. cc;
  issued_kept = λ m s. ground (arith, v.next);
  never_reissued = λ m s a. ground (arith, lookup-insert n m request i.owners);
  closed_admits_none = λ m c a. cc;
}

pub reserve-Keeps : Keeps reserve
reserve-Keeps i v = elim (Phase-cases i.phase) [
  | inr h ↦
      rw (reserve_retiring i h) (record { valid = v; evolves = Evolves-refl i; no_panic = tt })
  | inl h ↦ elim (Option-cases i.next_owner) [
    | inl e ↦
        rw (reserve_exhausted i h e) (record { valid = v; evolves = Evolves-refl i; no_panic = tt })
    | inr (n, e) ↦
        let w = reserve-IsValid i v in
        rw (reserve_running i n v h e) (record {
          valid = rw (reserve_running i n v h e) at w;
          evolves = issue-Evolves i n v h e;
          no_panic = tt;
        })
  ]
]

-- An owner that is held may change its kind, and nothing else about who is held changes.
insert_held-Evolves :
    (i : Inventory) (n : ℕ) (j k : Kind)
    → lookup n i.owners ≡ some j
    → Evolves i (record i { owners = insert n k i.owners })
insert_held-Evolves i n j k h = record {
  same_instance = refl;
  closed_kept = λ c. c;
  issued_kept = λ m s. s;
  never_reissued = λ m s a. ground (arith, lookup-insert n m k i.owners);
  closed_admits_none = λ m c a. ground (arith, lookup-insert n m k i.owners);
}

remove-Evolves : (i : Inventory) (n : ℕ) → Evolves i (record i { owners = remove n i.owners })
remove-Evolves i n = record {
  same_instance = refl;
  closed_kept = λ c. c;
  issued_kept = λ m s. s;
  never_reissued = λ m s a. ground (arith, lookup-remove n m i.owners);
  closed_admits_none = λ m c a. ground (arith, lookup-remove n m i.owners);
}

pub transfer-Keeps : (t : OwnerToken) (k : Kind) → Keeps (transfer t k)
transfer-Keeps t k i v = elim (Live-dec i t) [
  | inl l ↦
      let w = transfer-IsValid i t k v in
      rw (transfer-Live i t k l) (record {
        valid = rw (transfer-Live i t k l) at w;
        evolves = insert_held-Evolves i t.sequence t.kind k l.1;
        no_panic = tt;
      })
  | inr h ↦
      rw ((transfer_refused i t k h).1)
        (record { valid = v; evolves = Evolves-refl i; no_panic = tt })
]

pub release-Keeps : (t : OwnerToken) → Keeps (release t)
release-Keeps t i v = elim (Live-dec i t) [
  | inl l ↦
      let w = release-IsValid i t v in
      rw (release-Live i t l) (record {
        valid = rw (release-Live i t l) at w;
        evolves = remove-Evolves i t.sequence;
        no_panic = tt;
      })
  | inr h ↦
      rw ((release_refused i t h).1) (record { valid = v; evolves = Evolves-refl i; no_panic = tt })
]

-- A check that writes nothing and cannot panic.
pub check-Keeps :
    {A : Type 0} (f : Inventory → Result Failure A)
    → ((i : Inventory) → NoPanic (f i))
    → Keeps (check f)
check-Keeps f h i v = record { valid = v; evolves = Evolves-refl i; no_panic = h i }

pub validate-NoPanic : (t : OwnerToken) (i : Inventory) → NoPanic (validate t i)
unfolding validate
validate-NoPanic t i = elim (Bool-cases (t.instance_id == i.instance_id)) [
  | inr d ↦ rw d tt
  | inl d ↦ elim (Bool-cases (holds_kind t.kind (lookup t.sequence i.owners))) [
    | inl c ↦ rw (d, c) tt
    | inr c ↦ rw (d, c) tt
  ]
]

pub ensure_running-NoPanic : (i : Inventory) → NoPanic (ensure_running i)
unfolding ensure_running
ensure_running-NoPanic i = elim (Phase-cases i.phase) [ inl h ↦ rw h tt | inr h ↦ rw h tt ]

pub pure-Keeps : {A : Type 0} (a : A) → Keeps (pure a)
pure-Keeps a i v = record { valid = v; evolves = Evolves-refl i; no_panic = tt }
