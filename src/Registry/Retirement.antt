-- ===== src/Registry/Retirement.antt =====
-- Retirement: the inventory stays valid in every reachable world, a number is never given out
-- twice, and a retired daemon stays closed and empty.
use chanvoy.Base.{ℕ, ◌≡◌, ◌↔◌, refl, none, ok, true, arith, inl, inr, nat_eq, List, [], ◌∷◌, ◌⊎◌}
use chanvoy.Base.Actions
use chanvoy.Base.Texts.{text_eq}
use chanvoy.Base.Maps.{lookup, count_values, lookup-remove}
use chanvoy.Admission.{
  Inventory, running, Kind, request, stream, cleanup, kind_beq, OwnerToken, Failure,
}
use chanvoy.Admission.Bounds.{IsValid, new-IsValid, Live, release-Live}
use chanvoy.Admission.Evolution.{Evolves, Evolves-refl, Evolves-trans, Keeps}
use chanvoy.Admission.Handles.{
  confirm_done, request_permit-Keeps, registration_owner-Keeps, task_cleanup_pair-Keeps,
  reserve_stream-Keeps, confirm_done-Keeps, retain-Keeps,
}
use chanvoy.Registry.{Registry, Snapshot, for_instance, snapshot, is_empty}
use chanvoy.Registry.Guard.{cancel_all}
use chanvoy.Registry.Arena.{
  ArenaCall, permit, registration, cleanup_pair, stream_for, confirm, into, retire, arena_step,
  retire_if_idle, RetirementDecision, busy, retired,
}
use chanvoy.Registry.Arena
use chanvoy.Registry.Protocol.{
  move, World, Step, task, admission, shut_down, Reach, here, next, start,
}
use chanvoy.Registry.Protocol.Admissions.{move-admission}

-- From one inventory to a later one.
pub record Later (i j : Inventory) : Type 0 where
  pub valid : IsValid j
  pub evolves : Evolves i j

later :
    {A : Type 0} (m : Actions.Action Inventory Failure A) (i : Inventory)
    → Keeps m
    → IsValid i
    → Later i (m i).1
later m i k v = record { valid = (k i v).valid; evolves = (k i v).evolves }

retired-Later :
    (r : Registry)
    → IsValid r.admission
    → r.admission.phase ≡ running
    → Later r.admission (retired r).admission
retired-Later r v p = record {
  valid = record { next = v.next; unique = v.unique; issued = v.issued };
  evolves = record {
    same_instance = refl;
    closed_kept = λ h. refl;
    issued_kept = λ n h. h;
    never_reissued = λ n h e. e;
    closed_admits_none = λ n h e. e;
  };
}

pub retire_if_idle_cases :
    (expected : ℕ) (r : Registry)
    → ((retire_if_idle expected r).1 ≡ r)
      ⊎ ((r.admission.phase ≡ running) × ((retire_if_idle expected r).1 ≡ retired r))
unfolding retire_if_idle
retire_if_idle_cases expected r = ground arith

pub arena_step-Later :
    (c : ArenaCall) (r : Registry)
    → IsValid r.admission
    → Later r.admission (arena_step c r).admission
unfolding arena_step
arena_step-Later permit r v = later _ r.admission request_permit-Keeps v
arena_step-Later registration r v = later _ r.admission registration_owner-Keeps v
arena_step-Later cleanup_pair r v = later _ r.admission task_cleanup_pair-Keeps v
arena_step-Later (stream_for t) r v = later _ r.admission (reserve_stream-Keeps t) v
arena_step-Later (confirm t) r v = later _ r.admission (confirm_done-Keeps t) v
arena_step-Later (into t k) r v = later _ r.admission (retain-Keeps t k) v
arena_step-Later (retire expected) r v = elim (retire_if_idle_cases expected r) [
  | inl e ↦ rw e (record { valid = v; evolves = Evolves-refl r.admission })
  | inr (p, e) ↦ rw e (retired-Later r v p)
]

unmoved : (i j : Inventory) → j ≡ i → IsValid i → Later i j
unmoved i j e v = rw e (record { valid = v; evolves = Evolves-refl i })

pub Step-Later :
    {w w' : World}
    → Step w w'
    → IsValid w.registry.admission
    → Later w.registry.admission w'.registry.admission
Step-Later {w} (task t m) v =
    unmoved w.registry.admission (move m w.registry).0.admission (move-admission m w.registry) v
Step-Later {w} (admission c) v = arena_step-Later c w.registry v
Step-Later {w} shut_down v =
    unmoved w.registry.admission (cancel_all w.registry).admission (unfold cancel_all in refl) v

pub Reach-Later :
    {w w' : World}
    → Reach w w'
    → IsValid w.registry.admission
    → Later w.registry.admission w'.registry.admission
Reach-Later {w} here v = record { valid = v; evolves = Evolves-refl w.registry.admission }
Reach-Later (next r s) v =
    let a = Reach-Later r v in
    let b = Step-Later s a.valid in
    record { valid = b.valid; evolves = Evolves-trans a.evolves b.evolves }

start-IsValid : (i : ℕ) → IsValid (start i).registry.admission
unfolding for_instance
start-IsValid i = new-IsValid i

-- In every reachable world the inventory is valid: owners have distinct numbers that were given
-- out, and the next number is above all of them and within `u64`.
pub admission_always-IsValid :
    (i : ℕ) (w : World) → Reach (start i) w → IsValid w.registry.admission
admission_always-IsValid i w r = (Reach-Later r (start-IsValid i)).valid

after_confirm :
    (r : Registry) (t : OwnerToken)
    → Live r.admission t
    → lookup t.sequence (arena_step (confirm t) r).admission.owners ≡ none
unfolding arena_step confirm_done
after_confirm r t l =
    rw (release-Live r.admission t l)
      (ground (arith, lookup-remove t.sequence t.sequence r.admission.owners))

-- Once a live owner has been confirmed done, no token with its number is ever accepted again,
-- whatever calls and waits follow.
pub confirmed_number_never_returns :
    (i : ℕ) (w w' : World) (t u : OwnerToken)
    → Reach (start i) w
    → Live w.registry.admission t
    → Reach (record w { registry = arena_step (confirm t) w.registry }) w'
    → u.sequence ≡ t.sequence
    → ¬ (Live w'.registry.admission u)
confirmed_number_never_returns i w w' t u r l r' same live =
    let v = admission_always-IsValid i w r in
    let step = arena_step-Later (confirm t) w.registry v in
    let rest = Reach-Later r' step.valid in
    let given = step.evolves.issued_kept t.sequence (v.issued t.sequence t.kind l.1) in
    let gone = rest.evolves.never_reissued t.sequence given (after_confirm w.registry t l) in
    ground (arith, live.1, gone)

pub no_owner : {V : Type 0} (m : List (ℕ × V)) → ((n : ℕ) → lookup n m ≡ none) → m ≡ []
unfolding lookup
no_owner [] h = refl
no_owner ((n, k) ∷ m) h = ground (arith, h n)

no_count : {K V : Type 0} (m : List (K × V)) → count_values (λ s. true) m ≡ 0 → m ≡ []
no_count [] h = refl
no_count ((k, s) ∷ m) h = ground arith

no_owner_count :
    (m : List (ℕ × Kind))
    → count_values (kind_beq request) m ≡ 0
    → count_values (kind_beq stream) m ≡ 0
    → count_values (kind_beq cleanup) m ≡ 0
    → m ≡ []
no_owner_count [] a b c = refl
no_owner_count ((n, k) ∷ m) a b c = ground arith

-- A snapshot is empty exactly when nobody owns anything and no slot is held.
pub snapshot-is_empty :
    (r : Registry) → (is_empty (snapshot r) ≡ true) ↔ ((r.admission.owners ≡ []) × (r.slots ≡ []))
unfolding snapshot is_empty
snapshot-is_empty r = (
  λ h. (
    no_owner_count r.admission.owners (ground arith) (ground arith) (ground arith),
    no_count r.slots (ground arith),
  ),
  λ h. rw (h.0, h.1) refl,
)

-- The daemon closes exactly when the instance is the expected one, admission is still open, and
-- there is no owner and no slot; it then changes the phase and nothing else.
pub retire_if_idle-closed :
    (expected : ℕ) (r : Registry)
    → ((s : Snapshot) × (retire_if_idle expected r ≡ (ok (Arena.closed s), retired r))) ↔ (
        (expected ≡ r.admission.instance_id)
        × (r.admission.phase ≡ running)
        × (r.admission.owners ≡ [])
        × (r.slots ≡ []))
unfolding retire_if_idle
retire_if_idle-closed expected r = (
  λ h. ground (arith, h.1, (snapshot-is_empty r).0),
  λ h. (snapshot (retired r), ground (arith, (snapshot-is_empty r).1 (h.2, h.3))),
)
