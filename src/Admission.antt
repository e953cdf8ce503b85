-- ===== src/Admission.antt =====
-- The ownership inventory of crates/chanvoy-daemon/src/wait_owner/admission.rs: the sequence of
-- owners, and the four methods of `Inventory` that every admission goes through.
-- An `InstanceId` is a UUID, here its 128-bit number.
pub mod Bounds
pub mod Evolution
pub mod Handles
pub mod Pairs
use chanvoy.Base.{
  ℕ, List, [], Option, none, some, Result, ok, err, Bool, true, false, ◌&&◌, ◌==◌, if◌then◌else◌,
  checked_suc, nat_eq,
}
use chanvoy.Base.Maps.{lookup, insert, remove}
use chanvoy.Base.Actions.{Action, ◌>>=◌, ◌>>◌, pure, fail, gets, modify, check}

pub data Phase : Type 0 where
  running retiring : Phase

pub data Kind : Type 0 where
  request stream cleanup : Kind

abbrev pub kind_beq : Kind → Kind → Bool
kind_beq request request = true
kind_beq stream stream = true
kind_beq cleanup cleanup = true
kind_beq _ _ = false

pub record Inventory : Type 0 where
  pub instance_id : ℕ
  pub phase : Phase
  pub next_owner : Option ℕ
  pub owners : List (ℕ × Kind)

pub data AdmissionError : Type 0 where
  closed exhausted wrong_instance owner_changed : AdmissionError

-- A method refuses by its error type, or panics on a failed assertion.
pub data Failure : Type 0 where
  refused : AdmissionError → Failure
  panicked : Failure

pub record OwnerToken : Type 0 where
  pub instance_id : ℕ
  pub sequence : ℕ
  pub kind : Kind

unfoldable pub new : ℕ → Inventory
new i = record { instance_id = i; phase = running; next_owner = some 1; owners = [] }

abbrev phase_open : Phase → Result Failure (Unit {0})
phase_open running = ok tt
phase_open retiring = err (refused closed)

unfoldable pub ensure_running : Inventory → Result Failure (Unit {0})
ensure_running i = phase_open i.phase

-- The map's answer to an insertion, which the source asserts to be `None`.
abbrev insert_vacant : ℕ → Kind → Option Kind → Action Inventory Failure (Unit {0})
insert_vacant n k none i = (ok tt, record i { owners = insert n k i.owners })
insert_vacant n k (some old) i = (err panicked, record i { owners = insert n k i.owners })

abbrev next_sequence : Option ℕ → Result Failure ℕ
next_sequence none = err (refused exhausted)
next_sequence (some n) = ok n

unfoldable pub reserve : Action Inventory Failure OwnerToken
unfolding ensure_running
reserve = do
  check ensure_running
  sequence ← check (λ i. next_sequence i.next_owner)
  modify (λ i. record i { next_owner = checked_suc sequence })
  held ← gets (λ i. lookup sequence i.owners)
  insert_vacant sequence request held
  gets (λ i. record { instance_id = i.instance_id; sequence = sequence; kind = request })

abbrev pub holds_kind : Kind → Option Kind → Bool
holds_kind k none = false
holds_kind k (some j) = kind_beq j k

unfoldable pub validate : OwnerToken → Inventory → Result Failure (Unit {0})
validate t i =
    if t.instance_id == i.instance_id
    then (if holds_kind t.kind (lookup t.sequence i.owners)
        then ok tt
        else err (refused owner_changed))
    else err (refused wrong_instance)

unfoldable pub transfer : OwnerToken → Kind → Action Inventory Failure OwnerToken
unfolding validate
transfer t k = do
  check (validate t)
  modify (λ i. record i { owners = insert t.sequence k i.owners })
  pure (record t { kind = k })

unfoldable pub release : OwnerToken → Action Inventory Failure (Unit {0})
unfolding validate
release t = do check (validate t); modify (λ i. record i { owners = remove t.sequence i.owners })
