-- ===== src/Runtime/Publisher/Invariant.antt =====
-- The file holds the durable record or the pending one, and the pending one follows the durable.
use chanvoy.Base.{
  ℕ, suc, ◌≤◌, Option, none, some, Result, ok, err, true, false, ◌&&◌, not, ◌≡◌, refl, sym, ap, ◌∙◌,
  ◌⊎◌, inl, inr, arith, Bool-cases, Option-cases, Result-cases, u64_max,
}
use chanvoy.Base.Texts.{Text, text_beq_iff}
use chanvoy.Runtime.{RuntimeError, RuntimePhase, starting, running, retiring, exited}
use chanvoy.Runtime.Paths.{Platform}
use chanvoy.Runtime.Record.{RuntimeRecord, validate, next_revision, is_running}
use chanvoy.Runtime.Storage.{
  RecordSnapshot, same_record, same_snapshot, same_record_iff, same_snapshot_iff, Access, Disk,
  Replacement, not_replaced, replaced_unconfirmed, replaced, read_record, unchanged, publish_record,
  check_publish, allowed, replace, confirm_publication,
}
use chanvoy.Runtime.Stage.{
  PublicationState, check_stage, finish, transition_allowed, same_process_iff, same_socket,
  same_socket_iff,
}
use chanvoy.Base.Actions.{resume, check}
use chanvoy.Runtime.Publisher.{
  Io, Publisher, flush, publish, finish_with, flush_observed, flush_pending,
}

-- The phases in the order in which they are published.
pub data Onward : RuntimeRecord → RuntimeRecord → Type 0 where
  child_named :
      {a b : RuntimeRecord}
      → a.phase ≡ starting
      → b.phase ≡ starting
      → a.process ≡ none
      → a.revision ≡ 0
      → Onward a b
  child_ready :
      {a b : RuntimeRecord}
      → a.phase ≡ starting
      → b.phase ≡ running
      → a.process ≡ b.process
      → Onward a b
  child_retires :
      {a b : RuntimeRecord}
      → a.phase ≡ running
      → b.phase ≡ retiring
      → a.process ≡ b.process
      → a.socket ≡ b.socket
      → Onward a b

-- One publication: the next revision of the same epoch, one phase on.
pub record Follows (os : Platform) (a b : RuntimeRecord) : Type 0 where
  pub next_number : b.revision ≡ suc a.revision
  pub in_range : b.revision ≤ u64_max
  pub same_namespace : b.namespace ≡ a.namespace
  pub same_instance : b.instance_uuid ≡ a.instance_uuid
  pub same_uid : b.uid ≡ a.uid
  pub same_config_root : b.config_root ≡ a.config_root
  pub same_profile : b.profile ≡ a.profile
  pub onward : Onward a b
  pub claims : validate os b ≡ ok tt

Onward-transition_allowed :
    (a b : RuntimeRecord) (x y : RuntimePhase)
    → a.phase ≡ x
    → b.phase ≡ y
    → transition_allowed x y a b ≡ true
    → (is_running x && not (same_socket a.socket b.socket)) ≡ false
    → Onward a b
Onward-transition_allowed a b starting starting p q h k =
    child_named p q (ground arith) (ground arith)
Onward-transition_allowed a b starting running p q h k =
    child_ready p q ((same_process_iff a.process b.process).0 h)
Onward-transition_allowed a b starting retiring p q h k = absurd (cc)
Onward-transition_allowed a b starting exited p q h k = absurd (cc)
Onward-transition_allowed a b running starting p q h k = absurd (cc)
Onward-transition_allowed a b running running p q h k = absurd (cc)
Onward-transition_allowed a b running retiring p q h k =
    child_retires p q ((same_process_iff a.process b.process).0 h)
      ((same_socket_iff a.socket b.socket).0 (ground arith))
Onward-transition_allowed a b running exited p q h k = absurd (cc)
Onward-transition_allowed a b retiring y p q h k = absurd (cc)
Onward-transition_allowed a b exited y p q h k = absurd (cc)

pub check_stage-Follows :
    (os : Platform) (s : PublicationState) (next : RuntimeRecord)
    → check_stage os s next ≡ ok tt
    → (s.pending ≡ none) × Follows os s.durable.captured next
unfolding check_stage next_revision
check_stage-Follows os s next h =
    let cur = s.durable.captured in
    (
      ground arith,
      record {
        next_number = ground arith;
        in_range = ground arith;
        same_namespace = ground (arith, text_beq_iff next.namespace cur.namespace);
        same_instance = ground arith;
        same_uid = ground arith;
        same_config_root = ground (arith, text_beq_iff next.config_root cur.config_root);
        same_profile = ground (arith, text_beq_iff next.profile cur.profile);
        onward =
            Onward-transition_allowed cur next cur.phase next.phase refl refl (ground arith)
              (ground arith);
        claims = ground arith;
      },
    )

-- The file of a publisher that nobody else writes.
abbrev pub Holds : Publisher → RecordSnapshot → Type 0
Holds p d = (p.disk ≡ some d) × ((d ≡ p.state.durable) ⊎ (p.state.pending ≡ some d.captured))

pub record IsValid (os : Platform) (p : Publisher) : Type 0 where
  pub held : (d : RecordSnapshot) × Holds p d
  pub pending_follows :
      (r : RuntimeRecord) → p.state.pending ≡ some r → Follows os p.state.durable.captured r

-- A replacement that fails leaves the file, or has written it.
data Published (disk : Disk) (r : RuntimeRecord) (out : Result RuntimeError RecordSnapshot × Disk)
    : Type 0 where
  refused_publish : (e : RuntimeError) → out ≡ (err e, disk) → Published disk r out
  uncertain_publish :
      (e : RuntimeError) (d : RecordSnapshot)
      → d.captured ≡ r
      → out ≡ (err e, some d)
      → Published disk r out
  done_publish : (d : RecordSnapshot) → d.captured ≡ r → out ≡ (ok d, some d) → Published disk r out

replace-Published :
    (os : Platform) (to_vec : RuntimeRecord → Option Text) (how : Replacement) (r : RuntimeRecord)
    (bytes : Text) (disk : Disk)
    → Published disk r (replace os to_vec how r bytes disk)
replace-Published os to_vec (not_replaced e) r bytes disk = refused_publish e refl
replace-Published os to_vec (replaced_unconfirmed f) r bytes disk = uncertain_publish _ _ refl refl
replace-Published os to_vec (replaced f) r bytes disk = done_publish _ refl refl

publish_record-Published :
    (os : Platform) (to_vec : RuntimeRecord → Option Text) (uid : ℕ) (io : Io) (disk : Disk)
    (expected : RecordSnapshot) (r : RuntimeRecord)
    → Published disk r (publish_record os to_vec uid io.access io.replacement disk expected r)
unfolding publish_record
publish_record-Published os to_vec uid io disk expected r =
    elim (Result-cases (check_publish os to_vec uid io.access disk expected r)) [
      | inl (bytes, k) ↦ rw k (replace-Published os to_vec io.replacement r bytes disk)
      | inr (e, k) ↦ rw k (refused_publish e refl)
    ]

-- What a flush may do: nothing to the file, or write the pending record once; and to the state:
-- nothing, or confirm what the file holds.
pub data Flushed (p q : Publisher) : Type 0 where
  kept : q ≡ p → Flushed p q
  written :
      (d : RecordSnapshot)
      → p.state.pending ≡ some d.captured
      → p.disk ≡ some p.state.durable
      → q ≡ record p { disk = some d }
      → Flushed p q
  written_confirmed :
      (d : RecordSnapshot)
      → p.state.pending ≡ some d.captured
      → p.disk ≡ some p.state.durable
      → q ≡ record { disk = some d; state = record { durable = d; pending = none } }
      → Flushed p q
  confirmed :
      (d : RecordSnapshot)
      → p.state.pending ≡ some d.captured
      → p.disk ≡ some d
      → q ≡ record p { state = record { durable = d; pending = none } }
      → Flushed p q

read_record-eq :
    (access : Access) (disk found : Disk) → read_record access disk ≡ ok found → found ≡ disk
unfolding read_record
read_record-eq none disk found h = ground arith
read_record-eq (some e) disk found h = cc

pub finish_pending :
    (s : PublicationState) (d : RecordSnapshot)
    → s.pending ≡ some d.captured
    → finish s d ≡ ok (record { durable = d; pending = none })
unfolding finish
finish_pending s d h = ground (arith, same_record_iff d.captured d.captured)

module _ (os : Platform) (to_vec : RuntimeRecord → Option Text) (uid : ℕ) (io : Io) where
  flush_written :
      (p : Publisher) (next : RuntimeRecord)
      → p.state.pending ≡ some next
      → p.disk ≡ some p.state.durable
      → Flushed p
          (resume (publish os to_vec uid io p.state.durable next p) (finish_with os to_vec uid)).1
  flush_written p next h e =
      elim (publish_record-Published os to_vec uid io p.disk p.state.durable next) [
        | refused_publish why k ↦ rw k (kept refl)
        | uncertain_publish why d c k ↦ rw k (written d (h ∙ ap some (sym c)) e refl)
        | done_publish d c k ↦
            rw (k, finish_pending p.state d (h ∙ ap some (sym c)))
              (written_confirmed d (h ∙ ap some (sym c)) e refl)
      ]

  flush_confirmed :
      (p : Publisher) (next : RuntimeRecord) (observed : RecordSnapshot)
      → p.state.pending ≡ some next
      → p.disk ≡ some observed
      → observed.captured ≡ next
      → Flushed p
          (resume
            (check (λ q. confirm_publication io.access io.synced q.disk observed) p)
            (λ u. finish_with os to_vec uid observed)).1
  flush_confirmed p next observed h e c =
      elim (Result-cases (confirm_publication io.access io.synced p.disk observed)) [
        | inr (why, k) ↦ rw k (kept refl)
        | inl (u, k) ↦
            rw (k, finish_pending p.state observed (h ∙ ap some (sym c)))
              (confirmed observed (h ∙ ap some (sym c)) e refl)
      ]

  flush_observed-Flushed :
      (p : Publisher) (next : RuntimeRecord) (observed : RecordSnapshot)
      → p.state.pending ≡ some next
      → p.disk ≡ some observed
      → Flushed p (flush_observed os to_vec uid io next observed p).1
  flush_observed-Flushed p next observed h e =
      elim (Bool-cases (same_snapshot observed p.state.durable)) [
        | inl k ↦ rw k (
            flush_written p next h (e ∙ ap some ((same_snapshot_iff observed p.state.durable).0 k)))
        | inr k ↦ elim (Bool-cases (same_record observed.captured next)) [
          | inl m ↦
              rw (k, m)
                (flush_confirmed p next observed h e ((same_record_iff observed.captured next).0 m))
          | inr m ↦ rw (k, m) (kept refl)
        ]
      ]

  flush_idle : (p : Publisher) → Flushed p (flush_pending os to_vec uid io none p).1
  flush_idle p = elim (Result-cases (unchanged io.access p.disk p.state.durable)) [
    | inr (why, k) ↦ rw k (kept refl)
    | inl (same, k) ↦ rw k (kept refl)
  ]

  flush_some :
      (p : Publisher) (next : RuntimeRecord)
      → p.state.pending ≡ some next
      → Flushed p (flush_pending os to_vec uid io (some next) p).1
  flush_some p next h = elim (Result-cases (read_record io.access p.disk)) [
    | inr (why, k) ↦ rw k (kept refl)
    | inl (disk, k) ↦ elim (Option-cases disk) [
      | inl e ↦ rw (k, e) (kept refl)
      | inr (observed, e) ↦
          rw (k, e)
            (flush_observed-Flushed p next observed h
              (sym (read_record-eq io.access p.disk disk k) ∙ e))
    ]
  ]

  pub flush-Flushed : (p : Publisher) → Flushed p (flush os to_vec uid io p).1
  unfolding flush
  flush-Flushed p = elim (Result-cases (allowed io.lease)) [
    | inr (why, k) ↦ rw k (kept refl)
    | inl (u, k) ↦ elim (Option-cases p.state.pending) [
      | inl none_left ↦ rw (k, none_left) (flush_idle _)
      | inr (next, h) ↦ rw (k, h) (flush_some _ next refl)
    ]
  ]
