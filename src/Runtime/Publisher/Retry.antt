-- ===== src/Runtime/Publisher/Retry.antt =====
-- `retry_publication` during a call in which the lease and the file system work.
use chanvoy.Base.{
  ℕ, Option, none, some, Result, ok, false, ◌≡◌, refl, sym, ap, subst, ◌∙◌, ◌⊎◌, inl, inr, arith,
  Bool-cases,
}
use chanvoy.Base.Actions.{resume}
use chanvoy.Base.Texts.{Text, text_beq_iff}
use chanvoy.Runtime.{RuntimeError}
use chanvoy.Runtime.Paths.{Platform}
use chanvoy.Runtime.Record.{RuntimeRecord, next_revision, encode}
use chanvoy.Runtime.Storage.{
  RecordSnapshot, Disk, replaced, same_snapshot_iff, same_snapshot, same_record_iff, unchanged,
  read_record, publish_record, check_publish, confirm_publication,
}
use chanvoy.Runtime.Publisher.{
  Io, Publisher, flush, retry_publication, flush_observed, flush_pending, found,
}
use chanvoy.Runtime.Publisher.Invariant.{Follows, Holds, IsValid, finish_pending}

-- A call during which the lease and the file system answer as they should.
abbrev pub working : ℕ → Io
working fingerprint = record {
  lease = none;
  access = none;
  replacement = replaced fingerprint;
  synced = none;
}

-- The call succeeded, nothing is pending, and the file holds the record.
pub record Completed (r : RuntimeRecord) (out : Result RuntimeError (Unit {0}) × Publisher)
    : Type 0 where
  pub succeeded : out.0 ≡ ok tt
  pub nothing_pending : out.1.state.pending ≡ none
  pub on_file : out.1.disk ≡ some out.1.state.durable
  pub is_record : out.1.state.durable.captured ≡ r

module _ (os : Platform) (to_vec : RuntimeRecord → Option Text) (uid : ℕ) where
  check_works :
      (disk : Disk) (durable : RecordSnapshot) (r : RuntimeRecord) (bytes : Text)
      → disk ≡ some durable
      → Follows os durable.captured r
      → encode os to_vec r ≡ ok bytes
      → r.uid ≡ uid
      → check_publish os to_vec uid none disk durable r ≡ ok bytes
  unfolding check_publish unchanged read_record next_revision
  check_works disk durable r bytes h w e u = ground (
    arith,
    same_snapshot_iff durable durable,
    text_beq_iff r.namespace durable.captured.namespace,
    text_beq_iff r.config_root durable.captured.config_root,
    text_beq_iff r.profile durable.captured.profile,
    w.next_number,
    w.in_range,
    w.same_namespace,
    w.same_instance,
    w.same_uid,
    w.same_config_root,
    w.same_profile,
  )

  publish_works :
      (p : Publisher) (r : RuntimeRecord) (bytes : Text) (f : ℕ)
      → p.disk ≡ some p.state.durable
      → Follows os p.state.durable.captured r
      → encode os to_vec r ≡ ok bytes
      → r.uid ≡ uid
      → publish_record os to_vec uid none (replaced f) p.disk p.state.durable r ≡ (
        ok (record { captured = r; fingerprint = f; bytes = bytes }),
        some (record { captured = r; fingerprint = f; bytes = bytes }),
      )
  unfolding publish_record
  publish_works p r bytes f h w e u = rw (check_works p.disk p.state.durable r bytes h w e u) refl

  written_completes :
      (p : Publisher) (r : RuntimeRecord) (bytes : Text) (f : ℕ) (d : RecordSnapshot)
      → p.state.pending ≡ some r
      → p.disk ≡ some d
      → d ≡ p.state.durable
      → Follows os p.state.durable.captured r
      → encode os to_vec r ≡ ok bytes
      → r.uid ≡ uid
      → Completed r (flush_observed os to_vec uid (working f) r d p)
  written_completes p r bytes f d h k e w b u =
      rw
        (
          (same_snapshot_iff d p.state.durable).1 e,
          publish_works p r bytes f (k ∙ ap some e) w b u,
          finish_pending p.state (record { captured = r; fingerprint = f; bytes = bytes }) h,
        )
        (record { succeeded = refl; nothing_pending = refl; on_file = refl; is_record = refl })

  confirm_works :
      (disk : Disk) (d : RecordSnapshot)
      → disk ≡ some d
      → confirm_publication none none disk d ≡ ok tt
  unfolding confirm_publication unchanged read_record
  confirm_works disk d h = ground (arith, same_snapshot_iff d d)

  confirmed_completes :
      (p : Publisher) (r : RuntimeRecord) (f : ℕ) (d : RecordSnapshot)
      → p.state.pending ≡ some r
      → p.disk ≡ some d
      → same_snapshot d p.state.durable ≡ false
      → d.captured ≡ r
      → Completed r (flush_observed os to_vec uid (working f) r d p)
  confirmed_completes p r f d h k n e =
      rw
        (
          n,
          (same_record_iff d.captured r).1 e,
          confirm_works p.disk d k,
          finish_pending p.state d (h ∙ ap some (sym e)),
        )
        (record { succeeded = refl; nothing_pending = refl; on_file = k; is_record = e })

  pending_completes :
      (p : Publisher) (r : RuntimeRecord) (bytes : Text) (f : ℕ) (d : RecordSnapshot)
      → IsValid os p
      → Holds p d
      → p.state.pending ≡ some r
      → encode os to_vec r ≡ ok bytes
      → r.uid ≡ uid
      → Completed r (flush_pending os to_vec uid (working f) (some r) p)
  unfolding read_record
  pending_completes p r bytes f d v (k, which) h b u =
      subst (λ o. Completed r (resume (found o p) (flush_observed os to_vec uid (working f) r)))
        (sym k)
        (elim (Bool-cases (same_snapshot d p.state.durable)) [
          | inl same ↦
              written_completes p r bytes f d h k ((same_snapshot_iff d p.state.durable).0 same)
                (v.pending_follows r h) b u
          | inr other ↦ confirmed_completes p r f d h k other (its_record which other)
        ])
    where
      its_record :
          (d ≡ p.state.durable) ⊎ (p.state.pending ≡ some d.captured)
          → same_snapshot d p.state.durable ≡ false
          → d.captured ≡ r
      its_record (inl e) n = let s = (same_snapshot_iff d p.state.durable).1 e in absurd (cc)
      its_record (inr e) n = cc

  -- A pending publication whose record can be encoded is completed by one retry during which the
  -- lease and the file system work: the retry succeeds, nothing is pending, and the file holds the
  -- record that was pending.
  pub retry_completes :
      (p : Publisher) (r : RuntimeRecord) (bytes : Text) (f : ℕ)
      → IsValid os p
      → p.state.pending ≡ some r
      → encode os to_vec r ≡ ok bytes
      → r.uid ≡ uid
      → Completed r (retry_publication os to_vec uid (working f) p)
  unfolding retry_publication flush
  retry_completes p r bytes f v h e u =
      subst (λ o. Completed r (flush_pending os to_vec uid (working f) o p)) (sym h)
        (pending_completes p r bytes f v.held.0 v v.held.1 h e u)
