-- ===== src/Runtime/Publisher/History.antt =====
-- The record file over the whole life of a publisher.
use chanvoy.Base.{
  ℕ, ◌<◌, List, Option, none, some, ok, true, false, ◌≡◌, refl, sym, ap, subst, ◌⊎◌, inl, inr,
  arith, Result-cases,
}
use chanvoy.Base.Texts.{Text}
use chanvoy.Runtime.{RuntimeProcess}
use chanvoy.Runtime.Paths.{Platform}
use chanvoy.Runtime.Record.{RuntimeRecord, next_revision}
use chanvoy.Runtime.Storage.{
  RecordSnapshot, Disk, Access, same_snapshot_iff, unchanged, read_record, allowed,
}
use chanvoy.Runtime.Stage.{stage, check_stage}
use chanvoy.Runtime.Publisher.{Io, Publisher, for_current_child, fresh, owned}
use chanvoy.Runtime.Publisher.Invariant.{IsValid}
use chanvoy.Runtime.Publisher.Forward.{
  PublisherCall, Trail, here, further, staged, staged-IsValid, calls, calls-Trail,
}

module _ (os : Platform) where
  Trail-revision :
      {a b : RecordSnapshot} → Trail os a b → (a ≡ b) ⊎ (a.captured.revision < b.captured.revision)
  Trail-revision here = inl refl
  Trail-revision {a} (further {b} t f) = elim (Trail-revision t) [
    | inl e ↦ inr (ground (arith, f.next_number))
    | inr l ↦ inr (ground (arith, f.next_number))
  ]

  unchanged-held :
      (access : Access) (disk : Disk) (d : RecordSnapshot)
      → unchanged access disk d ≡ ok true
      → disk ≡ some d
  unfolding unchanged read_record
  unchanged-held none none d h = cc
  unchanged-held none (some f) d h = ap some ((same_snapshot_iff f d).0 (ground arith))
  unchanged-held (some e) disk d h = cc

  fresh-IsValid : (begun : RecordSnapshot) → IsValid os (fresh begun (some begun))
  fresh-IsValid begun = record { held = (begun, (refl, inl refl)); pending_follows = λ r e. cc }

  module _ (to_vec : RuntimeRecord → Option Text) (uid : ℕ) where
    owned-held :
        (io : Io) (own_pid : ℕ) (ns : Text) (process : RuntimeProcess) (p : Publisher)
        → owned os to_vec uid io own_pid ns process p ≡ ok true
        → p.disk ≡ some p.state.durable
    owned-held io own_pid ns process p h =
        unchanged-held io.access p.disk p.state.durable (ground arith)

    begun_by :
        (begun : RecordSnapshot) (disk : Disk) (next : RuntimeRecord)
        → disk ≡ some begun
        → check_stage os (record { durable = begun; pending = none }) next ≡ ok tt
        → IsValid os (staged os (fresh begun disk) next)
    begun_by begun disk next h k =
        staged-IsValid os (fresh begun disk) next
          (subst (λ d. IsValid os (fresh begun d)) (sym h) (fresh-IsValid begun)) k

    abbrev named : RecordSnapshot → RuntimeProcess → ℕ → RuntimeRecord
    named begun process revision = record (begun.captured) {
      revision = revision;
      process = some process;
    }

    pub for_current_child-IsValid :
        (io : Io) (own_pid : ℕ) (ns : Text) (process : RuntimeProcess) (begun : RecordSnapshot)
        (disk : Disk) (p : Publisher)
        → for_current_child os to_vec uid io own_pid ns process (fresh begun disk) ≡ (ok tt, p)
        → IsValid os p × (p.disk ≡ some begun)
    unfolding for_current_child stage staged
    for_current_child-IsValid io own_pid ns process begun disk p =
        elim (Result-cases (allowed io.lease)) [
          | inr (e, k) ↦ rw k (λ h. cc)
          | inl (u, k) ↦
              elim (Result-cases (owned os to_vec uid io own_pid ns process (fresh begun disk))) [
                | inr (e, m) ↦ rw (k, m) (λ h. cc)
                | inl (false, m) ↦ rw (k, m) (λ h. cc)
                | inl (true, m) ↦ elim (Result-cases (next_revision begun.captured)) [
                  | inr (e, n) ↦ rw (k, m, n) (λ h. cc)
                  | inl (revision, n) ↦
                      elim (Result-cases
                        (check_stage os (fresh begun disk).state (named begun process revision))) [
                          | inr (e, g) ↦ rw (k, m, n, g) (λ h. cc)
                          | inl (t, g) ↦
                              rw (k, m, n, g)
                                (λ h.
                                  let held =
                                    owned-held io own_pid ns process (fresh begun disk) m in
                                  subst (λ q. IsValid os q × (q.disk ≡ some begun))
                                    (ap (λ o. o.1) h)
                                    (
                                      begun_by begun disk (named begun process revision) held g,
                                      held,
                                    ))
                        ]
                ]
              ]
        ]

    -- The file of a publisher that `for_current_child` made, between any two points of any sequence
    -- of its calls, whatever the lease and the file system answer: it went forward by publications,
    -- each the next revision of the same epoch and one phase on, and it is the same file if no
    -- revision was added.
    pub file_moves_forward :
        (io : Io) (own_pid : ℕ) (ns : Text) (process : RuntimeProcess) (begun : RecordSnapshot)
        (disk : Disk) (p : Publisher) (cs ds : List PublisherCall)
        → for_current_child os to_vec uid io own_pid ns process (fresh begun disk) ≡ (ok tt, p)
        → (a : RecordSnapshot) × (((calls os to_vec uid cs p).disk ≡ some a)
            × ((b : RecordSnapshot) × (((calls os to_vec uid ds (calls os to_vec uid cs p)).disk
                    ≡ some b)
                  × (Trail os begun a
                      × (Trail os a b × ((a ≡ b) ⊎ (a.captured.revision < b.captured.revision)))))))
    file_moves_forward io own_pid ns process begun disk p cs ds h =
        let start = for_current_child-IsValid io own_pid ns process begun disk p h in
        let (a, (k, (t, v))) = calls-Trail os to_vec uid cs p begun begun start.0 start.1 here in
        let (b, (m, (u, w))) =
          calls-Trail os to_vec uid ds (calls os to_vec uid cs p) a a v k here in
        (a, (k, (b, (m, (t, (u, Trail-revision u))))))
