-- ===== src/Runtime/Publisher/Forward.antt =====
-- Any sequence of calls of the publisher, whatever the lease and the file system answer.
use chanvoy.Base.{
  ℕ, List, [], ◌∷◌, Option, none, some, ok, ◌≡◌, refl, subst, ◌⊎◌, inl, inr, Option-cases,
  Result-cases,
}
use chanvoy.Base.Actions.{resume}
use chanvoy.Base.Texts.{Text}
use chanvoy.Runtime.{RuntimeSocket, RuntimeBuildPin}
use chanvoy.Runtime.Paths.{Platform}
use chanvoy.Runtime.Record.{RuntimeRecord, next_revision}
use chanvoy.Runtime.Storage.{RecordSnapshot, read_record, allowed}
use chanvoy.Runtime.Stage.{stage, check_stage, logical}
use chanvoy.Runtime.Publisher.{
  Io, Publisher, stage_call, flush, publish_running, publish_retiring, retry_publication,
  inspect_publication,
}
use chanvoy.Runtime.Publisher.Invariant.{
  Follows, IsValid, check_stage-Follows, Flushed, kept, written, written_confirmed, confirmed,
  flush-Flushed,
}

pub data PublisherCall : Type 0 where
  running_call : Io → RuntimeSocket → RuntimeBuildPin → PublisherCall
  retiring_call retry_call inspect_call : Io → PublisherCall

-- What one call does to the file: nothing, or one publication.
abbrev pub Advance : Platform → RecordSnapshot → RecordSnapshot → Type 0
Advance os a b = (a ≡ b) ⊎ Follows os a.captured b.captured

-- The file over a sequence of calls.
pub data Trail (os : Platform) (a : RecordSnapshot) : RecordSnapshot → Type 0 where
  here : Trail os a a
  further : {b c : RecordSnapshot} → Trail os a b → Follows os b.captured c.captured → Trail os a c

-- From one publisher to a later one.
pub record Later (os : Platform) (p q : Publisher) : Type 0 where
  pub valid : IsValid os q
  pub advanced :
      (a : RecordSnapshot)
      → p.disk ≡ some a
      → (b : RecordSnapshot) × ((q.disk ≡ some b) × Advance os a b)

module _ (os : Platform) where
  Later-refl : (p : Publisher) → IsValid os p → Later os p p
  Later-refl p v = record { valid = v; advanced = λ a h. (a, (h, inl refl)) }

  Flushed-Later : (p q : Publisher) → IsValid os p → Flushed p q → Later os p q
  Flushed-Later p q v (kept e) = rw e (Later-refl p v)
  Flushed-Later p q v (written d h k e) = rw e (record {
    valid = record { held = (d, (refl, inr h)); pending_follows = v.pending_follows };
    advanced = λ a f. (d, (refl, inr (rw (same_file a f k) (v.pending_follows d.captured h))));
  })
    where
      same_file :
          (a : RecordSnapshot)
          → p.disk ≡ some a
          → p.disk ≡ some p.state.durable
          → a ≡ p.state.durable
      same_file a f k = cc
  Flushed-Later p q v (written_confirmed d h k e) = rw e (record {
    valid = record { held = (d, (refl, inl refl)); pending_follows = λ r f. cc };
    advanced = λ a f. (d, (refl, inr (rw (same_file a f k) (v.pending_follows d.captured h))));
  })
    where
      same_file :
          (a : RecordSnapshot)
          → p.disk ≡ some a
          → p.disk ≡ some p.state.durable
          → a ≡ p.state.durable
      same_file a f k = cc
  Flushed-Later p q v (confirmed d h k e) = rw e (record {
    valid = record { held = (d, (k, inl refl)); pending_follows = λ r f. cc };
    advanced = λ a f. (a, (f, inl refl));
  })

  unfoldable pub staged : (p : Publisher) (next : RuntimeRecord) → Publisher
  staged p next = record p { state = record (p.state) { pending = some next } }

  pub staged-IsValid :
      (p : Publisher) (next : RuntimeRecord)
      → IsValid os p
      → check_stage os p.state next ≡ ok tt
      → IsValid os (staged p next)
  unfolding staged
  staged-IsValid p next v h =
      let free = check_stage-Follows os p.state next h in
      record {
        held = (v.held.0, (v.held.1.0, held_by v.held.0 v.held.1.1 free.0));
        pending_follows = λ r e. subst (Follows os p.state.durable.captured) (injected r e) free.1;
      }
    where
      injected : (r : RuntimeRecord) → some next ≡ some r → next ≡ r
      injected r e = cc

      held_by :
          (d : RecordSnapshot)
          → (d ≡ p.state.durable) ⊎ (p.state.pending ≡ some d.captured)
          → p.state.pending ≡ none
          → (d ≡ p.state.durable) ⊎ (some next ≡ some d.captured)
      held_by d (inl e) f = inl e
      held_by d (inr e) f = absurd (cc)

  module _ (to_vec : RuntimeRecord → Option Text) (uid : ℕ) (io : Io) where
    flush-Later : (p : Publisher) → IsValid os p → Later os p (flush os to_vec uid io p).1
    flush-Later p v = Flushed-Later p _ v (flush-Flushed os to_vec uid io p)

    stage_flush-Later :
        (p : Publisher) (next : RuntimeRecord)
        → IsValid os p
        → Later os p (resume (stage_call os to_vec uid next p) (λ u. flush os to_vec uid io)).1
    unfolding stage staged
    stage_flush-Later p next v = elim (Result-cases (check_stage os p.state next)) [
      | inr (e, k) ↦ rw k (Later-refl p v)
      | inl (u, k) ↦ rw k (
          let m = flush-Later (staged p next) (staged-IsValid p next v k) in
          record { valid = m.valid; advanced = m.advanced })
    ]

    publish_running-Later :
        (p : Publisher) (socket : RuntimeSocket) (build : RuntimeBuildPin)
        → IsValid os p
        → Later os p (publish_running os to_vec uid io socket build p).1
    unfolding publish_running
    publish_running-Later p socket build v = elim (Result-cases (next_revision (logical p.state))) [
      | inr (e, k) ↦ rw k (Later-refl p v)
      | inl (n, k) ↦ rw k (stage_flush-Later p _ v)
    ]

    publish_retiring-Later :
        (p : Publisher) → IsValid os p → Later os p (publish_retiring os to_vec uid io p).1
    unfolding publish_retiring
    publish_retiring-Later p v = elim (Result-cases (next_revision (logical p.state))) [
      | inr (e, k) ↦ rw k (Later-refl p v)
      | inl (n, k) ↦ rw k (stage_flush-Later p _ v)
    ]

    pub inspect_publication-eq : (p : Publisher) → (inspect_publication os to_vec uid io p).1 ≡ p
    unfolding inspect_publication
    inspect_publication-eq p = elim (Result-cases (allowed io.lease)) [
      | inr (e, k) ↦ rw k refl
      | inl (u, k) ↦ elim (Result-cases (read_record io.access p.disk)) [
        | inr (e, m) ↦ rw (k, m) refl
        | inl (disk, m) ↦ elim (Option-cases disk) [
          | inl n ↦ rw (k, m, n) refl
          | inr (d, n) ↦ rw (k, m, n) refl
        ]
      ]
    ]

  module _ (to_vec : RuntimeRecord → Option Text) (uid : ℕ) where
    abbrev pub call : PublisherCall → Publisher → Publisher
    call (running_call io socket build) p = (publish_running os to_vec uid io socket build p).1
    call (retiring_call io) p = (publish_retiring os to_vec uid io p).1
    call (retry_call io) p = (retry_publication os to_vec uid io p).1
    call (inspect_call io) p = (inspect_publication os to_vec uid io p).1

    abbrev pub calls : List PublisherCall → Publisher → Publisher
    calls [] p = p
    calls (c ∷ cs) p = calls cs (call c p)

    call-Later : (c : PublisherCall) (p : Publisher) → IsValid os p → Later os p (call c p)
    unfolding retry_publication
    call-Later (running_call io socket build) p v =
        publish_running-Later to_vec uid io p socket build v
    call-Later (retiring_call io) p v = publish_retiring-Later to_vec uid io p v
    call-Later (retry_call io) p v = flush-Later to_vec uid io p v
    call-Later (inspect_call io) p v = rw (inspect_publication-eq to_vec uid io p) (Later-refl p v)

    Trail-step : {a b c : RecordSnapshot} → Trail os a b → Advance os b c → Trail os a c
    Trail-step {a} t (inl e) = subst (Trail os a) e t
    Trail-step t (inr f) = further t f

    pub calls-Trail :
        (cs : List PublisherCall) (p : Publisher) (a b : RecordSnapshot)
        → IsValid os p
        → p.disk ≡ some b
        → Trail os a b
        → (c : RecordSnapshot) × (((calls cs p).disk ≡ some c)
            × (Trail os a c × IsValid os (calls cs p)))
    calls-Trail [] p a b v h t = (b, (h, (t, v)))
    calls-Trail (c ∷ cs) p a b v h t =
        let l = call-Later c p v in
        let (d, (k, m)) = l.advanced b h in calls-Trail cs (call c p) a d l.valid k (Trail-step t m)
