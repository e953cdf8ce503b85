-- ===== src/RetirementControl/Continue.antt =====
-- Requests to continue a retirement whose publication is pending.
use chanvoy.Base.{
  ℕ, nat_eq, Option, none, some, Result, ok, Bool, true, false, ◌≡◌, refl, sym, ap, subst, ◌∙◌,
  arith,
}
use chanvoy.Base.Actions.{resume, check}
use chanvoy.Base.Texts.{Text}
use chanvoy.Admission
use chanvoy.Registry.{Registry}
use chanvoy.Runtime.{RuntimeError, retiring}
use chanvoy.Runtime.Paths.{Platform}
use chanvoy.Runtime.Record.{RuntimeRecord, encode, is_retiring}
use chanvoy.Runtime.Storage.{RecordSnapshot, read_record, same_snapshot_iff}
use chanvoy.Runtime.Stage.{PublicationView, PublicationState, inspect, logical}
use chanvoy.Runtime.Publisher.{Publisher, found, inspect_publication, retry_publication}
use chanvoy.Runtime.Publisher.Invariant.{IsValid}
use chanvoy.Runtime.Publisher.Forward.{inspect_publication-eq}
use chanvoy.Runtime.Publisher.Retry.{working, Completed, retry_completes}
use chanvoy.RetirementControl.{
  continue_same_epoch, Params, ControlDocument, continued, ResultFacts, Control, Setting, is_closed,
  settle, publish_at, act, wrong_target, looked_at, attempt, same_build_iff,
}
use chanvoy.RetirementControl.Answers.{Retired, inspect_publication-inspect}

inspect_settled :
    (d : RecordSnapshot) (pending : Option RuntimeRecord)
    → pending ≡ none
    → inspect (record { durable = d; pending = pending }) d
      ≡ ok (record { observed = d.captured; logical = d.captured; confirmed = true })
unfolding inspect logical
inspect_settled d pending h = rw (h, (same_snapshot_iff d d).1 refl) refl

inspect-logical :
    (s : PublicationState) (d : RecordSnapshot) (r : RuntimeRecord) (v : PublicationView)
    → s.pending ≡ some r
    → inspect s d ≡ ok v
    → v.logical ≡ r
unfolding inspect logical
inspect-logical s d r v h k = ground arith

abbrev pub working_setting :
    ℕ → (Registry → Registry) → (Registry → Registry) → (Registry → Registry) → Setting
working_setting f before_arena before_decision before_facts = record {
  looked = working f;
  published = working f;
  looked_again = working f;
  before_arena = before_arena;
  before_decision = before_decision;
  before_facts = before_facts;
}

-- The checks that an attempt makes before it acts.
pub record Matches (c : Control) (native_recheck : RuntimeRecord → Bool) (params : Params)
    (v : PublicationView) : Type 0 where
  pub same_target : wrong_target c.anchor params.target v ≡ false
  pub same_revision : params.target.record_revision ≡ v.observed.revision
  pub same_generation : some params.caller_generation ≡ v.observed.build
  pub native : native_recheck v.observed ≡ true

-- The attempt answered Continued, and the file holds the record, retired.
pub record Continues (r : RuntimeRecord) (out : Result RuntimeError ResultFacts × Control)
    : Type 0 where
  pub answered : (f : ResultFacts) × ((out.0 ≡ ok f) × (f.outcome ≡ continued))
  pub is_record : out.1.publisher.state.durable.captured ≡ r
  pub retired : Retired out.1

module _ (os : Platform) (to_vec : RuntimeRecord → Option Text) (uid : ℕ) (f : ℕ) where
  looked_settled :
      (p : Publisher) (r : RuntimeRecord) (out : Result RuntimeError (Unit {0}))
      → Completed r (out, p)
      → (inspect_publication os to_vec uid (working f) p).0
        ≡ ok (record { observed = r; logical = r; confirmed = true })
  unfolding inspect_publication read_record
  looked_settled p r out h =
      subst
        (λ o.
          (resume (found o p) (λ observed. check (λ q. inspect q.state observed))).0
          ≡ ok (record { observed = r; logical = r; confirmed = true }))
        (sym h.on_file)
        (subst
          (λ x.
            inspect p.state p.state.durable
            ≡ ok (record { observed = x; logical = x; confirmed = true }))
          h.is_record (inspect_settled p.state.durable p.state.pending h.nothing_pending))

  module _ (before_arena before_decision before_facts : Registry → Registry)
      (kept_arena : (r : Registry)
        → r.admission.phase ≡ Admission.retiring
        → (before_arena r).admission.phase ≡ Admission.retiring)
      (kept_facts : (r : Registry)
        → r.admission.phase ≡ Admission.retiring
        → (before_facts r).admission.phase ≡ Admission.retiring) where
    abbrev setting : Setting
    setting = working_setting f before_arena before_decision before_facts

    Retired_with :
        (c : Control) (r : RuntimeRecord)
        → r.phase ≡ retiring
        → c.registry.admission.phase ≡ Admission.retiring
        → (t : Result RuntimeError (Unit {0}) × Publisher) → Completed r t
        → Retired (record c { registry = before_facts c.registry; publisher = t.1 })
    Retired_with c r k h t m = record {
      registry_closed = kept_facts c.registry h;
      nothing_pending = m.nothing_pending;
      on_file = m.on_file;
      record_retiring = ap (λ x. x.phase) m.is_record ∙ k;
    }

    settle_completes :
        (c : Control) (r : RuntimeRecord)
        → r.phase ≡ retiring
        → c.registry.admission.phase ≡ Admission.retiring
        → Completed r (retry_publication os to_vec uid (working f) c.publisher)
        → Continues r
            (settle os to_vec uid setting continued (retry_publication os to_vec uid (working f)) c)
    settle_completes c r k h m =
        let t = retry_publication os to_vec uid (working f) c.publisher in
        rw
          (
            m.succeeded,
            looked_settled t.1 r t.0 m,
            ap is_retiring k,
            inspect_publication-eq os to_vec uid (working f) t.1,
          )
          (record {
            answered = (_, (refl, refl));
            is_record = m.is_record;
            retired = Retired_with c r k h t m;
          })

    act_completes :
        (c : Control) (r : RuntimeRecord) (v : PublicationView)
        → r.phase ≡ retiring
        → v.logical ≡ r
        → c.registry.admission.phase ≡ Admission.retiring
        → Completed r (retry_publication os to_vec uid (working f) c.publisher)
        → Continues r (act os to_vec uid setting continue_same_epoch v c)
    act_completes c r v k e h m =
        let c1 = record c { registry = before_arena c.registry } in
        rw (ap is_closed (kept_arena c.registry h)) (
          subst (λ x. Continues r (publish_at os to_vec uid setting x continued v c1))
            (sym (ap (λ x. x.phase) e ∙ k)) (settle_completes c1 r k (kept_arena c.registry h) m))

    looked_at_completes :
        (c : Control) (native_recheck : RuntimeRecord → Bool) (params : Params) (r : RuntimeRecord)
        (v : PublicationView)
        → params.action ≡ continue_same_epoch
        → Matches c native_recheck params v
        → r.phase ≡ retiring
        → v.logical ≡ r
        → c.registry.admission.phase ≡ Admission.retiring
        → Completed r (retry_publication os to_vec uid (working f) c.publisher)
        → Continues r (looked_at os to_vec uid setting native_recheck params (ok v) c)
    looked_at_completes c native_recheck params r v a w k e h m =
        rw
          (
            w.same_target,
            (nat_eq.beq_iff params.target.record_revision v.observed.revision).1 w.same_revision,
            (same_build_iff (some params.caller_generation) v.observed.build).1 w.same_generation,
            w.native,
            a,
          )
          (act_completes c r v k e h m)

    -- A request to continue completes a retirement whose publication is still pending: if the registry
    -- is closed and stays so, the pending record is retiring and can be encoded, the request passes the
    -- checks of an attempt, and the lease and the file system work, then the attempt answers
    -- Continued, and the file holds the record that was pending, confirmed.
    pub continue_completes :
        (c : Control) (native_recheck : RuntimeRecord → Bool) (request : ControlDocument)
        (params : Params) (r : RuntimeRecord) (bytes : Text) (v : PublicationView)
        → IsValid os c.publisher
        → c.publisher.state.pending ≡ some r
        → r.phase ≡ retiring
        → encode os to_vec r ≡ ok bytes
        → r.uid ≡ uid
        → c.registry.admission.phase ≡ Admission.retiring
        → request.is_retire_request ≡ true
        → request.params ≡ some params
        → params.action ≡ continue_same_epoch
        → (inspect_publication os to_vec uid (working f) c.publisher).0 ≡ ok v
        → Matches c native_recheck params v
        → Continues r (attempt os to_vec uid setting native_recheck request c)
    unfolding attempt
    continue_completes c native_recheck request params r bytes v valid pending k enc u h is_retire
          has_params a seen w =
        let (d, (on, look)) =
          inspect_publication-inspect os to_vec uid (working f) c.publisher v seen in
        rw
          (
            is_retire,
            has_params,
            seen,
            inspect_publication-eq os to_vec uid (working f) c.publisher,
          )
          (looked_at_completes c native_recheck params r v a w k
            (inspect-logical c.publisher.state d r v pending look) h
            (retry_completes os to_vec uid c.publisher r bytes f valid pending enc u))
