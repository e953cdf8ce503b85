-- ===== src/RetirementControl/Outcomes.antt =====
-- What each outcome of an attempt says of the registry, the publisher and the record file.
use chanvoy.Base.{
  ℕ, Option, some, Result, ok, err, Bool, true, false, not, ◌==◌, ◌||◌, ◌≡◌, refl, sym, ap, subst,
  ◌∙◌, inl, inr, Option-cases, Bool-cases,
}
use chanvoy.Base.Texts.{Text}
use chanvoy.Admission
use chanvoy.Admission.{Phase, Failure}
use chanvoy.Registry.{Registry}
use chanvoy.Registry.Arena.{RetirementDecision}
use chanvoy.Runtime.{RuntimeError, RuntimePhase, starting, running, retiring, exited}
use chanvoy.Runtime.Paths.{Platform}
use chanvoy.Runtime.Record.{RuntimeRecord, is_running}
use chanvoy.Runtime.Stage.{PublicationView}
use chanvoy.Runtime.Publisher.{
  Publisher, Call, inspect_publication, publish_retiring, retry_publication,
}
use chanvoy.Runtime.Publisher.Forward.{inspect_publication-eq}
use chanvoy.RetirementControl.{
  ControlAction, begin, continue_same_epoch, Params, ControlDocument, Outcome, committed, continued,
  revision_changed, generation_refused, native_unavailable, already_retiring, not_retiring,
  publication_unconfirmed, Control, Setting, is_closed, facts, to_option, is_settled, settle,
  publish_at, decided, act, wrong_target, looked_at, attempt, same_build,
}
use chanvoy.RetirementControl.Answers.{
  unmoved, by_arena, by_decision, by_facts, Untouched, Retired, is_done, Answer, completed,
  unfinished, refused, failed, Decided, shut, held_open, was_shut, mistaken, retire_if_idle-Decided,
  Confirmed, inspect_publication-Confirmed, is_closed-eq, settled_view,
}

module _ (os : Platform) (to_vec : RuntimeRecord → Option Text) (uid : ℕ) (s : Setting)
    (closing : (r : Registry)
      → r.admission.phase ≡ Admission.retiring
      → (s.before_facts r).admission.phase ≡ Admission.retiring) where
  Retired_by :
      (c : Control) (p : Publisher) (v : PublicationView)
      → c.registry.admission.phase ≡ Admission.retiring
      → Confirmed p v
      → v.observed.phase ≡ retiring
      → Retired (record c { registry = s.before_facts c.registry; publisher = p })
  Retired_by c p v h k e = record {
    registry_closed = closing c.registry h;
    nothing_pending = k.nothing_pending;
    on_file = k.on_file;
    record_retiring = ap (λ x. x.phase) (sym k.is_observed) ∙ e;
  }

  settle-Answer :
      (c0 c : Control) (o : Outcome) (call : Call (Unit {0}))
      → is_done o ≡ true
      → c.registry.admission.phase ≡ Admission.retiring
      → Answer s c0 (settle os to_vec uid s o call c)
  settle-Answer c0 c o call d h =
      let p = (call c.publisher).1 in
      let seen = (inspect_publication os to_vec uid s.looked_again p).0 in
      elim (Bool-cases (is_settled (call c.publisher).0 (to_option seen))) [
        | inr e ↦ rw e (unfinished _ _ refl (closing c.registry h))
        | inl e ↦
            let (v, (f, (g, k))) = settled_view (call c.publisher).0 seen e in
            let done = inspect_publication-Confirmed os to_vec uid s.looked_again p v f g in
            rw e (
              completed _ _ d (
                subst
                  (λ q. Retired (record c { registry = s.before_facts c.registry; publisher = q }))
                  (sym (inspect_publication-eq os to_vec uid s.looked_again p))
                  (Retired_by c p v h done k)))
      ]

  publish_at-Answer :
      (c0 c : Control) (phase : RuntimePhase) (o : Outcome) (view : PublicationView)
      → is_done o ≡ true
      → c.registry.admission.phase ≡ Admission.retiring
      → Answer s c0 (publish_at os to_vec uid s phase o view c)
  publish_at-Answer c0 c running o view d h =
      settle-Answer c0 c o (publish_retiring os to_vec uid s.published) d h
  publish_at-Answer c0 c retiring o view d h =
      settle-Answer c0 c o (retry_publication os to_vec uid s.published) d h
  publish_at-Answer c0 c starting o view d h = unfinished _ _ refl (closing c.registry h)
  publish_at-Answer c0 c exited o view d h = unfinished _ _ refl (closing c.registry h)

  facts-Answer :
      (c0 c : Control) (o : Outcome) (v : Option PublicationView)
      → is_done o ≡ false
      → Untouched s c0 c
      → Answer s c0 (facts s o v c)
  facts-Answer c0 c o v d u =
      refused _ _ d (record { publisher = u.publisher; registry = by_facts u.registry })

  decided-Answer :
      (c0 c : Control) (view : PublicationView) (out : Result Failure RetirementDecision × Registry)
      → Untouched s c0 c
      → Decided c.registry out
      → Answer s c0 (decided os to_vec uid s view out.0 (record c { registry = out.1 }))
  decided-Answer c0 c view out u (shut seen) =
      publish_at-Answer c0 _ view.logical.phase committed view refl refl
  decided-Answer c0 c view out u (held_open seen) = refused _ _ refl u
  decided-Answer c0 c view out u (was_shut seen) =
      facts-Answer c0 c already_retiring (some view) refl u
  decided-Answer c0 c view out u (mistaken e) = failed _ _ u

  act-Answer :
      (c0 c : Control) (action : ControlAction) (view : PublicationView)
      → Untouched s c0 c
      → Answer s c0 (act os to_vec uid s action view c)
  act-Answer c0 c begin view u =
      elim (Bool-cases (is_closed (s.before_arena c.registry).admission.phase)) [
        | inl e ↦ rw e (
            facts-Answer c0 _ already_retiring (some view) refl
              (record { publisher = u.publisher; registry = by_arena u.registry }))
        | inr e ↦ elim (Bool-cases (not (is_running view.logical.phase) || not view.confirmed)) [
          | inl f ↦
              rw (e, f)
                (facts-Answer c0 _ publication_unconfirmed (some view) refl
                  (record { publisher = u.publisher; registry = by_arena u.registry }))
          | inr f ↦
              rw (e, f)
                (decided-Answer c0
                  (record c { registry = s.before_decision (s.before_arena c.registry) }) view _
                  (record { publisher = u.publisher; registry = by_decision (by_arena u.registry) })
                  (retire_if_idle-Decided c.anchor.instance_uuid
                    (s.before_decision (s.before_arena c.registry))))
        ]
      ]
  act-Answer c0 c continue_same_epoch view u =
      elim (Bool-cases (is_closed (s.before_arena c.registry).admission.phase)) [
        | inl e ↦
            rw e (publish_at-Answer c0 _ view.logical.phase continued view refl (is_closed-eq _ e))
        | inr e ↦ rw e (
            facts-Answer c0 _ not_retiring (some view) refl
              (record { publisher = u.publisher; registry = by_arena u.registry }))
      ]

  looked_at-Answer :
      (c0 c : Control) (native_recheck : RuntimeRecord → Bool) (params : Params)
      (seen : Result RuntimeError PublicationView)
      → Untouched s c0 c
      → Answer s c0 (looked_at os to_vec uid s native_recheck params seen c)
  looked_at-Answer c0 c native_recheck params (err e) u = refused _ _ refl u
  looked_at-Answer c0 c native_recheck params (ok view) u =
      elim (Bool-cases (wrong_target c.anchor params.target view)) [
        | inl e ↦ rw e (refused _ _ refl u)
        | inr e ↦ elim (Bool-cases (params.target.record_revision == view.observed.revision)) [
          | inr f ↦ rw (e, f) (facts-Answer c0 c revision_changed (some view) refl u)
          | inl f ↦
              elim (Bool-cases (same_build (some params.caller_generation) view.observed.build)) [
                | inr g ↦ rw (e, f, g) (facts-Answer c0 c generation_refused (some view) refl u)
                | inl g ↦ elim (Bool-cases (native_recheck view.observed)) [
                  | inr k ↦
                      rw (e, f, g, k) (facts-Answer c0 c native_unavailable (some view) refl u)
                  | inl k ↦ rw (e, f, g, k) (act-Answer c0 c params.action view u)
                ]
              ]
        ]
      ]

  -- Every attempt ends in one of four ways, if what others do to the registry does not reopen it:
  -- it answers Committed or Continued, and the registry is closed and the file holds a retiring
  -- record with nothing pending; it answers PublicationUnconfirmed and the registry is closed; it
  -- answers another refusal, or fails, and has changed neither the registry nor the publisher.
  pub attempt-Answer :
      (c : Control) (native_recheck : RuntimeRecord → Bool) (request : ControlDocument)
      → Answer s c (attempt os to_vec uid s native_recheck request c)
  unfolding attempt
  attempt-Answer c native_recheck request = elim (Bool-cases request.is_retire_request) [
    | inr e ↦ rw e (failed _ _ (record { publisher = refl; registry = unmoved }))
    | inl e ↦ elim (Option-cases request.params) [
      | inl f ↦ rw (e, f) (failed _ _ (record { publisher = refl; registry = unmoved }))
      | inr (params, f) ↦
          rw (e, f)
            (looked_at-Answer c _ native_recheck params _ (record {
              publisher = inspect_publication-eq os to_vec uid s.looked c.publisher;
              registry = unmoved;
            }))
    ]
  ]
