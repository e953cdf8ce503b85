-- ===== src/RetirementControl/Answers.antt =====
-- What an attempt can answer, and what a decision of the registry and a confirmed view say.
use chanvoy.Base.{
  ℕ, Option, none, some, Result, ok, err, Bool, true, false, ◌==◌, ◌≡◌, refl, ap, ◌∙◌, inl, inr,
  arith, Option-cases, Result-cases, Bool-cases,
}
use chanvoy.Base.Texts.{Text}
use chanvoy.Admission
use chanvoy.Admission.{Phase, Failure}
use chanvoy.Registry.{Registry, Snapshot, snapshot, is_empty}
use chanvoy.Registry.Arena
use chanvoy.Registry.Arena.{RetirementDecision, retire_if_idle, retire_phase, retired}
use chanvoy.Runtime.{RuntimeError, RuntimePhase, starting, running, retiring, exited}
use chanvoy.Runtime.Paths.{Platform}
use chanvoy.Runtime.Record.{RuntimeRecord, is_retiring}
use chanvoy.Runtime.Storage.{RecordSnapshot, allowed, read_record, same_snapshot_iff}
use chanvoy.Runtime.Stage.{PublicationView, PublicationState, inspect}
use chanvoy.Runtime.Publisher.{Io, Publisher, inspect_publication}
use chanvoy.RetirementControl.{
  Outcome, committed, continued, busy, target_mismatch, revision_changed, generation_refused,
  native_unavailable, already_retiring, not_retiring, publication_unconfirmed, ResultFacts, Control,
  Setting, is_closed, to_option, is_settled,
}

-- The registry after what others did to it.
pub data Others (s : Setting) (a : Registry) : Registry → Type 0 where
  unmoved : Others s a a
  by_arena : {b : Registry} → Others s a b → Others s a (s.before_arena b)
  by_decision : {b : Registry} → Others s a b → Others s a (s.before_decision b)
  by_facts : {b : Registry} → Others s a b → Others s a (s.before_facts b)

-- The attempt itself changed nothing.
pub record Untouched (s : Setting) (c c' : Control) : Type 0 where
  pub publisher : c'.publisher ≡ c.publisher
  pub registry : Others s c.registry c'.registry

-- The registry is closed, and the file holds a confirmed retirement.
pub record Retired (c : Control) : Type 0 where
  pub registry_closed : c.registry.admission.phase ≡ Admission.retiring
  pub nothing_pending : c.publisher.state.pending ≡ none
  pub on_file : c.publisher.disk ≡ some c.publisher.state.durable
  pub record_retiring : c.publisher.state.durable.captured.phase ≡ retiring

abbrev pub is_done : Outcome → Bool
is_done committed = true
is_done continued = true
is_done busy = false
is_done target_mismatch = false
is_done revision_changed = false
is_done generation_refused = false
is_done native_unavailable = false
is_done already_retiring = false
is_done not_retiring = false
is_done publication_unconfirmed = false

pub data Answer (s : Setting) (c : Control)
    : Result RuntimeError ResultFacts × Control → Type 0 where
  completed :
      (f : ResultFacts) (c' : Control)
      → is_done f.outcome ≡ true
      → Retired c'
      → Answer s c (ok f, c')
  unfinished :
      (f : ResultFacts) (c' : Control)
      → f.outcome ≡ publication_unconfirmed
      → c'.registry.admission.phase ≡ Admission.retiring
      → Answer s c (ok f, c')
  refused :
      (f : ResultFacts) (c' : Control)
      → is_done f.outcome ≡ false
      → Untouched s c c'
      → Answer s c (ok f, c')
  failed : (e : RuntimeError) (c' : Control) → Untouched s c c' → Answer s c (err e, c')

pub data Decided (r : Registry) : Result Failure RetirementDecision × Registry → Type 0 where
  shut : (seen : Snapshot) → Decided r (ok (Arena.closed seen), retired r)
  held_open : (seen : Snapshot) → Decided r (ok (Arena.busy seen), r)
  was_shut : (seen : Snapshot) → Decided r (ok (Arena.already_retiring seen), r)
  mistaken : (e : Failure) → Decided r (err e, r)

pub retire_phase-Decided : (p : Phase) (r : Registry) → Decided r (retire_phase p r)
retire_phase-Decided Admission.retiring r = was_shut _
retire_phase-Decided Admission.running r = elim (Bool-cases (is_empty (snapshot r))) [
  | inl e ↦ rw e (shut _)
  | inr e ↦ rw e (held_open _)
]

pub retire_if_idle-Decided : (i : ℕ) (r : Registry) → Decided r (retire_if_idle i r)
unfolding retire_if_idle
retire_if_idle-Decided i r = elim (Bool-cases (i == r.admission.instance_id)) [
  | inr e ↦ rw e (mistaken _)
  | inl e ↦ rw e (retire_phase-Decided r.admission.phase r)
]

-- What a confirmed view says.
pub record Confirmed (p : Publisher) (v : PublicationView) : Type 0 where
  pub nothing_pending : p.state.pending ≡ none
  pub on_file : p.disk ≡ some p.state.durable
  pub is_observed : v.observed ≡ p.state.durable.captured

inspect-Confirmed :
    (state : PublicationState) (observed : RecordSnapshot) (v : PublicationView)
    → inspect state observed ≡ ok v
    → v.confirmed ≡ true
    → (state.pending ≡ none) × ((observed ≡ state.durable) × (v.observed ≡ observed.captured))
unfolding inspect
inspect-Confirmed state observed v h c = elim (Option-cases state.pending) [
  | inl e ↦ (e, ((same_snapshot_iff observed state.durable).0 (ground arith), ground arith))
  | inr (r, e) ↦ absurd (ground arith)
]

module _ (os : Platform) (to_vec : RuntimeRecord → Option Text) (uid : ℕ) (io : Io) where
  pub inspect_publication-inspect :
      (p : Publisher) (v : PublicationView)
      → (inspect_publication os to_vec uid io p).0 ≡ ok v
      → (d : RecordSnapshot) × ((p.disk ≡ some d) × (inspect p.state d ≡ ok v))
  unfolding inspect_publication read_record
  inspect_publication-inspect p v = elim (Result-cases (allowed io.lease)) [
    | inr (e, k) ↦ rw k (λ h. cc)
    | inl (u, k) ↦ elim (Result-cases (allowed io.access)) [
      | inr (e, m) ↦ rw (k, m) (λ h. cc)
      | inl (w, m) ↦ elim (Option-cases p.disk) [
        | inl n ↦ rw (k, m, n) (λ h. cc)
        | inr (d, n) ↦ rw (k, m, n) (λ h. (d, (refl, h)))
      ]
    ]
  ]

  pub inspect_publication-Confirmed :
      (p : Publisher) (v : PublicationView)
      → (inspect_publication os to_vec uid io p).0 ≡ ok v
      → v.confirmed ≡ true
      → Confirmed p v
  inspect_publication-Confirmed p v h c =
      let (d, (k, m)) = inspect_publication-inspect p v h in
      let (e, (f, g)) = inspect-Confirmed p.state d v m c in
      record {
        nothing_pending = e;
        on_file = k ∙ ap some f;
        is_observed = g ∙ ap (λ x. x.captured) f;
      }

pub is_retiring-eq : (p : RuntimePhase) → is_retiring p ≡ true → p ≡ retiring
is_retiring-eq starting h = cc
is_retiring-eq running h = cc
is_retiring-eq retiring h = refl
is_retiring-eq exited h = cc

pub is_closed-eq : (p : Phase) → is_closed p ≡ true → p ≡ Admission.retiring
is_closed-eq Admission.running h = cc
is_closed-eq Admission.retiring h = refl

pub settled_view :
    (out : Result RuntimeError (Unit {0})) (seen : Result RuntimeError PublicationView)
    → is_settled out (to_option seen) ≡ true
    → (v : PublicationView) × ((seen ≡ ok v)
        × ((v.confirmed ≡ true) × (v.observed.phase ≡ retiring)))
settled_view (err e) seen h = absurd (cc)
settled_view (ok u) (err e) h = absurd (cc)
settled_view (ok u) (ok v) h =
    (v, (refl, (ground arith, is_retiring-eq v.observed.phase (ground arith))))
