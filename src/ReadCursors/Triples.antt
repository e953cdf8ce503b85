-- ===== src/ReadCursors/Triples.antt =====
-- Triples for the calls on the read cursors: what holds after a success, and after an error.
use chanvoy.Base.{List, Result, ok, err}
use chanvoy.Base.Actions.{◌>>=◌, ◌>>◌, pure, gets, modify, resume}
use chanvoy.ReadCursors.{
  Answer, done, refused, uncertain, CursorError, Daemon, Call, access, next_answer, later_answers,
  answered,
}

abbrev pub Ends :
    {A : Type 0}
    → (A → Daemon → Type 0)
    → (Daemon → Type 0)
    → Result CursorError A × Daemon
    → Type 0
Ends Post Err (ok a, d) = Post a d
Ends Post Err (err e, d) = Err d

pub record Triple {A : Type 0} (Pre : Daemon → Type 0) (Post : A → Daemon → Type 0)
    (Err : Daemon → Type 0) (m : Call A) : Type 0 where
  pub run : (d : Daemon) → Pre d → Ends Post Err (m d)

Ends-resume :
    {A B : Type 0} (Mid : A → Daemon → Type 0) (Post : B → Daemon → Type 0) (Err : Daemon → Type 0)
    (f : A → Call B) (out : Result CursorError A × Daemon)
    → ((a : A) (d : Daemon) → Mid a d → Ends Post Err (f a d))
    → Ends Mid Err out
    → Ends Post Err (resume out f)
Ends-resume Mid Post Err f (ok a, d) k h = k a d h
Ends-resume Mid Post Err f (err e, d) k h = h

module _ {A : Type 0} {Pre : Daemon → Type 0} {Err : Daemon → Type 0} where
  pub bind_rule :
      {B : Type 0} {Mid : A → Daemon → Type 0} {Post : B → Daemon → Type 0} {m : Call A}
      {f : A → Call B}
      → Triple Pre Mid Err m
      → ((a : A) → Triple (Mid a) Post Err (f a))
      → Triple Pre Post Err (m >>= f)
  bind_rule {Mid} {Post} {m} {f} h k = record {
    run = λ d p. Ends-resume Mid Post Err f (m d) (λ a. (k a).run) (h.run d p);
  }

  -- The value has a property that does not depend on the state.
  pub bind_value :
      {B : Type 0} {F : A → Type 0} {Mid : Daemon → Type 0} {Post : B → Daemon → Type 0}
      {m : Call A} {f : A → Call B}
      → Triple Pre (λ a d. F a × Mid d) Err m
      → ((a : A) → F a → Triple Mid Post Err (f a))
      → Triple Pre Post Err (m >>= f)
  bind_value {F} {Mid} h k =
      bind_rule h λ a. record { run = λ d (p : F a × Mid d). (k a p.0).run d p.1 }

  pub gets_rule :
      {Post : A → Daemon → Type 0} {f : Daemon → A}
      → ((d : Daemon) → Pre d → Post (f d) d)
      → Triple Pre Post Err (gets f)
  gets_rule h = record { run = h }

module _ {Pre Err : Daemon → Type 0} where
  pub then_rule :
      {B : Type 0} {Mid : Unit {0} → Daemon → Type 0} {Post : B → Daemon → Type 0}
      {m : Call (Unit {0})} {k : Call B}
      → Triple Pre Mid Err m
      → Triple (Mid tt) Post Err k
      → Triple Pre Post Err (m >> k)
  then_rule h k = bind_rule h λ _. k

  pub pure_rule :
      {A : Type 0} {Post : A → Daemon → Type 0} {a : A}
      → ((d : Daemon) → Pre d → Post a d)
      → Triple Pre Post Err (pure a)
  pure_rule h = record { run = h }

  pub modify_rule :
      {Post : Unit {0} → Daemon → Type 0} {f : Daemon → Daemon}
      → ((d : Daemon) → Pre d → Post tt (f d))
      → Triple Pre Post Err (modify f)
  modify_rule h = record { run = h }

  -- An access leaves the answers that are not asked for yet.
  pub access_rule :
      {Post : Unit {0} → Daemon → Type 0} {write : Daemon → Daemon} {e : CursorError}
      → ((d : Daemon) (a : List Answer)
          → Pre d
          → Post tt (write (record d { answers = a }))
            × (Err (record d { answers = a }) × Err (write (record d { answers = a }))))
      → Triple Pre Post Err (access write e)
  access_rule {Post} {write} {e} h = record {
    run = λ d p. by_answer (next_answer d.answers) (h d (later_answers d.answers) p);
  }
    where
      by_answer :
          (a : Answer) {c : Daemon}
          → Post tt (write c) × (Err c × Err (write c))
          → Ends Post Err (answered a write e c)
      by_answer done k = k.0
      by_answer refused k = k.1.0
      by_answer uncertain k = k.1.1

-- A stronger start, and weaker ends.
pub weaken :
    {A : Type 0} {m : Call A} {Pre Start Err Fault : Daemon → Type 0}
    {Post End : A → Daemon → Type 0}
    → Triple Pre Post Err m
    → ((d : Daemon) → Start d → Pre d)
    → ((a : A) (d : Daemon) → Post a d → End a d)
    → ((d : Daemon) → Err d → Fault d)
    → Triple Start End Fault m
weaken {A} {m} {Err} {Fault} {Post} {End} h pre post fault = record {
  run = λ d s. by_end (m d) (h.run d (pre d s));
}
  where
    by_end : (out : Result CursorError A × Daemon) → Ends Post Err out → Ends End Fault out
    by_end (ok a, d) e = post a d e
    by_end (err e, d) f = fault d f
