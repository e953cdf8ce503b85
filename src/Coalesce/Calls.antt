-- ===== src/Coalesce/Calls.antt =====
-- Any sequence of calls on the buffer of crates/chanvoy-daemon/src/wait_coalesce.rs.
use chanvoy.Base.{
  ℕ, List, [], ◌∷◌, ◌++◌, append-nil, append_assoc, ap, sym, Option, none, length, leb,
  Option-cases, Bool-cases, ◌⊎◌, inl, inr, ◌≡◌, refl, ◌∙◌, ◌<◌, arith, All, All-append,
}
use chanvoy.Follow.{WaitFollowMode, coalesce_max_messages}
use chanvoy.Coalesce.{
  CoalesceFlush, CoalesceBuffer, new, take, push, take_if_expired, deadline, flush_list,
}
use chanvoy.Coalesce.Buffer.{
  Tagged, emitted, waiting, emitted-append, IsValid, take-IsValid, take_keeps, push-IsValid,
  push_keeps, FitsOneEvent, take_sizes, push_sizes,
}

pub data Call (T : Type 0) : Type 0 where
  push_call : (now : ℕ) (mode : WaitFollowMode) (item : T) → Call T
  take_call : Call T
  expire_call : (now : ℕ) → Call T

module _ {T : Type 0} where
  module _ (checked_add : ℕ → ℕ → Option ℕ) where
    abbrev pub call : Call T → CoalesceBuffer T → List (CoalesceFlush T) × CoalesceBuffer T
    call (push_call now mode item) b = push now mode item b
    call take_call b = let (flush, c) = take b in (flush_list flush, c)
    call (expire_call now) b =
        let (flush, c) = take_if_expired checked_add now b in (flush_list flush, c)

    abbrev pub calls : List (Call T) → CoalesceBuffer T → List (CoalesceFlush T) × CoalesceBuffer T
    calls [] b = ([], b)
    calls (c ∷ cs) b =
        let (first, b') = call c b in let (rest, b'') = calls cs b' in (first ++ rest, b'')

  abbrev pub pushed_by : Call T → List (Tagged T)
  pushed_by (push_call now mode item) = (mode, item) ∷ []
  pushed_by take_call = []
  pushed_by (expire_call now) = []

  abbrev pub pushed : List (Call T) → List (Tagged T)
  pushed [] = []
  pushed (c ∷ cs) = pushed_by c ++ pushed cs

  module _ (checked_add : ℕ → ℕ → Option ℕ) where
    take_if_expired-cases :
        (now : ℕ) (b : CoalesceBuffer T)
        → (take_if_expired checked_add now b ≡ take b)
          ⊎ (take_if_expired checked_add now b ≡ (none, b))
    unfolding take_if_expired
    take_if_expired-cases now b = elim (Option-cases (deadline checked_add b)) [
      | inl h ↦ inr (rw h refl)
      | inr (end, h) ↦ elim (Bool-cases (leb end now)) [
        | inl k ↦ inl (rw (h, k) refl)
        | inr k ↦ inr (rw (h, k) refl)
      ]
    ]

    call-IsValid :
        (c : Call T) (b : CoalesceBuffer T) → IsValid b → IsValid (call checked_add c b).1
    unfolding take_if_expired
    call-IsValid (push_call now mode item) b v = push-IsValid now mode item b v
    call-IsValid take_call b v = take-IsValid b v
    call-IsValid (expire_call now) b v = elim (take_if_expired-cases now b) [
      | inl h ↦ rw h (take-IsValid b v)
      | inr h ↦ rw h (v)
    ]

    call_keeps :
        (c : Call T) (b : CoalesceBuffer T)
        → IsValid b
        → emitted (call checked_add c b).0 ++ waiting (call checked_add c b).1
          ≡ waiting b ++ pushed_by c
    unfolding take_if_expired
    call_keeps (push_call now mode item) b v = push_keeps now mode item b v
    call_keeps take_call b v = take_keeps b ∙ sym (append-nil _)
    call_keeps (expire_call now) b v = elim (take_if_expired-cases now b) [
      | inl h ↦ rw h (take_keeps b ∙ sym (append-nil _))
      | inr h ↦ rw h (sym (append-nil _))
    ]

    pub calls-IsValid :
        (cs : List (Call T)) (b : CoalesceBuffer T) → IsValid b → IsValid (calls checked_add cs b).1
    calls-IsValid [] b v = v
    calls-IsValid (c ∷ cs) b v = calls-IsValid cs _ (call-IsValid c b v)

    calls_keep :
        (cs : List (Call T)) (b : CoalesceBuffer T)
        → IsValid b
        → emitted (calls checked_add cs b).0 ++ waiting (calls checked_add cs b).1
          ≡ waiting b ++ pushed cs
    calls_keep [] b v = sym (append-nil _)
    calls_keep (c ∷ cs) b v =
        let first = call checked_add c b in
        let rest = calls checked_add cs first.1 in
        ap (λ l. l ++ waiting rest.1) (emitted-append first.0 rest.0)
        ∙ append_assoc (emitted first.0) (emitted rest.0) (waiting rest.1)
        ∙ ap (λ l. emitted first.0 ++ l) (calls_keep cs first.1 (call-IsValid c b v))
        ∙ sym (append_assoc (emitted first.0) (waiting first.1) (pushed cs))
        ∙ ap (λ l. l ++ pushed cs) (call_keeps c b v)
        ∙ append_assoc (waiting b) (pushed_by c) (pushed cs)

    call_sizes :
        (c : Call T) (b : CoalesceBuffer T) → IsValid b → All FitsOneEvent (call checked_add c b).0
    unfolding take_if_expired
    call_sizes (push_call now mode item) b v = push_sizes now mode item b v
    call_sizes take_call b v = take_sizes b v
    call_sizes (expire_call now) b v = elim (take_if_expired-cases now b) [
      | inl h ↦ rw h (take_sizes b v)
      | inr h ↦ rw h (tt)
    ]

    calls_sizes :
        (cs : List (Call T)) (b : CoalesceBuffer T)
        → IsValid b
        → All FitsOneEvent (calls checked_add cs b).0
    calls_sizes [] b v = tt
    calls_sizes (c ∷ cs) b v =
        All-append FitsOneEvent (call checked_add c b).0 _ (call_sizes c b v)
          (calls_sizes cs _ (call-IsValid c b v))

    new-IsValid : (coalesce_ms : ℕ) → IsValid (new {T = T} coalesce_ms)
    unfolding new
    new-IsValid coalesce_ms = ground arith

    -- For a new buffer and any sequence of `push`, `take` and `take_if_expired`, the matches of the
    -- flushes, in order and each under the mode of its flush, followed by those that wait, are the
    -- pushed matches in order, each under the mode it was pushed with; every flush has 1 to
    -- 32 matches, and fewer than 32 wait.
    pub no_match_lost :
        (coalesce_ms : ℕ) (cs : List (Call T))
        → let (flushes, b) = calls checked_add cs (new coalesce_ms) in
          ((emitted flushes ++ waiting b) ≡ pushed cs)
          × (All FitsOneEvent flushes × (length b.pending < coalesce_max_messages))
    unfolding new
    no_match_lost coalesce_ms cs = (
      calls_keep cs (new coalesce_ms) (new-IsValid coalesce_ms),
      (
        calls_sizes cs (new coalesce_ms) (new-IsValid coalesce_ms),
        (calls-IsValid cs (new coalesce_ms) (new-IsValid coalesce_ms)).room,
      ),
    )
