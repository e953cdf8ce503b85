-- ===== src/Coalesce/Buffer.antt =====
-- The fixed-window buffer of crates/chanvoy-daemon/src/wait_coalesce.rs, over any sequence of calls.
use chanvoy.Base.{
  ℕ, List, [], ◌∷◌, ◌++◌, append-nil, append_assoc, ap, sym, if◌then◌else◌, Option, none, some,
  Bool, true, false, not, length, length-append, is_some, ◌≡◌, refl, ◌∙◌, Bool-cases, inl, inr, leb,
  ◌<◌, ◌≤◌, arith, All, All-append, ◌==◌, ==_iff,
}
use chanvoy.Follow.{
  WaitFollowMode, armed, backlog, live, deadman, canceled, replaced, failed, coalesce_max_messages,
}
use chanvoy.Coalesce.{
  CoalesceFlush, CoalesceBuffer, take, push, mode_or_live, flush_list, same_mode, mode_number,
  take_when, open_window, append_item, mode_differs,
}

abbrev pub Tagged : Type 0 → Type 0
Tagged T = WaitFollowMode × T

mode_at : ℕ → WaitFollowMode
mode_at n =
    if n == 0
    then armed
    else if n == 1
    then backlog
    else if n == 2
    then live
    else if n == 3
    then deadman
    else if n == 4
    then canceled
    else if n == 5
    then replaced
    else failed

mode_at-mode_number : (m : WaitFollowMode) → mode_at (mode_number m) ≡ m
unfolding mode_at
mode_at-mode_number armed = refl
mode_at-mode_number backlog = refl
mode_at-mode_number live = refl
mode_at-mode_number deadman = refl
mode_at-mode_number canceled = refl
mode_at-mode_number replaced = refl
mode_at-mode_number failed = refl

pub same_mode-eq : (a b : WaitFollowMode) → same_mode a b ≡ true → a ≡ b
same_mode-eq a b h =
    sym (mode_at-mode_number a)
    ∙ ap mode_at ((==_iff (mode_number a) (mode_number b)).0 h)
    ∙ mode_at-mode_number b

mode_or_live-eq :
    (known : Option WaitFollowMode) (mode : WaitFollowMode)
    → is_some known ≡ true
    → mode_differs known mode ≡ false
    → mode_or_live known ≡ mode
mode_or_live-eq none mode k same = cc
mode_or_live-eq (some m) mode k same = same_mode-eq m mode (ground arith)

module _ {T : Type 0} where
  abbrev pub tag : WaitFollowMode → List T → List (Tagged T)
  tag mode [] = []
  tag mode (x ∷ xs) = (mode, x) ∷ tag mode xs

  -- The matches a list of flushes hands out, each with the mode it is emitted under.
  abbrev pub emitted : List (CoalesceFlush T) → List (Tagged T)
  emitted [] = []
  emitted (f ∷ fs) = tag f.mode f.items ++ emitted fs

  abbrev pub waiting : CoalesceBuffer T → List (Tagged T)
  waiting b = tag (mode_or_live b.mode) b.pending

  pub record IsValid (b : CoalesceBuffer T) : Type 0 where
    pub room : length b.pending < coalesce_max_messages
    pub mode_known : is_some b.mode ≡ not (length b.pending == 0)
    pub window_known : is_some b.window_start ≡ not (length b.pending == 0)

  pub take-IsValid : (b : CoalesceBuffer T) → IsValid b → IsValid (take b).1
  unfolding take
  take-IsValid b v = ground arith

  tag-append :
      (mode : WaitFollowMode) (xs ys : List T) → tag mode (xs ++ ys) ≡ tag mode xs ++ tag mode ys
  tag-append mode [] ys = refl
  tag-append mode (x ∷ xs) ys = cc (tag-append mode xs ys)

  pub emitted-append :
      (fs gs : List (CoalesceFlush T)) → emitted (fs ++ gs) ≡ emitted fs ++ emitted gs
  emitted-append [] gs = refl
  emitted-append (f ∷ fs) gs =
      cc (emitted-append fs gs, append_assoc (tag f.mode f.items) (emitted fs) (emitted gs))

  empty_of : (xs : List T) → (length xs == 0) ≡ true → xs ≡ []
  empty_of [] h = refl
  empty_of (x ∷ xs) h = ground arith

  pub take_keeps :
      (b : CoalesceBuffer T) → emitted (flush_list (take b).0) ++ waiting (take b).1 ≡ waiting b
  unfolding take
  take_keeps b = elim (Bool-cases (length b.pending == 0)) [
    | inl h ↦ rw h refl
    | inr h ↦ rw h (append-nil _ ∙ append-nil _)
  ]

  take_when_keeps :
      (c : Bool) (b : CoalesceBuffer T)
      → emitted (take_when c b).0 ++ waiting (take_when c b).1 ≡ waiting b
  take_when_keeps false b = refl
  take_when_keeps true b = take_keeps b

  take_when-IsValid : (c : Bool) (b : CoalesceBuffer T) → IsValid b → IsValid (take_when c b).1
  take_when-IsValid false b v = v
  take_when-IsValid true b v = take-IsValid b v

  take-mode : (b : CoalesceBuffer T) → IsValid b → (take b).1.mode ≡ none
  unfolding take
  take-mode b v = ground arith

  -- After the flush at a change of phase, what is pending has the new mode.
  take_when_matches :
      (mode : WaitFollowMode) (b : CoalesceBuffer T)
      → IsValid b
      → mode_differs (take_when (mode_differs b.mode mode) b).1.mode mode ≡ false
  unfolding take
  take_when_matches mode b v = elim (Bool-cases (mode_differs b.mode mode)) [
    | inl h ↦ rw (h, take-mode b v) refl
    | inr h ↦ rw h h
  ]

  -- The buffer between the append and the flush at the cap.
  record IsOpen (d : CoalesceBuffer T) : Type 0 where
    room : length d.pending ≤ coalesce_max_messages
    some_pending : 0 < length d.pending
    mode_known : is_some d.mode ≡ true
    window_known : is_some d.window_start ≡ true

  grow-IsOpen :
      (now : ℕ) (mode : WaitFollowMode) (item : T) (c : CoalesceBuffer T)
      → IsValid c
      → IsOpen (append_item item (open_window now mode c))
  grow-IsOpen now mode item c v = ground (arith, length-append c.pending (item ∷ []))

  grow_keeps :
      (now : ℕ) (mode : WaitFollowMode) (item : T) (c : CoalesceBuffer T)
      → IsValid c
      → mode_differs c.mode mode ≡ false
      → waiting (append_item item (open_window now mode c)) ≡ waiting c ++ ((mode, item) ∷ [])
  grow_keeps now mode item c v same = elim (Bool-cases (length c.pending == 0)) [
    | inl h ↦ rw (h, empty_of c.pending h) refl
    | inr h ↦
        rw (h, tag-append (mode_or_live c.mode) c.pending (item ∷ []))
          (ap (λ m. tag (mode_or_live c.mode) c.pending ++ ((m, item) ∷ []))
            (mode_or_live-eq c.mode mode (ground arith) same))
  ]

  IsOpen-IsValid :
      (d : CoalesceBuffer T)
      → IsOpen d
      → IsValid (take_when (leb coalesce_max_messages (length d.pending)) d).1
  unfolding take
  IsOpen-IsValid d o = ground arith

  pub push-IsValid :
      (now : ℕ) (mode : WaitFollowMode) (item : T) (b : CoalesceBuffer T)
      → IsValid b
      → IsValid (push now mode item b).1
  unfolding push
  push-IsValid now mode item b v =
      IsOpen-IsValid _
        (grow-IsOpen now mode item _ (take_when-IsValid (mode_differs b.mode mode) b v))

  pub push_keeps :
      (now : ℕ) (mode : WaitFollowMode) (item : T) (b : CoalesceBuffer T)
      → IsValid b
      → emitted (push now mode item b).0 ++ waiting (push now mode item b).1
        ≡ waiting b ++ ((mode, item) ∷ [])
  unfolding push
  push_keeps now mode item b v =
      let first = take_when (mode_differs b.mode mode) b in
      let grown = append_item item (open_window now mode first.1) in
      let second = take_when (leb coalesce_max_messages (length grown.pending)) grown in
      ap (λ l. l ++ waiting second.1) (emitted-append first.0 second.0)
      ∙ append_assoc (emitted first.0) (emitted second.0) (waiting second.1)
      ∙ ap (λ l. emitted first.0 ++ l) (take_when_keeps _ grown)
      ∙ ap (λ l. emitted first.0 ++ l)
          (grow_keeps now mode item first.1 (take_when-IsValid (mode_differs b.mode mode) b v)
            (take_when_matches mode b v))
      ∙ sym (append_assoc (emitted first.0) (waiting first.1) ((mode, item) ∷ []))
      ∙ ap (λ l. l ++ ((mode, item) ∷ [])) (take_when_keeps _ b)

  abbrev pub FitsOneEvent : CoalesceFlush T → Type 0
  FitsOneEvent f = (0 < length f.items) × (length f.items ≤ coalesce_max_messages)

  pub take_sizes : (b : CoalesceBuffer T) → IsValid b → All FitsOneEvent (flush_list (take b).0)
  unfolding take
  take_sizes b v = elim (Bool-cases (length b.pending == 0)) [
    | inl h ↦ rw h tt
    | inr h ↦ rw h (ground arith, tt)
  ]

  open_sizes : (c : Bool) (d : CoalesceBuffer T) → IsOpen d → All FitsOneEvent (take_when c d).0
  unfolding take
  open_sizes false d o = tt
  open_sizes true d o = elim (Bool-cases (length d.pending == 0)) [
    | inl h ↦ rw h tt
    | inr h ↦ rw h (ground arith, tt)
  ]

  first_sizes : (c : Bool) (b : CoalesceBuffer T) → IsValid b → All FitsOneEvent (take_when c b).0
  first_sizes false b v = tt
  first_sizes true b v = take_sizes b v

  pub push_sizes :
      (now : ℕ) (mode : WaitFollowMode) (item : T) (b : CoalesceBuffer T)
      → IsValid b
      → All FitsOneEvent (push now mode item b).0
  unfolding push
  push_sizes now mode item b v =
      All-append FitsOneEvent (take_when (mode_differs b.mode mode) b).0 _
        (first_sizes (mode_differs b.mode mode) b v)
        (open_sizes _ _
          (grow-IsOpen now mode item _ (take_when-IsValid (mode_differs b.mode mode) b v)))
