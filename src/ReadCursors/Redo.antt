-- ===== src/ReadCursors/Redo.antt =====
-- The redo record of crates/chanvoy-daemon/src/waitprims_poll.rs: what a pending one, and the write of
-- one, leave in the files and in memory.
use chanvoy.Base.{List, Option, none, some, ◌≡◌, refl, sym, subst, ◌∙◌, ◌⊎◌, inl, inr}
use chanvoy.Base.Actions.{◌>>◌}
use chanvoy.ReadCursors.{
  AttentionState, Anchors, CombinedReadCursorTxn, CursorError, Answer, Daemon, ready, persist,
  store_attention_state, persist_combined_txn, clear_combined_txn, load_combined_txn,
  materialize_canonical, publish,
}
use chanvoy.ReadCursors.Calls.{set_live, apply_found, apply_pending_txn_inner}
use chanvoy.ReadCursors.Triples.{
  Triple, bind_rule, then_rule, pure_rule, gets_rule, modify_rule, access_rule, weaken,
}

abbrev pub Pair : Type 0
Pair = AttentionState × Anchors

abbrev pub pair_or : Option CombinedReadCursorTxn → Pair → Pair
pair_or none p = p
pair_or (some txn) p = (txn.attention, txn.poll)

pair_at :
    {found txn : Option CombinedReadCursorTxn} (p : Pair) {q : Pair}
    → found ≡ txn
    → pair_or found p ≡ q
    → pair_or txn p ≡ q
pair_at p {q} e h = subst (λ t. pair_or t p ≡ q) e h

-- What a start recovers from the files, and what a running daemon recovers before a write.
unfoldable pub stored : Daemon → Pair
stored d = pair_or d.files.txn (d.files.attention, d.files.poll)

unfoldable pub recovered : Daemon → Pair
recovered d = pair_or d.files.txn (d.live, d.inner)

-- No redo is pending, and the memory and the files hold the pair.
pub record Settled (p : Pair) (d : Daemon) : Type 0 where
  pub clear : d.files.txn ≡ none
  pub memory : (d.live, d.inner) ≡ p
  pub files : (d.files.attention, d.files.poll) ≡ p

module _ (txn : CombinedReadCursorTxn) where
  abbrev Pending : Daemon → Type 0
  Pending d = d.files.txn ≡ some txn

  abbrev Stays : Daemon → Type 0
  Stays d = stored d ≡ (txn.attention, txn.poll)

  -- The files hold both parts of the pending redo.
  record Redone (L : AttentionState → Type 0) (I : Anchors → Type 0) (d : Daemon) : Type 0 where
    pending : d.files.txn ≡ some txn
    attention : d.files.attention ≡ txn.attention
    poll : d.files.poll ≡ txn.poll
    live : L d.live
    inner : I d.inner

  materialize_rule :
      {L : AttentionState → Type 0} {I : Anchors → Type 0}
      → Triple
          (λ d. Pending d × (L d.live × I d.inner))
          (λ _. Redone L I)
          Stays
          (materialize_canonical txn.attention txn.poll)
  unfolding materialize_canonical persist store_attention_state stored
  materialize_rule {L} {I} =
      then_rule {Mid = λ _ d. (Pending d × (d.files.poll ≡ txn.poll)) × (L d.live × I d.inner)}
        (access_rule λ d a p. (((p.0, refl), p.1), (rw p.0 refl, rw p.0 refl)))
        (access_rule λ d a p. (
          record { pending = p.0.0; attention = refl; poll = p.0.1; live = p.1.0; inner = p.1.1 },
          (rw p.0.0 refl, rw p.0.0 refl),
        ))

  publish_rule :
      {L : AttentionState → Type 0} {I : Anchors → Type 0}
      → Triple (Redone L I) (λ _. Redone L (λ i. i ≡ txn.poll)) Stays (publish txn.poll)
  unfolding publish stored
  publish_rule {L} {I} =
      then_rule {Mid = λ _. Redone L I}
        (access_rule λ d a p. (again d a p, (rw p.pending refl, rw p.pending refl)))
        (modify_rule λ d p. record {
          pending = p.pending;
          attention = p.attention;
          poll = p.poll;
          live = p.live;
          inner = refl;
        })
    where
      again : (d : Daemon) (a : List Answer) → Redone L I d → Redone L I (record d { answers = a })
      again d a p = record {
        pending = p.pending;
        attention = p.attention;
        poll = p.poll;
        live = p.live;
        inner = p.inner;
      }

  set_live_rule :
      {L : AttentionState → Type 0} {I : Anchors → Type 0}
      → Triple (Redone L I) (λ _. Redone (λ l. l ≡ txn.attention) I) Stays (set_live txn.attention)
  set_live_rule = modify_rule λ d p. record {
    pending = p.pending;
    attention = p.attention;
    poll = p.poll;
    live = refl;
    inner = p.inner;
  }

  clear_rule :
      Triple
        (Redone (λ l. l ≡ txn.attention) (λ i. i ≡ txn.poll))
        (λ _. Settled (txn.attention, txn.poll))
        Stays
        clear_combined_txn
  unfolding clear_combined_txn stored
  clear_rule =
      access_rule
        λ d a p. (record { clear = refl; memory = cc; files = cc }, (rw p.pending refl, cc))

module _ (old base : Pair) where
  -- The files recover one pair, and the daemon another one.
  pub record Before (d : Daemon) : Type 0 where
    pub holds : stored d ≡ old
    pub reaches : recovered d ≡ base

  -- Nothing is pending; the files and the memory hold the pairs.
  pub record Ready (d : Daemon) : Type 0 where
    pub clear : d.files.txn ≡ none
    pub holds : (d.files.attention, d.files.poll) ≡ old
    pub reaches : (d.live, d.inner) ≡ base

  abbrev pub Unmoved : Daemon → Type 0
  Unmoved d = stored d ≡ old

  pub ready_rule :
      {Pre : Daemon → Type 0} {e : CursorError}
      → ((d : Daemon) → Pre d → Unmoved d)
      → ((d : Daemon) (a : List Answer) → Pre d → Pre (record d { answers = a }))
      → Triple Pre (λ _. Pre) Unmoved (ready e)
  unfolding stored
  ready_rule h again = access_rule λ d a p. (again d a p, (h d p, h d p))

  pub Before-again : (d : Daemon) (a : List Answer) → Before d → Before (record d { answers = a })
  unfolding stored recovered
  Before-again d a b = record { holds = b.holds; reaches = b.reaches }

  pub Ready-again : (d : Daemon) (a : List Answer) → Ready d → Ready (record d { answers = a })
  Ready-again d a b = record { clear = b.clear; holds = b.holds; reaches = b.reaches }

  pub Ready-Unmoved : (d : Daemon) → Ready d → Unmoved d
  unfolding stored
  Ready-Unmoved d r = rw r.clear r.holds

  load_rule : Triple Before (λ txn d. Before d × (d.files.txn ≡ txn)) Unmoved load_combined_txn
  unfolding load_combined_txn
  load_rule =
      then_rule {Mid = λ _. Before} (ready_rule (λ d b. b.holds) Before-again)
        (gets_rule λ d b. (b, refl))

  redo_rule :
      (txn : CombinedReadCursorTxn)
      → old ≡ (txn.attention, txn.poll)
      → base ≡ (txn.attention, txn.poll)
      → Triple (λ d. d.files.txn ≡ some txn) (λ _. Ready) Unmoved (apply_found (some txn))
  redo_rule txn o b =
      weaken {Post = λ _. Settled (txn.attention, txn.poll)}
        (then_rule (materialize_rule txn {L = λ _. Unit {0}} {I = λ _. Unit {0}}) (
          then_rule (set_live_rule txn)
            (then_rule (publish_rule txn) (then_rule (clear_rule txn) (pure_rule λ d s. s)))))
        (λ d p. (p, (tt, tt)))
        (λ _ d s. record { clear = s.clear; holds = s.files ∙ sym o; reaches = s.memory ∙ sym b })
        (λ d s. s ∙ sym o)

  found_rule :
      (txn : Option CombinedReadCursorTxn)
      → Triple (λ d. Before d × (d.files.txn ≡ txn)) (λ _. Ready) Unmoved (apply_found txn)
  unfolding stored recovered
  found_rule none = pure_rule λ d p. record {
    clear = p.1;
    holds = pair_at _ p.1 p.0.holds;
    reaches = pair_at _ p.1 p.0.reaches;
  }
  found_rule (some txn) = record {
    run = λ d p.
        (redo_rule txn (sym (pair_at _ p.1 p.0.holds)) (sym (pair_at _ p.1 p.0.reaches))).run d p.1;
  }

  pub apply_rule : Triple Before (λ _. Ready) Unmoved apply_pending_txn_inner
  unfolding apply_pending_txn_inner
  apply_rule = bind_rule load_rule found_rule

  -- The write that starts once nothing is pending.
  pub write_rule :
      (txn : CombinedReadCursorTxn)
      → Triple Ready
          (λ _. Settled (txn.attention, txn.poll))
          (λ d. (stored d ≡ old) ⊎ (stored d ≡ (txn.attention, txn.poll)))
          (do
            persist_combined_txn txn
            materialize_canonical txn.attention txn.poll
            publish txn.poll
            set_live txn.attention
            clear_combined_txn)
  unfolding persist_combined_txn stored
  write_rule txn =
      then_rule {Mid = λ _ d. (d.files.txn ≡ some txn) × (Unit {0} × Unit {0})}
        (access_rule λ d a r. ((refl, (tt, tt)), (inl (rw r.clear r.holds), inr refl)))
        (weaken {Err = λ d. stored d ≡ (txn.attention, txn.poll)}
          (then_rule (materialize_rule txn {L = λ _. Unit {0}} {I = λ _. Unit {0}})
            (then_rule (publish_rule txn) (then_rule (set_live_rule txn) (clear_rule txn))))
          (λ d p. p) (λ _ d s. s) (λ d s. inr s))
