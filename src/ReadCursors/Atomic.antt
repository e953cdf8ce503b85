-- ===== src/ReadCursors/Atomic.antt =====
-- Each write of both read cursors of crates/chanvoy-daemon/src/waitprims_poll.rs is one change of what
-- a start of the daemon recovers.
use chanvoy.Base.{[], Option, none, some, ◌≡◌, refl, ap, subst, ◌⊎◌, inl, inr, Result, ok, err}
use chanvoy.Base.Actions.{◌>>◌}
use chanvoy.ReadCursors.{
  AttentionState, CombinedReadCursorTxn, CursorError, Daemon, Call, extend, persist,
  store_attention_state, persist_combined_txn, clear_combined_txn, load_combined_txn,
  materialize_canonical, publish, StagedPollAck,
}
use chanvoy.ReadCursors.Calls.{
  set_live, start, load_attention_state, load_persisted, apply_pending_txn_inner, apply_pending_txn,
  extended, commit_combined,
}
use chanvoy.ReadCursors.Triples.{Triple, Ends, bind_rule, bind_value, then_rule, gets_rule, weaken}
use chanvoy.ReadCursors.Redo.{
  Before, Before-again, Pair, Ready, Ready-Unmoved, Ready-again, Settled, Unmoved, apply_rule,
  pair_or, ready_rule, recovered, stored, write_rule,
}

-- What `commit_combined` writes over the pair that was recovered.
abbrev pub combined : StagedPollAck → (AttentionState → AttentionState) → Pair → Pair
combined staged build base = (build base.0, extend base.1 staged.anchors)

-- The daemon as the files are, while the system works.
abbrev pub working : Daemon → Daemon
working d = record d { answers = [] }

-- The ends of a call that writes a pair over another one: done, and settled; failed, with either
-- stored; and a start after either.
pub record Wrote (old new : Pair) (out : Result CursorError (Unit {0}) × Daemon) : Type 0 where
  pub done_settles : (u : Unit {0}) → out.0 ≡ ok u → Settled new out.1
  pub fault_leaves : (e : CursorError) → out.0 ≡ err e → (stored out.1 ≡ old) ⊎ (stored out.1 ≡ new)
  pub start_finds : Settled old (start (working out.1)).1 ⊎ Settled new (start (working out.1)).1

start_settles_found :
    (txn : Option CombinedReadCursorTxn) (d : Daemon)
    → Settled
        (pair_or txn (d.files.attention, d.files.poll))
        (start (record d { files = record d.files { txn = txn }; answers = [] })).1
unfolding start load_attention_state load_persisted apply_pending_txn apply_pending_txn_inner
    load_combined_txn materialize_canonical persist store_attention_state publish clear_combined_txn
start_settles_found none d = record { clear = refl; memory = refl; files = refl }
start_settles_found (some txn) d = record { clear = refl; memory = refl; files = refl }

pub start_settles : (d : Daemon) → Settled (stored d) (start (working d)).1
unfolding stored
start_settles d = start_settles_found d.files.txn d

module _ (staged : StagedPollAck) (build : AttentionState → AttentionState) (old base : Pair) where
  abbrev new : Pair
  new = combined staged build base

  abbrev Moved : Daemon → Type 0
  Moved d = (stored d ≡ old) ⊎ (stored d ≡ new)

  unmoved :
      {A : Type 0} {Pre : Daemon → Type 0} {Post : A → Daemon → Type 0} {m : Call A}
      → Triple Pre Post (Unmoved old base) m
      → Triple Pre Post Moved m
  unmoved t = weaken t (λ d p. p) (λ a d p. p) (λ d h. inl h)

  extended_rule :
      Triple
        (Ready old base)
        (λ map d. (map ≡ new.1) × Ready old base d)
        (Unmoved old base)
        (extended staged)
  extended_rule =
      then_rule {Mid = λ _. Ready old base}
        (ready_rule old base (Ready-Unmoved old base) (Ready-again old base))
        (gets_rule λ d r. (ap (λ (p : Pair). extend p.1 staged.anchors) r.reaches, r))

  written :
      (txn : CombinedReadCursorTxn)
      → (txn.attention, txn.poll) ≡ new
      → Triple
          (Ready old base)
          (λ _. Settled new)
          Moved
          (do
            persist_combined_txn txn
            materialize_canonical txn.attention txn.poll
            publish txn.poll
            set_live txn.attention
            clear_combined_txn)
  written txn e =
      weaken (write_rule old base txn) (λ d r. r) (λ _ d s. subst (λ p. Settled p d) e s)
        (λ d h. subst (λ p. (stored d ≡ old) ⊎ (stored d ≡ p)) e h)

  commit_combined_rule :
      Triple (Before old base) (λ _. Settled new) Moved (commit_combined staged build)
  unfolding commit_combined
  commit_combined_rule =
      then_rule {Mid = λ _. Before old base}
        (unmoved (ready_rule old base (λ d b. b.holds) (Before-again old base)))
        (bind_rule (unmoved (apply_rule old base)) λ _.
          bind_value {F = λ state. state ≡ new.0} {Mid = Ready old base}
            (gets_rule {f = λ d. build d.live} λ d r. (ap (λ (p : Pair). build p.0) r.reaches, r))
            λ state e.
              bind_value (unmoved extended_rule)
                λ map g. written (record { attention = state; poll = map }) (λ i. (e i, g i)))

Ends-Wrote :
    (old new : Pair) (out : Result CursorError (Unit {0}) × Daemon)
    → Ends (λ _. Settled new) (λ d. (stored d ≡ old) ⊎ (stored d ≡ new)) out
    → Wrote old new out
unfolding stored
Ends-Wrote old new (ok u, d) s = record {
  done_settles = λ _ _. s;
  fault_leaves = λ e h. absurd cc;
  start_finds =
      inr (subst (λ p. Settled p (start (working d)).1) (rw s.clear s.files) (start_settles d));
}
Ends-Wrote old new (err e, d) h = record {
  done_settles = λ u g. absurd cc;
  fault_leaves = λ _ _. h;
  start_finds = elim h [
    | inl o ↦ inl (subst (λ p. Settled p (start (working d)).1) o (start_settles d))
    | inr n ↦ inr (subst (λ p. Settled p (start (working d)).1) n (start_settles d))
  ];
}

-- For any staged acknowledgement, change of the attention state and answers of the system: when
-- `commit_combined` succeeds, no redo is pending and the memory and the files hold both changes of
-- what the daemon recovers; when it fails, the files recover either what they did before, or both
-- changes; and after each, a start while the system works settles on one of the two.
pub commit_combined_atomic :
    (staged : StagedPollAck) (build : AttentionState → AttentionState) (d : Daemon)
    → Wrote (stored d) (combined staged build (recovered d)) (commit_combined staged build d)
commit_combined_atomic staged build d = Ends-Wrote _ _ _ (
    (commit_combined_rule staged build (stored d) (recovered d)).run d
      (record { holds = refl; reaches = refl }))
