-- ===== src/Examples/ReadCursors.antt =====
-- A daemon that acknowledges a read of one channel, fails in the middle of another, and starts again.
use chanvoy.Base.{List, [], ◌∷◌, none, some, true, false, ◌≡◌, ◌≢◌, refl}
use chanvoy.Base.Int.{pos}
use chanvoy.Base.Maps.{lookup}
use chanvoy.Base.Texts.{Text, lit, text_beq, text_beq_iff}
use chanvoy.ReadCursors.{
  AttentionState, StagedPollAck, Answer, done, refused, uncertain, Daemon, load_combined_txn,
  persist_combined_txn, materialize_canonical, persist, store_attention_state, publish,
  clear_combined_txn, get,
}
use chanvoy.ReadCursors.Calls.{
  StagedAttentionAdvance, attention_candidate, apply_pending_txn_inner, commit_combined,
  commit_staged_read_cursors,
}
use chanvoy.ReadCursors.Redo.{stored, recovered}
use chanvoy.ReadCursors.Atomic.{Wrote, combined, commit_combined_atomic}
use chanvoy.ReadCursors.Events.{
  Event, read_acked, seeded, judged, migrated, started, events, last_seen,
}
use chanvoy.ReadCursors.Survival.{acknowledged_read_survives}

abbrev blank : AttentionState
blank = record {
  channels = [];
  mentions = record { last_seen_post_id = none; updated_at = none };
  quarantined = [];
}

abbrev fresh_daemon : Daemon
fresh_daemon = record {
  inner = [];
  live = blank;
  files = record { poll = []; attention = blank; txn = none };
  answers = [];
}

abbrev advance_of : Text → Text → StagedAttentionAdvance
advance_of key post = record {
  key = key;
  cursor = record {
    last_seen_post_id = some post;
    updated_at = some (pos 7);
    last_known_stale = false;
    last_checked_at = none;
    channel_id = lit "c";
    team_id = lit "t";
    team_name = lit "team";
    channel_name = key;
  };
}

abbrev ack_of : Text → Text → StagedPollAck
ack_of reg anchor = record { anchors = (reg, anchor) ∷ [] }

-- The poll file is written, and the attention file is not.
abbrev half_written : List Answer
half_written = done ∷ done ∷ done ∷ done ∷ done ∷ refused ∷ []

abbrev later : List (Event × List Answer)
later =
    (
      read_acked (some (ack_of (lit "reg:b") (lit "p2"))) (some (advance_of (lit "b") (lit "p2"))),
      half_written,
    )
    ∷ (seeded (advance_of (lit "a") (lit "p0")), uncertain ∷ [])
    ∷ (started, [])
    ∷ (migrated blank blank, [])
    ∷ (judged (lit "a") true (pos 9), [])
    ∷ []

half_written_is_redone :
    recovered
      (commit_combined
        (ack_of (lit "reg:b") (lit "p2"))
        (λ current. attention_candidate current (advance_of (lit "b") (lit "p2")))
        (record fresh_daemon { answers = half_written })).1
    ≡ combined
        (ack_of (lit "reg:b") (lit "p2"))
        (λ current. attention_candidate current (advance_of (lit "b") (lit "p2")))
        (blank, [])
unfolding commit_combined attention_candidate recovered apply_pending_txn_inner load_combined_txn
    persist_combined_txn materialize_canonical persist store_attention_state
half_written_is_redone = refl

commit_combined_atomic_example :
    Wrote
      (stored (record fresh_daemon { answers = half_written }))
      (combined
        (ack_of (lit "reg:b") (lit "p2"))
        (λ current. attention_candidate current (advance_of (lit "b") (lit "p2")))
        (recovered (record fresh_daemon { answers = half_written })))
      (commit_combined
        (ack_of (lit "reg:b") (lit "p2"))
        (λ current. attention_candidate current (advance_of (lit "b") (lit "p2")))
        (record fresh_daemon { answers = half_written }))
commit_combined_atomic_example =
    commit_combined_atomic (ack_of (lit "reg:b") (lit "p2"))
      (λ current. attention_candidate current (advance_of (lit "b") (lit "p2")))
      (record fresh_daemon { answers = half_written })

abbrev acked : Daemon
acked =
    (commit_staged_read_cursors (some (ack_of (lit "reg:a") (lit "p1")))
      (some (advance_of (lit "a") (lit "p1"))) fresh_daemon).1

keys_differ : lit "b" ≢ lit "a"
unfolding text_beq
keys_differ e = let same : false ≡ true = (text_beq_iff (lit "b") (lit "a")).1 e in cc

acknowledged_read_survives_example :
    (get (events later acked) (lit "reg:a") ≡ some (lit "p1"))
    × (last_seen (lit "a") (events later acked).live ≡ some (lit "p1"))
unfolding commit_staged_read_cursors commit_combined lookup text_beq apply_pending_txn_inner
    load_combined_txn persist_combined_txn materialize_canonical persist store_attention_state
    publish clear_combined_txn
acknowledged_read_survives_example =
    acknowledged_read_survives (ack_of (lit "reg:a") (lit "p1")) (advance_of (lit "a") (lit "p1"))
      (lit "reg:a") (lit "p1") (lit "p1") fresh_daemon later (refl, tt) refl refl refl
      ((refl, keys_differ), (tt, (tt, (refl, (tt, tt)))))
