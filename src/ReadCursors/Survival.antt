-- ===== src/ReadCursors/Survival.antt =====
-- An acknowledged read, over the later calls on the read cursors of crates/chanvoy-daemon/src/lib.rs
-- and waitprims_poll.rs, and over every failure and restart.
use chanvoy.Base.{
  List, [], ◌∷◌, Option, none, some, Result, ok, err, Bool, true, false, is_some, ◌≡◌, ◌≢◌, refl,
  sym, ap, subst, ◌∙◌, arith, All,
}
use chanvoy.Base.Int.{ℤ}
use chanvoy.Base.Maps.{insert, lookup, lookup-insert, Unique}
use chanvoy.Base.Texts.{Text, text_eq, text_beq_iff}
use chanvoy.Runtime.Storage.{is_yes, is_yes_iff}
use chanvoy.ReadCursors.{
  ChannelCursorState, AttentionState, Anchors, StagedPollAck, Answer, CursorError, Daemon, Call,
  extend, get,
}
use chanvoy.ReadCursors.Calls.{
  StagedAttentionAdvance, attention_candidate, commit_combined, commit_staged_read_cursors,
  record_channel_cursor, record_notifications_cursor, record_channel_cursor_if_absent,
  record_staleness_verdict, seed_unless, migrate_if, publish_attention_migration_if_unchanged,
  AttentionState-discrete, judge_if, with_verdict, persist_then_publish_attention,
}
use chanvoy.ReadCursors.Keeps.{
  Kept, OnTxn, Keeps, Any, bind-Keeps, then-Keeps, again, apply-Keeps, commit-Keeps,
  commit_combined-Keeps, write-Keeps, start-Keeps,
}
use chanvoy.ReadCursors.Triples.{Ends, pure_rule, gets_rule}
use chanvoy.ReadCursors.Redo.{Settled, recovered}
use chanvoy.ReadCursors.Atomic.{commit_combined_atomic}
use chanvoy.ReadCursors.Events.{
  Event, OtherKeys, event, events, judged, last_seen, migrated, notifications_recorded, read_acked,
  channel_recorded, seeded, started,
}

lookup-extend_other :
    (reg : Text) (map more : Anchors)
    → lookup reg more ≡ none
    → lookup reg (extend map more) ≡ lookup reg map
unfolding extend lookup
lookup-extend_other reg map [] h = refl
lookup-extend_other reg map ((k, v) ∷ more) h = ground (
  arith,
  text_beq_iff k reg,
  lookup-insert k reg v map,
  lookup-extend_other reg (insert k v map) more,
)

module _ (reg v key post : Text) where
  abbrev Anchored : Anchors → Type 0
  Anchored map = lookup reg map ≡ some v

  abbrev Seen : AttentionState → Type 0
  Seen state = last_seen key state ≡ some post

  Anchored-extend :
      (ack : StagedPollAck)
      → lookup reg ack.anchors ≡ none
      → (map : Anchors) → Anchored map
      → Anchored (extend map ack.anchors)
  Anchored-extend ack h map p = lookup-extend_other reg map ack.anchors h ∙ p

  Seen-insert_other :
      (advance : StagedAttentionAdvance)
      → advance.key ≢ key
      → (state : AttentionState) → Seen state
      → Seen (record state { channels = insert advance.key advance.cursor state.channels })
  unfolding last_seen
  Seen-insert_other advance ne state q = ground (
    arith,
    text_beq_iff advance.key key,
    lookup-insert advance.key key advance.cursor state.channels,
  )

  Seen-verdict_found :
      (other : Text) (stale : Bool) (checked_at : ℤ) (state : AttentionState)
      (found : Option ChannelCursorState)
      → lookup other state.channels ≡ found
      → Seen state
      → Seen (with_verdict other stale checked_at found state)
  unfolding last_seen
  Seen-verdict_found other stale checked_at state none h q = q
  Seen-verdict_found other stale checked_at state (some cursor) h q = ground (
    arith,
    text_beq_iff other key,
    lookup-insert other key
        (record cursor { last_known_stale = stale; last_checked_at = some checked_at })
        state.channels,
  )

  known_key :
      (fresh : StagedAttentionAdvance) (state : AttentionState)
      → Seen state
      → is_some (lookup fresh.key state.channels) ≡ false
      → fresh.key ≢ key
  unfolding last_seen
  known_key fresh state q h = ground arith

  seed-Keeps :
      (known : Bool) (fresh : StagedAttentionAdvance)
      → (known ≡ false → fresh.key ≢ key)
      → Keeps Anchored Seen (Any Anchored Seen) (seed_unless known fresh)
  seed-Keeps true fresh h = pure_rule λ d k. (tt, k)
  seed-Keeps false fresh h =
      then-Keeps Anchored Seen (write-Keeps Anchored Seen _ (Seen-insert_other fresh (h refl)))
        (pure_rule λ d k. (tt, k))

  judge-Keeps :
      (known : Bool) (other : Text) (stale : Bool) (checked_at : ℤ)
      → Keeps Anchored Seen (Any Anchored Seen) (judge_if known other stale checked_at)
  judge-Keeps false other stale checked_at = pure_rule λ d k. (tt, k)
  judge-Keeps true other stale checked_at =
      write-Keeps Anchored Seen _ (λ state. Seen-verdict_found other stale checked_at state _ refl)

  migrate-Keeps :
      (same : Bool) (next : AttentionState)
      → (same ≡ true → Seen next)
      → Keeps Anchored Seen (Any Anchored Seen) (migrate_if same next)
  migrate-Keeps false next h = pure_rule λ d k. (tt, k)
  migrate-Keeps true next h =
      then-Keeps Anchored Seen (write-Keeps Anchored Seen (λ _. next) (λ _ _. h refl))
        (pure_rule λ d k. (tt, k))

  read_acked-Keeps :
      (poll : Option StagedPollAck) (attention : Option StagedAttentionAdvance)
      → OtherKeys reg key (read_acked poll attention)
      → Keeps Anchored Seen (Any Anchored Seen) (commit_staged_read_cursors poll attention)
  unfolding commit_staged_read_cursors persist_then_publish_attention attention_candidate
  read_acked-Keeps none none h = pure_rule λ d k. (tt, k)
  read_acked-Keeps (some ack) none h = commit-Keeps Anchored Seen ack (Anchored-extend ack h)
  read_acked-Keeps none (some advance) h =
      bind-Keeps Anchored Seen (apply-Keeps Anchored Seen)
        λ _ _. write-Keeps Anchored Seen _ (Seen-insert_other advance h)
  read_acked-Keeps (some ack) (some advance) h =
      commit_combined-Keeps Anchored Seen ack _ (Anchored-extend ack h.0)
        (Seen-insert_other advance h.1)

  Keeps-state :
      {A : Type 0} {m : Call A}
      → Keeps Anchored Seen (Any Anchored Seen) m
      → (d : Daemon) → Kept Anchored Seen d
      → Kept Anchored Seen (m d).1
  Keeps-state {m} h d k = by_end (m d) (h.run d k)
    where
      by_end :
          {A : Type 0} (out : Result CursorError A × Daemon)
          → Ends (λ a d. Unit {0} × Kept Anchored Seen d) (Kept Anchored Seen) out
          → Kept Anchored Seen out.1
      by_end (ok a, d) e = e.1
      by_end (err e, d) f = f

  event-Keeps :
      (e : Event)
      → OtherKeys reg key e
      → (d : Daemon) → Kept Anchored Seen d
      → Kept Anchored Seen (event e d)
  unfolding event record_channel_cursor record_notifications_cursor record_channel_cursor_if_absent
      record_staleness_verdict last_seen publish_attention_migration_if_unchanged
  event-Keeps (read_acked poll attention) h = Keeps-state (read_acked-Keeps poll attention h)
  event-Keeps (channel_recorded fresh) h = Keeps-state (
      bind-Keeps Anchored Seen (apply-Keeps Anchored Seen)
        λ _ _. write-Keeps Anchored Seen _ (Seen-insert_other fresh h))
  event-Keeps (seeded fresh) h = Keeps-state (
      bind-Keeps Anchored Seen (apply-Keeps Anchored Seen) λ _ _.
        bind-Keeps Anchored Seen {R = λ known. known ≡ false → fresh.key ≢ key}
          (gets_rule λ d k. (known_key fresh d.live k.live, k)) λ known g. seed-Keeps known fresh g)
  event-Keeps (notifications_recorded mentions) h = Keeps-state (
      bind-Keeps Anchored Seen (apply-Keeps Anchored Seen) λ _ _.
        write-Keeps Anchored Seen (λ current. record current { mentions = mentions })
          (λ state q. q))
  event-Keeps (judged other stale checked_at) h = Keeps-state (
      bind-Keeps Anchored Seen (apply-Keeps Anchored Seen) λ _ _.
        bind-Keeps Anchored Seen {R = Any Anchored Seen} (gets_rule λ d k. (tt, k))
          λ known _. judge-Keeps known other stale checked_at)
  event-Keeps (migrated snapshot next) h = Keeps-state (
      bind-Keeps Anchored Seen {R = λ same. same ≡ true → Seen next}
        (gets_rule {f = λ d. is_yes (AttentionState-discrete d.live snapshot)} λ d k. (
          λ same.
              h
              ∙ ap (last_seen key)
                  (sym ((is_yes_iff (AttentionState-discrete d.live snapshot)).0 same))
              ∙ k.live,
          k,
        ))
        λ same g. migrate-Keeps same next g)
  event-Keeps started h = Keeps-state (start-Keeps Anchored Seen)

  pub events_keep :
      (es : List (Event × List Answer)) (d : Daemon)
      → All (λ (e : Event × List Answer). OtherKeys reg key e.0) es
      → Kept Anchored Seen d
      → Kept Anchored Seen (events es d)
  unfolding events
  events_keep [] d h k = k
  events_keep ((e, answers) ∷ more) d h k =
      events_keep more _ h.1 (event-Keeps e h.0 _ (again Anchored Seen k))

  Settled-Kept :
      (state : AttentionState) (map : Anchors) (d : Daemon)
      → Anchored map
      → Seen state
      → Settled (state, map) d
      → Kept Anchored Seen d
  Settled-Kept state map d p q s = record {
    inner = subst Anchored (sym (ap (λ (p : AttentionState × Anchors). p.1) s.memory)) p;
    live = subst Seen (sym (ap (λ (p : AttentionState × Anchors). p.0) s.memory)) q;
    poll = subst Anchored (sym (ap (λ (p : AttentionState × Anchors). p.1) s.files)) p;
    attention = subst Seen (sym (ap (λ (p : AttentionState × Anchors). p.0) s.files)) q;
    txn = subst (OnTxn Anchored Seen) (sym s.clear) tt;
  }

lookup-extend_staged :
    (reg v : Text) (map more : Anchors)
    → Unique more
    → lookup reg more ≡ some v
    → lookup reg (extend map more) ≡ some v
unfolding extend lookup
lookup-extend_staged reg v map [] u h = cc
lookup-extend_staged reg v map ((k, w) ∷ more) u h = ground (
  arith,
  text_beq_iff k reg,
  lookup-insert k reg w map,
  lookup-extend_other reg (insert k w map) more,
  lookup-extend_staged reg v (insert k w map) more u.1,
)

last_seen_advance :
    (advance : StagedAttentionAdvance) (state : AttentionState)
    → last_seen advance.key (attention_candidate state advance) ≡ advance.cursor.last_seen_post_id
unfolding last_seen attention_candidate
last_seen_advance advance state = ground (
  arith,
  text_beq_iff advance.key advance.key,
  lookup-insert advance.key advance.key advance.cursor state.channels,
)

-- When the daemon has acknowledged a read that stages an anchor for a registration and a seen post
-- for a channel, then after any later calls and starts, with any answers of the system, that stage
-- nothing for that registration and no other
-- cursor for that channel, the store still gives the
-- anchor and the attention state the post.
pub acknowledged_read_survives :
    (ack : StagedPollAck) (advance : StagedAttentionAdvance) (reg v post : Text) (d : Daemon)
    (es : List (Event × List Answer))
    → Unique ack.anchors
    → lookup reg ack.anchors ≡ some v
    → advance.cursor.last_seen_post_id ≡ some post
    → (commit_staged_read_cursors (some ack) (some advance) d).0 ≡ ok tt
    → All (λ (e : Event × List Answer). OtherKeys reg advance.key e.0) es
    → (get (events es (commit_staged_read_cursors (some ack) (some advance) d).1) reg ≡ some v)
      × (last_seen advance.key
            (events es (commit_staged_read_cursors (some ack) (some advance) d).1).live
          ≡ some post)
unfolding commit_staged_read_cursors get
acknowledged_read_survives ack advance reg v post d es u h seen acked others =
    (kept.inner, kept.live)
  where
    base : AttentionState × Anchors
    base = recovered d

    build : AttentionState → AttentionState
    build current = attention_candidate current advance

    kept :
        Kept
          (Anchored reg v advance.key post)
          (Seen reg v advance.key post)
          (events es (commit_combined ack build d).1)
    kept = events_keep reg v advance.key post es _ others (
        Settled-Kept reg v advance.key post (build base.0) (extend base.1 ack.anchors) _
          (lookup-extend_staged reg v base.1 ack.anchors u h)
          (last_seen_advance advance base.0 ∙ seen)
          ((commit_combined_atomic ack build d).done_settles tt acked))
