-- ===== src/ReadCursors/Calls.antt =====
-- The calls on the read cursors: `PollCursorStore` of crates/chanvoy-daemon/src/waitprims_poll.rs,
-- and the functions of crates/chanvoy-daemon/src/lib.rs that write `attention_state`, each from where
-- it takes the lock. What they resolve before and the clock are arguments.
use native.Mathlib.Decide.{ℕ_discrete}
use chanvoy.Runtime.Storage.{is_yes}
use chanvoy.Base.{Option, none, some, Bool, true, false, is_some}
use chanvoy.Base.Actions.{◌>>=◌, ◌>>◌, pure, gets, modify}
use chanvoy.Base.Int.{ℤ}
use chanvoy.Base.Maps.{insert, lookup}
use chanvoy.Base.Texts.{Text, text_eq}
use chanvoy.ReadCursors.{
  ChannelCursorState, MentionCursorState, AttentionState, Anchors, StagedPollAck,
  CombinedReadCursorTxn, Call, ready, extend, persist, store_attention_state, persist_combined_txn,
  clear_combined_txn, load_combined_txn, materialize_canonical, publish, persist_lock,
  cursor_store_lock, cursor_read, attention_read,
}

abbrev pub set_live : AttentionState → Call (Unit {0})
set_live attention = modify (λ d. record d { live = attention })

abbrev pub apply_found : Option CombinedReadCursorTxn → Call Bool
apply_found none = pure false
apply_found (some txn) = do
  materialize_canonical txn.attention txn.poll
  set_live txn.attention
  publish txn.poll
  clear_combined_txn
  pure true

unfoldable pub apply_pending_txn_inner : Call Bool
apply_pending_txn_inner = do txn ← load_combined_txn; apply_found txn

unfoldable pub apply_pending_txn : Call Bool
apply_pending_txn = do ready persist_lock; apply_pending_txn_inner

-- The map of the store, extended by what is staged.
abbrev pub extended : StagedPollAck → Call Anchors
extended staged = do ready cursor_store_lock; gets (λ d. extend d.inner staged.anchors)

unfoldable pub commit : StagedPollAck → Call (Unit {0})
commit staged = do
  ready persist_lock
  applied ← apply_pending_txn_inner
  candidate ← extended staged
  persist candidate
  publish candidate

unfoldable pub commit_combined : StagedPollAck → (AttentionState → AttentionState) → Call (Unit {0})
commit_combined staged build_candidate = do
  ready persist_lock
  applied ← apply_pending_txn_inner
  candidate ← gets (λ d. build_candidate d.live)
  poll ← extended staged
  persist_combined_txn (record { attention = candidate; poll = poll })
  materialize_canonical candidate poll
  publish poll
  set_live candidate
  clear_combined_txn

-- A stored channel cursor under its qualified key.
pub record StagedAttentionAdvance : Type 0 where
  pub key : Text
  pub cursor : ChannelCursorState

unfoldable pub attention_candidate : AttentionState → StagedAttentionAdvance → AttentionState
attention_candidate current staged = record current {
  channels = insert staged.key staged.cursor current.channels;
}

unfoldable pub persist_then_publish_attention_state :
    (AttentionState → AttentionState) → Call (Unit {0})
persist_then_publish_attention_state build = do
  candidate ← gets (λ d. build d.live)
  store_attention_state candidate
  set_live candidate

unfoldable pub persist_then_publish_attention : StagedAttentionAdvance → Call (Unit {0})
persist_then_publish_attention staged =
    persist_then_publish_attention_state (λ current. attention_candidate current staged)

unfoldable pub commit_staged_read_cursors :
    Option StagedPollAck → Option StagedAttentionAdvance → Call (Unit {0})
commit_staged_read_cursors none none = pure tt
commit_staged_read_cursors (some ack) none = commit ack
commit_staged_read_cursors none (some advance) = do
  applied ← apply_pending_txn
  persist_then_publish_attention advance
commit_staged_read_cursors (some ack) (some advance) =
    commit_combined ack (λ current. attention_candidate current advance)

-- `record_channel_cursor`, for the cursor it makes once the channel is resolved.
unfoldable pub record_channel_cursor : StagedAttentionAdvance → Call (Unit {0})
record_channel_cursor fresh = do
  applied ← apply_pending_txn
  persist_then_publish_attention_state
      (λ current. record current { channels = insert fresh.key fresh.cursor current.channels })

unfoldable pub record_notifications_cursor : MentionCursorState → Call (Unit {0})
record_notifications_cursor mentions = do
  applied ← apply_pending_txn
  persist_then_publish_attention_state (λ current. record current { mentions = mentions })

abbrev pub seed_unless : Bool → StagedAttentionAdvance → Call Bool
seed_unless true fresh = pure false
seed_unless false fresh = do
  persist_then_publish_attention_state
      (λ current. record current { channels = insert fresh.key fresh.cursor current.channels })
  pure true

unfoldable pub record_channel_cursor_if_absent : StagedAttentionAdvance → Call Bool
record_channel_cursor_if_absent fresh = do
  applied ← apply_pending_txn
  known ← gets (λ d. is_some (lookup fresh.key d.live.channels))
  seed_unless known fresh

-- `channels.get_mut(key)`, where there is one.
abbrev pub with_verdict :
    Text → Bool → ℤ → Option ChannelCursorState → AttentionState → AttentionState
with_verdict key stale checked_at none current = current
with_verdict key stale checked_at (some cursor) current = record current {
  channels =
      insert key (record cursor { last_known_stale = stale; last_checked_at = some checked_at })
        current.channels;
}

abbrev pub judge_if : Bool → Text → Bool → ℤ → Call (Unit {0})
judge_if false key stale checked_at = pure tt
judge_if true key stale checked_at =
    persist_then_publish_attention_state
      (λ current. with_verdict key stale checked_at (lookup key current.channels) current)

-- Its errors are logged by the source, and dropped.
unfoldable pub record_staleness_verdict : Text → Bool → ℤ → Call (Unit {0})
record_staleness_verdict key stale checked_at = do
  applied ← apply_pending_txn
  known ← gets (λ d. is_some (lookup key d.live.channels))
  judge_if known key stale checked_at

unfoldable pub AttentionState-discrete : Discrete AttentionState
AttentionState-discrete = hlevel ℕ_discrete

abbrev pub migrate_if : Bool → AttentionState → Call Bool
migrate_if false migrated = pure false
migrate_if true migrated = do persist_then_publish_attention_state (λ _. migrated); pure true

-- The migration is worked out from a snapshot, without the lock.
unfoldable pub publish_attention_migration_if_unchanged :
    AttentionState → AttentionState → Call Bool
publish_attention_migration_if_unchanged snapshot migrated = do
  same ← gets (λ d. is_yes (AttentionState-discrete d.live snapshot))
  migrate_if same migrated

unfoldable pub load_attention_state : Call AttentionState
load_attention_state = do ready attention_read; gets (λ d. d.files.attention)

unfoldable pub load_persisted : Call Anchors
load_persisted = do ready cursor_read; gets (λ d. d.files.poll)

abbrev pub set_inner : Anchors → Call (Unit {0})
set_inner map = modify (λ d. record d { inner = map })

-- The read of both files as the daemon starts, then the recovery.
unfoldable pub start : Call Bool
start = do
  attention ← load_attention_state
  map ← load_persisted
  set_live attention
  set_inner map
  apply_pending_txn
