-- ===== src/ReadCursors/Events.antt =====
-- The calls on the read cursors of crates/chanvoy-daemon/src/lib.rs and waitprims_poll.rs, as events.
use chanvoy.Base.{List, [], ◌∷◌, Option, none, some, Bool, ◌≡◌, ◌≢◌}
use chanvoy.Base.Int.{ℤ}
use chanvoy.Base.Maps.{lookup}
use chanvoy.Base.Texts.{Text, text_eq}
use chanvoy.ReadCursors.{MentionCursorState, AttentionState, StagedPollAck, Answer, Daemon}
use chanvoy.ReadCursors.Calls.{
  StagedAttentionAdvance, commit_staged_read_cursors, record_channel_cursor,
  record_notifications_cursor, record_channel_cursor_if_absent, record_staleness_verdict, start,
  publish_attention_migration_if_unchanged,
}

-- One call of the daemon on its read cursors, or its start.
pub data Event : Type 0 where
  read_acked : Option StagedPollAck → Option StagedAttentionAdvance → Event
  channel_recorded seeded : StagedAttentionAdvance → Event
  notifications_recorded : MentionCursorState → Event
  judged : Text → Bool → ℤ → Event
  migrated : AttentionState → AttentionState → Event
  started : Event

unfoldable pub event : Event → Daemon → Daemon
event (read_acked poll attention) d = (commit_staged_read_cursors poll attention d).1
event (channel_recorded fresh) d = (record_channel_cursor fresh d).1
event (seeded fresh) d = (record_channel_cursor_if_absent fresh d).1
event (notifications_recorded mentions) d = (record_notifications_cursor mentions d).1
event (judged key stale checked_at) d = (record_staleness_verdict key stale checked_at d).1
event (migrated snapshot next) d = (publish_attention_migration_if_unchanged snapshot next d).1
event started d = (start d).1

-- Events in turn, each with the answers that the system gives to it.
unfoldable pub events : List (Event × List Answer) → Daemon → Daemon
events [] d = d
events ((e, answers) ∷ more) d = events more (event e (record d { answers = answers }))

-- The last post that is recorded as seen under a key.
unfoldable pub last_seen : Text → AttentionState → Option Text
last_seen key state = elim (lookup key state.channels) [
  | none ↦ none
  | some cursor ↦ cursor.last_seen_post_id
]

-- The event stages nothing for a registration, and no other cursor for a channel key.
abbrev pub OtherKeys : Text → Text → Event → Type 0
OtherKeys reg key (read_acked none none) = Unit
OtherKeys reg key (read_acked (some ack) none) = lookup reg ack.anchors ≡ none
OtherKeys reg key (read_acked none (some advance)) = advance.key ≢ key
OtherKeys reg key (read_acked (some ack) (some advance)) =
    (lookup reg ack.anchors ≡ none) × (advance.key ≢ key)
OtherKeys reg key (channel_recorded fresh) = fresh.key ≢ key
OtherKeys reg key (seeded fresh) = Unit
OtherKeys reg key (notifications_recorded mentions) = Unit
OtherKeys reg key (judged other stale checked_at) = Unit
OtherKeys reg key (migrated snapshot next) = last_seen key next ≡ last_seen key snapshot
OtherKeys reg key started = Unit
