-- ===== src/Follow/Batch.antt =====
-- `WaitFollowV2Event` of crates/chanvoy-core/src/wait_follow.rs: a batch of messages in each event.
use chanvoy.Base.{
  List, [], ◌∷◌, Option, none, some, Result, ok, err, Bool, true, false, not, length, map, ltb,
  ◌||◌, ◌==◌, refuse_if, ◌>>◌, ◌>>=◌,
}
use chanvoy.Base.Texts.{Text, text_beq}
use chanvoy.Message.{Message}
use chanvoy.Follow.{
  WaitFollowMode, armed, backlog, live, deadman, canceled, replaced, failed,
  WaitFollowFailureReason, FollowError, v2_truncated, mode_not_message, batch_size,
  v2_tip_not_last_id, is_mattermost_post_id, validate_wait_id, validate_message_fields,
  validate_strict_create_at_id_order, Key, coalesce_max_messages,
}

pub data WaitFollowV2EventKind : Type 0 where
  armed_event : (replaced_wait_id : Option Text) → WaitFollowV2EventKind
  backlog_event : (tip : Text) (truncated : Bool) (messages : List Message) → WaitFollowV2EventKind
  live_event : (tip : Text) (truncated : Bool) (messages : List Message) → WaitFollowV2EventKind
  deadman_event : WaitFollowV2EventKind
  canceled_event : WaitFollowV2EventKind
  replaced_event : (replaced_by_wait_id : Text) → WaitFollowV2EventKind
  failed_event : (reason_code : WaitFollowFailureReason) → WaitFollowV2EventKind

pub data WaitFollowV2Schema : Type 0 where
  v2 : WaitFollowV2Schema

pub record WaitFollowV2Event : Type 0 where
  pub schema : WaitFollowV2Schema
  pub wait_id : Text
  pub kind : WaitFollowV2EventKind

abbrev last_from : Message → List Message → Message
last_from m [] = m
last_from m (n ∷ ns) = last_from n ns

abbrev pub last : List Message → Option Message
last [] = none
last (m ∷ ms) = some (last_from m ms)

abbrev pub message_key : Message → Key
message_key m = (m.create_at, m.id)

abbrev pub validate_each : List Message → Result FollowError (Unit {0})
validate_each [] = ok tt
validate_each (m ∷ ms) = do validate_message_fields m; validate_each ms

abbrev pub validate_last_tip : Text → Option Message → Result FollowError (Unit {0})
validate_last_tip tip none = ok tt
validate_last_tip tip (some m) =
    refuse_if (not (is_mattermost_post_id tip) || not (text_beq tip m.id)) v2_tip_not_last_id

-- An empty list is refused before `last` is read.
unfoldable pub validate_v2_message_record : Text → List Message → Result FollowError (Unit {0})
validate_v2_message_record tip ms = do
  refuse_if (length ms == 0 || ltb coalesce_max_messages (length ms)) batch_size
  validate_each ms
  validate_strict_create_at_id_order (map message_key ms)
  validate_last_tip tip (last ms)

-- `last().map(id).unwrap_or_default()`.
abbrev pub tip_or_default : Option Message → Text
tip_or_default none = []
tip_or_default (some m) = m.id

unfoldable pub new_armed : Text → Option Text → WaitFollowV2Event
new_armed wait_id replaced_wait_id = record {
  schema = v2;
  wait_id = wait_id;
  kind = armed_event replaced_wait_id;
}

unfoldable pub batch_kind :
    WaitFollowMode → Bool → Text → List Message → Result FollowError WaitFollowV2EventKind
batch_kind backlog false tip ms = ok (backlog_event tip false ms)
batch_kind live false tip ms = ok (live_event tip false ms)
batch_kind backlog true tip ms = err v2_truncated
batch_kind live true tip ms = err v2_truncated
batch_kind armed truncated tip ms = err mode_not_message
batch_kind deadman truncated tip ms = err mode_not_message
batch_kind canceled truncated tip ms = err mode_not_message
batch_kind replaced truncated tip ms = err mode_not_message
batch_kind failed truncated tip ms = err mode_not_message

unfoldable pub messages :
    Text → WaitFollowMode → List Message → Bool → Result FollowError WaitFollowV2Event
unfolding batch_kind
messages wait_id mode ms truncated = do
  let tip = tip_or_default (last ms)
  validate_v2_message_record tip ms
  kind ← batch_kind mode truncated tip ms
  ok (record { schema = v2; wait_id = wait_id; kind = kind })

unfoldable pub terminal : Text → WaitFollowV2EventKind → WaitFollowV2Event
terminal wait_id kind = record { schema = v2; wait_id = wait_id; kind = kind }

abbrev mode_of : WaitFollowV2EventKind → WaitFollowMode
mode_of (armed_event replaced_wait_id) = armed
mode_of (backlog_event tip truncated ms) = backlog
mode_of (live_event tip truncated ms) = live
mode_of deadman_event = deadman
mode_of canceled_event = canceled
mode_of (replaced_event by) = replaced
mode_of (failed_event reason) = failed

unfoldable pub mode : WaitFollowV2Event → WaitFollowMode
mode e = mode_of e.kind

abbrev tip_of : WaitFollowV2EventKind → Option Text
tip_of (backlog_event tip truncated ms) = some tip
tip_of (live_event tip truncated ms) = some tip
tip_of (armed_event replaced_wait_id) = none
tip_of deadman_event = none
tip_of canceled_event = none
tip_of (replaced_event by) = none
tip_of (failed_event reason) = none

unfoldable pub tip : WaitFollowV2Event → Option Text
tip e = tip_of e.kind

abbrev messages_of : WaitFollowV2EventKind → List Message
messages_of (backlog_event tip truncated ms) = ms
messages_of (live_event tip truncated ms) = ms
messages_of (armed_event replaced_wait_id) = []
messages_of deadman_event = []
messages_of canceled_event = []
messages_of (replaced_event by) = []
messages_of (failed_event reason) = []

unfoldable pub messages_slice : WaitFollowV2Event → List Message
messages_slice e = messages_of e.kind

unfoldable pub validate_batch : Text → Bool → List Message → Result FollowError (Unit {0})
validate_batch tip truncated ms = do
  refuse_if truncated v2_truncated
  validate_v2_message_record tip ms

unfoldable pub validate_kind : WaitFollowV2EventKind → Result FollowError (Unit {0})
unfolding validate_batch
validate_kind (armed_event none) = ok tt
validate_kind (armed_event (some wait_id)) = validate_wait_id wait_id
validate_kind (backlog_event tip truncated ms) = validate_batch tip truncated ms
validate_kind (live_event tip truncated ms) = validate_batch tip truncated ms
validate_kind deadman_event = ok tt
validate_kind canceled_event = ok tt
validate_kind (replaced_event by) = validate_wait_id by
validate_kind (failed_event reason) = ok tt

unfoldable pub validate : WaitFollowV2Event → Result FollowError (Unit {0})
unfolding validate_kind
validate e = do validate_wait_id e.wait_id; validate_kind e.kind
