-- ===== src/Follow/Single.antt =====
-- `WaitFollowEvent` (v1) of crates/chanvoy-core/src/wait_follow.rs: one message in each event.
use chanvoy.Base.{
  List, [], ◌∷◌, Option, none, some, Result, ok, err, Bool, true, false, not, refuse_if, ◌>>◌,
  ◌>>=◌,
}
use chanvoy.Base.Texts.{Text}
use chanvoy.Message.{Message}
use chanvoy.Follow.{
  WaitFollowMode, armed, backlog, live, deadman, canceled, replaced, failed,
  WaitFollowFailureReason, FollowError, message_id_not_post_id, live_truncated, mode_not_message,
  is_mattermost_post_id, validate_wait_id, validate_message_record,
}

pub data WaitFollowEventKind : Type 0 where
  armed_event : (replaced_wait_id : Option Text) → WaitFollowEventKind
  backlog_event : (tip : Text) (truncated : Bool) (message : Message) → WaitFollowEventKind
  live_event : (tip : Text) (truncated : Bool) (message : Message) → WaitFollowEventKind
  deadman_event : WaitFollowEventKind
  canceled_event : WaitFollowEventKind
  replaced_event : (replaced_by_wait_id : Text) → WaitFollowEventKind
  failed_event : (reason_code : WaitFollowFailureReason) → WaitFollowEventKind

pub data WaitFollowSchema : Type 0 where
  v1 : WaitFollowSchema

pub record WaitFollowEvent : Type 0 where
  pub schema : WaitFollowSchema
  pub wait_id : Text
  pub kind : WaitFollowEventKind

unfoldable pub new_armed : Text → Option Text → WaitFollowEvent
new_armed wait_id replaced_wait_id = record {
  schema = v1;
  wait_id = wait_id;
  kind = armed_event replaced_wait_id;
}

unfoldable pub message_kind :
    WaitFollowMode → Bool → Message → Result FollowError WaitFollowEventKind
message_kind backlog truncated m = ok (backlog_event m.id truncated m)
message_kind live false m = ok (live_event m.id false m)
message_kind live true m = err live_truncated
message_kind armed truncated m = err mode_not_message
message_kind deadman truncated m = err mode_not_message
message_kind canceled truncated m = err mode_not_message
message_kind replaced truncated m = err mode_not_message
message_kind failed truncated m = err mode_not_message

unfoldable pub message_event :
    Text → WaitFollowMode → Message → Bool → Result FollowError WaitFollowEvent
unfolding message_kind
message_event wait_id mode m truncated = do
  refuse_if (not (is_mattermost_post_id m.id)) message_id_not_post_id
  kind ← message_kind mode truncated m
  ok (record { schema = v1; wait_id = wait_id; kind = kind })

unfoldable pub terminal : Text → WaitFollowEventKind → WaitFollowEvent
terminal wait_id kind = record { schema = v1; wait_id = wait_id; kind = kind }

abbrev mode_of : WaitFollowEventKind → WaitFollowMode
mode_of (armed_event replaced_wait_id) = armed
mode_of (backlog_event tip truncated m) = backlog
mode_of (live_event tip truncated m) = live
mode_of deadman_event = deadman
mode_of canceled_event = canceled
mode_of (replaced_event by) = replaced
mode_of (failed_event reason) = failed

unfoldable pub mode : WaitFollowEvent → WaitFollowMode
mode e = mode_of e.kind

abbrev tip_of : WaitFollowEventKind → Option Text
tip_of (backlog_event tip truncated m) = some tip
tip_of (live_event tip truncated m) = some tip
tip_of (armed_event replaced_wait_id) = none
tip_of deadman_event = none
tip_of canceled_event = none
tip_of (replaced_event by) = none
tip_of (failed_event reason) = none

unfoldable pub tip : WaitFollowEvent → Option Text
tip e = tip_of e.kind

abbrev messages_of : WaitFollowEventKind → List Message
messages_of (backlog_event tip truncated m) = m ∷ []
messages_of (live_event tip truncated m) = m ∷ []
messages_of (armed_event replaced_wait_id) = []
messages_of deadman_event = []
messages_of canceled_event = []
messages_of (replaced_event by) = []
messages_of (failed_event reason) = []

unfoldable pub messages : WaitFollowEvent → List Message
messages e = messages_of e.kind

unfoldable pub validate_kind : WaitFollowEventKind → Result FollowError (Unit {0})
validate_kind (armed_event none) = ok tt
validate_kind (armed_event (some wait_id)) = validate_wait_id wait_id
validate_kind (backlog_event tip truncated m) = validate_message_record tip m
validate_kind (live_event tip truncated m) = do
  refuse_if truncated live_truncated
  validate_message_record tip m
validate_kind deadman_event = ok tt
validate_kind canceled_event = ok tt
validate_kind (replaced_event by) = validate_wait_id by
validate_kind (failed_event reason) = ok tt

unfoldable pub validate : WaitFollowEvent → Result FollowError (Unit {0})
unfolding validate_kind
validate e = do validate_wait_id e.wait_id; validate_kind e.kind
