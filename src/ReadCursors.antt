-- ===== src/ReadCursors.antt =====
-- The read cursors that the daemon keeps: `AttentionState` of crates/chanvoy-core/src/lib.rs and
-- `PollCursorStore` of crates/chanvoy-daemon/src/waitprims_poll.rs, with the files they stand in. A
-- file that is missing has the content that loading it gives. Each access to a file or a lock takes
-- the next answer of the system; a crash is an answer that ends the call, then a start.
pub mod Calls
pub mod Triples
pub mod Keeps
pub mod Redo
pub mod Atomic
pub mod Events
pub mod Survival
use chanvoy.Base.{ℕ, List, [], ◌∷◌, Option, none, some, Result, ok, err, Bool, true, false, is_some}
use chanvoy.Base.Actions.{Action, ◌>>=◌, ◌>>◌, pure, gets, modify}
use chanvoy.Base.Int.{ℤ}
use chanvoy.Base.Maps.{insert, lookup}
use chanvoy.Base.Texts.{Text, text_eq}

pub record ChannelCursorState : Type 0 where
  pub last_seen_post_id : Option Text
  pub updated_at : Option ℤ
  pub last_known_stale : Bool
  pub last_checked_at : Option ℤ
  pub channel_id : Text
  pub team_id : Text
  pub team_name : Text
  pub channel_name : Text

pub record MentionCursorState : Type 0 where
  pub last_seen_post_id : Option Text
  pub updated_at : Option ℤ

pub record QuarantinedCursor : Type 0 where
  pub legacy_channel_name : Text
  pub ambiguous_teams : List Text
  pub state : ChannelCursorState
  pub quarantined_at : ℤ

pub record AttentionState : Type 0 where
  pub channels : List (Text × ChannelCursorState)
  pub mentions : MentionCursorState
  pub quarantined : List QuarantinedCursor

-- The last acknowledged anchor of each registration.
abbrev pub Anchors : Type 0
Anchors = List (Text × Text)

pub record StagedPollAck : Type 0 where
  pub anchors : Anchors

pub record CombinedReadCursorTxn : Type 0 where
  pub attention : AttentionState
  pub poll : Anchors

pub record Files : Type 0 where
  pub poll : Anchors
  pub attention : AttentionState
  pub txn : Option CombinedReadCursorTxn

-- An access is done; or fails with no effect; or fails after its effect, as when a rename is done
-- and the directory cannot be synced.
pub data Answer : Type 0 where
  done refused uncertain : Answer

pub data CursorError : Type 0 where
  persist_lock cursor_store_lock cursor_persist cursor_read : CursorError
  txn_read txn_persist txn_clear attention_persist attention_read : CursorError

-- `inner` is the map of the store in memory, `live` the daemon's attention state.
pub record Daemon : Type 0 where
  pub inner : Anchors
  pub live : AttentionState
  pub files : Files
  pub answers : List Answer

abbrev pub Call : Type 0 → Type 0
Call A = Action Daemon CursorError A

abbrev pub next_answer : List Answer → Answer
next_answer [] = done
next_answer (a ∷ rest) = a

abbrev pub later_answers : List Answer → List Answer
later_answers [] = []
later_answers (a ∷ rest) = rest

abbrev pub answered :
    Answer → (Daemon → Daemon) → CursorError → Daemon → Result CursorError (Unit {0}) × Daemon
answered done write e d = (ok tt, write d)
answered refused write e d = (err e, d)
answered uncertain write e d = (err e, write d)

abbrev pub access : (Daemon → Daemon) → CursorError → Call (Unit {0})
access write e d =
    answered (next_answer d.answers) write e (record d { answers = later_answers d.answers })

-- A lock that may be poisoned, or a file that may be unreadable.
abbrev pub ready : CursorError → Call (Unit {0})
ready e = access (λ d. d) e

-- `BTreeMap::extend`.
unfoldable pub extend : Anchors → Anchors → Anchors
extend map [] = map
extend map ((k, v) ∷ more) = extend (insert k v map) more

unfoldable pub get : Daemon → Text → Option Text
get d registration_id = lookup registration_id d.inner

unfoldable pub persist : Anchors → Call (Unit {0})
persist map = access (λ d. record d { files = record d.files { poll = map } }) cursor_persist

unfoldable pub store_attention_state : AttentionState → Call (Unit {0})
store_attention_state state =
    access (λ d. record d { files = record d.files { attention = state } }) attention_persist

unfoldable pub persist_combined_txn : CombinedReadCursorTxn → Call (Unit {0})
persist_combined_txn txn =
    access (λ d. record d { files = record d.files { txn = some txn } }) txn_persist

unfoldable pub clear_combined_txn : Call (Unit {0})
clear_combined_txn = access (λ d. record d { files = record d.files { txn = none } }) txn_clear

unfoldable pub load_combined_txn : Call (Option CombinedReadCursorTxn)
load_combined_txn = do ready txn_read; gets (λ d. d.files.txn)

unfoldable pub materialize_canonical : AttentionState → Anchors → Call (Unit {0})
materialize_canonical attention poll = do persist poll; store_attention_state attention

unfoldable pub publish : Anchors → Call (Unit {0})
publish candidate = do ready cursor_store_lock; modify (λ d. record d { inner = candidate })
