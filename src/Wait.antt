-- ===== src/Wait.antt =====
-- The wait engine of crates/chanvoy-daemon/src/wait.rs: the filter of a wait, the choice of the first
-- match, and the buffer of events that wait for it. A compiled pattern is its `is_match`. A
-- `HashSet` of ids is a list, read by membership; what no wait reads of an event is left out.
pub mod Push
pub mod Quiet
pub mod Silence
pub mod Inputs
pub mod Timeout
pub mod Deadman
pub mod First
pub mod Retry
use chanvoy.Base.{
  ℕ, List, [], ◌∷◌, ◌++◌, Option, none, some, Result, ok, err, Bool, true, false, ◌&&◌, ◌||◌, not,
  if◌then◌else◌, any, length, ltb, is_some, ◌>>=◌, ◌>>◌, refuse_if,
}
use chanvoy.Base.Int.{ℤ}
use chanvoy.Base.Texts.{Text, lit, text_beq, strip_prefix, is_empty}
use chanvoy.Coalesce.{message_order, sort_by_key}
use chanvoy.Message.{Message}
use chanvoy.Mentions.{mentions_bot}

pub record InboundEventPayload : Type 0 where
  pub profile : Text
  pub channel_id : Text
  pub channel_name : Text
  pub post_id : Text
  pub root_id : Text
  pub channel_type : Text
  pub sender_id : Text
  pub sender_username : Text
  pub message : Text
  pub create_at : ℤ
  pub received_at : ℤ
  pub mentioned : Bool
  pub mention_user_ids : Option (List Text)

pub data DaemonEventPayloadInner : Type 0 where
  inbound : InboundEventPayload → DaemonEventPayloadInner
  connection_state_changed gap : DaemonEventPayloadInner

-- The texts of `WaitFilterInvalid` and `WaitProviderDegraded` are constructors.
pub data WaitError : Type 0 where
  empty_contains long_contains empty_pattern long_pattern invalid_pattern zero_timeout : WaitError
  bus_lagged bus_closed observation_failing nothing_observed call_stalled provider_failed :
      WaitError
  wait_timeout other_error : WaitError

abbrev pub filter_source_max_bytes : ℕ
filter_source_max_bytes = 256

pub record WaitPredicate : Type 0 where
  pub my_user_id : Text
  pub channel_id : Text
  pub bot_username : Text
  pub contains : Option Text
  pub pattern : Option (Text → Bool)
  pub mention : Bool

abbrev check_contains : Option Text → Result WaitError (Option Text)
check_contains none = ok none
check_contains (some s) = do
  refuse_if (is_empty s) empty_contains
  refuse_if (ltb filter_source_max_bytes (length s)) long_contains
  ok (some s)

abbrev built : Option (Text → Bool) → Result WaitError (Option (Text → Bool))
built none = err invalid_pattern
built (some is_match) = ok (some is_match)

-- `RegexBuilder::build` is an argument.
abbrev check_pattern :
    (Text → Option (Text → Bool)) → Option Text → Result WaitError (Option (Text → Bool))
check_pattern build none = ok none
check_pattern build (some s) = do
  refuse_if (is_empty s) empty_pattern
  refuse_if (ltb filter_source_max_bytes (length s)) long_pattern
  built (build s)

unfoldable pub compile :
    (Text → Option (Text → Bool))
    → Text
    → Text
    → Option Text
    → Option Text
    → Bool
    → Text
    → Result WaitError WaitPredicate
compile build my_user_id channel_id contains pattern mention bot_username = do
  contains ← check_contains contains
  pattern ← check_pattern build pattern
  ok (record {
    my_user_id = my_user_id;
    channel_id = channel_id;
    bot_username = bot_username;
    contains = contains;
    pattern = pattern;
    mention = mention;
  })

-- `str::contains`.
abbrev pub contains_text : Text → Text → Bool
contains_text needle [] = is_some (strip_prefix needle [])
contains_text needle (c ∷ s) = is_some (strip_prefix needle (c ∷ s)) || contains_text needle s

abbrev holds : Option (Text → Bool) → Text → Bool
holds none body = true
holds (some test) body = test body

unfoldable pub body_matches : WaitPredicate → Text → Bool
body_matches p body =
    if not
      (holds (elim p.contains [ none ↦ none | some needle ↦ some (contains_text needle) ]) body)
    then false
    else (if not (holds p.pattern body) then false else true)

unfoldable pub mention_matches : WaitPredicate → Text → Bool
mention_matches p body = if not p.mention then true else mentions_bot p.bot_username body

unfoldable pub matches_message : WaitPredicate → Message → Bool
matches_message p m =
    not (text_beq m.user_id p.my_user_id) && body_matches p m.message && mention_matches p m.message

unfoldable pub matches_inbound : WaitPredicate → InboundEventPayload → Bool
matches_inbound p e =
    text_beq e.channel_id p.channel_id
    && not (text_beq e.sender_id p.my_user_id)
    && body_matches p e.message
    && mention_matches p e.message

unfoldable pub inbound_to_message : InboundEventPayload → Message
inbound_to_message e = record {
  id = e.post_id;
  user_id = e.sender_id;
  username = e.sender_username;
  message = e.message;
  create_at = e.create_at;
  root_id = e.root_id;
  mention_user_ids = e.mention_user_ids;
}

abbrev pub in_set : Text → List Text → Bool
in_set id ids = any (λ i. text_beq i id) ids

abbrev pub candidates : WaitPredicate → List Text → List Message → List Message
candidates p exclude [] = []
candidates p exclude (m ∷ ms) =
    let rest = candidates p exclude ms in
    if not (in_set m.id exclude) && matches_message p m then m ∷ rest else rest

abbrev pub first_of : List Message → Option Message
first_of [] = none
first_of (m ∷ ms) = some m

-- Sorted by `(create_at, id)`, the key of a message.
unfoldable pub first_match : List Message → WaitPredicate → List Text → Option Message
first_match messages p exclude = first_of (sort_by_key (candidates p exclude messages))

abbrev pub page_ids : List Message → List Text
page_ids [] = []
page_ids (m ∷ ms) = m.id ∷ page_ids ms

unfoldable pub note_after_eligible : Option (List Text) → List Message → Option (List Text)
note_after_eligible none page = none
note_after_eligible (some el) page = some (page_ids page ++ el)

unfoldable pub bus_id_after_eligible : Option (List Text) → Text → Bool
bus_id_after_eligible none post_id = true
bus_id_after_eligible (some el) post_id = in_set post_id el
