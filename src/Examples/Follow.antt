-- ===== src/Examples/Follow.antt =====
-- Message events, batches and bursts on concrete messages.
use chanvoy.Base.{
  ℕ, ◌+◌, ◌≡◌, refl, ◌↔◌, ◌<◌, Option, none, some, ok, false, List, [], ◌∷◌, ◌++◌, map, length, All,
}
use chanvoy.Base.Int.{pos}
use chanvoy.Base.Texts.{Text, lit, text_beq, text_ltb, is_ascii_digit, is_ascii_lowercase}
use chanvoy.Message.{Message}
use chanvoy.Follow.{
  backlog, live, Key, validate_wait_id, validate_message_fields, is_mattermost_post_id,
  strict_order_loop, validate_strict_create_at_id_order, coalesce_max_messages,
}
use chanvoy.Follow.Order.{Rising, validate_strict_create_at_id_order-Rising}
use chanvoy.Follow.Single
use chanvoy.Follow.Batch
use chanvoy.Follow.Single.{message_kind, message_event}
use chanvoy.Follow.Batch.{validate_v2_message_record, tip_or_default, last}
use chanvoy.Follow.Validity.{messages-validate}
use chanvoy.Coalesce.{
  new, push, take, take_if_expired, deadline, message_order, order_key, order_coalesced,
}
use chanvoy.Coalesce.Burst.{has_id, order_coalesced_lem}
use chanvoy.Coalesce.Buffer.{emitted, waiting, FitsOneEvent}
use chanvoy.Coalesce.Calls.{Call, push_call, expire_call, calls, pushed, no_match_lost}

abbrev wait_1 : Text
wait_1 = lit "wait_1"

abbrev post_at : Text → ℕ → Message
post_at id time = record {
  id = id;
  user_id = lit "u1";
  username = lit "ann";
  message = lit "hi";
  create_at = pos time;
  root_id = id;
  mention_user_ids = none;
}

abbrev first_post : Message
first_post = post_at (lit "aaaaaaaaaaaaaaaaaaaaaaaa01") 5

abbrev second_post : Message
second_post = post_at (lit "aaaaaaaaaaaaaaaaaaaaaaaa02") 7

abbrev two_posts : List Message
two_posts = first_post ∷ second_post ∷ []

abbrev two_keys : List Key
two_keys = (pos 5, lit "b") ∷ (pos 5, lit "c") ∷ []

validate_strict_create_at_id_order-Rising_example :
    (validate_strict_create_at_id_order two_keys ≡ ok tt) ↔ Rising two_keys
validate_strict_create_at_id_order-Rising_example =
    validate_strict_create_at_id_order-Rising two_keys

abbrev first_event : Single.WaitFollowEvent
first_event = record {
  schema = Single.v1;
  wait_id = wait_1;
  kind = Single.live_event first_post.id false first_post;
}

wait_1_fits : validate_wait_id wait_1 ≡ ok tt
unfolding validate_wait_id
wait_1_fits = refl

first_post_fits : validate_message_fields first_post ≡ ok tt
unfolding validate_message_fields is_mattermost_post_id is_ascii_digit is_ascii_lowercase
first_post_fits = refl

first_event_made : message_event wait_1 live first_post false ≡ ok first_event
unfolding message_event message_kind is_mattermost_post_id is_ascii_digit is_ascii_lowercase
first_event_made = refl

abbrev two_event : Batch.WaitFollowV2Event
two_event = record {
  schema = Batch.v2;
  wait_id = wait_1;
  kind = Batch.backlog_event second_post.id false two_posts;
}

two_event_made : Batch.messages wait_1 backlog two_posts false ≡ ok two_event
unfolding Batch.messages Batch.batch_kind validate_v2_message_record validate_message_fields
    is_mattermost_post_id is_ascii_digit is_ascii_lowercase validate_strict_create_at_id_order
    strict_order_loop text_beq text_ltb
two_event_made = refl

messages-validate_example :
    (Batch.validate two_event ≡ ok tt)
    × ((Batch.mode two_event ≡ backlog)
        × ((Batch.tip two_event ≡ some (tip_or_default (last two_posts)))
            × (Batch.messages_slice two_event ≡ two_posts)))
messages-validate_example =
    messages-validate wait_1 backlog two_posts false two_event wait_1_fits two_event_made

abbrev burst : List Message
burst = second_post ∷ first_post ∷ second_post ∷ []

burst_in_order : order_coalesced burst ≡ two_posts
unfolding order_coalesced text_beq text_ltb
burst_in_order = refl

order_coalesced_lem_example :
    (validate_strict_create_at_id_order (map order_key (order_coalesced burst)) ≡ ok tt)
    × (((id : Text) → has_id id (order_coalesced burst) ≡ has_id id burst)
        × ((P : Message → Type 0) → All P burst → All P (order_coalesced burst)))
order_coalesced_lem_example = order_coalesced_lem burst

abbrev plain_add : ℕ → ℕ → Option ℕ
plain_add start ms = some (start + ms)

abbrev script : List (Call ℕ)
script =
    push_call 3 backlog 1
    ∷ push_call 4 backlog 2
    ∷ push_call 5 live 3
    ∷ expire_call 6
    ∷ expire_call 25
    ∷ []

script_phases :
    map (λ f. f.items) (calls plain_add script (new 20)).0 ≡ (1 ∷ 2 ∷ []) ∷ (3 ∷ []) ∷ []
unfolding new push take take_if_expired deadline
script_phases = refl

no_match_lost_example :
    ((emitted (calls plain_add script (new 20)).0 ++ waiting (calls plain_add script (new 20)).1)
      ≡ pushed script)
    × (All FitsOneEvent (calls plain_add script (new 20)).0
        × (length (calls plain_add script (new 20)).1.pending < coalesce_max_messages))
no_match_lost_example = no_match_lost plain_add 20 script
