-- ===== src/Examples/Wait.antt =====
-- A monitored wait in which only the bot's own posts arrive, and one that fires.
use chanvoy.Base.{List, [], ◌∷◌, none, some, Bool, true, false, ◌≡◌, refl, ◌⊎◌}
use chanvoy.Base.Int.{pos}
use chanvoy.Base.Texts.{
  Text, lit, text_beq, text_ltb, strip_prefix, is_ascii_digit, is_ascii_lowercase,
}
use chanvoy.Message.{Message}
use chanvoy.Mentions.{mentions_bot, message_mentions_username, search}
use chanvoy.Wait.{
  InboundEventPayload, DaemonEventPayloadInner, inbound, connection_state_changed, gap,
  WaitPredicate, provider_failed, inbound_to_message, matches_message, matches_inbound,
  body_matches, mention_matches, first_match, note_after_eligible, bus_id_after_eligible,
}
use chanvoy.Wait.Push.{
  PushWait, fired, page, broken, Input, received, lagged, idle, deadline_reached, turn, turns,
  begin, first_match_bus_then_rest, drop_pending_non_members_after_success,
  reconcile_bus_after_eval, fetching, after_lag, after_idle, page_fetched, push_deadline_outcome,
}
use chanvoy.Wait.First.{FromBus, FromPage, first_match_bus_then_rest-First}
use chanvoy.Wait.Deadman.{Silent, clean_timeout-Silent}

abbrev everyone : WaitPredicate
everyone = record {
  my_user_id = lit "bot";
  channel_id = lit "c1";
  bot_username = lit "bot";
  contains = none;
  pattern = none;
  mention = false;
}

abbrev said : Text → Text → InboundEventPayload
said sender id = record {
  profile = lit "p";
  channel_id = lit "c1";
  channel_name = lit "town";
  post_id = id;
  root_id = id;
  channel_type = lit "O";
  sender_id = sender;
  sender_username = sender;
  message = lit "hello";
  create_at = pos 5;
  received_at = pos 6;
  mentioned = false;
  mention_user_ids = none;
}

abbrev own : Text → DaemonEventPayloadInner
own id = inbound (said (lit "bot") id)

abbrev own_post : Text → Message
own_post id = inbound_to_message (said (lit "bot") id)

abbrev quiet_turns : List Input
quiet_turns =
    received true (own (lit "p2"))
    ∷ lagged (gap ∷ own (lit "p3") ∷ []) [] (broken provider_failed)
    ∷ idle ((connection_state_changed ∷ []) ∷ []) (page [] (own_post (lit "p4") ∷ []))
    ∷ []

abbrev never : Text → Bool
never id = false

abbrev first_quiet : PushWait
first_quiet = record {
  bus = [];
  processed = lit "p1" ∷ [];
  after_eligible = none;
  scan_cursor = some (lit "p1");
  clean_observe = true;
  saw_healthy_inbound = false;
  saw_successful_rest = false;
}

abbrev last_quiet : PushWait
last_quiet = record {
  bus = [];
  processed = lit "p4" ∷ lit "p3" ∷ lit "p2" ∷ lit "p1" ∷ [];
  after_eligible = none;
  scan_cursor = some (lit "p4");
  clean_observe = true;
  saw_healthy_inbound = true;
  saw_successful_rest = true;
}

clean_timeout-Silent_example :
    Silent everyone never none [] (own_post (lit "p1") ∷ []) quiet_turns deadline_reached
unfolding matches_message text_beq inbound_to_message matches_inbound begin
    first_match_bus_then_rest first_match drop_pending_non_members_after_success
    reconcile_bus_after_eval note_after_eligible turns turn bus_id_after_eligible fetching after_lag
    after_idle page_fetched push_deadline_outcome
clean_timeout-Silent_example =
    clean_timeout-Silent everyone never none (some (lit "p0")) [] (own_post (lit "p1") ∷ [])
      quiet_turns deadline_reached first_quiet last_quiet tt (refl, tt)
      ((((λ _. refl), tt), tt), (((tt, ((λ _. refl), tt)), tt), ((((tt, tt)), (refl, tt)), tt)))
      (tt, tt) refl refl refl

another_user_fires :
    turns everyone (received true (inbound (said (lit "ann") (lit "p2"))) ∷ []) first_quiet
    ≡ fired (inbound_to_message (said (lit "ann") (lit "p2")))
unfolding turns turn first_match_bus_then_rest text_beq bus_id_after_eligible matches_inbound
    body_matches mention_matches
another_user_fires = refl

-- The page is in the order of arrival, the winner is the older post.
abbrev page_of_two : List Message
page_of_two =
    inbound_to_message (said (lit "ann") (lit "p9"))
    ∷ record (inbound_to_message (said (lit "ann") (lit "p8"))) { create_at = pos 4 }
    ∷ []

first_match_bus_then_rest-First_example :
    FromBus everyone [] none
      (own (lit "p2") ∷ [])
      (record (inbound_to_message (said (lit "ann") (lit "p8"))) { create_at = pos 4 })
    ⊎ FromPage everyone [] none
        (own (lit "p2") ∷ [])
        page_of_two
        (record (inbound_to_message (said (lit "ann") (lit "p8"))) { create_at = pos 4 })
unfolding first_match_bus_then_rest first_match text_beq bus_id_after_eligible matches_inbound
    matches_message body_matches mention_matches inbound_to_message text_ltb
first_match_bus_then_rest-First_example =
    first_match_bus_then_rest-First everyone [] none (own (lit "p2") ∷ []) page_of_two
      (record (inbound_to_message (said (lit "ann") (lit "p8"))) { create_at = pos 4 }) refl

mention_ends_at_boundary :
    (mentions_bot (lit "bot") (lit "hi @Bot, ok") ≡ true)
    × (mentions_bot (lit "bot") (lit "hi @bot-suffix") ≡ false)
unfolding mentions_bot message_mentions_username search strip_prefix is_ascii_digit
    is_ascii_lowercase
mention_ends_at_boundary = (refl, refl)
