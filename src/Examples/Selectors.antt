-- ===== src/Examples/Selectors.antt =====
-- Direct channel names, fan-in parameters and backfill matches at concrete inputs.
use chanvoy.Base.{
  ℕ, [], ◌∷◌, ◌++◌, none, some, ok, err, true, false, ◌≡◌, refl, ◌↔◌, All, length, ◌≤◌,
}
use chanvoy.Base.Int.{pos}
use chanvoy.Base.Texts.{Text, lit, is_ascii_lowercase, is_ascii_digit}
use chanvoy.Follow.{is_mattermost_post_id}
use chanvoy.WaitDm.{
  canonical_dm_name, is_dm_channel_name, peer_user_id_from_dm_name, classify_wait_dm_username,
  not_a_waitable_peer, separator, peer-canonical_dm_name, is_dm_channel_name_iff,
}
use chanvoy.WaitChannels.{
  WaitChannelsParams, validate_wait_channels_params, Candidate, first_backfill_winner, min_arms,
  max_arms,
}
use chanvoy.WaitChannels.Params.{IsArm, IsOptional, Distinct, validate_wait_channels_params_iff}
use chanvoy.WaitChannels.Winner.{Earliest, first_backfill_winner-Earliest}

abbrev ann : Text
ann = lit "aaaaaaaaaaaaaaaaaaaaaaaaaa"

abbrev bob : Text
bob = lit "bbbbbbbbbbbbbbbbbbbbbbbbb7"

ann_id : is_mattermost_post_id ann ≡ true
unfolding is_mattermost_post_id is_ascii_lowercase is_ascii_digit
ann_id = refl

bob_id : is_mattermost_post_id bob ≡ true
unfolding is_mattermost_post_id is_ascii_lowercase is_ascii_digit
bob_id = refl

peer-canonical_dm_name_example :
    (peer_user_id_from_dm_name (canonical_dm_name bob ann) bob ≡ some ann)
    × (peer_user_id_from_dm_name (canonical_dm_name bob ann) ann ≡ some bob)
peer-canonical_dm_name_example = peer-canonical_dm_name bob ann bob_id ann_id

is_dm_channel_name_iff_example :
    ((is_dm_channel_name (lit "general") ≡ true) ↔ (
      (a : Text) × ((b : Text) × ((lit "general" ≡ a ++ (separator ++ b))
          × ((is_mattermost_post_id a ≡ true) × (is_mattermost_post_id b ≡ true))))))
    × (is_dm_channel_name (lit "general") ≡ true
        → classify_wait_dm_username (λ t. false) (lit "general") ≡ err not_a_waitable_peer)
is_dm_channel_name_iff_example = is_dm_channel_name_iff (λ t. false) (lit "general")

abbrev two_arms : WaitChannelsParams
two_arms = record {
  arms =
      record { team = lit "dev"; channel = lit "Ops"; after = none }
      ∷ record { team = lit "dev"; channel = lit "qa"; after = some ann }
      ∷ [];
  timeout_secs = 30;
  contains = none;
  pattern = some (lit "deploy");
  mention = false;
}

validate_wait_channels_params_iff_example : (validate_wait_channels_params two_arms ≡ ok tt) ↔ (
    (1 ≤ two_arms.timeout_secs)
    × (((min_arms ≤ length two_arms.arms) × (length two_arms.arms ≤ max_arms))
        × ((All IsArm two_arms.arms × Distinct two_arms.arms)
            × (IsOptional two_arms.contains × IsOptional two_arms.pattern))))
validate_wait_channels_params_iff_example = validate_wait_channels_params_iff two_arms

abbrev at : ℕ → Text → Candidate ℕ
at time id = record {
  item = time;
  message = record {
    id = id;
    user_id = ann;
    username = lit "ann";
    message = lit "hello";
    create_at = pos time;
    root_id = [];
    mention_user_ids = none;
  };
  channel_id = lit "c";
}

first_backfill_winner-Earliest_example :
    (w : Candidate ℕ) × ((first_backfill_winner (at 9 ann ∷ at 4 bob ∷ at 4 ann ∷ at 7 ann ∷ [])
        ≡ some w)
      × Earliest (at 9 ann ∷ at 4 bob ∷ at 4 ann ∷ at 7 ann ∷ []) w)
first_backfill_winner-Earliest_example =
    first_backfill_winner-Earliest (at 9 ann) (at 4 bob ∷ at 4 ann ∷ at 7 ann ∷ [])
