-- ===== src/Follow.antt =====
-- The modes, failures and field checks of crates/chanvoy-core/src/wait_follow.rs. An error text of
-- the source is a constructor of `FollowError`.
pub mod Order
pub mod Single
pub mod Batch
pub mod Results
pub mod Validity
use chanvoy.Base.{
  ℕ, List, [], ◌∷◌, Option, none, some, Result, ok, err, Bool, true, false, ◌&&◌, ◌||◌, ◌==◌, not,
  if◌then◌else◌, all, any, length, ltb, leb, refuse_if, ◌>>◌,
}
use chanvoy.Base.Texts.{Text, text_beq, text_ltb, is_empty, is_ascii_digit, is_ascii_lowercase}
use chanvoy.Base.Int.{ℤ, pos, ltb_ℤ, eqb_ℤ}
use chanvoy.Message.{Message}

pub data WaitFollowMode : Type 0 where
  armed backlog live deadman canceled replaced failed : WaitFollowMode

pub data WaitFollowFailureReason : Type 0 where
  provider_failed provider_overflow provider_outage cursor_uncertain : WaitFollowFailureReason
  provider_degraded ownership_lost daemon_shutdown : WaitFollowFailureReason

pub data FollowError : Type 0 where
  coalesce_ms_out_of_range : FollowError
  message_id_not_post_id : FollowError
  live_truncated : FollowError
  v2_truncated : FollowError
  mode_not_message : FollowError
  wait_id_size : FollowError
  tip_not_post_id : FollowError
  message_violates_document : FollowError
  tip_not_message_id : FollowError
  ids_not_unique : FollowError
  order_not_strict : FollowError
  batch_size : FollowError
  v2_tip_not_last_id : FollowError

abbrev pub coalesce_ms_min : ℕ
coalesce_ms_min = 1

abbrev pub coalesce_ms_max : ℕ
coalesce_ms_max = 10000

abbrev pub coalesce_max_messages : ℕ
coalesce_max_messages = 32

unfoldable pub validate_coalesce_ms : ℕ → Result FollowError (Unit {0})
validate_coalesce_ms coalesce_ms =
    if leb coalesce_ms_min coalesce_ms && leb coalesce_ms coalesce_ms_max
    then ok tt
    else err coalesce_ms_out_of_range

unfoldable pub is_mattermost_post_id : Text → Bool
is_mattermost_post_id value =
    (length value == 26) && all (λ byte. is_ascii_lowercase byte || is_ascii_digit byte) value

unfoldable pub validate_wait_id : Text → Result FollowError (Unit {0})
validate_wait_id value = refuse_if (is_empty value || ltb 64 (length value)) wait_id_size

unfoldable pub validate_optional_tip : Option Text → Result FollowError (Unit {0})
validate_optional_tip none = ok tt
validate_optional_tip (some tip) = refuse_if (not (is_mattermost_post_id tip)) tip_not_post_id

unfoldable pub validate_message_fields : Message → Result FollowError (Unit {0})
validate_message_fields m = do
  refuse_if (not (is_mattermost_post_id m.id)) message_id_not_post_id
  refuse_if
      (is_empty m.user_id || is_empty m.username || is_empty m.root_id || ltb_ℤ m.create_at (pos 0))
      message_violates_document

unfoldable pub validate_message_record : Text → Message → Result FollowError (Unit {0})
validate_message_record tip m = do
  validate_message_fields m
  refuse_if (not (is_mattermost_post_id tip) || not (text_beq tip m.id)) tip_not_message_id

-- `(create_at, id)`, ordered as the source's pairs.
abbrev pub Key : Type 0
Key = ℤ × Text

abbrev pub key_ltb : Key → Key → Bool
key_ltb (a, i) (b, j) = ltb_ℤ a b || (eqb_ℤ a b && text_ltb i j)

abbrev pub key_leb : Key → Key → Bool
key_leb (a, i) (b, j) = ltb_ℤ a b || (eqb_ℤ a b && (text_ltb i j || text_beq i j))

abbrev pub seen_before : Text → List Text → Bool
seen_before id seen = any (λ s. text_beq s id) seen

abbrev pub not_after : Option Key → Key → Bool
not_after none key = false
not_after (some prev) key = key_leb key prev

-- The loop over the keys, with `prev` and `seen` as it carries them.
unfoldable pub strict_order_loop : Option Key → List Text → List Key → Result FollowError (Unit {0})
strict_order_loop prev seen [] = ok tt
strict_order_loop prev seen (key ∷ keys) = do
  refuse_if (seen_before key.1 seen) ids_not_unique
  refuse_if (not_after prev key) order_not_strict
  strict_order_loop (some key) (key.1 ∷ seen) keys

unfoldable pub validate_strict_create_at_id_order : List Key → Result FollowError (Unit {0})
unfolding strict_order_loop
validate_strict_create_at_id_order keys = strict_order_loop none [] keys
