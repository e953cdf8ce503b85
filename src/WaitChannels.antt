-- ===== src/WaitChannels.antt =====
-- The fan-in wait of crates/chanvoy-core/src/wait_channels.rs: its parameters, and the choice among
-- the matches of a backfill. Error texts are constructors.
pub mod Params
pub mod Winner
use chanvoy.Base.{
  ℕ, ◌+◌, List, [], ◌∷◌, ◌++◌, map, Option, none, some, Result, ok, Bool, true, false, not, ◌&&◌,
  ◌||◌, ltb, leb, ◌==◌, if◌then◌else◌, any, length, refuse_if, ◌>>◌,
}
use chanvoy.Base.Int.{ltb_ℤ, eqb_ℤ}
use chanvoy.Base.Texts.{Text, lit, text_beq, text_ltb, is_empty}
use chanvoy.Message.{Message}

pub data SegmentName : Type 0 where
  team_name channel_name after_name contains_name pattern_name : SegmentName

pub data ChannelsError : Type 0 where
  timeout_zero arm_count duplicate_arm : ChannelsError
  segment_empty segment_size filter_empty : SegmentName → ChannelsError

abbrev pub utf8_max_bytes : ℕ
utf8_max_bytes = 256

abbrev pub min_arms : ℕ
min_arms = 2

abbrev pub max_arms : ℕ
max_arms = 8

pub record WaitChannelSelector : Type 0 where
  pub team : Text
  pub channel : Text

unfoldable pub to_ascii_lowercase : Text → Text
to_ascii_lowercase t = map (λ c. if leb b'A' c && leb c b'Z' then c + 32 else c) t

unfoldable pub qualified : WaitChannelSelector → Text
qualified s = s.team ++ (lit "/" ++ s.channel)

unfoldable pub requested_key : WaitChannelSelector → Text
unfolding to_ascii_lowercase
requested_key s = to_ascii_lowercase s.team ++ (lit "/" ++ to_ascii_lowercase s.channel)

pub record WaitChannelArm : Type 0 where
  pub team : Text
  pub channel : Text
  pub after : Option Text

unfoldable pub selector : WaitChannelArm → WaitChannelSelector
selector a = record { team = a.team; channel = a.channel }

pub record WaitChannelsParams : Type 0 where
  pub arms : List WaitChannelArm
  pub timeout_secs : ℕ
  pub contains : Option Text
  pub pattern : Option Text
  pub mention : Bool

unfoldable pub check_segment : SegmentName → Text → Result ChannelsError (Unit {0})
check_segment name value = do
  refuse_if (is_empty value) (segment_empty name)
  refuse_if (ltb utf8_max_bytes (length value)) (segment_size name)

unfoldable pub check_optional_filter : SegmentName → Option Text → Result ChannelsError (Unit {0})
unfolding check_segment
check_optional_filter name none = ok tt
check_optional_filter name (some value) = do
  refuse_if (is_empty value) (filter_empty name)
  check_segment name value

abbrev pub check_after : Option Text → Result ChannelsError (Unit {0})
check_after none = ok tt
check_after (some after) = check_segment after_name after

-- The loop over the arms, with the keys seen so far.
unfoldable pub check_arms : List Text → List WaitChannelArm → Result ChannelsError (Unit {0})
unfolding check_segment requested_key selector
check_arms seen [] = ok tt
check_arms seen (arm ∷ arms) = do
  check_segment team_name arm.team
  check_segment channel_name arm.channel
  check_after arm.after
  refuse_if (any (λ existing. text_beq existing (requested_key (selector arm))) seen) duplicate_arm
  check_arms (requested_key (selector arm) ∷ seen) arms

unfoldable pub validate_wait_channels_params : WaitChannelsParams → Result ChannelsError (Unit {0})
unfolding check_arms check_optional_filter
validate_wait_channels_params p = do
  refuse_if (p.timeout_secs == 0) timeout_zero
  refuse_if (not (leb min_arms (length p.arms) && leb (length p.arms) max_arms)) arm_count
  check_arms [] p.arms
  check_optional_filter contains_name p.contains
  check_optional_filter pattern_name p.pattern

-- A match of a backfill, with its channel.
pub record Candidate (A : Type 0) : Type 0 where
  pub item : A
  pub message : Message
  pub channel_id : Text

abbrev pub candidate_ltb : {A : Type 0} → Candidate A → Candidate A → Bool
candidate_ltb a b =
    ltb_ℤ a.message.create_at b.message.create_at
    || (eqb_ℤ a.message.create_at b.message.create_at
        && (text_ltb a.message.id b.message.id
            || (text_beq a.message.id b.message.id && text_ltb a.channel_id b.channel_id)))

-- `min_by`, which keeps the first of equal items.
unfoldable pub keep_least : {A : Type 0} → Candidate A → List (Candidate A) → Candidate A
keep_least best [] = best
keep_least best (c ∷ cs) = keep_least (if candidate_ltb c best then c else best) cs

unfoldable pub first_backfill_winner : {A : Type 0} → List (Candidate A) → Option (Candidate A)
unfolding keep_least
first_backfill_winner [] = none
first_backfill_winner (c ∷ cs) = some (keep_least c cs)
