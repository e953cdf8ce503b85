-- ===== src/Slots.antt =====
-- The single-waiter decisions of crates/chanvoy-core/src/wait_registry.rs.
pub mod Decisions
use chanvoy.Base.{
  ℕ, List, [], ◌∷◌, Option, none, some, Result, ok, err, Bool, true, false, ◌&&◌, ◌||◌, ◌==◌, not,
  if◌then◌else◌, all, length, ltb, refuse_if, ◌>>◌,
}
use chanvoy.Base.Texts.{Text, lit, text_beq, strip_prefix, is_ascii_hexdigit, is_empty}
use chanvoy.Base.Int.{ℤ}

pub record WaitSlotView : Type 0 where
  pub wait_id : Text
  pub generation : ℕ
  pub started_at_ms : ℤ
  pub replacing : Bool

pub data WaitAcquireIntent : Type 0 where
  default : WaitAcquireIntent
  replace : Text → WaitAcquireIntent

pub data WaitAcquireDecision : Type 0 where
  admit : (wait_id : Text) (generation : ℕ) (started_at_ms : ℤ) → WaitAcquireDecision
  refuse_active : (existing_wait_id : Text) (started_at_ms : ℤ) → WaitAcquireDecision
  conflict_changed : WaitAcquireDecision
  begin_replace :
      (old_wait_id : Text) (old_generation : ℕ) (new_wait_id : Text) (new_generation : ℕ)
      (started_at_ms : ℤ)
      → WaitAcquireDecision

-- The field that a text names, and why it was refused.
pub data FilterInvalid : Type 0 where
  empty_refused too_long : Text → FilterInvalid

abbrev pub utf8_max_bytes : ℕ
utf8_max_bytes = 256

unfoldable pub bound : Text → Text → Result FilterInvalid (Unit {0})
bound name value = do
  refuse_if (is_empty value) (empty_refused name)
  refuse_if (ltb utf8_max_bytes (length value)) (too_long name)

abbrev bound_option : Text → Option Text → Result FilterInvalid (Unit {0})
bound_option name none = ok tt
bound_option name (some value) = bound name value

unfoldable pub validate_wait_channel_v3_strings :
    Text → Option Text → Option Text → Option Text → Option Text → Result FilterInvalid (Unit {0})
validate_wait_channel_v3_strings channel team contains pattern after = do
  bound (lit "channel") channel
  bound_option (lit "team") team
  bound_option (lit "contains") contains
  bound_option (lit "pattern") pattern
  bound_option (lit "after") after

abbrev pub wait_id_prefix : Text
wait_id_prefix = lit "wait_"

abbrev pub wait_id_hex_len : ℕ
wait_id_hex_len = 32

abbrev hex_part_well_formed : Option Text → Bool
hex_part_well_formed none = false
hex_part_well_formed (some hex) = (length hex == wait_id_hex_len) && all is_ascii_hexdigit hex

unfoldable pub wait_id_well_formed : Text → Bool
wait_id_well_formed raw = hex_part_well_formed (strip_prefix wait_id_prefix raw)

abbrev malformed_replace : WaitAcquireIntent → Bool
malformed_replace default = false
malformed_replace (replace wait_id) = not (wait_id_well_formed wait_id)

abbrev decide_match : Option WaitSlotView → WaitAcquireIntent → ℕ → ℤ → Text → WaitAcquireDecision
decide_match none default next_generation now_ms new_wait_id =
    admit new_wait_id next_generation now_ms
decide_match none (replace wait_id) next_generation now_ms new_wait_id = conflict_changed
decide_match (some slot) default next_generation now_ms new_wait_id =
    refuse_active slot.wait_id slot.started_at_ms
decide_match (some slot) (replace wait_id) next_generation now_ms new_wait_id =
    if slot.replacing || not (text_beq slot.wait_id wait_id)
    then conflict_changed
    else begin_replace slot.wait_id slot.generation new_wait_id next_generation now_ms

unfoldable pub decide_acquire :
    Option WaitSlotView → WaitAcquireIntent → ℕ → ℤ → Text → WaitAcquireDecision
decide_acquire current intent next_generation now_ms new_wait_id =
    if malformed_replace intent
    then conflict_changed
    else decide_match current intent next_generation now_ms new_wait_id

unfoldable pub should_release : Option WaitSlotView → ℕ → Bool
should_release none generation = false
should_release (some slot) generation = slot.generation == generation

unfoldable pub can_install_replacement : Option WaitSlotView → ℕ → ℕ → Bool
can_install_replacement none old_generation reserved_generation = false
can_install_replacement (some slot) old_generation reserved_generation =
    (slot.generation == old_generation) && slot.replacing && ltb old_generation reserved_generation
