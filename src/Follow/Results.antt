-- ===== src/Follow/Results.antt =====
-- `WaitFollowResult` of crates/chanvoy-core/src/wait_follow.rs: the answer when a follow ends.
use chanvoy.Base.{Option, Result, ◌>>◌}
use chanvoy.Base.Texts.{Text}
use chanvoy.Follow.{
  WaitFollowMode, deadman, replaced, FollowError, validate_wait_id, validate_optional_tip,
}

pub data WaitFollowResultKind : Type 0 where
  deadman_result : (tip : Option Text) → WaitFollowResultKind
  replaced_result : (replaced_by_wait_id : Text) (tip : Option Text) → WaitFollowResultKind

pub record WaitFollowResult : Type 0 where
  pub wait_id : Text
  pub kind : WaitFollowResultKind

abbrev mode_of : WaitFollowResultKind → WaitFollowMode
mode_of (deadman_result tip) = deadman
mode_of (replaced_result by tip) = replaced

unfoldable pub mode : WaitFollowResult → WaitFollowMode
mode r = mode_of r.kind

abbrev validate_result_kind : WaitFollowResultKind → Result FollowError (Unit {0})
validate_result_kind (deadman_result tip) = validate_optional_tip tip
validate_result_kind (replaced_result by tip) = do validate_wait_id by; validate_optional_tip tip

unfoldable pub validate : WaitFollowResult → Result FollowError (Unit {0})
validate r = do validate_wait_id r.wait_id; validate_result_kind r.kind
