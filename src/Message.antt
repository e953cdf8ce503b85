-- ===== src/Message.antt =====
-- The message of crates/chanvoy-core/src/lib.rs.
use chanvoy.Base.{List, Option}
use chanvoy.Base.Texts.{Text}
use chanvoy.Base.Int.{ℤ}

pub record Message : Type 0 where
  pub id : Text
  pub user_id : Text
  pub username : Text
  pub message : Text
  pub create_at : ℤ
  pub root_id : Text
  pub mention_user_ids : Option (List Text)
