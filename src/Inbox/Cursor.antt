-- ===== src/Inbox/Cursor.antt =====
-- Advancing the cursor of crates/chanvoy-core/src/wait_inbox.rs, over any sequence of posts.
use chanvoy.Base.{List, [], ◌∷◌, ok, false, ◌||◌, ◌≡◌, refl, arith}
use chanvoy.Base.Texts.{Text, text_beq, text_beq_iff}
use chanvoy.Base.Int.{ℤ, ltb_ℤ}
use chanvoy.Inbox.{InboxCursorV1, contains_id, insert_id, admits, advance}

contains_id-insert_id :
    (other id : Text) (ids : List Text)
    → contains_id other (insert_id id ids) ≡ (text_beq id other || contains_id other ids)
contains_id-insert_id other id [] = refl
contains_id-insert_id other id (i ∷ ids) =
    ground (arith, text_beq_iff i id, contains_id-insert_id other id ids)

-- When `advance` succeeds, the post that it was given is no longer admitted, every post that was
-- refused before is still refused, and the watermark has not gone down.
pub admits-advance :
    (c next : InboxCursorV1) (create_at : ℤ) (post_id : Text)
    → advance c create_at post_id ≡ ok next
    → (admits next create_at post_id ≡ false)
      × (((at : ℤ) (id : Text) → admits c at id ≡ false → admits next at id ≡ false)
          × (ltb_ℤ next.watermark c.watermark ≡ false))
unfolding admits advance
admits-advance c next create_at post_id h = (
  ground
      (arith, contains_id-insert_id post_id post_id c.observed_ids, text_beq_iff post_id post_id),
  (λ at id refused. ground (arith, contains_id-insert_id id post_id c.observed_ids), ground arith),
)
