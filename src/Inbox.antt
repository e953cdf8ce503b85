-- ===== src/Inbox.antt =====
-- The inbox cursor of crates/chanvoy-core/src/wait_inbox.rs. `BTreeSet<String>` is a list in
-- ascending order; an error text of the source is a constructor of `CursorError`.
pub mod Base64
pub mod Cursor
pub mod Codec
pub mod RoundTrip
pub mod Decoded
use chanvoy.Base.{
  List, [], ◌∷◌, Option, none, some, Result, ok, err, Bool, true, false, ◌||◌, not, if◌then◌else◌,
  any, length, ltb, refuse_if, ◌>>◌, ℕ,
}
use chanvoy.Base.Texts.{Text, lit, text_beq, text_ltb, is_empty}
use chanvoy.Base.Int.{ℤ, pos, ltb_ℤ, eqb_ℤ}
use chanvoy.Follow.{is_mattermost_post_id}

pub data CursorError : Type 0 where
  empty_after post_id_not_cursor encoded_cap bad_prefix bad_base64 bad_json encode_failed :
      CursorError
  bad_version wrong_binding negative_watermark too_many_ids : CursorError
  observed_not_post_id ids_not_canonical encoding_not_canonical : CursorError
  matched_not_post_id advance_too_many lower_watermark : CursorError

abbrev pub inbox_cursor_prefix : Text
inbox_cursor_prefix = lit "inv1."

abbrev pub inbox_cursor_max_bytes : ℕ
inbox_cursor_max_bytes = 32768

abbrev pub inbox_max_watermark_ids : ℕ
inbox_max_watermark_ids = 128

pub record InboxCursorV1 : Type 0 where
  pub profile : Text
  pub bot_user_id : Text
  pub watermark : ℤ
  pub observed_ids : List Text

unfoldable pub refuse_inbox_after : Text → Result CursorError (Unit {0})
refuse_inbox_after after = do
  refuse_if (is_empty after) empty_after
  refuse_if (is_mattermost_post_id after) post_id_not_cursor

-- `BTreeSet::contains` and `BTreeSet::insert`.
abbrev pub contains_id : Text → List Text → Bool
contains_id id ids = any (λ i. text_beq i id) ids

abbrev pub insert_id : Text → List Text → List Text
insert_id id [] = id ∷ []
insert_id id (i ∷ ids) =
    let rest = insert_id id ids in
    if text_beq i id then i ∷ ids else (if text_ltb id i then id ∷ i ∷ ids else i ∷ rest)

unfoldable pub empty_cursor : Text → Text → InboxCursorV1
empty_cursor profile bot_user_id = record {
  profile = profile;
  bot_user_id = bot_user_id;
  watermark = pos 0;
  observed_ids = [];
}

unfoldable pub admits : InboxCursorV1 → ℤ → Text → Bool
admits c create_at post_id =
    if ltb_ℤ c.watermark create_at
    then true
    else (if eqb_ℤ create_at c.watermark then not (contains_id post_id c.observed_ids) else false)

unfoldable pub advance : InboxCursorV1 → ℤ → Text → Result CursorError InboxCursorV1
advance c create_at post_id =
    if not (is_mattermost_post_id post_id)
    then err matched_not_post_id
    else (if ltb_ℤ c.watermark create_at
        then ok (record c { watermark = create_at; observed_ids = post_id ∷ [] })
        else (if eqb_ℤ create_at c.watermark
            then (if ltb inbox_max_watermark_ids (length (insert_id post_id c.observed_ids))
                then err advance_too_many
                else ok (record c { observed_ids = insert_id post_id c.observed_ids }))
            else err lower_watermark))
