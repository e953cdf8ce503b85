-- ===== src/Inbox/Codec.antt =====
-- `encode` and `decode` of the cursor of crates/chanvoy-core/src/wait_inbox.rs. The JSON library is
-- an argument: the text of a wire record, if it is written, and the record read from bytes.
use chanvoy.Base.{
  ℕ, List, [], ◌∷◌, ◌++◌, Option, Result, ok, not, ◌||◌, ◌==◌, length, ltb, if◌then◌else◌,
  refuse_if, ok_or, map_err, ◌>>=◌, ◌>>◌,
}
use chanvoy.Base.Texts.{Text, text_beq, text_ltb, strip_prefix}
use chanvoy.Base.Int.{ℤ, pos, ltb_ℤ}
use chanvoy.Follow.{is_mattermost_post_id}
use chanvoy.Inbox.{
  CursorError, encoded_cap, bad_prefix, bad_base64, bad_json, encode_failed, bad_version,
  wrong_binding, negative_watermark, too_many_ids, observed_not_post_id, ids_not_canonical,
  encoding_not_canonical, inbox_cursor_prefix, inbox_cursor_max_bytes, inbox_max_watermark_ids,
  InboxCursorV1, refuse_inbox_after, contains_id, insert_id,
}
use chanvoy.Inbox.Base64.{b64url_encode, b64url_decode}

pub record CursorWire : Type 0 where
  pub v : ℕ
  pub p : Text
  pub b : Text
  pub w : ℤ
  pub i : List Text

-- `serde_json::to_string` and `serde_json::from_slice`.
pub record Json : Type 0 where
  pub to_string : CursorWire → Option Text
  pub from_slice : Text → Option CursorWire

abbrev pub place_id : Text → List Text → List Text
place_id id [] = id ∷ []
place_id id (j ∷ ids) =
    let rest = place_id id ids in if text_ltb j id then j ∷ rest else id ∷ j ∷ ids

-- `ids.sort()`.
unfoldable pub sort_ids : List Text → List Text
sort_ids [] = []
sort_ids (id ∷ ids) = place_id id (sort_ids ids)

abbrev pub wire_of : InboxCursorV1 → CursorWire
wire_of c = record {
  v = 1;
  p = c.profile;
  b = c.bot_user_id;
  w = c.watermark;
  i = sort_ids c.observed_ids;
}

-- The loop over `wire.i` with the set `seen`.
unfoldable pub check_ids : List Text → List Text → Result CursorError (List Text)
check_ids seen [] = ok seen
check_ids seen (id ∷ ids) = do
  refuse_if (not (is_mattermost_post_id id)) observed_not_post_id
  refuse_if (contains_id id seen) ids_not_canonical
  check_ids (insert_id id seen) ids

abbrev pub base64_error : Unit {0} → CursorError
base64_error u = bad_base64

module _ (json : Json) where
  unfoldable pub encode : InboxCursorV1 → Result CursorError Text
  encode c = do
    text ← ok_or (json.to_string (wire_of c)) encode_failed
    let encoded = inbox_cursor_prefix ++ b64url_encode text
    refuse_if (ltb inbox_cursor_max_bytes (length encoded)) encoded_cap
    ok encoded

  -- The checks on the wire record, up to the re-encoding.
  unfoldable pub check_wire : Text → Text → CursorWire → Result CursorError InboxCursorV1
  check_wire profile bot_user_id wire = do
    refuse_if (not (wire.v == 1)) bad_version
    refuse_if (not (text_beq wire.p profile) || not (text_beq wire.b bot_user_id)) wrong_binding
    refuse_if (ltb_ℤ wire.w (pos 0)) negative_watermark
    refuse_if (ltb inbox_max_watermark_ids (length wire.i)) too_many_ids
    seen ← check_ids [] wire.i
    ok (record { profile = wire.p; bot_user_id = wire.b; watermark = wire.w; observed_ids = seen })

  unfoldable pub decode : Text → Text → Text → Result CursorError InboxCursorV1
  decode raw profile bot_user_id = do
    refuse_inbox_after raw
    refuse_if (ltb inbox_cursor_max_bytes (length raw)) encoded_cap
    payload ← ok_or (strip_prefix inbox_cursor_prefix raw) bad_prefix
    bytes ← map_err base64_error (b64url_decode payload)
    wire ← ok_or (json.from_slice bytes) bad_json
    decoded ← check_wire profile bot_user_id wire
    canonical ← encode decoded
    refuse_if (not (text_beq canonical raw)) encoding_not_canonical
    ok decoded
