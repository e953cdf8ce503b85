-- ===== src/Examples/Inbox.antt =====
-- Cursors, their encodings and their advance on concrete posts.
use chanvoy.Base.{ℕ, ◌≡◌, refl, some, ok, false, List, [], ◌∷◌, arith}
use chanvoy.Base.Int.{ℤ, pos, ltb_ℤ}
use chanvoy.Base.Texts.{
  Text, lit, text_beq, text_ltb, strip_prefix, is_ascii_digit, is_ascii_lowercase,
}
use chanvoy.Follow.{is_mattermost_post_id}
use chanvoy.Inbox.{InboxCursorV1, admits, advance, refuse_inbox_after}
use chanvoy.Inbox.Base64.{
  b64url_encode, b64url_decode, decode_groups, val, symbol, b64url_decode-b64url_encode,
}
use chanvoy.Inbox.Cursor.{admits-advance}
use chanvoy.Inbox.Codec.{Json, wire_of, sort_ids, check_ids, encode, check_wire, decode}
use chanvoy.Inbox.RoundTrip.{IsValid, decode-encode}
use chanvoy.Inbox.Decoded.{decode-IsValid}

abbrev four_bytes : List ℕ
four_bytes = 104 ∷ 105 ∷ 33 ∷ 255 ∷ []

four_bytes_encoded : b64url_encode four_bytes ≡ lit "aGkh_w"
unfolding b64url_encode symbol
four_bytes_encoded = refl

b64url_decode-b64url_encode_example : b64url_decode (b64url_encode four_bytes) ≡ ok four_bytes
b64url_decode-b64url_encode_example = b64url_decode-b64url_encode four_bytes (omega arith)

abbrev post_1 : Text
post_1 = lit "aaaaaaaaaaaaaaaaaaaaaaaa01"

abbrev post_2 : Text
post_2 = lit "aaaaaaaaaaaaaaaaaaaaaaaa02"

abbrev at_five : List Text → InboxCursorV1
at_five ids = record {
  profile = lit "p";
  bot_user_id = lit "b";
  watermark = pos 5;
  observed_ids = ids;
}

second_observed :
    advance (at_five (post_2 ∷ [])) (pos 5) post_1 ≡ ok (at_five (post_1 ∷ post_2 ∷ []))
unfolding advance is_mattermost_post_id is_ascii_digit is_ascii_lowercase text_beq text_ltb
second_observed = refl

admits-advance_example :
    (admits (at_five (post_1 ∷ post_2 ∷ [])) (pos 5) post_1 ≡ false)
    × (((at : ℤ) (id : Text)
          → admits (at_five (post_2 ∷ [])) at id ≡ false
          → admits (at_five (post_1 ∷ post_2 ∷ [])) at id ≡ false)
        × (ltb_ℤ (pos 5) (pos 5) ≡ false))
admits-advance_example =
    admits-advance (at_five (post_2 ∷ [])) (at_five (post_1 ∷ post_2 ∷ [])) (pos 5) post_1
      second_observed

abbrev two_ids : InboxCursorV1
two_ids = at_five (post_1 ∷ post_2 ∷ [])

abbrev one_text : Json
one_text = record {
  to_string = λ wire. some (lit "{}");
  from_slice = λ bytes. some (wire_of two_ids);
}

two_ids-IsValid : IsValid two_ids
unfolding is_mattermost_post_id is_ascii_digit is_ascii_lowercase text_ltb
two_ids-IsValid = record {
  ids_ascend = ((refl, tt), (tt, tt));
  post_ids = (refl, (refl, tt));
  few_ids = omega arith;
  not_negative = refl;
}

two_ids_encoded : encode one_text two_ids ≡ ok (lit "inv1.e30")
unfolding encode b64url_encode symbol
two_ids_encoded = refl

two_ids_decoded : decode one_text (lit "inv1.e30") (lit "p") (lit "b") ≡ ok two_ids
unfolding decode refuse_inbox_after strip_prefix b64url_decode decode_groups val check_wire
    check_ids sort_ids encode b64url_encode symbol is_mattermost_post_id is_ascii_digit
    is_ascii_lowercase text_beq text_ltb
two_ids_decoded = refl

decode-encode_example : decode one_text (lit "inv1.e30") (lit "p") (lit "b") ≡ ok two_ids
decode-encode_example =
    decode-encode one_text two_ids (lit "{}") (lit "inv1.e30") two_ids-IsValid refl (omega arith)
      refl two_ids_encoded

decode-IsValid_example : IsValid two_ids
decode-IsValid_example =
    decode-IsValid one_text two_ids (lit "inv1.e30") (lit "p") (lit "b") two_ids_decoded
