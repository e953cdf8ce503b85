-- ===== src/Inbox/RoundTrip.antt =====
-- A cursor survives `encode` and `decode` of crates/chanvoy-core/src/wait_inbox.rs.
use chanvoy.Base.{
  List, [], ◌∷◌, ◌++◌, some, ok, true, false, length, ltb, ◌≡◌, refl, sym, ap, subst, ◌∙◌, ◌≤◌,
  arith, All, append-nil, append_assoc,
}
use chanvoy.Base.Texts.{
  Text, text_beq, text_beq_iff, text_ltb, text_ltb_irrefl, text_ltb_trans, strip_prefix,
  is_ascii_digit, is_ascii_lowercase,
}
use chanvoy.Base.Int.{pos, ltb_ℤ}
use chanvoy.Follow.{is_mattermost_post_id}
use chanvoy.Inbox.{
  inbox_cursor_prefix, inbox_cursor_max_bytes, inbox_max_watermark_ids, InboxCursorV1,
  refuse_inbox_after, contains_id, insert_id,
}
use chanvoy.Inbox.Base64.{b64url_encode, b64url_decode-b64url_encode, IsByte}
use chanvoy.Inbox.Codec.{Json, sort_ids, place_id, wire_of, check_ids, encode, check_wire, decode}

-- The order that a `BTreeSet` keeps.
abbrev pub Ascending : List Text → Type 0
Ascending [] = Unit
Ascending (id ∷ ids) = All (λ later. text_ltb id later ≡ true) ids × Ascending ids

-- A cursor that the code builds: a set of at most 128 post ids and a watermark that is not negative.
pub record IsValid (c : InboxCursorV1) : Type 0 where
  pub ids_ascend : Ascending c.observed_ids
  pub post_ids : All (λ id. is_mattermost_post_id id ≡ true) c.observed_ids
  pub few_ids : length c.observed_ids ≤ inbox_max_watermark_ids
  pub not_negative : ltb_ℤ c.watermark (pos 0) ≡ false

text_ltb_asym : (s t : Text) → text_ltb s t ≡ true → text_ltb t s ≡ false
text_ltb_asym s t h = ground (arith, text_ltb_trans s t s, text_ltb_irrefl s)

place_id-Ascending :
    (id : Text) (ids : List Text)
    → All (λ later. text_ltb id later ≡ true) ids
    → place_id id ids ≡ id ∷ ids
place_id-Ascending id [] h = refl
place_id-Ascending id (j ∷ ids) h = rw (text_ltb_asym id j h.0) refl

sort_ids-Ascending : (ids : List Text) → Ascending ids → sort_ids ids ≡ ids
unfolding sort_ids
sort_ids-Ascending [] h = refl
sort_ids-Ascending (id ∷ ids) h = rw (sort_ids-Ascending ids h.1) (place_id-Ascending id ids h.0)

Ascending-before :
    (seen : List Text) (id : Text) (ids : List Text)
    → Ascending (seen ++ (id ∷ ids))
    → All (λ s. text_ltb s id ≡ true) seen
Ascending-before [] id ids h = tt
Ascending-before (s ∷ seen) id ids h = (middle seen h.0, Ascending-before seen id ids h.1)
  where
    middle :
        (xs : List Text) → All (λ l. text_ltb s l ≡ true) (xs ++ (id ∷ ids)) → text_ltb s id ≡ true
    middle [] k = k.0
    middle (x ∷ xs) k = middle xs k.1

insert_id_last :
    (id : Text) (seen : List Text)
    → All (λ s. text_ltb s id ≡ true) seen
    → (insert_id id seen ≡ seen ++ (id ∷ [])) × (contains_id id seen ≡ false)
insert_id_last id [] h = (refl, refl)
insert_id_last id (s ∷ seen) h = ground (
  arith,
  insert_id_last id seen h.1,
  text_beq_iff s id,
  text_ltb_irrefl id,
  text_ltb_asym s id h.0,
)

check_ids-Ascending :
    (seen ids : List Text)
    → Ascending (seen ++ ids)
    → All (λ id. is_mattermost_post_id id ≡ true) ids
    → check_ids seen ids ≡ ok (seen ++ ids)
unfolding check_ids
check_ids-Ascending seen [] a p = ap ok (sym (append-nil seen))
check_ids-Ascending seen (id ∷ ids) a p =
    let last = insert_id_last id seen (Ascending-before seen id ids a) in
    rw (p.0, last.1, last.0)
      (check_ids-Ascending (seen ++ (id ∷ [])) ids
          (subst Ascending (sym (append_assoc seen (id ∷ []) ids)) a) p.1
        ∙ ap ok (append_assoc seen (id ∷ []) ids))

beq_same : (s : Text) → text_beq s s ≡ true
beq_same s = (text_beq_iff s s).1 refl

check_wire-wire_of :
    (json : Json) (c : InboxCursorV1)
    → IsValid c
    → check_wire json c.profile c.bot_user_id (wire_of c) ≡ ok c
unfolding check_wire
check_wire-wire_of json c v =
    rw
      (
        sort_ids-Ascending c.observed_ids v.ids_ascend,
        beq_same c.profile,
        beq_same c.bot_user_id,
        v.not_negative,
        check_ids-Ascending [] c.observed_ids v.ids_ascend v.post_ids,
      )
      (ground (arith, v.few_ids))

encode_text :
    (json : Json) (c : InboxCursorV1) (t raw : Text)
    → json.to_string (wire_of c) ≡ some t
    → encode json c ≡ ok raw
    → (raw ≡ inbox_cursor_prefix ++ b64url_encode t)
      × (ltb inbox_cursor_max_bytes (length raw) ≡ false)
unfolding encode
encode_text json c t raw h e = ground arith

prefix_accepted : (payload : Text) → refuse_inbox_after (inbox_cursor_prefix ++ payload) ≡ ok tt
unfolding refuse_inbox_after is_mattermost_post_id is_ascii_digit is_ascii_lowercase
prefix_accepted payload = ground arith

-- A valid cursor that `encode` writes as `raw` is read from `raw` by `decode` for its own profile
-- and bot, if the JSON library wrote bytes and reads them back.
pub decode-encode :
    (json : Json) (c : InboxCursorV1) (t raw : Text)
    → IsValid c
    → json.to_string (wire_of c) ≡ some t
    → All IsByte t
    → json.from_slice t ≡ some (wire_of c)
    → encode json c ≡ ok raw
    → decode json raw c.profile c.bot_user_id ≡ ok c
unfolding decode strip_prefix
decode-encode json c t raw v h b j e =
    let text = encode_text json c t raw h e in
    let same_cap = subst (λ r. ltb inbox_cursor_max_bytes (length r) ≡ false) text.0 text.1 in
    rw
      (
        text.0,
        prefix_accepted (b64url_encode t),
        same_cap,
        b64url_decode-b64url_encode t b,
        j,
        check_wire-wire_of json c v,
        e,
        text.0,
        beq_same (inbox_cursor_prefix ++ b64url_encode t),
      )
      refl
