-- ===== src/Inbox/Decoded.antt =====
-- The cursors that `decode` of crates/chanvoy-core/src/wait_inbox.rs accepts.
use chanvoy.Base.{
  suc, ◌+◌, List, [], ◌∷◌, ok, true, false, Bool, if◌then◌else◌, length, ◌≡◌, refl, ap, subst, ◌∙◌,
  arith, All, Option-cases, Result-cases, Bool-cases, inl, inr,
}
use chanvoy.Base.Texts.{
  Text, text_beq, text_beq_iff, text_ltb, text_ltb-total, text_ltb_trans, strip_prefix,
}
use chanvoy.Follow.{is_mattermost_post_id}
use chanvoy.Inbox.{inbox_cursor_prefix, InboxCursorV1, refuse_inbox_after, contains_id, insert_id}
use chanvoy.Inbox.Base64.{b64url_decode}
use chanvoy.Inbox.Codec.{CursorWire, Json, check_ids, encode, check_wire, decode}
use chanvoy.Inbox.RoundTrip.{Ascending, IsValid}

All-insert_id {ℓ} :
    (P : Text → Type ℓ) (id : Text) (ids : List Text) → P id → All P ids → All P (insert_id id ids)
All-insert_id P id [] p a = (p, tt)
All-insert_id P id (i ∷ ids) p a =
    by_tests (text_beq i id) (text_ltb id i) (All-insert_id P id ids p a.1)
  where
    by_tests :
        (b c : Bool)
        → All P (insert_id id ids)
        → All P (if b then i ∷ ids else (if c then id ∷ i ∷ ids else i ∷ insert_id id ids))
    by_tests true c rest = a
    by_tests false true rest = (p, a)
    by_tests false false rest = (a.0, rest)

All-later :
    (id i : Text) (ids : List Text)
    → text_ltb id i ≡ true
    → All (λ later. text_ltb i later ≡ true) ids
    → All (λ later. text_ltb id later ≡ true) ids
All-later id i [] h a = tt
All-later id i (x ∷ ids) h a = (text_ltb_trans id i x h a.0, All-later id i ids h a.1)

insert_id-Ascending : (id : Text) (ids : List Text) → Ascending ids → Ascending (insert_id id ids)
insert_id-Ascending id [] a = (tt, tt)
insert_id-Ascending id (i ∷ ids) a =
    by_tests (insert_id-Ascending id ids a.1) (text_beq i id) (text_ltb id i) refl refl
  where
    after_i : text_beq i id ≡ false → text_ltb id i ≡ false → text_ltb i id ≡ true
    after_i b c = ground (arith, text_ltb-total i id, text_beq_iff i id)

    by_tests :
        Ascending (insert_id id ids)
        → (b c : Bool) → text_beq i id ≡ b
        → text_ltb id i ≡ c
        → Ascending (if b then i ∷ ids else (if c then id ∷ i ∷ ids else i ∷ insert_id id ids))
    by_tests rest true c e f = a
    by_tests rest false true e f = ((f, All-later id i ids f a.0), a)
    by_tests rest false false e f =
        (All-insert_id (λ later. text_ltb i later ≡ true) id ids (after_i e f) a.0, rest)

length-insert_id :
    (id : Text) (ids : List Text)
    → contains_id id ids ≡ false
    → length (insert_id id ids) ≡ suc (length ids)
length-insert_id id [] h = refl
length-insert_id id (i ∷ ids) h = ground (arith, length-insert_id id ids)

-- What the checks of the ids build.
record Gathered (seen ids out : List Text) : Type 0 where
  ascend : Ascending out
  post_ids : All (λ id. is_mattermost_post_id id ≡ true) out
  as_many : length out ≡ length seen + length ids

check_ids-Gathered :
    (seen ids out : List Text)
    → Ascending seen
    → All (λ id. is_mattermost_post_id id ≡ true) seen
    → check_ids seen ids ≡ ok out
    → Gathered seen ids out
unfolding check_ids
check_ids-Gathered seen [] out a p h =
    let e : seen ≡ out = ground arith in
    subst (Gathered seen []) e (record { ascend = a; post_ids = p; as_many = omega arith })
check_ids-Gathered seen (id ∷ ids) out a p h = elim (Bool-cases (is_mattermost_post_id id)) [
  | inr not_post ↦ absurd (ground arith)
  | inl yes_post ↦ elim (Bool-cases (contains_id id seen)) [
    | inl again ↦ absurd (ground arith)
    | inr new ↦
        let g =
          check_ids-Gathered (insert_id id seen) ids out (insert_id-Ascending id seen a)
            (All-insert_id (λ i. is_mattermost_post_id i ≡ true) id seen yes_post p)
            (ground arith) in
        record {
          ascend = g.ascend;
          post_ids = g.post_ids;
          as_many = omega (arith, g.as_many, length-insert_id id seen new);
        }
  ]
]

check_wire-IsValid :
    (json : Json) (profile bot_user_id : Text) (wire : CursorWire) (c : InboxCursorV1)
    → check_wire json profile bot_user_id wire ≡ ok c
    → IsValid c
unfolding check_wire
check_wire-IsValid json profile bot_user_id wire c h = elim (Result-cases (check_ids [] wire.i)) [
  | inr (e, k) ↦ absurd (ground arith)
  | inl (seen, k) ↦
      let g = check_ids-Gathered [] wire.i seen tt tt k in
      let same : seen ≡ c.observed_ids = ground arith in
      record {
        ids_ascend = subst Ascending same g.ascend;
        post_ids = subst (All (λ id. is_mattermost_post_id id ≡ true)) same g.post_ids;
        few_ids = let n = g.as_many in let m = ap length same in ground arith;
        not_negative = ground arith;
      }
]

-- Every cursor that `decode` accepts has at most 128 observed ids, each a post id, in ascending order
-- without a repetition, and a watermark that is not negative.
pub decode-IsValid :
    (json : Json) (c : InboxCursorV1) (raw profile bot_user_id : Text)
    → decode json raw profile bot_user_id ≡ ok c
    → IsValid c
unfolding decode
decode-IsValid json c raw profile bot_user_id h = elim (Result-cases (refuse_inbox_after raw)) [
  | inr (e, k) ↦ absurd (ground arith)
  | inl (u, k) ↦ elim (Option-cases (strip_prefix inbox_cursor_prefix raw)) [
    | inl none_left ↦ absurd (ground arith)
    | inr (payload, p) ↦ elim (Result-cases (b64url_decode payload)) [
      | inr (e, b) ↦ absurd (ground arith)
      | inl (bytes, b) ↦ elim (Option-cases (json.from_slice bytes)) [
        | inl unread ↦ absurd (ground arith)
        | inr (wire, j) ↦ elim (Result-cases (check_wire json profile bot_user_id wire)) [
          | inr (e, d) ↦ absurd (ground arith)
          | inl (decoded, d) ↦ elim (Result-cases (encode json decoded)) [
            | inr (e, n) ↦ absurd (ground arith)
            | inl (text, n) ↦
                check_wire-IsValid json profile bot_user_id wire c (d ∙ ap ok (ground arith))
          ]
        ]
      ]
    ]
  ]
]
