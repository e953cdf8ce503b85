-- ===== src/Follow/Validity.antt =====
-- Events that crates/chanvoy-core/src/wait_follow.rs constructs, against the validation there.
use chanvoy.Base.{
  List, [], ◌∷◌, some, ok, Bool, true, false, ◌≡◌, refl, ◌⊎◌, ◌↔◌, inl, inr, arith, Result-cases,
  ◌>>=◌,
}
use chanvoy.Base.Texts.{Text, text_beq_iff}
use chanvoy.Message.{Message}
use chanvoy.Follow.{
  WaitFollowMode, armed, backlog, live, deadman, canceled, replaced, failed, validate_wait_id,
  validate_message_fields, validate_message_record,
}
use chanvoy.Follow.Single
use chanvoy.Follow.Batch
use chanvoy.Follow.Single.{message_kind, message_event}
use chanvoy.Follow.Batch.{last, tip_or_default, validate_v2_message_record}

-- A message event made for a well-formed wait id and message passes `validate`, has the mode it
-- was made with, the message id as its tip, and the message as its only one.
pub message_event-validate :
    (wait_id : Text) (mode : WaitFollowMode) (m : Message) (truncated : Bool)
    (e : Single.WaitFollowEvent)
    → validate_wait_id wait_id ≡ ok tt
    → validate_message_fields m ≡ ok tt
    → message_event wait_id mode m truncated ≡ ok e
    → (Single.validate e ≡ ok tt)
      × ((Single.mode e ≡ mode) × ((Single.tip e ≡ some m.id) × (Single.messages e ≡ m ∷ [])))
unfolding message_event message_kind Single.validate Single.validate_kind validate_message_record
    Single.mode Single.tip Single.messages
message_event-validate wait_id armed m truncated e w f h = ground (arith, text_beq_iff m.id m.id)
message_event-validate wait_id backlog m truncated e w f h = ground (arith, text_beq_iff m.id m.id)
message_event-validate wait_id live m false e w f h = ground (arith, text_beq_iff m.id m.id)
message_event-validate wait_id live m true e w f h = ground (arith, text_beq_iff m.id m.id)
message_event-validate wait_id deadman m truncated e w f h = ground (arith, text_beq_iff m.id m.id)
message_event-validate wait_id canceled m truncated e w f h = ground (arith, text_beq_iff m.id m.id)
message_event-validate wait_id replaced m truncated e w f h = ground (arith, text_beq_iff m.id m.id)
message_event-validate wait_id failed m truncated e w f h = ground (arith, text_beq_iff m.id m.id)

-- The event around a kind.
abbrev with_kind : Text → Batch.WaitFollowV2EventKind → Batch.WaitFollowV2Event
with_kind wait_id kind = record { schema = Batch.v2; wait_id = wait_id; kind = kind }

batch_kind-accepts :
    (wait_id tip : Text) (mode : WaitFollowMode) (ms : List Message) (truncated : Bool)
    → ((e : Batch.WaitFollowV2Event) × ((Batch.batch_kind mode truncated tip ms >>= λ k.
            ok (with_kind wait_id k))
          ≡ ok e))
      ↔ (((mode ≡ backlog) ⊎ (mode ≡ live)) × (truncated ≡ false))
unfolding Batch.batch_kind
batch_kind-accepts wait_id tip armed ms t = (λ h. cc, λ h. ground arith)
batch_kind-accepts wait_id tip backlog ms false = (λ h. (inl refl, refl), λ h. (_, refl))
batch_kind-accepts wait_id tip backlog ms true = (λ h. cc, λ h. ground arith)
batch_kind-accepts wait_id tip live ms false = (λ h. (inr refl, refl), λ h. (_, refl))
batch_kind-accepts wait_id tip live ms true = (λ h. cc, λ h. ground arith)
batch_kind-accepts wait_id tip deadman ms t = (λ h. cc, λ h. ground arith)
batch_kind-accepts wait_id tip canceled ms t = (λ h. cc, λ h. ground arith)
batch_kind-accepts wait_id tip replaced ms t = (λ h. cc, λ h. ground arith)
batch_kind-accepts wait_id tip failed ms t = (λ h. cc, λ h. ground arith)

batch_kind-validate :
    (wait_id tip : Text) (mode : WaitFollowMode) (ms : List Message) (truncated : Bool)
    (e : Batch.WaitFollowV2Event)
    → validate_wait_id wait_id ≡ ok tt
    → validate_v2_message_record tip ms ≡ ok tt
    → (Batch.batch_kind mode truncated tip ms >>= λ k. ok (with_kind wait_id k)) ≡ ok e
    → (Batch.validate e ≡ ok tt)
      × ((Batch.mode e ≡ mode) × ((Batch.tip e ≡ some tip) × (Batch.messages_slice e ≡ ms)))
unfolding Batch.batch_kind Batch.validate Batch.validate_kind Batch.validate_batch Batch.mode
    Batch.tip Batch.messages_slice
batch_kind-validate wait_id tip armed ms t e w v h = ground arith
batch_kind-validate wait_id tip backlog ms false e w v h = ground arith
batch_kind-validate wait_id tip backlog ms true e w v h = ground arith
batch_kind-validate wait_id tip live ms false e w v h = ground arith
batch_kind-validate wait_id tip live ms true e w v h = ground arith
batch_kind-validate wait_id tip deadman ms t e w v h = ground arith
batch_kind-validate wait_id tip canceled ms t e w v h = ground arith
batch_kind-validate wait_id tip replaced ms t e w v h = ground arith
batch_kind-validate wait_id tip failed ms t e w v h = ground arith

-- `messages` of v2 makes an event exactly when the batch passes `validate_v2_message_record` with
-- the id of its last message, the mode is backlog or live, and it is not truncated.
pub messages-accepts :
    (wait_id : Text) (mode : WaitFollowMode) (ms : List Message) (truncated : Bool)
    → ((e : Batch.WaitFollowV2Event) × (Batch.messages wait_id mode ms truncated ≡ ok e)) ↔ (
        (validate_v2_message_record (tip_or_default (last ms)) ms ≡ ok tt)
        × (((mode ≡ backlog) ⊎ (mode ≡ live)) × (truncated ≡ false)))
unfolding Batch.messages
messages-accepts wait_id mode ms truncated =
    elim (Result-cases (validate_v2_message_record (tip_or_default (last ms)) ms)) [
      | inl (u, h) ↦ rw h (
        λ x. (refl, (batch_kind-accepts wait_id (tip_or_default (last ms)) mode ms truncated).0 x),
        λ x. (batch_kind-accepts wait_id (tip_or_default (last ms)) mode ms truncated).1 x.1,
      )
      | inr (e, h) ↦ rw h (λ x. cc (x.1), λ x. cc (x.0))
    ]

-- An event that `messages` of v2 makes for a well-formed wait id passes `validate`, and has the
-- mode, the messages and the last id that it was made with.
pub messages-validate :
    (wait_id : Text) (mode : WaitFollowMode) (ms : List Message) (truncated : Bool)
    (e : Batch.WaitFollowV2Event)
    → validate_wait_id wait_id ≡ ok tt
    → Batch.messages wait_id mode ms truncated ≡ ok e
    → (Batch.validate e ≡ ok tt)
      × ((Batch.mode e ≡ mode)
          × ((Batch.tip e ≡ some (tip_or_default (last ms))) × (Batch.messages_slice e ≡ ms)))
unfolding Batch.messages
messages-validate wait_id mode ms truncated e w =
    elim (Result-cases (validate_v2_message_record (tip_or_default (last ms)) ms)) [
      | inl (u, k) ↦
          rw k (batch_kind-validate wait_id (tip_or_default (last ms)) mode ms truncated e w k)
      | inr (f, k) ↦ rw k (λ h. cc)
    ]
