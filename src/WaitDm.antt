-- ===== src/WaitDm.antt =====
-- The names of direct channels, of crates/chanvoy-core/src/wait_dm.rs and wait_inbox.rs. Whether the
-- uuid library reads a text is an argument.
use chanvoy.Base.{
  ℕ, [], ◌∷◌, ◌++◌, Option, none, some, Result, err, Bool, true, false, not, ◌&&◌, ◌||◌, ltb,
  if◌then◌else◌, is_some, all, length, ◌≡◌, refl, sym, ap, subst, ◌↔◌, inl, inr, arith, Bool-cases,
  Option-cases, refuse_if,
}
use chanvoy.Base.Texts.{
  Text, lit, text_beq, text_beq_iff, text_ltb, text_ltb-total, text_ltb_irrefl, text_ltb_trans,
  strip_prefix, is_empty, is_ascii_lowercase, is_ascii_digit,
}
use chanvoy.WaitChannels.{utf8_max_bytes}
use chanvoy.Follow.{is_mattermost_post_id}

-- `NOT_A_WAITABLE_PEER`.
pub data DmError : Type 0 where
  not_a_waitable_peer : DmError

abbrev pub separator : Text
separator = lit "__"

-- `str::split_once` at the separator, from the left.
abbrev split_here : Option Text → ℕ → Option (Text × Text) → Option (Text × Text)
split_here (some rest) c later = some ([], rest)
split_here none c (some (left, right)) = some (c ∷ left, right)
split_here none c none = none

unfoldable pub split_once : Text → Option (Text × Text)
unfolding strip_prefix
split_once [] = none
split_once (c ∷ t) = split_here (strip_prefix separator (c ∷ t)) c (split_once t)

-- `str::contains` of the separator.
abbrev pub contains : Text → Bool
contains t = is_some (split_once t)

unfoldable pub canonical_dm_name : Text → Text → Text
canonical_dm_name left right =
    if not (text_ltb right left) then left ++ (separator ++ right) else right ++ (separator ++ left)

abbrev pub both_ids : Option (Text × Text) → Bool
both_ids none = false
both_ids (some (left, right)) =
    not (contains right) && is_mattermost_post_id left && is_mattermost_post_id right

unfoldable pub is_dm_channel_name : Text → Bool
unfolding split_once
is_dm_channel_name value = both_ids (split_once value)

abbrev pub other_of : Option (Text × Text) → Text → Option Text
other_of none my_id = none
other_of (some (left, right)) my_id =
    if contains right
    then none
    else if text_beq left my_id
    then some right
    else if text_beq right my_id
    then some left
    else none

unfoldable pub peer_user_id_from_dm_name : Text → Text → Option Text
unfolding split_once
peer_user_id_from_dm_name name my_id = other_of (split_once name) my_id

unfoldable pub classify_wait_dm_username : (Text → Bool) → Text → Result DmError (Unit {0})
unfolding is_dm_channel_name
classify_wait_dm_username is_rfc_uuid username =
    refuse_if
      (is_empty username
        || ltb utf8_max_bytes (length username)
        || is_rfc_uuid username
        || is_mattermost_post_id username
        || is_dm_channel_name username)
      not_a_waitable_peer

abbrev Plain : Text → Type 0
Plain t = all (λ byte. is_ascii_lowercase byte || is_ascii_digit byte) t ≡ true

split_once-Plain : (t : Text) → Plain t → split_once t ≡ none
unfolding split_once strip_prefix is_ascii_lowercase is_ascii_digit
split_once-Plain [] h = refl
split_once-Plain (c ∷ t) h = ground (arith, split_once-Plain t)

split_once-append : (a b : Text) → Plain a → split_once (a ++ (separator ++ b)) ≡ some (a, b)
unfolding split_once strip_prefix is_ascii_lowercase is_ascii_digit
split_once-append [] b h = refl
split_once-append (c ∷ a) b h = rw (split_once-append a b (ground arith)) (ground arith)

-- The two orders of the same users.
data Ordered (a b : Text) (name : Text) : Type 0 where
  as_given : name ≡ a ++ (separator ++ b) → Ordered a b name
  swapped : name ≡ b ++ (separator ++ a) → Ordered a b name

canonical-Ordered : (a b : Text) → Ordered a b (canonical_dm_name a b)
unfolding canonical_dm_name
canonical-Ordered a b = elim (Bool-cases (text_ltb b a)) [
  | inl h ↦ rw h (swapped refl)
  | inr h ↦ rw h (as_given refl)
]

-- The name of a direct channel does not depend on the order of its users.
pub canonical_dm_name_comm : (a b : Text) → canonical_dm_name a b ≡ canonical_dm_name b a
unfolding canonical_dm_name
canonical_dm_name_comm a b = elim (text_ltb-total a b) [
  | inl h ↦ rw (h, lt_not_gt a b h) refl
  | inr (inl h) ↦ rw h refl
  | inr (inr h) ↦ rw (h, lt_not_gt b a h) refl
]
  where
    lt_not_gt : (a b : Text) → text_ltb a b ≡ true → text_ltb b a ≡ false
    lt_not_gt a b h = ground (arith, text_ltb_irrefl a, text_ltb_trans a b a h)

strip_prefix_found : (p s r : Text) → strip_prefix p s ≡ some r → s ≡ p ++ r
unfolding strip_prefix
strip_prefix_found [] s r h = ground arith
strip_prefix_found (x ∷ p) [] r h = cc
strip_prefix_found (x ∷ p) (c ∷ s) r h = ground (arith, strip_prefix_found p s r)

of_some : (p q : Text × Text) → some p ≡ some q → p ≡ q
of_some p q h = cc

-- `split_here` gives back the text, if its parts do.
here_found :
    (found : Option Text) (c : ℕ) (t : Text) (later : Option (Text × Text)) (a b : Text)
    → ((r : Text) → found ≡ some r → c ∷ t ≡ separator ++ r)
    → ((l r : Text) → later ≡ some (l, r) → t ≡ l ++ (separator ++ r))
    → split_here found c later ≡ some (a, b)
    → c ∷ t ≡ a ++ (separator ++ b)
here_found (some rest) c t later a b f g h =
    subst (λ q. c ∷ t ≡ q.0 ++ (separator ++ q.1)) (of_some ([], rest) (a, b) h) (f rest refl)
here_found none c t (some (l, r)) a b f g h =
    subst (λ q. c ∷ t ≡ q.0 ++ (separator ++ q.1)) (of_some (c ∷ l, r) (a, b) h)
      (ap (λ x. c ∷ x) (g l r refl))
here_found none c t none a b f g h = cc

rejoined : (t a b : Text) → split_once t ≡ some (a, b) → t ≡ a ++ (separator ++ b)
unfolding split_once
rejoined [] a b h = cc
rejoined (c ∷ t) a b h =
    here_found (strip_prefix separator (c ∷ t)) c t (split_once t) a b
      (λ r e. strip_prefix_found separator (c ∷ t) r e) (λ l r e. rejoined t l r e) h

ids_of :
    (name : Text)
    → is_dm_channel_name name ≡ true
    → (a : Text) × ((b : Text) × ((name ≡ a ++ (separator ++ b))
          × ((is_mattermost_post_id a ≡ true) × (is_mattermost_post_id b ≡ true))))
unfolding is_dm_channel_name
ids_of name h = elim (Option-cases (split_once name)) [
  | inl e ↦ absurd (ground arith)
  | inr ((a, b), e) ↦ (a, (b, (rejoined name a b e, (ground arith, ground arith))))
]

is_mattermost_post_id-Plain : (t : Text) → is_mattermost_post_id t ≡ true → Plain t
unfolding is_mattermost_post_id
is_mattermost_post_id-Plain t h = ground arith

module _ (a b : Text) (a_id : is_mattermost_post_id a ≡ true)
    (b_id : is_mattermost_post_id b ≡ true) where
  peer_of_left : peer_user_id_from_dm_name (a ++ (separator ++ b)) a ≡ some b
  unfolding peer_user_id_from_dm_name
  peer_of_left =
      rw
        (
          split_once-append a b (is_mattermost_post_id-Plain a a_id),
          split_once-Plain b (is_mattermost_post_id-Plain b b_id),
          (text_beq_iff a a).1 refl,
        )
        refl

  peer_of_right : peer_user_id_from_dm_name (a ++ (separator ++ b)) b ≡ some a
  unfolding peer_user_id_from_dm_name
  peer_of_right = elim (Bool-cases (text_beq a b)) [
    | inl h ↦
        rw
          (
            split_once-append a b (is_mattermost_post_id-Plain a a_id),
            split_once-Plain b (is_mattermost_post_id-Plain b b_id),
            h,
          )
          (ap some (sym ((text_beq_iff a b).0 h)))
    | inr h ↦
        rw
          (
            split_once-append a b (is_mattermost_post_id-Plain a a_id),
            split_once-Plain b (is_mattermost_post_id-Plain b b_id),
            h,
            (text_beq_iff b b).1 refl,
          )
          refl
  ]

  name_accepted : is_dm_channel_name (a ++ (separator ++ b)) ≡ true
  unfolding is_dm_channel_name
  name_accepted =
      rw
        (
          split_once-append a b (is_mattermost_post_id-Plain a a_id),
          split_once-Plain b (is_mattermost_post_id-Plain b b_id),
          a_id,
          b_id,
        )
        refl

-- Each of two users finds the other one in the name of their channel.
pub peer-canonical_dm_name :
    (a b : Text)
    → is_mattermost_post_id a ≡ true
    → is_mattermost_post_id b ≡ true
    → (peer_user_id_from_dm_name (canonical_dm_name a b) a ≡ some b)
      × (peer_user_id_from_dm_name (canonical_dm_name a b) b ≡ some a)
peer-canonical_dm_name a b h k = elim (canonical-Ordered a b) [
  | as_given e ↦ rw e (peer_of_left a b h k, peer_of_right a b h k)
  | swapped e ↦ rw e (peer_of_right b a k h, peer_of_left b a k h)
]

-- A name is accepted as the name of a direct channel exactly when it is two user ids, in either
-- order, around the separator; such a name is refused as a user name.
pub is_dm_channel_name_iff :
    (is_rfc_uuid : Text → Bool) (name : Text)
    → ((is_dm_channel_name name ≡ true) ↔ (
        (a : Text) × ((b : Text) × ((name ≡ a ++ (separator ++ b))
            × ((is_mattermost_post_id a ≡ true) × (is_mattermost_post_id b ≡ true))))))
      × (is_dm_channel_name name ≡ true
          → classify_wait_dm_username is_rfc_uuid name ≡ err not_a_waitable_peer)
unfolding classify_wait_dm_username
is_dm_channel_name_iff is_rfc_uuid name =
    ((ids_of name, λ (a, (b, (e, (h, k)))). rw e (name_accepted a b h k)), λ h. ground arith)
