-- ===== src/WaitChannels/Params.antt =====
-- `validate_wait_channels_params` and a description of what it accepts.
use chanvoy.Base.{
  ◌≤◌, List, [], ◌∷◌, Option, none, some, Result, ok, err, Bool, true, false, ◌≡◌, ◌≢◌, refl, ◌↔◌,
  arith, any, length, refuse_if, ◌>>◌, All, All-imp, All-both,
}
use chanvoy.Base.Texts.{Text, text_beq, text_beq_iff}
use chanvoy.WaitChannels.{
  SegmentName, team_name, channel_name, contains_name, pattern_name, duplicate_arm, ChannelsError,
  WaitChannelArm, WaitChannelsParams, requested_key, selector, check_segment, check_optional_filter,
  check_after, check_arms, validate_wait_channels_params, utf8_max_bytes, min_arms, max_arms,
}

abbrev pub IsSegment : Text → Type 0
IsSegment t = (1 ≤ length t) × (length t ≤ utf8_max_bytes)

abbrev pub IsOptional : Option Text → Type 0
IsOptional none = Unit
IsOptional (some t) = IsSegment t

abbrev pub IsArm : WaitChannelArm → Type 0
IsArm a = IsSegment a.team × (IsSegment a.channel × IsOptional a.after)

abbrev pub key : WaitChannelArm → Text
key a = requested_key (selector a)

-- No two arms ask for one channel, whatever their case.
abbrev pub Distinct : List WaitChannelArm → Type 0
Distinct [] = Unit
Distinct (a ∷ arms) = All (λ b. key a ≢ key b) arms × Distinct arms

check_segment_iff : (name : SegmentName) (t : Text) → (check_segment name t ≡ ok tt) ↔ IsSegment t
unfolding check_segment
check_segment_iff name [] = ground arith
check_segment_iff name (c ∷ t) = ground arith

check_optional_filter_iff :
    (name : SegmentName) (t : Option Text) → (check_optional_filter name t ≡ ok tt) ↔ IsOptional t
unfolding check_optional_filter check_segment
check_optional_filter_iff name none = ground arith
check_optional_filter_iff name (some []) = ground arith
check_optional_filter_iff name (some (c ∷ t)) = ground arith

check_after_iff : (t : Option Text) → (check_after t ≡ ok tt) ↔ IsOptional t
check_after_iff none = ground arith
check_after_iff (some t) = check_segment_iff _ t

abbrev Unseen : List Text → WaitChannelArm → Type 0
Unseen seen a = any (λ existing. text_beq existing (key a)) seen ≡ false

abbrev Accepted : List Text → List WaitChannelArm → Type 0
Accepted seen arms = All IsArm arms × (All (Unseen seen) arms × Distinct arms)

refuse_if_iff : (bad : Bool) (e : ChannelsError) → (refuse_if bad e ≡ ok tt) ↔ (bad ≡ false)
refuse_if_iff false e = ground arith
refuse_if_iff true e = ground arith

-- Two checks in order accept what both accept.
both_iff :
    {P Q : Type 0} (m n : Result ChannelsError (Unit {0}))
    → ((m ≡ ok tt) ↔ P)
    → ((n ≡ ok tt) ↔ Q)
    → ((m >> n ≡ ok tt) ↔ (P × Q))
both_iff (ok u) n p q = (λ h. (p.0 refl, q.0 h), λ h. q.1 h.1)
both_iff (err e) n p q = (λ h. cc, λ h. let k = p.1 h.0 in cc)

new_key :
    (seen : List Text) (a b : WaitChannelArm)
    → Unseen (key a ∷ seen) b ↔ (key a ≢ key b × Unseen seen b)
new_key seen a b = ground (arith, text_beq_iff (key a) (key b))

Accepted-step :
    (seen : List Text) (a : WaitChannelArm) (arms : List WaitChannelArm)
    → (IsSegment a.team
        × (IsSegment a.channel
            × (IsOptional a.after × (Unseen seen a × Accepted (key a ∷ seen) arms))))
      ↔ Accepted seen (a ∷ arms)
Accepted-step seen a arms = (
  λ (t, (c, (f, (u, (h, (k, d)))))). (
    ((t, (c, f)), h),
    (
      (u, All-imp (λ b x. ((new_key seen a b).0 x).1) arms k),
      (All-imp (λ b x. ((new_key seen a b).0 x).0) arms k, d),
    ),
  ),
  λ (((t, (c, f)), h), ((u, k), (n, d))). (
    t,
    (c, (f, (u, (h, (All-imp (λ b x. (new_key seen a b).1 x) arms (All-both _ _ arms n k), d))))),
  ),
)

check_arms_iff :
    (seen : List Text) (arms : List WaitChannelArm)
    → (check_arms seen arms ≡ ok tt) ↔ Accepted seen arms
unfolding check_arms
check_arms_iff seen [] = ground arith
check_arms_iff seen (a ∷ arms) =
    let steps = both_iff _ _ (check_segment_iff team_name a.team) (
      both_iff _ _ (check_segment_iff channel_name a.channel) (
        both_iff _ _ (check_after_iff a.after)
          (both_iff _ _ (refuse_if_iff _ duplicate_arm) (check_arms_iff (key a ∷ seen) arms)))) in
    let shape = Accepted-step seen a arms in (λ h. shape.0 (steps.0 h), λ h. steps.1 (shape.1 h))

nothing_seen : (arms : List WaitChannelArm) → All (Unseen []) arms
nothing_seen [] = tt
nothing_seen (a ∷ arms) = (refl, nothing_seen arms)

-- The parameters of a fan-in wait are accepted exactly when the timeout is positive, there are two
-- to eight arms, every text has 1 to 256 bytes, and no two arms have the same key.
pub validate_wait_channels_params_iff :
    (p : WaitChannelsParams)
    → (validate_wait_channels_params p ≡ ok tt) ↔ (
        (1 ≤ p.timeout_secs)
        × (((min_arms ≤ length p.arms) × (length p.arms ≤ max_arms))
            × ((All IsArm p.arms × Distinct p.arms)
                × (IsOptional p.contains × IsOptional p.pattern))))
unfolding validate_wait_channels_params
validate_wait_channels_params_iff p = both_iff _ _ (ground arith) (
    both_iff _ _ (ground arith) (
      both_iff _ _ arms_iff (
        both_iff _ _ (check_optional_filter_iff contains_name p.contains)
          (check_optional_filter_iff pattern_name p.pattern))))
  where
    arms_iff : (check_arms [] p.arms ≡ ok tt) ↔ (All IsArm p.arms × Distinct p.arms)
    arms_iff =
        let c = check_arms_iff [] p.arms in
        (λ h. let (a, (u, d)) = c.0 h in (a, d), λ (a, d). c.1 (a, (nothing_seen p.arms, d)))
