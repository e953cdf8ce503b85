-- ===== src/WaitChannels/Winner.antt =====
-- The order of the candidates of a backfill, and the choice of `first_backfill_winner`.
use chanvoy.Base.{
  List, [], ◌∷◌, ◌++◌, some, true, false, ◌≡◌, refl, sym, ap, subst, ◌⊎◌, inl, inr, arith,
  Bool-cases, All,
}
use chanvoy.Base.Int.{eq_of_parts}
use chanvoy.Base.Texts.{text_beq_iff, text_ltb_trans, text_ltb_or_eq}
use chanvoy.WaitChannels.{Candidate, candidate_ltb, keep_least, first_backfill_winner}

module _ {A : Type 0} where
  candidate_ltb_trans :
      (a b c : Candidate A)
      → candidate_ltb a b ≡ true
      → candidate_ltb b c ≡ true
      → candidate_ltb a c ≡ true
  candidate_ltb_trans a b c h k = ground (
    arith,
    text_beq_iff a.message.id b.message.id,
    text_beq_iff b.message.id c.message.id,
    text_beq_iff a.message.id c.message.id,
    text_ltb_trans a.message.id b.message.id c.message.id,
    text_ltb_trans a.channel_id b.channel_id c.channel_id,
  )

  -- One of two candidates is below the other, or they have the same time, id and channel.
  either_below :
      (a b : Candidate A)
      → candidate_ltb b a ≡ false
      → (candidate_ltb a b ≡ true)
        ⊎ ((a.message.create_at ≡ b.message.create_at)
            × ((a.message.id ≡ b.message.id) × (a.channel_id ≡ b.channel_id)))
  either_below a b h = elim (Bool-cases (candidate_ltb a b)) [
    | inl k ↦ inl k
    | inr k ↦ inr (
      eq_of_parts a.message.create_at b.message.create_at (ground arith),
      (
        ground (
          arith,
          text_ltb_or_eq a.message.id b.message.id,
          text_beq_iff a.message.id b.message.id,
        ),
        ground (
          arith,
          text_ltb_or_eq a.message.id b.message.id,
          text_ltb_or_eq a.channel_id b.channel_id,
          text_beq_iff a.message.id b.message.id,
          text_beq_iff b.message.id a.message.id,
          text_beq_iff a.channel_id b.channel_id,
        ),
      ),
    )
  ]

  -- What is below the best is below everything that does not beat the best.
  below_later :
      (w best c : Candidate A)
      → candidate_ltb w best ≡ true
      → candidate_ltb c best ≡ false
      → candidate_ltb w c ≡ true
  below_later w best c h k = elim (either_below best c k) [
    | inl l ↦ candidate_ltb_trans w best c h l
    | inr (e, (f, g)) ↦ cc
  ]

  -- The winner, what is before it and what is after it.
  pub record Earliest (cs : List (Candidate A)) (w : Candidate A) : Type 0 where
    pub before : List (Candidate A)
    pub after : List (Candidate A)
    pub found : cs ≡ before ++ (w ∷ after)
    pub strictly_first : All (λ c. candidate_ltb w c ≡ true) before
    pub not_beaten : All (λ c. candidate_ltb c w ≡ false) after

  head_least :
      (c w : Candidate A) (cs before after : List (Candidate A))
      → c ∷ cs ≡ before ++ (w ∷ after)
      → All (λ x. candidate_ltb w x ≡ true) before
      → (w ≡ c) ⊎ (candidate_ltb w c ≡ true)
  head_least c w cs [] after e h = inl cc
  head_least c w cs (x ∷ before) after e h =
      inr (subst (λ y. candidate_ltb w y ≡ true) (first_eq e) h.0)
    where
      first_eq : c ∷ cs ≡ x ∷ (before ++ (w ∷ after)) → x ≡ c
      first_eq e = cc

  beaten-Earliest :
      (best c w : Candidate A) (cs : List (Candidate A))
      → candidate_ltb c best ≡ true
      → Earliest (c ∷ cs) w
      → Earliest (best ∷ c ∷ cs) w
  beaten-Earliest best c w cs h e = record {
    before = best ∷ e.before;
    after = e.after;
    found = ap (λ l. best ∷ l) e.found;
    strictly_first =
        (below (head_least c w cs e.before e.after e.found e.strictly_first), e.strictly_first);
    not_beaten = e.not_beaten;
  }
    where
      below : (w ≡ c) ⊎ (candidate_ltb w c ≡ true) → candidate_ltb w best ≡ true
      below (inl same) = subst (λ x. candidate_ltb x best ≡ true) (sym same) h
      below (inr less) = candidate_ltb_trans w c best less h

  kept-Earliest :
      (best c w : Candidate A) (cs before after : List (Candidate A))
      → candidate_ltb c best ≡ false
      → best ∷ cs ≡ before ++ (w ∷ after)
      → All (λ x. candidate_ltb w x ≡ true) before
      → All (λ x. candidate_ltb x w ≡ false) after
      → Earliest (best ∷ c ∷ cs) w
  kept-Earliest best c w cs [] after h e f g = record {
    before = [];
    after = c ∷ after;
    found = cc;
    strictly_first = tt;
    not_beaten = (subst (λ x. candidate_ltb c x ≡ false) (same e) h, g);
  }
    where
      same : best ∷ cs ≡ w ∷ after → best ≡ w
      same e = cc
  kept-Earliest best c w cs (x ∷ before) after h e f g = record {
    before = x ∷ c ∷ before;
    after = after;
    found = cc;
    strictly_first =
        (f.0, (below_later w x c f.0 (subst (λ y. candidate_ltb c y ≡ false) (same e) h), f.1));
    not_beaten = g;
  }
    where
      same : best ∷ cs ≡ x ∷ (before ++ (w ∷ after)) → best ≡ x
      same e = cc

  keep_least-Earliest :
      (best : Candidate A) (cs : List (Candidate A)) → Earliest (best ∷ cs) (keep_least best cs)
  unfolding keep_least
  keep_least-Earliest best [] = record {
    before = [];
    after = [];
    found = refl;
    strictly_first = tt;
    not_beaten = tt;
  }
  keep_least-Earliest best (c ∷ cs) =
      let e = keep_least-Earliest best cs in
      elim (Bool-cases (candidate_ltb c best)) [
        | inl h ↦ rw h (beaten-Earliest best c _ cs h (keep_least-Earliest c cs))
        | inr h ↦
            rw h
              (kept-Earliest best c _ cs e.before e.after h e.found e.strictly_first e.not_beaten)
      ]

  -- Among one or more candidates there is a winner: it is strictly below every candidate before it in
  -- the list, by time, then id, then channel, and no candidate after it is below it.
  pub first_backfill_winner-Earliest :
      (c : Candidate A) (cs : List (Candidate A))
      → (w : Candidate A) × ((first_backfill_winner (c ∷ cs) ≡ some w) × Earliest (c ∷ cs) w)
  unfolding first_backfill_winner
  first_backfill_winner-Earliest c cs = (keep_least c cs, (refl, keep_least-Earliest c cs))
