-- ===== src/Coalesce/Burst.antt =====
-- `order_coalesced` of crates/chanvoy-daemon/src/wait_coalesce.rs.
use chanvoy.Base.{
  List, [], ◌∷◌, ok, Bool, true, false, ◌||◌, map, any, All, All-imp, All-both, Bool-cases, inl,
  inr, ◌≡◌, refl, ap, ◌∙◌, arith,
}
use chanvoy.Base.Texts.{Text, text_beq, text_beq_iff, text_ltb_or_eq, text_ltb_trans}
use chanvoy.Follow.{Key, key_ltb, seen_before, validate_strict_create_at_id_order}
use chanvoy.Follow.Order.{Below, Rising, key_leb-key_ltb, validate_strict_create_at_id_order-Rising}
use chanvoy.Coalesce.{CoalesceOrder, order_key, place, sort_by_key, retain_new, order_coalesced}

seen_beq :
    (id other : Text) (seen : List Text)
    → text_beq other id ≡ true
    → seen_before other seen ≡ seen_before id seen
seen_beq id other seen h = ap (λ t. seen_before t seen) ((text_beq_iff other id).0 h)

module _ {T : Type 0} ⦃o : CoalesceOrder T⦄ where
  -- No item is above a later one.
  abbrev pub Weak : T → T → Type 0
  Weak x y = key_ltb (order_key y) (order_key x) ≡ false

  abbrev pub Sorted : List T → Type 0
  Sorted [] = Unit
  Sorted (x ∷ xs) = All (Weak x) xs × Sorted xs

  Weak-trans : (x y z : T) → Weak x y → Weak y z → Weak x z
  Weak-trans x y z h k = ground (
    arith,
    key_leb-key_ltb (order_key x) (order_key y),
    key_leb-key_ltb (order_key y) (order_key z),
    key_leb-key_ltb (order_key x) (order_key z),
    text_ltb_trans (o.coalesce_id x) (o.coalesce_id y) (o.coalesce_id z),
    text_ltb_trans (o.coalesce_id z) (o.coalesce_id x) (o.coalesce_id y),
    text_ltb_trans (o.coalesce_id y) (o.coalesce_id z) (o.coalesce_id x),
    text_beq_iff (o.coalesce_id x) (o.coalesce_id y),
    text_beq_iff (o.coalesce_id y) (o.coalesce_id z),
    text_ltb_or_eq (o.coalesce_id x) (o.coalesce_id y),
    text_ltb_or_eq (o.coalesce_id y) (o.coalesce_id z),
    text_ltb_or_eq (o.coalesce_id x) (o.coalesce_id z),
  )

  pub place-All : (P : T → Type 0) (x : T) (ys : List T) → P x → All P ys → All P (place x ys)
  place-All P x [] h k = (h, tt)
  place-All P x (y ∷ ys) h k = elim (Bool-cases (key_ltb (order_key y) (order_key x))) [
    | inl b ↦ rw b (k.0, place-All P x ys h k.1)
    | inr b ↦ rw b (h, k)
  ]

  place-Sorted : (x : T) (ys : List T) → Sorted ys → Sorted (place x ys)
  place-Sorted x [] s = (tt, tt)
  place-Sorted x (y ∷ ys) s = elim (Bool-cases (key_ltb (order_key y) (order_key x))) [
    | inl b ↦ rw b (
      place-All (Weak y) x ys (ground (arith, key_leb-key_ltb (order_key y) (order_key x))) s.0,
      place-Sorted x ys s.1,
    )
    | inr b ↦ rw b ((b, All-imp (λ z k. Weak-trans x y z b k) ys s.0), s)
  ]

  pub sort_by_key-Sorted : (xs : List T) → Sorted (sort_by_key xs)
  sort_by_key-Sorted [] = tt
  sort_by_key-Sorted (x ∷ xs) = place-Sorted x (sort_by_key xs) (sort_by_key-Sorted xs)

  pub sort_by_key-All : (P : T → Type 0) (xs : List T) → All P xs → All P (sort_by_key xs)
  sort_by_key-All P [] h = tt
  sort_by_key-All P (x ∷ xs) h = place-All P x (sort_by_key xs) h.0 (sort_by_key-All P xs h.1)

  retain_new-All :
      (P : T → Type 0) (seen : List Text) (xs : List T) → All P xs → All P (retain_new seen xs)
  retain_new-All P seen [] h = tt
  retain_new-All P seen (x ∷ xs) h = elim (Bool-cases (seen_before (o.coalesce_id x) seen)) [
    | inl b ↦ rw b (retain_new-All P seen xs h.1)
    | inr b ↦ rw b (h.0, retain_new-All P (o.coalesce_id x ∷ seen) xs h.1)
  ]

  retain_new-unseen :
      (seen : List Text) (xs : List T)
      → All (λ x. seen_before (o.coalesce_id x) seen ≡ false) (retain_new seen xs)
  retain_new-unseen seen [] = tt
  retain_new-unseen seen (x ∷ xs) = elim (Bool-cases (seen_before (o.coalesce_id x) seen)) [
    | inl b ↦ rw b (retain_new-unseen seen xs)
    | inr b ↦ rw b (
      b,
      All-imp (λ y h. ground arith) (retain_new (o.coalesce_id x ∷ seen) xs)
          (retain_new-unseen (o.coalesce_id x ∷ seen) xs),
    )
  ]

  keys-All :
      (P : Key → Type 0) (xs : List T) → All (λ x. P (order_key x)) xs → All P (map order_key xs)
  keys-All P [] h = tt
  keys-All P (x ∷ xs) h = (h.0, keys-All P xs h.1)

  Weak-Below :
      (x y : T)
      → Weak x y
      → text_beq (o.coalesce_id x) (o.coalesce_id y) ≡ false
      → Below (order_key x) (order_key y)
  Weak-Below x y w d = ground (arith, key_leb-key_ltb (order_key x) (order_key y))

  retain_new-Rising :
      (seen : List Text) (xs : List T) → Sorted xs → Rising (map order_key (retain_new seen xs))
  retain_new-Rising seen [] s = tt
  retain_new-Rising seen (x ∷ xs) s = elim (Bool-cases (seen_before (o.coalesce_id x) seen)) [
    | inl b ↦ rw b (retain_new-Rising seen xs s.1)
    | inr b ↦ rw b (
      keys-All (Below (order_key x)) (retain_new (o.coalesce_id x ∷ seen) xs) (
          All-imp (λ y h. Weak-Below x y h.0 (ground arith))
            (retain_new (o.coalesce_id x ∷ seen) xs)
            (All-both _ _ (retain_new (o.coalesce_id x ∷ seen) xs)
              (retain_new-All (Weak x) (o.coalesce_id x ∷ seen) xs s.0)
              (retain_new-unseen (o.coalesce_id x ∷ seen) xs))),
      retain_new-Rising (o.coalesce_id x ∷ seen) xs s.1,
    )
  ]

  abbrev pub has_id : Text → List T → Bool
  has_id id xs = any (λ x. text_beq (o.coalesce_id x) id) xs

  place-has_id :
      (id : Text) (x : T) (ys : List T)
      → has_id id (place x ys) ≡ (text_beq (o.coalesce_id x) id || has_id id ys)
  place-has_id id x [] = refl
  place-has_id id x (y ∷ ys) = ground (arith, place-has_id id x ys)

  sort_by_key-has_id : (id : Text) (xs : List T) → has_id id (sort_by_key xs) ≡ has_id id xs
  sort_by_key-has_id id [] = refl
  sort_by_key-has_id id (x ∷ xs) = cc (place-has_id id x (sort_by_key xs), sort_by_key-has_id id xs)

  retain_new-has_id :
      (id : Text) (seen : List Text) (xs : List T)
      → (seen_before id seen || has_id id (retain_new seen xs))
        ≡ (seen_before id seen || has_id id xs)
  retain_new-has_id id seen [] = refl
  retain_new-has_id id seen (x ∷ xs) = elim (Bool-cases (seen_before (o.coalesce_id x) seen)) [
    | inl b ↦
        rw b (ground (arith, retain_new-has_id id seen xs, seen_beq id (o.coalesce_id x) seen))
    | inr b ↦ rw b (
        ground (
          arith,
          retain_new-has_id id (o.coalesce_id x ∷ seen) xs,
          seen_beq id (o.coalesce_id x) seen,
        ))
  ]

  -- `order_coalesced` gives a list that `validate_strict_create_at_id_order` accepts, in which the
  -- same ids occur as in its input, and whose items have every property that all input items have.
  pub order_coalesced_lem :
      (items : List T)
      → (validate_strict_create_at_id_order (map order_key (order_coalesced items)) ≡ ok tt)
        × (((id : Text) → has_id id (order_coalesced items) ≡ has_id id items)
            × ((P : T → Type 0) → All P items → All P (order_coalesced items)))
  unfolding order_coalesced
  order_coalesced_lem items = (
    (validate_strict_create_at_id_order-Rising _).1
        (retain_new-Rising [] (sort_by_key items) (sort_by_key-Sorted items)),
    (
      λ id. retain_new-has_id id [] (sort_by_key items) ∙ sort_by_key-has_id id items,
      λ P h. retain_new-All P [] (sort_by_key items) (sort_by_key-All P items h),
    ),
  )
