-- ===== src/Follow/Order.antt =====
-- The strict `(create_at, id)` order of crates/chanvoy-core/src/wait_follow.rs.
use chanvoy.Base.{
  List, [], ◌∷◌, Option, none, some, Result, ok, Bool, true, false, not, ◌≡◌, refl, ◌↔◌, arith,
  refuse_if, ◌>>◌, All, All-imp, All-both,
}
use chanvoy.Base.Texts.{Text, text_beq, text_ltb_or_eq, text_ltb_trans}
use chanvoy.Follow.{
  Key, key_ltb, key_leb, seen_before, not_after, strict_order_loop,
  validate_strict_create_at_id_order, ids_not_unique, order_not_strict,
}

-- Every key is below every later one, and has another id.
abbrev pub Below : Key → Key → Type 0
Below key later = (key_ltb key later ≡ true) × (text_beq key.1 later.1 ≡ false)

abbrev pub Rising : List Key → Type 0
Rising [] = Unit
Rising (key ∷ keys) = All (Below key) keys × Rising keys

abbrev Above : Option Key → Key → Type 0
Above prev key = not_after prev key ≡ false

abbrev Unseen : List Text → Key → Type 0
Unseen seen key = seen_before key.1 seen ≡ false

pub key_leb-key_ltb : (a b : Key) → key_leb a b ≡ not (key_ltb b a)
key_leb-key_ltb a b = ground (arith, text_ltb_or_eq a.1 b.1)

pub key_ltb_trans : (a b c : Key) → key_ltb a b ≡ true → key_ltb b c ≡ true → key_ltb a c ≡ true
key_ltb_trans a b c h k = ground (arith, text_ltb_trans a.1 b.1 c.1)

Above-trans :
    (prev : Option Key) (key later : Key)
    → Above prev key
    → Above (some key) later
    → Above prev later
Above-trans none key later h k = refl
Above-trans (some prev) key later h k = ground (
  arith,
  key_leb-key_ltb key prev,
  key_leb-key_ltb later key,
  key_leb-key_ltb later prev,
  key_ltb_trans prev key later,
)

-- What the loop has still to accept.
abbrev Fits : Option Key → List Text → List Key → Type 0
Fits prev seen keys = All (Above prev) keys × (All (Unseen seen) keys × Rising keys)

Fits-step :
    (prev : Option Key) (seen : List Text) (key : Key) (keys : List Key)
    → Fits prev seen (key ∷ keys)
      ↔ ((Above prev key × Unseen seen key) × Fits (some key) (key.1 ∷ seen) keys)
Fits-step prev seen key keys = (
  λ f. (
    (f.0.0, f.1.0.0),
    (
      All-imp (λ l b. ground (arith, key_leb-key_ltb l key)) keys f.1.1.0,
      (All-imp (λ l b. ground arith) keys (All-both _ _ keys f.1.1.0 f.1.0.1), f.1.1.1),
    ),
  ),
  λ f. (
    (f.0.0, All-imp (λ l a. Above-trans prev key l f.0.0 a) keys f.1.0),
    (
      (f.0.1, All-imp (λ l u. ground arith) keys f.1.1.0),
      (
        All-imp (λ l b. ground (arith, key_leb-key_ltb l key)) keys
            (All-both _ _ keys f.1.0 f.1.1.0),
        f.1.1.1,
      ),
    ),
  ),
)

refuse_if-pair :
    {E : Type 0} (a b : Bool) (e f : E) (m : Result E (Unit {0}))
    → ((refuse_if a e >> (refuse_if b f >> m)) ≡ ok tt)
      ↔ (((b ≡ false) × (a ≡ false)) × (m ≡ ok tt))
refuse_if-pair false false e f m = (λ h. ((refl, refl), h), λ h. h.1)
refuse_if-pair true b e f m = (λ h. cc, λ h. cc)
refuse_if-pair false true e f m = (λ h. cc, λ h. cc)

strict_order_loop-Fits :
    (prev : Option Key) (seen : List Text) (keys : List Key)
    → (strict_order_loop prev seen keys ≡ ok tt) ↔ Fits prev seen keys
unfolding strict_order_loop
strict_order_loop-Fits prev seen [] = ground arith
strict_order_loop-Fits prev seen (key ∷ keys) =
    let step = Fits-step prev seen key keys in
    let rest = strict_order_loop-Fits (some key) (key.1 ∷ seen) keys in
    let pair =
      refuse_if-pair (seen_before key.1 seen) (not_after prev key) ids_not_unique order_not_strict
        (strict_order_loop (some key) (key.1 ∷ seen) keys) in
    (
      λ h. step.1 ((pair.0 h).0, rest.0 (pair.0 h).1),
      λ f. pair.1 ((step.0 f).0, rest.1 (step.0 f).1),
    )

All-any {ℓ κ} : {A : Type ℓ} {P : A → Type κ} → ((x : A) → P x) → (xs : List A) → All P xs
All-any f [] = tt
All-any f (x ∷ xs) = (f x, All-any f xs)

-- `validate_strict_create_at_id_order` accepts exactly the lists in which every key is below every
-- later one in the order of `(create_at, id)` and has another id.
pub validate_strict_create_at_id_order-Rising :
    (keys : List Key) → (validate_strict_create_at_id_order keys ≡ ok tt) ↔ Rising keys
unfolding validate_strict_create_at_id_order
validate_strict_create_at_id_order-Rising keys =
    let fits = strict_order_loop-Fits none [] keys in
    (λ h. (fits.0 h).1.1, λ r. fits.1 (All-any (λ k. refl) keys, (All-any (λ k. refl) keys, r)))
