-- ===== src/Base/Maps.antt =====
-- `HashMap` as an association list: a write replaces the entry of its key.
use Prim.Native.Nat.{ℕ, ◌+◌, ◌<◌}
use mathlib.Core.Path.{◌≡◌, refl}
use mathlib.Core.Bool.{Bool, true}
use mathlib.Core.Option.{Option, none, some}
use mathlib.Core.List.{List, [], ◌∷◌}
use native.Mathlib.Omega.{arith}
use chanvoy.Base.Tests.{if◌then◌else◌, Eq}

module _ {ℓ} {K : Type 0} {V : Type ℓ} where
  -- How many entries hold a value that passes a test.
  abbrev pub count_values : (V → Bool) → List (K × V) → ℕ
  count_values p [] = 0
  count_values p ((a, v) ∷ t) = (if p v then 1 else 0) + count_values p t

module _ {ℓ} {K : Type 0} ⦃e : Eq K⦄ {V : Type ℓ} where
  unfoldable pub lookup : K → List (K × V) → Option V
  lookup a [] = none
  lookup a ((b, v) ∷ t) = if e.beq b a then some v else lookup a t

  unfoldable pub insert : K → V → List (K × V) → List (K × V)
  insert a v [] = (a, v) ∷ []
  insert a v ((b, w) ∷ t) = if e.beq b a then (a, v) ∷ t else (b, w) ∷ insert a v t

  unfoldable pub remove : K → List (K × V) → List (K × V)
  remove a [] = []
  remove a ((b, w) ∷ t) = let rest = remove a t in if e.beq b a then rest else (b, w) ∷ rest

  pub lookup-insert :
      (a b : K) (v : V) (t : List (K × V))
      → lookup b (insert a v t) ≡ (if e.beq a b then some v else lookup b t)
  unfolding lookup insert
  lookup-insert a b v [] = refl
  lookup-insert a b v ((c, w) ∷ t) =
      ground (arith, e.beq_iff a b, e.beq_iff c a, e.beq_iff c b, lookup-insert a b v t)

  pub lookup-remove :
      (a b : K) (t : List (K × V))
      → lookup b (remove a t) ≡ (if e.beq a b then none else lookup b t)
  unfolding lookup remove
  lookup-remove a b [] = ground arith
  lookup-remove a b ((c, w) ∷ t) =
      ground (arith, e.beq_iff a b, e.beq_iff c a, e.beq_iff c b, lookup-remove a b t)

  -- Each key stands once, as in the source's map.
  abbrev pub Unique : List (K × V) → Type ℓ
  Unique [] = Unit
  Unique ((a, v) ∷ t) = (lookup a t ≡ none) × Unique t

  pub insert-Unique : (a : K) (v : V) (t : List (K × V)) → Unique t → Unique (insert a v t)
  unfolding insert lookup
  insert-Unique a v [] u = (refl, tt)
  insert-Unique a v ((b, w) ∷ t) u =
      ground (arith, e.beq_iff b a, e.beq_iff a b, lookup-insert a b v t, insert-Unique a v t u.1)

  pub remove-Unique : (a : K) (t : List (K × V)) → Unique t → Unique (remove a t)
  unfolding remove
  remove-Unique a [] u = tt
  remove-Unique a ((b, w) ∷ t) u =
      ground (arith, e.beq_iff b a, lookup-remove a b t, remove-Unique a t u.1)

  pub remove_absent : (a : K) (t : List (K × V)) → lookup a t ≡ none → remove a t ≡ t
  unfolding remove lookup
  remove_absent a [] h = refl
  remove_absent a ((b, w) ∷ t) h = ground (arith, remove_absent a t)

  pub count_values-insert_fresh :
      (p : V → Bool) (a : K) (v : V) (t : List (K × V))
      → lookup a t ≡ none
      → count_values p (insert a v t) ≡ count_values p t + (if p v then 1 else 0)
  unfolding insert lookup
  count_values-insert_fresh p a v [] h = omega arith
  count_values-insert_fresh p a v ((b, w) ∷ t) h = ground (arith, count_values-insert_fresh p a v t)

  pub count_values-insert_over :
      (p : V → Bool) (a : K) (v w : V) (t : List (K × V))
      → lookup a t ≡ some w
      → count_values p (insert a v t) + (if p w then 1 else 0)
        ≡ count_values p t + (if p v then 1 else 0)
  unfolding insert lookup
  count_values-insert_over p a v w [] h = cc
  count_values-insert_over p a v w ((b, x) ∷ t) h =
      ground (arith, count_values-insert_over p a v w t)

  pub count_values-remove :
      (p : V → Bool) (a : K) (w : V) (t : List (K × V))
      → Unique t
      → lookup a t ≡ some w
      → count_values p (remove a t) + (if p w then 1 else 0) ≡ count_values p t
  unfolding remove lookup
  count_values-remove p a w [] u h = cc
  count_values-remove p a w ((b, x) ∷ t) u h =
      ground (arith, e.beq_iff b a, remove_absent a t, count_values-remove p a w t u.1)

  -- A value that passes a test and is found under its key is counted.
  pub count_values_pos :
      (p : V → Bool) (a : K) (w : V) (t : List (K × V))
      → lookup a t ≡ some w
      → p w ≡ true
      → 0 < count_values p t
  unfolding lookup
  count_values_pos p a w [] h found = cc
  count_values_pos p a w ((b, x) ∷ t) h found = ground (arith, count_values_pos p a w t)
