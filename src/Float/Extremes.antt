-- ===== src/Float/Extremes.antt =====
-- The folds by `f64::min` from infinity and by `f64::max` from negative infinity.
use bitcoin_price_tracker.Prelude.{
  ◌≡◌, refl, sym, ◌∙◌, true, ◌⊎◌, inl, inr, List, [], ◌∷◌, All, fold,
}
use mathlib.Core.Path.{subst}
use bitcoin_price_tracker.Float.{Float64, IsFloat, ◌≼◌}

-- The value stands in the list.
abbrev pub OneOf : {W : Type 0} → W → List W → Type 0
OneOf x [] = ⊥
OneOf x (y ∷ ys) = (x ≡ y) ⊎ OneOf x ys

module _ {W : Type 0} (Good : W → Type 0) (R : W → W → Type 0) (op : W → W → W)
    (R_refl : (x : W) → Good x → R x x) (R_trans : (x y z : W) → R x y → R y z → R x z)
    (choice : (x y : W) → (op x y ≡ x) ⊎ (op x y ≡ y))
    (left : (x y : W) → Good x → Good y → R (op x y) x)
    (right : (x y : W) → Good x → Good y → R (op x y) y) where
  good_op : (x y : W) → Good x → Good y → (op x y ≡ x) ⊎ (op x y ≡ y) → Good (op x y)
  good_op x y g h (inl e) = subst Good (sym e) g
  good_op x y g h (inr e) = subst Good (sym e) h

  chosen :
      (m x y : W) (ys : List W)
      → (op x y ≡ x) ⊎ (op x y ≡ y)
      → OneOf m (op x y ∷ ys)
      → OneOf m (x ∷ y ∷ ys)
  chosen m x y ys (inl e) (inl d) = inl (d ∙ e)
  chosen m x y ys (inr e) (inl d) = inr (inl (d ∙ e))
  chosen m x y ys c (inr o) = inr (inr o)

  fold_extreme :
      (x : W) (ys : List W)
      → Good x
      → All Good ys
      → OneOf (fold op x ys) (x ∷ ys) × All (R (fold op x ys)) (x ∷ ys)
  fold_extreme x [] g h = (inl refl, (R_refl x g, tt))
  fold_extreme x (y ∷ ys) g h =
      let (o, a) = fold_extreme (op x y) ys (good_op x y g h.0 (choice x y)) h.1 in
      (
        chosen _ x y ys (choice x y) o,
        (R_trans _ _ _ a.0 (left x y g h.0), (R_trans _ _ _ a.0 (right x y g h.0), a.1)),
      )

module _ {W : Type 0} ⦃f : Float64 W⦄ (laws : IsFloat W) where
  abbrev pub IsFinite : W → Type 0
  IsFinite x = f.is_finite x ≡ true

  -- The fold by `min` is one of the values, and none is below it.
  pub min_lem :
      (x : W) (xs : List W)
      → All IsFinite (x ∷ xs)
      → OneOf (fold f.min f.infinity (x ∷ xs)) (x ∷ xs)
        × All (λ y. fold f.min f.infinity (x ∷ xs) ≼ y) (x ∷ xs)
  min_lem x xs h =
      subst (λ z. OneOf (fold f.min z xs) (x ∷ xs) × All (λ y. fold f.min z xs ≼ y) (x ∷ xs))
        (sym (laws.min-infinity x h.0))
        (fold_extreme IsFinite (λ a b. a ≼ b) f.min laws.le_refl laws.le_trans laws.min_choice
          laws.min-le_left laws.min-le_right x xs h.0 h.1)

  -- The fold by `max` is one of the values, and none is above it.
  pub max_lem :
      (x : W) (xs : List W)
      → All IsFinite (x ∷ xs)
      → OneOf (fold f.max f.neg_infinity (x ∷ xs)) (x ∷ xs)
        × All (λ y. y ≼ fold f.max f.neg_infinity (x ∷ xs)) (x ∷ xs)
  max_lem x xs h =
      subst (λ z. OneOf (fold f.max z xs) (x ∷ xs) × All (λ y. y ≼ fold f.max z xs) (x ∷ xs))
        (sym (laws.max-neg_infinity x h.0))
        (fold_extreme IsFinite (λ a b. b ≼ a) f.max laws.le_refl
          (λ a b c p q. laws.le_trans c b a q p) laws.max_choice laws.le-max_left laws.le-max_right
          x xs h.0 h.1)
