-- ===== src/Common/Sum.antt =====
-- Sums over the rows of a table, and how a write to one row changes them.
use digital_real_estate_engi.Common.{
  ℕ, ◌+◌, ◌≤◌, ◌≡◌, ◌≢◌, inl, inr, refl, Bool, none, some, List, [], ◌∷◌, map, ◌==◌, arith, All,
  Bool-cases, eq_of_==,
}
use digital_real_estate_engi.Common.Table.{get, touch, IsKeyed}

abbrev pub sum_of {ℓ} : {A : Type ℓ} → (A → ℕ) → List A → ℕ
sum_of w [] = 0
sum_of w (x ∷ xs) = w x + sum_of w xs

module _ {ℓ} {A : Type ℓ} (key : A → ℕ) (w : A → ℕ) (f : A → A) (i : ℕ) where
  sum-absent :
      (xs : List A)
      → All (λ y. key y ≢ i) xs
      → sum_of w (map (touch (λ x. key x == i) f) xs) ≡ sum_of w xs
  sum-absent [] h = refl
  sum-absent (x ∷ xs) h = ground (arith, sum-absent xs h.1)

  -- A write to the row of key `i` moves the sum by the change of that row's weight.
  pub sum-touch :
      (x : A) (xs : List A)
      → IsKeyed key xs
      → get key i xs ≡ some x
      → sum_of w (map (touch (λ y. key y == i) f) xs) + w x ≡ sum_of w xs + w (f x)
  unfolding get
  sum-touch x [] h e = cc
  sum-touch x (y ∷ ys) h e = elim (Bool-cases (key y == i)) [
    | inl is ↦ let absent = sum-absent ys (rw (eq_of_== _ _ is) at h.0) in ground (arith, absent)
    | inr other ↦ ground (arith, sum-touch x ys h.1)
  ]

  pub sum-touch-none :
      (xs : List A)
      → get key i xs ≡ none
      → sum_of w (map (touch (λ y. key y == i) f) xs) ≡ sum_of w xs
  unfolding get
  sum-touch-none [] e = refl
  sum-touch-none (y ∷ ys) e = ground (arith, sum-touch-none ys)

  -- The weight of a row is part of the sum.
  pub le-sum_of : (x : A) (xs : List A) → get key i xs ≡ some x → w x ≤ sum_of w xs
  unfolding get
  le-sum_of x [] e = cc
  le-sum_of x (y ∷ ys) e = ground (arith, le-sum_of x ys)

-- A write that no weight depends on.
pub sum-touch_same {ℓ} :
    {A : Type ℓ} (w : A → ℕ) (p : A → Bool) (f : A → A)
    → ((x : A) → w (f x) ≡ w x)
    → (xs : List A) → sum_of w (map (touch p f) xs) ≡ sum_of w xs
sum-touch_same w p f same [] = refl
sum-touch_same w p f same (x ∷ xs) = ground (arith, same x, sum-touch_same w p f same xs)
