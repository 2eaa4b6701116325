-- ===== src/Common/Sweep.antt =====
-- The loops `for row in selected: ...` that write each selected row of a table by its key.
use mathlib.Core.Option
use digital_real_estate_engi.Common.{
  ℕ, ◌≡◌, refl, ap, ◌∙◌, inl, inr, Bool, true, List, [], ◌∷◌, map, ◌&&◌, ◌==◌, leb, if◌then◌else◌,
  filter, arith, Bool-cases, eq_of_==,
}
use digital_real_estate_engi.Common.Table.{
  get, touch, count_where, count-absent, count-by_key, get-touch_key, IsKeyed, IsKeyed-map,
}
use digital_real_estate_engi.Common.Sort.{sort_by, IsKeyed-sort_by, IsKeyed-filter, count-sort_by}

module _ {ℓ} {A : Type ℓ} (key : A → ℕ) (f : ℕ → A → A)
    (same : (i : ℕ) (x : A) → key (f i x) ≡ key x) where
  unfoldable pub sweep : List A → List A → List A
  sweep [] rows = rows
  sweep (x ∷ xs) rows = sweep xs (map (touch (λ y. key y == key x) (f (key x))) rows)

  -- A row that was selected once is written once.
  sweep-get :
      (j : ℕ) (xs rows : List A)
      → IsKeyed key xs
      → get key j (sweep xs rows) ≡ (
          if leb 1 (count_where (λ x. key x == j && true) xs)
          then Option.map (f j) (get key j rows)
          else get key j rows)
  unfolding sweep
  sweep-get j [] rows keyed = refl
  sweep-get j (x ∷ xs) rows keyed =
      let rest = sweep-get j xs (map (touch (λ y. key y == key x) (f (key x))) rows) keyed.1 in
      let written = get-touch_key key (f (key x)) (same (key x)) (key x) j rows in
      elim (Bool-cases (key x == j)) [
        | inl is ↦
            let here : key x ≡ j = eq_of_== _ _ is in
            let absent = count-absent key (λ y. true) j xs (rw here at keyed.0) in
            ground (arith, rest, written, absent, here, ap f here)
        | inr other ↦ ground (arith, rest, written, other)
      ]

  pub count-filter :
      (j : ℕ) (p : A → Bool) (rows : List A)
      → count_where (λ x. key x == j && true) (filter p rows)
        ≡ count_where (λ x. key x == j && p x) rows
  count-filter j p [] = refl
  count-filter j p (x ∷ rows) = ground (arith, count-filter j p rows)

  -- The rows that a test selects are written, in whatever order, and no others.
  pub sweep-selected :
      (order : A → ℕ) (p : A → Bool) (j : ℕ) (rows : List A)
      → IsKeyed key rows
      → get key j (sweep (sort_by order (filter p rows)) rows)
        ≡ Option.map (touch p (f j)) (get key j rows)
  sweep-selected order p j rows keyed =
      let chosen_keyed =
        IsKeyed-sort_by key order (filter p rows) (IsKeyed-filter key p rows keyed) in
      let once =
        count-sort_by order (λ x. key x == j && true) (filter p rows)
        ∙ count-filter j p rows
        ∙ count-by_key key p j rows keyed in
      ground (arith, sweep-get j (sort_by order (filter p rows)) rows chosen_keyed, once)

  pub sweep-IsKeyed : (xs rows : List A) → IsKeyed key rows → IsKeyed key (sweep xs rows)
  unfolding sweep
  sweep-IsKeyed [] rows keyed = keyed
  sweep-IsKeyed (x ∷ xs) rows keyed = sweep-IsKeyed xs _ (
      IsKeyed-map key (touch (λ y. key y == key x) (f (key x)))
        (λ y. ground (arith, same (key x) y)) rows keyed)
