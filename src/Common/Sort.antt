-- ===== src/Common/Sort.antt =====
-- `order_by(column)`: stable insertion sort of rows by a numeric column.
use digital_real_estate_engi.Common.{
  ℕ, ◌+◌, ◌≤◌, ◌≡◌, inl, inr, refl, Bool, List, [], ◌∷◌, arith, leb, if◌then◌else◌, All, length,
  map, filter, All-filter, ◌≢◌, sym, Bool-cases,
}
use digital_real_estate_engi.Common.Table.{count_where, IsKeyed}

-- A column of numbers in ascending order.
abbrev pub Sorted : List ℕ → Type 0
Sorted [] = Unit
Sorted (n ∷ ns) = All (λ m. n ≤ m) ns × Sorted ns

module _ {ℓ} {A : Type ℓ} (key : A → ℕ) where
  pub insert_by : A → List A → List A
  insert_by x [] = x ∷ []
  insert_by x (y ∷ ys) = if leb (key x) (key y) then x ∷ y ∷ ys else y ∷ insert_by x ys

  unfoldable pub sort_by : List A → List A
  unfolding insert_by
  sort_by [] = []
  sort_by (x ∷ xs) = insert_by x (sort_by xs)

  -- No later row has a smaller key than the first.
  abbrev pub IsSorted : List A → Type 0
  IsSorted [] = Unit
  IsSorted (x ∷ xs) = All (λ y. key x ≤ key y) xs × IsSorted xs

  pub All-insert_by {κ} :
      (P : A → Type κ) (x : A) (ys : List A) → P x → All P ys → All P (insert_by x ys)
  unfolding insert_by
  All-insert_by P x [] p h = (p, tt)
  All-insert_by P x (y ∷ ys) p h = elim (Bool-cases (leb (key x) (key y))) [
    | inl le ↦ rw le (p, h)
    | inr gt ↦ rw gt (h.0, All-insert_by P x ys p h.1)
  ]

  pub All-sort_by {κ} : (P : A → Type κ) (xs : List A) → All P xs → All P (sort_by xs)
  unfolding sort_by
  All-sort_by P [] h = h
  All-sort_by P (x ∷ xs) h = All-insert_by P x (sort_by xs) h.0 (All-sort_by P xs h.1)

  All-le_trans : (a b : ℕ) (ys : List A) → a ≤ b → All (λ y. b ≤ key y) ys → All (λ y. a ≤ key y) ys
  All-le_trans a b [] h k = tt
  All-le_trans a b (y ∷ ys) h k = (omega arith, All-le_trans a b ys h k.1)

  insert_by-IsSorted : (x : A) (ys : List A) → IsSorted ys → IsSorted (insert_by x ys)
  unfolding insert_by
  insert_by-IsSorted x [] s = (tt, tt)
  insert_by-IsSorted x (y ∷ ys) s = elim (Bool-cases (leb (key x) (key y))) [
    | inl le ↦ rw le ((ground arith, All-le_trans (key x) (key y) ys (ground arith) s.0), s)
    | inr gt ↦
        rw gt
          (All-insert_by (λ z. key y ≤ key z) x ys (ground arith) s.0, insert_by-IsSorted x ys s.1)
  ]

  pub sort_by-IsSorted : (xs : List A) → IsSorted (sort_by xs)
  unfolding sort_by
  sort_by-IsSorted [] = tt
  sort_by-IsSorted (x ∷ xs) = insert_by-IsSorted x (sort_by xs) (sort_by-IsSorted xs)

  -- Sorting keeps every row: each test counts as many rows as before.
  count-insert_by :
      (p : A → Bool) (x : A) (ys : List A)
      → count_where p (insert_by x ys) ≡ (if p x then 1 else 0) + count_where p ys
  unfolding insert_by
  count-insert_by p x [] = refl
  count-insert_by p x (y ∷ ys) = ground (arith, count-insert_by p x ys)

  pub count-sort_by : (p : A → Bool) (xs : List A) → count_where p (sort_by xs) ≡ count_where p xs
  unfolding sort_by
  count-sort_by p [] = refl
  count-sort_by p (x ∷ xs) = ground (arith, count-insert_by p x (sort_by xs), count-sort_by p xs)

  All_of_All-insert_by {κ} :
      (P : A → Type κ) (x : A) (ys : List A) → All P (insert_by x ys) → P x × All P ys
  unfolding insert_by
  All_of_All-insert_by P x [] h = h
  All_of_All-insert_by P x (y ∷ ys) h = elim (Bool-cases (leb (key x) (key y))) [
    | inl le ↦ rw le at h
    | inr gt ↦
        let h' = rw gt at h in
        let rest = All_of_All-insert_by P x ys h'.1 in (rest.0, (h'.0, rest.1))
  ]

  pub All_of_All-sort_by {κ} : (P : A → Type κ) (xs : List A) → All P (sort_by xs) → All P xs
  unfolding sort_by
  All_of_All-sort_by P [] h = h
  All_of_All-sort_by P (x ∷ xs) h =
      let (first, rest) = All_of_All-insert_by P x (sort_by xs) h in
      (first, All_of_All-sort_by P xs rest)

  length-insert_by : (x : A) (ys : List A) → length (insert_by x ys) ≡ length ys + 1
  unfolding insert_by
  length-insert_by x [] = omega arith
  length-insert_by x (y ∷ ys) = ground (arith, length-insert_by x ys)

  pub length-sort_by : (xs : List A) → length (sort_by xs) ≡ length xs
  unfolding sort_by
  length-sort_by [] = refl
  length-sort_by (x ∷ xs) = omega (arith, length-insert_by x (sort_by xs), length-sort_by xs)

  All-map_le : (n : ℕ) (xs : List A) → All (λ y. n ≤ key y) xs → All (λ m. n ≤ m) (map key xs)
  All-map_le n [] h = tt
  All-map_le n (x ∷ xs) h = (h.0, All-map_le n xs h.1)

  -- The sorted column.
  pub IsSorted-map : (xs : List A) → IsSorted xs → Sorted (map key xs)
  IsSorted-map [] s = tt
  IsSorted-map (x ∷ xs) s = (All-map_le (key x) xs s.0, IsSorted-map xs s.1)

-- Selecting and sorting rows keeps their keys distinct.
module _ {ℓ} {A : Type ℓ} (key : A → ℕ) where
  pub IsKeyed-filter : (p : A → Bool) (xs : List A) → IsKeyed key xs → IsKeyed key (filter p xs)
  IsKeyed-filter p [] h = h
  IsKeyed-filter p (x ∷ xs) h = elim (Bool-cases (p x)) [
    | inl t ↦ rw t (All-filter (λ y. key y ≢ key x) p xs h.0, IsKeyed-filter p xs h.1)
    | inr f ↦ rw f (IsKeyed-filter p xs h.1)
  ]

  IsKeyed-insert_by :
      (order : A → ℕ) (x : A) (ys : List A)
      → All (λ y. key y ≢ key x) ys
      → IsKeyed key ys
      → IsKeyed key (insert_by order x ys)
  unfolding insert_by
  IsKeyed-insert_by order x [] n h = (n, h)
  IsKeyed-insert_by order x (y ∷ ys) n h = elim (Bool-cases (leb (order x) (order y))) [
    | inl le ↦ rw le (n, h)
    | inr gt ↦ rw gt (
      All-insert_by order (λ z. key z ≢ key y) x ys (λ e. n.0 (sym e)) h.0,
      IsKeyed-insert_by order x ys n.1 h.1,
    )
  ]

  pub IsKeyed-sort_by :
      (order : A → ℕ) (xs : List A) → IsKeyed key xs → IsKeyed key (sort_by order xs)
  unfolding sort_by
  IsKeyed-sort_by order [] h = h
  IsKeyed-sort_by order (x ∷ xs) h =
      IsKeyed-insert_by order x (sort_by order xs) (All-sort_by order (λ y. key y ≢ key x) xs h.0)
        (IsKeyed-sort_by order xs h.1)
