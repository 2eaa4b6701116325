-- ===== src/Common/Query.antt =====
-- `select(...).where(...).order_by(...)`, of which the first row is read.
use digital_real_estate_engi.Common.{
  ℕ, ◌≡◌, ◌≢◌, refl, inl, inr, Bool, true, none, some, Option, List, [], ◌∷◌, filter, ap, Member,
  if◌then◌else◌, arith, Bool-cases, Option-cases,
}
use digital_real_estate_engi.Common.Sum.{sum_of}
use digital_real_estate_engi.Common.Table.{get, IsKeyed, All-found}

-- The first row of a query, in an order.
unfoldable pub first_by {ℓ} : {A : Type ℓ} → (A → A → Bool) → List A → Option A
first_by before [] = none
first_by before (x ∷ xs) = elim (first_by before xs) [
  | none ↦ some x
  | some y ↦ if before y x then some y else some x
]

-- The first row of a query passes its `where` clause.
pub first_by-filter {ℓ} :
    {A : Type ℓ} (before : A → A → Bool) (p : A → Bool) (xs : List A) (y : A)
    → first_by before (filter p xs) ≡ some y
    → p y ≡ true
unfolding first_by
first_by-filter before p [] y h = cc
first_by-filter before p (x ∷ xs) y h = elim (Bool-cases (p x)) [
  | inr f ↦ first_by-filter before p xs y (rw f at h)
  | inl t ↦ elim (Option-cases (first_by before (filter p xs))) [
    | inl absent ↦ ground (arith, t, absent)
    | inr (z, found) ↦
        let rest = first_by-filter before p xs z found in ground (arith, t, found, rest)
  ]
]

-- The first row of a query is a row of the table.
pub first_by-Member {ℓ} :
    {A : Type ℓ} (before : A → A → Bool) (p : A → Bool) (xs : List A) (y : A)
    → first_by before (filter p xs) ≡ some y
    → Member y xs
unfolding first_by
first_by-Member before p [] y h = cc
first_by-Member {A = A} before p (x ∷ xs) y h =
    let later : Member y xs → Member y (x ∷ xs) = λ m. (x ∷ m.0, m.1, ap (λ rest. x ∷ rest) m.2) in
    elim (Bool-cases (p x)) [
      | inr f ↦ later (first_by-Member before p xs y (rw f at h))
      | inl t ↦ elim (Option-cases (first_by before (filter p xs))) [
        | inl absent ↦
            let same : x ≡ y = ground (arith, t, absent) in ([], xs, ap (λ z. z ∷ xs) same)
        | inr (z, found) ↦ elim (Bool-cases (before z x)) [
          | inl first ↦
              let same : z ≡ y = ground (arith, t, found, first) in
              later (first_by-Member before p xs y (rw same at found))
          | inr second ↦
              let same : x ≡ y = ground (arith, t, found, second) in ([], xs, ap (λ z. z ∷ xs) same)
        ]
      ]
    ]

abbrev pub indicator : Bool → ℕ
indicator b = if b then 1 else 0

-- A query without a row: none passes.
pub first_by-none {ℓ} :
    {A : Type ℓ} (before : A → A → Bool) (p : A → Bool) (xs : List A)
    → first_by before (filter p xs) ≡ none
    → sum_of (λ x. indicator (p x)) xs ≡ 0
unfolding first_by
first_by-none before p [] h = refl
first_by-none before p (x ∷ xs) h = elim (Bool-cases (p x)) [
  | inr f ↦ let rest = first_by-none before p xs (rw f at h) in rw f (omega (arith, rest))
  | inl t ↦ elim (Option-cases (first_by before (filter p xs))) [
    | inl absent ↦ absurd (ground (arith, t, absent))
    | inr (z, found) ↦ absurd (ground (arith, t, found))
  ]
]

-- The row of a query is the one that its key finds.
pub first_by-get {ℓ} :
    {A : Type ℓ} (key : A → ℕ) (before : A → A → Bool) (p : A → Bool) (xs : List A) (y : A)
    → IsKeyed key xs
    → first_by before (filter p xs) ≡ some y
    → get key (key y) xs ≡ some y
unfolding first_by get
first_by-get key before p [] y keyed h = cc
first_by-get key before p (x ∷ xs) y keyed h = elim (Bool-cases (p x)) [
  | inr f ↦
      let rest = first_by-get key before p xs y keyed.1 (rw f at h) in
      let other = All-found key (λ z. key z ≢ key x) (key y) y xs rest keyed.0 in
      ground (arith, rest, other)
  | inl t ↦ elim (Option-cases (first_by before (filter p xs))) [
    | inl absent ↦ let same : x ≡ y = ground (arith, t, absent) in ground (arith, same)
    | inr (z, found) ↦
        let rest = first_by-get key before p xs z keyed.1 found in
        let other = All-found key (λ z. key z ≢ key x) (key z) z xs rest keyed.0 in
        elim (Bool-cases (before z x)) [
          | inl first ↦
              let same : z ≡ y = ground (arith, t, found, first) in
              ground (arith, rest, other, same)
          | inr second ↦ let same : x ≡ y = ground (arith, t, found, second) in ground (arith, same)
        ]
  ]
]
