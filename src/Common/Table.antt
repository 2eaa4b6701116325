-- ===== src/Common/Table.antt =====
-- A table with a numeric primary key, as the sessions of the program see it: `get` is
-- `session.get`, `update_where` is `session.execute(update(...).where(...).values(...))`, with the
-- statement's row count beside the new rows.
use mathlib.Core.Option
use Prim.Native.Nat.{ℕ, ◌+◌}
use mathlib.Core.Path.{◌≡◌, refl, sym, subst}
use mathlib.Core.Logic.{◌≢◌, inl, inr}
use mathlib.Core.Bool.{Bool, ◌&&◌}
use mathlib.Core.Option.{Option, none, some}
use mathlib.Core.List.{List, [], ◌∷◌, map}
use native.Mathlib.Omega.{arith}
use digital_real_estate_engi.Common.Tests.{◌==◌, if◌then◌else◌, Bool-cases, eq_of_==, ==-refl}
use digital_real_estate_engi.Common.Lists.{All, All-imp, All-both}

module _ {ℓ} {A : Type ℓ} where
  -- One row of a conditional update.
  abbrev pub touch : (A → Bool) → (A → A) → A → A
  touch p f x = if p x then f x else x

  abbrev pub count_where : (A → Bool) → List A → ℕ
  count_where p [] = 0
  count_where p (x ∷ xs) = (if p x then 1 else 0) + count_where p xs

  unfoldable pub update_where : (A → Bool) → (A → A) → List A → List A × ℕ
  update_where p f xs = (map (touch p f) xs, count_where p xs)

module _ {ℓ} {A : Type ℓ} (key : A → ℕ) where
  unfoldable pub get : ℕ → List A → Option A
  get i [] = none
  get i (x ∷ xs) = if key x == i then some x else get i xs

  -- A change that leaves the key alone is seen by `get` row by row.
  pub get-map :
      (f : A → A)
      → ((x : A) → key (f x) ≡ key x)
      → (i : ℕ) (xs : List A) → get i (map f xs) ≡ Option.map f (get i xs)
  unfolding get
  get-map f same i [] = refl
  get-map f same i (x ∷ xs) = ground (arith, same x, get-map f same i xs)

  pub key-get : (i : ℕ) (xs : List A) (x : A) → get i xs ≡ some x → key x ≡ i
  unfolding get
  key-get i [] x h = cc
  key-get i (y ∷ xs) x h = ground (arith, key-get i xs x)

-- No two rows have the same primary key.
abbrev pub IsKeyed {ℓ} : {A : Type ℓ} → (A → ℕ) → List A → Type 0
IsKeyed key [] = Unit
IsKeyed key (x ∷ xs) = All (λ y. key y ≢ key x) xs × IsKeyed key xs

-- The rows that an update by primary key and a test changes: one or none.
abbrev pub hits {ℓ} : {A : Type ℓ} → (A → Bool) → Option A → ℕ
hits p none = 0
hits p (some x) = if p x then 1 else 0

module _ {ℓ} {A : Type ℓ} (key : A → ℕ) (p : A → Bool) (i : ℕ) where
  pub count-absent :
      (xs : List A) → All (λ y. key y ≢ i) xs → count_where (λ x. key x == i && p x) xs ≡ 0
  count-absent [] h = refl
  count-absent (x ∷ xs) h = ground (arith, count-absent xs h.1)

  pub count-by_key :
      (xs : List A)
      → IsKeyed key xs
      → count_where (λ x. key x == i && p x) xs ≡ hits p (get key i xs)
  unfolding get
  count-by_key [] h = refl
  count-by_key (x ∷ xs) h = elim (Bool-cases (key x == i)) [
    | inl e ↦ let absent = count-absent xs (rw (eq_of_== _ _ e) at h.0) in ground (arith, absent)
    | inr n ↦ ground (arith, count-by_key xs h.1)
  ]

-- Writing rows in place keeps the keys distinct.
All-key-map {ℓ} :
    {A : Type ℓ} (key : A → ℕ) (f : A → A)
    → ((x : A) → key (f x) ≡ key x)
    → (i : ℕ) (xs : List A) → All (λ y. key y ≢ i) xs
    → All (λ y. key y ≢ i) (map f xs)
All-key-map key f same i [] h = h
All-key-map key f same i (x ∷ xs) h = (rw (same x) h.0, All-key-map key f same i xs h.1)

pub IsKeyed-map {ℓ} :
    {A : Type ℓ} (key : A → ℕ) (f : A → A)
    → ((x : A) → key (f x) ≡ key x)
    → (xs : List A) → IsKeyed key xs
    → IsKeyed key (map f xs)
IsKeyed-map key f same [] h = h
IsKeyed-map key f same (x ∷ xs) h =
    (rw (same x) (All-key-map key f same (key x) xs h.0), IsKeyed-map key f same xs h.1)

-- A conditional update of one primary key, as `get` sees it.
module _ {ℓ} {A : Type ℓ} (key : A → ℕ) (f : A → A) (same : (x : A) → key (f x) ≡ key x) where
  pub get-touch :
      (p : A → Bool) (i j : ℕ) (xs : List A)
      → get key j (map (touch (λ x. key x == i && p x) f) xs)
        ≡ (if j == i then Option.map (touch p f) (get key j xs) else get key j xs)
  unfolding get
  get-touch p i j [] = ground arith
  get-touch p i j (x ∷ xs) = ground (arith, same x, get-touch p i j xs)

  pub get-touch_key :
      (i j : ℕ) (xs : List A)
      → get key j (map (touch (λ x. key x == i) f) xs)
        ≡ (if j == i then Option.map f (get key j xs) else get key j xs)
  unfolding get
  get-touch_key i j [] = ground arith
  get-touch_key i j (x ∷ xs) = ground (arith, same x, get-touch_key i j xs)

-- Every row is the one that its key finds.
pub All-get {ℓ} :
    {A : Type ℓ} (key : A → ℕ) (xs : List A)
    → IsKeyed key xs
    → All (λ x. get key (key x) xs ≡ some x) xs
unfolding get
All-get key [] h = tt
All-get key (x ∷ xs) h = (
  rw (==-refl (key x)),
  All-imp (λ y. (key y ≢ key x) × (get key (key y) xs ≡ some y))
      (λ y. get key (key y) (x ∷ xs) ≡ some y) (λ y e. ground (arith, e.0, e.1)) xs
      (All-both (λ y. key y ≢ key x) (λ y. get key (key y) xs ≡ some y) xs h.0
        (All-get key xs h.1)),
)

pub All-found {ℓ ℓ'} :
    {A : Type ℓ} (key : A → ℕ) (P : A → Type ℓ') (i : ℕ) (x : A) (xs : List A)
    → get key i xs ≡ some x
    → All P xs
    → P x
unfolding get
All-found key P i x [] e h = cc
All-found key P i x (y ∷ xs) e h = elim (Bool-cases (key y == i)) [
  | inl same ↦ let first : y ≡ x = ground (arith, same) in subst P first h.0
  | inr other ↦ All-found key P i x xs (rw other at e) h.1
]

pub map-touch_absent {ℓ} :
    {A : Type ℓ} (key : A → ℕ) (f : A → A) (i : ℕ) (xs : List A)
    → All (λ y. key y ≢ i) xs
    → map (touch (λ y. key y == i) f) xs ≡ xs
map-touch_absent key f i [] h = refl
map-touch_absent key f i (x ∷ xs) h = ground (arith, map-touch_absent key f i xs h.1)

-- A write to the row that a key finds.
pub All-touch_found {ℓ ℓ'} :
    {A : Type ℓ} (key : A → ℕ) (P : A → Type ℓ') (f : A → A) (i : ℕ) (x : A) (xs : List A)
    → IsKeyed key xs
    → get key i xs ≡ some x
    → P (f x)
    → All P xs
    → All P (map (touch (λ y. key y == i) f) xs)
unfolding get
All-touch_found key P f i x [] keyed e now h = tt
All-touch_found {A = A} key P f i x (y ∷ xs) keyed e now h = elim (Bool-cases (key y == i)) [
  | inl same ↦
      let first : x ≡ y = ground (arith, same) in
      rw same (
        subst (λ z. P (f z)) first now,
        subst (All P) (sym (map-touch_absent key f i xs (rw (eq_of_== _ _ same) at keyed.0))) h.1,
      )
  | inr other ↦ rw other (h.0, All-touch_found key P f i x xs keyed.1 (rw other at e) now h.1)
]

-- A row with a key of its own hides no other row.
pub get-cons_fresh {ℓ} :
    {A : Type ℓ} (key : A → ℕ) (row : A) (i : ℕ) (x : A) (xs : List A)
    → All (λ y. key y ≢ key row) xs
    → get key i xs ≡ some x
    → get key i (row ∷ xs) ≡ some x
unfolding get
get-cons_fresh key row i x xs fresh found =
    let other = All-found key (λ y. key y ≢ key row) i x xs found fresh in
    ground (arith, found, other, key-get key i xs x found)

-- A key that finds no row is the key of none.
pub All-get-none {ℓ} :
    {A : Type ℓ} (key : A → ℕ) (i : ℕ) (xs : List A) → get key i xs ≡ none → All (λ y. key y ≢ i) xs
unfolding get
All-get-none key i [] h = tt
All-get-none key i (x ∷ xs) h = elim (Bool-cases (key x == i)) [
  | inl same ↦ absurd (ground (arith, same))
  | inr other ↦ ((λ e. ground (arith, e)), All-get-none key i xs (rw other at h))
]
