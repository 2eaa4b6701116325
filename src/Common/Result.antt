-- ===== src/Common/Result.antt =====
-- Exceptions as values: a call returns, or raises an error of the type `E`.
use mathlib.Core.Logic.{◌⊎◌, inl, inr}
use digital_real_estate_engi.Common.Tests.{if◌then◌else◌}
use mathlib.Core.Path.{◌≡◌, refl}
use mathlib.Core.Bool.{Bool, true, false, not}

pub data Result (E A : Type 0) : Type 0 where
  ok : A → Result E A
  raised : E → Result E A

-- `if test: raise error`
abbrev pub raise_if : {E : Type 0} → Bool → E → Result E (Unit {0})
raise_if test error = if test then raised error else ok tt

pub ok_inj : {E A : Type 0} {a b : A} → ◌≡◌ {A = Result E A} (ok a) (ok b) → a ≡ b
ok_inj h = cc

-- The statements of a body, one after the other: the rest runs on what the first returned.
infixl 5 ◌>>=◌
abbrev pub ◌>>=◌ : {E A B : Type 0} → Result E A → (A → Result E B) → Result E B
raised error >>= rest = raised error
ok value >>= rest = rest value

-- A body that has returned, so that its first statement has.
pub >>=-eq-ok :
    {E A B : Type 0} (first : Result E A) (rest : A → Result E B) {last : B}
    → (first >>= rest) ≡ ok last
    → (value : A) × (first ≡ ok value) × (rest value ≡ ok last)
>>=-eq-ok (raised error) rest returned = cc
>>=-eq-ok (ok value) rest returned = (value, refl, returned)

-- A statement that returns nothing.
infixl 5 ◌>>◌
abbrev pub ◌>>◌ : {E B : Type 0} → Result E (Unit {0}) → Result E B → Result E B
first >> rest = first >>= λ nothing. rest

pub >>-eq-ok :
    {E B : Type 0} (first : Result E (Unit {0})) (rest : Result E B) {last : B}
    → (first >> rest) ≡ ok last
    → (first ≡ ok tt) × (rest ≡ ok last)
>>-eq-ok (raised error) rest returned = cc
>>-eq-ok (ok tt) rest returned = (refl, returned)

pub raise_if-eq-ok : {E : Type 0} (b : Bool) (e : E) → raise_if b e ≡ ok tt → b ≡ false
raise_if-eq-ok true e h = cc
raise_if-eq-ok false e h = refl

-- The branch that succeeded.
pub if-eq-ok :
    {E A : Type 0} (b : Bool) (x y : Result E A) {a : A}
    → (if b then x else y) ≡ ok a
    → ((b ≡ true) × (x ≡ ok a)) ⊎ ((b ≡ false) × (y ≡ ok a))
if-eq-ok true x y h = inl (refl, h)
if-eq-ok false x y h = inr (refl, h)

pub Result-cases :
    {E A : Type 0} (r : Result E A) → ((e : E) × (r ≡ raised e)) ⊎ ((a : A) × (r ≡ ok a))
Result-cases (ok a) = inr (a, refl)
Result-cases (raised e) = inl (e, refl)

pub raise_if-not-eq-ok : {E : Type 0} (b : Bool) (e : E) → raise_if (not b) e ≡ ok tt → b ≡ true
raise_if-not-eq-ok true e h = refl
raise_if-not-eq-ok false e h = cc
