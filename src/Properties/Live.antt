-- ===== src/Properties/Live.antt =====
-- A property has one live deployment in an environment at most.
pub mod Deploying
use digital_real_estate_engi.Common.{
  ℕ, ◌+◌, ◌≤◌, ◌≡◌, ◌≢◌, refl, inl, inr, sym, ◌∙◌, All-map, Bool, true, false, Option, List, ◌∷◌,
  ◌&&◌, ◌==◌, if◌then◌else◌, All, arith, Bool-cases, Option-cases, eq_of_==, filter, ltb,
}
use mathlib.Core.Path.{subst}
use digital_real_estate_engi.Common.Sum.{sum_of, sum-touch}
use digital_real_estate_engi.Common.Table.{touch, IsKeyed, IsKeyed-map}
use digital_real_estate_engi.Common.Query.{
  indicator, first_by, first_by-none, first_by-get, first_by-filter,
}
use digital_real_estate_engi.Properties.State.{
  BuildEnvironment, environment_eq, Deployment, is_deployed,
}
use digital_real_estate_engi.Properties.Gates.{is_live}
use digital_real_estate_engi.Properties.Deploy.Accepted.{environment_eq-true}
use digital_real_estate_engi.Properties.Deploy.{retire, roll_back}

abbrev pub live_weight : ℕ → BuildEnvironment → Deployment → ℕ
live_weight property_id environment d = indicator (is_live property_id environment d)

pub record IsLive (rows : List Deployment) : Type 0 where
  pub keyed : IsKeyed (λ d. d.id) rows
  pub single :
      (property_id : ℕ) (environment : BuildEnvironment)
      → sum_of (live_weight property_id environment) rows ≤ 1

module _ (property_id : ℕ) (environment : BuildEnvironment) (rows : List Deployment)
    (live : IsLive rows) where
  abbrev prior : Option Deployment
  prior = first_by (λ a b. ltb b.id a.id) (filter (is_live property_id environment) rows)

  retire-IsKeyed : IsKeyed (λ d. d.id) (retire prior rows)
  retire-IsKeyed = elim (Option-cases prior) [
    | inl absent ↦ rw absent live.keyed
    | inr (d, found) ↦ rw found (
        IsKeyed-map (λ d. d.id) (touch (λ x. x.id == d.id) roll_back) (λ x. ground arith) rows
          live.keyed)
  ]

  retire-fresh : (i : ℕ) → All (λ d. d.id ≢ i) rows → All (λ d. d.id ≢ i) (retire prior rows)
  retire-fresh i fresh = elim (Option-cases prior) [
    | inl absent ↦ rw absent fresh
    | inr (d, found) ↦ rw found (
        All-map (λ x. x.id ≢ i) (touch (λ x. x.id == d.id) roll_back) (λ x other. ground arith) rows
          fresh)
  ]

  retire-le :
      (q : ℕ) (f : BuildEnvironment)
      → sum_of (live_weight q f) (retire prior rows) ≤ sum_of (live_weight q f) rows
  retire-le q f = elim (Option-cases prior) [
    | inl absent ↦ rw absent (omega arith)
    | inr (d, found) ↦
        let row =
          first_by-get (λ d. d.id) _ (is_live property_id environment) rows d live.keyed found in
        let moved = sum-touch (λ d. d.id) (live_weight q f) roll_back d.id d rows live.keyed row in
        rw found (ground (arith, moved))
  ]

  retire-none : sum_of (live_weight property_id environment) (retire prior rows) ≡ 0
  retire-none = elim (Option-cases prior) [
    | inl absent ↦ rw absent (first_by-none _ (is_live property_id environment) rows absent)
    | inr (d, found) ↦
        let row =
          first_by-get (λ d. d.id) _ (is_live property_id environment) rows d live.keyed found in
        let passes = first_by-filter _ (is_live property_id environment) rows d found in
        let moved =
          sum-touch (λ d. d.id) (live_weight property_id environment) roll_back d.id d rows
            live.keyed row in
        rw found (ground (arith, moved, passes, live.single property_id environment))
  ]

  retire-none_at :
      (q : ℕ) (f : BuildEnvironment)
      → property_id ≡ q
      → environment ≡ f
      → sum_of (live_weight q f) (retire prior rows) ≡ 0
  retire-none_at q f its place =
      subst (λ g. sum_of (live_weight q g) (retire prior rows) ≡ 0) place
        (subst (λ k. sum_of (live_weight k environment) (retire prior rows) ≡ 0) its retire-none)

  -- A retired deployment is live nowhere else.
  retire-elsewhere :
      (q : ℕ) (f : BuildEnvironment)
      → (property_id == q && environment_eq environment f) ≡ false
      → sum_of (live_weight q f) (retire prior rows) ≡ sum_of (live_weight q f) rows
  retire-elsewhere q f other = elim (Option-cases prior) [
    | inl absent ↦ rw absent refl
    | inr (d, found) ↦
        let row =
          first_by-get (λ d. d.id) _ (is_live property_id environment) rows d live.keyed found in
        let passes = first_by-filter _ (is_live property_id environment) rows d found in
        let its_property : d.property_id ≡ property_id = eq_of_== _ _ (ground (arith, passes)) in
        let its : d.environment ≡ environment = environment_eq-true _ _ (ground (arith, passes)) in
        let moved = sum-touch (λ d. d.id) (live_weight q f) roll_back d.id d rows live.keyed row in
        let idle : (d.property_id == q && environment_eq d.environment f) ≡ false =
          rw (its_property, its) other in
        rw found (ground (arith, moved, idle))
  ]

  -- What a new row of the property and the environment beside the retired one makes of the live ones.
  pub added-count :
      (row : Deployment)
      → row.property_id ≡ property_id
      → row.environment ≡ environment
      → is_deployed row.status ≡ true
      → (q : ℕ) (f : BuildEnvironment)
      → sum_of (live_weight q f) (row ∷ retire prior rows) ≡ (
          if property_id == q && environment_eq environment f
          then 1
          else sum_of (live_weight q f) rows)
  added-count row its_property its_environment is_live_row q f =
      combine (property_id == q && environment_eq environment f) _ _ _
        (rw (its_property, its_environment, is_live_row) (ground arith)) (retire-elsewhere q f)
        (λ same.
          retire-none_at q f (eq_of_== _ _ (ground (arith, same)))
            (environment_eq-true _ _ (ground (arith, same))))
    where
      combine :
          (here : Bool) (weight left before : ℕ)
          → weight ≡ indicator here
          → (here ≡ false → left ≡ before)
          → (here ≡ true → left ≡ 0)
          → weight + left ≡ (if here then 1 else before)
      combine true weight left before w other same = omega (arith, w, same refl)
      combine false weight left before w other same = omega (arith, w, other refl)

  -- A new row of the property and the environment beside the retired one.
  pub added-IsLive :
      (row : Deployment)
      → row.property_id ≡ property_id
      → row.environment ≡ environment
      → All (λ d. d.id ≢ row.id) rows
      → IsLive (row ∷ retire prior rows)
  added-IsLive row its_property its_environment fresh = record {
    keyed = (retire-fresh row.id fresh, retire-IsKeyed);
    single = λ q f. elim (Bool-cases (is_live q f row)) [
      | inr idle ↦ rw idle (omega (arith, retire-le q f, live.single q f))
      | inl is ↦
          let its : property_id ≡ q = sym its_property ∙ eq_of_== _ _ (ground (arith, is)) in
          let place : environment ≡ f =
            sym its_environment ∙ environment_eq-true _ _ (ground (arith, is)) in
          rw is (omega (arith, retire-none_at q f its place))
    ];
  }
