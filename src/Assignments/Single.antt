-- ===== src/Assignments/Single.antt =====
-- A property has at most one active assignment.
use digital_real_estate_engi.Common.{
  ℕ, ◌≤◌, ◌≡◌, ◌≢◌, ◌⊎◌, refl, inl, inr, sym, true, false, not, Option, none, some, List, [], ◌∷◌,
  ◌&&◌, ◌==◌, if◌then◌else◌, any, All, arith, Bool-cases, Option-cases, eq_of_==, ==-refl,
}
use mathlib.Core.Path.{subst}
use digital_real_estate_engi.Common.Sum.{sum_of, sum-touch}
use digital_real_estate_engi.Common.Text.{Text}
use digital_real_estate_engi.Common.Table.{
  get, touch, key-get, IsKeyed, IsKeyed-map, All-found, All-touch_found,
}
use digital_real_estate_engi.Common.Result.{
  ok, >>=-eq-ok, >>-eq-ok, raise_if, raise_if-eq-ok, ok_inj,
}
use digital_real_estate_engi.Deliveries.Store.{
  AssignmentStatus, candidate, pilot, active, paused, terminated, replaced, is_active_assignment,
}
use digital_real_estate_engi.Assignments.{
  status_eq, allowed_targets, is_ended, ProviderAssignment, Routes, is_active_of, find_active,
  is_other_than, lacks_reason, moved, assignment_of, set_assignment, assert_move,
  transition_assignment,
}

abbrev pub active_weight : ℕ → ProviderAssignment → ℕ
active_weight property_id a = if is_active_of property_id a then 1 else 0

-- The ids are distinct, no property has two active assignments, and an ended one has a reason.
pub record IsSingle (routes : Routes) : Type 0 where
  pub keyed : IsKeyed (λ a. a.id) routes.assignments
  pub single : (property_id : ℕ) → sum_of (active_weight property_id) routes.assignments ≤ 1
  pub reasoned :
      All
        (λ a. is_ended a.status ≡ true → lacks_reason a.termination_reason ≡ false)
        routes.assignments

find_active-none :
    (property_id : ℕ) (rows : List ProviderAssignment)
    → find_active property_id rows ≡ none
    → sum_of (active_weight property_id) rows ≡ 0
unfolding find_active
find_active-none property_id [] h = refl
find_active-none property_id (a ∷ rows) h = elim (Bool-cases (is_active_of property_id a)) [
  | inl t ↦ absurd (ground (arith, t))
  | inr f ↦ ground (arith, f, find_active-none property_id rows)
]

find_active-get :
    (property_id : ℕ) (rows : List ProviderAssignment) (b : ProviderAssignment)
    → IsKeyed (λ a. a.id) rows
    → find_active property_id rows ≡ some b
    → (get (λ a. a.id) b.id rows ≡ some b) × (is_active_of property_id b ≡ true)
unfolding find_active get
find_active-get property_id [] b keyed h = cc
find_active-get property_id (a ∷ rows) b keyed h = elim (Bool-cases (is_active_of property_id a)) [
  | inl t ↦
      let same : a ≡ b = ground (arith, t) in
      subst (λ z. (get (λ a. a.id) z.id (a ∷ rows) ≡ some z) × (is_active_of property_id z ≡ true))
        same (rw (==-refl a.id) refl, t)
  | inr f ↦
      let (found, is_active) = find_active-get property_id rows b keyed.1 (rw f at h) in
      let other = All-found (λ a. a.id) (λ y. y.id ≢ a.id) b.id b rows found keyed.0 in
      (ground (arith, found, other), is_active)
]

-- The row that a lookup finds.
pub assignment_of-get :
    (routes : Routes) (i : ℕ) (a : ProviderAssignment)
    → assignment_of routes i ≡ ok a
    → get (λ a. a.id) i routes.assignments ≡ some a
unfolding assignment_of
assignment_of-get routes i a h = elim (Option-cases (get (λ a. a.id) i routes.assignments)) [
  | inl absent ↦ absurd (ground (arith, absent))
  | inr (b, found) ↦ ground (arith, found)
]

pub moved_lem :
    (target : AssignmentStatus) (reason : Option Text) (at : ℕ) (a : ProviderAssignment)
    → ((moved target reason at a).id ≡ a.id)
      × ((moved target reason at a).property_id ≡ a.property_id)
      × ((moved target reason at a).status ≡ target)
      × (is_ended target ≡ true → (moved target reason at a).termination_reason ≡ reason)
unfolding moved
moved_lem candidate reason at a = (refl, refl, refl, λ e. cc)
moved_lem pilot reason at a = (refl, refl, refl, λ e. cc)
moved_lem active reason at a = (refl, refl, refl, λ e. cc)
moved_lem paused reason at a = (refl, refl, refl, λ e. cc)
moved_lem terminated reason at a = (refl, refl, refl, λ e. refl)
moved_lem replaced reason at a = (refl, refl, refl, λ e. refl)

-- Where no other assignment of the property is active, none is beside an inactive one.
no_other :
    (a : ProviderAssignment) (rows : List ProviderAssignment)
    → IsKeyed (λ a. a.id) rows
    → get (λ a. a.id) a.id rows ≡ some a
    → is_active_assignment a.status ≡ false
    → is_other_than a.id (find_active a.property_id rows) ≡ false
    → sum_of (active_weight a.property_id) rows ≡ 0
no_other a rows keyed found idle alone = elim (Option-cases (find_active a.property_id rows)) [
  | inl absent ↦ find_active-none a.property_id rows absent
  | inr (b, first) ↦
      let (found_b, is_active) = find_active-get a.property_id rows b keyed first in
      let same : b.id ≡ a.id = eq_of_== _ _ (ground (arith, alone, first)) in
      absurd (ground (arith, found_b, found, same, is_active, idle))
]

idle_before :
    (target current : AssignmentStatus)
    → is_active_assignment target ≡ true
    → status_eq target current ≡ false
    → is_active_assignment current ≡ false
idle_before target current activates changes = ground arith

module _ (i : ℕ) (a : ProviderAssignment) (routes : Routes) (sound : IsSingle routes)
    (found : get (λ a. a.id) i routes.assignments ≡ some a) where
  -- One write of the row.
  pub set-IsSingle :
      (f : ProviderAssignment → ProviderAssignment)
      → ((x : ProviderAssignment) → (f x).id ≡ x.id)
      → ((p : ℕ)
          → (active_weight p (f a) ≤ active_weight p a)
            ⊎ (sum_of (active_weight p) routes.assignments ≡ 0))
      → (is_ended (f a).status ≡ true → lacks_reason (f a).termination_reason ≡ false)
      → IsSingle (set_assignment i f routes)
  set-IsSingle f same lighter reason = record {
    keyed =
        IsKeyed-map (λ a. a.id) (touch (λ a. a.id == i) f) (λ x. ground (arith, same x))
          routes.assignments sound.keyed;
    single = λ p.
        let moved_sum =
          sum-touch (λ a. a.id) (active_weight p) f i a routes.assignments sound.keyed found in
        elim (lighter p) [
          | inl le ↦ omega (arith, moved_sum, le, sound.single p)
          | inr none_active ↦ ground (arith, moved_sum, none_active)
        ];
    reasoned =
        All-touch_found (λ a. a.id)
          (λ a. is_ended a.status ≡ true → lacks_reason a.termination_reason ≡ false) f i a
          routes.assignments sound.keyed found reason sound.reasoned;
  }

  moved-lighter :
      (target : AssignmentStatus) (reason : Option Text) (at : ℕ)
      → status_eq target a.status ≡ false
      → (is_active_assignment target
          && is_other_than a.id (find_active a.property_id routes.assignments))
        ≡ false
      → (p : ℕ)
      → (active_weight p (moved target reason at a) ≤ active_weight p a)
        ⊎ (sum_of (active_weight p) routes.assignments ≡ 0)
  moved-lighter target reason at changes alone p =
      let (_, same_property, becomes, _) = moved_lem target reason at a in
      elim (Bool-cases (is_active_assignment target)) [
        | inr idle ↦ inl (rw (becomes, same_property, idle) (ground arith))
        | inl activates ↦ elim (Bool-cases (a.property_id == p)) [
          | inr elsewhere ↦ inl (rw (becomes, same_property, elsewhere) (omega arith))
          | inl here ↦ inr (
              subst (λ q. sum_of (active_weight q) routes.assignments ≡ 0) (eq_of_== _ _ here)
                (no_other a routes.assignments sound.keyed
                  (subst (λ k. get (λ a. a.id) k routes.assignments ≡ some a)
                    (sym (key-get (λ a. a.id) i routes.assignments a found)) found)
                  (idle_before target a.status activates changes) (rw activates at alone)))
        ]
      ]

-- What the guards of a transition show.
assert_move-guards :
    (a : ProviderAssignment) (target : AssignmentStatus) (reason : Option Text) (routes : Routes)
    → assert_move a target reason routes ≡ ok tt
    → (any (status_eq target) (allowed_targets a.status) ≡ true)
      × ((is_active_assignment target
            && is_other_than a.id (find_active a.property_id routes.assignments))
          ≡ false)
      × ((is_ended target && lacks_reason reason) ≡ false)
unfolding assert_move
assert_move-guards a target reason routes h =
    let (edge, h1) =
      >>-eq-ok (raise_if (not (any (status_eq target) (allowed_targets a.status))) _) _ h in
    let (alone, reasoned) =
      >>-eq-ok
        (raise_if
          (is_active_assignment target
            && is_other_than a.id (find_active a.property_id routes.assignments))
          _)
        _ h1 in
    (ground (arith, raise_if-eq-ok _ _ edge), raise_if-eq-ok _ _ alone, raise_if-eq-ok _ _ reasoned)

-- A transition that is accepted keeps the row or moves it along an allowed edge.
pub transition_assignment-inversion :
    (i : ℕ) (target : AssignmentStatus) (reason : Option Text) (at : ℕ) (routes routes' : Routes)
    → transition_assignment i target reason at routes ≡ ok routes'
    → (a : ProviderAssignment) × (get (λ a. a.id) i routes.assignments ≡ some a)
      × ((routes' ≡ routes)
          ⊎ ((status_eq target a.status ≡ false)
              × (assert_move a target reason routes ≡ ok tt)
              × (routes' ≡ set_assignment i (moved target reason at) routes)))
unfolding transition_assignment
transition_assignment-inversion i target reason at routes routes' h =
    let (a, finds, h1) = >>=-eq-ok (assignment_of routes i) _ h in
    (
      a,
      assignment_of-get routes i a finds,
      elim (Bool-cases (status_eq target a.status)) [
        | inl same ↦ inl (sym (ok_inj (rw same at h1)))
        | inr changes ↦
            let (guards, done) =
              >>-eq-ok (assert_move a target reason routes) _ (rw changes at h1) in
            inr (changes, guards, sym (ok_inj done))
      ],
    )

-- A transition of one assignment keeps the routes single.
pub transition_assignment-IsSingle :
    (i : ℕ) (target : AssignmentStatus) (reason : Option Text) (at : ℕ) (routes routes' : Routes)
    → IsSingle routes
    → transition_assignment i target reason at routes ≡ ok routes'
    → IsSingle routes'
transition_assignment-IsSingle i target reason at routes routes' sound h =
    let (a, found, effect) = transition_assignment-inversion i target reason at routes routes' h in
    elim effect [
      | inl same ↦ rw same sound
      | inr (changes, guards, writes) ↦
          let (_, alone, reasoned) = assert_move-guards a target reason routes guards in
          let (_, _, becomes, given) = moved_lem target reason at a in
          rw writes (
            set-IsSingle i a routes sound found (moved target reason at)
              (λ x. (moved_lem target reason at x).0)
              (moved-lighter i a routes sound found target reason at changes alone)
              (λ ends.
                let is_end : is_ended target ≡ true = rw becomes at ends in
                rw (given is_end) (ground (arith, reasoned, is_end))))
    ]
