-- ===== src/Assignments/Handover.antt =====
-- What the replacement of an assignment leaves behind, row by row.
use digital_real_estate_engi.Common.{
  ℕ, ◌≡◌, ◌≢◌, refl, inl, inr, sym, true, false, not, Option, none, some, ◌==◌, arith, Bool-cases,
  eq_of_==,
}
use mathlib.Core.Path.{subst}
use digital_real_estate_engi.Common.Text.{Text}
use digital_real_estate_engi.Common.Table.{get}
use digital_real_estate_engi.Common.Result.{
  ok, >>=-eq-ok, >>-eq-ok, raise_if, raise_if-eq-ok, ok_inj,
}
use digital_real_estate_engi.Deliveries.Store.{
  AssignmentStatus, pilot, active, replaced, is_active_assignment,
}
use digital_real_estate_engi.Assignments.{
  status_eq, ProviderAssignment, Routes, assignment_of, set_assignment, transition_assignment,
  linked, is_candidate, prepare, replace_assignment, assert_move, allowed_targets,
}
use digital_real_estate_engi.Assignments.Single.{assignment_of-get}
use digital_real_estate_engi.Assignments.Effect.{
  Moves, set-get, set-others, transition_assignment-Moves,
}

-- The state that a replacement of i by another assignment j leaves: i is replaced for the reason, j is active and linked to
-- i, both are of one property, and every other assignment is the row it was.
pub record HandsOver (i j : ℕ) (reason : Option Text) (routes routes' : Routes) : Type 0 where
  pub old : ProviderAssignment
  pub new : ProviderAssignment
  pub apart : j ≢ i
  pub old_row : get (λ a. a.id) i routes'.assignments ≡ some old
  pub new_row : get (λ a. a.id) j routes'.assignments ≡ some new
  pub ended : old.status ≡ replaced
  pub explained : old.termination_reason ≡ reason
  pub started : new.status ≡ active
  pub link : new.replaced_assignment_id ≡ some i
  pub property : new.property_id ≡ old.property_id
  pub others :
      (k : ℕ)
      → k ≢ i
      → k ≢ j
      → get (λ a. a.id) k routes'.assignments ≡ get (λ a. a.id) k routes.assignments

-- The rows that `prepare` leaves.
prepare-Prepared :
    (j at : ℕ) (b : ProviderAssignment) (routes routes' : Routes)
    → get (λ a. a.id) j routes.assignments ≡ some b
    → prepare j at b routes ≡ ok routes'
    → (c : ProviderAssignment) × (get (λ a. a.id) j routes'.assignments ≡ some c)
      × (c.property_id ≡ b.property_id)
      × (c.replaced_assignment_id ≡ b.replaced_assignment_id)
      × ((k : ℕ)
          → k ≢ j
          → get (λ a. a.id) k routes'.assignments ≡ get (λ a. a.id) k routes.assignments)
prepare-Prepared j at b routes routes' found h = elim (Bool-cases (is_candidate b.status)) [
  | inl waits ↦
      let m = transition_assignment-Moves j pilot none at routes routes' (rw waits at h) in
      let same : m.before ≡ b = ground (arith, m.found, found) in
      (m.now, m.left, rw same at m.property, rw same at m.link, m.others)
  | inr ready ↦
      let same = ok_inj (rw ready at h) in
      (
        b,
        subst (λ r. get (λ a. a.id) j r.assignments ≡ some b) same found,
        refl,
        refl,
        λ k other.
            subst (λ r. get (λ a. a.id) k r.assignments ≡ get (λ a. a.id) k routes.assignments) same
              refl,
      )
]

-- What is left of the two rows after a link, a preparation and the start of the second.
module _ (i j : ℕ) (at : ℕ) (ended prepared routes' : Routes) (b : ProviderAssignment)
    (apart : j ≢ i) (row : get (λ a. a.id) j ended.assignments ≡ some b)
    (prepares : prepare j at (linked i b) (set_assignment j (linked i) ended) ≡ ok prepared)
    (activates : transition_assignment j active none at prepared ≡ ok routes') where
  started-others :
      (k : ℕ) → k ≢ j → get (λ a. a.id) k routes'.assignments ≡ get (λ a. a.id) k ended.assignments
  started-others k other =
      let joined_row = set-get j (linked i) ended (λ x. refl) b row in
      let (_, _, _, _, kept) =
        prepare-Prepared j at (linked i b) (set_assignment j (linked i) ended) prepared joined_row
          prepares in
      let m = transition_assignment-Moves j active none at prepared routes' activates in
      rw (m.others k other, kept k other) (set-others j (linked i) ended (λ x. refl) k other)

  started-row :
      (c : ProviderAssignment) × (get (λ a. a.id) j routes'.assignments ≡ some c)
      × (c.status ≡ active)
      × (c.property_id ≡ b.property_id)
      × (c.replaced_assignment_id ≡ some i)
  started-row =
      let joined_row = set-get j (linked i) ended (λ x. refl) b row in
      let (c, left, property, link, _) =
        prepare-Prepared j at (linked i b) (set_assignment j (linked i) ended) prepared joined_row
          prepares in
      let m = transition_assignment-Moves j active none at prepared routes' activates in
      let same : m.before ≡ c = ground (arith, m.found, left) in
      (m.now, m.left, m.becomes, rw (m.property, same) property, rw (m.link, same) link)

  started-HandsOver :
      (reason : Option Text) (routes : Routes)
      → (m : Moves i replaced reason routes ended) → status_eq replaced m.before.status ≡ false
      → m.before.property_id ≡ b.property_id
      → HandsOver i j reason routes routes'
  started-HandsOver reason routes m was_active same_property =
      let (c, left, starts, property, link) = started-row in
      record {
        old = m.now;
        new = c;
        apart = apart;
        old_row = rw (started-others i (λ e. apart (sym e))) m.left;
        new_row = left;
        ended = m.becomes;
        explained = m.explained was_active refl;
        started = starts;
        link = link;
        property = rw (m.property, same_property) property;
        others = λ k not_i not_j. rw (started-others k not_j) (m.others k not_i);
      }

active_is_not_replaced :
    (status : AssignmentStatus)
    → is_active_assignment status ≡ true
    → status_eq replaced status ≡ false
active_is_not_replaced status h = ground arith

-- A replaced assignment does not become active again.
transition_assignment-replaced :
    (j at : ℕ) (routes routes' : Routes) (a : ProviderAssignment)
    → get (λ a. a.id) j routes.assignments ≡ some a
    → a.status ≡ replaced
    → transition_assignment j active none at routes ≢ ok routes'
unfolding transition_assignment assert_move allowed_targets
transition_assignment-replaced j at routes routes' a found is_over h =
    let (b, finds, h1) = >>=-eq-ok (assignment_of routes j) _ h in
    let found_b = assignment_of-get routes j b finds in
    let same : a ≡ b = ground (arith, found_b, found) in
    let over : b.status ≡ replaced = subst (λ x. x.status ≡ replaced) same is_over in
    let refused = rw over at h1 in cc

-- Nor does the link or `prepare` help it.
started-replaced :
    (i j at : ℕ) (ended prepared routes' : Routes) (b : ProviderAssignment)
    → get (λ a. a.id) j ended.assignments ≡ some b
    → b.status ≡ replaced
    → prepare j at (linked i b) (set_assignment j (linked i) ended) ≡ ok prepared
    → transition_assignment j active none at prepared ≢ ok routes'
started-replaced i j at ended prepared routes' b row is_over prepares =
    let joined_row = set-get j (linked i) ended (λ x. refl) b row in
    let same : set_assignment j (linked i) ended ≡ prepared = ok_inj (rw is_over at prepares) in
    transition_assignment-replaced j at prepared routes' (linked i b)
      (subst (λ r. get (λ a. a.id) j r.assignments ≡ some (linked i b)) same joined_row) is_over

-- The row that the replacement goes on with.
linked-next :
    (i j : ℕ) (ended : Routes) (next b : ProviderAssignment)
    → assignment_of (set_assignment j (linked i) ended) j ≡ ok next
    → get (λ a. a.id) j ended.assignments ≡ some b
    → next ≡ linked i b
linked-next i j ended next b finds row =
    let finds_row = assignment_of-get (set_assignment j (linked i) ended) j next finds in
    let joined_row = set-get j (linked i) ended (λ x. refl) b row in
    ground (arith, finds_row, joined_row)

-- A replacement that is accepted is by another assignment: it ends the first for the given reason, makes
-- the second the active one, linked to the first and of the same property, and changes no other assignment.
pub replace_assignment-HandsOver :
    (i j : ℕ) (reason : Option Text) (at : ℕ) (routes routes' : Routes)
    → replace_assignment i j reason at routes ≡ ok routes'
    → HandsOver i j reason routes routes'
unfolding replace_assignment
replace_assignment-HandsOver i j reason at routes routes' h =
    let (current, finds_i, h1) = >>=-eq-ok (assignment_of routes i) _ h in
    let (replacement, finds_j, h2) = >>=-eq-ok (assignment_of routes j) _ h1 in
    let (same, h3) =
      >>-eq-ok (raise_if (not (current.property_id == replacement.property_id)) _) _ h2 in
    let (was, h4) = >>-eq-ok (raise_if (not (is_active_assignment current.status)) _) _ h3 in
    let (ended, ends, h5) = >>=-eq-ok (transition_assignment i replaced reason at routes) _ h4 in
    let (next_row, finds, h6) =
      >>=-eq-ok (assignment_of (set_assignment j (linked i) ended) j) _ h5 in
    let (prepared, prepares, activates) =
      >>=-eq-ok (prepare j at next_row (set_assignment j (linked i) ended)) _ h6 in
    let m = transition_assignment-Moves i replaced reason at routes ended ends in
    let found_i = assignment_of-get routes i current finds_i in
    let found_j = assignment_of-get routes j replacement finds_j in
    let apart : j ≢ i = λ itself.
      let row = subst (λ k. get (λ a. a.id) k ended.assignments ≡ some m.now) (sym itself) m.left in
      started-replaced i j at ended prepared routes' m.now row m.becomes
        (rw (linked-next i j ended next_row m.now finds row) at prepares) activates in
    let row : get (λ a. a.id) j ended.assignments ≡ some replacement =
      rw (m.others j apart) found_j in
    let prepares' = rw (linked-next i j ended next_row replacement finds row) at prepares in
    let same_before : m.before ≡ current = ground (arith, m.found, found_i) in
    let was_active : is_active_assignment current.status ≡ true =
      ground (arith, raise_if-eq-ok _ _ was) in
    let same_property : current.property_id ≡ replacement.property_id =
      eq_of_== _ _ (ground (arith, raise_if-eq-ok _ _ same)) in
    started-HandsOver i j at ended prepared routes' replacement apart row prepares' activates reason
      routes m
      (subst (λ z. status_eq replaced z.status ≡ false) (sym same_before)
        (active_is_not_replaced current.status was_active))
      (subst (λ z. z.property_id ≡ replacement.property_id) (sym same_before) same_property)
