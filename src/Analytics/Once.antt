-- ===== src/Analytics/Once.antt =====
-- An event that a source delivers again counts once.
use digital_real_estate_engi.Common.{
  ◌⊎◌, sym, ap, ◌∙◌, ℕ, ◌+◌, ◌≤◌, eq_of_==, ◌≡◌, refl, inl, inr, not, none, some, List, [], ◌∷◌,
  ◌&&◌, ◌==◌, if◌then◌else◌, arith, Bool-cases, Option-cases, ==-refl,
}
use mathlib.Core.Path.{subst}
use digital_real_estate_engi.Common.Sum.{sum_of}
use digital_real_estate_engi.Common.Result.{Result, ok, raised, raise_if, >>-eq-ok, ok_inj}
use digital_real_estate_engi.Analytics.{
  AnalyticsEvent, AnalyticsError, LeadOutcome, Analytics, is_from, find_event, suits_lead,
  add_outcome, record_event, record_all, state_after,
}

abbrev pub event_weight : (source_name source_event_id : ℕ) → AnalyticsEvent → ℕ
event_weight name key e = if is_from name key e then 1 else 0

abbrev pub outcome_weight : (source_name source_event_id : ℕ) → LeadOutcome → ℕ
outcome_weight name key o = if o.source_name == name && o.source_event_id == key then 1 else 0

-- No event of a source is there twice, and none has two outcomes.
pub record IsOnce (db : Analytics) : Type 0 where
  pub single : (name key : ℕ) → sum_of (event_weight name key) db.events ≤ 1
  pub covered :
      (name key : ℕ)
      → sum_of (outcome_weight name key) db.outcomes ≤ sum_of (event_weight name key) db.events

find_event-none :
    (name key : ℕ) (events : List AnalyticsEvent)
    → find_event name key events ≡ none
    → sum_of (event_weight name key) events ≡ 0
unfolding find_event
find_event-none name key [] h = refl
find_event-none name key (e ∷ events) h = elim (Bool-cases (is_from name key e)) [
  | inl t ↦ absurd (ground (arith, t))
  | inr f ↦ ground (arith, f, find_event-none name key events)
]

add_outcome-weight :
    (e : AnalyticsEvent) (outcomes : List LeadOutcome) (name key : ℕ)
    → sum_of (outcome_weight name key) (add_outcome e outcomes)
      ≤ event_weight name key e + sum_of (outcome_weight name key) outcomes
unfolding add_outcome
add_outcome-weight e outcomes name key = elim (Option-cases e.lead_id) [
  | inl absent ↦ rw (absent, add_outcome) (omega arith)
  | inr (lead_id, about) ↦ rw (about, add_outcome) (ground arith)
]

new_event-single :
    (e : AnalyticsEvent) (events : List AnalyticsEvent)
    → find_event e.source_name e.source_event_id events ≡ none
    → ((name key : ℕ) → sum_of (event_weight name key) events ≤ 1)
    → (name key : ℕ) → sum_of (event_weight name key) (e ∷ events) ≤ 1
new_event-single e events absent single name key = elim (Bool-cases (e.source_name == name)) [
  | inr other ↦ rw other (omega (arith, single name key))
  | inl same ↦ elim (Bool-cases (e.source_event_id == key)) [
    | inr other ↦ rw (same, other) (omega (arith, single name key))
    | inl again ↦
        let is_new = find_event-none e.source_name e.source_event_id events absent in
        let this =
          subst (λ n. sum_of (event_weight n key) events ≡ 0) (eq_of_== _ _ same)
            (subst (λ k. sum_of (event_weight e.source_name k) events ≡ 0) (eq_of_== _ _ again)
              is_new) in
        rw (same, again) (omega (arith, this))
  ]
]

-- What a recorded event leaves: the known row, or the new one.
record_event-inversion :
    (e row : AnalyticsEvent) (db after : Analytics)
    → record_event e db ≡ ok (row, after)
    → ((find_event e.source_name e.source_event_id db.events ≡ some row) × (after ≡ db))
      ⊎ ((find_event e.source_name e.source_event_id db.events ≡ none)
          × (row ≡ e)
          × (after ≡ record db { events = e ∷ db.events; outcomes = add_outcome e db.outcomes }))
unfolding record_event
record_event-inversion e row db after h =
    elim (Option-cases (find_event e.source_name e.source_event_id db.events)) [
      | inr (existing, found) ↦
          let done = ok_inj (rw (found, record_event) at h) in
          inl (rw found (ap (λ p. some p.0) done), sym (ap (λ p. p.1) done))
      | inl absent ↦
          let (_, added) =
            >>-eq-ok (raise_if (not (suits_lead db.leads e)) _) _
              (rw (absent, record_event) at h) in
          let done = ok_inj added in
          inr (absent, sym (ap (λ p. p.0) done), sym (ap (λ p. p.1) done))
    ]

record_event-IsOnce :
    (e row : AnalyticsEvent) (db after : Analytics)
    → IsOnce db
    → record_event e db ≡ ok (row, after)
    → IsOnce after
record_event-IsOnce e row db after once h = elim (record_event-inversion e row db after h) [
  | inl (_, same) ↦ subst IsOnce (sym same) once
  | inr (absent, _, added) ↦ subst IsOnce (sym added) (record {
    single = new_event-single e db.events absent once.single;
    covered =
        λ name key. omega (arith, add_outcome-weight e db.outcomes name key, once.covered name key);
  })
]

-- A transaction, accepted or refused.
after-IsOnce :
    (e : AnalyticsEvent) (db : Analytics)
    (result : Result AnalyticsError (AnalyticsEvent × Analytics))
    → IsOnce db
    → record_event e db ≡ result
    → IsOnce (state_after db result)
after-IsOnce e db (ok (row, after)) once h = record_event-IsOnce e row db after once h
after-IsOnce e db (raised _) once h = once

-- However often and in whatever order the sources deliver their events: an event of a source is kept at
-- most once, and at most one outcome of a lead comes from it.
pub record_all-IsOnce :
    (events : List AnalyticsEvent) (db : Analytics) → IsOnce db → IsOnce (record_all events db)
unfolding record_all
record_all-IsOnce [] db once = once
record_all-IsOnce (e ∷ events) db once =
    record_all-IsOnce events (state_after db (record_event e db))
      (after-IsOnce e db (record_event e db) once refl)

find_event_self :
    (e : AnalyticsEvent) (events : List AnalyticsEvent)
    → find_event e.source_name e.source_event_id (e ∷ events) ≡ some e
unfolding find_event
find_event_self e events = rw (==-refl e.source_name, ==-refl e.source_event_id) refl

record_event_known :
    (e row : AnalyticsEvent) (db : Analytics)
    → find_event e.source_name e.source_event_id db.events ≡ some row
    → record_event e db ≡ ok (row, db)
unfolding record_event
record_event_known e row db found = rw (found, record_event) refl

-- An event that was accepted is answered with the same row when it is delivered again, and the second
-- delivery changes nothing.
pub record_event_again :
    (e row : AnalyticsEvent) (db after : Analytics)
    → record_event e db ≡ ok (row, after)
    → record_event e after ≡ ok (row, after)
record_event_again e row db after h = elim (record_event-inversion e row db after h) [
  | inl (_, same) ↦ subst (λ z. record_event e z ≡ ok (row, after)) (sym same) h
  | inr (_, is_new, added) ↦ record_event_known e row after (
      subst (λ z. find_event e.source_name e.source_event_id z.events ≡ some row) (sym added)
        (find_event_self e db.events ∙ ap some (sym is_new)))
]
