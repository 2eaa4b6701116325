-- ===== src/Analytics.antt =====
-- The events of a property and the outcomes of its leads: `AnalyticsService.record` of
-- src/rank_rent/lead_routing/services.py, on the inputs that the validator of models.py accepts. The
-- payload of an event is only stored, without its personal data; a value is in whole cents.
pub mod Once
use digital_real_estate_engi.Common.{
  ℕ, Bool, true, false, not, Option, none, some, List, [], ◌∷◌, ◌&&◌, ◌==◌, if◌then◌else◌,
}
use digital_real_estate_engi.Common.Table.{get}
use digital_real_estate_engi.Common.Result.{Result, ok, raised, raise_if, ◌>>◌}
use digital_real_estate_engi.Deliveries.Store.{Lead}

pub data AnalyticsEventType : Type 0 where
  organic_landing form_start form_submit qualified_lead call answered_call : AnalyticsEventType
  missed_call provider_delivery provider_acceptance appointment : AnalyticsEventType
  won_job lost_job revenue : AnalyticsEventType

pub data AnalyticsSourceType : Type 0 where
  web_analytics form call_tracking provider operator system : AnalyticsSourceType

pub data TruthBasis : Type 0 where
  observed provider_reported operator_verified estimated : TruthBasis

pub record AnalyticsEvent : Type 0 where
  pub property_id : ℕ
  pub event_type : AnalyticsEventType
  pub source_type : AnalyticsSourceType
  pub source_name : ℕ
  pub source_event_id : ℕ
  pub truth_basis : TruthBasis
  pub lead_id : Option ℕ
  pub occurred_at : ℕ
  pub value_usd : Option ℕ

pub record LeadOutcome : Type 0 where
  pub lead_id : ℕ
  pub outcome_type : AnalyticsEventType
  pub truth_basis : TruthBasis
  pub source_type : AnalyticsSourceType
  pub source_name : ℕ
  pub source_event_id : ℕ
  pub occurred_at : ℕ
  pub value_usd : Option ℕ

pub record Analytics : Type 0 where
  pub leads : List Lead
  pub events : List AnalyticsEvent
  pub outcomes : List LeadOutcome

pub data AnalyticsError : Type 0 where
  analytics_lead_property_mismatch : AnalyticsError

-- The event types that are outcomes of a lead.
abbrev pub is_outcome : AnalyticsEventType → Bool
is_outcome qualified_lead = true
is_outcome provider_acceptance = true
is_outcome appointment = true
is_outcome won_job = true
is_outcome lost_job = true
is_outcome revenue = true
is_outcome _ = false

abbrev pub is_from : (source_name source_event_id : ℕ) → AnalyticsEvent → Bool
is_from name key e = e.source_name == name && e.source_event_id == key

unfoldable pub find_event :
    (source_name source_event_id : ℕ) → List AnalyticsEvent → Option AnalyticsEvent
find_event name key [] = none
find_event name key (e ∷ events) = if is_from name key e then some e else find_event name key events

abbrev pub is_of_property : ℕ → Option Lead → Bool
is_of_property property_id none = false
is_of_property property_id (some lead) = lead.property_id == property_id

-- The lead of an event is a lead of its property.
abbrev pub suits_lead : List Lead → AnalyticsEvent → Bool
suits_lead leads e = elim e.lead_id [
  | none ↦ true
  | some lead_id ↦ is_of_property e.property_id (get (λ l. l.id) lead_id leads)
]

abbrev pub outcome_of : ℕ → AnalyticsEvent → LeadOutcome
outcome_of lead_id e = record {
  lead_id = lead_id;
  outcome_type = e.event_type;
  truth_basis = e.truth_basis;
  source_type = e.source_type;
  source_name = e.source_name;
  source_event_id = e.source_event_id;
  occurred_at = e.occurred_at;
  value_usd = e.value_usd;
}

unfoldable pub add_outcome : AnalyticsEvent → List LeadOutcome → List LeadOutcome
add_outcome e outcomes = elim e.lead_id [
  | none ↦ outcomes
  | some lead_id ↦ if is_outcome e.event_type then outcome_of lead_id e ∷ outcomes else outcomes
]

-- `record`, with the row that it returns.
unfoldable pub record_event :
    AnalyticsEvent → Analytics → Result AnalyticsError (AnalyticsEvent × Analytics)
record_event e db = elim (find_event e.source_name e.source_event_id db.events) [
  | some existing ↦ ok (existing, db)
  | none ↦ (do
    raise_if (not (suits_lead db.leads e)) analytics_lead_property_mismatch
    ok (e, record db { events = e ∷ db.events; outcomes = add_outcome e db.outcomes }))
]

-- The state after a transaction; a raise leaves it.
abbrev pub state_after : Analytics → Result AnalyticsError (AnalyticsEvent × Analytics) → Analytics
state_after db (ok (_, after)) = after
state_after db (raised _) = db

-- A source delivers its events in any order and any number of times.
unfoldable pub record_all : List AnalyticsEvent → Analytics → Analytics
record_all [] db = db
record_all (e ∷ events) db = record_all events (state_after db (record_event e db))
