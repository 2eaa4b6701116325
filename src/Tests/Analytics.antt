-- ===== src/Tests/Analytics.antt =====
-- A revenue of lead 3 that its source delivers three times, and one for a property it is not of.
use digital_real_estate_engi.Common.{◌≡◌, refl, some, [], ◌∷◌, arith}
use digital_real_estate_engi.Common.Table.{get}
use digital_real_estate_engi.Common.Result.{ok}
use digital_real_estate_engi.Deliveries.Store.{delivered}
use digital_real_estate_engi.Analytics.{
  AnalyticsEvent, Analytics, revenue, provider, provider_reported, record_event, record_all,
  find_event, add_outcome, outcome_of,
}
use digital_real_estate_engi.Analytics.Once.{IsOnce, record_all-IsOnce, record_event_again}

abbrev job : AnalyticsEvent
job = record {
  property_id = 7;
  event_type = revenue;
  source_type = provider;
  source_name = 21;
  source_event_id = 300;
  truth_basis = provider_reported;
  lead_id = some 3;
  occurred_at = 90;
  value_usd = some 45000;
}

abbrev start : Analytics
start = record {
  leads =
      record { id = 3; property_id = 7; status = delivered; provider_assignment_id = some 1 } ∷ [];
  events = [];
  outcomes = [];
}

abbrev counted : Analytics
counted = record start { events = job ∷ []; outcomes = outcome_of 3 job ∷ [] }

start-IsOnce : IsOnce start
start-IsOnce = record { single = λ name key. omega arith; covered = λ name key. omega arith }

record_all-IsOnce_example :
    IsOnce
      (record_all (job ∷ record job { property_id = 8; source_event_id = 301 } ∷ job ∷ []) start)
record_all-IsOnce_example =
    record_all-IsOnce (job ∷ record job { property_id = 8; source_event_id = 301 } ∷ job ∷ []) start
      start-IsOnce

job_accepted : record_event job start ≡ ok (job, counted)
unfolding record_event find_event add_outcome get
job_accepted = refl

record_event_again_example : record_event job counted ≡ ok (job, counted)
record_event_again_example = record_event_again job job start counted job_accepted
