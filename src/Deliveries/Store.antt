-- ===== src/Deliveries/Store.antt =====
-- The tables around the queue, and how the state of a lead follows its deliveries:
-- `_refresh_lead_state` and `_add_lead_event` of lead_routing/worker.py.
use digital_real_estate_engi.Common.{
  ℕ, Bool, true, false, Option, none, some, List, ◌∷◌, map, ◌&&◌, ◌==◌, if◌then◌else◌, filter, any,
}
use digital_real_estate_engi.Common.Text.{Text}
use digital_real_estate_engi.Common.Table.{get, touch}
use digital_real_estate_engi.Deliveries.Row.{is_nonterminal, is_delivered, ErrorCode, Delivery}

pub data LeadStatus : Type 0 where
  received spam routing delivered delivery_failed deleted : LeadStatus

pub record Lead : Type 0 where
  pub id : ℕ
  pub property_id : ℕ
  pub status : LeadStatus
  pub provider_assignment_id : Option ℕ

pub data AssignmentStatus : Type 0 where
  candidate pilot active paused terminated replaced : AssignmentStatus

abbrev pub is_active_assignment : AssignmentStatus → Bool
is_active_assignment active = true
is_active_assignment _ = false

pub record Assignment : Type 0 where
  pub id : ℕ
  pub status : AssignmentStatus
  pub destination_email : Option Text
  pub destination_phone : Option Text

pub data AttemptStatus : Type 0 where
  running succeeded rejected retryable_failure permanent_failure outcome_unknown : AttemptStatus

abbrev pub is_running : AttemptStatus → Bool
is_running running = true
is_running _ = false

-- The row of `routing_attempts`.
pub record Attempt : Type 0 where
  pub delivery_key : ℕ
  pub attempt_number : ℕ
  pub status : AttemptStatus
  pub error_code : Option ErrorCode
  pub started_at : ℕ
  pub completed_at : Option ℕ

-- The keys of the two events that the worker adds, and of any other event.
pub data EventKey : Type 0 where
  delivery_key delivery_failed_key other_key : ℕ → EventKey

abbrev pub key_eq : EventKey → EventKey → Bool
key_eq (delivery_key a) (delivery_key b) = a == b
key_eq (delivery_failed_key a) (delivery_failed_key b) = a == b
key_eq (other_key a) (other_key b) = a == b
key_eq _ _ = false

pub record LeadEvent : Type 0 where
  pub lead_id : ℕ
  pub event_key : EventKey
  pub occurred_at : ℕ

pub record Store : Type 0 where
  pub deliveries : List Delivery
  pub attempts : List Attempt
  pub leads : List Lead
  pub assignments : List Assignment
  pub events : List LeadEvent

abbrev pub has_event : ℕ → EventKey → List LeadEvent → Bool
has_event lead_id key events = any (λ e. e.lead_id == lead_id && key_eq e.event_key key) events

-- `_add_lead_event`
unfoldable pub add_lead_event : ℕ → EventKey → ℕ → List LeadEvent → List LeadEvent
add_lead_event lead_id key at events =
    if has_event lead_id key events
    then events
    else record { lead_id = lead_id; event_key = key; occurred_at = at } ∷ events

abbrev pub of_lead : ℕ → List Delivery → List Delivery
of_lead lead_id deliveries = filter (λ d. d.lead_id == lead_id) deliveries

abbrev pub set_lead : ℕ → LeadStatus → List Lead → List Lead
set_lead i status leads = map (touch (λ l. l.id == i) (λ l. record l { status = status })) leads

-- `_refresh_lead_state`: the new store, and whether the lead has failed.
unfoldable pub refresh_lead_state : ℕ → ℕ → Store → Store × Bool
refresh_lead_state lead_id at store = elim (get (λ l. l.id) lead_id store.leads) [
  | none ↦ (store, false)
  | some lead ↦
      if any (λ d. is_nonterminal d.status) (of_lead lead_id store.deliveries)
      then (record store { leads = set_lead lead_id routing store.leads }, false)
      else if any (λ d. is_delivered d.status) (of_lead lead_id store.deliveries)
      then (
        record store {
          leads = set_lead lead_id delivered store.leads;
          events = add_lead_event lead_id (delivery_key lead_id) at store.events;
        },
        false,
      )
      else (
        record store {
          leads = set_lead lead_id delivery_failed store.leads;
          events = add_lead_event lead_id (delivery_failed_key lead_id) at store.events;
        },
        true,
      )
]
