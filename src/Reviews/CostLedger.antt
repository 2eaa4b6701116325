-- ===== src/Reviews/CostLedger.antt =====
-- `ledger_complete` of `build_api_cost_ledger` in src/rank_rent/services/discovery_report.py: the
-- calls of a scan against the calls that were planned for it.
pub mod Correct
use digital_real_estate_engi.Common.{
  ℕ, Bool, true, false, not, Option, none, some, List, [], ◌∷◌, ◌&&◌, holds, if◌then◌else◌, filter,
  any,
}
use digital_real_estate_engi.Costs.State.{CallStatus, done, call_failed, call_cached}

-- The columns of `scan_plan_calls` and of `api_calls` that the test reads.
pub record PlannedCall : Type 0 where
  pub scan_run_id : ℕ
  pub planned_request_id : Option ℕ

pub record ExecutedCall : Type 0 where
  pub scan_run_id : Option ℕ
  pub planned_request_id : Option ℕ
  pub status : CallStatus

-- `row.status in terminal_statuses`
abbrev pub is_terminal_status : CallStatus → Bool
is_terminal_status call_cached = true
is_terminal_status done = true
is_terminal_status call_failed = true
is_terminal_status _ = false

-- `planned_request_id` is a key of `executed_by_plan_id`, and a member of `planned_ids`; neither holds
-- the value None.
abbrev pub is_executed : List ExecutedCall → PlannedCall → Bool
is_executed rows planned = elim planned.planned_request_id [
  | none ↦ false
  | some p ↦ any (λ r. holds r.planned_request_id p) rows
]

abbrev pub is_planned : List PlannedCall → ExecutedCall → Bool
is_planned planned_rows row = elim row.planned_request_id [
  | none ↦ false
  | some p ↦ any (λ q. holds q.planned_request_id p) planned_rows
]

abbrev pub is_empty {ℓ} : {A : Type ℓ} → List A → Bool
is_empty [] = true
is_empty (_ ∷ _) = false

abbrev pub unexecuted : List PlannedCall → List ExecutedCall → List PlannedCall
unexecuted planned_rows rows = filter (λ p. not (is_executed rows p)) planned_rows

-- With no plan, no call is unexpected.
abbrev pub unexpected : List PlannedCall → List ExecutedCall → List ExecutedCall
unexpected planned_rows rows =
    if is_empty planned_rows then [] else filter (λ r. not (is_planned planned_rows r)) rows

abbrev pub all_terminal : List ExecutedCall → Bool
all_terminal [] = true
all_terminal (r ∷ rows) = is_terminal_status r.status && all_terminal rows

unfoldable pub ledger_complete : (scan_run_id : ℕ) → List PlannedCall → List ExecutedCall → Bool
ledger_complete scan_run_id planned_calls api_calls =
    let rows = filter (λ r. holds r.scan_run_id scan_run_id) api_calls in
    let planned_rows = filter (λ p. holds (some p.scan_run_id) scan_run_id) planned_calls in
    is_empty (unexecuted planned_rows rows)
    && (is_empty (unexpected planned_rows rows) && all_terminal rows)
