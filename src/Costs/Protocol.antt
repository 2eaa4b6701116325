-- ===== src/Costs/Protocol.antt =====
-- The life of the ledger of paid calls: every interleaving of the operations of the adapter, the
-- worker and the operator.
pub mod Plain
pub mod Dated
pub mod Safety
use Prim.Native.String.{String}
use digital_real_estate_engi.Common.{
  ℕ, ◌≤◌, ◌≡◌, ◌≢◌, true, false, Option, some, List, ◌∷◌, map, ◌==◌, All,
}
use digital_real_estate_engi.Common.Int.{ℤ, pos_part}
use digital_real_estate_engi.Common.Text.{Text}
use digital_real_estate_engi.Common.Table.{get, touch}
use digital_real_estate_engi.Common.Result.{ok}
use digital_real_estate_engi.Scans.Row.{ScanRow}
use digital_real_estate_engi.Scans.Lease.{ScanExecutionLease}
use digital_real_estate_engi.Costs.State.{summary_endpoint, CallStatus, ApiCall, Ledger}
use digital_real_estate_engi.Costs.Breakers.{CostSettings, Records}
use digital_real_estate_engi.Costs.Attempts.{
  new_attempt, is_retryable_row, retry_attempt, finish_api_call,
}
use digital_real_estate_engi.Costs.Reserve.{
  CallRequest, UsageReservation, is_held, reserve_provider_call, mark_provider_call_submitted,
}
use digital_real_estate_engi.Costs.Finish.{
  CallOutcome, is_settled, finish_provider_call, record_unexpected_call,
}
use digital_real_estate_engi.Costs.Reconcile.{reconcile_stale_api_call_attempts}
use digital_real_estate_engi.Costs.Resolve.{Verdict, magnitude, resolve_unknown_provider_call}
use digital_real_estate_engi.Costs.Balance.{is_unknown}
use digital_real_estate_engi.Costs.Balance.Reserving.{IsFor}
use digital_real_estate_engi.Costs.Balance.Settling.{IsFrom}

-- The writes of one row.
abbrev pub write : ℕ → (ApiCall → ApiCall) → Ledger → Ledger
write i f ledger = record ledger { calls = map (touch (λ c. c.id == i) f) ledger.calls }

-- One operation. Its caller provides that a request names a prepared row of its own provider and
-- endpoint, and that a reservation is finished with the row that it was granted for. The source does not
-- check that a row that is retried is neither held nor of unknown outcome, nor that what the provider or
-- the operator reports is at most the estimate: these are assumptions.
pub data Step (settings : CostSettings) (ledger : Ledger) : Ledger → Type 0 where
  open_attempt :
      (id : ℕ) (scan_run_id : Option ℕ) (provider endpoint : ℕ) (status : CallStatus) (now : ℕ)
      → All (λ c. c.id ≢ id) ledger.calls
      → Step settings ledger (record ledger {
        calls = new_attempt id scan_run_id provider endpoint status now ∷ ledger.calls;
      })
  retry :
      (i : ℕ) (c : ApiCall) (status : CallStatus) (now : ℕ)
      → get (λ c. c.id) i ledger.calls ≡ some c
      → is_retryable_row c.status ≡ true
      → is_held c.reservation_state ≡ false
      → is_unknown c.reservation_state ≡ false
      → Step settings ledger (write i (retry_attempt status now) ledger)
  reserve :
      (records : Records) (scans : List ScanRow) (request : CallRequest) (now i : ℕ) (c : ApiCall)
      (r : UsageReservation) {ledger' : Ledger}
      → IsFor request i c ledger.calls
      → request.endpoint ≢ summary_endpoint
      → reserve_provider_call settings records scans request now ledger ≡ ok (r, ledger')
      → Step settings ledger ledger'
  submit :
      (scans : List ScanRow) (r : UsageReservation) (lease : Option ScanExecutionLease) (now : ℕ)
      {ledger' : Ledger}
      → mark_provider_call_submitted scans r lease now ledger ≡ ok ledger'
      → Step settings ledger ledger'
  close_row :
      (i : ℕ) (seen status : CallStatus) (cost : Option ℕ) (error_type : Option String)
      (error_summary : Option Text) (now : ℕ)
      → Step settings ledger
          (write i (finish_api_call seen status cost error_type error_summary now) ledger)
  finish :
      (r : UsageReservation) (outcome : CallOutcome) (now i : ℕ) (c : ApiCall)
      → r.api_call_id ≡ some i
      → get (λ c. c.id) i ledger.calls ≡ some c
      → IsFrom r c
      → pos_part outcome.actual_cost_usd ≤ r.estimated_cost_usd
      → Step settings ledger (finish_provider_call r outcome now ledger)
  finish_again :
      (r : UsageReservation) (outcome : CallOutcome) (now i : ℕ) (c : ApiCall)
      → r.api_call_id ≡ some i
      → get (λ c. c.id) i ledger.calls ≡ some c
      → is_settled c.reservation_state ≡ true
      → Step settings ledger (finish_provider_call r outcome now ledger)
  reconcile :
      (stale_before : ℕ) (scan_run_id : Option ℕ) (now : ℕ)
      → Step settings ledger
          (reconcile_stale_api_call_attempts stale_before scan_run_id now ledger).0
  resolve :
      (note : Text) (i : ℕ) (verdict : Verdict) (cost : ℤ) (now : ℕ) {ledger' : Ledger}
      → resolve_unknown_provider_call note i verdict cost now ledger ≡ ok ledger'
      → ((c : ApiCall)
          → get (λ c. c.id) i ledger.calls ≡ some c
          → magnitude cost ≤ c.reservation_estimated_cost_usd)
      → Step settings ledger ledger'
  unexpected :
      (provider : ℕ) (environment : String) (endpoint now : ℕ)
      → Step settings ledger (record_unexpected_call provider environment endpoint now ledger)

pub data Reach (settings : CostSettings) (ledger : Ledger) : Ledger → Type 0 where
  here : Reach settings ledger ledger
  next :
      {middle after : Ledger}
      → Reach settings ledger middle
      → Step settings middle after
      → Reach settings ledger after
