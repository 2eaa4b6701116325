-- ===== src/Costs/Request/Recovered.antt =====
-- A recovery in the middle of a live request: it may close the attempt of the request.
use digital_real_estate_engi.Common.{
  ℕ, ◌≡◌, inl, inr, some, Option, List, [], ◌∷◌, ◌==◌, arith, Bool-cases,
}
use digital_real_estate_engi.Common.Table.{get, get-touch_key}
use digital_real_estate_engi.Costs.State.{ApiCall, Ledger}
use digital_real_estate_engi.Costs.Breakers.{CostSettings}
use digital_real_estate_engi.Costs.Reserve.{UsageReservation}
use digital_real_estate_engi.Costs.Reconcile.{
  close_attempt, reconcile_one, reconcile_all, stale_calls, reconcile_stale_api_call_attempts,
}
use digital_real_estate_engi.Costs.Balance.Reconciling.{reconcile_one-calls}
use digital_real_estate_engi.Costs.Protocol.{reconcile}
use digital_real_estate_engi.Costs.Request.Ending.{IsOurs, after_step}
use digital_real_estate_engi.Costs.Request.Settled.{KeepsInHand}

close_attempt-same_id : (now : ℕ) (c : ApiCall) → (close_attempt now c).id ≡ c.id
unfolding close_attempt
close_attempt-same_id now c = ground arith

close_attempt-IsOurs :
    (r : UsageReservation) (now : ℕ) (c : ApiCall) → IsOurs r c → IsOurs r (close_attempt now c)
unfolding close_attempt
close_attempt-IsOurs r now c (inl from) = inr (ground (arith, from.is_held_now, from.same_date))
close_attempt-IsOurs r now c (inr settled) = inr (ground (arith, settled))

module _ (r : UsageReservation) (i now : ℕ) where
  abbrev InTable : Ledger → Type 0
  InTable ledger = (c : ApiCall) × (get (λ c. c.id) i ledger.calls ≡ some c) × IsOurs r c

  reconcile_one-InTable :
      (d : ApiCall) (ledger : Ledger) → InTable ledger → InTable (reconcile_one now d ledger)
  reconcile_one-InTable d ledger (c, found, ours) =
      let seen =
        get-touch_key (λ c. c.id) (close_attempt now) (close_attempt-same_id now) d.id i
          ledger.calls in
      rw (reconcile_one-calls now d ledger) (elim (Bool-cases (i == d.id)) [
        | inl same ↦ (
          close_attempt now c,
          ground (arith, seen, same, found),
          close_attempt-IsOurs r now c ours,
        )
        | inr other ↦ (c, ground (arith, seen, other, found), ours)
      ])

  reconcile_all-InTable :
      (calls : List ApiCall) (ledger : Ledger)
      → InTable ledger
      → InTable (reconcile_all now calls ledger)
  unfolding reconcile_all
  reconcile_all-InTable [] ledger hand = hand
  reconcile_all-InTable (d ∷ calls) ledger hand =
      reconcile_all-InTable calls (reconcile_one now d ledger) (reconcile_one-InTable d ledger hand)

-- The reconciliation of stale attempts may come between the transactions of a request.
pub reconcile-KeepsInHand :
    (settings : CostSettings) (i stale_before : ℕ) (scan_run_id : Option ℕ) (now : ℕ)
    → KeepsInHand settings i
        (λ ledger. (reconcile_stale_api_call_attempts stale_before scan_run_id now ledger).0)
unfolding reconcile_stale_api_call_attempts
reconcile-KeepsInHand settings i stale_before scan_run_id now r ledger (sound, hand) = (
  after_step settings sound (reconcile stale_before scan_run_id now),
  reconcile_all-InTable r i now (stale_calls stale_before scan_run_id ledger) ledger hand,
)
