-- ===== src/Costs/Request/Settled.antt =====
-- What a live request leaves of the ledger, however it ends.
use digital_real_estate_engi.Common.{ℕ, ◌≤◌}
use digital_real_estate_engi.Common.Result.{Result}
use digital_real_estate_engi.Costs.State.{Ledger}
use digital_real_estate_engi.Costs.Breakers.{CostSettings, Blocked}
use digital_real_estate_engi.Costs.Reserve.{CallRequest, UsageReservation}
use digital_real_estate_engi.Costs.Request.{
  RequestError, Answer, answered, unstored, unreported, Course,
}
use digital_real_estate_engi.Costs.Request.Ending.{InHand}

-- What the provider charges, as the payload reports it.
abbrev pub charge : Answer → ℕ
charge (answered cost) = cost
charge (unstored cost error) = cost
charge (unreported cost error) = cost
charge _ = 0

module _ (settings : CostSettings) where
  -- What others do between the transactions of the request: whatever keeps a sound ledger sound, and the
  -- attempt either in hand or settled.
  abbrev pub KeepsInHand : ℕ → (Ledger → Ledger) → Type 0
  KeepsInHand i others =
      (r : UsageReservation) (ledger : Ledger)
      → InHand settings i r ledger
      → InHand settings i r (others ledger)

  module _ (request : CallRequest) (error_of : Blocked → RequestError) (i : ℕ)
      (course : Course) where
    -- The provider charges at most the estimate.
    abbrev IsCheap : Answer → Type 0
    IsCheap answer = charge answer ≤ request.estimated_cost_usd
