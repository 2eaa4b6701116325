-- ===== src/Costs/Balance/Reserving.antt =====
-- A reservation that is granted keeps the buckets balanced.
use digital_real_estate_engi.Common.{ℕ, ◌≡◌, refl, true, some, List, arith}
use digital_real_estate_engi.Common.Table.{get}
use digital_real_estate_engi.Common.Result.{ok, >>-eq-ok}
use digital_real_estate_engi.Scans.Row.{ScanRow}
use digital_real_estate_engi.Costs.State.{ApiCall, Ledger, update_both}
use digital_real_estate_engi.Costs.Breakers.{CostSettings, Records}
use digital_real_estate_engi.Costs.Reserve.{
  CallRequest, UsageReservation, reservation_of, bucket_of, is_free, is_prepared, check_lease,
  assert_allowed, eligible_call, count_reservation, hold_call, reserved_ledger,
  reserve_provider_call,
}
use digital_real_estate_engi.Costs.Balance.{IsBalanced, reserved-add, unreconciled-add}
use digital_real_estate_engi.Costs.Balance.Update.{IsBalanced-update}

-- The attempt that a request names: its row, made for the same provider and endpoint.
pub record IsFor (request : CallRequest) (i : ℕ) (c : ApiCall) (calls : List ApiCall) : Type 0 where
  pub named : request.api_call_id ≡ some i
  pub found : get (λ c. c.id) i calls ≡ some c
  pub same_provider : c.provider ≡ request.provider
  pub same_endpoint : c.endpoint ≡ request.endpoint

-- An attempt that is eligible has no reservation and is prepared.
pub eligible_call-ok :
    (calls : List ApiCall) (i : ℕ) (c : ApiCall)
    → get (λ c. c.id) i calls ≡ some c
    → eligible_call calls (some i) ≡ ok tt
    → (is_free c.reservation_state ≡ true) × (is_prepared c.attempt_state ≡ true)
unfolding eligible_call
eligible_call-ok calls i c found h = ground arith

module _ (settings : CostSettings) (records : Records) (scans : List ScanRow)
    (request : CallRequest) (now : ℕ) (ledger : Ledger) where
  -- A granted request has passed every check, and its writes are known.
  pub reserve-inversion :
      (r : UsageReservation) (ledger' : Ledger)
      → reserve_provider_call settings records scans request now ledger ≡ ok (r, ledger')
      → (assert_allowed settings records scans request now ledger ≡ ok tt)
        × (r ≡ reservation_of request now)
        × (ledger' ≡ reserved_ledger request now ledger)
  unfolding reserve_provider_call
  reserve-inversion r ledger' h =
      let (allowed, granted) =
        >>-eq-ok (assert_allowed settings records scans request now ledger) _ h in
      (allowed, cc, cc)

  pub allowed-eligible :
      assert_allowed settings records scans request now ledger ≡ ok tt
      → eligible_call ledger.calls request.api_call_id ≡ ok tt
  unfolding assert_allowed
  allowed-eligible h =
      (>>-eq-ok (eligible_call ledger.calls request.api_call_id) _
        (>>-eq-ok _ _
          (>>-eq-ok _ _ (>>-eq-ok (check_lease scans request.execution_lease now) _ h).1).1).1).0

-- The writes of a granted request keep the buckets balanced.
reserved_ledger-IsBalanced :
    (request : CallRequest) (now : ℕ) (ledger : Ledger) (i : ℕ) (c : ApiCall)
    → IsBalanced ledger
    → IsFor request i c ledger.calls
    → is_free c.reservation_state ≡ true
    → IsBalanced (reserved_ledger request now ledger)
unfolding count_reservation hold_call
reserved_ledger-IsBalanced request now ledger i c balanced for free = rw for.named (
    IsBalanced-update ledger balanced i c for.found (hold_call r)
      (update_both (bucket_of r) (count_reservation request.estimated_cost_usd request.cache_miss)
        ledger.buckets)
      (λ c. refl)
      (λ j. ground (
        arith,
        for.same_provider,
        for.same_endpoint,
        free,
        reserved-add (bucket_of r) j
            (count_reservation request.estimated_cost_usd request.cache_miss) ledger.buckets
            request.estimated_cost_usd (λ b. refl),
      ))
      (λ j. ground (
        arith,
        for.same_provider,
        for.same_endpoint,
        free,
        unreconciled-add (bucket_of r) j
            (count_reservation request.estimated_cost_usd request.cache_miss) ledger.buckets 0
            (λ b. omega arith),
      )))
  where
    r : UsageReservation
    r = reservation_of request now

-- Granting a reservation to the attempt that the request was made for keeps the buckets of a balanced
-- ledger equal to the sums of what is held and of what is unknown.
pub reserve-IsBalanced :
    (settings : CostSettings) (records : Records) (scans : List ScanRow) (request : CallRequest)
    (now : ℕ) (ledger : Ledger) (i : ℕ) (c : ApiCall) (r : UsageReservation) (ledger' : Ledger)
    → IsBalanced ledger
    → IsFor request i c ledger.calls
    → reserve_provider_call settings records scans request now ledger ≡ ok (r, ledger')
    → IsBalanced ledger'
reserve-IsBalanced settings records scans request now ledger i c r ledger' balanced for h =
    let (allowed, _, writes) =
      reserve-inversion settings records scans request now ledger r ledger' h in
    let eligible = allowed-eligible settings records scans request now ledger allowed in
    rw writes (
      reserved_ledger-IsBalanced request now ledger i c balanced for
        (eligible_call-ok ledger.calls i c for.found (rw for.named at eligible)).0)
