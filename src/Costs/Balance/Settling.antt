-- ===== src/Costs/Balance/Settling.antt =====
-- Finishing a call keeps the buckets balanced.
use digital_real_estate_engi.Common.{
  ℕ, ◌+◌, ◌≡◌, refl, Bool, true, false, some, map, ◌==◌, if◌then◌else◌, arith,
}
use digital_real_estate_engi.Common.Table.{get, touch}
use digital_real_estate_engi.Costs.State.{ApiCall, BucketKey, Ledger, update_both, held}
use digital_real_estate_engi.Costs.Reserve.{UsageReservation, bucket_of}
use digital_real_estate_engi.Costs.Finish.{
  is_settled, CallOutcome, settle_bucket, settle_call, finish_provider_call,
}
use digital_real_estate_engi.Costs.Balance.{
  spread, held_weight, unknown_weight, IsBalanced, reserved-sub, unreconciled-add,
}
use digital_real_estate_engi.Costs.Balance.Update.{held-le, IsBalanced-update}

-- The reservation that was returned when the attempt was reserved.
pub record IsFrom (r : UsageReservation) (c : ApiCall) : Type 0 where
  pub is_held_now : c.reservation_state ≡ held
  pub same_date : c.reservation_usage_date ≡ some r.usage_date
  pub same_class : c.reservation_usage_class ≡ some r.usage_class
  pub same_estimate : c.reservation_estimated_cost_usd ≡ r.estimated_cost_usd
  pub same_provider : c.provider ≡ r.provider
  pub same_endpoint : c.endpoint ≡ r.endpoint

settle_call-id : (u : Bool) (now : ℕ) (c : ApiCall) → (settle_call u now c).id ≡ c.id
unfolding settle_call
settle_call-id true now c = refl
settle_call-id false now c = refl

module _ (r : UsageReservation) (outcome : CallOutcome) (now : ℕ) (ledger : Ledger)
    (balanced : IsBalanced ledger) (i : ℕ) (c : ApiCall) (named : r.api_call_id ≡ some i)
    (found : get (λ c. c.id) i ledger.calls ≡ some c) where
  -- Finishing a call that is settled already changes nothing.
  pub finish_settled :
      is_settled c.reservation_state ≡ true → finish_provider_call r outcome now ledger ≡ ledger
  unfolding finish_provider_call
  finish_settled settled = rw (named, found, settled)

  pub finish_held :
      IsFrom r c
      → finish_provider_call r outcome now ledger ≡ record {
        calls =
            map
              (touch (λ c. c.id == i) (settle_call outcome.provider_outcome_unknown now))
              ledger.calls;
        buckets =
            update_both (bucket_of r) (settle_bucket r.estimated_cost_usd outcome) ledger.buckets;
      }
  unfolding finish_provider_call
  finish_held from = rw (named, found, from.is_held_now)

  pub from-weight :
      IsFrom r c → (j : BucketKey) → held_weight j c ≡ spread (bucket_of r) r.estimated_cost_usd j
  from-weight from j = ground (arith, from)

  -- What the settled row weighs.
  settled-weight :
      (u : Bool)
      → IsFrom r c
      → (j : BucketKey)
      → (held_weight j (settle_call u now c) ≡ 0)
        × (unknown_weight j c ≡ 0)
        × (unknown_weight j (settle_call u now c)
            ≡ (if u then spread (bucket_of r) r.estimated_cost_usd j else 0))
  unfolding settle_call
  settled-weight true from j = ground (arith, from)
  settled-weight false from j = ground (arith, from)

  pub settled-unreconciled :
      (j : BucketKey)
      → (update_both
          (bucket_of r)
          (settle_bucket r.estimated_cost_usd outcome)
          ledger.buckets
          j).unreconciled_spend_usd
        ≡ (ledger.buckets j).unreconciled_spend_usd
          + (if outcome.provider_outcome_unknown
              then spread (bucket_of r) r.estimated_cost_usd j
              else 0)
  unfolding settle_bucket spread
  settled-unreconciled j = ground (
    arith,
    unreconciled-add (bucket_of r) j (settle_bucket r.estimated_cost_usd outcome) ledger.buckets
        (if outcome.provider_outcome_unknown then r.estimated_cost_usd else 0) (λ b. ground arith),
  )

  -- Finishing a call that is held moves its estimate out of the reserved spend, into the
  -- unreconciled spend if the outcome is unknown.
  -- Finishing the call that a reservation was granted for, while its attempt holds it, leaves the
  -- buckets of a balanced ledger equal to the sums of what is held and of what is unknown.
  pub finish-IsBalanced : IsFrom r c → IsBalanced (finish_provider_call r outcome now ledger)
  unfolding settle_bucket
  finish-IsBalanced from = rw (finish_held from) (
      IsBalanced-update ledger balanced i c found (settle_call outcome.provider_outcome_unknown now)
        (update_both (bucket_of r) (settle_bucket r.estimated_cost_usd outcome) ledger.buckets)
        (settle_call-id outcome.provider_outcome_unknown now)
        (λ j. omega (
          arith,
          from-weight from j,
          (settled-weight outcome.provider_outcome_unknown from j).0,
          held-le ledger balanced i c found j,
          reserved-sub (bucket_of r) j (settle_bucket r.estimated_cost_usd outcome) ledger.buckets
              r.estimated_cost_usd (λ b. refl),
        ))
        (λ j. omega (
          arith,
          settled-unreconciled j,
          (settled-weight outcome.provider_outcome_unknown from j).1,
          (settled-weight outcome.provider_outcome_unknown from j).2,
        )))
