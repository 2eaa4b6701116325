-- ===== src/Costs/Protocol/Safety.antt =====
-- What no interleaving of the operations on the ledger can break.
use Prim.Native.String.{String}
use digital_real_estate_engi.Common.{ℕ, ◌≤◌, ◌≡◌, Option, some, arith, inl, inr}
use digital_real_estate_engi.Common.Table.{get, All-found}
use digital_real_estate_engi.Common.Int.{ℤ, pos_part}
use digital_real_estate_engi.Common.Text.{Text}
use digital_real_estate_engi.Common.Result.{ok}
use digital_real_estate_engi.Costs.Resolve.{Verdict, magnitude, resolve_unknown_provider_call}
use digital_real_estate_engi.Costs.State.{ApiCall, BucketKey, Buckets, Ledger}
use digital_real_estate_engi.Costs.Breakers.{CostSettings}
use digital_real_estate_engi.Costs.Reserve.{UsageReservation}
use digital_real_estate_engi.Costs.Finish.{
  CallOutcome, finish_provider_call, count_unexpected, record_unexpected_call,
}
use digital_real_estate_engi.Costs.Reconcile.{reconcile_stale_api_call_attempts}
use digital_real_estate_engi.Costs.Balance.{IsBalanced}
use digital_real_estate_engi.Costs.Balance.Reserving.{reserve-inversion, reserve-IsBalanced}
use digital_real_estate_engi.Costs.Balance.Settling.{IsFrom, finish-IsBalanced, finish_settled}
use digital_real_estate_engi.Costs.Balance.Reconciling.{reconcile_stale-IsBalanced}
use digital_real_estate_engi.Costs.Balance.Resolving.{
  resolved_ledger, resolve-inversion, resolved_ledger-IsBalanced,
}
use digital_real_estate_engi.Costs.Budget.{committed, WithinBudget}
use digital_real_estate_engi.Costs.Budget.Granting.{reserve-WithinBudget}
use digital_real_estate_engi.Costs.Budget.Settling.{
  finish-committed, reconcile_stale-committed, resolve-committed,
}
use digital_real_estate_engi.Costs.Protocol.{
  Step, open_attempt, retry, reserve, submit, close_row, finish, finish_again, reconcile, resolve,
  unexpected, Reach, here, next,
}
use digital_real_estate_engi.Costs.Protocol.Plain.{
  submit-inversion, opened-IsBalanced, retried-IsBalanced, submitted-IsBalanced, closed-IsBalanced,
}
use digital_real_estate_engi.Costs.Protocol.Dated.{
  IsDated, Dated, opened-Dated, retried-Dated, submitted-Dated, closed-Dated, reserved-Dated,
  finished-Dated, resolved-Dated, reconciled-Dated,
}

pub record IsSound (settings : CostSettings) (ledger : Ledger) : Type 0 where
  pub balanced : IsBalanced ledger
  pub dated : Dated ledger
  pub within : WithinBudget settings ledger.buckets

unexpected-money :
    (provider : ℕ) (environment : String) (endpoint now : ℕ) (ledger : Ledger) (j : BucketKey)
    → let after = (record_unexpected_call provider environment endpoint now ledger).buckets j in
      (after.reserved_spend_usd ≡ (ledger.buckets j).reserved_spend_usd)
      × (after.unreconciled_spend_usd ≡ (ledger.buckets j).unreconciled_spend_usd)
      × (after.spend_usd ≡ (ledger.buckets j).spend_usd)
unfolding record_unexpected_call count_unexpected
unexpected-money provider environment endpoint now ledger j = ground arith

module _ {settings : CostSettings} {ledger : Ledger} (sound : IsSound settings ledger) where
  WithinBudget-le :
      (buckets : Buckets)
      → ((j : BucketKey) → committed (buckets j) ≤ committed (ledger.buckets j))
      → WithinBudget settings buckets
  WithinBudget-le buckets h j summary = omega (arith, h j, sound.within j summary)

  unexpected-IsSound :
      (provider : ℕ) (environment : String) (endpoint now : ℕ)
      → IsSound settings (record_unexpected_call provider environment endpoint now ledger)
  unfolding record_unexpected_call
  unexpected-IsSound provider environment endpoint now =
      let money = unexpected-money provider environment endpoint now ledger in
      record {
        balanced = record {
          keyed = sound.balanced.keyed;
          reserved = λ j. omega (arith, money j, sound.balanced.reserved j);
          unreconciled = λ j. omega (arith, money j, sound.balanced.unreconciled j);
        };
        dated = sound.dated;
        within =
            WithinBudget-le
              (record_unexpected_call provider environment endpoint now ledger).buckets
              (λ j. omega (arith, money j));
      }

  finish-IsSound :
      (r : UsageReservation) (outcome : CallOutcome) (now i : ℕ) (c : ApiCall)
      → r.api_call_id ≡ some i
      → get (λ c. c.id) i ledger.calls ≡ some c
      → IsFrom r c
      → pos_part outcome.actual_cost_usd ≤ r.estimated_cost_usd
      → IsSound settings (finish_provider_call r outcome now ledger)
  finish-IsSound r outcome now i c named found from cheap = record {
    balanced = finish-IsBalanced r outcome now ledger sound.balanced i c named found from;
    dated = finished-Dated ledger sound.dated r outcome now;
    within =
        WithinBudget-le (finish_provider_call r outcome now ledger).buckets
          (finish-committed r outcome now ledger sound.balanced i c named found from cheap);
  }

  reconcile-IsSound :
      (stale_before : ℕ) (scan : Option ℕ) (now : ℕ)
      → IsSound settings (reconcile_stale_api_call_attempts stale_before scan now ledger).0
  reconcile-IsSound stale_before scan now = record {
    balanced = reconcile_stale-IsBalanced stale_before scan now ledger sound.balanced;
    dated = reconciled-Dated stale_before scan now ledger sound.dated;
    within =
        WithinBudget-le (reconcile_stale_api_call_attempts stale_before scan now ledger).0.buckets
          (reconcile_stale-committed stale_before scan now ledger sound.balanced);
  }

  resolve-IsSound :
      (note : Text) (i : ℕ) (verdict : Verdict) (cost : ℤ) (now : ℕ) (ledger' : Ledger)
      → resolve_unknown_provider_call note i verdict cost now ledger ≡ ok ledger'
      → ((c : ApiCall)
          → get (λ c. c.id) i ledger.calls ≡ some c
          → magnitude cost ≤ c.reservation_estimated_cost_usd)
      → IsSound settings ledger'
  resolve-IsSound note i verdict cost now ledger' h cheap =
      let (c, found, waiting, _, _, _, writes) =
        resolve-inversion note i verdict cost now ledger ledger' h in
      let undated = All-found (λ c. c.id) IsDated i c ledger.calls found sound.dated in
      rw writes (record {
        balanced =
            resolved_ledger-IsBalanced note i verdict cost now ledger sound.balanced c found waiting
              undated;
        dated = resolved-Dated ledger sound.dated note i verdict cost now c;
        within = WithinBudget-le (resolved_ledger note i verdict cost now c ledger).buckets (
            resolve-committed note i verdict cost now ledger sound.balanced c found waiting undated
              (cheap c found));
      })

  -- Every operation keeps the ledger sound.
  step-IsSound : {after : Ledger} → Step settings ledger after → IsSound settings after
  step-IsSound (open_attempt id scan provider endpoint status now fresh) = record {
    balanced = opened-IsBalanced ledger sound.balanced id scan provider endpoint status now fresh;
    dated = opened-Dated ledger sound.dated id scan provider endpoint status now;
    within = sound.within;
  }
  step-IsSound (retry i c status now found _ free known) = record {
    balanced = retried-IsBalanced ledger sound.balanced i c status now found free known;
    dated = retried-Dated ledger sound.dated i status now;
    within = sound.within;
  }
  step-IsSound (reserve records scans request now i c r {ledger' = after} for named h) = record {
    balanced =
        reserve-IsBalanced settings records scans request now ledger i c r after sound.balanced for
          h;
    dated =
        rw (reserve-inversion settings records scans request now ledger r after h).2
          (reserved-Dated ledger sound.dated request now);
    within =
        reserve-WithinBudget settings records scans request now ledger r after named sound.within h;
  }
  step-IsSound (submit scans r lease now {ledger' = after} h) =
      elim (submit-inversion scans r lease now ledger after h).1 [
        | inl (_, same) ↦ rw same sound
        | inr (i, c, _, _, _, _, writes) ↦ rw writes (record {
          balanced = submitted-IsBalanced ledger sound.balanced i now;
          dated = submitted-Dated ledger sound.dated i now;
          within = sound.within;
        })
      ]
  step-IsSound (close_row i seen status cost error_type error_summary now) = record {
    balanced =
        closed-IsBalanced ledger sound.balanced i seen status cost error_type error_summary now;
    dated = closed-Dated ledger sound.dated i seen status cost error_type error_summary now;
    within = sound.within;
  }
  step-IsSound (finish r outcome now i c named found from cheap) =
      finish-IsSound r outcome now i c named found from cheap
  step-IsSound (finish_again r outcome now i c named found settled) =
      rw (finish_settled r outcome now ledger sound.balanced i c named found settled) sound
  step-IsSound (reconcile stale_before scan now) = reconcile-IsSound stale_before scan now
  step-IsSound (resolve note i verdict cost now {ledger' = after} h cheap) =
      resolve-IsSound note i verdict cost now after h cheap
  step-IsSound (unexpected provider environment endpoint now) =
      unexpected-IsSound provider environment endpoint now

pub Reach-IsSound :
    (settings : CostSettings) (before after : Ledger)
    → IsSound settings before
    → Reach settings before after
    → IsSound settings after
Reach-IsSound settings before _ sound here = sound
Reach-IsSound settings before after sound (next {middle} path last) =
    step-IsSound (Reach-IsSound settings before middle sound path) last
