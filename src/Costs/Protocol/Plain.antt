-- ===== src/Costs/Protocol/Plain.antt =====
-- The steps that touch no reservation: a row that is opened, retried, submitted or closed by the
-- adapter leaves the buckets balanced.
use digital_real_estate_engi.Common.{
  ℕ, ◌≡◌, ◌≢◌, ◌⊎◌, inl, inr, Option-cases, refl, true, false, Option, none, some, List, ◌∷◌, map,
  ◌==◌, All, arith,
}
use Prim.Native.String.{String}
use digital_real_estate_engi.Common.Text.{Text}
use digital_real_estate_engi.Common.Sum.{sum-touch_same}
use digital_real_estate_engi.Common.Table.{get, touch, IsKeyed-map}
use digital_real_estate_engi.Common.Result.{ok, >>-eq-ok, >>=-eq-ok}
use digital_real_estate_engi.Scans.Row.{ScanRow}
use digital_real_estate_engi.Scans.Lease.{ScanExecutionLease}
use digital_real_estate_engi.Costs.State.{ApiCall, BucketKey, Ledger, CallStatus}
use digital_real_estate_engi.Costs.Attempts.{new_attempt, retry_attempt, finish_api_call}
use digital_real_estate_engi.Costs.Reserve.{
  UsageReservation, is_held, is_reserved, check_lease, submit_call, submit_reserved,
  mark_provider_call_submitted,
}
use digital_real_estate_engi.Costs.Balance.{is_unknown, held_weight, unknown_weight, IsBalanced}
use digital_real_estate_engi.Costs.Balance.Update.{IsBalanced-update}
use digital_real_estate_engi.Costs.Protocol.{write}

-- A write that leaves the weights of every row alone.
pub IsBalanced-write :
    (ledger : Ledger) (i : ℕ) (f : ApiCall → ApiCall)
    → IsBalanced ledger
    → ((c : ApiCall) → (f c).id ≡ c.id)
    → ((j : BucketKey) (c : ApiCall) → held_weight j (f c) ≡ held_weight j c)
    → ((j : BucketKey) (c : ApiCall) → unknown_weight j (f c) ≡ unknown_weight j c)
    → IsBalanced (write i f ledger)
IsBalanced-write ledger i f balanced same held unknown = record {
  keyed =
      IsKeyed-map (λ c. c.id) (touch (λ c. c.id == i) f) (λ c. ground (arith, same c)) ledger.calls
        balanced.keyed;
  reserved = λ j. omega (
    arith,
    balanced.reserved j,
    sum-touch_same (held_weight j) (λ c. c.id == i) f (held j) ledger.calls,
  );
  unreconciled = λ j. omega (
    arith,
    balanced.unreconciled j,
    sum-touch_same (unknown_weight j) (λ c. c.id == i) f (unknown j) ledger.calls,
  );
}

submit_reserved-ok :
    (calls calls' : List ApiCall) (i now : ℕ)
    → submit_reserved calls (some i) now ≡ ok calls'
    → (c : ApiCall) × (get (λ c. c.id) i calls ≡ some c)
      × (is_held c.reservation_state ≡ true)
      × (is_reserved c.attempt_state ≡ true)
      × (calls' ≡ map (touch (λ c. c.id == i) (submit_call now)) calls)
unfolding submit_reserved
submit_reserved-ok calls calls' i now h = elim (Option-cases (get (λ c. c.id) i calls)) [
  | inl missing ↦ absurd (ground (arith, missing))
  | inr (c, found) ↦ (c, found, ground (arith, found), ground (arith, found), ground (arith, found))
]

-- A submission that passes its checks names no attempt, or one that is held and reserved.
pub submit-inversion :
    (scans : List ScanRow) (r : UsageReservation) (lease : Option ScanExecutionLease) (now : ℕ)
    (ledger ledger' : Ledger)
    → mark_provider_call_submitted scans r lease now ledger ≡ ok ledger'
    → (check_lease scans lease now ≡ ok tt)
      × (((r.api_call_id ≡ none) × (ledger' ≡ ledger))
          ⊎ ((i : ℕ) × (c : ApiCall) × (r.api_call_id ≡ some i)
              × (get (λ c. c.id) i ledger.calls ≡ some c)
              × (is_held c.reservation_state ≡ true)
              × (is_reserved c.attempt_state ≡ true)
              × (ledger' ≡ write i (submit_call now) ledger)))
unfolding mark_provider_call_submitted
submit-inversion scans r lease now ledger ledger' h =
    let (leased, h1) = >>-eq-ok (check_lease scans lease now) _ h in
    let (calls, submitted, done) =
      >>=-eq-ok (submit_reserved ledger.calls r.api_call_id now) _ h1 in
    (
      leased,
      elim (Option-cases r.api_call_id) [
        | inl absent ↦ inl (absent, ground (arith, absent))
        | inr (i, named) ↦
            let (c, found, held, reserved, writes) =
              submit_reserved-ok ledger.calls calls i now (rw named at submitted) in
            inr (i, c, named, found, held, reserved, cc)
      ],
    )

-- Each of the four writes leaves the buckets balanced.
module _ (ledger : Ledger) (balanced : IsBalanced ledger) where
  pub submitted-IsBalanced : (i now : ℕ) → IsBalanced (write i (submit_call now) ledger)
  unfolding submit_call
  submitted-IsBalanced i now =
      IsBalanced-write ledger i (submit_call now) balanced (λ c. refl) (λ j c. refl) (λ j c. refl)

  pub closed-IsBalanced :
      (i : ℕ) (seen status : CallStatus) (cost : Option ℕ) (error_type : Option String)
      (error_summary : Option Text) (now : ℕ)
      → IsBalanced (write i (finish_api_call seen status cost error_type error_summary now) ledger)
  unfolding finish_api_call
  closed-IsBalanced i seen status cost error_type error_summary now =
      IsBalanced-write ledger i (finish_api_call seen status cost error_type error_summary now)
        balanced (λ c. ground arith) (λ j c. ground arith) (λ j c. ground arith)

  pub opened-IsBalanced :
      (id : ℕ) (scan : Option ℕ) (provider endpoint : ℕ) (status : CallStatus) (now : ℕ)
      → All (λ c. c.id ≢ id) ledger.calls
      → IsBalanced (record ledger {
        calls = new_attempt id scan provider endpoint status now ∷ ledger.calls;
      })
  unfolding new_attempt
  opened-IsBalanced id scan provider endpoint status now fresh = record {
    keyed = (fresh, balanced.keyed);
    reserved = λ j. omega (arith, balanced.reserved j);
    unreconciled = λ j. omega (arith, balanced.unreconciled j);
  }

  pub retried-IsBalanced :
      (i : ℕ) (c : ApiCall) (status : CallStatus) (now : ℕ)
      → get (λ c. c.id) i ledger.calls ≡ some c
      → is_held c.reservation_state ≡ false
      → is_unknown c.reservation_state ≡ false
      → IsBalanced (write i (retry_attempt status now) ledger)
  unfolding retry_attempt
  retried-IsBalanced i c status now found free known =
      IsBalanced-update ledger balanced i c found (retry_attempt status now) ledger.buckets
        (λ c. refl) (λ j. ground (arith, free)) (λ j. ground (arith, known))
