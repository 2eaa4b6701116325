-- ===== src/Costs/Protocol/Dated.antt =====
-- A row without a reservation names no day: no step gives it one.
use Prim.Native.String.{String}
use digital_real_estate_engi.Common.{
  ℕ, ◌≡◌, refl, Bool, true, false, Option, none, some, List, [], ◌∷◌, map, ◌==◌, All, arith, inl,
  inr, Bool-cases,
}
use digital_real_estate_engi.Common.Int.{ℤ}
use digital_real_estate_engi.Common.Text.{Text}
use digital_real_estate_engi.Common.Table.{touch}
use digital_real_estate_engi.Costs.State.{ApiCall, Ledger, CallStatus}
use digital_real_estate_engi.Costs.Attempts.{new_attempt, retry_attempt, finish_api_call}
use digital_real_estate_engi.Costs.Reserve.{
  UsageReservation, is_free, hold_call, submit_call, update_call, CallRequest, reserved_ledger,
}
use digital_real_estate_engi.Costs.Finish.{
  CallOutcome, settle_call, finish_provider_call, call_of, already_settled,
}
use digital_real_estate_engi.Costs.Reconcile.{
  close_attempt, reconcile_all, reconcile_one, stale_calls, reconcile_stale_api_call_attempts,
}
use digital_real_estate_engi.Costs.Resolve.{Verdict, magnitude, resolve_call}
use digital_real_estate_engi.Costs.Balance.Reconciling.{reconcile_one-calls}
use digital_real_estate_engi.Costs.Balance.Resolving.{resolved_ledger}
use digital_real_estate_engi.Costs.Protocol.{write}

abbrev pub IsDated : ApiCall → Type 0
IsDated c = is_free c.reservation_state ≡ true → c.reservation_usage_date ≡ none

pub All-touch {ℓ ℓ'} :
    {A : Type ℓ} (P : A → Type ℓ') (p : A → Bool) (f : A → A)
    → ((x : A) → P x → P (f x))
    → (xs : List A) → All P xs
    → All P (map (touch p f) xs)
All-touch P p f keep [] h = h
All-touch P p f keep (x ∷ xs) h = elim (Bool-cases (p x)) [
  | inl chosen ↦ rw chosen (keep x h.0, All-touch P p f keep xs h.1)
  | inr kept ↦ rw kept (h.0, All-touch P p f keep xs h.1)
]

hold_call-IsDated : (r : UsageReservation) (c : ApiCall) → IsDated c → IsDated (hold_call r c)
unfolding hold_call
hold_call-IsDated r c h = λ free. ground arith

submit_call-IsDated : (now : ℕ) (c : ApiCall) → IsDated c → IsDated (submit_call now c)
unfolding submit_call
submit_call-IsDated now c h = h

settle_call-IsDated : (u : Bool) (now : ℕ) (c : ApiCall) → IsDated c → IsDated (settle_call u now c)
unfolding settle_call
settle_call-IsDated true now c h = λ free. ground arith
settle_call-IsDated false now c h = λ free. ground arith

close_attempt-IsDated : (now : ℕ) (c : ApiCall) → IsDated c → IsDated (close_attempt now c)
unfolding close_attempt
close_attempt-IsDated now c h = λ free. ground (arith, h)

resolve_call-IsDated :
    (note : Text) (verdict : Verdict) (actual now : ℕ) (c : ApiCall)
    → IsDated c
    → IsDated (resolve_call note verdict actual now c)
unfolding resolve_call
resolve_call-IsDated note verdict actual now c h = λ free. ground arith

retry_attempt-IsDated :
    (status : CallStatus) (now : ℕ) (c : ApiCall) → IsDated (retry_attempt status now c)
unfolding retry_attempt
retry_attempt-IsDated status now c = λ free. refl

finish_api_call-IsDated :
    (seen status : CallStatus) (cost : Option ℕ) (error_type : Option String)
    (error_summary : Option Text) (now : ℕ) (c : ApiCall)
    → IsDated c
    → IsDated (finish_api_call seen status cost error_type error_summary now c)
unfolding finish_api_call
finish_api_call-IsDated seen status cost error_type error_summary now c h =
    λ free. ground (arith, h)

abbrev pub Dated : Ledger → Type 0
Dated ledger = All IsDated ledger.calls

pub Dated-write :
    (ledger : Ledger) (i : ℕ) (f : ApiCall → ApiCall)
    → ((c : ApiCall) → IsDated c → IsDated (f c))
    → Dated ledger
    → Dated (write i f ledger)
Dated-write ledger i f keep dated = All-touch IsDated (λ c. c.id == i) f keep ledger.calls dated

Dated-update :
    (i : Option ℕ) (f : ApiCall → ApiCall) (calls : List ApiCall)
    → ((c : ApiCall) → IsDated c → IsDated (f c))
    → All IsDated calls
    → All IsDated (update_call i f calls)
Dated-update none f calls keep dated = dated
Dated-update (some i) f calls keep dated = All-touch IsDated (λ c. c.id == i) f keep calls dated

module _ (ledger : Ledger) (dated : Dated ledger) where
  pub opened-Dated :
      (id : ℕ) (scan : Option ℕ) (provider endpoint : ℕ) (status : CallStatus) (now : ℕ)
      → All IsDated (new_attempt id scan provider endpoint status now ∷ ledger.calls)
  unfolding new_attempt
  opened-Dated id scan provider endpoint status now = (λ free. refl, dated)

  pub retried-Dated :
      (i : ℕ) (status : CallStatus) (now : ℕ) → Dated (write i (retry_attempt status now) ledger)
  retried-Dated i status now =
      Dated-write ledger i (retry_attempt status now) (λ c h. retry_attempt-IsDated status now c)
        dated

  pub submitted-Dated : (i now : ℕ) → Dated (write i (submit_call now) ledger)
  submitted-Dated i now = Dated-write ledger i (submit_call now) (submit_call-IsDated now) dated

  pub closed-Dated :
      (i : ℕ) (seen status : CallStatus) (cost : Option ℕ) (error_type : Option String)
      (error_summary : Option Text) (now : ℕ)
      → Dated (write i (finish_api_call seen status cost error_type error_summary now) ledger)
  closed-Dated i seen status cost error_type error_summary now =
      Dated-write ledger i (finish_api_call seen status cost error_type error_summary now)
        (finish_api_call-IsDated seen status cost error_type error_summary now) dated

  pub reserved-Dated :
      (request : CallRequest) (now : ℕ) → Dated (reserved_ledger request now ledger)
  reserved-Dated request now =
      Dated-update request.api_call_id (hold_call _) ledger.calls (hold_call-IsDated _) dated

  pub finished-Dated :
      (r : UsageReservation) (outcome : CallOutcome) (now : ℕ)
      → Dated (finish_provider_call r outcome now ledger)
  unfolding finish_provider_call
  finished-Dated r outcome now =
      elim (Bool-cases (already_settled (call_of ledger.calls r.api_call_id))) [
        | inl settled ↦ rw settled dated
        | inr unsettled ↦ rw unsettled (
            Dated-update r.api_call_id (settle_call outcome.provider_outcome_unknown now)
              ledger.calls (settle_call-IsDated outcome.provider_outcome_unknown now) dated)
      ]

  pub resolved-Dated :
      (note : Text) (i : ℕ) (verdict : Verdict) (cost : ℤ) (now : ℕ) (c : ApiCall)
      → Dated (resolved_ledger note i verdict cost now c ledger)
  resolved-Dated note i verdict cost now c =
      Dated-write ledger i (resolve_call note verdict (magnitude cost) now)
        (resolve_call-IsDated note verdict (magnitude cost) now) dated

reconcile_all-Dated :
    (now : ℕ) (rows : List ApiCall) (ledger : Ledger)
    → Dated ledger
    → Dated (reconcile_all now rows ledger)
unfolding reconcile_all
reconcile_all-Dated now [] ledger dated = dated
reconcile_all-Dated now (c ∷ rows) ledger dated =
    reconcile_all-Dated now rows (reconcile_one now c ledger) (
      rw (reconcile_one-calls now c ledger)
        (Dated-write ledger c.id (close_attempt now) (close_attempt-IsDated now) dated))

pub reconciled-Dated :
    (stale_before : ℕ) (scan : Option ℕ) (now : ℕ) (ledger : Ledger)
    → Dated ledger
    → Dated (reconcile_stale_api_call_attempts stale_before scan now ledger).0
unfolding reconcile_stale_api_call_attempts
reconciled-Dated stale_before scan now ledger =
    reconcile_all-Dated now (stale_calls stale_before scan ledger) ledger
