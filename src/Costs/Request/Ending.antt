-- ===== src/Costs/Request/Ending.antt =====
-- The ends of a live request while its attempt holds the reservation.
use Prim.Native.String.{String}
use digital_real_estate_engi.Common.{
  ℕ, ◌≤◌, ◌≡◌, ◌⊎◌, inl, inr, refl, Bool, true, false, Option, none, some, arith,
}
use digital_real_estate_engi.Common.Int.{pos_part}
use digital_real_estate_engi.Common.Text.{Text}
use digital_real_estate_engi.Common.Table.{get, get-touch_key}
use digital_real_estate_engi.Costs.State.{CallStatus, ApiCall, Ledger}
use digital_real_estate_engi.Costs.Breakers.{CostSettings}
use digital_real_estate_engi.Costs.Attempts.{finish_api_call}
use digital_real_estate_engi.Costs.Reserve.{UsageReservation, is_held, submit_call}
use digital_real_estate_engi.Costs.Finish.{
  CallOutcome, is_settled, settle_call, finish_provider_call,
}
use digital_real_estate_engi.Costs.Balance.Settling.{IsFrom, finish_held, finish_settled}
use digital_real_estate_engi.Costs.Protocol.{write, Step, here, next, close_row, finish}
use digital_real_estate_engi.Costs.Protocol.Safety.{IsSound, Reach-IsSound}
use digital_real_estate_engi.Costs.Request.{
  AttemptCopy, cost_or_zero, RequestError, fail_request, finish_unknown_attempt,
}

-- The attempt is there and holds no reservation.
abbrev pub Unheld : ℕ → Ledger → Type 0
Unheld i ledger =
    (c : ApiCall) × (get (λ c. c.id) i ledger.calls ≡ some c)
    × (is_held c.reservation_state ≡ false)

abbrev pub IsDone : CostSettings → ℕ → Ledger → Type 0
IsDone settings i ledger = IsSound settings ledger × Unheld i ledger

-- The attempt holds the reservation, or another transaction has settled it.
abbrev pub IsOurs : UsageReservation → ApiCall → Type 0
IsOurs r c = IsFrom r c ⊎ (is_settled c.reservation_state ≡ true)

abbrev pub InHand : CostSettings → ℕ → UsageReservation → Ledger → Type 0
InHand settings i r ledger =
    IsSound settings ledger
    × ((c : ApiCall) × (get (λ c. c.id) i ledger.calls ≡ some c) × IsOurs r c)

pub write-found :
    (i : ℕ) (f : ApiCall → ApiCall) (ledger : Ledger) (c : ApiCall)
    → ((c : ApiCall) → (f c).id ≡ c.id)
    → get (λ c. c.id) i ledger.calls ≡ some c
    → get (λ c. c.id) i (write i f ledger).calls ≡ some (f c)
write-found i f ledger c same found =
    ground (arith, get-touch_key (λ c. c.id) f same i i ledger.calls, found)

settle_call-free :
    (unknown_outcome : Bool) (now : ℕ) (c : ApiCall)
    → ((settle_call unknown_outcome now c).id ≡ c.id)
      × (is_held (settle_call unknown_outcome now c).reservation_state ≡ false)
unfolding settle_call
settle_call-free true now c = (refl, refl)
settle_call-free false now c = (refl, refl)

finish_api_call-IsFrom :
    (r : UsageReservation) (seen status : CallStatus) (cost : Option ℕ) (error_type : Option String)
    (summary : Option Text) (now : ℕ) (c : ApiCall)
    → IsFrom r c
    → IsFrom r (finish_api_call seen status cost error_type summary now c)
unfolding finish_api_call
finish_api_call-IsFrom r seen status cost error_type summary now c from = record {
  is_held_now = ground (arith, from.is_held_now);
  same_date = ground (arith, from.same_date);
  same_class = ground (arith, from.same_class);
  same_estimate = ground (arith, from.same_estimate);
  same_provider = ground (arith, from.same_provider);
  same_endpoint = ground (arith, from.same_endpoint);
}

finish_api_call-id :
    (seen status : CallStatus) (cost : Option ℕ) (error_type : Option String)
    (summary : Option Text) (now : ℕ) (c : ApiCall)
    → (finish_api_call seen status cost error_type summary now c).id ≡ c.id
unfolding finish_api_call
finish_api_call-id seen status cost error_type summary now c = ground arith

finish_api_call-IsOurs :
    (r : UsageReservation) (seen status : CallStatus) (cost : Option ℕ) (error_type : Option String)
    (summary : Option Text) (now : ℕ) (c : ApiCall)
    → IsOurs r c
    → IsOurs r (finish_api_call seen status cost error_type summary now c)
unfolding finish_api_call
finish_api_call-IsOurs r seen status cost error_type summary now c (inl from) =
    inl (finish_api_call-IsFrom r seen status cost error_type summary now c from)
finish_api_call-IsOurs r seen status cost error_type summary now c (inr settled) =
    inr (ground (arith, settled))

pub submit_call-IsFrom :
    (r : UsageReservation) (now : ℕ) (c : ApiCall) → IsFrom r c → IsFrom r (submit_call now c)
unfolding submit_call
submit_call-IsFrom r now c from = record {
  is_held_now = from.is_held_now;
  same_date = from.same_date;
  same_class = from.same_class;
  same_estimate = from.same_estimate;
  same_provider = from.same_provider;
  same_endpoint = from.same_endpoint;
}

module _ (settings : CostSettings) where
  pub after_step :
      {before after : Ledger}
      → IsSound settings before
      → Step settings before after
      → IsSound settings after
  after_step {before} {after} sound step =
      Reach-IsSound settings before after sound (next here step)

  module _ (i : ℕ) (r : UsageReservation) (named : r.api_call_id ≡ some i) where
    pub finish-IsDone :
        (outcome : CallOutcome) (now : ℕ) (ledger : Ledger)
        → InHand settings i r ledger
        → pos_part outcome.actual_cost_usd ≤ r.estimated_cost_usd
        → IsDone settings i (finish_provider_call r outcome now ledger)
    finish-IsDone outcome now ledger (sound, (c, found, inl from)) cheap = (
      after_step sound (finish r outcome now i c named found from cheap),
      (
        settle_call outcome.provider_outcome_unknown now c,
        rw (finish_held r outcome now ledger sound.balanced i c named found from) (
            write-found i (settle_call outcome.provider_outcome_unknown now) ledger c
              (λ c. (settle_call-free outcome.provider_outcome_unknown now c).0) found),
        (settle_call-free outcome.provider_outcome_unknown now c).1,
      ),
    )
    finish-IsDone outcome now ledger (sound, (c, found, inr settled)) cheap =
        rw (finish_settled r outcome now ledger sound.balanced i c named found settled)
          (sound, (c, found, ground (arith, settled)))

    pub closed-InHand :
        (seen status : CallStatus) (cost : Option ℕ) (error_type : Option String)
        (summary : Option Text) (now : ℕ) (ledger : Ledger)
        → InHand settings i r ledger
        → InHand settings i r
            (write i (finish_api_call seen status cost error_type summary now) ledger)
    closed-InHand seen status cost error_type summary now ledger (sound, (c, found, ours)) = (
      after_step sound (close_row i seen status cost error_type summary now),
      (
        finish_api_call seen status cost error_type summary now c,
        write-found i (finish_api_call seen status cost error_type summary now) ledger c
            (λ c. finish_api_call-id seen status cost error_type summary now c) found,
        finish_api_call-IsOurs r seen status cost error_type summary now c ours,
      ),
    )

    -- A row that is closed after its settlement.
    pub closed-IsDone :
        (seen status : CallStatus) (cost : Option ℕ) (error_type : Option String)
        (summary : Option Text) (now : ℕ) (ledger : Ledger)
        → IsDone settings i ledger
        → IsDone settings i
            (write i (finish_api_call seen status cost error_type summary now) ledger)
    unfolding finish_api_call
    closed-IsDone seen status cost error_type summary now ledger (sound, (c, found, free)) = (
      after_step sound (close_row i seen status cost error_type summary now),
      (
        finish_api_call seen status cost error_type summary now c,
        write-found i (finish_api_call seen status cost error_type summary now) ledger c
            (λ c. ground arith) found,
        ground (arith, free),
      ),
    )

    -- Every way to finish the request while the reservation is in hand.
    pub fail_request-IsDone :
        (copy : AttemptCopy) (error : RequestError) (has_response : Bool) (payload : Option ℕ)
        (now : ℕ) (ledger : Ledger)
        → InHand settings i r ledger
        → cost_or_zero payload ≤ r.estimated_cost_usd
        → IsDone settings i
            (fail_request i (some r) copy error has_response payload false now ledger)
    unfolding fail_request
    fail_request-IsDone copy error has_response payload now ledger hand cheap =
        finish-IsDone _ now _ (closed-InHand _ _ none _ _ now ledger hand) cheap

    pub fail_settled-IsDone :
        (copy : AttemptCopy) (error : RequestError) (has_response : Bool) (payload : Option ℕ)
        (now : ℕ) (ledger : Ledger)
        → IsDone settings i ledger
        → IsDone settings i
            (fail_request i (some r) copy error has_response payload true now ledger)
    unfolding fail_request
    fail_settled-IsDone copy error has_response payload now ledger finished =
        closed-IsDone _ _ none _ _ now ledger finished

    pub finish_unknown_attempt-IsDone :
        (copy : AttemptCopy) (error : RequestError) (now : ℕ) (ledger : Ledger)
        → InHand settings i r ledger
        → IsDone settings i (finish_unknown_attempt i r copy error now ledger)
    unfolding finish_unknown_attempt
    finish_unknown_attempt-IsDone copy error now ledger hand =
        finish-IsDone _ now _ (closed-InHand _ _ none _ _ now ledger hand) (omega arith)
