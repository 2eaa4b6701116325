-- ===== src/Costs/Resolve.antt =====
-- `resolve_unknown_provider_call` of cost_controls.py.
use digital_real_estate_engi.Common.{
  ℕ, ◌+◌, ◌-◌, Bool, true, false, Option, none, some, List, [], ◌++◌, ◌&&◌, if◌then◌else◌,
}
use digital_real_estate_engi.Common.Int.{ℤ, pos, negsuc}
use digital_real_estate_engi.Common.Text.{Text, codes, strip, is_blank}
use digital_real_estate_engi.Common.Table.{get}
use digital_real_estate_engi.Common.Result.{Result, ok, raised, ◌>>=◌, ◌>>◌, raise_if}
use digital_real_estate_engi.Costs.State.{
  AttemptState, provider_outcome_unknown, reconciled, ReservationState, no_reservation, finalized,
  reconciled_unknown, billed, not_billed, done, confirmed_not_billed, ApiCall, Bucket, update_both,
  Buckets, Ledger,
}
use digital_real_estate_engi.Costs.Reserve.{update_call}
use digital_real_estate_engi.Costs.Reconcile.{call_key}

-- The reasons of the `ValueError`s.
pub data ResolveError : Type 0 where
  bad_outcome negative_cost blank_note not_awaiting : ResolveError

-- The argument `outcome`: "billed", "not_billed", or any other text.
pub data Verdict : Type 0 where
  verdict_billed verdict_not_billed verdict_other : Verdict

abbrev pub is_other : Verdict → Bool
is_other verdict_other = true
is_other _ = false

abbrev pub is_billed : Verdict → Bool
is_billed verdict_billed = true
is_billed _ = false

abbrev pub is_negative : ℤ → Bool
is_negative (pos n) = false
is_negative (negsuc n) = true

abbrev pub magnitude : ℤ → ℕ
magnitude (pos n) = n
magnitude (negsuc n) = 0

abbrev pub is_unknown_attempt : AttemptState → Bool
is_unknown_attempt provider_outcome_unknown = true
is_unknown_attempt _ = false

abbrev pub is_resolvable : ReservationState → Bool
is_resolvable no_reservation = true
is_resolvable reconciled_unknown = true
is_resolvable _ = false

abbrev pub is_awaiting : ApiCall → Bool
is_awaiting c = is_unknown_attempt c.attempt_state && is_resolvable c.reservation_state

unfoldable pub book_bucket : (estimated actual : ℕ) → Bucket → Bucket
book_bucket estimated actual b = record b {
  unreconciled_spend_usd = b.unreconciled_spend_usd - estimated;
  spend_usd = b.spend_usd + actual;
}

-- The writes to the buckets, where the row names a day.
unfoldable pub book_spend : ApiCall → (actual : ℕ) → Buckets → Buckets
book_spend c actual buckets = elim c.reservation_usage_date [
  | none ↦ buckets
  | some date ↦
      update_both (call_key date c) (book_bucket c.reservation_estimated_cost_usd actual) buckets
]

abbrev pub text_or_empty : Option Text → Text
text_or_empty none = []
text_or_empty (some t) = t

-- `f"{row.error_summary or ''}\nResolution: {resolution_note}".strip()`
unfoldable pub resolution_summary : Text → Option Text → Text
resolution_summary note old = strip (text_or_empty old ++ (codes "\nResolution: " ++ note))

unfoldable pub resolve_call : (note : Text) → Verdict → (actual : ℕ) → (now : ℕ) → ApiCall → ApiCall
resolve_call note verdict actual now c = record c {
  actual_cost_usd = actual;
  attempt_state = reconciled;
  provider_outcome = if is_billed verdict then billed else not_billed;
  reservation_state = finalized;
  status = if is_billed verdict then done else confirmed_not_billed;
  reconciled_at = some now;
  completed_at = some now;
  error_summary = some (resolution_summary note c.error_summary);
}

unfoldable pub awaiting_call : List ApiCall → ℕ → Result ResolveError ApiCall
awaiting_call calls i = elim (get (λ c. c.id) i calls) [
  | none ↦ raised not_awaiting
  | some c ↦ if is_awaiting c then ok c else raised not_awaiting
]

unfoldable pub resolve_unknown_provider_call :
    (resolution_note : Text)
    → (api_call_id : ℕ) → Verdict
    → (actual_cost : ℤ) → (now : ℕ) → Ledger
    → Result ResolveError Ledger
resolve_unknown_provider_call note api_call_id verdict actual_cost now ledger = do
  raise_if (is_other verdict) bad_outcome
  raise_if (is_negative actual_cost) negative_cost
  raise_if (is_blank (strip note)) blank_note
  c ← awaiting_call ledger.calls api_call_id
  let actual = magnitude actual_cost
  ok (record {
    calls = update_call (some api_call_id) (resolve_call note verdict actual now) ledger.calls;
    buckets = book_spend c actual ledger.buckets;
  })
