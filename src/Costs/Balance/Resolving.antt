-- ===== src/Costs/Balance/Resolving.antt =====
-- Resolving an attempt of unknown outcome keeps the buckets balanced.
use digital_real_estate_engi.Common.{
  ℕ, ◌+◌, ◌-◌, ◌≡◌, ◌≢◌, sym, ==-refl, refl, true, false, none, some, List, arith, inl, inr,
  Bool-cases, Option-cases,
}
use mathlib.Core.Path.{subst}
use digital_real_estate_engi.Common.Int.{ℤ}
use digital_real_estate_engi.Common.Text.{Text, strip, is_blank}
use digital_real_estate_engi.Common.Table.{get, get-touch_key}
use digital_real_estate_engi.Common.Result.{ok, raise_if, >>-eq-ok, >>=-eq-ok, raise_if-eq-ok}
use digital_real_estate_engi.Costs.State.{ApiCall, BucketKey, Buckets, Ledger}
use digital_real_estate_engi.Costs.Reserve.{update_call, is_free}
use digital_real_estate_engi.Costs.Reconcile.{call_key}
use digital_real_estate_engi.Costs.Finish.{is_settled}
use digital_real_estate_engi.Costs.Resolve.{
  bad_outcome, negative_cost, blank_note, Verdict, is_other, is_negative, magnitude, is_awaiting,
  is_unknown_attempt, book_bucket, book_spend, resolve_call, awaiting_call,
  resolve_unknown_provider_call,
}
use digital_real_estate_engi.Costs.Balance.{weight, spread, held_weight, unknown_weight, IsBalanced}
use digital_real_estate_engi.Costs.Balance.Update.{unknown-le, IsBalanced-update}

awaiting_call-ok :
    (calls : List ApiCall) (i : ℕ) (c : ApiCall)
    → awaiting_call calls i ≡ ok c
    → (get (λ c. c.id) i calls ≡ some c) × (is_awaiting c ≡ true)
unfolding awaiting_call
awaiting_call-ok calls i c h = elim (Option-cases (get (λ c. c.id) i calls)) [
  | inl absent ↦ absurd (ground (arith, absent))
  | inr (c', found) ↦ elim (Bool-cases (is_awaiting c')) [
    | inl waits ↦ ground (arith, found, waits)
    | inr settled ↦ absurd (ground (arith, found, settled))
  ]
]

-- The ledger after a resolution of the attempt `c`.
abbrev pub resolved_ledger : Text → ℕ → Verdict → ℤ → ℕ → ApiCall → Ledger → Ledger
resolved_ledger note i verdict cost now c ledger = record {
  calls = update_call (some i) (resolve_call note verdict (magnitude cost) now) ledger.calls;
  buckets = book_spend c (magnitude cost) ledger.buckets;
}

-- What an accepted resolution has passed, and the ledger that it makes.
pub resolve-inversion :
    (note : Text) (i : ℕ) (verdict : Verdict) (cost : ℤ) (now : ℕ) (ledger ledger' : Ledger)
    → resolve_unknown_provider_call note i verdict cost now ledger ≡ ok ledger'
    → (c : ApiCall) × (get (λ c. c.id) i ledger.calls ≡ some c)
      × (is_awaiting c ≡ true)
      × (is_other verdict ≡ false)
      × (is_negative cost ≡ false)
      × (is_blank (strip note) ≡ false)
      × (ledger' ≡ resolved_ledger note i verdict cost now c ledger)
unfolding resolve_unknown_provider_call
resolve-inversion note i verdict cost now ledger ledger' h =
    let (known, h1) = >>-eq-ok (raise_if (is_other verdict) bad_outcome) _ h in
    let (nonneg, h2) = >>-eq-ok (raise_if (is_negative cost) negative_cost) _ h1 in
    let (noted, h3) = >>-eq-ok (raise_if (is_blank (strip note)) blank_note) _ h2 in
    let (c, awaits, done) = >>=-eq-ok (awaiting_call ledger.calls i) _ h3 in
    let (found, waiting) = awaiting_call-ok ledger.calls i c awaits in
    (
      c,
      found,
      waiting,
      raise_if-eq-ok _ _ known,
      raise_if-eq-ok _ _ nonneg,
      raise_if-eq-ok _ _ noted,
      cc,
    )

module _ (note : Text) (i : ℕ) (verdict : Verdict) (cost : ℤ) (now : ℕ) (ledger : Ledger)
    (balanced : IsBalanced ledger) (c : ApiCall) (found : get (λ c. c.id) i ledger.calls ≡ some c)
    (waiting : is_awaiting c ≡ true) where
  pub resolved-weight :
      (j : BucketKey)
      → (is_free c.reservation_state ≡ true → c.reservation_usage_date ≡ none)
      → (held_weight j c ≡ 0)
        × (held_weight j (resolve_call note verdict (magnitude cost) now c) ≡ 0)
        × (unknown_weight j c ≡ weight c j)
        × (unknown_weight j (resolve_call note verdict (magnitude cost) now c) ≡ 0)
  unfolding resolve_call
  resolved-weight j undated = ground (arith, waiting)

  pub booked :
      (j : BucketKey)
      → ((book_spend c (magnitude cost) ledger.buckets j).reserved_spend_usd
          ≡ (ledger.buckets j).reserved_spend_usd)
        × ((book_spend c (magnitude cost) ledger.buckets j).unreconciled_spend_usd
            ≡ (ledger.buckets j).unreconciled_spend_usd - weight c j)
  unfolding book_spend book_bucket spread
  booked j = ground arith

  -- A resolution takes the estimate out of the unreconciled spend of its buckets.
  pub resolved_ledger-IsBalanced :
      (is_free c.reservation_state ≡ true → c.reservation_usage_date ≡ none)
      → IsBalanced (resolved_ledger note i verdict cost now c ledger)
  unfolding resolve_call
  resolved_ledger-IsBalanced undated =
      IsBalanced-update ledger balanced i c found (resolve_call note verdict (magnitude cost) now)
        (book_spend c (magnitude cost) ledger.buckets) (λ c. refl)
        (λ j. omega (arith, booked j, resolved-weight j undated))
        (λ j.
          omega
            (arith, booked j, resolved-weight j undated, unknown-le ledger balanced i c found j))

-- What a resolution leaves: the attempt is settled with the cost, the spend of its own bucket and of the
-- summary of the day has grown by the cost, and every other attempt is as it was.
pub record IsResolved (i cost : ℕ) (ledger ledger' : Ledger) : Type 0 where
  pub before : ApiCall
  pub after : ApiCall
  pub before_row : get (λ c. c.id) i ledger.calls ≡ some before
  pub after_row : get (λ c. c.id) i ledger'.calls ≡ some after
  pub waited : is_unknown_attempt before.attempt_state ≡ true
  pub cost_is : after.actual_cost_usd ≡ cost
  pub settled : is_settled after.reservation_state ≡ true
  pub others : (k : ℕ) → k ≢ i → get (λ c. c.id) k ledger'.calls ≡ get (λ c. c.id) k ledger.calls
  pub booked_spend :
      (date : ℕ) (j : BucketKey)
      → before.reservation_usage_date ≡ some date
      → (ledger'.buckets j).spend_usd
        ≡ (ledger.buckets j).spend_usd + spread (call_key date before) cost j

book_spend-spread :
    (c : ApiCall) (cost date : ℕ) (buckets : Buckets) (j : BucketKey)
    → c.reservation_usage_date ≡ some date
    → (book_spend c cost buckets j).spend_usd
      ≡ (buckets j).spend_usd + spread (call_key date c) cost j
unfolding book_spend book_bucket spread
book_spend-spread c cost date buckets j dated = rw dated (ground arith)

resolved_ledger-IsResolved :
    (note : Text) (i : ℕ) (verdict : Verdict) (cost : ℤ) (now : ℕ) (ledger : Ledger) (c : ApiCall)
    → get (λ c. c.id) i ledger.calls ≡ some c
    → is_awaiting c ≡ true
    → IsResolved i (magnitude cost) ledger (resolved_ledger note i verdict cost now c ledger)
unfolding resolve_call
resolved_ledger-IsResolved note i verdict cost now ledger c found waiting =
    let change = resolve_call note verdict (magnitude cost) now in
    record {
      before = c;
      after = change c;
      before_row = found;
      after_row =
          ground (
            arith,
            get-touch_key (λ c. c.id) change (λ c. refl) i i ledger.calls,
            found,
            ==-refl i,
          );
      waited = ground (arith, waiting);
      cost_is = refl;
      settled = refl;
      others = λ k other.
          ground (arith, get-touch_key (λ c. c.id) change (λ c. refl) i k ledger.calls, other);
      booked_spend =
          λ date j dated. book_spend-spread c (magnitude cost) date ledger.buckets j dated;
    }

-- A resolution that is accepted settles an attempt of unknown outcome with the given cost, books that
-- cost in the bucket of the attempt and in the summary of its day and class, if the attempt names a day,
-- leaves every other attempt alone, and is accepted once: no second resolution of the attempt is.
pub resolve_once :
    (note : Text) (i : ℕ) (verdict : Verdict) (cost : ℤ) (now : ℕ) (ledger ledger' : Ledger)
    → resolve_unknown_provider_call note i verdict cost now ledger ≡ ok ledger'
    → IsResolved i (magnitude cost) ledger ledger'
      × ((note2 : Text) (verdict2 : Verdict) (cost2 : ℤ) (now2 : ℕ) (ledger2 : Ledger)
          → resolve_unknown_provider_call note2 i verdict2 cost2 now2 ledger' ≢ ok ledger2)
unfolding resolve_call
resolve_once note i verdict cost now ledger ledger' h =
    let (c, found, waiting, _, _, _, writes) =
      resolve-inversion note i verdict cost now ledger ledger' h in
    let resolved =
      subst (IsResolved i (magnitude cost) ledger) (sym writes)
        (resolved_ledger-IsResolved note i verdict cost now ledger c found waiting) in
    (
      resolved,
      λ note2 verdict2 cost2 now2 ledger2 again.
          let (d, found2, waiting2, _, _, _, _) =
            resolve-inversion note2 i verdict2 cost2 now2 ledger' ledger2 again in
          let change = resolve_call note verdict (magnitude cost) now in
          let seen = get-touch_key (λ c. c.id) change (λ c. refl) i i ledger.calls in
          let found3 = subst (λ l. get (λ c. c.id) i l.calls ≡ some d) writes found2 in
          let same : change c ≡ d = ground (arith, seen, found, found3, ==-refl i) in
          absurd (ground (arith, subst (λ x. is_awaiting x ≡ true) (sym same) waiting2)),
    )
