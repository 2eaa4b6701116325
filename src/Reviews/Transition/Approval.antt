-- ===== src/Reviews/Transition/Approval.antt =====
-- What an approval of an opportunity for a property rests on.
use digital_real_estate_engi.Common.Query.{first_by-filter, first_by-Member}
use digital_real_estate_engi.Common.{
  Member, ℕ, ◌+◌, ◌≤◌, ◌≡◌, refl, inl, inr, true, false, some, holds, is_some, All, arith,
  Option-cases,
}
use digital_real_estate_engi.Common.Table.{get}
use digital_real_estate_engi.Common.Result.{ok}
use digital_real_estate_engi.Reviews.State.{
  approved_for_property, is_system, ReviewActor, ReviewTransitionRequest, Opportunity, Reviews,
}
use digital_real_estate_engi.Reviews.CostLedger.{ledger_complete}
use digital_real_estate_engi.Reviews.CostLedger.Correct.{is_finished, ledger_complete-finished}
use digital_real_estate_engi.Reviews.Completeness.{
  EvidenceScan, Evidence, is_later, is_full_scan_of, latest_full_scan, maximum_age, passes_quality,
  scan_is_complete, approval_complete,
}
use digital_real_estate_engi.Reviews.Transition.{transition}
use digital_real_estate_engi.Reviews.Transition.Rules.{transition_guarded}

-- The scan that an approval rests on: it is, among the recorded scans, a completed full scan of the opportunity, of sufficient
-- quality and at most ninety days old, and every call that was planned for it has ended.
pub record IsProof (evidence : Evidence) (i now : ℕ) (scan : EvidenceScan) : Type 0 where
  pub is_recorded : Member scan evidence.scans
  pub is_full : is_full_scan_of i scan ≡ true
  pub has_quality : passes_quality scan.quality_status ≡ true
  pub completed : ℕ
  pub is_completed : scan.completed_at ≡ some completed
  pub is_recent : now ≤ completed + maximum_age
  pub is_executed :
      All
        (λ planned.
          holds (some planned.scan_run_id) scan.id ≡ true
          → is_finished scan.id evidence.api_calls planned ≡ true)
        evidence.scan_plan_calls

scan_is_complete-IsProof :
    (evidence : Evidence) (i now : ℕ) (scan : EvidenceScan)
    → Member scan evidence.scans
    → is_full_scan_of i scan ≡ true
    → scan_is_complete evidence i now scan ≡ true
    → IsProof evidence i now scan
unfolding scan_is_complete
scan_is_complete-IsProof evidence i now scan recorded full h =
    let ledger : ledger_complete scan.id evidence.scan_plan_calls evidence.api_calls ≡ true =
      ground arith in
    let quality : passes_quality scan.quality_status ≡ true = ground arith in
    elim (Option-cases scan.completed_at) [
      | inl absent ↦ absurd (ground (arith, absent))
      | inr (t, at) ↦ record {
        is_recorded = recorded;
        is_full = full;
        has_quality = quality;
        completed = t;
        is_completed = at;
        is_recent = ground (arith, at);
        is_executed =
            ledger_complete-finished scan.id evidence.scan_plan_calls evidence.api_calls ledger;
      }
    ]

-- An opportunity that a review has moved to `approved_for_property` has an owner, was approved by a
-- human reviewer, and has a recorded, completed full scan of sufficient quality, at most ninety days old, whose
-- planned calls were all served, completed or failed.
pub approval-IsProof :
    (evidence : Evidence) (now i : ℕ) (request : ReviewTransitionRequest) (actor : ReviewActor)
    (reviews reviews' : Reviews)
    → request.target_state ≡ approved_for_property
    → transition evidence now i request actor reviews ≡ ok reviews'
    → (is_system actor.role ≡ false)
      × ((o : Opportunity) × (get (λ o. o.id) i reviews.opportunities ≡ some o)
          × (is_some o.owner_user_id ≡ true)
          × ((scan : EvidenceScan) × IsProof evidence o.id now scan))
unfolding approval_complete latest_full_scan
approval-IsProof evidence now i request actor reviews reviews' target h =
    let (o, current, found, accepted, _) =
      transition_guarded evidence now i request actor reviews reviews' h in
    let proven = accepted.is_proven (rw target refl) in
    let human = accepted.is_human (rw target refl) in
    let owned : is_some o.owner_user_id ≡ true = ground (arith, proven) in
    elim (Option-cases (latest_full_scan evidence o.id)) [
      | inl absent ↦ absurd (ground (arith, proven, absent))
      | inr (scan, latest) ↦
          let full =
            first_by-filter (is_later evidence.null_rank) (is_full_scan_of o.id) evidence.scans scan
              latest in
          let recorded =
            first_by-Member (is_later evidence.null_rank) (is_full_scan_of o.id) evidence.scans scan
              latest in
          let complete : scan_is_complete evidence o.id now scan ≡ true =
            ground (arith, proven, latest) in
          (
            human,
            (
              o,
              found,
              owned,
              (scan, scan_is_complete-IsProof evidence o.id now scan recorded full complete),
            ),
          )
    ]
