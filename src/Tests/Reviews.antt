-- ===== src/Tests/Reviews.antt =====
-- Opportunity 4 while its full scan runs, and after a reviewer has approved it.
use digital_real_estate_engi.Common.Query.{first_by}
use digital_real_estate_engi.Common.{
  ◌≡◌, holds, refl, true, false, none, some, [], ◌∷◌, is_some, All,
}
use digital_real_estate_engi.Common.Table.{get}
use digital_real_estate_engi.Common.Result.{ok}
use digital_real_estate_engi.Costs.State.{done}
use digital_real_estate_engi.Reviews.State.{
  OpportunityState, full_running, full_review, approved_for_property, needs_more_evidence, archived,
  canonical_state, value, reviewer, system, is_system, ReviewActor, ReviewTransitionRequest,
  OwnershipRequest, allowed_transitions, Opportunity, Reviews,
}
use digital_real_estate_engi.Reviews.CostLedger.{ledger_complete}
use digital_real_estate_engi.Reviews.CostLedger.Correct.{is_finished, ledger_complete-finished}
use digital_real_estate_engi.Reviews.Completeness.{
  EvidenceScan, Evidence, approval_complete, latest_full_scan, scan_is_complete, latest_score,
}
use digital_real_estate_engi.Reviews.Transition.{
  transition, transition_system, find_opportunity, assert_transition, move, review_of, write, own,
  owner_review,
}
use digital_real_estate_engi.Reviews.Transition.Rules.{canonical_state-value}
use digital_real_estate_engi.Reviews.Transition.Approval.{IsProof, approval-IsProof}

abbrev opportunity_in : OpportunityState → Opportunity
opportunity_in state = record {
  id = 4;
  status = value state;
  approved_at = none;
  owner_user_id = some 1;
  review_version = 2;
}

abbrev pub running_reviews : Reviews
running_reviews = record { opportunities = opportunity_in full_running ∷ []; history = [] }

abbrev pub no_evidence : Evidence
no_evidence = record {
  scans = [];
  scores = [];
  keyword_decisions = [];
  serp_snapshots = [];
  competitor_metrics = [];
  provider_candidates = [];
  scan_plan_calls = [];
  api_calls = [];
  null_rank = 0;
}

-- Scan 3 with one planned call, which was made.
abbrev full_evidence : Evidence
full_evidence = record {
  scans =
      record {
        id = 3;
        opportunity_id = some 4;
        scan_profile = "full";
        status = "completed";
        completed_at = some 50;
        quality_status = some "pass";
      }
      ∷ [];
  scores =
      record { opportunity_id = 4; scan_run_id = 3; created_at = 50; evidence_status = none } ∷ [];
  keyword_decisions = 3 ∷ [];
  serp_snapshots = 3 ∷ [];
  competitor_metrics = 3 ∷ [];
  provider_candidates = 3 ∷ [];
  scan_plan_calls = record { scan_run_id = 3; planned_request_id = some 6 } ∷ [];
  api_calls = record { scan_run_id = some 3; planned_request_id = some 6; status = done } ∷ [];
  null_rank = 0;
}

ledger_complete-finished_example :
    All
      (λ planned.
        holds (some planned.scan_run_id) 3 ≡ true
        → is_finished 3 full_evidence.api_calls planned ≡ true)
      full_evidence.scan_plan_calls
unfolding ledger_complete
ledger_complete-finished_example =
    ledger_complete-finished 3 full_evidence.scan_plan_calls full_evidence.api_calls refl

abbrev approval : ReviewTransitionRequest
approval = record {
  target_state = approved_for_property;
  decision = 1;
  decision_reason = 2;
  owner_user_id = none;
  expected_review_version = some 2;
}

abbrev human : ReviewActor
human = record { actor_id = 1; role = reviewer }

abbrev reviewed : Reviews
reviewed = record { opportunities = opportunity_in full_review ∷ []; history = [] }

-- What the approval leaves.
abbrev approved : Reviews
approved =
    let f = move full_review approved_for_property none 60 in
    write 4 f (review_of approval human full_review 60 (f (opportunity_in full_review))) reviewed

approves : transition full_evidence 60 4 approval human reviewed ≡ ok approved
unfolding transition find_opportunity get canonical_state assert_transition allowed_transitions
    approval_complete latest_full_scan first_by scan_is_complete latest_score ledger_complete
approves = refl

approval-IsProof_example :
    (is_system human.role ≡ false)
    × ((o : Opportunity) × (get (λ o. o.id) 4 reviewed.opportunities ≡ some o)
        × (is_some o.owner_user_id ≡ true)
        × ((scan : EvidenceScan) × IsProof full_evidence o.id 60 scan))
approval-IsProof_example =
    approval-IsProof full_evidence 60 4 approval human reviewed approved refl approves

canonical_state-value_example : canonical_state (value needs_more_evidence) ≡ ok needs_more_evidence
canonical_state-value_example = canonical_state-value needs_more_evidence

-- An archived opportunity is given a new owner.
abbrev kept_away : Reviews
kept_away = record { opportunities = opportunity_in archived ∷ []; history = [] }

abbrev handing_over : OwnershipRequest
handing_over = record { owner_user_id = 9; reason = 3; expected_review_version = none }

abbrev handed_over : Reviews
handed_over =
    write 4 (own 9) (owner_review 5 handing_over human archived (own 9 (opportunity_in archived)))
      kept_away

-- The pipeline gives up scan 3 at the moment 70.
abbrev given_up : ReviewTransitionRequest
given_up = record {
  target_state = needs_more_evidence;
  decision = 1;
  decision_reason = 2;
  owner_user_id = some 1;
  expected_review_version = none;
}

abbrev pub stopped_reviews : Reviews
stopped_reviews =
    let f = move full_running needs_more_evidence (some 1) 70 in
    write 4 f
      (review_of given_up (record { actor_id = 0; role = system }) full_running 70
        (f (opportunity_in full_running)))
      running_reviews

pub stops :
    transition_system no_evidence 70 0 4 needs_more_evidence 1 2 running_reviews
    ≡ ok stopped_reviews
unfolding transition_system transition find_opportunity get canonical_state assert_transition
    allowed_transitions
stops = refl
