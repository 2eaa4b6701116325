-- ===== src/Reviews/Completeness.antt =====
-- `approval_completeness` of opportunity_review/services.py: the evidence that an approval needs.
use Prim.Native.String.{String}
use text.Mathlib.Text.{◌==◌ as str_eq}
use digital_real_estate_engi.Common.Query.{first_by}
use digital_real_estate_engi.Common.{
  ℕ, ◌-◌, Bool, true, false, Option, none, some, List, ◌&&◌, ◌||◌, ◌==◌, leb, ltb, is_some, holds,
  filter, length,
}
use digital_real_estate_engi.Reviews.State.{Opportunity}
use digital_real_estate_engi.Reviews.CostLedger.{PlannedCall, ExecutedCall, ledger_complete}

-- The columns of a scan run that the check reads.
pub record EvidenceScan : Type 0 where
  pub id : ℕ
  pub opportunity_id : Option ℕ
  pub scan_profile : String
  pub status : String
  pub completed_at : Option ℕ
  pub quality_status : Option String

-- The columns of a full score; `evidence_status` is what its payload says, if it says anything.
pub record FullScore : Type 0 where
  pub opportunity_id : ℕ
  pub scan_run_id : ℕ
  pub created_at : ℕ
  pub evidence_status : Option String

-- The tables that the check reads; of the four kinds of evidence only the scan of each row.
pub record Evidence : Type 0 where
  pub scans : List EvidenceScan
  pub scores : List FullScore
  pub keyword_decisions : List ℕ
  pub serp_snapshots : List ℕ
  pub competitor_metrics : List ℕ
  pub provider_candidates : List ℕ
  pub scan_plan_calls : List PlannedCall
  pub api_calls : List ExecutedCall
  -- Where the database sorts a null moment.
  pub null_rank : ℕ

abbrev pub rank : ℕ → Option ℕ → ℕ
rank null_rank none = null_rank
rank null_rank (some t) = t

-- `order by completed_at desc, id desc`: whether `a` comes before `b`.
abbrev pub is_later : ℕ → EvidenceScan → EvidenceScan → Bool
is_later null_rank a b =
    ltb (rank null_rank b.completed_at) (rank null_rank a.completed_at)
    || rank null_rank b.completed_at == rank null_rank a.completed_at && ltb b.id a.id

abbrev pub is_full_scan_of : ℕ → EvidenceScan → Bool
is_full_scan_of opportunity_id scan =
    holds scan.opportunity_id opportunity_id
    && (str_eq scan.scan_profile "full" && str_eq scan.status "completed")

unfoldable pub latest_full_scan : Evidence → ℕ → Option EvidenceScan
latest_full_scan evidence opportunity_id =
    first_by (is_later evidence.null_rank) (filter (is_full_scan_of opportunity_id) evidence.scans)

abbrev pub is_score_of : ℕ → EvidenceScan → FullScore → Bool
is_score_of opportunity_id scan score =
    score.opportunity_id == opportunity_id && score.scan_run_id == scan.id

unfoldable pub latest_score : Evidence → ℕ → EvidenceScan → Option FullScore
latest_score evidence opportunity_id scan =
    first_by (λ a b. ltb b.created_at a.created_at)
      (filter (is_score_of opportunity_id scan) evidence.scores)

-- `score.payload.get("evidence_status", "complete") == "complete"`
abbrev pub is_complete_status : Option String → Bool
is_complete_status none = true
is_complete_status (some s) = str_eq s "complete"

-- `quality_status in {"pass", "warning"}`
abbrev pub passes_quality : Option String → Bool
passes_quality none = false
passes_quality (some s) = str_eq s "pass" || str_eq s "warning"

-- `self._count(model, scan_id) > 0`
abbrev pub has_rows : ℕ → List ℕ → Bool
has_rows scan_id rows = ltb 0 (length (filter (λ i. i == scan_id) rows))

abbrev pub is_complete_score : Option FullScore → Bool
is_complete_score none = false
is_complete_score (some score) = is_complete_status score.evidence_status

-- Ninety days, in microseconds.
abbrev pub maximum_age : ℕ
maximum_age = 7776000000000

-- `bool(completed_at and completed_at >= cutoff)`
abbrev pub is_fresh : ℕ → Option ℕ → Bool
is_fresh now none = false
is_fresh now (some t) = leb (now - maximum_age) t

-- The checks that concern the scan, in the order of the source.
unfoldable pub scan_is_complete : Evidence → ℕ → ℕ → EvidenceScan → Bool
scan_is_complete evidence opportunity_id now scan =
    is_some (latest_score evidence opportunity_id scan)
    && (is_complete_score (latest_score evidence opportunity_id scan)
        && (passes_quality scan.quality_status
            && (has_rows scan.id evidence.keyword_decisions
                && (has_rows scan.id evidence.serp_snapshots
                    && (has_rows scan.id evidence.competitor_metrics
                        && (has_rows scan.id evidence.provider_candidates
                            && (ledger_complete scan.id evidence.scan_plan_calls evidence.api_calls
                                && is_fresh now scan.completed_at)))))))

-- `approval_completeness(...).complete`: no check fails.
unfoldable pub approval_complete : Evidence → Opportunity → ℕ → Bool
approval_complete evidence opportunity now =
    is_some opportunity.owner_user_id && elim (latest_full_scan evidence opportunity.id) [
      | none ↦ false
      | some scan ↦ scan_is_complete evidence opportunity.id now scan
    ]
