-- ===== src/Reviews/Protocol/Safety.antt =====
-- What no order of the reviews can break.
use digital_real_estate_engi.Common.{◌≤◌, ◌≡◌, All}
use digital_real_estate_engi.Common.Table.{IsKeyed}
use digital_real_estate_engi.Reviews.State.{Opportunity, Reviews}
use digital_real_estate_engi.Reviews.Protocol.Writes.{IsConsistent}

pub record IsSound (reviews : Reviews) : Type 0 where
  pub keyed : IsKeyed (λ o. o.id) reviews.opportunities
  pub consistent : All IsConsistent reviews.opportunities

-- What is left alone of an archived opportunity.
pub record IsKept (o o' : Opportunity) : Type 0 where
  pub same_status : o'.status ≡ o.status
  pub not_older : o.review_version ≤ o'.review_version
