-- ===== src/Properties/Compliant/Exact.antt =====
-- When a compliance review is accepted.
use digital_real_estate_engi.Common.{
  ◌∷◌, [], Option, filter-eq-nil, ◌↔◌, is_some, ◌∙◌, ℕ, ◌≡◌, refl, sym, ap, Bool, true, false, not,
  some, All,
}
use mathlib.Core.Path.{subst}
use mathlib.Core.Option.{some-injective}
use digital_real_estate_engi.Common.Table.{get}
use digital_real_estate_engi.Common.Result.{ok, >>=-eq-ok, >>-eq-ok, raise_if, raise_if-eq-ok}
use digital_real_estate_engi.Reviews.State.{ReviewActor}
use digital_real_estate_engi.Properties.State.{
  SiteBuild, accessibility, content_accuracy, privacy, provider_claims, referral_disclosure,
  structured_data, ComplianceCheck, required_compliance_checks, Checklist,
}
use digital_real_estate_engi.Properties.Errors.{
  may_review, or_raise-eq-ok, assert_reviewer, site_build_not_found,
}
use digital_real_estate_engi.Properties.Sites.{
  Sites, build_of, is_failed, missing_checks, failed_checks, new_review, review_compliance,
}
use digital_real_estate_engi.Properties.Compliant.{IsComplete}
use digital_real_estate_engi.Properties.Compliant.Building.{
  failed_checks-IsComplete, guard_holds, and_not,
}

complete-checks :
    (checklist : Checklist)
    → IsComplete checklist
    → (failed_checks checklist ≡ []) × (missing_checks checklist ≡ [])
complete-checks checklist complete = (
  filter-eq-nil (λ k. is_failed (checklist k)) required_compliance_checks
      (each (λ k o. is_failed o) (λ k. refl)),
  filter-eq-nil (λ k. not (is_some (checklist k))) required_compliance_checks
      (each (λ k o. not (is_some o)) (λ k. refl)),
)
  where
    each :
        (p : ComplianceCheck → Option Bool → Bool)
        → ((k : ComplianceCheck) → p k (some true) ≡ false)
        → All (λ k. p k (checklist k) ≡ false) required_compliance_checks
    each p passes =
        let at = λ (k : ComplianceCheck). ap (p k) (complete k) ∙ passes k in
        (
          at accessibility,
          (
            at content_accuracy,
            (at privacy, (at provider_claims, (at referral_disclosure, (at structured_data, tt)))),
          ),
        )

review_compliance-shows :
    (id build_id : ℕ) (checklist : Checklist) (actor : ReviewActor) (now : ℕ) (sites : Sites)
    (build : SiteBuild) (sites' : Sites)
    → get (λ b. b.id) build_id sites.builds ≡ some build
    → review_compliance id build_id true checklist actor now sites ≡ ok sites'
    → IsComplete checklist × (build.passed ≡ true)
unfolding review_compliance
review_compliance-shows id build_id checklist actor now sites build sites' found h =
    let (_, h1) = >>-eq-ok (assert_reviewer actor) _ h in
    let (b, finds, h2) = >>=-eq-ok (build_of sites build_id) _ h1 in
    let (checked, h3) = >>-eq-ok (raise_if _ _) _ h2 in
    let (passed, _) = >>-eq-ok (raise_if (not b.passed) _) _ h3 in
    let finds' =
      or_raise-eq-ok site_build_not_found (get (λ b. b.id) build_id sites.builds) finds in
    let same : b ≡ build = some-injective _ _ (sym finds' ∙ found) in
    (
      failed_checks-IsComplete checklist (guard_holds true _ _ (raise_if-eq-ok _ _ checked) refl),
      subst (λ x. x.passed ≡ true) same (and_not true b.passed (raise_if-eq-ok _ _ passed) refl),
    )

-- An approval by a reviewer of a build that exists is accepted exactly when each required check is there
-- and true and the build passed.
pub review_compliance_iff :
    (id build_id : ℕ) (checklist : Checklist) (actor : ReviewActor) (now : ℕ) (sites : Sites)
    (build : SiteBuild)
    → may_review actor.role ≡ true
    → get (λ b. b.id) build_id sites.builds ≡ some build
    → ((sites' : Sites) × (review_compliance id build_id true checklist actor now sites
          ≡ ok sites'))
      ↔ (IsComplete checklist × (build.passed ≡ true))
unfolding review_compliance assert_reviewer
review_compliance_iff id build_id checklist actor now sites build may found = (
  (λ accepted.
      review_compliance-shows id build_id checklist actor now sites build accepted.0 found
        accepted.1),
  (λ holds.
      let (failed_none, missing_none) = complete-checks checklist holds.0 in
      (
        record sites {
          compliance = new_review id build true checklist actor now ∷ sites.compliance;
        },
        rw (may, found, failed_none, missing_none, holds.1) refl,
      )),
)
