-- ===== src/Properties/Providers/Runtime.antt =====
-- The operations on the provider of a property change nothing at its sites but the runtime files.
use digital_real_estate_engi.Common.{
  ℕ, ◌≡◌, refl, inl, inr, sym, ap, ◌∙◌, not, Option, none, some, List, [], ◌∷◌, Bool-cases,
  Option-cases, is_some,
}
use digital_real_estate_engi.Common.Result.{ok, >>=-eq-ok, >>-eq-ok, raise_if, ok_inj}
use digital_real_estate_engi.Reviews.State.{ReviewActor}
use digital_real_estate_engi.Assignments.{Routes, ProviderAssignment}
use digital_real_estate_engi.Properties.State.{Deployment}
use digital_real_estate_engi.Properties.Errors.{
  active_provider_assignment_not_found, assert_operator, or_raise,
}
use digital_real_estate_engi.Properties.Catalog.{routed}
use digital_real_estate_engi.Properties.Sites.{Sites}
use digital_real_estate_engi.Common.Text.{Text}
use digital_real_estate_engi.Deliveries.Store.{active}
use digital_real_estate_engi.Assignments.{
  set_assignment, transition_assignment, replace_assignment, find_active,
}
use digital_real_estate_engi.Properties.Providers.{
  provider_of, is_local, tell, update_runtime, prepared, activation, replacement_activation,
  activate_provider, replace_provider,
}

tell-files :
    (directory : ℕ → Option ℕ) (property_id : ℕ) (a : ProviderAssignment) (d : Deployment)
    (sites : Sites)
    → tell directory property_id a d sites
      ≡ record sites { files = (tell directory property_id a d sites).files }
unfolding tell
tell-files directory property_id a d sites = elim (Bool-cases (is_local property_id d)) [
  | inr other ↦ rw other refl
  | inl is ↦ elim (Option-cases (directory d.url)) [
    | inl absent ↦ rw (is, absent) refl
    | inr (destination, found) ↦ rw (is, found) refl
  ]
]

-- The runtime configuration is all that changes at the sites.
pub update_runtime-files :
    (directory : ℕ → Option ℕ) (property_id : ℕ) (a : ProviderAssignment) (rows : List Deployment)
    (sites : Sites)
    → (files : List (ℕ × Option ℕ)) × (update_runtime directory property_id a rows sites
        ≡ record sites { files = files })
unfolding update_runtime
update_runtime-files directory property_id a [] sites = (sites.files, refl)
update_runtime-files directory property_id a (d ∷ rows) sites =
    let (files, same) =
      update_runtime-files directory property_id a rows (tell directory property_id a d sites) in
    (
      files,
      same
          ∙ ap (λ (s : Sites). record s { files = files })
              (tell-files directory property_id a d sites),
    )

module _ (directory : ℕ → Option ℕ) (reason : Text) (actor : ReviewActor) (now : ℕ)
    (routes : Routes) (sites : Sites) (routes' : Routes) (sites' : Sites) where
  pub activate_provider-files :
      (i : ℕ)
      → activate_provider directory i reason actor now routes sites ≡ ok (routes', sites')
      → (files : List (ℕ × Option ℕ)) × (sites' ≡ record sites { files = files })
  unfolding activate_provider
  activate_provider-files i h =
      let (_, h1) = >>-eq-ok (assert_operator actor) _ h in
      let (row, _, h2) = >>=-eq-ok (provider_of routes i) _ h1 in
      let (_, h3) = >>-eq-ok (raise_if (not (is_some row.claims_reviewed_at)) _) _ h2 in
      let (piloted, _, h4) = >>=-eq-ok (prepared i row now routes) _ h3 in
      let (activated, _, h5) =
        >>=-eq-ok (routed (transition_assignment i active none now piloted)) _ h4 in
      let (current, _, done) =
        >>=-eq-ok (provider_of (set_assignment i (activation actor reason) activated) i) _ h5 in
      let (files, same) =
        update_runtime-files directory current.property_id current sites.deployments sites in
      (files, sym (ap (λ p. p.1) (ok_inj done)) ∙ same)

  pub replace_provider-files :
      (property_id replacement_id : ℕ)
      → replace_provider directory property_id replacement_id reason actor now routes sites
        ≡ ok (routes', sites')
      → (files : List (ℕ × Option ℕ)) × (sites' ≡ record sites { files = files })
  unfolding replace_provider
  replace_provider-files property_id replacement_id h =
      let (_, h1) = >>-eq-ok (assert_operator actor) _ h in
      let (current, _, h2) =
        >>=-eq-ok
          (or_raise active_provider_assignment_not_found
            (find_active property_id routes.assignments))
          _ h1 in
      let (replacement, _, h3) = >>=-eq-ok (provider_of routes replacement_id) _ h2 in
      let (_, h4) = >>-eq-ok (raise_if (not (is_some replacement.claims_reviewed_at)) _) _ h3 in
      let (replaced, _, h5) =
        >>=-eq-ok (routed (replace_assignment current.id replacement_id (some reason) now routes)) _
          h4 in
      let (row, _, done) =
        >>=-eq-ok
          (provider_of
            (set_assignment replacement_id (replacement_activation actor reason) replaced)
            replacement_id)
          _ h5 in
      let (files, same) = update_runtime-files directory property_id row sites.deployments sites in
      (files, sym (ap (λ p. p.1) (ok_inj done)) ∙ same)
