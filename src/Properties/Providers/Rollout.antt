-- ===== src/Properties/Providers/Rollout.antt =====
-- Which provider the live sites show after an activation.
use digital_real_estate_engi.Common.{
  ℕ, ◌≡◌, refl, inl, inr, ap, ◌∙◌, Bool, true, false, not, Option, none, some, List, [], ◌∷◌, ◌&&◌,
  ◌||◌, ◌==◌, holds, is_some, if◌then◌else◌, any, arith, Bool-cases, Option-cases,
}
use mathlib.Core.Path.{subst}
use digital_real_estate_engi.Common.Text.{Text}
use digital_real_estate_engi.Common.Table.{get, key-get}
use digital_real_estate_engi.Common.Result.{ok, >>=-eq-ok, >>-eq-ok, raise_if, ok_inj}
use digital_real_estate_engi.Reviews.State.{ReviewActor}
use digital_real_estate_engi.Deliveries.Store.{active}
use digital_real_estate_engi.Assignments.{
  ProviderAssignment, Routes, set_assignment, transition_assignment,
}
use digital_real_estate_engi.Assignments.Effect.{set-get, transition_assignment-Moves}
use digital_real_estate_engi.Properties.State.{Deployment}
use digital_real_estate_engi.Properties.Errors.{assert_operator, or_raise-eq-ok}
use digital_real_estate_engi.Properties.Catalog.{routed}
use digital_real_estate_engi.Properties.Sites.{Sites}
use digital_real_estate_engi.Properties.Providers.{
  provider_of, is_local, tell, update_runtime, prepared, activation, activate_provider,
}
use digital_real_estate_engi.Properties.Providers.Single.{routed-eq-ok}

-- What `provider-config.json` says in a directory.
unfoldable pub runtime_of : ℕ → List (ℕ × Option ℕ) → Option (Option ℕ)
runtime_of destination [] = none
runtime_of destination ((d, assignment) ∷ files) =
    if d == destination then some assignment else runtime_of destination files

-- Whether the directory is that of a live local deployment of the property.
abbrev pub shows : (ℕ → Option ℕ) → ℕ → List Deployment → ℕ → Bool
shows directory property_id rows destination =
    any (λ d. is_local property_id d && holds (directory d.url) destination) rows

tell-shows :
    (directory : ℕ → Option ℕ) (property_id : ℕ) (a : ProviderAssignment) (d : Deployment)
    (sites : Sites) (destination : ℕ)
    → runtime_of destination (tell directory property_id a d sites).files ≡ (
        if is_local property_id d && holds (directory d.url) destination
        then some (some a.id)
        else runtime_of destination sites.files)
unfolding tell runtime_of
tell-shows directory property_id a d sites destination =
    elim (Bool-cases (is_local property_id d)) [
      | inr other ↦ rw other refl
      | inl is ↦ elim (Option-cases (directory d.url)) [
        | inl absent ↦ rw (is, absent) refl
        | inr (e, found) ↦ rw (is, found) refl
      ]
    ]

update_runtime-shows :
    (directory : ℕ → Option ℕ) (property_id : ℕ) (a : ProviderAssignment) (rows : List Deployment)
    (sites : Sites) (destination : ℕ)
    → runtime_of destination (update_runtime directory property_id a rows sites).files ≡ (
        if shows directory property_id rows destination
        then some (some a.id)
        else runtime_of destination sites.files)
unfolding update_runtime
update_runtime-shows directory property_id a [] sites destination = refl
update_runtime-shows directory property_id a (d ∷ rows) sites destination =
    either (is_local property_id d && holds (directory d.url) destination)
      (shows directory property_id rows destination) a.id _ _ _
      (update_runtime-shows directory property_id a rows (tell directory property_id a d sites)
        destination)
      (tell-shows directory property_id a d sites destination)
  where
    either :
        (first rest : Bool) (i : ℕ) (after middle before : Option (Option ℕ))
        → after ≡ (if rest then some (some i) else middle)
        → middle ≡ (if first then some (some i) else before)
        → after ≡ (if first || rest then some (some i) else before)
    either true true i after middle before h k = h
    either true false i after middle before h k = h ∙ k
    either false true i after middle before h k = h
    either false false i after middle before h k = h ∙ k

-- An activation that is accepted: the assignment is active, and the runtime configuration of each live
-- local deployment of its property names it; the configuration of any other directory is as before.
pub record IsRolledOut (directory : ℕ → Option ℕ) (i : ℕ) (sites : Sites) (routes' : Routes)
    (sites' : Sites) : Type 0 where
  pub assignment : ProviderAssignment
  pub row : get (λ a. a.id) i routes'.assignments ≡ some assignment
  pub is_active : assignment.status ≡ active
  pub runtime :
      (destination : ℕ)
      → runtime_of destination sites'.files ≡ (
          if shows directory assignment.property_id sites.deployments destination
          then some (some i)
          else runtime_of destination sites.files)

rolled_out :
    (directory : ℕ → Option ℕ) (i : ℕ) (reason : Text) (actor : ReviewActor) (now : ℕ)
    (piloted activated : Routes) (sites : Sites) (current : ProviderAssignment)
    → transition_assignment i active none now piloted ≡ ok activated
    → get (λ a. a.id) i (set_assignment i (activation actor reason) activated).assignments
      ≡ some current
    → (routes' : Routes) (sites' : Sites)
    → ◌≡◌ {A = Routes × Sites}
        (
          set_assignment i (activation actor reason) activated,
          update_runtime directory current.property_id current sites.deployments sites,
        )
        (routes', sites')
    → IsRolledOut directory i sites routes' sites'
rolled_out directory i reason actor now piloted activated sites current activates finds routes'
      sites' done =
    let m = transition_assignment-Moves i active none now piloted activated activates in
    let written = set-get i (activation actor reason) activated (λ x. refl) m.now m.left in
    let same : current ≡ activation actor reason m.now = ground (arith, finds, written) in
    let key = key-get (λ a. a.id) i _ current finds in
    subst (λ p. IsRolledOut directory i sites p.0 p.1) done
      (record {
        assignment = current;
        row = finds;
        is_active = ap (λ a. a.status) same ∙ m.becomes;
        runtime = λ destination.
            subst
              (λ k.
                runtime_of destination
                  (update_runtime directory current.property_id current sites.deployments
                    sites).files
                ≡ (if shows directory current.property_id sites.deployments destination
                    then some (some k)
                    else runtime_of destination sites.files))
              key
              (update_runtime-shows directory current.property_id current sites.deployments sites
                destination);
      })

-- After an activation that is accepted the assignment is active, the runtime configuration of each live
-- local deployment of its property names it, and that of any other directory is as before.
pub activate_provider-IsRolledOut :
    (directory : ℕ → Option ℕ) (i : ℕ) (reason : Text) (actor : ReviewActor) (now : ℕ)
    (routes : Routes) (sites : Sites) (routes' : Routes) (sites' : Sites)
    → activate_provider directory i reason actor now routes sites ≡ ok (routes', sites')
    → IsRolledOut directory i sites routes' sites'
unfolding activate_provider
activate_provider-IsRolledOut directory i reason actor now routes sites routes' sites' h =
    let (_, h1) = >>-eq-ok (assert_operator actor) _ h in
    let (row, _, h2) = >>=-eq-ok (provider_of routes i) _ h1 in
    let (_, h3) = >>-eq-ok (raise_if (not (is_some row.claims_reviewed_at)) _) _ h2 in
    let (piloted, _, h4) = >>=-eq-ok (prepared i row now routes) _ h3 in
    let (activated, activates, h5) =
      >>=-eq-ok (routed (transition_assignment i active none now piloted)) _ h4 in
    let (current, finds, done) =
      >>=-eq-ok (provider_of (set_assignment i (activation actor reason) activated) i) _ h5 in
    rolled_out directory i reason actor now piloted activated sites current
      (routed-eq-ok _ activates) (or_raise-eq-ok _ _ finds) routes' sites' (ok_inj done)
