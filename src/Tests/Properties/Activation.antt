-- ===== src/Tests/Properties/Activation.antt =====
-- The activation of a provider for property 7.
use digital_real_estate_engi.Common.{◌≡◌, refl, none, some, [], ◌∷◌}
use digital_real_estate_engi.Common.Text.{codes}
use digital_real_estate_engi.Common.Table.{get}
use digital_real_estate_engi.Common.Result.{ok}
use digital_real_estate_engi.Assignments.{
  Routes, ProviderAssignment, find_active, allowed_targets, transition_assignment, assignment_of,
  assert_move, moved,
}
use digital_real_estate_engi.Properties.Errors.{assert_operator}
use digital_real_estate_engi.Properties.Sites.{Sites}
use digital_real_estate_engi.Deliveries.Store.{candidate, active}
use digital_real_estate_engi.Properties.Providers.{tell, update_runtime, activate_provider}
use digital_real_estate_engi.Properties.Providers.Rollout.{
  IsRolledOut, activate_provider-IsRolledOut,
}
use digital_real_estate_engi.Tests.Properties.{manager, routes, sites}

abbrev pilot_provider : ProviderAssignment
pilot_provider = record {
  id = 51;
  property_id = 7;
  status = candidate;
  destination_phone = some 556;
  destination_email = none;
  agreement_started_at = none;
  agreement_ended_at = none;
  active_from = none;
  active_until = none;
  termination_reason = none;
  replaced_assignment_id = none;
  claims_reviewed_at = some 50;
  activation_approved_by = none;
  activation_reason = none;
  replacement_approved_by = none;
}

abbrev routes_with : ProviderAssignment → Routes
routes_with a = record routes { assignments = a ∷ [] }

abbrev activated_provider : ProviderAssignment
activated_provider = record pilot_provider {
  status = active;
  active_from = some 70;
  agreement_started_at = some 70;
  activation_approved_by = some 3;
  activation_reason = some (codes "pilot went well");
}

abbrev told_sites : Sites
told_sites = record sites { files = (97, some 51) ∷ [] }

activates :
    activate_provider
      (λ url. some url)
      51
      (codes "pilot went well")
      manager
      70
      (routes_with pilot_provider)
      sites
    ≡ ok (routes_with activated_provider, told_sites)
unfolding activate_provider assert_operator get transition_assignment assignment_of assert_move
    find_active moved update_runtime tell allowed_targets
activates = refl

activate_provider-IsRolledOut_example :
    IsRolledOut (λ url. some url) 51 sites (routes_with activated_provider) told_sites
activate_provider-IsRolledOut_example =
    activate_provider-IsRolledOut (λ url. some url) 51 (codes "pilot went well") manager 70
      (routes_with pilot_provider) sites (routes_with activated_provider) told_sites activates
