-- ===== src/Properties/Protocol/Safety.antt =====
-- What holds of all tables after any operations.
use digital_real_estate_engi.Common.{ℕ, ◌≡◌, sym, Option, List}
use mathlib.Core.Path.{subst}
use digital_real_estate_engi.Assignments.Single.{IsSingle}
use digital_real_estate_engi.Assignments.Protocol.{Operations-IsSingle}
use digital_real_estate_engi.Assignments.Protocol as AssignmentProtocol
use digital_real_estate_engi.Reviews.State.{Reviews}
use digital_real_estate_engi.Properties.State.{Asset}
use digital_real_estate_engi.Properties.Domains.{Domains}
use digital_real_estate_engi.Properties.Sites.{Sites}
use digital_real_estate_engi.Properties.Protocol.{
  Workflow, Operation, reviewed, rerouted, creates, updates, suggests, decides, checks, purchases,
  registers, verifies, adds_asset, reviews_asset, assigns, activates, replaces, configures,
  reviews_config, builds, complies, deploys, rolls_back, Operations, here, next,
}
use digital_real_estate_engi.Properties.Live.{IsLive}
use digital_real_estate_engi.Properties.Live.Deploying.{deploy-IsLive, rollback-IsLive}
use digital_real_estate_engi.Properties.Compliant.{IsCompliant}
use digital_real_estate_engi.Properties.Compliant.Building.{
  build_site-IsCompliant, review_compliance-IsCompliant, build_site-deployments,
  review_compliance-deployments,
}
use digital_real_estate_engi.Properties.Compliant.Deploying.{
  deploy-IsCompliant, rollback-IsCompliant,
}
use digital_real_estate_engi.Properties.Numbered.Steps.{
  Numbered, create_property-IsNumbered, update_property-IsNumbered, create_site_config-IsNumbered,
  review_site_config-IsNumbered, verify_dns-IsNumbered, deploy-IsNumbered,
}
use digital_real_estate_engi.Properties.Configured.{
  IsConfigured, create_site_config-IsConfigured, review_site_config-IsConfigured,
}
use digital_real_estate_engi.Properties.Configured.Kept.{
  create_property-configs, update_property-configs, verify_dns-configs, deploy-configs,
}
use digital_real_estate_engi.Properties.Providers.Single.{
  create_property-IsSingle, update_property-IsSingle, create_provider_assignment-IsSingle,
  activate_provider-IsSingle, replace_provider-IsSingle,
}
use digital_real_estate_engi.Properties.Providers.Runtime.{
  activate_provider-files, replace_provider-files,
}

pub record IsSound (w : Workflow) : Type 0 where
  pub routes : IsSingle w.routes
  pub versions : Numbered w.catalog
  pub configs : IsConfigured w.catalog.configs
  pub live : IsLive w.sites.deployments
  pub compliant : IsCompliant w.sites

files-IsSound :
    (w : Workflow) (files : List (ℕ × Option ℕ)) (sites : Sites)
    → sites ≡ record w.sites { files = files }
    → IsSound w
    → IsLive sites.deployments × IsCompliant sites
files-IsSound w files sites same sound =
    subst (λ s. IsLive s.deployments × IsCompliant s) (sym same)
      (
        sound.live,
        record {
          keyed = sound.compliant.keyed;
          reviewed = sound.compliant.reviewed;
          backed = sound.compliant.backed;
        },
      )

-- Reviews, domains and assets are of no concern.
aside-IsSound :
    (w : Workflow) (reviews : Reviews) (domains : Domains) (assets : List Asset)
    → IsSound w
    → IsSound (record w { reviews = reviews; domains = domains; assets = assets })
aside-IsSound w reviews domains assets s = record {
  routes = s.routes;
  versions = s.versions;
  configs = s.configs;
  live = s.live;
  compliant = s.compliant;
}

Operation-IsSound : (w w' : Workflow) → IsSound w → Operation w w' → IsSound w'
Operation-IsSound w _ s (reviewed reviews) = aside-IsSound w _ _ _ s
Operation-IsSound w _ s (rerouted step) = record {
  routes = Operations-IsSingle _ _ s.routes (AssignmentProtocol.next AssignmentProtocol.here step);
  versions = s.versions;
  configs = s.configs;
  live = s.live;
  compliant = s.compliant;
}
Operation-IsSound w _ s (creates opportunity_id derived_id request actor h) = record {
  routes =
      create_property-IsSingle w.reviews opportunity_id derived_id request actor _ _ _ _ s.routes h;
  versions =
      create_property-IsNumbered w.reviews opportunity_id derived_id request actor _ _ _ _
        s.versions h;
  configs =
      subst IsConfigured
        (create_property-configs w.reviews opportunity_id derived_id request actor _ _ _ _ h)
        s.configs;
  live = s.live;
  compliant = s.compliant;
}
Operation-IsSound w _ s (updates validators property_id request actor h) = record {
  routes = update_property-IsSingle validators property_id request actor _ _ _ _ s.routes h;
  versions = update_property-IsNumbered validators property_id request actor _ _ _ _ s.versions h;
  configs =
      subst IsConfigured (update_property-configs validators property_id request actor _ _ _ _ h)
        s.configs;
  live = s.live;
  compliant = s.compliant;
}
Operation-IsSound w _ s (suggests property_id names) = aside-IsSound w _ _ _ s
Operation-IsSound w _ s (decides candidate_id shortlist actor now h) = aside-IsSound w _ _ _ s
Operation-IsSound w _ s (checks check candidate_id now h) = aside-IsSound w _ _ _ s
Operation-IsSound w _ s (purchases can_purchase id manual candidate_id explicit actor now h) =
    aside-IsSound w _ _ _ s
Operation-IsSound w _ s (registers registration_id request actor now h) = aside-IsSound w _ _ _ s
Operation-IsSound w _ s (verifies registration_id request actor now h) = record {
  routes = s.routes;
  versions = verify_dns-IsNumbered registration_id request actor now _ _ _ _ s.versions h;
  configs =
      subst IsConfigured (verify_dns-configs registration_id request actor now _ _ _ _ h) s.configs;
  live = s.live;
  compliant = s.compliant;
}
Operation-IsSound w _ s (adds_asset id property_id h) = aside-IsSound w _ _ _ s
Operation-IsSound w _ s (reviews_asset asset_id is_approval actor now h) = aside-IsSound w _ _ _ s
Operation-IsSound w _ s (assigns candidates id property_id request actor now fresh h) = record {
  routes =
      create_provider_assignment-IsSingle candidates _ _ id property_id request actor now _ _
        s.routes fresh h;
  versions = s.versions;
  configs = s.configs;
  live = s.live;
  compliant = s.compliant;
}
Operation-IsSound w _ s (activates directory i reason actor now h) =
    let (files, same) = activate_provider-files directory reason actor now _ _ _ _ i h in
    let (live, compliant) = files-IsSound w files _ same s in
    record {
      routes = activate_provider-IsSingle directory i reason actor now _ _ _ _ s.routes h;
      versions = s.versions;
      configs = s.configs;
      live = live;
      compliant = compliant;
    }
Operation-IsSound w _ s (replaces directory property_id replacement_id reason actor now h) =
    let (files, same) =
      replace_provider-files directory reason actor now _ _ _ _ property_id replacement_id h in
    let (live, compliant) = files-IsSound w files _ same s in
    record {
      routes =
          replace_provider-IsSingle directory property_id replacement_id reason actor now _ _ _ _
            s.routes h;
      versions = s.versions;
      configs = s.configs;
      live = live;
      compliant = compliant;
    }
Operation-IsSound w _ s (configures id property_id payload actor fresh h) = record {
  routes = s.routes;
  versions = create_site_config-IsNumbered _ _ id property_id payload actor _ _ s.versions h;
  configs = create_site_config-IsConfigured _ _ id property_id payload actor _ _ s.configs fresh h;
  live = s.live;
  compliant = s.compliant;
}
Operation-IsSound w _ s (reviews_config config_id is_approval actor now h) = record {
  routes = s.routes;
  versions = review_site_config-IsNumbered config_id is_approval actor now _ _ s.versions h;
  configs = review_site_config-IsConfigured config_id is_approval actor now _ _ s.configs h;
  live = s.live;
  compliant = s.compliant;
}
Operation-IsSound w _ s (builds builder id config_id environment fresh h) = record {
  routes = s.routes;
  versions = s.versions;
  configs = s.configs;
  live =
      subst IsLive (sym (build_site-deployments builder _ _ id config_id environment _ _ h)) s.live;
  compliant = build_site-IsCompliant builder _ _ id config_id environment _ _ fresh s.compliant h;
}
Operation-IsSound w _ s (complies id build_id is_approval checklist actor now fresh h) = record {
  routes = s.routes;
  versions = s.versions;
  configs = s.configs;
  live =
      subst IsLive
        (sym (review_compliance-deployments id build_id is_approval checklist actor now _ _ h))
        s.live;
  compliant =
      review_compliance-IsCompliant id build_id is_approval checklist actor now _ _ fresh
        s.compliant h;
}
Operation-IsSound w _ s (deploys destinations adapter id build_id request actor now fresh h) =
    record {
      routes = s.routes;
      versions =
          deploy-IsNumbered destinations adapter _ _ _ id build_id request actor now _ _ _ _
            s.versions h;
      configs =
          subst IsConfigured
            (deploy-configs destinations adapter _ _ _ id build_id request actor now _ _ _ _ h)
            s.configs;
      live =
          deploy-IsLive destinations adapter _ _ _ id build_id request actor now _ _ _ _ fresh
            s.live h;
      compliant =
          deploy-IsCompliant destinations adapter _ _ _ id build_id request actor now _ _ _ _
            s.compliant h;
    }
Operation-IsSound w _ s
      (rolls_back destinations adapter id property_id target_id confirmation actor now fresh h) =
    record {
      routes = s.routes;
      versions = s.versions;
      configs = s.configs;
      live =
          rollback-IsLive destinations adapter _ id property_id target_id confirmation actor now _ _
            fresh s.live h;
      compliant =
          rollback-IsCompliant destinations adapter _ id property_id target_id confirmation actor
            now _ _ s.compliant h;
    }

-- Whatever operations commit, in any order, on any properties: a property has one live deployment in an
-- environment at most and one approved configuration at most, its versions are numbered from 1 to the
-- current one with one snapshot each, it has one active provider at most, and every production
-- deployment runs a production build that passed and that has an approved compliance review with each
-- required check true.
pub Operations-IsSound : (w w' : Workflow) → IsSound w → Operations w w' → IsSound w'
Operations-IsSound w _ sound here = sound
Operations-IsSound w _ sound (next path step) =
    Operation-IsSound _ _ (Operations-IsSound w _ sound path) step
