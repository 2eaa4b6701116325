-- ===== src/Properties.antt =====
-- A property from its creation on an approved opportunity to its deployments: `PropertyWorkflowService`
-- of src/rank_rent/property_workflow/services.py.
pub mod State
pub mod Catalog
pub mod Errors
pub mod SiteConfigs
pub mod Domains
pub mod Sites
pub mod Deploy
pub mod Gates
pub mod Providers
pub mod Live
pub mod Compliant
pub mod Numbered
pub mod Configured
pub mod Protocol
