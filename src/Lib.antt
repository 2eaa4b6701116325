-- ===== src/Lib.antt =====
-- A verification library of the Digital Real Estate Engine: the durable queues, the controls of paid
-- provider calls and the review of opportunities, with the properties that make them safe under many
-- workers.
--
-- The parts and how they interact:
--  * Scans: the queue of scans in `src/rank_rent/services/scan_worker.py` and `scan_leases.py`, over the
--    columns of `ScanRunORM` in `src/rank_rent/db/orm.py`. `Row`, `Lease`, `Claim`, `Recover`, `Retry` and
--    `Run` are the worker's operations; `Begin` and `Pipeline` are how `ScanPipeline` in
--    `src/rank_rent/services/scanner.py` begins, writes and ends the row of the scan that it runs. `Protocol`
--    puts all of them into one step relation, `Fencing` is about leases that were lost.
--  * Costs: the ledger of paid calls in `src/rank_rent/services/cost_controls.py`, the qualification gate in
--    `src/rank_rent/services/qualification.py`, and the rows of attempts that
--    `src/rank_rent/integrations/dataforseo/live.py` opens and closes (`Attempts`), with its `_request`
--    (`Request`; `Request.Recovered` lets a recovery come between its transactions). `State` has the tables,
--    `Breakers`, `Reserve`, `Finish`, `Reconcile` and `Resolve` the operations. `Balance` and `Budget` are
--    about the money in the daily buckets, `Protocol` about all operations in any order. Recovering a scan
--    reconciles its paid calls, and a reservation checks the lease of its scan.
--  * Reviews: the states of an opportunity in `src/rank_rent/opportunity_review/services.py` and
--    `models.py` (`State`, `Transition`), the evidence that an approval needs (`Completeness`), and the test
--    of `build_api_cost_ledger` in `src/rank_rent/services/discovery_report.py` (`CostLedger`). A failed or
--    cancelled scan moves its opportunity.
--  * Deliveries: the queue of lead deliveries in `src/rank_rent/lead_routing/worker.py`, with the mask of
--    `privacy.py` and the tables of `orm.py`. `Row` is one delivery, `Store` the tables around it, `Run` the
--    operations, `Protocol` the life of one delivery, `Queue` the transactions of all workers, which
--    `Queue.Refine` relates to the life of each delivery.
--  * Assignments: `ProviderOperationsService` of `src/rank_rent/lead_routing/services.py`, with its operations
--    under the same names (`transition_assignment` is its `transition`), `Single` and `Effect`
--    about one transition, `Handover` about a replacement and `Protocol` about all operations in any order. It asks Reviews for the approval of a property, and a
--    delivery goes to an active assignment.
--  * Analytics: `AnalyticsService.record` of the same file, `record_event` here, with `Once` about an event
--    that its source delivers again.
--  * Properties: `PropertyWorkflowService` of `src/rank_rent/property_workflow/services.py`, on the rows of
--    its `orm.py`, with its operations under the same names. `Catalog` has properties and their versions,
--    `SiteConfigs` configurations and assets, `Domains` the way to a verified domain, `Sites` builds and
--    compliance reviews, `Gates` and `Deploy` the deployments, `Providers` the operations that go through
--    Assignments, `Protocol` the life of all tables in any order. `Live`, `Compliant`, `Numbered` and
--    `Configured` are about one table each, `Providers.Rollout` about the provider that live sites show. An approved opportunity of Reviews is where a property starts.
--  * Common: tests, tables with a numeric primary key, conditional updates with their row counts,
--    exceptions as values, sweeps over selected rows, sums. `Tests` applies the theorems to concrete rows.
--
-- How the program is read. A transaction is one step on the tables; a raised exception leaves them as
-- they were, since the session is not committed. Sessions interleave between transactions only: the
-- conditional updates and the row locks of the source are what makes one atomic. Moments and durations are
-- microseconds, money is in whole millionths of a dollar; the floating point rounding of the source is not
-- modelled. Identifiers, tokens and names that are only compared are natural numbers. The draws of
-- `random.random()` and `uuid4()` are arguments; so are the clock, the adapters of deliveries
-- and deployments, the site builder, the validators of texts,
-- `str.isdigit`, and the place of a null in an order of the database. All loops are over lists of rows, so
-- no fuel is used.
--
-- Not modelled: what the pipeline computes between its writes, scoring, statistics, reports, lead intake,
-- billing imports, migrations, web, CLI, infrastructure: other components, pure I/O, or
-- the surroundings of these. Scans that are queued, cancel requests and new deliveries come from outside of the models.
pub mod Common
pub mod Scans
pub mod Costs
pub mod Reviews
pub mod Deliveries
pub mod Assignments
pub mod Analytics
pub mod Properties
pub mod Tests
