-- ===== src/Scans/Fencing/Unfenced.antt =====
-- The handler `except Exception` of `ScanPipeline.run` in src/rank_rent/services/scanner.py, in a worker
-- that another has replaced.
use Prim.Native.String.{String}
use digital_real_estate_engi.Reviews.State.{Reviews}
