-- ===== src/Scans/Row.antt =====
-- The row of the table `scan_runs`, with the columns that the worker reads or writes, and the
-- constants of scan_worker.py. Worker ids and lease tokens are only compared for equality, so they
-- are natural numbers; a JSON dictionary is an association list that later writes override.
use Prim.Native.String.{String}
use text.Mathlib.Text.{◌==◌ as str_eq}
use digital_real_estate_engi.Common.{ℕ, Bool, true, false, Option, List, [], ◌∷◌, if◌then◌else◌}

pub data ScanStatus : Type 0 where
  pending queued running completed failed cancelled quarantined : ScanStatus

abbrev pub is_queued : ScanStatus → Bool
is_queued queued = true
is_queued _ = false

abbrev pub is_running : ScanStatus → Bool
is_running running = true
is_running _ = false

abbrev pub is_failed : ScanStatus → Bool
is_failed failed = true
is_failed _ = false

-- `ACTIVE_SCAN_STATUSES`
abbrev pub is_active : ScanStatus → Bool
is_active queued = true
is_active running = true
is_active _ = false

-- `TERMINAL_SCAN_STATUSES`
abbrev pub is_terminal : ScanStatus → Bool
is_terminal completed = true
is_terminal failed = true
is_terminal cancelled = true
is_terminal quarantined = true
is_terminal _ = false

pub data ScanSource : Type 0 where
  manual_async promotion_async batch_review_async : ScanSource
  other_source : String → ScanSource

-- `source in WORKER_SCAN_SOURCES`
abbrev pub is_worker_source : ScanSource → Bool
is_worker_source (other_source _) = false
is_worker_source _ = true

-- A value of the JSON column `partial_outputs`; a moment is written by `isoformat`.
pub data OutputValue : Type 0 where
  flag : Bool → OutputValue
  label : String → OutputValue
  identifier : ℕ → OutputValue
  amount : ℕ → OutputValue
  moment : ℕ → OutputValue

abbrev pub Outputs : Type 0
Outputs = List (String × OutputValue)

-- `{**outputs, key: value}`
unfoldable pub put : String → OutputValue → Outputs → Outputs
put k v [] = (k, v) ∷ []
put k v ((j, w) ∷ o) = if str_eq j k then (j, v) ∷ o else (j, w) ∷ put k v o

-- `outputs.get(key)`
unfoldable pub lookup : String → Outputs → Option OutputValue
lookup k [] = Option.none
lookup k ((j, w) ∷ o) = if str_eq j k then Option.some w else lookup k o

pub record ScanRow : Type 0 where
  pub id : ℕ
  pub opportunity_id : Option ℕ
  pub source_scan_run_id : Option ℕ
  pub source : ScanSource
  pub status : ScanStatus
  pub progress_stage : String
  pub started_at : Option ℕ
  pub completed_at : Option ℕ
  pub error_summary : Option String
  pub partial_outputs : Outputs
  pub retry_count : ℕ
  pub max_attempts : ℕ
  pub next_attempt_at : Option ℕ
  pub cancel_requested : Bool
  pub worker_id : Option ℕ
  pub lease_token : Option ℕ
  pub claimed_at : Option ℕ
  pub heartbeat_at : Option ℕ
  pub lease_expires_at : Option ℕ
  pub quarantined_at : Option ℕ
  pub quarantine_reason : Option String

-- The settings that the worker reads, durations in microseconds.
pub record WorkerSettings : Type 0 where
  pub scan_worker_max_attempts : ℕ
  pub scan_worker_retry_base : ℕ
  pub scan_worker_retry_max : ℕ
