-- ===== src/Costs/Qualification.antt =====
-- The qualification gate: src/rank_rent/services/qualification.py.
use Prim.Native.String.{String}
use text.Mathlib.Text.{◌==◌ as str_eq}
use digital_real_estate_engi.Common.{
  ℕ, ◌+◌, ◌*◌, Bool, true, false, not, Option, none, some, List, [], ◌∷◌, ◌++◌, map, ◌&&◌, ◌||◌,
  ◌==◌, ltb, leb, if◌then◌else◌, filter, length,
}

pub data ExecutionMethod : Type 0 where
  executable_runner manual_import : ExecutionMethod

abbrev pub is_executed : ExecutionMethod → Bool
is_executed executable_runner = true
is_executed manual_import = false

pub record Qualification : Type 0 where
  pub id : ℕ
  pub provider : ℕ
  pub environment : String
  pub adapter_version : String
  pub passed : Bool
  pub qualified_at : ℕ
  pub expires_at : ℕ
  pub checks : List (String × Bool)
  pub execution_method : ExecutionMethod
  pub gate_eligible : Bool

abbrev pub required_qualification_checks : List String
required_qualification_checks =
    "account_access" ∷ "location_lookup" ∷ "keyword_suggestions" ∷ "keyword_metrics" ∷ "serps"
    ∷ "serp_features" ∷ "backlinks" ∷ "business_listings" ∷ "partial_tasks" ∷ "rate_limits"
    ∷ "billing_errors" ∷ "authentication_errors" ∷ "schema_drift" ∷ []

-- The evidence of a check, as far as it decides: `value.get("passed") is True`; a check that is
-- missing or holds no dictionary has not passed.
pub check_passed : String → List (String × Bool) → Bool
check_passed name [] = false
check_passed name ((n, b) ∷ checks) = if str_eq n name then b else check_passed name checks

-- `_normalize_executed_checks`
abbrev pub normalize_checks : List (String × Bool) → List (String × Bool)
normalize_checks checks =
    map (λ name. (name, check_passed name checks)) required_qualification_checks

abbrev pub all_passed : List (String × Bool) → Bool
all_passed [] = true
all_passed ((n, b) ∷ checks) = b && all_passed checks

abbrev pub hour : ℕ
hour = 3600 * 1000000

module _ (provider : ℕ) (environment adapter_version : String) (checks : List (String × Bool))
    (ttl_hours now : ℕ) where
  -- `record_executed_qualification`: the row that is added.
  pub record_executed_qualification : List Qualification → List Qualification
  unfolding check_passed
  record_executed_qualification rows =
      let normalized = normalize_checks checks in
      rows
      ++ record {
        id = length rows + 1;
        provider = provider;
        environment = environment;
        adapter_version = adapter_version;
        passed = all_passed normalized;
        qualified_at = now;
        expires_at = now + ttl_hours * hour;
        checks = normalized;
        execution_method = executable_runner;
        gate_eligible = all_passed normalized;
      }
        ∷ []

  -- `record_qualification`: a manual import; a blank override reason is refused before it.
  pub record_qualification : List Qualification → List Qualification
  unfolding check_passed
  record_qualification rows =
      let normalized = normalize_checks checks in
      rows
      ++ record {
        id = length rows + 1;
        provider = provider;
        environment = environment;
        adapter_version = adapter_version;
        passed = all_passed normalized;
        qualified_at = now;
        expires_at = now + ttl_hours * hour;
        checks = normalized;
        execution_method = manual_import;
        gate_eligible = false;
      }
        ∷ []

-- `order_by(qualified_at.desc(), id.desc())`: whether `a` comes before `b`.
abbrev pub is_later : Qualification → Qualification → Bool
is_later a b =
    ltb b.qualified_at a.qualified_at || (a.qualified_at == b.qualified_at && ltb b.id a.id)

pub latest : List Qualification → Option Qualification
latest [] = none
latest (q ∷ qs) = elim (latest qs) [
  | none ↦ some q
  | some r ↦ if is_later r q then some r else some q
]

pub applies : ℕ → String → String → Qualification → Bool
applies provider environment adapter_version q =
    q.provider == provider
    && (str_eq q.environment environment
        && (str_eq q.adapter_version adapter_version && is_executed q.execution_method))

pub gate : ℕ → Option Qualification → Option Qualification
gate now none = none
gate now (some q) =
    if not q.passed || (not q.gate_eligible || leb q.expires_at now) then none else some q

unfoldable pub current_qualification :
    ℕ → String → String → (now : ℕ) → List Qualification → Option Qualification
unfolding latest applies gate
current_qualification provider environment adapter_version now rows =
    gate now (latest (filter (applies provider environment adapter_version) rows))
