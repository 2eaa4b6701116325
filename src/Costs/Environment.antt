-- ===== src/Costs/Environment.antt =====
-- `_usage_class` of cost_controls.py: `environment.strip().lower() == "production"`.
use Prim.Native.String.{String}
use text.Mathlib.Text.{◌==◌ as str_eq}
use digital_real_estate_engi.Common.{◌≡◌, refl, Bool, map, if◌then◌else◌}
use digital_real_estate_engi.Common.Text.{codes, strip, same_text, lower}
use digital_real_estate_engi.Costs.State.{UsageClass, production, testing}

-- No character outside of ASCII has a letter of "production" as its lower case.
unfoldable pub usage_class_of : String → UsageClass
unfolding strip same_text
usage_class_of environment =
    if same_text (map lower (strip (codes environment))) (codes "production")
    then production
    else testing

-- `environment == "production"`, the test of the switches and of the production breakers.
abbrev pub is_production : String → Bool
is_production environment = str_eq environment "production"

padded_production : usage_class_of " Production\n" ≡ production
unfolding usage_class_of
padded_production = refl

sandbox_is_testing : usage_class_of "sandbox" ≡ testing
unfolding usage_class_of
sandbox_is_testing = refl
