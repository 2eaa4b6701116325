-- ===== src/Deliveries/Mask.antt =====
-- `masked_destination` of src/rank_rent/lead_routing/privacy.py. `str.isdigit` is a parameter.
use digital_real_estate_engi.Common.{
  ℕ, ◌-◌, Bool, Option, none, some, [], ◌∷◌, ◌++◌, ◌==◌, if◌then◌else◌, filter, length, take, drop,
}
use digital_real_estate_engi.Common.Text.{Text, codes}

-- `destination.split("@", 1)`, where the text holds an "@".
split_at : Text → Option (Text × Text)
split_at [] = none
split_at (c ∷ s) =
    if c == b'@'
    then some ([], s)
    else elim (split_at s) [ none ↦ none | some (local, domain) ↦ some (c ∷ local, domain) ]

-- `digits[-4:]`
abbrev pub last_four : Text → Text
last_four digits = drop (length digits - 4) digits

mask_digits : Text → Text
mask_digits [] = codes "<configured>"
mask_digits (d ∷ digits) = codes "***" ++ last_four (d ∷ digits)

unfoldable pub masked_destination : (is_digit : ℕ → Bool) → Text → Text
unfolding split_at mask_digits
masked_destination is_digit destination = elim (split_at destination) [
  | some (local, domain) ↦ take 1 local ++ codes "***@" ++ domain
  | none ↦ mask_digits (filter is_digit destination)
]
