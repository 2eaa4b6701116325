-- ===== src/Tests/Assignments.antt =====
-- Property 7 with an active provider, and its replacement by a candidate.
use digital_real_estate_engi.Common.{◌≡◌, refl, none, some, [], ◌∷◌, arith}
use digital_real_estate_engi.Common.Text.{Text}
use digital_real_estate_engi.Common.Table.{get}
use digital_real_estate_engi.Common.Result.{ok}
use digital_real_estate_engi.Deliveries.Store.{active, pilot, replaced}
use digital_real_estate_engi.Assignments.{
  allowed_targets, ProviderAssignment, Routes, new_assignment, find_active, moved, assignment_of,
  set_assignment, assert_move, transition_assignment, linked, replace_assignment,
}
use digital_real_estate_engi.Assignments.Single.{IsSingle}
use digital_real_estate_engi.Assignments.Protocol.{here, next, replaces, Operations-IsSingle}
use digital_real_estate_engi.Assignments.Handover.{HandsOver, replace_assignment-HandsOver}

abbrev provider : ProviderAssignment
provider = moved active none 50 (new_assignment 1 7 (some 5551234) none)

abbrev routes : Routes
routes = record { profiles = []; assignments = provider ∷ new_assignment 2 7 none (some 8) ∷ [] }

-- "x"
abbrev reason : Text
reason = 120 ∷ []

abbrev replaced_routes : Routes
replaced_routes =
    set_assignment 2 (λ a. moved active none 90 (moved pilot none 90 (linked 1 a)))
      (set_assignment 1 (moved replaced (some reason) 90) routes)

replace_assignment_run : replace_assignment 1 2 (some reason) 90 routes ≡ ok replaced_routes
unfolding replace_assignment assignment_of transition_assignment assert_move find_active get moved
    allowed_targets
replace_assignment_run = refl

routes-IsSingle : IsSingle routes
unfolding moved
routes-IsSingle = record {
  keyed = (((λ e. omega arith), tt), (tt, tt));
  single = λ p. ground arith;
  reasoned = ((λ e. cc), ((λ e. cc), tt));
}

Operations-IsSingle_example : IsSingle replaced_routes
Operations-IsSingle_example =
    Operations-IsSingle routes replaced_routes routes-IsSingle
      (next here (replaces 1 2 (some reason) 90 replace_assignment_run))

replace_assignment-HandsOver_example : HandsOver 1 2 (some reason) routes replaced_routes
replace_assignment-HandsOver_example =
    replace_assignment-HandsOver 1 2 (some reason) 90 routes replaced_routes replace_assignment_run
