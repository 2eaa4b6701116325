-- ===== src/Properties/Numbered.antt =====
-- The versions of a property are numbered without a gap, and one of its configurations is approved at
-- most.
pub mod Steps
use digital_real_estate_engi.Common.{
  ℕ, ◌≡◌, inl, inr, sym, Bool, false, Option, none, some, List, ◌&&◌, ◌==◌, leb, arith, Bool-cases,
  Option-cases, eq_of_==,
}
use mathlib.Core.Path.{subst}
use digital_real_estate_engi.Common.Sum.{sum_of}
use digital_real_estate_engi.Common.Query.{indicator}
use digital_real_estate_engi.Common.Table.{get, touch, IsKeyed, IsKeyed-map, get-touch_key}
use digital_real_estate_engi.Reviews.State.{ReviewActor}
use digital_real_estate_engi.Properties.State.{Property, PropertyVersion}
use digital_real_estate_engi.Properties.Catalog.{Catalog, set_property, version_of, bumped, revise}

abbrev pub is_version : (property_id version : ℕ) → PropertyVersion → Bool
is_version property_id version v = v.property_id == property_id && v.version == version

-- Whether a property has come to a version.
abbrev pub has_reached : ℕ → Option Property → Bool
has_reached version none = false
has_reached version (some p) = leb 1 version && leb version p.current_version

-- Each version up to the current one has one snapshot, and no other number has one.
pub record IsNumbered (properties : List Property) (versions : List PropertyVersion) : Type 0 where
  pub keyed : IsKeyed (λ p. p.id) properties
  pub numbered :
      (property_id version : ℕ)
      → sum_of (λ v. indicator (is_version property_id version v)) versions
        ≡ indicator (has_reached version (get (λ p. p.id) property_id properties))

pub revise-IsNumbered :
    (actor : ReviewActor) (f : Property → Property) (p : Property) (catalog : Catalog)
    → ((q : Property) → (f q).id ≡ q.id)
    → get (λ q. q.id) p.id catalog.properties ≡ some p
    → IsNumbered catalog.properties catalog.versions
    → IsNumbered (revise actor f p catalog).properties (revise actor f p catalog).versions
unfolding revise version_of
revise-IsNumbered actor f p catalog same found sound = record {
  keyed =
      IsKeyed-map (λ q. q.id) (touch (λ q. q.id == p.id) (bumped f)) (λ q. ground (arith, same q))
        catalog.properties sound.keyed;
  numbered = λ i v.
      let before = sound.numbered i v in
      let after = get-touch_key (λ q. q.id) (bumped f) (λ q. same q) p.id i catalog.properties in
      elim (Bool-cases (i == p.id)) [
        | inr other ↦ ground (arith, before, after, other, same p)
        | inl is ↦
            let row =
              subst (λ k. get (λ q. q.id) k catalog.properties ≡ some p) (sym (eq_of_== _ _ is))
                found in
            ground (arith, before, after, is, same p, row)
      ];
}

-- A write that leaves the version alone.
pub set_property-IsNumbered :
    (i : ℕ) (f : Property → Property) (catalog : Catalog)
    → ((q : Property) → (f q).id ≡ q.id)
    → ((q : Property) → (f q).current_version ≡ q.current_version)
    → IsNumbered catalog.properties catalog.versions
    → IsNumbered (set_property i f catalog).properties catalog.versions
set_property-IsNumbered i f catalog same keeps sound = record {
  keyed =
      IsKeyed-map (λ q. q.id) (touch (λ q. q.id == i) f) (λ q. ground (arith, same q))
        catalog.properties sound.keyed;
  numbered = λ k v.
      let before = sound.numbered k v in
      let after = get-touch_key (λ q. q.id) f same i k catalog.properties in
      elim (Option-cases (get (λ q. q.id) k catalog.properties)) [
        | inl absent ↦ ground (arith, before, after, absent)
        | inr (q, row) ↦ ground (arith, before, after, row, keeps q)
      ];
}
