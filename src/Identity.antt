-- ===== src/Identity.antt =====
-- The grouping of instruments into markets:
-- apps/market-core/src/prep_watchdeck_market/identity.py.
pub mod Groups
mod Tests
use prep_watchdeck.Prelude.{
  ℕ, Bool, true, false, not, ◌&&◌, ◌||◌, List, [], ◌∷◌, String, Option, none, some, any, count,
  filter, map, ltb, if◌then◌else◌,
}
use prep_watchdeck.Text.{str_eq}
use prep_watchdeck.Venue.{Venue, bitget, hyperliquid, aster, mexc, venue_eq}
use prep_watchdeck.Catalog.{
  CatalogInstrument, is_base_unit, is_unknown_unit, has_multiplier_one, is_text, IdentityEvidence,
  quantity_normalizable, Multiplier,
}

pub data MappingMethod : Type 0 where
  exact_base_heuristic verified_native_contract : MappingMethod

pub data UnmappedReason : Type 0 where
  inactive asset_class_not_crypto market_type_not_linear_perpetual base_asset_missing :
      UnmappedReason
  alias_required quantity_unit_unknown quantity_unit_not_base : UnmappedReason
  contract_multiplier_unknown contract_multiplier_not_one same_venue_collision : UnmappedReason

-- `crypto:{base}:linear-perp` and `native:{venue}:{symbol}:linear-perp`
pub data GroupId : Type 0 where
  crypto : String → GroupId
  native : Venue → String → GroupId

pub record IdentityResolution : Type 0 where
  -- the two parts of `venue_instrument_id`
  pub venue : Venue
  pub source_symbol : String
  pub group_id : Option GroupId
  pub mapping_method : Option MappingMethod
  pub unmapped_reason : Option UnmappedReason

abbrev scope_is_native : Option IdentityEvidence → Bool
scope_is_native none = false
scope_is_native (some e) = is_text "native_only" e.identity_scope

unfoldable pub native_only_identity : CatalogInstrument → Bool
native_only_identity i = venue_eq i.venue mexc && scope_is_native i.raw_definition.identity_evidence

abbrev multiplier_reason : Option Multiplier → Option UnmappedReason
multiplier_reason none = some contract_multiplier_unknown
multiplier_reason (some m) =
    if not (has_multiplier_one (some m)) then some contract_multiplier_not_one else none

unfoldable pub individual_unmapped_reason : CatalogInstrument → Option UnmappedReason
individual_unmapped_reason i =
    if not i.active
    then some inactive
    else if not (str_eq i.asset_class "crypto")
    then some asset_class_not_crypto
    else if not (str_eq i.market_type "linear_perpetual")
    then some market_type_not_linear_perpetual
    else if str_eq i.base_asset ""
    then some base_asset_missing
    else if i.raw_definition.alias_required
    then some alias_required
    else if venue_eq i.venue mexc && quantity_normalizable i
    then none
    else if is_unknown_unit i.quantity_unit
    then some quantity_unit_unknown
    else if not (is_base_unit i.quantity_unit)
    then some quantity_unit_not_base
    else multiplier_reason i.contract_multiplier

abbrev pub is_none {ℓ} : {A : Type ℓ} → Option A → Bool
is_none none = true
is_none (some a) = false

-- an instrument that is counted under its base and venue
unfoldable pub is_candidate : CatalogInstrument → Bool
is_candidate i = is_none (individual_unmapped_reason i) && not (native_only_identity i)

abbrev pub is_candidate_of : String → Venue → CatalogInstrument → Bool
is_candidate_of base venue i = is_candidate i && str_eq i.base_asset base && venue_eq i.venue venue

-- whether the base is in `collision_bases`: a count above 1 at some venue
unfoldable pub collides : List CatalogInstrument → String → Bool
collides ordered base =
    any (λ v. ltb 1 (count (is_candidate_of base v) ordered))
      (bitget ∷ hyperliquid ∷ aster ∷ mexc ∷ [])

-- the individual reason, or the collision
unfoldable pub final_reason : List CatalogInstrument → CatalogInstrument → Option UnmappedReason
final_reason ordered i =
    if is_none (individual_unmapped_reason i)
      && not (native_only_identity i)
      && collides ordered i.base_asset
    then some same_venue_collision
    else individual_unmapped_reason i

abbrev mapped : CatalogInstrument → IdentityResolution
mapped i = record {
  venue = i.venue;
  source_symbol = i.source_symbol;
  group_id =
      some (if native_only_identity i then native i.venue i.source_symbol else crypto i.base_asset);
  mapping_method =
      some (if venue_eq i.venue mexc then verified_native_contract else exact_base_heuristic);
  unmapped_reason = none;
}

abbrev resolution : CatalogInstrument → Option UnmappedReason → IdentityResolution
resolution i (some reason) = record {
  venue = i.venue;
  source_symbol = i.source_symbol;
  group_id = none;
  mapping_method = none;
  unmapped_reason = some reason;
}
resolution i none = mapped i

unfoldable pub resolve : List CatalogInstrument → CatalogInstrument → IdentityResolution
unfolding final_reason
resolve ordered i = resolution i (final_reason ordered i)

unfoldable pub resolve_market_groups : List CatalogInstrument → List IdentityResolution
unfolding resolve
resolve_market_groups ordered = map (resolve ordered) ordered
