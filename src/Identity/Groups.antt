-- ===== src/Identity/Groups.antt =====
-- The groups of `resolve_market_groups` hold one instrument of a venue at most, and only instruments
-- whose quantities compare.
use prep_watchdeck.Prelude.{
  ◌≤◌, ◌≡◌, ◌↔◌, refl, Bool, true, false, ◌&&◌, ◌||◌, List, [], ◌∷◌, String, Option, some, count,
  map, arith, inl, inr, Bool-cases,
}
use prep_watchdeck.Text.{str_eq, str_eq_iff}
use prep_watchdeck.Venue.{Venue, bitget, hyperliquid, aster, mexc, venue_eq}
use prep_watchdeck.Catalog.{
  CatalogInstrument, is_base_unit, has_multiplier_one, quantity_normalizable,
}
use prep_watchdeck.Identity.{
  GroupId, crypto, IdentityResolution, native_only_identity, individual_unmapped_reason, is_none,
  is_candidate, is_candidate_of, collides, resolve, resolve_market_groups,
}

abbrev pub is_crypto : String → Option GroupId → Bool
is_crypto base (some (crypto b)) = str_eq b base
is_crypto base _ = false

-- a resolution of the venue in the group of the base
abbrev pub in_group : String → Venue → IdentityResolution → Bool
in_group base venue r = is_crypto base r.group_id && venue_eq r.venue venue

one_candidate :
    (ordered : List CatalogInstrument) (base : String) (venue : Venue)
    → collides ordered base ≡ false
    → count (is_candidate_of base venue) ordered ≤ 1
unfolding collides
one_candidate ordered base bitget c = ground arith
one_candidate ordered base hyperliquid c = ground arith
one_candidate ordered base aster c = ground arith
one_candidate ordered base mexc c = ground arith

module _ (ordered : List CatalogInstrument) (base : String) (venue : Venue) where
  -- what is in the group was counted, and its base does not collide
  grouped_candidate :
      (i : CatalogInstrument)
      → in_group base venue (resolve ordered i) ≡ true
      → (is_candidate_of base venue i ≡ true) × (collides ordered base ≡ false)
  unfolding resolve is_candidate
  grouped_candidate i h = ground (arith, str_eq_iff i.base_asset base)

  grouped-le-candidates :
      (is : List CatalogInstrument)
      → count (in_group base venue) (map (resolve ordered) is)
        ≤ count (is_candidate_of base venue) is
  grouped-le-candidates [] = omega arith
  grouped-le-candidates (i ∷ is) = ground (arith, grouped_candidate i, grouped-le-candidates is)

  no_group_of_collision :
      collides ordered base ≡ true
      → (is : List CatalogInstrument) → count (in_group base venue) (map (resolve ordered) is) ≡ 0
  no_group_of_collision c [] = refl
  no_group_of_collision c (i ∷ is) = ground (arith, grouped_candidate i, no_group_of_collision c is)

  -- A crypto group holds at most one instrument of each venue.
  pub group_unique : count (in_group base venue) (resolve_market_groups ordered) ≤ 1
  unfolding resolve_market_groups
  group_unique = elim (Bool-cases (collides ordered base)) [
    | inl c ↦ omega (arith, no_group_of_collision c ordered)
    | inr c ↦ omega (arith, grouped-le-candidates ordered, one_candidate ordered base venue c)
  ]

-- What an instrument in the group of a base has.
pub record IsComparable (base : String) (i : CatalogInstrument) : Type 0 where
  pub active : i.active ≡ true
  pub class : i.asset_class ≡ "crypto"
  pub market : i.market_type ≡ "linear_perpetual"
  pub asset : i.base_asset ≡ base
  pub alias : i.raw_definition.alias_required ≡ false
  pub quantity :
      (is_base_unit i.quantity_unit && has_multiplier_one i.contract_multiplier
        || quantity_normalizable i)
      ≡ true
  pub not_native : native_only_identity i ≡ false

-- An instrument in a crypto group is an active crypto linear perpetual with exactly that base, needs
-- no alias, is not native-only, and its size is in base units one to one or, for MEXC, converts by
-- evidence.
pub grouped-IsComparable :
    (ordered : List CatalogInstrument) (base : String) (i : CatalogInstrument)
    → is_crypto base (resolve ordered i).group_id ≡ true
    → IsComparable base i
unfolding resolve individual_unmapped_reason
grouped-IsComparable ordered base i h = record {
  active = ground arith;
  class = ground (arith, str_eq_iff i.asset_class "crypto");
  market = ground (arith, str_eq_iff i.market_type "linear_perpetual");
  asset = ground (arith, str_eq_iff i.base_asset base);
  alias = ground arith;
  quantity = ground arith;
  not_native = ground arith;
}

-- one resolution for one instrument, with its id; a group and a method, or a reason, never both
pub record Resolves (i : CatalogInstrument) (r : IdentityResolution) : Type 0 where
  pub venue : r.venue ≡ i.venue
  pub source_symbol : r.source_symbol ≡ i.source_symbol
  pub grouped : (is_none r.group_id ≡ false) ↔ (is_none r.unmapped_reason ≡ true)
  pub method : is_none r.mapping_method ≡ is_none r.group_id

pub data AllResolve : List CatalogInstrument → List IdentityResolution → Type 0 where
  none_left : AllResolve [] []
  one_more :
      {i : CatalogInstrument} {r : IdentityResolution} {is : List CatalogInstrument}
      {rs : List IdentityResolution}
      → Resolves i r
      → AllResolve is rs
      → AllResolve (i ∷ is) (r ∷ rs)

resolve-Resolves :
    (ordered : List CatalogInstrument) (i : CatalogInstrument) → Resolves i (resolve ordered i)
unfolding resolve
resolve-Resolves ordered i = record {
  venue = ground arith;
  source_symbol = ground arith;
  grouped = (λ h. ground arith, λ h. ground arith);
  method = ground arith;
}

AllResolve-map : (ordered is : List CatalogInstrument) → AllResolve is (map (resolve ordered) is)
AllResolve-map ordered [] = none_left
AllResolve-map ordered (i ∷ is) = one_more (resolve-Resolves ordered i) (AllResolve-map ordered is)

-- The resolutions are those of the instruments, one for each and in their order; each has a group
-- and a method and no reason, or a reason and neither.
pub resolved-AllResolve :
    (ordered : List CatalogInstrument) → AllResolve ordered (resolve_market_groups ordered)
unfolding resolve_market_groups
resolved-AllResolve ordered = AllResolve-map ordered ordered
