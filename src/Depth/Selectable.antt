-- ===== src/Depth/Selectable.antt =====
-- What may be selected can be compared: the check of a selected instrument, and the grouping.
use prep_watchdeck.Prelude.{
  ◌≡◌, true, false, not, ◌&&◌, String, none, arith, Bool-cases, inl, inr, ok, raise_if,
  raise_if-eq-ok, >>-eq-ok,
}
use prep_watchdeck.Text.{str_eq}
use prep_watchdeck.Venue.{mexc, venue_eq}
use prep_watchdeck.Catalog.{
  CatalogInstrument, is_base_unit, has_multiplier_one, quantity_normalizable,
}
use prep_watchdeck.Identity.{individual_unmapped_reason}
use prep_watchdeck.Depth.{
  inactive, not_clob, not_linear, not_usd_like, not_normalizable, is_usd_like, is_usd_like_if,
  validate_selected_instrument,
}

normalizable_units :
    (i : CatalogInstrument)
    → quantity_normalizable i ≡ true
    → venue_eq i.venue mexc ≡ false
    → (is_base_unit i.quantity_unit ≡ true) × (has_multiplier_one i.contract_multiplier ≡ true)
unfolding quantity_normalizable
normalizable_units i h v = ground (arith, h, v)

-- An instrument that may be selected, of class crypto, with a base asset and without need of an
-- alias, has no individual reason to stay without a group.
pub selectable_groups :
    (upper : String → String) (i : CatalogInstrument)
    → validate_selected_instrument upper i ≡ ok tt
    → str_eq i.asset_class "crypto" ≡ true
    → str_eq i.base_asset "" ≡ false
    → i.raw_definition.alias_required ≡ false
    → individual_unmapped_reason i ≡ none
unfolding validate_selected_instrument individual_unmapped_reason
selectable_groups upper i h crypto based no_alias =
    let (h1, r1) = >>-eq-ok (raise_if (not i.active) inactive) _ h in
    let (h2, r2) = >>-eq-ok (raise_if (not (str_eq i.execution_model "clob")) not_clob) _ r1 in
    let (h3, r3) =
      >>-eq-ok (raise_if (not (str_eq i.market_type "linear_perpetual")) not_linear) _ r2 in
    let (h4, r4) =
      >>-eq-ok
        (raise_if
          (not (
            is_usd_like upper i.quote_asset
            && is_usd_like upper i.settle_asset
            && is_usd_like_if upper i.collateral_asset))
          not_usd_like)
        _ r3 in
    let active : i.active ≡ true = ground (arith, raise_if-eq-ok _ inactive h1) in
    let linear : str_eq i.market_type "linear_perpetual" ≡ true =
      ground (arith, raise_if-eq-ok _ not_linear h3) in
    let normal : quantity_normalizable i ≡ true =
      ground (arith, raise_if-eq-ok _ not_normalizable r4) in
    elim (Bool-cases (venue_eq i.venue mexc)) [
      | inl v ↦ ground (arith, active, crypto, linear, based, no_alias, v, normal)
      | inr v ↦
          let units = normalizable_units i normal v in
          ground (arith, active, crypto, linear, based, no_alias, v, units)
    ]
