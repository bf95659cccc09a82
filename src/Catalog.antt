-- ===== src/Catalog.antt =====
-- The instruments of the catalog: `CatalogInstrument` and `quantity_normalizable` of
-- apps/market-core/src/prep_watchdeck_market/models.py. Of the raw definition the record holds what
-- the code reads: the two evidence objects, if they are objects, and the alias mark.
use prep_watchdeck.Prelude.{
  ℕ, Bool, true, false, not, ◌&&◌, String, Option, none, some, if◌then◌else◌,
}
use prep_watchdeck.Text.{str_eq}
use prep_watchdeck.Decimal.{Decimal, is_finite, is_positive, is_one}
use prep_watchdeck.Venue.{Venue, mexc, venue_eq}

pub data QuantityUnit : Type 0 where
  base contracts unknown : QuantityUnit

abbrev pub is_base_unit : QuantityUnit → Bool
is_base_unit base = true
is_base_unit _ = false

abbrev pub is_contracts_unit : QuantityUnit → Bool
is_contracts_unit contracts = true
is_contracts_unit _ = false

abbrev pub is_unknown_unit : QuantityUnit → Bool
is_unknown_unit unknown = true
is_unknown_unit _ = false

-- a decimal with its fixed-point text, `format(value, "f")`
pub record Multiplier : Type 0 where
  pub value : Decimal
  pub text : String

-- `watchdeckIdentityEvidence`: its entries that are texts
pub record IdentityEvidence : Type 0 where
  pub identity_scope : Option String
  pub base_asset : Option String
  pub price_unit : Option String
  pub identity_price_multiplier : Option String

-- `watchdeckQuantityEvidence`
pub record QuantityEvidence : Type 0 where
  pub base_per_contract : Option String

pub record RawDefinition : Type 0 where
  pub identity_evidence : Option IdentityEvidence
  pub quantity_evidence : Option QuantityEvidence
  -- `raw_definition.get("identity_alias_required") is True`
  pub alias_required : Bool

pub record CatalogInstrument : Type 0 where
  pub venue : Venue
  pub source_symbol : String
  pub active : Bool
  pub source_status : String
  pub asset_class : String
  pub market_type : String
  pub execution_model : String
  pub base_asset : String
  pub quote_asset : String
  pub settle_asset : String
  pub collateral_asset : Option String
  pub quantity_unit : QuantityUnit
  pub contract_multiplier : Option Multiplier
  pub price_tick : Option Decimal
  pub amount_step : Option Decimal
  pub funding_interval_seconds : Option ℕ
  pub raw_definition : RawDefinition

abbrev pub is_text : String → Option String → Bool
is_text t none = false
is_text t (some s) = str_eq s t

abbrev pub has_multiplier_one : Option Multiplier → Bool
has_multiplier_one none = false
has_multiplier_one (some m) = is_one m.value

abbrev pub identity_matches : String → Option IdentityEvidence → Bool
identity_matches asset none = false
identity_matches asset (some e) =
    is_text asset e.base_asset
    && is_text "quote_per_base" e.price_unit
    && is_text "1" e.identity_price_multiplier

abbrev pub quantity_matches : Option Multiplier → Option QuantityEvidence → Bool
quantity_matches none e = false
quantity_matches (some m) none = false
quantity_matches (some m) (some e) =
    is_finite m.value && is_positive m.value && is_text m.text e.base_per_contract

unfoldable pub quantity_normalizable : CatalogInstrument → Bool
quantity_normalizable i =
    if not (venue_eq i.venue mexc)
    then is_base_unit i.quantity_unit && has_multiplier_one i.contract_multiplier
    else is_contracts_unit i.quantity_unit
      && quantity_matches i.contract_multiplier i.raw_definition.quantity_evidence
      && identity_matches i.base_asset i.raw_definition.identity_evidence
