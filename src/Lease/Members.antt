-- ===== src/Lease/Members.antt =====
-- Which instruments a selection may use: `_selected_primary_version` and the query of
-- `_selected_versions` of selected_store.py, on the rows of `venue_instrument_versions` and
-- `group_memberships`. `upper` is SQL's `upper`; a multiplier's text is its `::text`.
use prep_watchdeck.Prelude.{
  ℕ, Bool, true, false, not, ◌&&◌, ◌||◌, ◌≡◌, arith, String, Option, none, some, List, [], ◌∷◌, any,
  ◌==◌, if◌then◌else◌, ok, raise_if, raise_if-eq-ok, >>-eq-ok,
}
use prep_watchdeck.Text.{str_eq}
use prep_watchdeck.Decimal.{is_positive, Decimal, plus, minus, infinity, minus_infinity, nan}
use prep_watchdeck.Venue.{Venue, mexc, venue_eq}
use prep_watchdeck.Catalog.{
  CatalogInstrument, Multiplier, IdentityEvidence, QuantityEvidence, is_base_unit,
  is_contracts_unit, has_multiplier_one, is_text, quantity_normalizable,
}
use prep_watchdeck.Lease.Ids.{parse_instrument_id}
use prep_watchdeck.Depth.{
  inactive, not_clob, not_linear, not_usd_like, not_normalizable, is_usd_like, is_usd_like_if,
  validate_selected_instrument,
}

-- a row of `venue_instrument_versions`
pub record VersionRow : Type 0 where
  pub version : ℕ
  pub instrument : CatalogInstrument
  pub valid_to : Option ℕ

-- a row of `group_memberships`
pub record Membership : Type 0 where
  pub group_id : String
  pub version : ℕ
  pub valid_to : Option ℕ

abbrev pub is_open : Option ℕ → Bool
is_open none = true
is_open (some at) = false

-- `contract_multiplier > 0`: in SQL an infinity and a NaN are above 0
abbrev pub sql_positive : Decimal → Bool
sql_positive (plus n) = is_positive (plus n)
sql_positive (minus n) = false
sql_positive infinity = true
sql_positive minus_infinity = false
sql_positive nan = true

abbrev pub multiplier_positive : Option Multiplier → Bool
multiplier_positive none = false
multiplier_positive (some m) = sql_positive m.value

abbrev pub price_unit_matches : Option IdentityEvidence → Bool
price_unit_matches none = false
price_unit_matches (some e) = is_text "quote_per_base" e.price_unit

abbrev pub quantity_text_matches : Option Multiplier → Option QuantityEvidence → Bool
quantity_text_matches none e = false
quantity_text_matches (some m) none = false
quantity_text_matches (some m) (some e) = is_text m.text e.base_per_contract

unfoldable pub quantity_eligible : CatalogInstrument → Bool
quantity_eligible i =
    not (venue_eq i.venue mexc)
      && is_base_unit i.quantity_unit
      && has_multiplier_one i.contract_multiplier
    || venue_eq i.venue mexc
      && is_contracts_unit i.quantity_unit
      && multiplier_positive i.contract_multiplier
      && price_unit_matches i.raw_definition.identity_evidence
      && quantity_text_matches i.contract_multiplier i.raw_definition.quantity_evidence

-- the conditions on the instrument, from `instrument.valid_to IS NULL` on
unfoldable pub is_eligible : (String → String) → VersionRow → Bool
is_eligible upper v =
    is_open v.valid_to
    && v.instrument.active
    && str_eq v.instrument.execution_model "clob"
    && str_eq v.instrument.market_type "linear_perpetual"
    && is_usd_like upper v.instrument.quote_asset
    && is_usd_like upper v.instrument.settle_asset
    && is_usd_like_if upper v.instrument.collateral_asset
    && quantity_eligible v.instrument

abbrev pub is_member : String → List Membership → VersionRow → Bool
is_member group memberships v =
    any (λ m. str_eq m.group_id group && m.version == v.version && is_open m.valid_to) memberships

abbrev pub is_symbol : Venue → String → VersionRow → Bool
is_symbol venue symbol v =
    venue_eq v.instrument.venue venue && str_eq v.instrument.source_symbol symbol

-- the first row of the join; a unique index admits one open version of a symbol
unfoldable pub eligible_version :
    (String → String)
    → String
    → List Membership
    → Venue
    → String
    → List VersionRow
    → Option VersionRow
unfolding is_eligible
eligible_version upper group memberships venue symbol [] = none
eligible_version upper group memberships venue symbol (v ∷ versions) =
    let rest = eligible_version upper group memberships venue symbol versions in
    if is_member group memberships v && is_symbol venue symbol v && is_eligible upper v
    then some v
    else rest

abbrev pub version_of_row : Option VersionRow → Option ℕ
version_of_row none = none
version_of_row (some v) = some v.version

-- `none` where it raises `InvalidSelectionError`
unfoldable pub selected_primary_version :
    (String → String) → String → List Membership → List VersionRow → String → Option ℕ
unfolding eligible_version parse_instrument_id
selected_primary_version upper group memberships versions text = elim (parse_instrument_id text) [
  | none ↦ none
  | some (venue, symbol) ↦
      version_of_row (eligible_version upper group memberships venue symbol versions)
]

normalizable-eligible :
    (i : CatalogInstrument) → quantity_normalizable i ≡ true → quantity_eligible i ≡ true
unfolding quantity_normalizable quantity_eligible
normalizable-eligible i h = ground (arith, h)

-- What `validate_selected_instrument` accepts, the queries of the store accept of an open version,
-- where Python's and SQL's upper case agree.
pub validated_eligible :
    (upper : String → String) (i : CatalogInstrument) (version : ℕ)
    → validate_selected_instrument upper i ≡ ok tt
    → is_eligible upper (record { version = version; instrument = i; valid_to = none }) ≡ true
unfolding validate_selected_instrument is_eligible
validated_eligible upper i version h =
    let (h1, r1) = >>-eq-ok (raise_if (not i.active) inactive) _ h in
    let (h2, r2) = >>-eq-ok (raise_if (not (str_eq i.execution_model "clob")) not_clob) _ r1 in
    let (h3, r3) =
      >>-eq-ok (raise_if (not (str_eq i.market_type "linear_perpetual")) not_linear) _ r2 in
    let (h4, r4) =
      >>-eq-ok
        (raise_if
          (not (
            is_usd_like upper i.quote_asset
            && is_usd_like upper i.settle_asset
            && is_usd_like_if upper i.collateral_asset))
          not_usd_like)
        _ r3 in
    let normal : quantity_normalizable i ≡ true =
      ground (arith, raise_if-eq-ok _ not_normalizable r4) in
    ground (
      arith,
      raise_if-eq-ok _ inactive h1,
      raise_if-eq-ok _ not_clob h2,
      raise_if-eq-ok _ not_linear h3,
      raise_if-eq-ok _ not_usd_like h4,
      normalizable-eligible i normal,
    )
