-- ===== src/CatalogStore.antt =====
-- The store of a venue's catalog: `persist_catalog` of
-- apps/market-core/src/prep_watchdeck_market/catalog_store.py, as one transaction on rows.
-- Validate has its checks of the input, Versions the versions of the instruments, Identities the
-- groups. The collector run, documentation links and details of a row are left out.
pub mod Validate
pub mod Versions
pub mod Identities
pub mod Persist
pub mod Exact
pub mod Persisted
pub mod Stays
pub mod Repeat
pub mod Current
mod Tests
use prep_watchdeck.Prelude.{
  ℕ, Bool, true, false, String, Option, none, some, List, leb, Result, ok, err, raise_if, ◌&&◌,
}
use prep_watchdeck.Time.{DateTime}
use prep_watchdeck.Text.{str_eq}
use prep_watchdeck.Venue.{Venue, venue_eq}
use prep_watchdeck.Catalog.{CatalogInstrument}
use prep_watchdeck.Identity.{GroupId, MappingMethod, UnmappedReason}

pub record SourceCapability : Type 0 where
  pub venue : Venue
  pub capability : String
  pub available : Bool

pub record CatalogExclusion : Type 0 where
  pub venue : Venue
  pub source_symbol : Option String
  pub reason : String

-- `CatalogBatch` with its provenance; `raw_payload` is its canonical JSON text
pub record CatalogBatch : Type 0 where
  pub venue : Venue
  pub endpoint : String
  pub observed_at : DateTime
  pub source_at : Option DateTime
  pub payload_hash : String
  pub raw_payload : String
  pub instruments : List CatalogInstrument
  pub capabilities : List SourceCapability
  pub exclusions : List CatalogExclusion

-- a row of `raw_catalog_payloads`
pub record RawCatalog : Type 0 where
  pub id : ℕ
  pub venue : Venue
  pub endpoint : String
  pub payload_hash : String
  pub observed_at : ℕ
  pub last_observed_at : ℕ

-- a row of `catalog_exclusions`
pub record ExclusionRow : Type 0 where
  pub raw_payload : ℕ
  pub source_symbol : Option String
  pub reason : String

-- a row of `venue_instrument_versions`
pub record CatalogRow : Type 0 where
  pub version : ℕ
  pub definition_hash : String
  pub valid_from : ℕ
  pub valid_to : Option ℕ
  pub instrument : CatalogInstrument

-- a row of `capabilities`
pub record CapabilityRow : Type 0 where
  pub venue : Venue
  pub capability : String
  pub available : Bool
  pub observed_at : ℕ

-- a row of `market_groups`
pub record GroupRow : Type 0 where
  pub group_id : GroupId
  pub base_asset : String
  pub asset_class : String
  pub market_type : String
  pub updated_at : ℕ

-- a row of `identity_resolutions`
pub record IdentityRow : Type 0 where
  pub id : ℕ
  pub version : ℕ
  pub group_id : Option GroupId
  pub mapping_method : Option MappingMethod
  pub unmapped_reason : Option UnmappedReason
  pub valid_from : ℕ
  pub valid_to : Option ℕ

-- a row of `group_memberships`
pub record MembershipRow : Type 0 where
  pub id : ℕ
  pub version : ℕ
  pub group_id : GroupId
  pub mapping_method : MappingMethod
  pub valid_from : ℕ
  pub valid_to : Option ℕ

-- the tables, and the next values of their identity columns
pub record CatalogTables : Type 0 where
  pub raw_payloads : List RawCatalog
  pub exclusions : List ExclusionRow
  pub versions : List CatalogRow
  pub capabilities : List CapabilityRow
  pub groups : List GroupRow
  pub identities : List IdentityRow
  pub memberships : List MembershipRow
  pub next_raw : ℕ
  pub next_version : ℕ
  pub next_identity : ℕ
  pub next_membership : ℕ

pub record CatalogStoreResult : Type 0 where
  pub raw_payload_id : ℕ
  pub raw_payload_inserted : Bool
  pub exclusions_inserted : ℕ
  pub instrument_versions_created : ℕ
  pub instrument_versions_unchanged : ℕ
  pub instrument_versions_closed : ℕ
  pub capabilities_upserted : ℕ
  pub identity_resolutions_created : ℕ
  pub memberships_opened : ℕ
  pub memberships_closed : ℕ

pub data CatalogFault : Type 0 where
  -- `ValueError`
  naive_time bad_hash no_instruments wrong_venue duplicate_symbol empty_reason : CatalogFault
  duplicate_identity bad_unmapped bad_mapped not_covering : CatalogFault
  -- `CatalogStoreError`: a change that is not later, a conflicting group, or a constraint of a table
  not_later group_conflict second_version bad_number bad_interval second_membership : CatalogFault

-- `valid_to IS NULL`
abbrev pub is_open : Option ℕ → Bool
is_open none = true
is_open (some at) = false

-- `_require_later`
abbrev pub require_later : ℕ → ℕ → Result CatalogFault Unit
require_later observed valid_from = raise_if (leb observed valid_from) not_later

-- whether a row is of an instrument
abbrev pub is_of : Venue → String → CatalogInstrument → Bool
is_of venue symbol i = venue_eq i.venue venue && str_eq i.source_symbol symbol

-- the open rows of an instrument
abbrev pub is_current : Venue → String → CatalogRow → Bool
is_current venue symbol r = is_open r.valid_to && is_of venue symbol r.instrument
