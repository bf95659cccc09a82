-- ===== src/CatalogStore/Validate.antt =====
-- The checks of the input: `_validate_input` of catalog_store.py. `sha256` is the digest of a text.
use prep_watchdeck.Prelude.{
  Bool, true, false, not, ◌&&◌, ◌||◌, String, Option, none, some, List, [], ◌∷◌, any, all, Result,
  ok, ◌>>◌, raise_if,
}
use prep_watchdeck.Time.{DateTime, naive, Zone}
use prep_watchdeck.Text.{str_eq}
use prep_watchdeck.Venue.{Venue, venue_eq}
use prep_watchdeck.Catalog.{CatalogInstrument}
use prep_watchdeck.Identity.{IdentityResolution, is_none}
use prep_watchdeck.CatalogStore.{
  CatalogBatch, CatalogExclusion, CatalogFault, SourceCapability, naive_time, bad_hash,
  no_instruments, wrong_venue, duplicate_symbol, empty_reason, duplicate_identity, bad_unmapped,
  bad_mapped, not_covering, is_of,
}

-- `value.tzinfo is None`, of a time whose `tzinfo` has an offset if there is one
abbrev pub is_naive : Zone → Bool
is_naive naive = true
is_naive _ = false

abbrev pub is_naive_if : Option DateTime → Bool
is_naive_if none = false
is_naive_if (some at) = is_naive at.zone

abbrev pub is_empty {ℓ} : {A : Type ℓ} → List A → Bool
is_empty [] = true
is_empty (x ∷ xs) = false

-- the loop over the instruments, with those before
unfoldable pub check_instruments :
    Venue → List CatalogInstrument → List CatalogInstrument → Result CatalogFault Unit
check_instruments venue seen [] = ok tt
check_instruments venue seen (i ∷ instruments) = do
  raise_if (not (venue_eq i.venue venue)) wrong_venue
  raise_if (any (λ s. str_eq s.source_symbol i.source_symbol) seen) duplicate_symbol
  check_instruments venue (i ∷ seen) instruments

unfoldable pub check_capabilities : Venue → List SourceCapability → Result CatalogFault Unit
check_capabilities venue [] = ok tt
check_capabilities venue (c ∷ capabilities) = do
  raise_if (not (venue_eq c.venue venue)) wrong_venue
  check_capabilities venue capabilities

unfoldable pub check_exclusions : Venue → List CatalogExclusion → Result CatalogFault Unit
check_exclusions venue [] = ok tt
check_exclusions venue (e ∷ exclusions) = do
  raise_if (not (venue_eq e.venue venue)) wrong_venue
  raise_if (str_eq e.reason "") empty_reason
  check_exclusions venue exclusions

-- whether two resolutions have one `venue_instrument_id`
abbrev pub same_id : IdentityResolution → IdentityResolution → Bool
same_id a b = venue_eq a.venue b.venue && str_eq a.source_symbol b.source_symbol

-- the branch on the group
abbrev pub check_shape : IdentityResolution → Result CatalogFault Unit
check_shape r = elim r.group_id [
  | none ↦ raise_if (not (is_none r.mapping_method) || is_none r.unmapped_reason) bad_unmapped
  | some group ↦ raise_if (is_none r.mapping_method || not (is_none r.unmapped_reason)) bad_mapped
]

-- the loop over the identities, with those before
unfoldable pub check_identities :
    List IdentityResolution → List IdentityResolution → Result CatalogFault Unit
check_identities seen [] = ok tt
check_identities seen (r ∷ identities) = do
  raise_if (any (same_id r) seen) duplicate_identity
  check_shape r
  check_identities (r ∷ seen) identities

-- `set(identity_by_id) == instrument_ids`
abbrev pub is_covering : List CatalogInstrument → List IdentityResolution → Bool
is_covering instruments identities =
    all
      (λ (i : CatalogInstrument).
        any (λ (r : IdentityResolution). is_of r.venue r.source_symbol i) identities)
      instruments
    && all (λ (r : IdentityResolution). any (is_of r.venue r.source_symbol) instruments) identities

unfoldable pub validate_input :
    (String → String) → CatalogBatch → List IdentityResolution → Result CatalogFault Unit
unfolding check_instruments check_capabilities check_exclusions check_identities
validate_input sha256 batch identities = do
  raise_if (is_naive batch.observed_at.zone) naive_time
  raise_if (is_naive_if batch.source_at) naive_time
  raise_if (not (str_eq (sha256 batch.raw_payload) batch.payload_hash)) bad_hash
  raise_if (is_empty batch.instruments) no_instruments
  check_instruments batch.venue [] batch.instruments
  check_capabilities batch.venue batch.capabilities
  check_exclusions batch.venue batch.exclusions
  check_identities [] identities
  raise_if (not (is_covering batch.instruments identities)) not_covering
