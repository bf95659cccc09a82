-- ===== src/Venue.antt =====
-- The venues, and the codes of source errors:
-- apps/market-core/src/prep_watchdeck_market/models.py and sources/common.py.
use prep_watchdeck.Prelude.{◌≡◌, Bool, true, false, arith}

pub data Venue : Type 0 where
  bitget hyperliquid aster mexc : Venue

abbrev pub venue_eq : Venue → Venue → Bool
venue_eq bitget bitget = true
venue_eq hyperliquid hyperliquid = true
venue_eq aster aster = true
venue_eq mexc mexc = true
venue_eq _ _ = false

pub venue_eq_sound : (a b : Venue) → venue_eq a b ≡ true → a ≡ b
venue_eq_sound a b h = ground arith

-- `SAFE_SOURCE_ERROR_CODES`
pub data SourceCode : Type 0 where
  bitget_business_429 bitget_business_error fetch_timeout http_429 : SourceCode
  invalid_source_payload source_unavailable : SourceCode

-- What a fetch may raise, as `safe_source_error_code` tells it apart: a `CatalogSourceError` with a
-- safe code or with any other text, a `TimeoutError`, an error with status 429, a `ValueError`, and
-- the rest.
pub data SourceFault : Type 0 where
  catalog_safe : SourceCode → SourceFault
  catalog_other timeout status_429 value_error other : SourceFault

unfoldable pub safe_source_error_code : SourceFault → SourceCode
safe_source_error_code (catalog_safe code) = code
safe_source_error_code catalog_other = source_unavailable
safe_source_error_code timeout = fetch_timeout
safe_source_error_code status_429 = http_429
safe_source_error_code value_error = invalid_source_payload
safe_source_error_code other = source_unavailable
