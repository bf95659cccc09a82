-- ===== src/Candle/Store.antt =====
-- The table of candles: apps/market-core/src/prep_watchdeck_market/candle_store.py. The tables are
-- lists of rows; one call of `upsert_candles` is one database transaction.
use prep_watchdeck.Prelude.{
  ℕ, ◌+◌, ◌-◌, Bool, true, false, not, ◌&&◌, ◌||◌, String, Option, none, some, List, [], ◌∷◌, leb,
  ◌==◌, if◌then◌else◌, any, filter, length, Result, ok, err, ◌>>=◌, ◌>>◌, raise_if,
}
use prep_watchdeck.Time.{minute}
use prep_watchdeck.Text.{str_eq}
use prep_watchdeck.Decimal.{Decimal, plus, minus, infinity, minus_infinity}
use prep_watchdeck.Venue.{Venue, mexc, venue_eq}
use prep_watchdeck.Candle.{Candle1m, gives_way, same_key}

-- a row of `venue_instrument_versions`
pub record InstrumentVersion : Type 0 where
  pub id : ℕ
  pub venue : Venue
  pub source_symbol : String
  pub valid_from : ℕ
  pub valid_to : Option ℕ
  pub contract_multiplier : Option Decimal

-- a row of `candle_1m`; its key is the version and the bucket
pub record CandleRow : Type 0 where
  pub version : ℕ
  pub candle : Candle1m

pub data StoreFault : Type 0 where
  duplicate_keys : StoreFault
  -- the candles whose instruments have no unambiguous version
  unknown_instruments : List Candle1m → StoreFault
  -- the KeyError of `versions[candle.storage_key]`, which the check before the loop rules out
  no_version : StoreFault

pub record CandleStoreResult : Type 0 where
  pub received : ℕ
  pub stored : ℕ
  pub ignored : ℕ

-- `!=` of two decimals or `None`s: a NaN differs from itself
abbrev pub same_decimal : Decimal → Decimal → Bool
same_decimal (plus a) (plus b) = a == b
same_decimal (minus a) (minus b) = a == b
same_decimal infinity infinity = true
same_decimal minus_infinity minus_infinity = true
same_decimal _ _ = false

abbrev pub same_multiplier : Option Decimal → Option Decimal → Bool
same_multiplier none none = true
same_multiplier (some a) (some b) = same_decimal a b
same_multiplier _ _ = false

abbrev pub ends_after : Option ℕ → ℕ → Bool
ends_after none t = true
ends_after (some e) t = leb t e

-- the join of `_versions_covering_candles`: the version is valid for the full minute
unfoldable pub covers : Candle1m → InstrumentVersion → Bool
covers c v =
    venue_eq c.venue v.venue
    && str_eq c.source_symbol v.source_symbol
    && leb v.valid_from c.bucket_start.instant
    && ends_after v.valid_to (c.bucket_start.instant + minute)

-- the one row that covers the candle; none, two, or a MEXC row of another multiplier are ambiguous
abbrev pub unambiguous : Candle1m → List InstrumentVersion → Option ℕ
unambiguous c [] = none
unambiguous c (v ∷ []) =
    if venue_eq c.venue mexc
      && not (same_multiplier c.source_contract_multiplier v.contract_multiplier)
    then none
    else some v.id
unambiguous c (v ∷ w ∷ rows) = none

unfoldable pub version_of : List InstrumentVersion → Candle1m → Option ℕ
unfolding covers
version_of versions c = unambiguous c (filter (covers c) versions)

abbrev pub is_row : ℕ → ℕ → CandleRow → Bool
is_row version bucket r = r.version == version && r.candle.bucket_start.instant == bucket

-- INSERT … ON CONFLICT DO UPDATE … WHERE: the table, and the row count
unfoldable pub upsert_row : ℕ → Candle1m → List CandleRow → List CandleRow × ℕ
upsert_row version c [] = (record { version = version; candle = c } ∷ [], 1)
upsert_row version c (r ∷ rows) =
    let (rest, n) = upsert_row version c rows in
    if is_row version c.bucket_start.instant r
    then (if gives_way r.candle c
        then (record { version = version; candle = c } ∷ rows, 1)
        else (r ∷ rows, 0))
    else (r ∷ rest, n)

abbrev pub upsert_known :
    Option ℕ → Candle1m → List CandleRow → Result StoreFault (List CandleRow × ℕ)
upsert_known none c rows = err no_version
upsert_known (some version) c rows = ok (upsert_row version c rows)

-- the loop over the candles
unfoldable pub upsert_all :
    List InstrumentVersion → List Candle1m → List CandleRow → Result StoreFault (List CandleRow × ℕ)
upsert_all versions [] rows = ok (rows, 0)
upsert_all versions (c ∷ candles) rows = do
  (rows', n) ← upsert_known (version_of versions c) c rows
  (rows'', m) ← upsert_all versions candles rows'
  ok (rows'', n + m)

unfoldable pub has_duplicate : List Candle1m → Bool
has_duplicate [] = false
has_duplicate (c ∷ candles) = any (same_key c) candles || has_duplicate candles

abbrev pub is_none {ℓ} : {A : Type ℓ} → Option A → Bool
is_none none = true
is_none (some a) = false

abbrev pub is_nil {ℓ} : {A : Type ℓ} → List A → Bool
is_nil [] = true
is_nil (x ∷ xs) = false

-- the transaction, once the keys are known to be distinct
unfoldable pub store_known :
    List InstrumentVersion
    → List Candle1m
    → List CandleRow
    → Result StoreFault (CandleStoreResult × List CandleRow)
unfolding upsert_all
store_known versions candles rows = do
  let unknown = filter (λ c. is_none (version_of versions c)) candles
  raise_if (not (is_nil unknown)) (unknown_instruments unknown)
  (rows', stored) ← upsert_all versions candles rows
  ok (
    record { received = length candles; stored = stored; ignored = length candles - stored },
    rows',
  )

unfoldable pub upsert_candles :
    List InstrumentVersion
    → List Candle1m
    → List CandleRow
    → Result StoreFault (CandleStoreResult × List CandleRow)
unfolding store_known has_duplicate
upsert_candles versions candles rows =
    if is_nil candles
    then ok (record { received = 0; stored = 0; ignored = 0 }, rows)
    else if has_duplicate candles
    then err duplicate_keys
    else store_known versions candles rows

-- the candle of a row
unfoldable pub value : ℕ → ℕ → List CandleRow → Option Candle1m
value version bucket [] = none
value version bucket (r ∷ rows) =
    if is_row version bucket r then some r.candle else value version bucket rows
