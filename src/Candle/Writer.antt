-- ===== src/Candle/Writer.antt =====
-- `CandleBatchWriter` of apps/market-core/src/prep_watchdeck_market/candle_runtime.py: candles are
-- reduced by their key until a flush stores them.
use Prim.Native.Nat.{Ordering}
use Prim.Native.String
use prep_watchdeck.Prelude.{
  ℕ, Bool, true, false, not, ◌&&◌, String, Option, none, some, List, [], ◌∷◌, leb, ltb,
  if◌then◌else◌, any, filter, Result, ok, err,
}
use prep_watchdeck.Text.{str_eq}
use prep_watchdeck.Venue.{Venue, bitget, hyperliquid, aster, mexc, venue_eq}
use prep_watchdeck.Candle.{Candle1m, preferred_candle, same_key}
use prep_watchdeck.Candle.Store.{
  InstrumentVersion, CandleRow, StoreFault, CandleStoreResult, upsert_candles,
}

-- the texts of the venues, in their order
abbrev pub venue_rank : Venue → ℕ
venue_rank aster = 0
venue_rank bitget = 1
venue_rank hyperliquid = 2
venue_rank mexc = 3

abbrev pub str_ltb : String → String → Bool
str_ltb a b = elim (String.compare a b) [ Ordering.lt ↦ true | _ ↦ false ]

-- `a.storage_key < b.storage_key`
unfoldable pub key_before : Candle1m → Candle1m → Bool
key_before a b =
    if not (venue_eq a.venue b.venue)
    then ltb (venue_rank a.venue) (venue_rank b.venue)
    else if not (str_eq a.source_symbol b.source_symbol)
    then str_ltb a.source_symbol b.source_symbol
    else ltb a.bucket_start.instant b.bucket_start.instant

unfoldable pub insert_by_key : Candle1m → List Candle1m → List Candle1m
insert_by_key c [] = c ∷ []
insert_by_key c (d ∷ candles) =
    let rest = insert_by_key c candles in if key_before d c then d ∷ rest else c ∷ d ∷ candles

-- `sorted(pending.values(), key=…)`
unfoldable pub sort_by_key : List Candle1m → List Candle1m
unfolding insert_by_key
sort_by_key [] = []
sort_by_key (c ∷ candles) = insert_by_key c (sort_by_key candles)

-- `pending[item.storage_key] = _preferred_candle(pending.get(item.storage_key), item)`: a new key
-- goes to the end of the dictionary
unfoldable pub put_preferred : Candle1m → List Candle1m → List Candle1m
put_preferred c [] = c ∷ []
put_preferred c (d ∷ pending) =
    let rest = put_preferred c pending in
    if same_key d c then preferred_candle (some d) c ∷ pending else d ∷ rest

-- one entry of the version starts: the instrument and the start
pub record VersionStart : Type 0 where
  pub venue : Venue
  pub source_symbol : String
  pub valid_from : ℕ

abbrev pub is_instrument : Candle1m → VersionStart → Bool
is_instrument c s = venue_eq s.venue c.venue && str_eq s.source_symbol c.source_symbol

-- `_candle_is_covered_by_current_version`: the keys of the mapping are distinct
unfoldable pub is_covered : List VersionStart → Candle1m → Bool
is_covered starts c = any (λ s. is_instrument c s && leb s.valid_from c.bucket_start.instant) starts

abbrev pub covered_if : Option (List VersionStart) → Candle1m → Bool
covered_if none c = true
covered_if (some starts) c = is_covered starts c

-- `active_ids is None or item.venue_instrument_id in active_ids`
abbrev pub active_if : Option (List (Venue × String)) → Candle1m → Bool
active_if none c = true
active_if (some ids) c = any (λ i. venue_eq i.0 c.venue && str_eq i.1 c.source_symbol) ids

-- what the suppliers and the database answer at a flush
pub record FlushInput : Type 0 where
  pub active_ids : Option (List (Venue × String))
  pub version_starts : Option (List VersionStart)
  pub versions : List InstrumentVersion

pub record CandleWriter : Type 0 where
  pub batch_size : ℕ
  pub queue : List (Option Candle1m)
  pub closed : Bool
  pub pending : List Candle1m
  pub received : ℕ

-- the batch of a flush
unfoldable pub flush_batch : FlushInput → List Candle1m → List Candle1m
unfolding sort_by_key
flush_batch i pending =
    filter (λ c. active_if i.active_ids c && covered_if i.version_starts c) (sort_by_key pending)

abbrev pub stored_result :
    Result StoreFault (CandleStoreResult × List CandleRow)
    → Result StoreFault (Option CandleStoreResult × List CandleRow)
stored_result (ok (r, rows)) = ok (some r, rows)
stored_result (err e) = err e

-- an empty batch is not stored
unfoldable pub store_batch :
    FlushInput
    → List Candle1m
    → List CandleRow
    → Result StoreFault (Option CandleStoreResult × List CandleRow)
store_batch i [] rows = ok (none, rows)
store_batch i (c ∷ batch) rows = stored_result (upsert_candles i.versions (c ∷ batch) rows)

-- `_flush` and `_flush_current`
unfoldable pub flush :
    FlushInput
    → List Candle1m
    → List CandleRow
    → Result StoreFault (Option CandleStoreResult × List CandleRow)
unfolding flush_batch store_batch
flush i [] rows = ok (none, rows)
flush i (c ∷ pending) rows = store_batch i (flush_batch i (c ∷ pending)) rows
