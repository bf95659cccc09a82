-- ===== src/Candle/Tests.antt =====
-- A minute of candles on concrete rows, and the theorems at them.
use prep_watchdeck.Prelude.{ℕ, ◌≡◌, refl, true, false, none, some, List, [], ◌∷◌, arith, ok, err}
use prep_watchdeck.Time.{DateTime, utc}
use prep_watchdeck.Decimal.{plus}
use prep_watchdeck.Venue.{bitget, mexc}
use prep_watchdeck.Candle.{
  Candle1m, CandleFinality, confirmed, derived_final, post_init, check_times, check_prices,
  same_key,
}
use prep_watchdeck.Candle.Shape.{IsOhlc, IsTimed, post_init_shape}
use prep_watchdeck.Candle.Store.{
  InstrumentVersion, CandleRow, CandleStoreResult, unknown_instruments, value, upsert_all,
  upsert_candles, store_known, has_duplicate, version_of, covers,
}
use prep_watchdeck.Candle.Writer.{CandleWriter, FlushInput, sort_by_key}
use prep_watchdeck.Candle.Run.{iterate}
use prep_watchdeck.Candle.Flushes.{EndsTidy, iterate-EndsTidy}
use prep_watchdeck.Candle.Batching.{store_each, batching_equivalence}
use prep_watchdeck.Candle.Received.{receive}

abbrev at_micros : ℕ → DateTime
at_micros n = record { instant = n; zone = utc }

-- a candle of the minute 60000000
abbrev candle : CandleFinality → ℕ → Candle1m
candle f observed = record {
  venue = bitget;
  source_symbol = "BTCUSDT";
  bucket_start = at_micros 60000000;
  open_price = plus 100;
  high_price = plus 120;
  low_price = plus 90;
  close_price = plus 95;
  volume_base = some (plus 7);
  volume_notional = none;
  trade_count = none;
  finality = f;
  source_at = none;
  observed_at = at_micros observed;
  finalized_at = some (at_micros 130000000);
  source_contract_multiplier = none;
}

post_init_shape_example : IsOhlc (candle confirmed 125000000) × IsTimed (candle confirmed 125000000)
unfolding post_init check_times check_prices
post_init_shape_example = post_init_shape (candle confirmed 125000000) refl

abbrev version : InstrumentVersion
version = record {
  id = 4;
  venue = bitget;
  source_symbol = "BTCUSDT";
  valid_from = 0;
  valid_to = none;
  contract_multiplier = none;
}

abbrev input : FlushInput
input = record { active_ids = none; version_starts = none; versions = version ∷ [] }

abbrev writer : CandleWriter
writer = record {
  batch_size = 1;
  queue = some (candle confirmed 125000000) ∷ none ∷ [];
  closed = true;
  pending = [];
  received = 0;
}

iterate-EndsTidy_example : EndsTidy (iterate false input writer [])
iterate-EndsTidy_example =
    iterate-EndsTidy false input writer [] (record { unique = tt; room = omega arith })

-- a MEXC version, which a candle finds by its multiplier too
abbrev mexc_version : InstrumentVersion
mexc_version = record {
  id = 5;
  venue = mexc;
  source_symbol = "BTC_USDT";
  valid_from = 0;
  valid_to = none;
  contract_multiplier = some (plus 10);
}

abbrev mexc_candle : Candle1m
mexc_candle = record (candle derived_final 122000000) {
  venue = mexc;
  source_symbol = "BTC_USDT";
  source_contract_multiplier = some (plus 10);
}

abbrev versions : List InstrumentVersion
versions = version ∷ mexc_version ∷ []

abbrev received : List Candle1m
received =
    candle derived_final 121000000
    ∷ mexc_candle
    ∷ candle confirmed 123000000
    ∷ candle derived_final 124000000
    ∷ []

-- With a candle of another multiplier the whole batch is refused.
unknown_refused :
    upsert_candles versions
      (candle confirmed 125000000
        ∷ record mexc_candle { source_contract_multiplier = some (plus 20) }
        ∷ [])
      []
    ≡ err (
        unknown_instruments
          (record mexc_candle { source_contract_multiplier = some (plus 20) } ∷ []))
unfolding upsert_candles store_known upsert_all has_duplicate version_of covers same_key
unknown_refused = refl

batching_equivalence_example :
    (batch : CandleStoreResult × List CandleRow) × (each : List CandleRow) × (upsert_candles
        versions
        (sort_by_key (receive received []))
        []
      ≡ ok batch)
    × (store_each versions received [] ≡ ok each)
    × ((version bucket : ℕ) → value version bucket batch.1 ≡ value version bucket each)
unfolding version_of covers
batching_equivalence_example =
    batching_equivalence versions received [] ((refl, tt), (tt, tt))
      (refl, (refl, (refl, (refl, tt))))
