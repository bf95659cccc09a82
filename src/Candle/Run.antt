-- ===== src/Candle/Run.antt =====
-- `add`, `close` and the loop `run` of `CandleBatchWriter`, one iteration at a time.
use prep_watchdeck.Prelude.{
  ℕ, ◌+◌, Bool, true, false, not, Option, none, some, List, [], ◌∷◌, ◌++◌, leb, ltb, ◌==◌, ◌||◌,
  if◌then◌else◌, filter, map, length, Result, ok, err, raise_if, ◌>>◌,
}
use prep_watchdeck.Candle.{Candle1m}
use prep_watchdeck.Candle.Store.{CandleRow, StoreFault, CandleStoreResult}
use prep_watchdeck.Candle.Writer.{
  CandleWriter, FlushInput, VersionStart, covered_if, put_preferred, flush,
}

pub data WriterFault : Type 0 where
  bad_settings is_closed : WriterFault

-- `__init__`; times in microseconds. A supplier of version starts wants the catalog lock.
unfoldable pub create : ℕ → ℕ → Bool → Bool → Result WriterFault CandleWriter
create batch_size flush_micros has_lock has_starts = do
  raise_if (batch_size == 0 || ltb 250 batch_size) bad_settings
  raise_if (flush_micros == 0 || ltb 1000000 flush_micros) bad_settings
  raise_if (if has_starts then not has_lock else false) bad_settings
  ok (record { batch_size = batch_size; queue = []; closed = false; pending = []; received = 0 })

unfoldable pub add :
    Option (List VersionStart) → List Candle1m → CandleWriter → Result WriterFault CandleWriter
add starts candles w =
    if w.closed
    then err is_closed
    else ok (record w { queue = w.queue ++ map (λ c. some c) (filter (covered_if starts) candles) })

unfoldable pub close : CandleWriter → CandleWriter
close w = if w.closed then w else record w { closed = true; queue = w.queue ++ none ∷ [] }

-- how an iteration of `run` ends
pub data RunEnd : Type 0 where
  goes_on : CandleWriter → List CandleRow → RunEnd
  returned : CandleWriter → List CandleRow → RunEnd
  raised : StoreFault → RunEnd
  -- the queue is empty and the wait has not timed out
  waits : RunEnd

abbrev pub cleared : CandleWriter → CandleWriter
cleared w = record w { pending = []; received = 0 }

abbrev pub proceed :
    (CandleWriter → List CandleRow → RunEnd)
    → CandleWriter
    → Result StoreFault (Option CandleStoreResult × List CandleRow)
    → RunEnd
proceed next w (err e) = raised e
proceed next w (ok (stored, rows)) = next (cleared w) rows

-- `_flush` clears the pending candles before it stores them
unfoldable pub after_flush :
    (CandleWriter → List CandleRow → RunEnd) → FlushInput → CandleWriter → List CandleRow → RunEnd
after_flush next i w rows = proceed next w (flush i w.pending rows)

-- the wait of the queue timed out
unfoldable pub on_timeout : FlushInput → CandleWriter → List CandleRow → RunEnd
unfolding after_flush
on_timeout i w rows = after_flush goes_on i w rows

-- a candle from the queue
unfoldable pub on_candle : FlushInput → Candle1m → CandleWriter → List CandleRow → RunEnd
unfolding after_flush
on_candle i c w rows =
    let w' = record w { received = w.received + 1; pending = put_preferred c w.pending } in
    if leb w'.batch_size (length w'.pending) then after_flush goes_on i w' rows else goes_on w' rows

unfoldable pub take_item :
    FlushInput → List (Option Candle1m) → CandleWriter → List CandleRow → RunEnd
unfolding after_flush on_candle
take_item i [] w rows = waits
take_item i (none ∷ queue) w rows = after_flush returned i (record w { queue = queue }) rows
take_item i (some c ∷ queue) w rows = on_candle i c (record w { queue = queue }) rows

-- one iteration: `true` where the wait times out
unfoldable pub iterate : Bool → FlushInput → CandleWriter → List CandleRow → RunEnd
unfolding on_timeout take_item
iterate true i w rows = on_timeout i w rows
iterate false i w rows = take_item i w.queue w rows
