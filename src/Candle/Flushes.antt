-- ===== src/Candle/Flushes.antt =====
-- The writer never hands the database two candles of one key, and never holds a full batch.
use prep_watchdeck.Prelude.{
  ℕ, ◌+◌, ◌<◌, ◌≡◌, ◌≢◌, refl, inl, inr, Bool, true, false, Option, none, some, List, [], ◌∷◌,
  arith, leb, Bool-cases, length, Result, ok, err, Option-cases, ◌>>=◌, filter,
}
use prep_watchdeck.Candle.{Candle1m}
use prep_watchdeck.Candle.Store.{
  CandleRow, StoreFault, CandleStoreResult, duplicate_keys, upsert_candles, store_known, upsert_row,
  upsert_all, version_of, has_duplicate,
}
use prep_watchdeck.Candle.Store
use prep_watchdeck.Candle.Writer.{
  CandleWriter, FlushInput, put_preferred, sort_by_key, flush_batch, flush, stored_result,
  store_batch,
}
use prep_watchdeck.Candle.Run.{
  create, RunEnd, goes_on, returned, raised, waits, after_flush, on_candle, iterate, proceed,
  cleared, take_item, on_timeout,
}
use prep_watchdeck.Candle.Unique.{
  UniqueKeys, put_preferred-UniqueKeys, sort_by_key-UniqueKeys, filter-UniqueKeys,
  UniqueKeys-has_duplicate,
}

-- between two iterations
pub record IsTidy (w : CandleWriter) : Type 0 where
  pub unique : UniqueKeys w.pending
  pub room : length w.pending < w.batch_size

-- What an iteration may end in: a tidy writer, or an error other than duplicate keys.
abbrev pub EndsTidy : RunEnd → Type 0
EndsTidy (goes_on w rows) = IsTidy w
EndsTidy (returned w rows) = IsTidy w
EndsTidy (raised e) = e ≢ duplicate_keys
EndsTidy waits = Unit

then_not_duplicate :
    {A B : Type 0} (r : Result StoreFault A) (f : A → B)
    → r ≢ err duplicate_keys
    → (r >>= λ x. ok (f x)) ≢ err duplicate_keys
then_not_duplicate (ok x) f n h = absurd (cc)
then_not_duplicate (err e) f n h = n (ground (arith, h))

all_not_duplicate :
    (versions : List Store.InstrumentVersion) (batch : List Candle1m) (rows : List CandleRow)
    → upsert_all versions batch rows ≢ err duplicate_keys
unfolding upsert_all
all_not_duplicate versions [] rows = λ h. absurd (cc)
all_not_duplicate versions (c ∷ batch) rows = elim (Option-cases (version_of versions c)) [
  | inl e ↦ rw e (λ h. absurd (cc))
  | inr (w, e) ↦ rw e (
      let rows' = upsert_row w c rows in
      then_not_duplicate (upsert_all versions batch rows'.0) (λ x. (x.0, rows'.1 + x.1))
        (all_not_duplicate versions batch rows'.0))
]

known_not_duplicate :
    (versions : List Store.InstrumentVersion) (batch : List Candle1m) (rows : List CandleRow)
    → store_known versions batch rows ≢ err duplicate_keys
unfolding store_known
known_not_duplicate versions batch rows =
    elim (Bool-cases (Store.is_nil (filter (λ c. Store.is_none (version_of versions c)) batch))) [
      | inr e ↦ rw e (λ h. absurd (cc))
      | inl e ↦ rw e (
          then_not_duplicate (upsert_all versions batch rows) _
            (all_not_duplicate versions batch rows))
    ]

upsert_not_duplicate :
    (versions : List Store.InstrumentVersion) (batch : List Candle1m) (rows : List CandleRow)
    (e : StoreFault)
    → has_duplicate batch ≡ false
    → upsert_candles versions batch rows ≡ err e
    → e ≢ duplicate_keys
unfolding upsert_candles
upsert_not_duplicate versions batch rows e u h d =
    ground (arith, u, known_not_duplicate versions batch rows)

stored_not_duplicate :
    (r : Result StoreFault (CandleStoreResult × List CandleRow)) (e : StoreFault)
    → ((x : StoreFault) → r ≡ err x → x ≢ duplicate_keys)
    → stored_result r ≡ err e
    → e ≢ duplicate_keys
stored_not_duplicate (ok x) e n h = absurd (cc)
stored_not_duplicate (err x) e n h = n e (ground (arith, h))

batch_not_duplicate :
    (i : FlushInput) (batch : List Candle1m) (rows : List CandleRow) (e : StoreFault)
    → has_duplicate batch ≡ false
    → store_batch i batch rows ≡ err e
    → e ≢ duplicate_keys
unfolding store_batch
batch_not_duplicate i [] rows e u h = absurd (cc)
batch_not_duplicate i (c ∷ batch) rows e u h =
    stored_not_duplicate (upsert_candles i.versions (c ∷ batch) rows) e
      (λ x k. upsert_not_duplicate i.versions (c ∷ batch) rows x u k) h

flush_not_duplicate :
    (i : FlushInput) (pending : List Candle1m) (rows : List CandleRow) (e : StoreFault)
    → UniqueKeys pending
    → flush i pending rows ≡ err e
    → e ≢ duplicate_keys
unfolding flush
flush_not_duplicate i [] rows e u h = absurd (cc)
flush_not_duplicate i (c ∷ pending) rows e u h =
    batch_not_duplicate i (flush_batch i (c ∷ pending)) rows e
      (UniqueKeys-has_duplicate _
        (filter-UniqueKeys _ (sort_by_key (c ∷ pending)) (sort_by_key-UniqueKeys (c ∷ pending) u)))
      h

module _ (next : CandleWriter → List CandleRow → RunEnd)
    (tidy : (w : CandleWriter) (rows : List CandleRow) → IsTidy w → EndsTidy (next w rows)) where
  proceed-EndsTidy :
      (w : CandleWriter) (r : Result StoreFault (Option CandleStoreResult × List CandleRow))
      → 0 < w.batch_size
      → ((e : StoreFault) → r ≡ err e → e ≢ duplicate_keys)
      → EndsTidy (proceed next w r)
  proceed-EndsTidy w (err e) p n = n e refl
  proceed-EndsTidy w (ok (stored, rows)) p n =
      tidy (cleared w) rows (record { unique = tt; room = p })

  after_flush-EndsTidy :
      (i : FlushInput) (w : CandleWriter) (rows : List CandleRow)
      → 0 < w.batch_size
      → UniqueKeys w.pending
      → EndsTidy (after_flush next i w rows)
  unfolding after_flush
  after_flush-EndsTidy i w rows p u =
      proceed-EndsTidy w (flush i w.pending rows) p
        (λ e h. flush_not_duplicate i w.pending rows e u h)

on_candle-EndsTidy :
    (i : FlushInput) (c : Candle1m) (w : CandleWriter) (rows : List CandleRow)
    → IsTidy w
    → EndsTidy (on_candle i c w rows)
unfolding on_candle
on_candle-EndsTidy i c w rows h =
    let w' : CandleWriter = record w {
      received = w.received + 1;
      pending = put_preferred c w.pending;
    } in
    let u : UniqueKeys w'.pending = put_preferred-UniqueKeys c w.pending h.unique in
    elim (Bool-cases (leb w.batch_size (length (put_preferred c w.pending)))) [
      | inl e ↦
          simp e (after_flush-EndsTidy goes_on (λ v r t. t) i w' rows (omega (arith, h.room)) u)
      | inr e ↦ simp e (record { unique = u; room = ground (arith, e) })
    ]

take_item-EndsTidy :
    (i : FlushInput) (queue : List (Option Candle1m)) (w : CandleWriter) (rows : List CandleRow)
    → IsTidy w
    → EndsTidy (take_item i queue w rows)
unfolding take_item
take_item-EndsTidy i [] w rows h = tt
take_item-EndsTidy i (none ∷ queue) w rows h =
    after_flush-EndsTidy returned (λ v r t. t) i (record w { queue = queue }) rows
      (omega (arith, h.room)) h.unique
take_item-EndsTidy i (some c ∷ queue) w rows h =
    on_candle-EndsTidy i c (record w { queue = queue }) rows
      (record { unique = h.unique; room = h.room })

-- From a writer whose pending candles have distinct keys and are fewer than a batch, an iteration of
-- the loop (a timeout, a candle or the end mark) leads to such a writer again, or raises an error of
-- the store that is never the one on duplicate keys.
pub iterate-EndsTidy :
    (timed_out : Bool) (i : FlushInput) (w : CandleWriter) (rows : List CandleRow)
    → IsTidy w
    → EndsTidy (iterate timed_out i w rows)
unfolding iterate on_timeout
iterate-EndsTidy true i w rows h =
    after_flush-EndsTidy goes_on (λ v r t. t) i w rows (omega (arith, h.room)) h.unique
iterate-EndsTidy false i w rows h = take_item-EndsTidy i w.queue w rows h

pub create-IsTidy :
    (size micros : ℕ) (has_lock has_starts : Bool) (w : CandleWriter)
    → create size micros has_lock has_starts ≡ ok w
    → IsTidy w
unfolding create
create-IsTidy size micros has_lock has_starts w h =
    let e : (w.pending ≡ []) × (0 < w.batch_size) = ground arith in
    record { unique = simp (e.0) tt; room = simp (e.0) (e.1) }
