-- ===== src/Candle/Batching.antt =====
-- Reducing candles by key before they are stored stores what storing each of them would.
use prep_watchdeck.Prelude.{
  ℕ, ◌+◌, ◌≡◌, refl, sym, ap, ◌∙◌, false, ◌&&◌, Option, some, List, [], ◌∷◌, arith, ◌==◌,
  if◌then◌else◌, All, Result, ok, ◌>>=◌, filter, length, ◌-◌,
}
use prep_watchdeck.Candle.{Candle1m, preferred_candle}
use prep_watchdeck.Candle.Store.{
  InstrumentVersion, CandleRow, CandleStoreResult, StoreFault, is_none, upsert_row, upsert_all,
  store_known, upsert_candles, value, version_of,
}
use prep_watchdeck.Candle.Writer.{sort_by_key}
use prep_watchdeck.Candle.Unique.{
  UniqueKeys, UniqueKeys-has_duplicate, sort_by_key-UniqueKeys, All-sort_by_key,
}
use prep_watchdeck.Candle.Received.{
  receive, prefer_if, prefer_all, prefer_all-cong, All-receive, receive-UniqueKeys, sort_prefers,
  receive_prefers,
}
use prep_watchdeck.Candle.Versions.{
  UniqueIds, IsKnown, goes_to, known, key_goes_to, key_goes_to-respects, key_goes_to-single,
  key_goes_to-known,
}

-- After one candle is stored, its row holds the preferred one of what was there and the candle, and
-- every other row is as before.
pub value-upsert_row :
    (version bucket w : ℕ) (c : Candle1m) (rows : List CandleRow)
    → value version bucket (upsert_row w c rows).0 ≡ (
        if w == version && c.bucket_start.instant == bucket
        then some (preferred_candle (value version bucket rows) c)
        else value version bucket rows)
unfolding value upsert_row preferred_candle
value-upsert_row version bucket w c [] = ground arith
value-upsert_row version bucket w c (r ∷ rows) =
    ground (arith, value-upsert_row version bucket w c rows)

-- The reference: every candle in a call of its own, in the order received.
unfoldable pub store_each :
    List InstrumentVersion → List Candle1m → List CandleRow → Result StoreFault (List CandleRow)
store_each versions [] rows = ok rows
store_each versions (c ∷ items) rows = do
  (result, rows') ← upsert_candles versions (c ∷ []) rows
  store_each versions items rows'

-- each row holds what the candles that go to it come to
abbrev pub Stores :
    List InstrumentVersion → List Candle1m → List CandleRow → List CandleRow → Type 0
Stores versions candles rows rows' =
    (version bucket : ℕ)
    → value version bucket rows'
      ≡ prefer_all (goes_to versions version bucket) (value version bucket rows) candles

upsert_row-value :
    (versions : List InstrumentVersion) (version bucket w : ℕ) (c : Candle1m)
    (rows : List CandleRow)
    → version_of versions c ≡ some w
    → value version bucket (upsert_row w c rows).0
      ≡ prefer_if (goes_to versions version bucket c) (value version bucket rows) c
upsert_row-value versions version bucket w c rows e =
    rw (goes_to, e) (ground (arith, value-upsert_row version bucket w c rows))

upsert_all-Stores :
    (versions : List InstrumentVersion) (candles : List Candle1m) (rows : List CandleRow)
    → All (IsKnown versions) candles
    → (x : List CandleRow × ℕ) × (upsert_all versions candles rows ≡ ok x)
      × Stores versions candles rows x.0
unfolding upsert_all prefer_all
upsert_all-Stores versions [] rows k = ((rows, 0), refl, λ version bucket. refl)
upsert_all-Stores versions (c ∷ candles) rows k =
    let (w, e) = known versions c k.0 in
    let row = upsert_row w c rows in
    let (x, eq, stores) = upsert_all-Stores versions candles row.0 k.1 in
    (
      (x.0, row.1 + x.1),
      rw (e, eq) refl,
      λ version bucket.
          stores version bucket
          ∙ ap (λ (o : Option Candle1m). prefer_all (goes_to versions version bucket) o candles)
              (upsert_row-value versions version bucket w c rows e),
    )

no_unknown :
    (versions : List InstrumentVersion) (candles : List Candle1m)
    → All (IsKnown versions) candles
    → filter (λ c. is_none (version_of versions c)) candles ≡ []
no_unknown versions [] k = refl
no_unknown versions (c ∷ candles) k = rw (k.0, no_unknown versions candles k.1) refl

store_known-Stores :
    (versions : List InstrumentVersion) (candles : List Candle1m) (rows : List CandleRow)
    → All (IsKnown versions) candles
    → (x : CandleStoreResult × List CandleRow) × (store_known versions candles rows ≡ ok x)
      × Stores versions candles rows x.1
unfolding store_known
store_known-Stores versions candles rows k =
    let (x, eq, stores) = upsert_all-Stores versions candles rows k in
    let n = length candles in
    (
      (record { received = n; stored = x.1; ignored = n - x.1 }, x.0),
      rw (no_unknown versions candles k, eq) refl,
      stores,
    )

-- a batch of known candles with distinct keys is stored
upsert_candles-Stores :
    (versions : List InstrumentVersion) (candles : List Candle1m) (rows : List CandleRow)
    → UniqueKeys candles
    → All (IsKnown versions) candles
    → (x : CandleStoreResult × List CandleRow) × (upsert_candles versions candles rows ≡ ok x)
      × Stores versions candles rows x.1
unfolding upsert_candles prefer_all
upsert_candles-Stores versions [] rows u k = (_, refl, λ version bucket. refl)
upsert_candles-Stores versions (c ∷ candles) rows u k =
    let (x, eq, stores) = store_known-Stores versions (c ∷ candles) rows k in
    (x, rw (UniqueKeys-has_duplicate (c ∷ candles) u, eq) refl, stores)

store_each-Stores :
    (versions : List InstrumentVersion) (items : List Candle1m) (rows : List CandleRow)
    → All (IsKnown versions) items
    → (each : List CandleRow) × (store_each versions items rows ≡ ok each)
      × Stores versions items rows each
unfolding store_each prefer_all
store_each-Stores versions [] rows k = (rows, refl, λ version bucket. refl)
store_each-Stores versions (c ∷ items) rows k =
    let (x, eq, stores) = upsert_candles-Stores versions (c ∷ []) rows (tt, tt) (k.0, tt) in
    let (each, eqs, later) = store_each-Stores versions items x.1 k.1 in
    (
      each,
      rw (eq, eqs) refl,
      λ version bucket.
          later version bucket
          ∙ ap (λ (o : Option Candle1m). prefer_all (goes_to versions version bucket) o items)
              (stores version bucket),
    )

reduced_prefers :
    (versions : List InstrumentVersion) (items : List Candle1m) (version bucket : ℕ)
    (o : Option Candle1m)
    → UniqueIds versions
    → All (IsKnown versions) items
    → prefer_all (goes_to versions version bucket) o (sort_by_key (receive items []))
      ≡ prefer_all (goes_to versions version bucket) o items
unfolding prefer_all
reduced_prefers versions items version bucket o unique k =
    let p = key_goes_to versions version bucket items in
    let q = goes_to versions version bucket in
    let same = key_goes_to-known versions version bucket items k in
    let respects = key_goes_to-respects versions version bucket items in
    let single = key_goes_to-single versions version bucket items unique in
    let reduced = sort_by_key (receive items []) in
    sym (
      prefer_all-cong p q reduced o
        (All-sort_by_key (λ c. p c ≡ q c) _ (All-receive (λ c. p c ≡ q c) items [] same tt)))
    ∙ sort_prefers p respects single (receive items []) o (receive-UniqueKeys items [] tt)
    ∙ receive_prefers p respects single o items [] tt
    ∙ prefer_all-cong p q items o same

-- Let every received candle have an unambiguous version, and no two versions one id. Then the batch
-- to which the candles are reduced by their keys, in the order of the keys, is stored, every received
-- candle by itself, in the order received, is stored, and both leave the same candle in each row.
pub batching_equivalence :
    (versions : List InstrumentVersion) (items : List Candle1m) (rows : List CandleRow)
    → UniqueIds versions
    → All (λ c. is_none (version_of versions c) ≡ false) items
    → (batch : CandleStoreResult × List CandleRow) × (each : List CandleRow) × (upsert_candles
          versions
          (sort_by_key (receive items []))
          rows
        ≡ ok batch)
      × (store_each versions items rows ≡ ok each)
      × ((version bucket : ℕ) → value version bucket batch.1 ≡ value version bucket each)
batching_equivalence versions items rows unique k =
    let pending = receive items [] in
    let (batch, eq, stores) =
      upsert_candles-Stores versions (sort_by_key pending) rows
        (sort_by_key-UniqueKeys pending (receive-UniqueKeys items [] tt))
        (All-sort_by_key (IsKnown versions) pending
          (All-receive (IsKnown versions) items [] k tt)) in
    let (each, eqs, stores_each) = store_each-Stores versions items rows k in
    (
      batch,
      each,
      eq,
      eqs,
      λ version bucket.
          stores version bucket
          ∙ reduced_prefers versions items version bucket (value version bucket rows) unique k
          ∙ sym (stores_each version bucket),
    )
