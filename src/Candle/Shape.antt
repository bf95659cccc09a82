-- ===== src/Candle/Shape.antt =====
-- What the constructor of a candle guarantees.
use prep_watchdeck.Prelude.{
  ℕ, ap, ◌%◌, ◌≤◌, ◌<◌, ◌≡◌, refl, true, false, not, Option, none, some, arith, ◌==◌, ok, raise_if,
  raise_if-eq-ok, >>-eq-ok,
}
use prep_watchdeck.Time.{DateTime, is_utc_zone, minute}
use prep_watchdeck.Text.{is_blank}
use prep_watchdeck.Decimal.{Decimal, plus, minus, infinity, minus_infinity, nan, dec_ltb}
use prep_watchdeck.Candle.{
  Candle1m, check_price, check_prices, check_times, post_init, bucket_end, dec_max, dec_min,
  bad_high, bad_low, require_utc_datetime, check_finalized, empty_symbol, not_utc, not_aligned,
  early_finality,
}

instant_of : Option DateTime → ℕ
instant_of none = 0
instant_of (some at) = at.instant

price_units : (d : Decimal) → check_price d ≡ ok tt → (n : ℕ) × (0 < n) × (d ≡ plus n)
price_units (plus n) h = (n, ground (arith, h), refl)
price_units (minus n) h = absurd (cc)
price_units infinity h = absurd (cc)
price_units minus_infinity h = absurd (cc)
price_units nan h = absurd (cc)

-- The four prices in units: positive, with the open and the close between the low and the high.
pub record IsOhlc (c : Candle1m) : Type 0 where
  pub open_units : ℕ
  pub high_units : ℕ
  pub low_units : ℕ
  pub close_units : ℕ
  pub open_eq : c.open_price ≡ plus open_units
  pub high_eq : c.high_price ≡ plus high_units
  pub low_eq : c.low_price ≡ plus low_units
  pub close_eq : c.close_price ≡ plus close_units
  pub low_pos : 0 < low_units
  pub low-le-open : low_units ≤ open_units
  pub low-le-close : low_units ≤ close_units
  pub open-le-high : open_units ≤ high_units
  pub close-le-high : close_units ≤ high_units

ohlc_units :
    (o h l c : ℕ)
    → dec_ltb (plus h) (dec_max (dec_max (plus o) (plus c)) (plus l)) ≡ false
    → dec_ltb (dec_min (dec_min (plus o) (plus c)) (plus h)) (plus l) ≡ false
    → ((o ≤ h) × (c ≤ h)) × ((l ≤ o) × (l ≤ c))
ohlc_units o h l c a b = ground arith

ohlc_decimals :
    (o h l c : ℕ) (dop dh dl dc : Decimal)
    → dop ≡ plus o
    → dh ≡ plus h
    → dl ≡ plus l
    → dc ≡ plus c
    → dec_ltb dh (dec_max (dec_max dop dc) dl) ≡ false
    → dec_ltb (dec_min (dec_min dop dc) dh) dl ≡ false
    → ((o ≤ h) × (c ≤ h)) × ((l ≤ o) × (l ≤ c))
ohlc_decimals o h l c dop dh dl dc eo eh el ec a b =
    ohlc_units o h l c (rw (eo, eh, el, ec) at a) (rw (eo, eh, el, ec) at b)

prices-IsOhlc : (c : Candle1m) → check_prices c ≡ ok tt → IsOhlc c
unfolding check_prices
prices-IsOhlc c h =
    let (h1, r1) = >>-eq-ok (check_price c.open_price) _ h in
    let (h2, r2) = >>-eq-ok (check_price c.high_price) _ r1 in
    let (h3, r3) = >>-eq-ok (check_price c.low_price) _ r2 in
    let (h4, r4) = >>-eq-ok (check_price c.close_price) _ r3 in
    let (h5, r5) =
      >>-eq-ok
        (raise_if (dec_ltb c.high_price (dec_max (dec_max c.open_price c.close_price) c.low_price))
          bad_high)
        _ r4 in
    let (o, po, eo) = price_units c.open_price h1 in
    let (hi, ph, eh) = price_units c.high_price h2 in
    let (l, pl, el) = price_units c.low_price h3 in
    let (cl, pc, ec) = price_units c.close_price h4 in
    let (below, within) =
      ohlc_decimals o hi l cl c.open_price c.high_price c.low_price c.close_price eo eh el ec
        (raise_if-eq-ok _ bad_high h5) (raise_if-eq-ok _ bad_low r5) in
    record {
      open_units = o;
      high_units = hi;
      low_units = l;
      close_units = cl;
      open_eq = eo;
      high_eq = eh;
      low_eq = el;
      close_eq = ec;
      low_pos = pl;
      low-le-open = within.0;
      low-le-close = within.1;
      open-le-high = below.0;
      close-le-high = below.1;
    }

-- the times of a candle
pub record IsTimed (c : Candle1m) : Type 0 where
  pub aligned : c.bucket_start.instant % minute ≡ 0
  pub bucket_utc : is_utc_zone c.bucket_start.zone ≡ true
  pub observed_utc : is_utc_zone c.observed_at.zone ≡ true
  pub final_after_close : (at : DateTime) → c.finalized_at ≡ some at → bucket_end c ≤ at.instant
  pub final_after_receipt :
      (at : DateTime) → c.finalized_at ≡ some at → c.observed_at.instant ≤ at.instant

finalized_bounds :
    (c : Candle1m) (o : Option DateTime)
    → check_finalized c o ≡ ok tt
    → (at : DateTime) → o ≡ some at
    → (bucket_end c ≤ at.instant) × (c.observed_at.instant ≤ at.instant)
finalized_bounds c none h at e = absurd (cc)
finalized_bounds c (some b) h at e =
    let (u, r) = >>-eq-ok (require_utc_datetime b) _ h in
    let t = raise_if-eq-ok _ early_finality r in ground (arith, t, ap instant_of e)

times-IsTimed : (c : Candle1m) → check_times c ≡ ok tt → IsTimed c
unfolding check_times
times-IsTimed c h =
    let (h1, r1) = >>-eq-ok (raise_if (is_blank c.source_symbol) empty_symbol) _ h in
    let (h2, r2) = >>-eq-ok (require_utc_datetime c.bucket_start) _ r1 in
    let (h3, r3) =
      >>-eq-ok (raise_if (not (c.bucket_start.instant % minute == 0)) not_aligned) _ r2 in
    let (h4, r4) = >>-eq-ok (require_utc_datetime c.observed_at) _ r3 in
    let (h5, r5) = >>-eq-ok (check_finalized c c.finalized_at) _ r4 in
    record {
      aligned = ground (arith, raise_if-eq-ok _ not_aligned h3);
      bucket_utc = ground (arith, raise_if-eq-ok _ not_utc h2);
      observed_utc = ground (arith, raise_if-eq-ok _ not_utc h4);
      final_after_close = λ at e. (finalized_bounds c c.finalized_at h5 at e).0;
      final_after_receipt = λ at e. (finalized_bounds c c.finalized_at h5 at e).1;
    }

-- A candle that its constructor accepts has four positive finite prices with the open and the close
-- between the low and the high, a bucket on a full UTC minute, a UTC receipt time, and a
-- finalization, if any, neither before its receipt nor before the end of its bucket.
pub post_init_shape : (c : Candle1m) → post_init c ≡ ok tt → IsOhlc c × IsTimed c
unfolding post_init
post_init_shape c h =
    let (h1, r1) = >>-eq-ok (check_times c) _ h in
    let (h2, r2) = >>-eq-ok (check_prices c) _ r1 in (prices-IsOhlc c h2, times-IsTimed c h1)
