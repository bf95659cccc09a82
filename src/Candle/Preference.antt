-- ===== src/Candle/Preference.antt =====
-- The order of preference of candles: a confirmed one before a derived one, then the later receipt.
use prep_watchdeck.Prelude.{◌≡◌, refl, true, Option, none, some, arith}
use prep_watchdeck.Text.{str_eq_iff}
use prep_watchdeck.Candle.{Candle1m, gives_way, preferred_candle, same_key}

-- `preferred_candle` associates, so a batch may be reduced before it meets what is stored.
pub preferred_assoc :
    (stored : Option Candle1m) (a b : Candle1m)
    → preferred_candle stored (preferred_candle (some a) b)
      ≡ preferred_candle (some (preferred_candle stored a)) b
unfolding preferred_candle gives_way
preferred_assoc none a b = refl
preferred_assoc (some s) a b = ground arith

pub same_key_refl : (a : Candle1m) → same_key a a ≡ true
unfolding same_key
same_key_refl a = ground (arith, str_eq_iff a.source_symbol a.source_symbol)

pub same_key_sym : (a b : Candle1m) → same_key a b ≡ same_key b a
unfolding same_key
same_key_sym a b =
    ground (
      arith,
      str_eq_iff a.source_symbol b.source_symbol,
      str_eq_iff b.source_symbol a.source_symbol,
    )

pub same_key_trans : (a b c : Candle1m) → same_key a b ≡ true → same_key b c ≡ same_key a c
unfolding same_key
same_key_trans a b c h = ground (
  arith,
  str_eq_iff a.source_symbol b.source_symbol,
  str_eq_iff b.source_symbol c.source_symbol,
  str_eq_iff a.source_symbol c.source_symbol,
)
