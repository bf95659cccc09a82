-- ===== src/Time.antt =====
-- Python's `datetime`: an instant in microseconds since the epoch, and what its `tzinfo` says.
-- `_require_utc` and `_require_aware` of the market modules are the tests below.
use prep_watchdeck.Prelude.{ℕ, Bool, true, false}

pub data Zone : Type 0 where
  -- no `tzinfo`, or one without an offset
  naive : Zone
  -- an offset of zero
  utc : Zone
  -- any other offset
  elsewhere : Zone

pub record DateTime : Type 0 where
  pub instant : ℕ
  pub zone : Zone

-- `value.tzinfo is not None and value.utcoffset() == timedelta(0)`
abbrev pub is_utc_zone : Zone → Bool
is_utc_zone utc = true
is_utc_zone _ = false

-- `value.tzinfo is not None and value.utcoffset() is not None`
abbrev pub is_aware_zone : Zone → Bool
is_aware_zone naive = false
is_aware_zone _ = true

abbrev pub second : ℕ
second = 1000000

abbrev pub minute : ℕ
minute = 60000000
