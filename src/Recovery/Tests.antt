-- ===== src/Recovery/Tests.antt =====
-- Diagnostics of three targets, and the theorem at them.
use prep_watchdeck.Prelude.{ℕ, ◌≡◌, refl, Option, none, some, List, [], ◌∷◌, take, filter, String}
use prep_watchdeck.Recovery.{RecoveryTargetDetail, is_unresolved, bounded_recovery_details}
use prep_watchdeck.Recovery.Details.{unresolved_first, bounded-unresolved_first}

abbrev detail : Option ℕ → Option String → RecoveryTargetDetail
detail remaining error = record {
  target = record {
    venue_instrument_id = "bitget:BTCUSDT";
    venue_instrument_version_id = 1;
    definition_hash = "h";
  };
  missing_before = some 4;
  inserted = 2;
  remaining = remaining;
  error_code = error;
}

abbrev details : List RecoveryTargetDetail
details = detail (some 0) none ∷ detail (some 2) none ∷ detail (some 0) (some "http_429") ∷ []

unresolved_come_first :
    bounded_recovery_details details
    ≡ detail (some 2) none ∷ detail (some 0) (some "http_429") ∷ detail (some 0) none ∷ []
unfolding bounded_recovery_details is_unresolved
unresolved_come_first = refl

bounded-unresolved_first_example :
    (bounded_recovery_details details ≡ take 128 (unresolved_first details))
    × (filter is_unresolved (bounded_recovery_details details)
        ≡ take 128 (filter is_unresolved details))
bounded-unresolved_first_example = bounded-unresolved_first details
