-- ===== src/Recovery.antt =====
-- The bounded diagnostics of a candle recovery: `bounded_recovery_details` of
-- apps/market-core/src/prep_watchdeck_market/candle_recovery_state.py.
pub mod Details
mod Tests
use prep_watchdeck.Prelude.{
  ℕ, Bool, true, false, not, ◌||◌, ◌==◌, String, Option, none, some, List, [], ◌∷◌, take,
  if◌then◌else◌,
}
use prep_watchdeck.Text.{str_eq}

pub record RecoveryTargetIdentity : Type 0 where
  pub venue_instrument_id : String
  pub venue_instrument_version_id : ℕ
  pub definition_hash : String

pub record RecoveryTargetDetail : Type 0 where
  pub target : RecoveryTargetIdentity
  pub missing_before : Option ℕ
  pub inserted : ℕ
  pub remaining : Option ℕ
  pub error_code : Option String

-- an error code that is not empty counts as true
abbrev pub has_error : Option String → Bool
has_error none = false
has_error (some code) = not (str_eq code "")

-- `remaining != 0`, which holds of `None`
abbrev pub has_remaining : Option ℕ → Bool
has_remaining none = true
has_remaining (some n) = not (n == 0)

unfoldable pub is_unresolved : RecoveryTargetDetail → Bool
is_unresolved d = has_error d.error_code || has_remaining d.remaining

-- the key of the sort: false, the lesser, for an unresolved target
abbrev pub sort_key : RecoveryTargetDetail → Bool
sort_key d = not (is_unresolved d)

-- `a < b` of two truth values
abbrev pub bool_ltb : Bool → Bool → Bool
bool_ltb false true = true
bool_ltb _ _ = false

-- Before the first one that is not less: the details are inserted from the last one, so those of one
-- key keep their order, as `sorted` keeps it.
unfoldable pub insert_by_key :
    RecoveryTargetDetail → List RecoveryTargetDetail → List RecoveryTargetDetail
insert_by_key d [] = d ∷ []
insert_by_key d (e ∷ details) =
    let rest = insert_by_key d details in
    if bool_ltb (sort_key e) (sort_key d) then e ∷ rest else d ∷ e ∷ details

unfoldable pub sort_by_key : List RecoveryTargetDetail → List RecoveryTargetDetail
unfolding insert_by_key
sort_by_key [] = []
sort_by_key (d ∷ details) = insert_by_key d (sort_by_key details)

unfoldable pub bounded_recovery_details : List RecoveryTargetDetail → List RecoveryTargetDetail
unfolding sort_by_key
bounded_recovery_details details = take 128 (sort_by_key details)
