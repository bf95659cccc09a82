-- ===== src/Lease/Ids.antt =====
-- The text of an instrument's id, `f"{venue}:{source_symbol}"`, and its parts as
-- `_selected_primary_version` of selected_store.py finds them.
use Prim.Native.Char.{code}
use Prim.Native.String.{String}
use prep_watchdeck.Prelude.{◌≡◌, false, Option, none, some, ◌==◌, if◌then◌else◌}
use prep_watchdeck.Text.{str_eq}
use prep_watchdeck.Venue.{Venue, bitget, hyperliquid, aster, mexc}

-- `text.partition(":")`, or `none` without a colon
unfoldable pub partition : String → Option (String × String)
partition String.[] = none
partition (String.◌∷◌ c rest) =
    let later = partition rest in
    if code c == 58
    then some (String.[], rest)
    else elim later [ none ↦ none | some p ↦ some (String.◌∷◌ c p.0, p.1) ]

unfoldable pub venue_of_text : String → Option Venue
venue_of_text text =
    if str_eq text "bitget"
    then some bitget
    else if str_eq text "hyperliquid"
    then some hyperliquid
    else if str_eq text "aster"
    then some aster
    else if str_eq text "mexc"
    then some mexc
    else none

abbrev pub known_venue : Option Venue → String → Option (Venue × String)
known_venue none symbol = none
known_venue (some venue) symbol = if str_eq symbol "" then none else some (venue, symbol)

-- the venue and the symbol, if the three checks on them pass
unfoldable pub parse_instrument_id : String → Option (Venue × String)
unfolding partition venue_of_text
parse_instrument_id text = elim (partition text) [
  | none ↦ none
  | some (venue, symbol) ↦ known_venue (venue_of_text venue) symbol
]

-- one text after another
abbrev pub append : String → String → String
append String.[] symbol = symbol
append (String.◌∷◌ c rest) symbol = String.◌∷◌ c (append rest symbol)

-- `f"{venue}:"` before the symbol
unfoldable pub instrument_id : Venue → String → String
instrument_id bitget symbol = append "bitget:" symbol
instrument_id hyperliquid symbol = append "hyperliquid:" symbol
instrument_id aster symbol = append "aster:" symbol
instrument_id mexc symbol = append "mexc:" symbol

-- The id of an instrument with a symbol is read as its venue and its symbol, whatever characters,
-- colons too, the symbol has.
pub parse-instrument_id :
    (venue : Venue) (symbol : String)
    → str_eq symbol "" ≡ false
    → parse_instrument_id (instrument_id venue symbol) ≡ some (venue, symbol)
unfolding parse_instrument_id instrument_id
parse-instrument_id bitget symbol h = rw h
parse-instrument_id hyperliquid symbol h = rw h
parse-instrument_id aster symbol h = rw h
parse-instrument_id mexc symbol h = rw h
