-- ===== src/CatalogStore/Versions.antt =====
-- The versions of a venue's instruments: the two loops of `persist_catalog`, and `_close_version`.
-- `definition_hash` and `semantic_hash` are the two digests of an instrument's definition.
use prep_watchdeck.Prelude.{
  leb, ltb, ℕ, ◌+◌, Bool, true, not, ◌&&◌, ◌||◌, String, Option, none, some, List, [], ◌∷◌, ◌++◌,
  map, filter, any, count, ◌==◌, if◌then◌else◌, Result, ok, ◌>>=◌, ◌>>◌, raise_if,
}
use prep_watchdeck.Text.{str_eq}
use prep_watchdeck.Decimal.{Decimal}
use prep_watchdeck.Venue.{Venue, venue_eq}
use prep_watchdeck.Catalog.{CatalogInstrument, Multiplier}
use prep_watchdeck.Lease.Members.{sql_positive}
use prep_watchdeck.CatalogStore.{
  CatalogRow, IdentityRow, MembershipRow, CatalogTables, CatalogFault, bad_interval, second_version,
  bad_number, is_open, is_current, is_of, require_later,
}

-- SELECT … WHERE valid_to IS NULL; a unique index admits one row of a symbol
unfoldable pub current_row : Venue → String → List CatalogRow → Option CatalogRow
current_row venue symbol [] = none
current_row venue symbol (r ∷ rows) =
    let rest = current_row venue symbol rows in if is_current venue symbol r then some r else rest

abbrev pub close_row : ℕ → ℕ → CatalogRow → CatalogRow
close_row version observed r =
    if r.version == version && is_open r.valid_to then record r { valid_to = some observed } else r

abbrev pub close_identity : ℕ → ℕ → IdentityRow → IdentityRow
close_identity version observed r =
    if r.version == version && is_open r.valid_to then record r { valid_to = some observed } else r

abbrev pub is_membership_of : ℕ → MembershipRow → Bool
is_membership_of version r = r.version == version && is_open r.valid_to

abbrev pub close_membership : ℕ → ℕ → MembershipRow → MembershipRow
close_membership version observed r =
    if is_membership_of version r then record r { valid_to = some observed } else r

-- CHECK (valid_to > valid_from), of the rows that get this end
abbrev pub are_earlier : ℕ → ℕ → CatalogTables → Bool
are_earlier version observed t =
    not (
      any
        (λ (r : MembershipRow).
          r.version == version && is_open r.valid_to && leb observed r.valid_from)
        t.memberships)
    && not (
        any
          (λ (r : IdentityRow).
            r.version == version && is_open r.valid_to && leb observed r.valid_from)
          t.identities)
    && not (
        any
          (λ (r : CatalogRow).
            r.version == version && is_open r.valid_to && leb observed r.valid_from)
          t.versions)

-- `_close_version`, with the number of memberships that it closes
unfoldable pub close_version : ℕ → ℕ → CatalogTables → Result CatalogFault (CatalogTables × ℕ)
close_version version observed t = do
  raise_if (not (are_earlier version observed t)) bad_interval
  ok (
    record t {
      memberships = map (close_membership version observed) t.memberships;
      identities = map (close_identity version observed) t.identities;
      versions = map (close_row version observed) t.versions;
    },
    count (is_membership_of version) t.memberships,
  )

-- the loop over the rows that are not unchanged
unfoldable pub close_loop :
    ℕ → List CatalogRow → CatalogTables × ℕ → Result CatalogFault (CatalogTables × ℕ)
unfolding close_version
close_loop observed [] x = ok x
close_loop observed (r ∷ rows) (t, closed) = do
  require_later observed r.valid_from
  (t', n) ← close_version r.version observed t
  close_loop observed rows (t', closed + n)

abbrev pub number_ok : Option Decimal → Bool
number_ok none = true
number_ok (some d) = sql_positive d

abbrev pub multiplier_ok : Option Multiplier → Bool
multiplier_ok none = true
multiplier_ok (some m) = sql_positive m.value

abbrev pub seconds_ok : Option ℕ → Bool
seconds_ok none = true
seconds_ok (some n) = ltb 0 n

abbrev pub are_numbers_ok : CatalogInstrument → Bool
are_numbers_ok i =
    multiplier_ok i.contract_multiplier
    && number_ok i.price_tick
    && number_ok i.amount_step
    && seconds_ok i.funding_interval_seconds

abbrev pub conflicts : ℕ → CatalogInstrument → CatalogRow → Bool
conflicts observed i r =
    is_current i.venue i.source_symbol r
    || (is_of i.venue i.source_symbol r.instrument && r.valid_from == observed)

-- what the loop over the instruments has made: the tables, `current_version_ids`, and two counts
pub record Made : Type 0 where
  pub tables : CatalogTables
  pub version_ids : List (String × ℕ)
  pub created : ℕ
  pub unchanged : ℕ

-- `definition_hash` is the full digest, `semantic_hash` the one without metadata
module _ (definition_hash semantic_hash : CatalogInstrument → String) where
  unfoldable pub insert_version :
      ℕ → CatalogInstrument → CatalogTables → Result CatalogFault CatalogTables
  insert_version observed i t = do
    raise_if (not (are_numbers_ok i)) bad_number
    raise_if (any (conflicts observed i) t.versions) second_version
    ok (record t {
      versions =
          t.versions
          ++ record {
            version = t.next_version;
            definition_hash = definition_hash i;
            valid_from = observed;
            valid_to = none;
            instrument = i;
          }
            ∷ [];
      next_version = t.next_version + 1;
    })

  abbrev pub is_unchanged_by : CatalogRow → CatalogInstrument → Bool
  is_unchanged_by r i =
      str_eq r.definition_hash (definition_hash i)
      || str_eq (semantic_hash r.instrument) (semantic_hash i)

  -- whether a current row's symbol is in `unchanged_symbols`
  abbrev pub is_unchanged : List CatalogInstrument → CatalogRow → Bool
  is_unchanged instruments r =
      any (λ i. str_eq i.source_symbol r.instrument.source_symbol && is_unchanged_by r i)
        instruments

  abbrev pub is_to_close : Venue → List CatalogInstrument → CatalogRow → Bool
  is_to_close venue instruments r =
      is_open r.valid_to && venue_eq r.instrument.venue venue && not (is_unchanged instruments r)

  abbrev pub create : ℕ → CatalogInstrument → Made → Result CatalogFault Made
  create observed i m = do
    t ← insert_version observed i m.tables
    ok (record m {
      tables = t;
      version_ids = m.version_ids ++ (i.source_symbol, m.tables.next_version) ∷ [];
      created = m.created + 1;
    })

  abbrev pub keep : CatalogInstrument → CatalogRow → Made → Made
  keep i r m = record m {
    version_ids = m.version_ids ++ (i.source_symbol, r.version) ∷ [];
    unchanged = m.unchanged + 1;
  }

  -- one turn of the loop over the instruments; `before` are the rows as they were read
  unfoldable pub keep_or_create :
      ℕ → Option CatalogRow → CatalogInstrument → Made → Result CatalogFault Made
  unfolding insert_version
  keep_or_create observed none i m = create observed i m
  keep_or_create observed (some r) i m =
      if is_unchanged_by r i then ok (keep i r m) else create observed i m

  unfoldable pub create_loop :
      Venue → ℕ → List CatalogRow → List CatalogInstrument → Made → Result CatalogFault Made
  unfolding keep_or_create current_row
  create_loop venue observed before [] m = ok m
  create_loop venue observed before (i ∷ instruments) m = do
    m' ← keep_or_create observed (current_row venue i.source_symbol before) i m
    create_loop venue observed before instruments m'

  -- both loops, with the number of memberships that are closed
  unfoldable pub sync_versions :
      Venue → ℕ → List CatalogInstrument → CatalogTables → Result CatalogFault (Made × ℕ)
  unfolding close_loop create_loop
  sync_versions venue observed instruments t = do
    (t', closed) ← close_loop observed (filter (is_to_close venue instruments) t.versions) (t, 0)
    m ←
        create_loop venue observed t.versions instruments
          (record { tables = t'; version_ids = []; created = 0; unchanged = 0 })
    ok (m, closed)
