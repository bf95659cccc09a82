-- ===== src/CatalogStore/Persist.antt =====
-- The whole transaction: `persist_catalog` with its payload, exclusions and capabilities.
use prep_watchdeck.Prelude.{
  ℕ, ◌+◌, Bool, true, false, ◌&&◌, String, Option, none, some, List, [], ◌∷◌, ◌++◌, map, filter,
  length, any, max, leb, ◌==◌, if◌then◌else◌, Result, ok, ◌>>=◌, ◌>>◌,
}
use prep_watchdeck.Text.{str_eq}
use prep_watchdeck.Venue.{venue_eq}
use prep_watchdeck.Catalog.{CatalogInstrument}
use prep_watchdeck.Identity.{IdentityResolution}
use prep_watchdeck.CatalogStore.{
  RawCatalog, ExclusionRow, CapabilityRow, CatalogBatch, CatalogExclusion, SourceCapability,
  CatalogTables, CatalogFault, CatalogStoreResult,
}
use prep_watchdeck.CatalogStore.Validate.{validate_input}
use prep_watchdeck.CatalogStore.Versions.{Made, sync_versions, is_to_close}
use prep_watchdeck.CatalogStore.Identities.{Synced, sync_loop, option_eq}

abbrev pub is_payload : CatalogBatch → RawCatalog → Bool
is_payload b r =
    venue_eq r.venue b.venue && str_eq r.endpoint b.endpoint && str_eq r.payload_hash b.payload_hash

unfoldable pub find_payload : CatalogBatch → List RawCatalog → Option RawCatalog
find_payload b [] = none
find_payload b (r ∷ rows) =
    let rest = find_payload b rows in if is_payload b r then some r else rest

abbrev pub see_again : CatalogBatch → RawCatalog → RawCatalog
see_again b r =
    if is_payload b r
    then record r { last_observed_at = max r.last_observed_at b.observed_at.instant }
    else r

-- the branch on the conflict; the identity column moves on in both
abbrev pub persist_found :
    CatalogBatch → Option RawCatalog → CatalogTables → CatalogTables × ℕ × Bool
persist_found b (some r) t = (
  record t { raw_payloads = map (see_again b) t.raw_payloads; next_raw = t.next_raw + 1 },
  r.id,
  false,
)
persist_found b none t = (
  record t {
    raw_payloads =
        t.raw_payloads
        ++ record {
          id = t.next_raw;
          venue = b.venue;
          endpoint = b.endpoint;
          payload_hash = b.payload_hash;
          observed_at = b.observed_at.instant;
          last_observed_at = b.observed_at.instant;
        }
          ∷ [];
    next_raw = t.next_raw + 1;
  },
  t.next_raw,
  true,
)

-- `_persist_raw_payload`
unfoldable pub persist_raw_payload : CatalogBatch → CatalogTables → CatalogTables × ℕ × Bool
unfolding find_payload
persist_raw_payload b t = persist_found b (find_payload b t.raw_payloads) t

abbrev pub is_exclusion : ℕ → CatalogExclusion → ExclusionRow → Bool
is_exclusion raw e r =
    r.raw_payload == raw
    && option_eq str_eq r.source_symbol e.source_symbol
    && str_eq r.reason e.reason

-- INSERT … ON CONFLICT DO NOTHING
abbrev pub insert_exclusion : ℕ → CatalogExclusion → List ExclusionRow → List ExclusionRow × ℕ
insert_exclusion raw e rows = if any (is_exclusion raw e) rows then (rows, 0) else (
  rows ++ record { raw_payload = raw; source_symbol = e.source_symbol; reason = e.reason } ∷ [],
  1,
)

-- `_persist_exclusions`: the rows and how many are new
unfoldable pub persist_exclusions :
    ℕ → List CatalogExclusion → List ExclusionRow × ℕ → List ExclusionRow × ℕ
persist_exclusions raw [] x = x
persist_exclusions raw (e ∷ exclusions) (rows, n) =
    let (rows', k) = insert_exclusion raw e rows in persist_exclusions raw exclusions (rows', n + k)

abbrev pub is_capability : SourceCapability → CapabilityRow → Bool
is_capability c r = venue_eq r.venue c.venue && str_eq r.capability c.capability

abbrev pub update_capability : ℕ → SourceCapability → CapabilityRow → CapabilityRow
update_capability observed c r =
    if is_capability c r && leb r.observed_at observed
    then record r { available = c.available; observed_at = observed }
    else r

-- INSERT … ON CONFLICT DO UPDATE … WHERE EXCLUDED.observed_at >= capabilities.observed_at
abbrev pub upsert_capability : ℕ → SourceCapability → List CapabilityRow → List CapabilityRow × ℕ
upsert_capability observed c rows =
    if any (is_capability c) rows
    then (
      map (update_capability observed c) rows,
      (if any (λ r. is_capability c r && leb r.observed_at observed) rows then 1 else 0),
    )
    else (
      rows
          ++ record {
            venue = c.venue;
            capability = c.capability;
            available = c.available;
            observed_at = observed;
          }
            ∷ [],
      1,
    )

-- `_upsert_capabilities`
unfoldable pub upsert_capabilities :
    ℕ → List SourceCapability → List CapabilityRow × ℕ → List CapabilityRow × ℕ
upsert_capabilities observed [] x = x
upsert_capabilities observed (c ∷ capabilities) (rows, n) =
    let (rows', k) = upsert_capability observed c rows in
    upsert_capabilities observed capabilities (rows', n + k)

-- the tables once the payload and the exclusions are stored
abbrev pub prepared : CatalogBatch → CatalogTables → CatalogTables
prepared b t =
    let (t1, raw, inserted) = persist_raw_payload b t in
    record t1 { exclusions = (persist_exclusions raw b.exclusions (t1.exclusions, 0)).0 }

abbrev pub with_capabilities : CatalogBatch → CatalogTables → CatalogTables
with_capabilities b t = record t {
  capabilities = (upsert_capabilities b.observed_at.instant b.capabilities (t.capabilities, 0)).0;
}

abbrev pub unsynced : CatalogTables → Synced
unsynced t = record { tables = t; created = 0; opened = 0; closed = 0 }

module _ (sha256 : String → String)
    (definition_hash semantic_hash : CatalogInstrument → String) where
  -- the counts, from those of the steps
  abbrev pub store_result : CatalogBatch → CatalogTables → Made → ℕ → Synced → CatalogStoreResult
  store_result b t m closed s =
      let (t1, raw, inserted) = persist_raw_payload b t in
      record {
        raw_payload_id = raw;
        raw_payload_inserted = inserted;
        exclusions_inserted = (persist_exclusions raw b.exclusions (t1.exclusions, 0)).1;
        instrument_versions_created = m.created;
        instrument_versions_unchanged = m.unchanged;
        instrument_versions_closed =
            length (
              filter (is_to_close definition_hash semantic_hash b.venue b.instruments) t1.versions);
        capabilities_upserted =
            (upsert_capabilities b.observed_at.instant b.capabilities (m.tables.capabilities, 0)).1;
        identity_resolutions_created = s.created;
        memberships_opened = s.opened;
        memberships_closed = closed + s.closed;
      }

  unfoldable pub persist_catalog :
      CatalogBatch
      → List IdentityResolution
      → CatalogTables
      → Result CatalogFault (CatalogStoreResult × CatalogTables)
  unfolding validate_input persist_raw_payload persist_exclusions sync_versions upsert_capabilities
      sync_loop
  persist_catalog b identities t = do
    validate_input sha256 b identities
    (m, closed) ←
        sync_versions definition_hash semantic_hash b.venue b.observed_at.instant b.instruments
          (prepared b t)
    s ←
        sync_loop b.observed_at.instant (with_capabilities b m.tables) identities m.version_ids
          b.instruments (unsynced (with_capabilities b m.tables))
    ok (store_result b t m closed s, s.tables)
