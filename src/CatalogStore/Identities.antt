-- ===== src/CatalogStore/Identities.antt =====
-- The groups of the current versions: `_sync_identities` and `_ensure_group` of catalog_store.py.
use prep_watchdeck.Prelude.{
  ◌||◌, ℕ, ◌+◌, Bool, true, false, not, ◌&&◌, String, Option, none, some, List, [], ◌∷◌, ◌++◌, map,
  any, max, ◌==◌, if◌then◌else◌, Result, ok, ◌>>=◌, ◌>>◌, raise_if,
}
use prep_watchdeck.Text.{str_eq}
use prep_watchdeck.Venue.{venue_eq}
use prep_watchdeck.Catalog.{CatalogInstrument}
use prep_watchdeck.Identity.{
  GroupId, crypto, native, MappingMethod, exact_base_heuristic, verified_native_contract,
  UnmappedReason, IdentityResolution, inactive, asset_class_not_crypto,
  market_type_not_linear_perpetual, base_asset_missing, alias_required, quantity_unit_unknown,
  quantity_unit_not_base, contract_multiplier_unknown, contract_multiplier_not_one,
  same_venue_collision,
}
use prep_watchdeck.CatalogStore.{
  GroupRow, IdentityRow, MembershipRow, CatalogTables, CatalogFault, group_conflict,
  second_membership, is_open, is_of, require_later,
}

abbrev pub group_eq : GroupId → GroupId → Bool
group_eq (crypto a) (crypto b) = str_eq a b
group_eq (native v a) (native w b) = venue_eq v w && str_eq a b
group_eq _ _ = false

abbrev pub method_eq : MappingMethod → MappingMethod → Bool
method_eq exact_base_heuristic exact_base_heuristic = true
method_eq verified_native_contract verified_native_contract = true
method_eq _ _ = false

abbrev pub reason_eq : UnmappedReason → UnmappedReason → Bool
reason_eq inactive inactive = true
reason_eq asset_class_not_crypto asset_class_not_crypto = true
reason_eq market_type_not_linear_perpetual market_type_not_linear_perpetual = true
reason_eq base_asset_missing base_asset_missing = true
reason_eq alias_required alias_required = true
reason_eq quantity_unit_unknown quantity_unit_unknown = true
reason_eq quantity_unit_not_base quantity_unit_not_base = true
reason_eq contract_multiplier_unknown contract_multiplier_unknown = true
reason_eq contract_multiplier_not_one contract_multiplier_not_one = true
reason_eq same_venue_collision same_venue_collision = true
reason_eq _ _ = false

abbrev pub option_eq {ℓ} : {A : Type ℓ} → (A → A → Bool) → Option A → Option A → Bool
option_eq eq none none = true
option_eq eq (some a) (some b) = eq a b
option_eq eq _ _ = false

-- the open row of a version; a unique index admits one
unfoldable pub current_identity : ℕ → List IdentityRow → Option IdentityRow
current_identity version [] = none
current_identity version (r ∷ rows) =
    let rest = current_identity version rows in
    if r.version == version && is_open r.valid_to then some r else rest

unfoldable pub current_membership : ℕ → List MembershipRow → Option MembershipRow
current_membership version [] = none
current_membership version (r ∷ rows) =
    let rest = current_membership version rows in
    if r.version == version && is_open r.valid_to then some r else rest

abbrev pub is_group : GroupId → GroupRow → Bool
is_group group g = group_eq g.group_id group

abbrev pub same_definition : CatalogInstrument → GroupRow → Bool
same_definition i g =
    str_eq g.base_asset i.base_asset
    && str_eq g.asset_class i.asset_class
    && str_eq g.market_type i.market_type

abbrev pub touch_group : ℕ → GroupId → GroupRow → GroupRow
touch_group observed group g =
    if is_group group g then record g { updated_at = max g.updated_at observed } else g

-- INSERT … ON CONFLICT (group_id) DO NOTHING
abbrev pub with_group : ℕ → GroupId → CatalogInstrument → List GroupRow → List GroupRow
with_group observed group i groups =
    if any (is_group group) groups
    then groups
    else groups
      ++ record {
        group_id = group;
        base_asset = i.base_asset;
        asset_class = i.asset_class;
        market_type = i.market_type;
        updated_at = observed;
      }
        ∷ []

-- `_ensure_group`, where the instrument has a group; its id is the primary key
unfoldable pub ensure_group :
    ℕ → Option GroupId → CatalogInstrument → CatalogTables → Result CatalogFault CatalogTables
ensure_group observed none i t = ok t
ensure_group observed (some group) i t = do
  raise_if
      (any (λ g. is_group group g && not (same_definition i g))
        (with_group observed group i t.groups))
      group_conflict
  ok (record t { groups = map (touch_group observed group) (with_group observed group i t.groups) })

abbrev pub same_state : IdentityResolution → Option IdentityRow → Bool
same_state r none = false
same_state r (some row) =
    option_eq group_eq row.group_id r.group_id
    && option_eq method_eq row.mapping_method r.mapping_method
    && option_eq reason_eq row.unmapped_reason r.unmapped_reason

abbrev pub end_identity : ℕ → ℕ → IdentityRow → IdentityRow
end_identity observed id r = if r.id == id then record r { valid_to = some observed } else r

-- the existing resolution is ended, if there is one
abbrev pub end_existing : ℕ → Option IdentityRow → CatalogTables → Result CatalogFault CatalogTables
end_existing observed none t = ok t
end_existing observed (some row) t = do
  require_later observed row.valid_from
  ok (record t { identities = map (end_identity observed row.id) t.identities })

abbrev pub insert_identity : ℕ → ℕ → IdentityResolution → CatalogTables → CatalogTables
insert_identity observed version r t = record t {
  identities =
      t.identities
      ++ record {
        id = t.next_identity;
        version = version;
        group_id = r.group_id;
        mapping_method = r.mapping_method;
        unmapped_reason = r.unmapped_reason;
        valid_from = observed;
        valid_to = none;
      }
        ∷ [];
  next_identity = t.next_identity + 1;
}

-- the tables and `identity_created`
unfoldable pub sync_identity :
    ℕ
    → ℕ
    → IdentityResolution
    → Option IdentityRow
    → CatalogTables
    → Result CatalogFault (CatalogTables × ℕ)
sync_identity observed version r existing t =
    if same_state r existing
    then ok (t, 0)
    else do t' ← end_existing observed existing t; ok (insert_identity observed version r t', 1)

-- `desired_membership`; a resolution with a group has a method (Validate)
abbrev pub desired : Option GroupId → Option MappingMethod → Option (GroupId × MappingMethod)
desired none m = none
desired (some g) none = none
desired (some g) (some m) = some (g, m)

abbrev pub same_membership : Option (GroupId × MappingMethod) → Option MembershipRow → Bool
same_membership none none = true
same_membership (some (g, m)) (some row) = group_eq row.group_id g && method_eq row.mapping_method m
same_membership _ _ = false

abbrev pub end_membership : ℕ → ℕ → MembershipRow → MembershipRow
end_membership observed id r = if r.id == id then record r { valid_to = some observed } else r

-- the tables, the number of memberships opened and of those closed
abbrev pub leave_group :
    ℕ → Option MembershipRow → CatalogTables → Result CatalogFault (CatalogTables × ℕ)
leave_group observed none t = ok (t, 0)
leave_group observed (some row) t = do
  require_later observed row.valid_from
  ok (record t { memberships = map (end_membership observed row.id) t.memberships }, 1)

-- UNIQUE (group_id, venue_instrument_version_id, valid_from), and one open row of a version
abbrev pub clashes : ℕ → ℕ → GroupId → MembershipRow → Bool
clashes observed version group r =
    r.version == version
    && (is_open r.valid_to || group_eq r.group_id group && r.valid_from == observed)

abbrev pub join_group :
    ℕ
    → ℕ
    → Option (GroupId × MappingMethod)
    → CatalogTables
    → Result CatalogFault (CatalogTables × ℕ)
join_group observed version none t = ok (t, 0)
join_group observed version (some (g, m)) t = do
  raise_if (any (clashes observed version g) t.memberships) second_membership
  ok (
    record t {
      memberships =
          t.memberships
          ++ record {
            id = t.next_membership;
            version = version;
            group_id = g;
            mapping_method = m;
            valid_from = observed;
            valid_to = none;
          }
            ∷ [];
      next_membership = t.next_membership + 1;
    },
    1,
  )

unfoldable pub sync_membership :
    ℕ
    → ℕ
    → Option (GroupId × MappingMethod)
    → Option MembershipRow
    → CatalogTables
    → Result CatalogFault (CatalogTables × ℕ × ℕ)
sync_membership observed version wanted existing t =
    if same_membership wanted existing then ok (t, 0, 0) else do
      (t', closed) ← leave_group observed existing t
      (t'', opened) ← join_group observed version wanted t'
      ok (t'', opened, closed)

-- `current_version_ids[…]` and `identity_by_id[…]`; a checked input has both
unfoldable pub version_id_of : String → List (String × ℕ) → Option ℕ
version_id_of symbol [] = none
version_id_of symbol ((s, version) ∷ ids) =
    let rest = version_id_of symbol ids in if str_eq s symbol then some version else rest

unfoldable pub identity_of : CatalogInstrument → List IdentityResolution → Option IdentityResolution
identity_of i [] = none
identity_of i (r ∷ identities) =
    let rest = identity_of i identities in if is_of r.venue r.source_symbol i then some r else rest

-- the tables with the numbers of resolutions created, memberships opened and memberships closed
pub record Synced : Type 0 where
  pub tables : CatalogTables
  pub created : ℕ
  pub opened : ℕ
  pub closed : ℕ

-- one turn of the loop; `before` are the tables as they were read
unfoldable pub sync_one :
    ℕ
    → CatalogTables
    → CatalogInstrument
    → Option IdentityResolution
    → Option ℕ
    → Synced
    → Result CatalogFault Synced
unfolding ensure_group sync_identity sync_membership current_identity current_membership
sync_one observed before i none version s = ok s
sync_one observed before i (some r) none s = ok s
sync_one observed before i (some r) (some version) s = do
  t ← ensure_group observed r.group_id i s.tables
  (t', created) ← sync_identity observed version r (current_identity version before.identities) t
  (t'', opened, closed) ←
      sync_membership observed version (desired r.group_id r.mapping_method)
        (current_membership version before.memberships) t'
  ok (record {
    tables = t'';
    created = s.created + created;
    opened = s.opened + opened;
    closed = s.closed + closed;
  })

unfoldable pub sync_loop :
    ℕ
    → CatalogTables
    → List IdentityResolution
    → List (String × ℕ)
    → List CatalogInstrument
    → Synced
    → Result CatalogFault Synced
unfolding sync_one identity_of version_id_of
sync_loop observed before identities ids [] s = ok s
sync_loop observed before identities ids (i ∷ instruments) s = do
  s' ← sync_one observed before i (identity_of i identities) (version_id_of i.source_symbol ids) s
  sync_loop observed before identities ids instruments s'
