-- ===== src/CatalogStore/Persisted.antt =====
-- What is open once the whole transaction is committed: the later steps leave the versions alone.
use mathlib.Core.Path.{subst}
use prep_watchdeck.Prelude.{
  ℕ, ◌≤◌, not, ◌&&◌, ◌≡◌, refl, sym, ap, ◌∙◌, String, Option, none, some, List, [], ◌∷◌, any, count,
  Bool-cases, inl, inr, ok, ◌>>=◌, >>=-eq-ok, >>-eq-ok, raise_if, ok_injective,
}
use prep_watchdeck.Catalog.{CatalogInstrument}
use prep_watchdeck.Identity.{GroupId, MappingMethod, IdentityResolution}
use prep_watchdeck.CatalogStore.{
  second_membership, CatalogBatch, CatalogTables, CatalogStoreResult, IdentityRow, MembershipRow,
  group_conflict, is_current, require_later, naive_time, bad_hash, no_instruments,
}
use prep_watchdeck.CatalogStore.Validate.{
  validate_input, check_instruments, is_naive, is_naive_if, is_empty,
}
use prep_watchdeck.CatalogStore.Versions.{sync_versions}
use prep_watchdeck.CatalogStore.Identities.{
  Synced, ensure_group, sync_identity, same_state, end_existing, insert_identity, sync_membership,
  same_membership, leave_group, join_group, clashes, desired, sync_one, sync_loop, identity_of,
  version_id_of, current_identity, current_membership, is_group, same_definition, with_group,
}
use prep_watchdeck.CatalogStore.Persist.{
  persist_raw_payload, persist_found, find_payload, persist_catalog, prepared, with_capabilities,
  unsynced, store_result,
}
use prep_watchdeck.CatalogStore.Current.{IsKeyed}
use prep_watchdeck.CatalogStore.Exact.{has_symbol, sync_versions-count}
use prep_watchdeck.Text.{str_eq}

ensure_group-versions :
    (observed : ℕ) (group : Option GroupId) (i : CatalogInstrument) (t t' : CatalogTables)
    → ensure_group observed group i t ≡ ok t'
    → t'.versions ≡ t.versions
unfolding ensure_group
ensure_group-versions observed none i t t' h =
    ap (λ (z : CatalogTables). z.versions) (sym (ok_injective t t' h))
ensure_group-versions observed (some group) i t t' h =
    let (h1, h2) =
      >>-eq-ok
        (raise_if
          (any (λ g. is_group group g && not (same_definition i g))
            (with_group observed group i t.groups))
          group_conflict)
        _ h in
    ap (λ (z : CatalogTables). z.versions) (sym (ok_injective _ t' h2))

end_existing-versions :
    (observed : ℕ) (existing : Option IdentityRow) (t t' : CatalogTables)
    → end_existing observed existing t ≡ ok t'
    → t'.versions ≡ t.versions
end_existing-versions observed none t t' h =
    ap (λ (z : CatalogTables). z.versions) (sym (ok_injective t t' h))
end_existing-versions observed (some row) t t' h =
    let (h1, h2) = >>-eq-ok (require_later observed row.valid_from) _ h in
    ap (λ (z : CatalogTables). z.versions) (sym (ok_injective _ t' h2))

sync_identity-versions :
    (observed version : ℕ) (r : IdentityResolution) (existing : Option IdentityRow)
    (t : CatalogTables) (y : CatalogTables × ℕ)
    → sync_identity observed version r existing t ≡ ok y
    → y.0.versions ≡ t.versions
unfolding sync_identity
sync_identity-versions observed version r existing t y h =
    elim (Bool-cases (same_state r existing)) [
      | inl e ↦
          ap (λ (z : CatalogTables × ℕ). z.0.versions)
            (sym (ok_injective (t, 0) y (sym (rw e refl) ∙ h)))
      | inr e ↦
          let step : (end_existing observed existing t >>= λ t'.
          ok (insert_identity observed version r t', 1))
              ≡ ok y =
            sym (rw e refl) ∙ h in
          let (t', h1, h2) = >>=-eq-ok (end_existing observed existing t) _ step in
          ap (λ (z : CatalogTables × ℕ). z.0.versions) (sym (ok_injective _ y h2))
          ∙ end_existing-versions observed existing t t' h1
    ]

leave_group-versions :
    (observed : ℕ) (existing : Option MembershipRow) (t : CatalogTables) (y : CatalogTables × ℕ)
    → leave_group observed existing t ≡ ok y
    → y.0.versions ≡ t.versions
leave_group-versions observed none t y h =
    ap (λ (z : CatalogTables × ℕ). z.0.versions) (sym (ok_injective (t, 0) y h))
leave_group-versions observed (some row) t y h =
    let (h1, h2) = >>-eq-ok (require_later observed row.valid_from) _ h in
    ap (λ (z : CatalogTables × ℕ). z.0.versions) (sym (ok_injective _ y h2))

join_group-versions :
    (observed version : ℕ) (wanted : Option (GroupId × MappingMethod)) (t : CatalogTables)
    (y : CatalogTables × ℕ)
    → join_group observed version wanted t ≡ ok y
    → y.0.versions ≡ t.versions
join_group-versions observed version none t y h =
    ap (λ (z : CatalogTables × ℕ). z.0.versions) (sym (ok_injective (t, 0) y h))
join_group-versions observed version (some (g, m)) t y h =
    let (h1, h2) =
      >>-eq-ok (raise_if (any (clashes observed version g) t.memberships) second_membership) _ h in
    ap (λ (z : CatalogTables × ℕ). z.0.versions) (sym (ok_injective _ y h2))

sync_membership-versions :
    (observed version : ℕ) (wanted : Option (GroupId × MappingMethod))
    (existing : Option MembershipRow) (t : CatalogTables) (y : CatalogTables × ℕ × ℕ)
    → sync_membership observed version wanted existing t ≡ ok y
    → y.0.versions ≡ t.versions
unfolding sync_membership
sync_membership-versions observed version wanted existing t y h =
    elim (Bool-cases (same_membership wanted existing)) [
      | inl e ↦
          ap (λ (z : CatalogTables × ℕ × ℕ). z.0.versions)
            (sym (ok_injective (t, 0, 0) y (sym (rw e refl) ∙ h)))
      | inr e ↦
          let step : (leave_group observed existing t >>= λ x.
          join_group observed version wanted x.0 >>= λ z. ok (z.0, z.1, x.1))
              ≡ ok y =
            sym (rw e refl) ∙ h in
          let (x, h1, h2) = >>=-eq-ok (leave_group observed existing t) _ step in
          let (z, h3, h4) = >>=-eq-ok (join_group observed version wanted x.0) _ h2 in
          ap (λ (z : CatalogTables × ℕ × ℕ). z.0.versions) (sym (ok_injective _ y h4))
          ∙ join_group-versions observed version wanted x.0 z h3
          ∙ leave_group-versions observed existing t x h1
    ]

sync_one-versions :
    (observed : ℕ) (before : CatalogTables) (i : CatalogInstrument) (r : Option IdentityResolution)
    (version : Option ℕ) (s s' : Synced)
    → sync_one observed before i r version s ≡ ok s'
    → s'.tables.versions ≡ s.tables.versions
unfolding sync_one
sync_one-versions observed before i none version s s' h =
    ap (λ (z : Synced). z.tables.versions) (sym (ok_injective s s' h))
sync_one-versions observed before i (some r) none s s' h =
    ap (λ (z : Synced). z.tables.versions) (sym (ok_injective s s' h))
sync_one-versions observed before i (some r) (some version) s s' h =
    let (t, h1, k1) = >>=-eq-ok (ensure_group observed r.group_id i s.tables) _ h in
    let (x, h2, k2) =
      >>=-eq-ok (sync_identity observed version r (current_identity version before.identities) t) _
        k1 in
    let (y, h3, k3) =
      >>=-eq-ok
        (sync_membership observed version (desired r.group_id r.mapping_method)
          (current_membership version before.memberships) x.0)
        _ k2 in
    ap (λ (z : Synced). z.tables.versions) (sym (ok_injective _ s' k3))
    ∙ sync_membership-versions observed version (desired r.group_id r.mapping_method)
        (current_membership version before.memberships) x.0 y h3
    ∙ sync_identity-versions observed version r (current_identity version before.identities) t x h2
    ∙ ensure_group-versions observed r.group_id i s.tables t h1

sync_loop-versions :
    (observed : ℕ) (before : CatalogTables) (identities : List IdentityResolution)
    (ids : List (String × ℕ)) (instruments : List CatalogInstrument) (s s' : Synced)
    → sync_loop observed before identities ids instruments s ≡ ok s'
    → s'.tables.versions ≡ s.tables.versions
unfolding sync_loop
sync_loop-versions observed before identities ids [] s s' h =
    ap (λ (z : Synced). z.tables.versions) (sym (ok_injective s s' h))
sync_loop-versions observed before identities ids (i ∷ instruments) s s' h =
    let (s1, h1, h2) =
      >>=-eq-ok
        (sync_one observed before i (identity_of i identities) (version_id_of i.source_symbol ids)
          s)
        _ h in
    sync_loop-versions observed before identities ids instruments s1 s' h2
    ∙ sync_one-versions observed before i (identity_of i identities)
        (version_id_of i.source_symbol ids) s s1 h1

persist_raw_payload-versions :
    (b : CatalogBatch) (t : CatalogTables) → (persist_raw_payload b t).0.versions ≡ t.versions
unfolding persist_raw_payload
persist_raw_payload-versions b t = found_versions (find_payload b t.raw_payloads)
  where
    found_versions : (found : _) → (persist_found b found t).0.versions ≡ t.versions
    found_versions none = refl
    found_versions (some r) = refl

validated-instruments :
    (sha256 : String → String) (b : CatalogBatch) (identities : List IdentityResolution)
    → validate_input sha256 b identities ≡ ok tt
    → check_instruments b.venue [] b.instruments ≡ ok tt
unfolding validate_input
validated-instruments sha256 b identities h =
    let (h1, k1) = >>-eq-ok (raise_if (is_naive b.observed_at.zone) naive_time) _ h in
    let (h2, k2) = >>-eq-ok (raise_if (is_naive_if b.source_at) naive_time) _ k1 in
    let (h3, k3) =
      >>-eq-ok (raise_if (not (str_eq (sha256 b.raw_payload) b.payload_hash)) bad_hash) _ k2 in
    let (h4, k4) = >>-eq-ok (raise_if (is_empty b.instruments) no_instruments) _ k3 in
    (>>-eq-ok (check_instruments b.venue [] b.instruments) _ k4).0

-- After a catalog was persisted, of each symbol of its venue as many versions are open as the
-- batch has instruments of it, one or none, where ids are different and none was open twice before.
pub persisted-count :
    (sha256 : String → String) (definition_hash semantic_hash : CatalogInstrument → String)
    (b : CatalogBatch) (identities : List IdentityResolution) (t t' : CatalogTables)
    (r : CatalogStoreResult) (symbol : String)
    → persist_catalog sha256 definition_hash semantic_hash b identities t ≡ ok (r, t')
    → IsKeyed t.versions
    → count (is_current b.venue symbol) t.versions ≤ 1
    → count (is_current b.venue symbol) t'.versions ≡ count (has_symbol symbol) b.instruments
unfolding persist_catalog
persisted-count sha256 definition_hash semantic_hash b identities t t' r symbol h keyed once =
    let (h1, k1) = >>-eq-ok (validate_input sha256 b identities) _ h in
    let stored = persist_raw_payload-versions b t in
    let (y, h2, k2) =
      >>=-eq-ok
        (sync_versions definition_hash semantic_hash b.venue b.observed_at.instant b.instruments
          (prepared b t))
        _ k1 in
    let (s, h3, k3) =
      >>=-eq-ok
        (sync_loop b.observed_at.instant (with_capabilities b y.0.tables) identities y.0.version_ids
          b.instruments (unsynced (with_capabilities b y.0.tables)))
        _ k2 in
    ap (λ (z : CatalogStoreResult × CatalogTables). count (is_current b.venue symbol) z.1.versions)
      (sym (
        ok_injective (store_result sha256 definition_hash semantic_hash b t y.0 y.1 s, s.tables)
          (r, t') k3))
    ∙ ap (count (is_current b.venue symbol)) (
        sync_loop-versions b.observed_at.instant (with_capabilities b y.0.tables) identities
          y.0.version_ids b.instruments (unsynced (with_capabilities b y.0.tables)) s h3)
    ∙ sync_versions-count definition_hash semantic_hash b.venue b.observed_at.instant b.instruments
        (prepared b t) y (validated-instruments sha256 b identities h1)
        (subst IsKeyed (sym stored) keyed) symbol
        (subst (λ rows. count (is_current b.venue symbol) rows ≤ 1) (sym stored) once) h2
