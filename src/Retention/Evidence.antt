-- ===== src/Retention/Evidence.antt =====
-- Rows of a partition are deleted only under a confirmed archive that holds them as they are.
use prep_watchdeck.Prelude.{
  ℕ, ◌≤◌, ◌<◌, ◌≡◌, ◌⊎◌, refl, ap, inl, inr, Bool, true, false, not, ◌&&◌, Option, none, some, List,
  [], ◌∷◌, String, arith, filter, All, Bool-cases, Option-cases, Result, ok, err, ◌>>=◌, raise_if,
  >>-eq-ok,
}
use prep_watchdeck.Time.{DateTime}
use prep_watchdeck.Text.{str_eq_iff}
use prep_watchdeck.Venue.{Venue}
use prep_watchdeck.Retention.{
  RetentionFault, check_arguments, is_expired, normalized_retention, unreadable_manifest,
}
use prep_watchdeck.Retention.Batch.{delete_batch-keeps}
use prep_watchdeck.Retention.Archived.{
  ArchiveDataset, market_state_1m, candle_1m, funding_events, dataset_eq, TimedRow,
  NormalizedTables, rows_of, with_rows, Manifest, RetentionResult, Confirmed, confirmed_manifest,
  in_partition, has_late_correction, is_doomed, ArchiveInput, is_still_current, prune_confirmed,
  commit_archived, check_digest, prune_manifest, prune_archived_partition,
}

abbrev Outcome : Type 0
Outcome = RetentionResult × NormalizedTables

-- nothing is deleted
abbrev IsUnchanged : NormalizedTables → Outcome → Type 0
IsUnchanged t x = (x.0.normalized_deleted ≡ 0) × (x.1 ≡ t)

module _ (i : ArchiveInput) (dataset : ArchiveDataset) (venue : Venue) (date : ℕ) where
  -- A manifest of the partition, that is confirmed both when it is read and when it is locked, whose
  -- file is there with the archived checksum, and after which no row of the partition was observed.
  pub record IsArchived (t : NormalizedTables) : Type 0 where
    pub manifest : Manifest
    pub confirmed_at : ℕ
    pub read :
        confirmed_manifest dataset venue date i.manifests ≡ ok (some (manifest, confirmed_at))
    pub still_current : is_still_current manifest.manifest_id i.locked_manifests ≡ true
    pub inside : i.escapes manifest.relative_path ≡ false
    pub intact : i.digest_at manifest.relative_path ≡ some manifest.sha256
    pub in_time :
        All
          (λ r. (in_partition venue date r ≡ false) ⊎ (r.observed_at ≤ confirmed_at))
          (rows_of dataset t)

  not_late :
      (at : ℕ) (rows : List TimedRow)
      → has_late_correction venue date at rows ≡ false
      → All (λ r. (in_partition venue date r ≡ false) ⊎ (r.observed_at ≤ at)) rows
  unfolding has_late_correction
  not_late at [] h = tt
  not_late at (r ∷ rows) h = (
    elim (Bool-cases (in_partition venue date r)) [
      | inr e ↦ inl e
      | inl e ↦ inr (ground (arith, e, h))
    ],
    not_late at rows (ground (arith, h)),
  )

  digest_ok : (m : Manifest) (o : Option String) → check_digest m o ≡ none → o ≡ some m.sha256
  digest_ok m none h = absurd (cc)
  digest_ok m (some d) h = ap (λ (s : String). some s) (ground (arith, h, str_eq_iff d m.sha256))

  module _ (now n : ℕ) (t : NormalizedTables) where
    confirmed_ok :
        (m : Confirmed) (manifests : List Manifest)
        → IsUnchanged t (prune_confirmed dataset venue date now n m manifests t)
          ⊎ (is_still_current m.0.manifest_id manifests ≡ true)
            × (has_late_correction venue date m.1 (rows_of dataset t) ≡ false)
    unfolding prune_confirmed
    confirmed_ok m manifests = elim (Bool-cases (is_still_current m.0.manifest_id manifests)) [
      | inr e ↦ inl (rw e (refl, refl))
      | inl e ↦ elim (Bool-cases (has_late_correction venue date m.1 (rows_of dataset t))) [
        | inl l ↦ inl (rw (e, l) (refl, refl))
        | inr l ↦ inr (e, l)
      ]
    ]

    commit_ok : (broken : Bool) (x y : Outcome) → commit_archived broken x ≡ ok y → x ≡ y
    commit_ok true x y h = absurd (cc)
    commit_ok false x y h = cc

    IsUnchanged-ok :
        (r : RetentionResult) (x : Outcome)
        → r.normalized_deleted ≡ 0
        → ◌≡◌ {A = Result RetentionFault Outcome} (ok (r, t)) (ok x)
        → IsUnchanged t x
    IsUnchanged-ok r x z h = (ground (arith, h, z), ground (arith, h))

    manifest_ok :
        (o : Option Confirmed) (x : Outcome)
        → prune_manifest i dataset venue date now n t o ≡ ok x
        → IsUnchanged t x
          ⊎ (m : Confirmed) × (o ≡ some m)
            × (i.escapes m.0.relative_path ≡ false)
            × (i.digest_at m.0.relative_path ≡ some m.0.sha256)
            × (prune_confirmed dataset venue date now n m i.locked_manifests t ≡ x)
    unfolding prune_manifest
    manifest_ok none x h = inl (IsUnchanged-ok _ x refl h)
    manifest_ok (some m) x h = elim (Bool-cases (i.escapes m.0.relative_path)) [
      | inl e ↦ absurd (ground (arith, e, h))
      | inr e ↦ elim (Option-cases (check_digest m.0 (i.digest_at m.0.relative_path))) [
        | inr (reason, d) ↦ inl (IsUnchanged-ok _ x refl (rw (e, d) at h))
        | inl d ↦ inr (m, refl, e, digest_ok m.0 _ d, commit_ok i.broken _ x (rw (e, d) at h))
      ]
    ]

    bind_ok :
        {A B : Type 0} (r : Result RetentionFault A) (k : A → Result RetentionFault B) (x : B)
        → (r >>= k) ≡ ok x
        → (a : A) × (r ≡ ok a) × (k a ≡ ok x)
    bind_ok (ok a) k x h = (a, refl, h)
    bind_ok (err e) k x h = absurd (cc)

  -- what a run that returns did
  partition_ok :
      (now : DateTime) (n : ℕ) (t : NormalizedTables) (x : Outcome)
      → prune_archived_partition i dataset venue date now n t ≡ ok x
      → IsUnchanged t x
        ⊎ (m : Confirmed) × (confirmed_manifest dataset venue date i.manifests ≡ ok (some m))
          × (i.escapes m.0.relative_path ≡ false)
          × (i.digest_at m.0.relative_path ≡ some m.0.sha256)
          × (prune_confirmed dataset venue date now.instant n m i.locked_manifests t ≡ x)
  unfolding prune_archived_partition
  partition_ok now n t x h =
      let (checked, r) = >>-eq-ok (check_arguments now n) _ h in
      let (readable, s) = >>-eq-ok (raise_if i.unreadable unreadable_manifest) _ r in
      let (o, found, rest) =
        bind_ok now.instant n t (confirmed_manifest dataset venue date i.manifests) _ x s in
      elim (manifest_ok now.instant n t o x rest) [
        | inl u ↦ inl u
        | inr (m, is_m, e, d, p) ↦ inr (m, rw (← is_m) found, e, d, p)
      ]

  -- A run that deletes rows has, for their partition, a manifest that was confirmed both when it was
  -- read and when it was locked, whose path stays below the archive's root, whose file has the
  -- archived checksum, and after whose confirmation no row of the partition was observed.
  pub deletes-IsArchived :
      (now : DateTime) (n : ℕ) (t : NormalizedTables) (x : Outcome)
      → prune_archived_partition i dataset venue date now n t ≡ ok x
      → 0 < x.0.normalized_deleted
      → IsArchived t
  deletes-IsArchived now n t x h pos = elim (partition_ok now n t x h) [
    | inl u ↦ absurd (omega (arith, u.0, pos))
    | inr (m, read, e, d, p) ↦ elim (confirmed_ok now.instant n t m i.locked_manifests) [
      | inl u ↦ absurd (let z = rw p at u in omega (arith, z.0, pos))
      | inr (current, late) ↦ record {
        manifest = m.0;
        confirmed_at = m.1;
        read = read;
        still_current = current;
        inside = e;
        intact = d;
        in_time = not_late m.1 (rows_of dataset t) late;
      }
    ]
  ]

-- rows of another table or partition, or younger than the retention
unfoldable pub stays : Bool → Venue → ℕ → ℕ → TimedRow → Bool
stays same venue date now r =
    not (same && in_partition venue date r && is_expired normalized_retention now r.at)

with_rows_kept :
    (d s : ArchiveDataset) (q : Bool → TimedRow → Bool) (rest : List TimedRow)
    (t : NormalizedTables)
    → filter (q true) rest ≡ filter (q true) (rows_of s t)
    → filter (q (dataset_eq d s)) (rows_of d (with_rows s rest t))
      ≡ filter (q (dataset_eq d s)) (rows_of d t)
with_rows_kept market_state_1m market_state_1m q rest t h = h
with_rows_kept market_state_1m candle_1m q rest t h = refl
with_rows_kept market_state_1m funding_events q rest t h = refl
with_rows_kept candle_1m market_state_1m q rest t h = refl
with_rows_kept candle_1m candle_1m q rest t h = h
with_rows_kept candle_1m funding_events q rest t h = refl
with_rows_kept funding_events market_state_1m q rest t h = refl
with_rows_kept funding_events candle_1m q rest t h = refl
with_rows_kept funding_events funding_events q rest t h = h

stays_not_doomed :
    (venue : Venue) (date now at : ℕ) (r : TimedRow)
    → stays true venue date now r ≡ true
    → is_doomed venue date now at r ≡ false
unfolding stays is_doomed
stays_not_doomed venue date now at r h = ground (arith, h)

confirmed_keeps :
    (d dataset : ArchiveDataset) (venue : Venue) (date now n : ℕ) (m : Confirmed)
    (manifests : List Manifest) (t : NormalizedTables)
    → filter
        (stays (dataset_eq d dataset) venue date now)
        (rows_of d (prune_confirmed dataset venue date now n m manifests t).1)
      ≡ filter (stays (dataset_eq d dataset) venue date now) (rows_of d t)
unfolding prune_confirmed
confirmed_keeps d dataset venue date now n m manifests t =
    elim (Bool-cases (is_still_current m.0.manifest_id manifests)) [
      | inr e ↦ rw e refl
      | inl e ↦ elim (Bool-cases (has_late_correction venue date m.1 (rows_of dataset t))) [
        | inl l ↦ rw (e, l) refl
        | inr l ↦
            rw (e, l)
              (with_rows_kept d dataset (λ b r. stays b venue date now r) _ t
                (delete_batch-keeps (is_doomed venue date now m.1) (λ r. r.at)
                  (stays true venue date now) (λ r h. stays_not_doomed venue date now m.1 r h) n
                  (rows_of dataset t)))
      ]
    ]

-- A run that returns keeps, in their order, all rows of the other two tables, of other venues and
-- dates, and of the partition all rows younger than eight days.
pub partition_keeps :
    (i : ArchiveInput) (dataset d : ArchiveDataset) (venue : Venue) (date : ℕ) (now : DateTime)
    (n : ℕ) (t : NormalizedTables) (x : RetentionResult × NormalizedTables)
    → prune_archived_partition i dataset venue date now n t ≡ ok x
    → filter (stays (dataset_eq d dataset) venue date now.instant) (rows_of d x.1)
      ≡ filter (stays (dataset_eq d dataset) venue date now.instant) (rows_of d t)
partition_keeps i dataset d venue date now n t x h =
    elim (partition_ok i dataset venue date now n t x h) [
      | inl u ↦
          ap
            (λ (s : NormalizedTables).
              filter (stays (dataset_eq d dataset) venue date now.instant) (rows_of d s))
            u.1
      | inr (m, read, e, k, p) ↦
          rw (← p) (confirmed_keeps d dataset venue date now.instant n m i.locked_manifests t)
    ]
