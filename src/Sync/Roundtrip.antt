-- ===== src/Sync/Roundtrip.antt =====
-- Applying the changes of a scan makes the manifest say what was scanned.
use poor_travel_agent.Base.{
  ℕ, String, ◌&&◌, ◌≡◌, refl, ap, ◌∙◌, Option, none, some, List, [], ◌∷◌, ◌++◌, filter, arith,
  Bool-cases, inl, inr, ◌==◌, eq_refl,
}
use poor_travel_agent.Base.Effect.{ok, raised}
use poor_travel_agent.Base.Dict.{IsDict, Dict, lookup}
use poor_travel_agent.Sync.Sorted.{at}
use poor_travel_agent.Sync.Changes.{
  ScannedFile, SyncChange, Manifest, Context, scanned_change, deleted_change, is_in_scope,
  changes_in, current_files, normalize_directory, build_sync_changes, target_manifest,
}
use poor_travel_agent.Sync.Rows.{current_files-IsDict, scanned_of, deleted_of, filter-changes_in}
use poor_travel_agent.Sync.Target.{synced_row, IsSynced, changes_in-IsSynced}

built :
    (c : Context) (directory : String) (scope : List ℕ) (scanned : List ScannedFile)
    (previous : Manifest)
    → normalize_directory directory ≡ ok scope
    → build_sync_changes c directory scanned previous
      ≡ ok (changes_in c scope (current_files scanned) previous)
unfolding build_sync_changes
built c directory scope scanned previous e =
    ap
      (λ r. elim r [
        | raised x ↦ raised x
        | ok s ↦ ok (changes_in c s (current_files scanned) previous)
      ])
      e

-- For a manifest without a path twice and a valid directory, `build_sync_changes` returns, and the
-- loop of `build_manifest_hash` turns the old manifest and those changes into one, without a path
-- twice, in which every scanned path is present with its last scanned revision, every path of the
-- directory that was present and is not scanned is deleted, and every other row is as it was.
pub target-build_sync_changes :
    (c : Context) (directory : String) (scope : List ℕ) (scanned : List ScannedFile)
    (previous : Manifest)
    → IsDict previous
    → normalize_directory directory ≡ ok scope
    → (changes : List SyncChange) × (build_sync_changes c directory scanned previous ≡ ok changes)
      × IsSynced changes scope (current_files scanned) previous
target-build_sync_changes c directory scope scanned previous h e = (
  changes_in c scope (current_files scanned) previous,
  built c directory scope scanned previous e,
  changes_in-IsSynced c scope (current_files scanned) previous (current_files-IsDict scanned) h,
)

no_change :
    (c : Context) (scope : List ℕ) (current : Dict ScannedFile) (previous target : Manifest)
    (p : String) (s : Option ScannedFile) (o t : Option (String × String))
    → lookup p current ≡ s
    → lookup p target ≡ t
    → t ≡ synced_row scope p s o
    → scanned_of c target p s ++ deleted_of c scope current p t ≡ []
unfolding scanned_change deleted_change
no_change c scope current previous target p (some s) o t a b e =
    rw e (rw (b ∙ e) (rw a (ground (arith, eq_refl s.source_revision))))
no_change c scope current previous target p none none t a b e = rw e refl
no_change c scope current previous target p none (some (revision, status)) t a b e =
    elim (Bool-cases (status == "present" && is_in_scope scope p)) [
      | inl gone ↦ rw e (rw gone refl)
      | inr stays ↦ rw e (rw (stays, a) (ground (arith, stays)))
    ]

-- a list in which no key occurs is empty
empty_of :
    (xs : List SyncChange)
    → ((p : String) → filter (at SyncChange.relative_path p) xs ≡ [])
    → xs ≡ []
empty_of [] h = refl
empty_of (x ∷ xs) h = absurd (ground (arith, h x.relative_path, eq_refl x.relative_path))

no_second_changes :
    (c : Context) (scope : List ℕ) (scanned : List ScannedFile) (previous : Manifest)
    → (changes : List SyncChange) → (h : IsSynced changes scope (current_files scanned) previous)
    → changes_in c scope (current_files scanned) h.target ≡ []
no_second_changes c scope scanned previous changes h = empty_of _ (λ p.
    filter-changes_in c scope (current_files scanned) h.target p (current_files-IsDict scanned)
      h.is_dict
    ∙ no_change c scope (current_files scanned) previous h.target p
        (lookup p (current_files scanned)) (lookup p previous) (lookup p h.target) refl refl
        (h.rows p))

-- For a manifest without a path twice and a valid directory: once the changes of a scan are applied, the
-- same scan gives no change at all.
pub second_scan_is_empty :
    (c : Context) (directory : String) (scope : List ℕ) (scanned : List ScannedFile)
    (previous : Manifest)
    → IsDict previous
    → normalize_directory directory ≡ ok scope
    → (changes : List SyncChange) × ((target : Manifest) × ((build_sync_changes c directory scanned
              previous
            ≡ ok changes)
          × ((target_manifest changes previous ≡ ok target)
              × (build_sync_changes c directory scanned target ≡ ok []))))
second_scan_is_empty c directory scope scanned previous h e =
    let (changes, returned, synced) =
      target-build_sync_changes c directory scope scanned previous h e in
    (
      changes,
      (
        synced.target,
        (
          returned,
          (
            synced.is_target,
            built c directory scope scanned synced.target e
                ∙ ap ok (no_second_changes c scope scanned previous changes synced),
          ),
        ),
      ),
    )
