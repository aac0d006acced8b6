-- ===== src/Sync/Tests.antt =====
-- The theorems on the changes of a scan at a concrete one: a file is new, one is modified, one is gone.
use poor_travel_agent.Base.{String, ◌≡◌, refl, List, [], ◌∷◌}
use poor_travel_agent.Base.Effect.{ok}
use poor_travel_agent.Base.Text.{codes, strip, is_space}
use poor_travel_agent.Base.Dict.{lookup}
use poor_travel_agent.Policy.Paths.{
  as_posix, parts, split_slash, without_dots, join_slash, same_text, starts_with,
}
use poor_travel_agent.Sync.Changes.{
  added, ScannedFile, SyncChange, Manifest, Context, current_files, normalize_directory,
  build_sync_changes, target_manifest,
}
use poor_travel_agent.Base.Dict.{IsDict}
use poor_travel_agent.Sync.Target.{IsSynced}
use poor_travel_agent.Sync.Roundtrip.{target-build_sync_changes, second_scan_is_empty}

abbrev context : Context
context = record {
  workspace_id = "w";
  source_root_id = "s";
  pipeline_version = "1";
  sha256_hex = λ text. "";
}

abbrev file : String → String → ScannedFile
file path revision = record {
  relative_path = path;
  source_revision = revision;
  idempotency_key = "";
  change_kind = added;
}

abbrev scan : List ScannedFile
scan = file "docs/b.md" "2" ∷ file "docs/a.md" "1" ∷ []

abbrev before : Manifest
before =
    ("docs/b.md", ("1", "present"))
    ∷ ("docs/c.md", ("1", "present"))
    ∷ ("x.md", ("1", "present"))
    ∷ []

before-IsDict : IsDict before
unfolding IsDict lookup
before-IsDict = (refl, (refl, (refl, tt)))

docs : normalize_directory " docs/ " ≡ ok (codes "docs")
unfolding normalize_directory as_posix parts split_slash without_dots join_slash same_text
    starts_with strip is_space
docs = refl

target-build_sync_changes_example :
    (changes : List SyncChange) × (build_sync_changes context " docs/ " scan before ≡ ok changes)
    × IsSynced changes (codes "docs") (current_files scan) before
target-build_sync_changes_example =
    target-build_sync_changes context " docs/ " (codes "docs") scan before before-IsDict docs

second_scan_is_empty_example :
    (changes : List SyncChange) × ((target : Manifest) × ((build_sync_changes context " docs/ " scan
            before
          ≡ ok changes)
        × ((target_manifest changes before ≡ ok target)
            × (build_sync_changes context " docs/ " scan target ≡ ok []))))
second_scan_is_empty_example =
    second_scan_is_empty context " docs/ " (codes "docs") scan before before-IsDict docs
