-- ===== src/Sync/Changes.antt =====
-- `build_sync_changes` and `build_manifest_hash`, with a manifest as a dict from a path to its
-- revision and its status.
use poor_travel_agent.Base.{
  ℕ, String, Bool, not, ◌||◌, Option, none, some, List, [], ◌∷◌, ◌++◌, any, eqb, is_some, ◌==◌,
  if◌then◌else◌,
}
use poor_travel_agent.Base.Text.{codes, strip}
use poor_travel_agent.Base.Effect.{Result, ok, raised}
use poor_travel_agent.Base.Dict.{Dict, lookup, put}
use poor_travel_agent.Policy.Paths.{same_text, is_absolute, has_parent, as_posix, starts_with}
use poor_travel_agent.Sync.Sorted.{sorted}

pub data Error : Type 0 where
  value_error : Error

pub data ChangeKind : Type 0 where
  added modified deleted : ChangeKind

pub record ScannedFile : Type 0 where
  pub relative_path : String
  pub source_revision : String
  pub idempotency_key : String
  pub change_kind : ChangeKind

pub record SyncChange : Type 0 where
  pub relative_path : String
  pub change_kind : ChangeKind
  pub previous_revision : Option String
  pub source_revision : Option String
  pub idempotency_key : String

abbrev pub Manifest : Type 0
Manifest = Dict (String × String)

-- The arguments that only go into a key, and `sha256(text.encode()).hexdigest()`.
pub record Context : Type 0 where
  pub workspace_id : String
  pub source_root_id : String
  pub pipeline_version : String
  pub sha256_hex : List ℕ → String

abbrev or_dot : List ℕ → List ℕ
or_dot [] = codes "."
or_dot (c ∷ s) = c ∷ s

unfoldable pub normalize_directory : String → Result Error (List ℕ)
normalize_directory value =
    let normalized = or_dot (strip (codes value)) in
    if is_absolute normalized || has_parent normalized || any (eqb 92) normalized
    then raised value_error
    else ok (as_posix normalized)

abbrev pub kind_text : ChangeKind → String
kind_text added = "added"
kind_text modified = "modified"
kind_text deleted = "deleted"

abbrev join_nul : List String → List ℕ
join_nul [] = []
join_nul (s ∷ []) = codes s
join_nul (s ∷ t ∷ ss) = codes s ++ 0 ∷ join_nul (t ∷ ss)

abbrev key_parts : Context → String → ChangeKind → String → List String
key_parts c path added revision =
    c.workspace_id ∷ c.source_root_id ∷ path ∷ revision ∷ c.pipeline_version ∷ []
key_parts c path kind revision =
    c.workspace_id ∷ c.source_root_id ∷ path ∷ kind_text kind ∷ revision ∷ c.pipeline_version ∷ []

unfoldable pub idempotency_key : Context → String → ChangeKind → String → String
idempotency_key c path kind revision = c.sha256_hex (join_nul (key_parts c path kind revision))

-- {item.relative_path: item for item in scanned}, onto a dict
unfoldable pub put_scanned : List ScannedFile → Dict ScannedFile → Dict ScannedFile
put_scanned [] d = d
put_scanned (s ∷ ss) d = put_scanned ss (put s.relative_path s d)

abbrev pub current_files : List ScannedFile → Dict ScannedFile
current_files scanned = put_scanned scanned []

abbrev change_to : Context → String → ScannedFile → ChangeKind → Option String → List SyncChange
change_to c path item kind previous =
    record {
      relative_path = path;
      change_kind = kind;
      previous_revision = previous;
      source_revision = some item.source_revision;
      idempotency_key = idempotency_key c path kind item.source_revision;
    }
    ∷ []

-- the change of a scanned path, from what the manifest says of it
unfoldable pub scanned_change :
    Context → String → ScannedFile → Option (String × String) → List SyncChange
scanned_change c path item none = change_to c path item added none
scanned_change c path item (some (revision, status)) =
    if status == "present"
    then (if revision == item.source_revision
        then []
        else change_to c path item modified (some revision))
    else change_to c path item added (some revision)

-- whether a path is below the directory of the scan
unfoldable pub is_in_scope : List ℕ → String → Bool
is_in_scope scope path =
    same_text scope (b'.' ∷ []) || starts_with (codes path) (scope ++ b'/' ∷ [])

-- the change of a path of the manifest, from its scanned file
unfoldable pub deleted_change :
    Context → List ℕ → Option ScannedFile → String → String × String → List SyncChange
deleted_change c scope found path (revision, status) =
    if not (status == "present") || is_some found || not (is_in_scope scope path)
    then []
    else record {
      relative_path = path;
      change_kind = deleted;
      previous_revision = some revision;
      source_revision = none;
      idempotency_key = idempotency_key c path deleted revision;
    }
      ∷ []

-- `for x in xs: changes += f(x)`
unfoldable pub collect {ℓ} : {A : Type ℓ} → (A → List SyncChange) → List A → List SyncChange
collect f [] = []
collect f (x ∷ xs) = f x ++ collect f xs

-- The keys of a dict are distinct, so its items are sorted by their keys.
abbrev pub sorted_items : {V : Type 0} → Dict V → List (String × V)
sorted_items d = sorted (λ e. e.0) d

unfoldable pub changes_in : Context → List ℕ → Dict ScannedFile → Manifest → List SyncChange
changes_in c scope current previous = sorted SyncChange.relative_path (
    collect (λ e. scanned_change c e.0 e.1 (lookup e.0 previous)) (sorted_items current)
    ++ collect (λ e. deleted_change c scope (lookup e.0 current) e.0 e.1) (sorted_items previous))

unfoldable pub build_sync_changes :
    Context → String → List ScannedFile → Manifest → Result Error (List SyncChange)
build_sync_changes c relative_directory scanned previous =
    elim (normalize_directory relative_directory) [
      | raised e ↦ raised e
      | ok scope ↦ ok (changes_in c scope (current_files scanned) previous)
    ]

-- the row that a change writes
abbrev pub row_of : SyncChange → Option (String × String)
row_of change = by change.change_kind
  where
    with_status : String → Option String → Option (String × String)
    with_status s none = none
    with_status s (some r) = some (r, s)

    by : ChangeKind → Option (String × String)
    by deleted = with_status "deleted" change.previous_revision
    by kind = with_status "present" change.source_revision

-- `target` of `build_manifest_hash`
unfoldable pub target_manifest : List SyncChange → Manifest → Result Error Manifest
target_manifest [] m = ok m
target_manifest (change ∷ changes) m = elim (row_of change) [
  | none ↦ raised value_error
  | some row ↦ target_manifest changes (put change.relative_path row m)
]
