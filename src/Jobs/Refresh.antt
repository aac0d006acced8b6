-- ===== src/Jobs/Refresh.antt =====
-- `_append_event`, `_refresh_job` and `_finalize_sync_plan`.
use poor_travel_agent.Base.{
  ℕ, ◌+◌, String, Bool, true, false, ◌&&◌, ◌||◌, Option, none, some, [], ◌∷◌, ◌++◌, eqb, ◌==◌,
  if◌then◌else◌,
}
use poor_travel_agent.Base.Dict.{Dict, lookup, put}
use poor_travel_agent.Jobs.Tables.{
  ItemStatus, completed, skipped, cancelled, dead_letter, JobStatus, running, cancelling,
  job_cancelled, job_completed, completed_with_errors, job_status_text, is_over, Item, Job,
  SyncPlan, SourceSync, ManifestRow, Db, Context,
}

abbrev pub is_completed : ItemStatus → Bool
is_completed completed = true
is_completed _ = false

abbrev pub is_skipped : ItemStatus → Bool
is_skipped skipped = true
is_skipped _ = false

abbrev pub is_cancelled : ItemStatus → Bool
is_cancelled cancelled = true
is_cancelled _ = false

abbrev pub is_dead_letter : ItemStatus → Bool
is_dead_letter dead_letter = true
is_dead_letter _ = false

-- SELECT count(*) … WHERE, over the items
unfoldable pub tally : (Item → Bool) → Dict Item → ℕ
tally p [] = 0
tally p ((id, i) ∷ d) = (if p i then 1 else 0) + tally p d

abbrev pub of_job : String → (ItemStatus → Bool) → Item → Bool
of_job job_id p i = i.job_id == job_id && p i.status

unfoldable pub append_event : String → Option String → String → String → Job → Db → Db
append_event job_id item_id kind status job db = record db {
  jobs = put job_id (record job { event_sequence = job.event_sequence + 1 }) db.jobs;
  events =
      db.events
      ++ record {
        job_id = job_id;
        item_id = item_id;
        sequence = job.event_sequence + 1;
        kind = kind;
        status = status;
      }
        ∷ [];
}

-- the status that the counts give
unfoldable pub next_status : Bool → ℕ → ℕ → ℕ → JobStatus
next_status cancel processed total failed =
    if eqb processed total
    then (if cancel
        then job_cancelled
        else (if eqb failed 0 then job_completed else completed_with_errors))
    else (if cancel then cancelling else running)

unfoldable pub same_job_status : JobStatus → JobStatus → Bool
same_job_status a b = job_status_text a == job_status_text b

unfoldable pub processed_of : String → Dict Item → ℕ
processed_of job_id items =
    tally (of_job job_id is_completed) items
    + tally (of_job job_id is_skipped) items
    + tally (of_job job_id is_cancelled) items
    + tally (of_job job_id is_dead_letter) items

unfoldable pub recounted : Context → String → Job → Dict Item → Job
recounted c job_id job items = record {
  source_id = job.source_id;
  sync_plan_id = job.sync_plan_id;
  status =
      next_status job.cancel_requested (processed_of job_id items) job.total_items
        (tally (of_job job_id is_dead_letter) items);
  cancel_requested = job.cancel_requested;
  event_sequence = job.event_sequence;
  total_items = job.total_items;
  processed_items = processed_of job_id items;
  succeeded_items = tally (of_job job_id is_completed) items;
  skipped_items = tally (of_job job_id is_skipped) items;
  failed_items = tally (of_job job_id is_dead_letter) items;
  cancelled_items = tally (of_job job_id is_cancelled) items;
  started_at = job.started_at;
  completed_at =
      (if eqb (processed_of job_id items) job.total_items then some c.now else job.completed_at);
}

abbrev empty_sync : SourceSync
empty_sync = record {
  watermark = 0;
  manifest_hash = "";
  adapter_id = "";
  adapter_version = "";
  adapter_checkpoint = none;
  resume_cursor = none;
  scan_status = "idle";
  last_error_code = none;
  last_error_message = none;
  last_scan_completed_at = none;
  last_plan_id = none;
  last_job_id = none;
}

abbrev pub sync_or_empty : Option SourceSync → SourceSync
sync_or_empty none = empty_sync
sync_or_empty (some s) = s

abbrev same_text : Option String → Option String → Bool
same_text none none = true
same_text (some a) (some b) = a == b
same_text _ _ = false

unfoldable pub is_at_base : SourceSync → SyncPlan → Bool
is_at_base sync plan =
    eqb sync.watermark plan.base_watermark
    && sync.adapter_id == plan.adapter_id
    && sync.adapter_version == plan.adapter_version
    && same_text sync.adapter_checkpoint plan.base_checkpoint

abbrev manifest_row : String → Item → Option ManifestRow → ManifestRow
manifest_row job_id i none = record {
  source_id = i.source_id;
  relative_path = i.relative_path;
  source_revision = i.source_revision;
  status = (if i.change_kind == "deleted" then "deleted" else "present");
  last_job_id = job_id;
}
manifest_row job_id i (some row) = record {
  source_id = row.source_id;
  relative_path = row.relative_path;
  source_revision = i.source_revision;
  status = (if i.change_kind == "deleted" then "deleted" else "present");
  last_job_id = job_id;
}

abbrev is_done : ItemStatus → Bool
is_done completed = true
is_done skipped = true
is_done _ = false

-- the rows of the manifest for the completed and the skipped items of a job
unfoldable pub commit_manifest : Context → String → Dict Item → Dict ManifestRow → Dict ManifestRow
commit_manifest c job_id [] m = m
commit_manifest c job_id ((id, i) ∷ d) m = commit_manifest c job_id d (
    if of_job job_id is_done i
    then put (c.manifest_id i.source_id i.relative_path)
        (manifest_row job_id i (lookup (c.manifest_id i.source_id i.relative_path) m)) m
    else m)

abbrev pub is_settled : SyncPlan → Bool
is_settled plan =
    plan.status == "completed" || plan.status == "cancelled" || plan.status == "conflict"

-- a plan and its source with a new status each, and the source's row written if it was missing
abbrev pub set_plan : String → SyncPlan → SourceSync → String → String → Db → Db
set_plan plan_id plan sync plan_status scan_status db = record db {
  plans = put plan_id (record plan { status = plan_status }) db.plans;
  syncs = put plan.source_id (record sync { scan_status = scan_status }) db.syncs;
}

abbrev pub set_status : String → Job → JobStatus → Db → Db
set_status job_id job status db = record db {
  jobs = put job_id (record job { status = status }) db.jobs;
}

abbrev pub commit_plan : Context → String → String → SyncPlan → SourceSync → Db → Db
commit_plan c job_id plan_id plan sync db = record db {
  plans = put plan_id (record plan { status = "completed" }) db.plans;
  syncs =
      put plan.source_id
        (record sync {
          watermark = plan.target_watermark;
          manifest_hash = plan.manifest_hash;
          adapter_checkpoint = plan.target_checkpoint;
          resume_cursor = none;
          scan_status = "idle";
          last_error_code = none;
          last_error_message = none;
          last_scan_completed_at = some c.now;
          last_plan_id = some plan_id;
          last_job_id = some job_id;
        })
        db.syncs;
  manifest = commit_manifest c job_id db.items db.manifest;
}

abbrev pub finalize_by :
    Context → String → String → Job → SyncPlan → SourceSync → JobStatus → Db → Db
finalize_by c job_id plan_id job plan sync job_completed db =
    if is_at_base sync plan
    then commit_plan c job_id plan_id plan sync db
    else set_status job_id job completed_with_errors
        (set_plan plan_id plan sync "conflict" "conflict" db)
finalize_by c job_id plan_id job plan sync job_cancelled db =
    set_plan plan_id plan sync "cancelled" "cancelled" db
finalize_by c job_id plan_id job plan sync _ db =
    set_plan plan_id plan sync "retryable" "retryable" db

abbrev pub finalize_plan : Context → String → String → Job → Option SyncPlan → Db → Db
finalize_plan c job_id plan_id job none db = db
finalize_plan c job_id plan_id job (some plan) db =
    if is_settled plan
    then db
    else finalize_by c job_id plan_id job plan (sync_or_empty (lookup plan.source_id db.syncs))
        job.status db

unfoldable pub finalize_sync_plan : Context → String → Job → Option String → Db → Db
finalize_sync_plan c job_id job none db = db
finalize_sync_plan c job_id job (some plan_id) db =
    if plan_id == "" then db else finalize_plan c job_id plan_id job (lookup plan_id db.plans) db

-- the row of a job, and the event when the status is a new one
abbrev pub announce : String → JobStatus → Job → Db → Db
announce job_id previous job db =
    if same_job_status job.status previous
    then record db { jobs = put job_id job db.jobs }
    else append_event job_id none "job" (job_status_text job.status) job db

abbrev pub numbered : JobStatus → Job → Job
numbered previous job =
    if same_job_status job.status previous
    then job
    else record job { event_sequence = job.event_sequence + 1 }

abbrev pub finalize_if_over : Context → String → Job → Db → Db
finalize_if_over c job_id job db =
    if is_over job.status then finalize_sync_plan c job_id job job.sync_plan_id db else db

abbrev pub refresh_found : Context → String → Option Job → Db → Db
refresh_found c job_id none db = db
refresh_found c job_id (some job) db =
    let new = recounted c job_id job db.items in
    finalize_if_over c job_id (numbered job.status new) (announce job_id job.status new db)

unfoldable pub refresh_job : Context → String → Db → Db
refresh_job c job_id db = refresh_found c job_id (lookup job_id db.jobs) db
