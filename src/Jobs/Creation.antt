-- ===== src/Jobs/Creation.antt =====
-- `create_job`.
use poor_travel_agent.Base.{
  ℕ, String, Bool, false, not, ◌||◌, Option, none, some, List, [], ◌∷◌, any, length, ◌==◌,
  if◌then◌else◌,
}
use poor_travel_agent.Base.Effect.{ok, raised}
use poor_travel_agent.Base.Dict.{Dict, lookup, put, has_key}
use poor_travel_agent.Sync.Changes.{ScannedFile, kind_text}
use poor_travel_agent.Jobs.Tables.{
  conflict, integrity_error, queued, job_queued, Item, Job, SyncPlan, SourceSync, Db, Context, Jobs,
}
use poor_travel_agent.Jobs.Refresh.{append_event, refresh_job, sync_or_empty, is_at_base, set_plan}

-- The arguments that a row keeps, and the random ids that the call draws, one for the job and one for
-- each file.
pub record NewJob : Type 0 where
  pub job_id : String
  pub source_id : String
  pub sync_plan_id : Option String
  pub max_attempts : ℕ
  pub files : List (String × ScannedFile)

abbrev pub new_item : NewJob → ScannedFile → Item
new_item n f = record {
  job_id = n.job_id;
  source_id = n.source_id;
  relative_path = f.relative_path;
  source_revision = f.source_revision;
  change_kind = kind_text f.change_kind;
  idempotency_key = f.idempotency_key;
  status = queued;
  attempts = 0;
  max_attempts = n.max_attempts;
  lease_owner = none;
  lease_expires_at = none;
  next_attempt_at = none;
  proposal_id = none;
  error = none;
}

abbrev pub new_job : NewJob → Job
new_job n = record {
  source_id = n.source_id;
  sync_plan_id = n.sync_plan_id;
  status = job_queued;
  cancel_requested = false;
  event_sequence = 0;
  total_items = length n.files;
  processed_items = 0;
  succeeded_items = 0;
  skipped_items = 0;
  failed_items = 0;
  cancelled_items = 0;
  started_at = none;
  completed_at = none;
}

unfoldable pub add_items : NewJob → List (String × ScannedFile) → Dict Item → Dict Item
add_items n [] d = d
add_items n ((id, f) ∷ fs) d = add_items n fs (put id (new_item n f) d)

abbrev has_path : String → List (String × ScannedFile) → Bool
has_path path fs = any (λ e. e.1.relative_path == path) fs

-- an id that is taken, or a path twice (`knowledge_item_job_path_key`)
unfoldable pub clashes : NewJob → List (String × ScannedFile) → Dict Item → Bool
clashes n [] d = false
clashes n ((id, f) ∷ fs) d =
    let rest = clashes n fs (put id (new_item n f) d) in
    has_key id d || has_path f.relative_path fs || rest

-- the rows of a new job, with its first event
unfoldable pub opened : NewJob → Db → Db
opened n db =
    append_event n.job_id none "job" "queued" (new_job n)
      (record db { items = add_items n n.files db.items })

abbrev pub refresh_if_empty : Context → NewJob → List (String × ScannedFile) → Db → Db
refresh_if_empty c n [] db = refresh_job c n.job_id db
refresh_if_empty c n (f ∷ fs) db = db

-- the foreign key of a job on its source
abbrev pub has_source : String → List String → Bool
has_source id sources = any (λ s. s == id) sources

-- A source that is not there, or a clash, ends the transaction, whose plan and source are then as
-- `before`.
abbrev pub insert_job : Context → NewJob → Db → Jobs String
insert_job c n before db =
    if not (has_source n.source_id db.sources)
      || has_key n.job_id db.jobs
      || clashes n n.files db.items
    then (raised integrity_error, before)
    else (ok n.job_id, refresh_if_empty c n n.files (opened n db))

-- the job of a plan
unfoldable pub job_of_plan : String → Dict Job → Option String
job_of_plan plan_id [] = none
job_of_plan plan_id ((id, j) ∷ d) =
    let rest = job_of_plan plan_id d in
    if elim j.sync_plan_id [ none ↦ false | some p ↦ p == plan_id ] then some id else rest

abbrev pub start_plan : Context → NewJob → String → SyncPlan → SourceSync → Jobs String
start_plan c n plan_id plan sync db =
    if not (plan.status == "planned") || not (is_at_base sync plan)
    then (raised conflict, db)
    else insert_job c n db (set_plan plan_id plan sync "running" "running" db)

abbrev pub by_existing : Context → NewJob → String → SyncPlan → Option String → Jobs String
by_existing c n plan_id plan (some id) db = (ok id, db)
by_existing c n plan_id plan none db =
    start_plan c n plan_id plan (sync_or_empty (lookup plan.source_id db.syncs)) db

abbrev pub by_plan : Context → NewJob → String → Option SyncPlan → Jobs String
by_plan c n plan_id none db = (raised conflict, db)
by_plan c n plan_id (some plan) db = by_existing c n plan_id plan (job_of_plan plan_id db.jobs) db

abbrev pub create_by : Context → NewJob → Option String → Jobs String
create_by c n none db = insert_job c n db db
create_by c n (some plan_id) db = by_plan c n plan_id (lookup plan_id db.plans) db

unfoldable pub create_job : Context → NewJob → Jobs String
create_job c n db = create_by c n n.sync_plan_id db
