-- ===== src/Jobs/Tables.antt =====
-- The tables of the repository that the model keeps, from db/models.py, and what a call is given.
-- Times are ticks of the clock; `created_at` and `updated_at` are left out.
use poor_travel_agent.Base.{ℕ, String, Bool, true, false, Option, List}
use poor_travel_agent.Base.Effect.{Op}
use poor_travel_agent.Base.Dict.{Dict}

pub data Error : Type 0 where
  not_found conflict value_error integrity_error : Error

pub data ItemStatus : Type 0 where
  queued retry_wait external_wait : ItemStatus
  claimed parsing understanding applying : ItemStatus
  completed skipped cancelled dead_letter : ItemStatus

abbrev pub status_text : ItemStatus → String
status_text queued = "queued"
status_text retry_wait = "retry_wait"
status_text external_wait = "external_wait"
status_text claimed = "claimed"
status_text parsing = "parsing"
status_text understanding = "understanding"
status_text applying = "applying"
status_text completed = "completed"
status_text skipped = "skipped"
status_text cancelled = "cancelled"
status_text dead_letter = "dead_letter"

-- TERMINAL_ITEM_STATUSES
abbrev pub is_ended : ItemStatus → Bool
is_ended completed = true
is_ended skipped = true
is_ended cancelled = true
is_ended dead_letter = true
is_ended _ = false

-- the statuses under a lease
abbrev pub is_leased : ItemStatus → Bool
is_leased claimed = true
is_leased parsing = true
is_leased understanding = true
is_leased applying = true
is_leased _ = false

-- the statuses that a claim may leave
abbrev pub is_waiting : ItemStatus → Bool
is_waiting queued = true
is_waiting retry_wait = true
is_waiting external_wait = true
is_waiting _ = false

pub data JobStatus : Type 0 where
  job_queued running cancelling job_cancelled job_completed completed_with_errors : JobStatus

abbrev pub job_status_text : JobStatus → String
job_status_text job_queued = "queued"
job_status_text running = "running"
job_status_text cancelling = "cancelling"
job_status_text job_cancelled = "cancelled"
job_status_text job_completed = "completed"
job_status_text completed_with_errors = "completed_with_errors"

-- TERMINAL_JOB_STATUSES
abbrev pub is_over : JobStatus → Bool
is_over job_cancelled = true
is_over job_completed = true
is_over completed_with_errors = true
is_over _ = false

pub record Item : Type 0 where
  pub job_id : String
  pub source_id : String
  pub relative_path : String
  pub source_revision : String
  pub change_kind : String
  pub idempotency_key : String
  pub status : ItemStatus
  pub attempts : ℕ
  pub max_attempts : ℕ
  pub lease_owner : Option String
  pub lease_expires_at : Option ℕ
  pub next_attempt_at : Option ℕ
  pub proposal_id : Option String
  pub error : Option (List ℕ)

pub record Job : Type 0 where
  pub source_id : String
  pub sync_plan_id : Option String
  pub status : JobStatus
  pub cancel_requested : Bool
  pub event_sequence : ℕ
  pub total_items : ℕ
  pub processed_items : ℕ
  pub succeeded_items : ℕ
  pub skipped_items : ℕ
  pub failed_items : ℕ
  pub cancelled_items : ℕ
  pub started_at : Option ℕ
  pub completed_at : Option ℕ

pub record External : Type 0 where
  pub adapter_id : String
  pub adapter_version : String
  pub task_id : String
  pub state : String
  pub submitted_at : ℕ

pub data KeyStatus : Type 0 where
  processing key_completed key_failed : KeyStatus

-- A row of `knowledge_ingest_idempotency`.
pub record Key : Type 0 where
  pub owner_item_id : String
  pub status : KeyStatus
  pub proposal_id : Option String

-- A row of `knowledge_job_events`, but its detail.
pub record JobEvent : Type 0 where
  pub job_id : String
  pub item_id : Option String
  pub sequence : ℕ
  pub kind : String
  pub status : String

pub record SyncPlan : Type 0 where
  pub source_id : String
  pub adapter_id : String
  pub adapter_version : String
  pub base_checkpoint : Option String
  pub target_checkpoint : Option String
  pub base_watermark : ℕ
  pub target_watermark : ℕ
  pub manifest_hash : String
  pub status : String

pub record SourceSync : Type 0 where
  pub watermark : ℕ
  pub manifest_hash : String
  pub adapter_id : String
  pub adapter_version : String
  pub adapter_checkpoint : Option String
  pub resume_cursor : Option String
  pub scan_status : String
  pub last_error_code : Option String
  pub last_error_message : Option String
  pub last_scan_completed_at : Option ℕ
  pub last_plan_id : Option String
  pub last_job_id : Option String

pub record ManifestRow : Type 0 where
  pub source_id : String
  pub relative_path : String
  pub source_revision : String
  pub status : String
  pub last_job_id : String

-- `sources` are the ids of `knowledge_source_roots`, which the methods only refer to.
pub record Db : Type 0 where
  pub sources : List String
  pub jobs : Dict Job
  pub items : Dict Item
  pub externals : Dict External
  pub keys : Dict Key
  pub events : List JobEvent
  pub plans : Dict SyncPlan
  pub syncs : Dict SourceSync
  pub manifest : Dict ManifestRow

-- `_now()` in this call, and `_stable_id("kman", …)` of a source and a path.
pub record Context : Type 0 where
  pub now : ℕ
  pub manifest_id : String → String → String

abbrev pub Jobs : Type 0 → Type 0
Jobs A = Op Error Db A
