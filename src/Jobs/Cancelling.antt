-- ===== src/Jobs/Cancelling.antt =====
-- `cancel_job`.
use poor_travel_agent.Base.{String, true, false, ◌&&◌, Option, none, some, ◌==◌, if◌then◌else◌}
use poor_travel_agent.Base.Effect.{ok, raised}
use poor_travel_agent.Base.Dict.{lookup, put}
use poor_travel_agent.Jobs.Tables.{
  not_found, conflict, cancelled, is_waiting, cancelling, is_over, Item, Job, External, Db, Context,
  Jobs,
}
use poor_travel_agent.Jobs.Refresh.{append_event, refresh_job}
use poor_travel_agent.Jobs.Changes.{set_state, keep_key, Outcome, nothing, on_locked}
use poor_travel_agent.Jobs.Methods.{for_each, moved, select_ids}

-- the statuses are those of the query
abbrev pub cancelling_waiting : Item → Job → Option External → Outcome
cancelling_waiting item job external =
    if is_waiting item.status
    then moved (record item { status = cancelled; next_attempt_at = none }) job
        (set_state "cancelled") keep_key false
    else nothing

abbrev pub cancel_requested_job : Job → Job
cancel_requested_job job = record job { cancel_requested = true; status = cancelling }

-- `cancel_job` sets the flag, ends the items that wait, and announces it
unfoldable pub mark_cancelling : String → Job → Db → Db
mark_cancelling job_id job db = record db { jobs = put job_id (cancel_requested_job job) db.jobs }

-- its job is there, so no item raises
unfoldable pub cancel_waiting : Context → String → Db → Db
cancel_waiting c job_id db =
    (for_each (λ id. on_locked c id cancelling_waiting)
      (select_ids (λ i. i.job_id == job_id && is_waiting i.status) db.items) db).1

abbrev pub announce_cancelling : String → Option Job → Db → Db
announce_cancelling job_id none db = db
announce_cancelling job_id (some job) db = append_event job_id none "job" "cancelling" job db

unfoldable pub say_cancelling : String → Db → Db
say_cancelling job_id db = announce_cancelling job_id (lookup job_id db.jobs) db

abbrev pub cancel_found : Context → String → Option Job → Jobs (Unit {0})
cancel_found c job_id none db = (raised not_found, db)
cancel_found c job_id (some job) db = if is_over job.status then (raised conflict, db) else (
  ok tt,
  refresh_job c job_id
      (say_cancelling job_id (cancel_waiting c job_id (mark_cancelling job_id job db))),
)

unfoldable pub cancel_job : Context → String → Jobs (Unit {0})
cancel_job c job_id db = cancel_found c job_id (lookup job_id db.jobs) db
