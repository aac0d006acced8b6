-- ===== src/Jobs/Finalized.antt =====
-- What `_finalize_sync_plan` leaves of items, keys and the job.
use poor_travel_agent.Base.{
  String, ◌≡◌, refl, ◌⊎◌, inl, inr, Option, none, some, arith, Bool-cases, ◌==◌,
}
use poor_travel_agent.Base.Dict.{lookup, put}
use poor_travel_agent.Jobs.Tables.{
  JobStatus, job_queued, running, cancelling, job_cancelled, job_completed, completed_with_errors,
  is_over, Job, SyncPlan, SourceSync, Db, Context,
}
use poor_travel_agent.Jobs.Refresh.{
  is_settled, sync_or_empty, finalize_by, finalize_plan, finalize_sync_plan, finalize_if_over,
}

-- the tables of items and of keys are those before
abbrev pub SameRows : Db → Db → Type 0
SameRows s t = (t.items ≡ s.items) × (t.keys ≡ s.keys)

finalize_by-SameRows :
    (c : Context) (id plan_id : String) (j : Job) (p : SyncPlan) (s : SourceSync) (st : JobStatus)
    (db : Db)
    → SameRows db (finalize_by c id plan_id j p s st db)
finalize_by-SameRows c id plan_id j p s job_completed db = ground arith
finalize_by-SameRows c id plan_id j p s job_cancelled db = (refl, refl)
finalize_by-SameRows c id plan_id j p s job_queued db = (refl, refl)
finalize_by-SameRows c id plan_id j p s running db = (refl, refl)
finalize_by-SameRows c id plan_id j p s cancelling db = (refl, refl)
finalize_by-SameRows c id plan_id j p s completed_with_errors db = (refl, refl)

-- the job afterwards: the same, or one whose plan was in conflict
pub record IsFinalized (id : String) (j : Job) (s t : Db) : Type 0 where
  pub job : Job
  pub same_rows : SameRows s t
  pub jobs : (t.jobs ≡ s.jobs) ⊎ ((t.jobs ≡ put id job s.jobs) × (j.status ≡ job_completed))
  pub is_conflict : job ≡ record j { status = completed_with_errors }

conflicted : Job → Job
conflicted j = record j { status = completed_with_errors }

finalize_by-IsFinalized :
    (c : Context) (id plan_id : String) (j : Job) (p : SyncPlan) (s : SourceSync) (st : JobStatus)
    (db : Db)
    → j.status ≡ st
    → IsFinalized id j db (finalize_by c id plan_id j p s st db)
unfolding conflicted
finalize_by-IsFinalized c id plan_id j p s job_completed db e = record {
  job = conflicted j;
  same_rows = finalize_by-SameRows c id plan_id j p s job_completed db;
  jobs = ground (arith, e);
  is_conflict = refl;
}
finalize_by-IsFinalized c id plan_id j p s job_cancelled db e = record {
  job = conflicted j;
  same_rows = (refl, refl);
  jobs = inl refl;
  is_conflict = refl;
}
finalize_by-IsFinalized c id plan_id j p s job_queued db e = record {
  job = conflicted j;
  same_rows = (refl, refl);
  jobs = inl refl;
  is_conflict = refl;
}
finalize_by-IsFinalized c id plan_id j p s running db e = record {
  job = conflicted j;
  same_rows = (refl, refl);
  jobs = inl refl;
  is_conflict = refl;
}
finalize_by-IsFinalized c id plan_id j p s cancelling db e = record {
  job = conflicted j;
  same_rows = (refl, refl);
  jobs = inl refl;
  is_conflict = refl;
}
finalize_by-IsFinalized c id plan_id j p s completed_with_errors db e = record {
  job = conflicted j;
  same_rows = (refl, refl);
  jobs = inl refl;
  is_conflict = refl;
}

same-IsFinalized : (id : String) (j : Job) (db : Db) → IsFinalized id j db db
unfolding conflicted
same-IsFinalized id j db = record {
  job = conflicted j;
  same_rows = (refl, refl);
  jobs = inl refl;
  is_conflict = refl;
}

finalize_plan-IsFinalized :
    (c : Context) (id plan_id : String) (j : Job) (o : Option SyncPlan) (db : Db)
    → IsFinalized id j db (finalize_plan c id plan_id j o db)
finalize_plan-IsFinalized c id plan_id j none db = same-IsFinalized id j db
finalize_plan-IsFinalized c id plan_id j (some p) db = elim (Bool-cases (is_settled p)) [
  | inl done ↦ rw done (same-IsFinalized id j db)
  | inr open_plan ↦ rw open_plan (
      finalize_by-IsFinalized c id plan_id j p (sync_or_empty (lookup p.source_id db.syncs))
        j.status db refl)
]

finalize-IsFinalized :
    (c : Context) (id : String) (j : Job) (o : Option String) (db : Db)
    → IsFinalized id j db (finalize_sync_plan c id j o db)
unfolding finalize_sync_plan
finalize-IsFinalized c id j none db = same-IsFinalized id j db
finalize-IsFinalized c id j (some plan_id) db = elim (Bool-cases (plan_id == "")) [
  | inl empty ↦ rw empty (same-IsFinalized id j db)
  | inr named ↦ rw named (finalize_plan-IsFinalized c id plan_id j (lookup plan_id db.plans) db)
]

pub if_over-IsFinalized :
    (c : Context) (id : String) (j : Job) (db : Db)
    → IsFinalized id j db (finalize_if_over c id j db)
if_over-IsFinalized c id j db = elim (Bool-cases (is_over j.status)) [
  | inl over ↦ rw over (finalize-IsFinalized c id j j.sync_plan_id db)
  | inr live ↦ rw live (same-IsFinalized id j db)
]
