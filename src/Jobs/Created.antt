-- ===== src/Jobs/Created.antt =====
-- What the parts of `create_job` keep, it keeps.
use poor_travel_agent.Base.{
  String, false, not, ◌||◌, ◌≡◌, inl, inr, Option, none, some, List, [], ◌∷◌, ◌==◌, arith, is_some,
  Bool-cases,
}
use poor_travel_agent.Base.Dict.{lookup, has_key}
use poor_travel_agent.Sync.Changes.{ScannedFile}
use poor_travel_agent.Jobs.Tables.{SyncPlan, SourceSync, Job, Db, Context}
use poor_travel_agent.Jobs.Refresh.{sync_or_empty, is_at_base}
use poor_travel_agent.Jobs.Creation.{
  NewJob, clashes, has_source, opened, refresh_if_empty, insert_job, job_of_plan, start_plan,
  by_existing, by_plan, create_by, create_job,
}
use poor_travel_agent.Jobs.Kept.{JobParts}

module _ {P : Db → Type 0} (p : JobParts P) where
  if_empty-Kept :
      (c : Context) (n : NewJob) (files : List (String × ScannedFile)) (db : Db)
      → P db
      → P (refresh_if_empty c n files db)
  if_empty-Kept c n [] db h = p.refreshes c n.job_id db h
  if_empty-Kept c n (f ∷ fs) db h = h

  insert_job-Kept :
      (c : Context) (n : NewJob) (before db : Db) → P before → P db → P (insert_job c n before db).1
  insert_job-Kept c n before db h g =
      elim (Bool-cases (
        not (has_source n.source_id db.sources)
        || has_key n.job_id db.jobs
        || clashes n n.files db.items)) [
          | inl clash ↦ rw clash h
          | inr new ↦ rw new (
              if_empty-Kept c n n.files (opened n db) (
                p.opens n db g (absent (lookup n.job_id db.jobs) (ground (arith, new)))
                  (ground (arith, new))))
        ]
    where
      absent : (o : Option Job) → is_some o ≡ false → o ≡ none
      absent o e = ground (arith, e)

  start_plan-Kept :
      (c : Context) (n : NewJob) (id : String) (plan : SyncPlan) (y : SourceSync) (db : Db)
      → P db
      → P (start_plan c n id plan y db).1
  start_plan-Kept c n id plan y db h =
      elim (Bool-cases (not (plan.status == "planned") || not (is_at_base y plan))) [
        | inl stale ↦ rw stale h
        | inr fresh ↦
            rw fresh (insert_job-Kept c n db _ h (p.plans id plan y "running" "running" db h))
      ]

  by_existing-Kept :
      (c : Context) (n : NewJob) (id : String) (plan : SyncPlan) (o : Option String) (db : Db)
      → P db
      → P (by_existing c n id plan o db).1
  by_existing-Kept c n id plan (some x) db h = h
  by_existing-Kept c n id plan none db h =
      start_plan-Kept c n id plan (sync_or_empty (lookup plan.source_id db.syncs)) db h

  by_plan-Kept :
      (c : Context) (n : NewJob) (id : String) (o : Option SyncPlan) (db : Db)
      → P db
      → P (by_plan c n id o db).1
  by_plan-Kept c n id none db h = h
  by_plan-Kept c n id (some plan) db h = by_existing-Kept c n id plan (job_of_plan id db.jobs) db h

  create_by-Kept :
      (c : Context) (n : NewJob) (o : Option String) (db : Db) → P db → P (create_by c n o db).1
  create_by-Kept c n none db h = insert_job-Kept c n db db h h
  create_by-Kept c n (some id) db h = by_plan-Kept c n id (lookup id db.plans) db h

  pub create_job-Kept : (c : Context) (n : NewJob) (db : Db) → P db → P (create_job c n db).1
  unfolding create_job
  create_job-Kept c n db h = create_by-Kept c n n.sync_plan_id db h
