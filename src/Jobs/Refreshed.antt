-- ===== src/Jobs/Refreshed.antt =====
-- What `_refresh_job` leaves, and the rows after an update.
use poor_travel_agent.Base.{
  String, false, ◌≡◌, refl, sym, subst, ap, ◌∙◌, ◌⊎◌, inl, inr, Option, none, some, arith,
  Bool-cases, ◌==◌, eq_iff,
}
use poor_travel_agent.Base.Dict.{lookup, put, lookup-put}
use poor_travel_agent.Jobs.Tables.{
  JobStatus, job_completed, completed_with_errors, Job, Db, Context,
}
use poor_travel_agent.Jobs.Refresh.{
  append_event, next_status, processed_of, tally, of_job, is_completed, is_skipped, is_cancelled,
  is_dead_letter, recounted, announce, numbered, refresh_found, refresh_job, same_job_status,
}
use poor_travel_agent.Jobs.Changes.{Update, write, commit, change_key}
use poor_travel_agent.Jobs.Finalized.{SameRows, IsFinalized, if_over-IsFinalized}

announce_rows :
    (id : String) (previous : JobStatus) (j : Job) (db : Db)
    → SameRows db (announce id previous j db)
      × ((announce id previous j db).jobs ≡ put id (numbered previous j) db.jobs)
unfolding append_event
announce_rows id previous j db = elim (Bool-cases (same_job_status j.status previous)) [
  | inl same ↦ rw same ((refl, refl), refl)
  | inr other ↦ rw other ((refl, refl), refl)
]

-- The counts of a job are those of its items, and its status follows from them.
pub record IsRecount (id : String) (j new : Job) (s : Db) : Type 0 where
  pub same_cancel : new.cancel_requested ≡ j.cancel_requested
  pub same_total : new.total_items ≡ j.total_items
  pub processed : new.processed_items ≡ processed_of id s.items
  pub succeeded : new.succeeded_items ≡ tally (of_job id is_completed) s.items
  pub skipped : new.skipped_items ≡ tally (of_job id is_skipped) s.items
  pub failed : new.failed_items ≡ tally (of_job id is_dead_letter) s.items
  pub cancelled : new.cancelled_items ≡ tally (of_job id is_cancelled) s.items
  pub status :
      (new.status
        ≡ next_status j.cancel_requested
            (processed_of id s.items)
            j.total_items
            (tally (of_job id is_dead_letter) s.items))
      ⊎ ((next_status j.cancel_requested
              (processed_of id s.items)
              j.total_items
              (tally (of_job id is_dead_letter) s.items)
            ≡ job_completed)
          × (new.status ≡ completed_with_errors))

-- What `_refresh_job` does to the rows, where the job is there.
pub record IsRefreshed (id : String) (j : Job) (s t : Db) : Type 0 where
  pub new : Job
  pub is_there : lookup id t.jobs ≡ some new
  pub others : (k : String) → (id == k) ≡ false → lookup k t.jobs ≡ lookup k s.jobs
  pub same_rows : SameRows s t
  pub recount : IsRecount id j new s

numbered-IsRecount :
    (c : Context) (id : String) (j : Job) (db : Db)
    → IsRecount id j (numbered j.status (recounted c id j db.items)) db
unfolding recounted
numbered-IsRecount c id j db =
    elim (Bool-cases (same_job_status (recounted c id j db.items).status j.status)) [
      | inl same ↦ rw same (record {
        same_cancel = refl;
        same_total = refl;
        processed = refl;
        succeeded = refl;
        skipped = refl;
        failed = refl;
        cancelled = refl;
        status = inl refl;
      })
      | inr other ↦ rw other (record {
        same_cancel = refl;
        same_total = refl;
        processed = refl;
        succeeded = refl;
        skipped = refl;
        failed = refl;
        cancelled = refl;
        status = inl refl;
      })
    ]

conflict-IsRecount :
    (id : String) (j new x : Job) (db : Db)
    → IsRecount id j new db
    → new.status ≡ job_completed
    → x ≡ record new { status = completed_with_errors }
    → IsRecount id j x db
conflict-IsRecount id j new x db h e f =
    subst (λ y. IsRecount id j y db) (sym f)
      (record {
        same_cancel = h.same_cancel;
        same_total = h.same_total;
        processed = h.processed;
        succeeded = h.succeeded;
        skipped = h.skipped;
        failed = h.failed;
        cancelled = h.cancelled;
        status = inr (ground (arith, h.status, e), refl);
      })

refresh_found-IsRefreshed :
    (c : Context) (id : String) (j : Job) (db : Db)
    → IsRefreshed id j db (refresh_found c id (some j) db)
refresh_found-IsRefreshed c id j db =
    let new : Job = numbered j.status (recounted c id j db.items) in
    let (rows, jobs) = announce_rows id j.status (recounted c id j db.items) db in
    let last = if_over-IsFinalized c id new (announce id j.status (recounted c id j db.items) db) in
    let (items, keys) = last.same_rows in
    by_jobs new (announce id j.status (recounted c id j db.items) db) _ rows jobs last
      (numbered-IsRecount c id j db) last.jobs
  where
    by_jobs :
        (new : Job) (m t : Db)
        → SameRows db m
        → m.jobs ≡ put id new db.jobs
        → (f : IsFinalized id new m t) → IsRecount id j new db
        → (t.jobs ≡ m.jobs) ⊎ ((t.jobs ≡ put id f.job m.jobs) × (new.status ≡ job_completed))
        → IsRefreshed id j db t
    by_jobs new m t (a, b) jobs f n (inl same) = record {
      new = new;
      is_there = ground (arith, same, jobs, lookup-put id id new db.jobs, eq_iff id id);
      others = λ k d. ground (arith, same, jobs, lookup-put id k new db.jobs, d);
      same_rows = (f.same_rows.0 ∙ a, f.same_rows.1 ∙ b);
      recount = n;
    }
    by_jobs new m t (a, b) jobs f n (inr (same, st)) = record {
      new = f.job;
      is_there = ground (arith, same, jobs, lookup-put id id f.job m.jobs, eq_iff id id);
      others = λ k d.
          ground (arith, same, jobs, lookup-put id k new db.jobs, lookup-put id k f.job m.jobs, d);
      same_rows = (f.same_rows.0 ∙ a, f.same_rows.1 ∙ b);
      recount = conflict-IsRecount id j new f.job db n st f.is_conflict;
    }

pub refresh_job-IsRefreshed :
    (c : Context) (id : String) (j : Job) (db : Db)
    → lookup id db.jobs ≡ some j
    → IsRefreshed id j db (refresh_job c id db)
unfolding refresh_job
refresh_job-IsRefreshed c id j db h =
    subst (λ o. IsRefreshed id j db (refresh_found c id o db)) (sym h)
      (refresh_found-IsRefreshed c id j db)

pub refresh_none :
    (c : Context) (id : String) (db : Db) → lookup id db.jobs ≡ none → refresh_job c id db ≡ db
unfolding refresh_job
refresh_none c id db h = ap (λ o. refresh_found c id o db) h

pub refresh_rows : (c : Context) (id : String) (db : Db) → SameRows db (refresh_job c id db)
refresh_rows c id db = by (lookup id db.jobs) refl
  where
    by : (o : Option Job) → lookup id db.jobs ≡ o → SameRows db (refresh_job c id db)
    by none e = subst (SameRows db) (sym (refresh_none c id db e)) (refl, refl)
    by (some j) e = (refresh_job-IsRefreshed c id j db e).same_rows

-- the tables of items and of keys after an update
pub commit_rows :
    (c : Context) (id job : String) (u : Update) (db : Db)
    → ((commit c id job u db).items ≡ put id u.item db.items)
      × ((commit c id job u db).keys ≡ change_key id u.key u.item.idempotency_key db.keys)
unfolding commit write append_event
commit_rows c id job u db = elim (Bool-cases u.refreshes) [
  | inl yes_refresh ↦ rw yes_refresh (
      let (items, keys) = refresh_rows c job (write id job u db) in
      let (i, k) = write_rows id job u db in (items ∙ i, keys ∙ k))
  | inr not_now ↦ rw not_now (write_rows id job u db)
]
  where
    write_rows :
        (id job : String) (u : Update) (db : Db)
        → ((write id job u db).items ≡ put id u.item db.items)
          × ((write id job u db).keys ≡ change_key id u.key u.item.idempotency_key db.keys)
    write_rows id job u db = unfold write append_event in (refl, refl)
