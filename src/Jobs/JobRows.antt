-- ===== src/Jobs/JobRows.antt =====
-- The row of a job after an update of one of its items.
use poor_travel_agent.Base.{
  ◌+◌, String, Bool, true, false, ◌≡◌, refl, sym, ap, ◌∙◌, ◌⊎◌, inl, inr, some, arith, ◌==◌, eq_iff,
  if◌then◌else◌,
}
use poor_travel_agent.Base.Dict.{lookup, put, lookup-put}
use poor_travel_agent.Jobs.Tables.{Job, Db, Context}
use poor_travel_agent.Jobs.Refresh.{append_event, refresh_job}
use poor_travel_agent.Jobs.Changes.{Update, write, commit}
use poor_travel_agent.Jobs.Refreshed.{IsRecount, IsRefreshed, refresh_job-IsRefreshed}

-- The row of job `id` from the row `j` that an update gives it.
pub record IsWritten (id : String) (j : Job) (refreshes : Bool) (s t : Db) : Type 0 where
  pub new : Job
  pub is_there : lookup id t.jobs ≡ some new
  pub others : (k : String) → (id == k) ≡ false → lookup k t.jobs ≡ lookup k s.jobs
  pub same_cancel : new.cancel_requested ≡ j.cancel_requested
  pub same_total : new.total_items ≡ j.total_items
  pub how :
      ((refreshes ≡ false) × (new ≡ record j { event_sequence = new.event_sequence }))
      ⊎ ((refreshes ≡ true) × IsRecount id j new t)

like-IsRecount :
    (id : String) (j k new : Job) (s t : Db)
    → k ≡ record j { event_sequence = k.event_sequence }
    → t.items ≡ s.items
    → IsRecount id k new s
    → IsRecount id j new t
like-IsRecount id j k new s t e f h = record {
  same_cancel = h.same_cancel ∙ ap Job.cancel_requested e;
  same_total = h.same_total ∙ ap Job.total_items e;
  processed = rw f h.processed;
  succeeded = rw f h.succeeded;
  skipped = rw f h.skipped;
  failed = rw f h.failed;
  cancelled = rw f h.cancelled;
  status = rw (f, sym (ap Job.cancel_requested e), sym (ap Job.total_items e)) h.status;
}

abbrev counted : Job → Job
counted j = record j { event_sequence = j.event_sequence + 1 }

refresh-IsWritten :
    (id : String) (j : Job) (s w t : Db)
    → w.jobs ≡ put id (counted j) s.jobs
    → IsRefreshed id (counted j) w t
    → IsWritten id j true s t
refresh-IsWritten id j s w t e h = record {
  new = h.new;
  is_there = h.is_there;
  others = λ k d. h.others k d ∙ ground (arith, e, d, lookup-put id k (counted j) s.jobs);
  same_cancel = h.recount.same_cancel;
  same_total = h.recount.same_total;
  how = inr (refl, like-IsRecount id j (counted j) h.new w t refl h.same_rows.0 h.recount);
}

put_is_there :
    (id : String) (j : Job) (s w : Db) → w.jobs ≡ put id j s.jobs → lookup id w.jobs ≡ some j
put_is_there id j s w e = ground (arith, e, lookup-put id id j s.jobs, eq_iff id id)

write-IsWritten :
    (id : String) (j : Job) (s w : Db)
    → w.jobs ≡ put id (counted j) s.jobs
    → IsWritten id j false s w
write-IsWritten id j s w e = record {
  new = counted j;
  is_there = put_is_there id (counted j) s w e;
  others = λ k d. ground (arith, e, d, lookup-put id k (counted j) s.jobs);
  same_cancel = refl;
  same_total = refl;
  how = inl (refl, refl);
}

write_jobs :
    (id job : String) (u : Update) (db : Db)
    → (write id job u db).jobs ≡ put job (counted u.job) db.jobs
unfolding write append_event
write_jobs id job u db = refl

pub commit-IsWritten :
    (c : Context) (id job : String) (u : Update) (db : Db)
    → IsWritten job u.job u.refreshes db (commit c id job u db)
unfolding commit
commit-IsWritten c id job u db = by u.refreshes
  where
    by :
        (b : Bool)
        → IsWritten job u.job b db
            (if b then refresh_job c job (write id job u db) else write id job u db)
    by true = refresh-IsWritten job u.job db (write id job u db) _ (write_jobs id job u db) (
        refresh_job-IsRefreshed c job (counted u.job) (write id job u db)
          (put_is_there job (counted u.job) db (write id job u db) (write_jobs id job u db)))
    by false = write-IsWritten job u.job db (write id job u db) (write_jobs id job u db)
