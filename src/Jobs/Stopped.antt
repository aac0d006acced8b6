-- ===== src/Jobs/Stopped.antt =====
-- A job that is cancelled stays cancelled.
use poor_travel_agent.Base.{
  ℕ, String, Bool, true, false, ◌≡◌, refl, sym, subst, ap, ◌∙◌, ◌⊎◌, inl, inr, Option, none, some,
  List, arith, Bool-cases, ◌==◌, str-eq→eq,
}
use poor_travel_agent.Base.Dict.{lookup, put, lookup-put}
use poor_travel_agent.Jobs.Tables.{JobStatus, cancelling, job_cancelled, Item, Job, Db, Context}
use poor_travel_agent.Jobs.Refresh.{append_event, refresh_job, next_status}
use poor_travel_agent.Jobs.Changes.{Update, commit}
use poor_travel_agent.Jobs.Cancelling.{mark_cancelling}
use poor_travel_agent.Jobs.Machine.{IsChange}
use poor_travel_agent.Jobs.Requests.{Request, serve}
use poor_travel_agent.Jobs.Creation.{opened}
use poor_travel_agent.Jobs.Kept.{Kept, JobParts}
use poor_travel_agent.Jobs.Served.{serve-Kept}
use poor_travel_agent.Jobs.Refreshed.{IsRecount, IsRefreshed, refresh_job-IsRefreshed, refresh_none}
use poor_travel_agent.Jobs.JobRows.{IsWritten, commit-IsWritten}

abbrev is_stopping : JobStatus → Bool
is_stopping cancelling = true
is_stopping job_cancelled = true
is_stopping _ = false

-- The job is there, with the flag, and its status is cancelling or cancelled.
pub record IsStopped (id : String) (db : Db) : Type 0 where
  pub job : Job
  pub is_there : lookup id db.jobs ≡ some job
  pub flag : job.cancel_requested ≡ true
  pub status : is_stopping job.status ≡ true

stopped_status : (p t f : ℕ) → is_stopping (next_status true p t f) ≡ true
unfolding next_status
stopped_status p t f = ground arith

recount_stopping :
    (id : String) (j new : Job) (db : Db)
    → j.cancel_requested ≡ true
    → IsRecount id j new db
    → is_stopping new.status ≡ true
recount_stopping id j new db f h = grind (arith, f, h.status, stopped_status)

some_of : {x y : Job} → some x ≡ some y → x ≡ y
some_of q = cc

-- the job that is stopped, where another row of it is found
same_job :
    (id : String) (j : Job) (db : Db)
    → (h : IsStopped id db) → lookup id db.jobs ≡ some j
    → h.job ≡ j
same_job id j db h e = some_of (sym h.is_there ∙ e)

moved_status :
    (i : Item) (j : Job) (u : Update)
    → j.cancel_requested ≡ true
    → is_stopping j.status ≡ true
    → IsChange i j u
    → is_stopping u.job.status ≡ true
moved_status i j u f s h = ground (arith, f, s, h.job_status)

-- another job is written
other-IsStopped :
    (id k : String) (s t : Db)
    → (k == id) ≡ false
    → ((x : String) → (k == x) ≡ false → lookup x t.jobs ≡ lookup x s.jobs)
    → IsStopped id s
    → IsStopped id t
other-IsStopped id k s t d o h = record {
  job = h.job;
  is_there = o id d ∙ h.is_there;
  flag = h.flag;
  status = h.status;
}

written-IsStopped :
    (id : String) (j : Job) (b : Bool) (s t : Db)
    → j.cancel_requested ≡ true
    → is_stopping j.status ≡ true
    → IsWritten id j b s t
    → IsStopped id t
written-IsStopped id j b s t f st h = record {
  job = h.new;
  is_there = h.is_there;
  flag = h.same_cancel ∙ f;
  status = elim h.how [
    | inl (no_refresh, e) ↦ ap (λ x. is_stopping x.status) e ∙ st
    | inr (yes_refresh, r) ↦ recount_stopping id j h.new t f r
  ];
}

pub IsStopped-Kept : (id : String) → Kept (IsStopped id)
IsStopped-Kept id = record {
  commits = λ c k i j u db h a b ch. by c k i j u db h b ch (Bool-cases (i.job_id == id));
  beats = λ k old t db h a l. h_same db _ refl h;
  takes = λ k name db h f. h_same db _ refl h;
}
  where
    h_same : (s t : Db) → t.jobs ≡ s.jobs → IsStopped id s → IsStopped id t
    h_same s t e h = record {
      job = h.job;
      is_there = ap (λ d. lookup id d) e ∙ h.is_there;
      flag = h.flag;
      status = h.status;
    }

    by :
        (c : Context) (k : String) (i : Item) (j : Job) (u : Update) (db : Db)
        → IsStopped id db
        → lookup i.job_id db.jobs ≡ some j
        → IsChange i j u
        → ((i.job_id == id) ≡ true) ⊎ ((i.job_id == id) ≡ false)
        → IsStopped id (commit c k i.job_id u db)
    by c k i j u db h b ch (inr other) =
        other-IsStopped id i.job_id db _ other (commit-IsWritten c k i.job_id u db).others h
    by c k i j u db h b ch (inl same) =
        let e = str-eq→eq i.job_id id same in
        let q = same_job id j db h (ap (λ x. lookup x db.jobs) (sym e) ∙ b) in
        let f = ap Job.cancel_requested (sym q) ∙ h.flag in
        subst (λ x. IsStopped x (commit c k i.job_id u db)) e
          (written-IsStopped i.job_id u.job u.refreshes db _ (ch.same_cancel ∙ f)
            (moved_status i j u f (ap (λ x. is_stopping x.status) (sym q) ∙ h.status) ch)
            (commit-IsWritten c k i.job_id u db))

put-IsStopped :
    (id k : String) (new : Job) (s t : Db)
    → t.jobs ≡ put k new s.jobs
    → ((k == id) ≡ true → (new.cancel_requested ≡ true) × (is_stopping new.status ≡ true))
    → IsStopped id s
    → IsStopped id t
put-IsStopped id k new s t e f h = elim (Bool-cases (k == id)) [
  | inl same ↦ record {
    job = new;
    is_there = ground (arith, e, same, lookup-put k id new s.jobs);
    flag = (f same).0;
    status = (f same).1;
  }
  | inr other ↦
      other-IsStopped id k s t other (λ x d. ground (arith, e, d, lookup-put k x new s.jobs)) h
]

refresh-IsStopped :
    (id : String) (c : Context) (k : String) (db : Db)
    → IsStopped id db
    → IsStopped id (refresh_job c k db)
refresh-IsStopped id c k db h = by (lookup k db.jobs) refl
  where
    same : (j : Job) → lookup k db.jobs ≡ some j → (k == id) ≡ true → h.job ≡ j
    same j a e = same_job id j db h (ap (λ x. lookup x db.jobs) (sym (str-eq→eq k id e)) ∙ a)

    by_refreshed :
        (j : Job) (t : Db) → lookup k db.jobs ≡ some j → IsRefreshed k j db t → IsStopped id t
    by_refreshed j t a r = elim (Bool-cases (k == id)) [
      | inl e ↦
          let f = ap Job.cancel_requested (sym (same j a e)) ∙ h.flag in
          subst (λ x. IsStopped x t) (str-eq→eq k id e)
            (record {
              job = r.new;
              is_there = r.is_there;
              flag = r.recount.same_cancel ∙ f;
              status = recount_stopping k j r.new db f r.recount;
            })
      | inr other ↦ other-IsStopped id k db t other r.others h
    ]

    by : (o : Option Job) → lookup k db.jobs ≡ o → IsStopped id (refresh_job c k db)
    by none a = subst (IsStopped id) (sym (refresh_none c k db a)) h
    by (some j) a = by_refreshed j _ a (refresh_job-IsRefreshed c k j db a)

pub IsStopped-cancel : (id : String) → JobParts (IsStopped id)
unfolding mark_cancelling append_event opened
IsStopped-cancel id = record {
  marks = λ k j db h a b. put-IsStopped id k _ db _ refl (λ e. (refl, refl)) h;
  says = λ k j db h a.
      put-IsStopped id k _ db _ refl
        (λ e.
          let q = same_job id j db h (ap (λ x. lookup x db.jobs) (sym (str-eq→eq k id e)) ∙ a) in
          (
            ap Job.cancel_requested (sym q) ∙ h.flag,
            ap (λ x. is_stopping x.status) (sym q) ∙ h.status,
          ))
        h;
  refreshes = λ c k db h. refresh-IsStopped id c k db h;
  plans = λ k p y a b db h. record {
    job = h.job;
    is_there = h.is_there;
    flag = h.flag;
    status = h.status;
  };
  opens = λ n db h a b.
      put-IsStopped id n.job_id _ db _ refl
        (λ e.
          absurd
            (not_there (sym a ∙ ap (λ x. lookup x db.jobs) (str-eq→eq n.job_id id e) ∙ h.is_there)))
        h;
}
  where
    not_there : {j : Job} → none ≡ some j → ⊥
    not_there q = cc

pub serve-IsStopped :
    (id : String) (db : Db) (calls : List (Context × Request))
    → IsStopped id db
    → IsStopped id (serve db calls)
serve-IsStopped id db calls h = serve-Kept (IsStopped-Kept id) (IsStopped-cancel id) db calls h
