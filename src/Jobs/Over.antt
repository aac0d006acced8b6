-- ===== src/Jobs/Over.antt =====
-- A job is over only when all its items have ended.
use poor_travel_agent.Base.{
  eq_iff, String, Bool, true, false, ◌≡◌, refl, sym, subst, ap, ◌∙◌, ◌⊎◌, inl, inr, Option, none,
  some, List, arith, Bool-cases, ◌==◌, eq_iff, str-eq→eq,
}
use poor_travel_agent.Base.Dict.{lookup, put, lookup-put}
use poor_travel_agent.Jobs.Tables.{is_ended, is_over, Item, Job, Db, Context}
use poor_travel_agent.Jobs.Refresh.{append_event, refresh_job, tally, of_job}
use poor_travel_agent.Jobs.Changes.{Update, commit}
use poor_travel_agent.Jobs.Cancelling.{mark_cancelling}
use poor_travel_agent.Jobs.Machine.{IsChange}
use poor_travel_agent.Jobs.Requests.{Request, serve}
use poor_travel_agent.Jobs.Kept.{Kept, JobParts}
use poor_travel_agent.Jobs.Served.{serve-Kept}
use poor_travel_agent.Jobs.Refreshed.{
  IsRefreshed, refresh_job-IsRefreshed, refresh_none, commit_rows,
}
use poor_travel_agent.Jobs.JobRows.{IsWritten, commit-IsWritten}
use poor_travel_agent.Jobs.Tally.{any}
use poor_travel_agent.Jobs.Right.{
  IsJobRight, AreJobsRight, recount-IsJobRight, put_total, other-IsJobRight, like-IsJobRight,
}
use poor_travel_agent.Jobs.Started.{opened-AreJobsRight}

some_job : {x y : Job} → some x ≡ some y → x ≡ y
some_job q = cc

-- the job of an updated item
updated-IsJobRight :
    (c : Context) (k : String) (i : Item) (j : Job) (u : Update) (db : Db)
    → AreJobsRight db
    → lookup k db.items ≡ some i
    → lookup i.job_id db.jobs ≡ some j
    → IsChange i j u
    → (w : IsWritten i.job_id u.job u.refreshes db (commit c k i.job_id u db))
    → IsJobRight i.job_id w.new (commit c k i.job_id u db).items
updated-IsJobRight c k i j u db h a b ch w = elim w.how [
  | inr (yes_refresh, r) ↦ recount-IsJobRight i.job_id u.job w.new _ r total
  | inl (no_refresh, e) ↦ record {
    total = w.same_total ∙ total;
    ended = λ x y o q m. absurd (
        live (elim ch.counted [ inl n ↦ absurd (both n no_refresh) | inr n ↦ n ])
          (subst (λ z. is_over z.status ≡ true) e o));
  }
]
  where
    rows : (commit c k i.job_id u db).items ≡ put k u.item db.items
    rows = (commit_rows c k i.job_id u db).0

    total : u.job.total_items ≡ tally (of_job i.job_id any) (commit c k i.job_id u db).items
    total =
        ch.same_total
        ∙ (h.at i.job_id j b).total
        ∙ sym (put_total i.job_id k i u.item db.items a ch.same_job)
        ∙ ap (tally (of_job i.job_id any)) (sym rows)

    both : {x : Bool} → x ≡ true → x ≡ false → ⊥
    both p q = cc

    same_status :
        is_ended i.status ≡ false → u.job.status ≡ j.status → is_over u.job.status ≡ true → ⊥
    same_status n s o = both ((h.at i.job_id j b).ended k i (ap is_over (sym s) ∙ o) a refl) n

    live : is_ended i.status ≡ false → is_over u.job.status ≡ true → ⊥
    live n o = elim ch.job_status [ inl s ↦ same_status n s o | inr (s, f) ↦ both o (ap is_over s) ]

commit-AreJobsRight :
    (c : Context) (k : String) (i : Item) (j : Job) (u : Update) (db : Db)
    → AreJobsRight db
    → lookup k db.items ≡ some i
    → lookup i.job_id db.jobs ≡ some j
    → IsChange i j u
    → AreJobsRight (commit c k i.job_id u db)
commit-AreJobsRight c k i j u db h a b ch = record {
  no_orphans = λ id g.
      ap (tally (of_job id any)) (commit_rows c k i.job_id u db).0
      ∙ put_total id k i u.item db.items a ch.same_job
      ∙ h.no_orphans id (before id g (Bool-cases (i.job_id == id)));
  at = λ id x g. by id x g (Bool-cases (i.job_id == id));
}
  where
    w : IsWritten i.job_id u.job u.refreshes db (commit c k i.job_id u db)
    w = commit-IsWritten c k i.job_id u db

    not_none : {x : Job} → some x ≡ none → ⊥
    not_none q = cc

    before :
        (id : String)
        → lookup id (commit c k i.job_id u db).jobs ≡ none
        → ((i.job_id == id) ≡ true) ⊎ ((i.job_id == id) ≡ false)
        → lookup id db.jobs ≡ none
    before id g (inr other) = sym (w.others id other) ∙ g
    before id g (inl same) = absurd (
        not_none (
          sym w.is_there
          ∙ ap (λ x. lookup x (commit c k i.job_id u db).jobs) (str-eq→eq i.job_id id same)
          ∙ g))

    not_mine : (id : String) → (i.job_id == id) ≡ false → i.job_id ≡ id → ⊥
    not_mine id d e = ground (arith, d, e, eq_iff i.job_id id)

    by :
        (id : String) (x : Job)
        → lookup id (commit c k i.job_id u db).jobs ≡ some x
        → ((i.job_id == id) ≡ true) ⊎ ((i.job_id == id) ≡ false)
        → IsJobRight id x (commit c k i.job_id u db).items
    by id x g (inl same) =
        let e = str-eq→eq i.job_id id same in
        subst (λ y. IsJobRight y x (commit c k i.job_id u db).items) e
          (subst (λ y. IsJobRight i.job_id y (commit c k i.job_id u db).items)
            (some_job (sym w.is_there ∙ ap (λ y. lookup y (commit c k i.job_id u db).jobs) e ∙ g))
            (updated-IsJobRight c k i j u db h a b ch w))
    by id x g (inr other) = subst (IsJobRight id x) (sym (commit_rows c k i.job_id u db).0) (
        other-IsJobRight id k i u.item x db.items a ch.same_job
          (λ m o. absurd (not_mine id other m)) (h.at id x (sym (w.others id other) ∙ g)))

AreJobsRight-Kept : Kept AreJobsRight
AreJobsRight-Kept = record {
  commits = λ c k i j u db h a b ch. commit-AreJobsRight c k i j u db h a b ch;
  beats = λ k i t db h a l. record {
    no_orphans = λ id g.
        put_total id k i (record i { lease_expires_at = some t }) db.items a refl
        ∙ h.no_orphans id g;
    at = λ id j g.
        other-IsJobRight id k i (record i { lease_expires_at = some t }) j db.items a refl
          (λ m o. (h.at id j g).ended k i o a m) (h.at id j g);
  };
  takes = λ k name db h f. record {
    no_orphans = λ id g. h.no_orphans id g;
    at = λ id j g. h.at id j g;
  };
}

-- one job has another row, that says the same of its items
put-AreJobsRight :
    (k : String) (new : Job) (s t : Db)
    → t.items ≡ s.items
    → t.jobs ≡ put k new s.jobs
    → IsJobRight k new s.items
    → AreJobsRight s
    → AreJobsRight t
put-AreJobsRight k new s t e f r h = record {
  no_orphans =
      λ id g. ap (tally (of_job id any)) e ∙ h.no_orphans id (absent id g (Bool-cases (k == id)));
  at = λ id j g. subst (IsJobRight id j) (sym e) (elim (Bool-cases (k == id)) [
    | inl same ↦
        subst (λ x. IsJobRight x j s.items) (str-eq→eq k id same)
          (subst (λ x. IsJobRight k x s.items) (row id j same g) r)
    | inr other ↦ h.at id j (ground (arith, g, f, other, lookup-put k id new s.jobs))
  ]);
}
  where
    absent :
        (id : String)
        → lookup id t.jobs ≡ none
        → ((k == id) ≡ true) ⊎ ((k == id) ≡ false)
        → lookup id s.jobs ≡ none
    absent id g (inl same) = absurd (ground (arith, g, f, same, lookup-put k id new s.jobs))
    absent id g (inr other) = ground (arith, g, f, other, lookup-put k id new s.jobs)

    row : (id : String) (j : Job) → (k == id) ≡ true → lookup id t.jobs ≡ some j → new ≡ j
    row id j same g = ground (arith, g, f, same, lookup-put k id new s.jobs)

refresh-AreJobsRight :
    (c : Context) (k : String) (db : Db) → AreJobsRight db → AreJobsRight (refresh_job c k db)
refresh-AreJobsRight c k db h = by (lookup k db.jobs) refl
  where
    not_none : {x : Job} → some x ≡ none → ⊥
    not_none q = cc

    absent :
        {j : Job} {t : Db}
        → IsRefreshed k j db t
        → (id : String) → lookup id t.jobs ≡ none
        → ((k == id) ≡ true) ⊎ ((k == id) ≡ false)
        → lookup id db.jobs ≡ none
    absent {t = t} r id g (inl same) =
        absurd (not_none (sym r.is_there ∙ ap (λ x. lookup x t.jobs) (str-eq→eq k id same) ∙ g))
    absent r id g (inr other) = sym (r.others id other) ∙ g

    of_refreshed :
        (j : Job) (t : Db) → lookup k db.jobs ≡ some j → IsRefreshed k j db t → AreJobsRight t
    of_refreshed j t a r = record {
      no_orphans = λ id g.
          ap (tally (of_job id any)) r.same_rows.0
          ∙ h.no_orphans id (absent r id g (Bool-cases (k == id)));
      at = λ id x g. subst (IsJobRight id x) (sym r.same_rows.0) (elim (Bool-cases (k == id)) [
        | inl same ↦
            let e = str-eq→eq k id same in
            subst (λ y. IsJobRight y x db.items) e
              (subst (λ y. IsJobRight k y db.items)
                (some_job (sym r.is_there ∙ ap (λ y. lookup y t.jobs) e ∙ g))
                (recount-IsJobRight k j r.new db r.recount (h.at k j a).total))
        | inr other ↦ h.at id x (sym (r.others id other) ∙ g)
      ]);
    }

    by : (o : Option Job) → lookup k db.jobs ≡ o → AreJobsRight (refresh_job c k db)
    by none a = subst AreJobsRight (sym (refresh_none c k db a)) h
    by (some j) a = of_refreshed j _ a (refresh_job-IsRefreshed c k j db a)

AreJobsRight-cancel : JobParts AreJobsRight
unfolding mark_cancelling append_event
AreJobsRight-cancel = record {
  marks = λ k j db h a b.
      put-AreJobsRight k _ db _ refl refl
        (like-IsJobRight k j _ db.items refl (λ o. absurd (no o)) (h.at k j a)) h;
  says = λ k j db h a.
      put-AreJobsRight k _ db _ refl refl
        (like-IsJobRight k j _ db.items refl (λ o. o) (h.at k j a)) h;
  refreshes = λ c k db h. refresh-AreJobsRight c k db h;
  plans = λ k p y a b db h. record {
    no_orphans = λ id g. h.no_orphans id g;
    at = λ id j g. h.at id j g;
  };
  opens = λ n db h a b. opened-AreJobsRight n db h a b;
}
  where
    no : false ≡ true → ⊥
    no q = cc

-- Every sequence of calls, those that create jobs included, keeps this: each job counts as many items
-- as it has in the table, where it is cancelled, completed or completed with errors each of them has
-- ended, and no item names a job that is not there.
pub serve-AreJobsRight :
    (db : Db) (calls : List (Context × Request)) → AreJobsRight db → AreJobsRight (serve db calls)
serve-AreJobsRight db calls = serve-Kept AreJobsRight-Kept AreJobsRight-cancel db calls
