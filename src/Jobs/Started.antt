-- ===== src/Jobs/Started.antt =====
-- The jobs stay right when `create_job` adds one.
use poor_travel_agent.Base.{
  ◌+◌, length, eq_iff, if◌then◌else◌, String, true, false, ◌≡◌, refl, sym, subst, ap, ◌∙◌, ◌⊎◌, inl,
  inr, none, some, arith, Bool-cases, ◌==◌, eq_iff, str-eq→eq,
}
use poor_travel_agent.Base.Dict.{lookup, put, lookup-put}
use poor_travel_agent.Jobs.Tables.{is_over, Item, Job, Db}
use poor_travel_agent.Jobs.Refresh.{append_event, tally, of_job}
use poor_travel_agent.Jobs.Creation.{NewJob, new_job, add_items, clashes, opened}
use poor_travel_agent.Jobs.Opened.{added_item, tally-add_items}
use poor_travel_agent.Jobs.Tally.{any}
use poor_travel_agent.Jobs.Right.{IsJobRight, AreJobsRight}

started_job : NewJob → Job
started_job n = record (new_job n) { event_sequence = 1 }

opened_rows :
    (n : NewJob) (db : Db)
    → ((opened n db).items ≡ add_items n n.files db.items)
      × ((opened n db).jobs ≡ put n.job_id (started_job n) db.jobs)
unfolding opened append_event started_job
opened_rows n db = (refl, refl)

-- the new job and the jobs beside it
opened-IsJobRight :
    (n : NewJob) (db : Db) (id : String) (j : Job)
    → AreJobsRight db
    → lookup n.job_id db.jobs ≡ none
    → clashes n n.files db.items ≡ false
    → lookup id (opened n db).jobs ≡ some j
    → IsJobRight id j (add_items n n.files db.items)
unfolding started_job
opened-IsJobRight n db id j h a b g = elim (Bool-cases (n.job_id == id)) [
  | inl same ↦ record {
    total =
        let e = str-eq→eq n.job_id id same in
        let none_before = h.no_orphans id (ap (λ x. lookup x db.jobs) (sym e) ∙ a) in
        ground (arith, row same, same, none_before, tally-add_items n id n.files db.items b);
    ended = λ k i o x m. absurd (not_over (subst (λ y. is_over y.status ≡ true) (row same) o));
  }
  | inr other ↦
      let old = h.at id j (
        ground (
          arith,
          g,
          (opened_rows n db).1,
          other,
          lookup-put n.job_id id (started_job n) db.jobs,
        )) in
      record {
        total = ground (arith, old.total, other, tally-add_items n id n.files db.items b);
        ended = λ k i o x m. elim (added_item n n.files db.items k i x) [
          | inl before ↦ old.ended k i o before m
          | inr (f, new) ↦ absurd (ground (arith, eq_iff n.job_id id, other, ap Item.job_id new, m))
        ];
      }
]
  where
    row : (n.job_id == id) ≡ true → j ≡ started_job n
    row same =
        ground
          (arith, g, (opened_rows n db).1, same, lookup-put n.job_id id (started_job n) db.jobs)

    not_over : false ≡ true → ⊥
    not_over q = cc

pub opened-AreJobsRight :
    (n : NewJob) (db : Db)
    → AreJobsRight db
    → lookup n.job_id db.jobs ≡ none
    → clashes n n.files db.items ≡ false
    → AreJobsRight (opened n db)
opened-AreJobsRight n db h a b = record {
  no_orphans = λ id g.
      ap (tally (of_job id any)) (opened_rows n db).0
      ∙ tally-add_items n id n.files db.items b
      ∙ none_of id g (Bool-cases (n.job_id == id));
  at = λ id j g.
      subst (IsJobRight id j) (sym (opened_rows n db).0) (opened-IsJobRight n db id j h a b g);
}
  where
    none_of :
        (id : String)
        → lookup id (opened n db).jobs ≡ none
        → ((n.job_id == id) ≡ true) ⊎ ((n.job_id == id) ≡ false)
        → tally (of_job id any) db.items + (if n.job_id == id then length n.files else 0) ≡ 0
    none_of id g (inl same) = absurd (
        ground
          (arith, g, (opened_rows n db).1, same, lookup-put n.job_id id (started_job n) db.jobs))
    none_of id g (inr other) =
        let absent : lookup id db.jobs ≡ none =
          ground (
            arith,
            g,
            (opened_rows n db).1,
            other,
            lookup-put n.job_id id (started_job n) db.jobs,
          ) in
        ground (arith, other, h.no_orphans id absent)
