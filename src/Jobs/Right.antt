-- ===== src/Jobs/Right.antt =====
-- What the row of a job says of its items.
use poor_travel_agent.Base.{
  none, ℕ, String, Bool, true, ◌&&◌, ◌≡◌, sym, ap, ◌∙◌, ◌⊎◌, inl, inr, some, arith, Bool-cases,
  ◌==◌, eq_iff,
}
use poor_travel_agent.Base.Dict.{Dict, lookup, put, lookup-put}
use poor_travel_agent.Jobs.Tables.{
  is_ended, job_completed, completed_with_errors, is_over, Item, Job, Db,
}
use poor_travel_agent.Jobs.Refresh.{next_status, processed_of, tally, of_job, is_dead_letter}
use poor_travel_agent.Jobs.Refreshed.{IsRecount}
use poor_travel_agent.Jobs.Tally.{any, tally-put, processed_lem, all_ended}

-- What a job says of its items: their number, and that all have ended where it is over.
pub record IsJobRight (id : String) (j : Job) (d : Dict Item) : Type 0 where
  pub total : j.total_items ≡ tally (of_job id any) d
  pub ended :
      (k : String) (i : Item)
      → is_over j.status ≡ true
      → lookup k d ≡ some i
      → i.job_id ≡ id
      → is_ended i.status ≡ true

-- The row of every job is right, and an item belongs to a job that is there.
pub record AreJobsRight (db : Db) : Type 0 where
  pub no_orphans : (id : String) → lookup id db.jobs ≡ none → tally (of_job id any) db.items ≡ 0
  pub at : (id : String) (j : Job) → lookup id db.jobs ≡ some j → IsJobRight id j db.items

over_when_all : (c : Bool) (p t f : ℕ) → is_over (next_status c p t f) ≡ true → p ≡ t
unfolding next_status
over_when_all c p t f h = ground (arith, h)

-- a recount says that a job is over only when as many items have ended as it has
over_processed :
    (id : String) (j new : Job) (s : Db)
    → IsRecount id j new s
    → is_over new.status ≡ true
    → processed_of id s.items ≡ j.total_items
over_processed id j new s h o = by h.status
  where
    failed : ℕ
    failed = tally (of_job id is_dead_letter) s.items

    by :
        (new.status ≡ next_status j.cancel_requested (processed_of id s.items) j.total_items failed)
          ⊎ ((next_status j.cancel_requested (processed_of id s.items) j.total_items failed
                ≡ job_completed)
              × (new.status ≡ completed_with_errors))
        → processed_of id s.items ≡ j.total_items
    by (inl e) = over_when_all j.cancel_requested _ _ failed (ap is_over (sym e) ∙ o)
    by (inr (e, f)) = over_when_all j.cancel_requested _ _ failed (ap is_over e)

pub recount-IsJobRight :
    (id : String) (j new : Job) (s : Db)
    → IsRecount id j new s
    → j.total_items ≡ tally (of_job id any) s.items
    → IsJobRight id new s.items
recount-IsJobRight id j new s h t = record {
  total = h.same_total ∙ t;
  ended = λ k i o a m.
      all_ended id k i s.items (sym (processed_lem id s.items) ∙ over_processed id j new s h o ∙ t)
        a (ground (arith, m, eq_iff i.job_id id));
}

-- an item is written that keeps its job
pub put_total :
    (id k : String) (old new : Item) (d : Dict Item)
    → lookup k d ≡ some old
    → new.job_id ≡ old.job_id
    → tally (of_job id any) (put k new d) ≡ tally (of_job id any) d
put_total id k old new d a e =
    tally-put (of_job id any) k old new d a (ap (λ x. (x == id) && true) e)

-- an item of another job is written, or one that has ended exactly when it had
pub other-IsJobRight :
    (id k : String) (old new : Item) (j : Job) (d : Dict Item)
    → lookup k d ≡ some old
    → new.job_id ≡ old.job_id
    → (old.job_id ≡ id → is_over j.status ≡ true → is_ended new.status ≡ true)
    → IsJobRight id j d
    → IsJobRight id j (put k new d)
other-IsJobRight id k old new j d a e f h = record {
  total = h.total ∙ sym (put_total id k old new d a e);
  ended = λ x i o b m. elim (Bool-cases (k == x)) [
    | inl here ↦
        let q = same_row x i here b in
        ap (λ y. is_ended y.status) q ∙ f (sym e ∙ sym (ap Item.job_id q) ∙ m) o
    | inr later ↦ h.ended x i o (ground (arith, later, b, lookup-put k x new d)) m
  ];
}
  where
    same_row : (x : String) (i : Item) → (k == x) ≡ true → lookup x (put k new d) ≡ some i → i ≡ new
    same_row x i here b = ground (arith, here, b, lookup-put k x new d)

-- the row of a job is another one that says the same
pub like-IsJobRight :
    (id : String) (j new : Job) (d : Dict Item)
    → new.total_items ≡ j.total_items
    → (is_over new.status ≡ true → is_over j.status ≡ true)
    → IsJobRight id j d
    → IsJobRight id new d
like-IsJobRight id j new d e f h = record {
  total = e ∙ h.total;
  ended = λ k i o a m. h.ended k i (f o) a m;
}
