-- ===== src/Jobs/Cancelled.antt =====
-- A cancelled job gives no item to a worker.
use poor_travel_agent.Base.{
  ℕ, String, true, ◌≡◌, refl, ap, ◌∙◌, inl, inr, Option, none, some, List, arith, Bool-cases,
  eq_iff,
}
use poor_travel_agent.Base.Effect.{ok, raised}
use poor_travel_agent.Base.Dict.{lookup, lookup-put}
use poor_travel_agent.Jobs.Tables.{not_found, cancelling, is_over, Item, Job, External, Db, Context}
use poor_travel_agent.Jobs.Refresh.{refresh_job}
use poor_travel_agent.Jobs.Changes.{nothing, on_item}
use poor_travel_agent.Jobs.Methods.{claiming, claim_item}
use poor_travel_agent.Jobs.Cancelling.{
  mark_cancelling, cancel_waiting, say_cancelling, cancel_found, cancel_job,
}
use poor_travel_agent.Jobs.Requests.{Request, serve}
use poor_travel_agent.Jobs.Kept.{after_mark-Kept}
use poor_travel_agent.Jobs.Stopped.{IsStopped, IsStopped-Kept, IsStopped-cancel, serve-IsStopped}

-- the flag is set first, and the rest of `cancel_job` keeps the job stopped
marked-IsStopped :
    (c : Context) (id : String) (j : Job) (db : Db)
    → IsStopped id
        (refresh_job c id (say_cancelling id (cancel_waiting c id (mark_cancelling id j db))))
unfolding mark_cancelling
marked-IsStopped c id j db =
    after_mark-Kept (IsStopped-Kept id) (IsStopped-cancel id) c id _ (record {
      job = record j { cancel_requested = true; status = cancelling };
      is_there = ground (
        arith,
        lookup-put id id (record j { cancel_requested = true; status = cancelling }) db.jobs,
        eq_iff id id,
      );
      flag = refl;
      status = refl;
    })

returned-IsStopped :
    (c : Context) (id : String) (o : Option Job) (db : Db)
    → (cancel_found c id o db).0 ≡ ok tt
    → IsStopped id (cancel_found c id o db).1
returned-IsStopped c id none db r = absurd (no r)
  where
    no : raised not_found ≡ ok tt → ⊥
    no q = cc
returned-IsStopped c id (some j) db r = elim (Bool-cases (is_over j.status)) [
  | inl over ↦ absurd (ground (arith, over, r))
  | inr live ↦ rw live (marked-IsStopped c id j db)
]

pub cancel_job-IsStopped :
    (c : Context) (id : String) (db : Db)
    → (cancel_job c id db).0 ≡ ok tt
    → IsStopped id (cancel_job c id db).1
unfolding cancel_job
cancel_job-IsStopped c id db r = returned-IsStopped c id (lookup id db.jobs) db r

claim_stopped :
    (now : ℕ) (worker : String) (lease : ℕ) (i : Item) (j : Job) (e : Option External)
    → j.cancel_requested ≡ true
    → claiming now worker lease i j e ≡ nothing
unfolding claiming
claim_stopped now worker lease i j e f = rw f refl

pub stopped_claims :
    (c : Context) (id item worker : String) (lease : ℕ) (i : Item) (db : Db)
    → IsStopped id db
    → lookup item db.items ≡ some i
    → i.job_id ≡ id
    → claim_item c item worker lease db ≡ (ok none, db)
unfolding claim_item on_item
stopped_claims c id item worker lease i db h a e = rw (a, there) (rw stopped refl)
  where
    there : lookup i.job_id db.jobs ≡ some h.job
    there = ap (λ x. lookup x db.jobs) e ∙ h.is_there

    stopped : claiming c.now worker lease i h.job (lookup item db.externals) ≡ nothing
    stopped = claim_stopped c.now worker lease i h.job (lookup item db.externals) h.flag

-- Once `cancel_job` has returned for a job, and through any later calls, a claim of an item of that
-- job answers none and changes nothing.
pub cancelled_jobs_claim_nothing :
    (c : Context) (id : String) (db : Db) (calls : List (Context × Request)) (later : Context)
    (item worker : String) (lease : ℕ) (i : Item)
    → (cancel_job c id db).0 ≡ ok tt
    → lookup item (serve (cancel_job c id db).1 calls).items ≡ some i
    → i.job_id ≡ id
    → claim_item later item worker lease (serve (cancel_job c id db).1 calls)
      ≡ (ok none, serve (cancel_job c id db).1 calls)
cancelled_jobs_claim_nothing c id db calls later item worker lease i r a e =
    stopped_claims later id item worker lease i _
      (serve-IsStopped id _ calls (cancel_job-IsStopped c id db r)) a e
