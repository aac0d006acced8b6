-- ===== src/Jobs/Attempts.antt =====
-- An item that fails every time it is claimed ends.
use poor_travel_agent.Base.{
  ℕ, zero, suc, ◌+◌, ◌≤◌, ◌<◌, String, Bool, true, false, ◌≡◌, refl, sym, subst, ap, ◌∙◌, ◌⊎◌, inl,
  inr, Option, none, some, List, [], ◌∷◌, ltb, arith, Bool-cases, eq_refl, if◌then◌else◌,
}
use poor_travel_agent.Base.Effect.{Result, ok, raised}
use poor_travel_agent.Base.Dict.{lookup, lookup-put}
use poor_travel_agent.Jobs.Tables.{
  Error, not_found, ItemStatus, queued, retry_wait, dead_letter, is_leased, is_waiting, Item, Job,
  External, Db, Context,
}
use poor_travel_agent.Jobs.Changes.{
  keep_external, keep_key, fail_key, set_state, Update, Outcome, change, breaks_unique, commit,
  on_item, require_lease,
}
use poor_travel_agent.Jobs.Methods.{
  unleased, update_of, is_due, claimed_item, started_job, claiming, claim_item,
}
use poor_travel_agent.Jobs.Endings.{failed_item, failing, fail_item}
use poor_travel_agent.Jobs.Requests.{Request, claim, fail, step, serve}
use poor_travel_agent.Jobs.Refreshed.{commit_rows}
use poor_travel_agent.Jobs.Leases.{refused, taken_item_is_not_claimed}
use poor_travel_agent.Jobs.JobRows.{IsWritten, commit-IsWritten}

-- an item, with a job that is not cancelled
pub record IsReady (id : String) (i : Item) (db : Db) : Type 0 where
  pub job : Job
  pub is_there : lookup id db.items ≡ some i
  pub job_is_there : lookup i.job_id db.jobs ≡ some job
  pub not_cancelled : job.cancel_requested ≡ false

pub on_item_change :
    (c : Context) (id : String) (missing : Result Error (Option Item))
    (f : Item → Job → Option External → Outcome) (i : Item) (j : Job) (u : Update) (db : Db)
    → lookup id db.items ≡ some i
    → lookup i.job_id db.jobs ≡ some j
    → f i j (lookup id db.externals) ≡ change u
    → breaks_unique id u.external db.externals ≡ false
    → on_item c id missing f db ≡ (ok (some u.item), commit c id i.job_id u db)
unfolding on_item
on_item_change c id missing f i j u db a b e free = rw (a, b) (rw e (rw free refl))

change-IsReady :
    (c : Context) (id : String) (missing : Result Error (Option Item))
    (f : Item → Job → Option External → Outcome) (i : Item) (u : Update) (db : Db)
    → (h : IsReady id i db) → f i h.job (lookup id db.externals) ≡ change u
    → breaks_unique id u.external db.externals ≡ false
    → u.item.job_id ≡ i.job_id
    → u.job.cancel_requested ≡ h.job.cancel_requested
    → IsReady id u.item (on_item c id missing f db).1
change-IsReady c id missing f i u db h e free same flag =
    subst (λ x. IsReady id u.item x.1)
      (sym (on_item_change c id missing f i h.job u db h.is_there h.job_is_there e free))
      (record {
        job = w.new;
        is_there =
            ap (λ d. lookup id d) (commit_rows c id i.job_id u db).0
            ∙ ground (arith, lookup-put id id u.item db.items, eq_refl id);
        job_is_there = ap (λ x. lookup x (commit c id i.job_id u db).jobs) same ∙ w.is_there;
        not_cancelled = w.same_cancel ∙ flag ∙ h.not_cancelled;
      })
  where
    w : IsWritten i.job_id u.job u.refreshes db (commit c id i.job_id u db)
    w = commit-IsWritten c id i.job_id u db

abbrev is_counted : ItemStatus → Bool
is_counted queued = true
is_counted retry_wait = true
is_counted _ = false

claim_ok :
    (now lease : ℕ) (worker : String) (i : Item) (j : Job) (e : Option External)
    → j.cancel_requested ≡ false
    → is_waiting i.status ≡ true
    → is_due now i.next_attempt_at ≡ true
    → claiming now worker lease i j e
      ≡ change (
          update_of
            (claimed_item now worker lease i)
            (started_job now j)
            keep_external
            keep_key
            false)
unfolding claiming
claim_ok now lease worker i j e f w d = rw (f, w, d) refl

claim-IsReady :
    (c : Context) (id worker : String) (lease : ℕ) (i : Item) (db : Db)
    → IsReady id i db
    → is_waiting i.status ≡ true
    → is_due c.now i.next_attempt_at ≡ true
    → IsReady id (claimed_item c.now worker lease i) (claim_item c id worker lease db).1
unfolding claim_item
claim-IsReady c id worker lease i db h w d =
    change-IsReady c id (ok none) (claiming c.now worker lease) i
      (update_of (claimed_item c.now worker lease i) (started_job c.now h.job) keep_external
        keep_key false)
      db h (claim_ok c.now lease worker i h.job _ h.not_cancelled w d) refl refl refl

attempts_claimed :
    (now lease : ℕ) (worker : String) (i : Item)
    → is_counted i.status ≡ true
    → (claimed_item now worker lease i).attempts ≡ i.attempts + 1
attempts_claimed now lease worker i h = ground (arith, h)

counted_waits : (s : ItemStatus) → is_counted s ≡ true → is_waiting s ≡ true
counted_waits s h = ground (arith, h)

abbrev retried : ℕ → List ℕ → Item → Item
retried at error i = unleased (failed_item error i) retry_wait (some at)

abbrev dead : List ℕ → Item → Item
dead error i = unleased (failed_item error i) dead_letter none

leased_failing :
    (now delay lease : ℕ) (worker : String) (error : List ℕ) (i : Item) (j : Job)
    (e : Option External)
    → j.cancel_requested ≡ false
    → (b : Bool) → ltb (claimed_item now worker lease i).attempts i.max_attempts ≡ b
    → require_lease worker (failing now error delay true) (claimed_item now worker lease i) j e
      ≡ change (
          if b
          then update_of
              (retried (now + delay) error (claimed_item now worker lease i))
              j
              keep_external
              keep_key
              true
          else update_of
              (dead error (claimed_item now worker lease i))
              j
              (set_state "failed")
              fail_key
              true)
unfolding require_lease failing
leased_failing now delay lease worker error i j e f true b = rw (eq_refl worker, f, b) refl
leased_failing now delay lease worker error i j e f false b = rw (eq_refl worker, f, b) refl

-- a worker that claims an item and fails it, again each time that it is due
pub failing_calls :
    String → String → ℕ → List ℕ → ℕ → (String → String → String) → ℕ → ℕ → List (Context × Request)
failing_calls id worker lease error delay hash zero t = []
failing_calls id worker lease error delay hash (suc n) t =
    (record { now = t; manifest_id = hash }, claim id worker lease)
    ∷ (record { now = t; manifest_id = hash }, fail id worker error delay true)
    ∷ failing_calls id worker lease error delay hash n (t + delay)

module _ (id worker : String) (lease : ℕ) (error : List ℕ) (delay : ℕ)
    (hash : String → String → String) where
  abbrev at_time : ℕ → Context
  at_time t = record { now = t; manifest_id = hash }

  abbrev round : ℕ → Db → Db
  round t db =
      (fail_item (at_time t) id worker error delay true
        (claim_item (at_time t) id worker lease db).1).1

  abbrev after : ℕ → ℕ → Db → Db
  after n t db = serve db (failing_calls id worker lease error delay hash n t)

  after_round : (n t : ℕ) (db : Db) → after (suc n) t db ≡ after n (t + delay) (round t db)
  unfolding failing_calls serve step
  after_round n t db = refl

  round-IsReady :
      (t : ℕ) (i : Item) (db : Db) (b : Bool)
      → IsReady id i db
      → is_counted i.status ≡ true
      → is_due t i.next_attempt_at ≡ true
      → ltb (claimed_item t worker lease i).attempts i.max_attempts ≡ b
      → IsReady id
          (if b
            then retried (t + delay) error (claimed_item t worker lease i)
            else dead error (claimed_item t worker lease i))
          (round t db)
  unfolding fail_item
  round-IsReady t i db true h s d e =
      let r = claim-IsReady (at_time t) id worker lease i db h (counted_waits i.status s) d in
      change-IsReady (at_time t) id (raised not_found) _ (claimed_item t worker lease i) _ _ r
        (leased_failing t delay lease worker error i r.job _ r.not_cancelled true e) refl refl refl
  round-IsReady t i db false h s d e =
      let r = claim-IsReady (at_time t) id worker lease i db h (counted_waits i.status s) d in
      change-IsReady (at_time t) id (raised not_found) _ (claimed_item t worker lease i) _ _ r
        (leased_failing t delay lease worker error i r.job _ r.not_cancelled false e) refl refl refl

  -- a dead letter is neither claimed nor failed again
  round_dead :
      (t : ℕ) (i : Item) (db : Db) → IsReady id i db → i.status ≡ dead_letter → round t db ≡ db
  unfolding fail_item
  round_dead t i db h s =
      ap (λ x. (fail_item (at_time t) id worker error delay true x.1).1)
        (taken_item_is_not_claimed (at_time t) id worker lease i db h.is_there (ap is_waiting s))
      ∙ ap (λ x. x.1)
          (refused (at_time t) id worker (failing t error delay true) db (record {
            row = i;
            job = h.job;
            is_there = h.is_there;
            job_is_there = h.job_is_there;
            no_lease = ground (arith, ap is_leased s);
          }))

  dead_stays :
      (n t : ℕ) (i : Item) (db : Db) → IsReady id i db → i.status ≡ dead_letter → after n t db ≡ db
  unfolding failing_calls serve
  dead_stays zero t i db h s = refl
  dead_stays (suc n) t i db h s =
      after_round n t db
      ∙ ap (after n (t + delay)) (round_dead t i db h s)
      ∙ dead_stays n (t + delay) i db h s

  -- A job that is not cancelled, and an item of it that is queued or waits for a retry, and is due: when
  -- one worker claims it and fails it as retryable, over and over, each time at the moment that it is due,
  -- then after as many rounds as it has attempts left, and at least one, and after any more, the item is
  -- in the table as a dead letter.
  pub retries_end :
      (n t : ℕ) (i : Item) (db : Db)
      → IsReady id i db
      → is_counted i.status ≡ true
      → is_due t i.next_attempt_at ≡ true
      → 0 < n
      → i.max_attempts ≤ i.attempts + n
      → (x : Item) × ((lookup id (after n t db).items ≡ some x) × (x.status ≡ dead_letter))
  retries_end zero t i db h s d p m = absurd (ground (arith, p))
  retries_end (suc n) t i db h s d p m =
      subst (λ y. (x : Item) × ((lookup id y.items ≡ some x) × (x.status ≡ dead_letter)))
        (sym (after_round n t db))
        (by (λ j y q g w l k. retries_end n (t + delay) j y q g w l k)
          (Bool-cases (ltb (claimed_item t worker lease i).attempts i.max_attempts)))
    where
      by :
          ((j : Item) (y : Db)
            → IsReady id j y
            → is_counted j.status ≡ true
            → is_due (t + delay) j.next_attempt_at ≡ true
            → 0 < n
            → j.max_attempts ≤ j.attempts + n
            → (x : Item) × ((lookup id (after n (t + delay) y).items ≡ some x)
                × (x.status ≡ dead_letter)))
          → ((ltb (claimed_item t worker lease i).attempts i.max_attempts ≡ true)
              ⊎ (ltb (claimed_item t worker lease i).attempts i.max_attempts ≡ false))
          → (x : Item) × ((lookup id (after n (t + delay) (round t db)).items ≡ some x)
              × (x.status ≡ dead_letter))
      by rest (inl more) =
          rest (retried (t + delay) error (claimed_item t worker lease i)) (round t db)
            (round-IsReady t i db true h s d more) refl (ground arith)
            (ground (arith, more, m, attempts_claimed t lease worker i s))
            (ground (arith, m, attempts_claimed t lease worker i s))
      by rest (inr last) =
          let r = round-IsReady t i db false h s d last in
          (
            dead error (claimed_item t worker lease i),
            (
              ap (λ y. lookup id y.items)
                    (dead_stays n (t + delay) (dead error (claimed_item t worker lease i))
                      (round t db) r refl)
                  ∙ r.is_there,
              refl,
            ),
          )
