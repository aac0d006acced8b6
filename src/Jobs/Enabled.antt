-- ===== src/Jobs/Enabled.antt =====
-- A call that the machine of `Jobs.Edges` allows does move its item.
use poor_travel_agent.Base.{
  ℕ, ◌+◌, String, Bool, true, false, ◌&&◌, ◌≡◌, refl, sym, subst, ap, ◌∙◌, inl, inr, Option, none,
  some, List, ltb, arith, Bool-cases, ◌==◌, str-eq→eq,
}
use poor_travel_agent.Base.Effect.{Result, ok, raised}
use poor_travel_agent.Base.Dict.{Dict, lookup, lookup-put}
use poor_travel_agent.Jobs.Tables.{
  Error, not_found, ItemStatus, parsing, understanding, applying, retry_wait, dead_letter,
  completed, skipped, cancelled, Item, Job, External, Db, Context,
}
use poor_travel_agent.Jobs.Changes.{
  keep_external, delete_external, set_state, keep_key, fail_key, complete_key, Update, Outcome,
  change, breaks_unique, on_item, require_lease,
}
use poor_travel_agent.Jobs.Methods.{
  unleased, update_of, claimed_item, started_job, claiming, starting, claim_item, start_parsing,
  start_applying, start_understanding,
}
use poor_travel_agent.Jobs.Endings.{
  completing, failed_item, failing, cancelling_claimed, retried_item, reopened, retrying,
  complete_item, fail_item, cancel_claimed_item, retry_item,
}
use poor_travel_agent.Jobs.Refreshed.{commit_rows}
use poor_travel_agent.Jobs.Attempts.{on_item_change}
use poor_travel_agent.Jobs.Requests.{Request, step}
use poor_travel_agent.Jobs.Edges.{is_about, allows, Enters, owner_after, attempts_after, IsMove}
use poor_travel_agent.Jobs.Called.{Becomes}

-- a decision that moves an item, and breaks no constraint
record Writes (c : Context) (r : Request) (i : Item) (o : Outcome) : Type 0 where
  update : Update
  is_change : o ≡ change update
  is_move : IsMove c r i update.item
  is_free : (id : String) (d : Dict External) → breaks_unique id update.external d ≡ false

module _ (c : Context) (id worker : String) (i : Item) (j : Job) (e : Option External)
    (live : j.cancel_requested ≡ false) where
  claiming-Writes :
      (lease : ℕ)
      → allows c (Request.claim id worker lease) i ≡ true
      → Writes c (Request.claim id worker lease) i (claiming c.now worker lease i j e)
  unfolding claiming allows Enters owner_after attempts_after
  claiming-Writes lease a = record {
    update =
        update_of (claimed_item c.now worker lease i) (started_job c.now j) keep_external keep_key
          false;
    is_change = ground (arith, a, live);
    is_move = ground (arith, a);
    is_free = λ x d. refl;
  }

  abbrev started : ItemStatus → Update
  started status = update_of (record i { status = status }) j keep_external keep_key false

  parsing-Writes :
      allows c (Request.parse id worker) i ≡ true
      → Writes c (Request.parse id worker) i (require_lease worker (starting parsing) i j e)
  unfolding require_lease allows Enters owner_after attempts_after
  parsing-Writes a = record {
    update = started parsing;
    is_change = ground (arith, a, live);
    is_move = ground (arith, a);
    is_free = λ x d. refl;
  }

  applying-Writes :
      allows c (Request.apply id worker) i ≡ true
      → Writes c (Request.apply id worker) i (require_lease worker (starting applying) i j e)
  unfolding require_lease allows Enters owner_after attempts_after
  applying-Writes a = record {
    update = started applying;
    is_change = ground (arith, a, live);
    is_move = ground (arith, a);
    is_free = λ x d. refl;
  }

  understanding-Writes :
      allows c (Request.understand id worker) i ≡ true
      → Writes c
          (Request.understand id worker)
          i
          (require_lease worker (starting understanding) i j e)
  unfolding require_lease allows Enters owner_after attempts_after
  understanding-Writes a = record {
    update = started understanding;
    is_change = ground (arith, a, live);
    is_move = ground (arith, a);
    is_free = λ x d. refl;
  }

  completing-Writes :
      (proposal : Option String) (skip : Bool)
      → allows c (Request.complete id worker proposal skip) i ≡ true
      → Writes c
          (Request.complete id worker proposal skip)
          i
          (require_lease worker (completing proposal skip) i j e)
  unfolding require_lease allows Enters owner_after attempts_after
  completing-Writes proposal true a = record {
    update =
        update_of (record (unleased i skipped i.next_attempt_at) { proposal_id = proposal }) j
          keep_external keep_key true;
    is_change = ground (arith, a);
    is_move = ground (arith, a);
    is_free = λ x d. refl;
  }
  completing-Writes proposal false a = record {
    update =
        update_of (record (unleased i completed i.next_attempt_at) { proposal_id = proposal }) j
          keep_external (complete_key proposal) true;
    is_change = ground (arith, a);
    is_move = ground (arith, a);
    is_free = λ x d. refl;
  }

  failing-Writes :
      (error : List ℕ) (delay : ℕ) (retryable : Bool)
      → allows c (Request.fail id worker error delay retryable) i ≡ true
      → Writes c
          (Request.fail id worker error delay retryable)
          i
          (require_lease worker (failing c.now error delay retryable) i j e)
  unfolding require_lease failing allows Enters owner_after attempts_after
  failing-Writes error delay retryable a =
      elim (Bool-cases (retryable && ltb i.attempts i.max_attempts)) [
        | inl again ↦ record {
          update =
              update_of (unleased (failed_item error i) retry_wait (some (c.now + delay))) j
                keep_external keep_key true;
          is_change = ground (arith, a, live, again);
          is_move = ground (arith, a, again);
          is_free = λ x d. refl;
        }
        | inr over ↦ record {
          update =
              update_of (unleased (failed_item error i) dead_letter none) j (set_state "failed")
                fail_key true;
          is_change = ground (arith, a, live, over);
          is_move = ground (arith, a, over);
          is_free = λ x d. refl;
        }
      ]

  cancelling_claimed-Writes :
      allows c (Request.cancel_claimed id worker) i ≡ true
      → Writes c
          (Request.cancel_claimed id worker)
          i
          (require_lease worker cancelling_claimed i j e)
  unfolding require_lease allows Enters owner_after attempts_after
  cancelling_claimed-Writes a = record {
    update =
        update_of (unleased i cancelled i.next_attempt_at) j (set_state "cancelled") keep_key true;
    is_change = ground (arith, a);
    is_move = ground (arith, a);
    is_free = λ x d. refl;
  }

retrying-Writes :
    (c : Context) (job x id : String) (i : Item) (j : Job) (e : Option External)
    → j.cancel_requested ≡ false
    → is_about (Request.retry job x) id i ≡ true
    → allows c (Request.retry job x) i ≡ true
    → Writes c (Request.retry job x) i (retrying c.now job i j e)
unfolding retrying is_about allows Enters owner_after attempts_after
retrying-Writes c job x id i j e live s a = record {
  update = update_of (retried_item c.now i) (reopened j) delete_external keep_key true;
  is_change = ground (arith, a, s, live);
  is_move = ground (arith, a);
  is_free = λ x d. refl;
}

moved_item :
    (c : Context) (r : Request) (x id : String) (missing : Result Error (Option Item))
    (f : Item → Job → Option External → Outcome) (i : Item) (j : Job) (db : Db)
    → lookup id db.items ≡ some i
    → lookup i.job_id db.jobs ≡ some j
    → (x == id) ≡ true
    → Writes c r i (f i j (lookup x db.externals))
    → Becomes id (IsMove c r i) (on_item c x missing f db).1
moved_item c r x id missing f i j db h g s w =
    subst (λ y. Becomes id (IsMove c r i) y.1)
      (sym (
        on_item_change c x missing f i j w.update db
          (ap (λ k. lookup k db.items) (str-eq→eq x id s) ∙ h) g w.is_change
          (w.is_free x db.externals)))
      (record {
        row = w.update.item;
        is_there =
            ap (λ d. lookup id d) (commit_rows c x i.job_id w.update db).0
            ∙ ground (arith, lookup-put x id w.update.item db.items, s);
        holds = w.is_move;
      })

-- the calls on one item that need no ticket of an external parser
abbrev pub is_direct : Request → Bool
is_direct (Request.claim x worker lease) = true
is_direct (Request.parse x worker) = true
is_direct (Request.apply x worker) = true
is_direct (Request.understand x worker) = true
is_direct (Request.complete x worker proposal skip) = true
is_direct (Request.fail x worker error delay retryable) = true
is_direct (Request.cancel_claimed x worker) = true
is_direct (Request.retry job x) = true
is_direct _ = false

retry_names :
    (job x id : String) (i : Item) → is_about (Request.retry job x) id i ≡ true → (x == id) ≡ true
unfolding is_about
retry_names job x id i s = ground (arith, s)

-- For an item whose job is there and is not to be cancelled: a call that claims it, starts parsing,
-- applying or understanding, completes, fails, cancels or retries it, is about the item and finds it in
-- the state that the machine of `Jobs.Edges` wants, does move its row along the edge of that call.
pub allowed_calls_move :
    (c : Context) (r : Request) (db : Db) (id : String) (i : Item) (j : Job)
    → is_direct r ≡ true
    → lookup id db.items ≡ some i
    → lookup i.job_id db.jobs ≡ some j
    → j.cancel_requested ≡ false
    → is_about r id i ≡ true
    → allows c r i ≡ true
    → Becomes id (IsMove c r i) (step c r db)
unfolding step is_about claim_item start_parsing start_applying start_understanding complete_item
    fail_item cancel_claimed_item retry_item
allowed_calls_move c (Request.claim x worker lease) db id i j d h g live s a =
    moved_item c (Request.claim x worker lease) x id (ok none) _ i j db h g s
      (claiming-Writes c x worker i j _ live lease a)
allowed_calls_move c (Request.parse x worker) db id i j d h g live s a =
    moved_item c (Request.parse x worker) x id (raised not_found) _ i j db h g s
      (parsing-Writes c x worker i j _ live a)
allowed_calls_move c (Request.apply x worker) db id i j d h g live s a =
    moved_item c (Request.apply x worker) x id (raised not_found) _ i j db h g s
      (applying-Writes c x worker i j _ live a)
allowed_calls_move c (Request.understand x worker) db id i j d h g live s a =
    moved_item c (Request.understand x worker) x id (raised not_found) _ i j db h g s
      (understanding-Writes c x worker i j _ live a)
allowed_calls_move c (Request.complete x worker proposal skip) db id i j d h g live s a =
    moved_item c (Request.complete x worker proposal skip) x id (raised not_found) _ i j db h g s
      (completing-Writes c x worker i j _ live proposal skip a)
allowed_calls_move c (Request.fail x worker error delay retryable) db id i j d h g live s a =
    moved_item c (Request.fail x worker error delay retryable) x id (raised not_found) _ i j db h g
      s (failing-Writes c x worker i j _ live error delay retryable a)
allowed_calls_move c (Request.cancel_claimed x worker) db id i j d h g live s a =
    moved_item c (Request.cancel_claimed x worker) x id (raised not_found) _ i j db h g s
      (cancelling_claimed-Writes c x worker i j _ live a)
allowed_calls_move c (Request.retry job x) db id i j d h g live s a =
    moved_item c (Request.retry job x) x id (raised not_found) _ i j db h g
      (retry_names job x id i s) (retrying-Writes c job x id i j _ live s a)
allowed_calls_move c r db id i j d h g live s a = absurd (not_direct d)
  where
    not_direct : false ≡ true → ⊥
    not_direct q = cc
