-- ===== src/Jobs/Leases.antt =====
-- What a worker gets that does not hold the lease of an item.
use poor_travel_agent.Base.{
  ℕ, String, Bool, true, false, not, ◌&&◌, ◌||◌, ◌≡◌, refl, Option, none, some, List, arith,
}
use poor_travel_agent.Base.Effect.{ok, raised}
use poor_travel_agent.Base.Dict.{lookup}
use poor_travel_agent.Jobs.Tables.{
  not_found, conflict, is_leased, is_waiting, Item, Job, External, Db, Context,
}
use poor_travel_agent.Jobs.Changes.{
  Outcome, refuse, nothing, with_job, on_item, is_owner, require_lease,
}
use poor_travel_agent.Jobs.Methods.{
  claiming, claim_item, heartbeat, start_parsing, start_applying, start_understanding,
  record_parser_progress,
}
use poor_travel_agent.Jobs.Endings.{complete_item, fail_item, cancel_claimed_item}

-- an item and its job are in their tables, and the worker does not hold the lease
pub record IsForeign (item worker : String) (db : Db) : Type 0 where
  pub row : Item
  pub job : Job
  pub is_there : lookup item db.items ≡ some row
  pub job_is_there : lookup row.job_id db.jobs ≡ some job
  pub no_lease : (is_owner worker row && is_leased row.status) ≡ false

pub refused :
    (c : Context) (item worker : String) (f : Item → Job → Option External → Outcome) (db : Db)
    → IsForeign item worker db
    → on_item c item (raised not_found) (require_lease worker f) db ≡ (raised conflict, db)
unfolding on_item
refused c item worker f db h = rw (h.is_there, h.job_is_there) (rw lost refl)
  where
    lost : require_lease worker f h.row h.job (lookup item db.externals) ≡ refuse conflict
    lost = unfold require_lease in (ground (arith, h.no_lease))

-- A worker that does not hold the lease of an item: its heartbeat answers no, its calls to start
-- parsing, applying or understanding, to report progress, to complete, to fail and to cancel the item
-- raise a conflict, and none of them changes anything.
pub foreign_worker_changes_nothing :
    (c : Context) (item worker stage : String) (lease delay : ℕ) (proposal : Option String)
    (skip retryable : Bool) (error : List ℕ) (db : Db)
    → IsForeign item worker db
    → (heartbeat c item worker lease db ≡ (ok false, db))
      × (start_parsing c item worker db ≡ (raised conflict, db))
      × (start_applying c item worker db ≡ (raised conflict, db))
      × (start_understanding c item worker db ≡ (raised conflict, db))
      × (record_parser_progress c item worker stage db ≡ (raised conflict, db))
      × (complete_item c item worker proposal skip db ≡ (raised conflict, db))
      × (fail_item c item worker error delay retryable db ≡ (raised conflict, db))
      × (cancel_claimed_item c item worker db ≡ (raised conflict, db))
unfolding heartbeat start_parsing start_applying start_understanding record_parser_progress
    complete_item fail_item cancel_claimed_item
foreign_worker_changes_nothing c item worker stage lease delay proposal skip retryable error db h =
    (
      rw h.is_there (rw no_beat refl),
      refused c item worker _ db h,
      refused c item worker _ db h,
      refused c item worker _ db h,
      refused c item worker _ db h,
      refused c item worker _ db h,
      refused c item worker _ db h,
      refused c item worker _ db h,
    )
  where
    no_beat : (not (is_owner worker h.row) || not (is_leased h.row.status)) ≡ true
    no_beat = ground (arith, h.no_lease)

not_waiting :
    (now lease : ℕ) (worker : String) (i : Item) (j : Job) (e : Option External)
    → is_waiting i.status ≡ false
    → claiming now worker lease i j e ≡ nothing
unfolding claiming
not_waiting now lease worker i j e h = ground (arith, h)

-- An item that is under a lease, or has ended, is claimed by nobody: the claim answers none and
-- changes nothing.
pub taken_item_is_not_claimed :
    (c : Context) (item worker : String) (lease : ℕ) (i : Item) (db : Db)
    → lookup item db.items ≡ some i
    → is_waiting i.status ≡ false
    → claim_item c item worker lease db ≡ (ok none, db)
unfolding claim_item on_item
taken_item_is_not_claimed c item worker lease i db a h = rw a (by (lookup i.job_id db.jobs))
  where
    by :
        (o : Option Job)
        → with_job c item (ok none) (claiming c.now worker lease) i o db ≡ (ok none, db)
    by none = refl
    by (some j) = rw (not_waiting c.now lease worker i j (lookup item db.externals) h) refl
