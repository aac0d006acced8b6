-- ===== src/Jobs/Claims.antt =====
-- The idempotency keys, and the items that are ready.
use poor_travel_agent.Base.{
  ℕ, String, false, not, ◌&&◌, Option, none, some, List, take, ◌==◌, if◌then◌else◌,
}
use poor_travel_agent.Base.Effect.{ok, raised}
use poor_travel_agent.Base.Dict.{lookup, put}
use poor_travel_agent.Jobs.Tables.{not_found, is_waiting, Item, KeyStatus, Key, Db, Context, Jobs}
use poor_travel_agent.Jobs.Methods.{is_due, select_ids}

-- What a worker is told about the key of its item.
pub data IdempotencyClaim : Type 0 where
  acquired busy : IdempotencyClaim
  duplicate : Option String → IdempotencyClaim

abbrev pub processing_key : String → Key
processing_key item_id = record {
  owner_item_id = item_id;
  status = KeyStatus.processing;
  proposal_id = none;
}

abbrev pub take_key : String → String → Jobs IdempotencyClaim
take_key item_id name db =
    (ok acquired, record db { keys = put name (processing_key item_id) db.keys })

abbrev pub by_key_status : String → String → Key → KeyStatus → Jobs IdempotencyClaim
by_key_status item_id name k KeyStatus.key_completed db = (ok (duplicate k.proposal_id), db)
by_key_status item_id name k KeyStatus.key_failed db =
    if k.owner_item_id == item_id then (ok acquired, db) else take_key item_id name db
by_key_status item_id name k KeyStatus.processing db =
    if k.owner_item_id == item_id then (ok acquired, db) else (ok busy, db)

abbrev pub claim_key : String → String → Option Key → Jobs IdempotencyClaim
claim_key item_id name none db = take_key item_id name db
claim_key item_id name (some k) db = by_key_status item_id name k k.status db

abbrev pub claim_of : String → Option Item → Jobs IdempotencyClaim
claim_of item_id none db = (raised not_found, db)
claim_of item_id (some i) db =
    claim_key item_id i.idempotency_key (lookup i.idempotency_key db.keys) db

unfoldable pub claim_idempotency : String → Jobs IdempotencyClaim
claim_idempotency item_id db = claim_of item_id (lookup item_id db.items) db

-- the items that a worker may claim, at most `limit`
unfoldable pub ready_item_ids : Context → ℕ → Db → List String
ready_item_ids c limit db = take limit (
    select_ids
      (λ i.
        is_waiting i.status
        && is_due c.now i.next_attempt_at
        && elim (lookup i.job_id db.jobs) [ none ↦ false | some job ↦ not job.cancel_requested ])
      db.items)
