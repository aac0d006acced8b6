-- ===== src/Jobs/Methods.antt =====
-- The methods of the repository that claim an item and work on it.
use poor_travel_agent.Base.{
  ℕ, ◌+◌, String, Bool, true, false, not, ◌&&◌, ◌||◌, Option, none, some, List, [], ◌∷◌, length,
  leb, ltb, ◌==◌, if◌then◌else◌,
}
use poor_travel_agent.Base.Text.{codes}
use poor_travel_agent.Base.Effect.{Result, ok, raised}
use poor_travel_agent.Base.Dict.{Dict, lookup, put}
use poor_travel_agent.Jobs.Tables.{
  Error, conflict, value_error, ItemStatus, external_wait, claimed, parsing, understanding,
  applying, status_text, is_leased, is_waiting, running, Item, Job, External, Db, Context, Jobs,
}
use poor_travel_agent.Jobs.Changes.{
  Update, ExternalChange, keep_external, set_state, set_external, KeyChange, keep_key, Outcome,
  refuse, nothing, change, with_state, on_item, on_locked, is_owner, require_lease,
}

-- an item with a new status, and no lease
abbrev pub unleased : Item → ItemStatus → Option ℕ → Item
unleased i status next_attempt = record i {
  status = status;
  lease_owner = none;
  lease_expires_at = none;
  next_attempt_at = next_attempt;
}

-- an update that has its item's status as its event
abbrev pub update_of : Item → Job → ExternalChange → KeyChange → Bool → Update
update_of i job external key refreshes = record {
  item = i;
  job = job;
  kind = "item";
  event = status_text i.status;
  external = external;
  key = key;
  refreshes = refreshes;
}

abbrev pub moved : Item → Job → ExternalChange → KeyChange → Bool → Outcome
moved i job external key refreshes = change (update_of i job external key refreshes)

abbrev pub is_due : ℕ → Option ℕ → Bool
is_due now none = true
is_due now (some t) = leb t now

abbrev counted_attempt : ItemStatus → ℕ → ℕ
counted_attempt external_wait n = n
counted_attempt _ n = n + 1

abbrev first_start : ℕ → Option ℕ → Option ℕ
first_start now none = some now
first_start now (some t) = some t

abbrev pub claimed_item : ℕ → String → ℕ → Item → Item
claimed_item now worker_id lease i = record i {
  status = claimed;
  attempts = counted_attempt i.status i.attempts;
  lease_owner = some worker_id;
  lease_expires_at = some (now + lease);
  next_attempt_at = none;
  error = none;
}

abbrev pub started_job : ℕ → Job → Job
started_job now job = record job { started_at = first_start now job.started_at; status = running }

unfoldable pub claiming : ℕ → String → ℕ → Item → Job → Option External → Outcome
claiming now worker_id lease item job external =
    if job.cancel_requested
    then nothing
    else (if not (is_waiting item.status && is_due now item.next_attempt_at)
        then nothing
        else moved (claimed_item now worker_id lease item) (started_job now job) keep_external
            keep_key false)

unfoldable pub claim_item : Context → String → String → ℕ → Jobs (Option Item)
claim_item c item_id worker_id lease = on_item c item_id (ok none) (claiming c.now worker_id lease)

abbrev pub beat : Context → String → String → ℕ → Option Item → Jobs Bool
beat c item_id worker_id lease none db = (ok false, db)
beat c item_id worker_id lease (some i) db =
    if not (is_owner worker_id i) || not (is_leased i.status) then (ok false, db) else (
      ok true,
      record db {
        items = put item_id (record i { lease_expires_at = some (c.now + lease) }) db.items;
      },
    )

unfoldable pub heartbeat : Context → String → String → ℕ → Jobs Bool
heartbeat c item_id worker_id lease db = beat c item_id worker_id lease (lookup item_id db.items) db

-- `start_parsing`, `start_applying` and `start_understanding`, which differ in the status only
abbrev pub starting : ItemStatus → Item → Job → Option External → Outcome
starting status item job external =
    if job.cancel_requested
    then refuse conflict
    else moved (record item { status = status }) job keep_external keep_key false

unfoldable pub start_parsing : Context → String → String → Jobs (Option Item)
start_parsing c item_id worker_id = on_locked c item_id (require_lease worker_id (starting parsing))

unfoldable pub start_applying : Context → String → String → Jobs (Option Item)
start_applying c item_id worker_id =
    on_locked c item_id (require_lease worker_id (starting applying))

unfoldable pub start_understanding : Context → String → String → Jobs (Option Item)
start_understanding c item_id worker_id =
    on_locked c item_id (require_lease worker_id (starting understanding))

abbrev pub is_parsing : ItemStatus → Bool
is_parsing parsing = true
is_parsing _ = false

abbrev pub reporting : String → Item → Job → Option External → Outcome
reporting stage item job external =
    if not (is_parsing item.status)
    then refuse conflict
    else change (record {
      item = item;
      job = job;
      kind = "parser";
      event = stage;
      external = keep_external;
      key = keep_key;
      refreshes = false;
    })

unfoldable pub record_parser_progress : Context → String → String → String → Jobs (Option Item)
record_parser_progress c item_id worker_id stage =
    on_locked c item_id (require_lease worker_id (reporting stage))

-- The ticket of an external parser: its adapter, the version, the task and the state.
pub record Ticket : Type 0 where
  pub adapter_id : String
  pub adapter_version : String
  pub task_id : String
  pub state : String

abbrev pub is_over_state : String → Bool
is_over_state s =
    s == "completed" || s == "failed" || s == "fallback" || s == "timed_out" || s == "cancelled"

abbrev pub new_external : ℕ → Ticket → External
new_external now t = record {
  adapter_id = t.adapter_id;
  adapter_version = t.adapter_version;
  task_id = t.task_id;
  state = t.state;
  submitted_at = now;
}

abbrev pub is_same_ticket : Ticket → External → Bool
is_same_ticket t e =
    e.adapter_id == t.adapter_id && e.adapter_version == t.adapter_version && e.task_id == t.task_id

abbrev pub deferred : Item → Job → ℕ → External → Outcome
deferred item job retry_at e =
    moved (unleased item external_wait (some retry_at)) job (set_external e) keep_key true

abbrev pub deferring : ℕ → Ticket → ℕ → Item → Job → Option External → Outcome
deferring now t delay item job none = deferred item job (now + delay) (new_external now t)
deferring now t delay item job (some e) =
    if is_same_ticket t e
    then deferred item job (now + delay) (with_state t.state e)
    else (if is_over_state e.state
        then deferred item job (now + delay) (new_external now t)
        else refuse conflict)

abbrev pub deferring_parser : ℕ → Ticket → ℕ → Item → Job → Option External → Outcome
deferring_parser now t delay item job external =
    if not (is_parsing item.status)
    then refuse conflict
    else deferring now t delay item job external

abbrev is_longer : String → ℕ → Bool
is_longer s n = ltb n (length (codes s))

abbrev pub is_bad_ticket : Ticket → ℕ → Bool
is_bad_ticket t delay =
    not (leb 1 delay && leb delay 300)
    || not (t.state == "queued" || t.state == "running")
    || (t.adapter_id == "" || t.adapter_version == "" || t.task_id == "")
    || (is_longer t.adapter_id 64 || is_longer t.adapter_version 64 || is_longer t.task_id 128)

-- The delay is in whole seconds, and a tick is a second.
unfoldable pub defer_external_parse : Context → String → String → Ticket → ℕ → Jobs (Option Item)
defer_external_parse c item_id worker_id t delay db =
    if is_bad_ticket t delay
    then (raised value_error, db)
    else on_locked c item_id (require_lease worker_id (deferring_parser c.now t delay)) db

abbrev pub ending_parse : String → Item → Job → Option External → Outcome
ending_parse state item job none = nothing
ending_parse state item job (some e) = change (record {
  item = item;
  job = job;
  kind = "parser";
  event = state;
  external = set_state state;
  key = keep_key;
  refreshes = false;
})

unfoldable pub mark_external_parse_terminal :
    Context → String → String → String → Jobs (Option Item)
mark_external_parse_terminal c item_id worker_id state db =
    if not (is_over_state state)
    then (raised value_error, db)
    else on_locked c item_id (require_lease worker_id (ending_parse state)) db

-- the ids of the items that a query selects, in the order of the table
unfoldable pub select_ids : (Item → Bool) → Dict Item → List String
select_ids p [] = []
select_ids p ((id, i) ∷ d) = let rest = select_ids p d in if p i then id ∷ rest else rest

abbrev pub each_rest :
    Jobs (Unit {0}) → Result Error (Option Item) × Db → Result Error (Unit {0}) × Db
each_rest rest (ok i, db) = rest db
each_rest rest (raised e, db) = (raised e, db)

-- one item after another; the first exception ends the loop
unfoldable pub for_each : (String → Jobs (Option Item)) → List String → Jobs (Unit {0})
for_each f [] db = (ok tt, db)
for_each f (id ∷ ids) db = each_rest (for_each f ids) (f id db)
