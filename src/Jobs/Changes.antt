-- ===== src/Jobs/Changes.antt =====
-- One method on an item: the rows that it locks, what it decides, and how that is written.
use poor_travel_agent.Base.{
  String, Bool, false, not, ◌&&◌, ◌||◌, Option, none, some, [], ◌∷◌, ◌==◌, if◌then◌else◌,
}
use poor_travel_agent.Base.Effect.{Result, ok, raised}
use poor_travel_agent.Base.Dict.{Dict, lookup, put, remove}
use poor_travel_agent.Jobs.Tables.{
  Error, not_found, conflict, integrity_error, is_leased, Item, Job, External, KeyStatus, Key, Db,
  Context, Jobs,
}
use poor_travel_agent.Jobs.Refresh.{append_event, refresh_job}

pub data ExternalChange : Type 0 where
  keep_external delete_external : ExternalChange
  set_state : String → ExternalChange
  set_external : External → ExternalChange

-- `key.status`, and `key.proposal_id` where it is set
pub data KeyChange : Type 0 where
  keep_key fail_key : KeyChange
  complete_key : Option String → KeyChange

-- What a method writes: the item, the job, an event, the parser's ticket, the idempotency key, and
-- whether it calls `_refresh_job` at its end.
pub record Update : Type 0 where
  pub item : Item
  pub job : Job
  pub kind : String
  pub event : String
  pub external : ExternalChange
  pub key : KeyChange
  pub refreshes : Bool

pub data Outcome : Type 0 where
  refuse : Error → Outcome
  nothing : Outcome
  change : Update → Outcome

unfoldable pub with_state : String → External → External
with_state s e = record {
  adapter_id = e.adapter_id;
  adapter_version = e.adapter_version;
  task_id = e.task_id;
  state = s;
  submitted_at = e.submitted_at;
}

abbrev state_if_there : String → String → Option External → Dict External → Dict External
state_if_there item_id s none d = d
state_if_there item_id s (some e) d = put item_id (with_state s e) d

unfoldable pub change_external : String → ExternalChange → Dict External → Dict External
change_external item_id keep_external d = d
change_external item_id delete_external d = remove item_id d
change_external item_id (set_state s) d = state_if_there item_id s (lookup item_id d) d
change_external item_id (set_external e) d = put item_id e d

abbrev pub changed_key : KeyChange → Key → Key
changed_key keep_key k = k
changed_key fail_key k = record {
  owner_item_id = k.owner_item_id;
  status = KeyStatus.key_failed;
  proposal_id = k.proposal_id;
}
changed_key (complete_key p) k = record {
  owner_item_id = k.owner_item_id;
  status = KeyStatus.key_completed;
  proposal_id = p;
}

-- the key of an item changes only if the item owns it
abbrev pub change_owned : String → KeyChange → String → Option Key → Dict Key → Dict Key
change_owned item_id ch name none d = d
change_owned item_id ch name (some k) d =
    if k.owner_item_id == item_id then put name (changed_key ch k) d else d

unfoldable pub change_key : String → KeyChange → String → Dict Key → Dict Key
change_key item_id ch name d = change_owned item_id ch name (lookup name d) d

-- the rows of an update, before `_refresh_job`
unfoldable pub write : String → String → Update → Db → Db
write item_id job_id u db = append_event job_id (some item_id) u.kind u.event u.job (record db {
  items = put item_id u.item db.items;
  externals = change_external item_id u.external db.externals;
  keys = change_key item_id u.key u.item.idempotency_key db.keys;
})

unfoldable pub commit : Context → String → String → Update → Db → Db
commit c item_id job_id u db =
    if u.refreshes
    then refresh_job c job_id (write item_id job_id u db)
    else write item_id job_id u db

-- the UNIQUE constraint `knowledge_external_parse_adapter_task_key`: another item has the task
unfoldable pub has_task : String → External → Dict External → Bool
has_task item_id e [] = false
has_task item_id e ((id, x) ∷ d) =
    let rest = has_task item_id e d in
    (not (id == item_id) && x.adapter_id == e.adapter_id && x.task_id == e.task_id) || rest

abbrev pub breaks_unique : String → ExternalChange → Dict External → Bool
breaks_unique item_id (set_external e) d = has_task item_id e d
breaks_unique item_id keep_external d = false
breaks_unique item_id delete_external d = false
breaks_unique item_id (set_state s) d = false

abbrev pub finish : Context → String → String → Outcome → Jobs (Option Item)
finish c item_id job_id (refuse e) db = (raised e, db)
finish c item_id job_id nothing db = (ok none, db)
finish c item_id job_id (change u) db =
    if breaks_unique item_id u.external db.externals
    then (raised integrity_error, db)
    else (ok (some u.item), commit c item_id job_id u db)

abbrev pub with_job :
    Context
    → String
    → Result Error (Option Item)
    → (Item → Job → Option External → Outcome)
    → Item
    → Option Job
    → Jobs (Option Item)
with_job c item_id missing f item none db = (missing, db)
with_job c item_id missing f item (some job) db =
    finish c item_id item.job_id (f item job (lookup item_id db.externals)) db

abbrev pub with_item :
    Context
    → String
    → Result Error (Option Item)
    → (Item → Job → Option External → Outcome)
    → Option Item
    → Jobs (Option Item)
with_item c item_id missing f none db = (missing, db)
with_item c item_id missing f (some item) db =
    with_job c item_id missing f item (lookup item.job_id db.jobs) db

-- A transaction that locks the job and the item. A refusal has written nothing, and rows that break a
-- constraint are rolled back. `missing` is the answer when a row is not there.
unfoldable pub on_item :
    Context
    → String
    → Result Error (Option Item)
    → (Item → Job → Option External → Outcome)
    → Jobs (Option Item)
on_item c item_id missing f db = with_item c item_id missing f (lookup item_id db.items) db

-- `_locked_item_and_job`
abbrev pub on_locked :
    Context → String → (Item → Job → Option External → Outcome) → Jobs (Option Item)
on_locked c item_id f = on_item c item_id (raised not_found) f

abbrev pub is_owner : String → Item → Bool
is_owner worker_id item = elim item.lease_owner [ none ↦ false | some w ↦ w == worker_id ]

-- `_require_lease`, in front of the rest of a method
unfoldable pub require_lease :
    String → (Item → Job → Option External → Outcome) → Item → Job → Option External → Outcome
require_lease worker_id f item job external =
    if not (is_owner worker_id item) || not (is_leased item.status)
    then refuse conflict
    else f item job external
