-- ===== src/Journal/Rows.antt =====
-- The tables of core/coding/persistence/session_event_journal.py, its exceptions, and what one call
-- is given by the journal object and the operating system.
use poor_travel_agent.Base.{ℕ, ◌^◌, ◌-◌, String, Bool, false, true, List, [], Option, none, some}
use poor_travel_agent.Base.Json.{ℤ, pos, negsuc, Value, Fields}
use poor_travel_agent.Base.Effect.{Op}

-- The exceptions that reach a caller, and the two of sqlite3 that `_connect` translates.
pub data Error : Type 0 where
  value_error type_error attribute_error : Error
  journal_error corruption operational lease_lost : Error
  lease_conflict : String → Error
  sqlite_integrity sqlite_full : Error

-- A row of `session_events`. `payload_json` is the value that the strict `json.loads` reads in the
-- column, `none` where it refuses the text.
pub record Row : Type 0 where
  pub sequence : ℕ
  pub event_id : String
  pub session_id : String
  pub run_id : String
  pub kind : String
  pub status : String
  pub timestamp : String
  pub payload_json : Option Value

pub record SessionEvent : Type 0 where
  pub event_id : String
  pub session_id : String
  pub run_id : String
  pub sequence : ℕ
  pub kind : String
  pub status : String
  pub timestamp : String
  pub payload : Fields

-- The row of `active_run_lease` (its `lease_key` is always 1).
pub record Lease : Type 0 where
  pub run_id : String
  pub owner_id : String
  pub owner_pid : ℤ
  pub owner_process_start : String
  pub fencing_token : ℕ
  pub acquired_at : String

-- One database: the events in the order of their sequence, the counter that AUTOINCREMENT keeps in
-- `sqlite_sequence`, the lease if there is one, and `next_token` of `run_fence_state`.
pub record Db : Type 0 where
  pub events : List Row
  pub last_sequence : ℕ
  pub lease : Option Lease
  pub next_token : Option ℕ

-- A database that `_initialize` has just created.
abbrev pub created : Db
created = record { events = []; last_sequence = 0; lease = none; next_token = some 1 }

pub data ProcessIdentityState : Type 0 where
  present absent unknown : ProcessIdentityState

pub record ProcessIdentity : Type 0 where
  pub state : ProcessIdentityState
  pub fingerprint : Option String

-- `self.session_id`, and what the standard library answers in this call: `str(uuid.uuid4())`,
-- `datetime.now(UTC).isoformat()`, `datetime.fromisoformat` (`none` raises ValueError, and the flag
-- says whether there is a time zone), the reader of process identities of the platform, and the
-- `repr` of a list or a dict.
pub record Context : Type 0 where
  pub session_id : String
  pub uuid4 : String
  pub now : String
  pub fromisoformat : String → Option Bool
  pub platform_identity : ℤ → ProcessIdentity
  pub repr : Value → String

abbrev pub Journal : Type 0 → Type 0
Journal A = Op Error Db A

-- the largest rowid of SQLite
abbrev pub max_rowid : ℕ
max_rowid = 2 ^ 63 - 1

abbrev pub below_one : ℤ → Bool
below_one (pos ℕ.zero) = true
below_one (pos (ℕ.suc n)) = false
below_one (negsuc n) = true
