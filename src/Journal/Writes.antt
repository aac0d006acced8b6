-- ===== src/Journal/Writes.antt =====
-- The operations of `SessionEventJournal` that write, each one transaction.
use poor_travel_agent.Base.{
  ℕ, suc, String, Bool, not, ◌&&◌, ◌||◌, List, [], ◌∷◌, ◌++◌, Option, none, some, leb, any, find?,
  ◌==◌, if◌then◌else◌,
}
use poor_travel_agent.Base.Json.{Value}
use poor_travel_agent.Base.Effect.{ok, raised, pure, raise, lift, transaction, rethrow, ◌>>=◌, ◌>>◌}
use poor_travel_agent.Journal.Rows.{
  Error, value_error, journal_error, corruption, sqlite_integrity, sqlite_full, Row, SessionEvent,
  Lease, Context, Journal, max_rowid,
}
use poor_travel_agent.Journal.Input.{
  Values, validated_event_input, event_from_row, is_one_of, terminal_statuses,
}
use poor_travel_agent.Journal.Lease.{is_terminal_of, has_terminal, assert_run_lease}

-- the `except` clauses of `_connect`
abbrev pub translate : Error → Error
translate sqlite_integrity = corruption
translate sqlite_full = journal_error
translate e = e

-- `with self._connect() as connection: connection.execute("BEGIN IMMEDIATE") …`
unfoldable pub connect_immediate : {A : Type 0} → Journal A → Journal A
connect_immediate body = rethrow translate (transaction body)

abbrev pub new_row : Context → ℕ → Values → Row
new_row c sequence v = record {
  sequence = sequence;
  event_id = v.event_id;
  session_id = c.session_id;
  run_id = v.run_id;
  kind = v.kind;
  status = v.status;
  timestamp = v.timestamp;
  payload_json = some v.payload_json;
}

abbrev pub has_event_id : String → List Row → Bool
has_event_id id = any (λ row. row.event_id == id)

-- the UNIQUE columns and indexes that a new row meets
abbrev pub conflicts : Values → List Row → Bool
conflicts v rows =
    has_event_id v.event_id rows || v.kind == "terminal" && has_terminal v.run_id rows

-- `_insert`: AUTOINCREMENT gives the sequence, and the row that is read back is the new one.
unfoldable pub insert : Context → Values → Journal SessionEvent
insert c v db =
    if conflicts v db.events
    then (raised sqlite_integrity, db)
    else if leb max_rowid db.last_sequence
    then (raised sqlite_full, db)
    else (
      event_from_row c (new_row c (suc db.last_sequence) v),
      record db {
        events = db.events ++ new_row c (suc db.last_sequence) v ∷ [];
        last_sequence = suc db.last_sequence;
      },
    )

-- `_terminal_in_transaction`
abbrev pub or_insert : Context → Values → Option Row → Journal SessionEvent
or_insert c v none = insert c v
or_insert c v (some row) = lift (event_from_row c row)

unfoldable pub terminal_in_transaction : Context → Values → Journal SessionEvent
terminal_in_transaction c v db = or_insert c v (find? (is_terminal_of v.run_id) db.events) db

-- what a caller of `append` and its two terminal forms hands in
pub record Event : Type 0 where
  pub run_id : String
  pub kind : String
  pub status : String
  pub payload : Value
  pub event_id : Option String
  pub timestamp : Option String
  pub lease_owner_id : Option String
  pub fencing_token : Option ℕ

-- `except sqlite3.IntegrityError` of `append`
abbrev pub as_journal_error : Error → Error
as_journal_error sqlite_integrity = journal_error
as_journal_error e = e

unfoldable pub append : Context → Event → Journal SessionEvent
append c e = do
  v ← lift (validated_event_input c e.run_id e.kind e.status e.payload e.event_id e.timestamp)
  connect_immediate (
      rethrow as_journal_error
        (do assert_run_lease e.run_id e.lease_owner_id e.fencing_token; insert c v))

-- `append_terminal_once` with a terminal status
abbrev pub terminal_once_checked : Context → Event → Journal SessionEvent
terminal_once_checked c e = do
  v ← lift (validated_event_input c e.run_id "terminal" e.status e.payload e.event_id e.timestamp)
  connect_immediate
      (do assert_run_lease e.run_id e.lease_owner_id e.fencing_token; terminal_in_transaction c v)

unfoldable pub append_terminal_once : Context → Event → Journal SessionEvent
append_terminal_once c e =
    if not (is_one_of terminal_statuses e.status)
    then raise value_error
    else terminal_once_checked c e

-- DELETE FROM active_run_lease WHERE lease_key = 1 AND run_id = ?
abbrev pub without_lease_of : String → Option Lease → Option Lease
without_lease_of run none = none
without_lease_of run (some l) = if l.run_id == run then none else some l

unfoldable pub delete_lease_of : String → Journal (Unit {0})
delete_lease_of run db = (ok tt, record db { lease = without_lease_of run db.lease })

-- `append_terminal_and_release` with a terminal status
abbrev pub terminal_and_release_checked : Context → Event → Journal SessionEvent
terminal_and_release_checked c e = do
  v ← lift (validated_event_input c e.run_id "terminal" e.status e.payload e.event_id e.timestamp)
  connect_immediate (do
    assert_run_lease e.run_id e.lease_owner_id e.fencing_token
    stored ← terminal_in_transaction c v
    delete_lease_of e.run_id
    pure stored)

unfoldable pub append_terminal_and_release : Context → Event → Journal SessionEvent
append_terminal_and_release c e =
    if not (is_one_of terminal_statuses e.status)
    then raise value_error
    else terminal_and_release_checked c e
