-- ===== src/Journal/Runs.antt =====
-- The operations of `SessionEventJournal` on the lease of the active run.
use poor_travel_agent.Base.{ℕ, String, Bool, Option, none, some, any, ◌==◌, if◌then◌else◌}
use poor_travel_agent.Base.Json.{ℤ, Value, str, dict, Fields, end, field}
use poor_travel_agent.Base.Effect.{ok, raised, pure, lift, gets, rethrow, ◌>>=◌, ◌>>◌}
use poor_travel_agent.Journal.Rows.{
  Error, journal_error, lease_conflict, sqlite_integrity, SessionEvent, Lease, Context, Journal,
}
use poor_travel_agent.Journal.Input.{Values, validate_identifier, validated_event_input}
use poor_travel_agent.Journal.Lease.{
  owner_process_start, has_terminal, allocate_fencing_token, insert_lease, holds_run,
  assert_run_lease,
}
use poor_travel_agent.Journal.Writes.{connect_immediate, insert, delete_lease_of}

-- the run of the lease, and "unknown" when there is none
abbrev pub active_or_unknown : Option Lease → String
active_or_unknown none = "unknown"
active_or_unknown (some l) = l.run_id

-- Raise the conflict if a lease is held: the guard of `begin_run` and `resume_run`.
unfoldable pub require_no_lease : Journal (Unit {0})
require_no_lease db = elim db.lease [
  | none ↦ (ok tt, db)
  | some l ↦ (raised (lease_conflict l.run_id), db)
]

-- Raise unless the run has no terminal event.
unfoldable pub require_not_terminal : String → Journal (Unit {0})
require_not_terminal run db =
    if has_terminal run db.events then (raised journal_error, db) else (ok tt, db)

unfoldable pub require_history : String → Journal (Unit {0})
require_history run db =
    if any (λ row. row.run_id == run) db.events then (ok tt, db) else (raised journal_error, db)

abbrev pub lease_of : Context → String → String → ℤ → String → ℕ → Lease
lease_of c run owner pid start token = record {
  run_id = run;
  owner_id = owner;
  owner_pid = pid;
  owner_process_start = start;
  fencing_token = token;
  acquired_at = c.now;
}

-- Allocate a token and insert the lease with it, as the three operations below do.
unfoldable pub grant : Context → String → String → ℤ → String → Journal ℕ
grant c run owner pid start = do
  token ← allocate_fencing_token
  insert_lease (lease_of c run owner pid start token)
  pure token

-- `except sqlite3.IntegrityError`: roll back, then read the lease that is there.
abbrev pub conflict_with : Option Lease → Error → Error
conflict_with held sqlite_integrity = lease_conflict (active_or_unknown held)
conflict_with held e = e

unfoldable pub conflict_on_integrity : {A : Type 0} → Journal A → Journal A
conflict_on_integrity body db = rethrow (conflict_with db.lease) body db

unfoldable pub acquire_run_lease : Context → String → String → ℤ → Journal (Unit {0})
acquire_run_lease c run owner pid = do
  run ← lift (validate_identifier run)
  owner ← lift (validate_identifier owner)
  start ← lift (owner_process_start c pid)
  connect_immediate
      (conflict_on_integrity (do require_not_terminal run; grant c run owner pid start; pure tt))

pub record BeginRunResult : Type 0 where
  pub event : SessionEvent
  pub fencing_token : ℕ

abbrev pub run_started : Option Fields → Value
run_started none = dict (field (some "event") (str "run_started") end)
run_started (some context) =
    dict
      (field (some "event") (str "run_started") (field (some "surface_context") (dict context) end))

-- the transactions of `begin_run` and `resume_run`
abbrev pub begin_body : Context → String → String → ℤ → String → Values → Journal BeginRunResult
begin_body c run owner pid start values = do
  require_no_lease
  require_not_terminal run
  token ← grant c run owner pid start
  stored ← insert c values
  pure (record { event = stored; fencing_token = token })

abbrev pub resume_body : Context → String → String → ℤ → String → Journal ℕ
resume_body c run owner pid start = do
  require_no_lease
  require_history run
  require_not_terminal run
  grant c run owner pid start

unfoldable pub begin_run : Context → String → String → ℤ → Option Fields → Journal BeginRunResult
begin_run c run owner pid surface_context = do
  run ← lift (validate_identifier run)
  owner ← lift (validate_identifier owner)
  start ← lift (owner_process_start c pid)
  values ← lift (
      validated_event_input c run "system" "running" (run_started surface_context) none
        (some c.now))
  connect_immediate (begin_body c run owner pid start values)

unfoldable pub resume_run : Context → String → String → ℤ → Journal ℕ
resume_run c run owner pid = do
  run ← lift (validate_identifier run)
  owner ← lift (validate_identifier owner)
  start ← lift (owner_process_start c pid)
  connect_immediate (conflict_on_integrity (resume_body c run owner pid start))

unfoldable pub release_run_lease : String → String → ℕ → Journal Bool
release_run_lease run owner token = do
  run ← lift (validate_identifier run)
  connect_immediate (do
    assert_run_lease run (some owner) (some token)
    held ← gets (λ db. holds_run run db.lease)
    delete_lease_of run
    pure held)
