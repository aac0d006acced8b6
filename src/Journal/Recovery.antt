-- ===== src/Journal/Recovery.antt =====
-- `recover_run_lease`: what a new process does with the lease that an earlier one left.
use poor_travel_agent.Base.{
  String, Bool, true, false, Option, none, some, filter, find?, ◌==◌, if◌then◌else◌,
}
use poor_travel_agent.Base.Json.{Value, str, bool, dict, end, field}
use poor_travel_agent.Base.Effect.{Result, ok, raised, pure, lift, gets, ◌>>=◌, ◌>>◌}
use poor_travel_agent.Journal.Rows.{
  Error, operational, Row, SessionEvent, Lease, Context, Journal, ProcessIdentity, present, absent,
  unknown,
}
use poor_travel_agent.Journal.Input.{validate_identifier, validated_event_input}
use poor_travel_agent.Journal.Lease.{process_identity, is_terminal_of}
use poor_travel_agent.Journal.Approvals.{has_unresolved_approval}
use poor_travel_agent.Journal.Writes.{connect_immediate, insert}

-- DELETE FROM active_run_lease WHERE lease_key = 1
unfoldable pub delete_lease : Journal (Unit {0})
delete_lease db = (ok tt, record db { lease = none })

abbrev pub run_interrupted : Value
run_interrupted =
    dict (field (some "event") (str "run_interrupted") (field (some "retryable") (bool true) end))

-- What the process identity says of the owner: whether the lease is still its own.
abbrev is_same : String → Option String → Bool
is_same start none = false
is_same start (some f) = start == f

unfoldable pub owner_is_alive : Lease → ProcessIdentity → Result Error Bool
owner_is_alive l i = elim i.state [
  | unknown ↦ raised operational
  | present ↦
      if l.owner_process_start == ""
      then raised operational
      else ok (is_same l.owner_process_start i.fingerprint)
  | absent ↦ ok false
]

-- the terminal event that closes an abandoned run, unless it has one
abbrev pub interrupt : Context → String → Option Row → Journal (Option SessionEvent)
interrupt c run (some row) = pure none
interrupt c run none = do
  values ← lift (validated_event_input c run "terminal" "interrupted" run_interrupted none none)
  stored ← insert c values
  pure (some stored)

unfoldable pub interrupt_and_release : Context → String → Journal (Option SessionEvent)
interrupt_and_release c run = do
  existing ← gets (λ db. find? (is_terminal_of run) db.events)
  stored ← interrupt c run existing
  delete_lease
  pure stored

unfoldable pub recover_dead_owner : Context → String → Journal (Option SessionEvent)
recover_dead_owner c run = do
  rows ← gets (λ db. filter (λ row. row.run_id == run) db.events)
  waiting ← lift (has_unresolved_approval c rows)
  if waiting then (do delete_lease; pure none) else interrupt_and_release c run

unfoldable pub recover_lease : Context → Option Lease → Journal (Option SessionEvent)
recover_lease c none = pure none
recover_lease c (some l) = do
  alive ← lift (owner_is_alive l (process_identity c l.owner_pid))
  if alive then pure none else recover_dead_owner c l.run_id

unfoldable pub recover_run_lease : Context → String → Journal (Option SessionEvent)
recover_run_lease c recovery_owner = connect_immediate (do
  lift (validate_identifier recovery_owner)
  lease ← gets (λ db. db.lease)
  recover_lease c lease)
