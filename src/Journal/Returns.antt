-- ===== src/Journal/Returns.antt =====
-- When `begin_run` returns.
use poor_travel_agent.Base.{
  ℕ, suc, ◌<◌, ◌≡◌, refl, String, true, false, List, none, some, eq_refl, arith,
}
use poor_travel_agent.Base.Text.{codes}
use poor_travel_agent.Base.Json.{
  ℤ, str, end, field, strict_json_value, all_numbers_finite, json_size,
}
use poor_travel_agent.Base.Effect.{ok, transaction, rethrow, ◌>>=◌}
use poor_travel_agent.Journal.Rows.{Row, SessionEvent, Db, Context, max_rowid, below_one}
use poor_travel_agent.Journal.Input.{
  Values, is_identifier, is_one_of, validate_identifier, kind_status_fits, timestamp_fits,
  validated_event_input, event_from_row, row_event,
}
use poor_travel_agent.Journal.Lease.{
  has_terminal, owner_process_start, allocate_fencing_token, insert_lease,
}
use poor_travel_agent.Journal.Writes.{connect_immediate, has_event_id, new_row, insert}
use poor_travel_agent.Journal.Cases.{inserted, granted}
use poor_travel_agent.Journal.Runs.{
  require_no_lease, require_not_terminal, grant, lease_of, run_started, BeginRunResult, begin_run,
}

abbrev started_values : Context → String → Values
started_values c run = record {
  run_id = run;
  kind = "system";
  status = "running";
  payload_json = run_started none;
  event_id = c.uuid4;
  timestamp = c.now;
}

started_values_ok :
    (c : Context) (run : String)
    → is_identifier (codes run) ≡ true
    → is_identifier (codes c.uuid4) ≡ true
    → timestamp_fits c c.now ≡ true
    → validated_event_input c run "system" "running" (run_started none) none (some c.now)
      ≡ ok (started_values c run)
unfolding validated_event_input is_one_of kind_status_fits strict_json_value json_size
started_values_ok c run h k t = rw (h, k, t)

-- a database with no lease, whose next token is n + 1
abbrev pub free : List Row → ℕ → ℕ → Db
free events last n = record {
  events = events;
  last_sequence = last;
  lease = none;
  next_token = some (suc n);
}

started_event : Context → String → ℕ → SessionEvent
started_event c run sequence =
    row_event (new_row c sequence (started_values c run))
      (field (some "event") (str "run_started") end)

started_read :
    (c : Context) (run : String) (n : ℕ)
    → is_identifier (codes run) ≡ true
    → is_identifier (codes c.uuid4) ≡ true
    → timestamp_fits c c.now ≡ true
    → event_from_row c (new_row c n (started_values c run)) ≡ ok (started_event c run n)
unfolding event_from_row started_event is_one_of kind_status_fits all_numbers_finite
started_read c run n h k t = rw (eq_refl, h, k, t)

insert_started :
    (c : Context) (run : String) (db : Db)
    → is_identifier (codes run) ≡ true
    → is_identifier (codes c.uuid4) ≡ true
    → timestamp_fits c c.now ≡ true
    → has_event_id c.uuid4 db.events ≡ false
    → db.last_sequence < max_rowid
    → insert c (started_values c run) db
      ≡ (ok (started_event c run (suc db.last_sequence)), inserted c (started_values c run) db)
unfolding insert
insert_started c run db h k t new room =
    ground (arith, started_read c run (suc db.last_sequence) h k t)

grant_free :
    (c : Context) (run owner : String) (pid : ℤ) (events : List Row) (last n : ℕ)
    → grant c run owner pid "" (free events last n)
      ≡ (ok (suc n), granted c run owner pid "" (suc n) (free events last n))
unfolding grant allocate_fencing_token insert_lease ◌>>=◌
grant_free c run owner pid events last n = ground arith

-- `begin_run` by a caller with no process id returns, with the next token, whenever no lease is held
-- and the run has no terminal event; given that the names and the time pass their checks, the new
-- event id is not in use, and there is room for one more sequence.
pub begin_run_returns :
    (c : Context) (run owner : String) (pid : ℤ) (events : List Row) (last n : ℕ)
    → is_identifier (codes run) ≡ true
    → is_identifier (codes owner) ≡ true
    → below_one pid ≡ true
    → is_identifier (codes c.uuid4) ≡ true
    → timestamp_fits c c.now ≡ true
    → has_event_id c.uuid4 events ≡ false
    → last < max_rowid
    → has_terminal run events ≡ false
    → (r : BeginRunResult) × (t : Db) × (begin_run c run owner pid none (free events last n)
        ≡ (ok r, t))
      × (r.fencing_token ≡ suc n)
      × (t.lease ≡ some (lease_of c run owner pid "" (suc n)))
unfolding begin_run ◌>>=◌ validate_identifier owner_process_start connect_immediate rethrow
    transaction require_no_lease require_not_terminal
begin_run_returns c run owner pid events last n h o p k t new room ended =
    let v = started_values_ok c run h k t in
    let g = grant_free c run owner pid events last n in
    let after = granted c run owner pid "" (suc n) (free events last n) in
    let i = insert_started c run after h k t new room in
    (
      record { event = started_event c run (suc last); fencing_token = suc n },
      inserted c (started_values c run) after,
      rw (h, o, p, v, ended, g, i),
      refl,
      refl,
    )
