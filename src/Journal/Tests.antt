-- ===== src/Journal/Tests.antt =====
-- The theorems on the journal at concrete calls: one run that begins, writes, and ends.
use poor_travel_agent.Base.{
  String, ◌≡◌, refl, ap, subst, ◌⊎◌, ◌∙◌, ◌≢◌, arith, ◌<◌, ◌≤◌, true, false, List, [], ◌∷◌, Option,
  none, some, length,
}
use poor_travel_agent.Base.Text.{is_alphanumeric}
use poor_travel_agent.Base.Json.{
  negsuc, str, dict, Fields, end, field, strict_json_value, all_numbers_finite, json_size,
}
use poor_travel_agent.Base.Effect.{ok, raised, transaction, rethrow, ◌>>=◌}
use poor_travel_agent.Journal.Rows.{
  lease_lost, Row, SessionEvent, Lease, Db, created, Context, present,
}
use poor_travel_agent.Journal.Input.{
  is_one_of, is_identifier, validate_identifier, kind_status_fits, timestamp_fits,
  validated_event_input, event_from_row,
}
use poor_travel_agent.Journal.Lease.{
  owner_process_start, is_terminal_of, has_terminal, allocate_fencing_token, insert_lease,
  assert_run_lease, holds_run,
}
use poor_travel_agent.Journal.Writes.{
  Event, connect_immediate, insert, terminal_in_transaction, append, append_terminal_once,
  delete_lease_of, append_terminal_and_release,
}
use poor_travel_agent.Journal.Runs.{
  require_no_lease, require_not_terminal, grant, lease_of, BeginRunResult, begin_run, resume_run,
}
use poor_travel_agent.Journal.Reads.{
  ReplayPage, events_from_rows, last_sequence_or, rows_after, replay,
}
use poor_travel_agent.Journal.Requests.{
  Request, append_event, begin, terminal_and_release, step, serve,
}
use poor_travel_agent.Journal.History.{Extends, serve-Extends}
use poor_travel_agent.Journal.Valid.{IsValid, created-IsValid, serve-IsValid}
use poor_travel_agent.Journal.Fencing.{append-begin_run, token_rises}
use poor_travel_agent.Journal.Ended.{first_terminal_wins, ended_run_stays_ended}
use poor_travel_agent.Journal.Paging.{replay_page}
use poor_travel_agent.Journal.Returns.{begin_run_returns}

-- a call that gets `id` from `uuid4`
abbrev call : String → Context
call id = record {
  session_id = "s1";
  uuid4 = id;
  now = "2026-01-01T00:00:00+00:00";
  fromisoformat = λ _. some true;
  platform_identity = λ _. record { state = present; fingerprint = some "boot:1" };
  repr = λ _. "";
}

abbrev started : Fields
started = field (some "event") (str "run_started") end

abbrev note : Fields
note = field (some "content") (str "hello") end

abbrev row1 : Row
row1 = record {
  sequence = 1;
  event_id = "e1";
  session_id = "s1";
  run_id = "run-1";
  kind = "system";
  status = "running";
  timestamp = "2026-01-01T00:00:00+00:00";
  payload_json = some (dict started);
}

abbrev event1 : SessionEvent
event1 = record {
  event_id = "e1";
  session_id = "s1";
  run_id = "run-1";
  sequence = 1;
  kind = "system";
  status = "running";
  timestamp = "2026-01-01T00:00:00+00:00";
  payload = started;
}

abbrev result1 : BeginRunResult
result1 = record { event = event1; fencing_token = 1 }

abbrev lease1 : Lease
lease1 = lease_of (call "e1") "run-1" "owner" (negsuc 0) "" 1

abbrev begun : Db
begun = record { events = row1 ∷ []; last_sequence = 1; lease = some lease1; next_token = some 2 }

begun_test : begin_run (call "e1") "run-1" "owner" (negsuc 0) none created ≡ (ok result1, begun)
unfolding begin_run ◌>>=◌ validate_identifier is_identifier is_alphanumeric owner_process_start
    validated_event_input is_one_of kind_status_fits timestamp_fits strict_json_value json_size
    connect_immediate rethrow transaction require_no_lease require_not_terminal has_terminal
    is_terminal_of grant allocate_fencing_token insert_lease insert event_from_row
    all_numbers_finite
begun_test = refl

abbrev claim : String → String → Event
claim kind status = record {
  run_id = "run-1";
  kind = kind;
  status = status;
  payload = dict note;
  event_id = none;
  timestamp = none;
  lease_owner_id = some "owner";
  fencing_token = some 1;
}

abbrev row2 : String → String → Row
row2 kind status = record {
  sequence = 2;
  event_id = "e2";
  session_id = "s1";
  run_id = "run-1";
  kind = kind;
  status = status;
  timestamp = "2026-01-01T00:00:00+00:00";
  payload_json = some (dict note);
}

abbrev event2 : String → String → SessionEvent
event2 kind status = record {
  event_id = "e2";
  session_id = "s1";
  run_id = "run-1";
  sequence = 2;
  kind = kind;
  status = status;
  timestamp = "2026-01-01T00:00:00+00:00";
  payload = note;
}

abbrev with_second : String → String → Option Lease → Db
with_second kind status lease = record {
  events = row1 ∷ row2 kind status ∷ [];
  last_sequence = 2;
  lease = lease;
  next_token = some 2;
}

written_test :
    append (call "e2") (claim "user" "done") begun
    ≡ (ok (event2 "user" "done"), with_second "user" "done" (some lease1))
unfolding append ◌>>=◌ is_identifier is_alphanumeric validated_event_input is_one_of
    kind_status_fits timestamp_fits strict_json_value json_size connect_immediate rethrow
    transaction assert_run_lease insert event_from_row all_numbers_finite
written_test = refl

once_test :
    append_terminal_once (call "e2") (claim "" "completed") begun
    ≡ (ok (event2 "terminal" "completed"), with_second "terminal" "completed" (some lease1))
unfolding append_terminal_once terminal_in_transaction ◌>>=◌ is_identifier is_alphanumeric
    validated_event_input is_one_of kind_status_fits timestamp_fits strict_json_value json_size
    connect_immediate rethrow transaction assert_run_lease insert event_from_row all_numbers_finite
    has_terminal is_terminal_of
once_test = refl

again_test :
    append_terminal_once
      (call "e3")
      (claim "" "error")
      (with_second "terminal" "completed" (some lease1))
    ≡ (ok (event2 "terminal" "completed"), with_second "terminal" "completed" (some lease1))
unfolding append_terminal_once terminal_in_transaction ◌>>=◌ is_identifier is_alphanumeric
    validated_event_input is_one_of kind_status_fits timestamp_fits strict_json_value json_size
    connect_immediate rethrow transaction assert_run_lease insert event_from_row all_numbers_finite
    has_terminal is_terminal_of
again_test = refl

ended_test :
    append_terminal_and_release (call "e2") (claim "" "completed") begun
    ≡ (ok (event2 "terminal" "completed"), with_second "terminal" "completed" none)
unfolding append_terminal_and_release terminal_in_transaction delete_lease_of ◌>>=◌ is_identifier
    is_alphanumeric validated_event_input is_one_of kind_status_fits timestamp_fits
    strict_json_value json_size connect_immediate rethrow transaction assert_run_lease insert
    event_from_row all_numbers_finite has_terminal is_terminal_of
ended_test = refl

abbrev second_result : BeginRunResult
second_result = record {
  event = record {
    event_id = "e3";
    session_id = "s1";
    run_id = "run-2";
    sequence = 3;
    kind = "system";
    status = "running";
    timestamp = "2026-01-01T00:00:00+00:00";
    payload = started;
  };
  fencing_token = 2;
}

abbrev calls : List (Context × Request)
calls = (call "e2", terminal_and_release (claim "" "completed")) ∷ []

second_test :
    (begin_run
      (call "e3")
      "run-2"
      "owner"
      (negsuc 0)
      none
      (with_second "terminal" "completed" none)).0
    ≡ ok second_result
unfolding begin_run ◌>>=◌ validate_identifier is_identifier is_alphanumeric owner_process_start
    validated_event_input is_one_of kind_status_fits timestamp_fits strict_json_value json_size
    connect_immediate rethrow transaction require_no_lease require_not_terminal has_terminal
    is_terminal_of grant allocate_fencing_token insert_lease insert event_from_row
    all_numbers_finite
second_test = refl

served_test : serve begun calls ≡ with_second "terminal" "completed" none
unfolding serve step
served_test = ap (λ x. x.1) ended_test

serve-Extends_example : Extends created (serve created calls)
serve-Extends_example = serve-Extends created calls

serve-IsValid_example : IsValid (serve created calls)
serve-IsValid_example = serve-IsValid created calls created-IsValid

-- a stale writer is refused, and writes nothing
stale_test :
    append (call "e4") (claim "user" "done") (with_second "terminal" "completed" none)
    ≡ (raised lease_lost, with_second "terminal" "completed" none)
unfolding append ◌>>=◌ is_identifier is_alphanumeric validated_event_input is_one_of
    kind_status_fits timestamp_fits strict_json_value json_size connect_immediate rethrow
    transaction assert_run_lease
stale_test = refl

append-begin_run_example :
    (start : String) × (begun.lease
      ≡ some (lease_of (call "e1") "run-1" "owner" (negsuc 0) start 1))
unfolding serve
append-begin_run_example =
    append-begin_run (call "e1") (call "e2") "run-1" "owner" (negsuc 0) none created begun
      (with_second "user" "done" (some lease1)) result1 [] (claim "user" "done")
      (event2 "user" "done") begun_test refl written_test

first_terminal_wins_example :
    (event2 "terminal" "completed" ≡ event2 "terminal" "completed")
    × (with_second "terminal" "completed" (some lease1)
        ≡ with_second "terminal" "completed" (some lease1))
unfolding serve
first_terminal_wins_example =
    first_terminal_wins (call "e2") (call "e3") (claim "" "completed") (claim "" "error") begun
      (with_second "terminal" "completed" (some lease1))
      (with_second "terminal" "completed" (some lease1)) (event2 "terminal" "completed")
      (event2 "terminal" "completed") [] once_test refl again_test

ended_run_stays_ended_example :
    (holds_run "run-1" (with_second "terminal" "completed" none).lease ≡ false)
    × (begin_run
          (call "e5")
          "run-1"
          "owner"
          (negsuc 0)
          none
          (serve (with_second "terminal" "completed" none) calls)
        ≢ (ok result1, begun))
    × (resume_run
          (call "e5")
          "run-1"
          "owner"
          (negsuc 0)
          (serve (with_second "terminal" "completed" none) calls)
        ≢ (ok 3, begun))
ended_run_stays_ended_example =
    ended_run_stays_ended (call "e2") (call "e5") (claim "" "completed") begun
      (with_second "terminal" "completed" none) (event2 "terminal" "completed") calls "owner"
      (negsuc 0) none result1 3 begun begun ended_test

abbrev second_db : Db
second_db = (begin_run (call "e3") "run-2" "owner" (negsuc 0) none (serve begun calls)).1

second_returns :
    (begin_run (call "e3") "run-2" "owner" (negsuc 0) none (serve begun calls)).0 ≡ ok second_result
second_returns = rw served_test second_test

second_begun :
    begin_run (call "e3") "run-2" "owner" (negsuc 0) none (serve begun calls)
    ≡ (ok second_result, second_db)
second_begun i = (second_returns i, second_db)

token_rises_example : 1 < 2
token_rises_example =
    token_rises (call "e1") (call "e3") "run-1" "owner" "run-2" "owner" (negsuc 0) (negsuc 0) none
      none created begun second_db result1 second_result calls begun_test second_begun

page_test :
    replay (call "e4") 0 1 (with_second "user" "done" (some lease1))
    ≡ ok (record { items = event1 ∷ []; next_cursor = 1; has_more = true })
unfolding replay rows_after events_from_rows last_sequence_or event_from_row is_identifier
    is_alphanumeric is_one_of kind_status_fits timestamp_fits all_numbers_finite
page_test = refl

rest_test :
    events_from_rows (call "e4") (rows_after 1 (with_second "user" "done" (some lease1)).events)
    ≡ ok (event2 "user" "done" ∷ [])
unfolding rows_after events_from_rows event_from_row is_identifier is_alphanumeric is_one_of
    kind_status_fits timestamp_fits all_numbers_finite
rest_test = refl

abbrev session : List (Context × Request)
session =
    (call "e1", begin "run-1" "owner" (negsuc 0) none)
    ∷ (call "e2", append_event (claim "user" "done"))
    ∷ []

session_test : serve created session ≡ with_second "user" "done" (some lease1)
unfolding serve step
session_test =
    ap (λ d. (append (call "e2") (claim "user" "done") d).1) (ap (λ x. x.1) begun_test)
    ∙ ap (λ x. x.1) written_test

page_IsValid : IsValid (with_second "user" "done" (some lease1))
page_IsValid = subst IsValid session_test (serve-IsValid created session created-IsValid)

abbrev page1 : ReplayPage
page1 = record { items = event1 ∷ []; next_cursor = 1; has_more = true }

replay_page_example :
    (length page1.items ≤ 1)
    × (events_from_rows (call "e4") (rows_after 0 (with_second "user" "done" (some lease1)).events)
        ≡ ok (event1 ∷ event2 "user" "done" ∷ []))
    × ((page1.has_more ≡ false) × ((event2 "user" "done" ∷ []) ≡ [])
        ⊎ (page1.has_more ≡ true) × (0 < 1))
replay_page_example =
    replay_page (call "e4") 0 1 (with_second "user" "done" (some lease1)) page1
      (event2 "user" "done" ∷ []) page_IsValid page_test rest_test

begin_run_returns_example :
    (r : BeginRunResult) × (t : Db) × (begin_run (call "e1") "run-1" "owner" (negsuc 0) none created
      ≡ (ok r, t))
    × (r.fencing_token ≡ 1)
    × (t.lease ≡ some lease1)
unfolding is_identifier is_alphanumeric timestamp_fits has_terminal
begin_run_returns_example =
    begin_run_returns (call "e1") "run-1" "owner" (negsuc 0) [] 0 0 refl refl refl refl refl refl
      (omega arith) refl
