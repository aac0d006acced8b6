-- ===== src/Loop/Runs.antt =====
-- Runs, their outcomes, the settings of the controller, and the cursors of the scan.
use poor_travel_agent.Base.{
  ℕ, ◌+◌, String, Bool, true, false, ◌&&◌, ◌||◌, not, Option, none, some, leb, eqb, ◌==◌,
  if◌then◌else◌, List, [], ◌∷◌, length, take, all, any,
}
use poor_travel_agent.Base.Text.{codes, join_words}
use poor_travel_agent.Base.Effect.{ok, raised, pure, raise, transaction, ◌>>=◌, ◌>>◌}
use poor_travel_agent.Base.Dict.{lookup, put, has_key}
use poor_travel_agent.Loop.Tables.{
  value_error, lease_lost, integrity_error, Lease, Run, Settings, Cursor, Db, Context, Loop,
}
use poor_travel_agent.Loop.Lease.{assert_lease_row, delete_own_lease}

unfoldable pub bounded : List ℕ → ℕ → List ℕ
bounded value limit = take limit (join_words false false value)

abbrev pub is_hex_digit : ℕ → Bool
is_hex_digit c = leb b'0' c && leb c b'9' || leb b'a' c && leb c b'f'

-- a full lowercase Git SHA
unfoldable pub is_sha : String → Bool
is_sha s = eqb (length (codes s)) 40 && all is_hex_digit (codes s)

unfoldable pub insert_run : String → Run → Loop (Unit {0})
insert_run run_id r db =
    if has_key run_id db.runs
    then (raised integrity_error, db)
    else (ok tt, record db { runs = put run_id r db.runs })

unfoldable pub begin_run : Context → Lease → String → String → Option String → Loop (Unit {0})
begin_run c lease policy mode target = transaction (do
  assert_lease_row c lease
  insert_run lease.run_id (record {
    base_sha = none;
    policy_version = policy;
    state = "RUNNING";
    error_code = none;
    summary = [];
    started_at = c.iso_now;
    finished_at = none;
    mode = mode;
    target_branch = target;
  }))

abbrev pub update_base_sha : String → String → Option Run → Db → Db
update_base_sha run_id sha none db = db
update_base_sha run_id sha (some r) db = record db {
  runs = put run_id (record r { base_sha = some sha }) db.runs;
}

-- UPDATE runs SET base_sha, which may find no row
unfoldable pub set_base_sha : String → String → Loop (Unit {0})
set_base_sha run_id sha db = (ok tt, update_base_sha run_id sha (lookup run_id db.runs) db)

unfoldable pub set_run_base_sha : Context → Lease → String → Loop (Unit {0})
set_run_base_sha c lease sha =
    if not (is_sha sha)
    then raise value_error
    else transaction (do assert_lease_row c lease; set_base_sha lease.run_id sha)

abbrev pub finish_found :
    Context → String → String → List ℕ → Option String → Option Run → Loop (Unit {0})
finish_found c run_id state summary error none db = (raised lease_lost, db)
finish_found c run_id state summary error (some r) db =
    if r.state == "RUNNING"
    then (
      ok tt,
      record db {
        runs =
            put run_id
              (record r {
                state = state;
                error_code = error;
                summary = bounded summary 1000;
                finished_at = some c.iso_now;
              })
              db.runs;
      },
    )
    else (raised lease_lost, db)

-- the UPDATE of a RUNNING run, and the test of its rowcount
unfoldable pub finish_run : Context → String → String → List ℕ → Option String → Loop (Unit {0})
finish_run c run_id state summary error db =
    finish_found c run_id state summary error (lookup run_id db.runs) db

abbrev get_text : Option String → String → String
get_text none default = default
get_text (some s) default = s

abbrev get_count : Option ℕ → ℕ
get_count none = 0
get_count (some n) = n

-- the consecutive count after one more outcome with this error
abbrev pub next_count : Settings → String → ℕ
next_count s error =
    if get_text s.consecutive_error_code "" == error
    then get_count s.consecutive_error_count + 1
    else 1

-- the settings with a new count, paused or not
abbrev pub counted : Settings → String → ℕ → Bool → Settings
counted s error count true = record {
  enabled = some "0";
  mode = some "PAUSED_ERROR";
  consecutive_error_code = some error;
  consecutive_error_count = some count;
}
counted s error count false = record {
  enabled = s.enabled;
  mode = s.mode;
  consecutive_error_code = some error;
  consecutive_error_count = some count;
}

unfoldable pub register_outcome : Option String → Settings → (ℕ × Bool) × Settings
register_outcome none s = (
  (0, false),
  record {
    enabled = s.enabled;
    mode = s.mode;
    consecutive_error_code = some "";
    consecutive_error_count = some 0;
  },
)
register_outcome (some error) s = (
  (next_count s error, leb 3 (next_count s error)),
  counted s error (next_count s error) (leb 3 (next_count s error)),
)

unfoldable pub register_outcome_row : Option String → Loop (ℕ × Bool)
register_outcome_row error db = (
  ok (register_outcome error db.settings).0,
  record db { settings = (register_outcome error db.settings).1 },
)

unfoldable pub terminalize : Context → Lease → String → List ℕ → Option String → Loop (ℕ × Bool)
terminalize c lease state summary error = transaction (do
  assert_lease_row c lease
  finish_run c lease.run_id state summary error
  outcome ← register_outcome_row (if state == "BLOCKED" then error else none)
  delete_own_lease lease
  pure outcome)

abbrev pub supported_modes : List String
supported_modes =
    "DRY_RUN" ∷ "SHADOW_WRITE" ∷ "PR_CANARY" ∷ "AUTO_MERGE_TIER_A" ∷ "PAUSED_MANUAL"
    ∷ "PAUSED_ERROR" ∷ []

-- mode.startswith("PAUSED_")
abbrev is_paused : String → Bool
is_paused mode = mode == "PAUSED_MANUAL" || mode == "PAUSED_ERROR"

unfoldable pub store_enabled : Bool → String → Loop (Unit {0})
store_enabled enabled mode db = (
  ok tt,
  record db {
    settings =
        (if enabled
          then record {
            enabled = some "1";
            mode = some mode;
            consecutive_error_code = some "";
            consecutive_error_count = some 0;
          }
          else record {
            enabled = some "0";
            mode = some mode;
            consecutive_error_code = db.settings.consecutive_error_code;
            consecutive_error_count = db.settings.consecutive_error_count;
          });
  },
)

unfoldable pub set_enabled : Bool → String → Loop (Unit {0})
set_enabled enabled mode =
    if not (any (λ m. m == mode) supported_modes)
    then raise value_error
    else (if enabled && is_paused mode
        then raise value_error
        else transaction (store_enabled enabled mode))

unfoldable pub is_enabled : Settings → Bool
is_enabled s = get_text s.enabled "0" == "1"

unfoldable pub current_mode : Settings → String
current_mode s = get_text s.mode "DRY_RUN"

unfoldable pub store_cursor : String → Cursor → Loop (Unit {0})
store_cursor name cursor db = (ok tt, record db { scan_cursors = put name cursor db.scan_cursors })

-- A scope is the list of its modules; the first names its cursor.
unfoldable pub record_scan_scope : Context → Lease → List String → String → Loop (Unit {0})
record_scan_scope c lease [] sha = raise value_error
record_scan_scope c lease (name ∷ _) sha = transaction (do
  assert_lease_row c lease
  store_cursor name (record { base_sha = sha; last_scanned_at = c.iso_now }))
