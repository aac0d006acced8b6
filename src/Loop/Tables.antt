-- ===== src/Loop/Tables.antt =====
-- The tables of core/loop_harness/state.py that the model keeps, and what a call is given.
use poor_travel_agent.Base.{ℕ, String, Option, List}
use poor_travel_agent.Base.Effect.{Op}
use poor_travel_agent.Base.Dict.{Dict}

pub data Error : Type 0 where
  value_error lease_busy lease_lost database_error integrity_error : Error

-- A row of `leases`, which is also the `Lease` that a caller holds. Times are ticks of the clock.
pub record Lease : Type 0 where
  pub resource : String
  pub run_id : String
  pub owner_id : String
  pub fencing_token : ℕ
  pub expires_at : ℕ

-- A row of `runs`; `summary` is in code points.
pub record Run : Type 0 where
  pub base_sha : Option String
  pub policy_version : String
  pub state : String
  pub error_code : Option String
  pub summary : List ℕ
  pub started_at : String
  pub finished_at : Option String
  pub mode : String
  pub target_branch : Option String

-- A row of `pull_requests`, but its number.
pub record PullRequest : Type 0 where
  pub number : ℕ
  pub run_id : String
  pub branch : String
  pub url : String
  pub base_sha : String
  pub head_sha : String
  pub tier : String
  pub state : String
  pub review_verdict : Option String
  pub review_summary : List ℕ
  pub created_day : String
  pub merged_sha : Option String
  pub updated_at : String

-- The rows of `settings`, one field for each key; the count stands for its decimal text.
pub record Settings : Type 0 where
  pub enabled : Option String
  pub mode : Option String
  pub consecutive_error_code : Option String
  pub consecutive_error_count : Option ℕ

pub record Cursor : Type 0 where
  pub base_sha : String
  pub last_scanned_at : String

pub record Db : Type 0 where
  pub fences : Dict ℕ
  pub leases : Dict Lease
  pub runs : Dict Run
  pub pull_requests : List PullRequest
  pub scan_cursors : Dict Cursor
  pub settings : Settings

-- `_timestamp(None)` and `_iso_now()` in this call.
pub record Context : Type 0 where
  pub timestamp : ℕ
  pub iso_now : String

abbrev pub Loop : Type 0 → Type 0
Loop A = Op Error Db A
