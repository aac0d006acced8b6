-- ===== src/Journal/Input.antt =====
-- The checks on what a caller hands in, and on what a stored row holds.
use poor_travel_agent.Base.{
  ℕ, ◌≡◌, ap, arith, String, Bool, false, not, ◌&&◌, ◌||◌, List, [], ◌∷◌, Option, none, some, leb,
  ltb, eqb, all, length, ◌==◌, if◌then◌else◌,
}
use poor_travel_agent.Base.Text.{codes, is_alphanumeric}
use poor_travel_agent.Base.Json.{
  Value, dict, Fields, strict_json_value, all_numbers_finite, json_size,
}
use poor_travel_agent.Base.Effect.{Result, ok, raised}
use poor_travel_agent.Journal.Rows.{
  Error, value_error, type_error, corruption, Row, SessionEvent, Context,
}

abbrev pub max_payload_bytes : ℕ
max_payload_bytes = 1048576

abbrev pub kinds : List String
kinds =
    "user" ∷ "assistant" ∷ "model" ∷ "tool" ∷ "approval" ∷ "context" ∷ "memory" ∷ "agent"
    ∷ "terminal" ∷ "system" ∷ "run" ∷ "harness" ∷ []

abbrev pub statuses : List String
statuses =
    "pending" ∷ "queued" ∷ "running" ∷ "blocked" ∷ "done" ∷ "completed" ∷ "cancelled" ∷ "error"
    ∷ "interrupted" ∷ "retryable" ∷ []

abbrev pub terminal_statuses : List String
terminal_statuses = "completed" ∷ "cancelled" ∷ "error" ∷ "interrupted" ∷ []

unfoldable pub is_one_of : List String → String → Bool
is_one_of [] s = false
is_one_of (x ∷ xs) s = x == s || is_one_of xs s

is_identifier_char : ℕ → Bool
is_identifier_char c = is_alphanumeric c || eqb c b'_' || eqb c b'.' || eqb c b':' || eqb c b'-'

-- `_IDENTIFIER.fullmatch`
unfoldable pub is_identifier : List ℕ → Bool
unfolding is_identifier_char is_alphanumeric
is_identifier [] = false
is_identifier (c ∷ cs) = is_alphanumeric c && all is_identifier_char cs && leb (length cs) 127

unfoldable pub validate_identifier : String → Result Error String
validate_identifier value = if is_identifier (codes value) then ok value else raised value_error

-- `_validate_kind_status`: whether it lets the pair pass
unfoldable pub kind_status_fits : String → String → Bool
kind_status_fits kind status =
    if kind == "terminal"
    then is_one_of terminal_statuses status
    else not (status == "cancelled" || status == "interrupted")

-- `_validate_timestamp`: whether it lets the text pass
unfoldable pub timestamp_fits : Context → String → Bool
timestamp_fits c value = elim (c.fromisoformat value) [
  | none ↦ false
  | some aware ↦ not (value == "") && aware
]

-- the dict that `_validated_event_input` returns
pub record Values : Type 0 where
  pub run_id : String
  pub kind : String
  pub status : String
  pub payload_json : Value
  pub event_id : String
  pub timestamp : String

abbrev or_else : Option String → String → String
or_else none d = d
or_else (some s) d = s

abbrev check_values : Context → Values → Result Error Values
check_values c v =
    if not (is_identifier (codes v.run_id))
    then raised value_error
    else if not (is_one_of kinds v.kind)
    then raised value_error
    else if not (is_one_of statuses v.status)
    then raised value_error
    else if not (kind_status_fits v.kind v.status)
    then raised value_error
    else elim v.payload_json [
      | dict fields ↦
          if not (strict_json_value v.payload_json)
          then raised value_error
          else if ltb max_payload_bytes (json_size v.payload_json)
          then raised value_error
          else if not (is_identifier (codes v.event_id))
          then raised value_error
          else if not (timestamp_fits c v.timestamp)
          then raised value_error
          else ok v
      | _ ↦ raised type_error
    ]

-- The missing event id and timestamp are filled in first, which no check in between can see.
unfoldable pub validated_event_input :
    Context → String → String → String → Value → Option String → Option String → Result Error Values
validated_event_input c run_id kind status payload event_id timestamp = check_values c (record {
  run_id = run_id;
  kind = kind;
  status = status;
  payload_json = payload;
  event_id = or_else event_id c.uuid4;
  timestamp = or_else timestamp c.now;
})

abbrev pub row_event : Row → Fields → SessionEvent
row_event row payload = record {
  event_id = row.event_id;
  session_id = row.session_id;
  run_id = row.run_id;
  sequence = row.sequence;
  kind = row.kind;
  status = row.status;
  timestamp = row.timestamp;
  payload = payload;
}

abbrev row_is_valid : Context → Row → Bool
row_is_valid c row =
    is_identifier (codes row.event_id)
    && is_identifier (codes row.run_id)
    && (is_one_of kinds row.kind && is_one_of statuses row.status)
    && (kind_status_fits row.kind row.status && timestamp_fits c row.timestamp)

-- the JSON object in the column, if the strict `json.loads` reads one with finite numbers
abbrev pub read_payload : Option Value → Option Fields
read_payload (some (dict fields)) = if all_numbers_finite (dict fields) then some fields else none
read_payload _ = none

-- Every check that fails raises the same exception.
unfoldable pub event_from_row : Context → Row → Result Error SessionEvent
event_from_row c row =
    if not (row.session_id == c.session_id)
    then raised corruption
    else elim (read_payload row.payload_json) [
      | none ↦ raised corruption
      | some payload ↦ if row_is_valid c row then ok (row_event row payload) else raised corruption
    ]

check_values_ok : (c : Context) (v w : Values) → check_values c v ≡ ok w → w ≡ v
check_values_ok c v w h = ground arith

-- Validated input keeps the run, the kind and the status that were handed in.
pub validated_event_input_ok :
    (c : Context) (run_id kind status : String) (payload : Value)
    (event_id timestamp : Option String) (v : Values)
    → validated_event_input c run_id kind status payload event_id timestamp ≡ ok v
    → (v.run_id ≡ run_id) × (v.kind ≡ kind) × (v.status ≡ status)
unfolding validated_event_input
validated_event_input_ok c run_id kind status payload event_id timestamp v h =
    let e = check_values_ok c _ v h in
    (ap (λ x. x.run_id) e, ap (λ x. x.kind) e, ap (λ x. x.status) e)

-- The event of a row depends on the caller only by the checks.
pub event_from_row_ok :
    (c : Context) (row : Row) {s : SessionEvent}
    → event_from_row c row ≡ ok s
    → (payload : Fields) × (read_payload row.payload_json ≡ some payload)
      × (s ≡ row_event row payload)
unfolding event_from_row
event_from_row_ok c row h = ground arith

pub event_from_row_unique :
    (c c' : Context) (row : Row) {s s' : SessionEvent}
    → event_from_row c row ≡ ok s
    → event_from_row c' row ≡ ok s'
    → s' ≡ s
event_from_row_unique c c' row h h' =
    let (p, e, q) = event_from_row_ok c row h in
    let (p', e', q') = event_from_row_ok c' row h' in cc
