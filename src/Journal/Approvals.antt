-- ===== src/Journal/Approvals.antt =====
-- The approvals of a run that no tool result has answered yet: `_has_unresolved_approval`.
use poor_travel_agent.Base.{
  ℕ, suc, String, Bool, true, false, not, ◌&&◌, List, [], ◌∷◌, Option, none, some, eqb, length,
  ◌==◌, if◌then◌else◌,
}
use poor_travel_agent.Base.Text.{codes, strip, decimal}
use poor_travel_agent.Base.Json.{pos, negsuc, Value, null, bool, int, float, str, dict, Fields, get}
use poor_travel_agent.Base.Effect.{Result, ok, raised}
use poor_travel_agent.Journal.Rows.{Error, value_error, attribute_error, Row, Context}

-- `str(value)`
unfoldable pub text_of : Context → Value → String
text_of c null = "None"
text_of c (bool true) = "True"
text_of c (bool false) = "False"
text_of c (int (pos n)) = decimal n
text_of c (int (negsuc n)) = String.◌∷◌ "-" (decimal (suc n))
text_of c (float x) = x.repr
text_of c (str s) = s
text_of c v = c.repr v

abbrev text_or_empty : Context → Option Value → String
text_or_empty c none = ""
text_or_empty c (some v) = text_of c v

-- str(payload.get(key, ""))
unfoldable pub text_at : Context → String → Fields → String
text_at c key payload = text_or_empty c (get key payload)

-- str(payload.get(key, "")).strip(), as code points
unfoldable pub stripped_at : Context → String → Fields → List ℕ
stripped_at c key payload = strip (codes (text_at c key payload))

abbrev is_text : String → Option Value → Bool
is_text s (some (str t)) = t == s
is_text s _ = false

-- `_is_graph_approval_payload`
unfoldable pub is_graph_approval_payload : Context → Fields → Bool
is_graph_approval_payload c payload =
    if is_text "deerflow_v2" (get "runtime_profile" payload)
    then true
    else not (eqb (length (stripped_at c "tool_call_id" payload)) 0)
      && eqb (length (stripped_at c "args_digest" payload)) 64

-- the two variables of the loop
pub record Pending : Type 0 where
  pub approval_id : String
  pub call_id : String

abbrev pub no_pending : Pending
no_pending = record { approval_id = ""; call_id = "" }

unfoldable pub is_approval_request : Context → Row → Fields → Bool
is_approval_request c row payload =
    row.kind == "approval"
    && row.status == "blocked"
    && (text_at c "type" payload == "approval_required" && is_graph_approval_payload c payload)

-- one row of the loop
unfoldable pub follow : Context → Pending → Row → Fields → Pending
follow c p row payload =
    if is_approval_request c row payload
    then record {
      approval_id = text_at c "approval_id" payload;
      call_id = text_at c "tool_call_id" payload;
    }
    else if text_at c "type" payload == "tool_result"
    then (if not (p.call_id == "") && text_at c "tool_call_id" payload == p.call_id
        then no_pending
        else p)
    else p

-- `json.loads` raises on a column that holds no JSON, and `.get` on what is no object.
unfoldable pub scan : Context → Pending → List Row → Result Error Bool
scan c p [] = ok (not (p.approval_id == ""))
scan c p (row ∷ rows) = elim row.payload_json [
  | none ↦ raised value_error
  | some v ↦ elim v [
    | dict payload ↦ scan c (follow c p row payload) rows
    | _ ↦ raised attribute_error
  ]
]

-- `_has_unresolved_approval`, over the rows of one run
unfoldable pub has_unresolved_approval : Context → List Row → Result Error Bool
has_unresolved_approval c rows = scan c no_pending rows
