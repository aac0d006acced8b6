-- ===== src/Journal/Reads.antt =====
-- The operations of `SessionEventJournal` that only read.
use poor_travel_agent.Base.{
  ℕ, ◌+◌, String, Bool, true, not, ◌&&◌, List, [], ◌∷◌, Option, none, some, ltb, leb, filter, take,
  length, if◌then◌else◌,
}
use mathlib.Core.List.{reverse}
use poor_travel_agent.Base.Effect.{Result, ok, raised}
use poor_travel_agent.Journal.Rows.{Error, value_error, Row, SessionEvent, Db, Context}
use poor_travel_agent.Journal.Input.{event_from_row}

pub record ReplayPage : Type 0 where
  pub items : List SessionEvent
  pub next_cursor : ℕ
  pub has_more : Bool

pub record BackwardReplayPage : Type 0 where
  pub items : List SessionEvent
  pub older_cursor : Option ℕ
  pub latest_cursor : ℕ
  pub has_more : Bool

abbrev pub prepend :
    SessionEvent → Result Error (List SessionEvent) → Result Error (List SessionEvent)
prepend e (raised x) = raised x
prepend e (ok es) = ok (e ∷ es)

-- `tuple(_event_from_row(row, self.session_id) for row in rows)`
unfoldable pub events_from_rows : Context → List Row → Result Error (List SessionEvent)
events_from_rows c [] = ok []
events_from_rows c (row ∷ rows) =
    let rest = events_from_rows c rows in
    elim (event_from_row c row) [ raised x ↦ raised x | ok e ↦ prepend e rest ]

-- `items[-1].sequence if items else after`
unfoldable pub last_sequence_or : ℕ → List SessionEvent → ℕ
last_sequence_or d [] = d
last_sequence_or d (e ∷ es) = last_sequence_or e.sequence es

-- SELECT * FROM session_events WHERE sequence > ? ORDER BY sequence
unfoldable pub rows_after : ℕ → List Row → List Row
rows_after cursor = filter (λ row. ltb cursor row.sequence)

abbrev pub page_of : ℕ → Bool → Result Error (List SessionEvent) → Result Error ReplayPage
page_of cursor more (raised x) = raised x
page_of cursor more (ok items) =
    ok (record { items = items; next_cursor = last_sequence_or cursor items; has_more = more })

-- The rows in the order of their sequence are the rows as they stand.
unfoldable pub replay : Context → ℕ → ℕ → Db → Result Error ReplayPage
replay c cursor limit db =
    if not (leb 1 limit && leb limit 500)
    then raised value_error
    else (let rows = take (limit + 1) (rows_after cursor db.events) in
        page_of cursor (ltb limit (length rows)) (events_from_rows c (take limit rows)))

-- SELECT COALESCE(MAX(sequence), 0) FROM session_events
unfoldable pub max_sequence : List Row → ℕ
max_sequence [] = 0
max_sequence (row ∷ rows) =
    let rest = max_sequence rows in if ltb rest row.sequence then row.sequence else rest

unfoldable pub latest_sequence : Db → ℕ
unfolding max_sequence
latest_sequence db = max_sequence db.events

-- `WHERE sequence < ?`, or every row
abbrev rows_before : Option ℕ → List Row → List Row
rows_before none rows = rows
rows_before (some before) rows = filter (λ row. ltb row.sequence before) rows

abbrev first_sequence : List SessionEvent → Option ℕ
first_sequence [] = none
first_sequence (e ∷ es) = some e.sequence

abbrev backward_page : ℕ → Bool → Result Error (List SessionEvent) → Result Error BackwardReplayPage
backward_page latest more (raised x) = raised x
backward_page latest more (ok items) = ok (record {
  items = items;
  older_cursor = if more then first_sequence items else none;
  latest_cursor = latest;
  has_more = more;
})

abbrev positive_if_given : Option ℕ → Bool
positive_if_given none = true
positive_if_given (some n) = ltb 0 n

-- ORDER BY sequence DESC LIMIT limit + 1
unfoldable pub replay_before : Context → Option ℕ → ℕ → Db → Result Error BackwardReplayPage
replay_before c before limit db =
    if not (positive_if_given before && (leb 1 limit && leb limit 500))
    then raised value_error
    else (let rows = take (limit + 1) (reverse (rows_before before db.events)) in
        backward_page (latest_sequence db) (ltb limit (length rows))
          (events_from_rows c (reverse (take limit rows))))

unfoldable pub active_run_id : Db → Option String
active_run_id db = elim db.lease [ none ↦ none | some l ↦ some l.run_id ]
