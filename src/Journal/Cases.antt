-- ===== src/Journal/Cases.antt =====
-- The ways in which the statements that write can end.
use poor_travel_agent.Base.{String, ℕ, suc, ◌+◌, ◌≡◌, [], ◌∷◌, ◌++◌, some, false, ◌⊎◌, arith}
use poor_travel_agent.Base.Json.{ℤ}
use poor_travel_agent.Base.Effect.{ok, ◌>>=◌}
use poor_travel_agent.Journal.Rows.{SessionEvent, Db, Context}
use poor_travel_agent.Journal.Input.{Values, event_from_row}
use poor_travel_agent.Journal.Lease.{allocate_fencing_token, insert_lease}
use poor_travel_agent.Journal.Writes.{conflicts, new_row, insert}
use poor_travel_agent.Journal.Runs.{lease_of, grant}

abbrev pub inserted : Context → Values → Db → Db
inserted c v db = record db {
  events = db.events ++ new_row c (suc db.last_sequence) v ∷ [];
  last_sequence = suc db.last_sequence;
}

-- An insert changes nothing, or it adds the new row, which no constraint forbids.
pub insert_cases :
    (c : Context) (v : Values) (db : Db)
    → ((insert c v db).1 ≡ db)
      ⊎ ((conflicts v db.events ≡ false)
          × (insert c v db
              ≡ (event_from_row c (new_row c (suc db.last_sequence) v), inserted c v db)))
unfolding insert
insert_cases c v db = ground arith

-- An insert that returns has added the new row, and returns the event of that row.
pub insert_ok :
    (c : Context) (v : Values) (db : Db) {s : SessionEvent} {t : Db}
    → insert c v db ≡ (ok s, t)
    → (event_from_row c (new_row c (suc db.last_sequence) v) ≡ ok s) × (t ≡ inserted c v db)
unfolding insert
insert_ok c v db h = ground arith

abbrev pub granted : Context → String → String → ℤ → String → ℕ → Db → Db
granted c run owner pid start token db = record db {
  lease = some (lease_of c run owner pid start token);
  next_token = some (token + 1);
}

pub grant_cases :
    (c : Context) (run owner : String) (pid : ℤ) (start : String) (db : Db)
    → ((grant c run owner pid start db).1 ≡ db)
      ⊎ ((t : ℕ) × (db.next_token ≡ some t)
          × ((grant c run owner pid start db).1 ≡ record db { next_token = some (t + 1) }))
      ⊎ ((t : ℕ) × (db.next_token ≡ some t)
          × ((grant c run owner pid start db) ≡ (ok t, granted c run owner pid start t db)))
unfolding grant ◌>>=◌ allocate_fencing_token insert_lease
grant_cases c run owner pid start db = ground arith
