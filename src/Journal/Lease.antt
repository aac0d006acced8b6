-- ===== src/Journal/Lease.antt =====
-- The lease of the active run: who may hold it, the tokens, and the check of a writer's claim.
use poor_travel_agent.Base.{
  ℕ, ◌+◌, String, Bool, false, ◌&&◌, List, Option, none, some, ltb, eqb, any, ◌==◌, is_some,
  if◌then◌else◌,
}
use poor_travel_agent.Base.Text.{codes}
use poor_travel_agent.Base.Json.{ℤ}
use poor_travel_agent.Base.Effect.{Result, ok, raised}
use poor_travel_agent.Journal.Rows.{
  Error, value_error, corruption, operational, lease_lost, sqlite_integrity, Row, Lease, Context,
  Journal, ProcessIdentity, present, absent, unknown, below_one,
}
use poor_travel_agent.Journal.Input.{is_identifier}

unfoldable pub process_identity : Context → ℤ → ProcessIdentity
process_identity c pid =
    if below_one pid then record { state = absent; fingerprint = none } else c.platform_identity pid

-- the fingerprint of a process that is there
abbrev fingerprint_of : ProcessIdentity → Result Error String
fingerprint_of i = elim i.state [
  | present ↦ elim i.fingerprint [
    | none ↦ raised operational
    | some f ↦ if f == "" then raised operational else ok f
  ]
  | absent ↦ raised operational
  | unknown ↦ raised operational
]

unfoldable pub owner_process_start : Context → ℤ → Result Error String
unfolding process_identity
owner_process_start c pid = if below_one pid then ok "" else fingerprint_of (process_identity c pid)

-- SELECT 1 FROM session_events WHERE run_id = ? AND kind = 'terminal'
unfoldable pub is_terminal_of : String → Row → Bool
is_terminal_of run row = row.run_id == run && row.kind == "terminal"

unfoldable pub has_terminal : String → List Row → Bool
has_terminal run = any (is_terminal_of run)

unfoldable pub allocate_fencing_token : Journal ℕ
allocate_fencing_token db = elim db.next_token [
  | none ↦ (raised corruption, db)
  | some token ↦
      if ltb token 1
      then (raised corruption, db)
      else (ok token, record db { next_token = some (token + 1) })
]

-- INSERT INTO active_run_lease: the table holds one row
unfoldable pub insert_lease : Lease → Journal (Unit {0})
insert_lease lease db =
    if is_some db.lease
    then (raised sqlite_integrity, db)
    else (ok tt, record db { lease = some lease })

abbrev pub holds_run : String → Option Lease → Bool
holds_run run none = false
holds_run run (some l) = l.run_id == run

abbrev pub holds_lease : String → String → ℕ → Option Lease → Bool
holds_lease run owner token none = false
holds_lease run owner token (some l) =
    l.run_id == run && (l.owner_id == owner && eqb l.fencing_token token)

unfoldable pub assert_run_lease : String → Option String → Option ℕ → Journal (Unit {0})
assert_run_lease run none none db =
    if holds_run run db.lease then (raised lease_lost, db) else (ok tt, db)
assert_run_lease run (some owner) (some token) db =
    if ltb token 1
    then (raised value_error, db)
    else if is_identifier (codes owner)
    then (if holds_lease run owner token db.lease then (ok tt, db) else (raised lease_lost, db))
    else (raised value_error, db)
assert_run_lease run _ _ db = (raised value_error, db)
