-- ===== src/Loop/Lease.antt =====
-- Leases on a resource, with a token that fences off earlier holders.
use poor_travel_agent.Base.{
  ℕ, ◌+◌, String, Bool, false, ◌&&◌, Option, none, some, ltb, eqb, ◌==◌, if◌then◌else◌,
}
use poor_travel_agent.Base.Effect.{ok, raised, pure, raise, transaction, ◌>>=◌, ◌>>◌}
use poor_travel_agent.Base.Dict.{lookup, put, remove}
use poor_travel_agent.Loop.Tables.{value_error, lease_busy, lease_lost, Lease, Context, Loop}

-- expires_at > timestamp
abbrev pub is_live : ℕ → Option Lease → Bool
is_live now none = false
is_live now (some l) = ltb now l.expires_at

abbrev pub token_or_one : Option ℕ → ℕ
token_or_one none = 1
token_or_one (some n) = n

-- INSERT OR IGNORE INTO fence_state, SELECT, UPDATE
unfoldable pub take_token : String → Loop ℕ
take_token resource db = (
  ok (token_or_one (lookup resource db.fences)),
  record db { fences = put resource (token_or_one (lookup resource db.fences) + 1) db.fences },
)

unfoldable pub store_lease : Lease → Loop (Unit {0})
store_lease l db = (ok tt, record db { leases = put l.resource l db.leases })

unfoldable pub delete_lease : String → Loop (Unit {0})
delete_lease resource db = (ok tt, record db { leases = remove resource db.leases })

unfoldable pub require_expired : Context → String → Loop (Unit {0})
require_expired c resource db =
    if is_live c.timestamp (lookup resource db.leases) then (raised lease_busy, db) else (ok tt, db)

abbrev pub lease_of : Context → String → String → String → ℕ → ℕ → Lease
lease_of c resource run owner ttl token = record {
  resource = resource;
  run_id = run;
  owner_id = owner;
  fencing_token = token;
  expires_at = c.timestamp + ttl;
}

-- from the DELETE on
unfoldable pub grant_lease : Context → String → String → String → ℕ → Loop Lease
grant_lease c resource run owner ttl = do
  delete_lease resource
  token ← take_token resource
  store_lease (lease_of c resource run owner ttl token)
  pure (lease_of c resource run owner ttl token)

unfoldable pub acquire_lease : Context → String → String → String → ℕ → Loop Lease
acquire_lease c resource run owner ttl =
    if ltb ttl 1
    then raise value_error
    else transaction (do require_expired c resource; grant_lease c resource run owner ttl)

-- the WHERE clause of `_assert_lease_row`
abbrev pub is_same_lease : Context → Lease → Option Lease → Bool
is_same_lease c lease none = false
is_same_lease c lease (some l) =
    l.run_id == lease.run_id
    && (l.owner_id == lease.owner_id
        && (eqb l.fencing_token lease.fencing_token && ltb c.timestamp l.expires_at))

unfoldable pub assert_lease_row : Context → Lease → Loop (Unit {0})
assert_lease_row c lease db =
    if is_same_lease c lease (lookup lease.resource db.leases)
    then (ok tt, db)
    else (raised lease_lost, db)

-- the WHERE clause of the deletes, which does not look at the time
abbrev pub is_own : Lease → Option Lease → Bool
is_own lease none = false
is_own lease (some l) =
    l.run_id == lease.run_id
    && (l.owner_id == lease.owner_id && eqb l.fencing_token lease.fencing_token)

unfoldable pub delete_own_lease : Lease → Loop (Unit {0})
delete_own_lease lease db =
    if is_own lease (lookup lease.resource db.leases)
    then (ok tt, record db { leases = remove lease.resource db.leases })
    else (ok tt, db)

unfoldable pub release_lease : Context → Lease → Loop (Unit {0})
release_lease c lease = transaction (do assert_lease_row c lease; delete_own_lease lease)
