-- ===== src/Loop/Fencing.antt =====
-- Fencing: what a token that a holder was given says about every later state.
use poor_travel_agent.Base.{
  Bool-cases, String, ℕ, ◌+◌, ◌≤◌, ◌<◌, ◌≡◌, refl, sym, ap, subst, ◌∙◌, inl, inr, true, false, List,
  Bool, Option, none, some, arith, ltb, ◌==◌, eq_iff, if◌then◌else◌,
}
use poor_travel_agent.Base.Effect.{ok, raised, pure, transaction, ◌>>=◌, IsPreorder}
use poor_travel_agent.Base.Effect.Inverse.{after_bind, unless_ok, transaction_ok}
use poor_travel_agent.Base.Dict.{lookup, put, remove, lookup-put, lookup-remove}
use poor_travel_agent.Loop.Tables.{
  value_error, lease_busy, lease_lost, Lease, Run, PullRequest, Db, Context,
}
use poor_travel_agent.Loop.Lease.{
  is_live, token_or_one, take_token, store_lease, delete_lease, require_expired, lease_of,
  grant_lease, acquire_lease, is_same_lease, assert_lease_row, delete_own_lease,
}
use poor_travel_agent.Loop.Runs.{
  insert_run, update_base_sha, set_base_sha, finish_found, finish_run, register_outcome_row,
  store_enabled, store_cursor,
}
use poor_travel_agent.Loop.PullRequests.{store_pull_request, update_one}
use poor_travel_agent.Loop.Requests.{Request, serve, Writes, serve-Relates}

-- the next token of a resource
abbrev pub counter : Db → String → ℕ
counter db resource = token_or_one (lookup resource db.fences)

-- The counters of tokens do not fall, and a lease with a token from before the first state's counter
-- is a lease that the first state had.
pub record Later (s t : Db) : Type 0 where
  pub rises : (resource : String) → counter s resource ≤ counter t resource
  pub old_lease :
      (resource : String) (l : Lease)
      → lookup resource t.leases ≡ some l
      → l.fencing_token < counter s resource
      → lookup resource s.leases ≡ some l

Later-preorder : IsPreorder Later
Later-preorder = record {
  same = λ s. record { rises = λ r. omega arith; old_lease = λ r l h _. h };
  after = λ s t u h k. record {
    rises = λ r. omega (arith, h.rises r, k.rises r);
    old_lease = λ r l e b. h.old_lease r l (k.old_lease r l e (omega (arith, h.rises r))) b;
  };
}

-- A statement that leaves tokens and leases alone.
Later-same : (s t : Db) → t.fences ≡ s.fences → t.leases ≡ s.leases → Later s t
Later-same s t f l = record {
  rises = λ r. subst (λ x. counter s r ≤ token_or_one (lookup r x)) (sym f) (omega arith);
  old_lease = λ r m e _. subst (λ x. lookup r x ≡ some m) l e;
}

-- what `grant_lease` leaves
abbrev pub granted : Context → String → String → String → ℕ → Db → Db
granted c resource run owner ttl db = record db {
  fences = put resource (counter db resource + 1) db.fences;
  leases =
      put resource (lease_of c resource run owner ttl (counter db resource))
        (remove resource db.leases);
}

grant_is :
    (c : Context) (resource run owner : String) (ttl : ℕ) (db : Db)
    → grant_lease c resource run owner ttl db ≡ (
      ok (lease_of c resource run owner ttl (counter db resource)),
      granted c resource run owner ttl db,
    )
unfolding grant_lease take_token store_lease delete_lease ◌>>=◌ pure
grant_is c resource run owner ttl db = refl

counter-granted :
    (c : Context) (resource run owner r : String) (ttl : ℕ) (db : Db)
    → counter (granted c resource run owner ttl db) r
      ≡ (if resource == r then counter db resource + 1 else counter db r)
counter-granted c resource run owner r ttl db =
    ground (arith, lookup-put resource r (counter db resource + 1) db.fences)

granted_lease :
    (c : Context) (resource run owner r : String) (ttl : ℕ) (db : Db)
    → lookup r (granted c resource run owner ttl db).leases ≡ (
        if resource == r
        then some (lease_of c resource run owner ttl (counter db resource))
        else lookup r db.leases)
granted_lease c resource run owner r ttl db = ground (
  arith,
  lookup-put resource r (lease_of c resource run owner ttl (counter db resource))
      (remove resource db.leases),
  lookup-remove resource r db.leases,
)

granted_here :
    (c : Context) (resource run owner : String) (ttl : ℕ) (db : Db)
    → (counter (granted c resource run owner ttl db) resource ≡ counter db resource + 1)
      × (lookup resource (granted c resource run owner ttl db).leases
          ≡ some (lease_of c resource run owner ttl (counter db resource)))
granted_here c resource run owner ttl db = ground (
  arith,
  eq_iff resource resource,
  counter-granted c resource run owner resource ttl db,
  granted_lease c resource run owner resource ttl db,
)

Later-granted :
    (c : Context) (resource run owner : String) (ttl : ℕ) (db : Db)
    → Later db (granted c resource run owner ttl db)
Later-granted c resource run owner ttl db = record {
  rises = λ r. ground (arith, counter-granted c resource run owner r ttl db, eq_iff resource r);
  old_lease =
      λ r l e b. ground (arith, granted_lease c resource run owner r ttl db, eq_iff resource r);
}

Later-grant :
    (c : Context) (resource run owner : String) (ttl : ℕ) (db : Db)
    → Later db (grant_lease c resource run owner ttl db).1
Later-grant c resource run owner ttl db =
    subst (λ x. Later db x.1) (sym (grant_is c resource run owner ttl db))
      (Later-granted c resource run owner ttl db)

without :
    (d : String) (r : String) (db : Db) (l : Lease)
    → lookup r (remove d db.leases) ≡ some l
    → lookup r db.leases ≡ some l
without d r db l h = ground (arith, lookup-remove d r db.leases)

Later-delete : (l : Lease) (db : Db) → Later db (delete_own_lease l db).1
unfolding delete_own_lease
Later-delete l db = record {
  rises = λ r. ground arith;
  old_lease = λ r m e _. ground (arith, lookup-remove l.resource r db.leases);
}

insert_run-frame :
    (id : String) (r : Run) (db : Db)
    → ((insert_run id r db).1.fences ≡ db.fences) × ((insert_run id r db).1.leases ≡ db.leases)
unfolding insert_run
insert_run-frame id r db = ground arith

sha-frame :
    (id sha : String) (o : Option Run) (db : Db)
    → ((update_base_sha id sha o db).fences ≡ db.fences)
      × ((update_base_sha id sha o db).leases ≡ db.leases)
sha-frame id sha none db = (refl, refl)
sha-frame id sha (some r) db = (refl, refl)

finish-frame :
    (c : Context) (id state : String) (summary : List ℕ) (error : Option String) (o : Option Run)
    (db : Db)
    → ((finish_found c id state summary error o db).1.fences ≡ db.fences)
      × ((finish_found c id state summary error o db).1.leases ≡ db.leases)
finish-frame c id state summary error none db = (refl, refl)
finish-frame c id state summary error (some r) db = ground arith

update-frame :
    (test : PullRequest → Bool) (f : PullRequest → PullRequest) (db : Db)
    → ((update_one test f db).1.fences ≡ db.fences) × ((update_one test f db).1.leases ≡ db.leases)
unfolding update_one
update-frame test f db = ground arith

frame : (s t : Db) → (t.fences ≡ s.fences) × (t.leases ≡ s.leases) → Later s t
frame s t (f, l) = Later-same s t f l

Later-writes : Writes Later
unfolding set_base_sha finish_run register_outcome_row store_enabled store_cursor store_pull_request
Later-writes = record {
  preorder = Later-preorder;
  grants = λ c resource run owner ttl. record { at = Later-grant c resource run owner ttl };
  deletes = λ l. record { at = Later-delete l };
  inserts_run = λ id r. record { at = λ db. frame db _ (insert_run-frame id r db) };
  sets_sha = λ id sha. record { at = λ db. frame db _ (sha-frame id sha (lookup id db.runs) db) };
  finishes = λ c id state summary error. record {
    at = λ db. frame db _ (finish-frame c id state summary error (lookup id db.runs) db);
  };
  registers = λ error. record { at = λ db. frame db _ (refl, refl) };
  enables = λ enabled mode. record { at = λ db. frame db _ (refl, refl) };
  scans = λ name cursor. record { at = λ db. frame db _ (refl, refl) };
  opens = λ c l receipt base tier day. record { at = λ db. frame db _ (refl, refl) };
  reviews = λ c number head verdict summary. record { at = λ db. frame db _ (update-frame _ _ db) };
  merges = λ c number head sha _. record { at = λ db. frame db _ (update-frame _ _ db) };
}

serve-Later : (db : Db) (calls : List (Context × Request)) → Later db (serve db calls)
serve-Later = serve-Relates Later-writes

require_expired_ok :
    (c : Context) (resource : String) (db : Db) {a : Unit {0}} {t : Db}
    → require_expired c resource db ≡ (ok a, t)
    → (is_live c.timestamp (lookup resource db.leases) ≡ false) × (t ≡ db)
unfolding require_expired
require_expired_ok c resource db h = ground arith

-- What a call of `acquire_lease` that returned found and left.
pub record Acquired (c : Context) (resource run owner : String) (ttl : ℕ) (db : Db) (l : Lease)
    (t : Db) : Type 0 where
  pub was_free : is_live c.timestamp (lookup resource db.leases) ≡ false
  pub is_lease : l ≡ lease_of c resource run owner ttl (counter db resource)
  pub token : l.fencing_token ≡ counter db resource
  pub next : counter t resource ≡ counter db resource + 1
  pub held :
      lookup resource t.leases ≡ some (lease_of c resource run owner ttl (counter db resource))

acquire_lease-Acquired :
    (c : Context) (resource run owner : String) (ttl : ℕ) (db : Db) (l : Lease) (t : Db)
    → acquire_lease c resource run owner ttl db ≡ (ok l, t)
    → Acquired c resource run owner ttl db l t
unfolding acquire_lease
acquire_lease-Acquired c resource run owner ttl db l t h =
    after_bind _ _ db (transaction_ok _ db (unless_ok (ltb ttl 1) value_error _ db h)) λ a u e k.
      let (free, same) = require_expired_ok c resource db e in
      let out =
        sym (subst (λ x. grant_lease c resource run owner ttl x ≡ (ok l, t)) same k)
        ∙ grant_is c resource run owner ttl db in
      let is : l ≡ lease_of c resource run owner ttl (counter db resource) = ground (arith, out) in
      record {
        was_free = free;
        is_lease = is;
        token = ap (λ x. x.fencing_token) is;
        next = ap (λ x. counter x.1 resource) out ∙ (granted_here c resource run owner ttl db).0;
        held =
            ap (λ x. lookup resource x.1.leases) out ∙ (granted_here c resource run owner ttl db).1;
      }

-- A lease that a row matches has the token of the row.
same_token :
    (c : Context) (l : Lease) (o : Option Lease)
    → is_same_lease c l o ≡ true
    → (m : Lease) × (o ≡ some m) × (m.fencing_token ≡ l.fencing_token)
same_token c l none h = cc
same_token c l (some m) h = (m, refl, ground arith)

assert_ok :
    (c : Context) (l : Lease) (db : Db) {a : Unit {0}} {t : Db}
    → assert_lease_row c l db ≡ (ok a, t)
    → is_same_lease c l (lookup l.resource db.leases) ≡ true
unfolding assert_lease_row
assert_ok c l db h = ground arith

-- In the state that a granted `acquire_lease` leaves, at every time before its lease ends, a call with
-- a positive ttl for the same resource, whoever makes it, raises `LeaseBusyError` and changes nothing.
pub lease_excludes :
    (c c' : Context) (resource run owner run' owner' : String) (ttl ttl' : ℕ) (db s : Db)
    (l : Lease)
    → acquire_lease c resource run owner ttl db ≡ (ok l, s)
    → c'.timestamp < c.timestamp + ttl
    → 0 < ttl'
    → acquire_lease c' resource run' owner' ttl' s ≡ (raised lease_busy, s)
unfolding acquire_lease require_expired transaction ◌>>=◌
lease_excludes c c' resource run owner run' owner' ttl ttl' db s l h early positive =
    let a = acquire_lease-Acquired c resource run owner ttl db l s h in ground (arith, a.held)

passes_never :
    (c : Context) (l m : Lease) (v w : Db)
    → lookup l.resource v.leases ≡ some m
    → l.fencing_token < m.fencing_token
    → m.fencing_token < counter v l.resource
    → Later v w
    → assert_lease_row c l w ≡ (raised lease_lost, w)
unfolding assert_lease_row
passes_never c l m v w held less known k =
    elim (Bool-cases (is_same_lease c l (lookup l.resource w.leases))) [
      | inl same ↦
          let (x, here, at) = same_token c l (lookup l.resource w.leases) same in
          let before = k.old_lease l.resource x here (omega (arith, at, less, known)) in
          absurd (ground (arith, before, held, at, less))
      | inr other ↦ ground (arith, other)
    ]

-- A lease whose resource was acquired anew is lost for good: after any calls, then an acquisition of
-- the same resource that returned, and any calls again, the check of the old lease raises
-- `LeaseLostError`, at any time.
pub stale_lease_lost :
    (c c' c'' : Context) (resource run owner run' owner' : String) (ttl ttl' : ℕ) (db s t : Db)
    (l m : Lease) (calls later : List (Context × Request))
    → acquire_lease c resource run owner ttl db ≡ (ok l, s)
    → acquire_lease c' resource run' owner' ttl' (serve s calls) ≡ (ok m, t)
    → assert_lease_row c'' l (serve t later) ≡ (raised lease_lost, serve t later)
stale_lease_lost c c' c'' resource run owner run' owner' ttl ttl' db s t l m calls later h k =
    let a = acquire_lease-Acquired c resource run owner ttl db l s h in
    let b = acquire_lease-Acquired c' resource run' owner' ttl' (serve s calls) m t k in
    let up = (serve-Later s calls).rises resource in
    subst (λ x. assert_lease_row c'' x (serve t later) ≡ (raised lease_lost, serve t later))
      (sym a.is_lease)
      (passes_never c'' (lease_of c resource run owner ttl (counter db resource))
        (lease_of c' resource run' owner' ttl' (counter (serve s calls) resource)) t (serve t later)
        b.held (omega (arith, a.next, up)) (omega (arith, b.next)) (serve-Later t later))
