-- ===== src/Journal/Fencing.antt =====
-- Fencing: what a token that a run was given says about every later state of the database.
use poor_travel_agent.Base.{
  String, ℕ, ◌≤◌, ◌<◌, ◌≡◌, refl, sym, ◌∙◌, true, List, Option, none, some, arith,
}
use poor_travel_agent.Base.Json.{ℤ, Fields}
use poor_travel_agent.Base.Effect.{ok, IsPreorder}
use poor_travel_agent.Base.Effect.Inverse.{after_bind, after_lift, rethrow_ok}
use poor_travel_agent.Journal.Rows.{Lease, Db, Context, SessionEvent}
use poor_travel_agent.Journal.Input.{Values}
use poor_travel_agent.Journal.Lease.{holds_lease, assert_run_lease}
use poor_travel_agent.Journal.Writes.{
  Event, append, insert, without_lease_of, delete_lease_of, as_journal_error,
}
use poor_travel_agent.Journal.Runs.{BeginRunResult, begin_run, grant, lease_of}
use poor_travel_agent.Journal.Recovery.{delete_lease}
use poor_travel_agent.Journal.Requests.{Request, serve, Writes, serve-Relates}
use poor_travel_agent.Journal.Cases.{grant_cases}
use poor_travel_agent.Journal.Granted.{Granted, connect_ok, insert_leaves, begin_run-Granted}

abbrev counter : Option ℕ → ℕ
counter none = 0
counter (some n) = n

-- The counter of tokens does not fall, and a lease with a token from before the first state's
-- counter is a lease that the first state had.
pub record Later (s t : Db) : Type 0 where
  pub rises : counter s.next_token ≤ counter t.next_token
  pub old_lease :
      (l : Lease) → t.lease ≡ some l → l.fencing_token < counter s.next_token → s.lease ≡ some l

Later-preorder : IsPreorder Later
Later-preorder = record {
  same = λ s. record { rises = omega arith; old_lease = λ l h _. h };
  after = λ s t u h k. record {
    rises = omega (arith, h.rises, k.rises);
    old_lease = λ l e b. h.old_lease l (k.old_lease l e (omega (arith, h.rises))) b;
  };
}

Later-insert : (c : Context) (v : Values) (db : Db) → Later db (insert c v db).1
Later-insert c v db = record {
  rises = ground (arith, insert_leaves c v db);
  old_lease = λ l e _. sym (insert_leaves c v db).1 ∙ e;
}

Later-grant :
    (c : Context) (run owner : String) (pid : ℤ) (start : String) (db : Db)
    → Later db (grant c run owner pid start db).1
Later-grant c run owner pid start db = record {
  rises = ground (arith, grant_cases c run owner pid start db);
  old_lease = λ l e b. ground (arith, grant_cases c run owner pid start db);
}

Later-release : (run : String) (db : Db) → Later db (delete_lease_of run db).1
unfolding delete_lease_of
Later-release run db = record { rises = omega arith; old_lease = λ l e b. without run db.lease l e }
  where
    without :
        (run : String) (o : Option Lease) (l : Lease) → without_lease_of run o ≡ some l → o ≡ some l
    without run none l e = e
    without run (some m) l e = ground arith

Later-writes : Writes Later
unfolding delete_lease
Later-writes = record {
  preorder = Later-preorder;
  inserts = λ c v. record { at = Later-insert c v };
  grants = λ c run owner pid start. record { at = Later-grant c run owner pid start };
  releases = λ run. record { at = Later-release run };
  deletes = record { at = λ db. record { rises = omega arith; old_lease = λ l e b. cc } };
}

serve-Later : (db : Db) (calls : List (Context × Request)) → Later db (serve db calls)
serve-Later = serve-Relates Later-writes

held_lease :
    (run owner : String) (token : ℕ) (o : Option Lease)
    → holds_lease run owner token o ≡ true
    → (l : Lease) × (o ≡ some l) × (l.fencing_token ≡ token)
held_lease run owner token none h = cc
held_lease run owner token (some l) h = (l, refl, ground arith)

passed :
    (run owner : String) (token : ℕ) (db : Db) {a : Unit {0}} {t : Db}
    → assert_run_lease run (some owner) (some token) db ≡ (ok a, t)
    → holds_lease run owner token db.lease ≡ true
unfolding assert_run_lease
passed run owner token db h = ground arith

-- A claim that passes names the lease that is held.
assert_ok :
    (run : String) (owner : Option String) (given : Option ℕ) (token : ℕ) (db : Db) {a : Unit {0}}
    {t : Db}
    → given ≡ some token
    → assert_run_lease run owner given db ≡ (ok a, t)
    → (l : Lease) × (db.lease ≡ some l) × (l.fencing_token ≡ token)
unfolding assert_run_lease
assert_ok run none none token db e h = cc
assert_ok run (some owner) none token db e h = cc
assert_ok run none (some x) token db e h = ground arith
assert_ok run (some owner) (some x) token db e h =
    let (l, held, at) = held_lease run owner x db.lease (passed run owner x db h) in
    (l, held, ground arith)

append_lease :
    (c : Context) (e : Event) (token : ℕ) (db : Db) {s : SessionEvent} {t : Db}
    → e.fencing_token ≡ some token
    → append c e db ≡ (ok s, t)
    → (l : Lease) × (db.lease ≡ some l) × (l.fencing_token ≡ token)
unfolding append
append_lease c e token db given h = after_lift _ _ db h λ v _ h1.
    after_bind _ _ db (rethrow_ok as_journal_error _ db (connect_ok _ db h1))
      λ u w p _. assert_ok e.run_id e.lease_owner_id e.fencing_token token db given p

issued :
    {c : Context} {run owner : String} {pid : ℤ} {token : ℕ} {s t : Db} (l : Lease)
    → Granted c run owner pid token s t
    → l.fencing_token ≡ token
    → l.fencing_token < counter t.next_token
issued l g at = rw g.is_past (omega arith)

-- An `append` with the token of a begun run returns, whatever calls came in between, only while the
-- very lease that `begin_run` took is still held: same run, owner, process id and time.
pub append-begin_run :
    (c c' : Context) (run owner : String) (pid : ℤ) (surface : Option Fields) (db db' t : Db)
    (r : BeginRunResult) (calls : List (Context × Request)) (e : Event) (s : SessionEvent)
    → begin_run c run owner pid surface db ≡ (ok r, db')
    → e.fencing_token ≡ some r.fencing_token
    → append c' e (serve db' calls) ≡ (ok s, t)
    → (start : String) × ((serve db' calls).lease
        ≡ some (lease_of c run owner pid start r.fencing_token))
append-begin_run c c' run owner pid surface db db' t r calls e s begun given written =
    let g = begin_run-Granted c run owner pid surface db begun in
    let (l, held, at) = append_lease c' e r.fencing_token (serve db' calls) given written in
    let kept = (serve-Later db' calls).old_lease l held (issued l g at) in
    (g.start, held ∙ sym kept ∙ g.taken)

-- Of two runs that were begun, with any calls in between, the later has the greater token.
pub token_rises :
    (c c' : Context) (run owner run' owner' : String) (pid pid' : ℤ)
    (surface surface' : Option Fields) (db db' t : Db) (r r' : BeginRunResult)
    (calls : List (Context × Request))
    → begin_run c run owner pid surface db ≡ (ok r, db')
    → begin_run c' run' owner' pid' surface' (serve db' calls) ≡ (ok r', t)
    → r.fencing_token < r'.fencing_token
token_rises c c' run owner run' owner' pid pid' surface surface' db db' t r r' calls h k =
    let g = begin_run-Granted c run owner pid surface db h in
    let g' = begin_run-Granted c' run' owner' pid' surface' (serve db' calls) k in
    let up = (serve-Later db' calls).rises in ground (arith, up, g.is_past, g'.was_next)
