-- ===== src/Journal/Requests.antt =====
-- Every call that may write, as data, and the journal over a sequence of calls. A relation that the
-- primitive statements respect holds across every call.
use poor_travel_agent.Base.{ℕ, String, ◌≡◌, refl, List, [], ◌∷◌, Option, none, some, find?, arith}
use poor_travel_agent.Base.Json.{ℤ, Fields}
use poor_travel_agent.Base.Effect.{
  ◌>>=◌, Relates, IsPreorder, Relates-pure, Relates-raise, Relates-lift, Relates-gets, Relates-if,
  Relates-transaction, Relates-rethrow, Relates-bind, Relates-unchanged,
}
use poor_travel_agent.Journal.Rows.{Row, Db, Context, Journal, Lease}
use poor_travel_agent.Journal.Input.{Values}
use poor_travel_agent.Journal.Lease.{assert_run_lease, is_terminal_of}
use poor_travel_agent.Journal.Writes.{
  Event, translate, connect_immediate, or_insert, insert, terminal_in_transaction, append,
  append_terminal_once, delete_lease_of, append_terminal_and_release,
}
use poor_travel_agent.Journal.Runs.{
  require_no_lease, require_not_terminal, require_history, grant, conflict_with,
  conflict_on_integrity, acquire_run_lease, begin_run, resume_run, release_run_lease,
}
use poor_travel_agent.Journal.Recovery.{
  delete_lease, interrupt, interrupt_and_release, recover_dead_owner, recover_lease,
  recover_run_lease,
}

pub data Request : Type 0 where
  append_event terminal_once terminal_and_release : Event → Request
  acquire : String → String → ℤ → Request
  begin : String → String → ℤ → Option Fields → Request
  resume : String → String → ℤ → Request
  release : String → String → ℕ → Request
  recover : String → Request

-- the database after one call, whether it returns or raises
unfoldable pub step : Context → Request → Db → Db
step c (append_event e) db = (append c e db).1
step c (terminal_once e) db = (append_terminal_once c e db).1
step c (terminal_and_release e) db = (append_terminal_and_release c e db).1
step c (acquire run owner pid) db = (acquire_run_lease c run owner pid db).1
step c (begin run owner pid surface) db = (begin_run c run owner pid surface db).1
step c (resume run owner pid) db = (resume_run c run owner pid db).1
step c (release run owner token) db = (release_run_lease run owner token db).1
step c (recover owner) db = (recover_run_lease c owner db).1

unfoldable pub serve : Db → List (Context × Request) → Db
serve db [] = db
serve db ((c, r) ∷ rest) = serve (step c r db) rest

pub assert_run_lease_unchanged :
    (run : String) (owner : Option String) (token : Option ℕ) (db : Db)
    → (assert_run_lease run owner token db).1 ≡ db
unfolding assert_run_lease
assert_run_lease_unchanged run none none db = ground arith
assert_run_lease_unchanged run none (some t) db = refl
assert_run_lease_unchanged run (some o) none db = refl
assert_run_lease_unchanged run (some o) (some t) db = ground arith

require_no_lease_unchanged : (db : Db) → (require_no_lease db).1 ≡ db
unfolding require_no_lease
require_no_lease_unchanged db = ground arith

require_not_terminal_unchanged : (run : String) (db : Db) → (require_not_terminal run db).1 ≡ db
unfolding require_not_terminal
require_not_terminal_unchanged run db = ground arith

require_history_unchanged : (run : String) (db : Db) → (require_history run db).1 ≡ db
unfolding require_history
require_history_unchanged run db = ground arith

module _ {R : Db → Db → Type 0} (p : IsPreorder R) where
  assert_run_lease-Relates :
      (run : String) (owner : Option String) (token : Option ℕ)
      → Relates R (assert_run_lease run owner token)
  assert_run_lease-Relates run owner token =
      Relates-unchanged p _ (assert_run_lease_unchanged run owner token)

  after_no_lease-Relates :
      {B : Type 0} (f : Unit {0} → Journal B)
      → ((a : Unit {0}) → Relates R (f a))
      → Relates R (require_no_lease >>= f)
  after_no_lease-Relates f =
      Relates-bind p require_no_lease f (Relates-unchanged p _ require_no_lease_unchanged)

  require_not_terminal-Relates : (run : String) → Relates R (require_not_terminal run)
  require_not_terminal-Relates run = Relates-unchanged p _ (require_not_terminal_unchanged run)

  require_history-Relates : (run : String) → Relates R (require_history run)
  require_history-Relates run = Relates-unchanged p _ (require_history_unchanged run)

  connect-Relates : {A : Type 0} (m : Journal A) → Relates R m → Relates R (connect_immediate m)
  unfolding connect_immediate
  connect-Relates m k = Relates-rethrow p translate _ (Relates-transaction p m k)

  conflict-Relates :
      {A : Type 0} (m : Journal A) → Relates R m → Relates R (conflict_on_integrity m)
  unfolding conflict_on_integrity
  conflict-Relates m k = record {
    at = λ db. (Relates-rethrow p (conflict_with db.lease) m k).at db;
  }

-- The statements that write, and what each may do to the database.
pub record Writes (R : Db → Db → Type 0) : Type 0 where
  pub preorder : IsPreorder R
  pub inserts : (c : Context) (v : Values) → Relates R (insert c v)
  pub grants :
      (c : Context) (run owner : String) (pid : ℤ) (start : String)
      → Relates R (grant c run owner pid start)
  pub releases : (run : String) → Relates R (delete_lease_of run)
  pub deletes : Relates R delete_lease

module _ {R : Db → Db → Type 0} (w : Writes R) where
  open w use {preorder as p}

  after_delete-Relates :
      {B : Type 0} (f : Unit {0} → Journal B)
      → ((a : Unit {0}) → Relates R (f a))
      → Relates R (delete_lease >>= f)
  after_delete-Relates f = Relates-bind p delete_lease f w.deletes

  or_insert-Relates : (c : Context) (v : Values) (o : Option Row) → Relates R (or_insert c v o)
  or_insert-Relates c v none = w.inserts c v
  or_insert-Relates c v (some row) = Relates-lift p _

  terminal-Relates : (c : Context) (v : Values) → Relates R (terminal_in_transaction c v)
  unfolding terminal_in_transaction
  terminal-Relates c v = record {
    at = λ db. (or_insert-Relates c v (find? (is_terminal_of v.run_id) db.events)).at db;
  }

  append-Relates : (c : Context) (e : Event) → Relates R (append c e)
  unfolding append
  append-Relates c e = search (
    Relates-bind p,
    Relates-lift p,
    connect-Relates p,
    Relates-rethrow p,
    assert_run_lease-Relates p,
    w.inserts,
  )

  terminal_once-Relates : (c : Context) (e : Event) → Relates R (append_terminal_once c e)
  unfolding append_terminal_once
  terminal_once-Relates c e =
      search
        (
          Relates-if p,
          Relates-raise p,
          Relates-bind p,
          Relates-lift p,
          connect-Relates p,
          assert_run_lease-Relates p,
          terminal-Relates,
        )
        depth 8

  terminal_and_release-Relates :
      (c : Context) (e : Event) → Relates R (append_terminal_and_release c e)
  unfolding append_terminal_and_release
  terminal_and_release-Relates c e =
      search
        (
          Relates-if p,
          Relates-raise p,
          Relates-bind p,
          Relates-lift p,
          Relates-pure p,
          connect-Relates p,
          assert_run_lease-Relates p,
          terminal-Relates,
          w.releases,
        )
        depth 8

  acquire-Relates :
      (c : Context) (run owner : String) (pid : ℤ) → Relates R (acquire_run_lease c run owner pid)
  unfolding acquire_run_lease
  acquire-Relates c run owner pid =
      search
        (
          Relates-bind p,
          Relates-lift p,
          Relates-pure p,
          connect-Relates p,
          conflict-Relates p,
          require_not_terminal-Relates p,
          w.grants,
        )
        depth 9

  begin-Relates :
      (c : Context) (run owner : String) (pid : ℤ) (surface : Option Fields)
      → Relates R (begin_run c run owner pid surface)
  unfolding begin_run
  begin-Relates c run owner pid surface =
      search
        (
          Relates-bind p,
          Relates-lift p,
          Relates-pure p,
          connect-Relates p,
          after_no_lease-Relates p,
          require_not_terminal-Relates p,
          w.grants,
          w.inserts,
        )
        depth 10

  resume-Relates :
      (c : Context) (run owner : String) (pid : ℤ) → Relates R (resume_run c run owner pid)
  unfolding resume_run
  resume-Relates c run owner pid =
      search
        (
          Relates-bind p,
          Relates-lift p,
          connect-Relates p,
          conflict-Relates p,
          after_no_lease-Relates p,
          require_history-Relates p,
          require_not_terminal-Relates p,
          w.grants,
        )
        depth 9

  release-Relates : (run owner : String) (token : ℕ) → Relates R (release_run_lease run owner token)
  unfolding release_run_lease
  release-Relates run owner token =
      search
        (
          Relates-bind p,
          Relates-lift p,
          Relates-pure p,
          Relates-gets p,
          connect-Relates p,
          assert_run_lease-Relates p,
          w.releases,
        )
        depth 8

  interrupt-Relates : (c : Context) (run : String) (o : Option Row) → Relates R (interrupt c run o)
  interrupt-Relates c run none = search (Relates-bind p, Relates-lift p, Relates-pure p, w.inserts)
  interrupt-Relates c run (some row) = Relates-pure p none

  interrupt_and_release-Relates :
      (c : Context) (run : String) → Relates R (interrupt_and_release c run)
  unfolding interrupt_and_release
  interrupt_and_release-Relates c run =
      search
        (Relates-bind p, Relates-gets p, Relates-pure p, interrupt-Relates, after_delete-Relates)

  recover_dead-Relates : (c : Context) (run : String) → Relates R (recover_dead_owner c run)
  unfolding recover_dead_owner
  recover_dead-Relates c run =
      search
        (
          Relates-bind p,
          Relates-gets p,
          Relates-lift p,
          Relates-if p,
          Relates-pure p,
          after_delete-Relates,
          interrupt_and_release-Relates,
        )
        depth 7

  recover_lease-Relates : (c : Context) (o : Option Lease) → Relates R (recover_lease c o)
  unfolding recover_lease
  recover_lease-Relates c none = Relates-pure p none
  recover_lease-Relates c (some l) =
      search (Relates-bind p, Relates-lift p, Relates-if p, Relates-pure p, recover_dead-Relates)

  recover-Relates : (c : Context) (owner : String) → Relates R (recover_run_lease c owner)
  unfolding recover_run_lease
  recover-Relates c owner =
      search
        (Relates-bind p, Relates-lift p, Relates-gets p, connect-Relates p, recover_lease-Relates)
        depth 7

  pub step-Relates : (c : Context) (r : Request) (db : Db) → R db (step c r db)
  unfolding step
  step-Relates c (append_event e) db = (append-Relates c e).at db
  step-Relates c (terminal_once e) db = (terminal_once-Relates c e).at db
  step-Relates c (terminal_and_release e) db = (terminal_and_release-Relates c e).at db
  step-Relates c (acquire run owner pid) db = (acquire-Relates c run owner pid).at db
  step-Relates c (begin run owner pid surface) db = (begin-Relates c run owner pid surface).at db
  step-Relates c (resume run owner pid) db = (resume-Relates c run owner pid).at db
  step-Relates c (release run owner token) db = (release-Relates run owner token).at db
  step-Relates c (recover owner) db = (recover-Relates c owner).at db

  pub serve-Relates : (db : Db) (calls : List (Context × Request)) → R db (serve db calls)
  unfolding serve
  serve-Relates db [] = p.same db
  serve-Relates db ((c, r) ∷ rest) =
      p.after db (step c r db) (serve (step c r db) rest) (step-Relates c r db)
        (serve-Relates (step c r db) rest)
