-- ===== src/Journal/Granted.antt =====
-- What a successful call that takes the lease found, and what it left.
use poor_travel_agent.Base.{
  String, ℕ, ◌+◌, ◌≡◌, sym, ap, subst, ◌∙◌, false, Option, none, some, arith,
}
use poor_travel_agent.Base.Json.{ℤ, Fields}
use poor_travel_agent.Base.Effect.{ok, pure, ◌>>=◌}
use poor_travel_agent.Base.Effect.Inverse.{after_bind, after_lift, transaction_ok, rethrow_ok}
use poor_travel_agent.Journal.Rows.{Error, Db, Context, Journal}
use poor_travel_agent.Journal.Input.{Values, validate_identifier}
use poor_travel_agent.Journal.Lease.{has_terminal, allocate_fencing_token, insert_lease}
use poor_travel_agent.Journal.Writes.{translate, connect_immediate, insert}
use poor_travel_agent.Journal.Runs.{
  require_no_lease, require_not_terminal, require_history, lease_of, grant, conflict_with,
  conflict_on_integrity, BeginRunResult, begin_body, resume_body, begin_run, resume_run,
}
use poor_travel_agent.Journal.Cases.{granted, insert_cases}

pub connect_ok :
    {A : Type 0} (m : Journal A) (db : Db) {a : A} {t : Db}
    → connect_immediate m db ≡ (ok a, t)
    → m db ≡ (ok a, t)
unfolding connect_immediate
connect_ok m db h = transaction_ok m db (rethrow_ok translate _ db h)

conflict_ok :
    {A : Type 0} (m : Journal A) (db : Db) {a : A} {t : Db}
    → conflict_on_integrity m db ≡ (ok a, t)
    → m db ≡ (ok a, t)
unfolding conflict_on_integrity
conflict_ok m db h = rethrow_ok (conflict_with db.lease) m db h

validated : (s : String) {t : String} → validate_identifier s ≡ ok t → t ≡ s
unfolding validate_identifier
validated s h = ground arith

no_lease_ok :
    (db : Db) {a : Unit {0}} {t : Db}
    → require_no_lease db ≡ (ok a, t)
    → (db.lease ≡ none) × (t ≡ db)
unfolding require_no_lease
no_lease_ok db h = ground arith

not_terminal_ok :
    (run : String) (db : Db) {a : Unit {0}} {t : Db}
    → require_not_terminal run db ≡ (ok a, t)
    → (has_terminal run db.events ≡ false) × (t ≡ db)
unfolding require_not_terminal
not_terminal_ok run db h = ground arith

history_ok :
    (run : String) (db : Db) {a : Unit {0}} {t : Db} → require_history run db ≡ (ok a, t) → t ≡ db
unfolding require_history
history_ok run db h = ground arith

pure_ok :
    {A : Type 0} (a : A) (db : Db) {b : A} {t : Db}
    → pure {E = Error} a db ≡ (ok b, t)
    → (a ≡ b) × (t ≡ db)
unfolding pure
pure_ok a db h = ground arith

grant_ok :
    (c : Context) (run owner : String) (pid : ℤ) (start : String) (db : Db) {token : ℕ} {t : Db}
    → grant c run owner pid start db ≡ (ok token, t)
    → (db.lease ≡ none)
      × (db.next_token ≡ some token)
      × (t ≡ granted c run owner pid start token db)
unfolding grant allocate_fencing_token insert_lease ◌>>=◌
grant_ok c run owner pid start db h = ground arith

-- The second database has the lease that a successful call has just taken, with the token that the
-- first was to give out next.
pub record Granted (c : Context) (run owner : String) (pid : ℤ) (token : ℕ) (s t : Db)
    : Type 0 where
  pub free : s.lease ≡ none
  pub not_ended : has_terminal run s.events ≡ false
  pub was_next : s.next_token ≡ some token
  pub is_past : t.next_token ≡ some (token + 1)
  pub start : String
  pub taken : t.lease ≡ some (lease_of c run owner pid start token)

pub insert_leaves :
    (c : Context) (v : Values) (s : Db)
    → ((insert c v s).1.next_token ≡ s.next_token) × ((insert c v s).1.lease ≡ s.lease)
insert_leaves c v s = ground (arith, insert_cases c v s)

-- The facts of a grant, at the run and the owner that were checked.
granted_lem :
    (c : Context) (run owner : String) (pid : ℤ) (start : String) (token : ℕ) (s t : Db)
    → has_terminal run s.events ≡ false
    → (s.lease ≡ none) × (s.next_token ≡ some token) × (t ≡ granted c run owner pid start token s)
    → Granted c run owner pid token s t
granted_lem c run owner pid start token s t ended (free, next, e) = record {
  free = free;
  not_ended = ended;
  was_next = next;
  is_past = ap (λ d. d.next_token) e;
  start = start;
  taken = ap (λ d. d.lease) e;
}

-- an insert afterwards keeps them
then_insert :
    {c : Context} {run owner : String} {pid : ℤ} {token : ℕ} {s u t : Db} (v : Values)
    → Granted c run owner pid token s u
    → t ≡ (insert c v u).1
    → Granted c run owner pid token s t
then_insert {c} {u} v g e = record {
  free = g.free;
  not_ended = g.not_ended;
  was_next = g.was_next;
  is_past = ap (λ d. d.next_token) e ∙ (insert_leaves c v u).0 ∙ g.is_past;
  start = g.start;
  taken = ap (λ d. d.lease) e ∙ (insert_leaves c v u).1 ∙ g.taken;
}

at_names :
    {c : Context} {run owner run' owner' : String} {pid : ℤ} {token : ℕ} {s t : Db}
    → validate_identifier run ≡ ok run'
    → validate_identifier owner ≡ ok owner'
    → Granted c run' owner' pid token s t
    → Granted c run owner pid token s t
at_names {c} {run} {owner} {run'} {pid} {token} {s} {t} p q g =
    subst (λ r. Granted c r owner pid token s t) (validated run p)
      (subst (λ o. Granted c run' o pid token s t) (validated owner q) g)

-- What the two guards of a transaction say when it goes on.
after_no_lease :
    {A : Type 0} (k : Unit {0} → Journal A) (s : Db) {a : A} {t : Db} {P : Type 0}
    → (require_no_lease >>= k) s ≡ (ok a, t)
    → (k tt s ≡ (ok a, t) → P)
    → P
after_no_lease k s {a} {t} h rest =
    after_bind _ _ s h λ u v e h1. rest (subst (λ d. k tt d ≡ (ok a, t)) (no_lease_ok s e).1 h1)

after_guard :
    {A : Type 0} (run : String) (k : Unit {0} → Journal A) (s : Db) {a : A} {t : Db} {P : Type 0}
    → (require_not_terminal run >>= k) s ≡ (ok a, t)
    → (has_terminal run s.events ≡ false → k tt s ≡ (ok a, t) → P)
    → P
after_guard run k s {a} {t} h rest = after_bind _ _ s h λ u v e h1.
    let (ended, same) = not_terminal_ok run s e in
    rest ended (subst (λ d. k tt d ≡ (ok a, t)) same h1)

after_history :
    {A : Type 0} (run : String) (k : Unit {0} → Journal A) (s : Db) {a : A} {t : Db} {P : Type 0}
    → (require_history run >>= k) s ≡ (ok a, t)
    → (k tt s ≡ (ok a, t) → P)
    → P
after_history run k s {a} {t} h rest =
    after_bind _ _ s h λ u v e h1. rest (subst (λ d. k tt d ≡ (ok a, t)) (history_ok run s e) h1)

begin_body-Granted :
    (c : Context) (run owner : String) (pid : ℤ) (start : String) (v : Values) (s : Db)
    {r : BeginRunResult} {t : Db}
    → begin_body c run owner pid start v s ≡ (ok r, t)
    → Granted c run owner pid r.fencing_token s t
begin_body-Granted c run owner pid start v s {r} {t} h = after_no_lease _ s h λ h1.
    after_guard run _ s h1 λ ended h2. after_bind _ _ s h2 λ token u e h3.
      after_bind _ _ u h3 λ stored w e' h4.
        let (result, same) = pure_ok _ w h4 in
        subst (λ x. Granted c run owner pid x s t)
          (ap (λ (x : BeginRunResult). x.fencing_token) result)
          (then_insert v
            (granted_lem c run owner pid start token s u ended (grant_ok c run owner pid start s e))
            (same ∙ sym (ap (λ x. x.1) e')))

-- A successful `begin_run` took a free lease, for a run with no terminal event.
pub begin_run-Granted :
    (c : Context) (run owner : String) (pid : ℤ) (surface : Option Fields) (db : Db)
    {r : BeginRunResult} {t : Db}
    → begin_run c run owner pid surface db ≡ (ok r, t)
    → Granted c run owner pid r.fencing_token db t
unfolding begin_run
begin_run-Granted c run owner pid surface db {r} {t} h = after_lift _ _ db h λ run' e1 h1.
    after_lift _ _ db h1 λ owner' e2 h2. after_lift _ _ db h2 λ start e3 h3.
      after_lift _ _ db h3 λ values e4 h4.
        at_names e1 e2 (begin_body-Granted c run' owner' pid start values db (connect_ok _ db h4))

resume_body-Granted :
    (c : Context) (run owner : String) (pid : ℤ) (start : String) (s : Db) {token : ℕ} {t : Db}
    → resume_body c run owner pid start s ≡ (ok token, t)
    → Granted c run owner pid token s t
resume_body-Granted c run owner pid start s {token} {t} h = after_no_lease _ s h λ h1.
    after_history run _ s h1 λ h2. after_guard run _ s h2 λ ended h3.
      granted_lem c run owner pid start token s t ended (grant_ok c run owner pid start s h3)

-- So did a successful `resume_run`.
pub resume_run-Granted :
    (c : Context) (run owner : String) (pid : ℤ) (db : Db) {token : ℕ} {t : Db}
    → resume_run c run owner pid db ≡ (ok token, t)
    → Granted c run owner pid token db t
unfolding resume_run
resume_run-Granted c run owner pid db {token} {t} h = after_lift _ _ db h λ run' e1 h1.
    after_lift _ _ db h1 λ owner' e2 h2. after_lift _ _ db h2 λ start e3 h3.
      at_names e1 e2
        (resume_body-Granted c run' owner' pid start db (conflict_ok _ db (connect_ok _ db h3)))
