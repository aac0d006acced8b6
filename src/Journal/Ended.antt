-- ===== src/Journal/Ended.antt =====
-- Runs that have ended: the first terminal event of a run stays, and the run does not start again.
use poor_travel_agent.Base.{
  String, ℕ, suc, eq_iff, ◌≡◌, ◌≢◌, refl, sym, ap, subst, ◌∙◌, Bool, true, false, not, List, [],
  ◌∷◌, ◌++◌, Option, none, some, any, find?, arith,
}
use poor_travel_agent.Base.Json.{ℤ, Fields}
use poor_travel_agent.Base.Effect.{ok, pure, ◌>>=◌, ◌>>◌}
use poor_travel_agent.Base.Effect.Inverse.{after_bind, after_lift, lift_ok, unless_ok}
use poor_travel_agent.Journal.Rows.{value_error, Row, Lease, Db, Context, SessionEvent}
use poor_travel_agent.Journal.Input.{
  Values, is_one_of, terminal_statuses, event_from_row, validated_event_input_ok,
  event_from_row_unique,
}
use poor_travel_agent.Journal.Lease.{is_terminal_of, has_terminal, holds_run, assert_run_lease}
use poor_travel_agent.Journal.Writes.{
  Event, insert, new_row, or_insert, terminal_in_transaction, append_terminal_once,
  terminal_once_checked, terminal_and_release_checked, append_terminal_and_release, delete_lease_of,
  without_lease_of,
}
use poor_travel_agent.Journal.Runs.{BeginRunResult, begin_run, resume_run}
use poor_travel_agent.Journal.Requests.{Request, serve, assert_run_lease_unchanged}
use poor_travel_agent.Journal.Cases.{insert_ok}
use poor_travel_agent.Journal.History.{serve-Extends}
use poor_travel_agent.Journal.Granted.{connect_ok, begin_run-Granted, resume_run-Granted}

-- the first terminal event of a run
abbrev pub terminal_of : String → Db → Option Row
terminal_of run db = find? (is_terminal_of run) db.events

find?-append :
    (p : Row → Bool) (xs ys : List Row) (row : Row)
    → find? p xs ≡ some row
    → find? p (xs ++ ys) ≡ some row
find?-append p [] ys row h = cc
find?-append p (x ∷ xs) ys row h = ground (arith, find?-append p xs ys row)

find?-snoc :
    (p : Row → Bool) (xs : List Row) (row : Row)
    → find? p xs ≡ none
    → p row ≡ true
    → find? p (xs ++ row ∷ []) ≡ some row
find?-snoc p [] row h k = ground arith
find?-snoc p (x ∷ xs) row h k = ground (arith, find?-snoc p xs row)

any_of_find? :
    (p : Row → Bool) (xs : List Row) (row : Row) → find? p xs ≡ some row → any p xs ≡ true
any_of_find? p [] row h = cc
any_of_find? p (x ∷ xs) row h = ground (arith, any_of_find? p xs row)

-- The first terminal event of a run is the same after any further calls.
pub terminal_of-serve :
    (run : String) (db : Db) (calls : List (Context × Request)) (row : Row)
    → terminal_of run db ≡ some row
    → terminal_of run (serve db calls) ≡ some row
terminal_of-serve run db calls row h =
    let e = serve-Extends db calls in
    subst (λ rows. find? (is_terminal_of run) rows ≡ some row) (sym e.appended)
      (find?-append (is_terminal_of run) db.events e.added row h)

insert_terminal :
    (c : Context) (v : Values) (s : Db) {stored : SessionEvent} {t : Db}
    → v.kind ≡ "terminal"
    → terminal_of v.run_id s ≡ none
    → insert c v s ≡ (ok stored, t)
    → (row : Row) × (terminal_of v.run_id t ≡ some row) × (event_from_row c row ≡ ok stored)
unfolding is_terminal_of
insert_terminal c v s k e h =
    let (read, same) = insert_ok c v s h in
    let row = new_row c (suc s.last_sequence) v in
    (
      row,
      ap (terminal_of v.run_id) same
          ∙ find?-snoc (is_terminal_of v.run_id) s.events row e
              (ground (arith, eq_iff v.run_id v.run_id, eq_iff v.kind "terminal")),
      read,
    )

-- What `_terminal_in_transaction` returns is the event of the first terminal row afterwards, and it
-- changes nothing if there was one before.
pub record Stored (c : Context) (run : String) (stored : SessionEvent) (s t : Db) : Type 0 where
  pub row : Row
  pub first : terminal_of run t ≡ some row
  pub read : event_from_row c row ≡ ok stored
  pub kept : (old : Row) → terminal_of run s ≡ some old → t ≡ s

or_insert-Stored :
    (c : Context) (v : Values) (s : Db) (o : Option Row) {stored : SessionEvent} {t : Db}
    → v.kind ≡ "terminal"
    → terminal_of v.run_id s ≡ o
    → or_insert c v o s ≡ (ok stored, t)
    → Stored c v.run_id stored s t
or_insert-Stored c v s none k e h =
    let (row, first, read) = insert_terminal c v s k e h in
    record { row = row; first = first; read = read; kept = λ old f. cc }
or_insert-Stored c v s (some row) k e h =
    let (read, same) = lift_ok _ s h in
    record {
      row = row;
      first = ap (terminal_of v.run_id) same ∙ e;
      read = read;
      kept = λ old f. same;
    }

terminal-Stored :
    (c : Context) (v : Values) (s : Db) {stored : SessionEvent} {t : Db}
    → v.kind ≡ "terminal"
    → terminal_in_transaction c v s ≡ (ok stored, t)
    → Stored c v.run_id stored s t
unfolding terminal_in_transaction
terminal-Stored c v s k h = or_insert-Stored c v s (terminal_of v.run_id s) k refl h

asserted :
    (run : String) (owner : Option String) (token : Option ℕ) (db : Db) {a : Unit {0}} {t : Db}
    → assert_run_lease run owner token db ≡ (ok a, t)
    → t ≡ db
asserted run owner token db h =
    sym (ap (λ x. x.1) h) ∙ assert_run_lease_unchanged run owner token db

pub append_terminal_once-Stored :
    (c : Context) (e : Event) (db : Db) {s : SessionEvent} {t : Db}
    → append_terminal_once c e db ≡ (ok s, t)
    → Stored c e.run_id s db t
unfolding append_terminal_once
append_terminal_once-Stored c e db {s} {t} h =
    after_lift _ _ db
      (unless_ok (not (is_one_of terminal_statuses e.status)) value_error
        (terminal_once_checked c e) db h)
      λ v p h1.
        let (run, kind, _) = validated_event_input_ok c _ _ _ _ _ _ v p in
        after_bind _ _ db (connect_ok _ db h1) λ _ u a h2.
          subst (λ d. Stored c e.run_id s d t) (asserted _ _ _ db a)
            (subst (λ r. Stored c r s u t) run (terminal-Stored c v u kind h2))

released :
    (run : String) (stored : SessionEvent) (w : Db) {s : SessionEvent} {t : Db}
    → (delete_lease_of run >> pure stored) w ≡ (ok s, t)
    → (stored ≡ s) × (t ≡ record w { lease = without_lease_of run w.lease })
unfolding delete_lease_of ◌>>=◌
released run stored w h = ground arith

not-held : (run : String) (l : Option Lease) → holds_run run (without_lease_of run l) ≡ false
not-held run none = refl
not-held run (some l) = ground arith

pub append_terminal_and_release-Stored :
    (c : Context) (e : Event) (db : Db) {s : SessionEvent} {t : Db}
    → append_terminal_and_release c e db ≡ (ok s, t)
    → (u : Db) × Stored c e.run_id s db u
      × (t ≡ record u { lease = without_lease_of e.run_id u.lease })
unfolding append_terminal_and_release
append_terminal_and_release-Stored c e db {s} {t} h =
    after_lift _ _ db
      (unless_ok (not (is_one_of terminal_statuses e.status)) value_error
        (terminal_and_release_checked c e) db h)
      λ v p h1.
        let (run, kind, _) = validated_event_input_ok c _ _ _ _ _ _ v p in
        after_bind _ _ db (connect_ok _ db h1) λ _ u a h2. after_bind _ _ u h2 λ stored w q h3.
          let (same, left) = released e.run_id stored w h3 in
          (
            w,
            subst (λ d. Stored c e.run_id s d w) (asserted _ _ _ db a)
                (subst (λ r. Stored c r s u w) run
                  (subst (λ x. Stored c v.run_id x u w) same (terminal-Stored c v u kind q))),
            left,
          )

has_terminal_of_first :
    (run : String) (db : Db) (row : Row)
    → terminal_of run db ≡ some row
    → has_terminal run db.events ≡ true
unfolding has_terminal
has_terminal_of_first run db row h = any_of_find? (is_terminal_of run) db.events row h

same_row : {o : Option Row} {a b : Row} → o ≡ some a → o ≡ some b → a ≡ b
same_row p q = cc

-- Two calls that stored a terminal event, the second where the first one's row still stands.
agree :
    {c c' : Context} {run : String} {s s' : SessionEvent} {db db' u t : Db}
    (p : Stored c run s db db') (q : Stored c' run s' u t)
    → terminal_of run u ≡ some p.row
    → (s' ≡ s) × (t ≡ u)
agree {c} {c'} {run} {s} {t} p q still =
    let kept = q.kept p.row still in
    let one = same_row (ap (terminal_of run) kept ∙ still) q.first in
    (
      event_from_row_unique c c' q.row (subst (λ row. event_from_row c row ≡ ok s) one p.read)
          q.read,
      kept,
    )

-- The first terminal event of a run wins: once `append_terminal_once` has returned an event, every
-- later call for the same run that returns, whatever status and payload it brings and whatever calls
-- came in between, returns that same event and changes nothing.
pub first_terminal_wins :
    (c c' : Context) (e e' : Event) (db db' t : Db) (s s' : SessionEvent)
    (calls : List (Context × Request))
    → append_terminal_once c e db ≡ (ok s, db')
    → e'.run_id ≡ e.run_id
    → append_terminal_once c' e' (serve db' calls) ≡ (ok s', t)
    → (s' ≡ s) × (t ≡ serve db' calls)
first_terminal_wins c c' e e' db db' t s s' calls h same h' =
    let p = append_terminal_once-Stored c e db h in
    let q = append_terminal_once-Stored c' e' (serve db' calls) h' in
    agree p (subst (λ run. Stored c' run s' (serve db' calls) t) same q)
      (terminal_of-serve e.run_id db' calls p.row p.first)

-- `append_terminal_and_release` ends a run for good: its lease is gone at once, and after any
-- further calls neither `begin_run` nor `resume_run` takes the run up again.
pub ended_run_stays_ended :
    (c c' : Context) (e : Event) (db db' : Db) (s : SessionEvent) (calls : List (Context × Request))
    (owner : String) (pid : ℤ) (surface : Option Fields) (r : BeginRunResult) (token : ℕ)
    (t t' : Db)
    → append_terminal_and_release c e db ≡ (ok s, db')
    → (holds_run e.run_id db'.lease ≡ false)
      × (begin_run c' e.run_id owner pid surface (serve db' calls) ≢ (ok r, t))
      × (resume_run c' e.run_id owner pid (serve db' calls) ≢ (ok token, t'))
ended_run_stays_ended c c' e db db' s calls owner pid surface r token t t' h =
    let (u, p, left) = append_terminal_and_release-Stored c e db h in
    let first : terminal_of e.run_id db' ≡ some p.row = ap (terminal_of e.run_id) left ∙ p.first in
    let ended =
      has_terminal_of_first e.run_id (serve db' calls) p.row
        (terminal_of-serve e.run_id db' calls p.row first) in
    (
      rw left (not-held e.run_id u.lease),
      λ k.
          cc (
            ended,
            (begin_run-Granted c' e.run_id owner pid surface (serve db' calls) k).not_ended,
          ),
      λ k. cc (ended, (resume_run-Granted c' e.run_id owner pid (serve db' calls) k).not_ended),
    )
