-- ===== src/Journal/Valid.antt =====
-- The invariant of the database, kept by every call.
use poor_travel_agent.Base.{
  String, ℕ, suc, sym, ap, subst, ◌+◌, ◌≤◌, ◌<◌, ◌≡◌, refl, List, [], ◌∷◌, ◌++◌, Option, none, some,
  Bool, false, ◌&&◌, inl, inr, Bool-cases, count, count-append, count_of_any, eq_iff, ◌==◌, arith,
}
use poor_travel_agent.Base.Json.{ℤ}
use poor_travel_agent.Base.Effect.{IsPreorder}
use poor_travel_agent.Journal.Rows.{Row, Lease, Db, Context, created}
use poor_travel_agent.Journal.Input.{Values}
use poor_travel_agent.Journal.Lease.{is_terminal_of, has_terminal}
use poor_travel_agent.Journal.Writes.{
  conflicts, has_event_id, new_row, insert, without_lease_of, delete_lease_of,
}
use poor_travel_agent.Journal.Runs.{grant}
use poor_travel_agent.Journal.Recovery.{delete_lease}
use poor_travel_agent.Journal.Cases.{inserted, insert_cases, grant_cases}
use poor_travel_agent.Journal.Requests.{Request, serve, Writes, serve-Relates}

-- sequences rise from above `low` to `high`
abbrev pub Increasing : ℕ → List Row → ℕ → Type 0
Increasing low [] high = low ≤ high
Increasing low (row ∷ rows) high = (low < row.sequence) × Increasing row.sequence rows high

-- the token of the lease was given out
abbrev pub IsGivenOut : Option Lease → Option ℕ → Type 0
IsGivenOut (some l) (some next) = l.fencing_token < next
IsGivenOut _ _ = Unit

abbrev pub has_id : String → Row → Bool
has_id id row = row.event_id == id

pub record IsValid (db : Db) : Type 0 where
  pub ordered : Increasing 0 db.events db.last_sequence
  pub one_terminal : (run : String) → count (is_terminal_of run) db.events ≤ 1
  pub distinct_ids : (id : String) → count (has_id id) db.events ≤ 1
  pub given_out : IsGivenOut db.lease db.next_token

Increasing-snoc :
    (low : ℕ) (rows : List Row) (row : Row) (high : ℕ)
    → Increasing low rows high
    → row.sequence ≡ suc high
    → Increasing low (rows ++ row ∷ []) (suc high)
Increasing-snoc low [] row high h e = omega arith
Increasing-snoc low (x ∷ rows) row high h e = (h.0, Increasing-snoc x.sequence rows row high h.1 e)

terminals-snoc :
    (run : String) (rows : List Row) (row : Row)
    → (row.kind == "terminal" && has_terminal row.run_id rows) ≡ false
    → count (is_terminal_of run) rows ≤ 1
    → count (is_terminal_of run) (rows ++ row ∷ []) ≤ 1
unfolding is_terminal_of has_terminal
terminals-snoc run rows row h k = ground (
  arith,
  count-append (is_terminal_of run) rows (row ∷ []),
  count_of_any (is_terminal_of row.run_id) rows,
  eq_iff row.run_id run,
)

ids-snoc :
    (id : String) (rows : List Row) (row : Row)
    → has_event_id row.event_id rows ≡ false
    → count (has_id id) rows ≤ 1
    → count (has_id id) (rows ++ row ∷ []) ≤ 1
ids-snoc id rows row h k = ground (
  arith,
  count-append (has_id id) rows (row ∷ []),
  count_of_any (has_id row.event_id) rows,
  eq_iff row.event_id id,
)

-- the second database is valid if the first is
pub record Keeps (s t : Db) : Type 0 where
  pub keeps : IsValid s → IsValid t

Keeps-preorder : IsPreorder Keeps
Keeps-preorder = record {
  same = λ s. record { keeps = λ h. h };
  after = λ s t u h k. record { keeps = λ x. k.keeps (h.keeps x) };
}

Keeps-equal : (s t : Db) → t ≡ s → Keeps s t
Keeps-equal s t e = record { keeps = λ h. subst IsValid (sym e) h }

inserted-IsValid :
    (c : Context) (v : Values) (db : Db)
    → conflicts v db.events ≡ false
    → IsValid db
    → IsValid (inserted c v db)
inserted-IsValid c v db free h = record {
  ordered = Increasing-snoc 0 db.events row db.last_sequence h.ordered refl;
  one_terminal =
      λ run. terminals-snoc run db.events row (ground (arith, free)) (h.one_terminal run);
  distinct_ids = λ id. ids-snoc id db.events row (ground (arith, free)) (h.distinct_ids id);
  given_out = h.given_out;
}
  where
    row : Row
    row = new_row c (suc db.last_sequence) v

insert-Keeps : (c : Context) (v : Values) (db : Db) → Keeps db (insert c v db).1
insert-Keeps c v db = elim (insert_cases c v db) [
  | inl kept ↦ Keeps-equal db _ kept
  | inr (free, added) ↦ record {
    keeps = λ h. subst IsValid (sym (ap (λ x. x.1) added)) (inserted-IsValid c v db free h);
  }
]

-- The lease of a valid database is still given out when the counter moves on.
IsGivenOut-later : (l : Option Lease) (t : ℕ) → IsGivenOut l (some t) → IsGivenOut l (some (t + 1))
IsGivenOut-later none t h = tt
IsGivenOut-later (some l) t h = omega arith

grant-Keeps :
    (c : Context) (run owner : String) (pid : ℤ) (start : String) (db : Db)
    → Keeps db (grant c run owner pid start db).1
grant-Keeps c run owner pid start db = elim (grant_cases c run owner pid start db) [
  | inl kept ↦ Keeps-equal db _ kept
  | inr (inl (t, next, moved)) ↦ record {
    keeps = λ h. subst IsValid (sym moved) (record {
      ordered = h.ordered;
      one_terminal = h.one_terminal;
      distinct_ids = h.distinct_ids;
      given_out = IsGivenOut-later db.lease t (subst (IsGivenOut db.lease) next h.given_out);
    });
  }
  | inr (inr (t, next, done)) ↦ record {
    keeps = λ h. subst IsValid (sym (ap (λ x. x.1) done)) (record {
      ordered = h.ordered;
      one_terminal = h.one_terminal;
      distinct_ids = h.distinct_ids;
      given_out = omega arith;
    });
  }
]

IsGivenOut-without :
    (run : String) (l : Option Lease) (n : Option ℕ)
    → IsGivenOut l n
    → IsGivenOut (without_lease_of run l) n
IsGivenOut-without run none n h = h
IsGivenOut-without run (some l) none h = ground arith
IsGivenOut-without run (some l) (some n) h = elim (Bool-cases (l.run_id == run)) [
  | inl same ↦ rw same tt
  | inr other ↦ rw other h
]

release-Keeps : (run : String) (db : Db) → Keeps db (delete_lease_of run db).1
unfolding delete_lease_of
release-Keeps run db = record {
  keeps = λ h. record {
    ordered = h.ordered;
    one_terminal = h.one_terminal;
    distinct_ids = h.distinct_ids;
    given_out = IsGivenOut-without run db.lease db.next_token h.given_out;
  };
}

delete-Keeps : (db : Db) → Keeps db (delete_lease db).1
unfolding delete_lease
delete-Keeps db = record {
  keeps = λ h. record {
    ordered = h.ordered;
    one_terminal = h.one_terminal;
    distinct_ids = h.distinct_ids;
    given_out = tt;
  };
}

Keeps-writes : Writes Keeps
Keeps-writes = record {
  preorder = Keeps-preorder;
  inserts = λ c v. record { at = insert-Keeps c v };
  grants = λ c run owner pid start. record { at = grant-Keeps c run owner pid start };
  releases = λ run. record { at = release-Keeps run };
  deletes = record { at = delete-Keeps };
}

-- Every sequence of calls keeps a valid database valid: the sequences of its events rise and none
-- passes the counter, no event id is stored twice, no run has two terminal events, and the token of
-- the lease is below the next one.
pub serve-IsValid :
    (db : Db) (calls : List (Context × Request)) → IsValid db → IsValid (serve db calls)
serve-IsValid db calls = (serve-Relates Keeps-writes db calls).keeps

pub created-IsValid : IsValid created
created-IsValid = record {
  ordered = omega arith;
  one_terminal = λ run. omega arith;
  distinct_ids = λ id. omega arith;
  given_out = tt;
}
