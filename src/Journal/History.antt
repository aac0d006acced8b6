-- ===== src/Journal/History.antt =====
-- What the calls do to the events: they are only ever added to.
use poor_travel_agent.Base.{
  String, suc, ◌≡◌, refl, sym, ◌∙◌, ap, List, [], ◌∷◌, ◌++◌, inl, inr, append-nil, append_assoc,
  arith,
}
use poor_travel_agent.Base.Json.{ℤ}
use poor_travel_agent.Base.Effect.{IsPreorder}
use poor_travel_agent.Journal.Rows.{Row, Db, Context}
use poor_travel_agent.Journal.Input.{Values}
use poor_travel_agent.Journal.Writes.{new_row, insert, delete_lease_of}
use poor_travel_agent.Journal.Runs.{grant}
use poor_travel_agent.Journal.Recovery.{delete_lease}
use poor_travel_agent.Journal.Cases.{insert_cases, grant_cases}
use poor_travel_agent.Journal.Requests.{Request, serve, Writes, serve-Relates}

-- the second database has the events of the first, and perhaps some behind them
pub record Extends (s t : Db) : Type 0 where
  pub added : List Row
  pub appended : t.events ≡ s.events ++ added

Extends-same : (s t : Db) → t.events ≡ s.events → Extends s t
Extends-same s t e = record { added = []; appended = e ∙ sym (append-nil s.events) }

Extends-preorder : IsPreorder Extends
Extends-preorder = record {
  same = λ s. Extends-same s s refl;
  after = λ s t u h k. record {
    added = h.added ++ k.added;
    appended =
        k.appended ∙ (ap (λ l. l ++ k.added) h.appended ∙ append_assoc s.events h.added k.added);
  };
}

insert-Extends : (c : Context) (v : Values) (db : Db) → Extends db (insert c v db).1
insert-Extends c v db = elim (insert_cases c v db) [
  | inl kept ↦ Extends-same db _ (ap (λ d. d.events) kept)
  | inr (_, added) ↦ record {
    added = new_row c (suc db.last_sequence) v ∷ [];
    appended = ap (λ x. x.1.events) added;
  }
]

events-grant :
    (c : Context) (run owner : String) (pid : ℤ) (start : String) (db : Db)
    → (grant c run owner pid start db).1.events ≡ db.events
events-grant c run owner pid start db = ground (arith, grant_cases c run owner pid start db)

Extends-writes : Writes Extends
unfolding delete_lease_of delete_lease
Extends-writes = record {
  preorder = Extends-preorder;
  inserts = λ c v. record { at = insert-Extends c v };
  grants = λ c run owner pid start. record {
    at = λ db. Extends-same db _ (events-grant c run owner pid start db);
  };
  releases = λ run. record { at = λ db. Extends-same db _ refl };
  deletes = record { at = λ db. Extends-same db _ refl };
}

-- Whatever calls are made, raising or not, no event that is stored is changed or removed: the
-- events afterwards are those before, in the same order, followed by new ones.
pub serve-Extends : (db : Db) (calls : List (Context × Request)) → Extends db (serve db calls)
serve-Extends = serve-Relates Extends-writes
