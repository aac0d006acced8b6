-- ===== src/Loop/Gates.antt =====
-- The gates of a merge: what a pull request that is MERGED has gone through.
use poor_travel_agent.Base.{
  ℕ, String, ◌≡◌, refl, Bool, true, false, not, ◌&&◌, ◌||◌, List, [], ◌∷◌, all, any, Option, none,
  some, arith, eqb, ltb, ◌==◌, if◌then◌else◌,
}
use poor_travel_agent.Base.Effect.{Relates, IsPreorder}
use poor_travel_agent.Base.Dict.{lookup}
use poor_travel_agent.Loop.Tables.{Lease, Run, PullRequest, Db, Context}
use poor_travel_agent.Loop.Lease.{
  grant_lease, take_token, store_lease, delete_lease, delete_own_lease,
}
use poor_travel_agent.Loop.Runs.{
  is_sha, insert_run, update_base_sha, set_base_sha, finish_found, finish_run, register_outcome_row,
  store_enabled, store_cursor,
}
use poor_travel_agent.Loop.PullRequests.{
  Verdict, pass, request_changes, block, PullRequestReceipt, upsert, store_pull_request, draft,
  update_where, update_one, is_pass, reviewed, may_merge, merged,
}
use poor_travel_agent.Loop.Requests.{Request, serve, Writes, serve-Relates}

abbrev is_some_sha : Option String → Bool
is_some_sha none = false
is_some_sha (some s) = is_sha s

-- not merged; or of tier A, with a review that passed, and merged as a full Git SHA
unfoldable pub is_gated : PullRequest → Bool
is_gated p =
    not (p.state == "MERGED")
    || p.tier == "A" && is_pass p.review_verdict && is_some_sha p.merged_sha

unfoldable pub all_gated : Db → Bool
all_gated db = all is_gated db.pull_requests

-- What keeps the rows gated.
record Keeps (s t : Db) : Type 0 where
  gated : all_gated s ≡ true → all_gated t ≡ true

Keeps-preorder : IsPreorder Keeps
Keeps-preorder = record {
  same = λ s. record { gated = λ h. h };
  after = λ s t u h k. record { gated = λ g. k.gated (h.gated g) };
}

-- A statement on other tables.
frame : (s t : Db) → t.pull_requests ≡ s.pull_requests → Keeps s t
unfolding all_gated
frame s t e = record { gated = λ g. rw e g }

upsert-gated :
    (new : PullRequest) (ps : List PullRequest)
    → is_gated new ≡ true
    → all is_gated ps ≡ true
    → all is_gated (upsert new ps) ≡ true
unfolding upsert is_gated
upsert-gated new [] n h = ground arith
upsert-gated new (p ∷ ps) n h = ground (arith, upsert-gated new ps n)

update-gated :
    (test : PullRequest → Bool) (f : PullRequest → PullRequest) (ps : List PullRequest)
    → ((p : PullRequest) → test p ≡ true → is_gated (f p) ≡ true)
    → all is_gated ps ≡ true
    → all is_gated (update_where test f ps) ≡ true
unfolding update_where
update-gated test f [] k h = refl
update-gated test f (p ∷ ps) k h = ground (arith, k p, update-gated test f ps k)

draft-gated :
    (c : Context) (l : Lease) (r : PullRequestReceipt) (base tier day : String)
    → is_gated (draft c l r base tier day) ≡ true
unfolding is_gated
draft-gated c l r base tier day = ground arith

reviewed-gated :
    (c : Context) (verdict : Verdict) (summary : List ℕ) (p : PullRequest)
    → is_gated (reviewed c verdict summary p) ≡ true
unfolding is_gated reviewed
reviewed-gated c pass summary p = ground arith
reviewed-gated c request_changes summary p = ground arith
reviewed-gated c block summary p = ground arith

merged-gated :
    (c : Context) (number : ℕ) (head sha : String) (p : PullRequest)
    → is_sha sha ≡ true
    → may_merge number head p ≡ true
    → is_gated (merged c sha p) ≡ true
unfolding is_gated may_merge merged
merged-gated c number head sha p s h = ground arith

update_one-Keeps :
    (test : PullRequest → Bool) (f : PullRequest → PullRequest) (db : Db)
    → ((p : PullRequest) → test p ≡ true → is_gated (f p) ≡ true)
    → Keeps db (update_one test f db).1
unfolding update_one all_gated
update_one-Keeps test f db k = record {
  gated = λ g. ground (arith, update-gated test f db.pull_requests k g);
}

store-Keeps : (p : PullRequest) (db : Db) → is_gated p ≡ true → Keeps db (store_pull_request p db).1
unfolding store_pull_request all_gated
store-Keeps p db n = record { gated = λ g. upsert-gated p db.pull_requests n g }

sha-frame :
    (id sha : String) (o : Option Run) (db : Db)
    → (update_base_sha id sha o db).pull_requests ≡ db.pull_requests
sha-frame id sha none db = refl
sha-frame id sha (some r) db = refl

finish-frame :
    (c : Context) (id state : String) (summary : List ℕ) (error : Option String) (o : Option Run)
    (db : Db)
    → (finish_found c id state summary error o db).1.pull_requests ≡ db.pull_requests
finish-frame c id state summary error none db = refl
finish-frame c id state summary error (some r) db = ground arith

insert_run-frame :
    (id : String) (r : Run) (db : Db) → (insert_run id r db).1.pull_requests ≡ db.pull_requests
unfolding insert_run
insert_run-frame id r db = ground arith

delete-frame : (l : Lease) (db : Db) → (delete_own_lease l db).1.pull_requests ≡ db.pull_requests
unfolding delete_own_lease
delete-frame l db = ground arith

grant-frame :
    (c : Context) (resource run owner : String) (ttl : ℕ) (db : Db)
    → (grant_lease c resource run owner ttl db).1.pull_requests ≡ db.pull_requests
unfolding grant_lease take_token store_lease delete_lease poor_travel_agent.Base.Effect.◌>>=◌
grant-frame c resource run owner ttl db = refl

Keeps-writes : Writes Keeps
unfolding set_base_sha finish_run register_outcome_row store_enabled store_cursor
Keeps-writes = record {
  preorder = Keeps-preorder;
  grants = λ c resource run owner ttl. record {
    at = λ db. frame db _ (grant-frame c resource run owner ttl db);
  };
  deletes = λ l. record { at = λ db. frame db _ (delete-frame l db) };
  inserts_run = λ id r. record { at = λ db. frame db _ (insert_run-frame id r db) };
  sets_sha = λ id sha. record { at = λ db. frame db _ (sha-frame id sha (lookup id db.runs) db) };
  finishes = λ c id state summary error. record {
    at = λ db. frame db _ (finish-frame c id state summary error (lookup id db.runs) db);
  };
  registers = λ error. record { at = λ db. frame db _ refl };
  enables = λ enabled mode. record { at = λ db. frame db _ refl };
  scans = λ name cursor. record { at = λ db. frame db _ refl };
  opens = λ c l receipt base tier day. record {
    at = λ db. store-Keeps _ db (draft-gated c l receipt base tier day);
  };
  reviews = λ c number head verdict summary. record {
    at = λ db. update_one-Keeps _ _ db (λ p _. reviewed-gated c verdict summary p);
  };
  merges = λ c number head sha s. record {
    at = λ db. update_one-Keeps _ _ db (λ p h. merged-gated c number head sha p s h);
  };
}

-- Whatever calls are made, raising or not, a state in which every MERGED pull request is of tier A,
-- has a review that passed and a full Git SHA as its merge stays such a state.
pub merges_are_gated :
    (db : Db) (calls : List (Context × Request))
    → all_gated db ≡ true
    → all_gated (serve db calls) ≡ true
merges_are_gated db calls = (serve-Relates Keeps-writes db calls).gated
