-- ===== src/Loop/Requests.antt =====
-- The calls that write, as data, and the state over a sequence of them. A relation that the
-- statements respect holds across every call.
use poor_travel_agent.Base.{true, not, false, ℕ, String, ◌≡◌, Bool, List, [], ◌∷◌, Option, arith}
use poor_travel_agent.Base.Effect.{
  Relates, IsPreorder, Relates-pure, Relates-raise, Relates-if, Relates-transaction, Relates-bind,
  Relates-unchanged,
}
use poor_travel_agent.Loop.Tables.{Lease, Run, Cursor, Db, Context}
use poor_travel_agent.Loop.Lease.{
  require_expired, grant_lease, acquire_lease, assert_lease_row, delete_own_lease, release_lease,
}
use poor_travel_agent.Loop.Runs.{
  is_sha, insert_run, begin_run, set_base_sha, set_run_base_sha, finish_run, register_outcome_row,
  terminalize, store_enabled, set_enabled, store_cursor, record_scan_scope,
}
use poor_travel_agent.Loop.PullRequests.{
  Verdict, PullRequestReceipt, require_capacity, require_pr_capacity, require_same_branch,
  store_pull_request, draft, record_pull_request, update_one, is_at_head, reviewed,
  record_review_result, may_merge, merged, record_merge_result,
}

pub data Request : Type 0 where
  acquire : String → String → String → ℕ → Request
  release : Lease → Request
  begin : Lease → String → String → Option String → Request
  base_sha : Lease → String → Request
  finish : Lease → String → List ℕ → Option String → Request
  capacity : Lease → String → Request
  open_pull_request : Lease → PullRequestReceipt → String → String → String → Request
  review : Lease → ℕ → String → Verdict → List ℕ → Request
  merge : Lease → ℕ → String → String → Request
  enable : Bool → String → Request
  scan : Lease → List String → String → Request

-- the state after one call, whether it returns or raises
unfoldable pub step : Context → Request → Db → Db
step c (acquire resource run owner ttl) db = (acquire_lease c resource run owner ttl db).1
step c (release l) db = (release_lease c l db).1
step c (begin l policy mode target) db = (begin_run c l policy mode target db).1
step c (base_sha l sha) db = (set_run_base_sha c l sha db).1
step c (finish l state summary error) db = (terminalize c l state summary error db).1
step c (capacity l day) db = (require_pr_capacity c l day db).1
step c (open_pull_request l receipt base tier day) db =
    (record_pull_request c l receipt base tier day db).1
step c (review l number head verdict summary) db =
    (record_review_result c l number head verdict summary db).1
step c (merge l number head sha) db = (record_merge_result c l number head sha db).1
step c (enable enabled mode) db = (set_enabled enabled mode db).1
step c (scan l scope sha) db = (record_scan_scope c l scope sha db).1

unfoldable pub serve : Db → List (Context × Request) → Db
serve db [] = db
serve db ((c, r) ∷ rest) = serve (step c r db) rest

pub assert_lease_row_unchanged :
    (c : Context) (l : Lease) (db : Db) → (assert_lease_row c l db).1 ≡ db
unfolding assert_lease_row
assert_lease_row_unchanged c l db = ground arith

require_expired_unchanged :
    (c : Context) (resource : String) (db : Db) → (require_expired c resource db).1 ≡ db
unfolding require_expired
require_expired_unchanged c resource db = ground arith

require_capacity_unchanged : (day : String) (db : Db) → (require_capacity day db).1 ≡ db
unfolding require_capacity
require_capacity_unchanged day db = ground arith

require_same_branch_unchanged :
    (receipt : PullRequestReceipt) (db : Db) → (require_same_branch receipt db).1 ≡ db
unfolding require_same_branch
require_same_branch_unchanged receipt db = ground arith

given_sha : (sha : String) → not (is_sha sha) ≡ false → is_sha sha ≡ true
given_sha sha h = ground arith

-- The statements that write, and what each may do to the state.
pub record Writes (R : Db → Db → Type 0) : Type 0 where
  pub preorder : IsPreorder R
  pub grants :
      (c : Context) (resource run owner : String) (ttl : ℕ)
      → Relates R (grant_lease c resource run owner ttl)
  pub deletes : (l : Lease) → Relates R (delete_own_lease l)
  pub inserts_run : (id : String) (r : Run) → Relates R (insert_run id r)
  pub sets_sha : (id sha : String) → Relates R (set_base_sha id sha)
  pub finishes :
      (c : Context) (id state : String) (summary : List ℕ) (error : Option String)
      → Relates R (finish_run c id state summary error)
  pub registers : (error : Option String) → Relates R (register_outcome_row error)
  pub enables : (enabled : Bool) (mode : String) → Relates R (store_enabled enabled mode)
  pub scans : (name : String) (cursor : Cursor) → Relates R (store_cursor name cursor)
  pub opens :
      (c : Context) (l : Lease) (receipt : PullRequestReceipt) (base tier day : String)
      → Relates R (store_pull_request (draft c l receipt base tier day))
  pub reviews :
      (c : Context) (number : ℕ) (head : String) (verdict : Verdict) (summary : List ℕ)
      → Relates R (update_one (is_at_head number head) (reviewed c verdict summary))
  pub merges :
      (c : Context) (number : ℕ) (head sha : String)
      → is_sha sha ≡ true
      → Relates R (update_one (may_merge number head) (merged c sha))

ruleset call_rules = (Relates-bind, Relates-if, Relates-raise, Relates-pure, Relates-transaction)

module _ {R : Db → Db → Type 0} (w : Writes R) where
  open w use {preorder as p}

  assert_lease_row-Relates : (c : Context) (l : Lease) → Relates R (assert_lease_row c l)
  assert_lease_row-Relates c l = Relates-unchanged p _ (assert_lease_row_unchanged c l)

  require_expired-Relates :
      (c : Context) (resource : String) → Relates R (require_expired c resource)
  require_expired-Relates c resource = Relates-unchanged p _ (require_expired_unchanged c resource)

  require_capacity-Relates : (day : String) → Relates R (require_capacity day)
  require_capacity-Relates day = Relates-unchanged p _ (require_capacity_unchanged day)

  require_same_branch-Relates :
      (receipt : PullRequestReceipt) → Relates R (require_same_branch receipt)
  require_same_branch-Relates receipt =
      Relates-unchanged p _ (require_same_branch_unchanged receipt)

  acquire-Relates :
      (c : Context) (resource run owner : String) (ttl : ℕ)
      → Relates R (acquire_lease c resource run owner ttl)
  unfolding acquire_lease
  acquire-Relates c resource run owner ttl =
      search (call_rules, p, require_expired-Relates, w.grants) depth 8

  release-Relates : (c : Context) (l : Lease) → Relates R (release_lease c l)
  unfolding release_lease
  release-Relates c l = search (call_rules, p, assert_lease_row-Relates, w.deletes) depth 8

  begin-Relates :
      (c : Context) (l : Lease) (policy mode : String) (target : Option String)
      → Relates R (begin_run c l policy mode target)
  unfolding begin_run
  begin-Relates c l policy mode target =
      search (call_rules, p, assert_lease_row-Relates, w.inserts_run) depth 8

  base_sha-Relates : (c : Context) (l : Lease) (sha : String) → Relates R (set_run_base_sha c l sha)
  unfolding set_run_base_sha
  base_sha-Relates c l sha = search (call_rules, p, assert_lease_row-Relates, w.sets_sha) depth 8

  finish-Relates :
      (c : Context) (l : Lease) (state : String) (summary : List ℕ) (error : Option String)
      → Relates R (terminalize c l state summary error)
  unfolding terminalize
  finish-Relates c l state summary error =
      search (call_rules, p, assert_lease_row-Relates, w.finishes, w.registers, w.deletes) depth 9

  capacity-Relates :
      (c : Context) (l : Lease) (day : String) → Relates R (require_pr_capacity c l day)
  unfolding require_pr_capacity
  capacity-Relates c l day =
      search (call_rules, p, assert_lease_row-Relates, require_capacity-Relates) depth 8

  open-Relates :
      (c : Context) (l : Lease) (receipt : PullRequestReceipt) (base tier day : String)
      → Relates R (record_pull_request c l receipt base tier day)
  unfolding record_pull_request
  open-Relates c l receipt base tier day =
      search (call_rules, p, assert_lease_row-Relates, require_same_branch-Relates, w.opens) depth 8

  review-Relates :
      (c : Context) (l : Lease) (number : ℕ) (head : String) (verdict : Verdict) (summary : List ℕ)
      → Relates R (record_review_result c l number head verdict summary)
  unfolding record_review_result
  review-Relates c l number head verdict summary =
      search (call_rules, p, assert_lease_row-Relates, w.reviews) depth 8

  merge_body-Relates :
      (c : Context) (l : Lease) (number : ℕ) (head sha : String)
      → Relates R (record_merge_result c l number head sha)
  unfolding record_merge_result
  merge_body-Relates c l number head sha =
      Relates-if p _ _ _ (λ _. Relates-raise p _)
        (λ fits. Relates-transaction p _ (
          Relates-bind p _ _ (assert_lease_row-Relates c l)
            (λ _. w.merges c number head sha (given_sha sha fits))))

  enable-Relates : (enabled : Bool) (mode : String) → Relates R (set_enabled enabled mode)
  unfolding set_enabled
  enable-Relates enabled mode = search (call_rules, p, w.enables) depth 8

  scan-Relates :
      (c : Context) (l : Lease) (scope : List String) (sha : String)
      → Relates R (record_scan_scope c l scope sha)
  unfolding record_scan_scope
  scan-Relates c l [] sha = search (call_rules, p)
  scan-Relates c l (name ∷ rest) sha =
      search (call_rules, p, assert_lease_row-Relates, w.scans) depth 8

  pub step-Relates : (c : Context) (r : Request) (db : Db) → R db (step c r db)
  unfolding step
  step-Relates c (acquire resource run owner ttl) db =
      (acquire-Relates c resource run owner ttl).at db
  step-Relates c (release l) db = (release-Relates c l).at db
  step-Relates c (begin l policy mode target) db = (begin-Relates c l policy mode target).at db
  step-Relates c (base_sha l sha) db = (base_sha-Relates c l sha).at db
  step-Relates c (finish l state summary error) db = (finish-Relates c l state summary error).at db
  step-Relates c (capacity l day) db = (capacity-Relates c l day).at db
  step-Relates c (open_pull_request l receipt base tier day) db =
      (open-Relates c l receipt base tier day).at db
  step-Relates c (review l number head verdict summary) db =
      (review-Relates c l number head verdict summary).at db
  step-Relates c (merge l number head sha) db = (merge_body-Relates c l number head sha).at db
  step-Relates c (enable enabled mode) db = (enable-Relates enabled mode).at db
  step-Relates c (scan l scope sha) db = (scan-Relates c l scope sha).at db

  pub serve-Relates : (db : Db) (calls : List (Context × Request)) → R db (serve db calls)
  unfolding serve
  serve-Relates db [] = p.same db
  serve-Relates db ((c, r) ∷ rest) =
      p.after db (step c r db) (serve (step c r db) rest) (step-Relates c r db)
        (serve-Relates (step c r db) rest)
