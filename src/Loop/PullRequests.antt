-- ===== src/Loop/PullRequests.antt =====
-- Pull requests: the quota, the record of one, its review and its merge. Rows are in the order of
-- their number.
use poor_travel_agent.Base.{
  ℕ, String, Bool, false, ◌&&◌, ◌||◌, not, Option, none, some, ltb, eqb, ◌==◌, if◌then◌else◌, List,
  [], ◌∷◌, any, find?,
}
use poor_travel_agent.Base.Effect.{ok, raised, pure, raise, transaction, ◌>>◌}
use poor_travel_agent.Loop.Tables.{
  value_error, lease_busy, database_error, Lease, PullRequest, Context, Loop,
}
use poor_travel_agent.Loop.Lease.{assert_lease_row}
use poor_travel_agent.Loop.Runs.{bounded, is_sha}

pub data Verdict : Type 0 where
  pass request_changes block : Verdict

abbrev pub verdict_text : Verdict → String
verdict_text pass = "PASS"
verdict_text request_changes = "REQUEST_CHANGES"
verdict_text block = "BLOCK"

abbrev pub review_state : Verdict → String
review_state pass = "DRAFT_REVIEWED"
review_state request_changes = "CHANGES_REQUESTED"
review_state block = "CHANGES_REQUESTED"

pub record PullRequestReceipt : Type 0 where
  pub number : ℕ
  pub url : String
  pub branch : String
  pub head_sha : String

abbrev pub is_open : PullRequest → Bool
is_open p =
    p.state == "DRAFT"
    || p.state == "REVIEWING"
    || p.state == "DRAFT_REVIEWED"
    || p.state == "CHANGES_REQUESTED"

unfoldable pub require_capacity : String → Loop (Unit {0})
require_capacity created_day db =
    if any is_open db.pull_requests
    then (raised lease_busy, db)
    else (if any (λ p. p.created_day == created_day) db.pull_requests
        then (raised lease_busy, db)
        else (ok tt, db))

-- `created_day` is the day of `now` in Asia/Shanghai
unfoldable pub require_pr_capacity : Context → Lease → String → Loop String
require_pr_capacity c lease created_day =
    transaction (do assert_lease_row c lease; require_capacity created_day; pure created_day)

-- `record_pull_request` refuses a branch that another number or another head stands for
abbrev conflicts : PullRequestReceipt → Option PullRequest → Bool
conflicts receipt none = false
conflicts receipt (some p) =
    not (eqb p.number receipt.number) || not (p.head_sha == receipt.head_sha)

unfoldable pub require_same_branch : PullRequestReceipt → Loop (Unit {0})
require_same_branch receipt db =
    if conflicts receipt (find? (λ p. p.branch == receipt.branch) db.pull_requests)
    then (raised database_error, db)
    else (ok tt, db)

-- INSERT … ON CONFLICT(number) DO UPDATE SET url, updated_at
unfoldable pub upsert : PullRequest → List PullRequest → List PullRequest
upsert new [] = new ∷ []
upsert new (p ∷ ps) =
    let rest = upsert new ps in
    if eqb p.number new.number
    then record p { url = new.url; updated_at = new.updated_at } ∷ ps
    else (if ltb new.number p.number then new ∷ p ∷ ps else p ∷ rest)

unfoldable pub store_pull_request : PullRequest → Loop (Unit {0})
store_pull_request p db = (ok tt, record db { pull_requests = upsert p db.pull_requests })

abbrev pub draft : Context → Lease → PullRequestReceipt → String → String → String → PullRequest
draft c lease receipt base_sha tier created_day = record {
  number = receipt.number;
  run_id = lease.run_id;
  branch = receipt.branch;
  url = receipt.url;
  base_sha = base_sha;
  head_sha = receipt.head_sha;
  tier = tier;
  state = "DRAFT";
  review_verdict = none;
  review_summary = [];
  created_day = created_day;
  merged_sha = none;
  updated_at = c.iso_now;
}

unfoldable pub record_pull_request :
    Context → Lease → PullRequestReceipt → String → String → String → Loop (Unit {0})
record_pull_request c lease receipt base_sha tier created_day = transaction (do
  assert_lease_row c lease
  require_same_branch receipt
  store_pull_request (draft c lease receipt base_sha tier created_day))

-- UPDATE … WHERE, on every row that `test` selects
unfoldable pub update_where :
    (PullRequest → Bool) → (PullRequest → PullRequest) → List PullRequest → List PullRequest
update_where test f [] = []
update_where test f (p ∷ ps) = (if test p then f p else p) ∷ update_where test f ps

-- a number selects at most one row, so the rowcount is 1 when a row is selected
unfoldable pub update_one : (PullRequest → Bool) → (PullRequest → PullRequest) → Loop (Unit {0})
update_one test f db =
    if any test db.pull_requests
    then (ok tt, record db { pull_requests = update_where test f db.pull_requests })
    else (raised database_error, db)

abbrev pub is_at_head : ℕ → String → PullRequest → Bool
is_at_head number head_sha p = eqb p.number number && p.head_sha == head_sha

unfoldable pub reviewed : Context → Verdict → List ℕ → PullRequest → PullRequest
reviewed c verdict summary p = record p {
  state = review_state verdict;
  review_verdict = some (verdict_text verdict);
  review_summary = bounded summary 1000;
  updated_at = c.iso_now;
}

unfoldable pub record_review_result :
    Context → Lease → ℕ → String → Verdict → List ℕ → Loop (Unit {0})
record_review_result c lease number head_sha verdict summary = transaction (do
  assert_lease_row c lease
  update_one (is_at_head number head_sha) (reviewed c verdict summary))

abbrev pub is_pass : Option String → Bool
is_pass none = false
is_pass (some v) = v == "PASS"

-- the WHERE clause of the merge
unfoldable pub may_merge : ℕ → String → PullRequest → Bool
may_merge number head_sha p =
    is_at_head number head_sha p && p.tier == "A" && is_pass p.review_verdict

unfoldable pub merged : Context → String → PullRequest → PullRequest
merged c merged_sha p = record p {
  state = "MERGED";
  merged_sha = some merged_sha;
  updated_at = c.iso_now;
}

unfoldable pub record_merge_result : Context → Lease → ℕ → String → String → Loop (Unit {0})
record_merge_result c lease number head_sha merged_sha =
    if not (is_sha merged_sha)
    then raise value_error
    else transaction
        (do assert_lease_row c lease; update_one (may_merge number head_sha) (merged c merged_sha))
