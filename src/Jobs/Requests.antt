-- ===== src/Jobs/Requests.antt =====
-- The calls that write, as data, and the tables over a sequence of them. Every method is one
-- transaction on locked rows, so an interleaving of workers is such a sequence.
use poor_travel_agent.Base.{ℕ, String, Bool, List, [], ◌∷◌, Option}
use poor_travel_agent.Jobs.Tables.{Db, Context}
use poor_travel_agent.Jobs.Methods.{
  claim_item, heartbeat, start_parsing, start_applying, start_understanding, record_parser_progress,
  Ticket, defer_external_parse, mark_external_parse_terminal,
}
use poor_travel_agent.Jobs.Endings.{
  complete_item, fail_item, cancel_claimed_item, retry_item, recover_expired_leases,
}
use poor_travel_agent.Jobs.Cancelling.{cancel_job}
use poor_travel_agent.Jobs.Claims.{claim_idempotency}
use poor_travel_agent.Jobs.Creation.{NewJob, create_job}

pub data Request : Type 0 where
  claim : String → String → ℕ → Request
  beat : String → String → ℕ → Request
  parse apply understand : String → String → Request
  progress end_parse : String → String → String → Request
  defer : String → String → Ticket → ℕ → Request
  complete : String → String → Option String → Bool → Request
  fail : String → String → List ℕ → ℕ → Bool → Request
  cancel_claimed : String → String → Request
  retry : String → String → Request
  cancel : String → Request
  recover : Request
  claim_key : String → Request
  create : NewJob → Request

-- the tables after one call, whether it returns or raises
unfoldable pub step : Context → Request → Db → Db
step c (claim id worker lease) db = (claim_item c id worker lease db).1
step c (beat id worker lease) db = (heartbeat c id worker lease db).1
step c (parse id worker) db = (start_parsing c id worker db).1
step c (apply id worker) db = (start_applying c id worker db).1
step c (understand id worker) db = (start_understanding c id worker db).1
step c (progress id worker stage) db = (record_parser_progress c id worker stage db).1
step c (end_parse id worker state) db = (mark_external_parse_terminal c id worker state db).1
step c (defer id worker ticket delay) db = (defer_external_parse c id worker ticket delay db).1
step c (complete id worker proposal skip) db = (complete_item c id worker proposal skip db).1
step c (fail id worker error delay retryable) db =
    (fail_item c id worker error delay retryable db).1
step c (cancel_claimed id worker) db = (cancel_claimed_item c id worker db).1
step c (retry job id) db = (retry_item c job id db).1
step c (cancel job) db = (cancel_job c job db).1
step c recover db = (recover_expired_leases c db).1
step c (claim_key id) db = (claim_idempotency id db).1
step c (create n) db = (create_job c n db).1

unfoldable pub serve : Db → List (Context × Request) → Db
serve db [] = db
serve db ((c, r) ∷ rest) = serve (step c r db) rest
