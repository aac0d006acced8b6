-- ===== src/Jobs/Served.antt =====
-- What every statement keeps, every sequence of calls keeps.
use poor_travel_agent.Base.{not, refl, none, List, [], ◌∷◌}
use poor_travel_agent.Base.Effect.{ok, raised, transaction-keeps}
use poor_travel_agent.Jobs.Tables.{not_found, Db, Context}
use poor_travel_agent.Jobs.Methods.{
  claim_item, heartbeat, start_parsing, start_applying, start_understanding, record_parser_progress,
  is_bad_ticket, defer_external_parse, is_over_state, mark_external_parse_terminal,
}
use poor_travel_agent.Jobs.Endings.{
  complete_item, fail_item, cancel_claimed_item, retry_item, recovering, recover_expired_leases,
}
use poor_travel_agent.Jobs.Claims.{claim_idempotency}
use poor_travel_agent.Jobs.Changed.{
  require_lease-IsSound, claiming-IsSound, parsing-IsSound, applying-IsSound, understanding-IsSound,
  reporting-IsSound, ending_parse-IsSound, deferring-IsSound, completing-IsSound, failing-IsSound,
  cancelling_claimed-IsSound, retrying-IsSound, recovering-IsSound,
}
use poor_travel_agent.Jobs.Requests.{Request, step, serve}
use poor_travel_agent.Jobs.Created.{create_job-Kept}
use poor_travel_agent.Jobs.Kept.{
  Kept, JobParts, cancel_job-Kept, on_item-Kept, for_each-Kept, beat-Kept, either, claim_of-Kept,
  leased-Kept,
}

module _ {P : Db → Type 0} (k : Kept P) (p : JobParts P) where
  pub step-Kept : (c : Context) (r : Request) (db : Db) → P db → P (step c r db)
  unfolding step claim_item heartbeat start_parsing start_applying start_understanding
      record_parser_progress defer_external_parse mark_external_parse_terminal complete_item
      fail_item cancel_claimed_item retry_item recover_expired_leases claim_idempotency
  step-Kept c (Request.claim id worker lease) db h =
      on_item-Kept k c id (ok none) _ db (claiming-IsSound c.now worker lease) h
  step-Kept c (Request.beat id worker lease) db h = beat-Kept k c id worker lease _ db h refl
  step-Kept c (Request.parse id worker) db h =
      leased-Kept k c id worker _ db (require_lease-IsSound worker _ parsing-IsSound) h
  step-Kept c (Request.apply id worker) db h =
      leased-Kept k c id worker _ db (require_lease-IsSound worker _ applying-IsSound) h
  step-Kept c (Request.understand id worker) db h =
      leased-Kept k c id worker _ db (require_lease-IsSound worker _ understanding-IsSound) h
  step-Kept c (Request.progress id worker stage) db h =
      leased-Kept k c id worker _ db (require_lease-IsSound worker _ (reporting-IsSound stage)) h
  step-Kept c (Request.end_parse id worker state) db h =
      either k (not (is_over_state state)) _ _ h (
        leased-Kept k c id worker _ db (require_lease-IsSound worker _ (ending_parse-IsSound state))
          h)
  step-Kept c (Request.defer id worker t delay) db h = either k (is_bad_ticket t delay) _ _ h (
      leased-Kept k c id worker _ db
        (require_lease-IsSound worker _ (deferring-IsSound c.now t delay)) h)
  step-Kept c (Request.complete id worker proposal skip) db h =
      leased-Kept k c id worker _ db
        (require_lease-IsSound worker _ (completing-IsSound proposal skip)) h
  step-Kept c (Request.fail id worker error delay retryable) db h =
      leased-Kept k c id worker _ db
        (require_lease-IsSound worker _ (failing-IsSound c.now error delay retryable)) h
  step-Kept c (Request.cancel_claimed id worker) db h =
      leased-Kept k c id worker _ db (require_lease-IsSound worker _ cancelling_claimed-IsSound) h
  step-Kept c (Request.retry job id) db h =
      on_item-Kept k c id (raised not_found) _ db (retrying-IsSound c.now job) h
  step-Kept c (Request.cancel job) db h = cancel_job-Kept k p c job db h
  step-Kept c Request.recover db h =
      transaction-keeps P _ db h
        (for_each-Kept k c (recovering c.now) _ db (recovering-IsSound c.now) h)
  step-Kept c (Request.claim_key id) db h = claim_of-Kept k id _ db h
  step-Kept c (Request.create n) db h = create_job-Kept p c n db h

  pub serve-Kept : (db : Db) (calls : List (Context × Request)) → P db → P (serve db calls)
  unfolding serve
  serve-Kept db [] h = h
  serve-Kept db ((c, r) ∷ rest) h = serve-Kept (step c r db) rest (step-Kept c r db h)
