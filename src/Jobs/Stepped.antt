-- ===== src/Jobs/Stepped.antt =====
-- Every call is at most one edge of the machine of `Jobs.Edges`, for every item.
use poor_travel_agent.Base.{
  String, Bool, true, false, not, ◌&&◌, ◌≡◌, refl, Option, none, some, arith,
}
use poor_travel_agent.Base.Effect.{ok, raised}
use poor_travel_agent.Base.Dict.{lookup}
use poor_travel_agent.Jobs.Tables.{not_found, Item, KeyStatus, Key, Db, Context}
use poor_travel_agent.Jobs.Refresh.{append_event}
use poor_travel_agent.Jobs.Methods.{
  claim_item, heartbeat, start_parsing, start_applying, start_understanding, record_parser_progress,
  is_bad_ticket, defer_external_parse, is_over_state, mark_external_parse_terminal,
}
use poor_travel_agent.Jobs.Endings.{complete_item, fail_item, cancel_claimed_item, retry_item}
use poor_travel_agent.Jobs.Cancelling.{mark_cancelling, cancel_job}
use poor_travel_agent.Jobs.Claims.{by_key_status, claim_key, claim_of, claim_idempotency}
use poor_travel_agent.Jobs.Creation.{opened}
use poor_travel_agent.Jobs.Opened.{old_item_stays}
use poor_travel_agent.Jobs.Kept.{JobParts}
use poor_travel_agent.Jobs.Created.{create_job-Kept}
use poor_travel_agent.Jobs.Refreshed.{refresh_rows}
use poor_travel_agent.Jobs.Requests.{Request, step}
use poor_travel_agent.Jobs.Edges.{is_about, allows, IsMove}
use poor_travel_agent.Jobs.Moved.{
  claiming-Decides, parsing-Decides, applying-Decides, understanding-Decides, completing-Decides,
  cancelling_claimed-Decides, failing-Decides, reporting-Decides, ending_parse-Decides,
  deferring-Decides, retrying_own, retrying-Decides,
}
use poor_travel_agent.Jobs.Selected.{HasIds}
use poor_travel_agent.Jobs.Called.{Becomes, same-Becomes}
use poor_travel_agent.Jobs.OneItem.{After, unmoved, stayed, one_item, checked, beat_lem}
use poor_travel_agent.Jobs.ManyItems.{cancel_lem, recover_lem}

-- `claim_idempotency` writes no item.
by_key_items :
    (x name : String) (k : Key) (s : KeyStatus) (db : Db)
    → (by_key_status x name k s db).1.items ≡ db.items
by_key_items x name k KeyStatus.key_completed db = refl
by_key_items x name k KeyStatus.key_failed db = ground arith
by_key_items x name k KeyStatus.processing db = ground arith

claim_key_items :
    (x name : String) (o : Option Key) (db : Db) → (claim_key x name o db).1.items ≡ db.items
claim_key_items x name none db = refl
claim_key_items x name (some k) db = by_key_items x name k k.status db

claim_of_items : (x : String) (o : Option Item) (db : Db) → (claim_of x o db).1.items ≡ db.items
claim_of_items x none db = refl
claim_of_items x (some i) db = claim_key_items x i.idempotency_key _ db

-- `create_job` leaves the items that are there.
created-parts : (id : String) (i : Item) → JobParts (Becomes id (λ k. k ≡ i))
unfolding mark_cancelling append_event opened
created-parts id i = record {
  marks = λ k j db h a b. same-Becomes db _ refl h;
  says = λ k j db h a. same-Becomes db _ refl h;
  refreshes = λ c k db h. same-Becomes db _ (refresh_rows c k db).0 h;
  plans = λ k p y a b db h. same-Becomes db _ refl h;
  opens = λ n db h a b. record {
    row = h.row;
    is_there = old_item_stays n n.files db.items id h.row b h.is_there;
    holds = h.holds;
  };
}

-- these two have no edge
no_progress :
    (c : Context) (x worker stage : String) {b : Bool} (i j : Item)
    → IsMove c (Request.progress x worker stage) i j
    → b ≡ true
unfolding allows
no_progress c x worker stage i j m = absurd (no m.allowed)
  where
    no : false ≡ true → ⊥
    no q = cc

no_end_parse :
    (c : Context) (x worker state : String) {b : Bool} (i j : Item)
    → IsMove c (Request.end_parse x worker state) i j
    → b ≡ true
unfolding allows
no_end_parse c x worker state i j m = absurd (no m.allowed)
  where
    no : false ≡ true → ⊥
    no q = cc

-- One call leaves the row of an item as it is, or moves it along the edge of the call.
pub step_is_call :
    (c : Context) (r : Request) (db : Db) (id : String) (i : Item)
    → HasIds db
    → lookup id db.items ≡ some i
    → After c id r i (step c r db)
unfolding step is_about claim_item heartbeat start_parsing start_applying start_understanding
    record_parser_progress defer_external_parse mark_external_parse_terminal complete_item fail_item
    cancel_claimed_item retry_item claim_idempotency cancel_job
step_is_call c (Request.claim x worker lease) db id i u h =
    one_item c id i db h (Request.claim x worker lease) x (ok none) _
      (claiming-Decides c x worker lease) (λ k j e v s g m. s)
step_is_call c (Request.beat x worker lease) db id i u h =
    beat_lem c id i db h x worker lease _ refl
step_is_call c (Request.parse x worker) db id i u h =
    one_item c id i db h (Request.parse x worker) x (raised not_found) _
      (parsing-Decides c x worker) (λ k j e v s g m. s)
step_is_call c (Request.apply x worker) db id i u h =
    one_item c id i db h (Request.apply x worker) x (raised not_found) _
      (applying-Decides c x worker) (λ k j e v s g m. s)
step_is_call c (Request.understand x worker) db id i u h =
    one_item c id i db h (Request.understand x worker) x (raised not_found) _
      (understanding-Decides c x worker) (λ k j e v s g m. s)
step_is_call c (Request.progress x worker stage) db id i u h =
    one_item c id i db h (Request.progress x worker stage) x (raised not_found) _
      (reporting-Decides c x worker (Request.progress x worker stage) stage)
      (λ k j e v s g m. no_progress c x worker stage k v.item m)
step_is_call c (Request.end_parse x worker state) db id i u h =
    checked c id i db h (Request.end_parse x worker state) (not (is_over_state state)) _ _ refl (
      one_item c id i db h (Request.end_parse x worker state) x (raised not_found) _
        (ending_parse-Decides c x worker (Request.end_parse x worker state) state)
        (λ k j e v s g m. no_end_parse c x worker state k v.item m))
step_is_call c (Request.defer x worker t delay) db id i u h =
    checked c id i db h (Request.defer x worker t delay) (is_bad_ticket t delay) _ _ refl (
      one_item c id i db h (Request.defer x worker t delay) x (raised not_found) _
        (deferring-Decides c x worker t delay) (λ k j e v s g m. s))
step_is_call c (Request.complete x worker proposal skip) db id i u h =
    one_item c id i db h (Request.complete x worker proposal skip) x (raised not_found) _
      (completing-Decides c x worker proposal skip) (λ k j e v s g m. s)
step_is_call c (Request.fail x worker error delay retryable) db id i u h =
    one_item c id i db h (Request.fail x worker error delay retryable) x (raised not_found) _
      (failing-Decides c x worker error delay retryable) (λ k j e v s g m. s)
step_is_call c (Request.cancel_claimed x worker) db id i u h =
    one_item c id i db h (Request.cancel_claimed x worker) x (raised not_found) _
      (cancelling_claimed-Decides c x worker) (λ k j e v s g m. s)
step_is_call c (Request.retry job x) db id i u h =
    one_item c id i db h (Request.retry job x) x (raised not_found) _ (retrying-Decides c job x)
      (λ k j e v s g m. both s (retrying_own c.now job k j e v g))
  where
    both : {a b : Bool} → a ≡ true → b ≡ true → (a && b) ≡ true
    both p q = ground (arith, p, q)
step_is_call c (Request.cancel job) db id i u h = cancel_lem c id i db h job _ u
step_is_call c Request.recover db id i u h = recover_lem c id i db h
step_is_call c (Request.claim_key x) db id i u h =
    stayed _ (same-Becomes db _ (claim_of_items x _ db) (unmoved db h))
step_is_call c (Request.create n) db id i u h =
    stayed _ (create_job-Kept (created-parts id i) c n db (unmoved db h))
