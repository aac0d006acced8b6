-- ===== src/Jobs/Tests.antt =====
-- The theorems on imports at concrete calls: a job of two items, and two workers.
use poor_travel_agent.Base.{ℕ, String, true, false, ◌≡◌, refl, arith, List, [], ◌∷◌, none, some}
use poor_travel_agent.Base.Effect.{ok, raised}
use poor_travel_agent.Base.Dict.{lookup, put, IsDict}
use poor_travel_agent.Jobs.Tables.{
  dead_letter, conflict, ItemStatus, queued, claimed, completed, cancelled, job_queued, Item, Job,
  KeyStatus, Key, Db, Context,
}
use poor_travel_agent.Jobs.Refresh.{
  append_event, refresh_job, tally, recounted, processed_of, next_status, same_job_status,
  finalize_sync_plan,
}
use poor_travel_agent.Jobs.Changes.{write, commit, change_external, change_key, on_item}
use poor_travel_agent.Jobs.Methods.{
  claiming, claim_item, heartbeat, start_parsing, start_applying, start_understanding,
  record_parser_progress, select_ids, for_each,
}
use poor_travel_agent.Jobs.Endings.{complete_item, fail_item, cancel_claimed_item}
use poor_travel_agent.Jobs.Cancelling.{mark_cancelling, cancel_waiting, say_cancelling, cancel_job}
use poor_travel_agent.Jobs.Claims.{duplicate, busy, claim_idempotency}
use poor_travel_agent.Jobs.Machine.{has_lease_of_status}
use poor_travel_agent.Sync.Changes.{ScannedFile, added}
use poor_travel_agent.Jobs.Creation.{NewJob, create_job, clashes, opened, add_items}
use poor_travel_agent.Jobs.Requests.{
  Request, create, claim, parse, complete, claim_key, step, serve,
}
use poor_travel_agent.Jobs.Right.{AreJobsRight}
use poor_travel_agent.Jobs.Over.{serve-AreJobsRight}
use poor_travel_agent.Jobs.Edges.{is_about, allows, IsMove, History}
use poor_travel_agent.Jobs.Enabled.{allowed_calls_move}
use poor_travel_agent.Jobs.Called.{Becomes}
use poor_travel_agent.Jobs.Life.{items_refine_machine, ended_items_stay, HasLeases, serve-HasLeases}
use poor_travel_agent.Jobs.Cancelled.{cancelled_jobs_claim_nothing}
use poor_travel_agent.Jobs.Keys.{IsCompleted, HasOwners}
use poor_travel_agent.Jobs.Once.{
  serve-HasOwners, completed_keys_answer_duplicate, cancelled_owner_blocks_key,
}
use poor_travel_agent.Jobs.Attempts.{IsReady, failing_calls, retries_end}
use poor_travel_agent.Jobs.Leases.{IsForeign, foreign_worker_changes_nothing}

abbrev queued_item : String → String → Item
queued_item path key = record {
  job_id = "j";
  source_id = "docs";
  relative_path = path;
  source_revision = "r1";
  change_kind = "added";
  idempotency_key = key;
  status = queued;
  attempts = 0;
  max_attempts = 3;
  lease_owner = none;
  lease_expires_at = none;
  next_attempt_at = none;
  proposal_id = none;
  error = none;
}

abbrev job : Job
job = record {
  source_id = "docs";
  sync_plan_id = none;
  status = job_queued;
  cancel_requested = false;
  event_sequence = 0;
  total_items = 2;
  processed_items = 0;
  succeeded_items = 0;
  skipped_items = 0;
  failed_items = 0;
  cancelled_items = 0;
  started_at = none;
  completed_at = none;
}

abbrev start : Db
start = record {
  sources = "docs" ∷ [];
  jobs = ("j", job) ∷ [];
  items = ("a", queued_item "a.md" "k") ∷ ("b", queued_item "b.md" "k") ∷ [];
  externals = [];
  keys = [];
  events = [];
  plans = [];
  syncs = [];
  manifest = [];
}

abbrev at_time : ℕ → Context
at_time t = record { now = t; manifest_id = λ source path. path }

abbrev work : List (Context × Request)
work =
    (at_time 1, claim "a" "w1" 30)
    ∷ (at_time 2, claim_key "a")
    ∷ (at_time 3, parse "a" "w1")
    ∷ (at_time 4, complete "a" "w1" (some "p1") false)
    ∷ []

abbrev rest : List (Context × Request)
rest = (at_time 5, claim "b" "w2" 30) ∷ []

start-HasLeases : HasLeases start
unfolding has_lease_of_status lookup
start-HasLeases = record { at = λ id i h. ground (arith, h) }

start-IsDict : IsDict start.items
unfolding IsDict lookup
start-IsDict = (refl, (refl, tt))

items_refine_machine_example :
    Becomes "a" (History "a" work (queued_item "a.md" "k")) (serve start work)
unfolding lookup
items_refine_machine_example =
    items_refine_machine start work "a" (queued_item "a.md" "k") start-IsDict refl

allowed_calls_move_example :
    Becomes "b"
      (IsMove (at_time 5) (claim "b" "w2" 30) (queued_item "b.md" "k"))
      (step (at_time 5) (claim "b" "w2" 30) start)
unfolding lookup is_about allows
allowed_calls_move_example =
    allowed_calls_move (at_time 5) (claim "b" "w2" 30) start "b" (queued_item "b.md" "k") job refl
      refl refl refl refl refl

-- a cancelled item, and a worker that claims the other one
abbrev one_cancelled : Db
one_cancelled = record start {
  items =
      ("a", record (queued_item "a.md" "k") { status = cancelled })
      ∷ ("b", queued_item "b.md" "k")
      ∷ [];
}

one_cancelled-IsDict : IsDict one_cancelled.items
unfolding IsDict lookup
one_cancelled-IsDict = (refl, (refl, tt))

ended_items_stay_example :
    lookup "a" (serve one_cancelled rest).items
    ≡ some (record (queued_item "a.md" "k") { status = cancelled })
unfolding lookup
ended_items_stay_example =
    ended_items_stay one_cancelled rest "a" (record (queued_item "a.md" "k") { status = cancelled })
      one_cancelled-IsDict refl refl

serve-HasLeases_example : HasLeases (serve start work)
serve-HasLeases_example = serve-HasLeases start work start-HasLeases

-- no row at all, and the call that makes the job of two items
abbrev empty : Db
empty = record {
  sources = "docs" ∷ [];
  jobs = [];
  items = [];
  externals = [];
  keys = [];
  events = [];
  plans = [];
  syncs = [];
  manifest = [];
}

abbrev file : String → ScannedFile
file path = record {
  relative_path = path;
  source_revision = "r1";
  idempotency_key = "k";
  change_kind = added;
}

abbrev creation : NewJob
creation = record {
  job_id = "j";
  source_id = "docs";
  sync_plan_id = none;
  max_attempts = 3;
  files = ("a", file "a.md") ∷ ("b", file "b.md") ∷ [];
}

empty-AreJobsRight : AreJobsRight empty
unfolding lookup tally
empty-AreJobsRight = record { no_orphans = λ id h. refl; at = λ id j h. absurd (no h) }
  where
    no : {j : Job} → none ≡ some j → ⊥
    no q = cc

serve-AreJobsRight_example : AreJobsRight (serve empty ((at_time 0, create creation) ∷ work))
serve-AreJobsRight_example =
    serve-AreJobsRight empty ((at_time 0, create creation) ∷ work) empty-AreJobsRight

-- the call makes the rows of `start`, and its first event
created : (create_job (at_time 0) creation empty).1.items ≡ start.items
unfolding create_job clashes opened add_items append_event put lookup
created = refl

start-HasOwners : HasOwners start
unfolding lookup
start-HasOwners = record { at = λ name k h s. absurd (no h) }
  where
    no : {k : Key} → none ≡ some k → ⊥
    no q = cc

serve-HasOwners_example : HasOwners (serve start work)
serve-HasOwners_example = serve-HasOwners start work start-HasOwners

-- "a" has an end, "b" waits, and "a" owns the key of both
abbrev after_a : ItemStatus → KeyStatus → Db
after_a s k = record start {
  items =
      ("a", record (queued_item "a.md" "k") { status = s }) ∷ ("b", queued_item "b.md" "k") ∷ [];
  keys = ("k", record { owner_item_id = "a"; status = k; proposal_id = some "p1" }) ∷ [];
}

abbrev claimed_b : Item
claimed_b = record (queued_item "b.md" "k") {
  status = claimed;
  attempts = 1;
  lease_owner = some "w2";
  lease_expires_at = some 35;
}

b_is_there :
    (s : ItemStatus) (k : KeyStatus) → lookup "b" (serve (after_a s k) rest).items ≡ some claimed_b
unfolding serve step claim_item on_item lookup claiming commit write append_event change_external
    change_key put
b_is_there s k = refl

after_a-HasOwners : HasOwners (after_a completed KeyStatus.key_completed)
unfolding lookup
after_a-HasOwners = record { at = λ name k h s. owned k (key_row name k h) }
  where
    row : Key
    row = record { owner_item_id = "a"; status = KeyStatus.key_completed; proposal_id = some "p1" }

    key_row :
        (name : String) (k : Key)
        → lookup name (after_a completed KeyStatus.key_completed).keys ≡ some k
        → k ≡ row
    key_row name k h = ground (arith, h)

    owned :
        (k : Key)
        → k ≡ row
        → IsCompleted k.owner_item_id (after_a completed KeyStatus.key_completed)
    owned k e = rw e (record {
      item = record (queued_item "a.md" "k") { status = completed };
      is_there = refl;
      status = refl;
    })

completed_keys_answer_duplicate_example :
    claim_idempotency "b" (serve (after_a completed KeyStatus.key_completed) rest)
    ≡ (ok (duplicate (some "p1")), serve (after_a completed KeyStatus.key_completed) rest)
unfolding lookup
completed_keys_answer_duplicate_example =
    completed_keys_answer_duplicate (after_a completed KeyStatus.key_completed) rest "k"
      (record { owner_item_id = "a"; status = KeyStatus.key_completed; proposal_id = some "p1" })
      "b" claimed_b after_a-HasOwners refl refl (b_is_there completed KeyStatus.key_completed) refl

cancelled_owner_blocks_key_example :
    claim_idempotency "b" (serve (after_a cancelled KeyStatus.processing) rest)
    ≡ (ok busy, serve (after_a cancelled KeyStatus.processing) rest)
unfolding lookup
cancelled_owner_blocks_key_example =
    cancelled_owner_blocks_key (after_a cancelled KeyStatus.processing) rest "k"
      (record { owner_item_id = "a"; status = KeyStatus.processing; proposal_id = some "p1" })
      (record (queued_item "a.md" "k") { status = cancelled }) "b" claimed_b refl refl refl refl
      (b_is_there cancelled KeyStatus.processing) refl refl

-- a cancelled job of two waiting items
cancelled_b :
    lookup "b" (serve (cancel_job (at_time 6) "j" start).1 rest).items
    ≡ some (record (queued_item "b.md" "k") { status = cancelled })
unfolding serve step claim_item on_item lookup claiming commit write append_event change_external
    change_key put cancel_job mark_cancelling cancel_waiting say_cancelling select_ids for_each
    refresh_job recounted processed_of tally next_status same_job_status finalize_sync_plan
cancelled_b = refl

returned : (cancel_job (at_time 6) "j" start).0 ≡ ok tt
unfolding cancel_job lookup
returned = refl

cancelled_jobs_claim_nothing_example :
    claim_item (at_time 9) "b" "w2" 30 (serve (cancel_job (at_time 6) "j" start).1 rest)
    ≡ (ok none, serve (cancel_job (at_time 6) "j" start).1 rest)
cancelled_jobs_claim_nothing_example =
    cancelled_jobs_claim_nothing (at_time 6) "j" start rest (at_time 9) "b" "w2" 30
      (record (queued_item "b.md" "k") { status = cancelled }) returned cancelled_b refl

abbrev leased : Db
leased = record start { items = ("b", claimed_b) ∷ [] }

leased-IsForeign : IsForeign "b" "w1" leased
unfolding lookup
leased-IsForeign = record {
  row = claimed_b;
  job = job;
  is_there = refl;
  job_is_there = refl;
  no_lease = refl;
}

foreign_worker_changes_nothing_example :
    (heartbeat (at_time 9) "b" "w1" 30 leased ≡ (ok false, leased))
    × (start_parsing (at_time 9) "b" "w1" leased ≡ (raised conflict, leased))
    × (start_applying (at_time 9) "b" "w1" leased ≡ (raised conflict, leased))
    × (start_understanding (at_time 9) "b" "w1" leased ≡ (raised conflict, leased))
    × (record_parser_progress (at_time 9) "b" "w1" "ocr" leased ≡ (raised conflict, leased))
    × (complete_item (at_time 9) "b" "w1" none false leased ≡ (raised conflict, leased))
    × (fail_item (at_time 9) "b" "w1" [] 5 true leased ≡ (raised conflict, leased))
    × (cancel_claimed_item (at_time 9) "b" "w1" leased ≡ (raised conflict, leased))
foreign_worker_changes_nothing_example =
    foreign_worker_changes_nothing (at_time 9) "b" "w1" "ocr" 30 5 none false true [] leased
      leased-IsForeign

start-IsReady : IsReady "a" (queued_item "a.md" "k") start
unfolding lookup
start-IsReady = record { job = job; is_there = refl; job_is_there = refl; not_cancelled = refl }

retries_end_example :
    (x : Item) × ((lookup "a" (serve start (failing_calls "a" "w1" 30 [] 5 (λ s p. p) 3 1)).items
        ≡ some x)
      × (x.status ≡ dead_letter))
retries_end_example =
    retries_end "a" "w1" 30 [] 5 (λ s p. p) 3 1 (queued_item "a.md" "k") start start-IsReady refl
      refl (omega arith) (omega arith)
