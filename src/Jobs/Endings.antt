-- ===== src/Jobs/Endings.antt =====
-- The methods that end the work on an item, or take it up again.
use poor_travel_agent.Base.{
  ℕ, ◌+◌, String, Bool, true, false, not, ◌&&◌, ◌||◌, Option, none, some, List, take, leb, ltb,
  ◌==◌, if◌then◌else◌,
}
use poor_travel_agent.Base.Effect.{transaction}
use poor_travel_agent.Jobs.Tables.{
  not_found, conflict, ItemStatus, retry_wait, completed, skipped, cancelled, dead_letter,
  status_text, is_leased, running, Item, Job, External, Context, Jobs,
}
use poor_travel_agent.Jobs.Changes.{
  keep_external, delete_external, set_state, keep_key, fail_key, complete_key, Outcome, refuse,
  nothing, change, on_locked, require_lease,
}
use poor_travel_agent.Jobs.Methods.{for_each, moved, select_ids, unleased}

abbrev pub completing : Option String → Bool → Item → Job → Option External → Outcome
completing proposal skip item job external =
    if skip
    then moved (record (unleased item skipped item.next_attempt_at) { proposal_id = proposal }) job
        keep_external keep_key true
    else moved (record (unleased item completed item.next_attempt_at) { proposal_id = proposal })
        job keep_external (complete_key proposal) true

unfoldable pub complete_item : Context → String → String → Option String → Bool → Jobs (Option Item)
complete_item c item_id worker_id proposal skip =
    on_locked c item_id (require_lease worker_id (completing proposal skip))

abbrev pub failed_item : List ℕ → Item → Item
failed_item error i = record i { error = some (take 4000 error) }

unfoldable pub failing : ℕ → List ℕ → ℕ → Bool → Item → Job → Option External → Outcome
failing now error delay retryable item job external =
    if job.cancel_requested
    then moved (unleased (failed_item error item) cancelled none) job (set_state "cancelled")
        fail_key true
    else (if retryable && ltb item.attempts item.max_attempts
        then moved (unleased (failed_item error item) retry_wait (some (now + delay))) job
            keep_external keep_key true
        else moved (unleased (failed_item error item) dead_letter none) job (set_state "failed")
            fail_key true)

unfoldable pub fail_item : Context → String → String → List ℕ → ℕ → Bool → Jobs (Option Item)
fail_item c item_id worker_id error delay retryable =
    on_locked c item_id (require_lease worker_id (failing c.now error delay retryable))

abbrev pub cancelling_claimed : Item → Job → Option External → Outcome
cancelling_claimed item job external =
    moved (unleased item cancelled item.next_attempt_at) job (set_state "cancelled") keep_key true

unfoldable pub cancel_claimed_item : Context → String → String → Jobs (Option Item)
cancel_claimed_item c item_id worker_id =
    on_locked c item_id (require_lease worker_id cancelling_claimed)

abbrev is_dead : ItemStatus → Bool
is_dead dead_letter = true
is_dead _ = false

abbrev pub retried_item : ℕ → Item → Item
retried_item now i = record i {
  status = retry_wait;
  attempts = 0;
  next_attempt_at = some now;
  error = none;
}

abbrev pub reopened : Job → Job
reopened job = record job { completed_at = none; status = running }

unfoldable pub retrying : ℕ → String → Item → Job → Option External → Outcome
retrying now job_id item job external =
    if not (item.job_id == job_id)
    then refuse not_found
    else (if job.cancel_requested
        then refuse conflict
        else (if not (is_dead item.status)
            then refuse conflict
            else moved (retried_item now item) (reopened job) delete_external keep_key true))

unfoldable pub retry_item : Context → String → String → Jobs (Option Item)
retry_item c job_id item_id = on_locked c item_id (retrying c.now job_id)

abbrev has_expired : ℕ → Option ℕ → Bool
has_expired now none = false
has_expired now (some t) = leb t now

abbrev recovered_item : ℕ → Bool → Item → Item
recovered_item now true i = unleased i cancelled none
recovered_item now false i = unleased i retry_wait (some now)

unfoldable pub recovering : ℕ → Item → Job → Option External → Outcome
recovering now item job external =
    if not (is_leased item.status) || not (has_expired now item.lease_expires_at)
    then nothing
    else change (record {
      item = recovered_item now job.cancel_requested item;
      job = job;
      kind = "recovery";
      event = status_text (recovered_item now job.cancel_requested item).status;
      external = keep_external;
      key = keep_key;
      refreshes = true;
    })

abbrev is_expired_lease : ℕ → Item → Bool
is_expired_lease now i = is_leased i.status && has_expired now i.lease_expires_at

-- One transaction for all the items: an exception of one rolls the others back.
unfoldable pub recover_expired_leases : Context → Jobs (Unit {0})
recover_expired_leases c = transaction (λ db.
    for_each (λ id. on_locked c id (recovering c.now))
      (select_ids (is_expired_lease c.now) db.items) db)
