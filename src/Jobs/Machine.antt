-- ===== src/Jobs/Machine.antt =====
-- What one update may do to an item and its job.
use poor_travel_agent.Base.{String, Bool, true, false, not, ◌&&◌, ◌≡◌, ◌⊎◌, Option, is_some}
use poor_travel_agent.Jobs.Tables.{
  ItemStatus, completed, skipped, cancelled, is_ended, is_leased, running, Item, Job,
}
use poor_travel_agent.Jobs.Changes.{complete_key, Update}

-- completed, skipped or cancelled
abbrev pub is_final : ItemStatus → Bool
is_final completed = true
is_final skipped = true
is_final cancelled = true
is_final _ = false

-- a lease has an owner and an end; without one there is neither
unfoldable pub has_lease_of_status : Item → Bool
has_lease_of_status i =
    if_leased (is_leased i.status) (is_some i.lease_owner) (is_some i.lease_expires_at)
  where
    if_leased : Bool → Bool → Bool → Bool
    if_leased true owner ends = owner && ends
    if_leased false owner ends = not owner && not ends

-- What an update may write, given the rows that were locked.
pub record IsChange (i : Item) (j : Job) (u : Update) : Type 0 where
  pub same_job : u.item.job_id ≡ i.job_id
  pub same_key : u.item.idempotency_key ≡ i.idempotency_key
  pub not_final : is_final i.status ≡ false
  pub lease : has_lease_of_status i ≡ true → has_lease_of_status u.item ≡ true
  pub same_cancel : u.job.cancel_requested ≡ j.cancel_requested
  pub same_plan : u.job.sync_plan_id ≡ j.sync_plan_id
  pub same_total : u.job.total_items ≡ j.total_items
  pub same_processed : u.job.processed_items ≡ j.processed_items
  pub same_succeeded : u.job.succeeded_items ≡ j.succeeded_items
  pub same_skipped : u.job.skipped_items ≡ j.skipped_items
  pub same_failed : u.job.failed_items ≡ j.failed_items
  pub same_cancelled : u.job.cancelled_items ≡ j.cancelled_items
  pub job_status :
      (u.job.status ≡ j.status) ⊎ ((u.job.status ≡ running) × (j.cancel_requested ≡ false))
  pub counted : (u.refreshes ≡ true) ⊎ (is_ended i.status ≡ false)
  pub completes : (p : Option String) → u.key ≡ complete_key p → u.item.status ≡ completed
