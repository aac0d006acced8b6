-- ===== src/Jobs/ManyItems.antt =====
-- `cancel_job` and `recover_expired_leases` go through many items, and move each at most once.
use poor_travel_agent.Base.{
  String, true, ◌&&◌, ◌≡◌, refl, inl, inr, Option, none, some, arith, Bool-cases, ◌==◌,
}
use poor_travel_agent.Base.Effect.{transaction-keeps}
use poor_travel_agent.Base.Dict.{lookup}
use poor_travel_agent.Jobs.Tables.{is_waiting, is_over, Item, Job, External, Db, Context}
use poor_travel_agent.Jobs.Refresh.{append_event}
use poor_travel_agent.Jobs.Changes.{Update, change}
use poor_travel_agent.Jobs.Endings.{recovering, recover_expired_leases}
use poor_travel_agent.Jobs.Cancelling.{
  cancelling_waiting, mark_cancelling, cancel_waiting, announce_cancelling, say_cancelling,
  cancel_found,
}
use poor_travel_agent.Jobs.Refreshed.{refresh_rows}
use poor_travel_agent.Jobs.Requests.{Request}
use poor_travel_agent.Jobs.Edges.{is_about, Enters, Call}
use poor_travel_agent.Jobs.Moved.{recovering-Decides, cancelling-Decides}
use poor_travel_agent.Jobs.Selected.{select-IfIn, any-IfIn, HasIds}
use poor_travel_agent.Jobs.Called.{same-Becomes, for_each-Becomes}
use poor_travel_agent.Jobs.OneItem.{After, unmoved, stayed, decided}

module _ (c : Context) (id : String) (i : Item) (db : Db)
    (there : lookup id db.items ≡ some i) where
  -- `cancel_job`: each item that the query selects is of the job, and waits
  cancel_again :
      (job : String) (k : Item) (j : Job) (e : Option External) (u : Update)
      → Enters (Request.cancel job) i k.status
      → cancelling_waiting k j e ≡ change u
      → ⊥
  unfolding Enters
  cancel_again job k j e u s h = ground (arith, s, h)

  cancel_writes :
      (job : String) (k : Item) (j : Job) (e : Option External) (u : Update)
      → (i.job_id == job && is_waiting i.status) ≡ true
      → Call c id (Request.cancel job) i k
      → cancelling_waiting k j e ≡ change u
      → Call c id (Request.cancel job) i u.item
  unfolding is_about
  cancel_writes job k j e u q (inl same) h =
      decided c id (Request.cancel job) i k u.item ((cancelling-Decides c job).at k j e u h) same
        (λ m. ground (arith, q, same))
  cancel_writes job k j e u q (inr (a, m)) h = absurd (cancel_again job k j e u m.enters h)

  said :
      (job : String) (o : Option Job) (s : Db)
      → After c id (Request.cancel job) i s
      → After c id (Request.cancel job) i (announce_cancelling job o s)
  unfolding append_event
  said job none s h = h
  said job (some j) s h = same-Becomes s _ refl h

  pub cancel_lem :
      (job : String) (o : Option Job)
      → HasIds db
      → After c id (Request.cancel job) i (cancel_found c job o db).1
  unfolding mark_cancelling cancel_waiting say_cancelling
  cancel_lem job none u = stayed db (unmoved db there)
  cancel_lem job (some j) u = elim (Bool-cases (is_over j.status)) [
    | inl over ↦ rw over (stayed db (unmoved db there))
    | inr live ↦ rw live (
        same-Becomes _ _ (refresh_rows c job _).0 (
          said job (lookup job _) _ (
            for_each-Becomes c id cancelling_waiting _ (cancel_writes job) _ _
              (select-IfIn (λ k. k.job_id == job && is_waiting k.status) id i db.items u there)
              (stayed _ (same-Becomes db _ refl (unmoved db there))))))
  ]

  -- `recover_expired_leases`: an item that was given back is not given back again
  recover_again :
      (k : Item) (j : Job) (e : Option External) (u : Update)
      → Enters Request.recover i k.status
      → recovering c.now k j e ≡ change u
      → ⊥
  unfolding Enters recovering
  recover_again k j e u (inl s) h = ground (arith, s, h)
  recover_again k j e u (inr s) h = ground (arith, s, h)

  recover_writes :
      (k : Item) (j : Job) (e : Option External) (u : Update)
      → Unit {0}
      → Call c id Request.recover i k
      → recovering c.now k j e ≡ change u
      → Call c id Request.recover i u.item
  unfolding is_about
  recover_writes k j e u q (inl same) h =
      decided c id Request.recover i k u.item ((recovering-Decides c).at k j e u h) same (λ m. refl)
  recover_writes k j e u q (inr (a, m)) h = absurd (recover_again k j e u m.enters h)

  pub recover_lem : After c id Request.recover i (recover_expired_leases c db).1
  unfolding recover_expired_leases
  recover_lem =
      transaction-keeps (After c id Request.recover i) _ db (stayed db (unmoved db there)) (
        for_each-Becomes c id (recovering c.now) (Unit {0}) recover_writes _ db (any-IfIn id _)
          (stayed db (unmoved db there)))
