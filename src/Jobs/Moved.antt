-- ===== src/Jobs/Moved.antt =====
-- What each method decides on an item is an edge of the machine of `Jobs.Edges`.
use poor_travel_agent.Base.{
  ℕ, ◌+◌, String, Bool, true, ◌≡◌, ◌⊎◌, inl, inr, Option, List, arith, ◌==◌,
}
use poor_travel_agent.Jobs.Tables.{parsing, understanding, applying, Item, Job, External, Context}
use poor_travel_agent.Jobs.Changes.{Update, Outcome, change, is_owner, require_lease}
use poor_travel_agent.Jobs.Methods.{
  is_parsing, deferred, claiming, starting, reporting, Ticket, deferring_parser, ending_parse,
}
use poor_travel_agent.Jobs.Endings.{completing, failing, cancelling_claimed, retrying, recovering}
use poor_travel_agent.Jobs.Cancelling.{cancelling_waiting}
use poor_travel_agent.Jobs.Changed.{lease_passed, deferring_out, deferring_parser_out}
use poor_travel_agent.Jobs.Requests.{
  Request, claim, parse, apply, understand, defer, complete, fail, cancel_claimed, retry, cancel,
  recover,
}
use poor_travel_agent.Jobs.Edges.{allows, Enters, owner_after, attempts_after, IsMove}

-- a decision that keeps the item, or moves it along the edge of `r`
pub record Decides (c : Context) (r : Request) (f : Item → Job → Option External → Outcome)
    : Type 0 where
  pub at :
      (i : Item) (j : Job) (e : Option External) (u : Update)
      → f i j e ≡ change u
      → (u.item ≡ i) ⊎ IsMove c r i u.item

module _ (c : Context) (id worker : String) where
  pub claiming-Decides :
      (lease : ℕ) → Decides c (claim id worker lease) (claiming c.now worker lease)
  unfolding claiming allows Enters owner_after attempts_after
  claiming-Decides lease = record { at = λ i j e u h. inr (ground (arith, h)) }

  pub parsing-Decides : Decides c (parse id worker) (require_lease worker (starting parsing))
  unfolding require_lease allows Enters owner_after attempts_after
  parsing-Decides = record { at = λ i j e u h. inr (ground (arith, h)) }

  pub applying-Decides : Decides c (apply id worker) (require_lease worker (starting applying))
  unfolding require_lease allows Enters owner_after attempts_after
  applying-Decides = record { at = λ i j e u h. inr (ground (arith, h)) }

  pub understanding-Decides :
      Decides c (understand id worker) (require_lease worker (starting understanding))
  unfolding require_lease allows Enters owner_after attempts_after
  understanding-Decides = record { at = λ i j e u h. inr (ground (arith, h)) }

  pub completing-Decides :
      (proposal : Option String) (skip : Bool)
      → Decides c
          (complete id worker proposal skip)
          (require_lease worker (completing proposal skip))
  unfolding require_lease allows Enters owner_after attempts_after
  completing-Decides proposal skip = record { at = λ i j e u h. inr (ground (arith, h)) }

  pub cancelling_claimed-Decides :
      Decides c (cancel_claimed id worker) (require_lease worker cancelling_claimed)
  unfolding require_lease allows Enters owner_after attempts_after
  cancelling_claimed-Decides = record { at = λ i j e u h. inr (ground (arith, h)) }

  pub failing-Decides :
      (error : List ℕ) (delay : ℕ) (retryable : Bool)
      → Decides c
          (fail id worker error delay retryable)
          (require_lease worker (failing c.now error delay retryable))
  unfolding require_lease failing allows Enters owner_after attempts_after
  failing-Decides error delay retryable = record { at = λ i j e u h. inr (ground (arith, h)) }

  pub reporting-Decides :
      (r : Request) (stage : String) → Decides c r (require_lease worker (reporting stage))
  unfolding require_lease
  reporting-Decides r stage = record { at = λ i j e u h. inl (ground (arith, h)) }

  pub ending_parse-Decides :
      (r : Request) (state : String) → Decides c r (require_lease worker (ending_parse state))
  unfolding require_lease
  ending_parse-Decides r state = record { at = λ i j e u h. inl (ground (arith, h)) }

  deferred-IsMove :
      (t : Ticket) (delay : ℕ) (i : Item) (j : Job) (retry_at : ℕ) (x : External) (u : Update)
      → is_owner worker i ≡ true
      → is_parsing i.status ≡ true
      → deferred i j retry_at x ≡ change u
      → IsMove c (defer id worker t delay) i u.item
  unfolding allows Enters owner_after attempts_after
  deferred-IsMove t delay i j retry_at x u o p h = ground (arith, o, p, h)

  pub deferring-Decides :
      (t : Ticket) (delay : ℕ)
      → Decides c (defer id worker t delay) (require_lease worker (deferring_parser c.now t delay))
  deferring-Decides t delay = record {
    at = λ i j e u h.
        let (own, leased, rest) = lease_passed worker (deferring_parser c.now t delay) i j e u h in
        let (p, next) = deferring_parser_out c.now t delay i j e u rest in
        let (x, out) = deferring_out c.now t delay i j e u next in
        inr (deferred-IsMove t delay i j (c.now + delay) x u own p out);
  }

-- A retry is of an item of its job.
pub retrying_own :
    (now : ℕ) (job : String) (i : Item) (j : Job) (e : Option External) (u : Update)
    → retrying now job i j e ≡ change u
    → (i.job_id == job) ≡ true
unfolding retrying
retrying_own now job i j e u h = ground (arith, h)

pub retrying-Decides :
    (c : Context) (job id : String) → Decides c (retry job id) (retrying c.now job)
unfolding retrying allows Enters owner_after attempts_after
retrying-Decides c job id = record { at = λ i j e u h. inr (ground (arith, h)) }

pub recovering-Decides : (c : Context) → Decides c recover (recovering c.now)
unfolding recovering allows Enters owner_after attempts_after
recovering-Decides c = record { at = λ i j e u h. inr (ground (arith, h)) }

pub cancelling-Decides : (c : Context) (job : String) → Decides c (cancel job) cancelling_waiting
unfolding allows Enters owner_after attempts_after
cancelling-Decides c job = record { at = λ i j e u h. inr (ground (arith, h)) }
