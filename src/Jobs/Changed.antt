-- ===== src/Jobs/Changed.antt =====
-- Every method on an item writes an update that `IsChange` allows.
use poor_travel_agent.Base.{
  ℕ, ◌+◌, Bool-cases, String, Bool, true, ◌≡◌, inl, inr, Option, none, some, List, arith, is_some,
}
use poor_travel_agent.Jobs.Tables.{
  conflict, parsing, understanding, applying, is_leased, Item, Job, External,
}
use poor_travel_agent.Jobs.Changes.{
  with_state, Update, Outcome, refuse, change, is_owner, require_lease,
}
use poor_travel_agent.Jobs.Methods.{
  is_parsing, deferred, deferring, new_external, is_same_ticket, claiming, starting, reporting,
  Ticket, deferring_parser, ending_parse,
}
use poor_travel_agent.Jobs.Endings.{completing, failing, cancelling_claimed, retrying, recovering}
use poor_travel_agent.Jobs.Cancelling.{cancelling_waiting}
use poor_travel_agent.Jobs.Machine.{has_lease_of_status, IsChange}

-- A method's decision, before it is written.
pub record IsSound (f : Item → Job → Option External → Outcome) : Type 0 where
  pub at :
      (i : Item) (j : Job) (e : Option External) (u : Update) → f i j e ≡ change u → IsChange i j u

-- The same for a method that has the lease.
pub record IsSoundLeased (f : Item → Job → Option External → Outcome) : Type 0 where
  pub at :
      (i : Item) (j : Job) (e : Option External) (u : Update)
      → is_leased i.status ≡ true
      → is_some i.lease_owner ≡ true
      → f i j e ≡ change u
      → IsChange i j u

owner_is_there :
    (worker : String) (i : Item) → is_owner worker i ≡ true → is_some i.lease_owner ≡ true
owner_is_there worker i h = ground arith

pub lease_passed :
    (worker : String) (f : Item → Job → Option External → Outcome) (i : Item) (j : Job)
    (e : Option External) (u : Update)
    → require_lease worker f i j e ≡ change u
    → (is_owner worker i ≡ true) × (is_leased i.status ≡ true) × (f i j e ≡ change u)
unfolding require_lease
lease_passed worker f i j e u h = ground (arith, h)

pub require_lease-IsSound :
    (worker : String) (f : Item → Job → Option External → Outcome)
    → IsSoundLeased f
    → IsSound (require_lease worker f)
require_lease-IsSound worker f s = record {
  at = λ i j e u h.
      let (own, leased, rest) = lease_passed worker f i j e u h in
      s.at i j e u leased (owner_is_there worker i own) rest;
}

pub claiming-IsSound : (now : ℕ) (worker : String) (lease : ℕ) → IsSound (claiming now worker lease)
unfolding claiming has_lease_of_status
claiming-IsSound now worker lease = record { at = λ i j e u h. ground (arith, h) }

pub parsing-IsSound : IsSoundLeased (starting parsing)
unfolding has_lease_of_status
parsing-IsSound = record { at = λ i j e u l o h. ground (arith, l, o, h) }

pub applying-IsSound : IsSoundLeased (starting applying)
unfolding has_lease_of_status
applying-IsSound = record { at = λ i j e u l o h. ground (arith, l, o, h) }

pub understanding-IsSound : IsSoundLeased (starting understanding)
unfolding has_lease_of_status
understanding-IsSound = record { at = λ i j e u l o h. ground (arith, l, o, h) }

pub reporting-IsSound : (stage : String) → IsSoundLeased (reporting stage)
reporting-IsSound stage = record { at = λ i j e u l o h. ground (arith, l, o, h) }

pub ending_parse-IsSound : (state : String) → IsSoundLeased (ending_parse state)
ending_parse-IsSound state = record { at = λ i j e u l o h. ground (arith, l, o, h) }

deferred-IsChange :
    (i : Item) (j : Job) (retry_at : ℕ) (x : External) (u : Update)
    → is_parsing i.status ≡ true
    → deferred i j retry_at x ≡ change u
    → IsChange i j u
unfolding has_lease_of_status
deferred-IsChange i j retry_at x u p h = ground (arith, p, h)

pub deferring_out :
    (now : ℕ) (t : Ticket) (delay : ℕ) (i : Item) (j : Job) (e : Option External) (u : Update)
    → deferring now t delay i j e ≡ change u
    → (x : External) × (deferred i j (now + delay) x ≡ change u)
deferring_out now t delay i j none u h = (new_external now t, h)
deferring_out now t delay i j (some e) u h = elim (Bool-cases (is_same_ticket t e)) [
  | inl same ↦ (with_state t.state e, rw same at h)
  | inr other ↦ (new_external now t, ground (arith, h, other))
]

pub deferring_parser_out :
    (now : ℕ) (t : Ticket) (delay : ℕ) (i : Item) (j : Job) (e : Option External) (u : Update)
    → deferring_parser now t delay i j e ≡ change u
    → (is_parsing i.status ≡ true) × (deferring now t delay i j e ≡ change u)
deferring_parser_out now t delay i j e u h = elim (Bool-cases (is_parsing i.status)) [
  | inl p ↦ (p, rw p at h)
  | inr q ↦ absurd (refused (rw q at h))
]
  where
    refused : {v : Update} → refuse conflict ≡ change v → ⊥
    refused q = cc

pub deferring-IsSound :
    (now : ℕ) (t : Ticket) (delay : ℕ) → IsSoundLeased (deferring_parser now t delay)
deferring-IsSound now t delay = record {
  at = λ i j e u l o h.
      let (p, rest) = deferring_parser_out now t delay i j e u h in
      let (x, out) = deferring_out now t delay i j e u rest in
      deferred-IsChange i j (now + delay) x u p out;
}

pub completing-IsSound :
    (proposal : Option String) (skip : Bool) → IsSoundLeased (completing proposal skip)
unfolding has_lease_of_status
completing-IsSound proposal skip = record { at = λ i j e u l o h. ground (arith, l, o, h) }

pub failing-IsSound :
    (now : ℕ) (error : List ℕ) (delay : ℕ) (retryable : Bool)
    → IsSoundLeased (failing now error delay retryable)
unfolding failing has_lease_of_status
failing-IsSound now error delay retryable = record { at = λ i j e u l o h. ground (arith, l, o, h) }

pub cancelling_claimed-IsSound : IsSoundLeased cancelling_claimed
unfolding has_lease_of_status
cancelling_claimed-IsSound = record { at = λ i j e u l o h. ground (arith, l, o, h) }

pub retrying-IsSound : (now : ℕ) (job_id : String) → IsSound (retrying now job_id)
unfolding retrying has_lease_of_status
retrying-IsSound now job_id = record { at = λ i j e u h. ground (arith, h) }

pub recovering-IsSound : (now : ℕ) → IsSound (recovering now)
unfolding recovering has_lease_of_status
recovering-IsSound now = record { at = λ i j e u h. ground (arith, h) }

pub cancelling_waiting-IsSound : IsSound cancelling_waiting
unfolding has_lease_of_status
cancelling_waiting-IsSound = record { at = λ i j e u h. ground (arith, h) }
