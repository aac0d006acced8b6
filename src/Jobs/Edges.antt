-- ===== src/Jobs/Edges.antt =====
-- The life of an item as an abstract machine, whose edges are the calls: which item a call is about,
-- in which state of its row it may move it, and what the row is then.
use poor_travel_agent.Base.{
  ℕ, ◌+◌, ◌<◌, String, Bool, true, false, ◌&&◌, ◌≡◌, ◌⊎◌, Option, none, some, List, [], ◌∷◌, ◌==◌,
}
use poor_travel_agent.Jobs.Tables.{
  ItemStatus, external_wait, retry_wait, claimed, parsing, understanding, applying, completed,
  skipped, cancelled, dead_letter, is_leased, is_waiting, Item, Context,
}
use poor_travel_agent.Jobs.Changes.{is_owner}
use poor_travel_agent.Jobs.Methods.{is_due, is_parsing}
use poor_travel_agent.Jobs.Requests.{
  Request, claim, beat, parse, apply, understand, defer, complete, fail, cancel_claimed, retry,
  cancel, recover,
}

-- the item that a call names, or every item of the job that it cancels
unfoldable pub is_about : Request → String → Item → Bool
is_about (claim x worker lease) id i = x == id
is_about (beat x worker lease) id i = x == id
is_about (parse x worker) id i = x == id
is_about (apply x worker) id i = x == id
is_about (understand x worker) id i = x == id
is_about (defer x worker ticket delay) id i = x == id
is_about (complete x worker proposal skip) id i = x == id
is_about (fail x worker error delay retryable) id i = x == id
is_about (cancel_claimed x worker) id i = x == id
is_about (retry job x) id i = x == id && i.job_id == job
is_about (cancel job) id i = i.job_id == job
is_about recover id i = true
is_about _ id i = false

abbrev has_run_out : ℕ → Option ℕ → Bool
has_run_out now none = false
has_run_out now (some t) = is_due now (some t)

abbrev is_held : String → Item → Bool
is_held worker i = is_owner worker i && is_leased i.status

abbrev is_dead_letter : ItemStatus → Bool
is_dead_letter dead_letter = true
is_dead_letter _ = false

-- the state that a call wants
unfoldable pub allows : Context → Request → Item → Bool
allows c (claim x worker lease) i = is_waiting i.status && is_due c.now i.next_attempt_at
allows c (beat x worker lease) i = is_held worker i
allows c (parse x worker) i = is_held worker i
allows c (apply x worker) i = is_held worker i
allows c (understand x worker) i = is_held worker i
allows c (defer x worker ticket delay) i = is_owner worker i && is_parsing i.status
allows c (complete x worker proposal skip) i = is_held worker i
allows c (fail x worker error delay retryable) i = is_held worker i
allows c (cancel_claimed x worker) i = is_held worker i
allows c (retry job x) i = is_dead_letter i.status
allows c (cancel job) i = is_waiting i.status
allows c recover i = is_leased i.status && has_run_out c.now i.lease_expires_at
allows c _ i = false

abbrev ended_as : Bool → ItemStatus
ended_as true = skipped
ended_as false = completed

-- the status that a call gives
unfoldable pub Enters : Request → Item → ItemStatus → Type 0
Enters (claim x worker lease) i t = t ≡ claimed
Enters (beat x worker lease) i t = t ≡ i.status
Enters (parse x worker) i t = t ≡ parsing
Enters (apply x worker) i t = t ≡ applying
Enters (understand x worker) i t = t ≡ understanding
Enters (defer x worker ticket delay) i t = t ≡ external_wait
Enters (complete x worker proposal skip) i t = t ≡ ended_as skip
Enters (fail x worker error delay retryable) i t =
    ((retryable ≡ true) × (i.attempts < i.max_attempts) × (t ≡ retry_wait))
    ⊎ ((t ≡ dead_letter) ⊎ (t ≡ cancelled))
Enters (cancel_claimed x worker) i t = t ≡ cancelled
Enters (retry job x) i t = t ≡ retry_wait
Enters (cancel job) i t = t ≡ cancelled
Enters recover i t = (t ≡ retry_wait) ⊎ (t ≡ cancelled)
Enters _ i t = ⊥

-- A claim gives the lease to its worker, and the calls that end the work take it away. The others keep
-- the column, which for an item that waits or is dead is empty (`HasLeases`).
unfoldable pub owner_after : Request → Option String → Option String
owner_after (claim x worker lease) owner = some worker
owner_after (beat x worker lease) owner = owner
owner_after (parse x worker) owner = owner
owner_after (apply x worker) owner = owner
owner_after (understand x worker) owner = owner
owner_after (retry job x) owner = owner
owner_after (cancel job) owner = owner
owner_after _ owner = none

abbrev claimed_attempts : ItemStatus → ℕ → ℕ
claimed_attempts external_wait n = n
claimed_attempts _ n = n + 1

-- a claim counts an attempt, but not where it takes up an external parse; a retry starts anew
unfoldable pub attempts_after : Request → Item → ℕ
attempts_after (claim x worker lease) i = claimed_attempts i.status i.attempts
attempts_after (retry job x) i = 0
attempts_after _ i = i.attempts

-- the columns that no call changes
pub record SameFile (i j : Item) : Type 0 where
  pub same_job : j.job_id ≡ i.job_id
  pub same_source : j.source_id ≡ i.source_id
  pub same_path : j.relative_path ≡ i.relative_path
  pub same_revision : j.source_revision ≡ i.source_revision
  pub same_kind : j.change_kind ≡ i.change_kind
  pub same_key : j.idempotency_key ≡ i.idempotency_key
  pub same_limit : j.max_attempts ≡ i.max_attempts

-- an edge
pub record IsMove (c : Context) (r : Request) (i j : Item) : Type 0 where
  pub allowed : allows c r i ≡ true
  pub enters : Enters r i j.status
  pub owner : j.lease_owner ≡ owner_after r i.lease_owner
  pub attempts : j.attempts ≡ attempts_after r i
  pub same_file : SameFile i j

-- a call leaves the row of an item as it is, or moves it along an edge of that call
abbrev pub Call : Context → String → Request → Item → Item → Type 0
Call c id r i j = (j ≡ i) ⊎ ((is_about r id i ≡ true) × IsMove c r i j)

-- the machine over a sequence of calls, one step for each
pub data History (id : String) : List (Context × Request) → Item → Item → Type 0 where
  ended : {i : Item} → History id [] i i
  then_call :
      {c : Context} {r : Request} {rest : List (Context × Request)} {i j k : Item}
      → Call c id r i j
      → History id rest j k
      → History id ((c, r) ∷ rest) i k
