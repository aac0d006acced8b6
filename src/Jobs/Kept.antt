-- ===== src/Jobs/Kept.antt =====
-- What holds of the tables after every call, from what every statement keeps.
use poor_travel_agent.Base.{
  ℕ, ◌+◌, String, Bool, true, false, not, ◌||◌, ◌≡◌, refl, ◌⊎◌, inl, inr, Option, none, some, List,
  [], ◌∷◌, ◌==◌, arith, Bool-cases, if◌then◌else◌,
}
use poor_travel_agent.Base.Effect.{Result, ok, raised}
use poor_travel_agent.Base.Dict.{lookup, put}
use poor_travel_agent.Jobs.Tables.{
  Error, not_found, is_leased, is_over, Item, Job, External, KeyStatus, Key, Db, Context, Jobs,
}
use poor_travel_agent.Jobs.Refresh.{append_event, refresh_job}
use poor_travel_agent.Jobs.Changes.{
  Update, Outcome, refuse, nothing, change, breaks_unique, commit, finish, with_job, with_item,
  on_item, is_owner, require_lease,
}
use poor_travel_agent.Jobs.Methods.{beat, each_rest, for_each}
use poor_travel_agent.Jobs.Cancelling.{
  cancelling_waiting, mark_cancelling, cancel_waiting, announce_cancelling, say_cancelling,
  cancel_found, cancel_job,
}
use poor_travel_agent.Jobs.Claims.{processing_key, by_key_status, claim_key, claim_of}
use poor_travel_agent.Jobs.Machine.{IsChange}
use poor_travel_agent.Jobs.Changed.{IsSound, cancelling_waiting-IsSound}
use poor_travel_agent.Jobs.Creation.{NewJob, clashes, opened}
use poor_travel_agent.Jobs.Refresh.{set_plan}
use poor_travel_agent.Jobs.Tables.{SyncPlan, SourceSync}

-- a key that a claim may take: there is none, or its item has failed
abbrev pub IsFree : String → Db → Type 0
IsFree name db =
    (lookup name db.keys ≡ none)
    ⊎ ((k : Key) × (lookup name db.keys ≡ some k) × (k.status ≡ KeyStatus.key_failed))

abbrev pub with_beat : String → Item → ℕ → Db → Db
with_beat id i t db = record db { items = put id (record i { lease_expires_at = some t }) db.items }

abbrev pub with_key : String → String → Db → Db
with_key id name db = record db { keys = put name (processing_key id) db.keys }

-- what is kept by every update of one item, by a heartbeat and by the claim of a key
pub record Kept (P : Db → Type 0) : Type 0 where
  pub commits :
      (c : Context) (id : String) (i : Item) (j : Job) (u : Update) (db : Db)
      → P db
      → lookup id db.items ≡ some i
      → lookup i.job_id db.jobs ≡ some j
      → IsChange i j u
      → P (commit c id i.job_id u db)
  pub beats :
      (id : String) (i : Item) (t : ℕ) (db : Db)
      → P db
      → lookup id db.items ≡ some i
      → is_leased i.status ≡ true
      → P (with_beat id i t db)
  pub takes : (id name : String) (db : Db) → P db → IsFree name db → P (with_key id name db)

pub each_rest-keeps :
    (P : Db → Type 0) (rest : Jobs (Unit {0})) (x : Result Error (Option Item) × Db)
    → ((t : Db) → P t → P (rest t).1)
    → P x.1
    → P (each_rest rest x).1
each_rest-keeps P rest (ok i, db) k h = k db h
each_rest-keeps P rest (raised e, db) k h = h

module _ {P : Db → Type 0} (k : Kept P) where
  finish-Kept :
      (c : Context) (id : String) (i : Item) (j : Job) (o : Outcome) (db : Db)
      → P db
      → lookup id db.items ≡ some i
      → lookup i.job_id db.jobs ≡ some j
      → ((u : Update) → o ≡ change u → IsChange i j u)
      → P (finish c id i.job_id o db).1
  finish-Kept c id i j (refuse e) db h a b s = h
  finish-Kept c id i j nothing db h a b s = h
  finish-Kept c id i j (change u) db h a b s =
      elim (Bool-cases (breaks_unique id u.external db.externals)) [
        | inl taken ↦ rw taken h
        | inr free ↦ rw free (k.commits c id i j u db h a b (s u refl))
      ]

  with_job-Kept :
      (c : Context) (id : String) (missing : Result Error (Option Item))
      (f : Item → Job → Option External → Outcome) (i : Item) (j : Option Job) (db : Db)
      → IsSound f
      → P db
      → lookup id db.items ≡ some i
      → lookup i.job_id db.jobs ≡ j
      → P (with_job c id missing f i j db).1
  with_job-Kept c id missing f i none db s h a b = h
  with_job-Kept c id missing f i (some j) db s h a b =
      finish-Kept c id i j (f i j (lookup id db.externals)) db h a b
        (λ u e. s.at i j (lookup id db.externals) u e)

  with_item-Kept :
      (c : Context) (id : String) (missing : Result Error (Option Item))
      (f : Item → Job → Option External → Outcome) (i : Option Item) (db : Db)
      → IsSound f
      → P db
      → lookup id db.items ≡ i
      → P (with_item c id missing f i db).1
  with_item-Kept c id missing f none db s h a = h
  with_item-Kept c id missing f (some i) db s h a =
      with_job-Kept c id missing f i (lookup i.job_id db.jobs) db s h a refl

  pub on_item-Kept :
      (c : Context) (id : String) (missing : Result Error (Option Item))
      (f : Item → Job → Option External → Outcome) (db : Db)
      → IsSound f
      → P db
      → P (on_item c id missing f db).1
  unfolding on_item
  on_item-Kept c id missing f db s h =
      with_item-Kept c id missing f (lookup id db.items) db s h refl

  pub for_each-Kept :
      (c : Context) (f : Item → Job → Option External → Outcome) (ids : List String) (db : Db)
      → IsSound f
      → P db
      → P (for_each (λ id. on_item c id (raised not_found) f) ids db).1
  unfolding for_each
  for_each-Kept c f [] db s h = h
  for_each-Kept c f (id ∷ ids) db s h =
      each_rest-keeps P _ (on_item c id (raised not_found) f db)
        (λ t g. for_each-Kept c f ids t s g) (on_item-Kept c id (raised not_found) f db s h)

  pub beat-Kept :
      (c : Context) (id worker : String) (lease : ℕ) (o : Option Item) (db : Db)
      → P db
      → lookup id db.items ≡ o
      → P (beat c id worker lease o db).1
  beat-Kept c id worker lease none db h a = h
  beat-Kept c id worker lease (some i) db h a =
      elim (Bool-cases (not (is_owner worker i) || not (is_leased i.status))) [
        | inl out ↦ rw out h
        | inr held ↦ rw held (k.beats id i (c.now + lease) db h a (ground (arith, held)))
      ]

  guarded-Kept :
      (b : Bool) (e : Error) (m : Jobs (Option Item)) (db : Db)
      → P db
      → P (m db).1
      → P (if b then (raised e, db) else m db).1
  guarded-Kept true e m db h g = h
  guarded-Kept false e m db h g = g

  pub either :
      {A : Type 0} (b : Bool) (x y : Result Error A × Db) → P x.1 → P y.1 → P (if b then x else y).1
  either true x y h g = h
  either false x y h g = g

  by_key-Kept :
      (id name : String) (x : Key) (s : KeyStatus) (db : Db)
      → P db
      → lookup name db.keys ≡ some x
      → x.status ≡ s
      → P (by_key_status id name x s db).1
  by_key-Kept id name x KeyStatus.key_completed db h a b = h
  by_key-Kept id name x KeyStatus.key_failed db h a b =
      either (x.owner_item_id == id) _ _ h (k.takes id name db h (inr (x, a, b)))
  by_key-Kept id name x KeyStatus.processing db h a b = either (x.owner_item_id == id) _ _ h h

  claim_key-Kept :
      (id name : String) (o : Option Key) (db : Db)
      → P db
      → lookup name db.keys ≡ o
      → P (claim_key id name o db).1
  claim_key-Kept id name none db h a = k.takes id name db h (inl a)
  claim_key-Kept id name (some x) db h a = by_key-Kept id name x x.status db h a refl

  pub claim_of-Kept : (id : String) (o : Option Item) (db : Db) → P db → P (claim_of id o db).1
  claim_of-Kept id none db h = h
  claim_of-Kept id (some i) db h = claim_key-Kept id i.idempotency_key _ db h refl

  -- a method behind its lease
  pub leased-Kept :
      (c : Context) (id worker : String) (f : Item → Job → Option External → Outcome) (db : Db)
      → IsSound (require_lease worker f)
      → P db
      → P (on_item c id (raised not_found) (require_lease worker f) db).1
  leased-Kept c id worker f db s h =
      on_item-Kept c id (raised not_found) (require_lease worker f) db s h

-- The parts of `cancel_job` and `create_job`, for what each of them keeps.
pub record JobParts (P : Db → Type 0) : Type 0 where
  pub marks :
      (id : String) (j : Job) (db : Db)
      → P db
      → lookup id db.jobs ≡ some j
      → is_over j.status ≡ false
      → P (mark_cancelling id j db)
  pub says :
      (id : String) (j : Job) (db : Db)
      → P db
      → lookup id db.jobs ≡ some j
      → P (append_event id none "job" "cancelling" j db)
  pub refreshes : (c : Context) (id : String) (db : Db) → P db → P (refresh_job c id db)
  pub plans :
      (id : String) (p : SyncPlan) (y : SourceSync) (a b : String) (db : Db)
      → P db
      → P (set_plan id p y a b db)
  pub opens :
      (n : NewJob) (db : Db)
      → P db
      → lookup n.job_id db.jobs ≡ none
      → clashes n n.files db.items ≡ false
      → P (opened n db)

module _ {P : Db → Type 0} (k : Kept P) (p : JobParts P) where
  say-Kept :
      (id : String) (o : Option Job) (db : Db)
      → P db
      → lookup id db.jobs ≡ o
      → P (announce_cancelling id o db)
  say-Kept id none db h e = h
  say-Kept id (some j) db h e = p.says id j db h e

  -- what follows the flag in `cancel_job`
  pub after_mark-Kept :
      (c : Context) (id : String) (db : Db)
      → P db
      → P (refresh_job c id (say_cancelling id (cancel_waiting c id db)))
  unfolding cancel_waiting say_cancelling
  after_mark-Kept c id db h =
      p.refreshes c id _ (
        say-Kept id _ _ (for_each-Kept k c cancelling_waiting _ _ cancelling_waiting-IsSound h)
          refl)

  cancel_found-Kept :
      (c : Context) (id : String) (o : Option Job) (db : Db)
      → P db
      → lookup id db.jobs ≡ o
      → P (cancel_found c id o db).1
  cancel_found-Kept c id none db h e = h
  cancel_found-Kept c id (some j) db h e = elim (Bool-cases (is_over j.status)) [
    | inl over ↦ rw over h
    | inr live ↦ rw live (after_mark-Kept c id _ (p.marks id j db h e live))
  ]

  pub cancel_job-Kept : (c : Context) (id : String) (db : Db) → P db → P (cancel_job c id db).1
  unfolding cancel_job
  cancel_job-Kept c id db h = cancel_found-Kept c id (lookup id db.jobs) db h refl
