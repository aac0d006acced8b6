-- ===== src/Jobs/Opened.antt =====
-- The rows that `create_job` adds.
use poor_travel_agent.Base.{
  ◌+◌, String, Bool, false, ◌≡◌, ◌⊎◌, inl, inr, none, some, List, [], ◌∷◌, length, ◌==◌, arith,
  Bool-cases, eq_iff, if◌then◌else◌,
}
use poor_travel_agent.Base.Dict.{Dict, lookup, put, lookup-put}
use poor_travel_agent.Sync.Changes.{ScannedFile}
use poor_travel_agent.Jobs.Tables.{Item}
use poor_travel_agent.Jobs.Refresh.{tally, of_job}
use poor_travel_agent.Jobs.Creation.{NewJob, new_item, add_items, clashes}
use poor_travel_agent.Jobs.Tally.{any}

new_id :
    (n : NewJob) (id : String) (f : ScannedFile) (fs : List (String × ScannedFile)) (d : Dict Item)
    → clashes n ((id, f) ∷ fs) d ≡ false
    → (lookup id d ≡ none) × (clashes n fs (put id (new_item n f) d) ≡ false)
unfolding clashes
new_id n id f fs d h = ground (arith, h)

-- an item that is there stays as it is
pub old_item_stays :
    (n : NewJob) (fs : List (String × ScannedFile)) (d : Dict Item) (k : String) (i : Item)
    → clashes n fs d ≡ false
    → lookup k d ≡ some i
    → lookup k (add_items n fs d) ≡ some i
unfolding add_items
old_item_stays n [] d k i c h = h
old_item_stays n ((id, f) ∷ fs) d k i c h =
    let (new, rest) = new_id n id f fs d c in
    old_item_stays n fs (put id (new_item n f) d) k i rest
      (ground (arith, h, new, lookup-put id k (new_item n f) d, eq_iff id k))

-- an item that is there afterwards was there, or is a new one
pub added_item :
    (n : NewJob) (fs : List (String × ScannedFile)) (d : Dict Item) (k : String) (i : Item)
    → lookup k (add_items n fs d) ≡ some i
    → (lookup k d ≡ some i) ⊎ ((f : ScannedFile) × (i ≡ new_item n f))
unfolding add_items
added_item n [] d k i h = inl h
added_item n ((id, f) ∷ fs) d k i h = elim (added_item n fs (put id (new_item n f) d) k i h) [
  | inr new ↦ inr new
  | inl old ↦ elim (Bool-cases (id == k)) [
    | inl here ↦ inr (f, ground (arith, old, here, lookup-put id k (new_item n f) d))
    | inr other ↦ inl (ground (arith, old, other, lookup-put id k (new_item n f) d))
  ]
]

tally-put_new :
    (p : Item → Bool) (k : String) (i : Item) (d : Dict Item)
    → lookup k d ≡ none
    → tally p (put k i d) ≡ tally p d + (if p i then 1 else 0)
unfolding tally put lookup
tally-put_new p k i [] h = ground arith
tally-put_new p k i ((x, w) ∷ d) h = elim (Bool-cases (x == k)) [
  | inl here ↦ absurd (ground (arith, here, h))
  | inr later ↦ ground (arith, later, tally-put_new p k i d (ground (arith, later, h)))
]

pub tally-add_items :
    (n : NewJob) (id : String) (fs : List (String × ScannedFile)) (d : Dict Item)
    → clashes n fs d ≡ false
    → tally (of_job id any) (add_items n fs d)
      ≡ tally (of_job id any) d + (if n.job_id == id then length fs else 0)
unfolding add_items
tally-add_items n id [] d c = ground arith
tally-add_items n id ((x, f) ∷ fs) d c =
    let (new, rest) = new_id n x f fs d c in
    let step = tally-put_new (of_job id any) x (new_item n f) d new in
    ground (arith, step, tally-add_items n id fs (put x (new_item n f) d) rest)
