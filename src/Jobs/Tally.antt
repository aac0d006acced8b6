-- ===== src/Jobs/Tally.antt =====
-- Counting the rows of a table.
use poor_travel_agent.Base.{
  ◌+◌, ◌≤◌, String, Bool, true, ◌≡◌, refl, inl, inr, none, some, [], ◌∷◌, arith, Bool-cases, ◌==◌,
  if◌then◌else◌,
}
use poor_travel_agent.Base.Dict.{Dict, lookup, put}
use poor_travel_agent.Jobs.Tables.{ItemStatus, is_ended, Item}
use poor_travel_agent.Jobs.Refresh.{
  tally, of_job, is_completed, is_skipped, is_cancelled, is_dead_letter, processed_of,
}

abbrev pub any : ItemStatus → Bool
any s = true

pub tally-put :
    (p : Item → Bool) (k : String) (old new : Item) (d : Dict Item)
    → lookup k d ≡ some old
    → p new ≡ p old
    → tally p (put k new d) ≡ tally p d
unfolding tally put lookup
tally-put p k old new [] h e = absurd (no h)
  where
    no : none ≡ some old → ⊥
    no q = cc
tally-put p k old new ((i, w) ∷ d) h e = elim (Bool-cases (i == k)) [
  | inl here ↦ ground (arith, here, h, e)
  | inr later ↦ ground (arith, later, tally-put p k old new d (ground (arith, later, h)) e)
]

ended_parts :
    (s : ItemStatus)
    → (if is_ended s then 1 else 0)
      ≡ (if is_completed s then 1 else 0)
        + (if is_skipped s then 1 else 0)
        + (if is_cancelled s then 1 else 0)
        + (if is_dead_letter s then 1 else 0)
ended_parts s = ground arith

pub processed_lem :
    (job : String) (d : Dict Item) → processed_of job d ≡ tally (of_job job is_ended) d
unfolding processed_of tally
processed_lem job [] = refl
processed_lem job ((k, i) ∷ d) = elim (Bool-cases (i.job_id == job)) [
  | inl mine ↦ ground (arith, mine, ended_parts i.status, processed_lem job d)
  | inr other ↦ ground (arith, other, processed_lem job d)
]

tally_le : (job : String) (d : Dict Item) → tally (of_job job is_ended) d ≤ tally (of_job job any) d
unfolding tally
tally_le job [] = ground arith
tally_le job ((k, i) ∷ d) = ground (arith, tally_le job d)

-- where as many rows of a job have ended as there are, each of them has
pub all_ended :
    (job k : String) (i : Item) (d : Dict Item)
    → tally (of_job job is_ended) d ≡ tally (of_job job any) d
    → lookup k d ≡ some i
    → (i.job_id == job) ≡ true
    → is_ended i.status ≡ true
unfolding tally lookup
all_ended job k i [] e h m = absurd (no h)
  where
    no : none ≡ some i → ⊥
    no q = cc
all_ended job k i ((x, w) ∷ d) e h m = elim (Bool-cases (x == k)) [
  | inl here ↦ ground (arith, here, h, e, m, tally_le job d)
  | inr later ↦ all_ended job k i d (ground (arith, e, tally_le job d)) (ground (arith, later, h)) m
]
