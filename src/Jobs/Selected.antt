-- ===== src/Jobs/Selected.antt =====
-- What a query selects, and the ids of the table of items, of which no call makes two.
use poor_travel_agent.Base.{
  String, Bool, true, false, ◌≡◌, sym, subst, inl, inr, none, some, List, [], ◌∷◌, arith,
  Bool-cases, ◌==◌, str-eq→eq,
}
use poor_travel_agent.Base.Dict.{Dict, lookup, put, IsDict, put-IsDict}
use poor_travel_agent.Sync.Changes.{ScannedFile}
use poor_travel_agent.Jobs.Tables.{Item, Db}
use poor_travel_agent.Jobs.Refresh.{append_event}
use poor_travel_agent.Jobs.Methods.{select_ids}
use poor_travel_agent.Jobs.Cancelling.{mark_cancelling}
use poor_travel_agent.Jobs.Creation.{NewJob, new_item, add_items, opened}
use poor_travel_agent.Jobs.Kept.{Kept, JobParts}
use poor_travel_agent.Jobs.Refreshed.{refresh_rows, commit_rows}
use poor_travel_agent.Jobs.Called.{IfIn}

absent-IfIn :
    (Q : Type 0) (p : Item → Bool) (id : String) (d : Dict Item)
    → lookup id d ≡ none
    → IfIn Q id (select_ids p d)
unfolding select_ids lookup
absent-IfIn Q p id [] h = tt
absent-IfIn Q p id ((k, w) ∷ d) h = elim (Bool-cases (k == id)) [
  | inl here ↦ absurd (ground (arith, here, h))
  | inr later ↦
      let rest : IfIn Q id (select_ids p d) = absent-IfIn Q p id d (ground (arith, later, h)) in
      elim (Bool-cases (p w)) [
        | inl chosen ↦ rw chosen (λ q. absurd (no q later), rest)
        | inr left ↦ rw left rest
      ]
]
  where
    no : {b : Bool} → b ≡ true → b ≡ false → ⊥
    no q r = cc

-- An item that the query selects is as it asks.
pub select-IfIn :
    (p : Item → Bool) (id : String) (i : Item) (d : Dict Item)
    → IsDict d
    → lookup id d ≡ some i
    → IfIn (p i ≡ true) id (select_ids p d)
unfolding select_ids lookup IsDict
select-IfIn p id i [] u h = tt
select-IfIn p id i ((k, w) ∷ d) (new, u) h = elim (Bool-cases (k == id)) [
  | inl here ↦
      let rest : IfIn (p i ≡ true) id (select_ids p d) =
        absent-IfIn (p i ≡ true) p id d
          (subst (λ x. lookup x d ≡ none) (str-eq→eq k id here) new) in
      elim (Bool-cases (p w)) [
        | inl chosen ↦ rw chosen (λ q. ground (arith, here, h, chosen), rest)
        | inr left ↦ rw left rest
      ]
  | inr later ↦
      let rest : IfIn (p i ≡ true) id (select_ids p d) =
        select-IfIn p id i d u (ground (arith, later, h)) in
      elim (Bool-cases (p w)) [
        | inl chosen ↦ rw chosen (λ q. absurd (no q later), rest)
        | inr left ↦ rw left rest
      ]
]
  where
    no : {b : Bool} → b ≡ true → b ≡ false → ⊥
    no q r = cc

pub any-IfIn : (id : String) (ids : List String) → IfIn (Unit {0}) id ids
any-IfIn id [] = tt
any-IfIn id (x ∷ ids) = (λ q. tt, any-IfIn id ids)

-- no two items have one id
abbrev pub HasIds : Db → Type 0
HasIds db = IsDict db.items

pub HasIds-Kept : Kept HasIds
HasIds-Kept = record {
  commits = λ c k i j u db h a b ch.
      subst IsDict (sym (commit_rows c k i.job_id u db).0) (put-IsDict k u.item db.items h);
  beats = λ k i t db h a l. put-IsDict k (record i { lease_expires_at = some t }) db.items h;
  takes = λ k name db h f. h;
}

add_items-IsDict :
    (n : NewJob) (fs : List (String × ScannedFile)) (d : Dict Item)
    → IsDict d
    → IsDict (add_items n fs d)
unfolding add_items
add_items-IsDict n [] d h = h
add_items-IsDict n ((id, f) ∷ fs) d h =
    add_items-IsDict n fs (put id (new_item n f) d) (put-IsDict id (new_item n f) d h)

pub HasIds-parts : JobParts HasIds
unfolding mark_cancelling append_event opened
HasIds-parts = record {
  marks = λ k j db h a b. h;
  says = λ k j db h a. h;
  refreshes = λ c k db h. subst IsDict (sym (refresh_rows c k db).0) h;
  plans = λ k p y a b db h. h;
  opens = λ n db h a b. add_items-IsDict n n.files db.items h;
}
