-- ===== src/Jobs/Called.antt =====
-- One call, and what it makes of the row of one item.
use poor_travel_agent.Base.{
  String, true, ◌≡◌, refl, sym, subst, ap, ◌∙◌, inl, inr, Option, none, some, List, [], ◌∷◌, arith,
  Bool-cases, ◌==◌, str-eq→eq,
}
use poor_travel_agent.Base.Effect.{Result, raised}
use poor_travel_agent.Base.Dict.{lookup, put, lookup-put}
use poor_travel_agent.Jobs.Tables.{Error, not_found, Item, Job, External, Db, Context}
use poor_travel_agent.Jobs.Changes.{
  Update, Outcome, refuse, nothing, change, breaks_unique, finish, with_job, with_item, on_item,
}
use poor_travel_agent.Jobs.Methods.{for_each}
use poor_travel_agent.Jobs.Kept.{each_rest-keeps}
use poor_travel_agent.Jobs.Refreshed.{commit_rows}

-- the item with this id is there, and `P` holds of its row
pub record Becomes (id : String) (P : Item → Type 0) (db : Db) : Type 0 where
  pub row : Item
  pub is_there : lookup id db.items ≡ some row
  pub holds : P row

pub same-Becomes :
    {id : String} {P : Item → Type 0} (s t : Db)
    → t.items ≡ s.items
    → Becomes id P s
    → Becomes id P t
same-Becomes {id} s t e h = record {
  row = h.row;
  is_there = ap (λ d. lookup id d) e ∙ h.is_there;
  holds = h.holds;
}

pub map-Becomes :
    {id : String} {P Q : Item → Type 0} (db : Db)
    → ((i : Item) → P i → Q i)
    → Becomes id P db
    → Becomes id Q db
map-Becomes db f h = record { row = h.row; is_there = h.is_there; holds = f h.row h.holds }

-- One row is written: of this item, or of another.
pub put-Becomes :
    {P : Item → Type 0} (x id : String) (new : Item) (s t : Db)
    → t.items ≡ put x new s.items
    → ((x == id) ≡ true → P new)
    → Becomes id P s
    → Becomes id P t
put-Becomes x id new s t e f h = elim (Bool-cases (x == id)) [
  | inl same ↦ record {
    row = new;
    is_there = ground (arith, e, lookup-put x id new s.items, same);
    holds = f same;
  }
  | inr other ↦ record {
    row = h.row;
    is_there = ground (arith, e, lookup-put x id new s.items, other, h.is_there);
    holds = h.holds;
  }
]

pub the_row :
    {id : String} {P : Item → Type 0} (x : String) (db : Db) (i : Item) (h : Becomes id P db)
    → (x == id) ≡ true
    → lookup x db.items ≡ some i
    → i ≡ h.row
the_row {id} x db i h e a =
    same (sym a ∙ ap (λ k. lookup k db.items) (str-eq→eq x id e) ∙ h.is_there)
  where
    same : {y z : Item} → some y ≡ some z → y ≡ z
    same q = cc

module _ (c : Context) (x id : String) (missing : Result Error (Option Item))
    (f : Item → Job → Option External → Outcome) {P Q : Item → Type 0}
    (stays : (i : Item) → P i → Q i)
    (writes : (i : Item) (j : Job) (e : Option External) (u : Update)
      → (x == id) ≡ true
      → P i
      → f i j e ≡ change u
      → Q u.item) where
  finish-Becomes :
      (i : Item) (o : Outcome) (db : Db)
      → Becomes id P db
      → ((u : Update) → o ≡ change u → (x == id) ≡ true → Q u.item)
      → Becomes id Q (finish c x i.job_id o db).1
  finish-Becomes i (refuse e) db h k = map-Becomes db stays h
  finish-Becomes i nothing db h k = map-Becomes db stays h
  finish-Becomes i (change u) db h k = elim (Bool-cases (breaks_unique x u.external db.externals)) [
    | inl taken ↦ rw taken (map-Becomes db stays h)
    | inr free ↦ rw free (
        put-Becomes x id u.item db _ (commit_rows c x i.job_id u db).0 (k u refl)
          (map-Becomes db stays h))
  ]

  with_job-Becomes :
      (i : Item) (o : Option Job) (db : Db)
      → Becomes id P db
      → lookup x db.items ≡ some i
      → Becomes id Q (with_job c x missing f i o db).1
  with_job-Becomes i none db h a = map-Becomes db stays h
  with_job-Becomes i (some j) db h a =
      finish-Becomes i (f i j (lookup x db.externals)) db h λ u e s.
        writes i j (lookup x db.externals) u s (subst P (sym (the_row x db i h s a)) h.holds) e

  with_item-Becomes :
      (o : Option Item) (db : Db)
      → Becomes id P db
      → lookup x db.items ≡ o
      → Becomes id Q (with_item c x missing f o db).1
  with_item-Becomes none db h a = map-Becomes db stays h
  with_item-Becomes (some i) db h a = with_job-Becomes i (lookup i.job_id db.jobs) db h a

  -- What a decision makes of the row of an item, the method makes of it.
  pub on_item-Becomes : (db : Db) → Becomes id P db → Becomes id Q (on_item c x missing f db).1
  unfolding on_item
  on_item-Becomes db h = with_item-Becomes (lookup x db.items) db h refl

-- `Q` holds if this item is in a list of ids
abbrev pub IfIn : Type 0 → String → List String → Type 0
IfIn Q id [] = Unit {0}
IfIn Q id (x ∷ ids) = ((x == id) ≡ true → Q) × IfIn Q id ids

-- the same for a loop over items, where `Q` holds if it comes to this one
module _ (c : Context) (id : String) (f : Item → Job → Option External → Outcome)
    {P : Item → Type 0} (Q : Type 0)
    (keeps : (i : Item) (j : Job) (e : Option External) (u : Update)
      → Q
      → P i
      → f i j e ≡ change u
      → P u.item) where
  pub for_each-Becomes :
      (ids : List String) (db : Db)
      → IfIn Q id ids
      → Becomes id P db
      → Becomes id P (for_each (λ x. on_item c x (raised not_found) f) ids db).1
  unfolding for_each
  for_each-Becomes [] db q h = h
  for_each-Becomes (x ∷ ids) db q h =
      each_rest-keeps (Becomes id P) _ (on_item c x (raised not_found) f db)
        (λ t g. for_each-Becomes ids t q.1 g)
        (on_item-Becomes c x id (raised not_found) f (λ i p. p)
          (λ i j e u s p. keeps i j e u (q.0 s) p) db h)
