-- ===== src/Jobs/OneItem.antt =====
-- A method on one item is at most one edge of the machine of `Jobs.Edges`, for every item.
use poor_travel_agent.Base.{
  ℕ, ◌+◌, String, Bool, true, false, not, ◌||◌, ◌≡◌, refl, subst, ap, ◌∙◌, ◌⊎◌, inl, inr, Option,
  none, some, arith, Bool-cases, ◌==◌, if◌then◌else◌,
}
use poor_travel_agent.Base.Effect.{Result}
use poor_travel_agent.Base.Dict.{lookup}
use poor_travel_agent.Jobs.Tables.{Error, is_leased, Item, Job, External, Db, Context}
use poor_travel_agent.Jobs.Changes.{Update, Outcome, change, is_owner, on_item}
use poor_travel_agent.Jobs.Methods.{beat}
use poor_travel_agent.Jobs.Requests.{Request}
use poor_travel_agent.Jobs.Edges.{
  is_about, allows, Enters, owner_after, attempts_after, IsMove, Call,
}
use poor_travel_agent.Jobs.Moved.{Decides}
use poor_travel_agent.Jobs.Called.{
  Becomes, same-Becomes, map-Becomes, put-Becomes, the_row, on_item-Becomes,
}

-- what a call makes of the row `i` of an item
abbrev pub After : Context → String → Request → Item → Db → Type 0
After c id r i db = Becomes id (Call c id r i) db

unfoldable pub unmoved :
    {id : String} {i : Item} (db : Db) → lookup id db.items ≡ some i → Becomes id (λ k. k ≡ i) db
unmoved {i} db h = record { row = i; is_there = h; holds = refl }

pub stayed :
    {c : Context} {id : String} {r : Request} {i : Item} (db : Db)
    → Becomes id (λ k. k ≡ i) db
    → After c id r i db
stayed db h = map-Becomes db (λ k e. inl e) h

-- a decision, as the step of the machine
pub decided :
    (c : Context) (id : String) (r : Request) (i k new : Item)
    → (new ≡ k) ⊎ IsMove c r k new
    → k ≡ i
    → (IsMove c r k new → is_about r id k ≡ true)
    → Call c id r i new
decided c id r i k new (inl same) e about = inl (same ∙ e)
decided c id r i k new (inr move) e about =
    subst (λ x. Call c id r x new) e (inr (about move, move))

module _ (c : Context) (id : String) (i : Item) (db : Db)
    (there : lookup id db.items ≡ some i) where
  -- a method on one item
  pub one_item :
      (r : Request) (x : String) (missing : Result Error (Option Item))
      (f : Item → Job → Option External → Outcome)
      → Decides c r f
      → ((k : Item) (j : Job) (e : Option External) (u : Update)
          → (x == id) ≡ true
          → f k j e ≡ change u
          → IsMove c r k u.item
          → is_about r id k ≡ true)
      → After c id r i (on_item c x missing f db).1
  one_item r x missing f d about =
      on_item-Becomes c x id missing f (λ k e. inl e)
        (λ k j e u s p h. decided c id r i k u.item (d.at k j e u h) p (about k j e u s h)) db
        (unmoved db there)

  -- a method on one item that may refuse its arguments first
  pub checked :
      (r : Request) (b : Bool) (x y : Result Error (Option Item) × Db)
      → x.1 ≡ db
      → After c id r i y.1
      → After c id r i (if b then x else y).1
  checked r true x y e h = stayed x.1 (same-Becomes db x.1 (ap Db.items e) (unmoved db there))
  checked r false x y e h = h

  beat_move :
      (x worker : String) (lease : ℕ) (k : Item)
      → (not (is_owner worker k) || not (is_leased k.status)) ≡ false
      → IsMove c
          (Request.beat x worker lease)
          k
          (record k { lease_expires_at = some (c.now + lease) })
  unfolding allows Enters owner_after attempts_after
  beat_move x worker lease k h = ground (arith, h)

  pub beat_lem :
      (x worker : String) (lease : ℕ) (o : Option Item)
      → lookup x db.items ≡ o
      → After c id (Request.beat x worker lease) i (beat c x worker lease o db).1
  unfolding is_about unmoved
  beat_lem x worker lease none e = stayed db (unmoved db there)
  beat_lem x worker lease (some k) e =
      elim (Bool-cases (not (is_owner worker k) || not (is_leased k.status))) [
        | inl out ↦ rw out (stayed db (unmoved db there))
        | inr held ↦ rw held (
            put-Becomes x id (record k { lease_expires_at = some (c.now + lease) }) db _ refl
              (λ s.
                decided c id (Request.beat x worker lease) i k _
                  (inr (beat_move x worker lease k held)) (the_row x db k (unmoved db there) s e)
                  (λ m. s))
              (stayed db (unmoved db there)))
      ]
