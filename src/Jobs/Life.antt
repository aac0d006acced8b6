-- ===== src/Jobs/Life.antt =====
-- The methods refine the machine of `Jobs.Edges`, and a lease always has an owner and an end.
use poor_travel_agent.Base.{
  ℕ, String, true, ◌≡◌, refl, sym, subst, ap, ◌∙◌, inl, inr, some, List, [], ◌∷◌, arith,
}
use poor_travel_agent.Base.Dict.{lookup, put, lookup-put, IsDict}
use poor_travel_agent.Jobs.Tables.{is_leased, Item, Db, Context}
use poor_travel_agent.Jobs.Refresh.{append_event}
use poor_travel_agent.Jobs.Cancelling.{mark_cancelling}
use poor_travel_agent.Jobs.Machine.{is_final, has_lease_of_status}
use poor_travel_agent.Jobs.Requests.{Request, step, serve}
use poor_travel_agent.Jobs.Creation.{opened}
use poor_travel_agent.Jobs.Opened.{added_item}
use poor_travel_agent.Jobs.Kept.{Kept, JobParts}
use poor_travel_agent.Jobs.Served.{step-Kept, serve-Kept}
use poor_travel_agent.Jobs.Refreshed.{refresh_rows, commit_rows}
use poor_travel_agent.Jobs.Edges.{allows, Call, History, ended, then_call}
use poor_travel_agent.Jobs.Called.{Becomes, map-Becomes}
use poor_travel_agent.Jobs.Selected.{HasIds-Kept, HasIds-parts}
use poor_travel_agent.Jobs.Stepped.{step_is_call}

-- From a table in which no two items have one id: through any sequence of calls, raising or not, an
-- item stays in its table, and its row goes one step of the machine of `Jobs.Edges` for each call. A
-- call that is about the item and finds it in the state that the machine wants may move its row along
-- the edge of that call: the status it enters, the owner of the lease and the attempts are those of
-- the edge, and the job, source, path, revision, kind, key and limit stay. Otherwise the row is
-- exactly as before.
pub items_refine_machine :
    (db : Db) (calls : List (Context × Request)) (id : String) (i : Item)
    → IsDict db.items
    → lookup id db.items ≡ some i
    → Becomes id (History id calls i) (serve db calls)
unfolding serve
items_refine_machine db [] id i u h = record { row = i; is_there = h; holds = ended }
items_refine_machine db ((c, r) ∷ rest) id i u h =
    let one = step_is_call c r db id i u h in
    map-Becomes (serve (step c r db) rest) (λ k g. then_call one.holds g)
      (items_refine_machine (step c r db) rest id one.row
        (step-Kept HasIds-Kept HasIds-parts c r db u) one.is_there)

-- The machine has no edge from a final status.
final_is_not_allowed :
    (c : Context) (r : Request) (i : Item) → is_final i.status ≡ true → allows c r i ≡ true → ⊥
unfolding allows
final_is_not_allowed c (Request.claim x w l) i f h = ground (arith, f, h)
final_is_not_allowed c (Request.beat x w l) i f h = ground (arith, f, h)
final_is_not_allowed c (Request.parse x w) i f h = ground (arith, f, h)
final_is_not_allowed c (Request.apply x w) i f h = ground (arith, f, h)
final_is_not_allowed c r i f h = ground (arith, f, h)

Call-final :
    (c : Context) (r : Request) (id : String) (i j : Item)
    → is_final i.status ≡ true
    → Call c id r i j
    → j ≡ i
Call-final c r id i j f (inl same) = same
Call-final c r id i j f (inr (a, m)) = absurd (final_is_not_allowed c r i f m.allowed)

History-final :
    {id : String} {calls : List (Context × Request)} {i k : Item}
    → is_final i.status ≡ true
    → History id calls i k
    → k ≡ i
History-final f ended = refl
History-final {id} {i} {k} f (then_call {c} {r} {j} one rest) =
    let same = Call-final c r id i j f one in
    History-final (subst (λ x. is_final x.status ≡ true) (sym same) f) rest ∙ same

-- From a table in which no two items have one id: an item that is completed, skipped or cancelled has
-- the very same row after any sequence of calls, raising or not.
pub ended_items_stay :
    (db : Db) (calls : List (Context × Request)) (id : String) (i : Item)
    → IsDict db.items
    → lookup id db.items ≡ some i
    → is_final i.status ≡ true
    → lookup id (serve db calls).items ≡ some i
ended_items_stay db calls id i u h f =
    let last = items_refine_machine db calls id i u h in
    last.is_there ∙ ap some (History-final f last.holds)

-- every item under a lease has an owner and an end of the lease, every other has neither
pub record HasLeases (db : Db) : Type 0 where
  pub at : (id : String) (i : Item) → lookup id db.items ≡ some i → has_lease_of_status i ≡ true

put-HasLeases :
    (k : String) (new : Item) (s t : Db)
    → t.items ≡ put k new s.items
    → has_lease_of_status new ≡ true
    → HasLeases s
    → HasLeases t
put-HasLeases k new s t e f h = record {
  at = λ id i a. ground (arith, a, e, f, lookup-put k id new s.items, h.at id i);
}

same-HasLeases : (s t : Db) → t.items ≡ s.items → HasLeases s → HasLeases t
same-HasLeases s t e h = record { at = λ id i a. h.at id i (sym (ap (λ d. lookup id d) e) ∙ a) }

beat_lease :
    (i : Item) (t : ℕ)
    → is_leased i.status ≡ true
    → has_lease_of_status i ≡ true
    → has_lease_of_status (record i { lease_expires_at = some t }) ≡ true
unfolding has_lease_of_status
beat_lease i t l h = ground (arith, l, h)

HasLeases-Kept : Kept HasLeases
HasLeases-Kept = record {
  commits = λ c k old j u db h a b ch.
      put-HasLeases k u.item db _ (commit_rows c k old.job_id u db).0 (ch.lease (h.at k old a)) h;
  beats = λ k old t db h a l. put-HasLeases k _ db _ refl (beat_lease old t l (h.at k old a)) h;
  takes = λ k name db h f. same-HasLeases db _ refl h;
}

HasLeases-cancel : JobParts HasLeases
unfolding mark_cancelling append_event opened has_lease_of_status
HasLeases-cancel = record {
  marks = λ k j db h a b. same-HasLeases db _ refl h;
  says = λ k j db h a. same-HasLeases db _ refl h;
  refreshes = λ c k db h. same-HasLeases db _ (refresh_rows c k db).0 h;
  plans = λ k p y a b db h. same-HasLeases db _ refl h;
  opens = λ n db h a b. record {
    at = λ k i g. elim (added_item n n.files db.items k i g) [
      | inl old ↦ h.at k i old
      | inr (f, new) ↦ rw new refl
    ];
  };
}

-- Every sequence of calls keeps this: an item that is claimed, parsing, understanding or applying has
-- an owner and an end of its lease, and an item in any other status has neither.
pub serve-HasLeases :
    (db : Db) (calls : List (Context × Request)) → HasLeases db → HasLeases (serve db calls)
serve-HasLeases db calls = serve-Kept HasLeases-Kept HasLeases-cancel db calls
