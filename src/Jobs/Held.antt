-- ===== src/Jobs/Held.antt =====
-- A key that is not free keeps its row while its owner has ended for good.
use poor_travel_agent.Base.{
  String, Bool, true, false, ◌≡◌, refl, sym, subst, ap, ◌∙◌, inl, inr, none, some, List, arith,
  Bool-cases, ◌==◌, str-eq→eq,
}
use poor_travel_agent.Base.Dict.{lookup, lookup-put}
use poor_travel_agent.Jobs.Tables.{ItemStatus, KeyStatus, Key, Db, Context}
use poor_travel_agent.Jobs.Refresh.{append_event}
use poor_travel_agent.Jobs.Cancelling.{mark_cancelling}
use poor_travel_agent.Jobs.Claims.{processing_key}
use poor_travel_agent.Jobs.Machine.{is_final}
use poor_travel_agent.Jobs.Requests.{Request, serve}
use poor_travel_agent.Jobs.Creation.{NewJob, add_items, clashes, opened}
use poor_travel_agent.Jobs.Opened.{old_item_stays}
use poor_travel_agent.Jobs.Kept.{with_key, IsFree, Kept, JobParts}
use poor_travel_agent.Jobs.Served.{serve-Kept}
use poor_travel_agent.Jobs.Refreshed.{refresh_rows, commit_rows}
use poor_travel_agent.Jobs.Keys.{
  IsIn, some_of, foreign_key_stays, same-IsIn, not_in_before, commit-IsIn, beat-IsIn,
}

abbrev pub is_failed : KeyStatus → Bool
is_failed KeyStatus.key_failed = true
is_failed _ = false

pub added-IsIn :
    (p : ItemStatus → Bool) (o : String) (n : NewJob) (s t : Db)
    → t.items ≡ add_items n n.files s.items
    → clashes n n.files s.items ≡ false
    → IsIn p o s
    → IsIn p o t
added-IsIn p o n s t e b h = record {
  item = h.item;
  is_there = ap (λ d. lookup o d) e ∙ old_item_stays n n.files s.items o h.item b h.is_there;
  status = h.status;
}

-- a key that is not free, with an owner that has ended for good
pub record IsHeld (name : String) (k : Key) (db : Db) : Type 0 where
  pub owner : IsIn is_final k.owner_item_id db
  pub is_there : lookup name db.keys ≡ some k

taken_stays :
    (id name n : String) (k : Key) (db : Db)
    → is_failed k.status ≡ false
    → lookup n db.keys ≡ some k
    → IsFree name db
    → lookup n (with_key id name db).keys ≡ some k
taken_stays id name n k db st a f = elim (Bool-cases (name == n)) [
  | inr other ↦ ground (arith, other, a, lookup-put name n (processing_key id) db.keys)
  | inl same ↦ absurd (not_free (subst (λ x. IsFree x db) (str-eq→eq name n same) f))
]
  where
    not_free : IsFree n db → ⊥
    not_free (inl e) = no (sym e ∙ a)
      where
        no : none ≡ some k → ⊥
        no q = cc
    not_free (inr (x, e, s)) = no (ap is_failed (sym s ∙ ap Key.status (some_of (sym e ∙ a))) ∙ st)
      where
        no : true ≡ false → ⊥
        no q = cc

itself : (s : ItemStatus) → is_final s ≡ true → is_final s ≡ true
itself s h = h

IsHeld-Kept : (name : String) (k : Key) → is_failed k.status ≡ false → Kept (IsHeld name k)
IsHeld-Kept name k st = record {
  commits = λ c id i j u db h a b ch. record {
    owner = commit-IsIn is_final itself c id k.owner_item_id i j u db a ch h.owner;
    is_there = elim (foreign_key_stays id u.key u.item.idempotency_key name db.keys k h.is_there) [
      | inl stays ↦ ap (λ d. lookup name d) (commit_rows c id i.job_id u db).1 ∙ stays
      | inr own ↦ absurd (
          not_in_before is_final itself id i j u db a ch
            (subst (λ x. IsIn is_final x db) own h.owner))
    ];
  };
  beats = λ id i t db h a l. record {
    owner = beat-IsIn is_final itself id k.owner_item_id i t db a l h.owner;
    is_there = h.is_there;
  };
  takes = λ id n db h f. record {
    owner = same-IsIn is_final k.owner_item_id db _ refl h.owner;
    is_there = taken_stays id n name k db st h.is_there f;
  };
}

IsHeld-cancel : (name : String) (k : Key) → JobParts (IsHeld name k)
unfolding mark_cancelling append_event opened
IsHeld-cancel name k = record {
  marks = λ id j db h a b. record {
    owner = same-IsIn is_final k.owner_item_id db _ refl h.owner;
    is_there = h.is_there;
  };
  says = λ id j db h a. record {
    owner = same-IsIn is_final k.owner_item_id db _ refl h.owner;
    is_there = h.is_there;
  };
  refreshes = λ c id db h. record {
    owner = same-IsIn is_final k.owner_item_id db _ (refresh_rows c id db).0 h.owner;
    is_there = ap (λ d. lookup name d) (refresh_rows c id db).1 ∙ h.is_there;
  };
  plans = λ id p y a b db h. record {
    owner = same-IsIn is_final k.owner_item_id db _ refl h.owner;
    is_there = h.is_there;
  };
  opens = λ n db h a b. record {
    owner = added-IsIn is_final k.owner_item_id n db _ refl b h.owner;
    is_there = h.is_there;
  };
}

pub serve-IsHeld :
    (name : String) (k : Key) (db : Db) (calls : List (Context × Request))
    → is_failed k.status ≡ false
    → IsHeld name k db
    → IsHeld name k (serve db calls)
serve-IsHeld name k db calls st h =
    serve-Kept (IsHeld-Kept name k st) (IsHeld-cancel name k) db calls h
