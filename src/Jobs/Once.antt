-- ===== src/Jobs/Once.antt =====
-- Through all calls, a completed key has a completed item, and never changes again.
use poor_travel_agent.Base.{
  String, true, false, ◌≡◌, refl, sym, subst, ap, ◌∙◌, inl, inr, some, List, arith, ◌==◌, eq_iff,
}
use poor_travel_agent.Base.Effect.{ok}
use poor_travel_agent.Base.Dict.{lookup, lookup-put}
use poor_travel_agent.Jobs.Tables.{
  ItemStatus, completed, cancelled, Item, Job, KeyStatus, Key, Db, Context,
}
use poor_travel_agent.Jobs.Refresh.{is_completed, append_event}
use poor_travel_agent.Jobs.Changes.{
  KeyChange, keep_key, fail_key, complete_key, Update, changed_key, commit,
}
use poor_travel_agent.Jobs.Cancelling.{mark_cancelling}
use poor_travel_agent.Jobs.Claims.{duplicate, busy, processing_key, claim_idempotency}
use poor_travel_agent.Jobs.Machine.{is_final, IsChange}
use poor_travel_agent.Jobs.Requests.{Request, serve}
use poor_travel_agent.Jobs.Creation.{opened}
use poor_travel_agent.Jobs.Kept.{Kept, JobParts}
use poor_travel_agent.Jobs.Served.{serve-Kept}
use poor_travel_agent.Jobs.Refreshed.{refresh_rows, commit_rows}
use poor_travel_agent.Jobs.Keys.{
  IsCompleted, HasOwners, IsOwnChange, put_key, lookup-change_key, same-IsIn, commit-IsIn,
  beat-IsIn,
}
use poor_travel_agent.Jobs.Held.{is_failed, added-IsIn, IsHeld, serve-IsHeld}

completed_is_final : (s : ItemStatus) → is_completed s ≡ true → is_final s ≡ true
completed_is_final s h = ground (arith, h)

same-HasOwners : (s t : Db) → t.items ≡ s.items → t.keys ≡ s.keys → HasOwners s → HasOwners t
same-HasOwners s t e f h = record {
  at = λ name k a b.
      same-IsIn is_completed k.owner_item_id s t e
        (h.at name k (ap (λ d. lookup name d) (sym f) ∙ a) b);
}

-- a key that an update leaves or writes as completed has a completed owner
changed_owner :
    (c : Context) (id name : String) (i : Item) (j : Job) (u : Update) (db : Db) (k : Key)
    → HasOwners db
    → lookup id db.items ≡ some i
    → IsChange i j u
    → k.status ≡ KeyStatus.key_completed
    → IsOwnChange id u.key name db.keys k
    → IsCompleted k.owner_item_id (commit c id i.job_id u db)
changed_owner c id name i j u db k h a ch st (old, there, own, e) = by u.key refl e
  where
    written : u.item.status ≡ completed → IsCompleted id (commit c id i.job_id u db)
    written s = record {
      item = u.item;
      is_there =
          ap (λ d. lookup id d) (commit_rows c id i.job_id u db).0
          ∙ ground (arith, lookup-put id id u.item db.items, eq_iff id id);
      status = ap is_completed s;
    }

    by :
        (ch : KeyChange)
        → u.key ≡ ch
        → k ≡ changed_key ch old
        → IsCompleted k.owner_item_id (commit c id i.job_id u db)
    by keep_key f g =
        commit-IsIn is_completed completed_is_final c id k.owner_item_id i j u db a ch
          (h.at name k (there ∙ ap some (sym g)) st)
    by fail_key f g = absurd (no (sym st ∙ ap Key.status g))
      where
        no : KeyStatus.key_completed ≡ KeyStatus.key_failed → ⊥
        no q = cc
    by (complete_key p) f g =
        subst (λ x. IsCompleted x (commit c id i.job_id u db)) (sym (ap Key.owner_item_id g ∙ own))
          (written (ch.completes p f))

HasOwners-Kept : Kept HasOwners
HasOwners-Kept = record {
  commits = λ c id i j u db h a b ch. record {
    at = λ name k g st.
        elim (lookup-change_key id u.key u.item.idempotency_key name db.keys k
          (ap (λ d. lookup name d) (sym (commit_rows c id i.job_id u db).1) ∙ g)) [
            | inl same ↦
                commit-IsIn is_completed completed_is_final c id k.owner_item_id i j u db a ch
                  (h.at name k same st)
            | inr own ↦ changed_owner c id name i j u db k h a ch st own
          ];
  };
  beats = λ id i t db h a l. record {
    at = λ name k g st.
        beat-IsIn is_completed completed_is_final id k.owner_item_id i t db a l (h.at name k g st);
  };
  takes = λ id name db h f. record {
    at = λ n k g st. elim (put_key name n (processing_key id) k db.keys g) [
      | inl same ↦ same-IsIn is_completed k.owner_item_id db _ refl (h.at n k same st)
      | inr new ↦ absurd (no (sym st ∙ ap Key.status new.1))
    ];
  };
}
  where
    no : KeyStatus.key_completed ≡ KeyStatus.processing → ⊥
    no q = cc

HasOwners-cancel : JobParts HasOwners
unfolding mark_cancelling append_event opened
HasOwners-cancel = record {
  marks = λ k j db h a b. same-HasOwners db _ refl refl h;
  says = λ k j db h a. same-HasOwners db _ refl refl h;
  refreshes = λ c k db h. same-HasOwners db _ (refresh_rows c k db).0 (refresh_rows c k db).1 h;
  plans = λ k p y a b db h. same-HasOwners db _ refl refl h;
  opens = λ n db h a b. record {
    at = λ name k g st. added-IsIn is_completed k.owner_item_id n db _ refl b (h.at name k g st);
  };
}

-- Every sequence of calls keeps this: the item that owns a completed idempotency key is in the table
-- and completed.
pub serve-HasOwners :
    (db : Db) (calls : List (Context × Request)) → HasOwners db → HasOwners (serve db calls)
serve-HasOwners db calls = serve-Kept HasOwners-Kept HasOwners-cancel db calls

duplicate_lem :
    (item : String) (i : Item) (k : Key) (db : Db)
    → lookup item db.items ≡ some i
    → lookup i.idempotency_key db.keys ≡ some k
    → k.status ≡ KeyStatus.key_completed
    → claim_idempotency item db ≡ (ok (duplicate k.proposal_id), db)
unfolding claim_idempotency
duplicate_lem item i k db a b st = rw (a, b) (rw st refl)

-- Where completed keys have completed owners: once a key is completed, and through any calls, every
-- item with that key that asks for it is told that it is a duplicate, with the proposal of the first.
pub completed_keys_answer_duplicate :
    (db : Db) (calls : List (Context × Request)) (name : String) (k : Key) (item : String)
    (i : Item)
    → HasOwners db
    → lookup name db.keys ≡ some k
    → k.status ≡ KeyStatus.key_completed
    → lookup item (serve db calls).items ≡ some i
    → i.idempotency_key ≡ name
    → claim_idempotency item (serve db calls) ≡ (ok (duplicate k.proposal_id), serve db calls)
completed_keys_answer_duplicate db calls name k item i o e st a m =
    duplicate_lem item i k (serve db calls) a
      (ap (λ x. lookup x (serve db calls).keys) m ∙ held.is_there) st
  where
    held : IsHeld name k (serve db calls)
    held = serve-IsHeld name k db calls (ap is_failed st) (record {
      owner =
          let own = o.at name k e st in
          record {
            item = own.item;
            is_there = own.is_there;
            status = completed_is_final own.item.status own.status;
          };
      is_there = e;
    })

busy_lem :
    (item : String) (i : Item) (k : Key) (db : Db)
    → lookup item db.items ≡ some i
    → lookup i.idempotency_key db.keys ≡ some k
    → k.status ≡ KeyStatus.processing
    → (k.owner_item_id == item) ≡ false
    → claim_idempotency item db ≡ (ok busy, db)
unfolding claim_idempotency
busy_lem item i k db a b st d = rw (a, b) (rw (st, d) refl)

-- Where the item that is processing a key is cancelled: through any calls, every other item with that
-- key that asks for it is told that it is busy, and the call changes nothing.
pub cancelled_owner_blocks_key :
    (db : Db) (calls : List (Context × Request)) (name : String) (k : Key) (o : Item)
    (item : String) (i : Item)
    → lookup name db.keys ≡ some k
    → k.status ≡ KeyStatus.processing
    → lookup k.owner_item_id db.items ≡ some o
    → o.status ≡ cancelled
    → lookup item (serve db calls).items ≡ some i
    → i.idempotency_key ≡ name
    → (k.owner_item_id == item) ≡ false
    → claim_idempotency item (serve db calls) ≡ (ok busy, serve db calls)
cancelled_owner_blocks_key db calls name k o item i e st b s a m d =
    busy_lem item i k (serve db calls) a
      (ap (λ x. lookup x (serve db calls).keys) m ∙ held.is_there) st d
  where
    held : IsHeld name k (serve db calls)
    held =
        serve-IsHeld name k db calls (ap is_failed st) (record {
          owner = record { item = o; is_there = b; status = ap is_final s };
          is_there = e;
        })
