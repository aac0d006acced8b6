-- ===== src/Jobs/Keys.antt =====
-- The idempotency keys: a document is taken by one item at a time, and is done once.
use poor_travel_agent.Base.{
  ℕ, String, Bool, true, false, ◌≡◌, refl, sym, subst, ap, ◌∙◌, ◌⊎◌, inl, inr, Option, none, some,
  arith, Bool-cases, ◌==◌, eq_iff, str-eq→eq,
}
use poor_travel_agent.Base.Dict.{Dict, lookup, put, lookup-put}
use poor_travel_agent.Jobs.Tables.{ItemStatus, is_leased, Item, Job, KeyStatus, Key, Db, Context}
use poor_travel_agent.Jobs.Refresh.{is_completed}
use poor_travel_agent.Jobs.Changes.{
  KeyChange, Update, changed_key, change_owned, change_key, commit,
}
use poor_travel_agent.Jobs.Machine.{is_final, IsChange}
use poor_travel_agent.Jobs.Kept.{with_beat}
use poor_travel_agent.Jobs.Refreshed.{commit_rows}

-- an item with a status that passes a test
pub record IsIn (p : ItemStatus → Bool) (id : String) (db : Db) : Type 0 where
  pub item : Item
  pub is_there : lookup id db.items ≡ some item
  pub status : p item.status ≡ true

abbrev pub IsCompleted : String → Db → Type 0
IsCompleted id db = IsIn is_completed id db

-- The item that owns a completed key is completed.
pub record HasOwners (db : Db) : Type 0 where
  pub at :
      (name : String) (k : Key)
      → lookup name db.keys ≡ some k
      → k.status ≡ KeyStatus.key_completed
      → IsCompleted k.owner_item_id db

pub some_of : {A : Type 0} {x y : A} → some x ≡ some y → x ≡ y
some_of q = cc

-- the row of a key after an update: the same, or the changed row of the item's own key
abbrev pub IsOwnChange : String → KeyChange → String → Dict Key → Key → Type 0
IsOwnChange id ch n d k =
    (old : Key) × (lookup n d ≡ some old) × (old.owner_item_id ≡ id) × (k ≡ changed_key ch old)

pub put_key :
    (name n : String) (new k : Key) (d : Dict Key)
    → lookup n (put name new d) ≡ some k
    → (lookup n d ≡ some k) ⊎ ((name ≡ n) × (k ≡ new))
put_key name n new k d g = ground (arith, g, lookup-put name n new d, eq_iff name n)

pub lookup-change_key :
    (id : String) (ch : KeyChange) (name n : String) (d : Dict Key) (k : Key)
    → lookup n (change_key id ch name d) ≡ some k
    → (lookup n d ≡ some k) ⊎ IsOwnChange id ch n d k
unfolding change_key
lookup-change_key id ch name n d k h = by (lookup name d) refl h
  where
    owned :
        (old : Key)
        → lookup name d ≡ some old
        → old.owner_item_id ≡ id
        → (lookup n d ≡ some k) ⊎ ((name ≡ n) × (k ≡ changed_key ch old))
        → (lookup n d ≡ some k) ⊎ IsOwnChange id ch n d k
    owned old e own (inl same) = inl same
    owned old e own (inr (m, new)) = inr (old, ap (λ x. lookup x d) (sym m) ∙ e, own, new)

    by :
        (o : Option Key)
        → lookup name d ≡ o
        → lookup n (change_owned id ch name o d) ≡ some k
        → (lookup n d ≡ some k) ⊎ IsOwnChange id ch n d k
    by none e g = inl g
    by (some old) e g = elim (Bool-cases (old.owner_item_id == id)) [
      | inl own ↦
          owned old e (str-eq→eq old.owner_item_id id own)
            (put_key name n (changed_key ch old) k d (ground (arith, own, g)))
      | inr foreign ↦ inl (ground (arith, foreign, g))
    ]

-- a key that the item does not own stays
pub foreign_key_stays :
    (id : String) (ch : KeyChange) (name n : String) (d : Dict Key) (k : Key)
    → lookup n d ≡ some k
    → (lookup n (change_key id ch name d) ≡ some k) ⊎ (k.owner_item_id ≡ id)
unfolding change_key
foreign_key_stays id ch name n d k h = by (lookup name d) refl
  where
    same_row : (old : Key) → lookup name d ≡ some old → name ≡ n → old ≡ k
    same_row old e m = some_of (sym e ∙ ap (λ x. lookup x d) m ∙ h)

    by :
        (o : Option Key)
        → lookup name d ≡ o
        → (lookup n (change_owned id ch name o d) ≡ some k) ⊎ (k.owner_item_id ≡ id)
    by none e = inl h
    by (some old) e = elim (Bool-cases (old.owner_item_id == id)) [
      | inr foreign ↦ rw foreign (inl h)
      | inl own ↦ elim (Bool-cases (name == n)) [
        | inl m ↦ inr (
            ap Key.owner_item_id (sym (same_row old e (str-eq→eq name n m)))
            ∙ str-eq→eq old.owner_item_id id own)
        | inr m ↦ inl (ground (arith, own, m, h, lookup-put name n (changed_key ch old) d))
      ]
    ]

other_item_stays :
    (p : ItemStatus → Bool) (id o : String) (new : Item) (s t : Db)
    → t.items ≡ put id new s.items
    → (id == o) ≡ false
    → IsIn p o s
    → IsIn p o t
other_item_stays p id o new s t e d h = record {
  item = h.item;
  is_there = ground (arith, e, d, lookup-put id o new s.items, h.is_there);
  status = h.status;
}

pub same-IsIn :
    (p : ItemStatus → Bool) (o : String) (s t : Db) → t.items ≡ s.items → IsIn p o s → IsIn p o t
same-IsIn p o s t e h = record {
  item = h.item;
  is_there = ap (λ d. lookup o d) e ∙ h.is_there;
  status = h.status;
}

-- a test that passes statuses only that never change
module _ (p : ItemStatus → Bool) (final : (s : ItemStatus) → p s ≡ true → is_final s ≡ true) where
  -- the row of such an item is not one that an update changes
  pub not_in_before :
      (id : String) (i : Item) (j : Job) (u : Update) (db : Db)
      → lookup id db.items ≡ some i
      → IsChange i j u
      → IsIn p id db
      → ⊥
  not_in_before id i j u db a ch h =
      both i.status
        (final i.status (ap (λ x. p x.status) (some_of (sym a ∙ h.is_there)) ∙ h.status))
        ch.not_final
    where
      both : (s : ItemStatus) → is_final s ≡ true → is_final s ≡ false → ⊥
      both s e f = ground (arith, e, f)

  pub commit-IsIn :
      (c : Context) (id o : String) (i : Item) (j : Job) (u : Update) (db : Db)
      → lookup id db.items ≡ some i
      → IsChange i j u
      → IsIn p o db
      → IsIn p o (commit c id i.job_id u db)
  commit-IsIn c id o i j u db a ch h = elim (Bool-cases (id == o)) [
    | inl same ↦
        absurd
          (not_in_before id i j u db a ch (subst (λ x. IsIn p x db) (sym (str-eq→eq id o same)) h))
    | inr other ↦ other_item_stays p id o u.item db _ (commit_rows c id i.job_id u db).0 other h
  ]

  -- a heartbeat is on an item under a lease
  pub beat-IsIn :
      (id o : String) (i : Item) (t : ℕ) (db : Db)
      → lookup id db.items ≡ some i
      → is_leased i.status ≡ true
      → IsIn p o db
      → IsIn p o (with_beat id i t db)
  beat-IsIn id o i t db a l h = elim (Bool-cases (id == o)) [
    | inl same ↦ absurd (
        leased_or_not i.status l (
          final i.status (
            ap (λ x. p x.status)
              (some_of (sym a ∙ ap (λ x. lookup x db.items) (str-eq→eq id o same) ∙ h.is_there))
            ∙ h.status)))
    | inr other ↦ other_item_stays p id o (record i { lease_expires_at = some t }) db _ refl other h
  ]
    where
      leased_or_not : (s : ItemStatus) → is_leased s ≡ true → is_final s ≡ true → ⊥
      leased_or_not s l e = ground (arith, l, e)
