-- ===== src/Sync/Target.antt =====
-- The manifest that the changes of a scan lead to.
use poor_travel_agent.Base.{
  ℕ, String, Bool, true, false, ◌&&◌, ◌≡◌, refl, sym, ap, ◌∙◌, Option, none, some, List, [], ◌∷◌,
  ◌++◌, filter, all, arith, &&-true, is_some, ◌==◌, eq_iff, if◌then◌else◌,
}
use poor_travel_agent.Base.Effect.{ok, raised}
use poor_travel_agent.Base.Dict.{IsDict, put-IsDict, Dict, lookup, put, lookup-put}
use poor_travel_agent.Sync.Sorted.{insert_sorted, sorted, at}
use poor_travel_agent.Sync.Changes.{
  value_error, ScannedFile, SyncChange, Manifest, Context, scanned_change, deleted_change,
  is_in_scope, collect, sorted_items, changes_in, row_of, target_manifest,
}
use poor_travel_agent.Sync.Rows.{scanned_of, deleted_of, filter-changes_in}

-- What a manifest should say of a path after a scan: a scanned path is present with its revision, a
-- present path of the scanned directory that was not scanned is deleted, all else is as before.
abbrev pub synced_row :
    List ℕ → String → Option ScannedFile → Option (String × String) → Option (String × String)
synced_row scope path (some s) before = some (s.source_revision, "present")
synced_row scope path none none = none
synced_row scope path none (some (revision, status)) =
    some (revision, (if status == "present" && is_in_scope scope path then "deleted" else status))

abbrev has_row : SyncChange → Bool
has_row change = is_some (row_of change)

-- the manifest after changes that all write a row
put_row : Option (String × String) → String → Manifest → Manifest
put_row none p m = m
put_row (some row) p m = put p row m

put_rows : List SyncChange → Manifest → Manifest
put_rows [] m = m
put_rows (x ∷ xs) m = put_rows xs (put_row (row_of x) x.relative_path m)

target_step :
    (x : SyncChange) (xs : List SyncChange) (m : Manifest) (row : String × String)
    → row_of x ≡ some row
    → target_manifest (x ∷ xs) m ≡ target_manifest xs (put x.relative_path row m)
unfolding target_manifest
target_step x xs m row e =
    ap
      (λ o. elim o [
        | none ↦ raised value_error
        | some r ↦ target_manifest xs (put x.relative_path r m)
      ])
      e

target-put_rows :
    (xs : List SyncChange) (m : Manifest)
    → all has_row xs ≡ true
    → target_manifest xs m ≡ ok (put_rows xs m)
unfolding target_manifest put_rows put_row
target-put_rows [] m h = refl
target-put_rows (x ∷ xs) m h =
    by (row_of x) refl (λ n g. target-put_rows xs n g) (&&-true (has_row x) (all has_row xs) h)
  where
    by :
        (o : Option (String × String))
        → row_of x ≡ o
        → ((n : Manifest) → all has_row xs ≡ true → target_manifest xs n ≡ ok (put_rows xs n))
        → (has_row x ≡ true) × (all has_row xs ≡ true)
        → target_manifest (x ∷ xs) m ≡ ok (put_rows (x ∷ xs) m)
    by none e rest (f, g) = absurd (no (sym (ap is_some e) ∙ f))
      where
        no : false ≡ true → ⊥
        no q = cc
    by (some row) e rest (f, g) =
        target_step x xs m row e ∙ rw e (rest (put x.relative_path row m) g)

put_rows-IsDict : (xs : List SyncChange) (m : Manifest) → IsDict m → IsDict (put_rows xs m)
unfolding put_rows put_row
put_rows-IsDict [] m h = h
put_rows-IsDict (x ∷ xs) m h = put_rows-IsDict xs _ (by (row_of x))
  where
    by : (o : Option (String × String)) → IsDict (put_row o x.relative_path m)
    by none = h
    by (some row) = put-IsDict x.relative_path row m h

-- the last row that is written
abbrev last_row : List SyncChange → Option (String × String) → Option (String × String)
last_row [] o = o
last_row (x ∷ xs) o = last_row xs (elim (row_of x) [ none ↦ o | some row ↦ some row ])

lookup-put_rows :
    (p : String) (xs : List SyncChange) (m : Manifest)
    → lookup p (put_rows xs m) ≡ last_row (filter (at SyncChange.relative_path p) xs) (lookup p m)
unfolding put_rows put_row
lookup-put_rows p [] m = refl
lookup-put_rows p (x ∷ xs) m =
    lookup-put_rows p xs (put_row (row_of x) x.relative_path m) ∙ by (row_of x) refl
  where
    by :
        (o : Option (String × String))
        → row_of x ≡ o
        → last_row
            (filter (at SyncChange.relative_path p) xs)
            (lookup p (put_row o x.relative_path m))
          ≡ last_row (filter (at SyncChange.relative_path p) (x ∷ xs)) (lookup p m)
    by none e = ground (arith, e)
    by (some row) e = ground (arith, e, lookup-put x.relative_path p row m)

-- every change of a scan writes a row
all-append :
    (xs ys : List SyncChange)
    → all has_row xs ≡ true
    → all has_row ys ≡ true
    → all has_row (xs ++ ys) ≡ true
all-append [] ys h g = g
all-append (x ∷ xs) ys h g =
    ground (arith, h, all-append xs ys (&&-true (has_row x) (all has_row xs) h).1 g)

all-insert :
    (x : SyncChange) (ys : List SyncChange)
    → has_row x ≡ true
    → all has_row ys ≡ true
    → all has_row (insert_sorted SyncChange.relative_path x ys) ≡ true
unfolding insert_sorted
all-insert x [] h g = ground (arith, h)
all-insert x (y ∷ ys) h g =
    let rest = all-insert x ys h (&&-true (has_row y) (all has_row ys) g).1 in
    ground (arith, h, g, rest)

all-sorted :
    (xs : List SyncChange)
    → all has_row xs ≡ true
    → all has_row (sorted SyncChange.relative_path xs) ≡ true
unfolding sorted
all-sorted [] h = refl
all-sorted (x ∷ xs) h =
    let (one, rest) = &&-true (has_row x) (all has_row xs) h in
    all-insert x _ one (all-sorted xs rest)

all-collect :
    {A : Type 0} (f : A → List SyncChange) (xs : List A)
    → ((x : A) → all has_row (f x) ≡ true)
    → all has_row (collect f xs) ≡ true
unfolding collect
all-collect f [] h = refl
all-collect f (x ∷ xs) h = all-append (f x) (collect f xs) (h x) (all-collect f xs h)

scanned_row :
    (c : Context) (p : String) (s : ScannedFile) (o : Option (String × String))
    → all has_row (scanned_change c p s o) ≡ true
unfolding scanned_change
scanned_row c p s none = refl
scanned_row c p s (some (revision, status)) = ground arith

deleted_row :
    (c : Context) (scope : List ℕ) (o : Option ScannedFile) (p : String) (row : String × String)
    → all has_row (deleted_change c scope o p row) ≡ true
unfolding deleted_change
deleted_row c scope o p (revision, status) = ground arith

changes_have_rows :
    (c : Context) (scope : List ℕ) (current : Dict ScannedFile) (previous : Manifest)
    → all has_row (changes_in c scope current previous) ≡ true
unfolding changes_in
changes_have_rows c scope current previous =
    all-sorted (collect scan (sorted_items current) ++ collect delete (sorted_items previous)) (
      all-append (collect scan (sorted_items current)) (collect delete (sorted_items previous))
        (all-collect scan (sorted_items current) (λ e. scanned_row c e.0 e.1 (lookup e.0 previous)))
        (all-collect delete (sorted_items previous)
          (λ e. deleted_row c scope (lookup e.0 current) e.0 e.1)))
  where
    scan : String × ScannedFile → List SyncChange
    scan e = scanned_change c e.0 e.1 (lookup e.0 previous)

    delete : String × (String × String) → List SyncChange
    delete e = deleted_change c scope (lookup e.0 current) e.0 e.1

-- what the changes of one path write over the row that it had
last_changes :
    (c : Context) (scope : List ℕ) (current : Dict ScannedFile) (previous : Manifest) (p : String)
    (s : Option ScannedFile) (o : Option (String × String))
    → lookup p current ≡ s
    → lookup p previous ≡ o
    → last_row (scanned_of c previous p s ++ deleted_of c scope current p o) o
      ≡ synced_row scope p s o
unfolding scanned_change deleted_change
last_changes c scope current previous p (some s) none a b = rw b refl
last_changes c scope current previous p (some s) (some (revision, status)) a b =
    rw (a, b) (ground (arith, eq_iff revision s.source_revision, eq_iff status "present"))
last_changes c scope current previous p none none a b = refl
last_changes c scope current previous p none (some (revision, status)) a b = rw a (ground arith)

-- the manifest that changes lead to, and what it says of every path
pub record IsSynced (changes : List SyncChange) (scope : List ℕ) (current : Dict ScannedFile)
    (previous : Manifest) : Type 0 where
  pub target : Manifest
  pub is_target : target_manifest changes previous ≡ ok target
  pub is_dict : IsDict target
  pub rows :
      (p : String) → lookup p target ≡ synced_row scope p (lookup p current) (lookup p previous)

pub changes_in-IsSynced :
    (c : Context) (scope : List ℕ) (current : Dict ScannedFile) (previous : Manifest)
    → IsDict current
    → IsDict previous
    → IsSynced (changes_in c scope current previous) scope current previous
changes_in-IsSynced c scope current previous h g = record {
  target = put_rows (changes_in c scope current previous) previous;
  is_target = target-put_rows _ previous (changes_have_rows c scope current previous);
  is_dict = put_rows-IsDict _ previous g;
  rows = λ p.
      lookup-put_rows p _ previous
      ∙ ap (λ xs. last_row xs (lookup p previous))
          (filter-changes_in c scope current previous p h g)
      ∙ last_changes c scope current previous p (lookup p current) (lookup p previous) refl refl;
}
